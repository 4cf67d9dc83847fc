-- ===== src/Rollup/Decimal.antt =====
-- A number that a prompt shows in decimal is read back.
use elepha.Common.{
  ℕ, zero, suc, ◌+◌, ◌-◌, ◌*◌, ◌/◌, ◌%◌, ◌<◌, ◌≤◌, some, [], ◌∷◌, ◌++◌, ◌≡◌, refl, sym, ap, ◌∙◌,
  inl, inr, ltb, le→leb, Bool-cases, ltb→lt, ltb-false, arith,
}
use elepha.Sanitize.Units.{Text}
use elepha.Rollup.Texts.{decimal_from, decimal, read_digits, read_number}
use mathlib.Core.List.{append-nil, append_assoc}

digit-value : (d : ℕ) → b'0' + d - b'0' ≡ d
digit-value d = omega arith

read_digits-digit :
    (d n : ℕ) (s : Text) → d < 10 → read_digits n ((b'0' + d) ∷ s) ≡ read_digits (n * 10 + d) s
unfolding read_digits
read_digits-digit d n s l =
    rw (le→leb b'0' (b'0' + d) (omega arith), le→leb (b'0' + d) b'9' (omega arith), digit-value d)

first-value : (n : ℕ) → 0 * 10 + n ≡ n
first-value n = omega arith

digits-value : (n : ℕ) → n / 10 * 10 + n % 10 ≡ n
digits-value n = omega arith

div_lt : (n fuel : ℕ) → n < suc fuel → 10 ≤ n → n / 10 < fuel
div_lt n fuel l m = omega arith

read_digits-decimal_from :
    (fuel n : ℕ) (s : Text) → n < fuel → read_digits 0 (decimal_from fuel n ++ s) ≡ read_digits n s
unfolding decimal_from
read_digits-decimal_from zero n s l = absurd (omega (arith, l))
read_digits-decimal_from (suc fuel) n s l = elim (Bool-cases (ltb n 10)) [
  | inl h ↦
      rw h (read_digits-digit n 0 s (ltb→lt n 10 h) ∙ ap (λ k. read_digits k s) (first-value n))
  | inr h ↦
      rw (h, append_assoc (decimal_from fuel (n / 10)) ((b'0' + n % 10) ∷ []) s)
        (read_digits-decimal_from fuel (n / 10) ((b'0' + n % 10) ∷ s)
            (div_lt n fuel l (ltb-false n 10 h))
          ∙ read_digits-digit (n % 10) (n / 10) s (omega arith)
          ∙ ap (λ k. read_digits k s) (digits-value n))
]

read_number-append :
    (s : Text) (c : ℕ) → read_number (s ++ (c ∷ [])) ≡ read_digits 0 (s ++ (c ∷ []))
unfolding read_number
read_number-append [] c = refl
read_number-append (d ∷ s) c = refl

read_number-decimal_from :
    (fuel n : ℕ)
    → read_number (decimal_from (suc fuel) n) ≡ read_digits 0 (decimal_from (suc fuel) n)
unfolding decimal_from
read_number-decimal_from fuel n = elim (Bool-cases (ltb n 10)) [
  | inl h ↦ rw h (read_number-append [] (b'0' + n))
  | inr h ↦ rw h (read_number-append (decimal_from fuel (n / 10)) (b'0' + n % 10))
]

-- Reading the decimal digits of a number as a number gives it back.
pub read_number-decimal : (n : ℕ) → read_number (decimal n) ≡ some n
unfolding decimal read_digits
read_number-decimal n =
    read_number-decimal_from n n
    ∙ ap (read_digits 0) (sym (append-nil (decimal_from (suc n) n)))
    ∙ read_digits-decimal_from (suc n) n [] (omega arith)
