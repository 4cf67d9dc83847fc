-- ===== src/Rollup/TurnIndex.antt =====
-- src/summarizer/rollup-prompt.ts, src/summarizer/rollup-provider.ts: the turn index that a prompt
-- shows comes back from the reply, as a number or as a string.
use elepha.Common.{
  List, ◌++◌, ℕ, zero, suc, ◌+◌, ◌/◌, ◌%◌, ◌≤◌, false, some, [], ◌∷◌, ◌≡◌, refl, ap, ◌∙◌, inl, inr,
  ltb, ◌==◌, ltb→lt, Bool-cases, All, arith, sym,
}
use elepha.Sanitize.Units.{Text}
use elepha.Rollup.Texts.{
  join, pos, is_blank, trim_start, trim_end, trim, decimal_from, decimal, read_number, read_integer,
}
use elepha.Common.Codes.{codes}
use mathlib.Core.List.{append-nil, append_assoc}
use elepha.Rollup.Prompt.{RollupTurnInput, render_turn}
use elepha.Rollup.Decimal.{read_number-decimal}
use elepha.Rollup.Keyed.{All-append}
use elepha.Rollup.Updates.{none-some}
use elepha.Rollup.Reply.{text, coerce_turn_index}

abbrev pub IsDigit : ℕ → Type 0
IsDigit c = (b'0' ≤ c) × (c ≤ b'9')

decimal_from-IsDigit : (fuel n : ℕ) → All IsDigit (decimal_from fuel n)
unfolding decimal_from
decimal_from-IsDigit zero n = tt
decimal_from-IsDigit (suc fuel) n = elim (Bool-cases (ltb n 10)) [
  | inl h ↦ rw h ((omega arith, omega (arith, ltb→lt n 10 h)), tt)
  | inr h ↦ rw h (
      All-append IsDigit (decimal_from fuel (n / 10)) ((b'0' + n % 10) ∷ [])
        (decimal_from-IsDigit fuel (n / 10)) ((omega arith, omega arith), tt))
]

digit-blank : (c : ℕ) → IsDigit c → is_blank c ≡ false
unfolding is_blank
digit-blank c (l, h) = ground arith

digit-minus : (c : ℕ) → IsDigit c → (c == b'-') ≡ false
digit-minus c (l, h) = ground arith

trim_start-digits : (t : Text) → All IsDigit t → trim_start t ≡ t
unfolding trim_start
trim_start-digits [] h = refl
trim_start-digits (c ∷ t) h = rw (digit-blank c h.0) refl

trim_end-digits : (t : Text) → All IsDigit t → trim_end t ≡ t
unfolding trim_end
trim_end-digits [] h = refl
trim_end-digits (c ∷ t) h = rw (digit-blank c h.0, trim_end-digits t h.1) refl

trim-digits : (t : Text) → All IsDigit t → trim t ≡ t
unfolding trim
trim-digits t h = ap trim_end (trim_start-digits t h) ∙ trim_end-digits t h

read_integer-digits :
    (t : Text) (n : ℕ) → All IsDigit t → read_number t ≡ some n → read_integer t ≡ some (pos n)
unfolding read_integer read_number
read_integer-digits [] n h e = absurd (none-some n e)
read_integer-digits (c ∷ t) n h e = rw (digit-minus c h.0, e) refl

coerce_turn_index-decimal : (n : ℕ) → coerce_turn_index (some (text (decimal n))) ≡ some (pos n)
unfolding coerce_turn_index decimal
coerce_turn_index-decimal n =
    ap read_integer (trim-digits (decimal n) (decimal_from-IsDigit (suc n) n))
    ∙ read_integer-digits (decimal n) n (decimal_from-IsDigit (suc n) n) (read_number-decimal n)

join_head :
    (separator t : Text) (ts : List Text) → (rest : Text) × (join separator (t ∷ ts) ≡ t ++ rest)
unfolding join
join_head separator t [] = ([], sym (append-nil t))
join_head separator t (u ∷ us) =
    (separator ++ join separator (u ∷ us), append_assoc t separator (join separator (u ∷ us)))

render_turn-starts :
    (t : RollupTurnInput)
    → (rest : Text) × (render_turn t
        ≡ (codes "<turn index=\""
            ++ decimal t.turn_index
            ++ codes "\" at=\""
            ++ t.started_at
            ++ codes "\">")
          ++ rest)
unfolding render_turn
render_turn-starts t = join_head (codes "\n") _ _

-- The text of a turn in the prompt begins with its tag, of which the index attribute holds digits and
-- ends at a quotation mark; a reply that gives these digits back as a string is read as the index of
-- the turn.
pub coerce_turn_index-render_turn :
    (t : RollupTurnInput)
    → (shown rest : Text) × (render_turn t
        ≡ codes "<turn index=\"" ++ shown ++ codes "\" at=\"" ++ rest)
      × All IsDigit shown
      × (coerce_turn_index (some (text shown)) ≡ some (pos t.turn_index))
unfolding decimal
coerce_turn_index-render_turn t =
    let (rest, e) = render_turn-starts t in
    let start = codes "<turn index=\"" ++ decimal t.turn_index ++ codes "\" at=\"" in
    (
      decimal t.turn_index,
      t.started_at ++ codes "\">" ++ rest,
      e
          ∙ ap (λ x. x ++ rest) (append_assoc start t.started_at (codes "\">"))
          ∙ append_assoc start (t.started_at ++ codes "\">") rest,
      decimal_from-IsDigit (suc t.turn_index) t.turn_index,
      coerce_turn_index-decimal t.turn_index,
    )
