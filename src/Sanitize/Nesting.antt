-- ===== src/Sanitize/Nesting.antt =====
-- Openers nested deeper than the passes of `stripShellSyntax` reach.
use elepha.Common.{
  ℕ, zero, suc, ◌+◌, ◌<◌, true, false, not, [], ◌∷◌, ◌≡◌, refl, ap, ◌==◌, arith, Bool-cases, inl,
  inr, keep, length,
}
use elepha.Sanitize.Units.{Text, backtick, is_token, is_control, control_test, strip_controls}
use elepha.Sanitize.Chains.{
  last, push, lines, is_terminator, is_operator, split_blank, split_chain, any_active,
  leading_chain, any_body, has_active_chain_character, detect_active_leading_chain,
}
use elepha.Sanitize.Strip.{
  drop_closer, remove_openers, remove_heredocs, strip_pass, same_text, strip_passes, max_passes,
  strip_shell_syntax,
}
use elepha.Sanitize.Detect.{detect_shell_syntax}
use elepha.Sanitize.Insertion.{has_token}
use elepha.Sanitize.LeadingChains.{rewrite_leading_chains_of_inert}
use elepha.Sanitize.Escaped.{detect_lem, strip_controls_of_none}
use elepha.Sanitize.Stripped.{same_text-eq}

abbrev parens : ℕ → Text → Text
parens zero s = s
parens (suc n) s = b'(' ∷ parens n s

abbrev dollars : ℕ → Text → Text
dollars zero s = s
dollars (suc n) s = b'$' ∷ dollars n s

-- `n` dollar signs, then `n` opening parentheses.
abbrev pub nest : ℕ → Text
nest n = dollars n (parens n [])

drop_closer-parens : (n depth : ℕ) → drop_closer b'(' b')' depth (parens n []) ≡ parens n []
unfolding drop_closer
drop_closer-parens zero depth = refl
drop_closer-parens (suc n) depth = ap (λ t. b'(' ∷ t) (drop_closer-parens n (suc depth))

remove_openers-parens : (f n : ℕ) → remove_openers f (parens n []) ≡ parens n []
unfolding remove_openers
remove_openers-parens zero n = refl
remove_openers-parens (suc f) zero = refl
remove_openers-parens (suc f) (suc zero) = refl
remove_openers-parens (suc f) (suc (suc n)) = ap (λ t. b'(' ∷ t) (remove_openers-parens f (suc n))

-- A pass over `k + 1` dollar signs and `n + 1` parentheses removes the innermost opener.
remove_openers-nest :
    (f k n : ℕ)
    → k < f
    → remove_openers f (dollars (suc k) (parens (suc n) [])) ≡ dollars k (parens n [])
unfolding remove_openers
remove_openers-nest zero k n h = elim h [ ]
remove_openers-nest (suc f) zero n h = rw (drop_closer-parens n 0) (remove_openers-parens f n)
remove_openers-nest (suc f) (suc k) n h =
    ap (λ t. b'$' ∷ t) (remove_openers-nest f k n (omega arith))

keep-parens : (n : ℕ) → keep (λ c. not (c == backtick)) (parens n []) ≡ parens n []
keep-parens zero = refl
keep-parens (suc n) = ap (λ t. b'(' ∷ t) (keep-parens n)

keep-dollars :
    (k n : ℕ) → keep (λ c. not (c == backtick)) (dollars k (parens n [])) ≡ dollars k (parens n [])
keep-dollars zero n = keep-parens n
keep-dollars (suc k) n = ap (λ t. b'$' ∷ t) (keep-dollars k n)

remove_heredocs-parens : (n : ℕ) → remove_heredocs (parens n []) ≡ parens n []
unfolding remove_heredocs
remove_heredocs-parens zero = refl
remove_heredocs-parens (suc zero) = refl
remove_heredocs-parens (suc (suc n)) = ap (λ t. b'(' ∷ t) (remove_heredocs-parens (suc n))

remove_heredocs-dollars :
    (k n : ℕ) → remove_heredocs (dollars k (parens n [])) ≡ dollars k (parens n [])
unfolding remove_heredocs
remove_heredocs-dollars zero n = remove_heredocs-parens n
remove_heredocs-dollars (suc zero) zero = refl
remove_heredocs-dollars (suc zero) (suc n) = ap (λ t. b'$' ∷ t) (remove_heredocs-parens (suc n))
remove_heredocs-dollars (suc (suc k)) n = ap (λ t. b'$' ∷ t) (remove_heredocs-dollars (suc k) n)

lines-parens : (n : ℕ) → lines (parens n []) ≡ last (parens n [])
unfolding lines is_terminator
lines-parens zero = refl
lines-parens (suc n) = ap (push b'(') (lines-parens n)

lines-dollars : (k n : ℕ) → lines (dollars k (parens n [])) ≡ last (dollars k (parens n []))
unfolding lines is_terminator
lines-dollars zero n = lines-parens n
lines-dollars (suc k) n = ap (push b'$') (lines-dollars k n)

nest-inert : (n : ℕ) → detect_active_leading_chain (nest n) ≡ false
unfolding detect_active_leading_chain any_body leading_chain has_active_chain_character split_blank
    split_chain any_active is_operator
nest-inert zero = unfold lines in refl
nest-inert (suc n) = rw (lines-dollars (suc n) (suc n))

strip_pass-nest : (n : ℕ) → strip_pass (nest (suc n)) ≡ nest n
unfolding strip_pass
strip_pass-nest n =
    rw
      (
        remove_openers-nest (length (nest (suc n))) n n (length-nest n),
        keep-dollars n n,
        remove_heredocs-dollars n n,
      )
      (rewrite_leading_chains_of_inert (λ _. []) (nest n) (nest-inert n))
  where
    length-dollars : (k : ℕ) (s : Text) → length (dollars k s) ≡ k + length s
    length-dollars zero s = omega arith
    length-dollars (suc k) s = omega (arith, length-dollars k s)

    length-nest : (k : ℕ) → k < length (nest (suc k))
    length-nest k = omega (arith, length-dollars (suc k) (parens (suc k) []))

length-parens : (n : ℕ) → length (parens n []) ≡ n
length-parens zero = refl
length-parens (suc n) = omega (arith, length-parens n)

length-nest_lem : (k n : ℕ) → length (dollars k (parens n [])) ≡ k + n
length-nest_lem zero n = omega (arith, length-parens n)
length-nest_lem (suc k) n = omega (arith, length-nest_lem k n)

strip_passes-nest : (n m k : ℕ) → k ≡ n + m → strip_passes n (nest k) ≡ nest m
unfolding strip_passes
strip_passes-nest zero m k e = ap nest (omega arith)
strip_passes-nest (suc n) m zero e = absurd (omega arith)
strip_passes-nest (suc n) m (suc k) e =
    rw (strip_pass-nest k) (elim (Bool-cases (same_text (nest k) (nest (suc k)))) [
      | inl h ↦ absurd (
          omega (
            arith,
            ap (length {A = ℕ}) (same_text-eq _ _ h),
            length-nest_lem k k,
            length-nest_lem (suc k) (suc k),
          ))
      | inr h ↦ rw h (strip_passes-nest n m k (omega arith))
    ])

no_control-parens : (n : ℕ) → control_test (parens n []) ≡ false
unfolding is_control
no_control-parens zero = refl
no_control-parens (suc n) = no_control-parens n

no_control-nest : (k n : ℕ) → control_test (dollars k (parens n [])) ≡ false
unfolding is_control
no_control-nest zero n = no_control-parens n
no_control-nest (suc k) n = no_control-nest k n

has_token-nest : (k n : ℕ) → has_token (dollars (suc k) (parens (suc n) [])) ≡ true
unfolding has_token is_token
has_token-nest zero n = refl
has_token-nest (suc k) n = has_token-nest k n

detected_nest : (n : ℕ) → detect_shell_syntax (nest (suc n)) ≡ true
detected_nest n = rw (detect_lem, has_token-nest n n) (ground arith)

-- Eight passes are not enough for more than eight nested `$(`: of `n + 9` of them `n + 1` come back, and
-- the result is detected as shell-active.
pub strip_shell_syntax-nest :
    (n : ℕ)
    → (strip_shell_syntax (nest (suc n + max_passes)) ≡ nest (suc n))
      × (detect_shell_syntax (strip_shell_syntax (nest (suc n + max_passes))) ≡ true)
unfolding strip_shell_syntax
strip_shell_syntax-nest n =
    let deep : ℕ = suc n + max_passes in
    let result : strip_passes max_passes (strip_controls (nest deep)) ≡ nest (suc n) =
      rw (strip_controls_of_none _ (no_control-nest deep deep))
        (strip_passes-nest max_passes (suc n) deep (omega arith)) in
    (result, rw result (detected_nest n))
