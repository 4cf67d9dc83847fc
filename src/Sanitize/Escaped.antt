-- ===== src/Sanitize/Escaped.antt =====
-- What `detectShellSyntax` says of what `escapeShellSyntax` returns, and when escaping is the identity.
use elepha.Common.{
  ℕ, zero, Bool, true, false, not, ◌||◌, [], ◌∷◌, ◌≡◌, refl, ap, ◌==◌, ◌∙◌, arith, Bool-cases, inl,
  inr, keep,
}
use elepha.Sanitize.Units.{
  Text, backslash, esc, is_token, is_control, strip_ansi, strip_controls, ansi_test, control_test,
}
use elepha.Sanitize.Chains.{
  is_operator, any_active, rewrite_leading_chains, detect_active_leading_chain,
}
use elepha.Sanitize.Escape.{
  break_pairs, is_backtick, escape_backticks, escape_chain, escape_shell_syntax,
}
use elepha.Sanitize.Detect.{has_active_unit, detect_shell_syntax, assert_no_shell_syntax}
use elepha.Sanitize.Insertion.{
  Inserted, escape_active-Inserted, any_active-escape_active, any_active-Inserted,
  escape_active_of_inactive, has_token, has_token-Inserted,
}
use elepha.Sanitize.Breaking.{
  has_overlap, not_token-backslash, backslash-not_token, has_token-break_pairs,
  break_pairs_of_no_token,
}
use elepha.Sanitize.LeadingChains.{
  rewrite_leading_chains-Inserted, rewrite_leading_chains-inert, rewrite_leading_chains_of_inert,
}

pub has_active_unit_lem :
    (b s : Text) → has_active_unit b s ≡ (any_active is_backtick b s || has_token s)
unfolding has_active_unit any_active has_token
has_active_unit_lem b [] = refl
has_active_unit_lem b (c ∷ s) = rw (has_active_unit_lem (c ∷ b) s) (ground arith)

-- No unit is a control.
abbrev pub no_controls : Text → Bool
no_controls s = not (control_test s)

esc-is_control : (c : ℕ) → (c == esc) ≡ true → is_control c ≡ true
unfolding is_control
esc-is_control c h = ground arith

ansi_of_control : (s : Text) → control_test s ≡ false → ansi_test s ≡ false
ansi_of_control [] h = refl
ansi_of_control (c ∷ s) h = ground (arith, esc-is_control c, ansi_of_control s)

-- The verdict in parts: a control, an active backtick, a token, an active leading chain.
pub detect_lem :
    (s : Text)
    → detect_shell_syntax s ≡ (
        control_test s
        || any_active is_backtick [] s
        || has_token s
        || detect_active_leading_chain s)
unfolding detect_shell_syntax
detect_lem s = elim (Bool-cases (control_test s)) [
  | inl h ↦ rw h (ground arith)
  | inr h ↦ rw (h, ansi_of_control s h, has_active_unit_lem [] s) (ground arith)
]

keep-control_test : (s : Text) → control_test (keep (λ c. not (is_control c)) s) ≡ false
keep-control_test [] = refl
keep-control_test (c ∷ s) = elim (Bool-cases (is_control c)) [
  | inl h ↦ rw h (keep-control_test s)
  | inr h ↦ rw h (rw h (keep-control_test s))
]

pub strip_controls-control_test : (s : Text) → control_test (strip_controls s) ≡ false
unfolding strip_controls
strip_controls-control_test s = keep-control_test (strip_ansi zero s)

strip_ansi_of_none : (s : Text) → control_test s ≡ false → strip_ansi zero s ≡ s
unfolding strip_ansi
strip_ansi_of_none [] h = refl
strip_ansi_of_none (c ∷ s) h = ground (arith, esc-is_control c, strip_ansi_of_none s)

keep_of_none : (s : Text) → control_test s ≡ false → keep (λ c. not (is_control c)) s ≡ s
keep_of_none [] h = refl
keep_of_none (c ∷ s) h = ground (arith, keep_of_none s)

pub strip_controls_of_none : (s : Text) → control_test s ≡ false → strip_controls s ≡ s
unfolding strip_controls
strip_controls_of_none s h = rw (strip_ansi_of_none s h) (keep_of_none s h)

control-Inserted :
    (hit : ℕ → Bool) {s t : Text} → Inserted hit s t → control_test t ≡ control_test s
unfolding is_control
control-Inserted hit Inserted.done = refl
control-Inserted hit (Inserted.same c i) = rw (control-Inserted hit i)
control-Inserted hit (Inserted.more c h i) = rw (control-Inserted hit i)

control-break_pairs : (s : Text) → control_test (break_pairs s) ≡ control_test s
unfolding break_pairs is_control
control-break_pairs [] = refl
control-break_pairs (c ∷ []) = refl
control-break_pairs (c ∷ d ∷ s) = elim (Bool-cases (is_token c d)) [
  | inl h ↦ rw (h, control-break_pairs s)
  | inr h ↦ rw h (ap (λ b. is_control c || b) (control-break_pairs (d ∷ s)))
]

tick-operator : (c : ℕ) → is_operator c ≡ true → is_backtick c ≡ false
unfolding is_operator
tick-operator c h = ground arith

token-backtick : (c d : ℕ) → is_backtick d ≡ true → is_token c d ≡ false
unfolding is_token
token-backtick c d h = ground arith

token-operator : (c d : ℕ) → is_operator d ≡ true → is_token c d ≡ false
unfolding is_token is_operator
token-operator c d h = ground arith

abbrev chained : Text → Text
chained s = rewrite_leading_chains escape_chain (escape_backticks (break_pairs s))

chained-control_test : (s : Text) → control_test (chained s) ≡ control_test s
unfolding escape_backticks
chained-control_test s =
    control-Inserted is_operator (rewrite_leading_chains-Inserted _)
    ∙ control-Inserted is_backtick (escape_active-Inserted is_backtick [] (break_pairs s))
    ∙ control-break_pairs s

not_operator-backslash : is_operator backslash ≡ false
unfolding is_operator
not_operator-backslash = refl

chained-any_active : (s : Text) → any_active is_backtick [] (chained s) ≡ false
unfolding escape_backticks
chained-any_active s =
    any_active-Inserted is_backtick is_operator [] [] refl not_operator-backslash tick-operator refl
      (rewrite_leading_chains-Inserted _)
    ∙ any_active-escape_active is_backtick [] [] (break_pairs s) refl refl

chained-has_token : (s : Text) → has_token (chained s) ≡ has_overlap s
unfolding escape_backticks
chained-has_token s =
    has_token-Inserted is_operator token-operator not_token-backslash backslash-not_token
      (rewrite_leading_chains-Inserted _)
    ∙ has_token-Inserted is_backtick token-backtick not_token-backslash backslash-not_token
        (escape_active-Inserted is_backtick [] (break_pairs s))
    ∙ has_token-break_pairs s

-- Escaped text is detected as shell-active exactly when, controls removed, the input holds `<<<` or
-- `<<(`: of all other text nothing active is left.
pub detect-escape_shell_syntax :
    (s : Text) → detect_shell_syntax (escape_shell_syntax s) ≡ has_overlap (strip_controls s)
unfolding escape_shell_syntax
detect-escape_shell_syntax s =
    rw
      (
        detect_lem, chained-control_test, strip_controls-control_test, chained-any_active,
        chained-has_token, rewrite_leading_chains-inert,
      )
      (ground arith)

-- Text that is not detected is left as it is by escaping: `escapeShellSyntax` changes only what
-- `detectShellSyntax` reports.
pub escape_shell_syntax_of_undetected :
    (s : Text) → detect_shell_syntax s ≡ false → escape_shell_syntax s ≡ s
unfolding escape_shell_syntax escape_backticks
escape_shell_syntax_of_undetected s h =
    let parts : (control_test s ≡ false)
        × (any_active is_backtick [] s ≡ false)
        × (has_token s ≡ false)
        × (detect_active_leading_chain s ≡ false) =
      ground (arith, detect_lem s) in
    rw (
      strip_controls_of_none s parts.0,
      break_pairs_of_no_token s parts.2,
      escape_active_of_inactive is_backtick [] s parts.1,
      rewrite_leading_chains_of_inert escape_chain s parts.3,
    )

-- Escaping twice is escaping once, for text that holds neither `<<<` nor `<<(` when its controls are
-- removed.
pub escape_shell_syntax_idempotent :
    (s : Text)
    → has_overlap (strip_controls s) ≡ false
    → escape_shell_syntax (escape_shell_syntax s) ≡ escape_shell_syntax s
escape_shell_syntax_idempotent s h =
    escape_shell_syntax_of_undetected (escape_shell_syntax s) (detect-escape_shell_syntax s ∙ h)

-- `assertNoShellSyntax` serves the escaped text whatever it is given, and says that it repaired the text
-- exactly when `detectShellSyntax` reports it.
pub assert_no_shell_syntax_lem :
    (s : Text)
    → assert_no_shell_syntax s
      ≡ record { text = escape_shell_syntax s; repaired = detect_shell_syntax s }
unfolding assert_no_shell_syntax
assert_no_shell_syntax_lem s = elim (Bool-cases (detect_shell_syntax s)) [
  | inl h ↦ rw h
  | inr h ↦ rw (h, escape_shell_syntax_of_undetected s h)
]
