-- ===== src/Sanitize/Stripped.antt =====
-- What `detectShellSyntax` says of what `stripShellSyntax` returns.
use elepha.Common.{
  ℕ, zero, suc, ◌-◌, ◌<◌, Bool, true, false, not, ◌||◌, [], ◌∷◌, ◌++◌, ◌≡◌, refl, ap, ◌==◌, ◌⊎◌,
  if◌then◌else◌, arith, Bool-cases, inl, inr, any, keep, length,
}
use elepha.Sanitize.Units.{
  Text, backtick, is_opener, is_heredoc, is_token, is_control, control_test, strip_controls,
}
use elepha.Sanitize.Chains.{
  Lines, last, line, join, lines, split_blank, split_chain, rewrite_line, map_bodies, any_active,
  rewrite_leading_chains, has_active_chain_character,
}
use elepha.Sanitize.Strip.{
  drop_closer, remove_openers, remove_heredocs, strip_pass, same_text, strip_passes, max_passes,
  strip_shell_syntax,
}
use elepha.Sanitize.Escape.{is_backtick}
use elepha.Sanitize.Detect.{detect_shell_syntax}
use elepha.Sanitize.Insertion.{has_token}
use elepha.Sanitize.Lines.{join-lines, append-split_blank, append-split_chain}
use elepha.Sanitize.Escaped.{detect_lem, strip_controls-control_test}
use elepha.Sanitize.Shrinking.{has_backtick, has_heredoc, has_opener, pass_finds, strip_pass-Shrunk}

has_token_parts : (s : Text) → has_token s ≡ (has_opener s || has_heredoc s)
unfolding has_token has_opener has_heredoc is_token
has_token_parts [] = refl
has_token_parts (c ∷ []) = refl
has_token_parts (c ∷ d ∷ s) = rw (has_token_parts (d ∷ s)) (ground arith)

active_of_none : (b s : Text) → has_backtick s ≡ false → any_active is_backtick b s ≡ false
unfolding any_active
active_of_none b [] h = refl
active_of_none b (c ∷ s) h = ground (arith, active_of_none (c ∷ b) s)

undetected_of_pass_finds :
    (s : Text) → control_test s ≡ false → pass_finds s ≡ false → detect_shell_syntax s ≡ false
undetected_of_pass_finds s h f =
    rw (detect_lem, has_token_parts) (ground (arith, active_of_none [] s))

pub same_text-eq : (s t : Text) → same_text s t ≡ true → s ≡ t
unfolding same_text
same_text-eq [] [] h = refl
same_text-eq [] (d ∷ t) h = cc
same_text-eq (c ∷ s) [] h = cc
same_text-eq (c ∷ s) (d ∷ t) h = ground (arith, same_text-eq s t)

same_text_refl : (s : Text) → same_text s s ≡ true
unfolding same_text
same_text_refl [] = refl
same_text_refl (c ∷ s) = ground (arith, same_text_refl s)

-- Each of the first `n` passes over the text removes a unit at least.
abbrev pub EachShortens : ℕ → Text → Type 0
EachShortens zero s = Unit
EachShortens (suc n) s = (length (strip_pass s) < length s) × EachShortens n (strip_pass s)

-- The loop ends by a pass that finds nothing, or each of its passes has removed a unit.
strip_passes_ends : (n : ℕ) (s : Text) → (pass_finds (strip_passes n s) ≡ false) ⊎ EachShortens n s
unfolding strip_passes
strip_passes_ends zero s = inr tt
strip_passes_ends (suc n) s = elim (strip_pass-Shrunk s) [
  | inl (f, e) ↦ inl (rw (e, same_text_refl s) f)
  | inr l ↦ elim (Bool-cases (same_text (strip_pass s) s)) [
    | inl h ↦ absurd (omega (arith, ap (length {A = ℕ}) (same_text-eq _ _ h)))
    | inr h ↦
        rw h (elim (strip_passes_ends n (strip_pass s)) [ inl f ↦ inl f | inr k ↦ inr (l, k) ])
  ]
]

any-append :
    (p : ℕ → Bool) (s t : Text) → any p s ≡ false → any p t ≡ false → any p (s ++ t) ≡ false
any-append p [] t h k = k
any-append p (c ∷ s) t h k = ground (arith, any-append p s t)

any-left : (p : ℕ → Bool) (s t : Text) → any p (s ++ t) ≡ false → any p s ≡ false
any-left p [] t h = refl
any-left p (c ∷ s) t h = ground (arith, any-left p s t)

any-right : (p : ℕ → Bool) (s t : Text) → any p (s ++ t) ≡ false → any p t ≡ false
any-right p [] t h = h
any-right p (c ∷ s) t h = any-right p s t (ground arith)

-- Nothing that a text lacks comes in by a pass.
module _ (p : ℕ → Bool) where
  any-drop_closer :
      (o k depth : ℕ) (s : Text) → any p s ≡ false → any p (drop_closer o k depth s) ≡ false
  unfolding drop_closer
  any-drop_closer o k depth [] h = refl
  any-drop_closer o k depth (c ∷ s) h = ground (
    arith,
    any-drop_closer o k (suc depth) s,
    any-drop_closer o k (depth - 1) s,
    any-drop_closer o k depth s,
  )

  any-remove_openers : (n : ℕ) (s : Text) → any p s ≡ false → any p (remove_openers n s) ≡ false
  unfolding remove_openers
  any-remove_openers zero s h = h
  any-remove_openers (suc n) [] h = refl
  any-remove_openers (suc n) (c ∷ []) h = h
  any-remove_openers (suc n) (c ∷ d ∷ s) h =
      let closer : ℕ = if d == b'(' then b')' else b'}' in
      elim (Bool-cases (is_opener c d)) [
        | inl e ↦ rw e (
            any-remove_openers n (drop_closer d closer 0 s)
              (any-drop_closer d closer 0 s (ground arith)))
        | inr e ↦ rw e (ground (arith, any-remove_openers n (d ∷ s)))
      ]

  any-keep : (q : ℕ → Bool) (s : Text) → any p s ≡ false → any p (keep q s) ≡ false
  any-keep q [] h = refl
  any-keep q (c ∷ s) h = ground (arith, any-keep q s)

  any-remove_heredocs : (s : Text) → any p s ≡ false → any p (remove_heredocs s) ≡ false
  unfolding remove_heredocs
  any-remove_heredocs [] h = refl
  any-remove_heredocs (c ∷ []) h = h
  any-remove_heredocs (c ∷ d ∷ s) h = elim (Bool-cases (is_heredoc c d)) [
    | inl e ↦ rw e (any-remove_heredocs s (ground arith))
    | inr e ↦ rw e (ground (arith, any-remove_heredocs (d ∷ s)))
  ]

  any-rewrite_line : (s : Text) → any p s ≡ false → any p (rewrite_line (λ _. []) s) ≡ false
  unfolding rewrite_line
  any-rewrite_line s h =
      let whole : any p ((split_blank s).0 ++ (split_blank s).1) ≡ false =
        rw (append-split_blank s) h in
      let found : any p ((split_chain (split_blank s).1).0 ++ (split_chain (split_blank s).1).1)
          ≡ false =
        rw (append-split_chain (split_blank s).1) (any-right p _ _ whole) in
      elim (Bool-cases (has_active_chain_character (split_chain (split_blank s).1).0)) [
        | inl e ↦ rw e (
            any-append p (split_blank s).0 (split_chain (split_blank s).1).1 (any-left p _ _ whole)
              (any-right p _ _ found))
        | inr e ↦ rw e h
      ]

  any-map_bodies :
      (ls : Lines)
      → any p (join ls) ≡ false
      → any p (join (map_bodies (rewrite_line (λ _. [])) ls)) ≡ false
  unfolding map_bodies join
  any-map_bodies (last b) h = any-rewrite_line b h
  any-map_bodies (line b t ls) h =
      let rest : any p (t ∷ join ls) ≡ false = any-right p b (t ∷ join ls) h in
      any-append p (rewrite_line (λ _. []) b) (t ∷ join (map_bodies (rewrite_line (λ _. [])) ls))
        (any-rewrite_line b (any-left p b (t ∷ join ls) h)) (ground (arith, any-map_bodies ls))

  any-strip_pass : (s : Text) → any p s ≡ false → any p (strip_pass s) ≡ false
  unfolding strip_pass rewrite_leading_chains
  any-strip_pass s h = any-map_bodies (lines _) (
      rw (join-lines _) (
        any-remove_heredocs _
          (any-keep (λ c. not (c == backtick)) _ (any-remove_openers (length s) s h))))

  any-strip_passes : (n : ℕ) (s : Text) → any p s ≡ false → any p (strip_passes n s) ≡ false
  unfolding strip_passes
  any-strip_passes zero s h = h
  any-strip_passes (suc n) s h = elim (Bool-cases (same_text (strip_pass s) s)) [
    | inl e ↦ rw e (any-strip_pass s h)
    | inr e ↦ rw e (any-strip_passes n (strip_pass s) (any-strip_pass s h))
  ]

-- Stripped text is not detected as shell-active, unless each of the first eight passes over the text
-- without its control sequences makes it shorter.
pub detect-strip_shell_syntax :
    (s : Text)
    → (detect_shell_syntax (strip_shell_syntax s) ≡ false) ⊎ EachShortens 8 (strip_controls s)
unfolding strip_shell_syntax
detect-strip_shell_syntax s = elim (strip_passes_ends max_passes (strip_controls s)) [
  | inl f ↦ inl (
      undetected_of_pass_finds _
        (any-strip_passes is_control max_passes _ (strip_controls-control_test s)) f)
  | inr l ↦ inr l
]
