-- ===== src/Sanitize/Breaking.antt =====
-- What the first loop of `escapeShellSyntax` leaves of tokens.
use elepha.Common.{
  ℕ, Bool, true, false, ◌&&◌, ◌||◌, [], ◌∷◌, ◌≡◌, refl, ◌==◌, arith, Bool-cases, inl, inr,
}
use elepha.Sanitize.Units.{Text, backslash, less, is_token}
use elepha.Sanitize.Escape.{break_pairs}
use elepha.Sanitize.Detect.{starts_token}
use elepha.Sanitize.Insertion.{has_token}

abbrev pub starts_overlap : ℕ → Text → Bool
starts_overlap c [] = false
starts_overlap c (d ∷ []) = false
starts_overlap c (d ∷ e ∷ _) = c == less && d == less && (e == less || e == b'(')

-- The text holds `<<<` or `<<(`.
unfoldable pub has_overlap : Text → Bool
has_overlap [] = false
has_overlap (c ∷ s) = starts_overlap c s || has_overlap s

starts_token-break_pairs : (c : ℕ) (s : Text) → starts_token c (break_pairs s) ≡ starts_token c s
unfolding break_pairs
starts_token-break_pairs c [] = refl
starts_token-break_pairs c (d ∷ []) = refl
starts_token-break_pairs c (d ∷ e ∷ s) = elim (Bool-cases (is_token d e)) [
  | inl h ↦ rw h
  | inr h ↦ rw h
]

overlap_of_token :
    (c d : ℕ) (s : Text)
    → is_token c d ≡ true
    → starts_token d s ≡ (starts_overlap c (d ∷ s) || starts_overlap d s)
unfolding is_token
overlap_of_token c d [] h = refl
overlap_of_token c d (e ∷ []) h = ground arith
overlap_of_token c d (e ∷ f ∷ s) h = ground arith

overlap_of_no_token : (c d : ℕ) (s : Text) → is_token c d ≡ false → starts_overlap c (d ∷ s) ≡ false
unfolding is_token
overlap_of_no_token c d [] h = refl
overlap_of_no_token c d (e ∷ s) h = ground arith

pub not_token-backslash : (c : ℕ) → is_token c backslash ≡ false
unfolding is_token
not_token-backslash c = ground arith

pub backslash-not_token : (d : ℕ) → is_token backslash d ≡ false
unfolding is_token
backslash-not_token d = refl

-- The loop leaves a token exactly where two tokens share a `<`: it goes on behind the second unit of
-- the token that it breaks.
pub has_token-break_pairs : (s : Text) → has_token (break_pairs s) ≡ has_overlap s
unfolding has_token break_pairs has_overlap
has_token-break_pairs [] = refl
has_token-break_pairs (c ∷ []) = refl
has_token-break_pairs (c ∷ d ∷ s) = elim (Bool-cases (is_token c d)) [
  | inl h ↦ rw h (
      ground (
        arith,
        not_token-backslash c,
        backslash-not_token d,
        starts_token-break_pairs d s,
        overlap_of_token c d s h,
        has_token-break_pairs s,
      ))
  | inr h ↦ rw h (
      ground (
        arith,
        starts_token-break_pairs c (d ∷ s),
        overlap_of_no_token c d s h,
        has_token-break_pairs (d ∷ s),
      ))
]

-- A text with no token is kept.
pub break_pairs_of_no_token : (s : Text) → has_token s ≡ false → break_pairs s ≡ s
unfolding has_token break_pairs
break_pairs_of_no_token [] h = refl
break_pairs_of_no_token (c ∷ []) h = refl
break_pairs_of_no_token (c ∷ d ∷ s) h = ground (arith, break_pairs_of_no_token (d ∷ s))
