-- ===== src/Rollup/Again.antt =====
-- src/storage/rollup-store.ts: a decision that is met again.
use elepha.Common.{
  none, some, ◌≤◌, ltb-false, ℕ, true, false, Option, ◌≡◌, inl, inr, refl, sym, ap, ◌∙◌, Bool-cases,
  subst, arith,
}
use elepha.Rollup.Decisions.{Runtime, RollupDecision, decision_key, replaces, seen_again}
use elepha.Rollup.Keyed.{differ}

pub replaces_self : (i : Option ℕ) → replaces i i ≡ false
unfolding replaces
replaces_self i = ground arith

pub replaces_asym : (i j : Option ℕ) → replaces i j ≡ true → i ≡ j → false ≡ true
replaces_asym i j h e = sym (replaces_self i) ∙ subst (λ k. replaces i k ≡ true) (sym e) h

-- What replaced a turn does not have to give way to a turn that the first one resisted.
pub replaces_trans :
    (i j k : Option ℕ) → replaces i j ≡ false → replaces i k ≡ true → replaces k j ≡ false
unfolding replaces
replaces_trans i j k h l = ground arith

-- The first turn is known and not later than the second, or the second is not known.
abbrev pub IsAtOrBefore : Option ℕ → Option ℕ → Type 0
IsAtOrBefore i none = Unit
IsAtOrBefore none (some j) = ⊥
IsAtOrBefore (some i) (some j) = i ≤ j

pub resisted-IsAtOrBefore : (i j : Option ℕ) → replaces i j ≡ false → IsAtOrBefore i j
unfolding replaces
resisted-IsAtOrBefore none none h = tt
resisted-IsAtOrBefore (some i) none h = tt
resisted-IsAtOrBefore none (some j) h = ground arith
resisted-IsAtOrBefore (some i) (some j) h = ltb-false j i h

pub key-again :
    (r : Runtime) (s d : RollupDecision) → decision_key r (seen_again s d) ≡ decision_key r s
unfolding decision_key seen_again
key-again r s d = elim (Bool-cases (replaces s.turn_index d.turn_index)) [
  | inl h ↦ rw h refl
  | inr h ↦ rw h refl
]

pub again_self : (d : RollupDecision) → seen_again d d ≡ d
unfolding seen_again
again_self d = rw (replaces_self d.turn_index) refl

pub resists :
    (s d : RollupDecision) → replaces s.turn_index d.turn_index ≡ false → seen_again s d ≡ s
unfolding seen_again
resists s d h = rw h refl

pub again_replaced :
    (s d : RollupDecision)
    → replaces s.turn_index d.turn_index ≡ true
    → (seen_again s d).turn_index ≡ d.turn_index
unfolding seen_again
again_replaced s d h = rw h refl

pub stays→resists :
    (s d : RollupDecision) → seen_again s d ≡ s → replaces s.turn_index d.turn_index ≡ false
stays→resists s d e = elim (Bool-cases (replaces s.turn_index d.turn_index)) [
  | inl h ↦ absurd (
      differ (
        replaces_asym s.turn_index d.turn_index h
          (ap (λ x. x.turn_index) (sym e) ∙ again_replaced s d h)))
  | inr h ↦ h
]

pub again_settles : (s d : RollupDecision) → seen_again (seen_again s d) d ≡ seen_again s d
again_settles s d = elim (Bool-cases (replaces s.turn_index d.turn_index)) [
  | inl h ↦ resists (seen_again s d) d (
      subst (λ i. replaces i d.turn_index ≡ false) (sym (again_replaced s d h))
        (replaces_self d.turn_index))
  | inr h ↦ ap (λ x. seen_again x d) (resists s d h)
]

pub again_stays :
    (s d e : RollupDecision) → seen_again s d ≡ s → seen_again (seen_again s e) d ≡ seen_again s e
again_stays s d e h = elim (Bool-cases (replaces s.turn_index e.turn_index)) [
  | inl k ↦ resists (seen_again s e) d (
      subst (λ i. replaces i d.turn_index ≡ false) (sym (again_replaced s e k))
        (replaces_trans s.turn_index d.turn_index e.turn_index (stays→resists s d h) k))
  | inr k ↦ ap (λ x. seen_again x d) (resists s e k) ∙ h ∙ sym (resists s e k)
]
