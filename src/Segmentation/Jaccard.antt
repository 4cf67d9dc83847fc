-- ===== src/Segmentation/Jaccard.antt =====
-- The overlap of two file lists as a ratio of set sizes.
use Prim.Native.String.{String}
use text.Mathlib.Text.{◌==◌ as str_eq}
use text.Mathlib.TextEquality.{eq_iff}
use elepha.Common.{
  ◌≤◌, ◌<◌, Bool, true, false, not, some, List, [], ◌∷◌, ◌++◌, ◌≡◌, ap, refl, arith, length,
  length-append, keep, Bool-cases, inl, inr,
}
use elepha.Segmentation.Overlap.{Ratio, to_set, is_empty, count_shared, file_overlap_ratio}

keep-append : (p : String → Bool) (xs ys : List String) → keep p (xs ++ ys) ≡ keep p xs ++ keep p ys
keep-append p [] ys = refl
keep-append p (x ∷ xs) ys = elim (Bool-cases (p x)) [
  | inl h ↦ rw (h, keep-append p xs ys)
  | inr h ↦ rw (h, keep-append p xs ys)
]

-- What a set gets beyond the values that it had.
to_set-append :
    (xs ys : List String) → (rest : List String) × (to_set (xs ++ ys) ≡ to_set xs ++ rest)
unfolding to_set
to_set-append [] ys = (to_set ys, refl)
to_set-append (x ∷ xs) ys =
    let (rest, e) = to_set-append xs ys in
    (
      keep (λ y. not (str_eq y x)) rest,
      rw e (ap (λ t. x ∷ t) (keep-append (λ y. not (str_eq y x)) (to_set xs) rest)),
    )

-- A test that goes by the value.
abbrev Respects : (String → Bool) → Type 0
Respects p = (x y : String) → str_eq y x ≡ true → p y ≡ p x

keep_comm : (p q : String → Bool) (xs : List String) → keep p (keep q xs) ≡ keep q (keep p xs)
keep_comm p q [] = refl
keep_comm p q (x ∷ xs) = ground (arith, keep_comm p q xs)

keep-keep : (p : String → Bool) (xs : List String) → keep p (keep p xs) ≡ keep p xs
keep-keep p [] = refl
keep-keep p (x ∷ xs) = elim (Bool-cases (p x)) [
  | inl h ↦ rw h (rw h (ap (λ t. x ∷ t) (keep-keep p xs)))
  | inr h ↦ rw h (keep-keep p xs)
]

-- A value that `p` rejects need not be taken out before `p` is.
keep-without :
    (p : String → Bool) (x : String) (xs : List String)
    → Respects p
    → p x ≡ false
    → keep p (keep (λ y. not (str_eq y x)) xs) ≡ keep p xs
keep-without p x [] r h = refl
keep-without p x (y ∷ xs) r h = ground (arith, r x y, keep-without p x xs r h)

to_set-keep :
    (p : String → Bool) (xs : List String) → Respects p → to_set (keep p xs) ≡ keep p (to_set xs)
unfolding to_set
to_set-keep p [] r = refl
to_set-keep p (x ∷ xs) r = ground (
  arith,
  to_set-keep p xs r,
  keep_comm (λ y. not (str_eq y x)) p (to_set xs),
  keep-without p x (to_set xs) r,
)

not_eq-Respects : (z : String) → Respects (λ y. not (str_eq y z))
not_eq-Respects z x y e = rw ((eq_iff y x).0 e)

to_set-to_set : (xs : List String) → to_set (to_set xs) ≡ to_set xs
unfolding to_set
to_set-to_set [] = refl
to_set-to_set (x ∷ xs) =
    rw (to_set-keep (λ y. not (str_eq y x)) (to_set xs) (not_eq-Respects x), to_set-to_set xs)
      (ap (λ t. x ∷ t) (keep-keep (λ y. not (str_eq y x)) (to_set xs)))

count_shared-le : (xs ys : List String) → count_shared xs ys ≤ length xs
unfolding count_shared
count_shared-le [] ys = omega arith
count_shared-le (x ∷ xs) ys = ground (arith, count_shared-le xs ys)

-- A ratio that is given has both lists not empty, and is at most one: its union is not empty and holds
-- the intersection.
pub file_overlap_ratio_bounds :
    (trailing resuming : List String) (r : Ratio)
    → file_overlap_ratio trailing resuming ≡ some r
    → (is_empty trailing ≡ false)
      × (is_empty resuming ≡ false)
      × (0 < r.union)
      × (r.intersection ≤ r.union)
unfolding file_overlap_ratio
file_overlap_ratio_bounds trailing resuming r h =
    let (rest, e) = to_set-append (to_set trailing) (to_set resuming) in
    ground (
      arith,
      count_shared-le (to_set trailing) (to_set resuming),
      ap (length {A = String}) e,
      ap (length {A = String}) (to_set-to_set trailing),
      length-append (to_set (to_set trailing)) rest,
    )
