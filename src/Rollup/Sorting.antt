-- ===== src/Rollup/Sorting.antt =====
-- src/storage/rollup-store.ts: the two sorts of decisions by turn, and the newest decisions.
use elepha.Common.{
  ◌≤◌, List, [], ◌∷◌, ◌≡◌, ◌⊎◌, inl, inr, refl, leb, Bool-cases, leb→le, le→leb, leb-false, All,
  arith,
}
use elepha.Rollup.Decisions.{RollupDecision, rank, insert_oldest, sort_oldest}
use elepha.Rollup.Keyed.{Some}

-- Oldest first.
abbrev pub Sorted : List RollupDecision → Type 0
Sorted [] = Unit
Sorted (d ∷ ds) = All (λ e. rank d ≤ rank e) ds × Sorted ds

pub insert_oldest-All :
    (P : RollupDecision → Type 0) (d : RollupDecision) (es : List RollupDecision)
    → P d
    → All P es
    → All P (insert_oldest d es)
unfolding insert_oldest
insert_oldest-All P d [] p h = (p, tt)
insert_oldest-All P d (e ∷ es) p h = elim (Bool-cases (leb (rank d) (rank e))) [
  | inl l ↦ rw l (p, h)
  | inr l ↦ rw l (h.0, insert_oldest-All P d es p h.1)
]

pub sort_oldest-All :
    (P : RollupDecision → Type 0) (ds : List RollupDecision) → All P ds → All P (sort_oldest ds)
unfolding sort_oldest
sort_oldest-All P [] h = tt
sort_oldest-All P (d ∷ ds) h = insert_oldest-All P d (sort_oldest ds) h.0 (sort_oldest-All P ds h.1)

insert_oldest-Some :
    (P : RollupDecision → Type 0) (d : RollupDecision) (es : List RollupDecision)
    → P d ⊎ Some P es
    → Some P (insert_oldest d es)
unfolding insert_oldest
insert_oldest-Some P d [] h = h
insert_oldest-Some P d (e ∷ es) h = elim (Bool-cases (leb (rank d) (rank e))) [
  | inl l ↦ rw l h
  | inr l ↦ rw l (elim h [
    | inl p ↦ inr (insert_oldest-Some P d es (inl p))
    | inr s ↦ elim s [ inl q ↦ inl q | inr t ↦ inr (insert_oldest-Some P d es (inr t)) ]
  ])
]

pub sort_oldest-Some :
    (P : RollupDecision → Type 0) (ds : List RollupDecision) → Some P ds → Some P (sort_oldest ds)
unfolding sort_oldest
sort_oldest-Some P [] h = h
sort_oldest-Some P (d ∷ ds) (inl p) = insert_oldest-Some P d (sort_oldest ds) (inl p)
sort_oldest-Some P (d ∷ ds) (inr s) =
    insert_oldest-Some P d (sort_oldest ds) (inr (sort_oldest-Some P ds s))

All-map :
    (P Q : RollupDecision → Type 0) (f : (e : RollupDecision) → P e → Q e)
    (es : List RollupDecision)
    → All P es
    → All Q es
All-map P Q f [] h = tt
All-map P Q f (e ∷ es) h = (f e h.0, All-map P Q f es h.1)

insert_oldest-Sorted :
    (d : RollupDecision) (es : List RollupDecision) → Sorted es → Sorted (insert_oldest d es)
unfolding insert_oldest
insert_oldest-Sorted d [] h = (tt, tt)
insert_oldest-Sorted d (e ∷ es) h = elim (Bool-cases (leb (rank d) (rank e))) [
  | inl l ↦ rw l (
    (
      leb→le (rank d) (rank e) l,
      All-map (λ f. rank e ≤ rank f) (λ f. rank d ≤ rank f)
          (λ f k. omega (arith, k, leb→le (rank d) (rank e) l)) es h.0,
    ),
    h,
  )
  | inr l ↦ rw l (
    insert_oldest-All (λ f. rank e ≤ rank f) d es (leb-false (rank d) (rank e) l) h.0,
    insert_oldest-Sorted d es h.1,
  )
]

pub sort_oldest-Sorted : (ds : List RollupDecision) → Sorted (sort_oldest ds)
unfolding sort_oldest
sort_oldest-Sorted [] = tt
sort_oldest-Sorted (d ∷ ds) = insert_oldest-Sorted d (sort_oldest ds) (sort_oldest-Sorted ds)

insert_oldest_first :
    (d : RollupDecision) (es : List RollupDecision)
    → All (λ e. rank d ≤ rank e) es
    → insert_oldest d es ≡ d ∷ es
unfolding insert_oldest
insert_oldest_first d [] h = refl
insert_oldest_first d (e ∷ es) h = rw (le→leb (rank d) (rank e) h.0) refl

-- A sorted list stays as it is.
pub sort_oldest_again : (ds : List RollupDecision) → Sorted ds → sort_oldest ds ≡ ds
unfolding sort_oldest
sort_oldest_again [] h = refl
sort_oldest_again (d ∷ ds) h = rw (sort_oldest_again ds h.1) (insert_oldest_first d ds h.0)
