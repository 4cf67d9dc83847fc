-- ===== src/Rollup/Fresh.antt =====
-- src/daemon/rollup-service.ts: the turns past the watermark, and their bounds.
use elepha.Common.{
  ℕ, ◌≤◌, ◌<◌, Option, none, some, List, [], ◌∷◌, ◌≡◌, ◌≢◌, inl, inr, refl, ltb, ltb→lt, ltb-false,
  le→ltb_false, Bool-cases, All, keep, arith,
}
use elepha.Rollup.Indices.{row_indices, Ascending}
use elepha.Rollup.Pass.{MemoryRow}
use elepha.Rollup.Service.{fresh_turns}

abbrev past : ℕ → List MemoryRow → List MemoryRow
past x rows = keep (λ row. ltb x row.turn_index) rows

past-All :
    (P : ℕ → Type 0) (x : ℕ) (rows : List MemoryRow)
    → All P (row_indices rows)
    → All P (row_indices (past x rows))
past-All P x [] h = tt
past-All P x (r ∷ rows) h = elim (Bool-cases (ltb x r.turn_index)) [
  | inl k ↦ rw k (h.0, past-All P x rows h.1)
  | inr k ↦ rw k (past-All P x rows h.1)
]

past-Ascending :
    (x : ℕ) (rows : List MemoryRow)
    → Ascending (row_indices rows)
    → Ascending (row_indices (past x rows))
past-Ascending x [] a = tt
past-Ascending x (r ∷ rows) a = elim (Bool-cases (ltb x r.turn_index)) [
  | inl k ↦ rw k (past-All (λ n. r.turn_index ≤ n) x rows a.0, past-Ascending x rows a.1)
  | inr k ↦ rw k (past-Ascending x rows a.1)
]

pub fresh_turns-Ascending :
    (w : Option ℕ) (rows : List MemoryRow)
    → Ascending (row_indices rows)
    → Ascending (row_indices (fresh_turns w rows))
unfolding fresh_turns
fresh_turns-Ascending none rows a = a
fresh_turns-Ascending (some x) rows a = past-Ascending x rows a

between : (x m n : ℕ) → x < n → n ≤ m → x ≤ m
between x m n l h = omega (arith, l, h)

first_bound :
    (m : ℕ) (r : MemoryRow) (rows : List MemoryRow)
    → All (λ n. n ≤ m) (row_indices (r ∷ rows))
    → r.turn_index ≤ m
first_bound m r rows h = h.0

past_exceeds :
    (x m : ℕ) (rows : List MemoryRow)
    → past x rows ≢ []
    → All (λ n. n ≤ m) (row_indices (past x rows))
    → x ≤ m
past_exceeds x m [] n h = absurd (n refl)
past_exceeds x m (r ∷ rows) n h = elim (Bool-cases (ltb x r.turn_index)) [
  | inl k ↦
      between x m r.turn_index (ltb→lt x r.turn_index k) (first_bound m r (past x rows) (rw k at h))
  | inr k ↦ past_exceeds x m rows (rw k at n) (rw k at h)
]

below : (n x m : ℕ) → n ≤ x → x ≤ m → n ≤ m
below n x m l h = omega (arith, l, h)

rows-All :
    (x m : ℕ) (rows : List MemoryRow)
    → x ≤ m
    → All (λ n. n ≤ m) (row_indices (past x rows))
    → All (λ n. n ≤ m) (row_indices rows)
rows-All x m [] l h = tt
rows-All x m (r ∷ rows) l h = elim (Bool-cases (ltb x r.turn_index)) [
  | inl k ↦
      let g : All (λ n. n ≤ m) (row_indices (r ∷ past x rows)) = rw k at h in
      (g.0, rows-All x m rows l g.1)
  | inr k ↦ (below r.turn_index x m (ltb-false x r.turn_index k) l, rows-All x m rows l (rw k at h))
]

-- A bound of the fresh turns, where there are some, is one of all turns.
pub fresh_turns-bound :
    (w : Option ℕ) (m : ℕ) (rows : List MemoryRow)
    → fresh_turns w rows ≢ []
    → All (λ n. n ≤ m) (row_indices (fresh_turns w rows))
    → All (λ n. n ≤ m) (row_indices rows)
unfolding fresh_turns
fresh_turns-bound none m rows n h = h
fresh_turns-bound (some x) m rows n h = rows-All x m rows (past_exceeds x m rows n h) h

-- Nothing is fresh past a bound of all turns.
pub fresh_turns-none :
    (m : ℕ) (rows : List MemoryRow)
    → All (λ n. n ≤ m) (row_indices rows)
    → fresh_turns (some m) rows ≡ []
unfolding fresh_turns
fresh_turns-none m [] h = refl
fresh_turns-none m (r ∷ rows) h = rw (le→ltb_false m r.turn_index h.0) (fresh_turns-none m rows h.1)
