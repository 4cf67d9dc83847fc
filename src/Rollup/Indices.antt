-- ===== src/Rollup/Indices.antt =====
-- src/daemon/rollup-service.ts, src/summarizer/rollup-prompt.ts: the turn indices of the batches, and
-- the watermark that the last batch leaves.
use elepha.Common.{
  ℕ, ◌≤◌, List, [], ◌∷◌, ◌++◌, ◌≡◌, inl, inr, refl, sym, ap, ◌∙◌, ltb, length, Bool-cases, All,
  subst, max, arith,
}
use mathlib.Core.List.{map, append-nil}
use elepha.Rollup.Prompt.{
  RollupTurnInput, ShrunkTurn, TurnBatch, size, entry_of, chunk_turns, mark_omitted,
  shrink_oversized_turn,
}
use elepha.Rollup.Shrinking.{shrink_oversized_turn-drops_oldest}
use elepha.Rollup.Batching.{turns_of, turns_of-chunk_turns}
use elepha.Rollup.Keyed.{All-append}
use elepha.Rollup.Passes.{last_turns}
use elepha.Rollup.Pass.{MemoryRow, to_rollup_input, batch_high_water}

abbrev pub indices : List RollupTurnInput → List ℕ
indices [] = []
indices (t ∷ ts) = t.turn_index ∷ indices ts

abbrev pub row_indices : List MemoryRow → List ℕ
row_indices [] = []
row_indices (r ∷ rs) = r.turn_index ∷ row_indices rs

-- Each number is at most those behind it.
abbrev pub Ascending : List ℕ → Type 0
Ascending [] = Unit
Ascending (n ∷ ns) = All (λ m. n ≤ m) ns × Ascending ns

indices-append : (ts us : List RollupTurnInput) → indices (ts ++ us) ≡ indices ts ++ indices us
indices-append [] us = refl
indices-append (t ∷ ts) us = ap (λ l. t.turn_index ∷ l) (indices-append ts us)

mark_omitted-index : (s : ShrunkTurn) → (mark_omitted s).turn.turn_index ≡ s.turn.turn_index
unfolding mark_omitted
mark_omitted-index s = elim (Bool-cases (ltb 0 s.omitted)) [ inl h ↦ rw h refl | inr h ↦ rw h refl ]

shrunk-index :
    (m : ℕ) (t : RollupTurnInput) → (shrink_oversized_turn t m).turn.turn_index ≡ t.turn_index
shrunk-index m t =
    let (s, e, d, f, g) = shrink_oversized_turn-drops_oldest t m in
    ap (λ x. x.turn.turn_index) e ∙ mark_omitted-index s ∙ d.same_index

entry_of-index : (m : ℕ) (t : RollupTurnInput) → (entry_of m t).turn.turn_index ≡ t.turn_index
unfolding entry_of
entry_of-index m t = elim (Bool-cases (ltb m (size t))) [
  | inl h ↦ rw h (shrunk-index m t)
  | inr h ↦ rw h refl
]

indices-entries :
    (m : ℕ) (ts : List RollupTurnInput) → indices (map (λ t. (entry_of m t).turn) ts) ≡ indices ts
indices-entries m [] = refl
indices-entries m (t ∷ ts) = rw (entry_of-index m t, indices-entries m ts) refl

indices-to_rollup_input : (rs : List MemoryRow) → indices (to_rollup_input rs) ≡ row_indices rs
unfolding to_rollup_input
indices-to_rollup_input [] = refl
indices-to_rollup_input (r ∷ rs) = ap (λ l. r.turn_index ∷ l) (indices-to_rollup_input rs)

-- The batches carry the indices of the rows, each once and in order.
pub indices-chunk_turns :
    (rs : List MemoryRow) (m : ℕ)
    → indices (turns_of (chunk_turns (to_rollup_input rs) m)) ≡ row_indices rs
indices-chunk_turns rs m =
    ap indices (turns_of-chunk_turns (to_rollup_input rs) m)
    ∙ indices-entries m (to_rollup_input rs)
    ∙ indices-to_rollup_input rs

pub All-weaken : (m n : ℕ) → m ≤ n → (ns : List ℕ) → All (λ k. k ≤ m) ns → All (λ k. k ≤ n) ns
All-weaken m n l [] h = tt
All-weaken m n l (k ∷ ns) h = (omega (arith, l, h.0), All-weaken m n l ns h.1)

high_water-All : (ts : List RollupTurnInput) → All (λ n. n ≤ batch_high_water ts) (indices ts)
unfolding batch_high_water
high_water-All [] = tt
high_water-All (t ∷ ts) = (
  omega arith,
  All-weaken (batch_high_water ts) (max t.turn_index (batch_high_water ts)) (omega arith)
      (indices ts) (high_water-All ts),
)

middle : (m n k : ℕ) (ns ms : List ℕ) → All (λ j. k ≤ j) (ns ++ (n ∷ ms)) → n ≤ m → k ≤ m
middle m n k [] ms h l = omega (arith, h.0, l)
middle m n k (j ∷ ns) ms h l = middle m n k ns ms h.1 l

-- In an ascending list, what bounds a later part that is not empty bounds all of it.
front_bounded :
    (m n : ℕ) (ns ms : List ℕ) → Ascending (ns ++ (n ∷ ms)) → n ≤ m → All (λ k. k ≤ m) ns
front_bounded m n [] ms a l = tt
front_bounded m n (k ∷ ns) ms a l = (middle m n k ns ms a.0 l, front_bounded m n ns ms a.1 l)

Ascending-back : (ns ms : List ℕ) → Ascending (ns ++ ms) → Ascending ms
Ascending-back [] ms a = a
Ascending-back (n ∷ ns) ms a = Ascending-back ns ms a.1

back_bounds :
    (m : ℕ) (ns ms : List ℕ)
    → 1 ≤ length ms
    → Ascending (ns ++ ms)
    → All (λ k. k ≤ m) ms
    → All (λ k. k ≤ m) (ns ++ ms)
back_bounds m ns [] l a h = absurd (omega (arith, l))
back_bounds m ns (n ∷ ms) l a h =
    All-append (λ k. k ≤ m) ns (n ∷ ms) (front_bounded m n ns ms a h.0) h

some_index : (ts us : List RollupTurnInput) → 1 ≤ length ts → 1 ≤ length (indices (ts ++ us))
some_index [] us l = absurd (omega (arith, l))
some_index (t ∷ ts) us l = omega arith

-- Every turn of the batches is within the high water of the last batch.
pub last_high_water :
    (b : TurnBatch) (bs : List TurnBatch)
    → All (λ c. 1 ≤ length c.turns) (b ∷ bs)
    → Ascending (indices (turns_of (b ∷ bs)))
    → All (λ n. n ≤ batch_high_water (last_turns b bs)) (indices (turns_of (b ∷ bs)))
last_high_water b [] h a =
    subst (λ ts. All (λ n. n ≤ batch_high_water b.turns) (indices ts)) (sym (append-nil b.turns))
      (high_water-All b.turns)
last_high_water b (c ∷ cs) h a =
    let w = batch_high_water (last_turns c cs) in
    let back = turns_of (c ∷ cs) in
    let split = indices-append b.turns back in
    let parts = subst Ascending split a in
    subst (All (λ n. n ≤ w)) (sym split) (
      back_bounds w (indices b.turns) (indices back) (some_index c.turns (turns_of cs) h.1.0) parts
        (last_high_water c cs h.1 (Ascending-back (indices b.turns) (indices back) parts)))
