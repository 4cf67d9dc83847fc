-- ===== src/Rollup/Shrinking.antt =====
-- src/summarizer/rollup-prompt.ts: what `shrinkOversizedTurn` drops, and when its loop ends.
use elepha.Common.{
  ℕ, zero, suc, ◌≤◌, ◌<◌, true, false, ◌&&◌, [], ◌≡◌, ◌⊎◌, inl, inr, refl, sym, ap, ◌∙◌, leb, ltb,
  length, Bool-cases, leb→le, subst, arith,
}
use elepha.Rollup.Prompt.{
  RollupTurnInput, render_turn, items, drop_oldest, ShrunkTurn, shrink_loop, mark_omitted,
  shrink_oversized_turn,
}
use elepha.Rollup.Dropping.{
  Dropped, drop_oldest-Dropped, items-drop_oldest, more-Dropped, nothing-Dropped,
}

-- The turn fits, or a single item is left.
abbrev pub Finished : ℕ → RollupTurnInput → Type 0
Finished max_chars t = (length (render_turn t) ≤ max_chars) ⊎ (items t ≤ 1)

goes_on-more : (m n k : ℕ) → ltb m n && ltb 1 k ≡ true → 1 < k
goes_on-more m n k h = ground arith

stops : (m n k : ℕ) → ltb m n && ltb 1 k ≡ false → (n ≤ m) ⊎ (k ≤ 1)
stops m n k h = ground arith

shrink_loop-Dropped :
    (fuel max_chars : ℕ) (s : ShrunkTurn) → Dropped s (shrink_loop fuel max_chars s)
unfolding shrink_loop
shrink_loop-Dropped zero m s = nothing-Dropped s
shrink_loop-Dropped (suc fuel) m s =
    elim (Bool-cases (ltb m (length (render_turn s.turn)) && ltb 1 (items s.turn))) [
      | inl h ↦ rw h (
          more-Dropped _ _ _
            (drop_oldest-Dropped s (goes_on-more m (length (render_turn s.turn)) (items s.turn) h))
            (shrink_loop-Dropped fuel m
              (record { turn = drop_oldest s.turn; omitted = suc s.omitted })))
      | inr h ↦ rw h (nothing-Dropped s)
    ]

shrink_loop-Finished :
    (fuel max_chars : ℕ) (s : ShrunkTurn)
    → items s.turn ≤ fuel
    → Finished max_chars (shrink_loop fuel max_chars s).turn
unfolding shrink_loop
shrink_loop-Finished zero m s l = inr (omega (arith, l))
shrink_loop-Finished (suc fuel) m s l =
    elim (Bool-cases (ltb m (length (render_turn s.turn)) && ltb 1 (items s.turn))) [
      | inl h ↦ rw h (
          shrink_loop-Finished fuel m
            (record { turn = drop_oldest s.turn; omitted = suc s.omitted })
            (omega (
              arith,
              items-drop_oldest s.turn
                  (goes_on-more m (length (render_turn s.turn)) (items s.turn) h),
            )))
      | inr h ↦ rw h (stops m (length (render_turn s.turn)) (items s.turn) h)
    ]

-- Nothing was dropped, or what there was before the last item went was too long.
abbrev pub Needed : ℕ → ShrunkTurn → ShrunkTurn → Type 0
Needed max_chars before after =
    (after ≡ before)
    ⊎ ((p : ShrunkTurn) × Dropped before p
        × Dropped p after
        × (after.omitted ≡ suc p.omitted)
        × (max_chars < length (render_turn p.turn)))

too_long : (m n k : ℕ) → ltb m n && ltb 1 k ≡ true → m < n
too_long m n k h = ground arith

one_more-Needed :
    (max_chars : ℕ) (s t u : ShrunkTurn)
    → Dropped s t
    → t.omitted ≡ suc s.omitted
    → max_chars < length (render_turn s.turn)
    → Needed max_chars t u
    → Needed max_chars s u
one_more-Needed m s t u d n l (inl e) =
    inr (s, nothing-Dropped s, subst (Dropped s) (sym e) d, ap (λ x. x.omitted) e ∙ n, l)
one_more-Needed m s t u d n l (inr (p, f, g, k, j)) = inr (p, more-Dropped s t p d f, g, k, j)

shrink_loop-Needed :
    (fuel max_chars : ℕ) (s : ShrunkTurn) → Needed max_chars s (shrink_loop fuel max_chars s)
unfolding shrink_loop
shrink_loop-Needed zero m s = inl refl
shrink_loop-Needed (suc fuel) m s =
    let next : ShrunkTurn = record { turn = drop_oldest s.turn; omitted = suc s.omitted } in
    elim (Bool-cases (ltb m (length (render_turn s.turn)) && ltb 1 (items s.turn))) [
      | inl h ↦ rw h (
          one_more-Needed m s next (shrink_loop fuel m next)
            (drop_oldest-Dropped s (goes_on-more m (length (render_turn s.turn)) (items s.turn) h))
            refl (too_long m (length (render_turn s.turn)) (items s.turn) h)
            (shrink_loop-Needed fuel m next))
      | inr h ↦ rw h (inl refl)
    ]

-- The turn without its files, before any item is dropped.
abbrev pub without_files : RollupTurnInput → ShrunkTurn
without_files turn = record { turn = record turn { files_touched = [] }; omitted = 0 }

-- An oversized turn loses its files, and then items only from the front of its two lists, as many as
-- it counts, until it fits or one item is left, and no item more: before the last one went it did not
-- fit. A marker in front of the decisions, which this size leaves out, says how many items went, if
-- any did.
pub shrink_oversized_turn-drops_oldest :
    (turn : RollupTurnInput) (max_chars : ℕ)
    → (s : ShrunkTurn) × (shrink_oversized_turn turn max_chars ≡ mark_omitted s)
      × Dropped (without_files turn) s
      × Finished max_chars s.turn
      × Needed max_chars (without_files turn) s
unfolding shrink_oversized_turn mark_omitted
shrink_oversized_turn-drops_oldest turn m =
    elim (Bool-cases (leb (length (render_turn (record turn { files_touched = [] }))) m)) [
      | inl h ↦ (
        without_files turn,
        rw h refl,
        nothing-Dropped (without_files turn),
        inl (leb→le (length (render_turn (record turn { files_touched = [] }))) m h),
        inl refl,
      )
      | inr h ↦ (
        shrink_loop (items turn) m (without_files turn),
        rw h refl,
        shrink_loop-Dropped (items turn) m (without_files turn),
        shrink_loop-Finished (items turn) m (without_files turn) (omega arith),
        shrink_loop-Needed (items turn) m (without_files turn),
      )
    ]
