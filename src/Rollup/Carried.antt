-- ===== src/Rollup/Carried.antt =====
-- src/summarizer/rollup-prompt.ts: what `renderPreviousRollup` keeps of the carried rollup.
use elepha.Common.{
  ℕ, zero, suc, ◌≤◌, ◌<◌, true, false, ◌&&◌, ◌≡◌, ◌⊎◌, inl, inr, refl, sym, ap, ◌∙◌, leb, ltb,
  leb→le, length, Bool-cases, arith,
}
use elepha.Sanitize.Units.{Text}
use elepha.Rollup.Carry.{
  PreviousRollup, CarryView, render_view, shortened, drop_decisions, drop_instructions, whole_view,
  render_previous_rollup,
}
use elepha.Rollup.CarryLoops.{
  none_gone, one_more, length-rest_of_decisions, IsTail, goes_on, drop_decisions-IsTail,
  drop_instructions-IsTail, Ends, both_loops, drop_decisions-instructions,
}

module _ (previous : PreviousRollup) (m : ℕ) where
  too_long : (n k l : ℕ) → ltb m n && ltb k l ≡ true → m < n
  too_long n k l h = ground arith

  -- No decision was dropped, or before the last one went the view was too long.
  abbrev pub DecisionsNeeded : CarryView → Type 0
  DecisionsNeeded v =
      (v.dropped ≡ 0)
      ⊎ ((w : CarryView) × IsTail previous w
          × (v.dropped ≡ suc w.dropped)
          × (w.dropped_instructions ≡ 0)
          × (w.summary ≡ v.summary)
          × (m < length (render_view previous w)))

  -- The same of the instructions.
  abbrev pub InstructionsNeeded : CarryView → Type 0
  InstructionsNeeded v =
      (v.dropped_instructions ≡ 0)
      ⊎ ((w : CarryView) × IsTail previous w
          × (v.dropped_instructions ≡ suc w.dropped_instructions)
          × (w.dropped ≡ v.dropped)
          × (w.summary ≡ v.summary)
          × (m < length (render_view previous w)))

  -- The summary is whole, or it is cut, and the view with nothing dropped was too long.
  abbrev pub SummaryNeeded : CarryView → Type 0
  SummaryNeeded v =
      (v.summary ≡ previous.summary)
      ⊎ ((v.summary ≡ shortened previous.summary)
          × (m < length (render_view previous (whole_view previous previous.summary))))

  drop_decisions-Needed :
      (fuel : ℕ) (v : CarryView)
      → IsTail previous v
      → v.dropped_instructions ≡ 0
      → DecisionsNeeded v
      → DecisionsNeeded (drop_decisions fuel previous m v)
        × ((drop_decisions fuel previous m v).summary ≡ v.summary)
        × ((drop_decisions fuel previous m v).dropped_instructions ≡ 0)
  unfolding drop_decisions
  drop_decisions-Needed zero v k z n = (n, refl, z)
  drop_decisions-Needed (suc fuel) v k z n =
      elim (Bool-cases (ltb m (length (render_view previous v)) && ltb 1 (length v.decisions))) [
        | inl h ↦
            let l = goes_on m (length (render_view previous v)) 1 (length v.decisions) h in
            rw h (
              drop_decisions-Needed fuel _
                (record {
                  decisions =
                      one_more previous.decisions v.decisions v.dropped k.decisions
                        (omega (arith, l));
                  instructions = k.instructions;
                  some_left = inr (omega (arith, l, length-rest_of_decisions v.decisions));
                })
                z
                (inr (
                  v,
                  k,
                  refl,
                  z,
                  refl,
                  too_long (length (render_view previous v)) 1 (length v.decisions) h,
                )))
        | inr h ↦ rw h (n, refl, z)
      ]

  drop_instructions-Needed :
      (fuel : ℕ) (v : CarryView)
      → IsTail previous v
      → InstructionsNeeded v
      → InstructionsNeeded (drop_instructions fuel previous m v)
        × ((drop_instructions fuel previous m v).summary ≡ v.summary)
        × ((drop_instructions fuel previous m v).dropped ≡ v.dropped)
  unfolding drop_instructions
  drop_instructions-Needed zero v k n = (n, refl, refl)
  drop_instructions-Needed (suc fuel) v k n =
      elim (Bool-cases (ltb m (length (render_view previous v)) && ltb 0 (length v.instructions))) [
        | inl h ↦
            let l = goes_on m (length (render_view previous v)) 0 (length v.instructions) h in
            rw h (
              drop_instructions-Needed fuel _
                (record {
                  decisions = k.decisions;
                  instructions =
                      one_more previous.instructions v.instructions v.dropped_instructions
                        k.instructions l;
                  some_left = k.some_left;
                })
                (inr (
                  v,
                  k,
                  refl,
                  refl,
                  refl,
                  too_long (length (render_view previous v)) 0 (length v.instructions) h,
                )))
        | inr h ↦ rw h (n, refl, refl)
      ]

  -- What holds of the decisions holds of another view with the same summary and count.
  DecisionsNeeded-same :
      (v u : CarryView)
      → u.dropped ≡ v.dropped
      → u.summary ≡ v.summary
      → DecisionsNeeded v
      → DecisionsNeeded u
  DecisionsNeeded-same v u e s (inl z) = inl (e ∙ z)
  DecisionsNeeded-same v u e s (inr (w, k, n, i, f, l)) = inr (w, k, e ∙ n, i, f ∙ sym s, l)

le_of_eq : (m n : ℕ) → m ≡ n → m ≤ n
le_of_eq m n e = omega (arith, e)

over : (n m : ℕ) → leb n m ≡ false → m < n
over n m h = ground arith

zero_or_more : (n : ℕ) → (n ≡ 0) ⊎ (0 < n)
zero_or_more zero = inl refl
zero_or_more (suc n) = inr (omega arith)

whole_view-IsTail :
    (previous : PreviousRollup) (summary : Text) → IsTail previous (whole_view previous summary)
whole_view-IsTail previous summary = record {
  decisions = none_gone previous.decisions;
  instructions = none_gone previous.instructions;
  some_left = zero_or_more (length previous.decisions);
}

-- The carried rollup is rendered with the end of its list of decisions and the end of its list of
-- instructions: items go from the front of the lists only, as many as the markers count, and never
-- the last decision. The text is within the budget, or one decision at most and no instruction are
-- left. Nothing goes that need not: the summary is cut only if the whole was over the budget, and
-- before the last decision that went, and before the last instruction, the text was over it.
pub render_previous_rollup-keeps_newest :
    (previous : PreviousRollup) (max_chars : ℕ)
    → (v : CarryView) × (render_previous_rollup previous max_chars ≡ render_view previous v)
      × IsTail previous v
      × Ends previous max_chars v
      × SummaryNeeded previous max_chars v
      × DecisionsNeeded previous max_chars v
      × InstructionsNeeded previous max_chars v
unfolding render_previous_rollup
render_previous_rollup-keeps_newest p m =
    let start = whole_view p (shortened p.summary) in
    let n = length p.decisions in
    let k = length p.instructions in
    let fewer = drop_decisions n p m start in
    let first_tail =
      drop_decisions-IsTail p m n start (whole_view-IsTail p (shortened p.summary)) in
    let (decisions, same, none_yet) =
      drop_decisions-Needed p m n start (whole_view-IsTail p (shortened p.summary)) refl
        (inl refl) in
    let (instructions, still, count) =
      drop_instructions-Needed p m k fewer first_tail (inl none_yet) in
    elim (Bool-cases (leb (length (render_view p (whole_view p p.summary))) m)) [
      | inl h ↦ (
        whole_view p p.summary,
        rw h refl,
        whole_view-IsTail p p.summary,
        inl (leb→le (length (render_view p (whole_view p p.summary))) m h),
        inl refl,
        inl refl,
        inl refl,
      )
      | inr h ↦ (
        drop_instructions k p m fewer,
        rw h refl,
        drop_instructions-IsTail p m k fewer first_tail,
        both_loops p m n k start (omega arith) (omega arith) (
            le_of_eq (length fewer.instructions) k
              (ap length (drop_decisions-instructions p m n start))),
        inr (still ∙ same, over (length (render_view p (whole_view p p.summary))) m h),
        DecisionsNeeded-same p m fewer (drop_instructions k p m fewer) count still decisions,
        instructions,
      )
    ]
