-- ===== src/Rollup/CarryLoops.antt =====
-- src/summarizer/rollup-prompt.ts: the two loops of `renderPreviousRollup`.
use elepha.Common.{
  ℕ, zero, suc, ◌≤◌, ◌<◌, true, false, ◌&&◌, List, [], ◌∷◌, ◌++◌, ◌≡◌, ◌⊎◌, inl, inr, refl, sym,
  ◌∙◌, ltb, le→ltb_false, length, length-append, Bool-cases, subst, arith,
}
use mathlib.Core.List.{append_assoc}
use elepha.Rollup.Decisions.{RollupDecision}
use elepha.Rollup.Prompt.{rest_of}
use elepha.Rollup.Carry.{PreviousRollup, CarryView, render_view, drop_decisions, drop_instructions}

-- The list is what is left when the first `n` were dropped.
pub record IsRest (whole : List RollupDecision) (n : ℕ) (left : List RollupDecision) : Type 0 where
  pub gone : List RollupDecision
  pub split : gone ++ left ≡ whole
  pub counted : length gone ≡ n

pub none_gone : (ds : List RollupDecision) → IsRest ds 0 ds
none_gone ds = record { gone = []; split = refl; counted = refl }

pub one_more :
    (ds left : List RollupDecision) (n : ℕ)
    → IsRest ds n left
    → 0 < length left
    → IsRest ds (suc n) (rest_of left)
one_more ds [] n s l = absurd (omega (arith, l))
one_more ds (d ∷ left) n s l = record {
  gone = s.gone ++ (d ∷ []);
  split = append_assoc s.gone (d ∷ []) left ∙ s.split;
  counted = omega (arith, s.counted, length-append s.gone (d ∷ []));
}

pub length-rest_of_decisions :
    (ds : List RollupDecision) → 0 < length ds → suc (length (rest_of ds)) ≡ length ds
length-rest_of_decisions [] l = absurd (omega (arith, l))
length-rest_of_decisions (d ∷ ds) l = refl

-- What a loop leaves of the carried rollup: the ends of its lists of decisions and of instructions.
pub record IsTail (previous : PreviousRollup) (v : CarryView) : Type 0 where
  pub decisions : IsRest previous.decisions v.dropped v.decisions
  pub instructions : IsRest previous.instructions v.dropped_instructions v.instructions
  pub some_left : (length previous.decisions ≡ 0) ⊎ (0 < length v.decisions)

pub goes_on : (m n k l : ℕ) → ltb m n && ltb k l ≡ true → k < l
goes_on m n k l h = ground arith

stops : (m n k l : ℕ) → ltb m n && ltb k l ≡ false → (n ≤ m) ⊎ (l ≤ k)
stops m n k l h = ground arith

module _ (previous : PreviousRollup) (m : ℕ) where
  pub drop_decisions-IsTail :
      (fuel : ℕ) (v : CarryView)
      → IsTail previous v
      → IsTail previous (drop_decisions fuel previous m v)
  unfolding drop_decisions
  drop_decisions-IsTail zero v k = k
  drop_decisions-IsTail (suc fuel) v k =
      elim (Bool-cases (ltb m (length (render_view previous v)) && ltb 1 (length v.decisions))) [
        | inl h ↦
            let l = goes_on m (length (render_view previous v)) 1 (length v.decisions) h in
            rw h (
              drop_decisions-IsTail fuel _ (record {
                decisions =
                    one_more previous.decisions v.decisions v.dropped k.decisions
                      (omega (arith, l));
                instructions = k.instructions;
                some_left = inr (omega (arith, l, length-rest_of_decisions v.decisions));
              }))
        | inr h ↦ rw h k
      ]

  drop_decisions-fits :
      (fuel : ℕ) (v : CarryView)
      → length v.decisions ≤ fuel
      → (length (render_view previous (drop_decisions fuel previous m v)) ≤ m)
        ⊎ (length (drop_decisions fuel previous m v).decisions ≤ 1)
  unfolding drop_decisions
  drop_decisions-fits zero v l = inr (omega (arith, l))
  drop_decisions-fits (suc fuel) v l =
      elim (Bool-cases (ltb m (length (render_view previous v)) && ltb 1 (length v.decisions))) [
        | inl h ↦
            let k = goes_on m (length (render_view previous v)) 1 (length v.decisions) h in
            rw h (
              drop_decisions-fits fuel _
                (omega (arith, l, k, length-rest_of_decisions v.decisions (omega (arith, k)))))
        | inr h ↦ rw h (stops m (length (render_view previous v)) 1 (length v.decisions) h)
      ]

  pub drop_instructions-IsTail :
      (fuel : ℕ) (v : CarryView)
      → IsTail previous v
      → IsTail previous (drop_instructions fuel previous m v)
  unfolding drop_instructions
  drop_instructions-IsTail zero v k = k
  drop_instructions-IsTail (suc fuel) v k =
      elim (Bool-cases (ltb m (length (render_view previous v)) && ltb 0 (length v.instructions))) [
        | inl h ↦
            let l = goes_on m (length (render_view previous v)) 0 (length v.instructions) h in
            rw h (
              drop_instructions-IsTail fuel _ (record {
                decisions = k.decisions;
                instructions =
                    one_more previous.instructions v.instructions v.dropped_instructions
                      k.instructions l;
                some_left = k.some_left;
              }))
        | inr h ↦ rw h k
      ]

  drop_instructions-fits :
      (fuel : ℕ) (v : CarryView)
      → length v.instructions ≤ fuel
      → (length (render_view previous (drop_instructions fuel previous m v)) ≤ m)
        ⊎ (length (drop_instructions fuel previous m v).instructions ≤ 0)
  unfolding drop_instructions
  drop_instructions-fits zero v l = inr (omega (arith, l))
  drop_instructions-fits (suc fuel) v l =
      elim (Bool-cases (ltb m (length (render_view previous v)) && ltb 0 (length v.instructions))) [
        | inl h ↦
            let k = goes_on m (length (render_view previous v)) 0 (length v.instructions) h in
            rw h (
              drop_instructions-fits fuel _
                (omega (arith, l, k, length-rest_of_decisions v.instructions k)))
        | inr h ↦ rw h (stops m (length (render_view previous v)) 0 (length v.instructions) h)
      ]

  drop_instructions-decisions :
      (fuel : ℕ) (v : CarryView) → (drop_instructions fuel previous m v).decisions ≡ v.decisions
  unfolding drop_instructions
  drop_instructions-decisions zero v = refl
  drop_instructions-decisions (suc fuel) v =
      elim (Bool-cases (ltb m (length (render_view previous v)) && ltb 0 (length v.instructions))) [
        | inl h ↦ rw h (drop_instructions-decisions fuel _)
        | inr h ↦ rw h refl
      ]

  drop_instructions_fitting :
      (fuel : ℕ) (v : CarryView)
      → length (render_view previous v) ≤ m
      → drop_instructions fuel previous m v ≡ v
  unfolding drop_instructions
  drop_instructions_fitting zero v l = refl
  drop_instructions_fitting (suc fuel) v l =
      rw (le→ltb_false m (length (render_view previous v)) l) refl

  -- The view fits, or it holds one decision at most and no instruction.
  abbrev pub Ends : CarryView → Type 0
  Ends v =
      (length (render_view previous v) ≤ m)
      ⊎ ((length v.decisions ≤ 1) × (length v.instructions ≤ 0))

  pub both_loops :
      (n k : ℕ) (v : CarryView)
      → length v.decisions ≤ n
      → length v.instructions ≤ k
      → (length (drop_decisions n previous m v).instructions ≤ k)
      → Ends (drop_instructions k previous m (drop_decisions n previous m v))
  both_loops n k v l h i = elim (drop_decisions-fits n v l) [
    | inl f ↦ inl (
        subst (λ x. length (render_view previous x) ≤ m)
          (sym (drop_instructions_fitting k (drop_decisions n previous m v) f)) f)
    | inr d ↦ elim (drop_instructions-fits k (drop_decisions n previous m v) i) [
      | inl f ↦ inl f
      | inr e ↦ inr (
        subst (λ ds. length ds ≤ 1)
            (sym (drop_instructions-decisions k (drop_decisions n previous m v))) d,
        e,
      )
    ]
  ]

  pub drop_decisions-instructions :
      (fuel : ℕ) (v : CarryView) → (drop_decisions fuel previous m v).instructions ≡ v.instructions
  unfolding drop_decisions
  drop_decisions-instructions zero v = refl
  drop_decisions-instructions (suc fuel) v =
      elim (Bool-cases (ltb m (length (render_view previous v)) && ltb 1 (length v.decisions))) [
        | inl h ↦ rw h (drop_decisions-instructions fuel _)
        | inr h ↦ rw h refl
      ]
