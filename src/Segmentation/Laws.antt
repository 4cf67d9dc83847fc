-- ===== src/Segmentation/Laws.antt =====
-- When a segment is cut.
use Prim.Native.String.{String}
use elepha.Common.{
  ◌≤◌, ◌<◌, true, false, Option, none, some, ◌≡◌, ◌↔◌, inl, inr, refl, leb, arith, Bool-cases,
}
use elepha.Segmentation.Overlap.{Ratio, file_overlap_ratio, is_continuous, is_divergent}
use elepha.Segmentation.Boundary.{
  BoundaryInput, unconditional_gap, min_gap, branch_differs, branches_match, gather,
  assess_segment_boundary, evaluate_segment_boundary,
}

-- Why a segment may be cut, as the module's opening comment says it.
pub data MayCut (i : BoundaryInput) (overlap : Option Ratio) : Type 0 where
  week : unconditional_gap ≤ i.gap → MayCut i overlap
  branch :
      i.gap < unconditional_gap
      → min_gap ≤ i.gap
      → is_continuous overlap ≡ false
      → branch_differs i.trailing_branch i.resuming_branch ≡ true
      → MayCut i overlap
  marker :
      i.gap < unconditional_gap
      → min_gap ≤ i.gap
      → is_continuous overlap ≡ false
      → i.resume_marker_before ≡ true
      → MayCut i overlap
  files :
      i.gap < unconditional_gap
      → min_gap ≤ i.gap
      → is_divergent overlap ≡ true
      → branches_match i.trailing_branch i.resuming_branch ≡ false
      → MayCut i overlap

divergent_not_continuous : (o : Option Ratio) → is_divergent o ≡ true → is_continuous o ≡ false
divergent_not_continuous none h = refl
divergent_not_continuous (some r) h = ground arith

match_not_differ : (a b : Option String) → branch_differs a b ≡ true → branches_match a b ≡ false
match_not_differ none b h = refl
match_not_differ (some a) none h = refl
match_not_differ (some a) (some b) h = ground arith

evaluate-MayCut :
    (i : BoundaryInput)
    → evaluate_segment_boundary i ≡ true
    → MayCut i (file_overlap_ratio i.trailing_files i.resuming_files)
unfolding evaluate_segment_boundary assess_segment_boundary gather
evaluate-MayCut i h = elim (Bool-cases (leb unconditional_gap i.gap)) [
  | inl w ↦ week (ground arith)
  | inr w ↦ elim (Bool-cases (branch_differs i.trailing_branch i.resuming_branch)) [
    | inl b ↦ branch (ground arith) (ground arith) (ground arith) b
    | inr b ↦ elim (Bool-cases i.resume_marker_before) [
      | inl m ↦ marker (ground arith) (ground arith) (ground arith) m
      | inr m ↦ files (ground arith) (ground arith) (ground arith) (ground arith)
    ]
  ]
]

MayCut-evaluate :
    (i : BoundaryInput)
    → MayCut i (file_overlap_ratio i.trailing_files i.resuming_files)
    → evaluate_segment_boundary i ≡ true
unfolding evaluate_segment_boundary assess_segment_boundary gather
MayCut-evaluate i (week w) = ground arith
MayCut-evaluate i (branch u m c b) =
    ground (arith, match_not_differ i.trailing_branch i.resuming_branch b)
MayCut-evaluate i (marker u m c b) = ground arith
MayCut-evaluate i (files u m d b) =
    ground
      (arith, divergent_not_continuous (file_overlap_ratio i.trailing_files i.resuming_files) d)

-- A segment is cut exactly for a reason of `MayCut`: a gap of seven days; or a gap of four hours and
-- either a known change of branch or a resume marker, unless the files go on, or files that diverge,
-- unless the branches are known to be equal.
pub evaluate_segment_boundary_iff :
    (i : BoundaryInput)
    → (evaluate_segment_boundary i ≡ true)
      ↔ MayCut i (file_overlap_ratio i.trailing_files i.resuming_files)
evaluate_segment_boundary_iff i = (evaluate-MayCut i, MayCut-evaluate i)
