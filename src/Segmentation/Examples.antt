-- ===== src/Segmentation/Examples.antt =====
-- Runs of the boundary rule, and its theorems at concrete turns.

use elepha.Common.{◌≡◌, ◌↔◌, refl, ◌*◌, ◌<◌, ◌≤◌, false, true, some, [], ◌∷◌}
use elepha.Segmentation.Overlap.{to_set, is_empty, count_shared, file_overlap_ratio}
use elepha.Segmentation.Boundary.{
  BoundaryInput, hour, gather, assess_segment_boundary, evaluate_segment_boundary,
}
use elepha.Segmentation.Laws.{MayCut, evaluate_segment_boundary_iff}
use elepha.Segmentation.Jaccard.{file_overlap_ratio_bounds}

half :
    file_overlap_ratio ("a" ∷ "b" ∷ "a" ∷ []) ("b" ∷ "c" ∷ [])
    ≡ some (record { intersection = 1; union = 3 })
unfolding file_overlap_ratio to_set count_shared
half = refl

file_overlap_ratio_bounds_example :
    (is_empty ("a" ∷ "b" ∷ "a" ∷ []) ≡ false)
    × (is_empty ("b" ∷ "c" ∷ []) ≡ false)
    × (0 < 3)
    × (1 ≤ 3)
file_overlap_ratio_bounds_example =
    file_overlap_ratio_bounds ("a" ∷ "b" ∷ "a" ∷ []) ("b" ∷ "c" ∷ [])
      (record { intersection = 1; union = 3 }) half

abbrev switched : BoundaryInput
switched = record {
  gap = 5 * hour;
  trailing_branch = some "main";
  resuming_branch = some "fix";
  trailing_files = [];
  resuming_files = "a" ∷ [];
  resume_marker_before = false;
}

switched_cut : evaluate_segment_boundary switched ≡ true
unfolding evaluate_segment_boundary assess_segment_boundary gather file_overlap_ratio to_set
    count_shared
switched_cut = refl

evaluate_segment_boundary_iff_example :
    (evaluate_segment_boundary switched ≡ true)
    ↔ MayCut switched (file_overlap_ratio switched.trailing_files switched.resuming_files)
evaluate_segment_boundary_iff_example = evaluate_segment_boundary_iff switched
