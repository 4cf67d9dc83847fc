-- ===== src/Segmentation/Boundary.antt =====
-- src/storage/segmentation.ts: `assessSegmentBoundary` and `evaluateSegmentBoundary`.
use Prim.Native.String.{String}
use text.Mathlib.Text.{◌==◌ as str_eq}
use elepha.Common.{
  ℕ, ◌*◌, Bool, true, false, not, ◌&&◌, Option, none, some, List, [], ◌∷◌, ◌++◌, if◌then◌else◌, leb,
  ltb,
}
use elepha.Segmentation.Overlap.{Ratio, file_overlap_ratio, is_continuous, is_divergent}

pub record BoundaryInput : Type 0 where
  pub gap : ℕ
  pub trailing_branch : Option String
  pub resuming_branch : Option String
  pub trailing_files : List String
  pub resuming_files : List String
  pub resume_marker_before : Bool

pub data Evidence : Type 0 where
  seven_day_gap branch_change file_overlap resume_marker : Evidence

pub record Assessment : Type 0 where
  pub cut : Bool
  pub evidence : List Evidence
  pub overlap : Option Ratio

abbrev pub hour : ℕ
hour = 3_600_000

-- `SEGMENT_UNCONDITIONAL_GAP_HOURS` and `SEGMENT_MIN_GAP_HOURS`.
abbrev pub unconditional_gap : ℕ
unconditional_gap = 168 * hour

abbrev pub min_gap : ℕ
min_gap = 4 * hour

abbrev pub branch_differs : Option String → Option String → Bool
branch_differs none _ = false
branch_differs (some a) none = false
branch_differs (some a) (some b) = not (str_eq a b)

abbrev pub branches_match : Option String → Option String → Bool
branches_match none _ = false
branches_match (some a) none = false
branches_match (some a) (some b) = str_eq a b

-- A list of one element, or none, by a test.
abbrev when : Bool → Evidence → List Evidence
when true e = e ∷ []
when false e = []

-- The pushes onto `evidence`.
unfoldable pub gather : BoundaryInput → List Evidence
gather i =
    let overlap = file_overlap_ratio i.trailing_files i.resuming_files in
    when (branch_differs i.trailing_branch i.resuming_branch) branch_change
    ++ (when (is_divergent overlap) file_overlap ++ when i.resume_marker_before resume_marker)

-- `evidence.length === 1 && evidence[0] === 'file-overlap'`.
abbrev pub is_file_overlap_alone : List Evidence → Bool
is_file_overlap_alone [] = false
is_file_overlap_alone (file_overlap ∷ []) = true
is_file_overlap_alone (_ ∷ _) = false

abbrev pub is_some_evidence : List Evidence → Bool
is_some_evidence [] = false
is_some_evidence (_ ∷ _) = true

unfoldable pub assess_segment_boundary : BoundaryInput → Assessment
assess_segment_boundary i =
    let overlap = file_overlap_ratio i.trailing_files i.resuming_files in
    let evidence = gather i in
    if leb unconditional_gap i.gap
    then record { cut = true; evidence = seven_day_gap ∷ []; overlap = none }
    else if ltb i.gap min_gap
    then record { cut = false; evidence = []; overlap = overlap }
    else if is_continuous overlap
    then record { cut = false; evidence = []; overlap = overlap }
    else if branches_match i.trailing_branch i.resuming_branch && is_file_overlap_alone evidence
    then record { cut = false; evidence = []; overlap = overlap }
    else record { cut = is_some_evidence evidence; evidence = evidence; overlap = overlap }

unfoldable pub evaluate_segment_boundary : BoundaryInput → Bool
evaluate_segment_boundary i = (assess_segment_boundary i).cut
