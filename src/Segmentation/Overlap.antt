-- ===== src/Segmentation/Overlap.antt =====
-- src/storage/segmentation.ts: `fileOverlapRatio`.
use Prim.Native.String.{String}
use text.Mathlib.Text.{◌==◌ as str_eq}
use elepha.Common.{
  ℕ, suc, ◌*◌, Bool, true, false, not, ◌||◌, Option, none, some, List, [], ◌∷◌, ◌++◌, if◌then◌else◌,
  leb, ltb, length, any, keep,
}

-- `Set.has`.
abbrev pub has : List String → String → Bool
has xs x = any (λ y. str_eq x y) xs

-- `new Set(list)`: the values in the order of their first insertion.
unfoldable pub to_set : List String → List String
to_set [] = []
to_set (x ∷ xs) = x ∷ keep (λ y. not (str_eq y x)) (to_set xs)

-- `intersection / union`.
pub record Ratio : Type 0 where
  pub intersection : ℕ
  pub union : ℕ

-- The loop over the trailing set.
unfoldable pub count_shared : List String → List String → ℕ
count_shared [] resuming = 0
count_shared (f ∷ trailing) resuming =
    let rest = count_shared trailing resuming in if has resuming f then suc rest else rest

abbrev pub is_empty : List String → Bool
is_empty [] = true
is_empty (_ ∷ _) = false

unfoldable pub file_overlap_ratio : List String → List String → Option Ratio
file_overlap_ratio trailing_files resuming_files =
    let trailing = to_set trailing_files in
    let resuming = to_set resuming_files in
    let union = length (to_set (trailing ++ resuming)) in
    if is_empty trailing_files || is_empty resuming_files
    then none
    else if leb union 0
    then none
    else some (record { intersection = count_shared trailing resuming; union = union })

-- `overlap >= 0.5`, the continuity threshold.
abbrev pub is_continuous : Option Ratio → Bool
is_continuous none = false
is_continuous (some r) = leb r.union (2 * r.intersection)

-- `overlap < 0.2`, the overlap threshold.
abbrev pub is_divergent : Option Ratio → Bool
is_divergent none = false
is_divergent (some r) = ltb (5 * r.intersection) r.union
