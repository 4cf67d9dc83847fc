-- ===== src/Daemon/Readability/Guard.antt =====
-- src/daemon/readability-guard.ts. A file is the list of the reads of its handle, in order: what each
-- returns, up to the end of the file; a read that fails, which throws, is left out. Reasons are told apart, their texts left out. JSON.parse is a
-- parameter.
use Prim.Native.String.{String}
use text.Mathlib.Text.{◌==◌ as str_eq}
use elepha.Common.{
  ℕ, zero, suc, ◌+◌, Bool, true, false, not, ◌&&◌, ◌||◌, Option, none, some, List, [], ◌∷◌, ◌++◌,
  if◌then◌else◌, ltb, ◌==◌, any, length,
}

abbrev pub Bytes : Type 0
Bytes = List ℕ

abbrev pub newline_byte : ℕ
newline_byte = 0x0a

abbrev pub first_line_cap_bytes : ℕ
first_line_cap_bytes = 1_048_576

-- `subarray(0, n)`.
unfoldable pub take : ℕ → Bytes → Bytes
take zero s = []
take (suc n) [] = []
take (suc n) (c ∷ s) = c ∷ take n s

unfoldable pub index_of : ℕ → Bytes → Option ℕ
index_of b [] = none
index_of b (c ∷ s) =
    let rest = index_of b s in
    if c == b then some 0 else elim rest [ none ↦ none | some n ↦ some (suc n) ]

unfoldable pub starts_with : Bytes → Bytes → Bool
starts_with [] s = true
starts_with (m ∷ ms) [] = false
starts_with (m ∷ ms) (c ∷ s) = c == m && starts_with ms s

-- The first bytes of zstd, gzip and zlib.
unfoldable pub looks_compressed : Bytes → Bool
looks_compressed s =
    starts_with (0x28 ∷ 0xb5 ∷ 0x2f ∷ 0xfd ∷ []) s
    || starts_with (0x1f ∷ 0x8b ∷ []) s
    || starts_with (0x78 ∷ []) s

unfoldable pub contains_binary_bytes : Bytes → Bool
contains_binary_bytes =
    any (λ b. (ltb b 0x20 && not (b == 0x09) && not (b == 0x0a) && not (b == 0x0d)) || b == 0x7f)

pub data Unreadable : Type 0 where
  not_opened no_newline_in_cap compressed binary not_json : Unreadable

-- What the loop has read, and where it found a newline.
pub record Scan : Type 0 where
  pub prefix : Bytes
  pub first_newline : Option ℕ

unfoldable pub scan : (total : ℕ) → Bytes → List Bytes → Scan
scan total prefix [] = record { prefix = prefix; first_newline = none }
scan total prefix ([] ∷ chunks) = record { prefix = prefix; first_newline = none }
scan total prefix ((b ∷ c) ∷ chunks) =
    let chunk = b ∷ c in
    let more = scan (total + length chunk) (prefix ++ chunk) chunks in
    if ltb total first_line_cap_bytes
    then elim (index_of newline_byte chunk) [
      | none ↦ more
      | some k ↦ record { prefix = prefix ++ chunk; first_newline = some (total + k) }
    ]
    else record { prefix = prefix; first_newline = none }

unfoldable pub classify : (Bytes → Bool) → Bytes → Option Unreadable
classify is_json line =
    if looks_compressed line
    then some compressed
    else if contains_binary_bytes line
    then some binary
    else if is_json line
    then none
    else some not_json

abbrev pub is_no_bytes : Bytes → Bool
is_no_bytes [] = true
is_no_bytes (_ ∷ _) = false

-- What is said of the prefix that was read, by where its newline is.
unfoldable pub judge_prefix : (Bytes → Bool) → Bytes → Option ℕ → Option Unreadable
judge_prefix is_json prefix (some k) = classify is_json (take k prefix)
judge_prefix is_json prefix none =
    if length prefix == first_line_cap_bytes
    then some no_newline_in_cap
    else classify is_json prefix

pub record Judged : Type 0 where
  pub skip : Option Unreadable
  pub readability_checked : List String

-- `assertReadableJsonl`; `none` is a file that does not open.
unfoldable pub assert_readable_jsonl :
    (Bytes → Bool) → List String → String → Option (List Bytes) → Judged
assert_readable_jsonl is_json checked path file =
    if any (λ p. str_eq p path) checked
    then record { skip = none; readability_checked = checked }
    else elim file [
      | none ↦ record { skip = some not_opened; readability_checked = checked }
      | some chunks ↦
          let s = scan 0 [] chunks in
          if is_no_bytes s.prefix
          then record { skip = none; readability_checked = checked }
          else record {
            skip = judge_prefix is_json s.prefix s.first_newline;
            readability_checked = path ∷ checked;
          }
    ]
