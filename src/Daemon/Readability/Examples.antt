-- ===== src/Daemon/Readability/Examples.antt =====
-- A transcript in two reads, and the theorem at it.
use elepha.Common.{true, none, some, [], ◌∷◌, ◌≡◌, refl, inr, if◌then◌else◌, arith}
use elepha.Daemon.Readability.Guard.{
  take, first_line_cap_bytes, index_of, starts_with, looks_compressed, contains_binary_bytes, scan,
  classify, binary, judge_prefix, is_no_bytes, assert_readable_jsonl,
}
use elepha.Daemon.Readability.Scanning.{content, verdict, assert_readable_jsonl-verdict}

-- `{}` and a newline over two reads, then a control byte, which is not looked at.
binary_later :
    (assert_readable_jsonl
      (λ s. true)
      []
      "t"
      (some ((0x7b ∷ []) ∷ (0x7d ∷ 0x0a ∷ 0x01 ∷ []) ∷ []))).skip
    ≡ none
unfolding assert_readable_jsonl scan index_of judge_prefix take classify looks_compressed
    starts_with contains_binary_bytes
binary_later = refl

binary_first :
    (assert_readable_jsonl (λ s. true) [] "t" (some ((0x7b ∷ 0x01 ∷ []) ∷ []))).skip ≡ some binary
unfolding assert_readable_jsonl scan index_of judge_prefix take classify looks_compressed
    starts_with contains_binary_bytes
binary_first = refl

assert_readable_jsonl-verdict_example :
    assert_readable_jsonl (λ s. true) [] "t" (some ((0x7b ∷ []) ∷ (0x7d ∷ 0x0a ∷ 0x01 ∷ []) ∷ []))
    ≡ (if is_no_bytes
          (take first_line_cap_bytes (content ((0x7b ∷ []) ∷ (0x7d ∷ 0x0a ∷ 0x01 ∷ []) ∷ [])))
        then record { skip = none; readability_checked = [] }
        else record {
          skip =
              verdict
                (λ s. true)
                (take first_line_cap_bytes
                  (content ((0x7b ∷ []) ∷ (0x7d ∷ 0x0a ∷ 0x01 ∷ []) ∷ [])));
          readability_checked = "t" ∷ [];
        })
assert_readable_jsonl-verdict_example =
    assert_readable_jsonl-verdict (λ s. true) [] "t" ((0x7b ∷ []) ∷ (0x7d ∷ 0x0a ∷ 0x01 ∷ []) ∷ [])
      refl (inr (omega arith), (inr (omega arith), tt))
