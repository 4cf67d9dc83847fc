-- ===== src/Rollup/Candidates.antt =====
-- src/summarizer/anthropic-call.ts: where the JSON stands in a reply; and
-- src/summarizer/rollup-provider.ts: the first candidate that parses, and the one retry.
use elepha.Common.{
  ℕ, Bool, true, false, not, ◌&&◌, ◌||◌, Option, none, some, List, [], ◌∷◌, ◌==◌, if◌then◌else◌,
}
use elepha.Common.Codes.{codes}
use elepha.Sanitize.Units.{Text, backtick}
use elepha.Rollup.Texts.{trim, trim_start}
use elepha.Daemon.FailureWindow.Window.{
  SummarizerStatus, ok, parse_error, api_error, empty_turn, not_configured,
}
use elepha.Rollup.Reply.{RollupOutput, empty_rollup, ReadDocument, try_parse}

-- The text before the first three backticks, and the text behind them.
unfoldable pub split_fence : Text → Option (Text × Text)
split_fence [] = none
split_fence (a ∷ s) =
    let later : Option (Text × Text) = elim (split_fence s) [
      | none ↦ none
      | some p ↦ some (a ∷ p.0, p.1)
    ] in
    elim s [
      | [] ↦ none
      | b ∷ s1 ↦ elim s1 [
        | [] ↦ none
        | c ∷ s2 ↦ if a == backtick && b == backtick && c == backtick then some ([], s2) else later
      ]
    ]

-- `(?:json)?`.
unfoldable pub drop_prefix : Text → Text → Option Text
drop_prefix [] s = some s
drop_prefix (a ∷ p) [] = none
drop_prefix (a ∷ p) (b ∷ s) = let rest = drop_prefix p s in if a == b then rest else none

-- `FENCE_RE`: the group, which is trimmed where it is used.
unfoldable pub fenced : Text → Option Text
fenced raw = elim (split_fence raw) [
  | none ↦ none
  | some p ↦
      let inside : Text = elim (drop_prefix (codes "json") p.1) [ none ↦ p.1 | some s ↦ s ] in
      elim (split_fence (trim_start inside)) [ none ↦ none | some q ↦ some q.0 ]
]

-- The text from the first `{`.
unfoldable pub from_brace : Text → Option Text
from_brace [] = none
from_brace (c ∷ s) = let rest = from_brace s in if c == b'{' then some (c ∷ s) else rest

-- The text up to the last `}`.
unfoldable pub to_brace : Text → Option Text
to_brace [] = none
to_brace (c ∷ s) = elim (to_brace s) [
  | none ↦ if c == b'}' then some (c ∷ []) else none
  | some t ↦ some (c ∷ t)
]

unfoldable pub extract_json_candidate : Text → List Text
extract_json_candidate raw =
    let braced : List Text = elim (from_brace raw) [
      | none ↦ []
      | some s ↦ elim (to_brace s) [ none ↦ [] | some t ↦ t ∷ [] ]
    ] in
    let rest : List Text = elim (fenced raw) [ none ↦ braced | some g ↦ trim g ∷ braced ] in
    trim raw ∷ rest

unfoldable pub first_parsed : ReadDocument → List Text → Option RollupOutput
first_parsed read [] = none
first_parsed read (c ∷ cs) =
    let rest = first_parsed read cs in
    elim (try_parse read c) [ none ↦ rest | some output ↦ some output ]

unfoldable pub parse_rollup : ReadDocument → Text → Option RollupOutput
parse_rollup read raw = first_parsed read (extract_json_candidate raw)

-- `ROLLUP_MAX_TOKENS` and `ROLLUP_RETRY_MAX_TOKENS`.
abbrev pub rollup_max_tokens : ℕ
rollup_max_tokens = 4096

abbrev pub rollup_retry_max_tokens : ℕ
rollup_retry_max_tokens = 8192

-- What a request comes back with: its text and whether it ran out of tokens; or it throws.
pub data ModelReply : Type 0 where
  message : Text → Bool → ModelReply
  thrown : ModelReply

pub record RollupResult : Type 0 where
  pub output : RollupOutput
  pub status : SummarizerStatus

-- `callOnce`: the result, and whether the reply was truncated.
unfoldable pub call_once : ReadDocument → ModelReply → RollupResult × Bool
call_once read thrown = (record { output = empty_rollup; status = api_error }, false)
call_once read (message raw truncated) = elim (parse_rollup read raw) [
  | none ↦ (record { output = empty_rollup; status = parse_error }, truncated)
  | some output ↦ (record { output = output; status = ok }, truncated)
]

abbrev pub is_ok : SummarizerStatus → Bool
is_ok ok = true
is_ok parse_error = false
is_ok api_error = false
is_ok empty_turn = false
is_ok not_configured = false

-- `call`: the result, and how many requests were made. The argument answers a request by its budget
-- and its attempt.
unfoldable pub call : ReadDocument → (ℕ → ℕ → ModelReply) → RollupResult × ℕ
call read send =
    let (first, truncated) = call_once read (send rollup_max_tokens 1) in
    let (retried, again) = call_once read (send rollup_retry_max_tokens 2) in
    if is_ok first.status || not truncated then (first, 1) else (retried, 2)
