-- ===== src/Rollup/Attribution.antt =====
-- src/summarizer/rollup-provider.ts: the turn that each returned decision is attributed to.
use elepha.Common.{
  ℕ, suc, ◌*◌, Bool, true, not, ◌&&◌, ◌||◌, Option, none, some, List, [], ◌∷◌, ◌++◌, leb, ltb, ◌==◌,
  if◌then◌else◌, length, keep, any, min,
}
use mathlib.Core.List.{map}
use elepha.Common.Codes.{codes}
use elepha.Sanitize.Units.{Text}
use elepha.Rollup.Texts.{ℤ, pos, negsuc, is_nil, join, same_text}
use elepha.Rollup.Prompt.{RollupTurnInput}
use elepha.Rollup.Decisions.{Runtime, RollupDecision, put_all, stays}
use elepha.Rollup.Reply.{ParsedDecision, ParsedInstruction}

-- `STOPWORDS`.
abbrev pub stopwords : List Text
stopwords = map codes (
    "the" ∷ "a" ∷ "an" ∷ "to" ∷ "for" ∷ "and" ∷ "or" ∷ "with" ∷ "by" ∷ "as" ∷ "at" ∷ "is" ∷ "are"
    ∷ "was" ∷ "were" ∷ "be" ∷ "been" ∷ "it" ∷ "its" ∷ "this" ∷ "that" ∷ "from" ∷ "into" ∷ "use"
    ∷ "used" ∷ "using" ∷ "in" ∷ "on" ∷ "of" ∷ [])

-- `[a-z0-9_./-]`.
unfoldable pub is_token_unit : ℕ → Bool
is_token_unit c =
    (leb b'a' c && leb c b'z')
    || (leb b'0' c && leb c b'9')
    || c == b'_'
    || c == b'.'
    || c == b'/'
    || c == b'-'

-- The maximal runs of such units; the first argument is the run that is open.
unfoldable pub runs : Text → Text → List Text
runs run [] = run ∷ []
runs run (c ∷ s) =
    let within = runs (run ++ (c ∷ [])) s in
    let behind = run ∷ runs [] s in if is_token_unit c then within else behind

-- `Set.has`.
unfoldable pub holds_text : List Text → Text → Bool
holds_text set t = any (λ s. same_text s t) set

-- The set of the tokens, in the order of insertion.
unfoldable pub tokens : Runtime → Text → List Text
tokens r s =
    put_all (λ t. t) stays []
      (keep (λ t. ltb 2 (length t) && not (holds_text stopwords t)) (runs [] (r.to_lower_case s)))

-- The shared tokens over the tokens of the smaller set.
pub record Score : Type 0 where
  pub shared : ℕ
  pub smaller : ℕ

unfoldable pub shared_tokens : List Text → List Text → ℕ
shared_tokens [] b = 0
shared_tokens (t ∷ a) b = let rest = shared_tokens a b in if holds_text b t then suc rest else rest

unfoldable pub token_overlap : List Text → List Text → Score
token_overlap a b =
    if is_nil a || is_nil b
    then record { shared = 0; smaller = 1 }
    else record { shared = shared_tokens a b; smaller = min (length a) (length b) }

-- `score >= DECISION_PROVENANCE_OVERLAP_THRESHOLD`, a half.
abbrev pub reaches_threshold : Score → Bool
reaches_threshold s = leb s.smaller (2 * s.shared)

-- `score > best.score`, the fractions compared exactly.
abbrev pub exceeds : Score → Score → Bool
exceeds s best = ltb (best.shared * s.smaller) (s.shared * best.smaller)

pub record Best : Type 0 where
  pub turn : RollupTurnInput
  pub score : Score

unfoldable pub improves : Score → Option Best → Bool
improves s none = true
improves s (some best) = exceeds s best.score

-- The loop over the turns of the batch.
unfoldable pub best_turn : Runtime → List Text → Option Best → List RollupTurnInput → Option Best
best_turn r words best [] = best
best_turn r words best (t ∷ ts) =
    let score = token_overlap words (tokens r (join (codes " ") t.decisions)) in
    let better = best_turn r words (some (record { turn = t; score = score })) ts in
    let same = best_turn r words best ts in
    if reaches_threshold score && improves score best then better else same

-- `byIndex.get`: of two turns with one index the later.
unfoldable pub turn_at : ℕ → List RollupTurnInput → Option RollupTurnInput
turn_at i [] = none
turn_at i (t ∷ ts) = elim (turn_at i ts) [
  | none ↦ if t.turn_index == i then some t else none
  | some u ↦ some u
]

-- The turn that the model claims, if the batch has it.
unfoldable pub claimed_turn : Option ℤ → List RollupTurnInput → Option RollupTurnInput
claimed_turn none batch = none
claimed_turn (some (negsuc n)) batch = none
claimed_turn (some (pos i)) batch = turn_at i batch

-- The last of the turn and those behind it.
unfoldable pub last_turn : RollupTurnInput → List RollupTurnInput → RollupTurnInput
last_turn t [] = t
last_turn t (u ∷ us) = last_turn u us

unfoldable pub resolved_turn :
    Runtime → ParsedDecision → RollupTurnInput → List RollupTurnInput → RollupTurnInput
resolved_turn r d t ts = elim (claimed_turn d.turn_index (t ∷ ts)) [
  | some claimed ↦ claimed
  | none ↦ elim (best_turn r (tokens r d.what) none (t ∷ ts)) [
    | some best ↦ best.turn
    | none ↦ last_turn t ts
  ]
]

abbrev pub attributed : ParsedDecision → RollupTurnInput → RollupDecision
attributed d t = record {
  what = d.what;
  why = some d.why;
  turn_index = some t.turn_index;
  at_time = some t.started_at;
}

unfoldable pub attribute_decisions :
    Runtime → List ParsedDecision → List RollupTurnInput → List RollupDecision
attribute_decisions r ds [] =
    map (λ d. record { what = d.what; why = some d.why; turn_index = none; at_time = none }) ds
attribute_decisions r ds (t ∷ ts) = map (λ d. attributed d (resolved_turn r d t ts)) ds

-- `...(why ? { why } : {})`.
unfoldable pub without_empty_why : RollupDecision → RollupDecision
without_empty_why d = record d {
  why = elim d.why [ none ↦ none | some why ↦ if is_nil why then none else some why ];
}

abbrev pub with_why : ParsedInstruction → ParsedDecision
with_why i = record {
  what = i.what;
  why = elim i.why [ none ↦ [] | some why ↦ why ];
  turn_index = i.turn_index;
}

-- An instruction of an empty batch keeps no turn.
unfoldable pub attribute_instructions :
    Runtime → List ParsedInstruction → List RollupTurnInput → List RollupDecision
attribute_instructions r is batch =
    map without_empty_why (attribute_decisions r (map with_why is) batch)
