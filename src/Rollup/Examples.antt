-- ===== src/Rollup/Examples.antt =====
-- A session of two turns, its rollup, and the theorems at them.
use elepha.Common.{
  List, ℕ, ◌≤◌, false, Option, none, some, [], ◌∷◌, ◌++◌, ◌≡◌, ◌≢◌, ap, length, All, arith,
}
use Prim.Native.String.{String}
use mathlib.Core.List.{map}
use elepha.Common.Codes.{codes}
use elepha.Sanitize.Units.{Text}
use elepha.Rollup.Texts.{pos}
use elepha.Rollup.Prompt.{
  RollupTurnInput, render_turn, ShrunkTurn, entry_of, mark_omitted, shrink_oversized_turn,
  chunk_turns,
}
use elepha.Rollup.Decisions.{
  Runtime, RollupDecision, RollupContent, union_decisions, merge_rollup_content,
}
use elepha.Rollup.Reply.{ParsedDecision, text, coerce_turn_index}
use elepha.Rollup.Attribution.{attribute_decisions}
use elepha.Rollup.Carry.{PreviousRollup, CarryView, render_view, render_previous_rollup}
use elepha.Rollup.CarryLoops.{IsTail, Ends}
use elepha.Rollup.Carried.{
  SummaryNeeded, DecisionsNeeded, InstructionsNeeded, render_previous_rollup-keeps_newest,
}
use elepha.Rollup.TurnIndex.{IsDigit, coerce_turn_index-render_turn}
use elepha.Rollup.Dropping.{Dropped}
use elepha.Rollup.Shrinking.{Finished, Needed, without_files, shrink_oversized_turn-drops_oldest}
use elepha.Rollup.Batching.{turns_of, turns_of-chunk_turns}
use elepha.Rollup.Budget.{Fits, chunk_turns-Fits}
use elepha.Rollup.Union.{IsUnion, union_decisions-IsUnion, merge_rollup_content_again}
use elepha.Rollup.Placed.{Each, IsAttributed, attribute_decisions_placed}

-- A runtime that changes no case and no path.
abbrev pub plain : Runtime
plain = record { to_lower_case = λ t. t; normalize = λ p. p; separator = b'/'; is_darwin = false }

abbrev turn_of : ℕ → String → RollupTurnInput
turn_of i decision = record {
  turn_index = i;
  started_at = codes "t";
  decisions = codes decision ∷ [];
  pending_items = codes "a" ∷ codes "b" ∷ [];
  files_touched = codes "f.ts" ∷ [];
}

coerce_turn_index-render_turn_example :
    (shown rest : Text) × (render_turn (turn_of 204 "use zod")
      ≡ codes "<turn index=\"" ++ shown ++ codes "\" at=\"" ++ rest)
    × All IsDigit shown
    × (coerce_turn_index (some (text shown)) ≡ some (pos 204))
coerce_turn_index-render_turn_example = coerce_turn_index-render_turn (turn_of 204 "use zod")

shrink_oversized_turn-drops_oldest_example :
    (s : ShrunkTurn) × (shrink_oversized_turn (turn_of 3 "use zod") 50 ≡ mark_omitted s)
    × Dropped (without_files (turn_of 3 "use zod")) s
    × Finished 50 s.turn
    × Needed 50 (without_files (turn_of 3 "use zod")) s
shrink_oversized_turn-drops_oldest_example =
    shrink_oversized_turn-drops_oldest (turn_of 3 "use zod") 50

turns_of-chunk_turns_example :
    turns_of (chunk_turns (turn_of 3 "use zod" ∷ turn_of 4 "drop it" ∷ []) 100)
    ≡ map (λ t. (entry_of 100 t).turn) (turn_of 3 "use zod" ∷ turn_of 4 "drop it" ∷ [])
turns_of-chunk_turns_example =
    turns_of-chunk_turns (turn_of 3 "use zod" ∷ turn_of 4 "drop it" ∷ []) 100

some_turns : turn_of 3 "use zod" ∷ turn_of 4 "drop it" ∷ [] ≢ []
some_turns e = omega (arith, ap length e)

chunk_turns-Fits_example :
    All
      (λ b. (1 ≤ length b.turns) × Fits 200 b)
      (chunk_turns (turn_of 3 "use zod" ∷ turn_of 4 "drop it" ∷ []) 200)
chunk_turns-Fits_example =
    chunk_turns-Fits (turn_of 3 "use zod" ∷ turn_of 4 "drop it" ∷ []) 200 some_turns

abbrev decided_at : Option ℕ → String → RollupDecision
decided_at i what = record {
  what = codes what;
  why = some (codes "why");
  turn_index = i;
  at_time = none;
}

union_decisions-IsUnion_example :
    IsUnion plain
      (decided_at (some 4) "zod" ∷ [])
      (decided_at (some 2) " zod " ∷ decided_at none "x" ∷ [])
      (union_decisions plain
        (decided_at (some 4) "zod" ∷ [])
        (decided_at (some 2) " zod " ∷ decided_at none "x" ∷ []))
union_decisions-IsUnion_example =
    union_decisions-IsUnion plain (decided_at (some 4) "zod" ∷ [])
      (decided_at (some 2) " zod " ∷ decided_at none "x" ∷ [])

abbrev content_of : ℕ → RollupContent
content_of i = record {
  decisions = decided_at (some i) "zod" ∷ [];
  instructions = [];
  pending_items = codes " p " ∷ [];
  files_touched = codes "a.ts" ∷ codes "a.ts" ∷ [];
}

merge_rollup_content_again_example :
    merge_rollup_content plain
      (merge_rollup_content plain (content_of 4) (content_of 2))
      (content_of 2)
    ≡ merge_rollup_content plain (content_of 4) (content_of 2)
merge_rollup_content_again_example = merge_rollup_content_again plain (content_of 4) (content_of 2)

abbrev replied : List ParsedDecision
replied = record { what = codes "use zod"; why = codes "w"; turn_index = some (pos 3) } ∷ []

abbrev later_turns : List RollupTurnInput
later_turns = turn_of 4 "drop it" ∷ []

attribute_decisions_placed_example :
    Each
      (IsAttributed (turn_of 3 "use zod" ∷ later_turns))
      replied
      (attribute_decisions plain replied (turn_of 3 "use zod" ∷ later_turns))
attribute_decisions_placed_example =
    attribute_decisions_placed plain replied (turn_of 3 "use zod") later_turns

abbrev previous : PreviousRollup
previous = record {
  title = codes "t";
  summary = codes "s";
  decisions = decided_at (some 1) "old" ∷ decided_at (some 2) "new" ∷ [];
  instructions = decided_at (some 1) "test" ∷ [];
  pending_items = [];
}

render_previous_rollup-keeps_newest_example :
    (v : CarryView) × (render_previous_rollup previous 90 ≡ render_view previous v)
    × IsTail previous v
    × Ends previous 90 v
    × SummaryNeeded previous 90 v
    × DecisionsNeeded previous 90 v
    × InstructionsNeeded previous 90 v
render_previous_rollup-keeps_newest_example = render_previous_rollup-keeps_newest previous 90
