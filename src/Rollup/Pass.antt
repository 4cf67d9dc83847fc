-- ===== src/Rollup/Pass.antt =====
-- src/daemon/rollup-service.ts: what a pass over a session reads, and what a batch of it writes. Every
-- await lets other writers in; what they leave of the tables, the replies of the provider and whether
-- the authenticated read is still current are asked of `PassSurroundings`, by the number of the batch.
use elepha.Common.{
  ℕ, Bool, true, false, Option, none, some, List, [], ◌∷◌, ◌++◌, ◌==◌, if◌then◌else◌, length, max,
}
use mathlib.Core.List.{map}
use elepha.Common.Codes.{codes}
use elepha.Sanitize.Units.{Text}
use elepha.Rollup.Texts.{is_nil}
use elepha.Rollup.Prompt.{RollupTurnInput}
use elepha.Rollup.Decisions.{
  SessionKind, Runtime, RollupContent, dedupe_paths, merge_rollup_content,
}
use elepha.Rollup.Rows.{RollupState, live, RollupWrite, RollupTables, get, rollup_version}
use elepha.Rollup.Reply.{RollupOutput}
use elepha.Rollup.Candidates.{RollupResult}
use elepha.Rollup.Attribution.{attribute_decisions, attribute_instructions}

-- A decision of a turn, with its reason where one was recorded.
pub record TurnDecision : Type 0 where
  pub what : Text
  pub why : Option Text

-- What the pass reads of a row of `memories`.
pub record MemoryRow : Type 0 where
  pub turn_index : ℕ
  pub turn_started_at : Text
  pub decisions : List TurnDecision
  pub pending_items : List Text
  pub files_touched : List Text

pub record SessionRow : Type 0 where
  pub id : ℕ
  pub project_id : ℕ
  pub tool : Text

pub record RollupOutcome : Type 0 where
  pub deferred : Bool
  pub wrote : Bool
  pub complete : Bool

unfoldable pub rendered_decision : TurnDecision → Text
rendered_decision d = elim d.why [
  | none ↦ d.what
  | some why ↦ if is_nil why then d.what else d.what ++ codes " (because " ++ why ++ codes ")"
]

unfoldable pub to_rollup_input : List MemoryRow → List RollupTurnInput
to_rollup_input rows =
    map
      (λ r. record {
        turn_index = r.turn_index;
        started_at = r.turn_started_at;
        decisions = map rendered_decision r.decisions;
        pending_items = r.pending_items;
        files_touched = r.files_touched;
      })
      rows

-- `PreviousRollup`, with the files of the carried rollup.
pub record Carry : Type 0 where
  pub title : Text
  pub summary : Text
  pub content : RollupContent

pub record PassSurroundings : Type 0 where
  -- The provider: `rollup`, and `merge` with the carried rollup.
  pub rollup : ℕ → List RollupTurnInput → RollupResult
  pub merge : ℕ → Carry → List RollupTurnInput → RollupResult
  -- What other writers make of the tables while the model is asked.
  pub meanwhile : ℕ → RollupTables → RollupTables
  -- The read is current before the model is asked, and still when it has answered.
  pub is_current : ℕ → Bool
  pub stays_current : ℕ → Bool
  -- The time of a write.
  pub now : ℕ → Text

-- The arguments of a pass, and what it has read before its first batch.
pub record Pass : Type 0 where
  pub session : SessionRow
  pub kind : SessionKind
  pub parent_session_id : Option ℕ
  pub state : RollupState
  pub source_revision : ℕ
  pub all : List MemoryRow
  pub fresh : List MemoryRow
  pub stale_version : Option ℕ

-- The variables of the loop over the batches.
pub record Progress : Type 0 where
  pub tables : RollupTables
  pub expected : Option ℕ
  pub carry : Option Carry
  pub wrote : Bool

pub data BatchOutcome : Type 0 where
  aborted : RollupTables → RollupOutcome → BatchOutcome
  landed : Progress → BatchOutcome

unfoldable pub watermark_still_matches : RollupTables → ℕ → Option ℕ → Bool
watermark_still_matches db id none = true
watermark_still_matches db id (some expected) = elim (get db id) [
  | none ↦ false
  | some row ↦ row.rolled_up_through_turn_index == expected
]

-- `Math.max(...)` of the turn indices of a batch.
unfoldable pub batch_high_water : List RollupTurnInput → ℕ
batch_high_water [] = 0
batch_high_water (t ∷ ts) = max t.turn_index (batch_high_water ts)

-- `rowsByTurnIndex.get`: of two rows with one index the later.
unfoldable pub row_at : ℕ → List MemoryRow → Option MemoryRow
row_at i [] = none
row_at i (row ∷ rows) = elim (row_at i rows) [
  | none ↦ if row.turn_index == i then some row else none
  | some found ↦ some found
]

unfoldable pub files_of : List MemoryRow → List RollupTurnInput → List Text
files_of rows [] = []
files_of rows (t ∷ ts) =
    elim (row_at t.turn_index rows) [ none ↦ [] | some row ↦ row.files_touched ] ++ files_of rows ts

unfoldable pub first_start : List MemoryRow → Text
first_start [] = []
first_start (row ∷ _) = row.turn_started_at

unfoldable pub last_start : List MemoryRow → Text
last_start [] = []
last_start (row ∷ rows) = elim rows [ [] ↦ row.turn_started_at | _ ∷ _ ↦ last_start rows ]

unfoldable pub incoming_content :
    Runtime → Pass → RollupOutput → List RollupTurnInput → RollupContent
incoming_content r pass output turns = record {
  decisions = attribute_decisions r output.decisions turns;
  instructions = attribute_instructions r output.instructions turns;
  pending_items = output.pending_items;
  files_touched = dedupe_paths r (files_of pass.fresh turns);
}

unfoldable pub merged_content : Runtime → Option Carry → RollupContent → RollupContent
merged_content r none incoming = incoming
merged_content r (some carry) incoming = merge_rollup_content r carry.content incoming

-- The version that a batch stamps: that of a stale rollup until the last batch.
unfoldable pub batch_version : Pass → Bool → ℕ
batch_version pass is_last = elim pass.stale_version [
  | none ↦ rollup_version
  | some old ↦ if is_last then rollup_version else old
]

unfoldable pub batch_write :
    Pass → Bool → List RollupTurnInput → RollupResult → RollupContent → RollupWrite
batch_write pass is_last turns result merged = record {
  expected_source_generation = some pass.source_revision;
  session_id = pass.session.id;
  project_id = pass.session.project_id;
  tool = pass.session.tool;
  title = result.output.title;
  summary = result.output.summary;
  decisions = merged.decisions;
  instructions = merged.instructions;
  pending_items = merged.pending_items;
  files_touched = merged.files_touched;
  turn_count = length pass.all;
  started_at = first_start pass.all;
  ended_at = last_start pass.all;
  kind = pass.kind;
  parent_session_id = pass.parent_session_id;
  summarizer_status = result.status;
  state = if is_last then pass.state else live;
  through_turn_index = batch_high_water turns;
  version = some (batch_version pass is_last);
}

-- What the next batch is merged onto: the stored decisions and instructions.
unfoldable pub next_carry : RollupTables → ℕ → RollupOutput → RollupContent → Carry
next_carry db id output merged = record {
  title = output.title;
  summary = output.summary;
  content = record {
    decisions = elim (get db id) [ none ↦ merged.decisions | some row ↦ row.decisions ];
    instructions = elim (get db id) [ none ↦ merged.instructions | some row ↦ row.instructions ];
    pending_items = merged.pending_items;
    files_touched = merged.files_touched;
  };
}
