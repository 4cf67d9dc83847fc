-- ===== src/Rollup/Store.antt =====
-- src/storage/rollup-store.ts: the conditional write. `write` is the transaction that the retention of
-- live memory runs, which `Retention.Run` models.
use elepha.Common.{
  ℕ, Bool, true, false, not, ◌&&◌, Option, none, some, List, [], ◌∷◌, ◌==◌, if◌then◌else◌,
}
use mathlib.Core.List.{map}
use elepha.Sanitize.Units.{Text}
use elepha.Sanitize.Escape.{escape_shell_syntax}
use elepha.Sanitize.Strip.{strip_shell_syntax}
use elepha.Rollup.Decisions.{Runtime, RollupDecision, union_decisions, dedupe_paths}
use elepha.Rollup.Rows.{
  rollup_version, RollupState, SessionRollupRow, RollupWrite, RollupTables,
  is_session_kind_eligible, is_expected_generation, live, final,
}

-- Decisions and instructions as they are written.
unfoldable pub stored_decision : RollupDecision → RollupDecision
stored_decision d = record d {
  what = escape_shell_syntax d.what;
  why = some (escape_shell_syntax (elim d.why [ none ↦ [] | some why ↦ why ]));
}

unfoldable pub stored_instruction : RollupDecision → RollupDecision
stored_instruction d = record d {
  what = escape_shell_syntax d.what;
  why = elim d.why [ none ↦ none | some why ↦ some (escape_shell_syntax why) ];
}

-- The row that a write is about to leave, `now` being the time of the write.
unfoldable pub row_of : Runtime → Text → RollupWrite → SessionRollupRow
row_of r now w = record {
  session_id = w.session_id;
  project_id = w.project_id;
  tool = w.tool;
  title = strip_shell_syntax w.title;
  summary = strip_shell_syntax w.summary;
  decisions = map stored_decision w.decisions;
  instructions = map stored_instruction (union_decisions r [] w.instructions);
  pending_items = map strip_shell_syntax w.pending_items;
  files_touched = dedupe_paths r w.files_touched;
  turn_count = w.turn_count;
  started_at = w.started_at;
  ended_at = w.ended_at;
  kind = w.kind;
  parent_session_id = w.parent_session_id;
  summarizer_status = w.summarizer_status;
  rollup_state = w.state;
  rolled_up_through_turn_index = w.through_turn_index;
  computed_at = now;
  version = elim w.version [ none ↦ rollup_version | some v ↦ v ];
}

-- `insert`: on a conflict every column but the project and the tool is replaced.
unfoldable pub insert_rollup : SessionRollupRow → List SessionRollupRow → List SessionRollupRow
insert_rollup new [] = new ∷ []
insert_rollup new (row ∷ rows) =
    let others = row ∷ insert_rollup new rows in
    if row.session_id == new.session_id
    then record new { project_id = row.project_id; tool = row.tool } ∷ rows
    else others

-- `updateIfWatermark` on a row that meets its condition.
unfoldable pub update_rollup : SessionRollupRow → SessionRollupRow → SessionRollupRow
update_rollup row new = record row {
  title = new.title;
  summary = new.summary;
  decisions = new.decisions;
  instructions = new.instructions;
  pending_items = new.pending_items;
  files_touched = new.files_touched;
  turn_count = new.turn_count;
  ended_at = new.ended_at;
  summarizer_status = new.summarizer_status;
  rollup_state = new.rollup_state;
  rolled_up_through_turn_index = new.rolled_up_through_turn_index;
  computed_at = new.computed_at;
  version = new.version;
}

-- `updateIfWatermark`: `none` where it changes no row. A session has one row: its id is the key.
unfoldable pub update_if_watermark :
    SessionRollupRow → ℕ → List SessionRollupRow → Option (List SessionRollupRow)
update_if_watermark new expected [] = none
update_if_watermark new expected (row ∷ rows) =
    let others : Option (List SessionRollupRow) = elim (update_if_watermark new expected rows) [
      | none ↦ none
      | some rs ↦ some (row ∷ rs)
    ] in
    let here : Option (List SessionRollupRow) =
      if row.rolled_up_through_turn_index == expected
      then some (update_rollup row new ∷ rows)
      else none in
    if row.session_id == new.session_id then here else others

unfoldable pub write : Runtime → Text → RollupTables → RollupWrite → Option ℕ → RollupTables × Bool
write r now db w expected =
    if not (is_session_kind_eligible db w.session_id)
    then (db, false)
    else if not (is_expected_generation db w.session_id w.expected_source_generation)
    then (db, false)
    else elim expected [
      | none ↦ (record db { rollups = insert_rollup (row_of r now w) db.rollups }, true)
      | some e ↦ elim (update_if_watermark (row_of r now w) e db.rollups) [
        | none ↦ (db, false)
        | some rows ↦ (record db { rollups = rows }, true)
      ]
    ]

abbrev pub is_final : RollupState → Bool
is_final live = false
is_final final = true

-- `markLive`: a reopened session.
unfoldable pub mark_live : RollupTables → ℕ → RollupTables
mark_live db id = record db {
  rollups =
      map
        (λ row.
          if row.session_id == id
            && is_final row.rollup_state
            && is_session_kind_eligible db row.session_id
          then record row { rollup_state = live }
          else row)
        db.rollups;
}
