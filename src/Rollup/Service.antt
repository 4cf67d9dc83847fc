-- ===== src/Rollup/Service.antt =====
-- src/daemon/rollup-service.ts: one call for a session.
use elepha.Common.{
  ℕ, ◌+◌, Bool, true, false, not, ◌&&◌, ◌||◌, Option, none, some, List, leb, ltb, ◌==◌,
  if◌then◌else◌, length, keep,
}
use elepha.Sanitize.Units.{Text}
use elepha.Rollup.Texts.{is_nil}
use elepha.Rollup.Prompt.{chunk_turns, max_rollup_batch_chars}
use elepha.Rollup.Decisions.{SessionKind, Runtime}
use elepha.Rollup.Rows.{
  RollupState, SessionRollupRow, RollupWrite, RollupTables, get, source_generation,
  is_session_kind_eligible, rollup_version,
}
use elepha.Rollup.Store.{write, is_final}
use elepha.Rollup.Pass.{
  MemoryRow, SessionRow, RollupOutcome, to_rollup_input, Carry, PassSurroundings, Pass, last_start,
}
use elepha.Rollup.Batch.{incomplete, locked, roll_batches}

-- `toWrite`: the rollup as it is, with the state it is to have.
unfoldable pub to_write : Pass → SessionRollupRow → RollupWrite
to_write pass existing = record {
  expected_source_generation = none;
  session_id = pass.session.id;
  project_id = pass.session.project_id;
  tool = pass.session.tool;
  title = existing.title;
  summary = existing.summary;
  decisions = existing.decisions;
  instructions = existing.instructions;
  pending_items = existing.pending_items;
  files_touched = existing.files_touched;
  turn_count = length pass.all;
  started_at = existing.started_at;
  ended_at = last_start pass.all;
  kind = pass.kind;
  parent_session_id = pass.parent_session_id;
  summarizer_status = existing.summarizer_status;
  state = pass.state;
  through_turn_index = existing.rolled_up_through_turn_index;
  version = none;
}

unfoldable pub same_rollup_state : RollupState → RollupState → Bool
same_rollup_state a b = (is_final a && is_final b) || (not (is_final a) && not (is_final b))

-- A rollup of another version is rebuilt from scratch.
unfoldable pub stale_version_of : Option SessionRollupRow → Option ℕ
stale_version_of none = none
stale_version_of (some row) = if row.version == rollup_version then none else some row.version

unfoldable pub current_rollup : Option SessionRollupRow → Option SessionRollupRow
current_rollup none = none
current_rollup (some row) = if row.version == rollup_version then some row else none

unfoldable pub watermark_of : Option SessionRollupRow → Option ℕ
watermark_of none = none
watermark_of (some row) = some row.rolled_up_through_turn_index

unfoldable pub fresh_turns : Option ℕ → List MemoryRow → List MemoryRow
fresh_turns none all = all
fresh_turns (some watermark) all = keep (λ row. ltb watermark row.turn_index) all

unfoldable pub carried : Option SessionRollupRow → Option Carry
carried none = none
carried (some row) = some (record {
  title = row.title;
  summary = row.summary;
  content = record {
    decisions = row.decisions;
    instructions = row.instructions;
    pending_items = row.pending_items;
    files_touched = row.files_touched;
  };
})

-- Nothing is new: only the state may have to change.
unfoldable pub settle_state :
    Runtime → Text → RollupTables → Pass → Option SessionRollupRow → RollupTables
settle_state r now db pass none = db
settle_state r now db pass (some existing) =
    if same_rollup_state existing.rollup_state pass.state
    then db
    else (write r now db (to_write pass existing) (some existing.rolled_up_through_turn_index)).0

abbrev pub nothing_to_do : RollupOutcome
nothing_to_do = record { deferred = false; wrote = false; complete = true }

-- `rollupSessionGuarded`, on the turns of the session.
unfoldable pub rollup_session_guarded :
    Runtime
    → PassSurroundings
    → RollupTables
    → SessionRow
    → SessionKind
    → Option ℕ
    → RollupState
    → List MemoryRow
    → RollupTables × RollupOutcome
rollup_session_guarded r around db session kind parent_session_id state all =
    let existing = current_rollup (get db session.id) in
    let fresh = fresh_turns (watermark_of existing) all in
    let pass : Pass = record {
      session = session;
      kind = kind;
      parent_session_id = parent_session_id;
      state = state;
      source_revision = source_generation db session.id;
      all = all;
      fresh = fresh;
      stale_version = stale_version_of (get db session.id);
    } in
    if not (is_session_kind_eligible db session.id)
    then (db, incomplete false)
    else if is_nil all
    then (db, nothing_to_do)
    else if is_nil fresh
    then (settle_state r (around.now 0) db pass existing, nothing_to_do)
    else roll_batches r around pass 0 (chunk_turns (to_rollup_input fresh) max_rollup_batch_chars)
        (record {
          tables = db;
          expected = watermark_of existing;
          carry = carried existing;
          wrote = false;
        })

-- `rollupSession`: the read has to be current before and after the pass.
unfoldable pub rollup_session :
    Runtime
    → PassSurroundings
    → Bool
    → Bool
    → RollupTables
    → SessionRow
    → SessionKind
    → Option ℕ
    → RollupState
    → List MemoryRow
    → RollupTables × RollupOutcome
rollup_session r around opens stays_open db session kind parent_session_id state all =
    let q = rollup_session_guarded r around db session kind parent_session_id state all in
    if not opens then (db, locked false) else if stays_open then q else (q.0, locked q.1.wrote)

-- `isIdle`, in milliseconds.
unfoldable pub is_idle : ℕ → ℕ → ℕ → Bool
is_idle idle_close_ms mtime_ms now = leb (mtime_ms + idle_close_ms) now
