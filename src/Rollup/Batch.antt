-- ===== src/Rollup/Batch.antt =====
-- src/daemon/rollup-service.ts: one batch, and the loop over the batches. Log lines are left out, and so
-- is the retention of live memory around a write, which throws where it defers one.
use elepha.Common.{ℕ, suc, Bool, true, false, not, Option, none, some, List, [], ◌∷◌, if◌then◌else◌}
use elepha.Rollup.Texts.{is_nil}
use elepha.Rollup.Prompt.{RollupTurnInput, TurnBatch}
use elepha.Rollup.Decisions.{Runtime}
use elepha.Rollup.Rows.{RollupTables, is_session_kind_eligible}
use elepha.Rollup.Store.{write}
use elepha.Rollup.Candidates.{RollupResult, is_ok}
use elepha.Rollup.Pass.{
  RollupOutcome, Carry, PassSurroundings, Pass, Progress, BatchOutcome, watermark_still_matches,
  batch_high_water, incoming_content, merged_content, batch_write, next_carry, aborted, landed,
}

abbrev pub incomplete : Bool → RollupOutcome
incomplete wrote = record { deferred = false; wrote = wrote; complete = false }

abbrev pub locked : Bool → RollupOutcome
locked wrote = record { deferred = true; wrote = wrote; complete = false }

-- The batch from the reply of the model on, on the tables as the await left them.
unfoldable pub apply_result :
    Runtime
    → PassSurroundings
    → Pass
    → ℕ
    → Bool
    → List RollupTurnInput
    → RollupResult
    → Progress
    → BatchOutcome
apply_result r around pass index is_last turns result p =
    let merged = merged_content r p.carry (incoming_content r pass result.output turns) in
    let q =
      write r (around.now index) p.tables (batch_write pass is_last turns result merged)
        p.expected in
    if not (is_session_kind_eligible p.tables pass.session.id)
    then aborted p.tables (incomplete p.wrote)
    else if not (is_ok result.status)
    then aborted p.tables (incomplete p.wrote)
    else if q.1
    then landed (record {
      tables = q.0;
      expected = some (batch_high_water turns);
      carry = some (next_carry q.0 pass.session.id result.output merged);
      wrote = true;
    })
    else aborted q.0 (incomplete p.wrote)

-- The provider is asked to merge onto what is carried, or for a rollup of its own.
unfoldable pub ask : PassSurroundings → ℕ → Option Carry → List RollupTurnInput → RollupResult
ask around index none turns = around.rollup index turns
ask around index (some carry) turns = around.merge index carry turns

-- One round of the loop.
unfoldable pub roll_batch :
    Runtime → PassSurroundings → Pass → ℕ → Bool → List RollupTurnInput → Progress → BatchOutcome
roll_batch r around pass index is_last turns p =
    let after = around.meanwhile index p.tables in
    if not (is_session_kind_eligible p.tables pass.session.id)
    then aborted p.tables (incomplete p.wrote)
    else if not (watermark_still_matches p.tables pass.session.id p.expected)
    then aborted p.tables (incomplete p.wrote)
    else if not (around.is_current index)
    then aborted p.tables (locked p.wrote)
    else if not (around.stays_current index)
    then aborted after (locked p.wrote)
    else apply_result r around pass index is_last turns (ask around index p.carry turns)
        (record p { tables = after })

-- The loop.
unfoldable pub roll_batches :
    Runtime → PassSurroundings → Pass → ℕ → List TurnBatch → Progress → RollupTables × RollupOutcome
roll_batches r around pass index [] p =
    (p.tables, record { deferred = false; wrote = p.wrote; complete = true })
roll_batches r around pass index (b ∷ bs) p =
    elim (roll_batch r around pass index (is_nil bs) b.turns p) [
      | aborted tables outcome ↦ (tables, outcome)
      | landed q ↦ roll_batches r around pass (suc index) bs q
    ]
