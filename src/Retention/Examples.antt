-- ===== src/Retention/Examples.antt =====
-- A capture that does not fit beside an old session, one that comes too early, and the theorems at them.
use elepha.Common.{
  all, not, ℕ, ◌+◌, ◌≤◌, ◌<◌, true, false, none, some, List, [], ◌∷◌, ◌++◌, ◌≡◌, ◌↔◌, refl, arith,
  keep,
}
use elepha.Retention.Store.{
  approved, CaptureIdentity, same_key, unwarned_jump, target_unreachable, NativeSession,
  UnitSession, Database, measure, clear_deferral,
}
use elepha.Retention.Describe.{
  compare_text, compare_units_of_text, units_of_text, RetentionUnit, project_paths,
  last_ingested_ms, ineligibility, consents, describe_one, describe,
}
use elepha.Retention.Plan.{
  planned, abort, compare_units, insert_unit, sort_units, select_units, plan,
}
use elepha.Retention.Steps.{
  WriteResult, wrote, taken, Policy, Outcome, committed, deferred, upsert_deferral, record_state,
  defer, find_unit, find_session, holds_rows, unchanged, is_planned, clear_deferrals,
  upsert_removal, plans_session, plans_memory, remove_sessions, is_remaining, record_removals,
  remove_units, remaining_rows,
}
use elepha.Retention.Run.{
  remove_and_verify, attempt, decisive, confirm, finish_cleanup, back_up_and_remove, clean_up,
  cleanup_and_write, judge, probe, after_probe, run,
}
use elepha.Retention.Compare.{same_tables, same_unit, same_unit_session}
use elepha.Retention.Trigger.{plan-keeps_trigger}
use elepha.Retention.Selecting.{total, is_eligible, plan-planned, plan-least, plan-unreachable_iff}
use elepha.Retention.Outcomes.{run-below_capacity}
use elepha.Retention.Deferred.{run-deferred}
use elepha.Retention.Removals.{RemovalEvidence, run-removes}

abbrev old_one : CaptureIdentity
old_one = record { tool = "codex"; native_id = "old" }

abbrev new_one : CaptureIdentity
new_one = record { tool = "codex"; native_id = "new" }

abbrev segment : ℕ → UnitSession
segment id = record {
  id = id;
  segment = 0;
  project_id = 1;
  project_path = some "/p";
  last_ingested = some 100;
  started_at = "t";
  capture_state = some "complete";
}

abbrev stored_session : CaptureIdentity → ℕ → ℕ → NativeSession
stored_session identity id bytes = record {
  identity = identity;
  sessions = segment id ∷ [];
  start_ms = some 100;
  started_at = some "t";
  generation = some 1;
  tables = ("memories", 1, bytes) ∷ [];
  bytes = bytes;
  memory_ids = id ∷ [];
  has_open_turn = false;
  is_referenced_parent = false;
}

abbrev holding : ℕ → Database
holding bytes = record {
  stored = stored_session old_one 1 bytes ∷ [];
  ledger = bytes;
  consent = λ p. approved;
  deferrals = [];
  state = none;
  removals = [];
  bypass_depth = 0;
  in_transaction = false;
}

abbrev small : Policy
small = record {
  capacity_bytes = 100;
  target_bytes = 50;
  warning_bytes = 60;
  active_window_ms = 10;
  retry_ms = 5;
  now = 1000;
  backup = λ db. taken "copy" db db;
  after_cleanup_commit = λ db. db;
  remainder = λ s left. record s { sessions = left };
}

abbrev writing : ℕ → Database → WriteResult
writing bytes db =
    wrote (record db {
      stored = stored_session new_one 2 bytes ∷ db.stored;
      ledger = db.ledger + bytes;
    })

-- A module that unfolds this unfolds the whole policy.
unfoldable Running : Type 0
unfolding run compare_text compare_units_of_text units_of_text probe judge after_probe
    cleanup_and_write clean_up plan describe describe_one project_paths last_ingested_ms
    ineligibility consents compare_units insert_unit sort_units select_units measure same_key
    back_up_and_remove holds_rows find_session decisive unchanged find_unit attempt
    remove_and_verify remove_units is_planned plans_session plans_memory remove_sessions
    is_remaining same_tables same_unit same_unit_session clear_deferrals upsert_removal
    record_removals remaining_rows clear_deferral record_state finish_cleanup confirm defer
    upsert_deferral total
Running = Unit

abbrev database_of : Outcome → Database
database_of (committed db _) = db
database_of (deferred db _) = db
database_of _ = holding 0

removes :
    run small new_one (writing 40) (holding 70)
    ≡ committed (database_of (run small new_one (writing 40) (holding 70))) true
unfolding Running
removes = refl

put_off :
    run small new_one (writing 60) (holding 50)
    ≡ deferred (database_of (run small new_one (writing 60) (holding 50))) unwarned_jump
unfolding Running
put_off = refl

abbrev old_unit : RetentionUnit
old_unit = describe_one 1000 10 new_one (holding 70) (stored_session old_one 1 70)

planned_old : plan 1000 10 50 new_one 70 110 (holding 70) ≡ planned (old_unit ∷ [])
unfolding Running
planned_old = refl

unreachable_old : plan 1000 10 50 old_one 70 110 (holding 70) ≡ abort target_unreachable
unfolding Running
unreachable_old = refl

run-below_capacity_example :
    (database_of (run small new_one (writing 40) (holding 70))).ledger < 100
run-below_capacity_example =
    run-below_capacity small new_one (writing 40) (holding 70)
      (database_of (run small new_one (writing 40) (holding 70))) true (λ d. refl) (omega arith)
      removes

run-deferred_example :
    ((database_of (run small new_one (writing 60) (holding 50))).stored ≡ (holding 50).stored)
    × ((database_of (run small new_one (writing 60) (holding 50))).ledger ≡ 50)
    × ((database_of (run small new_one (writing 60) (holding 50))).removals ≡ [])
run-deferred_example =
    run-deferred small new_one (writing 60) (holding 50)
      (database_of (run small new_one (writing 60) (holding 50))) unwarned_jump
      (λ d. (refl, refl, refl)) put_off

run-removes_example :
    (60 ≤ 70)
    × (false ≡ false)
    × ((after : ℕ) × RemovalEvidence small new_one 70 after
          (holding 70)
          (database_of (run small new_one (writing 40) (holding 70))))
run-removes_example =
    run-removes small new_one (writing 40) (holding 70)
      (database_of (run small new_one (writing 40) (holding 70))) removes

plan-planned_example :
    ((rest : List RetentionUnit) × ((old_unit ∷ []) ++ rest
        ≡ keep is_eligible
            (sort_units (describe 1000 10 new_one (holding 70) (holding 70).stored))))
    × (measure (holding 70).stored + 110 ≤ 70 + 50 + total (old_unit ∷ []))
plan-planned_example =
    plan-planned 1000 10 50 new_one 70 110 (holding 70) (old_unit ∷ []) planned_old

plan-least_example : 70 + 50 + total [] < measure (holding 70).stored + 110
plan-least_example = plan-least 1000 10 50 new_one 70 110 (holding 70) [] old_unit [] planned_old

plan-unreachable_iff_example :
    (plan 1000 10 50 old_one 70 110 (holding 70) ≡ abort target_unreachable) ↔ (
      (70 ≡ measure (holding 70).stored)
      × (70
            + 50
            + total (
                keep is_eligible
                  (sort_units (describe 1000 10 old_one (holding 70) (holding 70).stored)))
          < measure (holding 70).stored + 110))
plan-unreachable_iff_example = plan-unreachable_iff 1000 10 50 old_one 70 110 (holding 70)

plan-keeps_trigger_example : all (λ u. not (same_key u.identity new_one)) (old_unit ∷ []) ≡ true
plan-keeps_trigger_example =
    plan-keeps_trigger 1000 10 50 new_one 70 110 (holding 70) (old_unit ∷ []) planned_old
