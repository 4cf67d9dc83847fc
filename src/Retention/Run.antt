-- ===== src/Retention/Run.antt =====
-- src/storage/live-memory-retention.ts: `run`, with `decisive`, `confirm` and
-- `cleanupAndWrite`. The clock stands still over one call. The
-- value that a capture returns is left out.
use Prim.Native.String.{String}
use elepha.Common.{
  ℕ, Bool, true, false, not, ◌||◌, Option, none, some, List, if◌then◌else◌, leb, ltb, ◌==◌, all,
}
use elepha.Retention.Store.{
  CaptureIdentity, DeferralReason, unwarned_jump, cleanup_retry_wait, transaction_open,
  backup_failed, revalidation_failed, verification_failed, removed, unconfirmed, RetentionState,
  Database, measure, Tx, commit, roll_back, with_guard_bypassed, clear_deferral,
}
use elepha.Retention.Describe.{RetentionUnit, describe}
use elepha.Retention.Plan.{Planned, planned, abort, plan}
use elepha.Retention.Steps.{
  BackupResult, Outcome, Policy, WriteResult, committed, defer, holds_rows, record_state, refused,
  remaining_rows, remove_units, taken, threw, unchanged, unconfirmed_cleanup, write_failed, wrote,
}

pub data Abort : Type 0 where
  aborted : DeferralReason → Abort
  write_threw : String → Abort

-- What `decisive` does once the write is in and is over capacity.
unfoldable pub remove_and_verify :
    Policy → CaptureIdentity → List RetentionUnit → String → Database → Tx Bool Abort
remove_and_verify policy identity units path db =
    let after = remove_units policy units path db in
    let measured = measure after.stored in
    if remaining_rows units after
    then roll_back (aborted verification_failed)
    else if not (measured == after.ledger)
    then roll_back (aborted verification_failed)
    else if ltb policy.target_bytes measured
    then roll_back (aborted verification_failed)
    else commit (record_state removed none policy.now 0 (some path) (clear_deferral identity after))
        true

-- The rest of `decisive`, once the units are revalidated.
unfoldable pub attempt :
    Policy → CaptureIdentity → List RetentionUnit → String → WriteResult → Tx Bool Abort
attempt policy identity units path (threw e) = roll_back (write_threw e)
attempt policy identity units path (wrote db) =
    if ltb db.ledger policy.capacity_bytes
    then commit (clear_deferral identity db) false
    else remove_and_verify policy identity units path db

-- `decisive`; the flag says whether units were removed.
unfoldable pub decisive :
    Policy
    → CaptureIdentity
    → (Database → WriteResult)
    → List RetentionUnit
    → String
    → Database
    → Tx Bool Abort
decisive policy identity write units path db =
    let current = describe policy.now policy.active_window_ms identity db db.stored in
    if all (unchanged current) units
    then attempt policy identity units path (write db)
    else roll_back (aborted revalidation_failed)

-- `confirm`, after the commit.
unfoldable pub confirm : Policy → List RetentionUnit → String → Database → Outcome
confirm policy units path db =
    if remaining_rows units db || not (measure db.stored == db.ledger)
    then unconfirmed_cleanup (record_state unconfirmed none policy.now 0 (some path) db) path
    else committed db true

unfoldable pub finish_cleanup :
    Policy → CaptureIdentity → List RetentionUnit → String → Database → Tx Bool Abort → Outcome
finish_cleanup policy identity units path db (commit db' true) =
    confirm policy units path (policy.after_cleanup_commit db')
finish_cleanup policy identity units path db (commit db' false) = committed db' false
finish_cleanup policy identity units path db (roll_back (aborted reason)) =
    defer policy identity reason true db
finish_cleanup policy identity units path db (roll_back (write_threw e)) = write_failed db e

-- `cleanupAndWrite` from the backup on.
unfoldable pub back_up_and_remove :
    Policy
    → CaptureIdentity
    → (Database → WriteResult)
    → List RetentionUnit
    → Database
    → BackupResult
    → Outcome
back_up_and_remove policy identity write units db refused =
    defer policy identity backup_failed true db
back_up_and_remove policy identity write units db (taken path copy now) =
    let outcome =
      finish_cleanup policy identity units path now
        (with_guard_bypassed now (decisive policy identity write units path)) in
    if all (holds_rows copy) units then outcome else defer policy identity backup_failed true now

abbrev pub waits_for_retry : ℕ → Option RetentionState → Bool
waits_for_retry now none = false
waits_for_retry now (some s) = ltb now s.retry_after_ms

unfoldable pub clean_up :
    Policy → CaptureIdentity → (Database → WriteResult) → Database → Planned → Outcome
clean_up policy identity write db (abort reason) = defer policy identity reason true db
clean_up policy identity write db (planned units) =
    back_up_and_remove policy identity write units db (policy.backup db)

-- `cleanupAndWrite`.
unfoldable pub cleanup_and_write :
    Policy → CaptureIdentity → (Database → WriteResult) → (before after : ℕ) → Database → Outcome
cleanup_and_write policy identity write before after db =
    if ltb before policy.warning_bytes
    then defer policy identity unwarned_jump false db
    else if db.in_transaction
    then defer policy identity transaction_open false db
    else if waits_for_retry policy.now db.state
    then defer policy identity cleanup_retry_wait false db
    else clean_up policy identity write db
        (plan policy.now policy.active_window_ms policy.target_bytes identity before after db)

pub data Probe : Type 0 where
  over : (before after : ℕ) → Probe
  write_threw : String → Probe

-- The first attempt of `run`, after its write.
unfoldable pub judge : Policy → CaptureIdentity → (before : ℕ) → WriteResult → Tx (Unit {0}) Probe
judge policy identity before (threw e) = roll_back (Probe.write_threw e)
judge policy identity before (wrote db) =
    if leb policy.capacity_bytes db.ledger
    then roll_back (over before db.ledger)
    else commit (clear_deferral identity db) tt

-- The first attempt of `run`, which is rolled back where the write is at capacity.
unfoldable pub probe :
    Policy → CaptureIdentity → (Database → WriteResult) → Database → Tx (Unit {0}) Probe
probe policy identity write db = judge policy identity db.ledger (write db)

unfoldable pub after_probe :
    Policy → CaptureIdentity → (Database → WriteResult) → Database → Tx (Unit {0}) Probe → Outcome
after_probe policy identity write db (commit db' _) = committed db' false
after_probe policy identity write db (roll_back (over before after)) =
    cleanup_and_write policy identity write before after db
after_probe policy identity write db (roll_back (Probe.write_threw e)) = write_failed db e

-- `run`: the outcome of one capture.
unfoldable pub run : Policy → CaptureIdentity → (Database → WriteResult) → Database → Outcome
run policy identity write db =
    after_probe policy identity write db (with_guard_bypassed db (probe policy identity write))
