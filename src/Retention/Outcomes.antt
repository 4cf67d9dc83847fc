-- ===== src/Retention/Outcomes.antt =====
-- What a capture may come to under the policy.
use elepha.Common.{
  ℕ, ◌≤◌, ◌<◌, Bool, true, false, List, ◌≡◌, subst, inl, inr, ltb, ltb→lt, arith, all, Bool-cases,
}
use Prim.Native.String.{String}
use elepha.Retention.Store.{
  CaptureIdentity, Database, Tx, commit, roll_back, adjusted, clear_deferral,
}
use elepha.Retention.Describe.{RetentionUnit, describe}
use elepha.Retention.Plan.{Planned, planned, abort}
use elepha.Retention.Guards.{cleanup_and_write-elim}
use elepha.Retention.Steps.{
  WriteResult, wrote, threw, BackupResult, refused, taken, Policy, Outcome, committed, deferred,
  unconfirmed_cleanup, write_failed, record_state, defer, holds_rows, unchanged,
}
use elepha.Retention.Run.{
  Abort, aborted, remove_and_verify, attempt, decisive, confirm, finish_cleanup, clean_up, judge,
  after_probe, back_up_and_remove, cleanup_and_write, Probe, over, probe, run,
}

-- What a committed transaction of `decisive` left on the ledger.
abbrev Settled : Policy → Database → Bool → Type 0
Settled policy db false = db.ledger < policy.capacity_bytes
Settled policy db true = db.ledger ≤ policy.target_bytes

abbrev SettledTx : Policy → Tx Bool Abort → Type 0
SettledTx policy (commit db r) = Settled policy db r
SettledTx policy (roll_back _) = Unit

remove_and_verify-Settled :
    (policy : Policy) (identity : CaptureIdentity) (units : List RetentionUnit) (path : String)
    (db : Database)
    → SettledTx policy (remove_and_verify policy identity units path db)
unfolding remove_and_verify record_state clear_deferral
remove_and_verify-Settled policy identity units path db = ground arith

-- What a write that came through, in `Outcome`'s sense, left on the ledger.
abbrev SettledOutcome : Policy → Outcome → Type 0
SettledOutcome policy (committed db r) = Settled policy db r
SettledOutcome policy (deferred _ _) = Unit
SettledOutcome policy (unconfirmed_cleanup _ _) = Unit
SettledOutcome policy (write_failed _ _) = Unit

attempt-Settled :
    (policy : Policy) (identity : CaptureIdentity) (units : List RetentionUnit) (path : String)
    (w : WriteResult)
    → SettledTx policy (attempt policy identity units path w)
unfolding attempt clear_deferral
attempt-Settled policy identity units path (threw e) = tt
attempt-Settled policy identity units path (wrote db) =
    elim (Bool-cases (ltb db.ledger policy.capacity_bytes)) [
      | inl h ↦ rw h (ltb→lt _ _ h)
      | inr h ↦ rw h (remove_and_verify-Settled policy identity units path db)
    ]

adjusted-Settled :
    (policy : Policy) (t : Tx Bool Abort) → SettledTx policy t → SettledTx policy (adjusted t)
adjusted-Settled policy (commit db true) h = h
adjusted-Settled policy (commit db false) h = h
adjusted-Settled policy (roll_back e) h = h

decisive-Settled :
    (policy : Policy) (identity : CaptureIdentity) (write : Database → WriteResult)
    (units : List RetentionUnit) (path : String) (db : Database)
    → SettledTx policy (decisive policy identity write units path db)
unfolding decisive
decisive-Settled policy identity write units path db =
    elim (Bool-cases
      (all (unchanged (describe policy.now policy.active_window_ms identity db db.stored)) units)) [
        | inl h ↦ rw h (attempt-Settled policy identity units path (write db))
        | inr h ↦ rw h tt
      ]

confirm-Settled :
    (policy : Policy) (units : List RetentionUnit) (path : String) (db : Database)
    → db.ledger ≤ policy.target_bytes
    → SettledOutcome policy (confirm policy units path db)
unfolding confirm
confirm-Settled policy units path db h = ground arith

abbrev ProbeTx : Policy → Tx (Unit {0}) Probe → Type 0
ProbeTx policy (commit db _) = db.ledger < policy.capacity_bytes
ProbeTx policy (roll_back _) = Unit

judge-ProbeTx :
    (policy : Policy) (identity : CaptureIdentity) (before : ℕ) (w : WriteResult)
    → ProbeTx policy (judge policy identity before w)
unfolding judge clear_deferral
judge-ProbeTx policy identity before (threw e) = tt
judge-ProbeTx policy identity before (wrote db) = ground arith

probe-ProbeTx :
    (policy : Policy) (identity : CaptureIdentity) (write : Database → WriteResult) (db : Database)
    → ProbeTx policy (probe policy identity write db)
unfolding probe
probe-ProbeTx policy identity write db = judge-ProbeTx policy identity db.ledger (write db)

adjusted-ProbeTx :
    (policy : Policy) (t : Tx (Unit {0}) Probe) → ProbeTx policy t → ProbeTx policy (adjusted t)
adjusted-ProbeTx policy (commit db _) h = h
adjusted-ProbeTx policy (roll_back e) h = h

Settled→below :
    (policy : Policy) (db : Database) (r : Bool)
    → policy.target_bytes < policy.capacity_bytes
    → Settled policy db r
    → db.ledger < policy.capacity_bytes
Settled→below policy db true small h = omega arith
Settled→below policy db false small h = h

module _ (policy : Policy)
    (keeps_ledger : (db : Database) → (policy.after_cleanup_commit db).ledger ≡ db.ledger) where
  finish_cleanup-Settled :
      (identity : CaptureIdentity) (units : List RetentionUnit) (path : String) (db : Database)
      (t : Tx Bool Abort)
      → SettledTx policy t
      → SettledOutcome policy (finish_cleanup policy identity units path db t)
  unfolding finish_cleanup defer record_state
  finish_cleanup-Settled identity units path db (commit db' true) h =
      confirm-Settled policy units path (policy.after_cleanup_commit db') (rw (keeps_ledger db') h)
  finish_cleanup-Settled identity units path db (commit db' false) h = h
  finish_cleanup-Settled identity units path db (roll_back (aborted reason)) h = tt
  finish_cleanup-Settled identity units path db (roll_back (Abort.write_threw e)) h = tt

  back_up_and_remove-Settled :
      (identity : CaptureIdentity) (write : Database → WriteResult) (units : List RetentionUnit)
      (db : Database) (b : BackupResult)
      → SettledOutcome policy (back_up_and_remove policy identity write units db b)
  unfolding back_up_and_remove defer
  back_up_and_remove-Settled identity write units db refused = tt
  back_up_and_remove-Settled identity write units db (taken path copy now) =
      elim (Bool-cases (all (holds_rows copy) units)) [
        | inl h ↦ rw h (
            finish_cleanup-Settled identity units path now _
              (adjusted-Settled policy _ (decisive-Settled policy identity write units path _)))
        | inr h ↦ rw h tt
      ]

  clean_up-Settled :
      (identity : CaptureIdentity) (write : Database → WriteResult) (db : Database) (p : Planned)
      → SettledOutcome policy (clean_up policy identity write db p)
  unfolding clean_up defer
  clean_up-Settled identity write db (abort reason) = tt
  clean_up-Settled identity write db (planned units) =
      back_up_and_remove-Settled identity write units db (policy.backup db)

  cleanup_and_write-Settled :
      (identity : CaptureIdentity) (write : Database → WriteResult) (before after : ℕ)
      (db : Database)
      → SettledOutcome policy (cleanup_and_write policy identity write before after db)
  unfolding defer
  cleanup_and_write-Settled identity write before after db =
      cleanup_and_write-elim policy identity write before after db (SettledOutcome policy)
        (λ reason. tt) (λ _ _. clean_up-Settled identity write db _)

  after_probe-Settled :
      (identity : CaptureIdentity) (write : Database → WriteResult) (db : Database)
      (t : Tx (Unit {0}) Probe)
      → ProbeTx policy t
      → SettledOutcome policy (after_probe policy identity write db t)
  unfolding after_probe
  after_probe-Settled identity write db (commit db' _) h = h
  after_probe-Settled identity write db (roll_back (over before after)) h =
      cleanup_and_write-Settled identity write before after db
  after_probe-Settled identity write db (roll_back (Probe.write_threw e)) h = tt

  run-Settled :
      (identity : CaptureIdentity) (write : Database → WriteResult) (db : Database)
      → SettledOutcome policy (run policy identity write db)
  unfolding run
  run-Settled identity write db =
      after_probe-Settled identity write db _
        (adjusted-ProbeTx policy _ (probe-ProbeTx policy identity write _))

-- A capture that is committed leaves the ledger below capacity, whether sessions were removed or not, where
-- the target is below capacity and what runs after a cleanup commits leaves the ledger as it is.
pub run-below_capacity :
    (policy : Policy) (identity : CaptureIdentity) (write : Database → WriteResult)
    (db db' : Database) (removed_units : Bool)
    → ((d : Database) → (policy.after_cleanup_commit d).ledger ≡ d.ledger)
    → policy.target_bytes < policy.capacity_bytes
    → run policy identity write db ≡ committed db' removed_units
    → db'.ledger < policy.capacity_bytes
run-below_capacity policy identity write db db' removed_units keeps_ledger small h =
    Settled→below policy db' removed_units small
      (subst (SettledOutcome policy) h (run-Settled policy keeps_ledger identity write db))
