-- ===== src/Retention/Deferred.antt =====
-- Captures that are put off, and what a cleanup needs to go through.
use elepha.Common.{ℕ, Bool, true, false, List, ◌≡◌, refl, subst, arith, all, Bool-cases, inl, inr}
use Prim.Native.String.{String}
use elepha.Retention.Store.{CaptureIdentity, DeferralReason, Database, Tx, commit, roll_back}
use elepha.Retention.Describe.{RetentionUnit}
use elepha.Retention.Plan.{Planned, planned, abort}
use elepha.Retention.Guards.{cleanup_and_write-elim}
use elepha.Retention.Steps.{
  WriteResult, BackupResult, refused, taken, Policy, Outcome, committed, deferred,
  unconfirmed_cleanup, write_failed, record_state, defer, holds_rows,
}
use elepha.Retention.Run.{
  Abort, aborted, confirm, finish_cleanup, back_up_and_remove, clean_up, cleanup_and_write, Probe,
  over, after_probe, run,
}

-- The memories, their ledger and the record of removals.
abbrev SameMemory : Database → Database → Type 0
SameMemory a b = (a.stored ≡ b.stored) × (a.ledger ≡ b.ledger) × (a.removals ≡ b.removals)

-- No memory is lost or gained where a capture is put off or its write fails.
abbrev KeepsMemory : Database → Outcome → Type 0
KeepsMemory db (committed _ _) = Unit
KeepsMemory db (deferred db' _) = SameMemory db' db
KeepsMemory db (unconfirmed_cleanup _ _) = Unit
KeepsMemory db (write_failed db' _) = SameMemory db' db

defer-KeepsMemory :
    (policy : Policy) (identity : CaptureIdentity) (reason : DeferralReason) (attempted : Bool)
    (now db : Database)
    → SameMemory now db
    → KeepsMemory db (defer policy identity reason attempted now)
unfolding defer record_state
defer-KeepsMemory policy identity reason true now db h = h
defer-KeepsMemory policy identity reason false now db h = h

confirm-KeepsMemory :
    (policy : Policy) (units : List RetentionUnit) (path : String) (now db : Database)
    → KeepsMemory db (confirm policy units path now)
unfolding confirm
confirm-KeepsMemory policy units path now db = ground arith

finish_cleanup-KeepsMemory :
    (policy : Policy) (identity : CaptureIdentity) (units : List RetentionUnit) (path : String)
    (now db : Database) (t : Tx Bool Abort)
    → SameMemory now db
    → KeepsMemory db (finish_cleanup policy identity units path now t)
unfolding finish_cleanup
finish_cleanup-KeepsMemory policy identity units path now db (commit db' true) h =
    confirm-KeepsMemory policy units path (policy.after_cleanup_commit db') db
finish_cleanup-KeepsMemory policy identity units path now db (commit db' false) h = tt
finish_cleanup-KeepsMemory policy identity units path now db (roll_back (aborted reason)) h =
    defer-KeepsMemory policy identity reason true now db h
finish_cleanup-KeepsMemory policy identity units path now db (roll_back (Abort.write_threw e)) h = h

-- What a backup that is taken leaves of the memories.
abbrev pub BackupKeeps : Database → BackupResult → Type 0
BackupKeeps db refused = Unit
BackupKeeps db (taken path copy now) = SameMemory now db

back_up_and_remove-KeepsMemory :
    (policy : Policy) (identity : CaptureIdentity) (write : Database → WriteResult)
    (units : List RetentionUnit) (db : Database) (b : BackupResult)
    → BackupKeeps db b
    → KeepsMemory db (back_up_and_remove policy identity write units db b)
unfolding back_up_and_remove
back_up_and_remove-KeepsMemory policy identity write units db refused h =
    defer-KeepsMemory policy identity _ true db db (refl, refl, refl)
back_up_and_remove-KeepsMemory policy identity write units db (taken path copy now) h =
    elim (Bool-cases (all (holds_rows copy) units)) [
      | inl k ↦ rw k (finish_cleanup-KeepsMemory policy identity units path now db _ h)
      | inr k ↦ rw k (defer-KeepsMemory policy identity _ true now db h)
    ]

module _ (policy : Policy)
    (backup_keeps : (db : Database) → BackupKeeps db (policy.backup db)) where
  clean_up-KeepsMemory :
      (identity : CaptureIdentity) (write : Database → WriteResult) (db : Database) (p : Planned)
      → KeepsMemory db (clean_up policy identity write db p)
  unfolding clean_up
  clean_up-KeepsMemory identity write db (abort reason) =
      defer-KeepsMemory policy identity reason true db db (refl, refl, refl)
  clean_up-KeepsMemory identity write db (planned units) =
      back_up_and_remove-KeepsMemory policy identity write units db _ (backup_keeps db)

  cleanup_and_write-KeepsMemory :
      (identity : CaptureIdentity) (write : Database → WriteResult) (before after : ℕ)
      (db : Database)
      → KeepsMemory db (cleanup_and_write policy identity write before after db)
  cleanup_and_write-KeepsMemory identity write before after db =
      cleanup_and_write-elim policy identity write before after db (KeepsMemory db)
        (λ reason. defer-KeepsMemory policy identity reason false db db (refl, refl, refl))
        (λ _ _. clean_up-KeepsMemory identity write db _)

  after_probe-KeepsMemory :
      (identity : CaptureIdentity) (write : Database → WriteResult) (db : Database)
      (t : Tx (Unit {0}) Probe)
      → KeepsMemory db (after_probe policy identity write db t)
  unfolding after_probe
  after_probe-KeepsMemory identity write db (commit db' _) = tt
  after_probe-KeepsMemory identity write db (roll_back (over before after)) =
      cleanup_and_write-KeepsMemory identity write before after db
  after_probe-KeepsMemory identity write db (roll_back (Probe.write_threw e)) = (refl, refl, refl)

  run-KeepsMemory :
      (identity : CaptureIdentity) (write : Database → WriteResult) (db : Database)
      → KeepsMemory db (run policy identity write db)
  unfolding run
  run-KeepsMemory identity write db = after_probe-KeepsMemory identity write db _

-- A capture that is put off, for any reason, leaves the stored memories, their ledger and the record of
-- removals as they were, where taking a backup does.
pub run-deferred :
    (policy : Policy) (identity : CaptureIdentity) (write : Database → WriteResult)
    (db db' : Database) (reason : DeferralReason)
    → ((d : Database) → BackupKeeps d (policy.backup d))
    → run policy identity write db ≡ deferred db' reason
    → (db'.stored ≡ db.stored) × (db'.ledger ≡ db.ledger) × (db'.removals ≡ db.removals)
run-deferred policy identity write db db' reason backup_keeps h =
    subst (KeepsMemory db) h (run-KeepsMemory policy backup_keeps identity write db)
