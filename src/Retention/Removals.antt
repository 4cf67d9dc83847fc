-- ===== src/Retention/Removals.antt =====
-- What a capture that removes sessions has gone through.
use elepha.Common.{
  ℕ, ◌+◌, ◌≤◌, Bool, true, false, List, [], ◌∷◌, ◌≡◌, refl, subst, leb, ◌==◌, ==_iff, all, All,
  Bool-cases, inl, inr,
}
use Prim.Native.String.{String}
use elepha.Retention.Store.{
  CaptureIdentity, NativeSession, DeferralReason, Database, Tx, commit, roll_back, adjusted,
  with_guard_bypassed, measure,
}
use elepha.Retention.Describe.{RetentionUnit, describe, describe_one}
use elepha.Retention.Evidence.{
  IsHeld, IsDescribed, IsApart, all-IsHeld, all-IsDescribed, remaining_rows-IsApart,
}
use elepha.Retention.Plan.{Planned, planned, abort, plan}
use elepha.Retention.Guards.{cleanup_and_write-elim}
use elepha.Retention.Steps.{
  WriteResult, wrote, threw, BackupResult, refused, taken, Policy, Outcome, committed, deferred,
  unconfirmed_cleanup, write_failed, defer, holds_rows, unchanged, remaining_rows,
}
use elepha.Retention.Run.{
  Abort, aborted, decisive, confirm, finish_cleanup, back_up_and_remove, clean_up,
  cleanup_and_write, Probe, over, judge, after_probe, probe, run,
}

-- A predicate of the database that a removal commits.
abbrev Removing : (Database → Type 0) → Outcome → Type 0
Removing P (committed db true) = P db
Removing P (committed db false) = Unit
Removing P (deferred _ _) = Unit
Removing P (unconfirmed_cleanup _ _) = Unit
Removing P (write_failed _ _) = Unit

Removing-map :
    {P Q : Database → Type 0} (o : Outcome)
    → ((db : Database) → P db → Q db)
    → Removing P o
    → Removing Q o
Removing-map (committed db true) f h = f db h
Removing-map (committed db false) f h = tt
Removing-map (deferred _ _) f h = tt
Removing-map (unconfirmed_cleanup _ _) f h = tt
Removing-map (write_failed _ _) f h = tt

Removing-defer :
    (P : Database → Type 0) (policy : Policy) (identity : CaptureIdentity) (reason : DeferralReason)
    (attempted : Bool) (db : Database)
    → Removing P (defer policy identity reason attempted db)
unfolding defer
Removing-defer P policy identity reason attempted db = tt

abbrev pub Confirmed : List RetentionUnit → Database → Type 0
Confirmed units db = (remaining_rows units db ≡ false) × (measure db.stored ≡ db.ledger)

confirm-Confirmed :
    (policy : Policy) (units : List RetentionUnit) (path : String) (db : Database)
    → Removing (Confirmed units) (confirm policy units path db)
unfolding confirm
confirm-Confirmed policy units path db = elim (Bool-cases (remaining_rows units db)) [
  | inl h ↦ rw h tt
  | inr h ↦ rw h (elim (Bool-cases (measure db.stored == db.ledger)) [
    | inl k ↦ rw k (h, (==_iff _ _).0 k)
    | inr k ↦ rw k tt
  ])
]

-- The units as the transaction that removes them finds them.
abbrev pub Revalidated : Policy → CaptureIdentity → List RetentionUnit → Database → Type 0
Revalidated policy identity units now =
    all (unchanged (describe policy.now policy.active_window_ms identity now now.stored)) units
    ≡ true

abbrev Revalidates :
    Policy → CaptureIdentity → List RetentionUnit → Database → Tx Bool Abort → Type 0
Revalidates policy identity units now (commit _ _) = Revalidated policy identity units now
Revalidates policy identity units now (roll_back _) = Unit

Revalidated→Revalidates :
    (policy : Policy) (identity : CaptureIdentity) (units : List RetentionUnit) (now : Database)
    (t : Tx Bool Abort)
    → Revalidated policy identity units now
    → Revalidates policy identity units now t
Revalidated→Revalidates policy identity units now (commit _ _) h = h
Revalidated→Revalidates policy identity units now (roll_back _) h = tt

decisive-Revalidates :
    (policy : Policy) (identity : CaptureIdentity) (write : Database → WriteResult)
    (units : List RetentionUnit) (path : String) (db : Database)
    → Revalidates policy identity units db (decisive policy identity write units path db)
unfolding decisive
decisive-Revalidates policy identity write units path db =
    elim (Bool-cases
      (all (unchanged (describe policy.now policy.active_window_ms identity db db.stored)) units)) [
        | inl h ↦ Revalidated→Revalidates policy identity units db _ h
        | inr h ↦ rw h tt
      ]

-- Descriptions do not depend on the capacity guard.
describe-bypass :
    (now window : ℕ) (identity : CaptureIdentity) (db : Database) (depth : ℕ)
    (ss : List NativeSession)
    → describe now window identity (record db { bypass_depth = depth }) ss
      ≡ describe now window identity db ss
unfolding describe describe_one
describe-bypass now window identity db depth [] = refl
describe-bypass now window identity db depth (s ∷ ss) =
    rw (describe-bypass now window identity db depth ss) refl

-- What a removal has behind it: the plan; a backup of which the copy holds every planned session with
-- the tables planned; the planned sessions as the policy describes what was stored when the backup was
-- done; and in the database that results, no session with anything of the plan, and a ledger that
-- agrees with the rows.
pub record RemovalEvidence (policy : Policy) (identity : CaptureIdentity) (before after : ℕ)
    (db db' : Database) : Type 0 where
  pub units : List RetentionUnit
  pub path : String
  pub copy : Database
  pub now : Database
  pub has_plan :
      plan policy.now policy.active_window_ms policy.target_bytes identity before after db
      ≡ planned units
  pub is_taken : policy.backup db ≡ taken path copy now
  pub is_held : All (IsHeld copy) units
  pub is_described : All (IsDescribed policy.now policy.active_window_ms identity now) units
  pub is_gone : All (λ s. All (IsApart s) units) db'.stored
  pub agrees : measure db'.stored ≡ db'.ledger

adjusted-Revalidates :
    (policy : Policy) (identity : CaptureIdentity) (units : List RetentionUnit) (now : Database)
    (t : Tx Bool Abort)
    → Revalidates policy identity units (record now { bypass_depth = now.bypass_depth + 1 }) t
    → Revalidates policy identity units now (adjusted t)
adjusted-Revalidates policy identity units now (commit _ _) h =
    subst (λ current. all (unchanged current) units ≡ true)
      (describe-bypass policy.now policy.active_window_ms identity now (now.bypass_depth + 1)
        now.stored)
      h
adjusted-Revalidates policy identity units now (roll_back _) h = tt

module _ (policy : Policy) (identity : CaptureIdentity) (write : Database → WriteResult) where
  finish_cleanup-Removing :
      (units : List RetentionUnit) (path : String) (now : Database) (t : Tx Bool Abort)
      → Revalidates policy identity units now t
      → Removing
          (λ db'. Revalidated policy identity units now × Confirmed units db')
          (finish_cleanup policy identity units path now t)
  unfolding finish_cleanup
  finish_cleanup-Removing units path now (commit db true) h =
      Removing-map (confirm policy units path (policy.after_cleanup_commit db)) (λ db' c. (h, c))
        (confirm-Confirmed policy units path (policy.after_cleanup_commit db))
  finish_cleanup-Removing units path now (commit db false) h = tt
  finish_cleanup-Removing units path now (roll_back (aborted reason)) h =
      Removing-defer _ policy identity reason true now
  finish_cleanup-Removing units path now (roll_back (Abort.write_threw e)) h = tt

  guarded-Revalidates :
      (units : List RetentionUnit) (path : String) (now : Database)
      → Revalidates policy identity units now
          (with_guard_bypassed now (decisive policy identity write units path))
  guarded-Revalidates units path now =
      adjusted-Revalidates policy identity units now _
        (decisive-Revalidates policy identity write units path _)

  module _ (before after : ℕ) (db : Database) where
    back_up_and_remove-Evidence :
        (units : List RetentionUnit) (b : BackupResult)
        → plan policy.now policy.active_window_ms policy.target_bytes identity before after db
          ≡ planned units
        → policy.backup db ≡ b
        → Removing
            (RemovalEvidence policy identity before after db)
            (back_up_and_remove policy identity write units db b)
    unfolding back_up_and_remove
    back_up_and_remove-Evidence units refused p q = Removing-defer _ policy identity _ true db
    back_up_and_remove-Evidence units (taken path copy now) p q =
        elim (Bool-cases (all (holds_rows copy) units)) [
          | inl k ↦ rw k (
              Removing-map
                (finish_cleanup policy identity units path now
                  (with_guard_bypassed now (decisive policy identity write units path)))
                (λ db' c. record {
                  units = units;
                  path = path;
                  copy = copy;
                  now = now;
                  has_plan = p;
                  is_taken = q;
                  is_held = all-IsHeld copy units k;
                  is_described =
                      all-IsDescribed policy.now policy.active_window_ms identity now units c.0;
                  is_gone = remaining_rows-IsApart units db' c.1.0;
                  agrees = c.1.1;
                })
                (finish_cleanup-Removing units path now _ (guarded-Revalidates units path now)))
          | inr k ↦ rw k (Removing-defer _ policy identity _ true now)
        ]

    clean_up-Evidence :
        (p : Planned)
        → plan policy.now policy.active_window_ms policy.target_bytes identity before after db ≡ p
        → Removing
            (RemovalEvidence policy identity before after db)
            (clean_up policy identity write db p)
    unfolding clean_up
    clean_up-Evidence (abort reason) q = Removing-defer _ policy identity reason true db
    clean_up-Evidence (planned units) q = back_up_and_remove-Evidence units _ q refl

    cleanup_and_write-Evidence :
        Removing
          (λ db'.
            (policy.warning_bytes ≤ before)
            × (db.in_transaction ≡ false)
            × RemovalEvidence policy identity before after db db')
          (cleanup_and_write policy identity write before after db)
    cleanup_and_write-Evidence =
        cleanup_and_write-elim policy identity write before after db (Removing _)
          (λ reason. Removing-defer _ policy identity reason false db)
          (λ h k.
            Removing-map (clean_up policy identity write db _) (λ db' e. (h, k, e))
              (clean_up-Evidence _ refl))

-- `before` is the ledger as the capture began.
abbrev FromLedger : Database → Tx (Unit {0}) Probe → Type 0
FromLedger db (commit _ _) = Unit
FromLedger db (roll_back (over before after)) = before ≡ db.ledger
FromLedger db (roll_back (Probe.write_threw e)) = Unit

judge-FromLedger :
    (policy : Policy) (identity : CaptureIdentity) (db : Database) (w : WriteResult)
    → FromLedger db (adjusted (judge policy identity db.ledger w))
unfolding judge
judge-FromLedger policy identity db (threw e) = tt
judge-FromLedger policy identity db (wrote db') =
    elim (Bool-cases (leb policy.capacity_bytes db'.ledger)) [ inl h ↦ rw h refl | inr h ↦ rw h tt ]

-- What the removal in a capture has behind it, whatever the write leaves on the ledger.
abbrev pub Removed : Policy → CaptureIdentity → Database → Database → Type 0
Removed policy identity db db' =
    (policy.warning_bytes ≤ db.ledger)
    × (db.in_transaction ≡ false)
    × ((after : ℕ) × RemovalEvidence policy identity db.ledger after db db')

after_probe-Removed :
    (policy : Policy) (identity : CaptureIdentity) (write : Database → WriteResult) (db : Database)
    (t : Tx (Unit {0}) Probe)
    → FromLedger db t
    → Removing (Removed policy identity db) (after_probe policy identity write db t)
unfolding after_probe
after_probe-Removed policy identity write db (commit db' _) h = tt
after_probe-Removed policy identity write db (roll_back (over before after)) h =
    Removing-map (cleanup_and_write policy identity write before after db)
      (λ db' e.
        subst
          (λ b.
            (policy.warning_bytes ≤ b)
            × (db.in_transaction ≡ false)
            × ((n : ℕ) × RemovalEvidence policy identity b n db db'))
          h (e.0, e.1, (after, e.2)))
      (cleanup_and_write-Evidence policy identity write before after db)
after_probe-Removed policy identity write db (roll_back (Probe.write_threw e)) h = tt

-- A capture that removes sessions found the ledger at the warning threshold or above and no transaction
-- open. It has a plan, and a backup whose copy holds every planned session with the row counts and the
-- bytes planned for each table. Each planned session is, field by field, what the policy describes of a
-- session stored when the backup was done. In the database that results no stored session has the
-- identity, a session id or a memory id of a planned one, and the ledger agrees with the rows.
pub run-removes :
    (policy : Policy) (identity : CaptureIdentity) (write : Database → WriteResult)
    (db db' : Database)
    → run policy identity write db ≡ committed db' true
    → (policy.warning_bytes ≤ db.ledger)
      × (db.in_transaction ≡ false)
      × ((after : ℕ) × RemovalEvidence policy identity db.ledger after db db')
unfolding run probe
run-removes policy identity write db db' h = subst (Removing (Removed policy identity db)) h (
    after_probe-Removed policy identity write db _ (
      judge-FromLedger policy identity db
        (write (record db { bypass_depth = db.bypass_depth + 1 }))))
