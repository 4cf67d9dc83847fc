-- ===== src/Retention/Steps.antt =====
-- src/storage/live-memory-retention.ts: the policy, what a deferral, a backup test, a revalidation and a removal
-- do to the database. The clock stands still over one call.
use Prim.Native.String.{String}
use elepha.Common.{
  ℕ, ◌+◌, ◌-◌, Bool, false, not, ◌||◌, Option, none, some, List, [], ◌∷◌, if◌then◌else◌, ◌==◌, any,
  keep, length,
}
use elepha.Retention.Store.{
  CaptureIdentity, same_key, UnitSession, NativeSession, Deferral, DeferralReason, AttemptOutcome,
  failed, Removal, Database, measure, clear_deferral,
}
use elepha.Retention.Describe.{RetentionUnit}
use elepha.Retention.Compare.{same_tables, same_unit}

pub data WriteResult : Type 0 where
  wrote : Database → WriteResult
  threw : String → WriteResult

-- A backup took its time: `now` is the database when it is done, `copy` what the attached copy holds.
pub data BackupResult : Type 0 where
  refused : BackupResult
  taken : (path : String) (copy now : Database) → BackupResult

pub record Policy : Type 0 where
  pub capacity_bytes : ℕ
  pub target_bytes : ℕ
  pub warning_bytes : ℕ
  pub active_window_ms : ℕ
  pub retry_ms : ℕ
  pub now : ℕ
  pub backup : Database → BackupResult
  pub after_cleanup_commit : Database → Database
  -- What is left of a session of which only the segments given stay.
  pub remainder : NativeSession → List UnitSession → NativeSession

pub data Outcome : Type 0 where
  committed : Database → (removed : Bool) → Outcome
  deferred : Database → DeferralReason → Outcome
  unconfirmed_cleanup : Database → (backup_path : String) → Outcome
  write_failed : Database → String → Outcome

-- The `ON CONFLICT` of the deferral table.
unfoldable pub upsert_deferral :
    CaptureIdentity → DeferralReason → ℕ → List Deferral → List Deferral
upsert_deferral identity reason now [] =
    record {
      identity = identity;
      reason = reason;
      first_deferred_at = now;
      last_deferred_at = now;
      attempts = 1;
    }
    ∷ []
upsert_deferral identity reason now (d ∷ ds) =
    let more = d ∷ upsert_deferral identity reason now ds in
    if same_key d.identity identity
    then record d { reason = reason; last_deferred_at = now; attempts = d.attempts + 1 } ∷ ds
    else more

unfoldable pub record_state :
    AttemptOutcome → Option DeferralReason → ℕ → ℕ → Option String → Database → Database
record_state outcome reason attempted_at retry_after_ms backup_path db = record db {
  state = some (record {
    outcome = outcome;
    reason = reason;
    attempted_at = attempted_at;
    retry_after_ms = retry_after_ms;
    backup_path = backup_path;
  });
}

-- `deferral`: the gap is recorded, and a failed attempt with it.
unfoldable pub defer : Policy → CaptureIdentity → DeferralReason → Bool → Database → Outcome
defer policy identity reason attempted db =
    let noted = record db { deferrals = upsert_deferral identity reason policy.now db.deferrals } in
    let with_state =
      record_state failed (some reason) policy.now (policy.now + policy.retry_ms) none noted in
    deferred (if attempted then with_state else noted) reason

unfoldable pub find_unit : CaptureIdentity → List RetentionUnit → Option RetentionUnit
find_unit identity [] = none
find_unit identity (u ∷ us) =
    let more = find_unit identity us in if same_key u.identity identity then some u else more

unfoldable pub find_session : CaptureIdentity → List NativeSession → Option NativeSession
find_session identity [] = none
find_session identity (s ∷ ss) =
    let more = find_session identity ss in if same_key s.identity identity then some s else more

-- `verifyBackup`.
unfoldable pub holds_rows : Database → RetentionUnit → Bool
holds_rows copy u = elim (find_session u.identity copy.stored) [
  | none ↦ false
  | some s ↦ same_tables s.tables u.tables
]

-- The loop that revalidates each frozen unit.
unfoldable pub unchanged : List RetentionUnit → RetentionUnit → Bool
unchanged current u = elim (find_unit u.identity current) [
  | none ↦ false
  | some now ↦ same_unit now u
]

unfoldable pub is_planned : List RetentionUnit → CaptureIdentity → Bool
is_planned units identity = any (λ u. same_key u.identity identity) units

unfoldable pub clear_deferrals : List RetentionUnit → Database → Database
clear_deferrals [] db = db
clear_deferrals (u ∷ us) db = clear_deferrals us (clear_deferral u.identity db)

-- The `ON CONFLICT` of the removal table.
unfoldable pub upsert_removal : Removal → List Removal → List Removal
upsert_removal r [] = r ∷ []
upsert_removal r (q ∷ qs) =
    let more = q ∷ upsert_removal r qs in if same_key q.identity r.identity then r ∷ qs else more

unfoldable pub record_removals : List RetentionUnit → ℕ → String → List Removal → List Removal
record_removals [] at path rs = rs
record_removals (u ∷ us) at path rs = record_removals us at path (
    upsert_removal
      (record {
        identity = u.identity;
        source_started_at = u.started_at;
        segments = length u.sessions;
        removed_bytes = u.bytes;
        removed_at = at;
        backup_path = path;
      })
      rs)

-- The session ids and the memory ids of the plan.
unfoldable pub plans_session : List RetentionUnit → ℕ → Bool
plans_session units id = any (λ u. any (λ s. s.id == id) u.sessions) units

unfoldable pub plans_memory : List RetentionUnit → ℕ → Bool
plans_memory units id = any (λ u. any (λ m. m == id) u.memory_ids) units

-- The deletes by session id, over the segments of every native session.
unfoldable pub remove_sessions :
    Policy → List RetentionUnit → List NativeSession → List NativeSession
remove_sessions policy units [] = []
remove_sessions policy units (s ∷ ss) =
    let rest = remove_sessions policy units ss in
    let left = keep (λ u. not (plans_session units u.id)) s.sessions in
    if length left == length s.sessions
    then s ∷ rest
    else if length left == 0
    then rest
    else policy.remainder s left ∷ rest

-- `removeUnits`: the rows go, with what their triggers take off the ledger, and each removal is recorded.
unfoldable pub remove_units : Policy → List RetentionUnit → String → Database → Database
remove_units policy units path db =
    let kept = remove_sessions policy units db.stored in
    clear_deferrals units (record db {
      stored = kept;
      ledger = db.ledger - (measure db.stored - measure kept);
      removals = record_removals units policy.now path db.removals;
    })

-- A row of the session is of the plan, by its memory, its session or its identity.
unfoldable pub is_remaining : List RetentionUnit → NativeSession → Bool
is_remaining units s =
    any (plans_memory units) s.memory_ids
    || (any (λ u. plans_session units u.id) s.sessions || is_planned units s.identity)

-- `remainingRows` is positive.
unfoldable pub remaining_rows : List RetentionUnit → Database → Bool
remaining_rows units db = any (is_remaining units) db.stored
