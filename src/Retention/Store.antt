-- ===== src/Retention/Store.antt =====
-- What src/storage/live-memory-retention.ts reads and writes of the database. The rows of one native
-- session are one `NativeSession`: the queries that group them are left out. Times are milliseconds;
-- `none` is a text that `Date.parse` or the GLOB test refuses.
use Prim.Native.String.{String}
use text.Mathlib.Text.{◌==◌ as str_eq}
use elepha.Common.{ℕ, ◌+◌, ◌-◌, Bool, not, ◌&&◌, Option, List, [], ◌∷◌, keep}

pub data ConsentState : Type 0 where
  approved denied pending : ConsentState

pub data DeferralReason : Type 0 where
  unwarned_jump cleanup_retry_wait transaction_open ledger_disagreement target_unreachable :
      DeferralReason
  backup_failed revalidation_failed verification_failed : DeferralReason

pub record CaptureIdentity : Type 0 where
  pub tool : String
  pub native_id : String

-- `nativeSessionKey(a) === nativeSessionKey(b)`.
unfoldable pub same_key : CaptureIdentity → CaptureIdentity → Bool
same_key a b = str_eq a.tool b.tool && str_eq a.native_id b.native_id

pub record UnitSession : Type 0 where
  pub id : ℕ
  pub segment : ℕ
  pub project_id : ℕ
  pub project_path : Option String
  pub last_ingested : Option ℕ
  pub started_at : String
  pub capture_state : Option String

-- The stored rows of a native session, over all its segments.
pub record NativeSession : Type 0 where
  pub identity : CaptureIdentity
  pub sessions : List UnitSession
  pub start_ms : Option ℕ
  pub started_at : Option String
  pub generation : Option ℕ
  pub tables : List (String × ℕ × ℕ)  -- rows and bytes of each table
  pub bytes : ℕ
  pub memory_ids : List ℕ
  pub has_open_turn : Bool
  pub is_referenced_parent : Bool

pub record Deferral : Type 0 where
  pub identity : CaptureIdentity
  pub reason : DeferralReason
  pub first_deferred_at : ℕ
  pub last_deferred_at : ℕ
  pub attempts : ℕ

pub data AttemptOutcome : Type 0 where
  removed failed unconfirmed : AttemptOutcome

pub record RetentionState : Type 0 where
  pub outcome : AttemptOutcome
  pub reason : Option DeferralReason
  pub attempted_at : ℕ
  pub retry_after_ms : ℕ
  pub backup_path : Option String

pub record Removal : Type 0 where
  pub identity : CaptureIdentity
  pub source_started_at : Option String
  pub segments : ℕ
  pub removed_bytes : ℕ
  pub removed_at : ℕ
  pub backup_path : String

pub record Database : Type 0 where
  pub stored : List NativeSession
  pub ledger : ℕ  -- readLiveMemoryUsage
  pub consent : String → ConsentState
  pub deferrals : List Deferral
  pub state : Option RetentionState
  pub removals : List Removal
  pub bypass_depth : ℕ
  pub in_transaction : Bool

-- `measureLiveMemoryBytes`: all of live memory belongs to native sessions.
unfoldable pub measure : List NativeSession → ℕ
measure [] = 0
measure (s ∷ ss) = s.bytes + measure ss

-- The end of a transaction: a throw rolls everything back.
pub data Tx (A E : Type 0) : Type 0 where
  commit : Database → A → Tx A E
  roll_back : E → Tx A E

abbrev pub adjusted : {A E : Type 0} → Tx A E → Tx A E
adjusted (commit db a) = commit (record db { bypass_depth = db.bypass_depth - 1 }) a
adjusted (roll_back e) = roll_back e

-- `withLiveMemoryCapacityGuardBypassed`.
abbrev pub with_guard_bypassed : {A E : Type 0} → Database → (Database → Tx A E) → Tx A E
with_guard_bypassed db action = adjusted (action (record db { bypass_depth = db.bypass_depth + 1 }))

-- `clearDeferral`.
unfoldable pub clear_deferral : CaptureIdentity → Database → Database
clear_deferral identity db = record db {
  deferrals = keep (λ d. not (same_key d.identity identity)) db.deferrals;
}
