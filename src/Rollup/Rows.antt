-- ===== src/Rollup/Rows.antt =====
-- src/storage/rollup-store.ts: the rows of the table of rollups. The JSON of a column stands for the
-- list it was made of.
use elepha.Common.{
  ℕ, Bool, true, false, ◌&&◌, Option, none, some, List, [], ◌∷◌, ◌==◌, if◌then◌else◌, any,
}
use elepha.Sanitize.Units.{Text}
use elepha.Daemon.FailureWindow.Window.{SummarizerStatus}
use elepha.Rollup.Decisions.{SessionKind, RollupDecision}

-- `ROLLUP_VERSION`.
abbrev pub rollup_version : ℕ
rollup_version = 3

pub data RollupState : Type 0 where
  live final : RollupState

-- `SessionRowKind`.
pub data SessionRowKind : Type 0 where
  main subagent fork adjudicator : SessionRowKind

pub record SessionRollupRow : Type 0 where
  pub session_id : ℕ
  pub project_id : ℕ
  pub tool : Text
  pub title : Text
  pub summary : Text
  pub decisions : List RollupDecision
  pub instructions : List RollupDecision
  pub pending_items : List Text
  pub files_touched : List Text
  pub turn_count : ℕ
  pub started_at : Text
  pub ended_at : Text
  pub kind : SessionKind
  pub parent_session_id : Option ℕ
  pub summarizer_status : SummarizerStatus
  pub rollup_state : RollupState
  pub rolled_up_through_turn_index : ℕ
  pub computed_at : Text
  pub version : ℕ

pub record RollupWrite : Type 0 where
  pub expected_source_generation : Option ℕ
  pub session_id : ℕ
  pub project_id : ℕ
  pub tool : Text
  pub title : Text
  pub summary : Text
  pub decisions : List RollupDecision
  pub instructions : List RollupDecision
  pub pending_items : List Text
  pub files_touched : List Text
  pub turn_count : ℕ
  pub started_at : Text
  pub ended_at : Text
  pub kind : SessionKind
  pub parent_session_id : Option ℕ
  pub summarizer_status : SummarizerStatus
  pub state : RollupState
  pub through_turn_index : ℕ
  pub version : Option ℕ

-- A row of `sessions`, with the generation of its source where one is recorded.
pub record StoredSession : Type 0 where
  pub id : ℕ
  pub kind : Option SessionRowKind
  pub generation : Option ℕ

pub record RollupTables : Type 0 where
  pub sessions : List StoredSession
  pub rollups : List SessionRollupRow

-- `get`, with the first row of the session.
unfoldable pub find_rollup : ℕ → List SessionRollupRow → Option SessionRollupRow
find_rollup id [] = none
find_rollup id (row ∷ rows) =
    let rest = find_rollup id rows in if row.session_id == id then some row else rest

abbrev pub get : RollupTables → ℕ → Option SessionRollupRow
get db id = find_rollup id db.rollups

-- `SERVED_SESSION_KIND_ELIGIBILITY`.
unfoldable pub is_served_kind : Option SessionRowKind → Bool
is_served_kind none = true
is_served_kind (some main) = true
is_served_kind (some subagent) = true
is_served_kind (some fork) = true
is_served_kind (some adjudicator) = false

unfoldable pub is_session_kind_eligible : RollupTables → ℕ → Bool
is_session_kind_eligible db id = any (λ s. s.id == id && is_served_kind s.kind) db.sessions

unfoldable pub find_stored_session : ℕ → List StoredSession → Option StoredSession
find_stored_session id [] = none
find_stored_session id (s ∷ ss) =
    let rest = find_stored_session id ss in if s.id == id then some s else rest

abbrev pub or_zero : Option ℕ → ℕ
or_zero none = 0
or_zero (some n) = n

-- `sourceGeneration`, by the session that the source is of.
unfoldable pub source_generation : RollupTables → ℕ → ℕ
source_generation db id = elim (find_stored_session id db.sessions) [
  | none ↦ 0
  | some s ↦ or_zero s.generation
]

-- The source of the session is still of the generation that the caller read.
unfoldable pub is_expected_generation : RollupTables → ℕ → Option ℕ → Bool
is_expected_generation db id none = true
is_expected_generation db id (some expected) = elim (find_stored_session id db.sessions) [
  | none ↦ false
  | some s ↦ or_zero s.generation == expected
]
