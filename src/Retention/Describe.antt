-- ===== src/Retention/Describe.antt =====
-- src/storage/live-memory-retention.ts: `describe`, the facts that decide the order, size and eligibility
-- of each native session.
use Prim.Native.String.{String}
use Prim.Native.Char.{code}
use Prim.Native.Nat.{Ordering}
use text.Mathlib.Text.{◌==◌ as str_eq}
use elepha.Common.{
  ℕ, ◌+◌, ◌-◌, ◌/◌, ◌%◌, max, Bool, true, false, not, ◌||◌, Option, none, some, List, [], ◌∷◌,
  if◌then◌else◌, ltb, any, is_some,
}
use elepha.Retention.Store.{
  ConsentState, approved, denied, pending, CaptureIdentity, same_key, UnitSession, NativeSession,
  Database,
}

pub data IneligibleReason : Type 0 where
  active_writer open_turn capture_incomplete consent_unsettled identity_uncertain : IneligibleReason

pub record RetentionUnit : Type 0 where
  pub identity : CaptureIdentity
  pub sessions : List UnitSession
  pub start_ms : Option ℕ
  pub started_at : Option String
  pub generation : Option ℕ
  pub consent : List (String × ConsentState)
  pub tables : List (String × ℕ × ℕ)
  pub bytes : ℕ
  pub memory_ids : List ℕ
  pub ineligible : Option IneligibleReason

-- `COMPLETE_CAPTURE_STATES`.
abbrev pub is_complete_capture : Option String → Bool
is_complete_capture none = false
is_complete_capture (some s) = str_eq s "complete" || str_eq s "complete_truncated"

-- The UTF-16 code units of a text.
unfoldable pub units_of_text : String → List ℕ
units_of_text String.[] = []
units_of_text (String.◌∷◌ c s) =
    let rest = units_of_text s in
    let beyond = code c - 0x10000 in
    if ltb (code c) 0x10000
    then code c ∷ rest
    else (0xd800 + beyond / 1024) ∷ (0xdc00 + beyond % 1024) ∷ rest

unfoldable pub compare_units_of_text : List ℕ → List ℕ → Ordering
compare_units_of_text [] [] = Ordering.eq
compare_units_of_text [] (d ∷ t) = Ordering.lt
compare_units_of_text (c ∷ s) [] = Ordering.gt
compare_units_of_text (c ∷ s) (d ∷ t) =
    let rest = compare_units_of_text s t in
    if ltb c d then Ordering.lt else if ltb d c then Ordering.gt else rest

-- `compareText`, by code units.
unfoldable pub compare_text : String → String → Ordering
compare_text a b = compare_units_of_text (units_of_text a) (units_of_text b)

-- A path goes in its place in the sorted list, unless it is there.
insert_path : String → List String → List String
insert_path p [] = p ∷ []
insert_path p (q ∷ qs) =
    let more = q ∷ insert_path p qs in
    if str_eq p q then q ∷ qs else elim (compare_text p q) [ Ordering.lt ↦ p ∷ q ∷ qs | _ ↦ more ]

-- The sorted set of the projects' paths.
unfoldable pub project_paths : List UnitSession → List String
unfolding insert_path
project_paths [] = []
project_paths (s ∷ ss) =
    let rest = project_paths ss in elim s.project_path [ none ↦ rest | some p ↦ insert_path p rest ]

-- `Math.max` of the parsed times; one that is no time makes it no time.
unfoldable pub last_ingested_ms : List UnitSession → Option ℕ
last_ingested_ms [] = none
last_ingested_ms (s ∷ []) = s.last_ingested
last_ingested_ms (s ∷ ss) =
    let rest = last_ingested_ms ss in
    elim s.last_ingested [
      | none ↦ none
      | some a ↦ elim rest [ none ↦ none | some b ↦ some (max a b) ]
    ]

-- `nowMs - lastIngestedMs < activeWindowMs`, the time being known.
abbrev pub is_recent : ℕ → ℕ → Option ℕ → Bool
is_recent now window none = false
is_recent now window (some last) = ltb now (last + window)

abbrev pub is_pending : String × ConsentState → Bool
is_pending (_, pending) = true
is_pending (_, approved) = false
is_pending (_, denied) = false

-- The ladder that sets `unit.ineligible`.
unfoldable pub ineligibility :
    ℕ → ℕ → CaptureIdentity → NativeSession → List (String × ConsentState) → Option IneligibleReason
ineligibility now window trigger s consent =
    let last = last_ingested_ms s.sessions in
    if same_key s.identity trigger
    then some active_writer
    else if s.has_open_turn
    then some open_turn
    else if any (λ u. not (is_complete_capture u.capture_state)) s.sessions
    then some capture_incomplete
    else if not (is_some s.generation)
        || not (is_some last)
        || any (λ u. not (is_some u.project_path)) s.sessions
        || s.is_referenced_parent
    then some identity_uncertain
    else if is_recent now window last
    then some active_writer
    else if any is_pending consent
    then some consent_unsettled
    else none

unfoldable pub consents : (String → ConsentState) → List String → List (String × ConsentState)
consents state [] = []
consents state (p ∷ ps) = (p, state p) ∷ consents state ps

unfoldable pub describe_one : ℕ → ℕ → CaptureIdentity → Database → NativeSession → RetentionUnit
describe_one now window trigger db s =
    let consent = consents db.consent (project_paths s.sessions) in
    record {
      identity = s.identity;
      sessions = s.sessions;
      start_ms = s.start_ms;
      started_at = s.started_at;
      generation = s.generation;
      consent = consent;
      tables = s.tables;
      bytes = s.bytes;
      memory_ids = s.memory_ids;
      ineligible = ineligibility now window trigger s consent;
    }

unfoldable pub describe :
    ℕ → ℕ → CaptureIdentity → Database → List NativeSession → List RetentionUnit
describe now window trigger db [] = []
describe now window trigger db (s ∷ ss) =
    describe_one now window trigger db s ∷ describe now window trigger db ss
