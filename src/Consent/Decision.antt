-- ===== src/Consent/Decision.antt =====
-- src/storage/consent-store.ts: the closest explicit decision over a path, with isWithin of
-- src/config/paths.ts. A path is the list of the units of its normalized form, `normalizeForCompare`;
-- `decided_at` is in milliseconds, 0 where it does not parse.
use Prim.Native.String.{String, compare}
use Prim.Native.Nat.{Ordering}
use elepha.Common.{
  ℕ, Bool, true, false, not, ◌&&◌, ◌||◌, Option, none, some, List, [], ◌∷◌, ◌++◌, if◌then◌else◌,
  ltb, ◌==◌, length, keep,
}
use elepha.Retention.Store.{ConsentState, approved, denied, pending}
use elepha.Init.Stores.{ConsentSource, cli}

abbrev pub PathText : Type 0
PathText = List ℕ

abbrev pub slash : ℕ
slash = 0x2f

pub record ConsentRoot : Type 0 where
  pub ulid : String
  pub path : PathText
  pub state : ConsentState
  pub decided_at : ℕ
  pub source : ConsentSource

-- `replace(/\/+$/, '')`.
unfoldable pub trim_slashes : PathText → PathText
trim_slashes [] = []
trim_slashes (c ∷ s) =
    let rest = trim_slashes s in
    elim rest [ [] ↦ if c == slash then [] else c ∷ [] | d ∷ t ↦ c ∷ d ∷ t ]

unfoldable pub starts : PathText → PathText → Bool
starts [] s = true
starts (c ∷ p) [] = false
starts (c ∷ p) (d ∷ s) = c == d && starts p s

unfoldable pub same_units : PathText → PathText → Bool
same_units [] [] = true
same_units [] (d ∷ s) = false
same_units (c ∷ p) [] = false
same_units (c ∷ p) (d ∷ s) = c == d && same_units p s

unfoldable pub is_within : (parent child : PathText) → Bool
is_within parent child =
    let p = trim_slashes parent in same_units child p || starts (p ++ slash ∷ []) child

unfoldable pub stored_path_key : PathText → PathText
stored_path_key p = if ltb 1 (length p) then trim_slashes p else p

abbrev pub cli_rank : ConsentRoot → ℕ
cli_rank r = elim r.source [ cli ↦ 1 | _ ↦ 0 ]

-- `candidate.ulid > incumbent.ulid`.
abbrev pub ulid_after : String → String → Bool
ulid_after a b = elim (compare a b) [ Ordering.gt ↦ true | _ ↦ false ]

unfoldable pub prefers_consent_row : (candidate incumbent : ConsentRoot) → Bool
prefers_consent_row candidate incumbent =
    if not (cli_rank candidate == cli_rank incumbent)
    then ltb (cli_rank incumbent) (cli_rank candidate)
    else if not (candidate.decided_at == incumbent.decided_at)
    then ltb incumbent.decided_at candidate.decided_at
    else ulid_after candidate.ulid incumbent.ulid

abbrev pub is_explicit : ConsentState → Bool
is_explicit approved = true
is_explicit denied = true
is_explicit pending = false

-- The filter of the rows.
abbrev pub counts : PathText → ConsentRoot → Bool
counts path r = is_explicit r.state && is_within r.path path

abbrev pub key_length : ConsentRoot → ℕ
key_length r = length (stored_path_key r.path)

-- One step of the reduction.
unfoldable pub closer : (closest candidate : ConsentRoot) → ConsentRoot
closer closest candidate =
    if ltb (key_length closest) (key_length candidate)
    then candidate
    else if key_length candidate == key_length closest && prefers_consent_row candidate closest
    then candidate
    else closest

unfoldable pub reduce_closest : Option ConsentRoot → List ConsentRoot → Option ConsentRoot
reduce_closest closest [] = closest
reduce_closest none (r ∷ rs) = reduce_closest (some r) rs
reduce_closest (some c) (r ∷ rs) = reduce_closest (some (closer c r)) rs

-- `explicitConsentDecisionForCanonicalPath`.
unfoldable pub explicit_consent_decision : List ConsentRoot → PathText → Option ConsentRoot
explicit_consent_decision rows path = reduce_closest none (keep (counts path) rows)

-- `consentStateForCanonicalPath`.
unfoldable pub consent_state : List ConsentRoot → PathText → ConsentState
consent_state rows path = elim (explicit_consent_decision rows path) [
  | none ↦ pending
  | some r ↦ r.state
]
