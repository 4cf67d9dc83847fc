-- ===== src/Init/Stores.antt =====
-- The two stores of an apply, its journal and its writes. A setting is absent where it is `none`. Rows of
-- consent are a function of the canonical path, on which the table is unique; paths are compared as on a
-- file system that tells cases apart. Times are milliseconds.
use Prim.Native.String.{String}
use text.Mathlib.Text.{◌==◌ as str_eq}
use elepha.Common.{ℕ, ◌+◌, max, Bool, Option, none, some, List, [], ◌∷◌, if◌then◌else◌}
use elepha.Retention.Store.{ConsentState, approved, denied}

pub data ConsentSource : Type 0 where
  discovery cli grandfathered : ConsentSource

pub record ConsentRow : Type 0 where
  pub ulid : String
  pub state : ConsentState
  pub decided_at : ℕ
  pub source : ConsentSource

abbrev pub Consent : Type 0
Consent = String → Option ConsentRow

abbrev pub Config : Type 0
Config = String → Option Bool

pub record InitSetting : Type 0 where
  pub key : String
  pub previous : Option Bool
  pub target : Bool

-- `grants`: the target is `approved`, and `denied` otherwise.
pub record InitConsent : Type 0 where
  pub root : String
  pub previous : Option ConsentRow
  pub grants : Bool
  pub identity : Option String

abbrev pub target_state : InitConsent → ConsentState
target_state e = if e.grants then approved else denied

pub record InitJournal : Type 0 where
  pub pid : ℕ
  pub settings : List InitSetting
  pub consent : List InitConsent
  pub backfill_roots : List String

-- `setSettings`; `none` takes a key out. Keys occur once.
unfoldable pub set_settings : List (String × Option Bool) → Config → Config
set_settings [] config k = config k
set_settings (u ∷ us) config k =
    let rest = set_settings us config k in if str_eq k u.0 then u.1 else rest

abbrev pub targets : List InitSetting → List (String × Option Bool)
targets [] = []
targets (s ∷ ss) = (s.key, some s.target) ∷ targets ss

-- The row that `setState` writes for a root.
unfoldable pub decided : ℕ → (new_ulid : String) → ConsentState → Option ConsentRow → ConsentRow
decided now new_ulid state none = record {
  ulid = new_ulid;
  state = state;
  decided_at = max now 1;
  source = cli;
}
decided now new_ulid state (some row) = record {
  ulid = row.ulid;
  state = state;
  decided_at = max now (row.decided_at + 1);
  source = cli;
}

unfoldable pub set_state : ℕ → (String → String) → String → ConsentState → Consent → Consent
set_state now new_ulid root state consent r =
    if str_eq r root then some (decided now (new_ulid root) state (consent root)) else consent r

-- The loops of the consent transaction: the journal lists the revokes first, as they do.
unfoldable pub commit_consent : ℕ → (String → String) → List InitConsent → Consent → Consent
commit_consent now new_ulid [] consent = consent
commit_consent now new_ulid (e ∷ es) consent =
    commit_consent now new_ulid es (set_state now new_ulid e.root (target_state e) consent)
