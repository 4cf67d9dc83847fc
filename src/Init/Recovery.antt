-- ===== src/Init/Recovery.antt =====
-- src/cli/init-apply.ts: `recoverInterruptedInitApply` on a journal that was read.
use Prim.Native.String.{String}
use text.Mathlib.Text.{◌==◌ as str_eq}
use elepha.Common.{
  ℕ, Bool, true, false, not, ◌&&◌, ◌||◌, Option, none, some, List, [], ◌∷◌, ◌++◌, if◌then◌else◌,
  ◌==◌, all, length,
}
use elepha.Retention.Store.{ConsentState, approved, denied, pending}
use elepha.Init.Stores.{
  ConsentSource, discovery, cli, grandfathered, ConsentRow, Consent, Config, InitSetting,
  InitConsent, target_state, InitJournal, set_settings,
}

abbrev pub same_value : Option Bool → Option Bool → Bool
same_value none none = true
same_value none (some _) = false
same_value (some _) none = false
same_value (some true) (some b) = b
same_value (some false) (some b) = not b

abbrev pub same_state : ConsentState → ConsentState → Bool
same_state approved approved = true
same_state denied denied = true
same_state pending pending = true
same_state _ _ = false

abbrev pub same_source : ConsentSource → ConsentSource → Bool
same_source discovery discovery = true
same_source cli cli = true
same_source grandfathered grandfathered = true
same_source _ _ = false

unfoldable pub same_row : Option ConsentRow → Option ConsentRow → Bool
same_row none none = true
same_row none (some _) = false
same_row (some _) none = false
same_row (some a) (some b) =
    str_eq a.ulid b.ulid
    && same_state a.state b.state
    && a.decided_at == b.decided_at
    && same_source a.source b.source

abbrev pub is_pending_row : Option ConsentRow → Bool
is_pending_row none = false
is_pending_row (some row) = same_state row.state pending

abbrev pub is_absent : Option ConsentRow → Bool
is_absent none = true
is_absent (some _) = false

abbrev pub is_decided : ConsentState → Option ConsentRow → Bool
is_decided target none = false
is_decided target (some row) = same_state row.state target && same_source row.source cli

pub data Fate : Type 0 where
  untouched committed conflicting : Fate

-- What became of one consent entry.
unfoldable pub fate : Option ConsentRow → InitConsent → Fate
fate row e =
    if same_row row e.previous || (is_absent e.previous && is_pending_row row)
    then untouched
    else if is_decided (target_state e) row
    then committed
    else conflicting

abbrev pub same_fate : Fate → Fate → Bool
same_fate untouched untouched = true
same_fate committed committed = true
same_fate conflicting conflicting = true
same_fate _ _ = false

-- The roots of one fate, in order.
unfoldable pub roots_of : Fate → Consent → List InitConsent → List String
roots_of f consent [] = []
roots_of f consent (e ∷ es) =
    let rest = roots_of f consent es in
    if same_fate (fate (consent e.root) e) f then e.root ∷ rest else rest

unfoldable pub settings_landed : Config → List InitSetting → Bool
settings_landed config = all (λ s. same_value (config s.key) (some s.target))

-- The keys that hold another value than the target.
unfoldable pub off_target : Config → List InitSetting → List String
off_target config [] = []
off_target config (s ∷ ss) =
    let rest = off_target config ss in
    if same_value (config s.key) (some s.target) then rest else s.key ∷ rest

-- `revertOwnSettings`: what it writes, and the keys it leaves to a later writer.
unfoldable pub reverts : Config → List InitSetting → List (String × Option Bool)
reverts config [] = []
reverts config (s ∷ ss) =
    let rest = reverts config ss in
    if same_value (config s.key) s.previous
    then rest
    else if same_value (config s.key) (some s.target)
    then (s.key, s.previous) ∷ rest
    else rest

unfoldable pub superseded_keys : Config → List InitSetting → List String
superseded_keys config [] = []
superseded_keys config (s ∷ ss) =
    let rest = superseded_keys config ss in
    if same_value (config s.key) s.previous
    then rest
    else if same_value (config s.key) (some s.target)
    then rest
    else s.key ∷ rest

unfoldable pub identity_of : String → List InitConsent → Option String
identity_of root [] = none
identity_of root (e ∷ es) =
    let rest = identity_of root es in if str_eq e.root root then e.identity else rest

-- The root is still the directory that was confirmed.
abbrev pub is_confirmed_root : Option String → Option String → Bool
is_confirmed_root none _ = false
is_confirmed_root (some a) none = false
is_confirmed_root (some a) (some b) = str_eq b a

-- The roots to import, and those that are reported instead.
unfoldable pub split_roots :
    (String → Option String) → List InitConsent → List String → List String × List String
split_roots identity consent [] = ([], [])
split_roots identity consent (root ∷ roots) =
    let rest = split_roots identity consent roots in
    if is_confirmed_root (identity_of root consent) (identity root)
    then (root ∷ rest.0, rest.1)
    else (rest.0, root ∷ rest.1)

pub data RecoveryOutcome : Type 0 where
  busy : (pid : ℕ) → RecoveryOutcome
  committed : (backfill_roots superseded root_gaps : List String) → RecoveryOutcome
  undone : (superseded : List String) → RecoveryOutcome
  conflict : (roots settings : List String) → RecoveryOutcome
  failed : RecoveryOutcome

-- The configuration that is left, whether the journal is released, and the outcome. Consent is read alone.
pub record Recovered : Type 0 where
  pub config : Config
  pub is_released : Bool
  pub outcome : RecoveryOutcome

-- What the process sees of the world: whether the owner of the journal lives, whether settings can be
-- written, and the directory that a root resolves to itself with.
pub record Surroundings : Type 0 where
  pub owner_is_live : Bool
  pub can_write : Bool
  pub identity : String → Option String

abbrev pub is_none_left : List String → Bool
is_none_left [] = true
is_none_left (_ ∷ _) = false

abbrev pub setting_keys : List InitSetting → List String
setting_keys [] = []
setting_keys (s ∷ ss) = s.key ∷ setting_keys ss

-- Without consent changes the settings decide.
abbrev pub decides : List InitConsent → (landed whole : Bool) → Bool
decides [] landed whole = landed
decides (_ ∷ _) landed whole = whole

unfoldable pub plan_committed : InitJournal → Consent → Config → Bool
plan_committed j consent config =
    decides j.consent (settings_landed config j.settings)
      (length (roots_of Fate.committed consent j.consent) == length j.consent)

abbrev pub nothing_to_write : List (String × Option Bool) → Bool
nothing_to_write [] = true
nothing_to_write (_ ∷ _) = false

-- The end of the recovery, where the apply did not commit.
unfoldable pub undo : Surroundings → InitJournal → Config → Recovered
undo w j config =
    if nothing_to_write (reverts config j.settings) || w.can_write
    then record {
      config = set_settings (reverts config j.settings) config;
      is_released = true;
      outcome = undone (superseded_keys config j.settings);
    }
    else record { config = config; is_released = false; outcome = failed }

unfoldable pub recover : Surroundings → InitJournal → Consent → Config → Recovered
recover w j consent config =
    let committed_roots = roots_of Fate.committed consent j.consent in
    let untouched_roots = roots_of untouched consent j.consent in
    let conflicting_roots = roots_of conflicting consent j.consent in
    let split = split_roots w.identity j.consent j.backfill_roots in
    if w.owner_is_live
    then record { config = config; is_released = false; outcome = busy j.pid }
    else if not (is_none_left conflicting_roots)
        || (not (is_none_left committed_roots) && not (is_none_left untouched_roots))
    then record {
      config = config;
      is_released = true;
      outcome = conflict (conflicting_roots ++ committed_roots) (setting_keys j.settings);
    }
    else if plan_committed j consent config
    then record {
      config = config;
      is_released = true;
      outcome = committed split.0 (off_target config j.settings) split.1;
    }
    else undo w j config
