-- ===== src/Init/Atomic.antt =====
-- The points of `applyInitPlan` at which an apply may stop.
use Prim.Native.String.{String}
use text.Mathlib.Text.{◌==◌ as str_eq}
use elepha.Common.{
  ℕ, Bool, true, false, Option, some, List, [], ◌∷◌, ◌≡◌, ◌⊎◌, inl, inr, refl, sym, ap, subst,
  if◌then◌else◌, All,
}
use elepha.Init.Stores.{
  Consent, Config, InitSetting, InitConsent, InitJournal, set_settings, targets, commit_consent,
}
use elepha.Init.Recovery.{RecoveryOutcome, undone, Surroundings, recover}
use elepha.Init.Undone.{AsRecorded, DistinctKeys, IsOwn, str_eq_refl, str_eq-sym, recover-undone}
use elepha.Init.Roots.{DistinctRoots}
use elepha.Init.Committed.{recover-committed_split}

pub record Stores : Type 0 where
  pub config : Config
  pub consent : Consent

-- The journal is published, then the settings are written, then the consent transaction commits.
pub data Stage : Type 0 where
  published settings_written consent_committed : Stage

-- The stores after a stage of the apply that the journal records.
unfoldable pub applied : Stage → ℕ → (String → String) → InitJournal → Stores → Stores
applied published now new_ulid j s = s
applied settings_written now new_ulid j s = record {
  config = set_settings (targets j.settings) s.config;
  consent = s.consent;
}
applied consent_committed now new_ulid j s = record {
  config = set_settings (targets j.settings) s.config;
  consent = commit_consent now new_ulid j.consent s.consent;
}

behind :
    (key : String) (v : Option Bool) (f : Config) (ts : List InitSetting)
    → All (λ t. str_eq key t.key ≡ false) ts
    → All (λ t. f t.key ≡ some t.target) ts
    → All (λ t. if◌then◌else◌ (str_eq t.key key) v (f t.key) ≡ some t.target) ts
behind key v f [] d h = tt
behind key v f (t ∷ ts) d h = (rw (str_eq-sym key t.key d.0) h.0, behind key v f ts d.1 h.1)

set_settings-targets :
    (config : Config) (ss : List InitSetting)
    → DistinctKeys ss
    → All (λ s. set_settings (targets ss) config s.key ≡ some s.target) ss
unfolding set_settings
set_settings-targets config [] d = tt
set_settings-targets config (s ∷ ss) d = (
  rw (str_eq_refl s.key) refl,
  behind s.key (some s.target) (set_settings (targets ss) config) ss d.0
      (set_settings-targets config ss d.1),
)

previous-IsOwn :
    (config : Config) (ss : List InitSetting)
    → All (λ s. config s.key ≡ s.previous) ss
    → All (IsOwn config) ss
previous-IsOwn config [] h = tt
previous-IsOwn config (s ∷ ss) h = (inl h.0, previous-IsOwn config ss h.1)

target-IsOwn :
    (config : Config) (ss : List InitSetting)
    → All (λ s. config s.key ≡ some s.target) ss
    → All (IsOwn config) ss
target-IsOwn config [] h = tt
target-IsOwn config (s ∷ ss) h = (inr h.0, target-IsOwn config ss h.1)

-- Neither store shows the apply, or both do.
abbrev pub AllOrNothing : InitJournal → Stores → Stores → Stores → RecoveryOutcome → Type 0
AllOrNothing j before done left outcome =
    (All (λ s. left.config s.key ≡ s.previous) j.settings
      × (left.consent ≡ before.consent)
      × (outcome ≡ undone []))
    ⊎ (All (λ s. left.config s.key ≡ some s.target) j.settings
        × (left.consent ≡ done.consent)
        × ((roots gaps : List String) × (outcome ≡ RecoveryOutcome.committed roots [] gaps)))

-- An apply with consent changes that stops at any of its stages is resolved by the recovery to all or
-- nothing: every key of the journal at its previous value and consent as it was, or every key at its
-- target and consent as the whole apply leaves it. This is where the keys and the roots of the journal
-- are distinct and it records what the apply found, the owner is dead, settings can be written and nobody
-- else writes.
pub recover-AllOrNothing :
    (stage : Stage) (w : Surroundings) (j : InitJournal) (e : InitConsent) (es : List InitConsent)
    (s : Stores) (now : ℕ) (new_ulid : String → String)
    → j.consent ≡ e ∷ es
    → w.owner_is_live ≡ false
    → w.can_write ≡ true
    → DistinctKeys j.settings
    → DistinctRoots j.consent
    → All (λ t. s.config t.key ≡ t.previous) j.settings
    → AsRecorded s.consent j.consent
    → AllOrNothing j s
        (applied consent_committed now new_ulid j s)
        (record {
          config =
              (recover w j
                (applied stage now new_ulid j s).consent
                (applied stage now new_ulid j s).config).config;
          consent = (applied stage now new_ulid j s).consent;
        })
        (recover w j
          (applied stage now new_ulid j s).consent
          (applied stage now new_ulid j s).config).outcome
unfolding applied
recover-AllOrNothing published w j e es s now new_ulid shape dead can keys roots before rows =
    let u =
      recover-undone w j e es s.consent s.config shape dead can
        (subst (AsRecorded s.consent) shape rows) keys
        (previous-IsOwn s.config j.settings before) in
    inl (u.2, refl, u.0)
recover-AllOrNothing settings_written w j e es s now new_ulid shape dead can keys roots before
      rows =
    let u =
      recover-undone w j e es s.consent (set_settings (targets j.settings) s.config) shape dead can
        (subst (AsRecorded s.consent) shape rows) keys
        (target-IsOwn _ j.settings (set_settings-targets s.config j.settings keys)) in
    inl (u.2, refl, u.0)
recover-AllOrNothing consent_committed w j e es s now new_ulid shape dead can keys roots before
      rows =
    let landed = set_settings-targets s.config j.settings keys in
    let c =
      recover-committed_split w j e es s.consent (set_settings (targets j.settings) s.config) now
        new_ulid shape dead roots rows landed in
    inr (
      subst (λ r. All (λ t. r.config t.key ≡ some t.target) j.settings) (sym c) landed,
      refl,
      (_, _, ap (λ r. r.outcome) c),
    )
