-- ===== src/Init/Examples.antt =====
-- An apply that turns capture on and grants one project, interrupted before and after its consent commits.
use Prim.Native.String.{String}
use elepha.Common.{List, true, false, none, some, [], ◌∷◌, ◌≡◌, refl, inr, All}
use elepha.Retention.Store.{pending}
use elepha.Init.Stores.{
  discovery, ConsentRow, Consent, Config, InitSetting, InitConsent, InitJournal, commit_consent,
}
use elepha.Init.Recovery.{RecoveryOutcome, undone, identity_of, split_roots, recover, Surroundings}
use elepha.Init.Undone.{recover-undone}
use elepha.Init.Roots.{Divided}
use elepha.Init.Committed.{recover-committed}
use elepha.Init.Atomic.{
  Stores, settings_written, consent_committed, applied, AllOrNothing, recover-AllOrNothing,
}

abbrev setting : InitSetting
setting = record { key = "capture-codex"; previous = none; target = true }

abbrev grant : InitConsent
grant = record { root = "/p"; previous = some pending_row; grants = true; identity = some "1:2" }
  where
    pending_row : ConsentRow
    pending_row = record { ulid = "01"; state = pending; decided_at = 7; source = discovery }

abbrev journal : InitJournal
journal = record {
  pid = 5;
  settings = setting ∷ [];
  consent = grant ∷ [];
  backfill_roots = "/p" ∷ [];
}

abbrev found : Consent
found root = grant.previous

-- The settings as `setSettings` leaves them.
abbrev written : Config
written k = some true

abbrev alone : Surroundings
alone = record { owner_is_live = false; can_write = true; identity = λ root. some "1:2" }

recover-undone_example :
    ((recover alone journal found written).outcome ≡ undone [])
    × ((recover alone journal found written).is_released ≡ true)
    × All (λ s. (recover alone journal found written).config s.key ≡ s.previous) journal.settings
recover-undone_example =
    recover-undone alone journal grant [] found written refl refl refl (refl, tt) (tt, tt)
      (inr refl, tt)

recover-committed_example :
    (roots gaps : List String) × (recover alone journal
        (commit_consent 9 (λ root. "02") journal.consent found)
        written
      ≡ record {
        config = written;
        is_released = true;
        outcome = RecoveryOutcome.committed roots [] gaps;
      })
    × Divided alone.identity journal.consent journal.backfill_roots roots gaps
recover-committed_example =
    recover-committed alone journal grant [] found written 9 (λ root. "02") refl refl (tt, tt)
      (refl, tt) (refl, tt)

imported : (split_roots alone.identity journal.consent journal.backfill_roots).0 ≡ "/p" ∷ []
unfolding split_roots identity_of
imported = refl

abbrev at_first : Stores
at_first = record { config = λ k. none; consent = found }

abbrev halfway : Stores
halfway = applied settings_written 9 (λ root. "02") journal at_first

recover-AllOrNothing_example :
    AllOrNothing journal at_first
      (applied consent_committed 9 (λ root. "02") journal at_first)
      (record {
        config = (recover alone journal halfway.consent halfway.config).config;
        consent = halfway.consent;
      })
      (recover alone journal halfway.consent halfway.config).outcome
recover-AllOrNothing_example =
    recover-AllOrNothing settings_written alone journal grant [] at_first 9 (λ root. "02") refl refl
      refl (tt, tt) (tt, tt) (refl, tt) (refl, tt)
