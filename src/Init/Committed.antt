-- ===== src/Init/Committed.antt =====
-- An apply that is interrupted after its consent committed.
use Prim.Native.String.{String}
use text.Mathlib.Text.{◌==◌ as str_eq}
use elepha.Common.{
  ℕ, ◌+◌, max, Bool, true, false, not, ◌&&◌, Option, none, some, List, [], ◌∷◌, ◌≡◌, inl, inr, refl,
  ap, ◌∙◌, ◌==◌, ==_iff, All, arith, Bool-cases, length,
}
use elepha.Retention.Store.{ConsentState, pending}
use elepha.Init.Stores.{
  cli, ConsentRow, Consent, Config, InitSetting, InitConsent, target_state, InitJournal, decided,
  set_state, commit_consent,
}
use elepha.Init.Recovery.{
  same_row, same_state, is_absent, is_none_left, RecoveryOutcome, Fate, untouched, conflicting,
  fate, same_fate, roots_of, off_target, split_roots, plan_committed, Surroundings, recover,
}
use elepha.Init.Roots.{DistinctRoots, Divided, split_roots-Divided}
use elepha.Init.Undone.{AsRecorded, str_eq_refl, str_eq-sym, same_state_refl, target_holds}

later : (now d : ℕ) → (max now (d + 1) == d) ≡ false
later now d = ground arith

-- A row that `setState` wrote is never the one it found: its time is later.
same_row-decided :
    (now : ℕ) (new_ulid : String) (state : ConsentState) (row : Option ConsentRow)
    → same_row (some (decided now new_ulid state row)) row ≡ false
unfolding same_row decided
same_row-decided now new_ulid state none = refl
same_row-decided now new_ulid state (some row) = rw (later now row.decided_at) (ground arith)

decided-state :
    (now : ℕ) (new_ulid : String) (state : ConsentState) (row : Option ConsentRow)
    → (decided now new_ulid state row).state ≡ state
unfolding decided
decided-state now new_ulid state none = refl
decided-state now new_ulid state (some row) = refl

decided-source :
    (now : ℕ) (new_ulid : String) (state : ConsentState) (row : Option ConsentRow)
    → (decided now new_ulid state row).source ≡ cli
unfolding decided
decided-source now new_ulid state none = refl
decided-source now new_ulid state (some row) = refl

and-false : (b : Bool) → (b && false) ≡ false
and-false true = refl
and-false false = refl

target-pending : (e : InitConsent) → same_state (target_state e) pending ≡ false
target-pending e = elim (Bool-cases e.grants) [ inl h ↦ rw h refl | inr h ↦ rw h refl ]

fate-decided :
    (now : ℕ) (new_ulid : String) (e : InitConsent)
    → fate (some (decided now new_ulid (target_state e) e.previous)) e ≡ Fate.committed
unfolding fate
fate-decided now new_ulid e =
    rw
      (
        same_row-decided now new_ulid (target_state e) e.previous,
        decided-state now new_ulid (target_state e) e.previous,
        decided-source now new_ulid (target_state e) e.previous,
      )
      (rw (target-pending e, and-false (is_absent e.previous), same_state_refl (target_state e))
        refl)

commit_consent-other :
    (now : ℕ) (new_ulid : String → String) (es : List InitConsent) (consent : Consent) (k : String)
    → All (λ t. str_eq k t.root ≡ false) es
    → commit_consent now new_ulid es consent k ≡ consent k
unfolding commit_consent set_state
commit_consent-other now new_ulid [] consent k h = refl
commit_consent-other now new_ulid (e ∷ es) consent k h =
    commit_consent-other now new_ulid es (set_state now new_ulid e.root (target_state e) consent) k
      h.1
    ∙ rw h.0 refl

still_recorded :
    (now : ℕ) (new_ulid : String → String) (root : String) (state : ConsentState)
    (consent : Consent) (es : List InitConsent)
    → All (λ t. str_eq root t.root ≡ false) es
    → AsRecorded consent es
    → AsRecorded (set_state now new_ulid root state consent) es
unfolding set_state
still_recorded now new_ulid root state consent [] d h = tt
still_recorded now new_ulid root state consent (e ∷ es) d h =
    (rw (str_eq-sym root e.root d.0) h.0, still_recorded now new_ulid root state consent es d.1 h.1)

abbrev Fated : Fate → Consent → List InitConsent → Type 0
Fated f consent es = All (λ e. fate (consent e.root) e ≡ f) es

commit_consent-Fated :
    (now : ℕ) (new_ulid : String → String) (es : List InitConsent) (consent : Consent)
    → DistinctRoots es
    → AsRecorded consent es
    → Fated Fate.committed (commit_consent now new_ulid es consent) es
unfolding commit_consent set_state
commit_consent-Fated now new_ulid [] consent d h = tt
commit_consent-Fated now new_ulid (e ∷ es) consent d h =
    let after = set_state now new_ulid e.root (target_state e) consent in
    let wrote : after e.root ≡ some (decided now (new_ulid e.root) (target_state e) e.previous) =
      rw (str_eq_refl e.root, h.0) refl in
    (
      ap (λ row. fate row e) (commit_consent-other now new_ulid es after e.root d.0 ∙ wrote)
          ∙ fate-decided now (new_ulid e.root) e,
      commit_consent-Fated now new_ulid es after d.1
          (still_recorded now new_ulid e.root (target_state e) consent es d.0 h.1),
    )

roots_of-Fated :
    (f g : Fate) (consent : Consent) (es : List InitConsent)
    → same_fate g f ≡ false
    → Fated g consent es
    → roots_of f consent es ≡ []
unfolding roots_of
roots_of-Fated f g consent [] n h = refl
roots_of-Fated f g consent (e ∷ es) n h = rw (h.0, n, roots_of-Fated f g consent es n h.1)

length-roots_of :
    (consent : Consent) (es : List InitConsent)
    → Fated Fate.committed consent es
    → length (roots_of Fate.committed consent es) ≡ length es
unfolding roots_of
length-roots_of consent [] h = refl
length-roots_of consent (e ∷ es) h = rw h.0 (omega (arith, length-roots_of consent es h.1))

landed-off_target :
    (config : Config) (ss : List InitSetting)
    → All (λ s. config s.key ≡ some s.target) ss
    → off_target config ss ≡ []
unfolding off_target
landed-off_target config [] h = refl
landed-off_target config (s ∷ ss) h =
    rw (target_holds (config s.key) s.target h.0) (landed-off_target config ss h.1)

whole_plan :
    (j : InitJournal) (e : InitConsent) (es : List InitConsent) (consent : Consent)
    (config : Config)
    → j.consent ≡ e ∷ es
    → Fated Fate.committed consent j.consent
    → plan_committed j consent config ≡ true
unfolding plan_committed
whole_plan j e es consent config shape h =
    rw ((==_iff _ _).1 (length-roots_of consent j.consent h), shape) refl

pub recover-committed_split :
    (w : Surroundings) (j : InitJournal) (e : InitConsent) (es : List InitConsent)
    (consent : Consent) (config : Config) (now : ℕ) (new_ulid : String → String)
    → j.consent ≡ e ∷ es
    → w.owner_is_live ≡ false
    → DistinctRoots j.consent
    → AsRecorded consent j.consent
    → All (λ s. config s.key ≡ some s.target) j.settings
    → recover w j (commit_consent now new_ulid j.consent consent) config ≡ record {
      config = config;
      is_released = true;
      outcome =
          RecoveryOutcome.committed
            (split_roots w.identity j.consent j.backfill_roots).0
            []
            (split_roots w.identity j.consent j.backfill_roots).1;
    }
unfolding recover
recover-committed_split w j e es consent config now new_ulid shape dead distinct rows landed =
    let after = commit_consent now new_ulid j.consent consent in
    let fated : Fated Fate.committed after j.consent =
      commit_consent-Fated now new_ulid j.consent consent distinct rows in
    rw
      (
        dead,
        roots_of-Fated conflicting Fate.committed after j.consent refl fated,
        roots_of-Fated untouched Fate.committed after j.consent refl fated,
        whole_plan j e es after config shape fated,
        landed-off_target config j.settings landed,
      )
      (rw (and-false (not (is_none_left (roots_of Fate.committed after j.consent)))) refl)

-- An apply that changes consent and stops after its consent committed is taken as committed by the
-- recovery, where the owner of the journal is gone, the roots of the journal are distinct, its rows are
-- those the transaction found, and the settings hold their targets: the settings stay, the journal is
-- released, and no key is reported as superseded. Of the roots of the journal's backfill, in order,
-- those go to import that have an entry of the journal with the directory that they resolve to now,
-- and all the others are reported.
pub recover-committed :
    (w : Surroundings) (j : InitJournal) (e : InitConsent) (es : List InitConsent)
    (consent : Consent) (config : Config) (now : ℕ) (new_ulid : String → String)
    → j.consent ≡ e ∷ es
    → w.owner_is_live ≡ false
    → DistinctRoots j.consent
    → AsRecorded consent j.consent
    → All (λ s. config s.key ≡ some s.target) j.settings
    → (imported gaps : List String) × (recover w j
          (commit_consent now new_ulid j.consent consent)
          config
        ≡ record {
          config = config;
          is_released = true;
          outcome = RecoveryOutcome.committed imported [] gaps;
        })
      × Divided w.identity j.consent j.backfill_roots imported gaps
recover-committed w j e es consent config now new_ulid shape dead distinct rows landed = (
  (split_roots w.identity j.consent j.backfill_roots).0,
  (split_roots w.identity j.consent j.backfill_roots).1,
  recover-committed_split w j e es consent config now new_ulid shape dead distinct rows landed,
  split_roots-Divided w.identity j.consent j.backfill_roots distinct,
)
