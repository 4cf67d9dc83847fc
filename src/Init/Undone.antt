-- ===== src/Init/Undone.antt =====
-- An apply that is interrupted before its consent commits.
use Prim.Native.String.{String}
use text.Mathlib.Text.{◌==◌ as str_eq}
use text.Mathlib.TextEquality.{eq_iff}
use elepha.Common.{
  Bool, true, false, Option, none, some, List, [], ◌∷◌, ◌≡◌, ◌≢◌, ◌⊎◌, inl, inr, refl, sym, ap, ◌∙◌,
  subst, if◌then◌else◌, ==_iff, All, arith, Bool-cases,
}
use elepha.Retention.Store.{ConsentState}
use elepha.Init.Stores.{
  ConsentSource, ConsentRow, Consent, Config, InitSetting, InitConsent, InitJournal, set_settings,
}
use elepha.Init.Recovery.{
  same_value, same_state, same_source, same_row, Fate, untouched, conflicting, fate, same_fate,
  roots_of, reverts, superseded_keys, plan_committed, Surroundings, undone, nothing_to_write, undo,
  recover,
}

pub str_eq_refl : (a : String) → str_eq a a ≡ true
str_eq_refl a = (eq_iff a a).1 refl

same_value_refl : (v : Option Bool) → same_value v v ≡ true
same_value_refl none = refl
same_value_refl (some true) = refl
same_value_refl (some false) = refl

same_value→eq : (v w : Option Bool) → same_value v w ≡ true → v ≡ w
same_value→eq v w h = ground arith

pub same_state_refl : (s : ConsentState) → same_state s s ≡ true
same_state_refl s = ground arith

same_source_refl : (s : ConsentSource) → same_source s s ≡ true
same_source_refl s = ground arith

same_row_refl : (row : Option ConsentRow) → same_row row row ≡ true
unfolding same_row
same_row_refl none = refl
same_row_refl (some row) = rw (
  str_eq_refl row.ulid,
  same_state_refl row.state,
  (==_iff row.decided_at row.decided_at).1 refl,
  same_source_refl row.source,
)

pub differ : false ≢ true
differ e = ground arith

pub target_holds : (v : Option Bool) (b : Bool) → v ≡ some b → same_value v (some b) ≡ true
target_holds v b e = rw e (same_value_refl (some b))

fate-previous : (e : InitConsent) → fate e.previous e ≡ untouched
unfolding fate
fate-previous e = rw (same_row_refl e.previous)

-- The rows are those that the journal recorded.
abbrev pub AsRecorded : Consent → List InitConsent → Type 0
AsRecorded consent es = All (λ e. consent e.root ≡ e.previous) es

pub roots_of-untouched :
    (f : Fate) (consent : Consent) (es : List InitConsent)
    → same_fate untouched f ≡ false
    → AsRecorded consent es
    → roots_of f consent es ≡ []
unfolding roots_of
roots_of-untouched f consent [] n h = refl
roots_of-untouched f consent (e ∷ es) n h =
    rw (h.0, fate-previous e, n, roots_of-untouched f consent es n h.1)

pub str_eq-sym : (a b : String) → str_eq a b ≡ false → str_eq b a ≡ false
str_eq-sym a b h = elim (Bool-cases (str_eq b a)) [
  | inl k ↦ absurd (differ (sym h ∙ (eq_iff a b).1 (sym ((eq_iff b a).0 k))))
  | inr k ↦ k
]

-- The keys occur once.
abbrev pub DistinctKeys : List InitSetting → Type 0
DistinctKeys [] = Unit
DistinctKeys (s ∷ ss) = All (λ t. str_eq s.key t.key ≡ false) ss × DistinctKeys ss

-- The key holds what it held before, or this apply's value.
abbrev pub IsOwn : Config → InitSetting → Type 0
IsOwn config s = (config s.key ≡ s.previous) ⊎ (config s.key ≡ some s.target)

set_settings-other :
    (current config : Config) (k : String) (ss : List InitSetting)
    → All (λ t. str_eq k t.key ≡ false) ss
    → set_settings (reverts current ss) config k ≡ config k
unfolding set_settings reverts
set_settings-other current config k [] h = refl
set_settings-other current config k (s ∷ ss) h =
    elim (Bool-cases (same_value (current s.key) s.previous)) [
      | inl a ↦ rw a (set_settings-other current config k ss h.1)
      | inr a ↦ elim (Bool-cases (same_value (current s.key) (some s.target))) [
        | inl b ↦ rw (a, b, h.0) (set_settings-other current config k ss h.1)
        | inr b ↦ rw (a, b) (set_settings-other current config k ss h.1)
      ]
    ]

kept_behind :
    (key : String) (v : Option Bool) (f : Config) (ts : List InitSetting)
    → All (λ t. str_eq key t.key ≡ false) ts
    → All (λ t. f t.key ≡ t.previous) ts
    → All (λ t. if◌then◌else◌ (str_eq t.key key) v (f t.key) ≡ t.previous) ts
kept_behind key v f [] d h = tt
kept_behind key v f (t ∷ ts) d h =
    (rw (str_eq-sym key t.key d.0) h.0, kept_behind key v f ts d.1 h.1)

abbrev Restores : Config → List (String × Option Bool) → List InitSetting → Type 0
Restores config us ss = All (λ s. set_settings us config s.key ≡ s.previous) ss

reverted :
    (config : Config) (ss : List InitSetting)
    → DistinctKeys ss
    → All (IsOwn config) ss
    → Restores config (reverts config ss) ss
unfolding set_settings reverts
reverted config [] d h = tt
reverted config (s ∷ ss) d h = elim (Bool-cases (same_value (config s.key) s.previous)) [
  | inl a ↦
      let skips : reverts config (s ∷ ss) ≡ reverts config ss = rw a refl in
      subst (λ us. Restores config us (s ∷ ss)) (sym skips)
        (
          set_settings-other config config s.key ss d.0 ∙ same_value→eq (config s.key) s.previous a,
          reverted config ss d.1 h.1,
        )
  | inr a ↦ elim h.0 [
    | inl e ↦
        absurd (differ (sym a ∙ ap (λ v. same_value v s.previous) e ∙ same_value_refl s.previous))
    | inr e ↦
        let writes : reverts config (s ∷ ss) ≡ (s.key, s.previous) ∷ reverts config ss =
          rw (a, target_holds (config s.key) s.target e) refl in
        subst (λ us. Restores config us (s ∷ ss)) (sym writes)
          (
            rw (str_eq_refl s.key) refl,
            kept_behind s.key s.previous _ ss d.0 (reverted config ss d.1 h.1),
          )
  ]
]

own-superseded :
    (config : Config) (ss : List InitSetting)
    → All (IsOwn config) ss
    → superseded_keys config ss ≡ []
unfolding superseded_keys
own-superseded config [] h = refl
own-superseded config (s ∷ ss) h = elim h.0 [
  | inl e ↦ rw (e, same_value_refl s.previous) (own-superseded config ss h.1)
  | inr e ↦ elim (Bool-cases (same_value (config s.key) s.previous)) [
    | inl a ↦ rw a (own-superseded config ss h.1)
    | inr a ↦ rw (a, target_holds (config s.key) s.target e) (own-superseded config ss h.1)
  ]
]

written_undo :
    (w : Surroundings) (j : InitJournal) (config : Config)
    → w.can_write ≡ true
    → undo w j config ≡ record {
      config = set_settings (reverts config j.settings) config;
      is_released = true;
      outcome = undone (superseded_keys config j.settings);
    }
unfolding undo
written_undo w j config h = elim (Bool-cases (nothing_to_write (reverts config j.settings))) [
  | inl a ↦ rw a refl
  | inr a ↦ rw (a, h) refl
]

not_committed :
    (j : InitJournal) (e : InitConsent) (es : List InitConsent) (consent : Consent)
    (config : Config)
    → j.consent ≡ e ∷ es
    → roots_of Fate.committed consent j.consent ≡ []
    → plan_committed j consent config ≡ false
unfolding plan_committed
not_committed j e es consent config shape none_committed = rw (none_committed, shape) (ground arith)

-- An apply that changes consent and stops before its consent commits is undone by the recovery, where
-- nobody else wrote since and the settings can be written: every key of the journal gets its previous
-- value back, the journal is released, and no key is reported as superseded.
pub recover-undone :
    (w : Surroundings) (j : InitJournal) (e : InitConsent) (es : List InitConsent)
    (consent : Consent) (config : Config)
    → j.consent ≡ e ∷ es
    → w.owner_is_live ≡ false
    → w.can_write ≡ true
    → AsRecorded consent (e ∷ es)
    → DistinctKeys j.settings
    → All (IsOwn config) j.settings
    → ((recover w j consent config).outcome ≡ undone [])
      × ((recover w j consent config).is_released ≡ true)
      × All (λ s. (recover w j consent config).config s.key ≡ s.previous) j.settings
unfolding recover
recover-undone w j e es consent config shape dead can rows distinct own =
    let no_commit : roots_of Fate.committed consent j.consent ≡ [] =
      rw shape (roots_of-untouched Fate.committed consent (e ∷ es) refl rows) in
    let no_conflict : roots_of conflicting consent j.consent ≡ [] =
      rw shape (roots_of-untouched conflicting consent (e ∷ es) refl rows) in
    let undoes : recover w j consent config ≡ record {
      config = set_settings (reverts config j.settings) config;
      is_released = true;
      outcome = undone (superseded_keys config j.settings);
    } =
      rw
        (
          dead,
          no_conflict,
          no_commit,
          not_committed j e es consent config shape no_commit,
          written_undo (record w { owner_is_live = false }) j config can,
        )
        refl in
    (
      ap (λ r. r.outcome) undoes ∙ ap undone (own-superseded config j.settings own),
      ap (λ r. r.is_released) undoes,
      subst (λ r. All (λ s. r.config s.key ≡ s.previous) j.settings) (sym undoes)
          (reverted config j.settings distinct own),
    )
