-- ===== src/Retention/Compare.antt =====
-- src/storage/live-memory-retention.ts: the comparisons of JSON texts in `verifyBackup` and `decisive`. The
-- texts list the fields in one order, so that they agree exactly where every field does.
use Prim.Native.String.{String}
use text.Mathlib.Text.{◌==◌ as str_eq}
use text.Mathlib.TextEquality.{eq_iff}
use elepha.Common.{
  ℕ, Bool, true, false, ◌&&◌, Option, none, some, List, [], ◌∷◌, ◌≡◌, refl, ap, ◌==◌, ==_iff, arith,
}
use elepha.Retention.Store.{
  ConsentState, approved, denied, pending, CaptureIdentity, same_key, UnitSession,
}
use elepha.Retention.Describe.{
  IneligibleReason, active_writer, open_turn, capture_incomplete, consent_unsettled,
  identity_uncertain, RetentionUnit,
}

module _ {A : Type 0} (same : A → A → Bool) where
  abbrev pub same_list : List A → List A → Bool
  same_list [] [] = true
  same_list [] (y ∷ ys) = false
  same_list (x ∷ xs) [] = false
  same_list (x ∷ xs) (y ∷ ys) = same x y && same_list xs ys

  abbrev pub same_option : Option A → Option A → Bool
  same_option none none = true
  same_option none (some y) = false
  same_option (some x) none = false
  same_option (some x) (some y) = same x y

abbrev same_table : String × ℕ × ℕ → String × ℕ × ℕ → Bool
same_table (s, m, n) (t, k, l) = str_eq s t && (m == k && n == l)

unfoldable pub same_tables : List (String × ℕ × ℕ) → List (String × ℕ × ℕ) → Bool
same_tables a b = same_list same_table a b

abbrev same_decision : ConsentState → ConsentState → Bool
same_decision approved approved = true
same_decision denied denied = true
same_decision pending pending = true
same_decision _ _ = false

abbrev same_consent : String × ConsentState → String × ConsentState → Bool
same_consent (s, a) (t, b) = str_eq s t && same_decision a b

abbrev same_reason : IneligibleReason → IneligibleReason → Bool
same_reason active_writer active_writer = true
same_reason open_turn open_turn = true
same_reason capture_incomplete capture_incomplete = true
same_reason consent_unsettled consent_unsettled = true
same_reason identity_uncertain identity_uncertain = true
same_reason _ _ = false

unfoldable pub same_unit_session : UnitSession → UnitSession → Bool
same_unit_session a b =
    a.id == b.id
    && (a.segment == b.segment
        && (a.project_id == b.project_id
            && (same_option str_eq a.project_path b.project_path
                && (same_option (λ m n. m == n) a.last_ingested b.last_ingested
                    && (str_eq a.started_at b.started_at
                        && same_option str_eq a.capture_state b.capture_state)))))

unfoldable pub same_unit : RetentionUnit → RetentionUnit → Bool
same_unit a b =
    same_key a.identity b.identity
    && (same_list same_unit_session a.sessions b.sessions
        && (same_option (λ m n. m == n) a.start_ms b.start_ms
            && (same_option str_eq a.started_at b.started_at
                && (same_option (λ m n. m == n) a.generation b.generation
                    && (same_list same_consent a.consent b.consent
                        && (same_tables a.tables b.tables
                            && (a.bytes == b.bytes
                                && (same_list (λ m n. m == n) a.memory_ids b.memory_ids
                                    && same_option same_reason a.ineligible b.ineligible))))))))

pub both : (a b : Bool) → a && b ≡ true → (a ≡ true) × (b ≡ true)
both a b h = ground arith

-- What a comparison finds the same is the same.
Sound : {A : Type 0} → (A → A → Bool) → Type 0
Sound {A} same = (a b : A) → same a b ≡ true → a ≡ b

module _ {A : Type 0} (same : A → A → Bool) (sound : Sound same) where
  same_list-Sound : Sound (same_list same)
  unfolding Sound
  same_list-Sound [] [] h = refl
  same_list-Sound [] (y ∷ ys) h = ground (arith, h)
  same_list-Sound (x ∷ xs) [] h = ground (arith, h)
  same_list-Sound (x ∷ xs) (y ∷ ys) h =
      let (k, l) = both (same x y) (same_list same xs ys) h in
      λ i. sound x y k i ∷ same_list-Sound xs ys l i

  same_option-Sound : Sound (same_option same)
  unfolding Sound
  same_option-Sound none none h = refl
  same_option-Sound none (some y) h = ground (arith, h)
  same_option-Sound (some x) none h = ground (arith, h)
  same_option-Sound (some x) (some y) h = ap some (sound x y h)

number-Sound : Sound {A = ℕ} (λ m n. m == n)
unfolding Sound
number-Sound m n h = (==_iff m n).0 h

string-Sound : Sound str_eq
unfolding Sound
string-Sound s t h = (eq_iff s t).0 h

same_table-Sound : Sound same_table
unfolding Sound
same_table-Sound (s, m, n) (t, k, l) h =
    let (p, q) = both (str_eq s t) (m == k && n == l) h in
    let (u, v) = both (m == k) (n == l) q in
    λ i. (string-Sound s t p i, (==_iff m k).0 u i, (==_iff n l).0 v i)

pub same_tables_same : (a b : List (String × ℕ × ℕ)) → same_tables a b ≡ true → a ≡ b
unfolding same_tables Sound
same_tables_same a b h = same_list-Sound same_table same_table-Sound a b h

same_decision-Sound : Sound same_decision
unfolding Sound
same_decision-Sound a b h = ground (arith, h)

same_reason-Sound : Sound same_reason
unfolding Sound
same_reason-Sound a b h = ground (arith, h)

same_consent-Sound : Sound same_consent
unfolding Sound
same_consent-Sound (s, a) (t, b) h =
    let (p, q) = both (str_eq s t) (same_decision a b) h in
    λ i. (string-Sound s t p i, same_decision-Sound a b q i)

pub same_key_same : (a b : CaptureIdentity) → same_key a b ≡ true → a ≡ b
unfolding same_key
same_key_same a b h =
    let (p, q) = both (str_eq a.tool b.tool) (str_eq a.native_id b.native_id) h in
    λ i. record {
      tool = (eq_iff a.tool b.tool).0 p i;
      native_id = (eq_iff a.native_id b.native_id).0 q i;
    }

pub same_key_refl : (a : CaptureIdentity) → same_key a a ≡ true
unfolding same_key
same_key_refl a = rw ((eq_iff a.tool a.tool).1 refl, (eq_iff a.native_id a.native_id).1 refl) refl

same_unit_session-Sound : Sound same_unit_session
unfolding same_unit_session Sound
same_unit_session-Sound a b h =
    let (e1, h1) = both _ _ h in
    let (e2, h2) = both _ _ h1 in
    let (e3, h3) = both _ _ h2 in
    let (e4, h4) = both _ _ h3 in
    let (e5, h5) = both _ _ h4 in
    let (e6, e7) = both _ _ h5 in
    λ i. record {
      id = number-Sound a.id b.id e1 i;
      segment = number-Sound a.segment b.segment e2 i;
      project_id = number-Sound a.project_id b.project_id e3 i;
      project_path = same_option-Sound str_eq string-Sound a.project_path b.project_path e4 i;
      last_ingested =
          same_option-Sound (λ m n. m == n) number-Sound a.last_ingested b.last_ingested e5 i;
      started_at = string-Sound a.started_at b.started_at e6 i;
      capture_state = same_option-Sound str_eq string-Sound a.capture_state b.capture_state e7 i;
    }

pub same_unit_same : (a b : RetentionUnit) → same_unit a b ≡ true → a ≡ b
unfolding same_unit Sound
same_unit_same a b h =
    let (e1, h1) = both _ _ h in
    let (e2, h2) = both _ _ h1 in
    let (e3, h3) = both _ _ h2 in
    let (e4, h4) = both _ _ h3 in
    let (e5, h5) = both _ _ h4 in
    let (e6, h6) = both _ _ h5 in
    let (e7, h7) = both _ _ h6 in
    let (e8, h8) = both _ _ h7 in
    let (e9, e10) = both _ _ h8 in
    λ i. record {
      identity = same_key_same a.identity b.identity e1 i;
      sessions =
          same_list-Sound same_unit_session same_unit_session-Sound a.sessions b.sessions e2 i;
      start_ms = same_option-Sound (λ m n. m == n) number-Sound a.start_ms b.start_ms e3 i;
      started_at = same_option-Sound str_eq string-Sound a.started_at b.started_at e4 i;
      generation = same_option-Sound (λ m n. m == n) number-Sound a.generation b.generation e5 i;
      consent = same_list-Sound same_consent same_consent-Sound a.consent b.consent e6 i;
      tables = same_tables_same a.tables b.tables e7 i;
      bytes = number-Sound a.bytes b.bytes e8 i;
      memory_ids = same_list-Sound (λ m n. m == n) number-Sound a.memory_ids b.memory_ids e9 i;
      ineligible = same_option-Sound same_reason same_reason-Sound a.ineligible b.ineligible e10 i;
    }
