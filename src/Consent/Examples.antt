-- ===== src/Consent/Examples.antt =====
-- A revoked project inside an approved folder, and the theorem at it.
use elepha.Common.{true, some, [], ◌∷◌, ◌≡◌, refl, all, keep}
use elepha.Common.Codes.{codes}
use elepha.Retention.Store.{approved, denied}
use elepha.Init.Stores.{cli, grandfathered}
use elepha.Consent.Decision.{
  ConsentRoot, trim_slashes, starts, same_units, is_within, stored_path_key, prefers_consent_row,
  counts, closer, reduce_closest, explicit_consent_decision, consent_state,
}
use elepha.Consent.Closest.{yields, explicit_consent_decision-yields}

abbrev folder : ConsentRoot
folder = record { ulid = "01"; path = codes "/w"; state = approved; decided_at = 9; source = cli }

abbrev project : ConsentRoot
project = record {
  ulid = "02";
  path = codes "/w/p";
  state = denied;
  decided_at = 5;
  source = grandfathered;
}

denied_inside : consent_state (folder ∷ project ∷ []) (codes "/w/p/src") ≡ denied
unfolding consent_state explicit_consent_decision reduce_closest closer prefers_consent_row
    stored_path_key is_within same_units starts trim_slashes
denied_inside = refl

approved_beside : consent_state (folder ∷ project ∷ []) (codes "/w/pq") ≡ approved
unfolding consent_state explicit_consent_decision reduce_closest closer prefers_consent_row
    stored_path_key is_within same_units starts trim_slashes
approved_beside = refl

decided_inside : explicit_consent_decision (folder ∷ project ∷ []) (codes "/w/p/src") ≡ some project
unfolding explicit_consent_decision reduce_closest closer prefers_consent_row stored_path_key
    is_within same_units starts trim_slashes
decided_inside = refl

explicit_consent_decision-yields_example :
    (counts (codes "/w/p/src") project ≡ true)
    × (all (λ r. yields r project) (keep (counts (codes "/w/p/src")) (folder ∷ project ∷ []))
        ≡ true)
explicit_consent_decision-yields_example =
    explicit_consent_decision-yields (folder ∷ project ∷ []) (codes "/w/p/src") project
      decided_inside
