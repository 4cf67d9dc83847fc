-- ===== src/Rollup/Families.antt =====
-- A session with a child, as it is listed.
use elepha.Common.{true, false, some, List, [], ◌∷◌, ◌≡◌, inl, inr, refl, sym, subst}
use elepha.Rollup.Rows.{RollupTables, SessionRollupRow}
use elepha.Rollup.Decisions.{subagent}
use elepha.Rollup.Keyed.{Some, differ}
use elepha.Rollup.Listing.{
  list_by_project, sort_latest, insert_latest, precedes, is_child_of, parent_present, list_sessions,
}
use elepha.Rollup.Reached.{HasTwoLevels, IsRow, Shows, list_sessions-Shows}
use elepha.Rollup.Scenarios.{old_row}

abbrev child_row : SessionRollupRow
child_row = record old_row { session_id = 8; kind = subagent; parent_session_id = some 7 }

abbrev family : RollupTables
family = record { sessions = []; rollups = old_row ∷ child_row ∷ [] }

abbrev listed : List SessionRollupRow
listed = list_by_project family 1

listed_two : listed ≡ old_row ∷ child_row ∷ []
unfolding list_by_project sort_latest insert_latest precedes
listed_two = refl

two_levels_of : HasTwoLevels (old_row ∷ child_row ∷ [])
unfolding is_child_of parent_present
two_levels_of parent row (inl e) j c =
    subst (λ r. parent_present (old_row ∷ child_row ∷ []) r ≡ false) e refl
two_levels_of parent row (inr (inl e)) j c =
    let c2 = subst (λ r. is_child_of r.session_id row ≡ true) (sym e) c in
    elim j [
      | inl f ↦ absurd (differ (subst (λ r. is_child_of 8 r ≡ true) (sym f) c2))
      | inr k ↦ elim k [
        | inl f ↦ absurd (differ (subst (λ r. is_child_of 8 r ≡ true) (sym f) c2))
        | inr x ↦ absurd x
      ]
    ]
two_levels_of parent row (inr (inr x)) j c = absurd x

two_levels : HasTwoLevels listed
two_levels = subst HasTwoLevels (sym listed_two) two_levels_of

child_listed : IsRow listed child_row
child_listed = subst (λ rows. IsRow rows child_row) (sym listed_two) (inr (inl refl))

list_sessions-Shows_example : Some (Shows child_row) (list_sessions family 1 false)
list_sessions-Shows_example = list_sessions-Shows family 1 false two_levels child_row child_listed
