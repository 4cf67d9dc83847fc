-- ===== src/Rollup/Listing.antt =====
-- src/storage/rollup-store.ts: `listByProject` and `listSessions`.
use elepha.Common.{
  ℕ, Bool, true, false, not, ◌&&◌, ◌||◌, none, some, List, [], ◌∷◌, ltb, ◌==◌, if◌then◌else◌, any,
  keep,
}
use elepha.Sanitize.Units.{Text}
use elepha.Rollup.Rows.{SessionRollupRow, RollupTables}

-- The binary order of texts.
unfoldable pub precedes : Text → Text → Bool
precedes [] [] = false
precedes [] (_ ∷ _) = true
precedes (_ ∷ _) [] = false
precedes (a ∷ s) (b ∷ t) = ltb a b || (a == b && precedes s t)

-- `ORDER BY ended_at DESC`.
unfoldable pub insert_latest : SessionRollupRow → List SessionRollupRow → List SessionRollupRow
insert_latest row [] = row ∷ []
insert_latest row (r ∷ rows) =
    let later = r ∷ insert_latest row rows in
    if precedes row.ended_at r.ended_at then later else row ∷ r ∷ rows

unfoldable pub sort_latest : List SessionRollupRow → List SessionRollupRow
sort_latest [] = []
sort_latest (row ∷ rows) = insert_latest row (sort_latest rows)

unfoldable pub list_by_project : RollupTables → ℕ → List SessionRollupRow
list_by_project db project_id = sort_latest (keep (λ row. row.project_id == project_id) db.rollups)

pub record SessionListEntry : Type 0 where
  pub rollup : SessionRollupRow
  pub children : List SessionRollupRow

-- The row is a child of the session.
unfoldable pub is_child_of : ℕ → SessionRollupRow → Bool
is_child_of id row = elim row.parent_session_id [ none ↦ false | some parent ↦ parent == id ]

-- `childrenByParent.get`.
abbrev pub children_of : List SessionRollupRow → ℕ → List SessionRollupRow
children_of all id = keep (is_child_of id) all

unfoldable pub parent_present : List SessionRollupRow → SessionRollupRow → Bool
parent_present all row = any (λ r. is_child_of r.session_id row) all

unfoldable pub list_entries :
    List SessionRollupRow → Bool → List SessionRollupRow → List SessionListEntry
list_entries all include_all [] = []
list_entries all include_all (row ∷ rows) =
    let rest = list_entries all include_all rows in
    if parent_present all row && not include_all
    then rest
    else record { rollup = row; children = children_of all row.session_id } ∷ rest

unfoldable pub list_sessions : RollupTables → ℕ → Bool → List SessionListEntry
list_sessions db project_id include_all =
    let all = list_by_project db project_id in list_entries all include_all all
