-- ===== src/Rollup/Reached.antt =====
-- src/storage/rollup-store.ts: every rollup of a project is reached from its listing, where no child
-- has children.
use elepha.Common.{
  ℕ, Bool, true, false, not, ◌&&◌, ◌||◌, List, [], ◌∷◌, ◌≡◌, ◌⊎◌, inl, inr, refl, sym, ap, ◌∙◌, any,
  Bool-cases, subst, arith,
}
use elepha.Rollup.Keyed.{Some, Some-map, differ}
use elepha.Rollup.Rows.{SessionRollupRow, RollupTables}
use elepha.Rollup.Listing.{
  SessionListEntry, is_child_of, children_of, parent_present, list_entries, list_sessions,
  list_by_project,
}

-- The row is one of the list.
abbrev pub IsRow : List SessionRollupRow → SessionRollupRow → Type 0
IsRow rows row = Some (λ r. r ≡ row) rows

-- A row whose parent is listed has no listed child.
abbrev pub HasTwoLevels : List SessionRollupRow → Type 0
HasTwoLevels all =
    (parent row : SessionRollupRow)
    → IsRow all parent
    → IsRow all row
    → is_child_of parent.session_id row ≡ true
    → parent_present all parent ≡ false

-- The entry shows the row, itself or as a child.
abbrev pub Shows : SessionRollupRow → SessionListEntry → Type 0
Shows row e = (e.rollup ≡ row) ⊎ IsRow e.children row

or_cases : (a b : Bool) → a || b ≡ true → (a ≡ true) ⊎ (b ≡ true)
or_cases a b h = ground arith

and_false : (a b : Bool) → a ≡ false → a && b ≡ false
and_false a b h = ground arith

parent_of :
    (rows : List SessionRollupRow) (row : SessionRollupRow)
    → any (λ r. is_child_of r.session_id row) rows ≡ true
    → (parent : SessionRollupRow) × IsRow rows parent × (is_child_of parent.session_id row ≡ true)
parent_of [] row h = absurd (differ h)
parent_of (r ∷ rows) row h =
    elim (or_cases (is_child_of r.session_id row) (any (λ s. is_child_of s.session_id row) rows)
      h) [
        | inl k ↦ (r, inl refl, k)
        | inr k ↦ let (p, i, c) = parent_of rows row k in (p, inr i, c)
      ]

children_of-IsRow :
    (rows : List SessionRollupRow) (id : ℕ) (row : SessionRollupRow)
    → IsRow rows row
    → is_child_of id row ≡ true
    → IsRow (children_of rows id) row
children_of-IsRow [] id row i c = absurd i
children_of-IsRow (r ∷ rows) id row i c = elim (Bool-cases (is_child_of id r)) [
  | inl h ↦ rw h (elim i [ inl e ↦ inl e | inr k ↦ inr (children_of-IsRow rows id row k c) ])
  | inr h ↦ rw h (elim i [
    | inl e ↦ absurd (differ (sym h ∙ ap (is_child_of id) e ∙ c))
    | inr k ↦ children_of-IsRow rows id row k c
  ])
]

-- A row that is not hidden has its entry.
entry_shown :
    (all rows : List SessionRollupRow) (include_all : Bool) (row : SessionRollupRow)
    → IsRow rows row
    → parent_present all row && not include_all ≡ false
    → Some
        (λ e. (e.rollup ≡ row) × (e.children ≡ children_of all row.session_id))
        (list_entries all include_all rows)
unfolding list_entries
entry_shown all [] x row i h = absurd i
entry_shown all (r ∷ rows) x row i h = elim (Bool-cases (parent_present all r && not x)) [
  | inl k ↦ rw k (elim i [
    | inl e ↦ absurd (differ (sym h ∙ ap (λ s. parent_present all s && not x) (sym e) ∙ k))
    | inr j ↦ entry_shown all rows x row j h
  ])
  | inr k ↦ rw k (elim i [
    | inl e ↦ inl (e, ap (λ s. children_of all s.session_id) e)
    | inr j ↦ inr (entry_shown all rows x row j h)
  ])
]

shown_itself :
    (all : List SessionRollupRow) (include_all : Bool) (row : SessionRollupRow)
    → IsRow all row
    → parent_present all row && not include_all ≡ false
    → Some (Shows row) (list_entries all include_all all)
shown_itself all x row i h =
    Some-map (λ e. (e.rollup ≡ row) × (e.children ≡ children_of all row.session_id)) (Shows row)
      (λ e p. inl p.0) (list_entries all x all) (entry_shown all all x row i h)

shown_below :
    (all : List SessionRollupRow) (include_all : Bool) (parent row : SessionRollupRow)
    → IsRow all parent
    → IsRow all row
    → is_child_of parent.session_id row ≡ true
    → parent_present all parent ≡ false
    → Some (Shows row) (list_entries all include_all all)
shown_below all x parent row i j c h =
    Some-map (λ e. (e.rollup ≡ parent) × (e.children ≡ children_of all parent.session_id))
      (Shows row)
      (λ e p. inr (
        subst (λ rows. IsRow rows row) (sym p.1) (children_of-IsRow all parent.session_id row j c)))
      (list_entries all x all)
      (entry_shown all all x parent i (and_false (parent_present all parent) (not x) h))

-- Where no rollup whose parent is listed has children itself, every rollup of the project is shown by
-- an entry of its listing, on its own or below its parent.
pub list_sessions-Shows :
    (db : RollupTables) (project_id : ℕ) (include_all : Bool)
    → HasTwoLevels (list_by_project db project_id)
    → (row : SessionRollupRow) → IsRow (list_by_project db project_id) row
    → Some (Shows row) (list_sessions db project_id include_all)
unfolding list_sessions parent_present
list_sessions-Shows db project_id x two row i =
    let all = list_by_project db project_id in
    elim (Bool-cases (any (λ r. is_child_of r.session_id row) all)) [
      | inl h ↦
          let (parent, j, c) = parent_of all row h in
          shown_below all x parent row j i c (two parent row j i c)
      | inr h ↦
          shown_itself all x row i
            (and_false (any (λ r. is_child_of r.session_id row) all) (not x) h)
    ]
