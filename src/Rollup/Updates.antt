-- ===== src/Rollup/Updates.antt =====
-- src/storage/rollup-store.ts: what an insert and a conditional update leave in the table.
use elepha.Common.{
  ℕ, true, false, Option, none, some, List, [], ◌∷◌, ◌≡◌, inl, inr, refl, sym, ap, ◌∙◌, ◌==◌,
  ==_iff, if◌then◌else◌, Bool-cases, Option-cases, arith,
}
use elepha.Rollup.Rows.{SessionRollupRow, find_rollup}
use elepha.Rollup.Store.{insert_rollup, update_rollup, update_if_watermark}

-- The row accounts for the turns that the new row accounts for.
pub record Accounts (new row : SessionRollupRow) : Type 0 where
  pub session : row.session_id ≡ new.session_id
  pub watermark : row.rolled_up_through_turn_index ≡ new.rolled_up_through_turn_index
  pub state : row.rollup_state ≡ new.rollup_state
  pub version : row.version ≡ new.version
  pub title : row.title ≡ new.title
  pub summary : row.summary ≡ new.summary
  pub files : row.files_touched ≡ new.files_touched
  pub decisions : row.decisions ≡ new.decisions
  pub instructions : row.instructions ≡ new.instructions

find_rollup-here :
    (r : SessionRollupRow) (rows : List SessionRollupRow) (id : ℕ)
    → (r.session_id == id) ≡ true
    → find_rollup id (r ∷ rows) ≡ some r
unfolding find_rollup
find_rollup-here r rows id h = rw h refl

find_rollup-skip :
    (r : SessionRollupRow) (rows : List SessionRollupRow) (id : ℕ)
    → (r.session_id == id) ≡ false
    → find_rollup id (r ∷ rows) ≡ find_rollup id rows
unfolding find_rollup
find_rollup-skip r rows id h = rw h refl

insert_rollup-here :
    (new r : SessionRollupRow) (rows : List SessionRollupRow)
    → (r.session_id == new.session_id) ≡ true
    → insert_rollup new (r ∷ rows) ≡ record new { project_id = r.project_id; tool = r.tool } ∷ rows
unfolding insert_rollup
insert_rollup-here new r rows h = rw h refl

insert_rollup-skip :
    (new r : SessionRollupRow) (rows : List SessionRollupRow)
    → (r.session_id == new.session_id) ≡ false
    → insert_rollup new (r ∷ rows) ≡ r ∷ insert_rollup new rows
unfolding insert_rollup
insert_rollup-skip new r rows h = rw h refl

same_id : (new : SessionRollupRow) → (new.session_id == new.session_id) ≡ true
same_id new = (==_iff new.session_id new.session_id).1 refl

pub find_rollup-insert :
    (new : SessionRollupRow) (rows : List SessionRollupRow)
    → (row : SessionRollupRow) × (find_rollup new.session_id (insert_rollup new rows) ≡ some row)
      × Accounts new row
unfolding insert_rollup
find_rollup-insert new [] = (
  new,
  find_rollup-here new [] new.session_id (same_id new),
  record {
    session = refl;
    watermark = refl;
    state = refl;
    version = refl;
    title = refl;
    summary = refl;
    files = refl;
    decisions = refl;
    instructions = refl;
  },
)
find_rollup-insert new (r ∷ rows) = elim (Bool-cases (r.session_id == new.session_id)) [
  | inl h ↦
      let kept = record new { project_id = r.project_id; tool = r.tool } in
      (
        kept,
        ap (find_rollup new.session_id) (insert_rollup-here new r rows h)
            ∙ find_rollup-here kept rows new.session_id (same_id new),
        record {
          session = refl;
          watermark = refl;
          state = refl;
          version = refl;
          title = refl;
          summary = refl;
          files = refl;
          decisions = refl;
          instructions = refl;
        },
      )
  | inr h ↦
      let (row, e, a) = find_rollup-insert new rows in
      (
        row,
        ap (find_rollup new.session_id) (insert_rollup-skip new r rows h)
            ∙ find_rollup-skip r (insert_rollup new rows) new.session_id h
            ∙ e,
        a,
      )
]

pub none-some : {A : Type 0} (a : A) → none ≡ some a → ⊥
none-some a e = ground arith

pub some_injective : {A : Type 0} (a b : A) → some a ≡ some b → a ≡ b
some_injective a b e = ap (λ o. elim o [ none ↦ a | some x ↦ x ]) e

pub find_rollup-id :
    (id : ℕ) (rows : List SessionRollupRow) (row : SessionRollupRow)
    → find_rollup id rows ≡ some row
    → row.session_id ≡ id
unfolding find_rollup
find_rollup-id id [] row e = absurd (none-some row e)
find_rollup-id id (r ∷ rows) row e = elim (Bool-cases (r.session_id == id)) [
  | inl h ↦
      ap (λ x. x.session_id) (sym (some_injective r row (rw h at e))) ∙ (==_iff r.session_id id).0 h
  | inr h ↦ find_rollup-id id rows row (rw h at e)
]

-- The row at the watermark that was expected, and the row that takes its place.
abbrev Updated : SessionRollupRow → ℕ → List SessionRollupRow → List SessionRollupRow → Type 0
Updated new expected rows changed =
    (old : SessionRollupRow) × (find_rollup new.session_id rows ≡ some old)
    × (old.rolled_up_through_turn_index ≡ expected)
    × (find_rollup new.session_id changed ≡ some (update_rollup old new))

update_rollup-id :
    (r new : SessionRollupRow)
    → (r.session_id == new.session_id) ≡ true
    → ((update_rollup r new).session_id == new.session_id) ≡ true
unfolding update_rollup
update_rollup-id r new h = h

here-Updated :
    (new r : SessionRollupRow) (expected : ℕ) (rows changed : List SessionRollupRow)
    → (r.session_id == new.session_id) ≡ true
    → (if r.rolled_up_through_turn_index == expected
        then some (update_rollup r new ∷ rows)
        else none)
      ≡ some changed
    → Updated new expected (r ∷ rows) changed
here-Updated new r expected rows changed h e =
    elim (Bool-cases (r.rolled_up_through_turn_index == expected)) [
      | inl k ↦ (
        r,
        find_rollup-here r rows new.session_id h,
        (==_iff r.rolled_up_through_turn_index expected).0 k,
        ap (find_rollup new.session_id)
              (sym (some_injective (update_rollup r new ∷ rows) changed (rw k at e)))
            ∙ find_rollup-here (update_rollup r new) rows new.session_id (update_rollup-id r new h),
      )
      | inr k ↦ absurd (none-some changed (rw k at e))
    ]

later-Updated :
    (new r : SessionRollupRow) (expected : ℕ) (rows changed : List SessionRollupRow)
    → (r.session_id == new.session_id) ≡ false
    → elim (update_if_watermark new expected rows) as (λ _. Option (List SessionRollupRow)) [
      | none ↦ none
      | some rs ↦ some (r ∷ rs)
    ]
      ≡ some changed
    → ((rs : List SessionRollupRow)
        → update_if_watermark new expected rows ≡ some rs
        → Updated new expected rows rs)
    → Updated new expected (r ∷ rows) changed
later-Updated new r expected rows changed h e f =
    elim (Option-cases (update_if_watermark new expected rows)) [
      | inl k ↦ absurd (none-some changed (rw k at e))
      | inr (rs, k) ↦
          let (old, found, held, now) = f rs k in
          (
            old,
            find_rollup-skip r rows new.session_id h ∙ found,
            held,
            ap (find_rollup new.session_id) (sym (some_injective (r ∷ rs) changed (rw k at e)))
                ∙ find_rollup-skip r rs new.session_id h
                ∙ now,
          )
    ]

pub find_rollup-update :
    (new : SessionRollupRow) (expected : ℕ) (rows changed : List SessionRollupRow)
    → update_if_watermark new expected rows ≡ some changed
    → Updated new expected rows changed
unfolding update_if_watermark
find_rollup-update new x [] changed e = ground arith
find_rollup-update new x (r ∷ rows) changed e = elim (Bool-cases (r.session_id == new.session_id)) [
  | inl h ↦ here-Updated new r x rows changed h (rw h at e)
  | inr h ↦ later-Updated new r x rows changed h (rw h at e) (find_rollup-update new x rows)
]
