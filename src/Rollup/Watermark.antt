-- ===== src/Rollup/Watermark.antt =====
-- src/storage/rollup-store.ts: what a write leaves behind, and why a second one is refused.
use elepha.Common.{
  ℕ, Bool, true, false, Option, none, some, ◌≡◌, ◌≢◌, ◌⊎◌, inl, inr, refl, sym, ap, ◌∙◌, Bool-cases,
  Option-cases,
}
use elepha.Sanitize.Units.{Text}
use elepha.Rollup.Decisions.{Runtime}
use elepha.Rollup.Keyed.{differ}
use elepha.Rollup.Rows.{
  SessionRollupRow, RollupWrite, RollupTables, get, is_session_kind_eligible,
  is_expected_generation,
}
use elepha.Rollup.Store.{row_of, insert_rollup, update_rollup, update_if_watermark, write}
use elepha.Rollup.Updates.{
  Accounts, find_rollup-insert, none-some, some_injective, find_rollup-id, find_rollup-update,
}

update_rollup-Accounts :
    (old new : SessionRollupRow)
    → old.session_id ≡ new.session_id
    → Accounts new (update_rollup old new)
unfolding update_rollup
update_rollup-Accounts old new e = record {
  session = e;
  watermark = refl;
  state = refl;
  version = refl;
  title = refl;
  summary = refl;
  files = refl;
  decisions = refl;
  instructions = refl;
}

-- What a write that landed has done: the rollup of its session accounts for its turns, and if the
-- caller had read a watermark, the rollup still stood there.
pub record Landed (db after : RollupTables) (new : SessionRollupRow) (expected : Option ℕ)
    : Type 0 where
  pub row : SessionRollupRow
  pub found : get after new.session_id ≡ some row
  pub accounts : Accounts new row
  pub stood :
      (e : ℕ)
      → expected ≡ some e
      → (old : SessionRollupRow) × (get db new.session_id ≡ some old)
        × (old.rolled_up_through_turn_index ≡ e)
  pub sessions : after.sessions ≡ db.sessions

-- A write lands as `Landed` says, or leaves the tables as they were.
pub Settled : Runtime → Text → RollupTables → RollupWrite → Option ℕ → RollupTables × Bool → Type 0
Settled r now db w expected q =
    ((q.1 ≡ true) × Landed db q.0 (row_of r now w) expected) ⊎ ((q.1 ≡ false) × (q.0 ≡ db))

refused :
    (r : Runtime) (now : Text) (db : RollupTables) (w : RollupWrite) (expected : Option ℕ)
    → Settled r now db w expected (db, false)
unfolding Settled
refused r now db w expected = inr (refl, refl)

inserted :
    (r : Runtime) (now : Text) (db : RollupTables) (w : RollupWrite)
    → Settled r now db w none
        (record db { rollups = insert_rollup (row_of r now w) db.rollups }, true)
unfolding Settled
inserted r now db w =
    let (row, e, a) = find_rollup-insert (row_of r now w) db.rollups in
    inl (
      refl,
      record {
        row = row;
        found = e;
        accounts = a;
        stood = λ x k. absurd (none-some x k);
        sessions = refl;
      },
    )

updated :
    (r : Runtime) (now : Text) (db : RollupTables) (w : RollupWrite) (expected : ℕ)
    → Settled r now db w
        (some expected)
        (elim (update_if_watermark (row_of r now w) expected db.rollups)
          as (λ _. RollupTables × Bool) [
            | none ↦ (db, false)
            | some rows ↦ (record db { rollups = rows }, true)
          ])
unfolding Settled
updated r now db w x = elim (Option-cases (update_if_watermark (row_of r now w) x db.rollups)) [
  | inl k ↦ rw k (inr (refl, refl))
  | inr (rows, k) ↦
      let (old, e, a, n) = find_rollup-update (row_of r now w) x db.rollups rows k in
      rw k (
        inl (
          refl,
          record {
            row = update_rollup old (row_of r now w);
            found = n;
            accounts =
                update_rollup-Accounts old (row_of r now w)
                  (find_rollup-id (row_of r now w).session_id db.rollups old e);
            stood = λ y h. (old, e, a ∙ some_injective x y h);
            sessions = refl;
          },
        ))
]

admitted :
    (r : Runtime) (now : Text) (db : RollupTables) (w : RollupWrite) (expected : Option ℕ)
    → Settled r now db w expected (elim expected as (λ _. RollupTables × Bool) [
      | none ↦ (record db { rollups = insert_rollup (row_of r now w) db.rollups }, true)
      | some x ↦
          elim (update_if_watermark (row_of r now w) x db.rollups) as (λ _. RollupTables × Bool) [
            | none ↦ (db, false)
            | some rows ↦ (record db { rollups = rows }, true)
          ]
    ])
admitted r now db w none = inserted r now db w
admitted r now db w (some x) = updated r now db w x

pub write-Settled :
    (r : Runtime) (now : Text) (db : RollupTables) (w : RollupWrite) (expected : Option ℕ)
    → Settled r now db w expected (write r now db w expected)
unfolding write
write-Settled r now db w expected = elim (Bool-cases (is_session_kind_eligible db w.session_id)) [
  | inl h ↦
      elim (Bool-cases (is_expected_generation db w.session_id w.expected_source_generation)) [
        | inl k ↦ rw (h, k) (admitted r now db w expected)
        | inr k ↦ rw (h, k) (refused r now db w expected)
      ]
  | inr h ↦ rw h (refused r now db w expected)
]

pub write-Landed :
    (r : Runtime) (now : Text) (db : RollupTables) (w : RollupWrite) (expected : Option ℕ)
    → (write r now db w expected).1 ≡ true
    → Landed db (write r now db w expected).0 (row_of r now w) expected
unfolding Settled
write-Landed r now db w expected l = elim (write-Settled r now db w expected) [
  | inl (t, m) ↦ m
  | inr (t, m) ↦ absurd (differ (sym t ∙ l))
]

-- A write that did not land changed nothing.
pub refused_of :
    (r : Runtime) (now : Text) (db : RollupTables) (w : RollupWrite) (expected : Option ℕ)
    → (write r now db w expected).1 ≡ false
    → (write r now db w expected).0 ≡ db
unfolding Settled
refused_of r now db w expected l = elim (write-Settled r now db w expected) [
  | inl (t, m) ↦ absurd (differ (sym l ∙ t))
  | inr (t, m) ↦ m
]

pair_of : {A B : Type 0} (q : A × B) (a : A) (b : B) → q.0 ≡ a → q.1 ≡ b → q ≡ (a, b)
pair_of q a b e f = λ i. (e i, f i)

watermark_moved :
    (r : Runtime) (now later : Text) (db : RollupTables) (after : RollupTables) (w : RollupWrite)
    (e : ℕ)
    → w.through_turn_index ≢ e
    → Landed db after (row_of r now w) (some e)
    → (next : RollupTables) → Landed after next (row_of r later w) (some e)
    → ⊥
unfolding row_of
watermark_moved r now later db after w e n l next m =
    let (old, found, held) = m.stood e refl in
    n (
      sym l.accounts.watermark
      ∙ ap (λ row. row.rolled_up_through_turn_index)
          (some_injective l.row old (sym l.found ∙ found))
      ∙ held)

-- A conditional write that landed and moved the watermark is refused the second time: the tables
-- stay as they are.
pub write_again :
    (r : Runtime) (now later : Text) (db : RollupTables) (w : RollupWrite) (expected : ℕ)
    → w.through_turn_index ≢ expected
    → (write r now db w (some expected)).1 ≡ true
    → write r later (write r now db w (some expected)).0 w (some expected)
      ≡ ((write r now db w (some expected)).0, false)
unfolding Settled
write_again r now later db w e n landed =
    let after = (write r now db w (some e)).0 in
    elim (write-Settled r later after w (some e)) [
      | inl (t, m) ↦ elim (write-Settled r now db w (some e)) [
        | inl (u, l) ↦
            absurd
              (watermark_moved r now later db after w e n l (write r later after w (some e)).0 m)
        | inr (u, l) ↦ absurd (differ (sym u ∙ landed))
      ]
      | inr (t, m) ↦ pair_of (write r later after w (some e)) after false m t
    ]
