-- ===== src/Rollup/Sessions.antt =====
-- src/daemon/rollup-service.ts: what one call for a session does, and that a second one has nothing
-- left to do.
use elepha.Common.{
  ℕ, ◌≤◌, true, false, Option, some, List, [], ◌∷◌, ◌≡◌, ◌≢◌, inl, inr, refl, sym, ap, ◌∙◌, ◌==◌,
  ==_iff, length, Bool-cases, All, subst,
}
use elepha.Sanitize.Units.{Text}
use elepha.Rollup.Texts.{is_nil}
use elepha.Rollup.Prompt.{TurnBatch, chunk_turns, max_rollup_batch_chars}
use elepha.Rollup.Decisions.{SessionKind, Runtime}
use elepha.Rollup.Rows.{
  SessionRollupRow, RollupTables, RollupState, live, final, get, is_session_kind_eligible,
  rollup_version, source_generation,
}
use elepha.Rollup.Keyed.{differ}
use elepha.Rollup.Batching.{turns_of}
use elepha.Rollup.Budget.{Fits, chunk_turns-Fits}
use elepha.Rollup.Fresh.{fresh_turns-Ascending, fresh_turns-bound, fresh_turns-none}
use elepha.Rollup.Passes.{
  last_turns, roll_batches-Completed, roll_batches-unwritten, roll_batches-stale, IsAlone,
}
use elepha.Rollup.Indices.{indices, row_indices, Ascending, indices-chunk_turns, last_high_water}
use elepha.Rollup.Service.{
  same_rollup_state, watermark_of, current_rollup, stale_version_of, fresh_turns, carried,
  settle_state, nothing_to_do, rollup_session_guarded,
}
use elepha.Rollup.Pass.{
  PassSurroundings, Pass, Progress, MemoryRow, SessionRow, RollupOutcome, to_rollup_input,
  batch_high_water,
}
use elepha.Rollup.Batch.{roll_batches}

same_rollup_state_refl : (s : RollupState) → same_rollup_state s s ≡ true
unfolding same_rollup_state
same_rollup_state_refl live = refl
same_rollup_state_refl final = refl

-- The rollup of the session accounts for every turn.
pub record Accounted (session : SessionRow) (state : RollupState) (all : List MemoryRow)
    (db : RollupTables) : Type 0 where
  pub row : SessionRollupRow
  pub found : get db session.id ≡ some row
  pub bounded : All (λ n. n ≤ row.rolled_up_through_turn_index) (row_indices all)
  pub version : row.version ≡ rollup_version
  pub in_state : row.rollup_state ≡ state

inputs_exist : (rows : List MemoryRow) → rows ≢ [] → to_rollup_input rows ≢ []
unfolding to_rollup_input
inputs_exist [] n e = n refl
inputs_exist (r ∷ rows) n e = differ (ap is_nil e)

module _ (r : Runtime) (around : PassSurroundings) (session : SessionRow) (kind : SessionKind)
    (parent_session_id : Option ℕ) (state : RollupState) where
  -- The pass that a call makes.
  abbrev pass_of : RollupTables → List MemoryRow → Pass
  pass_of db all = record {
    session = session;
    kind = kind;
    parent_session_id = parent_session_id;
    state = state;
    source_revision = source_generation db session.id;
    all = all;
    fresh = fresh_turns (watermark_of (current_rollup (get db session.id))) all;
    stale_version = stale_version_of (get db session.id);
  }

  abbrev start_of : RollupTables → Progress
  start_of db = record {
    tables = db;
    expected = watermark_of (current_rollup (get db session.id));
    carry = carried (current_rollup (get db session.id));
    wrote = false;
  }

  abbrev batches_of : RollupTables → List MemoryRow → List TurnBatch
  batches_of db all = chunk_turns (to_rollup_input (pass_of db all).fresh) max_rollup_batch_chars

  abbrev pub rolled : RollupTables → List MemoryRow → RollupTables × RollupOutcome
  rolled db all = rollup_session_guarded r around db session kind parent_session_id state all

  -- A call that wrote is the loop over the batches of the fresh turns.
  rolled_loop :
      (db : RollupTables) (all : List MemoryRow)
      → (rolled db all).1.wrote ≡ true
      → ((pass_of db all).fresh ≢ [])
        × (rolled db all
            ≡ roll_batches r around (pass_of db all) 0 (batches_of db all) (start_of db))
  unfolding rollup_session_guarded
  rolled_loop db all e = elim (Bool-cases (is_session_kind_eligible db session.id)) [
    | inr h ↦ absurd (differ (rw h at e))
    | inl h ↦ elim (Bool-cases (is_nil all)) [
      | inl k ↦ absurd (differ (rw (h, k) at e))
      | inr k ↦ elim (Bool-cases (is_nil (pass_of db all).fresh)) [
        | inl l ↦ absurd (differ (rw (h, k, l) at e))
        | inr l ↦ (λ n. differ (sym l ∙ ap is_nil n), rw (h, k, l) refl)
      ]
    ]
  ]

  sizes :
      (m : ℕ) (bs : List TurnBatch)
      → All (λ b. (1 ≤ length b.turns) × Fits m b) bs
      → All (λ b. 1 ≤ length b.turns) bs
  sizes m [] h = tt
  sizes m (b ∷ bs) h = (h.0.0, sizes m bs h.1)

  fresh_bounded :
      (db : RollupTables) (all : List MemoryRow) (b : TurnBatch) (bs : List TurnBatch)
      → batches_of db all ≡ b ∷ bs
      → (pass_of db all).fresh ≢ []
      → Ascending (row_indices all)
      → All (λ n. n ≤ batch_high_water (last_turns b bs)) (row_indices all)
  fresh_bounded db all b bs e n a =
      let fresh = (pass_of db all).fresh in
      let w = watermark_of (current_rollup (get db session.id)) in
      let carried_indices =
        ap (λ l. indices (turns_of l)) (sym e) ∙ indices-chunk_turns fresh max_rollup_batch_chars in
      fresh_turns-bound w (batch_high_water (last_turns b bs)) all n (
        subst (All (λ k. k ≤ batch_high_water (last_turns b bs))) carried_indices (
          last_high_water b bs
            (subst (All (λ c. 1 ≤ length c.turns)) e (
              sizes max_rollup_batch_chars (batches_of db all) (
                chunk_turns-Fits (to_rollup_input fresh) max_rollup_batch_chars
                  (inputs_exist fresh n))))
            (subst Ascending (sym carried_indices) (fresh_turns-Ascending w all a))))

  looped :
      (db : RollupTables) (all : List MemoryRow) (bs : List TurnBatch)
      → batches_of db all ≡ bs
      → (pass_of db all).fresh ≢ []
      → Ascending (row_indices all)
      → (roll_batches r around (pass_of db all) 0 bs (start_of db)).1.wrote ≡ true
      → (roll_batches r around (pass_of db all) 0 bs (start_of db)).1.complete ≡ true
      → Accounted session state all (roll_batches r around (pass_of db all) 0 bs (start_of db)).0
  unfolding roll_batches
  looped db all [] e n a w c = absurd (differ w)
  looped db all (b ∷ bs) e n a w c =
      let m = roll_batches-Completed r around (pass_of db all) 0 b bs (start_of db) c in
      record {
        row = m.row;
        found = m.found;
        bounded =
            subst (λ k. All (λ i. i ≤ k) (row_indices all)) (sym m.watermark)
              (fresh_bounded db all b bs e n a);
        version = m.version;
        in_state = m.state;
      }

  -- A call that wrote and is complete leaves a rollup that accounts for every turn of the session, at
  -- the current version and in the state that was asked for.
  pub rollup_session_guarded-Accounted :
      (db : RollupTables) (all : List MemoryRow)
      → Ascending (row_indices all)
      → (rolled db all).1.wrote ≡ true
      → (rolled db all).1.complete ≡ true
      → Accounted session state all (rolled db all).0
  rollup_session_guarded-Accounted db all a w c =
      let (n, e) = rolled_loop db all w in
      subst (λ x. Accounted session state all x.0) (sym e)
        (looped db all (batches_of db all) refl n a (ap (λ x. x.1.wrote) (sym e) ∙ w)
          (ap (λ x. x.1.complete) (sym e) ∙ c))

  settled_state :
      (now : Text) (db : RollupTables) (pass : Pass) (row : SessionRollupRow)
      → row.rollup_state ≡ pass.state
      → settle_state r now db pass (some row) ≡ db
  unfolding settle_state
  settled_state now db pass row e =
      rw
        (subst (λ s. same_rollup_state row.rollup_state s ≡ true) e
          (same_rollup_state_refl row.rollup_state))
        refl

  current_rollup-some :
      (row : SessionRollupRow) → row.version ≡ rollup_version → current_rollup (some row) ≡ some row
  unfolding current_rollup
  current_rollup-some row e = rw ((==_iff row.version rollup_version).1 e) refl

  with_outcome :
      (x db : RollupTables)
      → x ≡ db
      → ◌≡◌ {A = RollupTables × RollupOutcome} (x, nothing_to_do) (db, nothing_to_do)
  with_outcome x db e = λ i. (e i, nothing_to_do)

  nothing_left :
      (db : RollupTables) (all : List MemoryRow) (c : Option SessionRollupRow)
      → current_rollup (get db session.id) ≡ c
      → is_session_kind_eligible db session.id ≡ true
      → fresh_turns (watermark_of c) all ≡ []
      → ((pass : Pass) → pass.state ≡ state → settle_state r (around.now 0) db pass c ≡ db)
      → rolled db all ≡ (db, nothing_to_do)
  unfolding rollup_session_guarded
  nothing_left db all c e h f s = elim (Bool-cases (is_nil all)) [
    | inl k ↦ rw (h, k) refl
    | inr k ↦
        let pass : Pass = record (pass_of db all) { fresh = [] } in
        rw (h, k, subst (λ o. fresh_turns (watermark_of o) all ≡ []) (sym e) f)
          (with_outcome (settle_state r (around.now 0) db pass (current_rollup (get db session.id)))
            db (subst (λ o. settle_state r (around.now 0) db pass o ≡ db) (sym e) (s pass refl)))
  ]

  fresh_of :
      (row : SessionRollupRow) (all : List MemoryRow)
      → All (λ n. n ≤ row.rolled_up_through_turn_index) (row_indices all)
      → fresh_turns (watermark_of (some row)) all ≡ []
  unfolding watermark_of
  fresh_of row all h = fresh_turns-none row.rolled_up_through_turn_index all h

  stale_of :
      (db : RollupTables) (row : SessionRollupRow)
      → get db session.id ≡ some row
      → row.version ≢ rollup_version
      → stale_version_of (get db session.id) ≡ some row.version
  unfolding stale_version_of
  stale_of db row e n = rw e (elim (Bool-cases (row.version == rollup_version)) [
    | inl h ↦ absurd (n ((==_iff row.version rollup_version).0 h))
    | inr h ↦ rw h refl
  ])

  -- Where the rollup accounts for every turn, a call changes nothing.
  rolled-Accounted :
      (db : RollupTables) (all : List MemoryRow)
      → Accounted session state all db
      → is_session_kind_eligible db session.id ≡ true
      → rolled db all ≡ (db, nothing_to_do)
  rolled-Accounted db all a h =
      let same = ap current_rollup a.found ∙ current_rollup-some a.row a.version in
      nothing_left db all (some a.row) same h (fresh_of a.row all a.bounded)
        (λ pass e. settled_state (around.now 0) db pass a.row (a.in_state ∙ sym e))

  -- Where no other writer moves the tables while the model is asked, a call that is neither complete nor
  -- wrote anything leaves the tables as they were.
  pub rollup_session_guarded-unwritten :
      (db : RollupTables) (all : List MemoryRow)
      → IsAlone r around (pass_of db all)
      → (rolled db all).1.wrote ≡ false
      → (rolled db all).1.complete ≡ false
      → (rolled db all).0 ≡ db
  unfolding rollup_session_guarded
  rollup_session_guarded-unwritten db all alone w c =
      elim (Bool-cases (is_session_kind_eligible db session.id)) [
        | inr h ↦ rw h refl
        | inl h ↦ elim (Bool-cases (is_nil all)) [
          | inl k ↦ rw (h, k) refl
          | inr k ↦ elim (Bool-cases (is_nil (pass_of db all).fresh)) [
            | inl l ↦ absurd (differ (sym (rw (h, k, l) at c)))
            | inr l ↦
                rw (h, k, l)
                  (roll_batches-unwritten r around (pass_of db all) 0 (batches_of db all)
                    (start_of db) alone (rw (h, k, l) at w))
          ]
        ]
      ]

  -- Where no other writer moves the tables while the model is asked, and the stored rollup is of another
  -- version than the current one, a call that is not complete leaves a rollup of that same version, so
  -- that a later call rebuilds it.
  pub rollup_session_guarded-stale :
      (db : RollupTables) (all : List MemoryRow) (row : SessionRollupRow)
      → IsAlone r around (pass_of db all)
      → get db session.id ≡ some row
      → row.version ≢ rollup_version
      → (rolled db all).1.complete ≡ false
      → (later : SessionRollupRow) × (get (rolled db all).0 session.id ≡ some later)
        × (later.version ≡ row.version)
  unfolding rollup_session_guarded
  rollup_session_guarded-stale db all row alone e n c =
      elim (Bool-cases (is_session_kind_eligible db session.id)) [
        | inr h ↦ rw h (row, e, refl)
        | inl h ↦ elim (Bool-cases (is_nil all)) [
          | inl k ↦ rw (h, k) (row, e, refl)
          | inr k ↦ elim (Bool-cases (is_nil (pass_of db all).fresh)) [
            | inl l ↦ absurd (differ (sym (rw (h, k, l) at c)))
            | inr l ↦
                rw (h, k, l)
                  (roll_batches-stale r around (pass_of db all) 0 (batches_of db all) (start_of db)
                    row.version alone (stale_of db row e n) (row, e, refl) (rw (h, k, l) at c))
          ]
        ]
      ]

abbrev rolled_up : RollupOutcome
rolled_up = record { deferred = false; wrote = true; complete = true }

-- After a call that wrote and is complete, for turns in ascending order, a later call on the
-- tables it left, for the same session and turns, with the same kind, parent and state to reach, changes
-- nothing and is complete, if the session is still eligible in these tables; whatever the provider would answer and other writers would do.
pub rollup_session_guarded_again :
    (r : Runtime) (around later : PassSurroundings) (session : SessionRow) (kind : SessionKind)
    (parent_session_id : Option ℕ) (state : RollupState) (db after : RollupTables)
    (all : List MemoryRow)
    → Ascending (row_indices all)
    → rollup_session_guarded r around db session kind parent_session_id state all
      ≡ (after, rolled_up)
    → is_session_kind_eligible after session.id ≡ true
    → rollup_session_guarded r later after session kind parent_session_id state all
      ≡ (after, nothing_to_do)
rollup_session_guarded_again r around later session kind parent state db after all a e h =
    rolled-Accounted r later session kind parent state after all
      (subst (λ x. Accounted session state all x.0) e
        (rollup_session_guarded-Accounted r around session kind parent state db all a
          (ap (λ x. x.1.wrote) e) (ap (λ x. x.1.complete) e)))
      h
