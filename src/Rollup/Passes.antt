-- ===== src/Rollup/Passes.antt =====
-- src/daemon/rollup-service.ts: what a pass over the batches leaves when it completes, when it is
-- interrupted, and when it writes nothing.
use elepha.Common.{
  ℕ, suc, Bool, true, false, some, List, [], ◌∷◌, ◌≡◌, ◌⊎◌, inl, inr, refl, sym, ap, ◌∙◌,
  Bool-cases, Option-cases, subst,
}
use elepha.Rollup.Texts.{is_nil}
use elepha.Rollup.Prompt.{RollupTurnInput, TurnBatch}
use elepha.Rollup.Decisions.{Runtime}
use elepha.Rollup.Rows.{
  SessionRollupRow, RollupTables, get, rollup_version, is_session_kind_eligible,
}
use elepha.Rollup.Store.{write}
use elepha.Rollup.Keyed.{differ}
use elepha.Rollup.Candidates.{RollupResult, is_ok}
use elepha.Rollup.Watermark.{refused_of}
use elepha.Rollup.Progress.{roll_batch-BatchLanded}
use elepha.Rollup.Pass.{
  PassSurroundings, Pass, Progress, BatchOutcome, aborted, landed, RollupOutcome,
  watermark_still_matches, batch_high_water, batch_version, batch_write, merged_content,
  incoming_content,
}
use elepha.Rollup.Batch.{apply_result, ask, roll_batch, roll_batches}

-- A batch that does not land reports a pass that is not complete, and leaves the tables as they were,
-- or as other writers left them in the meantime.
abbrev Reported : Progress → RollupTables → BatchOutcome → Type 0
Reported p after (aborted db o) =
    (o.complete ≡ false) × (o.wrote ≡ p.wrote) × ((db ≡ p.tables) ⊎ (db ≡ after))
Reported p after (landed q) = q.wrote ≡ true

-- The turns of the last batch.
abbrev pub last_turns : TurnBatch → List TurnBatch → List RollupTurnInput
last_turns b [] = b.turns
last_turns b (c ∷ cs) = last_turns c cs

outcome-cases :
    (o : BatchOutcome)
    → ((db : RollupTables) × (x : RollupOutcome) × (o ≡ aborted db x))
      ⊎ ((q : Progress) × (o ≡ landed q))
outcome-cases (aborted db x) = inl (db, x, refl)
outcome-cases (landed q) = inr (q, refl)

module _ (r : Runtime) (around : PassSurroundings) (pass : Pass) where
  apply_result-Reported :
      (index : ℕ) (is_last : Bool) (turns : List RollupTurnInput) (result : RollupResult)
      (p : Progress) (after : RollupTables)
      → Reported p after
          (apply_result r around pass index is_last turns result (record p { tables = after }))
  unfolding apply_result
  apply_result-Reported index is_last turns result p after =
      let merged = merged_content r p.carry (incoming_content r pass result.output turns) in
      let w = batch_write pass is_last turns result merged in
      let out = write r (around.now index) after w p.expected in
      elim (Bool-cases (is_session_kind_eligible after pass.session.id)) [
        | inr h ↦ rw h (refl, refl, inr refl)
        | inl h ↦ elim (Bool-cases (is_ok result.status)) [
          | inr k ↦ rw (h, k) (refl, refl, inr refl)
          | inl k ↦ elim (Bool-cases out.1) [
            | inr l ↦
                rw (h, k, l)
                  (refl, refl, inr (refused_of r (around.now index) after w p.expected l))
            | inl l ↦ rw (h, k, l) refl
          ]
        ]
      ]

  roll_batch-Reported :
      (index : ℕ) (is_last : Bool) (turns : List RollupTurnInput) (p : Progress)
      → Reported p
          (around.meanwhile index p.tables)
          (roll_batch r around pass index is_last turns p)
  unfolding roll_batch
  roll_batch-Reported index is_last turns p =
      let after = around.meanwhile index p.tables in
      elim (Bool-cases (is_session_kind_eligible p.tables pass.session.id)) [
        | inr h ↦ rw h (refl, refl, inl refl)
        | inl h ↦ elim (Bool-cases (watermark_still_matches p.tables pass.session.id p.expected)) [
          | inr k ↦ rw (h, k) (refl, refl, inl refl)
          | inl k ↦ elim (Bool-cases (around.is_current index)) [
            | inr l ↦ rw (h, k, l) (refl, refl, inl refl)
            | inl l ↦ elim (Bool-cases (around.stays_current index)) [
              | inr m ↦ rw (h, k, l, m) (refl, refl, inr refl)
              | inl m ↦
                  rw (h, k, l, m)
                    (apply_result-Reported index is_last turns (ask around index p.carry turns) p
                      after)
            ]
          ]
        ]
      ]

  roll_batches-aborted :
      (index : ℕ) (b : TurnBatch) (bs : List TurnBatch) (p : Progress) (db : RollupTables)
      (o : RollupOutcome)
      → roll_batch r around pass index (is_nil bs) b.turns p ≡ aborted db o
      → roll_batches r around pass index (b ∷ bs) p ≡ (db, o)
  unfolding roll_batches
  roll_batches-aborted index b bs p db o e =
      ap
        (λ x. elim x as (λ _. RollupTables × RollupOutcome) [
          | aborted db o ↦ (db, o)
          | landed q ↦ roll_batches r around pass (suc index) bs q
        ])
        e

  roll_batches-landed :
      (index : ℕ) (b : TurnBatch) (bs : List TurnBatch) (p q : Progress)
      → roll_batch r around pass index (is_nil bs) b.turns p ≡ landed q
      → roll_batches r around pass index (b ∷ bs) p ≡ roll_batches r around pass (suc index) bs q
  unfolding roll_batches
  roll_batches-landed index b bs p q e =
      ap
        (λ x. elim x as (λ _. RollupTables × RollupOutcome) [
          | aborted db o ↦ (db, o)
          | landed q ↦ roll_batches r around pass (suc index) bs q
        ])
        e

  reported :
      (index : ℕ) (is_last : Bool) (turns : List RollupTurnInput) (p : Progress) (o : BatchOutcome)
      → roll_batch r around pass index is_last turns p ≡ o
      → Reported p (around.meanwhile index p.tables) o
  reported index is_last turns p o e =
      subst (Reported p (around.meanwhile index p.tables)) e
        (roll_batch-Reported index is_last turns p)

  -- The rollup of the session after a pass that completed.
  pub record Completed (turns : List RollupTurnInput) (db : RollupTables) : Type 0 where
    pub row : SessionRollupRow
    pub found : get db pass.session.id ≡ some row
    pub watermark : row.rolled_up_through_turn_index ≡ batch_high_water turns
    pub version : row.version ≡ rollup_version
    pub state : row.rollup_state ≡ pass.state

  last_version : batch_version pass true ≡ rollup_version
  unfolding batch_version
  last_version = elim (Option-cases pass.stale_version) [
    | inl h ↦ rw h refl
    | inr (v, h) ↦ rw h refl
  ]

  done : (index : ℕ) (q : Progress) → (roll_batches r around pass index [] q).0 ≡ q.tables
  unfolding roll_batches
  done index q = refl

  last-Completed :
      (index : ℕ) (b : TurnBatch) (p q : Progress)
      → roll_batch r around pass index true b.turns p ≡ landed q
      → Completed b.turns (roll_batches r around pass (suc index) [] q).0
  last-Completed index b p q h =
      let l = roll_batch-BatchLanded r around pass index true b.turns p q h in
      record {
        row = l.row;
        found = ap (λ db. get db pass.session.id) (done (suc index) q) ∙ l.found;
        watermark = l.watermark;
        version = l.version ∙ last_version;
        state = l.state refl;
      }

  -- A batch that does not land makes the pass incomplete.
  incomplete_of :
      (index : ℕ) (b : TurnBatch) (bs : List TurnBatch) (p : Progress) (db : RollupTables)
      (o : RollupOutcome)
      → roll_batch r around pass index (is_nil bs) b.turns p ≡ aborted db o
      → (roll_batches r around pass index (b ∷ bs) p).1.complete ≡ true
      → ⊥
  incomplete_of index b bs p db o h e = differ (
      sym (reported index (is_nil bs) b.turns p (aborted db o) h).0
      ∙ ap (λ x. x.1.complete) (sym (roll_batches-aborted index b bs p db o h))
      ∙ e)

  -- A pass that completes leaves the rollup of the session at the high water of the last batch, in
  -- the state that was asked for and at the current version.
  pub roll_batches-Completed :
      (index : ℕ) (b : TurnBatch) (bs : List TurnBatch) (p : Progress)
      → (roll_batches r around pass index (b ∷ bs) p).1.complete ≡ true
      → Completed (last_turns b bs) (roll_batches r around pass index (b ∷ bs) p).0
  roll_batches-Completed index b [] p e =
      elim (outcome-cases (roll_batch r around pass index true b.turns p)) [
        | inl (db, o, h) ↦ absurd (incomplete_of index b [] p db o h e)
        | inr (q, h) ↦
            subst (λ x. Completed b.turns x.0) (sym (roll_batches-landed index b [] p q h))
              (last-Completed index b p q h)
      ]
  roll_batches-Completed index b (c ∷ cs) p e =
      elim (outcome-cases (roll_batch r around pass index false b.turns p)) [
        | inl (db, o, h) ↦ absurd (incomplete_of index b (c ∷ cs) p db o h e)
        | inr (q, h) ↦
            let same = roll_batches-landed index b (c ∷ cs) p q h in
            subst (λ x. Completed (last_turns c cs) x.0) (sym same)
              (roll_batches-Completed (suc index) c cs q (ap (λ x. x.1.complete) (sym same) ∙ e))
      ]

  -- What was written stays reported.
  wrote_stays :
      (index : ℕ) (bs : List TurnBatch) (p : Progress)
      → p.wrote ≡ true
      → (roll_batches r around pass index bs p).1.wrote ≡ true
  unfolding roll_batches
  wrote_stays index [] p e = e
  wrote_stays index (b ∷ bs) p e =
      elim (outcome-cases (roll_batch r around pass index (is_nil bs) b.turns p)) [
        | inl (db, o, h) ↦
            ap (λ x. x.1.wrote) (roll_batches-aborted index b bs p db o h)
            ∙ (reported index (is_nil bs) b.turns p (aborted db o) h).1
            ∙ e
        | inr (q, h) ↦
            ap (λ x. x.1.wrote) (roll_batches-landed index b bs p q h)
            ∙ wrote_stays (suc index) bs q (reported index (is_nil bs) b.turns p (landed q) h)
      ]

  -- No other writer moves the tables.
  abbrev pub IsAlone : Type 0
  IsAlone = (index : ℕ) (db : RollupTables) → around.meanwhile index db ≡ db

  alone_tables :
      (index : ℕ) (p : Progress) (db : RollupTables)
      → IsAlone
      → (db ≡ p.tables) ⊎ (db ≡ around.meanwhile index p.tables)
      → db ≡ p.tables
  alone_tables index p db alone (inl e) = e
  alone_tables index p db alone (inr e) = e ∙ alone index p.tables

  -- A pass that says that it wrote nothing has left the tables as they were.
  pub roll_batches-unwritten :
      (index : ℕ) (bs : List TurnBatch) (p : Progress)
      → IsAlone
      → (roll_batches r around pass index bs p).1.wrote ≡ false
      → (roll_batches r around pass index bs p).0 ≡ p.tables
  unfolding roll_batches
  roll_batches-unwritten index [] p alone e = refl
  roll_batches-unwritten index (b ∷ bs) p alone e =
      elim (outcome-cases (roll_batch r around pass index (is_nil bs) b.turns p)) [
        | inl (db, o, h) ↦
            ap (λ x. x.0) (roll_batches-aborted index b bs p db o h)
            ∙ alone_tables index p db alone
                (reported index (is_nil bs) b.turns p (aborted db o) h).2
        | inr (q, h) ↦ absurd (
            differ (
              sym e
              ∙ ap (λ x. x.1.wrote) (roll_batches-landed index b bs p q h)
              ∙ wrote_stays (suc index) bs q (reported index (is_nil bs) b.turns p (landed q) h)))
      ]

  -- The stored rollup of the session is of the version.
  abbrev pub IsOfVersion : ℕ → RollupTables → Type 0
  IsOfVersion v db =
      (row : SessionRollupRow) × (get db pass.session.id ≡ some row) × (row.version ≡ v)

  early_version : (v : ℕ) → pass.stale_version ≡ some v → batch_version pass false ≡ v
  unfolding batch_version
  early_version v e = rw e refl

  stale_aborted :
      (index : ℕ) (b : TurnBatch) (bs : List TurnBatch) (p : Progress) (v : ℕ)
      → IsAlone
      → IsOfVersion v p.tables
      → (db : RollupTables) (o : RollupOutcome)
      → roll_batch r around pass index (is_nil bs) b.turns p ≡ aborted db o
      → IsOfVersion v (roll_batches r around pass index (b ∷ bs) p).0
  stale_aborted index b bs p v alone k db o h =
      subst (IsOfVersion v)
        (sym (
          ap (λ x. x.0) (roll_batches-aborted index b bs p db o h)
          ∙ alone_tables index p db alone
              (reported index (is_nil bs) b.turns p (aborted db o) h).2))
        k

  -- While a stale rollup is rebuilt, every pass that is interrupted leaves it stale.
  pub roll_batches-stale :
      (index : ℕ) (bs : List TurnBatch) (p : Progress) (v : ℕ)
      → IsAlone
      → pass.stale_version ≡ some v
      → IsOfVersion v p.tables
      → (roll_batches r around pass index bs p).1.complete ≡ false
      → IsOfVersion v (roll_batches r around pass index bs p).0
  unfolding roll_batches
  roll_batches-stale index [] p v alone s k e = absurd (differ (sym e))
  roll_batches-stale index (b ∷ []) p v alone s k e =
      elim (outcome-cases (roll_batch r around pass index true b.turns p)) [
        | inl (db, o, h) ↦ stale_aborted index b [] p v alone k db o h
        | inr (q, h) ↦
            absurd (differ (sym e ∙ ap (λ x. x.1.complete) (roll_batches-landed index b [] p q h)))
      ]
  roll_batches-stale index (b ∷ c ∷ cs) p v alone s k e =
      elim (outcome-cases (roll_batch r around pass index false b.turns p)) [
        | inl (db, o, h) ↦ stale_aborted index b (c ∷ cs) p v alone k db o h
        | inr (q, h) ↦
            let same = roll_batches-landed index b (c ∷ cs) p q h in
            let l = roll_batch-BatchLanded r around pass index false b.turns p q h in
            subst (λ x. IsOfVersion v x.0) (sym same)
              (roll_batches-stale (suc index) (c ∷ cs) q v alone s
                (l.row, l.found, l.version ∙ early_version v s)
                (ap (λ x. x.1.complete) (sym same) ∙ e))
      ]
