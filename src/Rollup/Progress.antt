-- ===== src/Rollup/Progress.antt =====
-- src/daemon/rollup-service.ts: what a batch that landed leaves, and what a complete pass leaves.
use elepha.Common.{
  ℕ, Bool, true, Option, none, some, List, [], ◌≡◌, inl, inr, refl, ap, ◌∙◌, if◌then◌else◌,
  Bool-cases, subst, sym, All, ◌++◌, arith,
}
use elepha.Rollup.Prompt.{RollupTurnInput}
use elepha.Rollup.Decisions.{
  Runtime, RollupDecision, RollupContent, union_decisions, merge_rollup_content,
}
use elepha.Rollup.Rows.{live, SessionRollupRow, RollupTables, get, is_session_kind_eligible}
use elepha.Sanitize.Strip.{strip_shell_syntax}
use mathlib.Core.List.{map}
use elepha.Rollup.Attribution.{attribute_decisions, attribute_instructions}
use elepha.Rollup.Files.{IsCovered, carried_files, merged_files-IsCovered}
use elepha.Rollup.Union.{IsUnion, union_decisions-IsUnion}
use elepha.Rollup.Store.{row_of, write, stored_decision, stored_instruction}
use elepha.Rollup.Candidates.{RollupResult, is_ok}
use elepha.Rollup.Watermark.{Landed, write-Landed}
use elepha.Rollup.Pass.{
  PassSurroundings, Pass, Progress, aborted, landed, RollupOutcome, Carry, watermark_still_matches,
  batch_high_water, batch_version, batch_write, merged_content, incoming_content, files_of,
}
use elepha.Rollup.Batch.{incomplete, locked, apply_result, ask, roll_batch}

-- The list is what came in, where nothing is carried, and otherwise its union with what is carried.
abbrev pub IsMerged :
    Runtime
    → Option Carry
    → (Carry → List RollupDecision)
    → List RollupDecision
    → List RollupDecision
    → Type 0
IsMerged r none part incoming merged = merged ≡ incoming
IsMerged r (some carry) part incoming merged = IsUnion r (part carry) incoming merged

-- What a batch that landed leaves: the rollup of the session, with the title and the summary of the
-- reply, what is carried and what the reply attributes to the turns of the batch, the watermark of
-- the turns, and the state and the version that the batch gives; if the pass knew a watermark, the
-- batch found it in place.
pub record BatchLanded (r : Runtime) (pass : Pass) (before : RollupTables) (expected : Option ℕ)
    (carry : Option Carry) (is_last : Bool) (turns : List RollupTurnInput) (result : RollupResult)
    (q : Progress) : Type 0 where
  pub row : SessionRollupRow
  pub found : get q.tables pass.session.id ≡ some row
  pub served : is_ok result.status ≡ true
  pub title : row.title ≡ strip_shell_syntax result.output.title
  pub summary : row.summary ≡ strip_shell_syntax result.output.summary
  pub decisions : List RollupDecision
  pub merged_decisions :
      IsMerged r carry
        (λ c. c.content.decisions)
        (attribute_decisions r result.output.decisions turns)
        decisions
  pub stored_decisions : row.decisions ≡ map stored_decision decisions
  pub instructions : List RollupDecision
  pub merged_instructions :
      IsMerged r carry
        (λ c. c.content.instructions)
        (attribute_instructions r result.output.instructions turns)
        instructions
  pub united_instructions : List RollupDecision
  pub are_united : IsUnion r [] instructions united_instructions
  pub stored_instructions : row.instructions ≡ map stored_instruction united_instructions
  pub files : All (IsCovered r row.files_touched) (carried_files carry ++ files_of pass.fresh turns)
  pub watermark : row.rolled_up_through_turn_index ≡ batch_high_water turns
  pub version : row.version ≡ batch_version pass is_last
  pub state : is_last ≡ true → row.rollup_state ≡ pass.state
  pub stood :
      (e : ℕ)
      → expected ≡ some e
      → (old : SessionRollupRow) × (get before pass.session.id ≡ some old)
        × (old.rolled_up_through_turn_index ≡ e)
  pub advanced : q.expected ≡ some (batch_high_water turns)

-- What is written under a test that failed is not what landed.
landed_injective : (p q : Progress) → landed p ≡ landed q → p ≡ q
landed_injective p q e = ap (λ o. elim o [ aborted _ _ ↦ p | landed x ↦ x ]) e

aborted_landed :
    (db : RollupTables) (o : RollupOutcome) (q : Progress) → aborted db o ≡ landed q → ⊥
aborted_landed db o q e = ground arith

decisions-IsMerged :
    (r : Runtime) (carry : Option Carry) (incoming : RollupContent)
    → IsMerged r carry
        (λ c. c.content.decisions)
        incoming.decisions
        (merged_content r carry incoming).decisions
unfolding merged_content merge_rollup_content
decisions-IsMerged r none incoming = refl
decisions-IsMerged r (some carry) incoming =
    union_decisions-IsUnion r carry.content.decisions incoming.decisions

instructions-IsMerged :
    (r : Runtime) (carry : Option Carry) (incoming : RollupContent)
    → IsMerged r carry
        (λ c. c.content.instructions)
        incoming.instructions
        (merged_content r carry incoming).instructions
unfolding merged_content merge_rollup_content
instructions-IsMerged r none incoming = refl
instructions-IsMerged r (some carry) incoming =
    union_decisions-IsUnion r carry.content.instructions incoming.instructions

module _ (r : Runtime) (around : PassSurroundings) (pass : Pass) where
  batch_landed :
      (index : ℕ) (is_last : Bool) (turns : List RollupTurnInput) (result : RollupResult)
      (db after : RollupTables) (expected : Option ℕ) (carry next : Option Carry) (wrote : Bool)
      → is_ok result.status ≡ true
      → Landed db after
          (row_of r (around.now index) (
            batch_write pass is_last turns result
              (merged_content r carry (incoming_content r pass result.output turns))))
          expected
      → BatchLanded r pass db expected carry is_last turns result (record {
        tables = after;
        expected = some (batch_high_water turns);
        carry = next;
        wrote = wrote;
      })
  unfolding row_of batch_write incoming_content
  batch_landed index is_last turns result db after expected carry next wrote k m =
      let incoming = incoming_content r pass result.output turns in
      let merged = merged_content r carry incoming in
      record {
        row = m.row;
        found = m.found;
        served = k;
        title = m.accounts.title;
        summary = m.accounts.summary;
        decisions = merged.decisions;
        merged_decisions = decisions-IsMerged r carry incoming;
        stored_decisions = m.accounts.decisions;
        instructions = merged.instructions;
        merged_instructions = instructions-IsMerged r carry incoming;
        united_instructions = union_decisions r [] merged.instructions;
        are_united = union_decisions-IsUnion r [] merged.instructions;
        stored_instructions = m.accounts.instructions;
        files =
            subst (λ ps. All (IsCovered r ps) (carried_files carry ++ files_of pass.fresh turns))
              (sym m.accounts.files) (merged_files-IsCovered r pass result.output turns carry);
        watermark = m.accounts.watermark;
        version = m.accounts.version;
        state = λ e. m.accounts.state ∙ ap (λ b. if b then pass.state else live) e;
        stood = m.stood;
        advanced = refl;
      }

  apply_result-BatchLanded :
      (index : ℕ) (is_last : Bool) (turns : List RollupTurnInput) (result : RollupResult)
      (p q : Progress)
      → apply_result r around pass index is_last turns result p ≡ landed q
      → BatchLanded r pass p.tables p.expected p.carry is_last turns result q
  unfolding apply_result
  apply_result-BatchLanded index is_last turns result p q e =
      let merged = merged_content r p.carry (incoming_content r pass result.output turns) in
      let w = batch_write pass is_last turns result merged in
      let out = write r (around.now index) p.tables w p.expected in
      elim (Bool-cases (is_session_kind_eligible p.tables pass.session.id)) [
        | inr h ↦ absurd (aborted_landed p.tables (incomplete p.wrote) q (rw h at e))
        | inl h ↦ elim (Bool-cases (is_ok result.status)) [
          | inr k ↦ absurd (aborted_landed p.tables (incomplete p.wrote) q (rw (h, k) at e))
          | inl k ↦ elim (Bool-cases out.1) [
            | inr l ↦ absurd (aborted_landed out.0 (incomplete p.wrote) q (rw (h, k, l) at e))
            | inl l ↦
                subst (BatchLanded r pass p.tables p.expected p.carry is_last turns result)
                  (landed_injective _ q (rw (h, k, l) at e))
                  (batch_landed index is_last turns result p.tables out.0 p.expected p.carry _ true
                    k (write-Landed r (around.now index) p.tables w p.expected l))
          ]
        ]
      ]

  -- A batch that landed had a usable reply and leaves a rollup of its session. The rollup has the
  -- title and the summary of the reply, put through the removal of shell syntax, and the escaped
  -- decisions and instructions: those carried united with those of the reply, or those of the reply
  -- alone if nothing is carried; the instructions are united once more on their own. Every file that is
  -- carried or that the new row of a turn of the batch names is among its files, as paths are compared.
  -- Its watermark is the highest index of the turns, and its version the one of the batch; a last batch
  -- gives it the state of the pass. If the pass knew a watermark, the batch found it in place after the
  -- model had answered.
  pub roll_batch-BatchLanded :
      (index : ℕ) (is_last : Bool) (turns : List RollupTurnInput) (p q : Progress)
      → roll_batch r around pass index is_last turns p ≡ landed q
      → BatchLanded r pass
          (around.meanwhile index p.tables)
          p.expected
          p.carry
          is_last
          turns
          (ask around index p.carry turns)
          q
  unfolding roll_batch
  roll_batch-BatchLanded index is_last turns p q e =
      let after = around.meanwhile index p.tables in
      elim (Bool-cases (is_session_kind_eligible p.tables pass.session.id)) [
        | inr h ↦ absurd (aborted_landed p.tables (incomplete p.wrote) q (rw h at e))
        | inl h ↦ elim (Bool-cases (watermark_still_matches p.tables pass.session.id p.expected)) [
          | inr k ↦ absurd (aborted_landed p.tables (incomplete p.wrote) q (rw (h, k) at e))
          | inl k ↦ elim (Bool-cases (around.is_current index)) [
            | inr l ↦ absurd (aborted_landed p.tables (locked p.wrote) q (rw (h, k, l) at e))
            | inl l ↦ elim (Bool-cases (around.stays_current index)) [
              | inr m ↦ absurd (aborted_landed after (locked p.wrote) q (rw (h, k, l, m) at e))
              | inl m ↦
                  apply_result-BatchLanded index is_last turns (ask around index p.carry turns)
                    (record p { tables = after }) q (rw (h, k, l, m) at e)
            ]
          ]
        ]
      ]
