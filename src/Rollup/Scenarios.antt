-- ===== src/Rollup/Scenarios.antt =====
-- Passes over a session of two turns: one that completes, one whose model fails, and the theorems at
-- them.
use elepha.Common.{ℕ, true, false, none, some, List, [], ◌∷◌, ◌≡◌, ◌≢◌, refl, ap, arith}
use elepha.Common.Codes.{codes}
use elepha.Rollup.Prompt.{
  RollupTurnInput, chunk_turns, add_turns, add_turn, flush, push_entry, entry_of, render_turn,
}
use elepha.Rollup.Texts.{join, decimal, decimal_from}
use elepha.Rollup.Rows.{
  final, main, rollup_version, RollupTables, RollupWrite, SessionRollupRow, get,
  is_session_kind_eligible, find_rollup, is_served_kind, is_expected_generation,
  find_stored_session, source_generation,
}
use elepha.Rollup.Store.{write, insert_rollup, update_if_watermark, row_of}
use elepha.Daemon.FailureWindow.Window.{ok, api_error}
use elepha.Rollup.Candidates.{RollupResult}
use elepha.Rollup.Reply.{empty_rollup}
use elepha.Rollup.Pass.{
  PassSurroundings, MemoryRow, SessionRow, Pass, Progress, BatchOutcome, aborted, landed,
  to_rollup_input, watermark_still_matches, batch_write,
}
use elepha.Rollup.Service.{
  nothing_to_do, rollup_session_guarded, current_rollup, watermark_of, fresh_turns, carried,
}
use elepha.Rollup.Batch.{roll_batches, roll_batch, apply_result, ask}
use elepha.Rollup.Examples.{plain}
use elepha.Rollup.Decisions.{primary}
use elepha.Rollup.Watermark.{write_again}
use elepha.Rollup.Progress.{BatchLanded, roll_batch-BatchLanded}
use elepha.Rollup.Sessions.{
  rollup_session_guarded_again, rollup_session_guarded-unwritten, rollup_session_guarded-stale,
}

abbrev replying : RollupResult → PassSurroundings
replying result = record {
  rollup = λ _ _. result;
  merge = λ _ _ _. result;
  meanwhile = λ _ db. db;
  is_current = λ _. true;
  stays_current = λ _. true;
  now = λ _. codes "now";
}

abbrev answer : RollupResult
answer = record {
  output = record empty_rollup { title = codes "t"; summary = codes "s" };
  status = ok;
}

abbrev failure : RollupResult
failure = record { output = empty_rollup; status = api_error }

abbrev the_session : SessionRow
the_session = record { id = 7; project_id = 1; tool = codes "codex" }

abbrev turn : ℕ → MemoryRow
turn i = record {
  turn_index = i;
  turn_started_at = codes "t";
  decisions = [];
  pending_items = [];
  files_touched = codes "f" ∷ [];
}

abbrev two_turns : List MemoryRow
two_turns = turn 0 ∷ turn 1 ∷ []

abbrev no_rollup : RollupTables
no_rollup = record {
  sessions = record { id = 7; kind = some main; generation = none } ∷ [];
  rollups = [];
}

abbrev rolled_once : RollupTables
rolled_once =
    (rollup_session_guarded plain (replying answer) no_rollup the_session primary none final
      two_turns).0

completes :
    rollup_session_guarded plain
      (replying answer)
      no_rollup
      the_session
      primary
      none
      final
      two_turns
    ≡ (rolled_once, record { deferred = false; wrote = true; complete = true })
unfolding rollup_session_guarded roll_batches roll_batch apply_result write is_session_kind_eligible
    is_served_kind find_rollup current_rollup watermark_of fresh_turns to_rollup_input chunk_turns
    add_turns add_turn flush push_entry entry_of render_turn join decimal decimal_from
    watermark_still_matches ask batch_write is_expected_generation find_stored_session
    source_generation insert_rollup row_of carried
completes = refl

eligible_afterwards : is_session_kind_eligible rolled_once 7 ≡ true
unfolding rollup_session_guarded roll_batches roll_batch apply_result write is_session_kind_eligible
    is_served_kind find_rollup current_rollup watermark_of fresh_turns to_rollup_input chunk_turns
    add_turns add_turn flush push_entry entry_of render_turn join decimal decimal_from
    watermark_still_matches ask batch_write is_expected_generation find_stored_session
    source_generation insert_rollup row_of carried
eligible_afterwards = refl

rollup_session_guarded_again_example :
    rollup_session_guarded plain
      (replying failure)
      rolled_once
      the_session
      primary
      none
      final
      two_turns
    ≡ (rolled_once, nothing_to_do)
rollup_session_guarded_again_example =
    rollup_session_guarded_again plain (replying answer) (replying failure) the_session primary none
      final no_rollup rolled_once two_turns ((omega arith, tt), (tt, tt)) completes
      eligible_afterwards

fails_unwritten :
    (rollup_session_guarded plain
      (replying failure)
      no_rollup
      the_session
      primary
      none
      final
      two_turns).1
    ≡ record { deferred = false; wrote = false; complete = false }
unfolding rollup_session_guarded roll_batches roll_batch apply_result write is_session_kind_eligible
    is_served_kind find_rollup current_rollup watermark_of fresh_turns to_rollup_input chunk_turns
    add_turns add_turn flush push_entry entry_of render_turn join decimal decimal_from
    watermark_still_matches ask batch_write is_expected_generation find_stored_session
    source_generation insert_rollup row_of carried
fails_unwritten = refl

rollup_session_guarded-unwritten_example :
    (rollup_session_guarded plain
      (replying failure)
      no_rollup
      the_session
      primary
      none
      final
      two_turns).0
    ≡ no_rollup
rollup_session_guarded-unwritten_example =
    rollup_session_guarded-unwritten plain (replying failure) the_session primary none final
      no_rollup two_turns (λ _ _. refl) (ap (λ o. o.wrote) fails_unwritten)
      (ap (λ o. o.complete) fails_unwritten)

-- A rollup of an older version.
abbrev pub old_row : SessionRollupRow
old_row = record {
  session_id = 7;
  project_id = 1;
  tool = codes "codex";
  title = [];
  summary = [];
  decisions = [];
  instructions = [];
  pending_items = [];
  files_touched = [];
  turn_count = 1;
  started_at = [];
  ended_at = [];
  kind = primary;
  parent_session_id = none;
  summarizer_status = ok;
  rollup_state = final;
  rolled_up_through_turn_index = 0;
  computed_at = [];
  version = 2;
}

abbrev old_rollup : RollupTables
old_rollup = record { sessions = no_rollup.sessions; rollups = old_row ∷ [] }

stays_old : get old_rollup 7 ≡ some old_row
unfolding find_rollup
stays_old = refl

other_version : old_row.version ≢ rollup_version
other_version e = omega (arith, e)

is_interrupted :
    (rollup_session_guarded plain
      (replying failure)
      old_rollup
      the_session
      primary
      none
      final
      two_turns).1.complete
    ≡ false
unfolding rollup_session_guarded roll_batches roll_batch apply_result write is_session_kind_eligible
    is_served_kind find_rollup current_rollup watermark_of fresh_turns to_rollup_input chunk_turns
    add_turns add_turn flush push_entry entry_of render_turn join decimal decimal_from
    watermark_still_matches ask batch_write is_expected_generation find_stored_session
    source_generation insert_rollup row_of carried
is_interrupted = refl

rollup_session_guarded-stale_example :
    (later : SessionRollupRow) × (get
        (rollup_session_guarded plain
          (replying failure)
          old_rollup
          the_session
          primary
          none
          final
          two_turns).0
        7
      ≡ some later)
    × (later.version ≡ 2)
rollup_session_guarded-stale_example =
    rollup_session_guarded-stale plain (replying failure) the_session primary none final old_rollup
      two_turns old_row (λ _ _. refl) stays_old other_version is_interrupted

abbrev next_write : RollupWrite
next_write = record {
  expected_source_generation = none;
  session_id = 7;
  project_id = 1;
  tool = codes "codex";
  title = [];
  summary = [];
  decisions = [];
  instructions = [];
  pending_items = [];
  files_touched = [];
  turn_count = 2;
  started_at = [];
  ended_at = [];
  kind = primary;
  parent_session_id = none;
  summarizer_status = ok;
  state = final;
  through_turn_index = 1;
  version = none;
}

moves : next_write.through_turn_index ≢ 0
moves e = omega (arith, e)

lands : (write plain [] old_rollup next_write (some 0)).1 ≡ true
unfolding write is_session_kind_eligible is_served_kind is_expected_generation update_if_watermark
    row_of
lands = refl

write_again_example :
    write plain [] (write plain [] old_rollup next_write (some 0)).0 next_write (some 0)
    ≡ ((write plain [] old_rollup next_write (some 0)).0, false)
write_again_example = write_again plain [] [] old_rollup next_write 0 moves lands

abbrev the_pass : Pass
the_pass = record {
  session = the_session;
  kind = primary;
  parent_session_id = none;
  state = final;
  source_revision = 0;
  all = two_turns;
  fresh = turn 1 ∷ [];
  stale_version = none;
}

abbrev before_batch : Progress
before_batch = record { tables = old_rollup; expected = some 0; carry = none; wrote = false }

abbrev batch_turns : List RollupTurnInput
batch_turns =
    record {
      turn_index = 1;
      started_at = codes "t";
      decisions = [];
      pending_items = [];
      files_touched = [];
    }
    ∷ []

abbrev progress_of : BatchOutcome → Progress
progress_of (aborted _ _) = before_batch
progress_of (landed q) = q

abbrev after_batch : Progress
after_batch =
    progress_of (roll_batch plain (replying answer) the_pass 0 true batch_turns before_batch)

batch_lands :
    roll_batch plain (replying answer) the_pass 0 true batch_turns before_batch ≡ landed after_batch
unfolding rollup_session_guarded roll_batches roll_batch apply_result write is_session_kind_eligible
    is_served_kind find_rollup current_rollup watermark_of fresh_turns to_rollup_input chunk_turns
    add_turns add_turn flush push_entry entry_of render_turn join decimal decimal_from
    watermark_still_matches ask batch_write is_expected_generation find_stored_session
    source_generation insert_rollup row_of carried update_if_watermark
batch_lands = refl

roll_batch-BatchLanded_example :
    BatchLanded plain the_pass old_rollup
      (some 0)
      before_batch.carry
      true
      batch_turns
      (ask (replying answer) 0 before_batch.carry batch_turns)
      after_batch
roll_batch-BatchLanded_example =
    roll_batch-BatchLanded plain (replying answer) the_pass 0 true batch_turns before_batch
      after_batch batch_lands
