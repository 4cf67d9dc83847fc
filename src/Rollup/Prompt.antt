-- ===== src/Rollup/Prompt.antt =====
-- src/summarizer/rollup-prompt.ts: a turn in the prompt, and the batches of turns.
use elepha.Common.{
  ℕ, zero, suc, ◌+◌, not, ◌&&◌, List, [], ◌∷◌, ◌++◌, leb, ltb, if◌then◌else◌, length, keep,
}
use mathlib.Core.List.{map}
use elepha.Common.Codes.{codes}
use elepha.Sanitize.Units.{Text}
use elepha.Rollup.Texts.{join, is_nil, decimal}

-- `MAX_ROLLUP_BATCH_CHARS`.
abbrev pub max_rollup_batch_chars : ℕ
max_rollup_batch_chars = 8000

unfoldable pub omitted_marker : ℕ → Text → Text
omitted_marker n what =
    codes "[" ++ decimal n ++ codes " earlier " ++ what ++ codes " omitted - batch budget]"

pub record RollupTurnInput : Type 0 where
  pub turn_index : ℕ
  pub started_at : Text
  pub decisions : List Text
  pub pending_items : List Text
  pub files_touched : List Text

-- A list that is not empty under its label, and nothing for an empty one.
abbrev pub labelled : Text → Text → List Text → Text
labelled label separator [] = []
labelled label separator (t ∷ ts) = label ++ join separator (t ∷ ts)

unfoldable pub render_turn : RollupTurnInput → Text
render_turn t = join (codes "\n") (
    keep (λ line. not (is_nil line))
      ((codes "<turn index=\""
          ++ decimal t.turn_index
          ++ codes "\" at=\""
          ++ t.started_at
          ++ codes "\">")
        ∷ labelled (codes "decisions: ") (codes " | ") t.decisions
        ∷ labelled (codes "pending: ") (codes " | ") t.pending_items
        ∷ labelled (codes "files: ") (codes ", ") t.files_touched
        ∷ codes "</turn>"
        ∷ []))

unfoldable pub render_turns : List RollupTurnInput → Text
render_turns turns = join (codes "\n") (map render_turn turns)

-- `slice(1)`.
abbrev pub rest_of {ℓ} : {A : Type ℓ} → List A → List A
rest_of [] = []
rest_of (_ ∷ xs) = xs

-- The decisions and the pending items of a turn.
abbrev pub items : RollupTurnInput → ℕ
items t = length t.decisions + length t.pending_items

-- One round of the loop: the oldest item of the longer list goes.
unfoldable pub drop_oldest : RollupTurnInput → RollupTurnInput
drop_oldest t =
    if leb (length t.decisions) (length t.pending_items) && ltb 0 (length t.pending_items)
    then record t { pending_items = rest_of t.pending_items }
    else record t { decisions = rest_of t.decisions }

-- The turn that is left, and how many items were dropped.
pub record ShrunkTurn : Type 0 where
  pub turn : RollupTurnInput
  pub omitted : ℕ

-- The loop, on fuel.
unfoldable pub shrink_loop : ℕ → ℕ → ShrunkTurn → ShrunkTurn
shrink_loop zero max_chars s = s
shrink_loop (suc fuel) max_chars s =
    let rest =
      shrink_loop fuel max_chars (record { turn = drop_oldest s.turn; omitted = suc s.omitted }) in
    if ltb max_chars (length (render_turn s.turn)) && ltb 1 (items s.turn) then rest else s

-- A marker in front of the decisions says how many items are gone.
unfoldable pub mark_omitted : ShrunkTurn → ShrunkTurn
mark_omitted s =
    if ltb 0 s.omitted
    then record s {
      turn = record s.turn {
        decisions = omitted_marker s.omitted (codes "items in this turn") ∷ s.turn.decisions;
      };
    }
    else s

unfoldable pub shrink_oversized_turn : RollupTurnInput → ℕ → ShrunkTurn
shrink_oversized_turn turn max_chars =
    let candidate = record turn { files_touched = [] } in
    if leb (length (render_turn candidate)) max_chars
    then record { turn = candidate; omitted = 0 }
    else mark_omitted
        (shrink_loop (items candidate) max_chars (record { turn = candidate; omitted = 0 }))

pub record TurnBatch : Type 0 where
  pub turns : List RollupTurnInput
  pub omitted : ℕ

-- The variables of `chunkTurns`.
pub record Chunking : Type 0 where
  pub batches : List TurnBatch
  pub current : List RollupTurnInput
  pub current_chars : ℕ
  pub current_omitted : ℕ

unfoldable pub flush : Chunking → Chunking
flush c = if is_nil c.current then c else record {
  batches = c.batches ++ (record { turns = c.current; omitted = c.current_omitted } ∷ []);
  current = [];
  current_chars = 0;
  current_omitted = 0;
}

abbrev pub size : RollupTurnInput → ℕ
size t = length (render_turn t) + 1

-- The turn as it goes into a batch.
unfoldable pub entry_of : ℕ → RollupTurnInput → ShrunkTurn
entry_of max_chars turn =
    if ltb max_chars (size turn)
    then shrink_oversized_turn turn max_chars
    else record { turn = turn; omitted = 0 }

unfoldable pub push_entry : ShrunkTurn → Chunking → Chunking
push_entry entry c = record {
  batches = c.batches;
  current = c.current ++ (entry.turn ∷ []);
  current_chars = c.current_chars + size entry.turn;
  current_omitted = c.current_omitted + entry.omitted;
}

-- One round of the loop over the turns.
unfoldable pub add_turn : ℕ → Chunking → RollupTurnInput → Chunking
add_turn max_chars c turn =
    let entry = entry_of max_chars turn in
    if ltb max_chars (c.current_chars + size entry.turn) && not (is_nil c.current)
    then push_entry entry (flush c)
    else push_entry entry c

unfoldable pub add_turns : ℕ → Chunking → List RollupTurnInput → Chunking
add_turns max_chars c [] = c
add_turns max_chars c (t ∷ ts) = add_turns max_chars (add_turn max_chars c t) ts

abbrev pub no_batches : Chunking
no_batches = record { batches = []; current = []; current_chars = 0; current_omitted = 0 }

unfoldable pub chunk_turns : List RollupTurnInput → ℕ → List TurnBatch
chunk_turns turns max_chars =
    let batches = (flush (add_turns max_chars no_batches turns)).batches in
    if is_nil batches then record { turns = []; omitted = 0 } ∷ [] else batches

unfoldable pub build_rollup_user_content : List RollupTurnInput → Text
build_rollup_user_content turns = render_turns turns
