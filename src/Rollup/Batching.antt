-- ===== src/Rollup/Batching.antt =====
-- src/summarizer/rollup-prompt.ts: `chunkTurns` sends every turn, in order, in batches that fit.
use elepha.Common.{
  ℕ, ◌+◌, not, ◌&&◌, List, [], ◌∷◌, ◌++◌, ◌≡◌, inl, inr, refl, sym, ap, ◌∙◌, ltb, Bool-cases,
}
use mathlib.Core.List.{map, append-nil, append_assoc}
use elepha.Rollup.Texts.{is_nil, is_nil→eq}
use elepha.Rollup.Prompt.{
  RollupTurnInput, ShrunkTurn, TurnBatch, Chunking, flush, size, entry_of, push_entry, add_turn,
  add_turns, no_batches, chunk_turns,
}

-- The turns of the batches, one after the other.
abbrev pub turns_of : List TurnBatch → List RollupTurnInput
turns_of [] = []
turns_of (b ∷ bs) = b.turns ++ turns_of bs

turns_of-append : (bs cs : List TurnBatch) → turns_of (bs ++ cs) ≡ turns_of bs ++ turns_of cs
turns_of-append [] cs = refl
turns_of-append (b ∷ bs) cs =
    ap (λ ts. b.turns ++ ts) (turns_of-append bs cs)
    ∙ sym (append_assoc b.turns (turns_of bs) (turns_of cs))

-- Every turn taken so far, in order.
abbrev taken : Chunking → List RollupTurnInput
taken c = turns_of c.batches ++ c.current

abbrev batch_of : Chunking → TurnBatch
batch_of c = record { turns = c.current; omitted = c.current_omitted }

taken-flush : (c : Chunking) → taken (flush c) ≡ taken c
unfolding flush
taken-flush c = elim (Bool-cases (is_nil c.current)) [
  | inl h ↦ rw h refl
  | inr h ↦ rw h (
      append-nil (turns_of (c.batches ++ (batch_of c ∷ [])))
      ∙ turns_of-append c.batches (batch_of c ∷ [])
      ∙ ap (λ l. turns_of c.batches ++ l) (append-nil c.current))
]

taken-push_entry :
    (e : ShrunkTurn) (c : Chunking) → taken (push_entry e c) ≡ taken c ++ (e.turn ∷ [])
unfolding push_entry
taken-push_entry e c = sym (append_assoc (turns_of c.batches) c.current (e.turn ∷ []))

taken-add_turn :
    (m : ℕ) (c : Chunking) (t : RollupTurnInput)
    → taken (add_turn m c t) ≡ taken c ++ ((entry_of m t).turn ∷ [])
unfolding add_turn
taken-add_turn m c t =
    elim (Bool-cases
      (ltb m (c.current_chars + size (entry_of m t).turn) && not (is_nil c.current))) [
        | inl h ↦ rw h (
            taken-push_entry (entry_of m t) (flush c)
            ∙ ap (λ l. l ++ ((entry_of m t).turn ∷ [])) (taken-flush c))
        | inr h ↦ rw h (taken-push_entry (entry_of m t) c)
      ]

taken-add_turns :
    (m : ℕ) (c : Chunking) (ts : List RollupTurnInput)
    → taken (add_turns m c ts) ≡ taken c ++ map (λ t. (entry_of m t).turn) ts
unfolding add_turns
taken-add_turns m c [] = sym (append-nil (taken c))
taken-add_turns m c (t ∷ ts) =
    taken-add_turns m (add_turn m c t) ts
    ∙ ap (λ l. l ++ map (λ u. (entry_of m u).turn) ts) (taken-add_turn m c t)
    ∙ append_assoc (taken c) ((entry_of m t).turn ∷ []) (map (λ u. (entry_of m u).turn) ts)

turns_of-flush : (c : Chunking) → turns_of (flush c).batches ≡ taken c
unfolding flush
turns_of-flush c = elim (Bool-cases (is_nil c.current)) [
  | inl h ↦ rw h (
      sym (append-nil (turns_of c.batches))
      ∙ ap (λ l. turns_of c.batches ++ l) (sym (is_nil→eq c.current h)))
  | inr h ↦ rw h (
      turns_of-append c.batches (batch_of c ∷ [])
      ∙ ap (λ l. turns_of c.batches ++ l) (append-nil c.current))
]

pub turns_of-flush_all :
    (m : ℕ) (ts : List RollupTurnInput)
    → turns_of (flush (add_turns m no_batches ts)).batches ≡ map (λ t. (entry_of m t).turn) ts
turns_of-flush_all m ts =
    turns_of-flush (add_turns m no_batches ts) ∙ taken-add_turns m no_batches ts

-- The batches hold every turn once and in order, each as it is or, if it is too large alone, shrunk.
pub turns_of-chunk_turns :
    (turns : List RollupTurnInput) (max_chars : ℕ)
    → turns_of (chunk_turns turns max_chars) ≡ map (λ t. (entry_of max_chars t).turn) turns
unfolding chunk_turns
turns_of-chunk_turns ts m = elim (Bool-cases (is_nil (flush (add_turns m no_batches ts)).batches)) [
  | inl h ↦ rw h (
      ap turns_of (sym (is_nil→eq (flush (add_turns m no_batches ts)).batches h))
      ∙ turns_of-flush_all m ts)
  | inr h ↦ rw h (turns_of-flush_all m ts)
]
