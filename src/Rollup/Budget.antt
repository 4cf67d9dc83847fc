-- ===== src/Rollup/Budget.antt =====
-- src/summarizer/rollup-prompt.ts: the size of the batches of `chunkTurns`.
use elepha.Common.{
  ℕ, ◌+◌, ◌≤◌, ◌<◌, true, false, not, ◌&&◌, List, [], ◌∷◌, ◌++◌, ◌≡◌, ◌≢◌, ◌⊎◌, inl, inr, refl, sym,
  ap, ◌∙◌, ltb, length, length-append, Bool-cases, All, arith,
}
use mathlib.Core.List.{map}
use elepha.Common.Codes.{codes}
use elepha.Rollup.Texts.{join, is_nil, is_nil→zero, is_nil→eq, is_nil-length}
use elepha.Rollup.Prompt.{
  RollupTurnInput, render_turn, render_turns, ShrunkTurn, TurnBatch, Chunking, flush, size,
  entry_of, push_entry, add_turn, add_turns, no_batches, chunk_turns,
}
use elepha.Rollup.Keyed.{All-append}
use elepha.Rollup.Batching.{turns_of, turns_of-flush_all}

total_size : List RollupTurnInput → ℕ
total_size [] = 0
total_size (t ∷ ts) = size t + total_size ts

total_size-append :
    (ts : List RollupTurnInput) (t : RollupTurnInput)
    → total_size (ts ++ (t ∷ [])) ≡ total_size ts + size t
unfolding total_size
total_size-append [] t = omega arith
total_size-append (u ∷ ts) t = omega (arith, total_size-append ts t)

length-render_turns_one :
    (t : RollupTurnInput) → length (render_turns (t ∷ [])) ≡ length (render_turn t)
unfolding render_turns join
length-render_turns_one t = refl

length-render_turns_more :
    (t u : RollupTurnInput) (ts : List RollupTurnInput)
    → length (render_turns (t ∷ u ∷ ts))
      ≡ length (render_turn t) + (1 + length (render_turns (u ∷ ts)))
unfolding render_turns join
length-render_turns_more t u ts = omega (
  arith,
  length-append (render_turn t ++ codes "\n") (join (codes "\n") (map render_turn (u ∷ ts))),
  length-append (render_turn t) (codes "\n"),
)

length-render_turns :
    (t : RollupTurnInput) (ts : List RollupTurnInput)
    → length (render_turns (t ∷ ts)) + 1 ≡ total_size (t ∷ ts)
unfolding total_size
length-render_turns t [] = omega (arith, length-render_turns_one t)
length-render_turns t (u ∷ ts) =
    omega (arith, length-render_turns_more t u ts, length-render_turns u ts)

-- A list of turns that one batch takes.
abbrev Allowed : ℕ → List RollupTurnInput → Type 0
Allowed m ts = (length ts ≤ 1) ⊎ (total_size ts ≤ m)

-- The batches made so far are allowed and not empty, and so are the turns that wait.
record Bounded (m : ℕ) (c : Chunking) : Type 0 where
  sent : All (λ b. (1 ≤ length b.turns) × Allowed m b.turns) c.batches
  waiting : Allowed m c.current
  measured : c.current_chars ≡ total_size c.current

flush-Bounded :
    (m : ℕ) (c : Chunking) → Bounded m c → Bounded m (flush c) × (length (flush c).current ≡ 0)
unfolding flush total_size
flush-Bounded m c b = elim (Bool-cases (is_nil c.current)) [
  | inl h ↦ rw h (b, is_nil→zero c.current h)
  | inr h ↦ rw h (
    record {
      sent =
          All-append (λ t. (1 ≤ length t.turns) × Allowed m t.turns) c.batches (_ ∷ []) b.sent
            ((is_nil-length c.current h, b.waiting), tt);
      waiting = inl (omega arith);
      measured = refl;
    },
    refl,
  )
]

push_entry-Bounded :
    (m : ℕ) (e : ShrunkTurn) (c : Chunking)
    → Bounded m c
    → (length c.current ≡ 0) ⊎ (c.current_chars + size e.turn ≤ m)
    → Bounded m (push_entry e c)
unfolding push_entry
push_entry-Bounded m e c b h = record {
  sent = b.sent;
  waiting = elim h [
    | inl z ↦ inl (omega (arith, z, length-append c.current (e.turn ∷ [])))
    | inr l ↦ inr (omega (arith, l, b.measured, total_size-append c.current e.turn))
  ];
  measured = omega (arith, b.measured, total_size-append c.current e.turn);
}

within : (m n : ℕ) → ltb m n && true ≡ false → n ≤ m
within m n h = ground arith

room :
    (m n : ℕ) (ts : List RollupTurnInput)
    → ltb m n && not (is_nil ts) ≡ false
    → (length ts ≡ 0) ⊎ (n ≤ m)
room m n [] h = inl refl
room m n (t ∷ ts) h = inr (within m n h)

add_turn-Bounded :
    (m : ℕ) (c : Chunking) (t : RollupTurnInput) → Bounded m c → Bounded m (add_turn m c t)
unfolding add_turn
add_turn-Bounded m c t b =
    elim (Bool-cases
      (ltb m (c.current_chars + size (entry_of m t).turn) && not (is_nil c.current))) [
        | inl h ↦ rw h (
            push_entry-Bounded m (entry_of m t) (flush c) (flush-Bounded m c b).0
              (inl (flush-Bounded m c b).1))
        | inr h ↦ rw h (
            push_entry-Bounded m (entry_of m t) c b
              (room m (c.current_chars + size (entry_of m t).turn) c.current h))
      ]

add_turns-Bounded :
    (m : ℕ) (c : Chunking) (ts : List RollupTurnInput) → Bounded m c → Bounded m (add_turns m c ts)
unfolding add_turns
add_turns-Bounded m c [] b = b
add_turns-Bounded m c (t ∷ ts) b =
    add_turns-Bounded m (add_turn m c t) ts (add_turn-Bounded m c t b)

no_batches-Bounded : (m : ℕ) → Bounded m no_batches
unfolding total_size
no_batches-Bounded m = record { sent = tt; waiting = inl (omega arith); measured = refl }

-- A batch is sent as it is, but a turn that is alone in its batch may be longer.
abbrev pub Fits : ℕ → TurnBatch → Type 0
Fits m b = (length b.turns ≡ 1) ⊎ (length (render_turns b.turns) < m)

Allowed→Fits :
    (m : ℕ) (b : TurnBatch) (ts : List RollupTurnInput)
    → b.turns ≡ ts
    → 1 ≤ length ts
    → Allowed m ts
    → Fits m b
Allowed→Fits m b [] e l a = absurd (omega (arith, l))
Allowed→Fits m b (t ∷ ts) e l a = rw e (elim a [
  | inl k ↦ inl (omega (arith, k))
  | inr k ↦ inr (omega (arith, k, length-render_turns t ts))
])

sent-Fits :
    (m : ℕ) (bs : List TurnBatch)
    → All (λ b. (1 ≤ length b.turns) × Allowed m b.turns) bs
    → All (λ b. (1 ≤ length b.turns) × Fits m b) bs
sent-Fits m [] h = tt
sent-Fits m (b ∷ bs) h = ((h.0.0, Allowed→Fits m b b.turns refl h.0.0 h.0.1), sent-Fits m bs h.1)

map_nil :
    (f : RollupTurnInput → RollupTurnInput) (ts : List RollupTurnInput) → map f ts ≡ [] → ts ≡ []
map_nil f [] e = refl
map_nil f (t ∷ ts) e = absurd (omega (arith, ap length e))

-- Where there is a turn, no batch is empty, and the text of a batch of several turns is shorter than
-- the budget.
pub chunk_turns-Fits :
    (turns : List RollupTurnInput) (max_chars : ℕ)
    → turns ≢ []
    → All (λ b. (1 ≤ length b.turns) × Fits max_chars b) (chunk_turns turns max_chars)
unfolding chunk_turns
chunk_turns-Fits ts m n = elim (Bool-cases (is_nil (flush (add_turns m no_batches ts)).batches)) [
  | inl h ↦ absurd (
      n (
        map_nil (λ t. (entry_of m t).turn) ts
          (sym (turns_of-flush_all m ts)
            ∙ ap turns_of (is_nil→eq (flush (add_turns m no_batches ts)).batches h))))
  | inr h ↦ rw h (
      sent-Fits m (flush (add_turns m no_batches ts)).batches (
        (flush-Bounded m (add_turns m no_batches ts)
          (add_turns-Bounded m no_batches ts (no_batches-Bounded m))).0.sent))
]
