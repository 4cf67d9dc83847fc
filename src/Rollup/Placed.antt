-- ===== src/Rollup/Placed.antt =====
-- src/summarizer/rollup-provider.ts: every decision of a batch is placed at a turn of the batch.
use elepha.Common.{
  ℕ, ◌&&◌, Option, none, some, List, [], ◌∷◌, ◌≡◌, ◌≢◌, ◌⊎◌, inl, inr, refl, sym, ap, ◌∙◌, ◌==◌,
  ==_iff, Bool-cases, Option-cases, All, subst, arith,
}
use elepha.Common.Codes.{codes}
use elepha.Sanitize.Units.{Text}
use elepha.Rollup.Texts.{ℤ, pos, negsuc, join}
use elepha.Rollup.Prompt.{RollupTurnInput}
use elepha.Rollup.Decisions.{Runtime, RollupDecision}
use elepha.Rollup.Reply.{ParsedDecision}
use elepha.Rollup.Keyed.{Some}
use elepha.Rollup.Updates.{none-some, some_injective}
use elepha.Rollup.Attribution.{
  Best, Score, best_turn, turn_at, claimed_turn, last_turn, resolved_turn, attribute_decisions,
  reaches_threshold, improves, attributed, token_overlap, tokens,
}

-- The turn is one of the list.
abbrev pub IsOf : List RollupTurnInput → RollupTurnInput → Type 0
IsOf ts t = Some (λ u. u ≡ t) ts

turn_at-IsOf :
    (i : ℕ) (ts : List RollupTurnInput) (t : RollupTurnInput)
    → turn_at i ts ≡ some t
    → IsOf ts t × (t.turn_index ≡ i)
unfolding turn_at
turn_at-IsOf i [] t e = absurd (none-some t e)
turn_at-IsOf i (u ∷ ts) t e = elim (Option-cases (turn_at i ts)) [
  | inl h ↦ elim (Bool-cases (u.turn_index == i)) [
    | inl k ↦
        let same = some_injective u t (rw (h, k) at e) in
        (inl same, ap (λ x. x.turn_index) (sym same) ∙ (==_iff u.turn_index i).0 k)
    | inr k ↦ absurd (none-some t (rw (h, k) at e))
  ]
  | inr (v, h) ↦
      let same = some_injective v t (rw h at e) in
      let (p, q) = turn_at-IsOf i ts v h in
      subst (λ x. IsOf (u ∷ ts) x × (x.turn_index ≡ i)) same (inr p, q)
]

last_turn-IsOf : (t : RollupTurnInput) (ts : List RollupTurnInput) → IsOf (t ∷ ts) (last_turn t ts)
unfolding last_turn
last_turn-IsOf t [] = inl refl
last_turn-IsOf t (u ∷ us) = inr (last_turn-IsOf u us)

best-IsOf :
    (t : RollupTurnInput) (score : Score) (ts : List RollupTurnInput) (b : Best)
    → (some (record { turn = t; score = score }) ≡ some b) ⊎ IsOf ts b.turn
    → IsOf (t ∷ ts) b.turn
best-IsOf t score ts b (inl e) =
    inl (ap (λ x. x.turn) (some_injective (record { turn = t; score = score }) b e))
best-IsOf t score ts b (inr k) = inr k

later-IsOf :
    (t : RollupTurnInput) (best : Option Best) (ts : List RollupTurnInput) (b : Best)
    → (best ≡ some b) ⊎ IsOf ts b.turn
    → (best ≡ some b) ⊎ IsOf (t ∷ ts) b.turn
later-IsOf t best ts b (inl e) = inl e
later-IsOf t best ts b (inr k) = inr (inr k)

-- The best turn was the best one before, or is one of the turns that were looked at.
best_turn-IsOf :
    (r : Runtime) (words : List Text) (best : Option Best) (ts : List RollupTurnInput) (b : Best)
    → best_turn r words best ts ≡ some b
    → (best ≡ some b) ⊎ IsOf ts b.turn
unfolding best_turn
best_turn-IsOf r words best [] b e = inl e
best_turn-IsOf r words best (t ∷ ts) b e =
    let score = token_overlap words (tokens r (join (codes " ") t.decisions)) in
    elim (Bool-cases (reaches_threshold score && improves score best)) [
      | inl h ↦ inr (
          best-IsOf t score ts b
            (best_turn-IsOf r words (some (record { turn = t; score = score })) ts b (rw h at e)))
      | inr h ↦ later-IsOf t best ts b (best_turn-IsOf r words best ts b (rw h at e))
    ]

claimed_turn-IsOf :
    (i : Option ℤ) (ts : List RollupTurnInput) (t : RollupTurnInput)
    → claimed_turn i ts ≡ some t
    → IsOf ts t
unfolding claimed_turn
claimed_turn-IsOf none ts t e = absurd (none-some t e)
claimed_turn-IsOf (some (negsuc n)) ts t e = absurd (none-some t e)
claimed_turn-IsOf (some (pos i)) ts t e = (turn_at-IsOf i ts t e).0

chosen-IsOf :
    (ts : List RollupTurnInput) (claimed : Option RollupTurnInput) (best : Option Best)
    (last : RollupTurnInput)
    → ((u : RollupTurnInput) → claimed ≡ some u → IsOf ts u)
    → ((b : Best) → best ≡ some b → IsOf ts b.turn)
    → IsOf ts last
    → IsOf ts (elim claimed as (λ _. RollupTurnInput) [
      | some u ↦ u
      | none ↦ elim best as (λ _. RollupTurnInput) [ some b ↦ b.turn | none ↦ last ]
    ])
chosen-IsOf ts (some u) best last f g h = f u refl
chosen-IsOf ts none (some b) last f g h = g b refl
chosen-IsOf ts none none last f g h = h

first_best_turn-IsOf :
    (r : Runtime) (words : List Text) (ts : List RollupTurnInput) (b : Best)
    → best_turn r words none ts ≡ some b
    → IsOf ts b.turn
first_best_turn-IsOf r words ts b e = elim (best_turn-IsOf r words none ts b e) [
  | inl n ↦ absurd (none-some b n)
  | inr k ↦ k
]

resolved_turn-IsOf :
    (r : Runtime) (d : ParsedDecision) (t : RollupTurnInput) (ts : List RollupTurnInput)
    → IsOf (t ∷ ts) (resolved_turn r d t ts)
unfolding resolved_turn
resolved_turn-IsOf r d t ts =
    chosen-IsOf (t ∷ ts) (claimed_turn d.turn_index (t ∷ ts))
      (best_turn r (tokens r d.what) none (t ∷ ts)) (last_turn t ts)
      (claimed_turn-IsOf d.turn_index (t ∷ ts)) (first_best_turn-IsOf r (tokens r d.what) (t ∷ ts))
      (last_turn-IsOf t ts)

-- The decision is placed at the turn.
abbrev pub IsPlacedAt : RollupDecision → RollupTurnInput → Type 0
IsPlacedAt d t = (d.turn_index ≡ some t.turn_index) × (d.at_time ≡ some t.started_at)

placed :
    (d : ParsedDecision) (t : RollupTurnInput) (ts : List RollupTurnInput)
    → IsOf ts t
    → Some (IsPlacedAt (attributed d t)) ts
placed d t [] k = absurd k
placed d t (u ∷ ts) (inl e) =
    inl (ap (λ x. some x.turn_index) (sym e), ap (λ x. some x.started_at) (sym e))
placed d t (u ∷ ts) (inr k) = inr (placed d t ts k)

-- The two lists have the same length, and the relation holds between the items at each place.
abbrev pub Each : {A B : Type 0} → (A → B → Type 0) → List A → List B → Type 0
Each R [] [] = Unit
Each R [] (y ∷ ys) = ⊥
Each R (x ∷ xs) [] = ⊥
Each R (x ∷ xs) (y ∷ ys) = R x y × Each R xs ys

turn_at-none :
    (i : ℕ) (ts : List RollupTurnInput) → turn_at i ts ≡ none → All (λ u. u.turn_index ≢ i) ts
unfolding turn_at
turn_at-none i [] e = tt
turn_at-none i (u ∷ ts) e = elim (Option-cases (turn_at i ts)) [
  | inl h ↦ elim (Bool-cases (u.turn_index == i)) [
    | inl k ↦ absurd (none-some u (sym (rw (h, k) at e)))
    | inr k ↦ ((λ same. ground (arith, (==_iff u.turn_index i).1 same, k)), turn_at-none i ts h)
  ]
  | inr (v, h) ↦ absurd (none-some v (sym (rw h at e)))
]

pos_injective : (m n : ℕ) → pos m ≡ pos n → m ≡ n
pos_injective m n e = ap (λ z. elim z [ pos k ↦ k | negsuc k ↦ k ]) e

-- The decision claims the index of no turn of the batch.
abbrev pub ClaimsNone : List RollupTurnInput → ParsedDecision → Type 0
ClaimsNone ts d = All (λ u. d.turn_index ≢ some (pos u.turn_index)) ts

-- The index that the decision claims, if it is that of a turn of the batch, is the one that is stored.
abbrev pub HonoursClaim : List RollupTurnInput → ParsedDecision → RollupDecision → Type 0
HonoursClaim ts d a =
    ((i : ℕ) × (d.turn_index ≡ some (pos i)) × (a.turn_index ≡ some i)) ⊎ ClaimsNone ts d

-- What the claim of an index that is no turn's says of every turn.
unclaimed :
    (o : Option ℤ) (ts : List RollupTurnInput)
    → ((i : ℕ) → o ≡ some (pos i) → All (λ u. u.turn_index ≢ i) ts)
    → All (λ u. o ≢ some (pos u.turn_index)) ts
unclaimed o [] f = tt
unclaimed o (u ∷ ts) f = ((λ e. (f u.turn_index e).0 refl), unclaimed o ts (λ i e. (f i e).1))

claimed_turn-cases :
    (o : Option ℤ) (ts : List RollupTurnInput)
    → ((t : RollupTurnInput) × (claimed_turn o ts ≡ some t) × (o ≡ some (pos t.turn_index)))
      ⊎ All (λ u. o ≢ some (pos u.turn_index)) ts
unfolding claimed_turn
claimed_turn-cases none ts = inr (unclaimed none ts (λ i e. absurd (none-some (pos i) e)))
claimed_turn-cases (some (negsuc n)) ts =
    inr (unclaimed (some (negsuc n)) ts (λ i e. ground (arith, e)))
claimed_turn-cases (some (pos i)) ts = elim (Option-cases (turn_at i ts)) [
  | inl h ↦ inr (
      unclaimed (some (pos i)) ts (λ j e.
        subst (λ k. All (λ u. u.turn_index ≢ k) ts)
          (pos_injective i j (some_injective (pos i) (pos j) e)) (turn_at-none i ts h)))
  | inr (t, h) ↦ inl (t, h, ap (λ k. some (pos k)) (sym (turn_at-IsOf i ts t h).1))
]

claimed_first :
    (claimed : Option RollupTurnInput) (best : Option Best) (last u : RollupTurnInput)
    → claimed ≡ some u
    → (elim claimed as (λ _. RollupTurnInput) [
      | some t ↦ t
      | none ↦ elim best as (λ _. RollupTurnInput) [ some b ↦ b.turn | none ↦ last ]
    ])
      ≡ u
claimed_first (some t) best last u e = some_injective t u e
claimed_first none best last u e = absurd (none-some u e)

resolved_turn_claimed :
    (r : Runtime) (d : ParsedDecision) (t : RollupTurnInput) (ts : List RollupTurnInput)
    (u : RollupTurnInput)
    → claimed_turn d.turn_index (t ∷ ts) ≡ some u
    → resolved_turn r d t ts ≡ u
unfolding resolved_turn
resolved_turn_claimed r d t ts u h =
    claimed_first (claimed_turn d.turn_index (t ∷ ts)) (best_turn r (tokens r d.what) none (t ∷ ts))
      (last_turn t ts) u h

resolved_turn-HonoursClaim :
    (r : Runtime) (d : ParsedDecision) (t : RollupTurnInput) (ts : List RollupTurnInput)
    → HonoursClaim (t ∷ ts) d (attributed d (resolved_turn r d t ts))
resolved_turn-HonoursClaim r d t ts = elim (claimed_turn-cases d.turn_index (t ∷ ts)) [
  | inl (u, h, e) ↦
      inl (u.turn_index, e, ap (λ x. some x.turn_index) (resolved_turn_claimed r d t ts u h))
  | inr k ↦ inr k
]

-- What becomes of a decision of the reply in a batch.
abbrev pub IsAttributed : List RollupTurnInput → ParsedDecision → RollupDecision → Type 0
IsAttributed ts d a =
    (a.what ≡ d.what) × (a.why ≡ some d.why) × Some (IsPlacedAt a) ts × HonoursClaim ts d a

-- The attributed decisions are as many as those of the reply and in the same order, and each keeps its
-- text and its reason, and is placed at a turn of the batch, with the index and the start of that
-- turn. If the reply claims the index of a turn of the batch for a decision, it gets the index
-- claimed. The batch is not empty.
pub attribute_decisions_placed :
    (r : Runtime) (ds : List ParsedDecision) (t : RollupTurnInput) (ts : List RollupTurnInput)
    → Each (IsAttributed (t ∷ ts)) ds (attribute_decisions r ds (t ∷ ts))
unfolding attribute_decisions
attribute_decisions_placed r [] t ts = tt
attribute_decisions_placed r (d ∷ ds) t ts = (
  (
    refl,
    refl,
    placed d (resolved_turn r d t ts) (t ∷ ts) (resolved_turn-IsOf r d t ts),
    resolved_turn-HonoursClaim r d t ts,
  ),
  attribute_decisions_placed r ds t ts,
)
