-- ===== src/Rollup/Dropping.antt =====
-- src/summarizer/rollup-prompt.ts: what the rounds of the loop of `shrinkOversizedTurn` take from a turn.
use elepha.Common.{
  ℕ, suc, ◌+◌, ◌<◌, true, false, ◌&&◌, List, [], ◌∷◌, ◌++◌, ◌≡◌, ◌⊎◌, inl, inr, refl, sym, ap, ◌∙◌,
  leb, ltb, length, length-append, Bool-cases, subst, arith,
}
use mathlib.Core.List.{append_assoc}
use elepha.Sanitize.Units.{Text}
use elepha.Rollup.Prompt.{RollupTurnInput, rest_of, items, drop_oldest, ShrunkTurn}

-- What went from the front of the two lists, with everything else of the turn as it was.
pub record Dropped (before after : ShrunkTurn) : Type 0 where
  pub decisions : List Text
  pub pending_items : List Text
  pub decisions_split : decisions ++ after.turn.decisions ≡ before.turn.decisions
  pub pending_split : pending_items ++ after.turn.pending_items ≡ before.turn.pending_items
  pub counted : after.omitted ≡ before.omitted + (length decisions + length pending_items)
  pub same_index : after.turn.turn_index ≡ before.turn.turn_index
  pub same_start : after.turn.started_at ≡ before.turn.started_at
  pub same_files : after.turn.files_touched ≡ before.turn.files_touched

pub nothing-Dropped : (s : ShrunkTurn) → Dropped s s
nothing-Dropped s = record {
  decisions = [];
  pending_items = [];
  decisions_split = refl;
  pending_split = refl;
  counted = omega arith;
  same_index = refl;
  same_start = refl;
  same_files = refl;
}

pub more-Dropped : (s t u : ShrunkTurn) → Dropped s t → Dropped t u → Dropped s u
more-Dropped s t u p q = record {
  decisions = p.decisions ++ q.decisions;
  pending_items = p.pending_items ++ q.pending_items;
  decisions_split =
      append_assoc p.decisions q.decisions u.turn.decisions
      ∙ ap (λ l. p.decisions ++ l) q.decisions_split
      ∙ p.decisions_split;
  pending_split =
      append_assoc p.pending_items q.pending_items u.turn.pending_items
      ∙ ap (λ l. p.pending_items ++ l) q.pending_split
      ∙ p.pending_split;
  counted = omega (
    arith,
    p.counted,
    q.counted,
    length-append p.decisions q.decisions,
    length-append p.pending_items q.pending_items,
  );
  same_index = q.same_index ∙ p.same_index;
  same_start = q.same_start ∙ p.same_start;
  same_files = q.same_files ∙ p.same_files;
}

rest_of-split :
    (xs : List Text) → 0 < length xs → (d : List Text) × (d ++ rest_of xs ≡ xs) × (length d ≡ 1)
rest_of-split [] l = absurd (omega (arith, l))
rest_of-split (x ∷ xs) l = (x ∷ [], refl, refl)

pending-taken : (d p : ℕ) → leb d p && ltb 0 p ≡ true → 0 < p
pending-taken d p h = ground arith

decisions-taken : (d p : ℕ) → leb d p && ltb 0 p ≡ false → 1 < d + p → 0 < d
decisions-taken d p h l = ground arith

-- The turn that `drop_oldest` makes, by the list it takes from.
drop_oldest-cases :
    (t : RollupTurnInput)
    → 1 < items t
    → ((0 < length t.pending_items)
        × (drop_oldest t ≡ record t { pending_items = rest_of t.pending_items }))
      ⊎ ((0 < length t.decisions) × (drop_oldest t ≡ record t { decisions = rest_of t.decisions }))
unfolding drop_oldest
drop_oldest-cases t l =
    elim (Bool-cases
      (leb (length t.decisions) (length t.pending_items) && ltb 0 (length t.pending_items))) [
        | inl h ↦ inl (pending-taken (length t.decisions) (length t.pending_items) h, rw h refl)
        | inr h ↦ inr (decisions-taken (length t.decisions) (length t.pending_items) h l, rw h refl)
      ]

pending-Dropped :
    (s : ShrunkTurn)
    → 0 < length s.turn.pending_items
    → Dropped s (record {
      turn = record s.turn { pending_items = rest_of s.turn.pending_items };
      omitted = suc s.omitted;
    })
pending-Dropped s l =
    let (d, e, n) = rest_of-split s.turn.pending_items l in
    record {
      decisions = [];
      pending_items = d;
      decisions_split = refl;
      pending_split = e;
      counted = omega (arith, n);
      same_index = refl;
      same_start = refl;
      same_files = refl;
    }

decisions-Dropped :
    (s : ShrunkTurn)
    → 0 < length s.turn.decisions
    → Dropped s (record {
      turn = record s.turn { decisions = rest_of s.turn.decisions };
      omitted = suc s.omitted;
    })
decisions-Dropped s l =
    let (d, e, n) = rest_of-split s.turn.decisions l in
    record {
      decisions = d;
      pending_items = [];
      decisions_split = e;
      pending_split = refl;
      counted = omega (arith, n);
      same_index = refl;
      same_start = refl;
      same_files = refl;
    }

pub drop_oldest-Dropped :
    (s : ShrunkTurn)
    → 1 < items s.turn
    → Dropped s (record { turn = drop_oldest s.turn; omitted = suc s.omitted })
drop_oldest-Dropped s l = elim (drop_oldest-cases s.turn l) [
  | inl (p, e) ↦
      subst (λ turn. Dropped s (record { turn = turn; omitted = suc s.omitted })) (sym e)
        (pending-Dropped s p)
  | inr (p, e) ↦
      subst (λ turn. Dropped s (record { turn = turn; omitted = suc s.omitted })) (sym e)
        (decisions-Dropped s p)
]

length-rest_of : (xs : List Text) → 0 < length xs → suc (length (rest_of xs)) ≡ length xs
length-rest_of [] l = absurd (omega (arith, l))
length-rest_of (x ∷ xs) l = refl

pub items-drop_oldest : (t : RollupTurnInput) → 1 < items t → suc (items (drop_oldest t)) ≡ items t
items-drop_oldest t l = elim (drop_oldest-cases t l) [
  | inl (p, e) ↦ rw e (omega (arith, length-rest_of t.pending_items p))
  | inr (p, e) ↦ rw e (omega (arith, length-rest_of t.decisions p))
]
