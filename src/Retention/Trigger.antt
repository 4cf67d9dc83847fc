-- ===== src/Retention/Trigger.antt =====
-- The session that is being captured is never removed to make room for itself.
use Prim.Native.Nat.{Ordering}
use elepha.Common.{
  ℕ, Bool, true, not, ◌&&◌, ◌||◌, List, [], ◌∷◌, ◌++◌, ◌≡◌, refl, ap, ◌∙◌, subst, all, keep, arith,
  Bool-cases, inl, inr,
}
use elepha.Retention.Store.{CaptureIdentity, same_key, Database, NativeSession}
use elepha.Retention.Describe.{RetentionUnit, ineligibility, describe_one, describe}
use elepha.Retention.Plan.{compare_units, insert_unit, sort_units, planned, plan}
use elepha.Retention.Selecting.{is_eligible, plan-planned}

-- A test that eligible units pass.
abbrev Passes : (RetentionUnit → Bool) → List RetentionUnit → Type 0
Passes p us = all (λ u. not (is_eligible u) || p u) us ≡ true

module _ (now window : ℕ) (identity : CaptureIdentity) (db : Database) where
  abbrev is_other : RetentionUnit → Bool
  is_other u = not (same_key u.identity identity)

  described_other :
      (s : NativeSession)
      → (not (is_eligible (describe_one now window identity db s))
          || is_other (describe_one now window identity db s))
        ≡ true
  unfolding describe_one ineligibility
  described_other s = elim (Bool-cases (same_key s.identity identity)) [
    | inl h ↦ rw h refl
    | inr h ↦ rw h (ground arith)
  ]

  describe-Passes : (ss : List NativeSession) → Passes is_other (describe now window identity db ss)
  unfolding describe
  describe-Passes [] = refl
  describe-Passes (s ∷ ss) = rw (described_other s) (describe-Passes ss)

and_swap : (a b c : Bool) → (a && (b && c)) ≡ (b && (a && c))
and_swap a b c = ground arith

and_both : (a b : Bool) → (a && b) ≡ true → (a ≡ true) × (b ≡ true)
and_both a b h = ground arith

module _ (q : RetentionUnit → Bool) where
  placed :
      (o : Ordering) (a b : List RetentionUnit) (x : Bool)
      → all q a ≡ x
      → all q b ≡ x
      → all q (elim o [ Ordering.gt ↦ a | _ ↦ b ]) ≡ x
  placed Ordering.lt a b x h k = k
  placed Ordering.eq a b x h k = k
  placed Ordering.gt a b x h k = h

  all-insert_unit :
      (u : RetentionUnit) (vs : List RetentionUnit) → all q (insert_unit u vs) ≡ (q u && all q vs)
  unfolding insert_unit
  all-insert_unit u [] = refl
  all-insert_unit u (v ∷ vs) =
      placed (compare_units u v) (v ∷ insert_unit u vs) (u ∷ v ∷ vs) (q u && (q v && all q vs))
        (ap (λ b. q v && b) (all-insert_unit u vs) ∙ and_swap (q v) (q u) (all q vs)) refl

  all-sort_units : (us : List RetentionUnit) → all q (sort_units us) ≡ all q us
  unfolding sort_units
  all-sort_units [] = refl
  all-sort_units (u ∷ us) =
      all-insert_unit u (sort_units us) ∙ ap (λ b. q u && b) (all-sort_units us)

  all-prefix : (xs ys : List RetentionUnit) → all q (xs ++ ys) ≡ true → all q xs ≡ true
  all-prefix [] ys h = refl
  all-prefix (x ∷ xs) ys h = ground (arith, all-prefix xs ys)

  Passes-keep : (us : List RetentionUnit) → Passes q us → all q (keep is_eligible us) ≡ true
  Passes-keep [] h = refl
  Passes-keep (u ∷ us) h = elim (Bool-cases (is_eligible u)) [
    | inl e ↦
        let both =
          and_both (not (is_eligible u) || q u) (all (λ v. not (is_eligible v) || q v) us) h in
        let here : q u ≡ true = subst (λ b. (not b || q u) ≡ true) e both.0 in
        rw (e, here) (Passes-keep us both.1)
    | inr e ↦ rw e (
        Passes-keep us
          (and_both (not (is_eligible u) || q u) (all (λ v. not (is_eligible v) || q v) us) h).1)
  ]

-- No plan holds the native session whose capture it makes room for.
pub plan-keeps_trigger :
    (now window target : ℕ) (identity : CaptureIdentity) (before after : ℕ) (db : Database)
    (units : List RetentionUnit)
    → plan now window target identity before after db ≡ planned units
    → all (λ u. not (same_key u.identity identity)) units ≡ true
plan-keeps_trigger now window target identity before after db units h =
    let first = (plan-planned now window target identity before after db units h).0 in
    let other : RetentionUnit → Bool = λ u. not (same_key u.identity identity) in
    let described = describe now window identity db db.stored in
    all-prefix other units first.0 (
      ap (all other) first.1
      ∙ Passes-keep other (sort_units described) (
          all-sort_units (λ u. not (is_eligible u) || other u) described
          ∙ describe-Passes now window identity db db.stored))
