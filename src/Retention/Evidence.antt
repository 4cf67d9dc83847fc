-- ===== src/Retention/Evidence.antt =====
-- src/storage/live-memory-retention.ts: what the tests of a removal say of the sessions that are stored.

use elepha.Common.{
  ℕ, Bool, true, false, ◌||◌, Option, none, some, List, [], ◌∷◌, ◌≡◌, ◌≢◌, ◌⊎◌, inl, inr, refl, sym,
  ap, ◌∙◌, ◌==◌, ==_iff, All, any, all, Bool-cases, arith,
}
use elepha.Retention.Store.{CaptureIdentity, same_key, NativeSession, UnitSession, Database}
use elepha.Retention.Describe.{RetentionUnit, describe, describe_one}
use elepha.Retention.Compare.{
  same_tables, same_unit, same_tables_same, same_key_same, same_key_refl, same_unit_same,
}
use elepha.Retention.Steps.{
  find_unit, find_session, holds_rows, unchanged, is_planned, plans_session, plans_memory,
  is_remaining, remaining_rows,
}

-- One of the items.
abbrev pub Among : {A : Type 0} → (A → Type 0) → List A → Type 0
Among P [] = ⊥
Among P (x ∷ xs) = P x ⊎ Among P xs

-- The database holds the session of the unit with the tables of the unit.
abbrev pub IsHeld : Database → RetentionUnit → Type 0
IsHeld db u = Among (λ s. (s.identity ≡ u.identity) × (s.tables ≡ u.tables)) db.stored

-- The unit is what the policy would say now of a session that is stored.
abbrev pub IsDescribed : ℕ → ℕ → CaptureIdentity → Database → RetentionUnit → Type 0
IsDescribed now window trigger db u =
    Among (λ s. u ≡ describe_one now window trigger db s) db.stored

-- The session has nothing of the unit: neither its identity, nor one of its session ids or memory ids.
abbrev pub IsApart : NativeSession → RetentionUnit → Type 0
IsApart s u =
    (u.identity ≢ s.identity)
    × All (λ v. All (λ w. w.id ≢ v.id) u.sessions) s.sessions
    × All (λ m. All (λ k. k ≢ m) u.memory_ids) s.memory_ids

any-false : {A : Type 0} (p : A → Bool) (xs : List A) → any p xs ≡ false → All (λ x. p x ≡ false) xs
any-false p [] h = tt
any-false p (x ∷ xs) h = (ground (arith, h), any-false p xs (ground (arith, h)))

All-of : {A : Type 0} (P Q : A → Type 0) (xs : List A) → ((x : A) → P x → Q x) → All P xs → All Q xs
All-of P Q [] f h = tt
All-of P Q (x ∷ xs) f (h, k) = (f x h, All-of P Q xs f k)

all_true : {A : Type 0} (p : A → Bool) (xs : List A) → all p xs ≡ true → All (λ x. p x ≡ true) xs
all_true p [] h = tt
all_true p (x ∷ xs) h = (ground (arith, h), all_true p xs (ground (arith, h)))

false-true : false ≢ true
false-true e = ground (arith, e)

find_session-found :
    (u : RetentionUnit) (ss : List NativeSession) (p : Option NativeSession)
    → find_session u.identity ss ≡ p
    → elim p as (λ _. Bool) [ none ↦ false | some s ↦ same_tables s.tables u.tables ] ≡ true
    → Among (λ s. (s.identity ≡ u.identity) × (s.tables ≡ u.tables)) ss
unfolding find_session
find_session-found u [] p e h = absurd (false-true (rw (sym e) at h))
find_session-found u (s ∷ ss) p e h = elim (Bool-cases (same_key s.identity u.identity)) [
  | inl k ↦ inl (
    same_key_same s.identity u.identity k,
    same_tables_same s.tables u.tables (rw (sym e, k) at h),
  )
  | inr k ↦ inr (find_session-found u ss p (rw k at e) h)
]

holds_rows-IsHeld : (copy : Database) (u : RetentionUnit) → holds_rows copy u ≡ true → IsHeld copy u
unfolding holds_rows
holds_rows-IsHeld copy u h =
    find_session-found u copy.stored (find_session u.identity copy.stored) refl h

pub all-IsHeld :
    (copy : Database) (units : List RetentionUnit)
    → all (holds_rows copy) units ≡ true
    → All (IsHeld copy) units
all-IsHeld copy units h =
    All-of _ (IsHeld copy) units (holds_rows-IsHeld copy) (all_true (holds_rows copy) units h)

module _ (now window : ℕ) (trigger : CaptureIdentity) (db : Database) where
  find_unit-found :
      (u : RetentionUnit) (ss : List NativeSession) (p : Option RetentionUnit)
      → find_unit u.identity (describe now window trigger db ss) ≡ p
      → elim p as (λ _. Bool) [ none ↦ false | some v ↦ same_unit v u ] ≡ true
      → Among (λ s. u ≡ describe_one now window trigger db s) ss
  unfolding find_unit describe
  find_unit-found u [] p e h = absurd (false-true (rw (sym e) at h))
  find_unit-found u (s ∷ ss) p e h =
      let v = describe_one now window trigger db s in
      elim (Bool-cases (same_key v.identity u.identity)) [
        | inl k ↦ inl (sym (same_unit_same v u (rw (sym e, k) at h)))
        | inr k ↦ inr (find_unit-found u ss p (rw k at e) h)
      ]

  unchanged-IsDescribed :
      (u : RetentionUnit)
      → unchanged (describe now window trigger db db.stored) u ≡ true
      → IsDescribed now window trigger db u
  unfolding unchanged
  unchanged-IsDescribed u h = find_unit-found u db.stored _ refl h

  pub all-IsDescribed :
      (units : List RetentionUnit)
      → all (unchanged (describe now window trigger db db.stored)) units ≡ true
      → All (IsDescribed now window trigger db) units
  all-IsDescribed units h =
      All-of _ (IsDescribed now window trigger db) units unchanged-IsDescribed
        (all_true (unchanged (describe now window trigger db db.stored)) units h)

differs : (m n : ℕ) → (m == n) ≡ false → m ≢ n
differs m n h e = false-true (sym h ∙ (==_iff m n).1 e)

neither : (a b : Bool) → a || b ≡ false → (a ≡ false) × (b ≡ false)
neither a b h = ground arith

All-empty : {A B : Type 0} (R : A → B → Type 0) (ys : List B) → All (λ y. All (λ x. R x y) []) ys
All-empty R [] = tt
All-empty R (y ∷ ys) = (tt, All-empty R ys)

All-zip :
    {A : Type 0} (P Q S : A → Type 0) (xs : List A)
    → ((x : A) → P x → Q x → S x)
    → All P xs
    → All Q xs
    → All S xs
All-zip P Q S [] f h k = tt
All-zip P Q S (x ∷ xs) f h k = (f x h.0 k.0, All-zip P Q S xs f h.1 k.1)

-- Of every x all y, and of every y all x.
All-swap :
    {A B : Type 0} (R : A → B → Type 0) (xs : List A) (ys : List B)
    → All (λ x. All (R x) ys) xs
    → All (λ y. All (λ x. R x y) xs) ys
All-swap R [] ys h = All-empty R ys
All-swap R (x ∷ xs) ys h =
    All-zip (R x) (λ y. All (λ z. R z y) xs) (λ y. R x y × All (λ z. R z y) xs) ys (λ y a b. (a, b))
      h.0 (All-swap R xs ys h.1)

unit_without : (ids : List ℕ) (m : ℕ) → any (λ k. k == m) ids ≡ false → All (λ k. k ≢ m) ids
unit_without ids m h =
    All-of (λ k. (k == m) ≡ false) (λ k. k ≢ m) ids (λ k. differs k m)
      (any-false (λ k. k == m) ids h)

memories-apart :
    (units : List RetentionUnit) (ms : List ℕ)
    → any (plans_memory units) ms ≡ false
    → All (λ u. All (λ m. All (λ k. k ≢ m) u.memory_ids) ms) units
unfolding plans_memory
memories-apart units ms h =
    All-swap (λ m u. All (λ k. k ≢ m) u.memory_ids) ms units
      (All-of _ _ ms
        (λ m e.
          All-of _ (λ u. All (λ k. k ≢ m) u.memory_ids) units (λ u. unit_without u.memory_ids m)
            (any-false (λ u. any (λ k. k == m) u.memory_ids) units e))
        (any-false (plans_memory units) ms h))

sessions-apart :
    (units : List RetentionUnit) (vs : List UnitSession)
    → any (λ v. plans_session units v.id) vs ≡ false
    → All (λ u. All (λ v. All (λ w. w.id ≢ v.id) u.sessions) vs) units
unfolding plans_session
sessions-apart units vs h =
    All-swap (λ v u. All (λ w. w.id ≢ v.id) u.sessions) vs units
      (All-of _ _ vs
        (λ v e.
          All-of _ (λ u. All (λ w. w.id ≢ v.id) u.sessions) units
            (λ u k.
              All-of _ (λ w. w.id ≢ v.id) u.sessions (λ w. differs w.id v.id)
                (any-false (λ w. w.id == v.id) u.sessions k))
            (any-false (λ u. any (λ w. w.id == v.id) u.sessions) units e))
        (any-false (λ v. plans_session units v.id) vs h))

identities-apart :
    (units : List RetentionUnit) (identity : CaptureIdentity)
    → is_planned units identity ≡ false
    → All (λ u. u.identity ≢ identity) units
unfolding is_planned
identities-apart units identity h =
    All-of _ (λ u. u.identity ≢ identity) units
      (λ u k e. false-true (sym k ∙ ap (λ x. same_key x identity) e ∙ same_key_refl identity))
      (any-false (λ u. same_key u.identity identity) units h)

is_remaining-IsApart :
    (units : List RetentionUnit) (s : NativeSession)
    → is_remaining units s ≡ false
    → All (IsApart s) units
unfolding is_remaining
is_remaining-IsApart units s h =
    let (a, more) = neither _ _ h in
    let (b, c) = neither _ _ more in
    All-zip _ _ (IsApart s) units (λ u p q. (p, q.0, q.1)) (identities-apart units s.identity c)
      (All-zip _ _
        (λ u.
          All (λ v. All (λ w. w.id ≢ v.id) u.sessions) s.sessions
          × All (λ m. All (λ k. k ≢ m) u.memory_ids) s.memory_ids)
        units (λ u p q. (p, q)) (sessions-apart units s.sessions b)
        (memories-apart units s.memory_ids a))

-- No session that is stored has anything of a unit of the plan.
pub remaining_rows-IsApart :
    (units : List RetentionUnit) (db : Database)
    → remaining_rows units db ≡ false
    → All (λ s. All (IsApart s) units) db.stored
unfolding remaining_rows
remaining_rows-IsApart units db h =
    All-of _ (λ s. All (IsApart s) units) db.stored (is_remaining-IsApart units)
      (any-false (is_remaining units) db.stored h)
