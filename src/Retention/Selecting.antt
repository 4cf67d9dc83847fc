-- ===== src/Retention/Selecting.antt =====
-- What the plan selects.
use elepha.Common.{
  ltb→lt, ltb-false, ==_false, length, length-append, ℕ, ◌+◌, ◌-◌, ◌≤◌, ◌<◌, Bool, false, not, List,
  [], ◌∷◌, ◌++◌, ◌≡◌, ◌≢◌, refl, ◌∙◌, sym, ap, subst, leb, ltb, ◌==◌, ==_iff, arith, keep, is_some,
  Bool-cases, inl, inr, ◌⊎◌, ◌↔◌,
}
use elepha.Retention.Store.{
  CaptureIdentity, Database, measure, ledger_disagreement, target_unreachable,
}
use elepha.Retention.Describe.{RetentionUnit, describe}
use elepha.Retention.Plan.{Selection, select_units, Planned, planned, abort, sort_units, plan}

abbrev pub is_eligible : RetentionUnit → Bool
is_eligible u = not (is_some u.ineligible)

unfoldable pub total : List RetentionUnit → ℕ
total [] = 0
total (u ∷ us) = u.bytes + total us

total-append : (us vs : List RetentionUnit) → total (us ++ vs) ≡ total us + total vs
unfolding total
total-append [] vs = omega arith
total-append (u ∷ us) vs = omega (arith, total-append us vs)

select_units-freed :
    (required freed : ℕ) (us : List RetentionUnit)
    → (select_units required freed us).freed
      ≡ freed + total (select_units required freed us).selected
unfolding select_units total
select_units-freed required freed [] = ground arith
select_units-freed required freed (u ∷ us) =
    ground (
      arith,
      select_units-freed required freed us,
      select_units-freed required (freed + u.bytes) us,
    )

-- The selected units are the first of the eligible ones.
select_units-first :
    (required freed : ℕ) (us : List RetentionUnit)
    → (rest : List RetentionUnit) × ((select_units required freed us).selected ++ rest
        ≡ keep is_eligible us)
unfolding select_units
select_units-first required freed [] = ([], refl)
select_units-first required freed (u ∷ us) = elim (Bool-cases (leb required freed)) [
  | inl h ↦ (keep is_eligible (u ∷ us), rw h refl)
  | inr h ↦ elim (Bool-cases (is_some u.ineligible)) [
    | inl k ↦ let ih = select_units-first required freed us in (ih.0, rw (h, k) ih.1)
    | inr k ↦
        let ih = select_units-first required (freed + u.bytes) us in
        (ih.0, rw (h, k) (ap (λ r. u ∷ r) ih.1))
  ]
]

nil-append : {A : Type 0} (p : List A) (x : A) (q : List A) → [] ≢ p ++ x ∷ q
nil-append p x q h = omega (arith, length-append p (x ∷ q), ap length h)

abbrev first_bytes : List RetentionUnit → ℕ
first_bytes [] = 0
first_bytes (u ∷ us) = u.bytes

abbrev tail : List RetentionUnit → List RetentionUnit
tail [] = []
tail (u ∷ us) = us

cons_least :
    {us : List RetentionUnit} (required freed : ℕ) (v u : RetentionUnit) (p q : List RetentionUnit)
    → leb required freed ≡ false
    → v ∷ us ≡ p ++ u ∷ q
    → ((p' : List RetentionUnit) → us ≡ p' ++ u ∷ q → freed + v.bytes + total p' < required)
    → freed + total p < required
unfolding total
cons_least required freed v u [] q k e ih = ground arith
cons_least required freed v u (w ∷ p) q k e ih = omega (arith, ih p (ap tail e), ap first_bytes e)

-- Without the last of them they are not enough.
select_units-least :
    (required freed : ℕ) (us p : List RetentionUnit) (u : RetentionUnit) (q : List RetentionUnit)
    → (select_units required freed us).selected ≡ p ++ u ∷ q
    → freed + total p < required
unfolding select_units total
select_units-least required freed [] p u q h = absurd (nil-append p u q h)
select_units-least required freed (v ∷ us) p u q h = elim (Bool-cases (leb required freed)) [
  | inl k ↦ absurd (nil-append p u q (rw k at h))
  | inr k ↦ elim (Bool-cases (is_some v.ineligible)) [
    | inl l ↦ select_units-least required freed us p u q (rw (k, l) at h)
    | inr l ↦
        cons_least required freed v u p q k (rw (k, l) at h)
          (λ p'. select_units-least required (freed + v.bytes) us p' u q)
  ]
]

-- Where they are not enough, they are all the eligible ones.
select_units-all :
    (required freed : ℕ) (us : List RetentionUnit)
    → (select_units required freed us).freed < required
    → (select_units required freed us).selected ≡ keep is_eligible us
unfolding select_units
select_units-all required freed [] h = refl
select_units-all required freed (u ∷ us) h =
    ground
      (arith, select_units-all required freed us, select_units-all required (freed + u.bytes) us)

abbrev units_of : Planned → List RetentionUnit
units_of (planned units) = units
units_of (abort _) = []

abbrev kind_of : Planned → ℕ
kind_of (planned _) = 0
kind_of (abort ledger_disagreement) = 1
kind_of (abort target_unreachable) = 2
kind_of (abort _) = 3

module _ (now window target : ℕ) (identity : CaptureIdentity) (before after : ℕ)
    (db : Database) where
  abbrev pub candidates : List RetentionUnit
  candidates = sort_units (describe now window identity db db.stored)

  abbrev required_bytes : ℕ
  required_bytes = measure db.stored + after - (before + target)

  abbrev chosen : Selection
  chosen = select_units required_bytes 0 candidates

  plan-cases :
      ((db.ledger ≢ measure db.stored)
        × (plan now window target identity before after db ≡ abort ledger_disagreement))
      ⊎ ((db.ledger ≡ measure db.stored)
          × (chosen.freed < required_bytes)
          × (plan now window target identity before after db ≡ abort target_unreachable))
      ⊎ ((required_bytes ≤ chosen.freed)
          × (plan now window target identity before after db ≡ planned chosen.selected))
  unfolding plan
  plan-cases = elim (Bool-cases (db.ledger == measure db.stored)) [
    | inr h ↦ inl (==_false _ _ h, rw h refl)
    | inl h ↦ elim (Bool-cases (ltb chosen.freed required_bytes)) [
      | inl k ↦ inr (inl ((==_iff _ _).0 h, ltb→lt _ _ k, rw (h, k) refl))
      | inr k ↦ inr (inr (ltb-false _ _ k, rw (h, k) refl))
    ]
  ]

  planned-chosen :
      (units : List RetentionUnit)
      → plan now window target identity before after db ≡ planned units
      → (required_bytes ≤ chosen.freed) × (chosen.selected ≡ units)
  planned-chosen units h = elim plan-cases [
    | inl c ↦ absurd (omega (arith, ap kind_of (sym c.1 ∙ h)))
    | inr (inl c) ↦ absurd (omega (arith, ap kind_of (sym c.2 ∙ h)))
    | inr (inr c) ↦ (c.0, ap units_of (sym c.1 ∙ h))
  ]

  unreachable-chosen :
      plan now window target identity before after db ≡ abort target_unreachable
      → (db.ledger ≡ measure db.stored) × (total (keep is_eligible candidates) < required_bytes)
  unreachable-chosen h = elim plan-cases [
    | inl c ↦ absurd (omega (arith, ap kind_of (sym c.1 ∙ h)))
    | inr (inl c) ↦ (
      c.0,
      subst (λ us. total us < required_bytes) (select_units-all required_bytes 0 candidates c.1)
          (omega (arith, c.1, select_units-freed required_bytes 0 candidates)),
    )
    | inr (inr c) ↦ absurd (omega (arith, ap kind_of (sym c.1 ∙ h)))
  ]

  chosen-unreachable :
      db.ledger ≡ measure db.stored
      → total (keep is_eligible candidates) < required_bytes
      → plan now window target identity before after db ≡ abort target_unreachable
  chosen-unreachable e h = elim plan-cases [
    | inl c ↦ absurd (c.0 e)
    | inr (inl c) ↦ c.2
    | inr (inr c) ↦ absurd (
        omega (
          arith,
          c.0,
          select_units-freed required_bytes 0 candidates,
          total-append chosen.selected (select_units-first required_bytes 0 candidates).0,
          ap total (select_units-first required_bytes 0 candidates).1,
        ))
  ]

-- The units of a plan are the first of the eligible ones, in their order, and removing them brings the
-- measured memory, with what the write adds to it, down to the target.
pub plan-planned :
    (now window target : ℕ) (identity : CaptureIdentity) (before after : ℕ) (db : Database)
    (units : List RetentionUnit)
    → plan now window target identity before after db ≡ planned units
    → ((rest : List RetentionUnit) × (units ++ rest
          ≡ keep is_eligible (sort_units (describe now window identity db db.stored))))
      × (measure db.stored + after ≤ before + target + total units)
plan-planned now window target identity before after db units h =
    let c = planned-chosen now window target identity before after db units h in
    (
      subst
          (λ us.
            (rest : List RetentionUnit) × (us ++ rest
              ≡ keep is_eligible (candidates now window target identity before after db)))
          c.1 (select_units-first _ 0 _),
      subst (λ us. measure db.stored + after ≤ before + target + total us) c.1
          (omega (
            arith,
            c.0,
            select_units-freed (required_bytes now window target identity before after db) 0
                (candidates now window target identity before after db),
          )),
    )

-- A plan removes no unit more than it has to: the units before any one of them do not bring the memory
-- down to the target.
pub plan-least :
    (now window target : ℕ) (identity : CaptureIdentity) (before after : ℕ) (db : Database)
    (p : List RetentionUnit) (u : RetentionUnit) (q : List RetentionUnit)
    → plan now window target identity before after db ≡ planned (p ++ u ∷ q)
    → before + target + total p < measure db.stored + after
plan-least now window target identity before after db p u q h =
    let c = planned-chosen now window target identity before after db (p ++ u ∷ q) h in
    omega (
      arith,
      select_units-least (required_bytes now window target identity before after db) 0
          (candidates now window target identity before after db) p u q c.1,
    )

-- The plan calls the target unreachable exactly where the ledger agrees with the stored rows and all the
-- eligible units together do not bring the memory down to the target.
pub plan-unreachable_iff :
    (now window target : ℕ) (identity : CaptureIdentity) (before after : ℕ) (db : Database)
    → (plan now window target identity before after db ≡ abort target_unreachable) ↔ (
        (db.ledger ≡ measure db.stored)
        × (before
              + target
              + total (keep is_eligible (sort_units (describe now window identity db db.stored)))
            < measure db.stored + after))
plan-unreachable_iff now window target identity before after db = (
  λ h.
      let c = unreachable-chosen now window target identity before after db h in
      (c.0, omega (arith, c.1)),
  λ c. chosen-unreachable now window target identity before after db c.0 (omega (arith, c.1)),
)
