-- ===== src/Consent/Closest.antt =====
-- The decision that holds is the closest of the explicit ones over the path.
use elepha.Common.{
  ℕ, Bool, true, false, not, ◌&&◌, ◌||◌, Option, none, some, List, [], ◌∷◌, ◌≡◌, refl, sym, subst,
  ap, ◌∙◌, if◌then◌else◌, is_some, ◌≢◌, leb, ltb, ◌==◌, all, keep, arith, Bool-cases, inl, inr,
}
use elepha.Consent.Decision.{
  PathText, ConsentRoot, cli_rank, ulid_after, prefers_consent_row, counts, key_length, closer,
  reduce_closest, explicit_consent_decision,
}

unfoldable pub ranked : (l m c d t u : ℕ) → Bool
ranked l m c d t u = ltb l m || (l == m && (ltb c d || (c == d && leb t u)))

-- `a` is no closer than `b`; or as close, and `b` is a `cli` decision if `a` is; or both, and `b` is no
-- older.
unfoldable pub yields : ConsentRoot → ConsentRoot → Bool
yields a b =
    ranked (key_length a) (key_length b) (cli_rank a) (cli_rank b) a.decided_at b.decided_at

ranked_trans :
    (la lb lc ca cb cc ta tb tc : ℕ)
    → ranked la lb ca cb ta tb ≡ true
    → ranked lb lc cb cc tb tc ≡ true
    → ranked la lc ca cc ta tc ≡ true
unfolding ranked
ranked_trans la lb lc ca cb cc ta tb tc h k = ground arith

ranked_refl : (l c t : ℕ) → ranked l l c c t t ≡ true
unfolding ranked
ranked_refl l c t = ground arith

-- The test of one step of the reduction, on the numbers that it compares.
wins : (l m c d t u : ℕ) (later : Bool) → Bool
wins l m c d t u later =
    ltb l m
    || (m == l && (if not (d == c) then ltb c d else if not (u == t) then ltb t u else later))

wins-ranked :
    (l m c d t u : ℕ) (later : Bool) → wins l m c d t u later ≡ true → ranked l m c d t u ≡ true
unfolding wins ranked
wins-ranked l m c d t u later h = ground arith

loses-ranked :
    (l m c d t u : ℕ) (later : Bool) → wins l m c d t u later ≡ false → ranked m l d c u t ≡ true
unfolding wins ranked
loses-ranked l m c d t u later h = ground arith

step_wins : ConsentRoot → ConsentRoot → Bool
step_wins c r =
    wins (key_length c) (key_length r) (cli_rank c) (cli_rank r) c.decided_at r.decided_at
      (ulid_after r.ulid c.ulid)

closer_lem : (c r : ConsentRoot) → closer c r ≡ (if step_wins c r then r else c)
unfolding closer prefers_consent_row step_wins wins
closer_lem c r = elim (Bool-cases (ltb (key_length c) (key_length r))) [
  | inl h ↦ rw h refl
  | inr h ↦ rw h refl
]

yields_refl : (c : ConsentRoot) → yields c c ≡ true
unfolding yields
yields_refl c = ranked_refl _ _ _

and_left : (a b : Bool) → (a && b) ≡ true → a ≡ true
and_left a b h = ground arith

and_right : (a b : Bool) → (a && b) ≡ true → b ≡ true
and_right a b h = ground arith

closer-yields :
    (c r : ConsentRoot) → (yields c (closer c r) ≡ true) × (yields r (closer c r) ≡ true)
unfolding yields step_wins
closer-yields c r = elim (Bool-cases (step_wins c r)) [
  | inl h ↦
      let e : closer c r ≡ r = closer_lem c r ∙ ap (λ b. if b then r else c) h in
      subst (λ d. (yields c d ≡ true) × (yields r d ≡ true)) (sym e)
        (wins-ranked _ _ _ _ _ _ _ h, ranked_refl _ _ _)
  | inr h ↦
      let e : closer c r ≡ c = closer_lem c r ∙ ap (λ b. if b then r else c) h in
      subst (λ d. (yields c d ≡ true) × (yields r d ≡ true)) (sym e)
        (ranked_refl _ _ _, loses-ranked _ _ _ _ _ _ _ h)
]

yields_trans : (a b c : ConsentRoot) → yields a b ≡ true → yields b c ≡ true → yields a c ≡ true
unfolding yields
yields_trans a b c h k =
    ranked_trans (key_length a) (key_length b) (key_length c) _ (cli_rank b) _ _ b.decided_at _ h k

either_holds :
    (p : ConsentRoot → Bool) (c r : ConsentRoot) → p c ≡ true → p r ≡ true → p (closer c r) ≡ true
either_holds p c r h k =
    subst (λ d. p d ≡ true) (sym (closer_lem c r))
      (elim (Bool-cases (step_wins c r)) [ inl w ↦ rw w k | inr w ↦ rw w h ])

all-counts : (p : ConsentRoot → Bool) (rs : List ConsentRoot) → all p (keep p rs) ≡ true
all-counts p [] = refl
all-counts p (r ∷ rs) = elim (Bool-cases (p r)) [
  | inl h ↦ rw (h, h, all-counts p rs) refl
  | inr h ↦ rw h (all-counts p rs)
]

-- What a reduction from `c` over `rs` gives.
abbrev Nearest : (ConsentRoot → Bool) → ConsentRoot → List ConsentRoot → Type 0
Nearest p c rs =
    (d : ConsentRoot) × ((reduce_closest (some c) rs ≡ some d)
      × (p d ≡ true)
      × (yields c d ≡ true)
      × (all (λ r. yields r d) rs ≡ true))

reduce_closest-Nearest :
    (p : ConsentRoot → Bool) (c : ConsentRoot) (rs : List ConsentRoot)
    → p c ≡ true
    → all p rs ≡ true
    → Nearest p c rs
unfolding reduce_closest
reduce_closest-Nearest p c [] h k = (c, (refl, h, yields_refl c, refl))
reduce_closest-Nearest p c (r ∷ rs) h k =
    let here : p r ≡ true = and_left (p r) (all p rs) k in
    let there : all p rs ≡ true = and_right (p r) (all p rs) k in
    let (d, (e, q, y, ys)) =
      reduce_closest-Nearest p (closer c r) rs (either_holds p c r h here) there in
    (
      d,
      (
        e,
        q,
        yields_trans c (closer c r) d (closer-yields c r).0 y,
        rw (yields_trans r (closer c r) d (closer-yields c r).1 y, ys) refl,
      ),
    )

abbrev held : ConsentRoot → Option ConsentRoot → ConsentRoot
held r none = r
held r (some d) = d

reduced-yields :
    (p : ConsentRoot → Bool) (rs : List ConsentRoot) (d : ConsentRoot)
    → all p rs ≡ true
    → reduce_closest none rs ≡ some d
    → (p d ≡ true) × (all (λ r. yields r d) rs ≡ true)
unfolding reduce_closest
reduced-yields p [] d k e = absurd (none≢some (ap is_some e))
  where
    none≢some : false ≢ true
    none≢some h = ground arith
reduced-yields p (r ∷ rs) d k e =
    let (d', (e', q, y, ys)) =
      reduce_closest-Nearest p r rs (and_left (p r) (all p rs) k) (and_right (p r) (all p rs) k) in
    subst (λ x. (p x ≡ true) × (all (λ r. yields r x) (r ∷ rs) ≡ true)) (ap (held r) (sym e' ∙ e))
      (q, rw (y, ys) refl)

-- A decision that holds for a path is explicit and over the path; and of all decisions that are, none is
-- closer to it, nor as close and made by `cli` where it was not, nor equal in both and newer.
pub explicit_consent_decision-yields :
    (rows : List ConsentRoot) (path : PathText) (d : ConsentRoot)
    → explicit_consent_decision rows path ≡ some d
    → (counts path d ≡ true) × (all (λ r. yields r d) (keep (counts path) rows) ≡ true)
unfolding explicit_consent_decision
explicit_consent_decision-yields rows path d h =
    reduced-yields (counts path) (keep (counts path) rows) d (all-counts (counts path) rows) h
