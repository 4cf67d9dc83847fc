-- ===== src/Init/Roots.antt =====
-- src/cli/init-apply.ts: which roots the recovery of a committed apply imports.
use Prim.Native.String.{String}
use text.Mathlib.Text.{◌==◌ as str_eq}
use text.Mathlib.TextEquality.{eq_iff}
use elepha.Common.{
  true, false, Option, none, some, List, [], ◌∷◌, ◌≡◌, ◌⊎◌, inl, inr, refl, sym, ap, ◌∙◌, All,
  Bool-cases, subst,
}
use elepha.Init.Stores.{InitConsent}
use elepha.Init.Recovery.{identity_of, is_confirmed_root, split_roots}
use elepha.Init.Undone.{differ}

-- The roots of the entries occur once.
abbrev pub DistinctRoots : List InitConsent → Type 0
DistinctRoots [] = Unit
DistinctRoots (e ∷ es) = All (λ t. str_eq e.root t.root ≡ false) es × DistinctRoots es

-- An entry of the list has the root, with the directory that the root resolves to now.
abbrev pub IsConfirmed : (String → Option String) → List InitConsent → String → Type 0
IsConfirmed identity [] root = ⊥
IsConfirmed identity (e ∷ es) root =
    ((e.root ≡ root) × ((d : String) × (e.identity ≡ some d) × (identity root ≡ some d)))
    ⊎ IsConfirmed identity es root

-- The roots divide, in order, into those that are confirmed and those that are not.
pub data Divided (identity : String → Option String) (consent : List InitConsent)
    : List String → List String → List String → Type 0 where
  no_roots : Divided identity consent [] [] []
  imports :
      (root : String) (roots imported gaps : List String)
      → IsConfirmed identity consent root
      → Divided identity consent roots imported gaps
      → Divided identity consent (root ∷ roots) (root ∷ imported) gaps
  reports :
      (root : String) (roots imported gaps : List String)
      → ¬ IsConfirmed identity consent root
      → Divided identity consent roots imported gaps
      → Divided identity consent (root ∷ roots) imported (root ∷ gaps)

is_confirmed_root-same :
    (a b : Option String)
    → is_confirmed_root a b ≡ true
    → (d : String) × (a ≡ some d) × (b ≡ some d)
is_confirmed_root-same none b h = absurd (differ h)
is_confirmed_root-same (some a) none h = absurd (differ h)
is_confirmed_root-same (some a) (some b) h = (a, refl, ap some ((eq_iff b a).0 h))

same-is_confirmed_root :
    (a b : Option String) (d : String) → a ≡ some d → b ≡ some d → is_confirmed_root a b ≡ true
same-is_confirmed_root a b d e f = rw (e, f) ((eq_iff d d).1 refl)

is_confirmed_root-IsConfirmed :
    (identity : String → Option String) (consent : List InitConsent) (root : String)
    → is_confirmed_root (identity_of root consent) (identity root) ≡ true
    → IsConfirmed identity consent root
unfolding identity_of
is_confirmed_root-IsConfirmed identity [] root h = absurd (differ h)
is_confirmed_root-IsConfirmed identity (e ∷ es) root h = elim (Bool-cases (str_eq e.root root)) [
  | inl k ↦
      inl ((eq_iff e.root root).0 k, is_confirmed_root-same e.identity (identity root) (rw k at h))
  | inr k ↦ inr (is_confirmed_root-IsConfirmed identity es root (rw k at h))
]

-- A root that is another's than those of the list is not confirmed by it.
elsewhere :
    (identity : String → Option String) (consent : List InitConsent) (root : String)
    → All (λ t. str_eq root t.root ≡ false) consent
    → ¬ IsConfirmed identity consent root
elsewhere identity [] root h k = k
elsewhere identity (e ∷ es) root h (inl (same, _)) =
    differ (sym h.0 ∙ (eq_iff root e.root).1 (sym same))
elsewhere identity (e ∷ es) root h (inr k) = elsewhere identity es root h.1 k

IsConfirmed-confirmed :
    (identity : String → Option String) (consent : List InitConsent) (root : String)
    → DistinctRoots consent
    → IsConfirmed identity consent root
    → is_confirmed_root (identity_of root consent) (identity root) ≡ true
unfolding identity_of
IsConfirmed-confirmed identity [] root d k = absurd k
IsConfirmed-confirmed identity (e ∷ es) root d (inl (same, (t, f, g))) =
    rw ((eq_iff e.root root).1 same) (same-is_confirmed_root e.identity (identity root) t f g)
IsConfirmed-confirmed identity (e ∷ es) root d (inr k) = elim (Bool-cases (str_eq e.root root)) [
  | inl h ↦ absurd (
      elsewhere identity es root
        (subst (λ x. All (λ t. str_eq x t.root ≡ false) es) ((eq_iff e.root root).0 h) d.0) k)
  | inr h ↦ rw h (IsConfirmed-confirmed identity es root d.1 k)
]

pub split_roots-Divided :
    (identity : String → Option String) (consent : List InitConsent) (roots : List String)
    → DistinctRoots consent
    → Divided identity consent roots
        (split_roots identity consent roots).0
        (split_roots identity consent roots).1
unfolding split_roots
split_roots-Divided identity consent [] d = no_roots
split_roots-Divided identity consent (root ∷ roots) d =
    let rest = split_roots-Divided identity consent roots d in
    elim (Bool-cases (is_confirmed_root (identity_of root consent) (identity root))) [
      | inl h ↦
          rw h (imports root roots _ _ (is_confirmed_root-IsConfirmed identity consent root h) rest)
      | inr h ↦ rw h (
          reports root roots _ _
            (λ k. differ (sym h ∙ IsConfirmed-confirmed identity consent root d k)) rest)
    ]
