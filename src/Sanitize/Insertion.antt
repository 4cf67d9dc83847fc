-- ===== src/Sanitize/Insertion.antt =====
-- Backslashes put before some units: what every rewriting of `escapeShellSyntax` after the first does.
use elepha.Common.{
  ℕ, Bool, true, false, not, ◌&&◌, ◌||◌, [], ◌∷◌, ◌++◌, ◌≡◌, refl, ap, ◌==◌, ==_iff, arith,
  Bool-cases, inl, inr,
}
use elepha.Sanitize.Units.{Text, backslash, preceding_backslashes, is_active, is_token}
use elepha.Sanitize.Chains.{any_active, escape_active}
use elepha.Sanitize.Detect.{starts_token}

-- `t` is `s` with a backslash before some of the units that `hit` picks.
pub data Inserted (hit : ℕ → Bool) : Text → Text → Type 0 where
  done : Inserted hit [] []
  same : {s t : Text} (c : ℕ) → Inserted hit s t → Inserted hit (c ∷ s) (c ∷ t)
  more :
      {s t : Text} (c : ℕ)
      → hit c ≡ true
      → Inserted hit s t
      → Inserted hit (c ∷ s) (backslash ∷ c ∷ t)

pub Inserted-refl : (hit : ℕ → Bool) (s : Text) → Inserted hit s s
Inserted-refl hit [] = done
Inserted-refl hit (c ∷ s) = same c (Inserted-refl hit s)

pub Inserted-append :
    (hit : ℕ → Bool) {s t u v : Text}
    → Inserted hit s t
    → Inserted hit u v
    → Inserted hit (s ++ u) (t ++ v)
Inserted-append hit done j = j
Inserted-append hit (same c i) j = same c (Inserted-append hit i j)
Inserted-append hit (more c h i) j = more c h (Inserted-append hit i j)

pub Inserted-weaken :
    (hit wide : ℕ → Bool) {s t : Text}
    → ((c : ℕ) → hit c ≡ true → wide c ≡ true)
    → Inserted hit s t
    → Inserted wide s t
Inserted-weaken hit wide w done = done
Inserted-weaken hit wide w (same c i) = same c (Inserted-weaken hit wide w i)
Inserted-weaken hit wide w (more c h i) = more c (w c h) (Inserted-weaken hit wide w i)

pub escape_active-Inserted :
    (hit : ℕ → Bool) (before s : Text) → Inserted hit s (escape_active hit before s)
unfolding escape_active
escape_active-Inserted hit before [] = done
escape_active-Inserted hit before (c ∷ s) = elim (Bool-cases (hit c)) [
  | inl h ↦ elim (Bool-cases (is_active before)) [
    | inl a ↦ rw (h, a) (more c h (escape_active-Inserted hit (c ∷ before) s))
    | inr a ↦ rw (h, a) (same c (escape_active-Inserted hit (c ∷ before) s))
  ]
  | inr h ↦ rw h (same c (escape_active-Inserted hit (c ∷ before) s))
]

-- Texts that end in as many backslashes are alike to what follows them.
abbrev pub Alike : Text → Text → Type 0
Alike b b' = preceding_backslashes b ≡ preceding_backslashes b'

pub Alike-cons : (c : ℕ) (b b' : Text) → Alike b b' → Alike (c ∷ b) (c ∷ b')
unfolding preceding_backslashes
Alike-cons c b b' h = rw h

pub Alike-more :
    (c : ℕ) (b b' : Text) → (c == backslash) ≡ false → Alike (c ∷ b) (c ∷ backslash ∷ b')
unfolding preceding_backslashes
Alike-more c b b' n = rw n

pub Alike-is_active : (b b' : Text) → Alike b b' → is_active b ≡ is_active b'
unfolding is_active
Alike-is_active b b' h = rw h

pub is_active-backslash : (b : Text) → is_active (backslash ∷ b) ≡ not (is_active b)
unfolding is_active preceding_backslashes
is_active-backslash b = ground arith

ne_backslash :
    (hit : ℕ → Bool) (c : ℕ) → hit backslash ≡ false → hit c ≡ true → (c == backslash) ≡ false
ne_backslash hit c k h = elim (Bool-cases (c == backslash)) [
  | inl e ↦ cc (ap hit ((==_iff c backslash).0 e))
  | inr n ↦ n
]

-- Of what `escape_active` returns nothing that it picks is active.
pub any_active-escape_active :
    (hit : ℕ → Bool) (b b' s : Text)
    → hit backslash ≡ false
    → Alike b b'
    → any_active hit b' (escape_active hit b s) ≡ false
unfolding any_active escape_active
any_active-escape_active hit b b' [] k h = refl
any_active-escape_active hit b b' (c ∷ s) k h = elim (Bool-cases (hit c && is_active b)) [
  | inl e ↦ rw e (
      ground (
        arith,
        k,
        Alike-is_active b b' h,
        is_active-backslash b',
        any_active-escape_active hit (c ∷ b) (c ∷ backslash ∷ b') s k
            (Alike-more c b b' (ne_backslash hit c k (ground arith))),
      ))
  | inr e ↦ rw e (
      ground (
        arith,
        Alike-is_active b b' h,
        any_active-escape_active hit (c ∷ b) (c ∷ b') s k (Alike-cons c b b' h),
      ))
]

-- Insertions before units of another kind change nothing for those that `hit` picks.
pub any_active-Inserted :
    (hit other : ℕ → Bool) {s t : Text} (b b' : Text)
    → hit backslash ≡ false
    → other backslash ≡ false
    → ((c : ℕ) → other c ≡ true → hit c ≡ false)
    → Alike b b'
    → Inserted other s t
    → any_active hit b' t ≡ any_active hit b s
unfolding any_active
any_active-Inserted hit other b b' k o apart h done = refl
any_active-Inserted hit other b b' k o apart h (same {s = s} {t = t} c i) = rw (
  Alike-is_active b b' h,
  any_active-Inserted hit other (c ∷ b) (c ∷ b') k o apart (Alike-cons c b b' h) i,
)
any_active-Inserted hit other b b' k o apart h (more {s = s} {t = t} c e i) = rw (
  k,
  apart c e,
  any_active-Inserted hit other (c ∷ b) (c ∷ backslash ∷ b') k o apart
      (Alike-more c b b' (ne_backslash other c o e)) i,
)

-- A text of which nothing is active is kept.
pub escape_active_of_inactive :
    (hit : ℕ → Bool) (b s : Text) → any_active hit b s ≡ false → escape_active hit b s ≡ s
unfolding any_active escape_active
escape_active_of_inactive hit b [] h = refl
escape_active_of_inactive hit b (c ∷ s) h =
    ground (arith, escape_active_of_inactive hit (c ∷ b) s (ground arith))

-- Two units in a row that are a token.
unfoldable pub has_token : Text → Bool
has_token [] = false
has_token (c ∷ s) = starts_token c s || has_token s

module _ (other : ℕ → Bool) (ends : (c d : ℕ) → other d ≡ true → is_token c d ≡ false)
    (after : (c : ℕ) → is_token c backslash ≡ false)
    (start : (d : ℕ) → is_token backslash d ≡ false) where
  starts_token-Inserted :
      {s t : Text} (c : ℕ) → Inserted other s t → starts_token c t ≡ starts_token c s
  starts_token-Inserted c done = refl
  starts_token-Inserted c (same d i) = refl
  starts_token-Inserted c (more d e i) = rw (after c, ends c d e)

  -- Insertions before units that are in no token neither make nor break one.
  pub has_token-Inserted : {s t : Text} → Inserted other s t → has_token t ≡ has_token s
  unfolding has_token
  has_token-Inserted done = refl
  has_token-Inserted (same c i) = rw (starts_token-Inserted c i, has_token-Inserted i)
  has_token-Inserted (more c e i) = rw (start c, starts_token-Inserted c i, has_token-Inserted i)
