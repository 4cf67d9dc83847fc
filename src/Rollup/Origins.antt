-- ===== src/Rollup/Origins.antt =====
-- src/storage/rollup-store.ts: what holds of every value that a map is filled with holds of the map.
use elepha.Common.{List, [], ◌∷◌, inl, inr, Bool-cases, All}
use elepha.Sanitize.Units.{Text}
use elepha.Rollup.Texts.{same_text}
use elepha.Rollup.Decisions.{put_by, put_all}
use elepha.Rollup.Keyed.{Some}

All-map :
    {A : Type 0} (P Q : A → Type 0) (f : (x : A) → P x → Q x) (xs : List A) → All P xs → All Q xs
All-map P Q f [] h = tt
All-map P Q f (x ∷ xs) h = (f x h.0, All-map P Q f xs h.1)

-- Each value of a list is related to one of the list.
pub All-self :
    {A : Type 0} (R : A → A → Type 0) (f : (x : A) → R x x) (xs : List A)
    → All (λ x. Some (λ y. R y x) xs) xs
All-self R f [] = tt
All-self R f (x ∷ xs) = (
  inl (f x),
  All-map (λ z. Some (λ y. R y z) xs) (λ z. Some (λ y. R y z) (x ∷ xs)) (λ z s. inr s) xs
      (All-self R f xs),
)

pub All-both :
    {A : Type 0} (P Q : A → Type 0) (xs : List A) → All P xs → All Q xs → All (λ x. P x × Q x) xs
All-both P Q [] h k = tt
All-both P Q (x ∷ xs) h k = ((h.0, k.0), All-both P Q xs h.1 k.1)

module _ {A : Type 0} (key : A → Text) (again : A → A → A) (P : A → Type 0)
    (kept : (s d : A) → P s → P d → P (again s d)) where
  put_by-All : (d : A) (ss : List A) → P d → All P ss → All P (put_by key again d ss)
  unfolding put_by
  put_by-All d [] p h = (p, tt)
  put_by-All d (s ∷ ss) p h = elim (Bool-cases (same_text (key s) (key d))) [
    | inl k ↦ rw k (kept s d h.0 p, h.1)
    | inr k ↦ rw k (h.0, put_by-All d ss p h.1)
  ]

  pub put_all-All : (seen ds : List A) → All P seen → All P ds → All P (put_all key again seen ds)
  unfolding put_all
  put_all-All seen [] h k = h
  put_all-All seen (d ∷ ds) h k =
      put_all-All (put_by key again d seen) ds (put_by-All d seen k.0 h) k.1
