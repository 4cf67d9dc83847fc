-- ===== src/Rollup/Keyed.antt =====
-- src/storage/rollup-store.ts, src/config/paths.ts: the loops that fill a map under a key.
use elepha.Common.{
  Bool, true, false, List, [], ◌∷◌, ◌++◌, ◌≡◌, ◌⊎◌, inl, inr, refl, sym, ap, ◌∙◌, ◌==◌, ◌&&◌,
  Bool-cases, ==_iff, All, subst, arith,
}
use mathlib.Core.List.{append-nil, append_assoc}
use elepha.Sanitize.Units.{Text}
use elepha.Rollup.Texts.{same_text}
use elepha.Rollup.Decisions.{put_by, put_all}

and_true : (a b : Bool) → a && b ≡ true → (a ≡ true) × (b ≡ true)
and_true a b h = ground arith

pub same_text_refl : (s : Text) → same_text s s ≡ true
unfolding same_text
same_text_refl [] = refl
same_text_refl (a ∷ s) = rw ((==_iff a a).1 refl, same_text_refl s)

pub same_text→eq : (s t : Text) → same_text s t ≡ true → s ≡ t
unfolding same_text
same_text→eq [] [] h = refl
same_text→eq [] (b ∷ t) h = ground arith
same_text→eq (a ∷ s) [] h = ground arith
same_text→eq (a ∷ s) (b ∷ t) h =
    let (p, q) = and_true (a == b) (same_text s t) h in rw ((==_iff a b).0 p, same_text→eq s t q)

pub differ : false ≡ true → ⊥
differ e = ground arith

pub same_text-sym : (s t : Text) → same_text s t ≡ false → same_text t s ≡ false
same_text-sym s t h = elim (Bool-cases (same_text t s)) [
  | inl k ↦ absurd (
      differ
        (sym h ∙ subst (λ u. same_text s u ≡ true) (sym (same_text→eq t s k)) (same_text_refl s)))
  | inr k ↦ k
]

-- One of the values has the property.
abbrev pub Some : {A : Type 0} → (A → Type 0) → List A → Type 0
Some P [] = ⊥
Some P (x ∷ xs) = P x ⊎ Some P xs

pub Some-map :
    {A : Type 0} (P Q : A → Type 0) (f : (x : A) → P x → Q x) (xs : List A) → Some P xs → Some Q xs
Some-map P Q f [] s = absurd s
Some-map P Q f (x ∷ xs) (inl p) = inl (f x p)
Some-map P Q f (x ∷ xs) (inr s) = inr (Some-map P Q f xs s)

pub All-last : {A : Type 0} (P : A → Type 0) (x : A) (xs : List A) → All P (xs ++ (x ∷ [])) → P x
All-last P x [] k = k.0
All-last P x (y ∷ xs) k = All-last P x xs k.1

pub All-front : {A : Type 0} (P : A → Type 0) (xs ys : List A) → All P (xs ++ ys) → All P xs
All-front P [] ys k = tt
All-front P (x ∷ xs) ys k = (k.0, All-front P xs ys k.1)

pub All-back : {A : Type 0} (P : A → Type 0) (xs ys : List A) → All P (xs ++ ys) → All P ys
All-back P [] ys k = k
All-back P (x ∷ xs) ys k = All-back P xs ys k.1

pub All-append :
    {A : Type 0} (P : A → Type 0) (xs ys : List A) → All P xs → All P ys → All P (xs ++ ys)
All-append P [] ys h k = k
All-append P (x ∷ xs) ys h k = (h.0, All-append P xs ys h.1 k)

module _ {A : Type 0} (key : A → Text) where
  -- Another key than the value's.
  abbrev pub Other : A → A → Type 0
  Other s t = same_text (key s) (key t) ≡ false

  abbrev pub Distinct : List A → Type 0
  Distinct [] = Unit
  Distinct (s ∷ ss) = All (Other s) ss × Distinct ss

  -- The value has the key of `d`, and meeting `d` again does not change it.
  abbrev pub Takes : (A → A → A) → A → A → Type 0
  Takes again d s = (same_text (key s) (key d) ≡ true) × (again s d ≡ s)

module _ {A : Type 0} (key : A → Text) (again : A → A → A)
    (key-again : (s d : A) → key (again s d) ≡ key s) (again_self : (d : A) → again d d ≡ d)
    (again_settles : (s d : A) → again (again s d) d ≡ again s d)
    (again_stays : (s d e : A) → again s d ≡ s → again (again s e) d ≡ again s e) where
  put_by-Takes : (d : A) (ss : List A) → Some (Takes key again d) (put_by key again d ss)
  unfolding put_by
  put_by-Takes d [] = inl (same_text_refl (key d), again_self d)
  put_by-Takes d (s ∷ ss) = elim (Bool-cases (same_text (key s) (key d))) [
    | inl h ↦ rw h (inl (rw (key-again s d) h, again_settles s d))
    | inr h ↦ rw h (inr (put_by-Takes d ss))
  ]

  again-Takes : (d e s : A) → Takes key again d s → Takes key again d (again s e)
  again-Takes d e s (h, k) = (rw (key-again s e) h, again_stays s d e k)

  put_by-Some :
      (d e : A) (ss : List A)
      → Some (Takes key again d) ss
      → Some (Takes key again d) (put_by key again e ss)
  unfolding put_by
  put_by-Some d e [] t = absurd t
  put_by-Some d e (s ∷ ss) t = elim (Bool-cases (same_text (key s) (key e))) [
    | inl h ↦ rw h (elim t [ inl p ↦ inl (again-Takes d e s p) | inr q ↦ inr q ])
    | inr h ↦ rw h (elim t [ inl p ↦ inl p | inr q ↦ inr (put_by-Some d e ss q) ])
  ]

  put_by-Other :
      (s d e : A) (ss : List A)
      → Other key s e
      → All (Other key s) ss
      → All (Other key s) (put_by key again e ss)
  unfolding put_by
  put_by-Other s d e [] h k = (h, tt)
  put_by-Other s d e (t ∷ ts) h k = elim (Bool-cases (same_text (key t) (key e))) [
    | inl l ↦ rw l (rw (key-again t e) (k.0), k.1)
    | inr l ↦ rw l (k.0, put_by-Other s d e ts h k.1)
  ]

  put_by-Distinct : (e : A) (ss : List A) → Distinct key ss → Distinct key (put_by key again e ss)
  unfolding put_by
  put_by-Distinct e [] d = (tt, tt)
  put_by-Distinct e (s ∷ ss) d = elim (Bool-cases (same_text (key s) (key e))) [
    | inl h ↦
        rw h (subst (λ k. All (λ t. same_text k (key t) ≡ false) ss) (sym (key-again s e)) d.0, d.1)
    | inr h ↦ rw h (put_by-Other s s e ss h d.0, put_by-Distinct e ss d.1)
  ]

  pub put_all-Distinct :
      (seen ds : List A) → Distinct key seen → Distinct key (put_all key again seen ds)
  unfolding put_all
  put_all-Distinct seen [] h = h
  put_all-Distinct seen (d ∷ ds) h =
      put_all-Distinct (put_by key again d seen) ds (put_by-Distinct d seen h)

  put_all-Some :
      (d : A) (seen ds : List A)
      → Some (Takes key again d) seen
      → Some (Takes key again d) (put_all key again seen ds)
  unfolding put_all
  put_all-Some d seen [] h = h
  put_all-Some d seen (e ∷ ds) h =
      put_all-Some d (put_by key again e seen) ds (put_by-Some d e seen h)

  -- Every value that was put is taken by a value of the map.
  pub put_all-Takes :
      (seen ds : List A) → All (λ d. Some (Takes key again d) (put_all key again seen ds)) ds
  unfolding put_all
  put_all-Takes seen [] = tt
  put_all-Takes seen (d ∷ ds) = (
    put_all-Some d (put_by key again d seen) ds (put_by-Takes d seen),
    put_all-Takes (put_by key again d seen) ds,
  )

  Other-taken :
      (s d : A) (ss : List A)
      → same_text (key s) (key d) ≡ true
      → All (Other key s) ss
      → Some (Takes key again d) ss
      → ⊥
  Other-taken s d [] h k t = absurd t
  Other-taken s d (t ∷ ts) h k (inl (p, q)) =
      differ (sym k.0 ∙ ap (same_text (key s)) (same_text→eq (key t) (key d) p) ∙ h)
  Other-taken s d (t ∷ ts) h k (inr q) = Other-taken s d ts h k.1 q

  -- A value that is taken already changes nothing.
  put_by_taken :
      (d : A) (ss : List A)
      → Distinct key ss
      → Some (Takes key again d) ss
      → put_by key again d ss ≡ ss
  unfolding put_by
  put_by_taken d [] k t = absurd t
  put_by_taken d (s ∷ ss) k t = elim (Bool-cases (same_text (key s) (key d))) [
    | inl h ↦
        rw h
          (elim t [ inl (p, q) ↦ ap (λ u. u ∷ ss) q | inr q ↦ absurd (Other-taken s d ss h k.0 q) ])
    | inr h ↦ rw h (elim t [
      | inl (p, q) ↦ absurd (differ (sym h ∙ p))
      | inr q ↦ ap (λ us. s ∷ us) (put_by_taken d ss k.1 q)
    ])
  ]

  pub put_all_taken :
      (ss ds : List A)
      → Distinct key ss
      → All (λ d. Some (Takes key again d) ss) ds
      → put_all key again ss ds ≡ ss
  unfolding put_all
  put_all_taken ss [] k t = refl
  put_all_taken ss (d ∷ ds) k t = rw (put_by_taken d ss k t.0) (put_all_taken ss ds k t.1)

  -- A value with a new key goes to the end.
  put_by_new :
      (d : A) (ss : List A) → Distinct key (ss ++ (d ∷ [])) → put_by key again d ss ≡ ss ++ (d ∷ [])
  unfolding put_by
  put_by_new d [] k = refl
  put_by_new d (s ∷ ss) k =
      rw (All-last (Other key s) d ss k.0) (ap (λ us. s ∷ us) (put_by_new d ss k.1))

  Distinct-front : (ss ts : List A) → Distinct key (ss ++ ts) → Distinct key ss
  Distinct-front [] ts k = tt
  Distinct-front (s ∷ ss) ts k = (All-front (Other key s) ss ts k.0, Distinct-front ss ts k.1)

  pub put_all_new :
      (seen ds : List A) → Distinct key (seen ++ ds) → put_all key again seen ds ≡ seen ++ ds
  unfolding put_all
  put_all_new seen [] k = sym (append-nil seen)
  put_all_new seen (d ∷ ds) k =
      let l = subst (Distinct key) (sym (append_assoc seen (d ∷ []) ds)) k in
      rw (put_by_new d seen (Distinct-front (seen ++ (d ∷ [])) ds l))
        (put_all_new (seen ++ (d ∷ [])) ds l ∙ append_assoc seen (d ∷ []) ds)

  -- A map that took some values and then more.
  pub put_all-append :
      (seen ds es : List A)
      → put_all key again seen (ds ++ es) ≡ put_all key again (put_all key again seen ds) es
  unfolding put_all
  put_all-append seen [] es = refl
  put_all-append seen (d ∷ ds) es = put_all-append (put_by key again d seen) ds es

  -- What is in the map already, put a second time.
  pub put_all_again :
      (ds es : List A)
      → put_all key again [] (put_all key again [] (ds ++ es) ++ es)
        ≡ put_all key again [] (ds ++ es)
  put_all_again ds es =
      let k = put_all-Distinct [] (ds ++ es) tt in
      let t = put_all-Takes [] (ds ++ es) in
      put_all-append [] (put_all key again [] (ds ++ es)) es
      ∙ ap (λ l. put_all key again l es) (put_all_new [] (put_all key again [] (ds ++ es)) k)
      ∙ put_all_taken (put_all key again [] (ds ++ es)) es k
          (All-back (λ d. Some (Takes key again d) (put_all key again [] (ds ++ es))) ds es t)
