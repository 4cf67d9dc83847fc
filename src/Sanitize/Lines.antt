-- ===== src/Sanitize/Lines.antt =====
-- Lines, their chains, and what the two rewritings leave of them.
use elepha.Common.{
  ℕ, true, false, not, ◌&&◌, ◌||◌, [], ◌∷◌, ◌++◌, ◌≡◌, refl, ap, ◌==◌, Bool-cases, inl, inr, All,
}
use elepha.Sanitize.Units.{Text, backslash}
use elepha.Sanitize.Chains.{
  Lines, last, line, push, lines, join, is_terminator, is_operator, is_blank, is_empty, split_blank,
  split_chain,
}

-- No unit is a line terminator.
abbrev pub IsBody : Text → Type 0
IsBody = All (λ c. is_terminator c ≡ false)

abbrev pub AreLines : Lines → Type 0
AreLines (last b) = IsBody b
AreLines (line b t ls) = IsBody b × (is_terminator t ≡ true) × AreLines ls

push-AreLines : (c : ℕ) (ls : Lines) → is_terminator c ≡ false → AreLines ls → AreLines (push c ls)
push-AreLines c (last b) h k = (h, k)
push-AreLines c (line b t ls) h k = ((h, k.0), k.1, k.2)

pub lines-AreLines : (s : Text) → AreLines (lines s)
unfolding lines
lines-AreLines [] = tt
lines-AreLines (c ∷ s) = elim (Bool-cases (is_terminator c)) [
  | inl h ↦ rw h (tt, h, lines-AreLines s)
  | inr h ↦ rw h (push-AreLines c (lines s) h (lines-AreLines s))
]

join-push : (c : ℕ) (ls : Lines) → join (push c ls) ≡ c ∷ join ls
unfolding join
join-push c (last b) = refl
join-push c (line b t ls) = refl

pub join-lines : (s : Text) → join (lines s) ≡ s
unfolding lines join
join-lines [] = refl
join-lines (c ∷ s) = elim (Bool-cases (is_terminator c)) [
  | inl h ↦ rw (h, join-lines s)
  | inr h ↦ rw (h, join-push c (lines s), join-lines s)
]

pub lines-join : (ls : Lines) → AreLines ls → lines (join ls) ≡ ls
unfolding lines join
lines-join (last []) k = refl
lines-join (last (c ∷ b)) (h, k) = rw h (ap (push c) (lines-join (last b) k))
lines-join (line [] t ls) (_, h, k) = rw h (ap (line [] t) (lines-join ls k))
lines-join (line (c ∷ b) t ls) ((n, m), h, k) =
    rw n (ap (push c) (lines-join (line b t ls) (m, h, k)))

pub IsBody-append : (s t : Text) → IsBody s → IsBody t → IsBody (s ++ t)
IsBody-append [] t h k = k
IsBody-append (c ∷ s) t h k = (h.0, IsBody-append s t h.1 k)

pub IsBody-left : (s t : Text) → IsBody (s ++ t) → IsBody s
IsBody-left [] t h = tt
IsBody-left (c ∷ s) t h = (h.0, IsBody-left s t h.1)

pub IsBody-right : (s t : Text) → IsBody (s ++ t) → IsBody t
IsBody-right [] t h = h
IsBody-right (c ∷ s) t h = IsBody-right s t h.1

pub append-split_blank : (s : Text) → (split_blank s).0 ++ (split_blank s).1 ≡ s
unfolding split_blank
append-split_blank [] = refl
append-split_blank (c ∷ s) = elim (Bool-cases (is_blank c)) [
  | inl h ↦ rw h (ap (λ t. c ∷ t) (append-split_blank s))
  | inr h ↦ rw h
]

pub append-split_chain : (s : Text) → (split_chain s).0 ++ (split_chain s).1 ≡ s
unfolding split_chain
append-split_chain [] = refl
append-split_chain (c ∷ s) =
    elim (Bool-cases (is_operator c || (c == backslash && not (is_empty (split_chain s).0)))) [
      | inl h ↦ rw h (ap (λ t. c ∷ t) (append-split_chain s))
      | inr h ↦ rw h
    ]
