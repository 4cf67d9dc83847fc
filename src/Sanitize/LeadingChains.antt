-- ===== src/Sanitize/LeadingChains.antt =====
-- The chain that starts a line, before and after a rewriting.
use elepha.Common.{
  ℕ, Bool, true, false, not, ◌&&◌, ◌||◌, [], ◌∷◌, ◌++◌, ◌≡◌, refl, ap, subst, ◌==◌, arith,
  Bool-cases, inl, inr,
}
use elepha.Sanitize.Units.{Text, backslash, is_active}
use elepha.Sanitize.Chains.{
  Lines, last, line, lines, join, is_terminator, is_operator, is_blank, is_empty, split_blank,
  split_chain, any_active, escape_active, not_backslash, has_active_chain_character, leading_chain,
  rewrite_line, map_bodies, any_body, rewrite_leading_chains, detect_active_leading_chain,
}
use elepha.Sanitize.Escape.{escape_chain}
use elepha.Sanitize.Insertion.{
  any_active-escape_active, Inserted, done, same, more, Inserted-refl, Inserted-append,
}
use elepha.Sanitize.Lines.{
  IsBody, AreLines, lines-AreLines, join-lines, lines-join, append-split_blank, append-split_chain,
}

is_empty-escape_active :
    (hit : ℕ → Bool) (b s : Text) → is_empty (escape_active hit b s) ≡ is_empty s
unfolding escape_active
is_empty-escape_active hit b [] = refl
is_empty-escape_active hit b (c ∷ s) = elim (Bool-cases (hit c && is_active b)) [
  | inl h ↦ rw h
  | inr h ↦ rw h
]

in_chain : ℕ → Text → Bool
in_chain c chain = is_operator c || (c == backslash && not (is_empty chain))

split_chain_step :
    (c : ℕ) (s chain rest : Text)
    → split_chain s ≡ (chain, rest)
    → in_chain c chain ≡ true
    → split_chain (c ∷ s) ≡ (c ∷ chain, rest)
unfolding split_chain in_chain
split_chain_step c s chain rest e h = rw (e, h)

-- An escaped chain is read back whole.
split_chain-escape :
    (b s : Text)
    → split_chain (escape_active not_backslash b (split_chain s).0 ++ (split_chain s).1)
      ≡ (escape_active not_backslash b (split_chain s).0, (split_chain s).1)
unfolding split_chain escape_active in_chain is_operator
split_chain-escape b [] = refl
split_chain-escape b (c ∷ s) = elim (Bool-cases (in_chain c (split_chain s).0)) [
  | inl h ↦ elim (Bool-cases (not_backslash c && is_active b)) [
    | inl a ↦
        rw (h, a)
          (split_chain_step backslash
            (c ∷ (escape_active not_backslash (c ∷ b) (split_chain s).0 ++ (split_chain s).1)) _ _
            (split_chain_step c
              (escape_active not_backslash (c ∷ b) (split_chain s).0 ++ (split_chain s).1) _ _
              (split_chain-escape (c ∷ b) s)
              (rw (is_empty-escape_active not_backslash (c ∷ b) (split_chain s).0) h))
            refl)
    | inr a ↦
        rw (h, a)
          (split_chain_step c
            (escape_active not_backslash (c ∷ b) (split_chain s).0 ++ (split_chain s).1) _ _
            (split_chain-escape (c ∷ b) s)
            (rw (is_empty-escape_active not_backslash (c ∷ b) (split_chain s).0) h))
  ]
  | inr h ↦ rw h (rw h)
]

-- What starts with no blank.
abbrev IsUnindented : Text → Type 0
IsUnindented [] = Unit
IsUnindented (c ∷ _) = is_blank c ≡ false

split_blank_of_IsUnindented : (u : Text) → IsUnindented u → split_blank u ≡ ([], u)
unfolding split_blank
split_blank_of_IsUnindented [] h = refl
split_blank_of_IsUnindented (d ∷ u) h = rw h

split_blank-append :
    (s u : Text) → IsUnindented u → split_blank ((split_blank s).0 ++ u) ≡ ((split_blank s).0, u)
unfolding split_blank
split_blank-append [] u h = split_blank_of_IsUnindented u h
split_blank-append (c ∷ s) u h = elim (Bool-cases (is_blank c)) [
  | inl e ↦ rw e (rw (e, split_blank-append s u h))
  | inr e ↦ rw e (split_blank_of_IsUnindented u h)
]

not_blank_of_in_chain : (c : ℕ) (chain : Text) → in_chain c chain ≡ true → is_blank c ≡ false
unfolding in_chain is_operator
not_blank_of_in_chain c chain h = ground arith

-- A chain that is not empty starts with no blank, escaped or not.
chain-IsUnindented :
    (b s u : Text)
    → is_empty (split_chain s).0 ≡ false
    → IsUnindented (escape_active not_backslash b (split_chain s).0 ++ u)
unfolding split_chain escape_active in_chain is_operator
chain-IsUnindented b [] u h = cc
chain-IsUnindented b (c ∷ s) u h = elim (Bool-cases (in_chain c (split_chain s).0)) [
  | inl e ↦ elim (Bool-cases (not_backslash c && is_active b)) [
    | inl a ↦ rw (e, a) refl
    | inr a ↦ rw (e, a) (not_blank_of_in_chain c (split_chain s).0 e)
  ]
  | inr e ↦ cc (rw e at h)
]

not_empty_of_active :
    (chain : Text) → has_active_chain_character chain ≡ true → is_empty chain ≡ false
unfolding has_active_chain_character any_active
not_empty_of_active [] h = cc
not_empty_of_active (c ∷ chain) h = refl

leading_chain-append :
    (s u : Text) → IsUnindented u → leading_chain ((split_blank s).0 ++ u) ≡ (split_chain u).0
unfolding leading_chain
leading_chain-append s u h = ap (λ p. (split_chain p.1).0) (split_blank-append s u h)

-- After the rewriting the chain that starts the line is inert.
pub rewrite_line-inert :
    (s : Text) → has_active_chain_character (leading_chain (rewrite_line escape_chain s)) ≡ false
unfolding rewrite_line
rewrite_line-inert s =
    elim (Bool-cases (has_active_chain_character (split_chain (split_blank s).1).0)) [
      | inl h ↦ rw h (
          unfold escape_chain in
          rw
            (
              leading_chain-append s _ (
                  chain-IsUnindented [] (split_blank s).1 (split_chain (split_blank s).1).1
                    (not_empty_of_active _ h)),
              split_chain-escape [] (split_blank s).1,
            )
            (unfold has_active_chain_character in
              any_active-escape_active not_backslash [] [] (split_chain (split_blank s).1).0 refl
                refl))
      | inr h ↦ rw h (unfold leading_chain in h)
    ]

parts :
    (s : Text)
    → (split_blank s).0 ++ ((split_chain (split_blank s).1).0 ++ (split_chain (split_blank s).1).1)
      ≡ s
parts s = rw (append-split_chain (split_blank s).1) (append-split_blank s)

operator_of_in_chain :
    (c : ℕ) (chain : Text) → in_chain c chain ≡ true → not_backslash c ≡ true → is_operator c ≡ true
unfolding in_chain
operator_of_in_chain c chain h n = ground arith

-- Escaping a chain puts backslashes before operators alone.
chain-Inserted :
    (b s : Text)
    → Inserted is_operator (split_chain s).0 (escape_active not_backslash b (split_chain s).0)
unfolding split_chain escape_active in_chain
chain-Inserted b [] = done
chain-Inserted b (c ∷ s) = elim (Bool-cases (in_chain c (split_chain s).0)) [
  | inl e ↦ elim (Bool-cases (not_backslash c)) [
    | inl n ↦ elim (Bool-cases (is_active b)) [
      | inl a ↦ rw (e, n, a) (more c (operator_of_in_chain c _ e n) (chain-Inserted (c ∷ b) s))
      | inr a ↦ rw (e, n, a) (same c (chain-Inserted (c ∷ b) s))
    ]
    | inr n ↦ rw (e, n) (same c (chain-Inserted (c ∷ b) s))
  ]
  | inr e ↦ rw e done
]

Inserted-from : {s s' t : Text} → s ≡ s' → Inserted is_operator s t → Inserted is_operator s' t
Inserted-from {t = t} e i = subst (λ u. Inserted is_operator u t) e i

rewrite_line-Inserted : (s : Text) → Inserted is_operator s (rewrite_line escape_chain s)
unfolding rewrite_line escape_chain
rewrite_line-Inserted s =
    elim (Bool-cases (has_active_chain_character (split_chain (split_blank s).1).0)) [
      | inl h ↦ rw h (
          Inserted-from (parts s) (
            Inserted-append is_operator (Inserted-refl is_operator (split_blank s).0) (
              Inserted-append is_operator (chain-Inserted [] (split_blank s).1)
                (Inserted-refl is_operator (split_chain (split_blank s).1).1))))
      | inr h ↦ rw h (Inserted-refl is_operator s)
    ]

Inserted-IsBody : (hit : ℕ → Bool) {s t : Text} → Inserted hit s t → IsBody s → IsBody t
unfolding is_terminator
Inserted-IsBody hit done k = k
Inserted-IsBody hit (same c i) k = (k.0, Inserted-IsBody hit i k.1)
Inserted-IsBody hit (more c h i) k = (refl, (k.0, Inserted-IsBody hit i k.1))

join-Inserted :
    (ls : Lines) → Inserted is_operator (join ls) (join (map_bodies (rewrite_line escape_chain) ls))
unfolding join map_bodies
join-Inserted (last b) = rewrite_line-Inserted b
join-Inserted (line b t ls) =
    Inserted-append is_operator (rewrite_line-Inserted b) (same t (join-Inserted ls))

-- All that the last step of `escapeShellSyntax` does is put backslashes before operators.
pub rewrite_leading_chains-Inserted :
    (s : Text) → Inserted is_operator s (rewrite_leading_chains escape_chain s)
unfolding rewrite_leading_chains
rewrite_leading_chains-Inserted s = Inserted-from (join-lines s) (join-Inserted (lines s))

map_bodies-AreLines :
    (ls : Lines) → AreLines ls → AreLines (map_bodies (rewrite_line escape_chain) ls)
unfolding map_bodies
map_bodies-AreLines (last b) k = Inserted-IsBody is_operator (rewrite_line-Inserted b) k
map_bodies-AreLines (line b t ls) k =
    (Inserted-IsBody is_operator (rewrite_line-Inserted b) k.0, k.1, map_bodies-AreLines ls k.2)

map_bodies-inert :
    (ls : Lines)
    → any_body
        (λ b. has_active_chain_character (leading_chain b))
        (map_bodies (rewrite_line escape_chain) ls)
      ≡ false
unfolding map_bodies any_body
map_bodies-inert (last b) = rewrite_line-inert b
map_bodies-inert (line b t ls) = rw (rewrite_line-inert b) (map_bodies-inert ls)

-- That step leaves no line that starts with an active chain.
pub rewrite_leading_chains-inert :
    (s : Text) → detect_active_leading_chain (rewrite_leading_chains escape_chain s) ≡ false
unfolding rewrite_leading_chains detect_active_leading_chain
rewrite_leading_chains-inert s =
    rw (lines-join _ (map_bodies-AreLines (lines s) (lines-AreLines s)))
      (map_bodies-inert (lines s))

rewrite_line_of_inert :
    (f : Text → Text) (b : Text)
    → has_active_chain_character (leading_chain b) ≡ false
    → rewrite_line f b ≡ b
unfolding rewrite_line leading_chain
rewrite_line_of_inert f b h = rw h

map_bodies_of_inert :
    (f : Text → Text) (ls : Lines)
    → any_body (λ b. has_active_chain_character (leading_chain b)) ls ≡ false
    → map_bodies (rewrite_line f) ls ≡ ls
unfolding map_bodies any_body
map_bodies_of_inert f (last b) h = ap last (rewrite_line_of_inert f b h)
map_bodies_of_inert f (line b t ls) h =
    rw (rewrite_line_of_inert f b (ground arith), map_bodies_of_inert f ls (ground arith))

-- A text with no such line is kept, whatever a chain is rewritten to.
pub rewrite_leading_chains_of_inert :
    (f : Text → Text) (s : Text)
    → detect_active_leading_chain s ≡ false
    → rewrite_leading_chains f s ≡ s
unfolding rewrite_leading_chains detect_active_leading_chain
rewrite_leading_chains_of_inert f s h = rw (map_bodies_of_inert f (lines s) h) (join-lines s)
