-- ===== src/Sanitize/Shrinking.antt =====
-- Each step of a pass of `stripShellSyntax` either finds nothing and keeps the text, or shortens it.
use elepha.Common.{
  ℕ, zero, suc, ◌-◌, ◌≤◌, ◌<◌, Bool, true, false, not, ◌||◌, [], ◌∷◌, ◌≡◌, refl, ap, ◌∙◌, ◌==◌, ◌⊎◌,
  if◌then◌else◌, arith, Bool-cases, inl, inr, any, keep, length, length-append,
}
use elepha.Sanitize.Units.{Text, backtick, is_opener, is_heredoc}
use elepha.Sanitize.Chains.{
  Lines, last, line, lines, join, split_blank, split_chain, has_active_chain_character, any_active,
  leading_chain, rewrite_line, map_bodies, any_body, rewrite_leading_chains,
  detect_active_leading_chain,
}
use elepha.Sanitize.Strip.{drop_closer, remove_openers, remove_heredocs, strip_pass}
use elepha.Sanitize.Lines.{join-lines, append-split_blank, append-split_chain}

-- From `s` to `t`: `found` is false of `s`, which is kept, or `t` is shorter.
abbrev pub Shrunk : (Text → Bool) → Text → Text → Type 0
Shrunk found s t = ((found s ≡ false) × (t ≡ s)) ⊎ (length t < length s)

Shrunk-then :
    (p q : Text → Bool) (s t u : Text) → Shrunk p s t → Shrunk q t u → Shrunk (λ x. p x || q x) s u
Shrunk-then p q s t u (inl (f, e)) (inl (g, e')) = inl (ground (arith, ap q e), e' ∙ e)
Shrunk-then p q s t u (inl (f, e)) (inr l) = inr (omega (arith, ap (length {A = ℕ}) e))
Shrunk-then p q s t u (inr k) (inl (g, e')) = inr (omega (arith, ap (length {A = ℕ}) e'))
Shrunk-then p q s t u (inr k) (inr l) = inr (omega arith)

abbrev pub has_backtick : Text → Bool
has_backtick = any (λ c. c == backtick)

keep-backtick-Shrunk : (s : Text) → Shrunk has_backtick s (keep (λ c. not (c == backtick)) s)
keep-backtick-Shrunk [] = inl (refl, refl)
keep-backtick-Shrunk (c ∷ s) = ground (arith, keep-backtick-Shrunk s)

abbrev starts_heredoc : ℕ → Text → Bool
starts_heredoc c [] = false
starts_heredoc c (d ∷ _) = is_heredoc c d

unfoldable pub has_heredoc : Text → Bool
has_heredoc [] = false
has_heredoc (c ∷ s) = starts_heredoc c s || has_heredoc s

remove_heredocs-Shrunk : (s : Text) → Shrunk has_heredoc s (remove_heredocs s)
unfolding remove_heredocs has_heredoc
remove_heredocs-Shrunk [] = inl (refl, refl)
remove_heredocs-Shrunk (c ∷ []) = inl (refl, refl)
remove_heredocs-Shrunk (c ∷ d ∷ s) = elim (Bool-cases (is_heredoc c d)) [
  | inl h ↦ rw h (
      inr (elim (remove_heredocs-Shrunk s) [
        | inl (f, e) ↦ omega (arith, ap (length {A = ℕ}) e)
        | inr l ↦ omega arith
      ]))
  | inr h ↦ rw h (elim (remove_heredocs-Shrunk (d ∷ s)) [
    | inl (f, e) ↦ inl (f, ap (λ t. c ∷ t) e)
    | inr l ↦ inr (omega arith)
  ])
]

abbrev starts_opener : ℕ → Text → Bool
starts_opener c [] = false
starts_opener c (d ∷ _) = is_opener c d

unfoldable pub has_opener : Text → Bool
has_opener [] = false
has_opener (c ∷ s) = starts_opener c s || has_opener s

length-drop_closer-le :
    (opener closer depth : ℕ) (s : Text) → length (drop_closer opener closer depth s) ≤ length s
unfolding drop_closer
length-drop_closer-le o k depth [] = omega arith
length-drop_closer-le o k depth (c ∷ s) = ground (
  arith,
  length-drop_closer-le o k (suc depth) s,
  length-drop_closer-le o k (depth - 1) s,
  length-drop_closer-le o k depth s,
)

length-remove_openers-le : (n : ℕ) (s : Text) → length (remove_openers n s) ≤ length s
unfolding remove_openers
length-remove_openers-le zero s = omega arith
length-remove_openers-le (suc n) [] = omega arith
length-remove_openers-le (suc n) (c ∷ []) = omega arith
length-remove_openers-le (suc n) (c ∷ d ∷ s) =
    let closer : ℕ = if d == b'(' then b')' else b'}' in
    elim (Bool-cases (is_opener c d)) [
      | inl h ↦ rw h (
          omega (
            arith,
            length-remove_openers-le n (drop_closer d closer 0 s),
            length-drop_closer-le d closer 0 s,
          ))
      | inr h ↦ rw h (omega (arith, length-remove_openers-le n (d ∷ s)))
    ]

-- The length of the text is fuel enough.
remove_openers-Shrunk : (n : ℕ) (s : Text) → length s ≤ n → Shrunk has_opener s (remove_openers n s)
unfolding remove_openers has_opener
remove_openers-Shrunk zero [] k = inl (refl, refl)
remove_openers-Shrunk zero (c ∷ s) k = elim k [ ]
remove_openers-Shrunk (suc n) [] k = inl (refl, refl)
remove_openers-Shrunk (suc n) (c ∷ []) k = inl (refl, refl)
remove_openers-Shrunk (suc n) (c ∷ d ∷ s) k =
    let closer : ℕ = if d == b'(' then b')' else b'}' in
    elim (Bool-cases (is_opener c d)) [
      | inl h ↦ rw h (
          inr (
            omega (
              arith,
              length-remove_openers-le n (drop_closer d closer 0 s),
              length-drop_closer-le d closer 0 s,
            )))
      | inr h ↦ rw h (elim (remove_openers-Shrunk n (d ∷ s) (omega arith)) [
        | inl (f, e) ↦ inl (f, ap (λ t. c ∷ t) e)
        | inr l ↦ inr (omega arith)
      ])
    ]

abbrev nothing : Text → Text
nothing _ = []

length_of_active : (chain : Text) → has_active_chain_character chain ≡ true → 0 < length chain
unfolding has_active_chain_character any_active
length_of_active [] h = cc
length_of_active (c ∷ s) h = omega arith

rewrite_line-Shrunk :
    (s : Text)
    → Shrunk (λ b. has_active_chain_character (leading_chain b)) s (rewrite_line nothing s)
unfolding rewrite_line leading_chain
rewrite_line-Shrunk s =
    let chain : Text = (split_chain (split_blank s).1).0 in
    let rest : Text = (split_chain (split_blank s).1).1 in
    elim (Bool-cases (has_active_chain_character chain)) [
      | inl h ↦ rw h (
          inr (
            omega (
              arith,
              length-append (split_blank s).0 rest,
              length-append (split_blank s).0 (split_blank s).1,
              length-append chain rest,
              ap (length {A = ℕ}) (append-split_blank s),
              ap (length {A = ℕ}) (append-split_chain (split_blank s).1),
              length_of_active chain h,
            )))
      | inr h ↦ rw h (inl (refl, refl))
    ]

length-map_bodies :
    (ls : Lines) → length (join (map_bodies (rewrite_line nothing) ls)) ≤ length (join ls)
unfolding map_bodies join
length-map_bodies (last b) = elim (rewrite_line-Shrunk b) [
  | inl (f, e) ↦ omega (arith, ap (length {A = ℕ}) e)
  | inr l ↦ omega arith
]
length-map_bodies (line b t ls) =
    let ends : length (rewrite_line nothing b) ≤ length b = elim (rewrite_line-Shrunk b) [
      | inl (f, e) ↦ omega (arith, ap (length {A = ℕ}) e)
      | inr l ↦ omega arith
    ] in
    omega (
      arith,
      ends,
      length-map_bodies ls,
      length-append (rewrite_line nothing b) (t ∷ join (map_bodies (rewrite_line nothing) ls)),
      length-append b (t ∷ join ls),
    )

map_bodies-Shrunk :
    (ls : Lines)
    → ((any_body (λ b. has_active_chain_character (leading_chain b)) ls ≡ false)
        × (map_bodies (rewrite_line nothing) ls ≡ ls))
      ⊎ (length (join (map_bodies (rewrite_line nothing) ls)) < length (join ls))
unfolding map_bodies any_body join
map_bodies-Shrunk (last b) = elim (rewrite_line-Shrunk b) [
  | inl (f, e) ↦ inl (f, ap last e)
  | inr l ↦ inr l
]
map_bodies-Shrunk (line b t ls) = elim (rewrite_line-Shrunk b) [
  | inl (f, e) ↦ elim (map_bodies-Shrunk ls) [
    | inl (g, e') ↦ inl (rw f g, rw (e, e'))
    | inr l ↦ inr (
        rw e (
          omega (
            arith,
            l,
            length-append b (t ∷ join (map_bodies (rewrite_line nothing) ls)),
            length-append b (t ∷ join ls),
          )))
  ]
  | inr k ↦ inr (
      omega (
        arith,
        k,
        length-map_bodies ls,
        length-append (rewrite_line nothing b) (t ∷ join (map_bodies (rewrite_line nothing) ls)),
        length-append b (t ∷ join ls),
      ))
]

rewrite_leading_chains-Shrunk :
    (s : Text) → Shrunk detect_active_leading_chain s (rewrite_leading_chains nothing s)
unfolding rewrite_leading_chains detect_active_leading_chain
rewrite_leading_chains-Shrunk s = elim (map_bodies-Shrunk (lines s)) [
  | inl (f, e) ↦ inl (f, rw e (join-lines s))
  | inr l ↦ inr (omega (arith, l, ap (length {A = ℕ}) (join-lines s)))
]

-- What a pass removes where it finds it.
abbrev pub pass_finds : Text → Bool
pass_finds s = has_opener s || (has_backtick s || (has_heredoc s || detect_active_leading_chain s))

-- A pass that finds nothing keeps the text, and any other shortens it.
pub strip_pass-Shrunk : (s : Text) → Shrunk pass_finds s (strip_pass s)
unfolding strip_pass
strip_pass-Shrunk s =
    let opened : Text = remove_openers (length s) s in
    let ticked : Text = keep (λ c. not (c == backtick)) opened in
    Shrunk-then has_opener (λ x. has_backtick x || (has_heredoc x || detect_active_leading_chain x))
      s opened _ (remove_openers-Shrunk (length s) s (omega arith))
      (Shrunk-then has_backtick (λ x. has_heredoc x || detect_active_leading_chain x) opened ticked
        _ (keep-backtick-Shrunk opened)
        (Shrunk-then has_heredoc detect_active_leading_chain ticked (remove_heredocs ticked) _
          (remove_heredocs-Shrunk ticked) (rewrite_leading_chains-Shrunk (remove_heredocs ticked))))
