-- ===== src/Daemon/Readability/Scanning.antt =====
-- The loop reads the first line, however the file is cut into reads.
use Prim.Native.String.{String}
use text.Mathlib.Text.{◌==◌ as str_eq}
use mathlib.Core.List.{append-nil, append_assoc}
use elepha.Common.{
  ℕ, zero, suc, ◌+◌, ◌-◌, ◌≤◌, ◌<◌, Bool, true, false, not, ◌&&◌, ◌||◌, Option, none, some, List,
  [], ◌∷◌, ◌++◌, ◌≡◌, ◌⊎◌, inl, inr, refl, sym, ap, ◌∙◌, subst, if◌then◌else◌, ltb, ltb→lt,
  ltb-false, ◌==◌, any, length, length-append, arith, Bool-cases,
}
use elepha.Daemon.Readability.Guard.{
  Bytes, newline_byte, first_line_cap_bytes, take, index_of, Unreadable, no_newline_in_cap, Scan,
  scan, classify, is_no_bytes, judge_prefix, assert_readable_jsonl,
}

-- The bytes of a file that is read so.
unfoldable pub content : List Bytes → Bytes
content [] = []
content (c ∷ cs) = c ++ content cs

-- No read returns more than was asked for, and an empty one is at the end of the file.
abbrev pub Fits : ℕ → List Bytes → Type 0
Fits total [] = Unit
Fits total ([] ∷ cs) = content cs ≡ []
Fits total ((b ∷ c) ∷ cs) =
    ((first_line_cap_bytes ≤ total) ⊎ (total + length (b ∷ c) ≤ first_line_cap_bytes))
    × Fits (total + length (b ∷ c)) cs

unfoldable pub first_line : Bytes → Bytes
first_line [] = []
first_line (c ∷ s) = let rest = c ∷ first_line s in if c == newline_byte then [] else rest

unfoldable pub has_newline : Bytes → Bool
has_newline = any (λ c. c == newline_byte)

take-append : (p s : Bytes) (n : ℕ) → take (length p + n) (p ++ s) ≡ p ++ take n s
unfolding take
take-append [] s n = let same : 0 + n ≡ n = omega arith in ap (λ m. take m s) same
take-append (c ∷ p) s n =
    let same : suc (length p) + n ≡ suc (length p + n) = omega arith in
    ap (λ m. take m (c ∷ (p ++ s))) same ∙ ap (λ r. c ∷ r) (take-append p s n)

take-all : (s : Bytes) (n : ℕ) → length s ≤ n → take n s ≡ s
unfolding take
take-all [] zero h = refl
take-all [] (suc n) h = refl
take-all (c ∷ s) zero h = absurd (omega arith)
take-all (c ∷ s) (suc n) h = rw (take-all s n (omega arith)) refl

first_line-append : (p s : Bytes) → has_newline p ≡ false → first_line (p ++ s) ≡ p ++ first_line s
unfolding first_line has_newline
first_line-append [] s h = refl
first_line-append (c ∷ p) s h = elim (Bool-cases (c == newline_byte)) [
  | inl k ↦ ground arith
  | inr k ↦ rw k (ap (λ r. c ∷ r) (first_line-append p s (ground arith)))
]

-- Where a newline is, and what stands before it.
abbrev Found : Bytes → ℕ → Type 0
Found c k =
    (index_of newline_byte c ≡ some k)
    × (has_newline c ≡ true)
    × (first_line c ≡ take k c)
    × ((s : Bytes) → first_line (c ++ s) ≡ take k c)

index_of-cases :
    (c : Bytes)
    → ((index_of newline_byte c ≡ none) × (has_newline c ≡ false)) ⊎ ((k : ℕ) × Found c k)
unfolding index_of has_newline first_line take
index_of-cases [] = inl (refl, refl)
index_of-cases (b ∷ c) = elim (Bool-cases (b == newline_byte)) [
  | inl h ↦ inr (0, (rw h refl, rw h refl, rw h refl, λ s. rw h refl))
  | inr h ↦ elim (index_of-cases c) [
    | inl (e, n) ↦ inl (rw (h, e) refl, rw (h, n) refl)
    | inr (k, (e, n, l, f)) ↦ inr (
      suc k,
      (rw (h, e) refl, rw (h, n) refl, rw h (ap (λ r. b ∷ r) l), λ s. rw h (ap (λ r. b ∷ r) (f s))),
    )
  ]
]

has_newline-append : (p s : Bytes) → has_newline (p ++ s) ≡ (has_newline p || has_newline s)
unfolding has_newline
has_newline-append [] s = refl
has_newline-append (c ∷ p) s = ground (arith, has_newline-append p s)

-- What the loop has to come to, given the bytes under the cap.
abbrev Comes : Bytes → Scan → Type 0
Comes head r =
    ((r.first_newline ≡ none) × (r.prefix ≡ head) × (has_newline head ≡ false))
    ⊎ ((k : ℕ) × ((r.first_newline ≡ some k)
          × (take k r.prefix ≡ first_line head)
          × (has_newline head ≡ true)
          × (0 < length r.prefix)))

take_cap :
    (p s : Bytes)
    → length p ≤ first_line_cap_bytes
    → take first_line_cap_bytes (p ++ s) ≡ p ++ take (first_line_cap_bytes - length p) s
take_cap p s le =
    let whole : length p + (first_line_cap_bytes - length p) ≡ first_line_cap_bytes =
      omega (arith, le) in
    subst (λ m. take m (p ++ s) ≡ p ++ take (first_line_cap_bytes - length p) s) whole
      (take-append p s (first_line_cap_bytes - length p))

take_full : (p s : Bytes) → length p ≡ first_line_cap_bytes → take first_line_cap_bytes (p ++ s) ≡ p
unfolding take
take_full p s e =
    let none_left : first_line_cap_bytes - length p ≡ 0 = omega (arith, e) in
    take_cap p s (omega (arith, e)) ∙ ap (λ m. p ++ take m s) none_left ∙ append-nil p

stopped-Comes :
    (head prefix : Bytes)
    → has_newline prefix ≡ false
    → head ≡ prefix
    → Comes head (record { prefix = prefix; first_newline = none })
stopped-Comes head prefix n e = inl (refl, sym e, ap has_newline e ∙ n)

newline_in_chunk-Comes :
    (prefix d s : Bytes) (k : ℕ)
    → has_newline prefix ≡ false
    → length prefix + length d ≤ first_line_cap_bytes
    → 0 < length d
    → Found d k
    → Comes
        (take first_line_cap_bytes (prefix ++ (d ++ s)))
        (record { prefix = prefix ++ d; first_newline = some (length prefix + k) })
newline_in_chunk-Comes prefix d s k n le pos f =
    let t : Bytes = take (first_line_cap_bytes - length (prefix ++ d)) s in
    let head : take first_line_cap_bytes (prefix ++ (d ++ s)) ≡ prefix ++ (d ++ t) =
      ap (take first_line_cap_bytes) (sym (append_assoc prefix d s))
      ∙ take_cap (prefix ++ d) s (omega (arith, length-append prefix d, le))
      ∙ append_assoc prefix d t in
    let line : first_line (prefix ++ (d ++ t)) ≡ take (length prefix + k) (prefix ++ d) =
      first_line-append prefix (d ++ t) n
      ∙ ap (λ r. prefix ++ r) (f.3 t)
      ∙ sym (take-append prefix d k) in
    inr (
      length prefix + k,
      (
        refl,
        sym (ap first_line head ∙ line),
        ap has_newline head
            ∙ has_newline-append prefix (d ++ t)
            ∙ rw (n, has_newline-append d t, f.1) refl,
        omega (arith, length-append prefix d, pos),
      ),
    )

scan-Comes :
    (prefix : Bytes) (cs : List Bytes)
    → has_newline prefix ≡ false
    → length prefix ≤ first_line_cap_bytes
    → Fits (length prefix) cs
    → Comes (take first_line_cap_bytes (prefix ++ content cs)) (scan (length prefix) prefix cs)
unfolding scan content
scan-Comes prefix [] n le fits =
    stopped-Comes _ prefix n
      (ap (take first_line_cap_bytes) (append-nil prefix) ∙ take-all prefix first_line_cap_bytes le)
scan-Comes prefix ([] ∷ cs) n le fits = stopped-Comes _ prefix n (
    ap (λ r. take first_line_cap_bytes (prefix ++ r)) fits
    ∙ ap (take first_line_cap_bytes) (append-nil prefix)
    ∙ take-all prefix first_line_cap_bytes le)
scan-Comes prefix ((b ∷ c) ∷ cs) n le fits =
    elim (Bool-cases (ltb (length prefix) first_line_cap_bytes)) [
      | inr h ↦
          rw h (stopped-Comes _ prefix n (take_full prefix _ (omega (arith, le, ltb-false _ _ h))))
      | inl h ↦
          let within : length prefix + length (b ∷ c) ≤ first_line_cap_bytes =
            omega (arith, ltb→lt _ _ h, fits.0) in
          elim (index_of-cases (b ∷ c)) [
            | inr (k, f) ↦
                rw (h, f.0)
                  (newline_in_chunk-Comes prefix (b ∷ c) (content cs) k n within (omega arith) f)
            | inl (e, m) ↦
                rw (h, e)
                  (subst
                    (λ l.
                      Comes (take first_line_cap_bytes (prefix ++ ((b ∷ c) ++ content cs)))
                        (scan l (prefix ++ (b ∷ c)) cs))
                    (length-append prefix (b ∷ c))
                    (subst
                      (λ r.
                        Comes (take first_line_cap_bytes r)
                          (scan (length (prefix ++ (b ∷ c))) (prefix ++ (b ∷ c)) cs))
                      (append_assoc prefix (b ∷ c) (content cs))
                      (scan-Comes (prefix ++ (b ∷ c)) cs
                        (has_newline-append prefix (b ∷ c) ∙ rw (n, m) refl)
                        (omega (arith, length-append prefix (b ∷ c), within))
                        (subst (λ l. Fits l cs) (sym (length-append prefix (b ∷ c))) fits.1))))
          ]
    ]

-- What is said of a file by the bytes under its cap alone.
unfoldable pub verdict : (Bytes → Bool) → Bytes → Option Unreadable
verdict is_json head =
    if not (has_newline head) && length head == first_line_cap_bytes
    then some no_newline_in_cap
    else classify is_json (first_line head)

no_line : first_line [] ≡ []
unfolding first_line
no_line = refl

whole_line : (s : Bytes) → has_newline s ≡ false → first_line s ≡ s
whole_line s h =
    ap first_line (sym (append-nil s))
    ∙ first_line-append s [] h
    ∙ ap (λ r. s ++ r) no_line
    ∙ append-nil s

Comes-verdict :
    (is_json : Bytes → Bool) (head : Bytes) (r : Scan)
    → Comes head r
    → judge_prefix is_json r.prefix r.first_newline ≡ verdict is_json head
unfolding judge_prefix verdict
Comes-verdict is_json head r (inl (e, p, n)) = rw (e, p, n, whole_line head n) refl
Comes-verdict is_json head r (inr (k, (e, p, n, _))) = rw (e, n, p) refl

not_empty : (s : Bytes) → 0 < length s → is_no_bytes s ≡ false
not_empty [] h = absurd (omega (arith, h))
not_empty (c ∷ s) h = refl

newline-not_empty : (s : Bytes) → has_newline s ≡ true → is_no_bytes s ≡ false
unfolding has_newline
newline-not_empty [] h = ground arith
newline-not_empty (c ∷ s) h = refl

Comes-is_no_bytes :
    (head : Bytes) (r : Scan) → Comes head r → is_no_bytes r.prefix ≡ is_no_bytes head
Comes-is_no_bytes head r (inl (e, p, n)) = ap is_no_bytes p
Comes-is_no_bytes head r (inr (k, (e, p, n, pos))) =
    not_empty r.prefix pos ∙ sym (newline-not_empty head n)

-- A transcript that opens and was not checked before is judged by its first mebibyte, however its bytes
-- are cut into reads: an empty one is passed and checked again next time; one without a newline there, if
-- it has that many bytes, is refused; of any other its first line decides. The reads return no more than
-- is asked for.
pub assert_readable_jsonl-verdict :
    (is_json : Bytes → Bool) (checked : List String) (path : String) (chunks : List Bytes)
    → any (λ p. str_eq p path) checked ≡ false
    → Fits 0 chunks
    → assert_readable_jsonl is_json checked path (some chunks) ≡ (
        if is_no_bytes (take first_line_cap_bytes (content chunks))
        then record { skip = none; readability_checked = checked }
        else record {
          skip = verdict is_json (take first_line_cap_bytes (content chunks));
          readability_checked = path ∷ checked;
        })
unfolding assert_readable_jsonl
assert_readable_jsonl-verdict is_json checked path chunks fresh fits =
    let comes : Comes (take first_line_cap_bytes (content chunks)) (scan 0 [] chunks) =
      scan-Comes [] chunks (unfold has_newline in refl) (omega arith) fits in
    rw (fresh, Comes-is_no_bytes _ _ comes, Comes-verdict is_json _ _ comes) refl
