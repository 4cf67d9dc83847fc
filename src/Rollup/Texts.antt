-- ===== src/Rollup/Texts.antt =====
-- What the rollup code uses of strings of UTF-16 code units: `join`, `trim`, comparison, and numbers
-- in decimal.
use elepha.Common.{
  ℕ, zero, suc, ◌+◌, ◌-◌, ◌*◌, ◌/◌, ◌%◌, Bool, true, false, ◌&&◌, ◌||◌, Option, none, some, List,
  [], ◌∷◌, ◌++◌, leb, ltb, ◌==◌, ◌≡◌, ◌≤◌, refl, ap, length, arith, if◌then◌else◌,
}
use elepha.Sanitize.Units.{Text}

-- `Array.prototype.join`.
unfoldable pub join : Text → List Text → Text
join separator [] = []
join separator (t ∷ ts) = elim ts [ [] ↦ t | _ ∷ _ ↦ t ++ separator ++ join separator ts ]

abbrev pub is_nil {ℓ} : {A : Type ℓ} → List A → Bool
is_nil [] = true
is_nil (_ ∷ _) = false

pub is_nil→eq : {A : Type 0} (xs : List A) → is_nil xs ≡ true → xs ≡ []
is_nil→eq [] h = refl
is_nil→eq (x ∷ xs) h = ground arith

pub is_nil-length : {A : Type 0} (xs : List A) → is_nil xs ≡ false → 1 ≤ length xs
is_nil-length [] h = ground arith
is_nil-length (x ∷ xs) h = omega arith

pub is_nil→zero : {A : Type 0} (xs : List A) → is_nil xs ≡ true → length xs ≡ 0
is_nil→zero xs h = ap length (is_nil→eq xs h)

-- White space and line ends, as `trim` and `\s` have them.
unfoldable pub is_blank : ℕ → Bool
is_blank c =
    (leb 0x09 c && leb c 0x0d)
    || c == 0x20
    || c == 0xa0
    || c == 0x1680
    || (leb 0x2000 c && leb c 0x200a)
    || c == 0x2028
    || c == 0x2029
    || c == 0x202f
    || c == 0x205f
    || c == 0x3000
    || c == 0xfeff

unfoldable pub trim_start : Text → Text
trim_start [] = []
trim_start (c ∷ s) = let rest = trim_start s in if is_blank c then rest else c ∷ s

unfoldable pub trim_end : Text → Text
trim_end [] = []
trim_end (c ∷ s) = let rest = trim_end s in if is_blank c && is_nil rest then [] else c ∷ rest

unfoldable pub trim : Text → Text
trim s = trim_end (trim_start s)

-- `===` on strings.
unfoldable pub same_text : Text → Text → Bool
same_text [] [] = true
same_text [] (_ ∷ _) = false
same_text (_ ∷ _) [] = false
same_text (a ∷ s) (b ∷ t) = a == b && same_text s t

-- The integers, as a turn index that the model claims may be negative.
pub data ℤ : Type 0 where
  pos : ℕ → ℤ
  negsuc : ℕ → ℤ

-- A number in a template literal; the fuel is more than the number, so more than its digits.
unfoldable pub decimal_from : ℕ → ℕ → Text
decimal_from zero n = []
decimal_from (suc fuel) n =
    let front = decimal_from fuel (n / 10) in
    if ltb n 10 then (b'0' + n) ∷ [] else front ++ ((b'0' + n % 10) ∷ [])

unfoldable pub decimal : ℕ → Text
decimal n = decimal_from (suc n) n

-- `\d*`, read as a number behind the digits already read; `none` where another unit follows.
unfoldable pub read_digits : ℕ → Text → Option ℕ
read_digits n [] = some n
read_digits n (c ∷ s) =
    let rest = read_digits (n * 10 + (c - b'0')) s in
    if leb b'0' c && leb c b'9' then rest else none

-- `\d+`, read as a number.
unfoldable pub read_number : Text → Option ℕ
read_number [] = none
read_number (c ∷ s) = read_digits 0 (c ∷ s)

abbrev pub negate : ℕ → ℤ
negate zero = pos zero
negate (suc n) = negsuc n

-- `/^-?\d+$/` and `Number`; beyond 2 ^ 53 the source's number is rounded, and this one is not.
unfoldable pub read_integer : Text → Option ℤ
read_integer [] = none
read_integer (c ∷ s) =
    if c == b'-'
    then elim (read_number s) [ none ↦ none | some n ↦ some (negate n) ]
    else elim (read_number (c ∷ s)) [ none ↦ none | some n ↦ some (pos n) ]
