-- ===== src/Sanitize/Chains.antt =====
-- src/security/sanitize.ts: `LINE_LEADING_CHAIN_RE`, /^([ \t]*)((?:\\*[|;&])+)/gm, line by line. Neither
-- group can hold a line terminator, so each line has at most the one match at its start.
use elepha.Common.{ℕ, Bool, true, false, not, ◌&&◌, ◌||◌, [], ◌∷◌, ◌++◌, ◌==◌, if◌then◌else◌}
use elepha.Sanitize.Units.{Text, backslash, is_active}

-- What `^` and `m` take for the end of a line.
unfoldable pub is_terminator : ℕ → Bool
is_terminator c = c == 0x0a || c == 0x0d || c == 0x2028 || c == 0x2029

-- The lines of a text, each but the last with the terminator that ends it.
pub data Lines : Type 0 where
  last : Text → Lines
  line : Text → ℕ → Lines → Lines

abbrev pub push : ℕ → Lines → Lines
push c (last b) = last (c ∷ b)
push c (line b t ls) = line (c ∷ b) t ls

unfoldable pub lines : Text → Lines
lines [] = last []
lines (c ∷ s) = let ls = lines s in if is_terminator c then line [] c ls else push c ls

unfoldable pub join : Lines → Text
join (last b) = b
join (line b t ls) = b ++ (t ∷ join ls)

unfoldable pub is_operator : ℕ → Bool
is_operator c = c == b'|' || c == b';' || c == b'&'

abbrev pub is_blank : ℕ → Bool
is_blank c = c == 0x20 || c == 0x09

-- `[ \t]*` and what follows.
unfoldable pub split_blank : Text → Text × Text
split_blank [] = ([], [])
split_blank (c ∷ s) =
    let (b, r) = split_blank s in
    let more : Text × Text = (c ∷ b, r) in if is_blank c then more else ([], c ∷ s)

abbrev pub is_empty : Text → Bool
is_empty [] = true
is_empty (_ ∷ _) = false

-- The longest start that reads `(?:\\*[|;&])*`, and what follows: a run of backslashes belongs to the
-- chain if an operator ends it.
unfoldable pub split_chain : Text → Text × Text
split_chain [] = ([], [])
split_chain (c ∷ s) =
    let (chain, rest) = split_chain s in
    if is_operator c || (c == backslash && not (is_empty chain))
    then (c ∷ chain, rest)
    else ([], c ∷ s)

-- A unit that `hit` picks and that an even number of backslashes precede.
unfoldable pub any_active : (ℕ → Bool) → Text → Text → Bool
any_active hit before [] = false
any_active hit before (c ∷ s) = (hit c && is_active before) || any_active hit (c ∷ before) s

-- A backslash before each such unit.
unfoldable pub escape_active : (ℕ → Bool) → Text → Text → Text
escape_active hit before [] = []
escape_active hit before (c ∷ s) =
    let rest = escape_active hit (c ∷ before) s in
    if hit c && is_active before then backslash ∷ c ∷ rest else c ∷ rest

abbrev pub not_backslash : ℕ → Bool
not_backslash c = not (c == backslash)

unfoldable pub has_active_chain_character : Text → Bool
has_active_chain_character chain = any_active not_backslash [] chain

-- The chain that starts a line.
unfoldable pub leading_chain : Text → Text
leading_chain s = (split_chain (split_blank s).1).0

-- One match of `replace`, on a line without its terminator.
unfoldable pub rewrite_line : (Text → Text) → Text → Text
rewrite_line rewrite s =
    let (indentation, found) = split_blank s in
    let (chain, rest) = split_chain found in
    if has_active_chain_character chain then indentation ++ (rewrite chain ++ rest) else s

unfoldable pub map_bodies : (Text → Text) → Lines → Lines
map_bodies f (last b) = last (f b)
map_bodies f (line b t ls) = line (f b) t (map_bodies f ls)

unfoldable pub any_body : (Text → Bool) → Lines → Bool
any_body p (last b) = p b
any_body p (line b t ls) = p b || any_body p ls

unfoldable pub rewrite_leading_chains : (Text → Text) → Text → Text
rewrite_leading_chains rewrite s = join (map_bodies (rewrite_line rewrite) (lines s))

unfoldable pub detect_active_leading_chain : Text → Bool
detect_active_leading_chain s =
    any_body (λ b. has_active_chain_character (leading_chain b)) (lines s)
