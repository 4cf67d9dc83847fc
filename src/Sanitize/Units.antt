-- ===== src/Sanitize/Units.antt =====
-- src/security/sanitize.ts: the tests on code units, and the removal of control sequences.
use elepha.Common.{
  ℕ, zero, suc, ◌%◌, Bool, not, ◌&&◌, ◌||◌, Option, none, some, List, [], ◌∷◌, leb, ◌==◌,
  if◌then◌else◌, any, keep,
}

abbrev pub Text : Type 0
Text = List ℕ

abbrev pub backslash : ℕ
backslash = 0x5c

abbrev pub backtick : ℕ
backtick = 0x60

abbrev pub less : ℕ
less = 0x3c

-- `PAIRED_OPENERS`: `$(`, `${`, `>(`, `<(`.
abbrev pub is_opener : ℕ → ℕ → Bool
is_opener c d =
    (c == b'$' && (d == b'(' || d == b'{')) || (c == b'>' && d == b'(') || (c == less && d == b'(')

-- `HEREDOC`.
abbrev pub is_heredoc : ℕ → ℕ → Bool
is_heredoc c d = c == less && d == less

-- The two units are a paired opener or `<<`.
unfoldable pub is_token : ℕ → ℕ → Bool
is_token c d = is_opener c d || is_heredoc c d

-- Backslashes that end the text before a unit, which is given with its last unit first.
unfoldable pub preceding_backslashes : Text → ℕ
preceding_backslashes [] = 0
preceding_backslashes (c ∷ before) =
    let more = suc (preceding_backslashes before) in if c == backslash then more else 0

unfoldable pub is_active : Text → Bool
is_active before = preceding_backslashes before % 2 == 0

-- `CONTROL_RE`: the control characters, but tab and newline.
unfoldable pub is_control : ℕ → Bool
is_control c = leb c 0x08 || (leb 0x0b c && leb c 0x1f) || (leb 0x7f c && leb c 0x9f)

abbrev pub esc : ℕ
esc = 0x1b

-- The units of a CSI after `\x1b[`: `[0-?]*[ -/]*[@-~]`. `none`: the first alternative fails.
unfoldable pub csi_final : Text → Option ℕ
csi_final [] = none
csi_final (c ∷ s) =
    let rest = csi_final s in
    if leb 0x20 c && leb c 0x2f
    then elim rest [ none ↦ none | some n ↦ some (suc n) ]
    else if leb 0x40 c && leb c 0x7e
    then some 1
    else none

unfoldable pub csi_length : Text → Option ℕ
csi_length [] = none
csi_length (c ∷ s) =
    let rest = csi_length s in
    if leb 0x30 c && leb c 0x3f
    then elim rest [ none ↦ none | some n ↦ some (suc n) ]
    else csi_final (c ∷ s)

-- The units of an OSC after `\x1b]`: `[^\x07\x1b]*(?:\x07|\x1b\\)?`.
unfoldable pub osc_length : Text → ℕ
osc_length [] = 0
osc_length (c ∷ s) =
    let rest = suc (osc_length s) in
    if c == 0x07
    then 1
    else if c == esc
    then elim s [ [] ↦ 0 | d ∷ _ ↦ if d == backslash then 2 else 0 ]
    else rest

-- How many units after an ESC belong to the match of `ANSI_RE` that starts there.
unfoldable pub ansi_length : Text → ℕ
ansi_length [] = 0
ansi_length (c ∷ s) =
    let csi : ℕ = elim (csi_length s) [ none ↦ 1 | some n ↦ suc n ] in
    let osc : ℕ = suc (osc_length s) in
    if c == b'[' then csi else if c == b']' then osc else if leb 0x40 c && leb c 0x5f then 1 else 0

-- `replace(ANSI_RE, '')`; the first argument is what is left of the current match.
unfoldable pub strip_ansi : ℕ → Text → Text
strip_ansi skip [] = []
strip_ansi (suc n) (c ∷ s) = strip_ansi n s
strip_ansi zero (c ∷ s) =
    let matched = strip_ansi (ansi_length s) s in
    let kept = c ∷ strip_ansi zero s in if c == esc then matched else kept

unfoldable pub strip_controls : Text → Text
strip_controls s = keep (λ c. not (is_control c)) (strip_ansi zero s)

-- `ANSI_RE.test`: its last alternative matches every ESC.
abbrev pub ansi_test : Text → Bool
ansi_test = any (λ c. c == esc)

-- `CONTROL_RE.test`.
abbrev pub control_test : Text → Bool
control_test = any is_control
