-- ===== src/Sanitize/Detect.antt =====
-- src/security/sanitize.ts: `detectShellSyntax` and `assertNoShellSyntax`.
use elepha.Common.{ℕ, Bool, true, false, ◌&&◌, ◌||◌, [], ◌∷◌, ◌==◌, if◌then◌else◌}
use elepha.Sanitize.Units.{Text, backtick, is_token, is_active, ansi_test, control_test}
use elepha.Sanitize.Chains.{detect_active_leading_chain}
use elepha.Sanitize.Escape.{escape_shell_syntax}

-- A two-unit token starts at `c`.
abbrev pub starts_token : ℕ → Text → Bool
starts_token c [] = false
starts_token c (d ∷ _) = is_token c d

-- The loop over the units.
unfoldable pub has_active_unit : Text → Text → Bool
has_active_unit before [] = false
has_active_unit before (c ∷ s) =
    (c == backtick && is_active before) || starts_token c s || has_active_unit (c ∷ before) s

unfoldable pub detect_shell_syntax : Text → Bool
detect_shell_syntax input =
    if ansi_test input || control_test input
    then true
    else if has_active_unit [] input
    then true
    else detect_active_leading_chain input

pub record Checked : Type 0 where
  pub text : Text
  pub repaired : Bool

-- The text to serve, and whether it had to be repaired; the log line is left out.
unfoldable pub assert_no_shell_syntax : Text → Checked
assert_no_shell_syntax text =
    if detect_shell_syntax text
    then record { text = escape_shell_syntax text; repaired = true }
    else record { text = text; repaired = false }
