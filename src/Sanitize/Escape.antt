-- ===== src/Sanitize/Escape.antt =====
-- src/security/sanitize.ts: `escapeShellSyntax`, for decisions.
use elepha.Common.{ℕ, Bool, [], ◌∷◌, ◌==◌, if◌then◌else◌}
use elepha.Sanitize.Units.{Text, backslash, backtick, is_token, strip_controls}
use elepha.Sanitize.Chains.{escape_active, not_backslash, rewrite_leading_chains}

-- The first loop: a backslash inside each paired opener and each `<<`, left to right.
unfoldable pub break_pairs : Text → Text
break_pairs [] = []
break_pairs (c ∷ []) = c ∷ []
break_pairs (c ∷ d ∷ s) =
    let broken = c ∷ backslash ∷ d ∷ break_pairs s in
    let kept = c ∷ break_pairs (d ∷ s) in if is_token c d then broken else kept

abbrev pub is_backtick : ℕ → Bool
is_backtick c = c == backtick

unfoldable pub escape_backticks : Text → Text
escape_backticks s = escape_active is_backtick [] s

unfoldable pub escape_chain : Text → Text
escape_chain chain = escape_active not_backslash [] chain

unfoldable pub escape_shell_syntax : Text → Text
escape_shell_syntax input =
    rewrite_leading_chains escape_chain (escape_backticks (break_pairs (strip_controls input)))
