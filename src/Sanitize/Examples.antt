-- ===== src/Sanitize/Examples.antt =====
-- Runs of the sanitizer, and its theorems at concrete texts.
use elepha.Common.{◌≡◌, refl, ◌∷◌, true, false, ◌+◌, ◌⊎◌, suc}
use elepha.Common.Codes.{codes}
use elepha.Sanitize.Breaking.{has_overlap}
use elepha.Sanitize.Nesting.{nest, strip_shell_syntax-nest}
use elepha.Sanitize.Stripped.{EachShortens, detect-strip_shell_syntax}
use elepha.Sanitize.Escaped.{
  detect-escape_shell_syntax, escape_shell_syntax_of_undetected, escape_shell_syntax_idempotent,
  assert_no_shell_syntax_lem,
}
use elepha.Sanitize.Units.{
  is_token, preceding_backslashes, is_active, is_control, csi_final, csi_length, osc_length,
  ansi_length, strip_ansi, strip_controls,
}
use elepha.Sanitize.Chains.{
  is_terminator, lines, join, is_operator, split_blank, split_chain, any_active, escape_active,
  has_active_chain_character, leading_chain, rewrite_line, map_bodies, any_body,
  rewrite_leading_chains, detect_active_leading_chain,
}
use elepha.Sanitize.Strip.{
  max_passes, drop_closer, remove_openers, remove_heredocs, strip_pass, same_text, strip_passes,
  strip_shell_syntax,
}
use elepha.Sanitize.Escape.{break_pairs, escape_backticks, escape_chain, escape_shell_syntax}
use elepha.Sanitize.Detect.{has_active_unit, detect_shell_syntax, assert_no_shell_syntax}

-- To unfold this is to run the sanitizer.
Running : Type 0
unfolding is_token preceding_backslashes is_active is_control csi_final csi_length osc_length
    ansi_length strip_ansi strip_controls is_terminator lines join is_operator split_blank
    split_chain any_active escape_active has_active_chain_character leading_chain rewrite_line
    map_bodies any_body rewrite_leading_chains detect_active_leading_chain drop_closer
    remove_openers remove_heredocs strip_pass same_text strip_passes strip_shell_syntax break_pairs
    escape_backticks escape_chain escape_shell_syntax has_active_unit detect_shell_syntax
Running = Unit

escaped_chain : escape_shell_syntax (codes "build\n\\|| deploy") ≡ codes "build\n\\|\\| deploy"
unfolding Running
escaped_chain = refl

escaped_ticks : escape_shell_syntax (codes "run `date`") ≡ codes "run \\`date\\`"
unfolding Running
escaped_ticks = refl

stripped_nest : strip_shell_syntax (codes "$($(date)) `x` <<EOF\n | a") ≡ codes "date x EOF\n  a"
unfolding Running
stripped_nest = refl

stripped_colour : strip_controls (0x1b ∷ codes "[31mred") ≡ codes "red"
unfolding Running
stripped_colour = refl

no_overlap : has_overlap (strip_controls (codes "$(date)")) ≡ false
unfolding Running has_overlap
no_overlap = refl

undetected : detect_shell_syntax (codes "a \\| b") ≡ false
unfolding Running
undetected = refl

detect-escape_shell_syntax_example :
    detect_shell_syntax (escape_shell_syntax (codes "cat <<<EOF"))
    ≡ has_overlap (strip_controls (codes "cat <<<EOF"))
detect-escape_shell_syntax_example = detect-escape_shell_syntax (codes "cat <<<EOF")

escape_shell_syntax_of_undetected_example : escape_shell_syntax (codes "a \\| b") ≡ codes "a \\| b"
escape_shell_syntax_of_undetected_example =
    escape_shell_syntax_of_undetected (codes "a \\| b") undetected

escape_shell_syntax_idempotent_example :
    escape_shell_syntax (escape_shell_syntax (codes "$(date)"))
    ≡ escape_shell_syntax (codes "$(date)")
escape_shell_syntax_idempotent_example = escape_shell_syntax_idempotent (codes "$(date)") no_overlap

assert_no_shell_syntax_lem_example : assert_no_shell_syntax (codes "`x`") ≡ record {
  text = escape_shell_syntax (codes "`x`");
  repaired = detect_shell_syntax (codes "`x`");
}
assert_no_shell_syntax_lem_example = assert_no_shell_syntax_lem (codes "`x`")

detect-strip_shell_syntax_example :
    (detect_shell_syntax (strip_shell_syntax (codes "$(date)")) ≡ false)
    ⊎ EachShortens 8 (strip_controls (codes "$(date)"))
detect-strip_shell_syntax_example = detect-strip_shell_syntax (codes "$(date)")

strip_shell_syntax-nest_example :
    (strip_shell_syntax (nest (suc 1 + max_passes)) ≡ nest (suc 1))
    × (detect_shell_syntax (strip_shell_syntax (nest (suc 1 + max_passes))) ≡ true)
strip_shell_syntax-nest_example = strip_shell_syntax-nest 1
