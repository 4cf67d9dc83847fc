-- ===== src/Rollup/Carry.antt =====
-- src/summarizer/rollup-prompt.ts: the carried rollup in the prompt of a merge.
use elepha.Common.{
  ℕ, zero, suc, not, ◌&&◌, none, some, List, [], ◌∷◌, ◌++◌, leb, ltb, length, if◌then◌else◌,
}
use mathlib.Core.List.{map}
use elepha.Common.Codes.{codes}
use elepha.Sanitize.Units.{Text}
use elepha.Rollup.Texts.{join, is_nil, decimal}
use elepha.Rollup.Decisions.{RollupDecision, first}
use elepha.Rollup.Prompt.{RollupTurnInput, omitted_marker, rest_of, render_turns}

-- `MAX_ROLLUP_CARRY_CHARS`.
abbrev pub max_rollup_carry_chars : ℕ
max_rollup_carry_chars = 4000

pub record PreviousRollup : Type 0 where
  pub title : Text
  pub summary : Text
  pub decisions : List RollupDecision
  pub instructions : List RollupDecision
  pub pending_items : List Text

-- The variables of `renderPreviousRollup`.
pub record CarryView : Type 0 where
  pub summary : Text
  pub decisions : List RollupDecision
  pub dropped : ℕ
  pub instructions : List RollupDecision
  pub dropped_instructions : ℕ

-- `text || '(none)'`.
abbrev pub or_none : Text → Text
or_none [] = codes "(none)"
or_none (c ∷ s) = c ∷ s

unfoldable pub carried_decision : RollupDecision → Text
carried_decision d =
    d.what
    ++ codes " (because "
    ++ elim d.why [ none ↦ codes "undefined" | some why ↦ why ]
    ++ codes ")"

unfoldable pub carried_instruction : RollupDecision → Text
carried_instruction d =
    let reason : Text = elim d.why [
      | none ↦ []
      | some why ↦ if is_nil why then [] else codes " (because " ++ why ++ codes ")"
    ] in
    let turn : Text = elim d.turn_index [
      | none ↦ []
      | some i ↦ codes " [turn_index: " ++ decimal i ++ codes "]"
    ] in
    d.what ++ reason ++ turn

-- A marker where items were dropped, in front of the items.
unfoldable pub after_marker : ℕ → Text → List Text → List Text
after_marker dropped what texts =
    if ltb 0 dropped then omitted_marker dropped what ∷ texts else texts

-- `render`.
unfoldable pub render_view : PreviousRollup → CarryView → Text
render_view previous v =
    let instructions : List Text =
      if is_nil v.instructions && not (ltb 0 v.dropped_instructions)
      then []
      else (codes "instructions: "
          ++ join (codes " | ") (
              after_marker v.dropped_instructions (codes "instructions")
                (map carried_instruction v.instructions)))
        ∷ [] in
    join (codes "\n") (
      (codes "<previous_rollup>"
        ∷ (codes "title: " ++ previous.title)
        ∷ (codes "summary: " ++ v.summary)
        ∷ (codes "decisions: "
            ++ or_none (
                join (codes " | ")
                  (after_marker v.dropped (codes "decisions") (map carried_decision v.decisions))))
        ∷ [])
      ++ instructions
      ++ ((codes "pending_items: " ++ or_none (join (codes " | ") previous.pending_items))
          ∷ codes "</previous_rollup>"
          ∷ []))

-- `summary.slice(0, 240)` with an ellipsis, where the summary is longer.
unfoldable pub shortened : Text → Text
shortened summary = if ltb 240 (length summary) then first 240 summary ++ (0x2026 ∷ []) else summary

-- The loop that drops decisions from the front, on fuel.
unfoldable pub drop_decisions : ℕ → PreviousRollup → ℕ → CarryView → CarryView
drop_decisions zero previous max_chars v = v
drop_decisions (suc fuel) previous max_chars v =
    let rest =
      drop_decisions fuel previous max_chars
        (record v { decisions = rest_of v.decisions; dropped = suc v.dropped }) in
    if ltb max_chars (length (render_view previous v)) && ltb 1 (length v.decisions)
    then rest
    else v

-- The loop that drops instructions, on fuel.
unfoldable pub drop_instructions : ℕ → PreviousRollup → ℕ → CarryView → CarryView
drop_instructions zero previous max_chars v = v
drop_instructions (suc fuel) previous max_chars v =
    let rest = drop_instructions fuel previous max_chars (record v {
      instructions = rest_of v.instructions;
      dropped_instructions = suc v.dropped_instructions;
    }) in
    if ltb max_chars (length (render_view previous v)) && ltb 0 (length v.instructions)
    then rest
    else v

abbrev pub whole_view : PreviousRollup → Text → CarryView
whole_view previous summary = record {
  summary = summary;
  decisions = previous.decisions;
  dropped = 0;
  instructions = previous.instructions;
  dropped_instructions = 0;
}

unfoldable pub render_previous_rollup : PreviousRollup → ℕ → Text
render_previous_rollup previous max_chars =
    let whole = whole_view previous previous.summary in
    let fewer_decisions =
      drop_decisions (length previous.decisions) previous max_chars
        (whole_view previous (shortened previous.summary)) in
    let fewer_instructions =
      drop_instructions (length previous.instructions) previous max_chars fewer_decisions in
    if leb (length (render_view previous whole)) max_chars
    then render_view previous whole
    else render_view previous fewer_instructions

unfoldable pub build_rollup_merge_user_content : PreviousRollup → List RollupTurnInput → Text
build_rollup_merge_user_content previous new_turns =
    render_previous_rollup previous max_rollup_carry_chars
    ++ codes "\n<new_turns>\n"
    ++ render_turns new_turns
    ++ codes "\n</new_turns>"
