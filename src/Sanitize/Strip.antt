-- ===== src/Sanitize/Strip.antt =====
-- src/security/sanitize.ts: `stripShellSyntax`, for display strings.
use elepha.Common.{
  ℕ, zero, suc, ◌-◌, Bool, true, false, not, ◌&&◌, [], ◌∷◌, ◌==◌, if◌then◌else◌, length, keep,
}
use elepha.Sanitize.Units.{Text, backtick, is_opener, is_heredoc, strip_controls}
use elepha.Sanitize.Chains.{rewrite_leading_chains}

-- `findMatchingCloser` and the removal of what it finds: the text after an opener, without the closer
-- that matches at this depth; unchanged if there is none.
unfoldable pub drop_closer : (opener closer depth : ℕ) → Text → Text
drop_closer opener closer depth [] = []
drop_closer opener closer depth (c ∷ s) =
    let deeper = c ∷ drop_closer opener closer (suc depth) s in
    let shallower = c ∷ drop_closer opener closer (depth - 1) s in
    let same = c ∷ drop_closer opener closer depth s in
    if c == opener
    then deeper
    else if c == closer
    then if depth == 0 then s else shallower
    else same

-- The inner `while`: the units from position `i` on. Each round drops a unit at least, so the length
-- of the text is fuel enough.
unfoldable pub remove_openers : ℕ → Text → Text
remove_openers zero s = s
remove_openers (suc n) [] = []
remove_openers (suc n) (c ∷ []) = c ∷ []
remove_openers (suc n) (c ∷ d ∷ s) =
    let close = if d == b'(' then b')' else b'}' in
    let removed = remove_openers n (drop_closer d close 0 s) in
    let kept = c ∷ remove_openers n (d ∷ s) in if is_opener c d then removed else kept

-- `split('<<').join('')`.
unfoldable pub remove_heredocs : Text → Text
remove_heredocs [] = []
remove_heredocs (c ∷ []) = c ∷ []
remove_heredocs (c ∷ d ∷ s) =
    let removed = remove_heredocs s in
    let kept = c ∷ remove_heredocs (d ∷ s) in if is_heredoc c d then removed else kept

unfoldable pub strip_pass : Text → Text
strip_pass s =
    let opened = remove_openers (length s) s in
    let ticked = keep (λ c. not (c == backtick)) opened in
    rewrite_leading_chains (λ _. []) (remove_heredocs ticked)

-- `s === before`.
unfoldable pub same_text : Text → Text → Bool
same_text [] [] = true
same_text (c ∷ s) (d ∷ t) = c == d && same_text s t
same_text _ _ = false

unfoldable pub strip_passes : ℕ → Text → Text
strip_passes zero s = s
strip_passes (suc n) s =
    let next = strip_pass s in
    let more = strip_passes n next in if same_text next s then next else more

abbrev pub max_passes : ℕ
max_passes = 8

unfoldable pub strip_shell_syntax : Text → Text
strip_shell_syntax input = strip_passes max_passes (strip_controls input)
