-- ===== src/Daemon/FailureWindow/Window.antt =====
-- src/daemon/failure-window.ts. A message of the log is its kind and the counts that it prints. The rate
-- is compared without a division: of at most 20 outcomes, where doubles compare alike.
use elepha.Common.{
  ℕ, suc, ◌*◌, Bool, true, false, not, ◌&&◌, Option, none, some, List, [], ◌∷◌, ◌++◌, if◌then◌else◌,
  leb, ltb, length,
}

pub data SummarizerStatus : Type 0 where
  ok parse_error api_error empty_turn not_configured : SummarizerStatus

pub record FailureWindow : Type 0 where
  pub recent_outcomes : List Bool  -- true = failed
  pub sustained_failure_active : Bool

pub data Message : Type 0 where
  warning : (failed calls : ℕ) → Message
  recovered : (failed calls : ℕ) → Message

abbrev pub failure_window_size : ℕ
failure_window_size = 20

abbrev pub failure_window_min_samples : ℕ
failure_window_min_samples = 5

unfoldable pub new : FailureWindow
new = record { recent_outcomes = []; sustained_failure_active = false }

abbrev pub is_failure : SummarizerStatus → Bool
is_failure ok = false
is_failure _ = true

-- `filter(Boolean).length`.
unfoldable pub failures : List Bool → ℕ
failures [] = 0
failures (true ∷ xs) = suc (failures xs)
failures (false ∷ xs) = failures xs

abbrev pub shift : List Bool → List Bool
shift [] = []
shift (_ ∷ xs) = xs

-- `push`, then `shift` if the window is longer than its size.
unfoldable pub slide : List Bool → Bool → List Bool
slide outcomes failed =
    let longer = outcomes ++ failed ∷ [] in
    if ltb failure_window_size (length longer) then shift longer else longer

-- `failureRate >= FAILURE_RATE_THRESHOLD`, which is 0.3.
unfoldable pub is_sustained : List Bool → Bool
is_sustained outcomes = leb (3 * length outcomes) (10 * failures outcomes)

-- `trackOutcome` on a call that was made.
unfoldable pub track_call : FailureWindow → Bool → FailureWindow × Option Message
track_call w failed =
    let recent = slide w.recent_outcomes failed in
    let w' = record w { recent_outcomes = recent } in
    if ltb (length recent) failure_window_min_samples
    then (w', none)
    else if is_sustained recent && not w.sustained_failure_active
    then (
      record w' { sustained_failure_active = true },
      some (warning (failures recent) (length recent)),
    )
    else if not (is_sustained recent) && w.sustained_failure_active
    then (
      record w' { sustained_failure_active = false },
      some (recovered (failures recent) (length recent)),
    )
    else (w', none)

unfoldable pub track_outcome : FailureWindow → SummarizerStatus → FailureWindow × Option Message
track_outcome w empty_turn = (w, none)
track_outcome w status = track_call w (is_failure status)

abbrev pub logged : Option Message → List Message → List Message
logged none log = log
logged (some m) log = m ∷ log

-- The window after the calls of a run, and what was logged, oldest first.
unfoldable pub track_all : FailureWindow → List SummarizerStatus → FailureWindow × List Message
track_all w [] = (w, [])
track_all w (s ∷ ss) =
    let (w', message) = track_outcome w s in
    let (last, log) = track_all w' ss in (last, logged message log)
