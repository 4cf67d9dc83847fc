-- ===== src/Daemon/FailureWindow/Examples.antt =====
-- A run of the failure window, and its theorems on it.
use elepha.Common.{◌≡◌, refl, [], ◌∷◌, List, false}
use elepha.Daemon.FailureWindow.Window.{
  SummarizerStatus, ok, parse_error, api_error, empty_turn, warning, recovered, new, failures,
  slide, is_sustained, track_call, track_outcome, track_all,
}
use elepha.Daemon.FailureWindow.Laws.{
  outcomes, window_of, track_all-window_of, Alternates, track_all-Alternates,
}

abbrev outage : List SummarizerStatus
outage = ok ∷ api_error ∷ empty_turn ∷ parse_error ∷ ok ∷ ok ∷ ok ∷ ok ∷ api_error ∷ api_error ∷ []

outage_log : (track_all new outage).1 ≡ warning 2 5 ∷ recovered 2 7 ∷ warning 3 8 ∷ []
unfolding track_all new failures slide is_sustained track_call track_outcome
outage_log = refl

track_all-window_of_example : (track_all new outage).0 ≡ window_of (outcomes outage)
track_all-window_of_example = track_all-window_of outage

track_all-Alternates_example : Alternates false (track_all new outage).1
track_all-Alternates_example = track_all-Alternates outage
