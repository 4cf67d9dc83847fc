-- ===== src/Warning/Examples.antt =====
-- Two openings of one week, and the theorems at them.
use elepha.Common.{
  ◌≡◌, ◌≤◌, ◌<◌, ◌+◌, ℕ, true, false, none, some, List, [], ◌∷◌, refl, arith, is_some,
}
use elepha.Warning.Schedule.{
  warning_band, is_due, take_in_band, take_chat_opening_warning, warning_interval_ms,
}
use elepha.Warning.Cadence.{
  Opening, warning_times, Spaced, take_chat_opening_warning-Spaced,
  take_chat_opening_warning-silent,
}

abbrev openings : List Opening
openings =
    record { usage_bytes = 4_000_000_000; now = 700 }
    ∷ record { usage_bytes = 4_100_000_000; now = 604_800_500 }
    ∷ []

warned_first : is_some (take_chat_opening_warning 4_000_000_000 500 none).shown ≡ true
unfolding take_chat_opening_warning take_in_band warning_band is_due
warned_first = refl

silent_second :
    is_some (take_chat_opening_warning 4_000_000_000 700 (some 604_800_500)).shown ≡ false
unfolding take_chat_opening_warning take_in_band warning_band is_due
silent_second = refl

warned_times : warning_times (some 604_800_500) openings ≡ 604_800_500 ∷ []
unfolding warning_times take_chat_opening_warning take_in_band warning_band is_due
warned_times = refl

take_chat_opening_warning-Spaced_example :
    Spaced 500 (warning_times (take_chat_opening_warning 4_000_000_000 500 none).next_due openings)
take_chat_opening_warning-Spaced_example =
    take_chat_opening_warning-Spaced 4_000_000_000 500 none openings warned_first
      (omega arith, omega arith, omega arith, (omega arith, omega arith, omega arith, tt))

take_chat_opening_warning-silent_example :
    (due : ℕ) × (some 604_800_500 ≡ some due)
    × (700 < due)
    × (due ≤ 700 + warning_interval_ms)
    × ((take_chat_opening_warning 4_000_000_000 700 (some 604_800_500)).next_due ≡ some due)
    × (is_some
          (take_chat_opening_warning 4_200_000_000
            (due + 60)
            (take_chat_opening_warning 4_000_000_000 700 (some 604_800_500)).next_due).shown
        ≡ true)
take_chat_opening_warning-silent_example =
    take_chat_opening_warning-silent 4_000_000_000 700 (some 604_800_500) 4_200_000_000 60
      (omega arith) (omega arith) silent_second
