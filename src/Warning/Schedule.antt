-- ===== src/Warning/Schedule.antt =====
-- src/storage/live-memory-warning.ts: the bands of warning, and what one chat opening does to the schedule.
-- The row of the schedule is `some` of its due time, `none` where there is no row.
use elepha.Common.{ℕ, ◌+◌, ◌-◌, Bool, true, not, ◌||◌, Option, none, some, if◌then◌else◌, leb, ltb}

abbrev pub warning_bytes : ℕ
warning_bytes = 4_000_000_000

abbrev pub urgent_warning_bytes : ℕ
urgent_warning_bytes = 4_750_000_000

abbrev pub warning_interval_ms : ℕ
warning_interval_ms = 604_800_000

pub data Band : Type 0 where
  weekly urgent : Band

unfoldable pub warning_band : ℕ → Option Band
warning_band usage_bytes =
    if leb urgent_warning_bytes usage_bytes
    then some urgent
    else if leb warning_bytes usage_bytes
    then some weekly
    else none

-- A due time more than one interval ahead counts as due.
unfoldable pub is_due : ℕ → Option ℕ → Bool
is_due now none = true
is_due now (some next_due) = leb next_due now || ltb warning_interval_ms (next_due - now)

-- What a chat opening shows, and the schedule it leaves.
pub record Taken : Type 0 where
  pub shown : Option Band
  pub next_due : Option ℕ

-- The transaction of `takeChatOpeningLiveMemoryWarning`, in a band.
unfoldable pub take_in_band : Option Band → ℕ → Option ℕ → Taken
take_in_band none now next_due = record { shown = none; next_due = none }
take_in_band (some urgent) now next_due = record {
  shown = some urgent;
  next_due = some (now + warning_interval_ms);
}
take_in_band (some weekly) now next_due =
    if not (is_due now next_due)
    then record { shown = none; next_due = next_due }
    else record { shown = some weekly; next_due = some (now + warning_interval_ms) }

unfoldable pub take_chat_opening_warning : ℕ → ℕ → Option ℕ → Taken
take_chat_opening_warning usage_bytes now next_due =
    take_in_band (warning_band usage_bytes) now next_due
