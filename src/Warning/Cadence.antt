-- ===== src/Warning/Cadence.antt =====
-- How often chat openings warn.
use elepha.Common.{
  ℕ, ◌+◌, ◌≤◌, ◌<◌, true, false, Option, none, some, List, [], ◌∷◌, ◌≡◌, refl, if◌then◌else◌, arith,
  Bool-cases, inl, inr, is_some, ◌∙◌, sym, subst,
}
use elepha.Warning.Schedule.{
  warning_bytes, urgent_warning_bytes, warning_interval_ms, Band, weekly, urgent, warning_band,
  is_due, take_in_band, take_chat_opening_warning,
}

pub record Opening : Type 0 where
  pub usage_bytes : ℕ
  pub now : ℕ

-- The times at which a run of openings warns.
unfoldable pub warning_times : Option ℕ → List Opening → List ℕ
warning_times next_due [] = []
warning_times next_due (o ∷ os) =
    let t = take_chat_opening_warning o.usage_bytes o.now next_due in
    let rest = warning_times t.next_due os in if is_some t.shown then o.now ∷ rest else rest

-- Openings in the weekly band, on a clock that does not go back.
abbrev pub Weekly : ℕ → List Opening → Type 0
Weekly before [] = Unit
Weekly before (o ∷ os) =
    (before ≤ o.now)
    × (warning_bytes ≤ o.usage_bytes)
    × (o.usage_bytes < urgent_warning_bytes)
    × Weekly o.now os

-- Times that are one interval apart at least, from a first one on.
abbrev pub Spaced : ℕ → List ℕ → Type 0
Spaced last [] = Unit
Spaced last (t ∷ ts) = (last + warning_interval_ms ≤ t) × Spaced t ts

weekly_band :
    (usage : ℕ)
    → warning_bytes ≤ usage
    → usage < urgent_warning_bytes
    → warning_band usage ≡ some weekly
unfolding warning_band
weekly_band usage h k = ground arith

due-le :
    (now last : ℕ)
    → last ≤ now
    → is_due now (some (last + warning_interval_ms)) ≡ true
    → last + warning_interval_ms ≤ now
unfolding is_due
due-le now last h k = ground arith

warning_times-Spaced :
    (last before : ℕ) (os : List Opening)
    → last ≤ before
    → Weekly before os
    → Spaced last (warning_times (some (last + warning_interval_ms)) os)
unfolding warning_times take_chat_opening_warning take_in_band
warning_times-Spaced last before [] h w = tt
warning_times-Spaced last before (o ∷ os) h w =
    rw (weekly_band o.usage_bytes w.1 w.2)
      (elim (Bool-cases (is_due o.now (some (last + warning_interval_ms)))) [
        | inl k ↦ rw k (
          due-le o.now last (omega (arith, w.0)) k,
          warning_times-Spaced o.now o.now os (omega arith) w.3,
        )
        | inr k ↦ rw k (warning_times-Spaced last o.now os (omega (arith, w.0)) w.3)
      ])

shown-next_due :
    (band : Option Band) (now : ℕ) (next_due : Option ℕ)
    → is_some (take_in_band band now next_due).shown ≡ true
    → (take_in_band band now next_due).next_due ≡ some (now + warning_interval_ms)
unfolding take_in_band
shown-next_due none now next_due h = ground arith
shown-next_due (some urgent) now next_due h = refl
shown-next_due (some weekly) now next_due h = ground arith

not_due :
    (now : ℕ) (next_due : Option ℕ)
    → is_due now next_due ≡ false
    → (due : ℕ) × (next_due ≡ some due) × (now < due) × (due ≤ now + warning_interval_ms)
unfolding is_due
not_due now none h = absurd (ground arith)
not_due now (some due) h = (due, refl, ground arith, ground arith)

not_shown :
    (band : Option Band) (now : ℕ) (next_due : Option ℕ)
    → is_some band ≡ true
    → is_some (take_in_band band now next_due).shown ≡ false
    → is_due now next_due ≡ false
unfolding take_in_band
not_shown none now next_due h k = ground arith
not_shown (some urgent) now next_due h k = ground arith
not_shown (some weekly) now next_due h k = ground arith

banded : (usage : ℕ) → warning_bytes ≤ usage → is_some (warning_band usage) ≡ true
unfolding warning_band
banded usage h = ground arith

-- After an opening that warns, later openings in the weekly band, on a clock that does not go back, warn
-- at times that are a week apart at least, the first of them a week after that opening.
pub take_chat_opening_warning-Spaced :
    (usage now : ℕ) (next_due : Option ℕ) (os : List Opening)
    → is_some (take_chat_opening_warning usage now next_due).shown ≡ true
    → Weekly now os
    → Spaced now (warning_times (take_chat_opening_warning usage now next_due).next_due os)
unfolding take_chat_opening_warning
take_chat_opening_warning-Spaced usage now next_due os h w =
    rw (shown-next_due (warning_band usage) now next_due h)
      (warning_times-Spaced now now os (omega arith) w)

unshown-next_due :
    (band : Option Band) (now : ℕ) (next_due : Option ℕ)
    → is_some band ≡ true
    → is_some (take_in_band band now next_due).shown ≡ false
    → (take_in_band band now next_due).next_due ≡ next_due
unfolding take_in_band
unshown-next_due none now next_due h k = ground arith
unshown-next_due (some urgent) now next_due h k = ground arith
unshown-next_due (some weekly) now next_due h k = ground arith

due_then : (due k : ℕ) → is_due (due + k) (some due) ≡ true
unfolding is_due
due_then due k = ground arith

shown_when_due :
    (band : Option Band) (now : ℕ) (next_due : Option ℕ)
    → is_some band ≡ true
    → is_due now next_due ≡ true
    → is_some (take_in_band band now next_due).shown ≡ true
unfolding take_in_band
shown_when_due none now next_due h k = ground arith
shown_when_due (some urgent) now next_due h k = refl
shown_when_due (some weekly) now next_due h k = rw k refl

-- An opening at the warning threshold or above that does not warn finds the next warning due within a
-- week, whatever the clock did, and leaves that due time as it is; an opening at the threshold or above
-- that comes to this schedule at the due time or later warns.
pub take_chat_opening_warning-silent :
    (usage now : ℕ) (next_due : Option ℕ) (later_usage delay : ℕ)
    → warning_bytes ≤ usage
    → warning_bytes ≤ later_usage
    → is_some (take_chat_opening_warning usage now next_due).shown ≡ false
    → (due : ℕ) × (next_due ≡ some due)
      × (now < due)
      × (due ≤ now + warning_interval_ms)
      × ((take_chat_opening_warning usage now next_due).next_due ≡ some due)
      × (is_some
            (take_chat_opening_warning later_usage
              (due + delay)
              (take_chat_opening_warning usage now next_due).next_due).shown
          ≡ true)
unfolding take_chat_opening_warning
take_chat_opening_warning-silent usage now next_due later_usage delay h l k =
    let (due, e, a, b) =
      not_due now next_due (not_shown (warning_band usage) now next_due (banded usage h) k) in
    let same = unshown-next_due (warning_band usage) now next_due (banded usage h) k ∙ e in
    (
      due,
      e,
      a,
      b,
      same,
      subst
          (λ schedule.
            is_some (take_in_band (warning_band later_usage) (due + delay) schedule).shown ≡ true)
          (sym same)
          (shown_when_due (warning_band later_usage) (due + delay) (some due) (banded later_usage l)
            (due_then due delay)),
    )
