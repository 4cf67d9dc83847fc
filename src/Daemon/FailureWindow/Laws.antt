-- ===== src/Daemon/FailureWindow/Laws.antt =====
-- What holds of the failure window over any run.
use mathlib.Core.List.{append-nil, append_assoc}
use elepha.Common.{
  ℕ, zero, suc, ◌+◌, ◌-◌, ◌*◌, ◌≤◌, ◌<◌, Bool, true, false, ◌&&◌, List, [], ◌∷◌, ◌++◌, ◌≡◌, refl,
  ap, sym, ◌∙◌, leb, leb→le, arith, length, length-append, Bool-cases, inl, inr,
}
use elepha.Daemon.FailureWindow.Window.{
  SummarizerStatus, ok, parse_error, api_error, not_configured, empty_turn, FailureWindow, Message,
  warning, recovered, failure_window_size, failure_window_min_samples, new, is_failure, shift,
  slide, is_sustained, track_call, track_outcome, logged, track_all,
}

-- The outcomes of the calls that were made.
abbrev pub outcomes : List SummarizerStatus → List Bool
outcomes [] = []
outcomes (empty_turn ∷ ss) = outcomes ss
outcomes (s ∷ ss) = is_failure s ∷ outcomes ss

abbrev pub drop : ℕ → List Bool → List Bool
drop zero xs = xs
drop (suc n) [] = []
drop (suc n) (x ∷ xs) = drop n xs

-- The last twenty of a list.
abbrev pub newest : List Bool → List Bool
newest xs = drop (length xs - failure_window_size) xs

drop-append : (n : ℕ) (xs ys : List Bool) → n ≤ length xs → drop n (xs ++ ys) ≡ drop n xs ++ ys
drop-append zero xs ys h = refl
drop-append (suc n) [] ys h = elim h [ ]
drop-append (suc n) (x ∷ xs) ys h = drop-append n xs ys (omega arith)

shift-drop : (n : ℕ) (xs : List Bool) → shift (drop n xs) ≡ drop (suc n) xs
shift-drop zero [] = refl
shift-drop zero (x ∷ xs) = refl
shift-drop (suc n) [] = refl
shift-drop (suc n) (x ∷ xs) = shift-drop n xs

length-drop : (n : ℕ) (xs : List Bool) → length (drop n xs) ≡ length xs - n
length-drop zero xs = omega arith
length-drop (suc n) [] = omega arith
length-drop (suc n) (x ∷ xs) = omega (arith, length-drop n xs)

slide-newest : (xs : List Bool) (b : Bool) → slide (newest xs) b ≡ newest (xs ++ b ∷ [])
unfolding slide
slide-newest xs b =
    let n : ℕ = length xs - failure_window_size in
    let after : length (newest xs ++ b ∷ []) ≡ length xs - n + 1 =
      omega (arith, length-append (newest xs) (b ∷ []), length-drop n xs) in
    let moved : shift (newest xs ++ b ∷ []) ≡ drop (suc n) (xs ++ b ∷ []) =
      ap shift (sym (drop-append n xs (b ∷ []) (omega arith))) ∙ shift-drop n (xs ++ b ∷ []) in
    let whole : length (xs ++ b ∷ []) ≡ length xs + 1 = omega (arith, length-append xs (b ∷ [])) in
    elim (Bool-cases (leb failure_window_size (length xs))) [
      | inl h ↦
          let more : length (xs ++ b ∷ []) - failure_window_size ≡ suc n =
            omega (arith, leb→le _ _ h) in
          rw more (ground (arith, moved, after))
      | inr h ↦
          let none_yet : n ≡ 0 = ground arith in
          let still : length (xs ++ b ∷ []) - failure_window_size ≡ 0 = ground arith in
          rw (still, none_yet) (ground (arith, whole))
    ]

-- The state is on exactly if the rate is high, once there are samples enough.
pub record Inv (w : FailureWindow) : Type 0 where
  pub bounded : length w.recent_outcomes ≤ failure_window_size
  pub tracks :
      failure_window_min_samples ≤ length w.recent_outcomes
      → w.sustained_failure_active ≡ is_sustained w.recent_outcomes
  pub quiet :
      length w.recent_outcomes < failure_window_min_samples → w.sustained_failure_active ≡ false

length-slide :
    (xs : List Bool) (b : Bool)
    → length xs ≤ failure_window_size
    → (length (slide xs b) ≤ failure_window_size) × (length xs ≤ length (slide xs b))
unfolding slide
length-slide [] b h = ground arith
length-slide (x ∷ xs) b h = ground (arith, length-append (x ∷ xs) (b ∷ []))

track_call-Inv : (w : FailureWindow) (b : Bool) → Inv w → Inv (track_call w b).0
unfolding track_call
track_call-Inv w b h = ground (arith, length-slide w.recent_outcomes b h.bounded)

track_outcome-Inv : (w : FailureWindow) (s : SummarizerStatus) → Inv w → Inv (track_outcome w s).0
unfolding track_outcome
track_outcome-Inv w empty_turn h = h
track_outcome-Inv w ok h = track_call-Inv w false h
track_outcome-Inv w parse_error h = track_call-Inv w true h
track_outcome-Inv w api_error h = track_call-Inv w true h
track_outcome-Inv w not_configured h = track_call-Inv w true h

track_all-Inv : (w : FailureWindow) (ss : List SummarizerStatus) → Inv w → Inv (track_all w ss).0
unfolding track_all
track_all-Inv w [] h = h
track_all-Inv w (s ∷ ss) h = track_all-Inv (track_outcome w s).0 ss (track_outcome-Inv w s h)

new-Inv : Inv new
unfolding new
new-Inv = ground arith

track_call-recent :
    (w : FailureWindow) (b : Bool) → (track_call w b).0.recent_outcomes ≡ slide w.recent_outcomes b
unfolding track_call
track_call-recent w b = ground arith

track_call-newest :
    (w : FailureWindow) (past : List Bool) (b : Bool)
    → w.recent_outcomes ≡ newest past
    → (track_call w b).0.recent_outcomes ≡ newest (past ++ b ∷ [])
track_call-newest w past b h = track_call-recent w b ∙ ap (λ r. slide r b) h ∙ slide-newest past b

track_all-recent :
    (w : FailureWindow) (past : List Bool) (ss : List SummarizerStatus)
    → w.recent_outcomes ≡ newest past
    → (track_all w ss).0.recent_outcomes ≡ newest (past ++ outcomes ss)
unfolding track_all track_outcome
track_all-recent w past [] h = rw append-nil h
track_all-recent w past (empty_turn ∷ ss) h = track_all-recent w past ss h
track_all-recent w past (ok ∷ ss) h =
    track_all-recent (track_call w false).0 (past ++ false ∷ []) ss
      (track_call-newest w past false h)
    ∙ ap newest (append_assoc past (false ∷ []) (outcomes ss))
track_all-recent w past (parse_error ∷ ss) h =
    track_all-recent (track_call w true).0 (past ++ true ∷ []) ss (track_call-newest w past true h)
    ∙ ap newest (append_assoc past (true ∷ []) (outcomes ss))
track_all-recent w past (api_error ∷ ss) h =
    track_all-recent (track_call w true).0 (past ++ true ∷ []) ss (track_call-newest w past true h)
    ∙ ap newest (append_assoc past (true ∷ []) (outcomes ss))
track_all-recent w past (not_configured ∷ ss) h =
    track_all-recent (track_call w true).0 (past ++ true ∷ []) ss (track_call-newest w past true h)
    ∙ ap newest (append_assoc past (true ∷ []) (outcomes ss))

-- What the window is after the calls `past`.
abbrev pub window_of : List Bool → FailureWindow
window_of past = record {
  recent_outcomes = newest past;
  sustained_failure_active =
      leb failure_window_min_samples (length (newest past)) && is_sustained (newest past);
}

of_Inv :
    (w : FailureWindow) (past : List Bool)
    → Inv w
    → w.recent_outcomes ≡ newest past
    → w ≡ window_of past
of_Inv w past h e = rw (← e) (ground (arith, h.tracks, h.quiet))

-- After any run a new window holds the last twenty outcomes that were no empty turns, and is in
-- sustained failure exactly if these are five at least and three tenths of them are not `ok`: empty turns
-- and all older outcomes are forgotten.
pub track_all-window_of :
    (ss : List SummarizerStatus) → (track_all new ss).0 ≡ window_of (outcomes ss)
track_all-window_of ss =
    of_Inv (track_all new ss).0 (outcomes ss) (track_all-Inv new ss new-Inv)
      (track_all-recent new [] ss (unfold new in refl))

-- A log that alternates, from a window that is in sustained failure or not, and whose messages are
-- true of what they count.
abbrev pub Alternates : Bool → List Message → Type 0
Alternates active [] = Unit
Alternates false (warning failed calls ∷ log) =
    (failure_window_min_samples ≤ calls)
    × (calls ≤ failure_window_size)
    × (3 * calls ≤ 10 * failed)
    × Alternates true log
Alternates true (recovered failed calls ∷ log) =
    (failure_window_min_samples ≤ calls)
    × (calls ≤ failure_window_size)
    × (10 * failed < 3 * calls)
    × Alternates false log
Alternates _ (_ ∷ _) = ⊥

Alternates-nil : (active : Bool) → Alternates active []
Alternates-nil true = tt
Alternates-nil false = tt

Alternates-track_call :
    (w : FailureWindow) (b : Bool) (log : List Message)
    → Inv w
    → Alternates (track_call w b).0.sustained_failure_active log
    → Alternates w.sustained_failure_active (logged (track_call w b).1 log)
unfolding track_call is_sustained
Alternates-track_call w b log h k = ground (arith, length-slide w.recent_outcomes b h.bounded)

Alternates-track_all :
    (w : FailureWindow) (ss : List SummarizerStatus)
    → Inv w
    → Alternates w.sustained_failure_active (track_all w ss).1
unfolding track_all track_outcome
Alternates-track_all w [] h = Alternates-nil w.sustained_failure_active
Alternates-track_all w (empty_turn ∷ ss) h = Alternates-track_all w ss h
Alternates-track_all w (ok ∷ ss) h =
    Alternates-track_call w false _ h
      (Alternates-track_all (track_call w false).0 ss (track_call-Inv w false h))
Alternates-track_all w (parse_error ∷ ss) h =
    Alternates-track_call w true _ h
      (Alternates-track_all (track_call w true).0 ss (track_call-Inv w true h))
Alternates-track_all w (api_error ∷ ss) h =
    Alternates-track_call w true _ h
      (Alternates-track_all (track_call w true).0 ss (track_call-Inv w true h))
Alternates-track_all w (not_configured ∷ ss) h =
    Alternates-track_call w true _ h
      (Alternates-track_all (track_call w true).0 ss (track_call-Inv w true h))

-- What a new window logs over any run begins with a warning, alternates between warnings and
-- recoveries, and counts 5 to 20 calls each time, of which three tenths or more failed at a warning, and
-- fewer at a recovery.
pub track_all-Alternates : (ss : List SummarizerStatus) → Alternates false (track_all new ss).1
unfolding new
track_all-Alternates ss = Alternates-track_all new ss new-Inv
