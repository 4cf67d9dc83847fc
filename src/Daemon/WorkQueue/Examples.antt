-- ===== src/Daemon/WorkQueue/Examples.antt =====
-- A run of the queue, and its theorems on it.
use elepha.Common.{◌≡◌, refl, ◌<◌, [], ◌∷◌, ◌++◌, arith}
use elepha.Daemon.WorkQueue.Queue.{new, drain_from, drain, enqueue, settle, Run, start, arrive}
use elepha.Daemon.WorkQueue.Laws.{Inv, Run-Inv, settle_starts_next}

-- Two jobs arrive at a queue that runs one at a time.
abbrev two_arrived : Run 1 (7 ∷ 8 ∷ []) 0 (enqueue (enqueue (new 1) 7) 8)
two_arrived = arrive 8 (arrive 7 start)

Run-Inv_example : Inv 1 (7 ∷ 8 ∷ []) 0 (enqueue (enqueue (new 1) 7) 8)
Run-Inv_example = Run-Inv two_arrived

settle_starts_next_example :
    (0 < (enqueue (enqueue (new 1) 7) 8).active)
    × ((settle (enqueue (enqueue (new 1) 7) 8)).started
        ≡ (enqueue (enqueue (new 1) 7) 8).started ++ 8 ∷ [])
    × ((settle (enqueue (enqueue (new 1) 7) 8)).queue ≡ [])
unfolding new enqueue drain drain_from
settle_starts_next_example = settle_starts_next 8 [] two_arrived (omega arith) refl
