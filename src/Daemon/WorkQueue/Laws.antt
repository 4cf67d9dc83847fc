-- ===== src/Daemon/WorkQueue/Laws.antt =====
-- What holds of the queue in every order of arrivals and completions.
use mathlib.Core.List.{append_assoc}
use elepha.Common.{
  ℕ, suc, ◌+◌, ◌-◌, ◌≤◌, ◌<◌, List, [], ◌∷◌, ◌++◌, ◌≡◌, ◌⊎◌, inl, inr, refl, sym, ap, ◌∙◌, ltb,
  lt→ltb, arith, length, length-append, Bool-cases,
}
use elepha.Daemon.WorkQueue.Queue.{
  Job, WorkQueue, new, drain_from, drain, enqueue, settle, Run, start, arrive, finish,
}

-- Between two events of a run.
pub record Inv (max_concurrent : ℕ) (jobs : List Job) (ended : ℕ) (w : WorkQueue) : Type 0 where
  pub limit : w.max_concurrent ≡ max_concurrent
  pub bounded : w.active ≤ max_concurrent
  pub busy : (w.queue ≡ []) ⊎ (w.active ≡ max_concurrent)
  pub in_order : w.started ++ w.queue ≡ jobs
  pub counted : length w.started ≡ ended + w.active

drain_from-Inv :
    (max_concurrent : ℕ) (jobs : List Job) (ended : ℕ) (w : WorkQueue) (waiting : List Job)
    → w.max_concurrent ≡ max_concurrent
    → w.active ≤ max_concurrent
    → w.started ++ waiting ≡ jobs
    → length w.started ≡ ended + w.active
    → Inv max_concurrent jobs ended (drain_from w waiting)
unfolding drain_from
drain_from-Inv m jobs ended w [] l b o c = record {
  limit = l;
  bounded = b;
  busy = inl refl;
  in_order = o;
  counted = c;
}
drain_from-Inv m jobs ended w (job ∷ waiting) l b o c =
    elim (Bool-cases (ltb w.active w.max_concurrent)) [
      | inl h ↦ rw h (
          drain_from-Inv m jobs ended
            (record w { active = w.active + 1; started = w.started ++ job ∷ [] }) waiting l
            (ground arith) (append_assoc w.started (job ∷ []) waiting ∙ o)
            (omega (arith, length-append w.started (job ∷ []))))
      | inr h ↦
          rw h (record {
            limit = l;
            bounded = b;
            busy = inr (ground arith);
            in_order = o;
            counted = c;
          })
    ]

-- In every order of arrivals and completions the active jobs are at most the limit; no job waits while
-- fewer are active; the jobs started, then those that wait, are the arrivals in their order; and a job
-- started has ended or is active.
pub Run-Inv :
    {max_concurrent : ℕ} {jobs : List Job} {ended : ℕ} {w : WorkQueue}
    → Run max_concurrent jobs ended w
    → Inv max_concurrent jobs ended w
unfolding new enqueue settle drain
Run-Inv {max_concurrent = m} start = record {
  limit = refl;
  bounded = omega arith;
  busy = inl refl;
  in_order = refl;
  counted = refl;
}
Run-Inv {max_concurrent = m} (arrive {jobs = jobs} {ended = ended} {w = w} job r) =
    let i = Run-Inv r in
    drain_from-Inv m (jobs ++ job ∷ []) ended (record w { queue = w.queue ++ job ∷ [] })
      (w.queue ++ job ∷ []) i.limit i.bounded
      (sym (append_assoc w.started w.queue (job ∷ [])) ∙ ap (λ t. t ++ job ∷ []) i.in_order)
      i.counted
Run-Inv {max_concurrent = m} (finish {jobs = jobs} {ended = ended} {w = w} h r) =
    let i = Run-Inv r in
    drain_from-Inv m jobs (suc ended) (record w { active = w.active - 1 }) w.queue i.limit
      (omega (arith, i.bounded)) i.in_order (omega (arith, i.counted))

full_stop :
    (w : WorkQueue) (jobs : List Job)
    → w.active ≡ w.max_concurrent
    → drain_from w jobs ≡ record w { queue = jobs }
unfolding drain_from
full_stop w [] h = refl
full_stop w (job ∷ jobs) h = ground arith

drain_one :
    (w : WorkQueue) (job : Job) (waiting : List Job)
    → w.active + 1 ≡ w.max_concurrent
    → drain_from w (job ∷ waiting)
      ≡ record w { active = w.active + 1; started = w.started ++ job ∷ []; queue = waiting }
unfolding drain_from
drain_one w job waiting h =
    rw (lt→ltb w.active w.max_concurrent (omega arith))
      (full_stop (record w { active = w.active + 1; started = w.started ++ job ∷ [] }) waiting h)

-- Under a limit that is not 0, while a job waits some job is active, and when that ends the job that has
-- waited longest is started, and no other.
pub settle_starts_next :
    {max_concurrent : ℕ} {jobs : List Job} {ended : ℕ} {w : WorkQueue} (job : Job)
    (waiting : List Job)
    → Run max_concurrent jobs ended w
    → 0 < max_concurrent
    → w.queue ≡ job ∷ waiting
    → (0 < w.active) × ((settle w).started ≡ w.started ++ job ∷ []) × ((settle w).queue ≡ waiting)
unfolding settle drain
settle_starts_next {w = w} job waiting r h e =
    let i = Run-Inv r in
    let full : w.active ≡ w.max_concurrent = ground (arith, i.busy, i.limit) in
    let w' = record w { active = w.active - 1 } in
    let next = ap (drain_from w') e ∙ drain_one w' job waiting (omega (arith, i.limit)) in
    (omega (arith, i.limit), ap (λ q. q.started) next, ap (λ q. q.queue) next)
