-- ===== src/Daemon/WorkQueue/Queue.antt =====
-- src/daemon/work-queue.ts. A job is known by a number; what it does is left out. `started` keeps the
-- order of the calls `job()`, which the class does not store. A job ends later, on its own, well or with
-- an error: the two differ in a log line alone.
use elepha.Common.{ℕ, suc, ◌+◌, ◌-◌, ◌<◌, List, [], ◌∷◌, ◌++◌, if◌then◌else◌, ltb}

abbrev pub Job : Type 0
Job = ℕ

pub record WorkQueue : Type 0 where
  pub queue : List Job
  pub active : ℕ
  pub max_concurrent : ℕ
  pub started : List Job

unfoldable pub new : ℕ → WorkQueue
new max_concurrent = record {
  queue = [];
  active = 0;
  max_concurrent = max_concurrent;
  started = [];
}

-- The `while` of `drain`, over the jobs that wait.
unfoldable pub drain_from : WorkQueue → List Job → WorkQueue
drain_from w [] = record w { queue = [] }
drain_from w (job ∷ jobs) =
    let next =
      drain_from (record w { active = w.active + 1; started = w.started ++ job ∷ [] }) jobs in
    if ltb w.active w.max_concurrent then next else record w { queue = job ∷ jobs }

unfoldable pub drain : WorkQueue → WorkQueue
drain w = drain_from w w.queue

unfoldable pub enqueue : WorkQueue → Job → WorkQueue
enqueue w job = drain (record w { queue = w.queue ++ job ∷ [] })

-- The `finally` of a job.
unfoldable pub settle : WorkQueue → WorkQueue
settle w = drain (record w { active = w.active - 1 })

-- What may happen to a new queue: the jobs that arrived, and how many have ended.
pub data Run (max_concurrent : ℕ) : List Job → ℕ → WorkQueue → Type 0 where
  start : Run max_concurrent [] 0 (new max_concurrent)
  arrive :
      {jobs : List Job} {ended : ℕ} {w : WorkQueue} (job : Job)
      → Run max_concurrent jobs ended w
      → Run max_concurrent (jobs ++ job ∷ []) ended (enqueue w job)
  finish :
      {jobs : List Job} {ended : ℕ} {w : WorkQueue}
      → 0 < w.active
      → Run max_concurrent jobs ended w
      → Run max_concurrent jobs (suc ended) (settle w)
