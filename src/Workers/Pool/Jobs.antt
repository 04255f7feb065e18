-- ===== src/Workers/Pool/Jobs.antt =====
-- Where the jobs of a RetriableWorkerPool of internal/wokers/worker_pool.go are.
use my_dfs.Common.{
  ℕ, ◌+◌, ◌≤◌, ◌≡◌, refl, sym, ap, ◌∙◌, ◌≢◌, true, false, List, [], ◌∷◌, ◌++◌, arith, ltb,
  if◌then◌else◌, length, length-append, occurrences, occurrences-append,
}
use my_dfs.Workers.Config.{PoolConfig}
use my_dfs.Workers.Pool.{
  PoolState, new_pool, spawn, count_worker, Step, submit_refused, submit_entered, submit_sent,
  submit_handed, submit_cancelled, shutdown_first, shutdown_done, shutdown_timed_out,
  parent_cancelled, took_job, started_job, finished_job, delivered_result, dropped_result, Reach,
  still, stepped,
}

pub nil_split : (j : ℕ) (front back : List ℕ) → front ++ (j ∷ back) ≢ []
nil_split j front back e = absurd (ground (arith, length-append front (j ∷ back), ap length e))

abbrev pub places : ℕ → PoolState → ℕ
places i s =
    occurrences i s.sending
    + occurrences i s.jobs
    + occurrences i s.taken
    + occurrences i s.working
    + occurrences i s.delivering
    + occurrences i s.delivered
    + occurrences i s.dropped
    + occurrences i s.refused

Step-places :
    {c : PoolConfig} {s t : PoolState} (i : ℕ)
    → Step c s t
    → places i s ≡ (if ltb i s.next then 1 else 0)
    → places i t ≡ (if ltb i t.next then 1 else 0)
unfolding spawn count_worker
Step-places {c} {s} i (submit_refused e f) a = ground arith
Step-places {c} {s} i (submit_entered e f) a = ground arith
Step-places {c} {s} i (submit_sent j front back e f) a = ground (
  arith,
  occurrences-append i front (j ∷ back),
  occurrences-append i front back,
  occurrences-append i s.jobs (j ∷ []),
)
Step-places {c} {s} i (submit_handed j front back e f g) a =
    ground (arith, occurrences-append i front (j ∷ back), occurrences-append i front back)
Step-places {c} {s} i (submit_cancelled j front back e f) a =
    ground (arith, occurrences-append i front (j ∷ back), occurrences-append i front back)
Step-places i parent_cancelled a = a
Step-places {c} {s} i (took_job j rest e f) a = ground arith
Step-places {c} {s} i (started_job j front back e) a =
    ground (arith, occurrences-append i front (j ∷ back), occurrences-append i front back)
Step-places {c} {s} i (finished_job j front back e) a =
    ground (arith, occurrences-append i front (j ∷ back), occurrences-append i front back)
Step-places {c} {s} i (delivered_result j front back e) a =
    ground (arith, occurrences-append i front (j ∷ back), occurrences-append i front back)
Step-places {c} {s} i (dropped_result j front back e f) a =
    ground (arith, occurrences-append i front (j ∷ back), occurrences-append i front back)
Step-places i _ a = a

-- What holds of the lists besides.
abbrev pub Lists : PoolConfig → PoolState → Type 0
Lists c s =
    (length s.jobs ≤ c.buffer_size)
    × (s.is_closed ≡ true → s.sending ≡ [])
    × (s.cancelled ≡ false → s.dropped ≡ [])

Step-Lists : {c : PoolConfig} {s t : PoolState} → Step c s t → Lists c s → Lists c t
unfolding spawn count_worker
Step-Lists {c} {s} (submit_entered e f) (buffered, free, kept) =
    (buffered, λ closed. ground arith, kept)
Step-Lists {c} {s} (submit_sent j front back e f) (buffered, free, kept) = (
  ground (arith, length-append s.jobs (j ∷ [])),
  λ closed. absurd (nil_split j front back (sym e ∙ free closed)),
  kept,
)
Step-Lists {c} {s} (submit_handed j front back e f g) (buffered, free, kept) =
    (buffered, λ closed. absurd (nil_split j front back (sym e ∙ free closed)), kept)
Step-Lists {c} {s} (submit_cancelled j front back e f) (buffered, free, kept) =
    (buffered, λ closed. absurd (nil_split j front back (sym e ∙ free closed)), kept)
Step-Lists {c} {s} (shutdown_first e f g) (buffered, free, kept) = (buffered, λ closed. f, kept)
Step-Lists {c} {s} (shutdown_done e f) (buffered, free, kept) =
    (buffered, free, λ running. ground arith)
Step-Lists {c} {s} (shutdown_timed_out e) (buffered, free, kept) =
    (buffered, free, λ running. ground arith)
Step-Lists {c} {s} parent_cancelled (buffered, free, kept) =
    (buffered, free, λ running. ground arith)
Step-Lists {c} {s} (took_job j rest e f) (buffered, free, kept) = (ground arith, free, kept)
Step-Lists {c} {s} (dropped_result j front back e f) (buffered, free, kept) =
    (buffered, free, λ running. ground arith)
Step-Lists _ held = held

pub record IsAccounted (c : PoolConfig) (s : PoolState) : Type 0 where
  pub once : (i : ℕ) → places i s ≡ (if ltb i s.next then 1 else 0)
  pub lists : Lists c s

-- In every state that a worker pool can reach, by any interleaving of calls of Submit and Shutdown,
-- workers and scaling, each submitted job is in just one place: in its Submit, in the queue, with
-- one worker, delivered, dropped or refused. The queue holds at most the buffer's size, no Submit
-- sends once the queue is closed, and no result is dropped unless the pool is cancelled.
pub worker_jobs-IsAccounted :
    (c : PoolConfig) {s : PoolState} → Reach c (new_pool c) s → IsAccounted c s
worker_jobs-IsAccounted c still = record {
  once = λ i. ground arith;
  lists = (omega arith, λ _. refl, λ _. refl);
}
worker_jobs-IsAccounted c (stepped r st) =
    let a = worker_jobs-IsAccounted c r in
    record { once = λ i. Step-places i st (a.once i); lists = Step-Lists st a.lists }
