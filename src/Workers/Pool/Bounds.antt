-- ===== src/Workers/Pool/Bounds.antt =====
-- How many workers a RetriableWorkerPool of internal/wokers/worker_pool.go has.
use my_dfs.Common.{ℕ, ◌+◌, ◌≤◌, max, ◌≡◌, ◌∷◌, arith, length, length-append}
use my_dfs.Workers.Config.{PoolConfig}
use my_dfs.Workers.Pool.{
  Scaler, starting, start_counting, ticking, sampled, growing, counting, closing, stopped,
  PoolState, new_pool, decide, spawn, count_worker, Step, submit_handed, took_job, started_job,
  finished_job, delivered_result, dropped_result, worker_cancelled, worker_drained, worker_closed,
  worker_discounted, worker_ended, start_spawned, start_counted, start_ended, scale_ended,
  scale_sampled, scale_decided, scale_spawned, scale_counted, scale_cancelled, Reach, still,
  stepped,
}

-- The workers that have started and are still in totalWorkers, or about to be counted in it.
abbrev pub live : PoolState → ℕ
live s = s.idle + length s.taken + length s.working + length s.delivering + s.leaving

-- The workers that addWorker has started and not yet counted.
abbrev pub uncounted : Scaler → ℕ
uncounted (starting left) = 0
uncounted (start_counting left) = 1
uncounted ticking = 0
uncounted (sampled jobs) = 0
uncounted growing = 0
uncounted counting = 1
uncounted closing = 0
uncounted stopped = 0

-- The workers that the goroutine is about to add without a further test.
abbrev pub planned : Scaler → ℕ
planned (starting left) = left
planned (start_counting left) = left
planned ticking = 0
planned (sampled jobs) = 0
planned growing = 1
planned counting = 0
planned closing = 0
planned stopped = 0

abbrev pub Counts : PoolConfig → PoolState → Type 0
Counts c s =
    (s.counted + uncounted s.scaler ≡ live s + s.discounted)
    × (s.active ≡ length s.working)
    × (s.wg ≡ live s + s.ending)
    × (live s + planned s.scaler ≤ max c.min_workers c.max_workers)

decide-planned :
    (c : PoolConfig) (jobs workers active : ℕ)
    → (uncounted (decide c jobs workers active) ≡ 0)
      × (planned (decide c jobs workers active) + workers ≤ max workers c.max_workers)
unfolding decide
decide-planned c jobs workers active = ground arith

Step-Counts : {c : PoolConfig} {s t : PoolState} → Step c s t → Counts c s → Counts c t
unfolding spawn count_worker
Step-Counts {c} {s} (submit_handed j front back e f g) (total, busy, waited, bounded) = ground arith
Step-Counts {c} {s} (took_job j rest e f) (total, busy, waited, bounded) = ground arith
Step-Counts {c} {s} (started_job j front back e) (total, busy, waited, bounded) =
    ground (arith, length-append front (j ∷ back), length-append front back)
Step-Counts {c} {s} (finished_job j front back e) (total, busy, waited, bounded) =
    ground (arith, length-append front (j ∷ back), length-append front back)
Step-Counts {c} {s} (delivered_result j front back e) (total, busy, waited, bounded) =
    ground (arith, length-append front (j ∷ back), length-append front back)
Step-Counts {c} {s} (dropped_result j front back e f) (total, busy, waited, bounded) =
    ground (arith, length-append front (j ∷ back), length-append front back)
Step-Counts {c} {s} (worker_cancelled e f) (total, busy, waited, bounded) = ground arith
Step-Counts {c} {s} (worker_drained e f g) (total, busy, waited, bounded) = ground arith
Step-Counts {c} {s} (worker_closed e f) (total, busy, waited, bounded) = ground arith
Step-Counts {c} {s} (worker_discounted e) (total, busy, waited, bounded) = ground arith
Step-Counts {c} {s} (worker_ended e) (total, busy, waited, bounded) = ground arith
Step-Counts {c} {s} (start_spawned left e) (total, busy, waited, bounded) = ground arith
Step-Counts {c} {s} (start_counted left e) (total, busy, waited, bounded) = ground arith
Step-Counts {c} {s} (start_ended e) (total, busy, waited, bounded) = ground arith
Step-Counts {c} {s} (scale_ended e f) (total, busy, waited, bounded) = ground arith
Step-Counts {c} {s} (scale_sampled e) (total, busy, waited, bounded) = ground arith
Step-Counts {c} {s} (scale_decided j w e f) (total, busy, waited, bounded) =
    ground (arith, decide-planned c j w s.active)
Step-Counts {c} {s} (scale_spawned e) (total, busy, waited, bounded) = ground arith
Step-Counts {c} {s} (scale_counted e) (total, busy, waited, bounded) = ground arith
Step-Counts {c} {s} (scale_cancelled e f) (total, busy, waited, bounded) = ground arith
Step-Counts _ held = held

-- In every state that a worker pool can reach, the workers that started and are not yet taken off
-- totalWorkers are as many as it says, but for one that addWorker has started and not yet counted.
-- activeWorkers is the number of workers at work, the wait group counts the workers that have not
-- ended, and the workers, with those that are about to be added, exceed neither minWorkers nor
-- maxWorkers where the other is smaller.
pub Reach-Counts : (c : PoolConfig) {s : PoolState} → Reach c (new_pool c) s → Counts c s
Reach-Counts c still = ground arith
Reach-Counts c (stepped r st) = Step-Counts st (Reach-Counts c r)
