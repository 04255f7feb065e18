-- ===== src/Workers/Pool.antt =====
-- RetriableWorkerPool of internal/wokers/worker_pool.go with its goroutines: the callers of Submit and
-- Shutdown, the workers, and the goroutine that runs start and then scaleWorkers. Jobs are numbered as
-- they are submitted. What a lock or a channel makes atomic is one step; a step that a timer or the
-- parent context triggers may come at any time.
pub mod Jobs
pub mod Bounds
pub mod Locked
use my_dfs.Common.{
  ℕ, zero, suc, ◌+◌, ◌-◌, ◌*◌, ◌/◌, ◌%◌, ◌^◌, ◌≤◌, ◌<◌, min, max, ◌≡◌, refl, sym, ap, ◌∙◌, subst,
  ◌≡⟨◌⟩◌, ◌∎, ◌≢◌, ◌↔◌, ◌⊎◌, inl, inr, Bool, true, false, ◌&&◌, ◌||◌, not, Option, none, some, List,
  [], ◌∷◌, ◌++◌, map, append-nil, append_assoc, arith, ltb, leb, ◌==◌, if◌then◌else◌, ltb→lt,
  lt→ltb, le→ltb, leb→le, le→leb, lt→leb, ==_iff, ==_refl, tests, Bool-cases, Option-cases, Result,
  ok, err, ◌>>=◌, ◌>>◌, or_fail, Result-cases, Codec, length, get_elem?, take, drop, replicate, All,
  length-append, take-append-drop, length-take, length-drop, take_all, drop_all, take-append,
  drop-append, All-append, nil_of_length,
}
use my_dfs.Workers.Config.{PoolConfig}

-- Where the goroutine is that adds workers: in start, with `left` workers still to add; or in
-- scaleWorkers, between two ticks, after its read of len(jobs), about to add a worker, or blocked in the
-- send on `close`. In `start_counting` and `counting` addWorker has started the worker and not yet
-- counted it.
pub data Scaler : Type 0 where
  starting start_counting : ℕ → Scaler
  ticking : Scaler
  sampled : ℕ → Scaler
  growing counting closing stopped : Scaler

-- `totalWorkers` is an int that goes up by `counted` and down by `discounted`. `sending` are the callers
-- of Submit that hold the read lock, `write_locked` tells that a caller of Shutdown keeps the lock. A
-- worker is idle in its select, or has taken a job and not yet counted itself active, or works, or
-- sends the result, or has returned and is not yet off totalWorkers (`leaving`) or off the wait group
-- (`ending`).
pub record PoolState : Type 0 where
  pub next : ℕ
  pub sending : List ℕ
  pub jobs : List ℕ
  pub taken : List ℕ
  pub working : List ℕ
  pub delivering : List ℕ
  pub delivered : List ℕ
  pub dropped : List ℕ
  pub refused : List ℕ
  pub idle : ℕ
  pub leaving : ℕ
  pub ending : ℕ
  pub counted : ℕ
  pub discounted : ℕ
  pub active : ℕ
  pub wg : ℕ
  pub scaler : Scaler
  pub is_closed : Bool
  pub write_locked : Bool
  pub cancelled : Bool

-- NewRetriableWorkerPool at its call of start.
abbrev pub new_pool : PoolConfig → PoolState
new_pool c = record {
  next = 0;
  sending = [];
  jobs = [];
  taken = [];
  working = [];
  delivering = [];
  delivered = [];
  dropped = [];
  refused = [];
  idle = 0;
  leaving = 0;
  ending = 0;
  counted = 0;
  discounted = 0;
  active = 0;
  wg = 0;
  scaler = starting c.min_workers;
  is_closed = false;
  write_locked = false;
  cancelled = false;
}

-- The two tests of scaleWorkers on what it has read. The first asks for a job, so that both are never
-- true.
unfoldable pub decide : PoolConfig → ℕ → ℕ → ℕ → Scaler
decide c jobs workers active =
    if ltb workers jobs && (workers == active && ltb workers c.max_workers)
    then growing
    else if jobs == 0 && (ltb active (workers / 2) && ltb c.min_workers workers)
    then closing
    else ticking

-- addWorker up to the lock.
unfoldable pub spawn : Scaler → PoolState → PoolState
spawn after s = record s { wg = s.wg + 1; idle = s.idle + 1; scaler = after }

-- The critical section of addWorker.
unfoldable pub count_worker : Scaler → PoolState → PoolState
count_worker after s = record s { counted = s.counted + 1; scaler = after }

-- The steps of the goroutines.
pub data Step (c : PoolConfig) (s : PoolState) : PoolState → Type 0 where
  -- Submit
  submit_refused :
      s.write_locked ≡ false
      → s.is_closed ≡ true
      → Step c s (record s { next = s.next + 1; refused = s.next ∷ s.refused })
  submit_entered :
      s.write_locked ≡ false
      → s.is_closed ≡ false
      → Step c s (record s { next = s.next + 1; sending = s.next ∷ s.sending })
  submit_sent :
      (job : ℕ) (front back : List ℕ)
      → s.sending ≡ front ++ (job ∷ back)
      → length s.jobs < c.buffer_size
      → Step c s (record s { sending = front ++ back; jobs = s.jobs ++ (job ∷ []) })
  submit_handed :
      (job : ℕ) (front back : List ℕ)
      → s.sending ≡ front ++ (job ∷ back)
      → s.jobs ≡ []
      → 0 < s.idle
      → Step c s (record s { sending = front ++ back; idle = s.idle - 1; taken = job ∷ s.taken })
  submit_cancelled :
      (job : ℕ) (front back : List ℕ)
      → s.sending ≡ front ++ (job ∷ back)
      → s.cancelled ≡ true
      → Step c s (record s { sending = front ++ back; refused = job ∷ s.refused })
  -- Shutdown: the first call, a later one, the two ways in which the first one ends.
  shutdown_first :
      s.write_locked ≡ false
      → s.sending ≡ []
      → s.is_closed ≡ false
      → Step c s (record s { is_closed = true })
  shutdown_again :
      s.write_locked ≡ false
      → s.sending ≡ []
      → s.is_closed ≡ true
      → Step c s (record s { write_locked = true })
  shutdown_done : s.is_closed ≡ true → s.wg ≡ 0 → Step c s (record s { cancelled = true })
  shutdown_timed_out : s.is_closed ≡ true → Step c s (record s { cancelled = true })
  parent_cancelled : Step c s (record s { cancelled = true })
  -- worker
  took_job :
      (job : ℕ) (rest : List ℕ)
      → 0 < s.idle
      → s.jobs ≡ job ∷ rest
      → Step c s (record s { idle = s.idle - 1; jobs = rest; taken = job ∷ s.taken })
  started_job :
      (job : ℕ) (front back : List ℕ)
      → s.taken ≡ front ++ (job ∷ back)
      → Step c s
          (record s { taken = front ++ back; working = job ∷ s.working; active = s.active + 1 })
  finished_job :
      (job : ℕ) (front back : List ℕ)
      → s.working ≡ front ++ (job ∷ back)
      → Step c s (record s {
        working = front ++ back;
        delivering = job ∷ s.delivering;
        active = s.active - 1;
      })
  delivered_result :
      (job : ℕ) (front back : List ℕ)
      → s.delivering ≡ front ++ (job ∷ back)
      → Step c s (record s {
        delivering = front ++ back;
        delivered = job ∷ s.delivered;
        idle = s.idle + 1;
      })
  dropped_result :
      (job : ℕ) (front back : List ℕ)
      → s.delivering ≡ front ++ (job ∷ back)
      → s.cancelled ≡ true
      → Step c s (record s {
        delivering = front ++ back;
        dropped = job ∷ s.dropped;
        leaving = s.leaving + 1;
      })
  worker_cancelled :
      0 < s.idle
      → s.cancelled ≡ true
      → Step c s (record s { idle = s.idle - 1; leaving = s.leaving + 1 })
  worker_drained :
      0 < s.idle
      → s.is_closed ≡ true
      → s.jobs ≡ []
      → Step c s (record s { idle = s.idle - 1; leaving = s.leaving + 1 })
  worker_closed :
      0 < s.idle
      → s.scaler ≡ closing
      → Step c s (record s { idle = s.idle - 1; leaving = s.leaving + 1; scaler = ticking })
  worker_discounted :
      0 < s.leaving
      → Step c s (record s {
        leaving = s.leaving - 1;
        ending = s.ending + 1;
        discounted = s.discounted + 1;
      })
  worker_ended : 0 < s.ending → Step c s (record s { ending = s.ending - 1; wg = s.wg - 1 })
  -- start
  start_spawned :
      (left : ℕ) → s.scaler ≡ starting (suc left) → Step c s (spawn (start_counting left) s)
  start_counted :
      (left : ℕ) → s.scaler ≡ start_counting left → Step c s (count_worker (starting left) s)
  start_ended : s.scaler ≡ starting 0 → Step c s (record s { scaler = ticking })
  -- scaleWorkers
  scale_ended : s.scaler ≡ ticking → s.cancelled ≡ true → Step c s (record s { scaler = stopped })
  scale_sampled : s.scaler ≡ ticking → Step c s (record s { scaler = sampled (length s.jobs) })
  scale_decided :
      (jobs workers : ℕ)
      → s.scaler ≡ sampled jobs
      → workers + s.discounted ≡ s.counted
      → Step c s (record s { scaler = decide c jobs workers s.active })
  scale_spawned : s.scaler ≡ growing → Step c s (spawn counting s)
  scale_counted : s.scaler ≡ counting → Step c s (count_worker ticking s)
  scale_cancelled :
      s.scaler ≡ closing → s.cancelled ≡ true → Step c s (record s { scaler = stopped })

pub data Reach (c : PoolConfig) (s : PoolState) : PoolState → Type 0 where
  still : Reach c s s
  stepped : {before after : PoolState} → Reach c s before → Step c before after → Reach c s after
