-- ===== src/Examples/Workloads.antt =====
-- A worker pool that starts one worker, is given a job and is shut down twice.
use my_dfs.Common.{refl, true, [], ◌∷◌, arith}
use my_dfs.Workers.Config.{PoolConfig, default_pool_config, with_min_workers}
use my_dfs.Workers.Pool.{
  ticking, PoolState, new_pool, spawn, count_worker, submit_entered, submit_sent, took_job,
  started_job, finished_job, delivered_result, start_spawned, start_counted, start_ended,
  parent_cancelled, Reach, still, stepped,
}
use my_dfs.Workers.Pool.Jobs.{IsAccounted, worker_jobs-IsAccounted}
use my_dfs.Workers.Pool.Bounds.{Counts, Reach-Counts}
use my_dfs.Workers.Pool.Locked.{Locked, Reach-Locked}

abbrev config : PoolConfig
config = with_min_workers 1 default_pool_config

abbrev started : PoolState
started = record (new_pool config) { idle = 1; counted = 1; wg = 1; scaler = ticking }

started-Reach : Reach config (new_pool config) started
unfolding spawn count_worker
started-Reach =
    stepped (stepped (stepped still (start_spawned 0 refl)) (start_counted 0 refl))
      (start_ended refl)

abbrev done : PoolState
done = record started { next = 1; delivered = 0 ∷ [] }

-- The worker takes the job, works on it and delivers the result.
done-Reach : Reach config (new_pool config) done
done-Reach =
    stepped
      (stepped
        (stepped
          (stepped
            (stepped (stepped started-Reach (submit_entered refl refl))
              (submit_sent 0 [] [] refl (omega arith)))
            (took_job 0 [] (omega arith) refl))
          (started_job 0 [] [] refl))
        (finished_job 0 [] [] refl))
      (delivered_result 0 [] [] refl)

worker_jobs-IsAccounted_example : IsAccounted config done
worker_jobs-IsAccounted_example = worker_jobs-IsAccounted config done-Reach

Reach-Counts_example : Counts config done
Reach-Counts_example = Reach-Counts config done-Reach

abbrev locked : PoolState
locked = record done { is_closed = true; write_locked = true }

abbrev cancelled : PoolState
cancelled = record locked { cancelled = true }

Reach-Locked_example : Locked locked cancelled
Reach-Locked_example =
    Reach-Locked config locked cancelled refl refl (stepped still parent_cancelled)
