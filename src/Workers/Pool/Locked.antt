-- ===== src/Workers/Pool/Locked.antt =====
-- A second call of Shutdown on a RetriableWorkerPool of internal/wokers/worker_pool.go.
use my_dfs.Common.{◌≡◌, refl, sym, ◌∙◌, true, [], arith}
use my_dfs.Workers.Config.{PoolConfig}
use my_dfs.Workers.Pool.{
  PoolState, spawn, count_worker, Step, submit_refused, submit_entered, submit_sent, submit_handed,
  submit_cancelled, shutdown_again, Reach, still, stepped,
}
use my_dfs.Workers.Pool.Jobs.{nil_split}

-- The lock is kept, and no call of Submit is in progress or has begun or ended since `s`.
abbrev pub Locked : PoolState → PoolState → Type 0
Locked s t =
    (t.write_locked ≡ true) × (t.sending ≡ []) × (t.next ≡ s.next) × (t.refused ≡ s.refused)

Step-Locked :
    {c : PoolConfig} (s : PoolState) {t u : PoolState} → Step c t u → Locked s t → Locked s u
unfolding spawn count_worker
Step-Locked s (submit_refused e f) (locked, none_sends, same_next, same_refused) =
    absurd (ground (arith, e, locked))
Step-Locked s (submit_entered e f) (locked, none_sends, same_next, same_refused) =
    absurd (ground (arith, e, locked))
Step-Locked s (submit_sent j front back e f) (locked, none_sends, same_next, same_refused) =
    absurd (nil_split j front back (sym e ∙ none_sends))
Step-Locked s (submit_handed j front back e f g) (locked, none_sends, same_next, same_refused) =
    absurd (nil_split j front back (sym e ∙ none_sends))
Step-Locked s (submit_cancelled j front back e f) (locked, none_sends, same_next, same_refused) =
    absurd (nil_split j front back (sym e ∙ none_sends))
Step-Locked s (shutdown_again e f g) (locked, none_sends, same_next, same_refused) =
    absurd (ground (arith, e, locked))
Step-Locked s _ held = held

pub Reach-Locked :
    (c : PoolConfig) (s t : PoolState)
    → s.write_locked ≡ true
    → s.sending ≡ []
    → Reach c s t
    → Locked s t
Reach-Locked c s t locked none_sends still = (locked, none_sends, refl, refl)
Reach-Locked c s t locked none_sends (stepped {before} r st) =
    Step-Locked s st (Reach-Locked c s before locked none_sends r)
