-- ===== src/Workers.antt =====
-- performWork of internal/wokers/worker_pool.go. The wait before a round and the job in it are one
-- attempt, whose outcome is left open: the pool is cancelled during the wait, or the job fails or
-- returns. Delays, durations and job ids are left out, and maxRetries is not negative.
pub mod Retries
pub mod Config
pub mod Pool
use my_dfs.Common.{
  ℕ, zero, suc, ◌+◌, ◌-◌, ◌*◌, ◌/◌, ◌%◌, ◌^◌, ◌≤◌, ◌<◌, min, max, ◌≡◌, refl, sym, ap, ◌∙◌, subst,
  ◌≡⟨◌⟩◌, ◌∎, ◌≢◌, ◌↔◌, ◌⊎◌, inl, inr, Bool, true, false, ◌&&◌, ◌||◌, not, Option, none, some, List,
  [], ◌∷◌, ◌++◌, map, append-nil, append_assoc, arith, ltb, leb, ◌==◌, if◌then◌else◌, ltb→lt,
  lt→ltb, le→ltb, leb→le, le→leb, lt→leb, ==_iff, ==_refl, tests, Bool-cases, Option-cases, Result,
  ok, err, ◌>>=◌, ◌>>◌, or_fail, Result-cases, Codec, length, get_elem?, take, drop, replicate, All,
  length-append, take-append-drop, length-take, length-drop, take_all, drop_all, take-append,
  drop-append, All-append, nil_of_length,
}

pub data JobStatus : Type 0 where
  status_success status_failed status_cancelled : JobStatus

module _ (E A : Type 0) where
  pub data Attempt : Type 0 where
    returned : A → Attempt
    failed : E → Attempt
    cancelled : Attempt

  pub record WorkResult : Type 0 where
    pub output : Option A
    pub error : Option E
    pub retries : ℕ
    pub status : JobStatus

-- isRetriable
unfoldable pub is_retriable : {E : Type 0} → E → Bool
is_retriable e = true

module _ {E A : Type 0} where
  -- The return behind the loop of performWork.
  unfoldable pub give_up : ℕ → E → WorkResult E A
  give_up i e = record { output = none; error = some e; retries = i; status = status_failed }

  -- The loop of performWork from round `i` on; `rounds` are left behind this one.
  unfoldable pub work_loop : (ℕ → Attempt E A) → ℕ → ℕ → WorkResult E A
  work_loop attempt zero i = elim (attempt i) [
    | returned a ↦ record { output = some a; error = none; retries = i; status = status_success }
    | failed e ↦ give_up i e
    | cancelled ↦ record { output = none; error = none; retries = i; status = status_cancelled }
  ]
  work_loop attempt (suc rounds) i = elim (attempt i) [
    | returned a ↦ record { output = some a; error = none; retries = i; status = status_success }
    | failed e ↦
        let rest = work_loop attempt rounds (i + 1) in if is_retriable e then rest else give_up i e
    | cancelled ↦ record { output = none; error = none; retries = i; status = status_cancelled }
  ]

  -- performWork
  unfoldable pub perform_work : (ℕ → Attempt E A) → ℕ → WorkResult E A
  perform_work attempt max_retries = work_loop attempt max_retries 0
