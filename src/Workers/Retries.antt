-- ===== src/Workers/Retries.antt =====
-- When performWork of internal/wokers/worker_pool.go stops.
use my_dfs.Common.{
  ℕ, zero, suc, ◌+◌, ◌≤◌, ◌<◌, ◌≡◌, refl, sym, ap, ◌∙◌, subst, ◌⊎◌, inl, inr, none, some, arith,
  ◌==◌, Bool-cases,
}
use my_dfs.Workers.{
  status_success, status_failed, status_cancelled, Attempt, returned, failed, cancelled, WorkResult,
  is_retriable, give_up, work_loop, perform_work,
}

module _ {E A : Type 0} where
  -- The round `retries` ended the work, with this result.
  abbrev pub EndsWith : ℕ → Attempt E A → WorkResult E A → Type 0
  EndsWith last (returned a) r =
      (r.status ≡ status_success) × (r.output ≡ some a) × (r.error ≡ none)
  EndsWith last (failed e) r =
      (r.status ≡ status_failed) × (r.output ≡ none) × (r.error ≡ some e) × (r.retries ≡ last)
  EndsWith last cancelled r = (r.status ≡ status_cancelled) × (r.output ≡ none) × (r.error ≡ none)

  abbrev pub HasFailed : Attempt E A → Type 0
  HasFailed attempt = (e : E) × (attempt ≡ failed e)

  abbrev pub Ends : (ℕ → Attempt E A) → ℕ → ℕ → WorkResult E A → Type 0
  Ends attempt first last r =
      (first ≤ r.retries)
      × (r.retries ≤ last)
      × ((j : ℕ) → first ≤ j → j < r.retries → HasFailed (attempt j))
      × EndsWith last (attempt r.retries) r

  Attempt-cases :
      (attempt : Attempt E A)
      → ((a : A) × (attempt ≡ returned a)) ⊎ (HasFailed attempt ⊎ (attempt ≡ cancelled))
  Attempt-cases (returned a) = inl (a, refl)
  Attempt-cases (failed e) = inr (inl (e, refl))
  Attempt-cases cancelled = inr (inr refl)

  work_loop-Ends :
      (attempt : ℕ → Attempt E A) (rounds i : ℕ)
      → Ends attempt i (i + rounds) (work_loop attempt rounds i)
  unfolding work_loop give_up is_retriable
  work_loop-Ends attempt zero i = elim (Attempt-cases (attempt i)) [
    | inl (a, e) ↦
        rw (e, work_loop)
          (omega arith, omega arith, λ j low high. absurd (omega arith), rw e (refl, refl, refl))
    | inr (inl (f, e)) ↦
        rw (e, work_loop)
          (
            omega arith,
            omega arith,
            λ j low high. absurd (omega arith),
            rw e (refl, refl, refl, omega arith),
          )
    | inr (inr e) ↦
        rw (e, work_loop)
          (omega arith, omega arith, λ j low high. absurd (omega arith), rw e (refl, refl, refl))
  ]
  work_loop-Ends attempt (suc rounds) i = elim (Attempt-cases (attempt i)) [
    | inl (a, e) ↦
        rw (e, work_loop)
          (omega arith, omega arith, λ j low high. absurd (omega arith), rw e (refl, refl, refl))
    | inr (inl (f, e)) ↦
        let (low, high, before, end) = work_loop-Ends attempt rounds (i + 1) in
        let again : work_loop attempt (suc rounds) i ≡ work_loop attempt rounds (i + 1) =
          ground (arith, e) in
        subst (Ends attempt i (i + suc rounds)) (sym again) (
          omega (arith, low),
          omega (arith, high),
          λ j from until. elim (Bool-cases (j == i)) [
            | inl hit ↦ (f, ap attempt (ground (arith, hit)) ∙ e)
            | inr miss ↦ before j (ground (arith, miss)) until
          ],
          subst
              (λ last.
                EndsWith last (attempt (work_loop attempt rounds (i + 1)).retries)
                  (work_loop attempt rounds (i + 1)))
              (omega arith) end,
        )
    | inr (inr e) ↦
        rw (e, work_loop)
          (omega arith, omega arith, λ j low high. absurd (omega arith), rw e (refl, refl, refl))
  ]

  -- performWork makes at most one attempt more than maxRetries, each after failed ones. It answers
  -- success with the output of the first attempt that returns, cancellation where the pool is
  -- cancelled before an attempt, and failure with the last error only after the last attempt; the
  -- count of retries is the number of the attempt that ended the work.
  pub perform_work-Ends :
      (attempt : ℕ → Attempt E A) (max_retries : ℕ)
      → Ends attempt 0 max_retries (perform_work attempt max_retries)
  unfolding perform_work
  perform_work-Ends attempt max_retries =
      subst (λ last. Ends attempt 0 last (work_loop attempt max_retries 0)) (omega arith)
        (work_loop-Ends attempt max_retries 0)
