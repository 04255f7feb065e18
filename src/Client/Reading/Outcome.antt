-- ===== src/Client/Reading/Outcome.antt =====
-- What SendFile and ReadFile of internal/client/client.go return, by the results of the jobs.
use my_dfs.Common.{
  ℕ, ◌+◌, ◌≤◌, ◌<◌, ◌≡◌, refl, ap, subst, ◌⊎◌, inl, inr, Bool, true, false, ◌&&◌, none, some, List,
  [], ◌∷◌, ◌++◌, arith, ltb, ◌==◌, Bool-cases, Result, ok, err, length, All,
}
use my_dfs.Workers.{JobStatus, status_success, status_failed, status_cancelled, WorkResult}
use my_dfs.Client.Reading.{
  FileError, not_submitted, operation_cancelled, operation_failed, collect, first_failure,
  all_taken, file_outcome,
}

collect-closed :
    {R : Type 0} (rs : List R) (expected count : ℕ) → collect expected count true rs ≡ some rs
unfolding collect
collect-closed [] expected count = refl
collect-closed (r ∷ rs) expected count = ground (arith, collect-closed rs expected (count + 1))

pub collect_all :
    {R : Type 0} (rs : List R) (expected count : ℕ)
    → count + length rs ≡ expected
    → count < expected
    → collect expected count false rs ≡ some rs
unfolding collect
collect_all [] expected count h pos = absurd (omega arith)
collect_all (r ∷ rs) expected count h pos = elim (Bool-cases (count + 1 == expected)) [
  | inl last ↦ ground (arith, last, collect-closed rs expected (count + 1))
  | inr before ↦ ground (arith, before, collect_all rs expected (count + 1))
]

collect_waits :
    {R : Type 0} (rs : List R) (expected count : ℕ)
    → (count + length rs < expected) ⊎ (expected ≡ 0)
    → collect expected count false rs ≡ none
unfolding collect
collect_waits [] expected count h = refl
collect_waits (r ∷ rs) expected count h =
    let open_still : (count + 1 == expected) ≡ false = ground (arith, h) in
    ground (arith, open_still, collect_waits rs expected (count + 1))

JobStatus-cases :
    (s : JobStatus) → (s ≡ status_success) ⊎ ((s ≡ status_cancelled) ⊎ (s ≡ status_failed))
JobStatus-cases status_success = inl refl
JobStatus-cases status_cancelled = inr (inl refl)
JobStatus-cases status_failed = inr (inr refl)

module _ {E A : Type 0} where
  abbrev pub IsSuccess : WorkResult E A → Type 0
  IsSuccess r = r.status ≡ status_success

  -- The call's answer is that of the first result that is no success.
  abbrev pub Answers : List (WorkResult E A) → Result (FileError E) (Unit {0}) → Type 0
  Answers rs outcome =
      (All IsSuccess rs × (outcome ≡ ok tt))
      ⊎ ((before : List (WorkResult E A)) × (r : WorkResult E A) × (after : List (WorkResult E A))
          × (rs ≡ before ++ (r ∷ after))
          × All IsSuccess before
          × (((r.status ≡ status_cancelled) × (outcome ≡ err operation_cancelled))
              ⊎ ((r.status ≡ status_failed) × (outcome ≡ err (operation_failed r.error)))))

  Answers-later :
      (r : WorkResult E A) (rs : List (WorkResult E A)) (outcome : Result (FileError E) (Unit {0}))
      → IsSuccess r
      → Answers rs outcome
      → Answers (r ∷ rs) outcome
  Answers-later r rs outcome success (inl (all, e)) = inl ((success, all), e)
  Answers-later r rs outcome success (inr (before, q, after, e, all, reason)) =
      inr (r ∷ before, q, after, ap (λ qs. r ∷ qs) e, (success, all), reason)

  first_failure-Answers : (rs : List (WorkResult E A)) → Answers rs (first_failure rs)
  unfolding first_failure
  first_failure-Answers [] = inl (tt, refl)
  first_failure-Answers (r ∷ rs) = elim (JobStatus-cases r.status) [
    | inl success ↦
        subst (Answers (r ∷ rs)) (ground (arith, success))
          (Answers-later r rs (first_failure rs) success (first_failure-Answers rs))
    | inr (inl cancelled) ↦ inr ([], r, rs, refl, tt, inl (cancelled, ground (arith, cancelled)))
    | inr (inr failed) ↦ inr ([], r, rs, refl, tt, inr (failed, ground (arith, failed)))
  ]

  -- Take the answers of Submit for the jobs of a file, and the results that arrive, at most one for
  -- each job. If Submit refuses a job, SendFile and ReadFile return its error at once. Else they
  -- wait for ever if there is no job or a result is missing. Otherwise they return nil if every
  -- result is a success, and else the error of the first result that is none: that of a
  -- cancellation, or that of the failed job.
  pub file_outcome-Answers :
      (submits : List Bool) (rs : List (WorkResult E A))
      → length rs ≤ length submits
      → ((all_taken submits ≡ false) × (file_outcome submits rs ≡ some (err not_submitted)))
        ⊎ ((all_taken submits ≡ true)
            × ((((length rs < length submits) ⊎ (length submits ≡ 0))
                  × (file_outcome submits rs ≡ none))
                ⊎ ((length rs ≡ length submits)
                    × (0 < length submits)
                    × (outcome : Result (FileError E) (Unit {0})) × (file_outcome submits rs
                        ≡ some outcome)
                    × Answers rs outcome)))
  unfolding file_outcome
  file_outcome-Answers submits rs most =
      let expected = length submits in
      elim (Bool-cases (all_taken submits)) [
        | inr refused ↦ inl (refused, ground (arith, refused))
        | inl taken ↦ inr (
          taken,
          elim (Bool-cases (length rs == expected && ltb 0 expected)) [
            | inl all ↦ inr (
              ground (arith, all),
              ground (arith, all),
              first_failure rs,
              ground (
                arith,
                taken,
                collect_all rs expected 0 (ground (arith, all)) (ground (arith, all)),
              ),
              first_failure-Answers rs,
            )
            | inr missing ↦ inl (
              ground (arith, missing),
              ground (arith, taken, collect_waits rs expected 0 (ground (arith, missing))),
            )
          ],
        )
      ]
