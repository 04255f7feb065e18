-- ===== src/Examples/Jobs.antt =====
-- A job that fails once and then returns.
use my_dfs.Common.{ℕ, zero}
use my_dfs.Workers.{Attempt, returned, failed, perform_work}
use my_dfs.Workers.Retries.{Ends, perform_work-Ends}

attempt : ℕ → Attempt ℕ ℕ
attempt zero = failed 7
attempt _ = returned 1

perform_work-Ends_example : Ends attempt 0 3 (perform_work attempt 3)
perform_work-Ends_example = perform_work-Ends attempt 3
