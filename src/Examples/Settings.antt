-- ===== src/Examples/Settings.antt =====
-- A configuration that asks for larger segments, and the results of two jobs.
use my_dfs.Common.{
  ℕ, zero, pos, Option, ◌<◌, ◌≡◌, ◌⊎◌, Bool, true, false, err, if◌then◌else◌, none, some, List, [],
  ◌∷◌, arith, Result, length,
}
use Prim.Native.String.{String}
use text.Mathlib.Text.{◌==◌ as str_eq}
use my_dfs.Wal.Disk.{Disk}
use my_dfs.Wal.Read.{init_wal}
use my_dfs.Wal.Options.{
  WalConfig, Settings, in_dir, has_negative, default_wal_config, configured, init_wal_with_config,
  init_wal_with_config_lem,
}
use my_dfs.Workers.{WorkResult, status_success, status_failed}
use my_dfs.Client.Reading.{FileError, not_submitted, all_taken, file_outcome}
use my_dfs.Client.Reading.Outcome.{Answers, file_outcome-Answers}
use my_dfs.Examples.Samples.{entry_codec, running}

abbrev config : WalConfig
config = record {
  dir = "logs";
  enable_fs_sync = true;
  max_segment_size = 4000;
  flush_interval = pos 0;
  max_segements = 0;
  snapshot_interval = pos 1000;
}

abbrev defaults : Settings
defaults = default_wal_config "test-wal"

-- The files of the samples are in one directory.
abbrev files_in : String → Disk × Option (List ℕ)
files_in dir = if str_eq dir "logs" then (running.disk, running.snapshot) else ([], none)

init_wal_with_config_lem_example : init_wal_with_config files_in entry_codec config defaults ≡ (
    if has_negative config
    then none
    else some (
      configured config defaults,
      init_wal entry_codec (in_dir files_in (configured config defaults)),
    ))
init_wal_with_config_lem_example = init_wal_with_config_lem files_in entry_codec config defaults

abbrev results : List (WorkResult ℕ ℕ)
results =
    record { output = some 1; error = none; retries = 0; status = status_success }
    ∷ record { output = none; error = some 7; retries = 3; status = status_failed }
    ∷ []

abbrev submits : List Bool
submits = true ∷ true ∷ []

file_outcome-Answers_example :
    ((all_taken submits ≡ false) × (file_outcome submits results ≡ some (err not_submitted)))
    ⊎ ((all_taken submits ≡ true)
        × ((((length results < 2) ⊎ (2 ≡ zero)) × (file_outcome submits results ≡ none))
            ⊎ ((length results ≡ 2)
                × (0 < 2)
                × (outcome : Result (FileError ℕ) (Unit {0})) × (file_outcome submits results
                    ≡ some outcome)
                × Answers results outcome)))
file_outcome-Answers_example = file_outcome-Answers submits results (omega arith)
