-- ===== src/Wal/Options.antt =====
-- The configuration of a WAL in internal/wal/manager.go: WALConfig and the options. The settings are the
-- fields of the WAL that options set, with the directory's name and the intervals of the timers in
-- nanoseconds. `none` is the panic of time.NewTicker at an interval that is not positive. The files of
-- every directory are the parameter `files_in`.
use my_dfs.Common.{
  ℤ, pos, negsuc, ℕ, ◌≡◌, Bool, true, false, ◌&&◌, ◌||◌, not, Option, none, some, List, [], ◌∷◌,
  ◌++◌, arith, leb, ◌==◌, if◌then◌else◌, Result, Codec,
}
use Prim.Native.String.{String}
use text.Mathlib.Text.{◌==◌ as str_eq}
use my_dfs.Wal.Entry.{Entry, WalError}
use my_dfs.Wal.Disk.{Disk}
use my_dfs.Wal.State.{Wal}
use my_dfs.Wal.Read.{init_wal}

pub record WalConfig : Type 0 where
  pub dir : String
  pub enable_fs_sync : Bool
  pub max_segment_size : ℕ
  pub flush_interval : ℤ
  pub max_segements : ℕ
  pub snapshot_interval : ℤ

pub record Settings : Type 0 where
  pub dir : String
  pub flush_interval : ℤ
  pub snapshot_interval : ℤ
  pub wal : Wal

abbrev pub WalOption : Type 0
WalOption = Settings → Option Settings

unfoldable pub enable_fs_sync : WalOption
enable_fs_sync s = some (record s { wal = record s.wal { enable_fs_sync = true } })

unfoldable pub with_max_segement_size : ℕ → WalOption
with_max_segement_size n s = some (record s { wal = record s.wal { max_segment_size = n } })

unfoldable pub with_max_segements : ℕ → WalOption
with_max_segements n s = some (record s { wal = record s.wal { max_segments = n } })

-- The test of time.NewTicker.
unfoldable pub is_positive : ℤ → Bool
is_positive (pos n) = not (n == 0)
is_positive (negsuc n) = false

unfoldable pub is_zero : ℤ → Bool
is_zero (pos n) = n == 0
is_zero (negsuc n) = false

unfoldable pub with_flush_interval : ℤ → WalOption
with_flush_interval d s = if is_positive d then some (record s { flush_interval = d }) else none

unfoldable pub with_snapshot_interval : ℤ → WalOption
with_snapshot_interval d s =
    if is_positive d then some (record s { snapshot_interval = d }) else none

unfoldable pub with_wal_dir : String → WalOption
with_wal_dir dir s = some (record s { dir = dir })

abbrev pub option_if : Bool → WalOption → List WalOption
option_if test opt = if test then opt ∷ [] else []

-- options of a WALConfig
unfoldable pub options : WalConfig → List WalOption
options c =
    option_if (not (str_eq c.dir "")) (with_wal_dir c.dir)
    ++ (option_if c.enable_fs_sync enable_fs_sync
        ++ (option_if (leb 1 c.max_segment_size) (with_max_segement_size c.max_segment_size)
            ++ (option_if (leb 1 c.max_segements) (with_max_segements c.max_segements)
                ++ (option_if (not (is_zero c.snapshot_interval))
                      (with_snapshot_interval c.snapshot_interval)
                    ++ option_if (not (is_zero c.flush_interval))
                        (with_flush_interval c.flush_interval)))))

-- The loop of InitWAL over the options.
unfoldable pub apply_options : List WalOption → Settings → Option Settings
apply_options [] s = some s
apply_options (opt ∷ opts) s = elim (opt s) [ none ↦ none | some s' ↦ apply_options opts s' ]

-- defaultWALConfig in this directory.
unfoldable pub default_wal_config : String → Settings
default_wal_config dir = record {
  dir = dir;
  flush_interval = pos 5000000;
  snapshot_interval = pos 20000000000;
  wal = record {
    enable_fs_sync = false;
    max_segment_size = 400;
    max_segments = 3;
    cur_segment_size = 0;
    flush_done = 0;
    writer = none;
    segment = 0;
    last_segment_no = 0;
    last_sequence_no = 0;
    last_snapshot = 0;
    disk = [];
    snapshot = none;
    snapshot_tmp = none;
  };
}

-- What a configuration asks for: every field that is not empty replaces that of the settings.
unfoldable pub configured : WalConfig → Settings → Settings
configured c s = record {
  dir = if str_eq c.dir "" then s.dir else c.dir;
  flush_interval = if is_zero c.flush_interval then s.flush_interval else c.flush_interval;
  snapshot_interval =
      if is_zero c.snapshot_interval then s.snapshot_interval else c.snapshot_interval;
  wal = record s.wal {
    enable_fs_sync = c.enable_fs_sync || s.wal.enable_fs_sync;
    max_segment_size =
        if c.max_segment_size == 0 then s.wal.max_segment_size else c.max_segment_size;
    max_segments = if c.max_segements == 0 then s.wal.max_segments else c.max_segements;
  };
}

-- The WAL on the files of its directory, which InitWAL reads when the options are set.
abbrev pub in_dir : (String → Disk × Option (List ℕ)) → Settings → Wal
in_dir files_in s = record s.wal { disk = (files_in s.dir).0; snapshot = (files_in s.dir).1 }

-- An interval that NewTicker does not take, which `options` lets through.
unfoldable pub has_negative : WalConfig → Bool
has_negative c =
    (not (is_zero c.flush_interval) && not (is_positive c.flush_interval))
    || (not (is_zero c.snapshot_interval) && not (is_positive c.snapshot_interval))

-- InitWALwithConfig, with the settings that InitWAL takes over.
unfoldable pub init_wal_with_config :
    (String → Disk × Option (List ℕ))
    → Codec Entry
    → WalConfig
    → Settings
    → Option (Settings × (Wal × Result WalError (Unit {0})))
init_wal_with_config files_in codec c s = elim (apply_options (options c) s) [
  | none ↦ none
  | some t ↦ some (t, init_wal codec (in_dir files_in t))
]

apply_options-configured :
    (c : WalConfig) (s : Settings)
    → apply_options (options c) s ≡ (if has_negative c then none else some (configured c s))
unfolding has_negative apply_options options configured enable_fs_sync with_max_segement_size
    with_max_segements with_flush_interval with_snapshot_interval with_wal_dir
apply_options-configured c s = ground arith

-- InitWALwithConfig panics if the configuration has a negative interval. Else it calls InitWAL, on
-- the files of the directory that is set, with the settings in which every field of the
-- configuration that is not empty has replaced the default.
pub init_wal_with_config_lem :
    (files_in : String → Disk × Option (List ℕ)) (codec : Codec Entry) (c : WalConfig)
    (s : Settings)
    → init_wal_with_config files_in codec c s ≡ (
        if has_negative c
        then none
        else some (configured c s, init_wal codec (in_dir files_in (configured c s))))
unfolding init_wal_with_config
init_wal_with_config_lem files_in codec c s = ground (arith, apply_options-configured c s)
