-- ===== src/Wal/Read.antt =====
-- ReadAllEntries of internal/wal/read.go, and InitWAL of manager.go.
use my_dfs.Common.{
  ℕ, zero, suc, ◌+◌, ◌-◌, ◌%◌, ◌^◌, none, some, List, [], ◌++◌, ltb, ◌==◌, if◌then◌else◌, Result,
  ok, err, Codec, length,
}
use my_dfs.Wal.Entry.{Entry, WalError, no_log_files, no_such_file, read_all_entries_from_file}
use my_dfs.Wal.Disk.{Disk, SegmentFile, find_file, count_log_files, find_last_segment_number}
use my_dfs.Wal.State.{Wal}
use my_dfs.Wal.Segments.{add_new_log_file, find_last_sequence_number}

module _ (codec : Codec Entry) where
  -- The loop of ReadAllEntries: what a file gave beside an error is dropped.
  unfoldable pub read_segments : ℕ → ℕ → ℕ → Disk → List Entry × Result WalError (Unit {0})
  read_segments zero number seq_no disk = ([], ok tt)
  read_segments (suc rounds) number seq_no disk = elim (find_file number disk) [
    | none ↦ ([], err no_such_file)
    | some f ↦
        let (entries, outcome) = read_all_entries_from_file codec f.bytes seq_no in
        let (rest, end) = read_segments rounds (number + 1) seq_no disk in
        let read : List Entry × Result WalError (Unit {0}) = elim outcome [
          | ok _ ↦ (entries ++ rest, end)
          | err e ↦ ([], err e)
        ] in
        read
  ]

  -- ReadAllEntries: it takes the segments for consecutive ones that end at the current one.
  unfoldable pub read_all_entries : Wal → List Entry × Result WalError (Unit {0})
  read_all_entries w =
      let count = count_log_files w.disk in
      if count == 0
      then ([], err no_log_files)
      else read_segments count ((w.last_segment_no + 2 ^ 64 - count + 1) % 2 ^ 64)
          w.last_sequence_no w.disk

  -- InitWAL on a directory that holds log files: the last segment is opened for appending.
  unfoldable pub reopen : Wal → SegmentFile → Wal × Result WalError (Unit {0})
  reopen w f = elim (find_last_sequence_number codec w.disk f) [
    | err e ↦ (w, err e)
    | ok seq_no ↦ (
      record w {
        last_segment_no = f.number;
        cur_segment_size = length f.bytes;
        segment = f.number;
        writer = some (record { target = f.number; buffer = [] });
        last_sequence_no = seq_no;
      },
      ok tt,
    )
  ]

  -- InitWAL, on the default configuration with the options applied. What a failed call leaves is
  -- dropped by the caller.
  unfoldable pub init_wal : Wal → Wal × Result WalError (Unit {0})
  init_wal w =
      if ltb 0 (count_log_files w.disk)
      then elim (find_file (find_last_segment_number w.disk) w.disk) [
        | none ↦ (w, err no_such_file)
        | some f ↦ reopen w f
      ]
      else add_new_log_file codec w
