-- ===== src/Wal/Snapshot.antt =====
-- takeSnapshot and performCleanup of internal/wal/snapshot.go.
use my_dfs.Common.{
  ℕ, Bool, Option, none, some, List, [], ◌∷◌, ◌++◌, ltb, if◌then◌else◌, ok, err, Codec, length,
  drop,
}
use my_dfs.Binary.{put_uint64}
use my_dfs.Wal.Entry.{Entry, snapshot_failed}
use my_dfs.Wal.Disk.{list_log_files}
use my_dfs.Wal.State.{Exec, ◌>>◌}
use my_dfs.Wal.Segments.{remove_log_file}

-- Writing at the start of a file that is opened without O_TRUNC: what it held beyond stays.
unfoldable pub overwrite : List ℕ → Option (List ℕ) → List ℕ
overwrite bytes none = bytes
overwrite bytes (some old) = bytes ++ drop (length bytes) old

-- takeSnapshot until the cleanup: `state` is what Snapshot writes, and whether it succeeds. The
-- number of the last snapshot is set when the temporary file has been renamed.
unfoldable pub write_snapshot : ℕ → List ℕ × Bool → Exec (Unit {0})
write_snapshot seq_no (state, written) w =
    let file = overwrite (put_uint64 seq_no ++ state) w.snapshot_tmp in
    if written
    then (record w { snapshot = some file; snapshot_tmp = none; last_snapshot = seq_no }, ok tt)
    else (record w { snapshot_tmp = some file }, err snapshot_failed)

module _ (codec : Codec Entry) where
  -- The loop of performCleanup over the names that listAllWALLogFiles returned.
  unfoldable pub clean_up : ℕ → List ℕ → Exec (Unit {0})
  clean_up seg_no [] w = (w, ok tt)
  clean_up seg_no (n ∷ ns) w =
      let rest = clean_up seg_no ns in
      let step : Exec (Unit {0}) = (do remove_log_file codec n; rest) in
      if ltb n seg_no then step w else rest w

  -- performCleanup
  unfoldable pub perform_cleanup : ℕ → Exec (Unit {0})
  perform_cleanup seg_no w = clean_up seg_no (list_log_files w.disk) w

  -- takeSnapshot from the point where it has read the two counters: other calls may have appended
  -- since, and the state that is written may hold their effects.
  unfoldable pub finish_snapshot : ℕ → ℕ → List ℕ × Bool → Exec (Unit {0})
  finish_snapshot seq_no seg_no state = do write_snapshot seq_no state; perform_cleanup seg_no

  -- takeSnapshot with no call in between.
  unfoldable pub take_snapshot : List ℕ × Bool → Exec (Unit {0})
  take_snapshot state w = finish_snapshot w.last_sequence_no w.last_segment_no state w
