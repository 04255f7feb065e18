-- ===== src/Wal/Segments.antt =====
-- Segments of the log: flush, addNewLogFile, removeLastLogFile, removeLogFile and
-- findLastSequenceNumberInLogFile of internal/wal/manager.go and write.go. Calls of the operating
-- system succeed, but for opening a file that is not there.
use my_dfs.Common.{
  ℕ, zero, suc, ◌+◌, ◌-◌, ◌%◌, ◌^◌, none, some, List, [], ltb, leb, ◌==◌, if◌then◌else◌, Result, ok,
  err, Codec,
}
use my_dfs.Wal.Entry.{Entry, WalError, empty_log_file, no_such_file, out_of_fuel, find_last_record}
use my_dfs.Wal.Names.{previous_segment_no}
use my_dfs.Wal.Disk.{
  Disk, SegmentFile, find_file, update_file, append_bytes, sync_file, create_file, remove_file,
  count_log_files,
}
use my_dfs.Wal.State.{Wal, LogWriter, Exec, ◌>>◌}

-- flush: the writer's buffer goes to the file that the writer was made for, and fsync is called on
-- `segment`. Closing flushDone and making a new one is the next number.
unfoldable pub flush_writer : LogWriter → Wal → Wal
flush_writer lw w =
    let written = update_file lw.target (append_bytes lw.buffer) w.disk in
    record w {
      disk = if w.enable_fs_sync then update_file w.segment sync_file written else written;
      writer = some (record lw { buffer = [] });
      flush_done = w.flush_done + 1;
    }

unfoldable pub flush : Wal → Wal
flush w = elim w.writer [ none ↦ w | some lw ↦ flush_writer lw w ]

-- The second half of addNewLogFile: the new file becomes `segment` before the old writer is flushed.
unfoldable pub open_segment : Wal → Wal
open_segment w =
    let number = (w.last_segment_no + 1) % 2 ^ 64 in
    let opened = record w {
      last_segment_no = number;
      disk = create_file number w.disk;
      segment = number;
      cur_segment_size = 0;
    } in
    record (flush opened) { writer = some (record { target = number; buffer = [] }) }

module _ (codec : Codec Entry) where
  -- findLastSequenceNumberInLogFile: an empty file defers to the segment before it.
  unfoldable pub last_sequence : ℕ → Disk → ℕ → List ℕ → Result WalError ℕ
  last_sequence zero disk number file = err out_of_fuel
  last_sequence (suc fuel) disk number file = elim (find_last_record codec file) [
    | ok entry ↦ ok entry.log_sequence_no
    | err empty_log_file ↦
        let previous = previous_segment_no number in
        let before : Result WalError ℕ = elim (find_file previous disk) [
          | none ↦ err no_such_file
          | some f ↦ last_sequence fuel disk previous f.bytes
        ] in
        if previous == 0 then ok 0 else before
    | err e ↦ err e
  ]

  -- Numbers fall by one in each round, so a segment's own number is fuel enough.
  unfoldable pub find_last_sequence_number : Disk → SegmentFile → Result WalError ℕ
  find_last_sequence_number disk f = last_sequence (suc f.number) disk f.number f.bytes

  -- The test of removeLogFile on the last sequence number of the file.
  unfoldable pub remove_if_snapshotted : ℕ → ℕ → Wal → Wal
  remove_if_snapshotted seg_no seq_no w =
      if ltb w.last_snapshot seq_no then w else record w { disk = remove_file seg_no w.disk }

  -- removeLogFile
  unfoldable pub remove_log_file : ℕ → Exec (Unit {0})
  remove_log_file seg_no w = elim (find_file seg_no w.disk) [
    | none ↦ (w, err no_such_file)
    | some f ↦ elim (find_last_sequence_number w.disk f) [
      | ok seq_no ↦ (remove_if_snapshotted seg_no seq_no w, ok tt)
      | err e ↦ (w, err e)
    ]
  ]

  -- removeLastLogFile
  unfoldable pub remove_last_log_file : Exec (Unit {0})
  remove_last_log_file w =
      remove_log_file ((w.last_segment_no + 2 ^ 64 - w.max_segments + 1) % 2 ^ 64) w

  -- The first half of addNewLogFile.
  unfoldable pub make_room : Exec (Unit {0})
  make_room w =
      if leb w.max_segments (count_log_files w.disk) then remove_last_log_file w else (w, ok tt)

  -- addNewLogFile
  unfoldable pub add_new_log_file : Exec (Unit {0})
  add_new_log_file = do make_room; (λ w. (open_segment w, ok tt))
