-- ===== src/Examples/Logs.antt =====
-- The write-ahead log of internal/wal on the log of the samples.
use my_dfs.Wal.Log.Waiting.{Waits, append_and_wait-Waits}
use my_dfs.Wal.Log.Opening.{init_wal-IsLog}
use my_dfs.Wal.State.{Wal}
use my_dfs.Wal.Read.{init_wal}
use my_dfs.Common.{◌≡◌, refl, true, false, none, some, List, [], ◌∷◌, ◌++◌, arith, ok, err}
use my_dfs.Binary.{put_uint64}
use my_dfs.Wal.Entry.{Entry, frame, read_all_entries_from_file, find_last_record, snapshot_failed}
use my_dfs.Wal.Entry.Framing.{last_of, up_to, read_all-Encodes, find_last_record-Encodes, last_of}
use my_dfs.Wal.Names.{segment_no_of_name, log_file_name}
use my_dfs.Wal.Names.RoundTrip.{segment_no_of_name-log_file_name}
use my_dfs.Wal.Disk.{update_file, append_bytes, sync_file}
use my_dfs.Wal.Segments.{flush, flush_writer, add_new_log_file}
use my_dfs.Wal.Append.{new_entry, append_entry, append_and_wait}
use my_dfs.Wal.Read.{read_all_entries}
use my_dfs.Wal.Snapshot.{overwrite, finish_snapshot}
use my_dfs.Wal.Log.{IsLog, Thins, Stored}
use my_dfs.Wal.Log.Rotation.{Follows, add_new_log_file-Follows}
use my_dfs.Wal.Log.Entries.{Appends, append_entry-Appends}
use my_dfs.Wal.Log.Reading.{flush-Stored, read_all-flush}
use my_dfs.Wal.Log.Cleanup.{finish_snapshot-IsLog}
use my_dfs.Examples.Samples.{
  entry_codec, entry_a, entry_b, body_a, body_b, bytes_a, running, running-IsLog, two_frames,
  entry-IsShort,
}

append_entry-Appends_example :
    Appends entry_codec 0
      (new_entry bytes_a true 3)
      (entry_a ∷ entry_b ∷ [])
      (append_entry entry_codec bytes_a true running)
append_entry-Appends_example =
    append_entry-Appends entry_codec bytes_a true running (entry_a ∷ entry_b ∷ []) entry-IsShort
      running-IsLog
      (record {
        two_segments = omega arith;
        segment_numbers = omega arith;
        sequence_numbers = omega arith;
      })

add_new_log_file-Follows_example :
    Follows entry_codec 1 running (entry_a ∷ entry_b ∷ []) (add_new_log_file entry_codec running).0
add_new_log_file-Follows_example =
    add_new_log_file-Follows entry_codec running (entry_a ∷ entry_b ∷ []) running-IsLog
      (omega arith) (omega arith)

flush-Stored_example :
    IsLog entry_codec (flush running) (entry_a ∷ entry_b ∷ [])
    × Stored entry_codec (flush running).disk (entry_a ∷ entry_b ∷ [])
    × ((flush running).flush_done ≡ 2)
flush-Stored_example = flush-Stored entry_codec running (entry_a ∷ entry_b ∷ []) running-IsLog

read_all-flush_example :
    read_all_entries entry_codec (flush running) ≡ (entry_a ∷ entry_b ∷ [], ok tt)
unfolding flush flush_writer update_file append_bytes sync_file
read_all-flush_example =
    read_all-flush entry_codec running (entry_a ∷ entry_b ∷ []) 1 running-IsLog (omega arith)
      (refl, tt)

finish_snapshot-IsLog_example :
    (let w' = (finish_snapshot entry_codec 2 1 (b'x' ∷ [], true) running).0 in
      (es' : List Entry) × IsLog entry_codec w' es'
      × Thins 2 (entry_a ∷ entry_b ∷ []) es'
      × (w'.last_snapshot ≡ 2)
      × (w'.snapshot ≡ some (overwrite (put_uint64 2 ++ (b'x' ∷ [])) none)))
    × (let (w', outcome) = finish_snapshot entry_codec 2 1 (b'x' ∷ [], false) running in
        (outcome ≡ err snapshot_failed)
        × IsLog entry_codec w' (entry_a ∷ entry_b ∷ [])
        × (w'.last_snapshot ≡ 0)
        × (w'.snapshot ≡ none))
finish_snapshot-IsLog_example =
    finish_snapshot-IsLog entry_codec 2 1 (b'x' ∷ []) running (entry_a ∷ entry_b ∷ []) running-IsLog
      (omega arith)

two_frames_read :
    read_all_entries_from_file entry_codec (frame body_a ++ frame body_b) 1 ≡ (entry_a ∷ [], ok tt)
unfolding up_to
two_frames_read =
    read_all-Encodes entry_codec (frame body_a ++ frame body_b) (entry_a ∷ entry_b ∷ []) 1
      two_frames

last_of_two_frames : find_last_record entry_codec (frame body_a ++ frame body_b) ≡ ok entry_b
unfolding last_of
last_of_two_frames =
    find_last_record-Encodes entry_codec (frame body_a ++ frame body_b) entry_a (entry_b ∷ [])
      two_frames

segment_no_of_name-log_file_name_example : segment_no_of_name (log_file_name 120) ≡ ok 120
segment_no_of_name-log_file_name_example = segment_no_of_name-log_file_name 120 (omega arith)

-- The WAL of a server that was stopped, before InitWAL.
abbrev stopped : Wal
stopped = record running {
  disk = record { number = 4; bytes = frame body_a ++ frame body_b; synced = 0 } ∷ [];
  writer = none;
  segment = 0;
  last_segment_no = 0;
  last_sequence_no = 0;
}

init_wal-IsLog_example :
    let (w', outcome) = init_wal entry_codec stopped in
    (outcome ≡ ok tt)
    × IsLog entry_codec w' (entry_a ∷ entry_b ∷ [])
    × (w'.last_sequence_no ≡ 2)
    × (w'.disk ≡ stopped.disk)
unfolding last_of
init_wal-IsLog_example =
    init_wal-IsLog entry_codec stopped []
      (record { number = 4; bytes = frame body_a ++ frame body_b; synced = 0 }) [] entry_a
      (entry_b ∷ []) refl (omega arith) refl two_frames (omega arith, (omega arith, tt))

append_and_wait-Waits_example :
    let (w', outcome) = append_and_wait entry_codec bytes_a true running in
    (es' : List Entry) × Thins 0 (entry_a ∷ entry_b ∷ []) es'
    × Waits entry_codec (new_entry bytes_a true 3) es' w' outcome
append_and_wait-Waits_example =
    append_and_wait-Waits entry_codec bytes_a true running (entry_a ∷ entry_b ∷ []) entry-IsShort
      running-IsLog
      (record {
        two_segments = omega arith;
        segment_numbers = omega arith;
        sequence_numbers = omega arith;
      })
