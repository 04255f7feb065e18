-- ===== src/Examples/Crashes.antt =====
-- A log that ends in the middle of a record.
use my_dfs.Common.{◌<◌, ◌≡◌, refl, some, [], ◌∷◌, ◌++◌, arith, take}
use my_dfs.Wal.Entry.{frame}
use my_dfs.Wal.Disk.{count_log_files, find_last_segment_number, SegmentFile, find_file}
use my_dfs.Wal.State.{Wal}
use my_dfs.Wal.Read.{init_wal}
use my_dfs.Wal.Log.Torn.{IsUnread, init_wal-IsUnread}
use my_dfs.Examples.Samples.{entry_codec, entry_a, entry_b, body_a, body_b, running, two_frames}

abbrev torn_file : SegmentFile
torn_file = record {
  number = 1;
  bytes = (frame body_a ++ frame body_b) ++ take 6 (frame body_a);
  synced = 9;
}

abbrev crashed : Wal
crashed = record running { disk = torn_file ∷ [] }

has_files : 0 < count_log_files crashed.disk
unfolding count_log_files
has_files = omega arith

last_file : find_file (find_last_segment_number crashed.disk) crashed.disk ≡ some torn_file
unfolding find_file find_last_segment_number
last_file = refl

init_wal-IsUnread_example : IsUnread (init_wal entry_codec crashed).1
init_wal-IsUnread_example =
    init_wal-IsUnread entry_codec crashed torn_file (frame body_a ++ frame body_b) body_a
      (entry_a ∷ entry_b ∷ []) 6 has_files last_file two_frames refl (omega arith) (omega arith)
      (omega arith)
