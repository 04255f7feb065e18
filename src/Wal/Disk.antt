-- ===== src/Wal/Disk.antt =====
-- The log files of the WAL directory, in the order of their creation.
use my_dfs.Common.{ℕ, max, Option, none, some, List, [], ◌∷◌, ◌++◌, ◌==◌, if◌then◌else◌, length}
use my_dfs.Wal.Names.{log_file_name, name_before}

-- `synced` is the length of the prefix that the last fsync of the file has made durable.
pub record SegmentFile : Type 0 where
  pub number : ℕ
  pub bytes : List ℕ
  pub synced : ℕ

abbrev pub Disk : Type 0
Disk = List SegmentFile

unfoldable pub find_file : ℕ → Disk → Option SegmentFile
find_file n [] = none
find_file n (f ∷ fs) = if f.number == n then some f else find_file n fs

-- Applies a change to the file with the number. A write to a file that has been unlinked is seen in
-- no directory.
unfoldable pub update_file : ℕ → (SegmentFile → SegmentFile) → Disk → Disk
update_file n change [] = []
update_file n change (f ∷ fs) = (if f.number == n then change f else f) ∷ update_file n change fs

unfoldable pub append_bytes : List ℕ → SegmentFile → SegmentFile
append_bytes bytes f = record f { bytes = f.bytes ++ bytes }

unfoldable pub sync_file : SegmentFile → SegmentFile
sync_file f = record f { synced = length f.bytes }

abbrev pub new_file : ℕ → SegmentFile
new_file n = record { number = n; bytes = []; synced = 0 }

-- os.Create truncates a file that is there.
unfoldable pub create_file : ℕ → Disk → Disk
create_file n fs = elim (find_file n fs) [
  | none ↦ fs ++ new_file n ∷ []
  | some f ↦ update_file n (λ _. new_file n) fs
]

-- os.Remove
unfoldable pub remove_file : ℕ → Disk → Disk
remove_file n [] = []
remove_file n (f ∷ fs) = let rest = remove_file n fs in if f.number == n then rest else f ∷ rest

-- countLogFiles
unfoldable pub count_log_files : Disk → ℕ
count_log_files fs = length fs

insert_by_name : ℕ → List ℕ → List ℕ
insert_by_name n [] = n ∷ []
insert_by_name n (m ∷ ms) =
    let rest = insert_by_name n ms in
    if name_before (log_file_name n) (log_file_name m) then n ∷ m ∷ ms else m ∷ rest

-- listAllWALLogFiles: os.ReadDir sorts by name, so segment 10 comes before segment 2.
unfoldable pub list_log_files : Disk → List ℕ
unfolding insert_by_name
list_log_files [] = []
list_log_files (f ∷ fs) = insert_by_name f.number (list_log_files fs)

-- findLastSegmentNumber
unfoldable pub find_last_segment_number : Disk → ℕ
find_last_segment_number [] = 0
find_last_segment_number (f ∷ fs) = max f.number (find_last_segment_number fs)
