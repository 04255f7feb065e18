-- ===== src/Wal/State.antt =====
-- The WAL struct of internal/wal/manager.go, and methods of it that may fail. What was changed before
-- an error stays changed. The mutex makes each method one step, so no lock is modelled.
use my_dfs.Common.{ℕ, Bool, Option, List, Result, ok, err}
use my_dfs.Wal.Entry.{WalError}
use my_dfs.Wal.Disk.{Disk}

-- A bufio.Writer: the segment whose file it writes to, and its buffer.
pub record LogWriter : Type 0 where
  pub target : ℕ
  pub buffer : List ℕ

-- `segment` is the number of the file that the field of this name holds. The channels flushDone are
-- numbered in the order in which they are made: `flush_done` is the one in use, and those with a
-- smaller number are closed. `snapshot` and `snapshot_tmp` are the bytes of the snapshot file and of
-- the temporary file beside it.
pub record Wal : Type 0 where
  pub enable_fs_sync : Bool
  pub max_segment_size : ℕ
  pub max_segments : ℕ
  pub cur_segment_size : ℕ
  pub flush_done : ℕ
  pub writer : Option LogWriter
  pub segment : ℕ
  pub last_segment_no : ℕ
  pub last_sequence_no : ℕ
  pub last_snapshot : ℕ
  pub disk : Disk
  pub snapshot : Option (List ℕ)
  pub snapshot_tmp : Option (List ℕ)

abbrev pub Exec : Type 0 → Type 0
Exec A = Wal → Wal × Result WalError A

abbrev pub lift : {A : Type 0} → Result WalError A → Exec A
lift r w = (w, r)

abbrev pub continue : {A B : Type 0} → Result WalError A → (A → Exec B) → Exec B
continue (ok a) f w = f a w
continue (err e) f w = (w, err e)

infixl 5 ◌>>=◌ ◌>>◌
abbrev pub ◌>>=◌ : {A B : Type 0} → Exec A → (A → Exec B) → Exec B
◌>>=◌ m f w = let (w', r) = m w in continue r f w'

abbrev pub ◌>>◌ : {B : Type 0} → Exec (Unit {0}) → Exec B → Exec B
m >> k = m >>= λ _. k
