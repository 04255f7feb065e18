-- ===== src/Wal/Log.antt =====
-- What the log holds, as a list of entries, and how the files and the buffer of a WAL hold it.
pub mod Thinning
pub mod Files
pub mod Removal
pub mod Rotation
pub mod Entries
pub mod Reading
pub mod Waiting
pub mod Torn
pub mod Opening
pub mod Cleanup
use my_dfs.Common.{
  List, ℕ, zero, suc, ◌+◌, ◌-◌, ◌*◌, ◌/◌, ◌%◌, ◌^◌, ◌≤◌, ◌<◌, min, max, ◌≡◌, refl, sym, ap, ◌∙◌,
  subst, ◌≡⟨◌⟩◌, ◌∎, ◌≢◌, ◌↔◌, ◌⊎◌, inl, inr, Bool, true, false, ◌&&◌, ◌||◌, not, Option, none,
  some, [], ◌∷◌, ◌++◌, map, append-nil, append_assoc, arith, ltb, leb, ◌==◌, if◌then◌else◌, ltb→lt,
  lt→ltb, le→ltb, leb→le, le→leb, lt→leb, ==_iff, ==_refl, tests, Bool-cases, Option-cases, Result,
  ok, err, ◌>>=◌, ◌>>◌, or_fail, Result-cases, Codec, length, get_elem?, take, drop, replicate, All,
  length-append, take-append-drop, length-take, length-drop, take_all, drop_all, take-append,
  drop-append, All-append, nil_of_length,
}
use my_dfs.Wal.Entry.{Entry}
use my_dfs.Wal.Entry.Framing.{Encodes}
use my_dfs.Wal.Disk.{SegmentFile}
use my_dfs.Wal.State.{Wal}

-- Sequence numbers rise along the list, from above `low` on.
abbrev pub Ascends : ℕ → List Entry → Type 0
Ascends low [] = Unit
Ascends low (e ∷ es) = (low < e.log_sequence_no) × Ascends e.log_sequence_no es

abbrev pub AtMost : ℕ → List Entry → Type 0
AtMost high = All (λ e. e.log_sequence_no ≤ high)

-- The second list is the first without some entries, whose numbers are at most `bound`.
pub data Thins (bound : ℕ) : List Entry → List Entry → Type 0 where
  nil : Thins bound [] []
  keep : (e : Entry) {es es' : List Entry} → Thins bound es es' → Thins bound (e ∷ es) (e ∷ es')
  cut :
      (e : Entry) {es es' : List Entry}
      → e.log_sequence_no ≤ bound
      → Thins bound es es'
      → Thins bound (e ∷ es) es'

-- File numbers rise strictly between the two bounds.
abbrev pub Rising : ℕ → List SegmentFile → ℕ → Type 0
Rising low [] high = low < high
Rising low (f ∷ fs) high = (low < f.number) × Rising f.number fs high

module _ (codec : Codec Entry) where
  -- The files hold the frames of these entries, file by file.
  abbrev pub Stored : List SegmentFile → List Entry → Type 0
  Stored [] es = es ≡ []
  Stored (f ∷ fs) es =
      (front : List Entry) × (back : List Entry) × (es ≡ front ++ back)
      × Encodes codec f.bytes front
      × Stored fs back

  -- The WAL holds the entries `entries`: those of the older files, and those of the current file,
  -- whose frames may still stand in the buffer in part.
  pub record IsLog (w : Wal) (entries : List Entry) : Type 0 where
    pub older : List SegmentFile
    pub current : SegmentFile
    pub buffer : List ℕ
    pub old_entries : List Entry
    pub current_entries : List Entry
    pub disk_eq : w.disk ≡ older ++ (current ∷ [])
    pub rising : Rising 0 older current.number
    pub segment_eq : w.segment ≡ current.number
    pub last_eq : w.last_segment_no ≡ current.number
    pub writer_eq : w.writer ≡ some (record { target = current.number; buffer = buffer })
    pub entries_eq : entries ≡ old_entries ++ current_entries
    pub old_stored : Stored older old_entries
    pub current_stored : Encodes codec (current.bytes ++ buffer) current_entries
    pub ascends : Ascends 0 entries
    pub at_most : AtMost w.last_sequence_no entries
