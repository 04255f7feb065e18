-- ===== src/Examples/Samples.antt =====
-- Two serialisations, and the log of a metadata server to which two files were added.
use my_dfs.Common.{
  ℕ, zero, suc, ◌^◌, ◌<◌, ◌≡◌, refl, Bool, true, false, Option, none, some, List, [], ◌∷◌, ◌++◌,
  arith, if◌then◌else◌, Codec, length,
}
use text.Mathlib.Text.{◌==◌ as str_eq}
use text.Mathlib.TextEquality.{eq_iff}
use my_dfs.Files.Meta.{FileMetadata}
use my_dfs.Wal.Entry.{Entry, frame}
use my_dfs.Wal.Entry.Framing.{Encodes}
use my_dfs.Wal.State.{Wal}
use my_dfs.Wal.Append.{new_entry}
use my_dfs.Wal.Log.{IsLog}

unfoldable pub flag_of : Option Bool → ℕ
flag_of none = 0
flag_of (some false) = 1
flag_of (some true) = 2

unfoldable pub flag_to : ℕ → Option Bool
flag_to zero = none
flag_to (suc zero) = some false
flag_to _ = some true

flag_to-of : (flag : Option Bool) → flag_to (flag_of flag) ≡ flag
unfolding flag_to flag_of
flag_to-of none = refl
flag_to-of (some false) = refl
flag_to-of (some true) = refl

unfoldable pub marshal_entry : Entry → Option (List ℕ)
marshal_entry e = some (e.log_sequence_no ∷ flag_of e.is_delete ∷ e.crc ∷ e.payload)

unfoldable pub unmarshal_entry : List ℕ → Option Entry
unmarshal_entry (n ∷ flag ∷ crc ∷ payload) =
    some (record { log_sequence_no = n; payload = payload; crc = crc; is_delete = flag_to flag })
unmarshal_entry _ = none

pub unmarshal-marshal_entry :
    (e : Entry) (bytes : List ℕ) → marshal_entry e ≡ some bytes → unmarshal_entry bytes ≡ some e
unfolding marshal_entry unmarshal_entry
unmarshal-marshal_entry e bytes h = ground (arith, h, flag_to-of e.is_delete)

abbrev pub entry_codec : Codec Entry
entry_codec = record {
  marshal = marshal_entry;
  unmarshal = unmarshal_entry;
  unmarshal-marshal = unmarshal-marshal_entry;
}

-- Files without chunks that are named a or b.
unfoldable pub marshal_meta : FileMetadata → Option (List ℕ)
marshal_meta meta = elim meta.chunk_info [
  | [] ↦
      if str_eq meta.name "a"
      then some (0 ∷ meta.size ∷ [])
      else if str_eq meta.name "b"
      then some (1 ∷ meta.size ∷ [])
      else none
  | _ ↦ none
]

unfoldable pub unmarshal_meta : List ℕ → Option FileMetadata
unmarshal_meta (zero ∷ size ∷ []) = some (record { size = size; name = "a"; chunk_info = [] })
unmarshal_meta (suc zero ∷ size ∷ []) = some (record { size = size; name = "b"; chunk_info = [] })
unmarshal_meta _ = none

pub unmarshal-marshal_meta :
    (meta : FileMetadata) (bytes : List ℕ)
    → marshal_meta meta ≡ some bytes
    → unmarshal_meta bytes ≡ some meta
unfolding marshal_meta unmarshal_meta
unmarshal-marshal_meta meta bytes h = ground (arith, h, eq_iff meta.name "a", eq_iff meta.name "b")

abbrev pub meta_codec : Codec FileMetadata
meta_codec = record {
  marshal = marshal_meta;
  unmarshal = unmarshal_meta;
  unmarshal-marshal = unmarshal-marshal_meta;
}

abbrev pub file_a : FileMetadata
file_a = record { size = 5; name = "a"; chunk_info = [] }

abbrev pub file_b : FileMetadata
file_b = record { size = 7; name = "b"; chunk_info = [] }

abbrev pub bytes_a : List ℕ
bytes_a = 0 ∷ 5 ∷ []

abbrev pub bytes_b : List ℕ
bytes_b = 1 ∷ 7 ∷ []

abbrev pub entry_a : Entry
entry_a = new_entry bytes_a false 1

abbrev pub entry_b : Entry
entry_b = new_entry bytes_b false 2

-- The bodies of the two entries in the log.
abbrev pub body_a : List ℕ
body_a = 1 ∷ 1 ∷ entry_a.crc ∷ bytes_a

abbrev pub body_b : List ℕ
body_b = 2 ∷ 1 ∷ entry_b.crc ∷ bytes_b

-- The first entry is in the file, the second still in the buffer.
abbrev pub running : Wal
running = record {
  enable_fs_sync = true;
  max_segment_size = 1000;
  max_segments = 3;
  cur_segment_size = 18;
  flush_done = 1;
  writer = some (record { target = 1; buffer = frame body_b });
  segment = 1;
  last_segment_no = 1;
  last_sequence_no = 2;
  last_snapshot = 0;
  disk = record { number = 1; bytes = frame body_a; synced = 9 } ∷ [];
  snapshot = none;
  snapshot_tmp = none;
}

pub two_frames : Encodes entry_codec (frame body_a ++ frame body_b) (entry_a ∷ entry_b ∷ [])
unfolding marshal_entry frame flag_of my_dfs.Binary.put_uint32
two_frames = (
  body_a,
  frame body_b,
  (refl, omega arith, refl),
  refl,
  (body_b, [], (refl, omega arith, refl), refl, refl),
)

-- A short payload has a short entry.
pub entry-IsShort :
    (seq_no : ℕ) (body : List ℕ)
    → marshal_entry (new_entry bytes_a true seq_no) ≡ some body
    → length body < 2 ^ 32
unfolding marshal_entry
entry-IsShort seq_no body h = ground (arith, h)

pub running-IsLog : IsLog entry_codec running (entry_a ∷ entry_b ∷ [])
running-IsLog = record {
  older = [];
  current = record { number = 1; bytes = frame body_a; synced = 9 };
  buffer = frame body_b;
  old_entries = [];
  current_entries = entry_a ∷ entry_b ∷ [];
  disk_eq = refl;
  rising = omega arith;
  segment_eq = refl;
  last_eq = refl;
  writer_eq = refl;
  entries_eq = refl;
  old_stored = refl;
  current_stored = two_frames;
  ascends = (omega arith, (omega arith, tt));
  at_most = (omega arith, (omega arith, tt));
}
