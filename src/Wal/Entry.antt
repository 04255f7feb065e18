-- ===== src/Wal/Entry.antt =====
-- The records of a log file: WAL_Entry of internal/wal/wal_entry.proto, its framing in write.go and
-- its readers in read.go and manager.go. protobuf is a `Codec`. A log file is the list of its bytes.
pub mod Framing
use my_dfs.Common.{
  ℕ, zero, suc, ◌+◌, ◌-◌, ◌*◌, ◌/◌, ◌%◌, ◌^◌, ◌≤◌, ◌<◌, min, max, ◌≡◌, refl, sym, ap, ◌∙◌, subst,
  ◌≡⟨◌⟩◌, ◌∎, ◌≢◌, ◌↔◌, ◌⊎◌, inl, inr, Bool, true, false, ◌&&◌, ◌||◌, not, Option, none, some, List,
  [], ◌∷◌, ◌++◌, map, append-nil, append_assoc, arith, ltb, leb, ◌==◌, if◌then◌else◌, ltb→lt,
  lt→ltb, le→ltb, leb→le, le→leb, lt→leb, ==_iff, ==_refl, tests, Bool-cases, Option-cases, Result,
  ok, err, ◌>>=◌, ◌>>◌, or_fail, Result-cases, Codec, length, get_elem?, take, drop, replicate, All,
  length-append, take-append-drop, length-take, length-drop, take_all, drop_all, take-append,
  drop-append, All-append, nil_of_length,
}
use my_dfs.Binary.{put_uint32, uint32_of, crc32}

pub record Entry : Type 0 where
  pub log_sequence_no : ℕ
  pub payload : List ℕ
  pub crc : ℕ
  pub is_delete : Option Bool

-- `out_of_fuel` is no Go value: a loop that is modelled on fuel has used it up.
pub data WalError : Type 0 where
  end_of_file length_not_read body_not_read bad_entry crc_failed not_marshalled : WalError
  empty_log_file no_log_files no_snapshot_file no_such_file bad_file_name : WalError
  snapshot_failed apply_failed out_of_fuel : WalError

-- GetIsDelete
unfoldable pub get_is_delete : Entry → Bool
get_is_delete e = elim e.is_delete [ none ↦ false | some b ↦ b ]

-- verifyCRC
unfoldable pub verify_crc : Entry → Bool
verify_crc e = e.crc == crc32 e.payload

-- The length prefix and the bytes that appendEntry writes for one entry.
unfoldable pub frame : List ℕ → List ℕ
frame body = put_uint32 (length body % 2 ^ 32) ++ body

-- binary.Read of a big-endian uint32, and what is left.
unfoldable pub read_length : List ℕ → Result WalError (ℕ × List ℕ)
unfolding uint32_of
read_length [] = err end_of_file
read_length (a ∷ b ∷ c ∷ d ∷ rest) = ok (uint32_of a b c d, rest)
read_length _ = err length_not_read

module _ (codec : Codec Entry) where
  open codec use {unmarshal}

  -- unmarshallEntry
  unfoldable pub unmarshall_entry : List ℕ → Result WalError Entry
  unfolding verify_crc
  unmarshall_entry bytes = do
    entry ← or_fail bad_entry (unmarshal bytes)
    if verify_crc entry then ok entry else err crc_failed

  -- The body of readEntry after the length: io.ReadFull, then the entry.
  unfoldable pub read_body : ℕ → List ℕ → Result WalError (Entry × List ℕ)
  read_body len rest =
      if ltb (length rest) len
      then err body_not_read
      else do entry ← unmarshall_entry (take len rest); ok (entry, drop len rest)

  -- readEntry
  unfoldable pub read_entry : List ℕ → Result WalError (Entry × List ℕ)
  unfolding read_length read_body
  read_entry stream = do (len, rest) ← read_length stream; read_body len rest

  -- The loop of readAllEntriesFromFile: the entries so far come back beside an error too.
  unfoldable pub read_entries : ℕ → List ℕ → ℕ → List Entry × Result WalError (Unit {0})
  read_entries zero stream seq_no = ([], err out_of_fuel)
  read_entries (suc fuel) stream seq_no = elim (read_entry stream) [
    | err end_of_file ↦ ([], ok tt)
    | ok (entry, rest) ↦
        let (entries, outcome) = read_entries fuel rest seq_no in
        if entry.log_sequence_no == seq_no then (entry ∷ [], ok tt) else (entry ∷ entries, outcome)
    | err e ↦ ([], err e)
  ]

  -- readAllEntriesFromFile: each round takes four bytes at least.
  unfoldable pub read_all_entries_from_file : List ℕ → ℕ → List Entry × Result WalError (Unit {0})
  read_all_entries_from_file file seq_no = read_entries (suc (length file)) file seq_no

  -- What findLastRecord does at the end of the file: it goes back by the last length that it read.
  unfoldable pub last_record_at : List ℕ → ℕ → ℕ → Result WalError Entry
  last_record_at file offset prev_length =
      if offset == 0
      then err empty_log_file
      else let entry_data = drop (offset - prev_length) file in
        if ltb (length entry_data) prev_length
        then err body_not_read
        else unmarshall_entry (take prev_length entry_data)

  -- The loop of findLastRecord. A seek may go past the end of the file.
  unfoldable pub find_last : ℕ → List ℕ → ℕ → ℕ → Result WalError Entry
  find_last zero file offset prev_length = err out_of_fuel
  find_last (suc fuel) file offset prev_length = elim (read_length (drop offset file)) [
    | err end_of_file ↦ last_record_at file offset prev_length
    | ok (len, rest) ↦ find_last fuel file (offset + 4 + len) len
    | err e ↦ err length_not_read
  ]

  -- findLastRecord
  unfoldable pub find_last_record : List ℕ → Result WalError Entry
  find_last_record file = find_last (suc (length file)) file 0 0
