-- ===== src/Wal/Append.antt =====
-- appendEntry and AppendEntry of internal/wal/write.go.
use my_dfs.Common.{
  ℕ, ◌+◌, ◌%◌, ◌^◌, Bool, none, some, List, leb, if◌then◌else◌, ok, or_fail, Codec, length,
}
use my_dfs.Binary.{put_uint32, crc32}
use my_dfs.Wal.Entry.{Entry, not_marshalled}
use my_dfs.Wal.Disk.{update_file, append_bytes}
use my_dfs.Wal.Buffer.{buffered_write}
use my_dfs.Wal.State.{Wal, Exec, lift, ◌>>=◌, ◌>>◌}
use my_dfs.Wal.Segments.{add_new_log_file}

-- Write of the segment's bufio.Writer.
unfoldable pub write_bytes : List ℕ → Wal → Wal
write_bytes bytes w = elim w.writer [
  | none ↦ w
  | some lw ↦
      let (emitted, kept) = buffered_write lw.buffer bytes in
      record w {
        disk = update_file lw.target (append_bytes emitted) w.disk;
        writer = some (record lw { buffer = kept });
      }
]

-- The length prefix, the entry, and the segment's new size.
unfoldable pub write_entry : List ℕ → Wal → Wal
write_entry body w =
    let written = write_bytes body (write_bytes (put_uint32 (length body % 2 ^ 32)) w) in
    record written { cur_segment_size = written.cur_segment_size + (length body + 4) }

abbrev pub new_entry : List ℕ → Bool → ℕ → Entry
new_entry payload is_delete seq_no = record {
  log_sequence_no = seq_no;
  payload = payload;
  crc = crc32 payload;
  is_delete = some is_delete;
}

unfoldable pub take_sequence_no : Exec ℕ
take_sequence_no w =
    let seq_no = (w.last_sequence_no + 1) % 2 ^ 64 in
    (record w { last_sequence_no = seq_no }, ok seq_no)

module _ (codec : Codec Entry) where
  open codec use {marshal}

  unfoldable pub add_if : Bool → Exec (Unit {0})
  add_if full w = if full then add_new_log_file codec w else (w, ok tt)

  -- appendEntry from the sequence number on.
  unfoldable pub append_numbered : ℕ → ℕ → List ℕ → Bool → Exec (Unit {0})
  append_numbered size limit payload is_delete = do
    seq_no ← take_sequence_no
    bytes ← lift (or_fail not_marshalled (marshal (new_entry payload is_delete seq_no)))
    add_if (leb limit (size + length bytes + 4))
    (λ w. (write_entry bytes w, ok tt))

  -- appendEntry: both tests read the segment's size as it was at the start.
  unfoldable pub append_entry : List ℕ → Bool → Exec (Unit {0})
  append_entry payload is_delete w =
      let size = w.cur_segment_size in
      let limit = w.max_segment_size in
      let steps : Exec (Unit {0}) = do
        add_if (leb limit size)
        append_numbered size limit payload is_delete
      in steps w

  -- AppendEntry, up to the wait: the result is the channel flushDone that the caller waits for.
  unfoldable pub append_and_wait : List ℕ → Bool → Exec ℕ
  append_and_wait payload is_delete = do append_entry payload is_delete; (λ w. (w, ok w.flush_done))
