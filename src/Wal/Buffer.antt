-- ===== src/Wal/Buffer.antt =====
-- bufio.Writer with its default buffer, as internal/wal/manager.go creates it for each log file and
-- internal/wal/write.go uses it.
use my_dfs.Common.{
  ℕ, ◌-◌, ◌≡◌, List, [], ◌++◌, append-nil, append_assoc, arith, leb, ◌==◌, if◌then◌else◌, length,
  take, drop, take-append-drop, nil_of_length,
}

abbrev pub buffer_size : ℕ
buffer_size = 4096

-- Writer.Write: what goes to the file at once, and what the buffer holds then. What does not fit
-- into an empty buffer is written directly; else the buffer is filled up and flushed first.
unfoldable pub buffered_write : List ℕ → List ℕ → List ℕ × List ℕ
buffered_write buffer bytes =
    let available = buffer_size - length buffer in
    let rest = drop available bytes in
    if leb (length bytes) available
    then ([], buffer ++ bytes)
    else if length buffer == 0
    then (bytes, [])
    else if leb (length rest) buffer_size
    then (buffer ++ take available bytes, rest)
    else (buffer ++ bytes, [])

-- Nothing is lost or reordered: the file and the buffer together gain just the bytes.
pub buffered_write_lem :
    (buffer bytes : List ℕ)
    → (buffered_write buffer bytes).0 ++ (buffered_write buffer bytes).1 ≡ buffer ++ bytes
unfolding buffered_write
buffered_write_lem buffer bytes =
    let available = buffer_size - length buffer in
    ground (
      arith,
      append_assoc buffer (take available bytes) (drop available bytes),
      take-append-drop available bytes,
      append-nil bytes,
      append-nil (buffer ++ bytes),
      nil_of_length buffer,
    )
