-- ===== src/Wal/Entry/Framing.antt =====
-- Log files as sequences of entries: what the readers of internal/wal/read.go and manager.go find in
-- bytes that appendEntry wrote.
use my_dfs.Common.{
  List, ℕ, zero, suc, ◌+◌, ◌-◌, ◌%◌, ◌^◌, ◌≤◌, ◌<◌, ◌≡◌, refl, sym, ap, ◌∙◌, some, [], ◌∷◌, ◌++◌,
  append-nil, append_assoc, arith, ◌==◌, if◌then◌else◌, le→ltb, ==_refl, ok, Codec, length, drop,
  length-append, take_all, drop_all, take-append, drop-append,
}
use my_dfs.Binary.{put_uint32, uint32_of-put, crc32}
use my_dfs.Wal.Entry.{
  Entry, frame, read_length, unmarshall_entry, read_entry, read_entries, read_all_entries_from_file,
  last_record_at, find_last, find_last_record,
}

-- The last entry of a list that begins with `e`.
unfoldable pub last_of : Entry → List Entry → Entry
last_of e [] = e
last_of e (f ∷ es) = last_of f es

-- The entries up to and with the first one that has the number.
unfoldable pub up_to : ℕ → List Entry → List Entry
up_to seq_no [] = []
up_to seq_no (e ∷ es) = if e.log_sequence_no == seq_no then e ∷ [] else e ∷ up_to seq_no es

module _ (codec : Codec Entry) where
  open codec use {marshal, unmarshal-marshal}

  -- The body of an entry that verifies, and whose length fits its prefix.
  abbrev pub IsBody : Entry → List ℕ → Type 0
  IsBody e body = (marshal e ≡ some body) × (length body < 2 ^ 32) × (e.crc ≡ crc32 e.payload)

  -- The bytes are the frames of these entries, one after the other.
  abbrev pub Encodes : List ℕ → List Entry → Type 0
  Encodes bytes [] = bytes ≡ []
  Encodes bytes (e ∷ es) =
      (body : List ℕ) × (rest : List ℕ) × IsBody e body
      × (bytes ≡ frame body ++ rest)
      × Encodes rest es

  pub Encodes-append :
      (xs ys : List ℕ) (es fs : List Entry)
      → Encodes xs es
      → Encodes ys fs
      → Encodes (xs ++ ys) (es ++ fs)
  Encodes-append xs ys [] fs h k = rw h k
  Encodes-append xs ys (e ∷ es) fs (body, rest, good, eq, h) k = (
    body,
    rest ++ ys,
    good,
    rw eq (append_assoc (frame body) rest ys),
    Encodes-append rest ys es fs h k,
  )

  pub Encodes-one : (e : Entry) (body : List ℕ) → IsBody e body → Encodes (frame body) (e ∷ [])
  Encodes-one e body good = (body, [], good, sym (append-nil (frame body)), refl)

  unmarshall-body : (e : Entry) (body : List ℕ) → IsBody e body → unmarshall_entry codec body ≡ ok e
  unfolding unmarshall_entry
  unmarshall-body e body (written, fits, good) =
      rw (unmarshal-marshal e body written) (rw (good, ==_refl (crc32 e.payload)) refl)

  read_length-frame :
      (body rest : List ℕ)
      → length body < 2 ^ 32
      → read_length (frame body ++ rest) ≡ ok (length body, body ++ rest)
  unfolding read_length frame put_uint32
  read_length-frame body rest h =
      ap (λ n. ok (n, body ++ rest))
        (uint32_of-put (length body % 2 ^ 32) (omega arith) ∙ omega arith)

  read_entry-frame :
      (e : Entry) (body rest : List ℕ)
      → IsBody e body
      → read_entry codec (frame body ++ rest) ≡ ok (e, rest)
  unfolding read_entry
  read_entry-frame e body rest good = rw (read_length-frame body rest good.1) (
      rw
        (
          le→ltb (length (body ++ rest)) (length body) (omega (arith, length-append body rest)),
          take-append body rest,
          drop-append body rest,
          unmarshall-body e body good,
        )
        refl)

  read_entries-Encodes :
      (fuel : ℕ) (bytes : List ℕ) (es : List Entry) (seq_no : ℕ)
      → Encodes bytes es
      → length es < fuel
      → read_entries codec fuel bytes seq_no ≡ (up_to seq_no es, ok tt)
  unfolding read_entries up_to
  read_entries-Encodes zero bytes es seq_no h enough = absurd (omega arith)
  read_entries-Encodes (suc fuel) bytes [] seq_no h enough =
      rw (h, read_entries) (unfold read_entry read_length in refl)
  read_entries-Encodes (suc fuel) bytes (e ∷ es) seq_no (body, rest, good, eq, h) enough =
      rw (eq, read_entry-frame e body rest good, read_entries)
        (ground (arith, read_entries-Encodes fuel rest es seq_no h (omega arith)))

  pub length-Encodes :
      (bytes : List ℕ) (es : List Entry) → Encodes bytes es → length es ≤ length bytes
  unfolding frame put_uint32
  length-Encodes bytes [] h = omega arith
  length-Encodes bytes (e ∷ es) (body, rest, good, eq, h) =
      rw (eq, length-append (frame body) rest) (omega (arith, length-Encodes rest es h))

  -- On a file of the frames of entries that verify, each of less than 2^32 bytes,
  -- readAllEntriesFromFile returns the entries in order, up to and with the first that has the
  -- given number, and no error.
  pub read_all-Encodes :
      (file : List ℕ) (es : List Entry) (seq_no : ℕ)
      → Encodes file es
      → read_all_entries_from_file codec file seq_no ≡ (up_to seq_no es, ok tt)
  unfolding read_all_entries_from_file
  read_all-Encodes file es seq_no h =
      read_entries-Encodes (suc (length file)) file es seq_no h
        (omega (arith, length-Encodes file es h))

  pub length-frame : (body : List ℕ) → length (frame body) ≡ 4 + length body
  unfolding frame put_uint32
  length-frame body = omega arith

  body_of_frame :
      (front body : List ℕ)
      → drop (length (front ++ frame body) - length body) (front ++ frame body) ≡ body
  unfolding frame
  body_of_frame front body =
      let header = put_uint32 (length body % 2 ^ 32) in
      let whole : front ++ (header ++ body) ≡ (front ++ header) ++ body =
        sym (append_assoc front header body) in
      let offset : length ((front ++ header) ++ body) - length body ≡ length (front ++ header) =
        omega (arith, length-append (front ++ header) body) in
      rw (whole, offset) (drop-append (front ++ header) body)

  last_record_at-frame :
      (front body : List ℕ) (e : Entry)
      → IsBody e body
      → last_record_at codec (front ++ frame body) (length (front ++ frame body)) (length body)
        ≡ ok e
  unfolding last_record_at
  last_record_at-frame front body e good =
      rw
        (
          body_of_frame front body,
          take_all (length body) body (omega arith),
          unmarshall-body e body good,
        )
        (ground (arith, length-append front (frame body), length-frame body))

  pub find_last_step :
      (fuel : ℕ) (file next rest : List ℕ) (offset prev : ℕ)
      → length next < 2 ^ 32
      → drop offset file ≡ frame next ++ rest
      → find_last codec (suc fuel) file offset prev
        ≡ find_last codec fuel file (offset + 4 + length next) (length next)
  unfolding find_last
  find_last_step fuel file next rest offset prev fits e =
      rw (e, read_length-frame next rest fits, find_last) refl

  pub find_last_stop :
      (fuel : ℕ) (file : List ℕ) (offset prev : ℕ)
      → drop offset file ≡ []
      → find_last codec (suc fuel) file offset prev ≡ last_record_at codec file offset prev
  unfolding find_last read_length
  find_last_stop fuel file offset prev e = rw (e, find_last) refl

  -- The loop of findLastRecord behind a frame that it has read.
  find_last-Encodes :
      (fuel : ℕ) (front body rest : List ℕ) (e : Entry) (es : List Entry)
      → IsBody e body
      → Encodes rest es
      → length es < fuel
      → find_last codec fuel
          ((front ++ frame body) ++ rest)
          (length (front ++ frame body))
          (length body)
        ≡ ok (last_of e es)
  unfolding last_of
  find_last-Encodes zero front body rest e es good h enough = absurd (omega arith)
  find_last-Encodes (suc fuel) front body rest e [] good h enough =
      rw (h, append-nil (front ++ frame body))
        (find_last_stop fuel (front ++ frame body) (length (front ++ frame body)) (length body)
            (drop_all (length (front ++ frame body)) (front ++ frame body) (omega arith))
          ∙ last_record_at-frame front body e good)
  find_last-Encodes (suc fuel) front body rest e (f ∷ es) good (next, rest', good', eq, h) enough =
      let read = front ++ frame body in
      rw eq (
        find_last_step fuel (read ++ (frame next ++ rest')) next rest' (length read) (length body)
          good'.1 (drop-append read (frame next ++ rest'))
        ∙ rw (← append_assoc read (frame next) rest') (
            ap (λ n. find_last codec fuel ((read ++ frame next) ++ rest') n (length next))
              (omega (arith, length-append read (frame next), length-frame next))
            ∙ find_last-Encodes fuel read next rest' f es good' h (omega arith)))

  -- On a file of the frames of one or more entries that verify, each of less than 2^32 bytes,
  -- findLastRecord returns the last of them.
  pub find_last_record-Encodes :
      (file : List ℕ) (e : Entry) (es : List Entry)
      → Encodes file (e ∷ es)
      → find_last_record codec file ≡ ok (last_of e es)
  unfolding find_last_record
  find_last_record-Encodes file e es (body, rest, good, eq, h) =
      let long : length es < length file = rw eq (
        omega
          (arith, length-append (frame body) rest, length-frame body, length-Encodes rest es h)) in
      find_last_step (length file) file body rest 0 0 good.1 eq
      ∙ cc (find_last-Encodes (length file) [] body rest e es good h long, length-frame body, eq)
