-- ===== src/Protocol/Frames.antt =====
-- The frames of internal/protocol/protocol.go: reading back what was written, and what an encoder
-- that fails has put on the wire.
use my_dfs.Common.{
  ℕ, ◌+◌, ◌-◌, ◌≤◌, ◌<◌, ◌≡◌, refl, sym, ◌∙◌, ◌↔◌, inl, inr, true, Option, none, some, List, [],
  ◌∷◌, ◌++◌, append-nil, append_assoc, arith, ltb, le→ltb, leb→le, le→leb, Bool-cases, ok, err,
  length, take, drop, All, take-append-drop, take_all, take-append, drop-append, nil_of_length,
}
use my_dfs.Binary.{put_uint32-of, IsByte, put_uint32, uint32_of-put}
use my_dfs.Protocol.{
  bad_header, eof, read_payload, Message, Writer, header_size, max_payload_len, write, header_of,
  copy_payload, encode, decode,
}

-- A message that Encode can send whole: its length fits, and its payload holds that many bytes.
abbrev pub IsSendable : Message → List ℕ → Type 0
IsSendable m bytes = (m.payload ≡ some bytes) × (m.len ≡ length bytes) × (m.len ≤ max_payload_len)

pub decode-frame :
    (m : Message) (bytes rest : List ℕ)
    → IsSendable m bytes
    → decode (header_of m ++ (bytes ++ rest)) ≡ ok (m, bytes ++ rest)
unfolding decode header_of put_uint32
decode-frame m bytes rest (held, fits, small) =
    rw
      (
        uint32_of-put m.len (omega arith),
        le→ltb max_payload_len m.len small,
        fits,
        take-append bytes rest,
      )
      (ground arith)

write_fits :
    (w : Writer) (bytes : List ℕ)
    → length bytes ≤ w.room
    → write w bytes ≡ (record { written = w.written ++ bytes; room = w.room - length bytes }, true)
unfolding write
write_fits w bytes h = rw (take_all w.room bytes h, le→leb (length bytes) w.room h)

-- What a writer with room for a frame holds after Encode.
abbrev pub after_frame : Writer → Message → List ℕ → Writer
after_frame w m bytes = record {
  written = w.written ++ (header_of m ++ bytes);
  room = w.room - (header_size + length bytes);
}

copy_payload-sendable :
    (w : Writer) (bytes : List ℕ)
    → length bytes ≤ w.room
    → copy_payload w (length bytes) (some bytes)
      ≡ (record { written = w.written ++ bytes; room = w.room - length bytes }, ok tt)
unfolding copy_payload
copy_payload-sendable w bytes room =
    rw (take_all (length bytes) bytes (omega arith)) (ground (arith, write_fits w bytes))

pub length-header_of : (m : Message) → length (header_of m) ≡ header_size
unfolding header_of put_uint32
length-header_of m = refl

pub encode-sendable :
    (w : Writer) (m : Message) (bytes : List ℕ)
    → IsSendable m bytes
    → header_size + m.len ≤ w.room
    → encode w m ≡ (after_frame w m bytes, ok tt)
unfolding encode
encode-sendable w m bytes (held, fits, small) room = ground (
  arith,
  write_fits w (header_of m),
  length-header_of m,
  copy_payload-sendable
      (record { written = w.written ++ header_of m; room = w.room - length (header_of m) }) bytes,
  append_assoc w.written (header_of m) bytes,
  nil_of_length bytes,
  append-nil (header_of m),
)

-- A message whose payload is held whole, has the stated length and at most the maximal one is
-- written whole by Encode to a writer with room for it. Decode reads the same message from the
-- frame, whatever follows it, and reading its payload gives its bytes and leaves just what follows.
pub decode-encode :
    (w : Writer) (m : Message) (bytes rest : List ℕ)
    → IsSendable m bytes
    → header_size + m.len ≤ w.room
    → (encode w m ≡ (after_frame w m bytes, ok tt))
      × (decode (header_of m ++ (bytes ++ rest)) ≡ ok (m, bytes ++ rest))
      × (read_payload m (bytes ++ rest) ≡ (bytes, rest))
unfolding read_payload
decode-encode w m bytes rest s room = (
  encode-sendable w m bytes s room,
  decode-frame m bytes rest s,
  rw s.1 (ground (arith, take-append bytes rest, drop-append bytes rest)),
)

unfoldable pub payload_of : ℕ → Option (List ℕ) → List ℕ
payload_of len none = []
payload_of len (some bytes) = take len bytes

-- The whole frame of a message, with as much payload as its reader holds.
abbrev pub frame_of : Message → List ℕ
frame_of m = header_of m ++ payload_of m.len m.payload

abbrev pub Begins : List ℕ → List ℕ → Type 0
Begins xs ys = (rest : List ℕ) × (ys ≡ xs ++ rest)

write-Begins : (w : Writer) (bytes : List ℕ) → Begins (write w bytes).0.written (w.written ++ bytes)
unfolding write
write-Begins w bytes = (drop w.room bytes, rw (append_assoc w.written) (rw take-append-drop refl))

write_all :
    (w : Writer) (bytes : List ℕ)
    → (write w bytes).1 ≡ true
    → (write w bytes).0.written ≡ w.written ++ bytes
unfolding write
write_all w bytes h = rw (take_all w.room bytes (leb→le _ _ h)) refl

header-Begins :
    (w : Writer) (header body : List ℕ)
    → Begins (write w header).0.written (w.written ++ (header ++ body))
header-Begins w header body =
    let (rest, begins) = write-Begins w header in
    (
      rest ++ body,
      sym (append_assoc w.written header body)
          ∙ rw begins (append_assoc (write w header).0.written rest body),
    )

copy_payload-Begins :
    (w w' : Writer) (header : List ℕ) (len : ℕ) (payload : Option (List ℕ))
    → w'.written ≡ w.written ++ header
    → Begins
        (copy_payload w' len payload).0.written
        (w.written ++ (header ++ payload_of len payload))
unfolding copy_payload payload_of
copy_payload-Begins w w' header len none e =
    ([], rw (append-nil header, append-nil w'.written) (sym e))
copy_payload-Begins w w' header len (some bytes) e =
    let (rest, begins) = write-Begins w' (take len bytes) in
    (rest, sym (append_assoc w.written header (take len bytes)) ∙ rw (← e) begins)

-- Whatever Encode answers on any message and writer, what it has added is the beginning of the
-- message's frame.
pub encode-Begins :
    (w : Writer) (m : Message) → Begins (encode w m).0.written (w.written ++ frame_of m)
unfolding encode
encode-Begins w m = elim (Bool-cases (ltb max_payload_len m.len)) [
  | inl large ↦ (frame_of m, rw large)
  | inr small ↦ elim (Bool-cases (write w (header_of m)).1) [
    | inr cut ↦ rw (small, cut) (header-Begins w (header_of m) (payload_of m.len m.payload))
    | inl written ↦ elim (Bool-cases (ltb 0 m.len)) [
      | inr empty ↦
          rw (small, written, empty) (header-Begins w (header_of m) (payload_of m.len m.payload))
      | inl more ↦
          rw (small, written, more)
            (copy_payload-Begins w (write w (header_of m)).0 (header_of m) m.len m.payload
              (write_all w (header_of m) written))
    ]
  ]
]

-- If Decode accepts a message on a connection of bytes, the connection is the message's header and
-- what Decode leaves, the length is at most the maximal one, and the payload is the next bytes of
-- the connection.
pub decode_sound :
    (conn rest : List ℕ) (m : Message)
    → All IsByte conn
    → decode conn ≡ ok (m, rest)
    → (conn ≡ header_of m ++ rest)
      × (m.len ≤ max_payload_len)
      × (m.payload ≡ some (take m.len rest))
unfolding decode header_of
decode_sound (b0 ∷ b1 ∷ b2 ∷ b3 ∷ b4 ∷ b5 ∷ b6 ∷ b7 ∷ conn) rest m bytes h =
    ground (arith, put_uint32-of b4 b5 b6 b7)
decode_sound _ rest m bytes h = ground arith

-- Decode answers io.EOF on an empty connection and on no other, and the error of a cut header just
-- where one to seven bytes are left.
pub decode_ends :
    (conn : List ℕ)
    → ((decode conn ≡ err eof) ↔ (conn ≡ []))
      × ((decode conn ≡ err bad_header) ↔ ((0 < length conn) × (length conn < header_size)))
unfolding decode
decode_ends (b0 ∷ b1 ∷ b2 ∷ b3 ∷ b4 ∷ b5 ∷ b6 ∷ b7 ∷ conn) =
    ((λ h. ground arith, λ h. ground arith), (λ h. ground arith, λ h. ground arith))
decode_ends _ = ((λ h. ground arith, λ h. ground arith), (λ h. ground arith, λ h. ground arith))
