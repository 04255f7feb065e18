-- ===== src/Protocol/Messages.antt =====
-- Whole messages of internal/protocol/protocol.go: the kind, the bytes, and the frame of both.
use my_dfs.Common.{
  ℕ, ◌+◌, ◌-◌, ◌%◌, ◌^◌, ◌≤◌, ◌<◌, ◌≡◌, refl, ap, ◌∙◌, some, List, ◌++◌, append_assoc, arith, ok,
  length, length-append, take-append, drop-append,
}
use my_dfs.Protocol.{
  Message, Writer, header_of, max_payload_len, decode, new_message, read_payload, encode,
}
use my_dfs.Protocol.Frames.{decode-frame, encode-sendable, length-header_of}

abbrev pub message : ℕ → List ℕ → Message
message kind bytes = record { kind = kind; len = length bytes; payload = some bytes }

abbrev pub frame : ℕ → List ℕ → List ℕ
frame kind bytes = header_of (message kind bytes) ++ bytes

abbrev pub IsPayload : List ℕ → Type 0
IsPayload bytes = (0 < length bytes) × (length bytes ≤ max_payload_len)

abbrev pub wrote : Writer → List ℕ → Writer
wrote w bytes = record { written = w.written ++ bytes; room = w.room - length bytes }

pub length-frame : (kind : ℕ) (bytes : List ℕ) → length (frame kind bytes) ≡ 8 + length bytes
length-frame kind bytes = omega (
  arith,
  length-append (header_of (message kind bytes)) bytes,
  length-header_of (message kind bytes),
)

pub decode-request :
    (kind : ℕ) (bytes rest : List ℕ)
    → length bytes ≤ max_payload_len
    → decode (frame kind bytes ++ rest) ≡ ok (message kind bytes, bytes ++ rest)
decode-request kind bytes rest small =
    ap decode (append_assoc (header_of (message kind bytes)) bytes rest)
    ∙ decode-frame (message kind bytes) bytes rest (refl, refl, small)

pub read_payload-message :
    (kind : ℕ) (bytes rest : List ℕ)
    → read_payload (message kind bytes) (bytes ++ rest) ≡ (bytes, rest)
unfolding read_payload
read_payload-message kind bytes rest =
    ground (arith, take-append bytes rest, drop-append bytes rest)

-- A message with all of its bytes is written whole where there is room for its frame.
pub encode-message :
    (kind : ℕ) (bytes : List ℕ) (w : Writer)
    → length bytes ≤ max_payload_len
    → length (frame kind bytes) ≤ w.room
    → encode w (new_message kind (some bytes) (length bytes % 2 ^ 32))
      ≡ (wrote w (frame kind bytes), ok tt)
unfolding new_message
encode-message kind bytes w small room =
    let sent =
      encode-sendable w (message kind bytes) bytes (refl, refl, small)
        (omega (arith, length-frame kind bytes)) in
    ground (arith, sent, length-frame kind bytes)
