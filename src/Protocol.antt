-- ===== src/Protocol.antt =====
-- internal/protocol/protocol.go: the frames that clients and servers exchange. A connection is the
-- list of the bytes that are still to be read from it; a writer accepts `room` more bytes and then
-- fails, as a connection does that the peer closes.
pub mod Frames
pub mod Messages
use my_dfs.Common.{
  ℕ, zero, suc, ◌+◌, ◌-◌, ◌*◌, ◌/◌, ◌%◌, ◌^◌, ◌≤◌, ◌<◌, min, max, ◌≡◌, refl, sym, ap, ◌∙◌, subst,
  ◌≡⟨◌⟩◌, ◌∎, ◌≢◌, ◌↔◌, ◌⊎◌, inl, inr, Bool, true, false, ◌&&◌, ◌||◌, not, Option, none, some, List,
  [], ◌∷◌, ◌++◌, map, append-nil, append_assoc, arith, ltb, leb, ◌==◌, if◌then◌else◌, ltb→lt,
  lt→ltb, le→ltb, leb→le, le→leb, lt→leb, ==_iff, ==_refl, tests, Bool-cases, Option-cases, Result,
  ok, err, ◌>>=◌, ◌>>◌, or_fail, Result-cases, Codec, length, get_elem?, take, drop, replicate, All,
  length-append, take-append-drop, length-take, length-drop, take_all, drop_all, take-append,
  drop-append, All-append, nil_of_length,
}
use my_dfs.Binary.{put_uint32, uint32_of}

abbrev pub magic_byte1 : ℕ
magic_byte1 = 0xAC

abbrev pub magic_byte2 : ℕ
magic_byte2 = 0xFA

abbrev pub header_size : ℕ
header_size = 8

abbrev pub protocol_version : ℕ
protocol_version = 1

abbrev pub max_payload_len : ℕ
max_payload_len = 65 * 2 ^ 20

-- The constants of MessageType, in the source's order.
abbrev pub type_write : ℕ
type_write = 0

abbrev pub type_read : ℕ
type_read = 1

abbrev pub type_ping : ℕ
type_ping = 2

abbrev pub type_add_file : ℕ
type_add_file = 3

abbrev pub type_read_file : ℕ
type_read_file = 4

abbrev pub type_delete_file : ℕ
type_delete_file = 5

abbrev pub type_read_response : ℕ
type_read_response = 6

abbrev pub type_read_file_response : ℕ
type_read_file_response = 7

abbrev pub type_write_response : ℕ
type_write_response = 8

abbrev pub type_ping_response : ℕ
type_ping_response = 9

pub data ProtocolError : Type 0 where
  eof bad_header invalid_magic unsupported_version payload_too_large : ProtocolError
  header_not_written payload_nil payload_not_written : ProtocolError

-- The payload is what its reader still holds; `none` is a nil reader.
pub record Message : Type 0 where
  pub kind : ℕ
  pub len : ℕ
  pub payload : Option (List ℕ)

unfoldable pub new_message : ℕ → Option (List ℕ) → ℕ → Message
new_message kind payload len = record { kind = kind; len = len; payload = payload }

pub record Writer : Type 0 where
  pub written : List ℕ
  pub room : ℕ

-- io.Writer's Write: the bytes that fit are written, and the flag says whether all did.
unfoldable pub write : Writer → List ℕ → Writer × Bool
write w bytes = (
  record { written = w.written ++ take w.room bytes; room = w.room - length bytes },
  leb (length bytes) w.room,
)

unfoldable pub header_of : Message → List ℕ
header_of m = magic_byte1 ∷ magic_byte2 ∷ protocol_version ∷ m.kind ∷ put_uint32 m.len

-- io.CopyN of `len` bytes of the payload: fails where the payload or the writer ends early.
unfoldable pub copy_payload :
    Writer → ℕ → Option (List ℕ) → Writer × Result ProtocolError (Unit {0})
copy_payload w len none = (w, err payload_nil)
copy_payload w len (some bytes) =
    let (w', all_written) = write w (take len bytes) in
    (w', if all_written && leb len (length bytes) then ok tt else err payload_not_written)

-- Encode
unfoldable pub encode : Writer → Message → Writer × Result ProtocolError (Unit {0})
encode w m =
    if ltb max_payload_len m.len
    then (w, err payload_too_large)
    else let (w', header_written) = write w (header_of m) in
      if not header_written
      then (w', err header_not_written)
      else if ltb 0 m.len
      then copy_payload w' m.len m.payload
      else (w', ok tt)

-- The tests of Decode on a header that was read whole. The message's payload is an io.LimitReader
-- over the connection, so the decoded message comes with the connection that it reads from.
unfoldable pub check_header : ℕ → ℕ → ℕ → ℕ → ℕ → List ℕ → Result ProtocolError (Message × List ℕ)
check_header magic1 magic2 version kind len conn =
    if not (magic1 == magic_byte1) || not (magic2 == magic_byte2)
    then err invalid_magic
    else if not (version == protocol_version)
    then err unsupported_version
    else if ltb max_payload_len len
    then err payload_too_large
    else ok (new_message kind (some (take len conn)) len, conn)

-- Decode: io.ReadFull of the header answers io.EOF only where no byte is left.
unfoldable pub decode : List ℕ → Result ProtocolError (Message × List ℕ)
unfolding check_header new_message uint32_of
decode [] = err eof
decode (b0 ∷ b1 ∷ b2 ∷ b3 ∷ b4 ∷ b5 ∷ b6 ∷ b7 ∷ conn) =
    check_header b0 b1 b2 b3 (uint32_of b4 b5 b6 b7) conn
decode _ = err bad_header

-- io.ReadAll of a decoded message's payload: what it reads, and what it leaves on the connection.
unfoldable pub read_payload : Message → List ℕ → List ℕ × List ℕ
read_payload m conn = (take m.len conn, drop m.len conn)
