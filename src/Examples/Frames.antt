-- ===== src/Examples/Frames.antt =====
-- The frames of internal/protocol/protocol.go on a ping of three bytes.
use my_dfs.Common.{
  ℕ, ◌≤◌, ◌<◌, ◌≡◌, refl, ◌↔◌, some, List, [], ◌∷◌, ◌++◌, arith, ok, err, length, take,
}
use my_dfs.Binary.{uint32_of}
use my_dfs.Protocol.{
  Message, Writer, header_of, encode, decode, new_message, read_payload, type_ping, eof, bad_header,
  header_size, max_payload_len,
}
use my_dfs.Protocol.Frames.{
  decode-encode, encode-Begins, decode_sound, decode_ends, after_frame, Begins, frame_of,
}

abbrev greeting : List ℕ
greeting = b'h' ∷ b'i' ∷ b'!' ∷ []

abbrev ping : Message
ping = record { kind = type_ping; len = 3; payload = some greeting }

abbrev ping_bytes : List ℕ
ping_bytes = 0xAC ∷ 0xFA ∷ 1 ∷ 2 ∷ 0 ∷ 0 ∷ 0 ∷ 3 ∷ []

abbrev open_writer : Writer
open_writer = record { written = []; room = 100 }

abbrev closing_writer : Writer
closing_writer = record { written = []; room = 9 }

decode-encode_example :
    (encode open_writer ping ≡ (after_frame open_writer ping greeting, ok tt))
    × (decode (header_of ping ++ (greeting ++ (7 ∷ []))) ≡ ok (ping, greeting ++ (7 ∷ [])))
    × (read_payload ping (greeting ++ (7 ∷ [])) ≡ (greeting, 7 ∷ []))
decode-encode_example =
    decode-encode open_writer ping greeting (7 ∷ []) (refl, refl, omega arith) (omega arith)

encode-Begins_example : Begins (encode closing_writer ping).0.written ([] ++ frame_of ping)
encode-Begins_example = encode-Begins closing_writer ping

decode_sound_example :
    (ping_bytes ++ greeting ≡ header_of ping ++ greeting)
    × (ping.len ≤ max_payload_len)
    × (ping.payload ≡ some (take 3 greeting))
unfolding decode new_message uint32_of
decode_sound_example =
    decode_sound (ping_bytes ++ greeting) greeting ping
      (
        omega arith,
        (
          omega arith,
          (
            omega arith,
            (
              omega arith,
              (
                omega arith,
                (
                  omega arith,
                  (omega arith, (omega arith, (omega arith, (omega arith, (omega arith, tt))))),
                ),
              ),
            ),
          ),
        ),
      )
      refl

abbrev cut_short : List ℕ
cut_short = 0xAC ∷ []

decode_ends_example :
    ((decode cut_short ≡ err eof) ↔ (cut_short ≡ []))
    × ((decode cut_short ≡ err bad_header)
        ↔ ((0 < length cut_short) × (length cut_short < header_size)))
decode_ends_example = decode_ends cut_short
