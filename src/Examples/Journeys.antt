-- ===== src/Examples/Journeys.antt =====
-- A file of three bytes that is sent with its metadata and read back by its name.
use my_dfs.Common.{
  ℕ, zero, suc, ◌≡◌, refl, true, false, IsAmong-self, Result, ◌&&◌, Option, none, some, List, [],
  ◌∷◌, append-nil, arith, ◌==◌, if◌then◌else◌, ok, Codec,
}
use Prim.Native.String.{String}
use text.Mathlib.Text.{◌==◌ as str_eq}
use text.Mathlib.TextEquality.{eq_iff}
use my_dfs.Files.Dict.{Dict, insert, remove}
use my_dfs.Files.Meta.{ChunkInfo, FileMetadata}
use my_dfs.Metaserver.{set_addresses}
use my_dfs.Storage.{pos}
use my_dfs.Client.{
  chunk_files, chunk_loop, chunk_at, chunk_count, section, chunk_infos, build_file_metadata,
}
use my_dfs.Client.Reading.RoundTrip.{dial_server}
use my_dfs.Client.Requests.Registered.{file_server}
use my_dfs.Client.Sending.{SentConn, SendError, serve_uploads}
use my_dfs.Client.Sending.Upload.{dial_room, dial_storing}
use my_dfs.Client.Sending.Transfer.{dirs_with, chunks_of, registered}
use my_dfs.Client.Whole.{TransferError, send_file, read_file}
use my_dfs.Client.Whole.EndToEnd.{read_file-send_file}
use my_dfs.Examples.Chunks.{content, empty_tree}
use my_dfs.Examples.Servers.{walled, logged_a}
use my_dfs.Examples.Samples.{running, marshal_entry}
use my_dfs.Files.Store.{FileStore}
use my_dfs.Files.Recovery.{append_flushed}
use my_dfs.Wal.State.{Wal}
use my_dfs.Wal.Append.{append_entry, append_numbered, take_sequence_no, add_if}
use my_dfs.Transport.Pool.{Pool}
use my_dfs.Client.Requests.{Peer}
use my_dfs.Examples.Registrations.{dialed, first_conn, second_conn}
use my_dfs.Examples.Transfers.{
  parity_hash, parity_text, decode_id, encode_meta, bytes_of, whole_piece, room, agree,
  one-AreDistinct, one-AreApart, one-IsShort,
}

-- The metadata of a file named f with one chunk of three bytes, by the address of the chunk.
abbrev file_f : String → FileMetadata
file_f addr = record {
  size = 3;
  name = "f";
  chunk_info = ("ab", record { size = 3; offset = 0; addr = addr }) ∷ [];
}

unfoldable marshal_infos : ℕ → String → Dict ChunkInfo → Option (List ℕ)
marshal_infos size name [] = none
marshal_infos size name ((id, info) ∷ []) =
    if str_eq name "f" && (str_eq id "ab" && (size == 3 && (info.size == 3 && info.offset == 0)))
    then (if str_eq info.addr ""
        then some (0 ∷ [])
        else if str_eq info.addr ":5001"
        then some (1 ∷ [])
        else none)
    else none
marshal_infos size name (a ∷ b ∷ rest) = none

unfoldable unmarshal_f : List ℕ → Option FileMetadata
unmarshal_f (zero ∷ []) = some (file_f "")
unmarshal_f (suc zero ∷ []) = some (file_f ":5001")
unmarshal_f _ = none

unmarshal-marshal_infos :
    (size : ℕ) (name : String) (m : Dict ChunkInfo) (bytes : List ℕ)
    → marshal_infos size name m ≡ some bytes
    → unmarshal_f bytes ≡ some (record { size = size; name = name; chunk_info = m })
unfolding marshal_infos unmarshal_f
unmarshal-marshal_infos size name [] bytes h = absurd (ground (arith, h))
unmarshal-marshal_infos size name ((id, info) ∷ []) bytes h =
    ground
      (arith, h, eq_iff name "f", eq_iff id "ab", eq_iff info.addr "", eq_iff info.addr ":5001")
unmarshal-marshal_infos size name (a ∷ b ∷ rest) bytes h = absurd (ground (arith, h))

abbrev f_codec : Codec FileMetadata
f_codec = record {
  marshal = λ meta. marshal_infos meta.size meta.name meta.chunk_info;
  unmarshal = unmarshal_f;
  unmarshal-marshal =
      λ meta bytes h. unmarshal-marshal_infos meta.size meta.name meta.chunk_info bytes h;
}

abbrev f_name : List ℕ → String
f_name bytes = "f"

marshalled_f :
    f_codec.marshal (build_file_metadata (chunks_of parity_text encode_meta content) 3 "f")
    ≡ some (0 ∷ [])
unfolding chunk_files chunk_loop chunk_at chunk_count section build_file_metadata chunk_infos insert
    remove marshal_infos
marshalled_f = refl

marshalled_registered :
    f_codec.marshal (registered parity_text encode_meta content "f") ≡ some (1 ∷ [])
unfolding chunk_files chunk_loop chunk_at chunk_count section build_file_metadata chunk_infos
    set_addresses insert remove marshal_infos
marshalled_registered = refl

logged : walled.append running (1 ∷ []) false ≡ ((walled.append running (1 ∷ []) false).0, true)
unfolding append_flushed append_entry append_numbered take_sequence_no add_if marshal_entry
logged = refl

abbrev server : Peer (FileStore Wal)
server = file_server walled f_codec f_name [] 100

-- SendFile's result, with the connections that the chunk server reads in this order.
abbrev sent_f :
    (Pool × FileStore Wal) × (List SentConn × Option (Result (TransferError SendError) (Unit {0})))
sent_f =
    send_file server f_codec parity_text encode_meta (dial_room room) true true content "f"
      (dialed 0, logged_a)

read_file-send_file_example :
    let dir' =
      serve_uploads
        (dial_storing parity_hash (pos 2) decode_id parity_text encode_meta bytes_of room agree)
        sent_f.1.0
        empty_tree in
    (sent_f.1.1 ≡ some (ok tt))
    × (read_file server f_codec bytes_of whole_piece
          (dial_server parity_hash (pos 2) decode_id bytes_of whole_piece (dirs_with dir') room)
          true
          true
          (b'f' ∷ [])
          sent_f.0
        ≡ ((dialed 2, sent_f.0.1), (some content, some (ok tt))))
read_file-send_file_example =
    read_file-send_file parity_hash (pos 2) decode_id parity_text encode_meta bytes_of room agree
      whole_piece walled f_codec f_name [] 100 true true true true (dialed 0) (dialed 1) (dialed 2)
      0 1 logged_a (walled.append running (1 ∷ []) false).0 content "f" (b'f' ∷ []) (0 ∷ [])
      (1 ∷ []) empty_tree sent_f.1.0 (λ bytes. append-nil bytes) (omega arith) first_conn
      second_conn refl marshalled_f marshalled_registered ((omega arith, omega arith), omega arith)
      ((omega arith, omega arith), omega arith) ((omega arith, omega arith), omega arith) logged
      (omega arith) one-IsShort one-AreDistinct one-AreApart (IsAmong-self sent_f.1.0)
      (IsAmong-self sent_f.1.0)
