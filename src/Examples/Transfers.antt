-- ===== src/Examples/Transfers.antt =====
-- A file of three bytes that is sent to an empty chunk server and read back.
use my_dfs.Common.{
  ℕ, ◌+◌, ◌≡◌, refl, Option, some, Bool, true, false, inl, ◌%◌, ◌==◌, ◌++◌, take, drop, List, [],
  ◌∷◌, map, append-nil, arith, ok, All,
}
use Prim.Native.String.{String}
use my_dfs.Protocol.{max_payload_len, type_write}
use my_dfs.Protocol.Messages.{IsPayload, frame}
use my_dfs.Files.Dict.{insert, remove, lookup}
use my_dfs.Files.Meta.{ChunkInfo, ChunkMetaData}
use my_dfs.Metaserver.{set_addresses}
use my_dfs.Binary.{put_uint32}
use my_dfs.Storage.{pos, FullPath, has_slash, default_path_transform, split_key}
use my_dfs.Storage.Paths.{IsStorable}
use text.Mathlib.Text.{◌==◌ as str_eq}
use my_dfs.Client.{
  update_chunk_info, chunk_files, chunk_loop, chunk_at, chunk_count, section, chunk_infos,
  build_file_metadata,
}
use my_dfs.Client.Reading.{read_jobs}
use my_dfs.Client.Reading.RoundTrip.{dial_server}
use my_dfs.Client.Reading.Registered.{AreDistinct, IsTried}
use my_dfs.Client.Sending.{SentConn, send_jobs, send_chunk, send_message, serve_uploads}
use my_dfs.Client.Sending.Upload.{Agree, IsShort, AreApart, dial_room, dial_storing}
use my_dfs.Client.Sending.Transfer.{
  IsEntry, dirs_with, chunks_of, registered, conns_of, read_jobs-send_jobs,
}
use my_dfs.Examples.Chunks.{content, empty_tree}

-- The hash is one of two, by the parity of the sum of the bytes; the encoded metadata is the id.
abbrev pub is_even : ℕ → Bool
is_even n = n % 2 == 0

abbrev pub sum : List ℕ → ℕ
sum [] = 0
sum (b ∷ bs) = b + sum bs

abbrev pub id_of : Bool → List ℕ
id_of true = b'a' ∷ b'b' ∷ []
id_of false = b'c' ∷ b'd' ∷ []

abbrev pub text_of : Bool → String
text_of true = "ab"
text_of false = "cd"

abbrev pub parity_hash : List ℕ → List ℕ
parity_hash bytes = id_of (is_even (sum bytes))

abbrev pub parity_text : List ℕ → String
parity_text bytes = text_of (is_even (sum bytes))

abbrev pub decode_id : List ℕ → Option (List ℕ)
decode_id bytes = some bytes

abbrev pub bytes_of : String → List ℕ
bytes_of name = id_of (str_eq name "ab")

abbrev pub encode_meta : ChunkMetaData → List ℕ
encode_meta meta = bytes_of meta.id

abbrev pub whole_piece : List ℕ → List (List ℕ)
whole_piece bytes = bytes ∷ []

abbrev pub room : ℕ
room = 8 + max_payload_len

pub bytes_of-text_of : (b : Bool) → bytes_of (text_of b) ≡ id_of b
bytes_of-text_of true = refl
bytes_of-text_of false = refl

pub id_of-IsPayload : (b : Bool) → IsPayload (id_of b)
id_of-IsPayload true = (omega arith, omega arith)
id_of-IsPayload false = (omega arith, omega arith)

abbrev pub path_of : List ℕ → FullPath
path_of key = record { file_name = key; base_path = take 1 key ++ (b'/' ∷ drop 1 key) }

pub id_of-IsStorable : (b : Bool) → IsStorable (pos 2) (id_of b) (path_of (id_of b))
unfolding default_path_transform split_key has_slash
id_of-IsStorable true = (refl, refl)
id_of-IsStorable false = (refl, refl)

abbrev pub agree : Agree parity_hash (pos 2) decode_id parity_text encode_meta bytes_of
agree = record {
  hashed = λ bytes. bytes_of-text_of (is_even (sum bytes));
  decoded = λ meta. refl;
  digest = λ bytes. id_of-IsPayload (is_even (sum bytes));
  path_of = path_of;
  path_eq = λ bytes. id_of-IsStorable (is_even (sum bytes));
}

abbrev job : String × ChunkInfo
job = ("ab", record { size = 3; offset = 0; addr = ":5001" })

pub one-AreDistinct : AreDistinct (chunks_of parity_text encode_meta content)
unfolding chunk_files chunk_loop chunk_at chunk_count section
one-AreDistinct = (tt, tt)

pub one-AreApart :
    AreApart parity_hash
      (pos 2)
      decode_id
      parity_text
      encode_meta
      bytes_of
      room
      agree
      (chunks_of parity_text encode_meta content)
unfolding chunk_files chunk_loop chunk_at chunk_count section
one-AreApart = ((inl refl, tt), tt)

pub one-IsShort : All (IsShort encode_meta) (chunks_of parity_text encode_meta content)
unfolding chunk_files chunk_loop chunk_at chunk_count section
one-IsShort = (omega arith, tt)

job-IsEntry : All (IsEntry (registered parity_text encode_meta content "f").chunk_info) (job ∷ [])
unfolding chunk_files chunk_loop chunk_at chunk_count section build_file_metadata chunk_infos
    set_addresses insert remove lookup
job-IsEntry = (refl, tt)

job-IsTried : All (IsTried (job ∷ [])) (registered parity_text encode_meta content "f").chunk_info
unfolding chunk_files chunk_loop chunk_at chunk_count section build_file_metadata chunk_infos
    set_addresses insert remove
job-IsTried = (refl, tt)

-- The connection of the only chunk.
abbrev only : SentConn
only = record {
  address = ":5001";
  bytes = frame type_write (put_uint32 2 ++ (b'a' ∷ b'b' ∷ content));
}

opened_only : conns_of parity_text encode_meta (dial_room room) content "f" ≡ only ∷ []
unfolding chunk_files chunk_loop chunk_at chunk_count section build_file_metadata chunk_infos
    set_addresses insert remove lookup update_chunk_info send_jobs send_chunk send_message
    my_dfs.Client.chunk_message my_dfs.Protocol.header_of my_dfs.Protocol.encode
    my_dfs.Protocol.new_message my_dfs.Protocol.write put_uint32 my_dfs.Protocol.copy_payload
opened_only = refl

read_jobs-send_jobs_example :
    let cs = chunks_of parity_text encode_meta content in
    let meta = registered parity_text encode_meta content "f" in
    let dir' =
      serve_uploads
        (dial_storing parity_hash (pos 2) decode_id parity_text encode_meta bytes_of room agree)
        (only ∷ only ∷ [])
        empty_tree in
    ((send_jobs (dial_room room) (update_chunk_info meta cs)).1 ≡ map (λ c. ok tt) cs)
    × (read_jobs bytes_of whole_piece
          (dial_server parity_hash (pos 2) decode_id bytes_of whole_piece (dirs_with dir') room)
          (job ∷ [])
          []
        ≡ (content, ok tt ∷ []))
read_jobs-send_jobs_example =
    read_jobs-send_jobs parity_hash (pos 2) decode_id parity_text encode_meta bytes_of room agree
      whole_piece (λ bytes. append-nil bytes) (omega arith) content "f" empty_tree
      (only ∷ only ∷ []) (job ∷ []) one-IsShort one-AreDistinct one-AreApart job-IsEntry job-IsTried
      (rw opened_only (inl refl, (inl refl, tt))) (rw opened_only (inl refl, tt))
