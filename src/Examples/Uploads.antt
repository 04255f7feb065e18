-- ===== src/Examples/Uploads.antt =====
-- A file of three bytes that the client of internal/client uploads.
use my_dfs.Common.{ℕ, ◌≡◌, refl, some, List, [], ◌∷◌, arith}
use Prim.Native.String.{String}
use my_dfs.Protocol.{new_message, type_write}
use my_dfs.Protocol.Frames.{IsSendable}
use my_dfs.Files.Dict.{lookup}
use my_dfs.Files.Meta.{ChunkInfo, ChunkMetaData, Chunk}
use my_dfs.Client.{chunk_files, build_file_metadata, chunk_message}
use my_dfs.Client.Partition.{Cuts, IsChunk, chunk_files-Cuts, chunk_message-IsSendable}
use my_dfs.Client.Collected.{last_info, build_file_metadata-last_info}

abbrev hash_content : List ℕ → String
hash_content bytes = "h"

abbrev encode_meta : ChunkMetaData → List ℕ
encode_meta meta = b'm' ∷ []

abbrev letters : List ℕ
letters = b'a' ∷ b'b' ∷ b'c' ∷ []

chunk_files-Cuts_example :
    Cuts hash_content encode_meta letters 0 (chunk_files hash_content encode_meta letters 3)
chunk_files-Cuts_example = chunk_files-Cuts hash_content encode_meta letters

abbrev info_at : ℕ → ChunkInfo
info_at off = record { size = 3; offset = off; addr = "" }

abbrev chunk_of : ℕ → Chunk
chunk_of off = record {
  metadata = record { id = "h"; chunk_info = some (info_at off) };
  metadata_len = 1;
  payload = 0 ∷ 0 ∷ 0 ∷ 1 ∷ b'm' ∷ letters;
}

letters-IsChunk : IsChunk hash_content encode_meta (chunk_of 0) 0 letters
unfolding my_dfs.Binary.put_uint32
letters-IsChunk = record {
  not_empty = omega arith;
  fits = omega arith;
  metadata_eq = refl;
  metadata_len_eq = refl;
  payload_eq = refl;
}

chunk_message-IsSendable_example :
    (chunk_message (chunk_of 0) ≡ some (new_message type_write (some (chunk_of 0).payload) 8))
    × IsSendable (new_message type_write (some (chunk_of 0).payload) 8) (chunk_of 0).payload
chunk_message-IsSendable_example =
    chunk_message-IsSendable hash_content encode_meta (chunk_of 0) 0 letters letters-IsChunk
      (omega arith)

-- The file is twice the same three bytes: one info is left.
build_file_metadata-last_info_example :
    lookup "h" (build_file_metadata (chunk_of 0 ∷ chunk_of 3 ∷ []) 6 "f").chunk_info
    ≡ some (info_at 3)
unfolding last_info
build_file_metadata-last_info_example =
    build_file_metadata-last_info (chunk_of 0 ∷ chunk_of 3 ∷ []) 6 "f" "h"
      ((info_at 0, refl), ((info_at 3, refl), tt))
