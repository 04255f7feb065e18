-- ===== src/Client.antt =====
-- The client's side of a file in internal/client: write_file.go cuts it into chunks, and client.go
-- collects their metadata. The hash of a section is the parameter `hash_content`, the gob encoding of
-- a chunk's metadata the parameter `encode_meta`; what Encode reports is only printed.
pub mod Partition
pub mod Collected
pub mod Output
pub mod Reading
pub mod Requests
pub mod Sending
pub mod Config
pub mod Whole
use my_dfs.Common.{
  ℕ, zero, suc, ◌+◌, ◌-◌, ◌*◌, ◌/◌, ◌%◌, ◌^◌, ◌≤◌, ◌<◌, min, max, ◌≡◌, refl, sym, ap, ◌∙◌, subst,
  ◌≡⟨◌⟩◌, ◌∎, ◌≢◌, ◌↔◌, ◌⊎◌, inl, inr, Bool, true, false, ◌&&◌, ◌||◌, not, Option, none, some, List,
  [], ◌∷◌, ◌++◌, map, append-nil, append_assoc, arith, ltb, leb, ◌==◌, if◌then◌else◌, ltb→lt,
  lt→ltb, le→ltb, leb→le, le→leb, lt→leb, ==_iff, ==_refl, tests, Bool-cases, Option-cases, Result,
  ok, err, ◌>>=◌, ◌>>◌, or_fail, Result-cases, Codec, length, get_elem?, take, drop, replicate, All,
  length-append, take-append-drop, length-take, length-drop, take_all, drop_all, take-append,
  drop-append, All-append, nil_of_length,
}
use Prim.Native.String.{String}
use my_dfs.Binary.{put_uint32}
use my_dfs.Protocol.{Message, new_message, type_write}
use my_dfs.Files.Dict.{Dict, insert, lookup}
use my_dfs.Files.Meta.{FileMetadata, ChunkInfo, ChunkMetaData, Chunk}

-- ChunkSize
abbrev pub chunk_size : ℕ
chunk_size = 64 * 2 ^ 20

-- MaxMetadataSizeInBytes
abbrev pub max_metadata_size_in_bytes : ℕ
max_metadata_size_in_bytes = 4

-- io.NewSectionReader: the bytes of the file that the section yields.
unfoldable pub section : List ℕ → ℕ → ℕ → List ℕ
section file off n = take n (drop off file)

unfoldable pub chunk_count : ℕ → ℕ
chunk_count size =
    let count = size / chunk_size in if size % chunk_size == 0 then count else count + 1

module _ (hash_content : List ℕ → String) (encode_meta : ChunkMetaData → List ℕ) where
  -- The body of the loop of chunkFiles; the addresses are set later.
  unfoldable pub chunk_at : List ℕ → ℕ → ℕ → Chunk
  chunk_at file off n =
      let content = section file off n in
      let info : ChunkInfo = record { size = n % 2 ^ 32; offset = off; addr = "" } in
      let meta : ChunkMetaData = record { id = hash_content content; chunk_info = some info } in
      let encoded = encode_meta meta in
      record {
        metadata = meta;
        metadata_len = length encoded;
        payload = put_uint32 (length encoded % 2 ^ 32) ++ (encoded ++ content);
      }

  -- The loop of chunkFiles: the rounds that are left, `i` and `remain`.
  unfoldable pub chunk_loop : ℕ → ℕ → ℕ → List ℕ → List Chunk
  chunk_loop zero i remain file = []
  chunk_loop (suc rounds) i remain file =
      let n = min remain chunk_size in
      chunk_at file (i * chunk_size) n ∷ chunk_loop rounds (i + 1) (remain - n) file

  -- chunkFiles, where every read of the file succeeds.
  unfoldable pub chunk_files : List ℕ → ℕ → List Chunk
  chunk_files file size = chunk_loop (chunk_count size) 0 size file

-- The map that buildFileMetadata makes: a later chunk takes the place of one with the same id. The
-- chunks of chunkFiles all have an info.
unfoldable pub chunk_infos : List Chunk → Dict ChunkInfo → Dict ChunkInfo
chunk_infos [] m = m
chunk_infos (c ∷ cs) m =
    chunk_infos cs
      (elim c.metadata.chunk_info [ none ↦ m | some info ↦ insert c.metadata.id info m ])

-- buildFileMetadata
unfoldable pub build_file_metadata : List Chunk → ℕ → String → FileMetadata
build_file_metadata chunks size name = record {
  size = size;
  name = name;
  chunk_info = chunk_infos chunks [];
}

-- updateChunkInfo
unfoldable pub update_chunk_info : FileMetadata → List Chunk → List Chunk
update_chunk_info meta [] = []
update_chunk_info meta (c ∷ cs) =
    record c { metadata = record c.metadata { chunk_info = lookup c.metadata.id meta.chunk_info } }
    ∷ update_chunk_info meta cs

-- The message of sendChunk, with its length in uint32; `none` where the chunk has no info, on which
-- the code dereferences a nil pointer.
unfoldable pub chunk_message : Chunk → Option Message
chunk_message c = elim c.metadata.chunk_info [
  | none ↦ none
  | some info ↦ some (
      new_message type_write (some c.payload)
        ((max_metadata_size_in_bytes + info.size + c.metadata_len % 2 ^ 32) % 2 ^ 32))
]
