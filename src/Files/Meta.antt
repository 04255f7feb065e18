-- ===== src/Files/Meta.antt =====
-- internal/files/file_types.go and file_meta.proto.
use my_dfs.Common.{ℕ, Option, List}
use Prim.Native.String.{String}
use my_dfs.Files.Dict.{Dict}

pub record ChunkInfo : Type 0 where
  pub size : ℕ
  pub offset : ℕ
  pub addr : String

pub record FileMetadata : Type 0 where
  pub size : ℕ
  pub name : String
  pub chunk_info : Dict ChunkInfo

pub record ChunkMetaData : Type 0 where
  pub id : String
  pub chunk_info : Option ChunkInfo

-- The data of a chunk is what its reader yields.
pub record Chunk : Type 0 where
  pub metadata : ChunkMetaData
  pub metadata_len : ℕ
  pub payload : List ℕ
