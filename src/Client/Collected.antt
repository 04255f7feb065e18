-- ===== src/Client/Collected.antt =====
-- The map of chunks that buildFileMetadata of internal/client/client.go makes.
use my_dfs.Common.{ℕ, ◌≡◌, refl, Option, none, some, List, [], ◌∷◌, arith, if◌then◌else◌, All}
use Prim.Native.String.{String}
use text.Mathlib.Text.{◌==◌ as str_eq}
use my_dfs.Files.Dict.{Dict, insert, lookup, lookup-insert}
use my_dfs.Files.Meta.{ChunkInfo, Chunk}
use my_dfs.Client.{chunk_infos, build_file_metadata}

-- The info of the last chunk with the id, if there is one.
unfoldable pub last_info : String → List Chunk → Option ChunkInfo → Option ChunkInfo
last_info id [] before = before
last_info id (c ∷ cs) before =
    last_info id cs (if str_eq c.metadata.id id then c.metadata.chunk_info else before)

abbrev pub HasInfo : Chunk → Type 0
HasInfo c = (info : ChunkInfo) × (c.metadata.chunk_info ≡ some info)

chunk_infos-last_info :
    (cs : List Chunk) (m : Dict ChunkInfo) (id : String)
    → All HasInfo cs
    → lookup id (chunk_infos cs m) ≡ last_info id cs (lookup id m)
unfolding chunk_infos last_info
chunk_infos-last_info [] m id h = refl
chunk_infos-last_info (c ∷ cs) m id ((info, known), h) = ground (
  arith,
  known,
  chunk_infos-last_info cs (insert c.metadata.id info m) id h,
  lookup-insert c.metadata.id id info m,
)

-- If every chunk has an info, the info that buildFileMetadata's map has under an id is that of the
-- last chunk with this id.
pub build_file_metadata-last_info :
    (cs : List Chunk) (size : ℕ) (name id : String)
    → All HasInfo cs
    → lookup id (build_file_metadata cs size name).chunk_info ≡ last_info id cs none
unfolding build_file_metadata lookup
build_file_metadata-last_info cs size name id h = chunk_infos-last_info cs [] id h
