-- ===== src/Client/Reading/Registered.antt =====
-- The attempts that processReadFile of internal/client/read_file.go makes at the chunks of a file whose
-- metadata buildFileMetadata made and a metadata server registered.
use my_dfs.Common.{
  ◌+◌, ◌≡◌, refl, ap, ◌∙◌, inl, inr, true, false, Option, none, some, [], ◌∷◌, map, arith,
  Bool-cases, ok, length, All, All-imp, All-both,
}
use Prim.Native.String.{String}
use text.Mathlib.Text.{◌==◌ as str_eq}
use text.Mathlib.TextEquality.{eq_iff}
use my_dfs.Files.Dict.{Dict, lookup}
use my_dfs.Files.Meta.{ChunkInfo, ChunkMetaData, Chunk}
use my_dfs.Metaserver.{addressed, set_addresses}
use my_dfs.Storage.{ℤ}
use my_dfs.Storage.Tree.{Directory}
use my_dfs.Client.{ℕ, List, chunk_files, build_file_metadata}
use my_dfs.Client.Collected.{HasInfo, last_info, build_file_metadata-last_info}
use my_dfs.Client.Partition.{Cuts, chunk_files-Cuts}
use my_dfs.Client.Reading.{read_jobs}
use my_dfs.Client.Reading.Pieces.{joined}
use my_dfs.Client.Reading.RoundTrip.{asks, IsAsked, dial_server, Holds, read_jobs-chunk_files}

-- No other chunk of the list has the id.
abbrev pub IsFresh : String → List Chunk → Type 0
IsFresh id cs = All (λ (c : Chunk). str_eq c.metadata.id id ≡ false) cs

abbrev pub AreDistinct : List Chunk → Type 0
AreDistinct [] = Unit {0}
AreDistinct (c ∷ cs) = IsFresh c.metadata.id cs × AreDistinct cs

-- The entry of a map of chunks is among the attempts.
abbrev pub IsTried : List (String × ChunkInfo) → String × ChunkInfo → Type 0
IsTried jobs (id, info) = asks info.offset info.size jobs ≡ true

last_info-fresh :
    (cs : List Chunk) (id : String) (before : Option ChunkInfo)
    → IsFresh id cs
    → last_info id cs before ≡ before
unfolding last_info
last_info-fresh [] id before h = refl
last_info-fresh (c ∷ cs) id before (other, h) =
    ground (arith, other, last_info-fresh cs id before h)

-- The chunk's own info is the last one under its id.
abbrev pub IsLast : List Chunk → Chunk → Type 0
IsLast cs c =
    (before : Option ChunkInfo) → last_info c.metadata.id cs before ≡ c.metadata.chunk_info

pub AreDistinct-IsLast : (cs : List Chunk) → AreDistinct cs → All (IsLast cs) cs
unfolding last_info
AreDistinct-IsLast [] h = tt
AreDistinct-IsLast (c ∷ cs) (fresh, h) = (
  λ before. ground (
    arith,
    eq_iff c.metadata.id c.metadata.id,
    last_info-fresh cs c.metadata.id c.metadata.chunk_info fresh,
  ),
  All-imp (IsLast cs) (IsLast (c ∷ cs)) cs (λ d last before. last _) (AreDistinct-IsLast cs h),
)

lookup-IsTried :
    (jobs : List (String × ChunkInfo)) (m : Dict ChunkInfo) (id : String) (info : ChunkInfo)
    → All (IsTried jobs) (set_addresses m)
    → lookup id m ≡ some info
    → asks info.offset info.size jobs ≡ true
unfolding lookup set_addresses
lookup-IsTried jobs [] id info h found = absurd (ground (arith, found))
lookup-IsTried jobs ((id', info') ∷ m) id info (tried, h) found =
    elim (Bool-cases (str_eq id' id)) [
      | inl same ↦ ground (arith, tried, found, same)
      | inr other ↦ lookup-IsTried jobs m id info h (ground (arith, found, other))
    ]

module _ (hash_content : List ℕ → String) (encode_meta : ChunkMetaData → List ℕ) where
  pub Cuts-HasInfo :
      (bytes : List ℕ) (off : ℕ) (cs : List Chunk)
      → Cuts hash_content encode_meta bytes off cs
      → All HasInfo cs
  Cuts-HasInfo bytes off [] cuts = tt
  Cuts-HasInfo bytes off (c ∷ cs) (content, tail, _, chunk, _, cuts) = (
    (_, ap (λ (meta : ChunkMetaData). meta.chunk_info) chunk.metadata_eq),
    Cuts-HasInfo tail (off + length content) cs cuts,
  )

  tried-IsAsked :
      (jobs : List (String × ChunkInfo)) (cs : List Chunk) (size : ℕ) (name : String)
      → All HasInfo cs
      → AreDistinct cs
      → All (IsTried jobs) (addressed (build_file_metadata cs size name)).chunk_info
      → All (IsAsked jobs) cs
  tried-IsAsked jobs cs size name infos distinct tried =
      All-imp (λ c. HasInfo c × IsLast cs c) (IsAsked jobs) cs
        (λ c ((info, known), last). (
          info,
          known,
          lookup-IsTried jobs (build_file_metadata cs size name).chunk_info c.metadata.id info tried
              (build_file_metadata-last_info cs size name c.metadata.id infos ∙ last none ∙ known),
        ))
        (All-both HasInfo (IsLast cs) cs infos (AreDistinct-IsLast cs distinct))

  module _ (hash_hex : List ℕ → List ℕ) (depth : ℤ) (decode_id : List ℕ → Option (List ℕ))
      (bytes_of : String → List ℕ) (split : List ℕ → List (List ℕ))
      (dirs : String → Option Directory) (room : ℕ) where
    -- Take a file whose chunks have different ids, the metadata that buildFileMetadata makes of its
    -- chunks, with the addresses that a metadata server sets, and attempts at reading chunks, in
    -- any order and with repetitions, among which each entry of the metadata is. If each attempt's
    -- chunk server can be dialed, has stored under the id the bytes of the file that the info
    -- places, and has room for the request and the answer, and io.CopyN copies all bytes, then the
    -- attempts, run one after the other on an empty file, all succeed and leave just the file.
    pub read_jobs-build_file_metadata :
        ((bytes : List ℕ) → joined (split bytes) ≡ bytes)
        → (file : List ℕ) (name : String) (jobs : List (String × ChunkInfo))
        → AreDistinct (chunk_files hash_content encode_meta file (length file))
        → All
            (IsTried jobs)
            (addressed (
              build_file_metadata
                (chunk_files hash_content encode_meta file (length file))
                (length file)
                name)).chunk_info
        → All (Holds hash_hex depth decode_id bytes_of split dirs room file) jobs
        → read_jobs bytes_of split
            (dial_server hash_hex depth decode_id bytes_of split dirs room)
            jobs
            []
          ≡ (file, map (λ job. ok tt) jobs)
    read_jobs-build_file_metadata whole file name jobs distinct tried held =
        let cs = chunk_files hash_content encode_meta file (length file) in
        read_jobs-chunk_files hash_hex depth decode_id bytes_of split dirs room hash_content
          encode_meta whole file jobs held
          (tried-IsAsked jobs cs (length file) name
            (Cuts-HasInfo file 0 cs (chunk_files-Cuts hash_content encode_meta file)) distinct
            tried)
