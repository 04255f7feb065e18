-- ===== src/Client/Reading/RoundTrip.antt =====
-- The chunks that internal/client/write_file.go cuts from a file, read back by
-- internal/client/read_file.go from chunk servers of internal/chunkserver.
use my_dfs.Common.{
  ◌+◌, ◌≤◌, ◌<◌, ◌≡◌, refl, sym, ap, ◌∙◌, inl, inr, Bool, true, false, ◌&&◌, ◌||◌, Option, none,
  some, [], ◌∷◌, ◌++◌, map, append-nil, arith, ltb, ◌==◌, tests, Bool-cases, ok, length, All,
  length-append, All-imp,
}
use Prim.Native.String.{String}
use my_dfs.Protocol.{Writer, type_read, type_read_response, max_payload_len}
use my_dfs.Protocol.Messages.{frame, IsPayload}
use my_dfs.Metaserver.Serving.{session}
use my_dfs.Storage.{ℤ, FullPath, default_path_transform, get_file_path, in_write_dir}
use my_dfs.Storage.Tree.{Directory, find_path}
use my_dfs.Chunkserver.{handle}
use my_dfs.Chunkserver.Serving.{found, served, more, chunk_handle-ServesAll}
use my_dfs.Files.Meta.{ChunkInfo, ChunkMetaData, Chunk}
use my_dfs.Client.{ℕ, List, chunk_files}
use my_dfs.Client.Partition.{Cuts, chunk_files-Cuts}
use my_dfs.Client.Reading.{Server, read_jobs}
use my_dfs.Client.Reading.Pieces.{joined, place, FitsIn, reads}
use my_dfs.Client.Reading.Download.{IsServed, read_jobs_covered}

-- One of the attempts is at these bytes of the file.
abbrev pub asks : ℕ → ℕ → List (String × ChunkInfo) → Bool
asks off size [] = false
asks off size ((id, info) ∷ jobs) = (info.offset == off && info.size == size) || asks off size jobs

-- One of the attempts is at the bytes of the chunk.
abbrev pub IsAsked : List (String × ChunkInfo) → Chunk → Type 0
IsAsked jobs c =
    (info : ChunkInfo) × (c.metadata.chunk_info ≡ some info)
    × (asks info.offset info.size jobs ≡ true)

asks-reads :
    (jobs : List (String × ChunkInfo)) (off size i : ℕ)
    → asks off size jobs ≡ true
    → off ≤ i
    → i < off + size
    → reads jobs i ≡ true
asks-reads [] off size i h low high = absurd (ground (arith, h))
asks-reads ((id, info) ∷ jobs) off size i h low high = elim (Bool-cases (asks off size jobs)) [
  | inl later ↦ ground (arith, asks-reads jobs off size i later low high)
  | inr not_later ↦ ground (arith, h, not_later)
]

module _ (hash_content : List ℕ → String) (encode_meta : ChunkMetaData → List ℕ) where
  Cuts-reads :
      (bytes : List ℕ) (off : ℕ) (cs : List Chunk) (jobs : List (String × ChunkInfo)) (i : ℕ)
      → Cuts hash_content encode_meta bytes off cs
      → All (IsAsked jobs) cs
      → off ≤ i
      → i < off + length bytes
      → reads jobs i ≡ true
  Cuts-reads bytes off [] jobs i cuts asked low high = absurd (ground (arith, cuts))
  Cuts-reads bytes off (c ∷ cs) jobs i (content, tail, split_eq, chunk, full, cuts)
        ((info, has, asked), later) low high =
      let same : info ≡ record { size = length content; offset = off; addr = "" } =
        ground (arith, has, chunk.metadata_eq) in
      elim (Bool-cases (ltb i (off + length content))) [
        | inl here ↦
            asks-reads jobs off (length content) i (ground (arith, asked, same)) low (omega tests)
        | inr behind ↦
            Cuts-reads tail (off + length content) cs jobs i cuts later (ground (arith, behind))
              (ground (arith, split_eq, length-append content tail))
      ]

module _ (hash_hex : List ℕ → List ℕ) (depth : ℤ) (decode_id : List ℕ → Option (List ℕ))
    (bytes_of : String → List ℕ) (split : List ℕ → List (List ℕ)) (dirs : String → Option Directory)
    (room : ℕ) where
  -- A chunk server with this directory, which is sent the bytes on a connection.
  abbrev pub chunk_server : Directory → Server
  chunk_server dir = record {
    room = room;
    reply = λ bytes.
        (handle hash_hex depth decode_id
          (session bytes (record { written = []; room = room }) dir)).0.writer.written;
  }

  abbrev pub dial_server : String → Option Server
  dial_server addr = elim (dirs addr) [ none ↦ none | some dir ↦ some (chunk_server dir) ]

  -- The server of the info has stored the bytes that it places under the id.
  pub record Holds (content : List ℕ) (job : String × ChunkInfo) : Type 0 where
    pub fits : FitsIn content job.1
    pub dir : Directory
    pub reached : dirs job.1.addr ≡ some dir
    pub path : FullPath
    pub path_eq : default_path_transform (bytes_of job.0) depth ≡ ok path
    pub stored : find_path (get_file_path (in_write_dir path)) dir ≡ some (place content job.1)
    pub id_payload : IsPayload (bytes_of job.0)
    pub id_room : length (frame type_read (bytes_of job.0)) ≤ room
    pub small : length (place content job.1) ≤ max_payload_len
    pub answer_room : length (frame type_read_response (place content job.1)) ≤ room

  Holds-IsServed :
      (content : List ℕ) (job : String × ChunkInfo)
      → Holds content job
      → IsServed bytes_of split dial_server content job
  Holds-IsServed content job h =
      let id = bytes_of job.0 in
      let bytes = place content job.1 in
      let (_, writer_eq, _, _) =
        chunk_handle-ServesAll hash_hex depth decode_id (record { written = []; room = room }) h.dir
          (λ path. find_path path h.dir) _ (frame type_read id ++ [])
          (frame type_read_response bytes ++ []) (λ path. refl)
          (more (found _ id bytes h.path h.id_payload h.path_eq h.stored h.small) (served _))
          (omega (arith, h.answer_room, length-append (frame type_read_response bytes) [])) in
      (
        h.fits,
        record {
          server = chunk_server h.dir;
          dialed = ground (arith, h.reached);
          id_small = h.id_payload.1;
          id_room = h.id_room;
          placed_small = h.small;
          replies = (
            [],
            ap (λ request. ((chunk_server h.dir).reply request))
                  (sym (append-nil (frame type_read id)))
                ∙ ap (λ (w : Writer). w.written) writer_eq,
          );
        },
      )

  -- Take attempts at reading chunks, in any order and with repetitions, whose chunk servers can be
  -- dialed, have stored under the id the bytes of the file that the info places, and have room for
  -- the request and the answer. If some attempt has the offset and the size of each chunk that
  -- chunkFiles makes of the file, and io.CopyN copies all bytes, then the attempts, run one after
  -- the other on an empty file, all succeed and leave just the file.
  pub read_jobs-chunk_files :
      (hash_content : List ℕ → String) (encode_meta : ChunkMetaData → List ℕ)
      → ((bytes : List ℕ) → joined (split bytes) ≡ bytes)
      → (file : List ℕ) (jobs : List (String × ChunkInfo)) → All (Holds file) jobs
      → All (IsAsked jobs) (chunk_files hash_content encode_meta file (length file))
      → read_jobs bytes_of split dial_server jobs [] ≡ (file, map (λ job. ok tt) jobs)
  read_jobs-chunk_files hash_content encode_meta whole file jobs held asked =
      read_jobs_covered bytes_of split dial_server whole file jobs
        (All-imp (Holds file) (IsServed bytes_of split dial_server file) jobs (Holds-IsServed file)
          held)
        (λ i here.
          Cuts-reads hash_content encode_meta file 0
            (chunk_files hash_content encode_meta file (length file)) jobs i
            (chunk_files-Cuts hash_content encode_meta file) asked (omega arith)
            (omega (arith, here)))
