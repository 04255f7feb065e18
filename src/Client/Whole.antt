-- ===== src/Client/Whole.antt =====
-- SendFile and ReadFile of internal/client/client.go as a whole. The worker pools are open, and each job
-- is attempted once, one after the other; a job of ReadFile comes in the order of the map. SendFile
-- does not wait for the chunk servers: what it has sent them is part of its result, and is read later.
-- The metadata server's state is `S`. A file can be opened, and `none` is a call that waits for ever.
pub mod EndToEnd
use my_dfs.Common.{
  ℕ, zero, suc, ◌+◌, ◌-◌, ◌*◌, ◌/◌, ◌%◌, ◌^◌, ◌≤◌, ◌<◌, min, max, ◌≡◌, refl, sym, ap, ◌∙◌, subst,
  ◌≡⟨◌⟩◌, ◌∎, ◌≢◌, ◌↔◌, ◌⊎◌, inl, inr, Bool, true, false, ◌&&◌, ◌||◌, not, Option, none, some, List,
  [], ◌∷◌, ◌++◌, map, append-nil, append_assoc, arith, ltb, leb, ◌==◌, if◌then◌else◌, ltb→lt,
  lt→ltb, le→ltb, leb→le, le→leb, lt→leb, ==_iff, ==_refl, tests, Bool-cases, Option-cases, Result,
  ok, err, ◌>>=◌, ◌>>◌, or_fail, Result-cases, Codec, length, get_elem?, take, drop, replicate, All,
  length-append, take-append-drop, length-take, length-drop, take_all, drop_all, take-append,
  drop-append, All-append, nil_of_length, occurrences, occurrences-append, get_elem?-append,
  get_elem?-take, get_elem?-drop, get_elem?-some, get_elem?-here, get_elem?-ext, All-imp, All-both,
}
use Prim.Native.String.{String}
use my_dfs.Files.Meta.{FileMetadata, ChunkMetaData, Chunk}
use my_dfs.Transport.Pool.{Pool}
use my_dfs.Workers.{WorkResult, status_success, status_failed}
use my_dfs.Client.{chunk_files, build_file_metadata, update_chunk_info}
use my_dfs.Client.Requests.{Peer, RequestError, fetch_file_metadata, register_file_metadata}
use my_dfs.Client.Reading.{Server, ReadError, FileError, file_outcome, read_jobs}
use my_dfs.Client.Sending.{SendError, SentConn, send_jobs}

pub data TransferError (E : Type 0) : Type 0 where
  request_failed : RequestError → TransferError E
  jobs_failed : FileError E → TransferError E

-- The result of a worker for a job that is attempted once.
unfoldable pub result_of : {E : Type 0} → Result E (Unit {0}) → WorkResult E (Unit {0})
result_of (ok _) = record { output = some tt; error = none; retries = 0; status = status_success }
result_of (err e) = record { output = none; error = some e; retries = 0; status = status_failed }

unfoldable pub finish :
    {E : Type 0} → List (Result E (Unit {0})) → Option (Result (TransferError E) (Unit {0}))
finish outcomes = elim (file_outcome (map (λ outcome. true) outcomes) (map result_of outcomes)) [
  | none ↦ none
  | some (ok _) ↦ some (ok tt)
  | some (err e) ↦ some (err (jobs_failed e))
]

module _ {S : Type 0} (metaserver : Peer S) (codec : Codec FileMetadata) where
  -- SendFile of a file with this content and name, with the connections over which it has sent.
  unfoldable pub send_file :
      (List ℕ → String)
      → (ChunkMetaData → List ℕ)
      → (String → Option ℕ)
      → Bool
      → Bool
      → List ℕ
      → String
      → Pool × S
      → (Pool × S) × (List SentConn × Option (Result (TransferError SendError) (Unit {0})))
  send_file hash_content encode_meta dial dialed healthy file name s =
      let chunks = chunk_files hash_content encode_meta file (length file) in
      let (s', answer) =
        register_file_metadata metaserver codec dialed healthy
          (build_file_metadata chunks (length file) name) s in
      elim answer [
        | err e ↦ (s', ([], some (err (request_failed e))))
        | ok updated ↦
            let (conns, outcomes) = send_jobs dial (update_chunk_info updated chunks) in
            (s', (conns, finish outcomes))
      ]

  -- ReadFile, with the bytes of the name, and the content of the file that it writes: `none` where it
  -- removes the file.
  unfoldable pub read_file :
      (String → List ℕ)
      → (List ℕ → List (List ℕ))
      → (String → Option Server)
      → Bool
      → Bool
      → List ℕ
      → Pool × S
      → (Pool × S) × (Option (List ℕ) × Option (Result (TransferError ReadError) (Unit {0})))
  read_file bytes_of split dial dialed healthy name s =
      let (s', answer) = fetch_file_metadata metaserver codec dialed healthy name s in
      elim answer [
        | err e ↦ (s', (some [], some (err (request_failed e))))
        | ok meta ↦
            let (content, outcomes) = read_jobs bytes_of split dial meta.chunk_info [] in
            let end : Option (List ℕ) × Option (Result (TransferError ReadError) (Unit {0})) =
              elim (finish outcomes) [
                | some (err e) ↦ (none, some (err e))
                | outcome ↦ (some content, outcome)
              ] in
            (s', end)
      ]
