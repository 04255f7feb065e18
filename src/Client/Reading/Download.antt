-- ===== src/Client/Reading/Download.antt =====
-- What the jobs of processReadFile of internal/client/read_file.go leave in the file.
use my_dfs.Common.{
  ℕ, ◌≤◌, ◌<◌, ◌≡◌, refl, sym, ap, ◌∙◌, subst, true, Option, some, [], ◌∷◌, ◌++◌, map, arith, ok,
  length, drop, All, length-take, length-drop, take_all, All-append,
}
use Prim.Native.String.{String}
use my_dfs.Protocol.{type_read, type_read_response, max_payload_len}
use my_dfs.Protocol.Messages.{frame, decode-request, read_payload-message, encode-message}
use my_dfs.Files.Meta.{ChunkInfo}
use my_dfs.Client.Output.{perform}
use my_dfs.Client.Output.Writes.{Matches, covers, perform_covered}
use my_dfs.Client.Reading.Pieces.{
  joined, placed, write_pieces-placed, perform-append, covers-append, covers-placed, Matches-placed,
  place, FitsIn, place-Matches, reads,
}
use my_dfs.Client.Reading.{read_jobs, List, Server, copy_chunk, read_chunk, read_job}

module _ (bytes_of : String → List ℕ) (split : List ℕ → List (List ℕ))
    (dial : String → Option Server) where
  -- The info's server has room for the request, and answers it by the bytes that the info places.
  pub record Serves (content : List ℕ) (job : String × ChunkInfo) : Type 0 where
    pub server : Server
    pub dialed : dial job.1.addr ≡ some server
    pub id_small : length (bytes_of job.0) ≤ max_payload_len
    pub id_room : length (frame type_read (bytes_of job.0)) ≤ server.room
    pub placed_small : length (place content job.1) ≤ max_payload_len
    pub replies :
        (rest : List ℕ) × (server.reply (frame type_read (bytes_of job.0))
          ≡ frame type_read_response (place content job.1) ++ rest)

  -- The writes of an attempt at the job.
  abbrev pub writes : List ℕ → String × ChunkInfo → List (ℕ × List ℕ)
  writes content (id, info) = placed info.offset (split (place content info))

  read_job-writes :
      (content file : List ℕ) (job : String × ChunkInfo)
      → FitsIn content job.1
      → Serves content job
      → read_job bytes_of split dial job file ≡ (perform (writes content job) file, ok tt)
  unfolding read_job read_chunk copy_chunk
  read_job-writes content file (id, info) fits s =
      let (rest, replied) = s.replies in
      ground (
        arith,
        s.dialed,
        encode-message type_read (bytes_of id) (record { written = []; room = s.server.room })
            s.id_small s.id_room,
        replied,
        decode-request type_read_response (place content info) rest s.placed_small,
        read_payload-message type_read_response (place content info) rest,
        length-take info.size (drop info.offset content),
        length-drop info.offset content,
        take_all info.size (place content info),
        write_pieces-placed (split (place content info)) file info.offset,
      )

  abbrev pub all_writes : List ℕ → List (String × ChunkInfo) → List (ℕ × List ℕ)
  all_writes content [] = []
  all_writes content (job ∷ jobs) = writes content job ++ all_writes content jobs

  abbrev pub IsServed : List ℕ → String × ChunkInfo → Type 0
  IsServed content job = FitsIn content job.1 × Serves content job

  read_jobs-all_writes :
      (content file : List ℕ) (jobs : List (String × ChunkInfo))
      → All (IsServed content) jobs
      → read_jobs bytes_of split dial jobs file
        ≡ (perform (all_writes content jobs) file, map (λ job. ok tt) jobs)
  unfolding read_jobs perform
  read_jobs-all_writes content file [] h = refl
  read_jobs-all_writes content file (job ∷ jobs) ((fits, served), h) = ground (
    arith,
    read_job-writes content file job fits served,
    read_jobs-all_writes content (perform (writes content job) file) jobs h,
    perform-append (writes content job) (all_writes content jobs) file,
  )

  module _ (whole : (bytes : List ℕ) → joined (split bytes) ≡ bytes) where
    writes-Matches :
        (content : List ℕ) (job : String × ChunkInfo)
        → FitsIn content job.1
        → All (Matches content) (writes content job)
    writes-Matches content (id, info) fits =
        Matches-placed content (split (place content info)) info.offset (
          subst (λ bytes. Matches content (info.offset, bytes)) (sym (whole (place content info)))
            (place-Matches content info fits))

    all_writes-Matches :
        (content : List ℕ) (jobs : List (String × ChunkInfo))
        → All (IsServed content) jobs
        → All (Matches content) (all_writes content jobs)
    all_writes-Matches content [] h = tt
    all_writes-Matches content (job ∷ jobs) ((fits, served), h) =
        All-append (Matches content) (writes content job) (all_writes content jobs)
          (writes-Matches content job fits) (all_writes-Matches content jobs h)

    covers-all_writes :
        (content : List ℕ) (jobs : List (String × ChunkInfo)) (i : ℕ)
        → All (IsServed content) jobs
        → covers (all_writes content jobs) i ≡ reads jobs i
    covers-all_writes content [] i h = refl
    covers-all_writes content ((id, info) ∷ jobs) i ((fits, served), h) = ground (
      arith,
      covers-append (writes content (id, info)) (all_writes content jobs) i,
      covers-placed (split (place content info)) info.offset i,
      whole (place content info),
      length-take info.size (drop info.offset content),
      length-drop info.offset content,
      covers-all_writes content jobs i h,
    )

    pub read_jobs_covered :
        (content : List ℕ) (jobs : List (String × ChunkInfo))
        → All (IsServed content) jobs
        → ((i : ℕ) → i < length content → reads jobs i ≡ true)
        → read_jobs bytes_of split dial jobs [] ≡ (content, map (λ job. ok tt) jobs)
    read_jobs_covered content jobs h all =
        read_jobs-all_writes content [] jobs h
        ∙ ap (λ (file : List ℕ). (file, map (λ job. ok tt) jobs))
            (perform_covered content (all_writes content jobs) []
              (all_writes-Matches content jobs h)
              (λ i here. covers-all_writes content jobs i h ∙ all i here) (omega arith))
