-- ===== src/Client/Reading.antt =====
-- The download of a file in internal/client: read_file.go, and ReadFile of client.go. The bytes of a
-- string are the parameter `bytes_of`, the buffers in which io.CopyN copies the parameter `split`. A
-- server is what it replies to the bytes of a connection, of which `room` bytes can be sent; where a
-- dial fails there is none. Deadlines are left out.
pub mod Pieces
pub mod Download
pub mod RoundTrip
pub mod Outcome
pub mod Registered
use my_dfs.Common.{
  ℕ, zero, suc, ◌+◌, ◌-◌, ◌*◌, ◌/◌, ◌%◌, ◌^◌, ◌≤◌, ◌<◌, min, max, ◌≡◌, refl, sym, ap, ◌∙◌, subst,
  ◌≡⟨◌⟩◌, ◌∎, ◌≢◌, ◌↔◌, ◌⊎◌, inl, inr, Bool, true, false, ◌&&◌, ◌||◌, not, Option, none, some, List,
  [], ◌∷◌, ◌++◌, map, append-nil, append_assoc, arith, ltb, leb, ◌==◌, if◌then◌else◌, ltb→lt,
  lt→ltb, le→ltb, leb→le, le→leb, lt→leb, ==_iff, ==_refl, tests, Bool-cases, Option-cases, Result,
  ok, err, ◌>>=◌, ◌>>◌, or_fail, Result-cases, Codec, length, get_elem?, take, drop, replicate, All,
  length-append, take-append-drop, length-take, length-drop, take_all, drop_all, take-append,
  drop-append, All-append, nil_of_length, get_elem?-append, get_elem?-take, get_elem?-drop,
  get_elem?-some, get_elem?-here, get_elem?-ext, All-imp,
}
use Prim.Native.String.{String}
use my_dfs.Protocol.{
  Writer, Message, ProtocolError, new_message, type_read, encode, decode, read_payload,
}
use my_dfs.Files.Meta.{ChunkInfo, FileMetadata}
use my_dfs.Workers.{JobStatus, status_success, status_failed, status_cancelled, WorkResult}
use my_dfs.Client.Output.{WriterAtAdapter, new_writer_at_adapter, write_pieces}

pub record Server : Type 0 where
  pub room : ℕ
  pub reply : List ℕ → List ℕ

-- `panicked`: `defer conn.Close()` on the nil connection of a failed dial.
pub data ReadError : Type 0 where
  panicked copy_failed : ReadError
  protocol_failed : ProtocolError → ReadError

-- The loops of processReadFile and of sendChunks that receive the results, on those that arrive: the
-- channel is closed when as many were received as there are jobs. `none` is a receive that waits for
-- ever, as the channel is empty and open.
unfoldable pub collect {ℓ} : {R : Type ℓ} → ℕ → ℕ → Bool → List R → Option (List R)
collect expected count closed [] = if closed then some [] else none
collect expected count closed (r ∷ rs) =
    let rest = collect expected (count + 1) (closed || (count + 1 == expected)) rs in
    elim rest [ none ↦ none | some out ↦ some (r ∷ out) ]

module _ (bytes_of : String → List ℕ) (split : List ℕ → List (List ℕ))
    (dial : String → Option Server) where
  -- io.CopyN of the payload to the adapter.
  unfoldable pub copy_chunk :
      ℕ → List ℕ → WriterAtAdapter → WriterAtAdapter × Result ReadError (Unit {0})
  copy_chunk size payload a = (
    write_pieces (split (take size payload)) a,
    if leb size (length payload) then ok tt else err copy_failed,
  )

  -- readChunk
  unfoldable pub read_chunk :
      String → ChunkInfo → WriterAtAdapter → WriterAtAdapter × Result ReadError (Unit {0})
  read_chunk id info a = elim (dial info.addr) [
    | none ↦ (a, err panicked)
    | some server ↦
        let request = new_message type_read (some (bytes_of id)) (length (bytes_of id) % 2 ^ 32) in
        let (w, sent) = encode (record { written = []; room = server.room }) request in
        elim sent [
          | err e ↦ (a, err (protocol_failed e))
          | ok _ ↦ elim (decode (server.reply w.written)) [
            | err e ↦ (a, err (protocol_failed e))
            | ok (m, conn) ↦ copy_chunk info.size (read_payload m conn).0 a
          ]
        ]
  ]

  -- The job of a chunk in processReadFile.
  unfoldable pub read_job : String × ChunkInfo → List ℕ → List ℕ × Result ReadError (Unit {0})
  read_job (id, info) file =
      let (a, outcome) = read_chunk id info (new_writer_at_adapter file info.offset) in
      (a.file, outcome)

  -- Attempts at jobs of processReadFile, one after another; the worker pool may repeat a job.
  unfoldable pub read_jobs :
      List (String × ChunkInfo) → List ℕ → List ℕ × List (Result ReadError (Unit {0}))
  read_jobs [] file = (file, [])
  read_jobs (job ∷ jobs) file =
      let (file', outcome) = read_job job file in
      let (last, outcomes) = read_jobs jobs file' in (last, outcome ∷ outcomes)

-- What is returned for the jobs; `not_submitted` is the error of Submit.
pub data FileError (E : Type 0) : Type 0 where
  not_submitted operation_cancelled : FileError E
  operation_failed : Option E → FileError E

-- The loop over the results at the end of ReadFile, and of SendFile.
unfoldable pub first_failure :
    {E A : Type 0} → List (WorkResult E A) → Result (FileError E) (Unit {0})
first_failure [] = ok tt
first_failure (r ∷ rs) =
    let rest = first_failure rs in
    elim r.status [
      | status_cancelled ↦ err operation_cancelled
      | status_failed ↦ err (operation_failed r.error)
      | status_success ↦ rest
    ]

-- Submit of the jobs one after the other, each of which the pool takes or refuses.
unfoldable pub all_taken : List Bool → Bool
all_taken [] = true
all_taken (taken ∷ rest) = let others = all_taken rest in if taken then others else false

-- processReadFile and ReadFile behind it, or sendChunks and SendFile, on what Submit answers for each
-- job and on the results that the workers send: `none` where the call waits for ever.
unfoldable pub file_outcome :
    {E A : Type 0} → List Bool → List (WorkResult E A) → Option (Result (FileError E) (Unit {0}))
file_outcome submits results =
    let collected = collect (length submits) 0 false results in
    if all_taken submits
    then elim collected [ none ↦ none | some out ↦ some (first_failure out) ]
    else some (err not_submitted)
