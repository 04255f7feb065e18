-- ===== src/Client/Whole/EndToEnd.antt =====
-- SendFile and then ReadFile of internal/client/client.go, with a metadata server over a file store and
-- a chunk server.
use my_dfs.Common.{
  ℕ, suc, ◌+◌, ◌≤◌, ◌<◌, ◌≡◌, refl, ap, ◌∙◌, subst, Bool, true, false, Option, some, [], ◌∷◌, map,
  arith, Result, ok, Codec, length, All, All-imp, IsAmong,
}
use Prim.Native.String.{String}
use my_dfs.Protocol.{max_payload_len}
use my_dfs.Files.Dict.{Dict, insert}
use my_dfs.Files.Meta.{FileMetadata, ChunkInfo, ChunkMetaData, Chunk}
use my_dfs.Files.Store.{Journal, FileStore}
use my_dfs.Metaserver.{file_store, addressed}
use my_dfs.Storage.{ℤ}
use my_dfs.Storage.Tree.{Directory}
use my_dfs.Transport.Pool.{Pool, get}
use my_dfs.Client.{List, build_file_metadata, update_chunk_info}
use my_dfs.Client.Partition.{Cuts, chunk_files-Cuts}
use my_dfs.Client.Requests.{Peer, fetch_file_metadata, register_file_metadata}
use my_dfs.Client.Requests.Registered.{Fits, file_server, fetch-register}
use my_dfs.Client.Reading.{Server, ReadError, first_failure, all_taken, file_outcome, read_jobs}
use my_dfs.Client.Reading.Outcome.{collect_all}
use my_dfs.Client.Reading.Pieces.{joined}
use my_dfs.Client.Reading.RoundTrip.{dial_server}
use my_dfs.Client.Reading.Registered.{AreDistinct, IsTried, read_jobs-build_file_metadata}
use my_dfs.Client.Sending.{SendError, SentConn, send_jobs, serve_uploads}
use my_dfs.Client.Sending.Upload.{Agree, IsShort, dial_room, dial_storing, AreApart}
use my_dfs.Client.Sending.Transfer.{dirs_with, chunks_of, registered, entries-Holds, uploads_lem}
use my_dfs.Client.Whole.{result_of, finish, send_file, read_file}

length-map : {A B : Type 0} (f : A → B) (xs : List A) → length (map f xs) ≡ length xs
length-map f [] = refl
length-map f (x ∷ xs) = ap suc (length-map f xs)

first_failure-none :
    {E X : Type 0} (xs : List X)
    → first_failure (map (result_of {E = E}) (map (λ x. ok tt) xs)) ≡ ok tt
unfolding first_failure result_of
first_failure-none [] = refl
first_failure-none (x ∷ xs) = first_failure-none xs

all_taken-map : {X : Type 0} (xs : List X) → all_taken (map (λ x. true) xs) ≡ true
unfolding all_taken
all_taken-map [] = refl
all_taken-map (x ∷ xs) = all_taken-map xs

-- Jobs that all succeed, of which there is one.
finish_lem :
    {E X : Type 0} (xs : List X)
    → 0 < length xs
    → finish {E = E} (map (λ x. ok tt) xs) ≡ some (ok tt)
unfolding finish file_outcome
finish_lem {E} {X} xs some_jobs =
    let outcomes : List (Result E (Unit {0})) = map (λ x. ok tt) xs in
    let long = length-map (result_of {E = E}) outcomes in
    let taken = all_taken-map outcomes in
    let submits = length-map {A = Result E (Unit {0})} {B = Bool} (λ outcome. true) outcomes in
    let many = length-map {A = X} {B = Result E (Unit {0})} (λ x. ok tt) xs in
    ground (
      arith,
      taken,
      collect_all (map (result_of {E = E}) outcomes) (length (map (λ outcome. true) outcomes)) 0
          (omega (arith, long, submits)) (omega (arith, submits, many, some_jobs)),
      first_failure-none {E = E} xs,
    )

-- Every entry of a map is among the attempts at all of them.
IsTried-self : (m : Dict ChunkInfo) → All (IsTried m) m
IsTried-self [] = tt
IsTried-self ((id, info) ∷ m) = (
  ground arith,
  All-imp (IsTried m) (IsTried ((id, info) ∷ m)) m (λ (j, other) tried. ground (arith, tried))
      (IsTried-self m),
)

module _ {S : Type 0} (metaserver : Peer S) (codec : Codec FileMetadata) where
  send_file-registered :
      (hash_content : List ℕ → String) (encode_meta : ChunkMetaData → List ℕ)
      (dial : String → Option ℕ) (d h : Bool) (file : List ℕ) (name : String) (s t : Pool × S)
      (updated : FileMetadata)
      → let chunks = chunks_of hash_content encode_meta file in
        register_file_metadata metaserver codec d h
            (build_file_metadata chunks (length file) name)
            s
          ≡ (t, ok updated)
        → send_file metaserver codec hash_content encode_meta dial d h file name s ≡ (
          t,
          (
            (send_jobs dial (update_chunk_info updated chunks)).0,
            finish (send_jobs dial (update_chunk_info updated chunks)).1,
          ),
        )
  unfolding send_file
  send_file-registered hash_content encode_meta dial d h file name s t updated e = ground (arith, e)

  read_file-fetched :
      (bytes_of : String → List ℕ) (split : List ℕ → List (List ℕ)) (dial : String → Option Server)
      (d h : Bool) (name file : List ℕ) (s t : Pool × S) (meta : FileMetadata)
      (outcomes : List (Result ReadError (Unit {0})))
      → fetch_file_metadata metaserver codec d h name s ≡ (t, ok meta)
      → read_jobs bytes_of split dial meta.chunk_info [] ≡ (file, outcomes)
      → finish outcomes ≡ some (ok tt)
      → read_file metaserver codec bytes_of split dial d h name s ≡ (t, (some file, some (ok tt)))
  unfolding read_file
  read_file-fetched bytes_of split dial d h name file s t meta outcomes e read finished =
      ground (arith, e, read, finished)

module _ (hash_hex : List ℕ → List ℕ) (depth : ℤ) (decode_id : List ℕ → Option (List ℕ))
    (hash_content : List ℕ → String) (encode_meta : ChunkMetaData → List ℕ)
    (bytes_of : String → List ℕ) (room : ℕ)
    (agree : Agree hash_hex depth decode_id hash_content encode_meta bytes_of)
    (split : List ℕ → List (List ℕ)) where
  Cuts-some :
      (file : List ℕ) (off : ℕ) (cs : List Chunk)
      → Cuts hash_content encode_meta file off cs
      → 0 < length file
      → 0 < length cs
  Cuts-some file off [] cuts some_bytes = absurd (ground (arith, cuts))
  Cuts-some file off (c ∷ cs) cuts some_bytes = omega arith

  read_jobs-some :
      (dirs : String → Option Directory) (file : List ℕ) (jobs : List (String × ChunkInfo))
      → read_jobs bytes_of split
          (dial_server hash_hex depth decode_id bytes_of split dirs room)
          jobs
          []
        ≡ (file, map (λ job. ok tt) jobs)
      → 0 < length file
      → 0 < length jobs
  unfolding read_jobs
  read_jobs-some dirs file [] e some_bytes = absurd (ground (arith, e))
  read_jobs-some dirs file (job ∷ jobs) e some_bytes = omega arith

  -- Take a file that is not empty, whose chunks have different ids, paths apart from each other,
  -- and encoded metadata of less than a MiB, a client and a chunk server that agree on the hash, a
  -- gob that reads back ids, hashes with paths and no slash, and an io.CopyN that copies all bytes.
  -- Let Get yield a connection each time, let the metadata, with and without the addresses that the
  -- metadata server sets, and the name fit into a message and onto the connections, let the name
  -- decode, let the log take the record, and let the connections to the chunk server have room for
  -- a maximal message. Then SendFile of the file returns nil. If the chunk server has read the
  -- connections over which it sent, one after the other, in any order and with repetitions, none
  -- being left out, then a later ReadFile of the name returns nil, leaves just the content of the
  -- file, and changes no store. Each job is attempted once.
  pub read_file-send_file :
      {L : Type 0} (journal : Journal L) (codec : Codec FileMetadata) (string_of : List ℕ → String)
      (nil_bytes : List ℕ) (room' : ℕ) (d h d' h' : Bool) (p p' p'' : Pool) (c c' : ℕ)
      (s : FileStore L) (wal : L) (file : List ℕ) (name : String) (name_bytes bytes reply : List ℕ)
      (dir : Directory) (conns : List SentConn)
      → ((bs : List ℕ) → joined (split bs) ≡ bs)
      → 8 + max_payload_len ≤ room
      → get d h p ≡ (p', ok c)
      → get d' h' p' ≡ (p'', ok c')
      → string_of name_bytes ≡ name
      → codec.marshal
          (build_file_metadata (chunks_of hash_content encode_meta file) (length file) name)
        ≡ some bytes
      → codec.marshal (registered hash_content encode_meta file name) ≡ some reply
      → Fits (file_store journal codec) codec string_of nil_bytes room' name_bytes
      → Fits (file_store journal codec) codec string_of nil_bytes room' bytes
      → Fits (file_store journal codec) codec string_of nil_bytes room' reply
      → journal.append s.wal reply false ≡ (wal, true)
      → 0 < length file
      → All (IsShort encode_meta) (chunks_of hash_content encode_meta file)
      → AreDistinct (chunks_of hash_content encode_meta file)
      → AreApart hash_hex depth decode_id hash_content encode_meta bytes_of room agree
          (chunks_of hash_content encode_meta file)
      → let server = file_server journal codec string_of nil_bytes room' in
        let (t, (opened, sent)) =
          send_file server codec hash_content encode_meta (dial_room room) d h file name (p, s) in
        let dir' =
          serve_uploads
            (dial_storing hash_hex depth decode_id hash_content encode_meta bytes_of room agree)
            conns
            dir in
        All (λ conn. IsAmong conn opened) conns
        → All (λ conn. IsAmong conn conns) opened
        → (sent ≡ some (ok tt))
          × (read_file server codec bytes_of split
                (dial_server hash_hex depth decode_id bytes_of split (dirs_with dir') room)
                d'
                h'
                name_bytes
                t
              ≡ ((p'', t.1), (some file, some (ok tt))))
  unfolding build_file_metadata
  read_file-send_file {L} journal codec string_of nil_bytes room' d h d' h' p p' p'' c c' s wal file
        name name_bytes bytes reply dir conns whole big got got' named sent answered fits_name
        fits_bytes fits_reply appended some_bytes shorts distinct apart =
      let cs = chunks_of hash_content encode_meta file in
      let meta = build_file_metadata cs (length file) name in
      let dial = dial_room room in
      let (registered_it, store_eq, fetched) =
        fetch-register journal codec string_of nil_bytes room' d h d' h' p p' p'' c c' s wal meta
          name_bytes bytes reply got got' named sent answered fits_name fits_bytes fits_reply
          appended in
      let server = file_server journal codec string_of nil_bytes room' in
      let t : Pool × FileStore L =
        (p', record { files = insert meta.name (addressed meta) s.files; wal = wal }) in
      let both : register_file_metadata server codec d h meta (p, s) ≡ (t, ok (addressed meta)) =
        ground (arith, registered_it, store_eq) in
      let fetched' : fetch_file_metadata server codec d' h' name_bytes t
          ≡ ((p'', t.1), ok (addressed meta)) =
        subst
          (λ z.
            fetch_file_metadata server codec d' h' name_bytes z ≡ ((p'', z.1), ok (addressed meta)))
          store_eq fetched in
      rw
        (send_file-registered server codec hash_content encode_meta dial d h file name (p, s) t
          (addressed meta) both)
        (λ from all.
          let jobs = (addressed meta).chunk_info in
          let (sent_all, stored) =
            uploads_lem hash_hex depth decode_id hash_content encode_meta bytes_of room agree split
              big file name dir conns shorts distinct apart from all in
          let dir' =
            serve_uploads
              (dial_storing hash_hex depth decode_id hash_content encode_meta bytes_of room agree)
              conns dir in
          let read_all =
            read_jobs-build_file_metadata hash_content encode_meta hash_hex depth decode_id bytes_of
              split (dirs_with dir') room whole file name jobs distinct (IsTried-self jobs)
              (entries-Holds hash_hex depth decode_id hash_content encode_meta bytes_of room agree
                split file name dir' big stored) in
          let finished =
            finish_lem {E = SendError} cs
              (Cuts-some file 0 cs (chunk_files-Cuts hash_content encode_meta file) some_bytes) in
          let finished' =
            finish_lem {E = ReadError} jobs
              (read_jobs-some (dirs_with dir') file jobs read_all some_bytes) in
          (
            ap finish sent_all ∙ finished,
            read_file-fetched server codec bytes_of split _ d' h' name_bytes file t (p'', t.1)
                (addressed meta) _ fetched' read_all finished',
          ))
