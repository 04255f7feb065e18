-- ===== src/Client/Sending/Upload.antt =====
-- The chunks that sendChunks of internal/client/write_file.go sends to a chunk server of
-- internal/chunkserver.
use my_dfs.Common.{
  ℕ, ◌+◌, ◌%◌, ◌^◌, ◌≤◌, ◌≡◌, refl, sym, ap, ◌∙◌, subst, false, Option, none, some, List, [], ◌∷◌,
  ◌++◌, map, append-nil, arith, if◌then◌else◌, ok, length, All, All-imp, All-both, All-map, IsAmong,
  IsAmong-map, length-append, ◌⊎◌, inl, inr,
}
use Prim.Native.String.{String}
use text.Mathlib.Text.{◌==◌ as str_eq}
use text.Mathlib.TextEquality.{eq_iff}
use my_dfs.Binary.{put_uint32}
use my_dfs.Protocol.{new_message, type_write, max_payload_len}
use my_dfs.Protocol.Messages.{frame, IsPayload, length-frame, encode-message}
use my_dfs.Files.Meta.{ChunkInfo, ChunkMetaData, Chunk}
use my_dfs.Metaserver.Serving.{session}
use my_dfs.Storage.Paths.{IsStorable}
use my_dfs.Storage.{ℤ, FullPath, get_file_path, in_write_dir, tmp_suffix}
use my_dfs.Storage.Tree.{Directory, same_path, same_path_refl, find_path}
use my_dfs.Chunkserver.{handle}
use my_dfs.Chunkserver.Chunks.{chunk_payload}
use my_dfs.Chunkserver.Serving.{Shows, with_chunk, stored, served, more, chunk_handle-ServesAll}
use my_dfs.Client.{chunk_message}
use my_dfs.Client.Partition.{chunk_message-IsSendable}
use my_dfs.Client.Requests.{Peer}
use my_dfs.Client.Reading.Pieces.{place}
use my_dfs.Client.Sending.{
  SentConn, send_jobs, send_message, send_chunk, serve_upload, serve_uploads,
}
use my_dfs.Client.Sending.Placed.{IsPlaced, with_address}

-- What client and chunk server rely on: the hash is the same on both sides, and has a path; gob reads
-- back the id.
pub record Agree (hash_hex : List ℕ → List ℕ) (depth : ℤ) (decode_id : List ℕ → Option (List ℕ))
    (hash_content : List ℕ → String) (encode_meta : ChunkMetaData → List ℕ)
    (bytes_of : String → List ℕ) : Type 0 where
  pub hashed : (content : List ℕ) → bytes_of (hash_content content) ≡ hash_hex content
  pub decoded : (meta : ChunkMetaData) → decode_id (encode_meta meta) ≡ some (bytes_of meta.id)
  pub digest : (content : List ℕ) → IsPayload (hash_hex content)
  pub path_of : List ℕ → FullPath
  pub path_eq :
      (content : List ℕ) → IsStorable depth (hash_hex content) (path_of (hash_hex content))

-- The encoded metadata leaves room in a message of a MiB more than the chunk.
abbrev pub IsShort : (ChunkMetaData → List ℕ) → Chunk → Type 0
IsShort encode_meta c = length (encode_meta c.metadata) + 4 ≤ 2 ^ 20

-- A connection to the chunk server takes `room` bytes.
abbrev pub dial_room : ℕ → String → Option ℕ
dial_room room addr = if str_eq addr ":5001" then some room else none

module _ (hash_hex : List ℕ → List ℕ) (depth : ℤ) (decode_id : List ℕ → Option (List ℕ))
    (hash_content : List ℕ → String) (encode_meta : ChunkMetaData → List ℕ)
    (bytes_of : String → List ℕ) (room : ℕ)
    (agree : Agree hash_hex depth decode_id hash_content encode_meta bytes_of) where
  -- The chunk server, which the address that the metadata server sets belongs to.
  abbrev pub storing_server : Peer Directory
  storing_server = record {
    room = room;
    serve = λ bytes dir.
        let r =
          handle hash_hex depth decode_id
            (session bytes (record { written = []; room = room }) dir) in
        (r.0.store, r.0.writer.written);
  }

  abbrev pub dial_storing : String → Option (Peer Directory)
  dial_storing addr = if str_eq addr ":5001" then some storing_server else none

  -- The path at which the server stores the chunk.
  abbrev pub stored_at : String → List ℕ
  stored_at id = get_file_path (in_write_dir (agree.path_of (bytes_of id)))

  -- Storing the first chunk leaves the second one as it is.
  abbrev pub Spares : Chunk → Chunk → Type 0
  Spares d c =
      (same_path (stored_at d.metadata.id) (stored_at c.metadata.id) ≡ false)
      × (same_path (stored_at d.metadata.id ++ tmp_suffix) (stored_at c.metadata.id) ≡ false)

  -- Storing a chunk leaves every other one as it is.
  abbrev pub AreApart : List Chunk → Type 0
  AreApart cs = All (λ c. All (λ d. (d ≡ c) ⊎ Spares d c) cs) cs

  -- What sendChunk sends of a chunk.
  abbrev pub sent_bytes : List ℕ → Chunk → ChunkInfo → List ℕ
  sent_bytes file c info = chunk_payload (encode_meta c.metadata) (place file info)

  pub IsPlaced-id :
      (file : List ℕ) (c : Chunk)
      → (h : IsPlaced hash_content encode_meta file c)
      → bytes_of c.metadata.id ≡ hash_hex (place file h.info)
  IsPlaced-id file c h =
      ap (λ (m : ChunkMetaData). bytes_of m.id) h.chunk.metadata_eq
      ∙ agree.hashed (place file h.info)

  IsPlaced-sent_bytes :
      (file : List ℕ) (c : Chunk)
      → IsShort encode_meta c
      → (h : IsPlaced hash_content encode_meta file c)
      → let bytes = sent_bytes file c h.info in
        (c.payload ≡ bytes)
        × IsPayload bytes
        × (chunk_message (with_address c)
            ≡ some (new_message type_write (some bytes) (length bytes % 2 ^ 32)))
  unfolding chunk_message put_uint32
  IsPlaced-sent_bytes file c short h =
      let content = place file h.info in
      let (message_eq, sendable) =
        chunk_message-IsSendable hash_content encode_meta c h.info.offset content h.chunk
          (omega (arith, h.chunk.metadata_len_eq, short)) in
      let payload : c.payload ≡ sent_bytes file c h.info =
        ground (arith, h.chunk.payload_eq, h.chunk.metadata_len_eq, short) in
      let long = length-append (encode_meta c.metadata) content in
      (
        payload,
        (omega (arith, long), omega (arith, long, short, h.chunk.fits)),
        ground (arith, message_eq, payload, h.info_eq, long, short, h.chunk.fits),
      )

  -- The connection over which sendChunk sends the chunk.
  abbrev pub upload_of : Chunk → SentConn
  upload_of c = record { address = ":5001"; bytes = frame type_write c.payload }

  send_chunk_lem :
      (file : List ℕ) (c : Chunk)
      → 8 + max_payload_len ≤ room
      → IsShort encode_meta c
      → IsPlaced hash_content encode_meta file c
      → send_chunk (dial_room room) (with_address c) ≡ (upload_of c ∷ [], ok tt)
  unfolding send_chunk send_message
  send_chunk_lem file c big short h =
      let bytes = sent_bytes file c h.info in
      let (payload, fits, message_eq) = IsPlaced-sent_bytes file c short h in
      let sent =
        encode-message type_write bytes (record { written = []; room = room }) fits.1
          (omega (arith, length-frame type_write bytes, fits, big)) in
      ground (arith, h.info_eq, message_eq, sent, payload, eq_iff ":5001" ":5001")

  pub send_jobs-uploads :
      (file : List ℕ) (cs : List Chunk)
      → 8 + max_payload_len ≤ room
      → All (IsShort encode_meta) cs
      → All (IsPlaced hash_content encode_meta file) cs
      → send_jobs (dial_room room) (map with_address cs) ≡ (map upload_of cs, map (λ c. ok tt) cs)
  unfolding send_jobs
  send_jobs-uploads file [] big short h = refl
  send_jobs-uploads file (c ∷ cs) big (short, shorts) (hc, h) =
      ground (arith, send_chunk_lem file c big short hc, send_jobs-uploads file cs big shorts h)

  serve_upload_lem :
      (file : List ℕ) (c : Chunk) (dir : Directory)
      → IsShort encode_meta c
      → (h : IsPlaced hash_content encode_meta file c)
      → Shows
          (serve_upload dial_storing (upload_of c) dir)
          (with_chunk (stored_at c.metadata.id) (place file h.info) (λ path. find_path path dir))
  unfolding serve_upload
  serve_upload_lem file c dir short h =
      let content = place file h.info in
      let meta = encode_meta c.metadata in
      let bytes = sent_bytes file c h.info in
      let id_eq = IsPlaced-id file c h in
      let (payload, fits, _) = IsPlaced-sent_bytes file c short h in
      let known : IsStorable depth (bytes_of c.metadata.id)
          (agree.path_of (bytes_of c.metadata.id)) =
        subst (λ id. IsStorable depth id (agree.path_of id)) (sym id_eq) (agree.path_eq content) in
      let (_, _, _, shows) =
        chunk_handle-ServesAll hash_hex depth decode_id (record { written = []; room = room }) dir
          (λ path. find_path path dir) _ (frame type_write bytes ++ []) ([] ++ []) (λ path. refl)
          (more
            (stored _ (bytes_of c.metadata.id) meta content (agree.path_of (bytes_of c.metadata.id))
              fits (agree.decoded c.metadata) (omega (arith, short)) known
              (ground (arith, id_eq, same_path_refl (hash_hex content))))
            (served _))
          (omega arith) in
      let run : serve_upload dial_storing (upload_of c) dir
          ≡ (storing_server.serve (frame type_write bytes ++ []) dir).0 =
        ground (arith, payload, append-nil (frame type_write bytes), eq_iff ":5001" ":5001") in
      rw run shows

  -- The chunk's bytes of the file are found at its path.
  abbrev pub IsStored : List ℕ → Directory → Chunk → Type 0
  IsStored file dir c =
      (info : ChunkInfo)
      → c.metadata.chunk_info ≡ some info
      → find_path (stored_at c.metadata.id) dir ≡ some (place file info)

  serve_upload-IsStored :
      (file : List ℕ) (c : Chunk) (dir : Directory)
      → IsShort encode_meta c
      → IsPlaced hash_content encode_meta file c
      → IsStored file (serve_upload dial_storing (upload_of c) dir) c
  serve_upload-IsStored file c dir short h info known =
      serve_upload_lem file c dir short h (stored_at c.metadata.id)
      ∙ ground (arith, same_path_refl (stored_at c.metadata.id), h.info_eq, known)

  -- A chunk that is the given one or spares it.
  abbrev IsHarmless : List ℕ → Chunk → Chunk → Type 0
  IsHarmless file c d =
      IsShort encode_meta d × (IsPlaced hash_content encode_meta file d × ((d ≡ c) ⊎ Spares d c))

  serve_upload-keeps :
      (file : List ℕ) (c d : Chunk) (dir : Directory)
      → IsHarmless file c d
      → IsStored file dir c
      → IsStored file (serve_upload dial_storing (upload_of d) dir) c
  serve_upload-keeps file c d dir (short, (h, inl same)) there =
      subst (IsStored file (serve_upload dial_storing (upload_of d) dir)) same
        (serve_upload-IsStored file d dir short h)
  serve_upload-keeps file c d dir (short, (h, inr (apart, apart_tmp))) there = λ info known.
      serve_upload_lem file d dir short h (stored_at c.metadata.id)
      ∙ ground (arith, apart, apart_tmp, there info known)

  -- The upload is that of a chunk that is harmless to the given one.
  abbrev HasSource : List ℕ → Chunk → SentConn → Type 0
  HasSource file c u = (d : Chunk) × IsHarmless file c d × (u ≡ upload_of d)

  serve_uploads-keeps :
      (file : List ℕ) (c : Chunk) (us : List SentConn) (dir : Directory)
      → All (HasSource file c) us
      → IsStored file dir c
      → IsStored file (serve_uploads dial_storing us dir) c
  unfolding serve_uploads
  serve_uploads-keeps file c [] dir h there = there
  serve_uploads-keeps file c (u ∷ us) dir ((d, harmless, e), h) there =
      serve_uploads-keeps file c us (serve_upload dial_storing u dir) h (
        subst (λ v. IsStored file (serve_upload dial_storing v dir) c) (sym e)
          (serve_upload-keeps file c d dir harmless there))

  serve_uploads-stores :
      (file : List ℕ) (c : Chunk) (us : List SentConn) (dir : Directory)
      → IsShort encode_meta c
      → IsPlaced hash_content encode_meta file c
      → All (HasSource file c) us
      → IsAmong (upload_of c) us
      → IsStored file (serve_uploads dial_storing us dir) c
  unfolding serve_uploads
  serve_uploads-stores file c [] dir short hc h among = absurd among
  serve_uploads-stores file c (u ∷ us) dir short hc (source, h) (inl here) =
      serve_uploads-keeps file c us (serve_upload dial_storing u dir) h (
        subst (λ v. IsStored file (serve_upload dial_storing v dir) c) here
          (serve_upload-IsStored file c dir short hc))
  serve_uploads-stores file c (u ∷ us) dir short hc (source, h) (inr there) =
      serve_uploads-stores file c us (serve_upload dial_storing u dir) short hc h there

  -- The connections of these chunks, read in any order and with repetitions, none being left out.
  pub serve_uploads-IsStored :
      (file : List ℕ) (cs : List Chunk) (us : List SentConn) (dir : Directory)
      → All (IsShort encode_meta) cs
      → All (IsPlaced hash_content encode_meta file) cs
      → AreApart cs
      → All (λ u. IsAmong u (map upload_of cs)) us
      → All (λ u. IsAmong u us) (map upload_of cs)
      → All (IsStored file (serve_uploads dial_storing us dir)) cs
  serve_uploads-IsStored file cs us dir shorts placed apart from all =
      let Apart : Chunk → Type 0 = λ c. All (λ d. (d ≡ c) ⊎ Spares d c) cs in
      let Ready : Chunk → Type 0 =
        λ c. IsShort encode_meta c × IsPlaced hash_content encode_meta file c in
      let Sent : Chunk → Type 0 = λ c. IsAmong (upload_of c) us in
      let ready =
        All-both (IsShort encode_meta) (IsPlaced hash_content encode_meta file) cs shorts placed in
      let stored : (c : Chunk)
          → Ready c × (Apart c × Sent c)
          → IsStored file (serve_uploads dial_storing us dir) c =
        λ c ((short, hc), (others, sent)).
          serve_uploads-stores file c us dir short hc
            (All-imp (λ u. IsAmong u (map upload_of cs)) (HasSource file c) us
              (IsAmong-map upload_of (IsHarmless file c) cs (
                All-imp (λ d. Ready d × ((d ≡ c) ⊎ Spares d c)) (IsHarmless file c) cs
                  (λ d ((s, h), o). (s, (h, o))) (All-both Ready _ cs ready others)))
              from)
            sent in
      All-imp (λ c. Ready c × (Apart c × Sent c)) _ cs stored
        (All-both Ready (λ c. Apart c × Sent c) cs ready
          (All-both Apart Sent cs apart (All-map upload_of (λ u. IsAmong u us) cs all)))
