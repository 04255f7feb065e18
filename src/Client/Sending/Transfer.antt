-- ===== src/Client/Sending/Transfer.antt =====
-- A file that the client of internal/client sends in chunks to a chunk server and reads back.
use my_dfs.Common.{
  ℕ, ◌+◌, ◌≤◌, ◌≡◌, refl, sym, subst, inl, inr, Option, none, some, List, [], ◌∷◌, map, arith,
  if◌then◌else◌, Bool-cases, ok, ap, ◌∙◌, length, All, All-imp, All-both, IsAmong,
}
use Prim.Native.String.{String}
use text.Mathlib.Text.{◌==◌ as str_eq}
use text.Mathlib.TextEquality.{eq_iff}
use my_dfs.Protocol.{type_read, type_read_response, max_payload_len}
use my_dfs.Protocol.Messages.{IsPayload, length-frame}
use my_dfs.Files.Dict.{Dict, lookup}
use my_dfs.Files.Meta.{FileMetadata, ChunkInfo, ChunkMetaData, Chunk}
use my_dfs.Metaserver.{addressed}
use my_dfs.Storage.{ℤ}
use my_dfs.Storage.Paths.{IsStorable}
use my_dfs.Storage.Tree.{Directory}
use my_dfs.Client.{chunk_files, chunk_infos, build_file_metadata, update_chunk_info}
use my_dfs.Client.Partition.{chunk_files-Cuts}
use my_dfs.Client.Reading.{read_jobs}
use my_dfs.Client.Reading.Pieces.{joined, place}
use my_dfs.Client.Reading.RoundTrip.{dial_server, Holds}
use my_dfs.Client.Reading.Registered.{
  AreDistinct, IsTried, Cuts-HasInfo, read_jobs-build_file_metadata,
}
use my_dfs.Client.Sending.{SentConn, send_jobs, serve_uploads}
use my_dfs.Client.Sending.Placed.{
  IsPlaced, Cuts-IsPlaced, readdressed, All-chunk_infos, All-set_addresses,
  update_chunk_info-addressed,
}
use my_dfs.Client.Sending.Upload.{
  Agree, IsShort, dial_room, dial_storing, AreApart, IsStored, IsPlaced-id, send_jobs-uploads,
  serve_uploads-IsStored,
}

-- The attempt is at an entry of the map of chunks.
abbrev pub IsEntry : Dict ChunkInfo → String × ChunkInfo → Type 0
IsEntry m (id, info) = lookup id m ≡ some info

All-lookup :
    (P : String × ChunkInfo → Type 0) (m : Dict ChunkInfo) (id : String) (info : ChunkInfo)
    → All P m
    → lookup id m ≡ some info
    → P (id, info)
unfolding lookup
All-lookup P [] id info h found = absurd (ground (arith, found))
All-lookup P ((j, other) ∷ m) id info (hx, h) found = elim (Bool-cases (str_eq j id)) [
  | inl same ↦ subst P (ground (arith, found, same, eq_iff j id)) hx
  | inr differs ↦ All-lookup P m id info h (ground (arith, found, differs))
]

-- The directory of the chunk server at an address.
abbrev pub dirs_with : Directory → String → Option Directory
dirs_with dir addr = if str_eq addr ":5001" then some dir else none

module _ (hash_content : List ℕ → String) (encode_meta : ChunkMetaData → List ℕ) where
  abbrev pub chunks_of : List ℕ → List Chunk
  chunks_of file = chunk_files hash_content encode_meta file (length file)

  -- The metadata that SendFile gets back from the metadata server.
  abbrev pub registered : List ℕ → String → FileMetadata
  registered file name = addressed (build_file_metadata (chunks_of file) (length file) name)

  -- The connections that the jobs of SendFile open.
  abbrev pub conns_of : (String → Option ℕ) → List ℕ → String → List SentConn
  conns_of dial file name =
      (send_jobs dial (update_chunk_info (registered file name) (chunks_of file))).0

module _ (hash_hex : List ℕ → List ℕ) (depth : ℤ) (decode_id : List ℕ → Option (List ℕ))
    (hash_content : List ℕ → String) (encode_meta : ChunkMetaData → List ℕ)
    (bytes_of : String → List ℕ) (room : ℕ)
    (agree : Agree hash_hex depth decode_id hash_content encode_meta bytes_of)
    (split : List ℕ → List (List ℕ)) where
  IsStored-Holds :
      (file : List ℕ) (dir : Directory) (c : Chunk) (info : ChunkInfo)
      → 8 + max_payload_len ≤ room
      → IsPlaced hash_content encode_meta file c
      → IsStored hash_hex depth decode_id hash_content encode_meta bytes_of room agree file dir c
      → c.metadata.chunk_info ≡ some info
      → Holds hash_hex depth decode_id bytes_of split
          (dirs_with dir)
          room
          file
          (c.metadata.id, readdressed info)
  IsStored-Holds file dir c info big h there known =
      let same : h.info ≡ info = ground (arith, h.info_eq, known) in
      let id_eq =
        IsPlaced-id hash_hex depth decode_id hash_content encode_meta bytes_of room agree file c
          h in
      let id = bytes_of c.metadata.id in
      let bytes = place file info in
      let payload : IsPayload id = subst IsPayload (sym id_eq) (agree.digest (place file h.info)) in
      let small : length bytes ≤ max_payload_len = ground (arith, same, h.chunk.fits) in
      record {
        fits = ground (arith, same, h.fits);
        dir = dir;
        reached = ground (arith, eq_iff ":5001" ":5001");
        path = agree.path_of id;
        path_eq =
            (subst (λ key. IsStorable depth key (agree.path_of key)) (sym id_eq)
              (agree.path_eq (place file h.info))).0;
        stored = there info known;
        id_payload = payload;
        id_room = omega (arith, length-frame type_read id, payload, big);
        small = small;
        answer_room = omega (arith, length-frame type_read_response bytes, small, big);
      }

  pub entries-Holds :
      (file : List ℕ) (name : String) (dir : Directory)
      → 8 + max_payload_len ≤ room
      → All
          (IsStored hash_hex depth decode_id hash_content encode_meta bytes_of room agree file dir)
          (chunks_of hash_content encode_meta file)
      → All
          (Holds hash_hex depth decode_id bytes_of split (dirs_with dir) room file)
          (registered hash_content encode_meta file name).chunk_info
  unfolding build_file_metadata
  entries-Holds file name dir big stored =
      let cs = chunks_of hash_content encode_meta file in
      let Held : String × ChunkInfo → Type 0 =
        Holds hash_hex depth decode_id bytes_of split (dirs_with dir) room file in
      let Stored : Chunk → Type 0 =
        IsStored hash_hex depth decode_id hash_content encode_meta bytes_of room agree file dir in
      let placed =
        Cuts-IsPlaced hash_content encode_meta [] file 0 cs refl
          (chunk_files-Cuts hash_content encode_meta file) in
      All-set_addresses Held (chunk_infos cs []) (
        All-chunk_infos (λ e. Held (e.0, readdressed e.1)) cs []
          (All-imp (λ c. IsPlaced hash_content encode_meta file c × Stored c) _ cs
            (λ c (h, there) info known. IsStored-Holds file dir c info big h there known)
            (All-both (IsPlaced hash_content encode_meta file) Stored cs placed stored))
          tt)

  -- What SendFile's jobs return, and what is stored once the server has read their connections.
  pub uploads_lem :
      8 + max_payload_len ≤ room
      → (file : List ℕ) (name : String) (dir : Directory) (conns : List SentConn)
      → All (IsShort encode_meta) (chunks_of hash_content encode_meta file)
      → AreDistinct (chunks_of hash_content encode_meta file)
      → AreApart hash_hex depth decode_id hash_content encode_meta bytes_of room agree
          (chunks_of hash_content encode_meta file)
      → let dial = dial_room room in
        let cs = chunks_of hash_content encode_meta file in
        let meta = registered hash_content encode_meta file name in
        let opened = conns_of hash_content encode_meta dial file name in
        All (λ conn. IsAmong conn opened) conns
        → All (λ conn. IsAmong conn conns) opened
        → ((send_jobs dial (update_chunk_info meta cs)).1 ≡ map (λ c. ok tt) cs)
          × All
              (IsStored hash_hex depth decode_id hash_content encode_meta bytes_of room agree file (
                serve_uploads
                  (dial_storing hash_hex depth decode_id hash_content encode_meta bytes_of room
                    agree)
                  conns
                  dir))
              cs
  uploads_lem big file name dir conns shorts distinct apart from all =
      let cs = chunks_of hash_content encode_meta file in
      let cuts = chunk_files-Cuts hash_content encode_meta file in
      let placed = Cuts-IsPlaced hash_content encode_meta [] file 0 cs refl cuts in
      let infos = Cuts-HasInfo hash_content encode_meta file 0 cs cuts in
      let sent =
        ap (send_jobs (dial_room room))
          (update_chunk_info-addressed cs (length file) name infos distinct)
        ∙ send_jobs-uploads hash_hex depth decode_id hash_content encode_meta bytes_of room agree
            file cs big shorts placed in
      let opened = ap (λ r. r.0) sent in
      (
        ap (λ r. r.1) sent,
        serve_uploads-IsStored hash_hex depth decode_id hash_content encode_meta bytes_of room agree
            file cs conns dir shorts placed apart
            (subst (λ us. All (λ conn. IsAmong conn us) conns) opened from)
            (subst (λ us. All (λ conn. IsAmong conn conns) us) opened all),
      )

  -- Take a file whose chunks have different ids, paths and temporary paths apart from each other,
  -- and encoded metadata of less than a MiB, where client and server agree on the hash, gob reads
  -- back ids, hashes have paths and no slash, io.CopyN copies all bytes, and connections have room
  -- for a maximal message. Then the jobs of sendChunks for the chunks, with the infos of the
  -- registered metadata, all succeed. If the chunk server afterwards reads the connections that
  -- they opened, one after the other, in any order and with repetitions, none being left out, and
  -- then attempts at the entries of the metadata, again in any order and with repetitions, none
  -- being left out, read the chunks from the server, these all succeed as well and leave just the
  -- file.
  pub read_jobs-send_jobs :
      ((bytes : List ℕ) → joined (split bytes) ≡ bytes)
      → 8 + max_payload_len ≤ room
      → (file : List ℕ) (name : String) (dir : Directory) (conns : List SentConn)
        (jobs : List (String × ChunkInfo))
      → All (IsShort encode_meta) (chunks_of hash_content encode_meta file)
      → AreDistinct (chunks_of hash_content encode_meta file)
      → AreApart hash_hex depth decode_id hash_content encode_meta bytes_of room agree
          (chunks_of hash_content encode_meta file)
      → All (IsEntry (registered hash_content encode_meta file name).chunk_info) jobs
      → All (IsTried jobs) (registered hash_content encode_meta file name).chunk_info
      → let dial = dial_room room in
        let cs = chunks_of hash_content encode_meta file in
        let meta = registered hash_content encode_meta file name in
        let opened = conns_of hash_content encode_meta dial file name in
        let dir' =
          serve_uploads
            (dial_storing hash_hex depth decode_id hash_content encode_meta bytes_of room agree)
            conns
            dir in
        All (λ conn. IsAmong conn opened) conns
        → All (λ conn. IsAmong conn conns) opened
        → ((send_jobs dial (update_chunk_info meta cs)).1 ≡ map (λ c. ok tt) cs)
          × (read_jobs bytes_of split
                (dial_server hash_hex depth decode_id bytes_of split (dirs_with dir') room)
                jobs
                []
              ≡ (file, map (λ job. ok tt) jobs))
  read_jobs-send_jobs whole big file name dir conns jobs shorts distinct apart entries tried from
        all =
      let dir' =
        serve_uploads
          (dial_storing hash_hex depth decode_id hash_content encode_meta bytes_of room agree) conns
          dir in
      let (sent, stored) = uploads_lem big file name dir conns shorts distinct apart from all in
      let Held : String × ChunkInfo → Type 0 =
        Holds hash_hex depth decode_id bytes_of split (dirs_with dir') room file in
      let held =
        All-imp (IsEntry (registered hash_content encode_meta file name).chunk_info) Held jobs
          (λ (id, info) found.
            All-lookup Held (registered hash_content encode_meta file name).chunk_info id info
              (entries-Holds file name dir' big stored) found)
          entries in
      (
        sent,
        read_jobs-build_file_metadata hash_content encode_meta hash_hex depth decode_id bytes_of
            split (dirs_with dir') room whole file name jobs distinct tried held,
      )
