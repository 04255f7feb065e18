-- ===== src/Chunkserver.antt =====
-- internal/chunkserver/handler.go over the file storage. A connection is as in Metaserver: the bytes
-- that are still to be read and a writer for the answers. The gob decoder is the parameter `decode_id`,
-- which reads the id of a chunk's metadata and takes the whole section that it is given.
pub mod Chunks
pub mod Serving
use my_dfs.Common.{
  ℕ, zero, suc, ◌+◌, ◌-◌, ◌*◌, ◌/◌, ◌%◌, ◌^◌, ◌≤◌, ◌<◌, min, max, ◌≡◌, refl, sym, ap, ◌∙◌, subst,
  ◌≡⟨◌⟩◌, ◌∎, ◌≢◌, ◌↔◌, ◌⊎◌, inl, inr, Bool, true, false, ◌&&◌, ◌||◌, not, Option, none, some, List,
  [], ◌∷◌, ◌++◌, map, append-nil, append_assoc, arith, ltb, leb, ◌==◌, if◌then◌else◌, ltb→lt,
  lt→ltb, le→ltb, leb→le, le→leb, lt→leb, ==_iff, ==_refl, tests, Bool-cases, Option-cases, Result,
  ok, err, ◌>>=◌, ◌>>◌, or_fail, Result-cases, Codec, length, get_elem?, take, drop, replicate, All,
  length-append, take-append-drop, length-take, length-drop, take_all, drop_all, take-append,
  drop-append, All-append, nil_of_length,
}
use my_dfs.Protocol.{
  Message, ProtocolError, eof, encode, decode, new_message, read_payload, type_ping, type_read,
  type_write, type_read_response, type_ping_response,
}
use my_dfs.Wal.Entry.{read_length}
use my_dfs.Metaserver.{Session}
use my_dfs.Storage.{
  ℤ, FileMetaData, StorageError, get_file_path, write_file, read_file, rename_file,
}
use my_dfs.Storage.Tree.{Directory, same_path}

-- `out_of_fuel` is no Go value: the loop of Handle is modelled on fuel.
pub data ChunkError : Type 0 where
  protocol_failed : ProtocolError → ChunkError
  storage_failed : StorageError → ChunkError
  length_not_read not_decoded check_sum_not_matching out_of_fuel : ChunkError

abbrev pub Served : Type 0
Served = Session Directory × Result ChunkError (Unit {0})

-- encode
unfoldable pub answer : ℕ → List ℕ → Session Directory → Served
answer kind bytes s =
    let (writer, outcome) =
      encode s.writer (new_message kind (some bytes) (length bytes % 2 ^ 32)) in
    let result : Result ChunkError (Unit {0}) = elim outcome [
      | ok _ ↦ ok tt
      | err e ↦ err (protocol_failed e)
    ] in
    (record s { writer = writer }, result)

-- handlePing
unfoldable pub handle_ping : Message → Session Directory → Served
handle_ping m s =
    let (bytes, conn) = read_payload m s.conn in
    answer type_ping_response bytes (record s { conn = conn })

-- renameFile
unfoldable pub finish_write : FileMetaData → Session Directory → Served
finish_write meta s =
    let (dir, outcome) = rename_file (get_file_path meta.full_path) s.store in
    let result : Result ChunkError (Unit {0}) = elim outcome [
      | ok _ ↦ ok tt
      | err e ↦ err (storage_failed e)
    ] in
    (record s { store = dir }, result)

module _ (hash_hex : List ℕ → List ℕ) (depth : ℤ) (decode_id : List ℕ → Option (List ℕ)) where
  -- handleWrite from writeChunk on, with the rest of the payload.
  unfoldable pub store_chunk : List ℕ → List ℕ → Session Directory → Served
  store_chunk id content s =
      let (dir, written) = write_file hash_hex depth id content s.store in
      let s' = record s { store = dir } in
      elim written [
        | err e ↦ (s', err (storage_failed e))
        | ok meta ↦
            if same_path id meta.content_hash
            then finish_write meta s'
            else (s', err check_sum_not_matching)
      ]

  -- handleWrite on the bytes of its payload.
  unfoldable pub write_payload : List ℕ → Session Directory → Served
  write_payload bytes s = elim (read_length bytes) [
    | err e ↦ (s, err length_not_read)
    | ok (meta_len, rest) ↦ elim (decode_id (take meta_len rest)) [
      | none ↦ (s, err not_decoded)
      | some id ↦ store_chunk id (drop meta_len rest) s
    ]
  ]

  -- handleWrite
  unfoldable pub handle_write : Message → Session Directory → Served
  handle_write m s =
      let (bytes, conn) = read_payload m s.conn in write_payload bytes (record s { conn = conn })

  -- handleRead
  unfoldable pub handle_read : Message → Session Directory → Served
  handle_read m s =
      let (key, conn) = read_payload m s.conn in
      let s' = record s { conn = conn } in
      elim (read_file hash_hex depth key s.store) [
        | err e ↦ (s', err (storage_failed e))
        | ok content ↦ answer type_read_response content s'
      ]

  -- The switch of Handle: the payload of a message of another type stays on the connection.
  unfoldable pub dispatch : Message → Session Directory → Served
  dispatch m s =
      if m.kind == type_ping
      then handle_ping m s
      else if m.kind == type_read
      then handle_read m s
      else if m.kind == type_write
      then handle_write m s
      else (s, ok tt)

  -- The body of Handle's loop for a message that was decoded; the flag tells whether the loop goes on.
  unfoldable pub handle_message :
      Message → Session Directory → Session Directory × Result ChunkError Bool
  handle_message m s =
      let (s', outcome) = dispatch m s in
      let next : Result ChunkError Bool = elim outcome [ ok _ ↦ ok true | err e ↦ err e ] in
      if m.len == 0 then (s, ok false) else (s', next)

  -- Handle, on fuel: each round reads a header.
  unfoldable pub handle_loop : ℕ → Session Directory → Served
  handle_loop zero s = (s, err out_of_fuel)
  handle_loop (suc fuel) s = elim (decode s.conn) [
    | err eof ↦ (s, ok tt)
    | ok (m, conn) ↦
        let (s', outcome) = handle_message m (record s { conn = conn }) in
        let on : Served = elim outcome [
          | ok true ↦ handle_loop fuel s'
          | ok false ↦ (s', ok tt)
          | err e ↦ (s', err e)
        ] in
        on
    | err e ↦ (s, err (protocol_failed e))
  ]

  -- Handle
  unfoldable pub handle : Session Directory → Served
  handle s = handle_loop (suc (length s.conn)) s
