-- ===== src/Metaserver.antt =====
-- The request loop of internal/metaserver/handler.go. A connection is the bytes that the client sends
-- and then closes, and a writer for the answers. A file name in a request is bytes; `string_of` stands
-- for its conversion to a text, and `nil_bytes` for what proto.Marshal makes of a nil message.
pub mod Serving
use my_dfs.Common.{
  ℕ, zero, suc, ◌+◌, ◌-◌, ◌*◌, ◌/◌, ◌%◌, ◌^◌, ◌≤◌, ◌<◌, min, max, ◌≡◌, refl, sym, ap, ◌∙◌, subst,
  ◌≡⟨◌⟩◌, ◌∎, ◌≢◌, ◌↔◌, ◌⊎◌, inl, inr, Bool, true, false, ◌&&◌, ◌||◌, not, Option, none, some, List,
  [], ◌∷◌, ◌++◌, map, append-nil, append_assoc, arith, ltb, leb, ◌==◌, if◌then◌else◌, ltb→lt,
  lt→ltb, le→ltb, leb→le, le→leb, lt→leb, ==_iff, ==_refl, tests, Bool-cases, Option-cases, Result,
  ok, err, ◌>>=◌, ◌>>◌, or_fail, Result-cases, Codec, length, get_elem?, take, drop, replicate, All,
  length-append, take-append-drop, length-take, length-drop, take_all, drop_all, take-append,
  drop-append, All-append, nil_of_length,
}
use Prim.Native.String.{String}
use my_dfs.Protocol.{
  Message, Writer, ProtocolError, eof, encode, decode, new_message, read_payload, type_ping,
  type_add_file, type_read_file, type_delete_file, type_read_file_response, type_ping_response,
}
use my_dfs.Files.Dict.{Dict}
use my_dfs.Files.Meta.{FileMetadata, ChunkInfo}
use my_dfs.Files.Store.{
  FileStore, Journal, StoreError, add_file_metadata, lookup_file_metadata, delete_file_metadata,
}

-- `out_of_fuel` is no Go value: the loop of Handle is modelled on fuel.
pub data HandlerError : Type 0 where
  protocol_failed : ProtocolError → HandlerError
  store_failed : StoreError → HandlerError
  not_unmarshalled not_marshalled out_of_fuel : HandlerError

-- The MetaStore interface.
pub record MetaStore (S : Type 0) : Type 0 where
  pub add : FileMetadata → Bool → S → S × Result StoreError (Unit {0})
  pub find : String → S → Option FileMetadata
  pub delete : String → S → S × Result StoreError (Unit {0})

abbrev pub file_store : {L : Type 0} → Journal L → Codec FileMetadata → MetaStore (FileStore L)
file_store journal codec = record {
  add = add_file_metadata journal codec;
  find = lookup_file_metadata journal codec;
  delete = delete_file_metadata journal codec;
}

-- One connection of the server: what is still to be read, the answers, and the store.
pub record Session (S : Type 0) : Type 0 where
  pub conn : List ℕ
  pub writer : Writer
  pub store : S

-- The loop of handleWrite over the chunks.
unfoldable pub set_addresses : Dict ChunkInfo → Dict ChunkInfo
set_addresses [] = []
set_addresses ((id, info) ∷ m) = (id, record info { addr = ":5001" }) ∷ set_addresses m

abbrev pub addressed : FileMetadata → FileMetadata
addressed meta = record meta { chunk_info = set_addresses meta.chunk_info }

module _ {S : Type 0} where
  -- encode: the answer goes to the connection.
  unfoldable pub answer : ℕ → List ℕ → Session S → Session S × Result HandlerError (Unit {0})
  answer kind bytes s =
      let (writer, outcome) =
        encode s.writer (new_message kind (some bytes) (length bytes % 2 ^ 32)) in
      let result : Result HandlerError (Unit {0}) = elim outcome [
        | ok _ ↦ ok tt
        | err e ↦ err (protocol_failed e)
      ] in
      (record s { writer = writer }, result)

  -- handlePing
  unfoldable pub handle_ping : Message → Session S → Session S × Result HandlerError (Unit {0})
  handle_ping m s =
      let (bytes, conn) = read_payload m s.conn in
      answer type_ping_response bytes (record s { conn = conn })

module _ {S : Type 0} (metastore : MetaStore S) (codec : Codec FileMetadata)
    (string_of : List ℕ → String) (nil_bytes : List ℕ) where
  open metastore use {add, find, delete}
  open codec use {marshal, unmarshal}

  -- proto.Marshal of the *FileMetadata that LookupFileMetadata answers.
  unfoldable pub marshal_found : Option FileMetadata → Option (List ℕ)
  marshal_found none = some nil_bytes
  marshal_found (some meta) = marshal meta

  -- handleRead
  unfoldable pub handle_read : Message → Session S → Session S × Result HandlerError (Unit {0})
  handle_read m s =
      let (name, conn) = read_payload m s.conn in
      let s' = record s { conn = conn } in
      elim (marshal_found (find (string_of name) s.store)) [
        | none ↦ (s', err not_marshalled)
        | some bytes ↦ answer type_read_file_response bytes s'
      ]

  -- handleWrite after AddFileMetadata.
  unfoldable pub confirm :
      FileMetadata
      → Result StoreError (Unit {0})
      → Session S
      → Session S × Result HandlerError (Unit {0})
  confirm meta (err e) s = (s, err (store_failed e))
  confirm meta (ok _) s = elim (marshal meta) [
    | none ↦ (s, err not_marshalled)
    | some bytes ↦ answer type_read_file_response bytes s
  ]

  -- handleWrite
  unfoldable pub handle_write : Message → Session S → Session S × Result HandlerError (Unit {0})
  handle_write m s =
      let (bytes, conn) = read_payload m s.conn in
      let s' = record s { conn = conn } in
      elim (unmarshal bytes) [
        | none ↦ (s', err not_unmarshalled)
        | some meta ↦
            let (store, outcome) = add (addressed meta) true s.store in
            confirm (addressed meta) outcome (record s' { store = store })
      ]

  -- handleDelete: the store's error is dropped, and nothing is answered.
  unfoldable pub handle_delete : Message → Session S → Session S × Result HandlerError (Unit {0})
  handle_delete m s =
      let (name, conn) = read_payload m s.conn in
      (record s { conn = conn; store = (delete (string_of name) s.store).0 }, ok tt)

  -- The switch of Handle: the payload of a message of another type stays on the connection.
  unfoldable pub dispatch : Message → Session S → Session S × Result HandlerError (Unit {0})
  dispatch m s =
      if m.kind == type_ping
      then handle_ping m s
      else if m.kind == type_add_file
      then handle_write m s
      else if m.kind == type_read_file
      then handle_read m s
      else if m.kind == type_delete_file
      then handle_delete m s
      else (s, ok tt)

  -- The body of Handle's loop for a message that was decoded; the flag tells whether the loop goes on.
  unfoldable pub handle_message : Message → Session S → Session S × Result HandlerError Bool
  handle_message m s =
      let (s', outcome) = dispatch m s in
      let next : Result HandlerError Bool = elim outcome [ ok _ ↦ ok true | err e ↦ err e ] in
      if m.len == 0 then (s, ok false) else (s', next)

  -- Handle, on fuel: each round reads a header.
  unfoldable pub handle_loop : ℕ → Session S → Session S × Result HandlerError (Unit {0})
  handle_loop zero s = (s, err out_of_fuel)
  handle_loop (suc fuel) s = elim (decode s.conn) [
    | err eof ↦ (s, ok tt)
    | ok (m, conn) ↦
        let (s', outcome) = handle_message m (record s { conn = conn }) in
        let on : Session S × Result HandlerError (Unit {0}) = elim outcome [
          | ok true ↦ handle_loop fuel s'
          | ok false ↦ (s', ok tt)
          | err e ↦ (s', err e)
        ] in
        on
    | err e ↦ (s, err (protocol_failed e))
  ]

  -- Handle
  unfoldable pub handle : Session S → Session S × Result HandlerError (Unit {0})
  handle s = handle_loop (suc (length s.conn)) s
