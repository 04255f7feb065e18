-- ===== src/Client/Requests/Registered.antt =====
-- Files that the client of internal/client/client.go registers with a metadata server of
-- internal/metaserver over a file store, and fetches again.
use my_dfs.Common.{
  ℕ, ◌+◌, ◌%◌, ◌^◌, ◌≤◌, ◌≡◌, refl, ap, ◌∙◌, Bool, true, false, some, List, [], ◌++◌, append-nil,
  arith, ok, Codec, length, length-append,
}
use Prim.Native.String.{String}
use my_dfs.Protocol.{
  Writer, max_payload_len, new_message, type_add_file, type_read_file, type_read_file_response,
}
use my_dfs.Protocol.Messages.{
  frame, IsPayload, length-frame, decode-request, read_payload-message, encode-message,
}
use text.Mathlib.TextEquality.{eq_iff}
use my_dfs.Files.Dict.{insert, lookup, lookup-insert}
use my_dfs.Files.Meta.{FileMetadata}
use my_dfs.Files.Store.{Journal, FileStore, add_file_metadata, add_marshalled, lookup_file_metadata}
use my_dfs.Metaserver.{MetaStore, file_store, addressed, marshal_found, handle}
use my_dfs.Metaserver.Serving.{Serves, session, found, added, more, served, handle-ServesAll}
use my_dfs.Transport.Pool.{Pool, get}
use my_dfs.Client.Requests.{
  Peer, exchange, request_meta_server, unmarshal_answer, fetch_file_metadata,
  register_file_metadata,
}

-- A metadata server on a connection with this room for its answers.
abbrev pub meta_server :
    {S : Type 0} → MetaStore S → Codec FileMetadata → (List ℕ → String) → List ℕ → ℕ → Peer S
meta_server metastore codec string_of nil_bytes room = record {
  room = room;
  serve = λ bytes s.
      let r =
        handle metastore codec string_of nil_bytes
          (session bytes (record { written = []; room = room }) s) in
      (r.0.store, r.0.writer.written);
}

module _ {S : Type 0} (metastore : MetaStore S) (codec : Codec FileMetadata)
    (string_of : List ℕ → String) (nil_bytes : List ℕ) (room : ℕ) where
  abbrev server : Peer S
  server = meta_server metastore codec string_of nil_bytes room

  exchange-Serves :
      (kind kind' : ℕ) (bytes reply : List ℕ) (s s' : S)
      → IsPayload bytes
      → length reply ≤ max_payload_len
      → length (frame kind bytes) ≤ room
      → length (frame kind' reply) ≤ room
      → Serves metastore codec string_of nil_bytes s (frame kind bytes) s' (frame kind' reply)
      → exchange server (new_message kind (some bytes) (length bytes % 2 ^ 32)) s ≡ (s', ok reply)
  unfolding exchange
  exchange-Serves kind kind' bytes reply s s' payload small sent_room reply_room h =
      let ready : Writer = record { written = []; room = room } in
      let run =
        handle-ServesAll metastore codec string_of nil_bytes ready s s' (frame kind bytes ++ [])
          (frame kind' reply ++ []) (more h (served s'))
          (omega (arith, reply_room, length-append (frame kind' reply) [])) in
      ground (
        arith,
        encode-message kind bytes ready payload.1 sent_room,
        run,
        append-nil (frame kind bytes),
        decode-request kind' reply [] small,
        read_payload-message kind' reply [],
      )

  -- A payload that fits into a message and onto a connection.
  abbrev pub Fits : List ℕ → Type 0
  Fits bytes = IsPayload bytes × (8 + length bytes ≤ room)

  register_file_metadata_lem :
      (dialed healthy : Bool) (p p' : Pool) (c : ℕ) (s s' : S) (meta : FileMetadata)
      (bytes reply : List ℕ)
      → get dialed healthy p ≡ (p', ok c)
      → codec.marshal meta ≡ some bytes
      → codec.marshal (addressed meta) ≡ some reply
      → Fits bytes
      → Fits reply
      → metastore.add (addressed meta) true s ≡ (s', ok tt)
      → register_file_metadata server codec dialed healthy meta (p, s)
        ≡ ((p', s'), ok (addressed meta))
  unfolding register_file_metadata request_meta_server unmarshal_answer
  register_file_metadata_lem dialed healthy p p' c s s' meta bytes reply got sent answered
        (payload, room_sent) (payload', room_reply) stored =
      let answer =
        exchange-Serves type_add_file type_read_file_response bytes reply s s' payload payload'.1
          (omega (arith, length-frame type_add_file bytes))
          (omega (arith, length-frame type_read_file_response reply))
          (added s s' bytes reply meta payload (codec.unmarshal-marshal meta bytes sent) stored
            answered payload'.1) in
      ground (arith, got, sent, answer, codec.unmarshal-marshal (addressed meta) reply answered)

  fetch_file_metadata_lem :
      (dialed healthy : Bool) (p p' : Pool) (c : ℕ) (s : S) (meta : FileMetadata)
      (name reply : List ℕ)
      → get dialed healthy p ≡ (p', ok c)
      → metastore.find (string_of name) s ≡ some meta
      → codec.marshal meta ≡ some reply
      → Fits name
      → Fits reply
      → fetch_file_metadata server codec dialed healthy name (p, s) ≡ ((p', s), ok meta)
  unfolding fetch_file_metadata request_meta_server unmarshal_answer marshal_found
  fetch_file_metadata_lem dialed healthy p p' c s meta name reply got known answered
        (payload, room_sent) (payload', room_reply) =
      let answer =
        exchange-Serves type_read_file type_read_file_response name reply s s payload payload'.1
          (omega (arith, length-frame type_read_file name))
          (omega (arith, length-frame type_read_file_response reply))
          (found s name reply payload (ground (arith, known, answered)) payload'.1) in
      ground (arith, got, answer, codec.unmarshal-marshal meta reply answered)

module _ {L : Type 0} (journal : Journal L) (codec : Codec FileMetadata)
    (string_of : List ℕ → String) (nil_bytes : List ℕ) (room : ℕ) where
  abbrev pub file_server : Peer (FileStore L)
  file_server = meta_server (file_store journal codec) codec string_of nil_bytes room

  -- Take a file whose metadata, with and without the addresses that the metadata server sets, and
  -- whose name fit into a message and onto the connections, where Get yields a connection each time
  -- and the log takes the record. Then registerFileMetadata answers the metadata with the
  -- addresses, the store holds them under the name, the log has the record, and fetchFileMetadata
  -- of the name answers the same and changes no store.
  pub fetch-register :
      (d h d' h' : Bool) (p p' p'' : Pool) (c c' : ℕ) (s : FileStore L) (wal : L)
      (meta : FileMetadata) (name bytes reply : List ℕ)
      → get d h p ≡ (p', ok c)
      → get d' h' p' ≡ (p'', ok c')
      → string_of name ≡ meta.name
      → codec.marshal meta ≡ some bytes
      → codec.marshal (addressed meta) ≡ some reply
      → Fits (file_store journal codec) codec string_of nil_bytes room name
      → Fits (file_store journal codec) codec string_of nil_bytes room bytes
      → Fits (file_store journal codec) codec string_of nil_bytes room reply
      → journal.append s.wal reply false ≡ (wal, true)
      → let (t, registered) = register_file_metadata file_server codec d h meta (p, s) in
        (registered ≡ ok (addressed meta))
        × (t ≡ (p', record { files = insert meta.name (addressed meta) s.files; wal = wal }))
        × (fetch_file_metadata file_server codec d' h' name t ≡ ((p'', t.1), ok (addressed meta)))
  unfolding add_file_metadata add_marshalled lookup_file_metadata
  fetch-register d h d' h' p p' p'' c c' s wal meta name bytes reply got got' named sent answered
        fits_name fits_bytes fits_reply appended =
      let t : FileStore L = record {
        files = insert meta.name (addressed meta) s.files;
        wal = wal;
      } in
      let first =
        register_file_metadata_lem (file_store journal codec) codec string_of nil_bytes room d h p
          p' c s t meta bytes reply got sent answered fits_bytes fits_reply
          (ground (arith, answered, appended)) in
      let second =
        fetch_file_metadata_lem (file_store journal codec) codec string_of nil_bytes room d' h' p'
          p'' c' t (addressed meta) name reply got'
          (ap (λ key. lookup key t.files) named
            ∙ lookup-insert meta.name meta.name (addressed meta) s.files
            ∙ ground (arith, eq_iff meta.name meta.name))
          answered fits_name fits_reply in
      rw first (refl, refl, second)
