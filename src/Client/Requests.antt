-- ===== src/Client/Requests.antt =====
-- The client's requests to the metadata server in internal/client/client.go. A peer is what it makes of
-- the bytes of a connection, of which `room` bytes can be sent. The Booleans are the outcomes of a dial
-- and of a health check in Get. The connection of a request is not put back.
pub mod Registered
use my_dfs.Common.{
  ℕ, zero, suc, ◌+◌, ◌-◌, ◌*◌, ◌/◌, ◌%◌, ◌^◌, ◌≤◌, ◌<◌, min, max, ◌≡◌, refl, sym, ap, ◌∙◌, subst,
  ◌≡⟨◌⟩◌, ◌∎, ◌≢◌, ◌↔◌, ◌⊎◌, inl, inr, Bool, true, false, ◌&&◌, ◌||◌, not, Option, none, some, List,
  [], ◌∷◌, ◌++◌, map, append-nil, append_assoc, arith, ltb, leb, ◌==◌, if◌then◌else◌, ltb→lt,
  lt→ltb, le→ltb, leb→le, le→leb, lt→leb, ==_iff, ==_refl, tests, Bool-cases, Option-cases, Result,
  ok, err, ◌>>=◌, ◌>>◌, or_fail, Result-cases, Codec, length, get_elem?, take, drop, replicate, All,
  length-append, take-append-drop, length-take, length-drop, take_all, drop_all, take-append,
  drop-append, All-append, nil_of_length, occurrences, occurrences-append, get_elem?-append,
  get_elem?-take, get_elem?-drop, get_elem?-some, get_elem?-here, get_elem?-ext, All-imp,
}
use my_dfs.Protocol.{
  Writer, Message, ProtocolError, new_message, type_read_file, type_add_file, encode, decode,
  read_payload,
}
use my_dfs.Files.Meta.{FileMetadata}
use my_dfs.Transport.Pool.{Pool, PoolError, get}

pub record Peer (S : Type 0) : Type 0 where
  pub room : ℕ
  pub serve : List ℕ → S → S × List ℕ

pub data RequestError : Type 0 where
  pool_failed : PoolError → RequestError
  protocol_failed : ProtocolError → RequestError
  not_marshalled not_unmarshalled : RequestError

module _ {S : Type 0} (peer : Peer S) where
  -- The part of requestMetaServer that has a connection. It is not closed after an error, so a peer
  -- that has got a part of a frame waits for the rest.
  unfoldable pub exchange : Message → S → S × Result RequestError (List ℕ)
  exchange message s =
      let (w, sent) = encode (record { written = []; room = peer.room }) message in
      elim sent [
        | err e ↦ (s, err (protocol_failed e))
        | ok _ ↦
            let (s', bytes) = peer.serve w.written s in
            elim (decode bytes) [
              | err e ↦ (s', err (protocol_failed e))
              | ok (m, conn) ↦ (s', ok (read_payload m conn).0)
            ]
      ]

  -- requestMetaServer
  unfoldable pub request_meta_server :
      Bool → Bool → Message → Pool × S → (Pool × S) × Result RequestError (List ℕ)
  request_meta_server dialed healthy message (p, s) =
      let (p', got) = get dialed healthy p in
      elim got [
        | err e ↦ ((p', s), err (pool_failed e))
        | ok _ ↦ let (s', answer) = exchange message s in ((p', s'), answer)
      ]

  module _ (codec : Codec FileMetadata) where
    unfoldable pub unmarshal_answer :
        Result RequestError (List ℕ) → Result RequestError FileMetadata
    unmarshal_answer answer = do bytes ← answer; or_fail not_unmarshalled (codec.unmarshal bytes)

    -- fetchFileMetadata, with the bytes of the name.
    unfoldable pub fetch_file_metadata :
        Bool → Bool → List ℕ → Pool × S → (Pool × S) × Result RequestError FileMetadata
    fetch_file_metadata dialed healthy name s =
        let message = new_message type_read_file (some name) (length name % 2 ^ 32) in
        let (s', answer) = request_meta_server dialed healthy message s in
        (s', unmarshal_answer answer)

    -- registerFileMetadata
    unfoldable pub register_file_metadata :
        Bool → Bool → FileMetadata → Pool × S → (Pool × S) × Result RequestError FileMetadata
    register_file_metadata dialed healthy meta s = elim (codec.marshal meta) [
      | none ↦ (s, err not_marshalled)
      | some bytes ↦
          let message = new_message type_add_file (some bytes) (length bytes % 2 ^ 32) in
          let (s', answer) = request_meta_server dialed healthy message s in
          (s', unmarshal_answer answer)
    ]
