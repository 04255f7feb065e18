-- ===== src/Client/Sending.antt =====
-- The upload of chunks in internal/client/write_file.go. A dial gives the number of
-- bytes that the connection takes, or fails. The connection is closed after the message, and a server
-- reads it at some later time: a server is a Peer, over the state of all the servers.
pub mod Placed
pub mod Upload
pub mod Transfer
use my_dfs.Common.{
  ℕ, zero, suc, ◌+◌, ◌-◌, ◌*◌, ◌/◌, ◌%◌, ◌^◌, ◌≤◌, ◌<◌, min, max, ◌≡◌, refl, sym, ap, ◌∙◌, subst,
  ◌≡⟨◌⟩◌, ◌∎, ◌≢◌, ◌↔◌, ◌⊎◌, inl, inr, Bool, true, false, ◌&&◌, ◌||◌, not, Option, none, some, List,
  [], ◌∷◌, ◌++◌, map, append-nil, append_assoc, arith, ltb, leb, ◌==◌, if◌then◌else◌, ltb→lt,
  lt→ltb, le→ltb, leb→le, le→leb, lt→leb, ==_iff, ==_refl, tests, Bool-cases, Option-cases, Result,
  ok, err, ◌>>=◌, ◌>>◌, or_fail, Result-cases, Codec, length, get_elem?, take, drop, replicate, All,
  length-append, take-append-drop, length-take, length-drop, take_all, drop_all, take-append,
  drop-append, All-append, nil_of_length, occurrences, occurrences-append, get_elem?-append,
  get_elem?-take, get_elem?-drop, get_elem?-some, get_elem?-here, get_elem?-ext, All-imp, All-both,
}
use Prim.Native.String.{String}
use my_dfs.Protocol.{Writer, Message, ProtocolError, encode}
use my_dfs.Files.Meta.{ChunkInfo, ChunkMetaData, Chunk}
use my_dfs.Client.{chunk_message}
use my_dfs.Client.Requests.{Peer}

-- `panicked`: a chunk without an info, or `defer conn.Close()` on the nil connection of a failed dial.
pub data SendError : Type 0 where
  panicked : SendError
  protocol_failed : ProtocolError → SendError

-- A connection that sendChunk opened and closed again: its address, and what was written to it. Nobody
-- waits for an answer, so the server may read the bytes at any later time.
pub record SentConn : Type 0 where
  pub address : String
  pub bytes : List ℕ

-- sendChunk once the connection is there, which takes `room` bytes.
unfoldable pub send_message : ℕ → Message → List ℕ × Result SendError (Unit {0})
send_message room m =
    let (w, sent) = encode (record { written = []; room = room }) m in
    let result : Result SendError (Unit {0}) = elim sent [
      | ok _ ↦ ok tt
      | err e ↦ err (protocol_failed e)
    ] in
    (w.written, result)

module _ (dial : String → Option ℕ) where
  -- sendChunk
  unfoldable pub send_chunk : Chunk → List SentConn × Result SendError (Unit {0})
  send_chunk c = elim c.metadata.chunk_info [
    | none ↦ ([], err panicked)
    | some info ↦ elim (dial info.addr) [
      | none ↦ ([], err panicked)
      | some room ↦ elim (chunk_message c) [
        | none ↦ ([], err panicked)
        | some m ↦
            let (bytes, result) = send_message room m in
            (record { address = info.addr; bytes = bytes } ∷ [], result)
      ]
    ]
  ]

  -- The jobs of sendChunks, each attempted once.
  unfoldable pub send_jobs : List Chunk → List SentConn × List (Result SendError (Unit {0}))
  send_jobs [] = ([], [])
  send_jobs (c ∷ cs) =
      let (opened, outcome) = send_chunk c in
      let (rest, outcomes) = send_jobs cs in (opened ++ rest, outcome ∷ outcomes)

-- The servers, which read the connections one after the other.
module _ {S : Type 0} (servers : String → Option (Peer S)) where
  unfoldable pub serve_upload : SentConn → S → S
  serve_upload u s = elim (servers u.address) [ none ↦ s | some peer ↦ (peer.serve u.bytes s).0 ]

  unfoldable pub serve_uploads : List SentConn → S → S
  serve_uploads [] s = s
  serve_uploads (u ∷ us) s = serve_uploads us (serve_upload u s)
