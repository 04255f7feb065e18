-- ===== src/Metaserver/Serving.antt =====
-- The answers of the metadata server to a client that sends requests one after the other.
use my_dfs.Common.{
  ℕ, zero, suc, ◌≤◌, ◌<◌, ◌≡◌, ◌∙◌, true, some, List, [], ◌++◌, append-nil, append_assoc, arith, ok,
  Codec, length, length-append,
}
use Prim.Native.String.{String}
use my_dfs.Protocol.{
  Writer, max_payload_len, decode, type_ping, type_add_file, type_read_file, type_delete_file,
  type_read_file_response, type_ping_response,
}
use my_dfs.Protocol.Messages.{
  message, frame, IsPayload, wrote, length-frame, decode-request, read_payload-message,
  encode-message,
}
use my_dfs.Files.Meta.{FileMetadata}
use my_dfs.Metaserver.{
  MetaStore, Session, addressed, answer, handle_ping, marshal_found, handle_read, confirm,
  handle_write, handle_delete, dispatch, handle_message, handle_loop, handle,
}

abbrev pub session : {S : Type 0} → List ℕ → Writer → S → Session S
session conn w s = record { conn = conn; writer = w; store = s }

answer_lem :
    {S : Type 0} (kind : ℕ) (bytes conn : List ℕ) (w : Writer) (s : S)
    → length bytes ≤ max_payload_len
    → length (frame kind bytes) ≤ w.room
    → answer kind bytes (session conn w s) ≡ (session conn (wrote w (frame kind bytes)) s, ok tt)
unfolding answer
answer_lem kind bytes conn w s small room = ground (arith, encode-message kind bytes w small room)

module _ {S : Type 0} (metastore : MetaStore S) (codec : Codec FileMetadata)
    (string_of : List ℕ → String) (nil_bytes : List ℕ) where
  -- A request's bytes, the store before and after it, and the answer's bytes.
  pub data Serves : S → List ℕ → S → List ℕ → Type 0 where
    pinged :
        (s : S) (bytes : List ℕ)
        → IsPayload bytes
        → Serves s (frame type_ping bytes) s (frame type_ping_response bytes)
    found :
        (s : S) (name bytes : List ℕ)
        → IsPayload name
        → marshal_found metastore codec string_of nil_bytes (metastore.find (string_of name) s)
          ≡ some bytes
        → length bytes ≤ max_payload_len
        → Serves s (frame type_read_file name) s (frame type_read_file_response bytes)
    added :
        (s s' : S) (bytes reply : List ℕ) (meta : FileMetadata)
        → IsPayload bytes
        → codec.unmarshal bytes ≡ some meta
        → metastore.add (addressed meta) true s ≡ (s', ok tt)
        → codec.marshal (addressed meta) ≡ some reply
        → length reply ≤ max_payload_len
        → Serves s (frame type_add_file bytes) s' (frame type_read_file_response reply)
    deleted :
        (s : S) (name : List ℕ)
        → IsPayload name
        → Serves s (frame type_delete_file name) (metastore.delete (string_of name) s).0 []

  pub data ServesAll : S → List ℕ → S → List ℕ → Type 0 where
    served : (s : S) → ServesAll s [] s []
    more :
        {s s' s'' : S} {request answered stream answers : List ℕ}
        → Serves s request s' answered
        → ServesAll s' stream s'' answers
        → ServesAll s (request ++ stream) s'' (answered ++ answers)

  message_step :
      (fuel kind : ℕ) (bytes rest : List ℕ) (w w' : Writer) (s s' : S)
      → IsPayload bytes
      → dispatch metastore codec string_of nil_bytes
          (message kind bytes)
          (session (bytes ++ rest) w s)
        ≡ (session rest w' s', ok tt)
      → handle_loop metastore codec string_of nil_bytes
          (suc fuel)
          (session (frame kind bytes ++ rest) w s)
        ≡ handle_loop metastore codec string_of nil_bytes fuel (session rest w' s')
  unfolding handle_loop handle_message
  message_step fuel kind bytes rest w w' s s' (some_bytes, small) done =
      ground (arith, decode-request kind bytes rest small, done)

  request_step :
      (fuel : ℕ) (rest : List ℕ) (w : Writer) {s s' : S} {request answered : List ℕ}
      → Serves s request s' answered
      → length answered ≤ w.room
      → handle_loop metastore codec string_of nil_bytes (suc fuel) (session (request ++ rest) w s)
        ≡ handle_loop metastore codec string_of nil_bytes fuel (session rest (wrote w answered) s')
  unfolding dispatch handle_ping handle_read handle_write confirm handle_delete
  request_step fuel rest w (pinged s bytes ok_payload) room =
      message_step fuel type_ping bytes rest w _ s s ok_payload (
        ground (
          arith,
          read_payload-message type_ping bytes rest,
          answer_lem type_ping_response bytes rest w s ok_payload.1 room,
        ))
  request_step fuel rest w (found s name bytes ok_payload known small) room =
      message_step fuel type_read_file name rest w _ s s ok_payload (
        ground (
          arith,
          read_payload-message type_read_file name rest,
          known,
          answer_lem type_read_file_response bytes rest w s small room,
        ))
  request_step fuel rest w (added s s' bytes reply meta ok_payload decoded stored encoded small)
        room =
      message_step fuel type_add_file bytes rest w _ s s' ok_payload (
        ground (
          arith,
          read_payload-message type_add_file bytes rest,
          decoded,
          stored,
          encoded,
          answer_lem type_read_file_response reply rest w s' small room,
        ))
  request_step fuel rest w (deleted s name ok_payload) room =
      message_step fuel type_delete_file name rest w _ s (metastore.delete (string_of name) s).0
        ok_payload
        (ground (arith, read_payload-message type_delete_file name rest, append-nil w.written))

  length-request :
      {s s' : S} {request answered : List ℕ} → Serves s request s' answered → 0 < length request
  length-request (pinged s bytes p) = omega (arith, length-frame type_ping bytes)
  length-request (found s name bytes p known small) =
      omega (arith, length-frame type_read_file name)
  length-request (added s s' bytes reply meta p a b c d) =
      omega (arith, length-frame type_add_file bytes)
  length-request (deleted s name p) = omega (arith, length-frame type_delete_file name)

  loop-ServesAll :
      (fuel : ℕ) (w : Writer) {s s' : S} {stream answers : List ℕ}
      → ServesAll s stream s' answers
      → length stream < fuel
      → length answers ≤ w.room
      → handle_loop metastore codec string_of nil_bytes fuel (session stream w s)
        ≡ (session [] (wrote w answers) s', ok tt)
  unfolding handle_loop decode
  loop-ServesAll zero w h long room = absurd (omega (arith, long))
  loop-ServesAll (suc fuel) w (served s) long room = ground (arith, append-nil w.written)
  loop-ServesAll (suc fuel) w (more {s} {s'} {s''} {request} {answered} {stream} {answers} h hs)
        long room =
      request_step fuel stream w h (omega (arith, length-append answered answers))
      ∙ loop-ServesAll fuel (wrote w answered) hs
          (omega (arith, length-append request stream, length-request h))
          (omega (arith, length-append answered answers))
      ∙ ground (arith, append_assoc w.written answered answers, length-append answered answers)

  -- Take a stream of well-formed requests, each of which the store serves with its effect and its
  -- answer, where the store answers no addition with an error and no answer exceeds the maximal
  -- payload. Then Handle on a connection with room for the answers processes the whole stream,
  -- leaves the store as the requests do one after the other, writes just their answers in order,
  -- and returns no error.
  pub handle-ServesAll :
      (w : Writer) (s s' : S) (stream answers : List ℕ)
      → ServesAll s stream s' answers
      → length answers ≤ w.room
      → handle metastore codec string_of nil_bytes (session stream w s)
        ≡ (session [] (wrote w answers) s', ok tt)
  unfolding handle
  handle-ServesAll w s s' stream answers h room =
      loop-ServesAll (suc (length stream)) w h (omega arith) room
