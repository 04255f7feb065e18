-- ===== src/Transport/Health/Pings.antt =====
-- Health checks of internal/transport/tcp_pool.go that a metadata server answers.
use my_dfs.Common.{
  ℕ, ◌≤◌, ◌≡◌, refl, sym, ap, ◌∙◌, true, List, [], ◌++◌, append-nil, arith, Codec, length-append,
}
use Prim.Native.String.{String}
use my_dfs.Protocol.{Writer, decode, new_message, type_ping, type_ping_response}
use my_dfs.Protocol.Frames.{encode-sendable}
use my_dfs.Storage.Tree.{same_path}
use my_dfs.Files.Meta.{FileMetadata}
use my_dfs.Metaserver.{MetaStore, handle}
use my_dfs.Protocol.Messages.{message, frame, decode-request, read_payload-message, length-frame}
use my_dfs.Metaserver.Serving.{session, pinged, more, served, handle-ServesAll}
use my_dfs.Transport.Health.{ping_text, is_echo, perform_health_check}

is_echo-frame : (kind : ℕ) (rest : List ℕ) → is_echo (decode (frame kind ping_text ++ rest)) ≡ true
unfolding is_echo same_path
is_echo-frame kind rest = ground (
  arith,
  decode-request kind ping_text rest (omega arith),
  read_payload-message kind ping_text rest,
)

-- The health check is passed just where the other side's bytes decode to an echo.
perform_health_check-echo :
    (room : ℕ) (respond : List ℕ → List ℕ)
    → 12 ≤ room
    → perform_health_check room respond ≡ is_echo (decode (respond (frame type_ping ping_text)))
unfolding perform_health_check new_message
perform_health_check-echo room respond h = ground (
  arith,
  encode-sendable (record { written = []; room = room }) (message type_ping ping_text) ping_text
      (refl, refl, omega arith) (omega arith),
)

module _ {S : Type 0} (metastore : MetaStore S) (codec : Codec FileMetadata)
    (string_of : List ℕ → String) (nil_bytes : List ℕ) where
  -- What a metadata server writes on a connection with room for `room` bytes.
  abbrev pub server : ℕ → S → List ℕ → List ℕ
  server room s received =
      (handle metastore codec string_of nil_bytes
        (session received (record { written = []; room = room }) s)).0.writer.written

  -- A metadata server passes the health check of a connection that has room for the ping, where the
  -- server has room for the answer.
  pub perform_health_check-handle :
      (room room' : ℕ) (s : S)
      → 12 ≤ room
      → 12 ≤ room'
      → perform_health_check room (server room' s) ≡ true
  perform_health_check-handle room room' s h k =
      let request = frame type_ping ping_text in
      let reply = frame type_ping_response ping_text in
      let ready : Writer = record { written = []; room = room' } in
      let long = length-append reply [] in
      let size = length-frame type_ping_response ping_text in
      let served_it =
        handle-ServesAll metastore codec string_of nil_bytes ready s s (request ++ []) (reply ++ [])
          (more (pinged s ping_text (omega arith, omega arith)) (served s))
          (omega (arith, long, size)) in
      perform_health_check-echo room (server room' s) h
      ∙ ap (λ bytes. is_echo (decode bytes))
          (ap (server room' s) (sym (append-nil request)) ∙ ap (λ r. r.0.writer.written) served_it)
      ∙ is_echo-frame type_ping_response []
