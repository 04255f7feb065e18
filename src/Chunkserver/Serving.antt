-- ===== src/Chunkserver/Serving.antt =====
-- The answers of a chunk server of internal/chunkserver/handler.go to a client that sends requests one
-- after the other.
use my_dfs.Common.{
  ℕ, zero, suc, ◌^◌, ◌≤◌, ◌<◌, ◌≡◌, refl, ◌∙◌, true, Option, none, some, List, [], ◌++◌, append-nil,
  append_assoc, arith, if◌then◌else◌, ok, length, length-append,
}
use my_dfs.Protocol.{
  Writer, max_payload_len, decode, type_ping, type_read, type_write, type_read_response,
  type_ping_response,
}
use my_dfs.Protocol.Messages.{
  message, frame, IsPayload, wrote, length-frame, decode-request, read_payload-message,
}
use my_dfs.Metaserver.Serving.{session}
use my_dfs.Storage.{ℤ, FullPath, default_path_transform, get_file_path, in_write_dir, tmp_suffix}
use my_dfs.Storage.Paths.{IsStorable}
use my_dfs.Storage.Tree.{Directory, same_path, find_path}
use my_dfs.Chunkserver.{handle_ping, handle_write, dispatch, handle_message, handle_loop, handle}
use my_dfs.Chunkserver.Chunks.{chunk_payload, handle_write_lem, handle_read-found, answer-frame}

-- What a client can know of the directory: the content at each path.
abbrev pub View : Type 0
View = List ℕ → Option (List ℕ)

abbrev pub Shows : Directory → View → Type 0
Shows dir view = (path : List ℕ) → find_path path dir ≡ view path

-- The view after a chunk was stored at the path.
abbrev pub with_chunk : List ℕ → List ℕ → View → View
with_chunk path content view other =
    if same_path path other
    then some content
    else if same_path (path ++ tmp_suffix) other
    then none
    else view other

module _ (hash_hex : List ℕ → List ℕ) (depth : ℤ) (decode_id : List ℕ → Option (List ℕ)) where
  -- A request's bytes, the view before and after it, and the answer's bytes.
  pub data Serves : View → List ℕ → View → List ℕ → Type 0 where
    pinged :
        (view : View) (bytes : List ℕ)
        → IsPayload bytes
        → Serves view (frame type_ping bytes) view (frame type_ping_response bytes)
    found :
        (view : View) (id content : List ℕ) (p : FullPath)
        → IsPayload id
        → default_path_transform id depth ≡ ok p
        → view (get_file_path (in_write_dir p)) ≡ some content
        → length content ≤ max_payload_len
        → Serves view (frame type_read id) view (frame type_read_response content)
    stored :
        (view : View) (id meta content : List ℕ) (p : FullPath)
        → IsPayload (chunk_payload meta content)
        → decode_id meta ≡ some id
        → length meta < 2 ^ 32
        → IsStorable depth id p
        → same_path id (hash_hex content) ≡ true
        → Serves view
            (frame type_write (chunk_payload meta content))
            (with_chunk (get_file_path (in_write_dir p)) content view)
            []

  pub data ServesAll : View → List ℕ → View → List ℕ → Type 0 where
    served : (view : View) → ServesAll view [] view []
    more :
        {v v' v'' : View} {request answered stream answers : List ℕ}
        → Serves v request v' answered
        → ServesAll v' stream v'' answers
        → ServesAll v (request ++ stream) v'' (answered ++ answers)

  message_step :
      (fuel kind : ℕ) (bytes rest : List ℕ) (w w' : Writer) (s s' : Directory)
      → IsPayload bytes
      → dispatch hash_hex depth decode_id (message kind bytes) (session (bytes ++ rest) w s)
        ≡ (session rest w' s', ok tt)
      → handle_loop hash_hex depth decode_id (suc fuel) (session (frame kind bytes ++ rest) w s)
        ≡ handle_loop hash_hex depth decode_id fuel (session rest w' s')
  unfolding handle_loop handle_message
  message_step fuel kind bytes rest w w' s s' (some_bytes, small) done =
      ground (arith, decode-request kind bytes rest small, done)

  -- What a request leaves of the directory.
  abbrev Leaves : ℕ → List ℕ → List ℕ → Writer → Directory → View → List ℕ → Type 0
  Leaves fuel request rest w dir view' answered =
      (dir' : Directory) × (handle_loop hash_hex depth decode_id (suc fuel)
          (session (request ++ rest) w dir)
        ≡ handle_loop hash_hex depth decode_id fuel (session rest (wrote w answered) dir'))
      × Shows dir' view'

  request_step :
      (fuel : ℕ) (rest : List ℕ) (w : Writer) (dir : Directory) {v v' : View}
      {request answered : List ℕ}
      → Shows dir v
      → Serves v request v' answered
      → length answered ≤ w.room
      → Leaves fuel request rest w dir v' answered
  unfolding dispatch handle_ping
  request_step fuel rest w dir shows (pinged v bytes ok_payload) room = (
    dir,
    message_step fuel type_ping bytes rest w _ dir dir ok_payload (
        ground (
          arith,
          read_payload-message type_ping bytes rest,
          answer-frame type_ping_response bytes rest w dir ok_payload.1 room,
        )),
    shows,
  )
  request_step fuel rest w dir shows (found v id content p ok_payload known held small) room = (
    dir,
    message_step fuel type_read id rest w _ dir dir ok_payload (
        handle_read-found hash_hex depth decode_id id content rest w dir p known
          (shows (get_file_path (in_write_dir p)) ∙ held) small room),
    shows,
  )
  request_step fuel rest w dir shows
        (stored v id meta content p ok_payload decoded short known same) room =
      let bytes = chunk_payload meta content in
      let path = get_file_path (in_write_dir p) in
      let r =
        handle_write hash_hex depth decode_id (message type_write bytes)
          (session (bytes ++ rest) w dir) in
      let (left, wrote_none, outcome, view) =
        handle_write_lem hash_hex depth decode_id meta content id rest w dir p decoded short
          known in
      (
        r.0.store,
        message_step fuel type_write bytes rest w (wrote w []) dir r.0.store ok_payload
            (ground (arith, left, wrote_none, outcome, same, append-nil w.written)),
        λ other. ground (arith, view other, shows other, same),
      )

  length-request :
      {v v' : View} {request answered : List ℕ} → Serves v request v' answered → 0 < length request
  length-request (pinged v bytes p) = omega (arith, length-frame type_ping bytes)
  length-request (found v id content p a b c d) = omega (arith, length-frame type_read id)
  length-request (stored v id meta content p a b c d e) =
      omega (arith, length-frame type_write (chunk_payload meta content))

  abbrev pub Answers : ℕ → List ℕ → Writer → Directory → View → List ℕ → Type 0
  Answers fuel stream w dir view' answers =
      (dir' : Directory) × (handle_loop hash_hex depth decode_id fuel (session stream w dir)
        ≡ (session [] (wrote w answers) dir', ok tt))
      × Shows dir' view'

  loop-ServesAll :
      (fuel : ℕ) (w : Writer) (dir : Directory) {v v' : View} {stream answers : List ℕ}
      → Shows dir v
      → ServesAll v stream v' answers
      → length stream < fuel
      → length answers ≤ w.room
      → Answers fuel stream w dir v' answers
  unfolding handle_loop decode
  loop-ServesAll zero w dir shows h long room = absurd (omega (arith, long))
  loop-ServesAll (suc fuel) w dir shows (served v) long room =
      (dir, ground (arith, append-nil w.written), shows)
  loop-ServesAll (suc fuel) w dir shows
        (more {v} {v'} {v''} {request} {answered} {stream} {answers} h hs) long room =
      let (dir', step, shows') =
        request_step fuel stream w dir shows h (omega (arith, length-append answered answers)) in
      let (dir'', steps, shows'') =
        loop-ServesAll fuel (wrote w answered) dir' shows' hs
          (omega (arith, length-append request stream, length-request h))
          (omega (arith, length-append answered answers)) in
      (
        dir'',
        step
            ∙ steps
            ∙ ground
                (arith, append_assoc w.written answered answers, length-append answered answers),
        shows'',
      )

  -- Take a stream of well-formed requests to a chunk server: pings, reads of ids that are stored at
  -- that point, and writes whose content has the id as its hash, where ids have paths, those that
  -- are written no slash, and contents at most the maximal length. Then Handle on a connection with
  -- room for the answers processes the whole stream, writes just the answers in order, returns no
  -- error, and shows the files of the directory as a map in which each write has put its content
  -- and removed its temporary file.
  pub chunk_handle-ServesAll :
      (w : Writer) (dir : Directory) (v v' : View) (stream answers : List ℕ)
      → Shows dir v
      → ServesAll v stream v' answers
      → length answers ≤ w.room
      → let (s', outcome) = handle hash_hex depth decode_id (session stream w dir) in
        (s'.conn ≡ []) × (s'.writer ≡ wrote w answers) × (outcome ≡ ok tt) × Shows s'.store v'
  unfolding handle
  chunk_handle-ServesAll w dir v v' stream answers shows h room =
      let (dir', run, shows') =
        loop-ServesAll (suc (length stream)) w dir shows h (omega arith) room in
      rw run (refl, refl, refl, shows')
