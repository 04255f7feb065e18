-- ===== src/Chunkserver/Chunks.antt =====
-- What requests leave among the files of a chunk server of internal/chunkserver.
use my_dfs.Common.{
  ℕ, ◌^◌, ◌≤◌, ◌<◌, ◌≡◌, refl, ap, ◌∙◌, inl, inr, Bool, true, false, Option, none, some, List, ◌++◌,
  arith, if◌then◌else◌, Bool-cases, ok, err, length, take-append, drop-append,
}
use my_dfs.Binary.{put_uint32, uint32_of-put}
use my_dfs.Protocol.{Writer, type_write, type_read, type_read_response, max_payload_len}
use my_dfs.Wal.Entry.{read_length}
use my_dfs.Metaserver.{Session}
use my_dfs.Protocol.Messages.{message, frame, wrote, read_payload-message, encode-message}
use my_dfs.Metaserver.Serving.{session}
use my_dfs.Storage.{
  ℤ, FullPath, tmp_suffix, write_dir, in_write_dir, get_file_path, default_path_transform,
  write_file, read_file, rename_file, move,
}
use my_dfs.Storage.Tree.{
  Directory, same_path, find_path, set_file, remove_path, same_path_refl, find_path-set_file,
  find_path-remove_path,
}
use my_dfs.Storage.Paths.{IsStorable, get_file_path-tmp, before_last_dot-tmp}
use my_dfs.Chunkserver.{
  check_sum_not_matching, answer, finish_write, store_chunk, write_payload, handle_write,
  handle_read,
}

-- The payload of a write request.
abbrev pub chunk_payload : List ℕ → List ℕ → List ℕ
chunk_payload meta content = put_uint32 (length meta) ++ (meta ++ content)

-- What is found at a path after a chunk was written: the file `path` if the checksum matched, the
-- temporary file `tmp` if not, and any other path as before.
abbrev pub found_after : Bool → List ℕ → List ℕ → List ℕ → Directory → List ℕ → Option (List ℕ)
found_after matches path tmp content dir other =
    if matches
    then (if same_path path other
        then some content
        else if same_path tmp other
        then none
        else find_path other dir)
    else if same_path tmp other
    then some content
    else find_path other dir

read_length-put :
    (n : ℕ) (rest : List ℕ) → n < 2 ^ 32 → read_length (put_uint32 n ++ rest) ≡ ok (n, rest)
unfolding read_length put_uint32
read_length-put n rest h = ap (λ v. ok (v, rest)) (uint32_of-put n h)

rename_file-tmp :
    (path content : List ℕ) (dir : Directory)
    → rename_file (path ++ tmp_suffix) (set_file (path ++ tmp_suffix) content dir) ≡ (
      set_file path content
          (remove_path (path ++ tmp_suffix) (set_file (path ++ tmp_suffix) content dir)),
      ok tt,
    )
unfolding rename_file move
rename_file-tmp path content dir = ground (
  arith,
  before_last_dot-tmp path,
  find_path-set_file (path ++ tmp_suffix) (path ++ tmp_suffix) content dir,
  same_path_refl (path ++ tmp_suffix),
)

find_path-renamed :
    (path tmp content other : List ℕ) (dir : Directory)
    → find_path other (set_file path content (remove_path tmp (set_file tmp content dir)))
      ≡ found_after true path tmp content dir other
find_path-renamed path tmp content other dir = ground (
  arith,
  find_path-set_file path other content (remove_path tmp (set_file tmp content dir)),
  find_path-remove_path tmp other (set_file tmp content dir),
  find_path-set_file tmp other content dir,
)

pub answer-frame :
    (kind : ℕ) (bytes conn : List ℕ) (w : Writer) (dir : Directory)
    → length bytes ≤ max_payload_len
    → length (frame kind bytes) ≤ w.room
    → answer kind bytes (session conn w dir)
      ≡ (session conn (wrote w (frame kind bytes)) dir, ok tt)
unfolding answer
answer-frame kind bytes conn w dir small room =
    ground (arith, encode-message kind bytes w small room)

module _ (hash_hex : List ℕ → List ℕ) (depth : ℤ) (decode_id : List ℕ → Option (List ℕ)) where
  write_payload-chunk :
      (meta content id : List ℕ) (s : Session Directory)
      → decode_id meta ≡ some id
      → length meta < 2 ^ 32
      → write_payload hash_hex depth decode_id (chunk_payload meta content) s
        ≡ store_chunk hash_hex depth decode_id id content s
  unfolding write_payload
  write_payload-chunk meta content id s decoded short = ground (
    arith,
    read_length-put (length meta) (meta ++ content) short,
    take-append meta content,
    drop-append meta content,
    decoded,
  )

  store_chunk-matching :
      (id content conn : List ℕ) (w : Writer) (dir : Directory) (p : FullPath)
      → IsStorable depth id p
      → same_path id (hash_hex content) ≡ true
      → let path = get_file_path (in_write_dir p) in
        store_chunk hash_hex depth decode_id id content (session conn w dir) ≡ (
          session conn w (
              set_file path content
                (remove_path (path ++ tmp_suffix) (set_file (path ++ tmp_suffix) content dir))),
          ok tt,
        )
  unfolding store_chunk write_file finish_write
  store_chunk-matching id content conn w dir p known same = ground (
    arith,
    known.0,
    known.1,
    same,
    get_file_path-tmp p.file_name (write_dir ++ p.base_path),
    rename_file-tmp (get_file_path (in_write_dir p)) content dir,
  )

  store_chunk-differing :
      (id content conn : List ℕ) (w : Writer) (dir : Directory) (p : FullPath)
      → IsStorable depth id p
      → same_path id (hash_hex content) ≡ false
      → let path = get_file_path (in_write_dir p) in
        store_chunk hash_hex depth decode_id id content (session conn w dir)
        ≡ (session conn w (set_file (path ++ tmp_suffix) content dir), err check_sum_not_matching)
  unfolding store_chunk write_file
  store_chunk-differing id content conn w dir p known differ =
      ground
        (arith, known.0, known.1, differ, get_file_path-tmp p.file_name (write_dir ++ p.base_path))

  store_chunk_lem :
      (id content conn : List ℕ) (w : Writer) (dir : Directory) (p : FullPath)
      → IsStorable depth id p
      → let path = get_file_path (in_write_dir p) in
        let matches = same_path id (hash_hex content) in
        let (s', outcome) = store_chunk hash_hex depth decode_id id content (session conn w dir) in
        (s'.conn ≡ conn)
        × (s'.writer ≡ w)
        × (outcome ≡ (if matches then ok tt else err check_sum_not_matching))
        × ((other : List ℕ)
            → find_path other s'.store
              ≡ found_after matches path (path ++ tmp_suffix) content dir other)
  store_chunk_lem id content conn w dir p known =
      let path = get_file_path (in_write_dir p) in
      elim (Bool-cases (same_path id (hash_hex content))) [
        | inl same ↦
            rw (store_chunk-matching id content conn w dir p known same, same)
              (
                refl,
                refl,
                refl,
                λ other. find_path-renamed path (path ++ tmp_suffix) content other dir,
              )
        | inr differ ↦
            rw (store_chunk-differing id content conn w dir p known differ, differ)
              (refl, refl, refl, λ other. find_path-set_file (path ++ tmp_suffix) other content dir)
      ]

  -- Take a write request whose metadata is shorter than 2^32 bytes and decodes to an id with a path
  -- and no slash. Then handleWrite reads just its payload, writes no answer, and succeeds if and
  -- only if the id is the hash of the content. If it succeeds, the file of the id has the content,
  -- there is no temporary file, and any other file is as before; else it answers the checksum's
  -- error, and only the temporary file has changed.
  pub handle_write_lem :
      (meta content id rest : List ℕ) (w : Writer) (dir : Directory) (p : FullPath)
      → decode_id meta ≡ some id
      → length meta < 2 ^ 32
      → IsStorable depth id p
      → let path = get_file_path (in_write_dir p) in
        let matches = same_path id (hash_hex content) in
        let bytes = chunk_payload meta content in
        let (s', outcome) =
          handle_write hash_hex depth decode_id
            (message type_write bytes)
            (session (bytes ++ rest) w dir) in
        (s'.conn ≡ rest)
        × (s'.writer ≡ w)
        × (outcome ≡ (if matches then ok tt else err check_sum_not_matching))
        × ((other : List ℕ)
            → find_path other s'.store
              ≡ found_after matches path (path ++ tmp_suffix) content dir other)
  unfolding handle_write
  handle_write_lem meta content id rest w dir p decoded short known =
      let bytes = chunk_payload meta content in
      let whole : handle_write hash_hex depth decode_id (message type_write bytes)
            (session (bytes ++ rest) w dir)
          ≡ store_chunk hash_hex depth decode_id id content (session rest w dir) =
        ap (λ (r : List ℕ × List ℕ). write_payload hash_hex depth decode_id r.0 (session r.1 w dir))
          (read_payload-message type_write bytes rest)
        ∙ write_payload-chunk meta content id (session rest w dir) decoded short in
      rw whole (store_chunk_lem id content rest w dir p known)

  pub handle_read-found :
      (id content rest : List ℕ) (w : Writer) (dir : Directory) (p : FullPath)
      → default_path_transform id depth ≡ ok p
      → find_path (get_file_path (in_write_dir p)) dir ≡ some content
      → length content ≤ max_payload_len
      → length (frame type_read_response content) ≤ w.room
      → handle_read hash_hex depth decode_id (message type_read id) (session (id ++ rest) w dir)
        ≡ (session rest (wrote w (frame type_read_response content)) dir, ok tt)
  unfolding handle_read read_file
  handle_read-found id content rest w dir p known found small room = ground (
    arith,
    read_payload-message type_read id rest,
    known,
    found,
    answer-frame type_read_response content rest w dir small room,
  )

  -- Take a write request whose metadata is shorter than 2^32 bytes and decodes to an id with a path
  -- and no slash, and whose content has the id as its hash and at most the maximal payload's
  -- length. Then a read request for the id afterwards, on a connection with room for the answer, is
  -- answered by the content, changes no file, and returns no error.
  pub handle_read-handle_write :
      (meta content id rest more : List ℕ) (w v : Writer) (dir : Directory) (p : FullPath)
      → decode_id meta ≡ some id
      → length meta < 2 ^ 32
      → IsStorable depth id p
      → same_path id (hash_hex content) ≡ true
      → length content ≤ max_payload_len
      → length (frame type_read_response content) ≤ v.room
      → let bytes = chunk_payload meta content in
        let dir' =
          (handle_write hash_hex depth decode_id
            (message type_write bytes)
            (session (bytes ++ rest) w dir)).0.store in
        handle_read hash_hex depth decode_id (message type_read id) (session (id ++ more) v dir')
        ≡ (session more (wrote v (frame type_read_response content)) dir', ok tt)
  handle_read-handle_write meta content id rest more w v dir p decoded short known same small room =
      let bytes = chunk_payload meta content in
      let path = get_file_path (in_write_dir p) in
      let dir' =
        (handle_write hash_hex depth decode_id (message type_write bytes)
          (session (bytes ++ rest) w dir)).0.store in
      let (_, _, _, view) = handle_write_lem meta content id rest w dir p decoded short known in
      let found : find_path path dir' ≡ some content =
        view path ∙ ground (arith, same, same_path_refl path) in
      handle_read-found id content more v dir' p known.0 found small room
