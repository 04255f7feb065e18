-- ===== src/Examples/Chunks.antt =====
-- A chunk server that is sent a chunk of three bytes.
use my_dfs.Common.{
  All, ℕ, ◌≤◌, ◌≡◌, refl, true, Option, some, List, [], ◌∷◌, ◌++◌, arith, if◌then◌else◌, ok, err,
  length, take,
}
use my_dfs.Protocol.{Writer, type_write, type_read, type_read_response}
use my_dfs.Protocol.Messages.{message, frame, wrote}
use my_dfs.Metaserver.Serving.{session}
use my_dfs.Storage.{
  pos, FullPath, has_slash, default_path_transform, split_key, get_file_path, in_write_dir,
  tmp_suffix,
}
use my_dfs.Storage.Tree.{Directory, same_path, find_path}
use my_dfs.Storage.Paths.{IsStorable, slashed, flattened, default_path_transform_lem}
use my_dfs.Chunkserver.{handle_write, handle_read, check_sum_not_matching}
use my_dfs.Chunkserver.Chunks.{
  chunk_payload, found_after, handle_write_lem, handle_read-handle_write,
}

-- The hash is the content's first two bytes, and the metadata is the id.
abbrev pub hash_hex : List ℕ → List ℕ
hash_hex = take 2

abbrev pub decode_id : List ℕ → Option (List ℕ)
decode_id meta = some meta

abbrev pub id : List ℕ
id = b'a' ∷ b'b' ∷ []

abbrev pub content : List ℕ
content = b'a' ∷ b'b' ∷ b'c' ∷ []

abbrev other_content : List ℕ
other_content = b'x' ∷ []

abbrev pub path : FullPath
path = record { file_name = id; base_path = b'a' ∷ b'/' ∷ b'b' ∷ [] }

abbrev pub ready : Writer
ready = record { written = []; room = 100 }

abbrev pub empty_tree : Directory
empty_tree = []

default_path_transform_lem_example :
    (pieces : List (List ℕ)) × (last : List ℕ) × (default_path_transform id (pos 2)
      ≡ ok (record { file_name = id; base_path = slashed pieces last }))
    × (flattened pieces last ≡ id)
    × (length pieces ≡ 1)
    × All (λ p. length p ≡ 1) pieces
default_path_transform_lem_example = default_path_transform_lem id 1

pub path_of_id : default_path_transform id (pos 2) ≡ ok path
unfolding default_path_transform split_key
path_of_id = refl

pub id-IsStorable : IsStorable (pos 2) id path
unfolding has_slash
id-IsStorable = (path_of_id, refl)

handle_write_lem_example :
    let file = get_file_path (in_write_dir path) in
    let matches = same_path id (hash_hex other_content) in
    let bytes = chunk_payload id other_content in
    let (s', outcome) =
      handle_write hash_hex
        (pos 2)
        decode_id
        (message type_write bytes)
        (session (bytes ++ []) ready empty_tree) in
    (s'.conn ≡ [])
    × (s'.writer ≡ ready)
    × (outcome ≡ (if matches then ok tt else err check_sum_not_matching))
    × ((other : List ℕ)
        → find_path other s'.store
          ≡ found_after matches file (file ++ tmp_suffix) other_content empty_tree other)
handle_write_lem_example =
    handle_write_lem hash_hex (pos 2) decode_id id other_content id [] ready empty_tree path refl
      (omega arith) id-IsStorable

pub same_hash : same_path id (hash_hex content) ≡ true
unfolding same_path
same_hash = refl

reply_room : length (frame type_read_response content) ≤ 100
unfolding my_dfs.Protocol.header_of my_dfs.Binary.put_uint32
reply_room = omega arith

handle_read-handle_write_example :
    let bytes = chunk_payload id content in
    let dir' =
      (handle_write hash_hex
        (pos 2)
        decode_id
        (message type_write bytes)
        (session (bytes ++ []) ready empty_tree)).0.store in
    handle_read hash_hex (pos 2) decode_id (message type_read id) (session (id ++ []) ready dir')
    ≡ (session [] (wrote ready (frame type_read_response content)) dir', ok tt)
handle_read-handle_write_example =
    handle_read-handle_write hash_hex (pos 2) decode_id id content id [] [] ready ready empty_tree
      path refl (omega arith) id-IsStorable same_hash (omega arith) reply_room
