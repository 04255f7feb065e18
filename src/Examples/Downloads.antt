-- ===== src/Examples/Downloads.antt =====
-- A file of three bytes that the client uploads to a chunk server and reads back.
use my_dfs.Common.{
  ℕ, zero, suc, ◌+◌, ◌≤◌, ◌<◌, ◌≡◌, refl, true, ◌==◌, if◌then◌else◌, Option, none, some, List, [],
  ◌∷◌, ◌++◌, append-nil, arith, ok, length, get_elem?, All,
}
use Prim.Native.String.{String}
use my_dfs.Protocol.{header_of, type_read, type_write, type_read_response}
use my_dfs.Protocol.Messages.{frame, wrote}
use my_dfs.Metaserver.Serving.{session}
use my_dfs.Storage.{pos, get_file_path, in_write_dir}
use my_dfs.Storage.Tree.{Directory, set_file, find_path, same_path}
use my_dfs.Chunkserver.{handle}
use my_dfs.Chunkserver.Chunks.{chunk_payload}
use my_dfs.Chunkserver.Serving.{
  View, Shows, with_chunk, ServesAll, found, stored, served, more, chunk_handle-ServesAll,
}
use my_dfs.Files.Meta.{ChunkInfo, ChunkMetaData}
use my_dfs.Client.{chunk_files, build_file_metadata, chunk_infos}
use my_dfs.Client.Output.{interleave}
use my_dfs.Client.Output.Writes.{within}
use my_dfs.Client.Output.Interleaved.{MatchesAll, written_by, interleave_covered}
use my_dfs.Client.Reading.{read_jobs}
use my_dfs.Client.Reading.RoundTrip.{dial_server, Holds}
use my_dfs.Client.Reading.Registered.{AreDistinct, IsTried, read_jobs-build_file_metadata}
use my_dfs.Metaserver.{addressed, set_addresses}
use my_dfs.Files.Dict.{insert, remove}
use my_dfs.Examples.Chunks.{
  hash_hex, decode_id, id, content, path, path_of_id, id-IsStorable, ready, empty_tree, same_hash,
}

abbrev file_path : List ℕ
file_path = get_file_path (in_write_dir path)

-- The chunk is stored and then read twice on one connection.
abbrev nothing : View
nothing p = none

abbrev asked : List ℕ
asked = frame type_write (chunk_payload id content) ++ (frame type_read id ++ [])

abbrev answers : List ℕ
answers = [] ++ (frame type_read_response content ++ [])

asked-ServesAll :
    ServesAll hash_hex
      (pos 2)
      decode_id
      nothing
      asked
      (with_chunk file_path content nothing)
      answers
unfolding same_path get_file_path my_dfs.Binary.put_uint32
asked-ServesAll =
    more
      (stored nothing id id content path (omega arith, omega arith) refl (omega arith) id-IsStorable
        same_hash)
      (more
        (found (with_chunk file_path content nothing) id content path (omega arith, omega arith)
          path_of_id refl (omega arith))
        (served (with_chunk file_path content nothing)))

nothing_there : Shows empty_tree nothing
unfolding find_path
nothing_there p = refl

answers_room : length answers ≤ 100
unfolding header_of my_dfs.Binary.put_uint32
answers_room = omega arith

chunk_handle-ServesAll_example :
    let (s', outcome) = handle hash_hex (pos 2) decode_id (session asked ready empty_tree) in
    (s'.conn ≡ [])
    × (s'.writer ≡ wrote ready answers)
    × (outcome ≡ ok tt)
    × Shows s'.store (with_chunk file_path content nothing)
chunk_handle-ServesAll_example =
    chunk_handle-ServesAll hash_hex (pos 2) decode_id ready empty_tree nothing
      (with_chunk file_path content nothing) asked answers nothing_there asked-ServesAll
      answers_room

-- The first adapter writes two bytes, one by one; between them the second writes the last two.
abbrev pieces : List (ℕ × List ℕ)
pieces = (0, b'a' ∷ []) ∷ (1, b'b' ∷ b'c' ∷ []) ∷ (0, b'b' ∷ []) ∷ []

abbrev offs : ℕ → ℕ
offs i = if i == 1 then 1 else 0

back : (i : ℕ) → i < 2 → get_elem? (b'b' ∷ b'c' ∷ []) i ≡ get_elem? content (1 + i)
back zero h = refl
back (suc zero) h = refl
back (suc (suc i)) h = absurd (omega arith)

front : (i : ℕ) → i < 2 → get_elem? (b'a' ∷ b'b' ∷ []) i ≡ get_elem? content (0 + i)
front zero h = refl
front (suc zero) h = refl
front (suc (suc i)) h = absurd (omega arith)

pieces-Matches : MatchesAll content pieces offs
pieces-Matches zero = (omega arith, front)
pieces-Matches (suc zero) = (omega arith, back)
pieces-Matches (suc (suc i)) = (ground arith, λ k h. absurd (ground (arith, h)))

pieces_cover : (k : ℕ) → k < 3 → (i : ℕ) × (within (offs i, written_by i pieces) k ≡ true)
pieces_cover zero h = (0, refl)
pieces_cover (suc k) h = (1, ground arith)

interleave_covered_example : interleave pieces offs [] ≡ content
interleave_covered_example =
    interleave_covered content pieces offs [] pieces-Matches pieces_cover (omega arith)

abbrev bytes_of : String → List ℕ
bytes_of name = id

abbrev one_piece : List ℕ → List (List ℕ)
one_piece bytes = bytes ∷ []

abbrev stored_tree : Directory
stored_tree = set_file file_path content empty_tree

abbrev servers : String → Option Directory
servers addr = some stored_tree

abbrev info : ChunkInfo
info = record { size = 3; offset = 0; addr = ":5001" }

abbrev hash_content : List ℕ → String
hash_content bytes = "ab"

abbrev encode_meta : ChunkMetaData → List ℕ
encode_meta meta = id

info-Holds : Holds hash_hex (pos 2) decode_id bytes_of one_piece servers 100 content ("ab", info)
unfolding find_path set_file same_path header_of my_dfs.Binary.put_uint32 get_file_path
info-Holds = record {
  fits = omega arith;
  dir = stored_tree;
  reached = refl;
  path = path;
  path_eq = path_of_id;
  stored = refl;
  id_payload = (omega arith, omega arith);
  id_room = omega arith;
  small = omega arith;
  answer_room = omega arith;
}

content-distinct : AreDistinct (chunk_files hash_content encode_meta content 3)
unfolding chunk_files my_dfs.Client.chunk_loop my_dfs.Client.chunk_at my_dfs.Client.chunk_count
content-distinct = (tt, tt)

info-IsTried :
    All
      (IsTried (("ab", info) ∷ []))
      (addressed
        (build_file_metadata (chunk_files hash_content encode_meta content 3) 3 "f")).chunk_info
unfolding chunk_files my_dfs.Client.chunk_loop my_dfs.Client.chunk_at my_dfs.Client.chunk_count
    build_file_metadata chunk_infos set_addresses insert remove
info-IsTried = (refl, tt)

content_read_back :
    read_jobs bytes_of one_piece
      (dial_server hash_hex (pos 2) decode_id bytes_of one_piece servers 100)
      (("ab", info) ∷ [])
      []
    ≡ (content, ok tt ∷ [])
content_read_back =
    read_jobs-build_file_metadata hash_content encode_meta hash_hex (pos 2) decode_id bytes_of
      one_piece servers 100 (λ bytes. append-nil bytes) content "f" (("ab", info) ∷ [])
      content-distinct info-IsTried (info-Holds, tt)
