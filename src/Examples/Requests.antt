-- ===== src/Examples/Requests.antt =====
-- A client of the metadata server that adds a file and then asks for it.
use my_dfs.Common.{ℕ, ◌≤◌, ◌≡◌, refl, true, List, [], ◌∷◌, ◌++◌, arith, ok, length}
use Prim.Native.String.{String}
use my_dfs.Binary.{put_uint32}
use my_dfs.Protocol.{header_of, Writer, type_add_file, type_read_file, type_read_file_response}
use my_dfs.Files.Dict.{insert, lookup}
use my_dfs.Files.Store.{FileStore, add_file_metadata, add_marshalled, lookup_file_metadata}
use my_dfs.Metaserver.{MetaStore, file_store, handle, set_addresses, marshal_found}
use my_dfs.Protocol.Messages.{frame, wrote}
use my_dfs.Metaserver.Serving.{ServesAll, added, found, more, served, session, handle-ServesAll}
use my_dfs.Examples.Samples.{meta_codec, marshal_meta, unmarshal_meta, bytes_b, file_b}
use my_dfs.Examples.Servers.{counter, with_a}

abbrev pub name_of : List ℕ → String
name_of bytes = "b"

abbrev pub metastore : MetaStore (FileStore ℕ)
metastore = file_store counter meta_codec

abbrev with_b : FileStore ℕ
with_b = (metastore.add file_b true with_a).0

abbrev ready : Writer
ready = record { written = []; room = 100 }

abbrev reply : List ℕ
reply = frame type_read_file_response bytes_b

abbrev asked : List ℕ
asked = frame type_add_file bytes_b ++ (frame type_read_file (b'b' ∷ []) ++ [])

asked-ServesAll :
    ServesAll metastore meta_codec name_of [] with_a asked with_b (reply ++ (reply ++ []))
unfolding unmarshal_meta marshal_meta add_file_metadata add_marshalled set_addresses marshal_found
    lookup_file_metadata lookup insert
asked-ServesAll =
    more
      (added with_a with_b bytes_b bytes_b file_b (omega arith, omega arith) refl refl refl
        (omega arith))
      (more (found with_b (b'b' ∷ []) bytes_b (omega arith, omega arith) refl (omega arith))
        (served with_b))

reply_room : length (reply ++ (reply ++ [])) ≤ 100
unfolding header_of put_uint32
reply_room = omega arith

handle-ServesAll_example :
    handle metastore meta_codec name_of [] (session asked ready with_a)
    ≡ (session [] (wrote ready (reply ++ (reply ++ []))) with_b, ok tt)
handle-ServesAll_example =
    handle-ServesAll metastore meta_codec name_of [] ready with_a with_b asked
      (reply ++ (reply ++ [])) asked-ServesAll reply_room
