-- ===== src/Examples/Registrations.antt =====
-- A client that registers a file with a metadata server and fetches its metadata.
use my_dfs.Common.{ℕ, ◌≡◌, refl, true, some, [], ◌∷◌, arith, ok}
use my_dfs.Files.Dict.{insert}
use my_dfs.Metaserver.{addressed, set_addresses}
use my_dfs.Transport.Pool.{Pool, default_pool, get, take_conn, create_new_connection}
use my_dfs.Client.Requests.{register_file_metadata, fetch_file_metadata}
use my_dfs.Client.Requests.Registered.{file_server, fetch-register}
use my_dfs.Examples.Samples.{meta_codec, marshal_meta, bytes_b, file_b}
use my_dfs.Examples.Servers.{counter, with_a}
use my_dfs.Examples.Requests.{name_of}

abbrev pub dialed : ℕ → Pool
dialed n = record default_pool { next = n }

pub first_conn : get true true (dialed 0) ≡ (dialed 1, ok 0)
unfolding get take_conn create_new_connection
first_conn = refl

pub second_conn : get true true (dialed 1) ≡ (dialed 2, ok 1)
unfolding get take_conn create_new_connection
second_conn = refl

marshalled : meta_codec.marshal file_b ≡ some bytes_b
unfolding marshal_meta
marshalled = refl

marshalled_addressed : meta_codec.marshal (addressed file_b) ≡ some bytes_b
unfolding marshal_meta set_addresses
marshalled_addressed = refl

fetch-register_example :
    let (t, registered) =
      register_file_metadata
        (file_server counter meta_codec name_of [] 100)
        meta_codec
        true
        true
        file_b
        (dialed 0, with_a) in
    (registered ≡ ok (addressed file_b))
    × (t ≡ (dialed 1, record { files = insert "b" (addressed file_b) with_a.files; wal = 1 }))
    × (fetch_file_metadata
          (file_server counter meta_codec name_of [] 100)
          meta_codec
          true
          true
          (b'b' ∷ [])
          t
        ≡ ((dialed 2, t.1), ok (addressed file_b)))
fetch-register_example =
    fetch-register counter meta_codec name_of [] 100 true true true true (dialed 0) (dialed 1)
      (dialed 2) 0 1 with_a 1 file_b (b'b' ∷ []) bytes_b bytes_b first_conn second_conn refl
      marshalled marshalled_addressed ((omega arith, omega arith), omega arith)
      ((omega arith, omega arith), omega arith) ((omega arith, omega arith), omega arith) refl
