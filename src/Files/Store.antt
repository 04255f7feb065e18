-- ===== src/Files/Store.antt =====
-- FileStore of internal/files/file_store.go, over a journal: the part of the write-ahead log that it
-- uses. protobuf is a `Codec`.
use my_dfs.Common.{
  ℕ, zero, suc, ◌%◌, ◌^◌, Bool, true, false, not, Option, none, some, List, [], ◌∷◌, ◌++◌, ltb,
  if◌then◌else◌, Result, ok, err, ◌>>=◌, Codec, length, take, drop,
}
use Prim.Native.String.{String}
use my_dfs.Binary.{put_uint32}
use my_dfs.Files.Dict.{Dict, lookup, insert, remove}
use my_dfs.Files.Meta.{FileMetadata}
use my_dfs.Wal.Entry.{Entry, read_length, end_of_file, get_is_delete}

-- AppendEntry: the new state of the log, and whether the entry was appended.
pub record Journal (L : Type 0) : Type 0 where
  pub append : L → List ℕ → Bool → L × Bool

pub data StoreError : Type 0 where
  not_marshalled not_unmarshalled length_not_read body_not_read out_of_fuel : StoreError

pub record FileStore (L : Type 0) : Type 0 where
  pub files : Dict FileMetadata
  pub wal : L

module _ {L : Type 0} (journal : Journal L) (codec : Codec FileMetadata) where
  open journal use {append}
  open codec use {marshal, unmarshal}

  -- AddFileMetadata once the metadata is marshalled: a failure to append is answered by nil.
  unfoldable pub add_marshalled : FileMetadata → List ℕ → Bool → FileStore L → FileStore L
  add_marshalled meta bytes add_to_wal s =
      let stored = record s { files = insert meta.name meta s.files } in
      let (wal, appended) = append s.wal bytes false in
      if not add_to_wal
      then stored
      else if appended
      then record stored { wal = wal }
      else record s { wal = wal }

  -- AddFileMetadata
  unfoldable pub add_file_metadata :
      FileMetadata → Bool → FileStore L → FileStore L × Result StoreError (Unit {0})
  add_file_metadata meta add_to_wal s = elim (marshal meta) [
    | none ↦ (s, err not_marshalled)
    | some bytes ↦ (add_marshalled meta bytes add_to_wal s, ok tt)
  ]

  -- LookupFileMetadata
  unfoldable pub lookup_file_metadata : String → FileStore L → Option FileMetadata
  lookup_file_metadata key s = lookup key s.files

  -- DeleteFileMetadata once the metadata is marshalled.
  unfoldable pub delete_marshalled : String → List ℕ → FileStore L → FileStore L
  delete_marshalled key bytes s =
      let (wal, appended) = append s.wal bytes true in
      if appended then record { files = remove key s.files; wal = wal } else record s { wal = wal }

  -- DeleteFileMetadata
  unfoldable pub delete_file_metadata :
      String → FileStore L → FileStore L × Result StoreError (Unit {0})
  delete_file_metadata key s = elim (lookup key s.files) [
    | none ↦ (s, ok tt)
    | some meta ↦ elim (marshal meta) [
      | none ↦ (s, err not_marshalled)
      | some bytes ↦ (delete_marshalled key bytes s, ok tt)
    ]
  ]

  -- Apply
  unfoldable pub apply : Entry → FileStore L → FileStore L × Result StoreError (Unit {0})
  apply entry s = elim (unmarshal entry.payload) [
    | none ↦ (s, err not_unmarshalled)
    | some meta ↦
        if get_is_delete entry
        then delete_file_metadata meta.name s
        else add_file_metadata meta false s
  ]

  -- The loop of the log's restore over the entries that were read.
  unfoldable pub apply_all : List Entry → FileStore L → FileStore L × Result StoreError (Unit {0})
  apply_all [] s = (s, ok tt)
  apply_all (e ∷ es) s =
      let rest = apply_all es (apply e s).0 in
      elim (apply e s).1 [ ok _ ↦ rest | err failure ↦ ((apply e s).0, err failure) ]

  -- Snapshot, with the values in the order in which the iteration over the map meets them. What was
  -- written before a failure may be lost in the buffer.
  unfoldable pub snapshot : List FileMetadata → Result StoreError (List ℕ)
  snapshot [] = ok []
  snapshot (meta ∷ metas) =
      let rest = snapshot metas in
      elim (marshal meta) [
        | none ↦ err not_marshalled
        | some bytes ↦ (do tail ← rest; ok (put_uint32 (length bytes % 2 ^ 32) ++ (bytes ++ tail)))
      ]

  -- The body of Restore's loop after the length; the flag tells whether the loop goes on.
  unfoldable pub restore_body : ℕ → List ℕ → FileStore L → FileStore L × Result StoreError (List ℕ)
  restore_body len stream s =
      if ltb (length stream) len
      then (s, err body_not_read)
      else elim (unmarshal (take len stream)) [
        | none ↦ (s, err not_unmarshalled)
        | some meta ↦
            let (s', outcome) = add_file_metadata meta false s in
            let next : Result StoreError (List ℕ) = elim outcome [
              | ok _ ↦ ok (drop len stream)
              | err e ↦ err e
            ] in
            (s', next)
      ]

  -- Restore, on fuel: each round takes four bytes at least.
  unfoldable pub restore_loop :
      ℕ → List ℕ → FileStore L → FileStore L × Result StoreError (Unit {0})
  restore_loop zero stream s = (s, err out_of_fuel)
  restore_loop (suc fuel) stream s = elim (read_length stream) [
    | err end_of_file ↦ (s, ok tt)
    | ok (len, rest) ↦
        let (s', outcome) = restore_body len rest s in
        let on : FileStore L × Result StoreError (Unit {0}) = elim outcome [
          | ok stream' ↦ restore_loop fuel stream' s'
          | err e ↦ (s', err e)
        ] in
        on
    | err e ↦ (s, err length_not_read)
  ]

  unfoldable pub restore : List ℕ → FileStore L → FileStore L × Result StoreError (Unit {0})
  restore stream s = restore_loop (suc (length stream)) stream s
