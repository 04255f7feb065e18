-- ===== src/Files/Failures.antt =====
-- AddFileMetadata and DeleteFileMetadata of internal/files/file_store.go when the log refuses a record.
use my_dfs.Common.{
  ℕ, ◌≡◌, refl, inl, inr, Bool, true, false, some, List, if◌then◌else◌, Bool-cases, Result, ok,
  Codec,
}
use Prim.Native.String.{String}
use my_dfs.Files.Dict.{lookup, lookup-insert, lookup-remove}
use my_dfs.Files.Meta.{FileMetadata}
use my_dfs.Files.Store.{
  Journal, FileStore, StoreError, add_file_metadata, add_marshalled, delete_file_metadata,
  delete_marshalled,
}
use my_dfs.Files.Replay.{Operation, put, delete, perform}

module _ {L : Type 0} (journal : Journal L) (codec : Codec FileMetadata) where
  -- The store after an operation whose record the log took or refused: the answer is nil either way.
  abbrev pub Answers :
      Operation → FileStore L → L → Bool → FileStore L → Result StoreError (Unit {0}) → Type 0
  Answers op s wal appended s' outcome =
      (outcome ≡ ok tt)
      × (s'.wal ≡ wal)
      × ((key : String)
          → lookup key s'.files
            ≡ (if appended then perform op (λ k. lookup k s.files) key else lookup key s.files))

  -- If the metadata of a file has a serialisation, AddFileMetadata with the log answers nil, with
  -- the log as the append leaves it. Later lookups answer as after the addition if the record was
  -- appended, and as before it if the record was refused.
  pub add_file_metadata-Answers :
      (meta : FileMetadata) (bytes : List ℕ) (s : FileStore L)
      → codec.marshal meta ≡ some bytes
      → let (wal, appended) = journal.append s.wal bytes false in
        let (s', outcome) = add_file_metadata journal codec meta true s in
        Answers (put meta) s wal appended s' outcome
  unfolding add_file_metadata add_marshalled perform
  add_file_metadata-Answers meta bytes s e =
      elim (Bool-cases (journal.append s.wal bytes false).1) [
        | inl appended ↦
            rw (e, add_file_metadata, appended)
              (refl, refl, λ key. lookup-insert meta.name key meta s.files)
        | inr refused ↦ rw (e, add_file_metadata, refused) (refl, refl, λ key. refl)
      ]

  -- If a file is in the map and its metadata has a serialisation, DeleteFileMetadata answers nil,
  -- with the log as the append leaves it. Later lookups answer as after the deletion if the record
  -- was appended, and as before it if the record was refused.
  pub delete_file_metadata-Answers :
      (key : String) (meta : FileMetadata) (bytes : List ℕ) (s : FileStore L)
      → lookup key s.files ≡ some meta
      → codec.marshal meta ≡ some bytes
      → let (wal, appended) = journal.append s.wal bytes true in
        let (s', outcome) = delete_file_metadata journal codec key s in
        Answers (delete key) s wal appended s' outcome
  unfolding delete_file_metadata delete_marshalled perform
  delete_file_metadata-Answers key meta bytes s found e =
      elim (Bool-cases (journal.append s.wal bytes true).1) [
        | inl appended ↦
            rw (found, delete_file_metadata, e, appended)
              (refl, refl, λ k. lookup-remove key k s.files)
        | inr refused ↦ rw (found, delete_file_metadata, e, refused) (refl, refl, λ k. refl)
      ]
