-- ===== src/Files/Keys.antt =====
-- The names under which the map of a FileStore holds its files, in internal/files/file_store.go.
use my_dfs.Common.{
  ℕ, ◌≡◌, refl, ◌∙◌, inl, inr, Bool, Option, none, some, List, [], ◌∷◌, map, arith, Bool-cases,
  Option-cases, ok, Result-cases, Codec,
}
use Prim.Native.String.{String}
use text.Mathlib.Text.{◌==◌ as str_eq}
use text.Mathlib.TextEquality.{eq_iff}
use my_dfs.Files.Dict.{Dict, lookup, insert, remove, lookup-remove}
use my_dfs.Files.Meta.{FileMetadata}
use my_dfs.Files.Store.{
  Journal, FileStore, add_marshalled, add_file_metadata, delete_marshalled, delete_file_metadata,
  snapshot, restore,
}
use my_dfs.Files.Replay.{HasBytes, View, replay, perform, put}
use my_dfs.Files.Restoring.{ShortBytes, restore-snapshot}

abbrev pub IsKeyed : Dict FileMetadata → Type 0
IsKeyed [] = Unit
IsKeyed ((k, meta) ∷ m) = (meta.name ≡ k) × (lookup k m ≡ none) × IsKeyed m

-- The values of a map, in the order of an iteration.
abbrev pub values : Dict FileMetadata → List FileMetadata
values = map (λ entry. entry.1)

remove-IsKeyed : (k : String) (m : Dict FileMetadata) → IsKeyed m → IsKeyed (remove k m)
unfolding remove
remove-IsKeyed k [] h = tt
remove-IsKeyed k ((j, meta) ∷ m) h = elim (Bool-cases (str_eq j k)) [
  | inl hit ↦ rw hit (remove-IsKeyed k m h.2)
  | inr miss ↦ rw miss (h.0, ground (arith, lookup-remove k j m, h.1), remove-IsKeyed k m h.2)
]

insert-IsKeyed :
    (meta : FileMetadata) (m : Dict FileMetadata) → IsKeyed m → IsKeyed (insert meta.name meta m)
unfolding insert
insert-IsKeyed meta m h = (
  refl,
  ground (arith, lookup-remove meta.name meta.name m, eq_iff meta.name meta.name),
  remove-IsKeyed meta.name m h,
)

keep_or : Option FileMetadata → Option FileMetadata → Option FileMetadata
keep_or none before = before
keep_or (some meta) before = some meta

keep_or-none : (o : Option FileMetadata) → keep_or o none ≡ o
unfolding keep_or
keep_or-none none = refl
keep_or-none (some meta) = refl

replay-values :
    (m : Dict FileMetadata) (view : View) (key : String)
    → IsKeyed m
    → replay (map put (values m)) view key ≡ keep_or (lookup key m) (view key)
unfolding replay perform lookup keep_or
replay-values [] view key h = refl
replay-values ((k, meta) ∷ m) view key (named, fresh, h) = ground (
  arith,
  replay-values m (perform (put meta) view) key h,
  eq_iff k key,
  eq_iff meta.name key,
  fresh,
  named,
)

module _ {L : Type 0} (journal : Journal L) (codec : Codec FileMetadata) where
  -- If a store holds every file under its own name and no name twice, it does so after
  -- AddFileMetadata and after DeleteFileMetadata, whatever they answer.
  pub store-IsKeyed :
      (meta : FileMetadata) (add_to_wal : Bool) (key : String) (s : FileStore L)
      → IsKeyed s.files
      → IsKeyed (add_file_metadata journal codec meta add_to_wal s).0.files
        × IsKeyed (delete_file_metadata journal codec key s).0.files
  unfolding add_file_metadata add_marshalled delete_file_metadata delete_marshalled
  store-IsKeyed meta add_to_wal key s h =
      let added = insert-IsKeyed meta s.files h in
      let deleted = remove-IsKeyed key s.files h in (ground (arith, added), ground (arith, deleted))

  -- What a snapshot was taken of has a serialisation.
  pub snapshot-HasBytesAll :
      (m : Dict FileMetadata) (stream : List ℕ) (key : String) (meta : FileMetadata)
      → snapshot journal codec (values m) ≡ ok stream
      → lookup key m ≡ some meta
      → HasBytes journal codec meta
  unfolding snapshot lookup
  snapshot-HasBytesAll [] stream key meta e found = cc
  snapshot-HasBytesAll ((k, other) ∷ m) stream key meta e found =
      elim (Option-cases (codec.marshal other)) [
        | inl failed ↦ absurd (ground (arith, e))
        | inr (bytes, known) ↦ elim (Result-cases (snapshot journal codec (values m))) [
          | inr (failure, failed) ↦ absurd (ground (arith, e))
          | inl (tail, written) ↦ elim (Bool-cases (str_eq k key)) [
            | inl hit ↦ (bytes, ground (arith, found))
            | inr miss ↦ snapshot-HasBytesAll m tail key meta written (ground (arith, found))
          ]
        ]
      ]

  -- If a store holds every file under its own name and no name twice, its snapshot can be written,
  -- and no record of it has 2^32 bytes, then Restore of the snapshot into an empty store succeeds,
  -- and every lookup answers as in the first store.
  pub restore-snapshot_store :
      (s : FileStore L) (stream : List ℕ) (wal : L)
      → IsKeyed s.files
      → snapshot journal codec (values s.files) ≡ ok stream
      → ShortBytes journal codec (values s.files)
      → let (s', outcome) = restore journal codec stream (record { files = []; wal = wal }) in
        (outcome ≡ ok tt) × ((key : String) → lookup key s'.files ≡ lookup key s.files)
  unfolding keep_or
  restore-snapshot_store s stream wal h written short =
      let empty : FileStore L = record { files = []; wal = wal } in
      let (done, _, view) =
        restore-snapshot journal codec (values s.files) stream empty written short in
      (
        done,
        λ key.
            view key
            ∙ replay-values s.files (λ k. lookup k []) key h
            ∙ unfold lookup in keep_or-none (lookup key s.files),
      )
