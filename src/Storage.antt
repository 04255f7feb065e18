-- ===== src/Storage.antt =====
-- internal/storage: the path of a key, and the files of a chunk server. Keys and paths are lists of
-- bytes. The hash of a file's content, in hexadecimal, is the parameter `hash_hex`. Directories are
-- made on the way, and the calls of the operating system succeed, but for opening or renaming a file
-- that is not there, and for opening a new file under a name with a slash: MkdirAll makes the base path
-- only, and the directory before the slash is taken not to be there.
pub mod Tree
pub mod Paths
use my_dfs.Common.{
  ℕ, zero, suc, ◌+◌, ◌-◌, ◌*◌, ◌/◌, ◌%◌, ◌^◌, ◌≤◌, ◌<◌, min, max, ◌≡◌, refl, sym, ap, ◌∙◌, subst,
  ◌≡⟨◌⟩◌, ◌∎, ◌≢◌, ◌↔◌, ◌⊎◌, inl, inr, Bool, true, false, ◌&&◌, ◌||◌, not, Option, none, some, List,
  [], ◌∷◌, ◌++◌, map, append-nil, append_assoc, arith, ltb, leb, ◌==◌, if◌then◌else◌, ltb→lt,
  lt→ltb, le→ltb, leb→le, le→leb, lt→leb, ==_iff, ==_refl, tests, Bool-cases, Option-cases, Result,
  ok, err, ◌>>=◌, ◌>>◌, or_fail, Result-cases, Codec, length, get_elem?, take, drop, replicate, All,
  length-append, take-append-drop, length-take, length-drop, take_all, drop_all, take-append,
  drop-append, All-append, nil_of_length,
}
pub use my_dfs.Common.{ℤ, pos, negsuc}
use my_dfs.Storage.Tree.{Directory, find_path, set_file, remove_path}

pub data StorageError : Type 0 where
  negative_file_depth out_of_range not_opened not_renamed : StorageError

pub record FullPath : Type 0 where
  pub file_name : List ℕ
  pub base_path : List ℕ

-- GetFilePath
unfoldable pub get_file_path : FullPath → List ℕ
get_file_path p = p.base_path ++ (b'/' ∷ p.file_name)

-- The loop of DefaultPathTransform: the rounds before the last one, and what is left of the key. `none`
-- is the panic of a slice that ends behind the key.
unfoldable pub split_key : ℕ → ℕ → List ℕ → Option (List ℕ)
split_key zero split key = some key
split_key (suc rounds) split key =
    let rest = split_key rounds split (drop split key) in
    if leb split (length key)
    then elim rest [ none ↦ none | some path ↦ some (take split key ++ (b'/' ∷ path)) ]
    else none

-- DefaultPathTransform, with a panic as the error `out_of_range`.
unfoldable pub default_path_transform : List ℕ → ℤ → Result StorageError FullPath
default_path_transform key (negsuc n) = err negative_file_depth
default_path_transform key (pos zero) = ok (record { file_name = key; base_path = b'.' ∷ [] })
default_path_transform key (pos (suc rounds)) =
    elim (split_key rounds (length key / suc rounds) key) [
      | none ↦ err out_of_range
      | some base ↦ ok (record { file_name = key; base_path = base })
    ]

-- "./test-write/"
abbrev pub write_dir : List ℕ
write_dir =
    b'.' ∷ b'/' ∷ b't' ∷ b'e' ∷ b's' ∷ b't' ∷ b'-' ∷ b'w' ∷ b'r' ∷ b'i' ∷ b't' ∷ b'e' ∷ b'/' ∷ []

-- ".tmp"
abbrev pub tmp_suffix : List ℕ
tmp_suffix = b'.' ∷ b't' ∷ b'm' ∷ b'p' ∷ []

abbrev pub in_write_dir : FullPath → FullPath
in_write_dir p = record p { base_path = write_dir ++ p.base_path }

-- FileMetaData
pub record FileMetaData : Type 0 where
  pub full_path : FullPath
  pub content_hash : List ℕ

-- The path up to its last dot, if it has one.
unfoldable pub before_last_dot : List ℕ → Option (List ℕ)
before_last_dot [] = none
before_last_dot (c ∷ cs) = elim (before_last_dot cs) [
  | some front ↦ some (c ∷ front)
  | none ↦ if c == b'.' then some [] else none
]

-- os.Rename within the directory.
unfoldable pub move : List ℕ → List ℕ → Directory → Directory × Result StorageError (Unit {0})
move old new dir = elim (find_path old dir) [
  | none ↦ (dir, err not_renamed)
  | some content ↦ (set_file new content (remove_path old dir), ok tt)
]

-- RenameFile; a path without a dot, on which the code panics, is an error here.
unfoldable pub rename_file : List ℕ → Directory → Directory × Result StorageError (Unit {0})
rename_file old dir = elim (before_last_dot old) [
  | none ↦ (dir, err not_renamed)
  | some new ↦ move old new dir
]

unfoldable pub has_slash : List ℕ → Bool
has_slash [] = false
has_slash (c ∷ cs) = (c == b'/') || has_slash cs

module _ (hash_hex : List ℕ → List ℕ) (depth : ℤ) where
  -- Write
  unfoldable pub write_file :
      List ℕ → List ℕ → Directory → Directory × Result StorageError FileMetaData
  write_file key content dir = elim (default_path_transform key depth) [
    | err e ↦ (dir, err e)
    | ok p ↦
        let path : FullPath = record {
          file_name = p.file_name ++ tmp_suffix;
          base_path = write_dir ++ p.base_path;
        } in
        if has_slash p.file_name then (dir, err not_opened) else (
          set_file (get_file_path path) content dir,
          ok (record { full_path = path; content_hash = hash_hex content }),
        )
  ]

  -- Read: the content of the file; its length is that of the content.
  unfoldable pub read_file : List ℕ → Directory → Result StorageError (List ℕ)
  read_file key dir = elim (default_path_transform key depth) [
    | err e ↦ err e
    | ok p ↦ or_fail not_opened (find_path (get_file_path (in_write_dir p)) dir)
  ]
