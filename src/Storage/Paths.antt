-- ===== src/Storage/Paths.antt =====
-- The paths that DefaultPathTransform and Write of internal/storage make.
use my_dfs.Common.{
  ℕ, zero, suc, ◌*◌, ◌/◌, ◌≤◌, ◌≡◌, refl, sym, false, some, List, [], ◌∷◌, ◌++◌, append_assoc,
  arith, ok, length, take, drop, All, take-append-drop, length-take, length-drop,
}
use native.Mathlib.Nat.{div-add-mod}
use my_dfs.Storage.{
  ℤ, pos, FullPath, has_slash, get_file_path, split_key, default_path_transform, tmp_suffix,
  before_last_dot,
}

-- The pieces, with a slash before each but the first.
unfoldable pub slashed : List (List ℕ) → List ℕ → List ℕ
slashed [] last = last
slashed (p ∷ ps) last = p ++ (b'/' ∷ slashed ps last)

unfoldable pub flattened : List (List ℕ) → List ℕ → List ℕ
flattened [] last = last
flattened (p ∷ ps) last = p ++ flattened ps last

abbrev HasLength : ℕ → List ℕ → Type 0
HasLength n p = length p ≡ n

-- The first pieces are as many as the rounds, and each is as long as the split.
split_key_lem :
    (rounds split : ℕ) (key : List ℕ)
    → rounds * split ≤ length key
    → (pieces : List (List ℕ)) × (last : List ℕ) × (split_key rounds split key
        ≡ some (slashed pieces last))
      × (flattened pieces last ≡ key)
      × (length pieces ≡ rounds)
      × All (HasLength split) pieces
unfolding split_key slashed flattened
split_key_lem zero split key h = ([], key, refl, refl, refl, tt)
split_key_lem (suc rounds) split key h =
    let (pieces, last, run, whole, count, each) =
      split_key_lem rounds split (drop split key) (ground (arith, length-drop split key, h)) in
    let first : length (take split key) ≡ split = ground (arith, length-take split key, h) in
    (
      take split key ∷ pieces,
      last,
      ground (arith, run, h),
      cc (whole, take-append-drop split key),
      omega (arith, count),
      (first, each),
    )

div_fits : (rounds n : ℕ) → rounds * (n / suc rounds) ≤ n
div_fits rounds n = omega (arith, div-add-mod n (suc rounds))

-- For every key and every positive depth, DefaultPathTransform slices within the key, and its path
-- has the key as its file name. The base path consists of as many pieces as the depth, with a slash
-- between them, that make up the key; all but the last have the length of the key divided by the
-- depth.
pub default_path_transform_lem :
    (key : List ℕ) (rounds : ℕ)
    → let split = length key / suc rounds in
      (pieces : List (List ℕ)) × (last : List ℕ) × (default_path_transform key (pos (suc rounds))
        ≡ ok (record { file_name = key; base_path = slashed pieces last }))
      × (flattened pieces last ≡ key)
      × (length pieces ≡ rounds)
      × All (HasLength split) pieces
unfolding default_path_transform
default_path_transform_lem key rounds =
    let split = length key / suc rounds in
    let (pieces, last, run, whole, count, each) =
      split_key_lem rounds split key (div_fits rounds (length key)) in
    (pieces, last, ground (arith, run), whole, count, each)

-- The key has the path, under which a file can be made.
abbrev pub IsStorable : ℤ → List ℕ → FullPath → Type 0
IsStorable depth key p = (default_path_transform key depth ≡ ok p) × (has_slash p.file_name ≡ false)

-- The path of the temporary file of a key is that of its file, with a suffix.
pub get_file_path-tmp :
    (name base : List ℕ)
    → get_file_path (record { file_name = name ++ tmp_suffix; base_path = base })
      ≡ get_file_path (record { file_name = name; base_path = base }) ++ tmp_suffix
unfolding get_file_path
get_file_path-tmp name base = sym (append_assoc base (b'/' ∷ name) tmp_suffix)

pub before_last_dot-tmp : (path : List ℕ) → before_last_dot (path ++ tmp_suffix) ≡ some path
unfolding before_last_dot
before_last_dot-tmp [] = refl
before_last_dot-tmp (c ∷ cs) = ground (arith, before_last_dot-tmp cs)
