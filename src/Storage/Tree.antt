-- ===== src/Storage/Tree.antt =====
-- The files below a directory, by their paths.
use my_dfs.Common.{
  ℕ, ◌≡◌, refl, Bool, true, false, Option, none, some, List, [], ◌∷◌, arith, ◌==◌, if◌then◌else◌,
}

abbrev pub Directory : Type 0
Directory = List (List ℕ × List ℕ)

unfoldable pub same_path : List ℕ → List ℕ → Bool
same_path [] [] = true
same_path (x ∷ xs) (y ∷ ys) = let rest = same_path xs ys in if x == y then rest else false
same_path _ _ = false

unfoldable pub find_path : List ℕ → Directory → Option (List ℕ)
find_path path [] = none
find_path path ((p, content) ∷ dir) = if same_path p path then some content else find_path path dir

unfoldable pub remove_path : List ℕ → Directory → Directory
remove_path path [] = []
remove_path path ((p, content) ∷ dir) =
    let rest = remove_path path dir in if same_path p path then rest else (p, content) ∷ rest

unfoldable pub set_file : List ℕ → List ℕ → Directory → Directory
set_file path content dir = (path, content) ∷ remove_path path dir

pub same_path_refl : (xs : List ℕ) → same_path xs xs ≡ true
unfolding same_path
same_path_refl [] = refl
same_path_refl (x ∷ xs) = ground (arith, same_path_refl xs)

pub same_path_eq : (xs ys : List ℕ) → same_path xs ys ≡ true → xs ≡ ys
unfolding same_path
same_path_eq [] [] h = refl
same_path_eq [] (y ∷ ys) h = ground arith
same_path_eq (x ∷ xs) [] h = ground arith
same_path_eq (x ∷ xs) (y ∷ ys) h = ground (arith, same_path_eq xs ys)

pub find_path-remove_path :
    (path other : List ℕ) (dir : Directory)
    → find_path other (remove_path path dir)
      ≡ (if same_path path other then none else find_path other dir)
unfolding find_path remove_path
find_path-remove_path path other [] = ground arith
find_path-remove_path path other ((p, content) ∷ dir) = ground (
  arith,
  find_path-remove_path path other dir,
  same_path_eq p path,
  same_path_eq p other,
  same_path_eq path other,
  same_path_refl path,
)

pub find_path-set_file :
    (path other content : List ℕ) (dir : Directory)
    → find_path other (set_file path content dir)
      ≡ (if same_path path other then some content else find_path other dir)
unfolding find_path set_file
find_path-set_file path other content dir = ground (arith, find_path-remove_path path other dir)
