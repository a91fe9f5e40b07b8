-- ===== src/Fs/Namex/Tests.antt =====
-- kernel/fs.c: a small tree of directories.
use zept_os.Prelude.{
  ℕ, ◌+◌, ◌-◌, ◌≡◌, refl, Bool, true, false, ◌&&◌, ◌||◌, Option, none, some, List, [], ◌∷◌, arith,
  ◌==◌, if◌then◌else◌,
}
use zept_os.Fs.{skipelem, skip_slashes, element}
use zept_os.Fs.Namex.{Inodes, is_slash, at_end, namex_loop, namex}
use zept_os.Fs.Namex.Balance.{Walks, one, held, IsCounted}
use zept_os.Fs.Namex.Walks.{names, first, namex-Walks}

abbrev is_name : (c : ℕ) → List ℕ → Bool
is_name c [] = false
is_name c (d ∷ rest) = c == d

-- Inode 1 is the root, with the directory 2 as `a`; 2 has the file 3 as `b`.
abbrev entry : (ip : ℕ) (name : List ℕ) → Option ℕ
entry ip name =
    if ip == 1 && is_name b'a' name
    then some 2
    else if ip == 2 && is_name b'b' name
    then some 3
    else none

-- The state is the number of references to each inode.
abbrev tree : Inodes (ℕ → ℕ)
tree = record {
  iget_root = λ s. (1, λ x. s x + one 1 x);
  idup_cwd = λ s. (2, λ x. s x + one 2 x);
  ilock = λ ip s. s;
  is_dir = λ ip s. ip == 1 || ip == 2;
  iunlock = λ ip s. s;
  iput = λ ip s x. s x - one ip x;
  dirlookup = λ ip name s. (entry ip name, λ x. s x + held (entry ip name) x);
}

tree-IsCounted : IsCounted tree (λ s. s)
unfolding one
tree-IsCounted = record {
  root = λ s x. refl;
  cwd = λ s x. refl;
  lock = λ ip s x. refl;
  unlock = λ ip s x. refl;
  put = λ ip s x h. ground (arith, h);
  lookup = λ ip name s x. refl;
}

-- "//a/b"
abbrev path : List ℕ
path = b'/' ∷ b'/' ∷ b'a' ∷ b'/' ∷ b'b' ∷ []

path_inode : (namex tree false path [] (λ x. 0)).0 ≡ some 3
unfolding namex namex_loop is_slash at_end skipelem skip_slashes element
path_inode = refl

path_parent : (namex tree true path [] (λ x. 0)).0 ≡ some 2
unfolding namex namex_loop is_slash at_end skipelem skip_slashes element
path_parent = refl

namex-Walks_example :
    Walks tree false
      (first tree path (λ x. 0)).0
      (names path)
      []
      (first tree path (λ x. 0)).1
      (namex tree false path [] (λ x. 0))
    × ((x : ℕ)
        → (namex tree false path [] (λ x. 0)).2 x
          ≡ 0 + held (namex tree false path [] (λ x. 0)).0 x)
namex-Walks_example = namex-Walks tree false path [] (λ x. 0) (λ s. s) tree-IsCounted
