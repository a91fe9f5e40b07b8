-- ===== src/Fs/Namex.antt =====
-- kernel/fs.c: `namex`, which walks from inode to inode along a path.
pub mod Balance
pub mod Walks
mod Tests
use zept_os.Prelude.{
  ℕ, zero, suc, ◌+◌, Bool, true, false, not, ◌&&◌, Option, none, some, List, [], ◌∷◌, ◌==◌,
  if◌then◌else◌, length,
}
use zept_os.Fs.{skipelem}

-- What `namex` calls, over a state of their own; an inode is a number. `iget_root` is
-- `iget(ROOTDEV, ROOTINO)`, `idup_cwd` is `idup(myproc()->cwd)`, and `is_dir` tests the type of a
-- locked inode.
pub record Inodes (S : Type 0) : Type 0 where
  pub iget_root : S → ℕ × S
  pub idup_cwd : S → ℕ × S
  pub ilock : (ip : ℕ) → S → S
  pub is_dir : (ip : ℕ) → S → Bool
  pub iunlock : (ip : ℕ) → S → S
  pub iput : (ip : ℕ) → S → S
  pub dirlookup : (ip : ℕ) (name : List ℕ) → S → Option ℕ × S

unfoldable pub is_slash : List ℕ → Bool
is_slash [] = false
is_slash (c ∷ path) = c == b'/'

unfoldable pub at_end : List ℕ → Bool
at_end [] = true
at_end (c ∷ path) = false

module _ {S : Type 0} (io : Inodes S) (parent : Bool) where
  unfoldable pub iunlockput : (ip : ℕ) → S → S
  iunlockput ip s = io.iput ip (io.iunlock ip s)

  -- The loop of `namex` and what follows it, with `fuel` rounds at most: the inode, or `none` for a
  -- null pointer, and the `name` that it leaves.
  unfoldable pub namex_loop : (fuel ip : ℕ) (path name : List ℕ) → S → Option ℕ × List ℕ × S
  unfolding iunlockput at_end
  namex_loop zero ip path name s = (none, name, s)
  namex_loop (suc fuel) ip path name s = elim (skipelem path) [
    | none ↦ if parent then (none, name, io.iput ip s) else (some ip, name, s)
    | some (elem, rest) ↦
        let s1 = io.ilock ip s in
        if not (io.is_dir ip s1)
        then (none, elem, iunlockput ip s1)
        else if parent && at_end rest
        then (some ip, elem, io.iunlock ip s1)
        else let (found, s2) = io.dirlookup ip elem s1 in
          elim found [
            | none ↦ (none, elem, iunlockput ip s2)
            | some next ↦ namex_loop fuel next rest elem (iunlockput ip s2)
          ]
  ]

  unfoldable pub namex : (path name : List ℕ) → S → Option ℕ × List ℕ × S
  unfolding is_slash
  namex path name s =
      let (ip, s') = if is_slash path then io.iget_root s else io.idup_cwd s in
      namex_loop (length path + 1) ip path name s'
