-- ===== src/Fs.antt =====
-- kernel/fs.c: the blocks of the disk, and the elements of a path.
pub mod Bits
pub mod Bitmap
pub mod Balloc
pub mod Path
pub mod Inode
pub mod Itable
pub mod Namex
pub mod Content
mod Tests
use zept_os.Prelude.{
  ℕ, zero, suc, ◌+◌, ◌-◌, ◌*◌, ◌/◌, ◌%◌, ◌^◌, ◌≤◌, ◌<◌, ◌≡◌, ◌≢◌, ◌∙◌, ap, sym, refl, fun_ext, ◌⊎◌,
  inl, inr, ◌↔◌, Bool, true, false, not, ◌&&◌, ◌||◌, Option, none, some, List, [], ◌∷◌, ◌++◌, map,
  append_assoc, append-nil, arith, ltb, leb, ◌==◌, if◌then◌else◌, Bool-cases, Option-cases, length,
  length-append, get_elem?, set, get_or, take, drop, replicate, update, Outcome, ok, panic,
  panic_if, ◌>>=◌, ◌>>◌, >>=-eq-ok, update_cases, update_self, update_other, ℕ_discrete,
}

-- The contents of the blocks, byte by byte, as `bread` gives them; `log_write` of a buffer makes the
-- change of its bytes the block's.
abbrev pub Blocks : Type 0
Blocks = ℕ → ℕ → ℕ

abbrev pub bsize : ℕ
bsize = 1024

-- BPB: bits in a block of the bitmap.
abbrev pub bpb : ℕ
bpb = 8192

pub record Superblock : Type 0 where
  pub magic : ℕ
  pub size : ℕ
  pub ninodes : ℕ
  pub inodestart : ℕ
  pub bmapstart : ℕ

-- BBLOCK
abbrev pub bblock : ℕ → Superblock → ℕ
bblock b sb = b / bpb + sb.bmapstart

-- `memset(bp->data, 0, BSIZE)` of the block.
unfoldable pub bzero : (bno : ℕ) → Blocks → Blocks
bzero bno blocks = update blocks bno (λ i. if ltb i bsize then 0 else blocks bno i)

-- `(bp->data[bi/8] & m) != 0` with `m = 1 << (bi % 8)`, for the bytes of a block of the bitmap.
abbrev pub bit : (bytes : ℕ → ℕ) (bi : ℕ) → ℕ
bit bytes bi = bytes (bi / 8) / 2 ^ (bi % 8) % 2

-- `bp->data[bi/8] |= m` where the bit is 0, and `&= ~m` where it is 1.
abbrev pub mark : (bytes : ℕ → ℕ) (bi : ℕ) → ℕ → ℕ
mark bytes bi = update bytes (bi / 8) (bytes (bi / 8) + 2 ^ (bi % 8))

abbrev pub unmark : (bytes : ℕ → ℕ) (bi : ℕ) → ℕ → ℕ
unmark bytes bi = update bytes (bi / 8) (bytes (bi / 8) - 2 ^ (bi % 8))

-- The inner loop of `balloc` with `left` bits of the block to go: the first one that is 0.
unfoldable pub find_bit : (left b bi size : ℕ) (bytes : ℕ → ℕ) → Option ℕ
find_bit zero b bi size bytes = none
find_bit (suc left) b bi size bytes =
    let more = find_bit left b (bi + 1) size bytes in
    if ltb (b + bi) size then (if bit bytes bi == 0 then some bi else more) else none

-- The outer loop of `balloc` from block `b` on, with `fuel` rounds at most.
unfoldable pub balloc_loop : (fuel b : ℕ) → Superblock → Blocks → ℕ × Blocks
balloc_loop zero b sb blocks = (0, blocks)
balloc_loop (suc fuel) b sb blocks =
    let bno = bblock b sb in
    let more = balloc_loop fuel (b + bpb) sb blocks in
    let found = elim (find_bit bpb b 0 sb.size (blocks bno)) as (λ _. ℕ × Blocks) [
      | some bi ↦ (b + bi, bzero (b + bi) (update blocks bno (mark (blocks bno) bi)))
      | none ↦ more
    ] in
    if ltb b sb.size then found else (0, blocks)

-- `balloc`: a round for each block of the bitmap, and the test that ends the loop.
unfoldable pub balloc : Superblock → Blocks → ℕ × Blocks
unfolding balloc_loop
balloc sb blocks = balloc_loop (sb.size / bpb + 2) 0 sb blocks

unfoldable pub bfree : (b : ℕ) → Superblock → Blocks → Outcome Blocks
bfree b sb blocks = do
  panic_if (bit (blocks (bblock b sb)) (b % bpb) == 0) "freeing free block"
  ok (update blocks (bblock b sb) (unmark (blocks (bblock b sb)) (b % bpb)))

abbrev pub dirsiz : ℕ
dirsiz = 14

-- `while(*path == '/') path++;`
unfoldable pub skip_slashes : List ℕ → List ℕ
skip_slashes [] = []
skip_slashes (c ∷ path) = let rest = skip_slashes path in if c == b'/' then rest else c ∷ path

-- `while(*path != '/' && *path != 0) path++;`: the characters that it passes, and the rest.
unfoldable pub element : List ℕ → List ℕ × List ℕ
element [] = ([], [])
element (c ∷ path) =
    let (name, rest) = element path in if c == b'/' then ([], c ∷ path) else (c ∷ name, rest)

-- `skipelem` of a path, the list of its characters: the name, cut at DIRSIZ, and the rest.
unfoldable pub skipelem : List ℕ → Option (List ℕ × List ℕ)
unfolding skip_slashes element
skipelem path =
    let (name, rest) = element (skip_slashes path) in
    elim (skip_slashes path) [ [] ↦ none | c ∷ _ ↦ some (take dirsiz name, skip_slashes rest) ]
