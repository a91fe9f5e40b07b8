-- ===== src/Fs/Tests.antt =====
-- kernel/fs.c: a small disk, and a path.
use zept_os.Prelude.{ℕ, ◌≡◌, refl, some, List, [], ◌∷◌, arith, ◌==◌, if◌then◌else◌}
use zept_os.Fs.{Blocks, bpb, Superblock, bblock, balloc, bfree, skipelem, skip_slashes, element}
use zept_os.Fs.Bitmap.{IsBitmap}
use zept_os.Fs.Balloc.{Ballocs, balloc-Ballocs}

-- Twenty blocks; the bitmap is block 3, and says that the first four are in use.
abbrev small : Superblock
small = record { magic = 270544960; size = 20; ninodes = 8; inodestart = 2; bmapstart = 3 }

abbrev small_blocks : Blocks
small_blocks = λ b i. if b == 3 then (if i == 0 then 15 else 0) else 7

small-IsBitmap : IsBitmap small small_blocks
small-IsBitmap b h = let e : bblock b small ≡ 3 = omega arith in rw e (omega arith, refl)

first_free : (balloc small small_blocks).0 ≡ 4
unfolding balloc zept_os.Fs.find_bit
first_free = refl

balloc-Ballocs_example : Ballocs small small_blocks (balloc small small_blocks)
balloc-Ballocs_example = balloc-Ballocs small small_blocks small-IsBitmap

-- "//a/bb"
abbrev path : List ℕ
path = b'/' ∷ b'/' ∷ b'a' ∷ b'/' ∷ b'b' ∷ b'b' ∷ []

skip_path : skipelem path ≡ some (b'a' ∷ [], b'b' ∷ b'b' ∷ [])
unfolding skipelem
skip_path = refl
