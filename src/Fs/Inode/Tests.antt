-- ===== src/Fs/Inode/Tests.antt =====
-- kernel/fs.c: a file of one block on a small disk.
use zept_os.Prelude.{
  ℕ, zero, suc, ◌≤◌, ◌<◌, ◌≡◌, ◌≢◌, ◌∙◌, ap, sym, refl, ◌⊎◌, true, false, arith, ◌==◌,
  if◌then◌else◌, ok, panic,
}
use zept_os.Fs.{Blocks, Superblock, bblock}
use zept_os.Fs.Bitmap.{used}
use zept_os.Fs.Inode.{Inode, ndirect, bmap, iupdate, ilock_read, itrunc}
use zept_os.Fs.Inode.Slots.{IsMapped}
use zept_os.Fs.Inode.Mapping.{slot, Filled}
use zept_os.Fs.Inode.Bmap.{slot_of, bmap-Filled}
use zept_os.Fs.Inode.Bytes.{Fits}
use zept_os.Fs.Inode.Disk.{reread, ilock_read-iupdate}
use zept_os.Fs.Inode.Itrunc.{itrunc-Emptied}

abbrev pub disk : Superblock
disk = record { magic = 270544960; size = 20; ninodes = 4; inodestart = 2; bmapstart = 3 }

-- Blocks 0 to 4 are in use.
abbrev pub disk_blocks : Blocks
disk_blocks = λ b i. if b == 3 then (if i == 0 then 31 else 0) else 7

-- Its block is block 4.
abbrev pub file : Inode
file = record {
  inum = 1;
  valid = true;
  type = 2;
  major = 0;
  minor = 0;
  nlink = 1;
  size = 9;
  addrs = λ i. if i == 0 then 4 else 0;
}

only_first : (k : ℕ) → slot file disk_blocks k ≢ 0 → k ≡ 0
only_first zero n = refl
only_first (suc k) n = absurd (n (ground arith))

first_block : (k : ℕ) → slot file disk_blocks k ≢ 0 → slot file disk_blocks k ≡ 4
first_block k n = ap (slot file disk_blocks) (only_first k n)

pub file-IsMapped : IsMapped disk (slot file disk_blocks) disk_blocks
file-IsMapped = record {
  bitmap = λ b h. let e : bblock b disk ≡ 3 = omega arith in rw e (omega arith, refl);
  boot = refl;
  in_disk = λ k n. rw (first_block k n) (omega arith);
  taken = λ k n. rw (first_block k n) refl;
  apart = λ k c n h. rw (first_block k n) (λ e. absurd (omega arith));
  distinct = λ k m n d e. d (only_first k n ∙ sym (only_first m (λ z. n (e ∙ z))));
}

abbrev BmapResult : ℕ → Type 0
BmapResult bn =
    ((bn < 316)
      × ((result : ℕ × Inode × Blocks) × (bmap bn file disk disk_blocks ≡ ok result)
          × Filled disk (slot_of bn) file disk_blocks result))
    ⊎ ((316 ≤ bn) × (bmap bn file disk disk_blocks ≡ panic "bmap: out of range"))

bmap-Filled_example : BmapResult 70
bmap-Filled_example = bmap-Filled disk 70 file disk_blocks (omega arith) file-IsMapped

file-Fits : Fits file
file-Fits = record {
  type = omega arith;
  major = omega arith;
  minor = omega arith;
  nlink = omega arith;
  size = omega arith;
  addrs = λ i. ground arith;
}

abbrev unread : Inode
unread = record file { valid = false; type = 0 }

ilock_read-iupdate_example :
    (unread.inum ≡ file.inum
      → ilock_read unread disk (iupdate file disk disk_blocks)
        ≡ (if file.type == 0 then panic "ilock: no type" else ok (reread unread file)))
    × (unread.inum ≢ file.inum
        → ilock_read unread disk (iupdate file disk disk_blocks)
          ≡ ilock_read unread disk disk_blocks)
ilock_read-iupdate_example = ilock_read-iupdate unread file disk disk_blocks file-Fits refl

itrunc-Emptied_example :
    (ip' : Inode) × (after : Blocks) × (itrunc file disk disk_blocks ≡ ok (ip', after))
    × (ip'.size ≡ 0)
    × ((j : ℕ) → j ≤ ndirect → ip'.addrs j ≡ 0)
    × ((k : ℕ) → slot file disk_blocks k ≢ 0 → used disk after (slot file disk_blocks k) ≡ 0)
    × ((c : ℕ)
        → c < disk.size
        → ((k : ℕ) → slot file disk_blocks k ≢ c)
        → used disk after c ≡ used disk disk_blocks c)
itrunc-Emptied_example =
    itrunc-Emptied file disk disk_blocks file-IsMapped (λ c h e. absurd (omega (arith, e)))
