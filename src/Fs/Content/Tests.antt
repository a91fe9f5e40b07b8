-- ===== src/Fs/Content/Tests.antt =====
-- kernel/fs.c: bytes for a file of one block.
use zept_os.Prelude.{
  ℕ, ◌+◌, ◌*◌, ◌%◌, ◌^◌, ◌≤◌, ◌<◌, ◌≡◌, refl, ◌⊎◌, false, none, some, arith, ok, Bool, ◌≢◌, ◌/◌,
}
use zept_os.Fs.Inode.{iupdate}
use zept_os.Fs.Content.Rounds.{block_at}
use zept_os.Fs.Content.Reads.{CopiesOut, Read}
use zept_os.Fs.Content.Readi.{at_start, clipped, returned, readi-Read}
use zept_os.Fs.Inode.Tests.{disk, disk_blocks, file, file-IsMapped}
use zept_os.Fs.Content.{Copy, Progress, writei, Reading, readi}
use zept_os.Fs.Content.Writes.{Copies, Wrote}
use zept_os.Fs.Content.Writei.{start, with_size, writei-Wrote}

abbrev user_memory : ℕ → ℕ
user_memory a = a % 256

abbrev copy_all : ℕ → ℕ → Copy
copy_all src m = record { failed = false; count = m; bytes = λ i. user_memory (src + i) }

copy_all-Copies : Copies copy_all user_memory
copy_all-Copies = record {
  within = λ src m. omega arith;
  whole = λ src m e. refl;
  bytes = λ src m i h. refl;
}

writei-Wrote_example :
    (((file.size < 5) ⊎ ((2 ^ 32 ≤ 5 + 2000) ⊎ (316 * 1024 < 5 + 2000)))
      × (writei copy_all 700 5 2000 file disk disk_blocks ≡ ok (none, file, disk_blocks)))
    ⊎ ((q : Progress) × (5 ≤ file.size)
        × (5 + 2000 ≤ 316 * 1024)
        × (writei copy_all 700 5 2000 file disk disk_blocks
            ≡ ok (some q.tot, with_size q, iupdate (with_size q) disk q.blocks))
        × Wrote copy_all user_memory 700 2000 disk (start 5 file disk_blocks) q)
writei-Wrote_example =
    writei-Wrote copy_all user_memory 700 5 2000 file disk disk_blocks copy_all-Copies (omega arith)
      (omega arith) file-IsMapped (omega arith) (omega arith)

-- `either_copyout` to a kernel address.
abbrev copyout_all : ℕ → ℕ → Bool × ℕ
copyout_all dst m = (false, m)

copyout_all-CopiesOut : CopiesOut copyout_all
copyout_all-CopiesOut = record { within = λ dst m. omega arith; whole = λ dst m e. refl }

file-present : (i : ℕ) → 4 + i < file.size → block_at file disk_blocks (4 + i) ≢ 0
file-present i h e = let d : (4 + i) / 1024 ≡ 0 = omega (arith, h) in absurd (ground (arith, d, e))

readi-Read_example :
    (((file.size < 4) ⊎ (2 ^ 32 ≤ 4 + 2000))
      × (readi copyout_all 700 4 2000 file disk disk_blocks user_memory
          ≡ ok (some 0, at_start 4 file disk_blocks user_memory)))
    ⊎ ((result : Bool × Reading) × (readi copyout_all 700 4 2000 file disk disk_blocks user_memory
          ≡ returned result (clipped file.size 4 2000))
        × (4 ≤ file.size)
        × (4 + 2000 < 2 ^ 32)
        × Read copyout_all
            (clipped file.size 4 2000)
            700
            disk
            (at_start 4 file disk_blocks user_memory)
            result)
readi-Read_example =
    readi-Read copyout_all 700 4 2000 file disk disk_blocks user_memory copyout_all-CopiesOut
      (omega arith) file-IsMapped (omega arith) (omega arith) (omega arith) file-present
