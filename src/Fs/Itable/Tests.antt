-- ===== src/Fs/Itable/Tests.antt =====
-- kernel/fs.c: a table with one inode.
use zept_os.Prelude.{ℕ, ◌<◌, ◌≡◌, ◌≢◌, ◌∙◌, sym, ◌⊎◌, arith, ◌==◌, if◌then◌else◌, ok, panic}
use zept_os.Fs.Inode.Tests.{file}
use zept_os.Fs.Itable.{ninode, Itable, iget}
use zept_os.Fs.Itable.Scan.{Holds}
use zept_os.Fs.Itable.Unique.{IsUnique, Got, iget-Got}

abbrev one_inode : Itable
one_inode i = record { ref = if i == 3 then 2 else 0; dev = 1; ip = file }

only_third : (i dev inum : ℕ) → Holds dev inum (one_inode i) → i ≡ 3
only_third i dev inum h = let l = h.live in ground (arith, l)

one_inode-IsUnique : IsUnique one_inode
one_inode-IsUnique i j dev inum hi hj oi oj =
    only_third i dev inum oi ∙ sym (only_third j dev inum oj)

iget-Got_example :
    ((iget 1 1 one_inode ≡ panic "iget: no inodes")
      × ((k : ℕ) → k < ninode → ((one_inode k).ref ≢ 0) × (Holds 1 1 (one_inode k) → ⊥)))
    ⊎ ((i : ℕ) × (t : Itable) × (iget 1 1 one_inode ≡ ok (i, t)) × Got 1 1 one_inode i t)
iget-Got_example = iget-Got 1 1 one_inode one_inode-IsUnique
