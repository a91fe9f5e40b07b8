-- ===== src/Fs/Itable.antt =====
-- kernel/fs.c: the table of inodes in memory.
pub mod Scan
pub mod Unique
mod Tests
use zept_os.Prelude.{
  ℕ, zero, suc, ◌+◌, ◌-◌, ◌≤◌, ◌<◌, ◌≡◌, ◌≢◌, ◌∙◌, ap, sym, refl, ◌⊎◌, inl, inr, Bool, true, false,
  ◌&&◌, Option, none, some, arith, ltb, ◌==◌, if◌then◌else◌, Bool-cases, update, Outcome, ok, panic,
}
use zept_os.Fs.Inode.{Inode}

abbrev pub ninode : ℕ
ninode = 50

-- An entry of `itable`: the inode with its reference count and its device.
pub record Entry : Type 0 where
  pub ref : ℕ
  pub dev : ℕ
  pub ip : Inode

abbrev pub Itable : Type 0
Itable = ℕ → Entry

-- The test of `iget` for the inode.
unfoldable pub is_inode : (dev inum : ℕ) → Entry → Bool
is_inode dev inum e = ltb 0 e.ref && (e.dev == dev && e.ip.inum == inum)

-- `if(empty == 0 && ip->ref == 0) empty = ip;`
unfoldable pub remember : Option ℕ → (i : ℕ) → Entry → Option ℕ
remember none i e = if e.ref == 0 then some i else none
remember (some k) i e = some k

-- The loop of `iget`, with `rest` entries to look at: the entry of the inode, or else `empty`.
unfoldable pub iget_loop : (rest i dev inum : ℕ) (empty : Option ℕ) → Itable → ℕ ⊎ (Option ℕ)
unfolding is_inode remember
iget_loop zero i dev inum empty t = inr empty
iget_loop (suc rest) i dev inum empty t =
    let later = iget_loop rest (suc i) dev inum (remember empty i (t i)) t in
    if is_inode dev inum (t i) then inl i else later

-- What `iget` does after its loop.
unfoldable pub iget_found : (dev inum : ℕ) → ℕ ⊎ (Option ℕ) → Itable → Outcome (ℕ × Itable)
iget_found dev inum (inl i) t = ok (i, update t i (record (t i) { ref = (t i).ref + 1 }))
iget_found dev inum (inr none) t = panic "iget: no inodes"
iget_found dev inum (inr (some i)) t = ok (
  i,
  update t i (record { ref = 1; dev = dev; ip = record (t i).ip { inum = inum; valid = false } }),
)

unfoldable pub iget : (dev inum : ℕ) → Itable → Outcome (ℕ × Itable)
unfolding iget_loop iget_found
iget dev inum t = iget_found dev inum (iget_loop ninode 0 dev inum none t) t

unfoldable pub idup : (i : ℕ) → Itable → Itable
idup i t = update t i (record (t i) { ref = (t i).ref + 1 })
