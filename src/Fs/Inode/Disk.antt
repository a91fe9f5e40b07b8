-- ===== src/Fs/Inode/Disk.antt =====
-- kernel/fs.c: an inode is written to its block and read back.
use zept_os.Prelude.{
  ℕ, ◌+◌, ◌*◌, ◌/◌, ◌%◌, ◌<◌, ◌≡◌, ◌≢◌, ◌∙◌, ap, sym, refl, fun_ext, inl, inr, true, false, arith,
  ltb, ◌==◌, if◌then◌else◌, Bool-cases, Outcome, ok, panic, update_self, update_other, ℕ_discrete,
}
use mathlib.Core.Path.{subst}
use zept_os.Fs.{Blocks, Superblock}
use zept_os.Fs.Inode.{Inode, iblock, dinode_byte, iupdate, short_at, uint_at, ilock_read, decoded}
use zept_os.Fs.Inode.Bytes.{Fits, bytes, fields}

-- The inode that is read for `old` has the fields that were written.
abbrev pub reread : (old ip : Inode) → Inode
reread old ip = record ip {
  valid = true;
  addrs = λ i. if ltb i 61 then ip.addrs i else old.addrs i;
}

-- The end of `ilock` for the inode that was read.
abbrev checked : Inode → Outcome Inode
checked read = if read.type == 0 then panic "ilock: no type" else ok read

ilock_read-checked :
    (old : Inode) (sb : Superblock) (blocks : Blocks)
    → old.valid ≡ false
    → ilock_read old sb blocks
      ≡ checked (decoded old (old.inum % 4 * 256) (blocks (iblock old.inum sb)))
unfolding ilock_read
ilock_read-checked old sb blocks v = rw v refl

decoded-reread :
    (old ip : Inode) (sb : Superblock) (blocks : Blocks)
    → Fits ip
    → old.inum ≡ ip.inum
    → decoded old (old.inum % 4 * 256) (iupdate ip sb blocks (iblock old.inum sb)) ≡ reread old ip
unfolding bytes
decoded-reread old ip sb blocks f e =
    let (ty, ma, mi, nl, si, ad) = fields ip sb blocks f in
    (λ n. decoded old (e n % 4 * 256) (iupdate ip sb blocks (iblock (e n) sb))) ∙ (λ n. record {
      inum = e n;
      valid = true;
      type = ty n;
      major = ma n;
      minor = mi n;
      nlink = nl n;
      size = si n;
      addrs = fun_ext (λ i. entry i ad) n;
    })
  where
    entry :
        (i : ℕ)
        → ((i : ℕ)
            → i < 61
            → uint_at (bytes ip sb blocks) (ip.inum % 4 * 256 + 12 + 4 * i) ≡ ip.addrs i)
        → (if ltb i 61
            then uint_at (bytes ip sb blocks) (ip.inum % 4 * 256 + 12 + 4 * i)
            else old.addrs i)
          ≡ (if ltb i 61 then ip.addrs i else old.addrs i)
    entry i ad = elim (Bool-cases (ltb i 61)) [
      | inl l ↦ rw l (ad i (ground (arith, l)))
      | inr l ↦ rw l refl
    ]

-- The bytes of another inode stay.
other_byte :
    (old ip : Inode) (sb : Superblock) (blocks : Blocks) (t : ℕ)
    → old.inum ≢ ip.inum
    → t < 256
    → iupdate ip sb blocks (iblock old.inum sb) (old.inum % 4 * 256 + t)
      ≡ blocks (iblock old.inum sb) (old.inum % 4 * 256 + t)
unfolding iupdate
other_byte old ip sb blocks t n h = elim (ℕ_discrete (iblock ip.inum sb) (iblock old.inum sb)) [
  | no d ↦
      ap (λ bytes. bytes (old.inum % 4 * 256 + t))
        (update_other blocks (iblock ip.inum sb) _ (iblock old.inum sb) d)
  | yes d ↦
      let e : ((old.inum % 4 * 256 + t) / 256 == ip.inum % 4) ≡ false = ground (arith, n, d, h) in
      ap (λ b. iupdate ip sb blocks b (old.inum % 4 * 256 + t)) (sym d)
      ∙ ap (λ bytes. bytes (old.inum % 4 * 256 + t))
          (update_self blocks (iblock ip.inum sb) (λ j.
            if j / 256 == ip.inum % 4
            then dinode_byte ip (j % 256)
            else blocks (iblock ip.inum sb) j))
      ∙ rw e (ap (λ b. blocks b (old.inum % 4 * 256 + t)) d)
]

decoded_other :
    (old ip : Inode) (sb : Superblock) (blocks : Blocks)
    → old.inum ≢ ip.inum
    → decoded old (old.inum % 4 * 256) (iupdate ip sb blocks (iblock old.inum sb))
      ≡ decoded old (old.inum % 4 * 256) (blocks (iblock old.inum sb))
decoded_other old ip sb blocks n = λ k. record {
  inum = old.inum;
  valid = true;
  type = short dip 0 (omega arith) (omega arith) k;
  major = short (dip + 2) 2 refl (omega arith) k;
  minor = short (dip + 4) 4 refl (omega arith) k;
  nlink = short (dip + 6) 6 refl (omega arith) k;
  size = uint (dip + 8) 8 refl (omega arith) k;
  addrs = fun_ext entry k;
}
  where
    dip : ℕ
    dip = old.inum % 4 * 256

    same :
        (p t : ℕ)
        → p ≡ old.inum % 4 * 256 + t
        → t < 256
        → iupdate ip sb blocks (iblock old.inum sb) p ≡ blocks (iblock old.inum sb) p
    same p t e h =
        subst (λ q. iupdate ip sb blocks (iblock old.inum sb) q ≡ blocks (iblock old.inum sb) q)
          (sym e) (other_byte old ip sb blocks t n h)

    short :
        (p t : ℕ)
        → p ≡ old.inum % 4 * 256 + t
        → t < 255
        → short_at (iupdate ip sb blocks (iblock old.inum sb)) p
          ≡ short_at (blocks (iblock old.inum sb)) p
    short p t e h =
        rw (same p t e (omega arith), same (p + 1) (t + 1) (omega arith) (omega arith)) refl

    uint :
        (p t : ℕ)
        → p ≡ old.inum % 4 * 256 + t
        → t < 253
        → uint_at (iupdate ip sb blocks (iblock old.inum sb)) p
          ≡ uint_at (blocks (iblock old.inum sb)) p
    uint p t e h =
        rw
          (
            same p t e (omega arith),
            same (p + 1) (t + 1) (omega arith) (omega arith),
            same (p + 2) (t + 2) (omega arith) (omega arith),
            same (p + 3) (t + 3) (omega arith) (omega arith),
          )
          refl

    entry :
        (i : ℕ)
        → (if ltb i 61
            then uint_at
                (iupdate ip sb blocks (iblock old.inum sb))
                (old.inum % 4 * 256 + 12 + 4 * i)
            else old.addrs i)
          ≡ (if ltb i 61
              then uint_at (blocks (iblock old.inum sb)) (old.inum % 4 * 256 + 12 + 4 * i)
              else old.addrs i)
    entry i = elim (Bool-cases (ltb i 61)) [
      | inl l ↦
          let l' : i < 61 = ground (arith, l) in
          rw l (uint (old.inum % 4 * 256 + 12 + 4 * i) (12 + 4 * i) (omega arith) (omega arith))
      | inr l ↦ rw l refl
    ]

-- `iupdate`, then `ilock` of the same inode when it is not in memory: it reads every field as it was
-- written, or panics if the type is 0, for a free inode. Any other inode is read as before.
pub ilock_read-iupdate :
    (old ip : Inode) (sb : Superblock) (blocks : Blocks)
    → Fits ip
    → old.valid ≡ false
    → (old.inum ≡ ip.inum
        → ilock_read old sb (iupdate ip sb blocks)
          ≡ (if ip.type == 0 then panic "ilock: no type" else ok (reread old ip)))
      × (old.inum ≢ ip.inum → ilock_read old sb (iupdate ip sb blocks) ≡ ilock_read old sb blocks)
ilock_read-iupdate old ip sb blocks f v = (
  λ e.
      ilock_read-checked old sb (iupdate ip sb blocks) v
      ∙ ap checked (decoded-reread old ip sb blocks f e),
  λ n.
      ilock_read-checked old sb (iupdate ip sb blocks) v
      ∙ ap checked (decoded_other old ip sb blocks n)
      ∙ sym (ilock_read-checked old sb blocks v),
)
