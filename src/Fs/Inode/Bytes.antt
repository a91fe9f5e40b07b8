-- ===== src/Fs/Inode/Bytes.antt =====
-- kernel/fs.c: the bytes of an inode in its block.
use zept_os.Prelude.{
  ℕ, ◌+◌, ◌-◌, ◌*◌, ◌/◌, ◌%◌, ◌^◌, ◌<◌, ◌≡◌, ◌∙◌, ap, refl, true, false, arith, ltb, ◌==◌,
  if◌then◌else◌, update_self,
}
use zept_os.Fs.{Blocks, Superblock}
use zept_os.Fs.Inode.{Inode, iblock, dinode_byte, iupdate, short_at, uint_at}

-- The fields fit into those of `struct dinode`.
pub record Fits (ip : Inode) : Type 0 where
  pub type : ip.type < 2 ^ 16
  pub major : ip.major < 2 ^ 16
  pub minor : ip.minor < 2 ^ 16
  pub nlink : ip.nlink < 2 ^ 16
  pub size : ip.size < 2 ^ 32
  pub addrs : (i : ℕ) → ip.addrs i < 2 ^ 32

-- The bytes of the inode in its block.
written_byte :
    (ip : Inode) (sb : Superblock) (blocks : Blocks) (t : ℕ)
    → t < 256
    → iupdate ip sb blocks (iblock ip.inum sb) (ip.inum % 4 * 256 + t) ≡ dinode_byte ip t
unfolding iupdate
written_byte ip sb blocks t h =
    let e : ((ip.inum % 4 * 256 + t) / 256 == ip.inum % 4) ≡ true = ground (arith, h) in
    let f : (ip.inum % 4 * 256 + t) % 256 ≡ t = omega arith in
    ap (λ bytes. bytes (ip.inum % 4 * 256 + t))
      (update_self blocks (iblock ip.inum sb) (λ j.
        if j / 256 == ip.inum % 4 then dinode_byte ip (j % 256) else blocks (iblock ip.inum sb) j))
    ∙ rw (e, f) refl

short_back : (w : ℕ) → w < 2 ^ 16 → w / 256 ^ 0 % 256 + 256 * (w / 256 ^ 1 % 256) ≡ w
short_back w h = omega arith

uint_back :
    (w : ℕ)
    → w < 2 ^ 32
    → w / 256 ^ 0 % 256
        + 256 * (w / 256 ^ 1 % 256)
        + 65536 * (w / 256 ^ 2 % 256)
        + 16777216 * (w / 256 ^ 3 % 256)
      ≡ w
uint_back w h = omega arith

module _ (ip : Inode) (sb : Superblock) (blocks : Blocks) where
  unfoldable pub bytes : ℕ → ℕ
  bytes = iupdate ip sb blocks (iblock ip.inum sb)

  at_byte : (p t : ℕ) → p ≡ ip.inum % 4 * 256 + t → t < 256 → bytes p ≡ dinode_byte ip t
  unfolding bytes
  at_byte p t e h = ap bytes e ∙ written_byte ip sb blocks t h

  read_short :
      (p t w : ℕ)
      → p ≡ ip.inum % 4 * 256 + t
      → t < 255
      → w < 2 ^ 16
      → dinode_byte ip t ≡ w / 256 ^ 0 % 256
      → dinode_byte ip (t + 1) ≡ w / 256 ^ 1 % 256
      → short_at bytes p ≡ w
  read_short p t w e h l a b =
      rw (at_byte p t e (omega arith) ∙ a, at_byte (p + 1) (t + 1) (omega arith) (omega arith) ∙ b)
        (short_back w l)

  read_uint :
      (p t w : ℕ)
      → p ≡ ip.inum % 4 * 256 + t
      → t < 253
      → w < 2 ^ 32
      → ((k : ℕ) → k < 4 → dinode_byte ip (t + k) ≡ w / 256 ^ k % 256)
      → uint_at bytes p ≡ w
  read_uint p t w e h l a =
      rw
        (
          at_byte p (t + 0) (omega arith) (omega arith) ∙ a 0 (omega arith),
          at_byte (p + 1) (t + 1) (omega arith) (omega arith) ∙ a 1 (omega arith),
          at_byte (p + 2) (t + 2) (omega arith) (omega arith) ∙ a 2 (omega arith),
          at_byte (p + 3) (t + 3) (omega arith) (omega arith) ∙ a 3 (omega arith),
        )
        (uint_back w l)

  size_byte : (k : ℕ) → k < 4 → dinode_byte ip (8 + k) ≡ ip.size / 256 ^ k % 256
  unfolding dinode_byte
  size_byte k h =
      let f : (8 + k) % 4 ≡ k = omega arith in
      let a : ltb (8 + k) 2 ≡ false = ground arith in
      let b : ltb (8 + k) 4 ≡ false = ground arith in
      let c : ltb (8 + k) 6 ≡ false = ground arith in
      let d : ltb (8 + k) 8 ≡ false = ground arith in
      let e : ltb (8 + k) 12 ≡ true = ground (arith, h) in rw (a, b, c, d, e, f) refl

  addr_byte : (i k : ℕ) → k < 4 → dinode_byte ip (12 + 4 * i + k) ≡ ip.addrs i / 256 ^ k % 256
  unfolding dinode_byte
  addr_byte i k h =
      let f : (12 + 4 * i + k) % 4 ≡ k = omega arith in
      let g : (12 + 4 * i + k - 12) / 4 ≡ i = omega arith in
      let a : ltb (12 + 4 * i + k) 2 ≡ false = ground arith in
      let b : ltb (12 + 4 * i + k) 4 ≡ false = ground arith in
      let c : ltb (12 + 4 * i + k) 6 ≡ false = ground arith in
      let d : ltb (12 + 4 * i + k) 8 ≡ false = ground arith in
      let e : ltb (12 + 4 * i + k) 12 ≡ false = ground arith in rw (a, b, c, d, e, f, g) refl

  -- What `ilock` reads for each field.
  pub fields :
      Fits ip
      → let dip = ip.inum % 4 * 256 in
        (short_at bytes dip ≡ ip.type)
        × (short_at bytes (dip + 2) ≡ ip.major)
        × (short_at bytes (dip + 4) ≡ ip.minor)
        × (short_at bytes (dip + 6) ≡ ip.nlink)
        × (uint_at bytes (dip + 8) ≡ ip.size)
        × ((i : ℕ) → i < 61 → uint_at bytes (dip + 12 + 4 * i) ≡ ip.addrs i)
  unfolding dinode_byte
  fields f = (
    read_short (ip.inum % 4 * 256) 0 ip.type (omega arith) (omega arith) f.type refl refl,
    read_short (ip.inum % 4 * 256 + 2) 2 ip.major refl (omega arith) f.major refl refl,
    read_short (ip.inum % 4 * 256 + 4) 4 ip.minor refl (omega arith) f.minor refl refl,
    read_short (ip.inum % 4 * 256 + 6) 6 ip.nlink refl (omega arith) f.nlink refl refl,
    read_uint (ip.inum % 4 * 256 + 8) 8 ip.size refl (omega arith) f.size size_byte,
    λ i h.
        read_uint (ip.inum % 4 * 256 + 12 + 4 * i) (12 + 4 * i) (ip.addrs i) (omega arith)
          (omega arith) (f.addrs i) (addr_byte i),
  )
