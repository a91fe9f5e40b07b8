-- ===== src/Fs/Inode.antt =====
-- kernel/fs.c: the blocks of an inode.
pub mod Words
pub mod Slots
pub mod Mapping
pub mod Indirect
pub mod Bmap
pub mod Bytes
pub mod Disk
pub mod Freed
pub mod Trunc
pub mod Itrunc
pub mod Tests
use zept_os.Prelude.{
  ℕ, zero, suc, ◌+◌, ◌-◌, ◌*◌, ◌/◌, ◌%◌, ◌^◌, ◌≤◌, ◌<◌, ◌≡◌, ◌≢◌, ◌∙◌, ap, sym, refl, fun_ext, ◌⊎◌,
  inl, inr, ◌↔◌, Bool, true, false, not, ◌&&◌, ◌||◌, Option, none, some, List, [], ◌∷◌, ◌++◌, map,
  append_assoc, append-nil, arith, ltb, leb, ◌==◌, if◌then◌else◌, Bool-cases, Option-cases, length,
  length-append, get_elem?, set, get_or, take, drop, replicate, update, Outcome, ok, panic,
  panic_if, ◌>>=◌, ◌>>◌, >>=-eq-ok, update_cases, update_self, update_other, ℕ_discrete,
}
use zept_os.Fs.{Blocks, Superblock, balloc, bfree}

abbrev pub ndirect : ℕ
ndirect = 60

-- BSIZE / sizeof(uint)
abbrev pub nindirect : ℕ
nindirect = 256

-- `struct inode`, less its device, reference count and lock; `valid` is whether it has been read.
pub record Inode : Type 0 where
  pub inum : ℕ
  pub valid : Bool
  pub type : ℕ
  pub major : ℕ
  pub minor : ℕ
  pub nlink : ℕ
  pub size : ℕ
  pub addrs : ℕ → ℕ

-- `a[i]` for `a = (uint*)bp->data`, little-endian.
unfoldable pub get_uint : (bytes : ℕ → ℕ) (i : ℕ) → ℕ
get_uint bytes i =
    bytes (4 * i)
    + 256 * bytes (4 * i + 1)
    + 65536 * bytes (4 * i + 2)
    + 16777216 * bytes (4 * i + 3)

-- `a[i] = word`
unfoldable pub put_uint : (bytes : ℕ → ℕ) (i word : ℕ) → ℕ → ℕ
put_uint bytes i word j = if j / 4 == i then word / 256 ^ (j % 4) % 256 else bytes j

-- A direct block.
unfoldable pub bmap_direct : (bn : ℕ) → Inode → Superblock → Blocks → ℕ × Inode × Blocks
bmap_direct bn ip sb blocks =
    let (addr, blocks') = balloc sb blocks in
    if not (ip.addrs bn == 0)
    then (ip.addrs bn, ip, blocks)
    else if addr == 0
    then (0, ip, blocks')
    else (addr, record ip { addrs = update ip.addrs bn addr }, blocks')

-- An entry of the indirect block `addr`.
unfoldable pub bmap_indirect : (addr bn : ℕ) → Inode → Superblock → Blocks → ℕ × Inode × Blocks
bmap_indirect addr bn ip sb blocks =
    let a = get_uint (blocks addr) bn in
    let (new, blocks') = balloc sb blocks in
    if not (a == 0)
    then (a, ip, blocks)
    else if new == 0
    then (0, ip, blocks')
    else (new, ip, update blocks' addr (put_uint (blocks' addr) bn new))

unfoldable pub bmap : (bn : ℕ) → Inode → Superblock → Blocks → Outcome (ℕ × Inode × Blocks)
unfolding bmap_direct bmap_indirect
bmap bn ip sb blocks =
    let (addr, ip', blocks') = bmap_direct ndirect ip sb blocks in
    if ltb bn ndirect
    then ok (bmap_direct bn ip sb blocks)
    else if ltb (bn - ndirect) nindirect
    then (if addr == 0
        then ok (0, ip', blocks')
        else ok (bmap_indirect addr (bn - ndirect) ip' sb blocks'))
    else panic "bmap: out of range"

-- IBLOCK, with IPB = 4 inodes of 256 bytes to a block.
abbrev pub iblock : (inum : ℕ) → Superblock → ℕ
iblock inum sb = inum / 4 + sb.inodestart

-- The byte `t` of the `struct dinode` that `iupdate` fills.
unfoldable pub dinode_byte : Inode → (t : ℕ) → ℕ
dinode_byte ip t =
    if ltb t 2
    then ip.type / 256 ^ (t % 2) % 256
    else if ltb t 4
    then ip.major / 256 ^ (t % 2) % 256
    else if ltb t 6
    then ip.minor / 256 ^ (t % 2) % 256
    else if ltb t 8
    then ip.nlink / 256 ^ (t % 2) % 256
    else if ltb t 12
    then ip.size / 256 ^ (t % 4) % 256
    else ip.addrs ((t - 12) / 4) / 256 ^ (t % 4) % 256

-- `iupdate`: the inode's 256 bytes of its block.
unfoldable pub iupdate : Inode → Superblock → Blocks → Blocks
unfolding dinode_byte
iupdate ip sb blocks =
    let bno = iblock ip.inum sb in
    update blocks bno
      (λ j. if j / 256 == ip.inum % 4 then dinode_byte ip (j % 256) else blocks bno j)

-- A `short` and a `uint` of a block at a byte offset.
abbrev pub short_at : (bytes : ℕ → ℕ) (t : ℕ) → ℕ
short_at bytes t = bytes t + 256 * bytes (t + 1)

abbrev pub uint_at : (bytes : ℕ → ℕ) (t : ℕ) → ℕ
uint_at bytes t = bytes t + 256 * bytes (t + 1) + 65536 * bytes (t + 2) + 16777216 * bytes (t + 3)

-- The inode with the fields of the `struct dinode` at a byte offset.
abbrev pub decoded : Inode → (dip : ℕ) (bytes : ℕ → ℕ) → Inode
decoded ip dip bytes = record ip {
  valid = true;
  type = short_at bytes dip;
  major = short_at bytes (dip + 2);
  minor = short_at bytes (dip + 4);
  nlink = short_at bytes (dip + 6);
  size = uint_at bytes (dip + 8);
  addrs = λ i. if ltb i 61 then uint_at bytes (dip + 12 + 4 * i) else ip.addrs i;
}

-- The part of `ilock` after the lock is taken: an inode that is not valid is read from its block.
unfoldable pub ilock_read : Inode → Superblock → Blocks → Outcome Inode
ilock_read ip sb blocks =
    let read = decoded ip (ip.inum % 4 * 256) (blocks (iblock ip.inum sb)) in
    if ip.valid then ok ip else if read.type == 0 then panic "ilock: no type" else ok read

-- The loop of `itrunc` over the direct blocks, with `left` of them to go.
unfoldable pub trunc_direct : (left : ℕ) → Inode → Superblock → Blocks → Outcome (Inode × Blocks)
unfolding bfree
trunc_direct zero ip sb blocks = ok (ip, blocks)
trunc_direct (suc left) ip sb blocks =
    let i = ndirect - suc left in
    let freed = (do
      blocks' ← bfree (ip.addrs i) sb blocks
      trunc_direct left (record ip { addrs = update ip.addrs i 0 }) sb blocks') in
    let next = trunc_direct left ip sb blocks in if not (ip.addrs i == 0) then freed else next

-- The loop of `itrunc` over the indirect block's bytes, with `left` entries to go.
unfoldable pub trunc_entries : (left : ℕ) (bytes : ℕ → ℕ) → Superblock → Blocks → Outcome Blocks
unfolding bfree
trunc_entries zero bytes sb blocks = ok blocks
trunc_entries (suc left) bytes sb blocks =
    let a = get_uint bytes (nindirect - suc left) in
    let freed = (do blocks' ← bfree a sb blocks; trunc_entries left bytes sb blocks') in
    let next = trunc_entries left bytes sb blocks in if not (a == 0) then freed else next

-- The indirect block of `itrunc`, after the direct ones.
unfoldable pub trunc_indirect : Inode → Superblock → Blocks → Outcome (Inode × Blocks)
trunc_indirect ip sb blocks =
    let freed = (do
      blocks' ← trunc_entries nindirect (blocks (ip.addrs ndirect)) sb blocks
      blocks2 ← bfree (ip.addrs ndirect) sb blocks'
      ok (record ip { addrs = update ip.addrs ndirect 0 }, blocks2)) in
    if not (ip.addrs ndirect == 0) then freed else ok (ip, blocks)

unfoldable pub itrunc : Inode → Superblock → Blocks → Outcome (Inode × Blocks)
itrunc ip sb blocks = do
  (ip', blocks') ← trunc_direct ndirect ip sb blocks
  (ip2, blocks2) ← trunc_indirect ip' sb blocks'
  let ip3 = record ip2 { size = 0 }
  ok (ip3, iupdate ip3 sb blocks2)
