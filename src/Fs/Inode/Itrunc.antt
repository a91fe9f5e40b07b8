-- ===== src/Fs/Inode/Itrunc.antt =====
-- kernel/fs.c: `itrunc` frees the blocks of an inode.
use zept_os.Prelude.{
  ℕ, ◌-◌, ◌%◌, ◌≤◌, ◌<◌, ◌≡◌, ◌≢◌, ◌∙◌, ap, sym, refl, inl, inr, true, false, arith, ltb, leb, ◌==◌,
  Bool-cases, update, ok, update_other, ℕ_discrete,
}
use mathlib.Core.Path.{subst}
use zept_os.Fs.{Blocks, Superblock, bblock, bfree, bit, bpb}
use zept_os.Fs.Bitmap.{used}
use zept_os.Fs.Inode.{
  Inode, ndirect, nindirect, get_uint, trunc_direct, trunc_entries, trunc_indirect, itrunc, iupdate,
  iblock,
}
use zept_os.Fs.Inode.Slots.{IsMapped}
use zept_os.Fs.Inode.Mapping.{slot, slot_direct}
use zept_os.Fs.Inode.Indirect.{slot_entry}
use zept_os.Fs.Inode.Freed.{Freed, Freed-none, with_slot, Freed-free}
use zept_os.Fs.Inode.Trunc.{between, trunc_direct-Directs, trunc_entries-Entries}

-- The inode is empty, with its blocks free and all other blocks in use or free as before.
pub record Emptied (sb : Superblock) (ip : Inode) (blocks : Blocks) (ip' : Inode) (after : Blocks)
    : Type 0 where
  pub inum : ip'.inum ≡ ip.inum
  pub empty : (j : ℕ) → j ≤ ndirect → ip'.addrs j ≡ 0
  pub freed : (k : ℕ) → slot ip blocks k ≢ 0 → used sb after (slot ip blocks k) ≡ 0
  pub kept : (c : ℕ) → ((k : ℕ) → slot ip blocks k ≢ c) → used sb after c ≡ used sb blocks c

no_entries :
    (k : ℕ) (ip : Inode) (blocks : Blocks)
    → ip.addrs ndirect ≡ 0
    → slot ip blocks k ≢ 0
    → k < ndirect
no_entries k ip blocks z n = elim (Bool-cases (ltb k ndirect)) [
  | inl e ↦ ground (arith, e)
  | inr e ↦ elim (ℕ_discrete k 60) [
    | yes d ↦ absurd (n (ap (slot ip blocks) d ∙ slot_direct 60 ip blocks (omega arith) ∙ z))
    | no d ↦
        let a : leb k 60 ≡ false = ground (arith, e, d) in
        let b : slot ip blocks k ≡ 0 = rw (a, z) refl in absurd (n b)
  ]
]

slot_bound : (k : ℕ) (ip : Inode) (blocks : Blocks) → slot ip blocks k ≢ 0 → k < 317
slot_bound k ip blocks n = elim (Bool-cases (ltb k 317)) [
  | inl e ↦ ground (arith, e)
  | inr e ↦
      let a : leb k 60 ≡ false = ground (arith, e) in
      let b : ltb (k - 61) 256 ≡ false = ground (arith, e) in
      let z : slot ip blocks k ≡ 0 = rw (a, b) (ground arith) in absurd (n z)
]

indirect_skip :
    (ip : Inode) (sb : Superblock) (blocks : Blocks)
    → (ip.addrs ndirect == 0) ≡ true
    → trunc_indirect ip sb blocks ≡ ok (ip, blocks)
unfolding trunc_indirect
indirect_skip ip sb blocks e = rw e refl

indirect_free :
    (ip : Inode) (sb : Superblock) (blocks b2 b3 : Blocks)
    → (ip.addrs ndirect == 0) ≡ false
    → trunc_entries nindirect (blocks (ip.addrs ndirect)) sb blocks ≡ ok b2
    → bfree (ip.addrs ndirect) sb b2 ≡ ok b3
    → trunc_indirect ip sb blocks ≡ ok (record ip { addrs = update ip.addrs ndirect 0 }, b3)
unfolding trunc_indirect
indirect_free ip sb blocks b2 b3 e f g = rw (e, f, g) refl

-- The indirect block, after the direct ones.
indirect-Emptied :
    (sb : Superblock) (ip ip1 : Inode) (blocks b1 : Blocks)
    → IsMapped sb (slot ip blocks) blocks
    → Freed sb (slot ip blocks) (between (λ _. false) 0 ndirect) blocks b1
    → ip1.inum ≡ ip.inum
    → ((j : ℕ) → j < ndirect → ip1.addrs j ≡ 0)
    → ip1.addrs ndirect ≡ ip.addrs ndirect
    → (ip2 : Inode) × (b2 : Blocks) × (trunc_indirect ip1 sb b1 ≡ ok (ip2, b2))
      × Emptied sb ip blocks ip2 b2
unfolding with_slot
indirect-Emptied sb ip ip1 blocks b1 m f num low same = elim (Bool-cases (ip1.addrs ndirect == 0)) [
  | inl e ↦
      let z : ip1.addrs ndirect ≡ 0 = ground (arith, e) in
      (
        ip1,
        b1,
        indirect_skip ip1 sb b1 e,
        record {
          inum = num;
          empty = λ j l. elim (ℕ_discrete j 60) [
            | yes d ↦ ap ip1.addrs d ∙ z
            | no d ↦ low j (omega arith)
          ];
          freed = λ k n.
              let h = no_entries k ip blocks (sym same ∙ z) n in f.freed k (ground (arith, h)) n;
          kept = λ c a. f.kept c (λ k _. a k);
        },
      )
  | inr e ↦
      let n : ip.addrs ndirect ≢ 0 = (λ z. let y = same ∙ z in absurd (ground (arith, e, y))) in
      let bytes : b1 (ip1.addrs ndirect) ≡ blocks (ip.addrs ndirect) =
        ap b1 same ∙ f.outside (ip.addrs ndirect) (λ c l. m.apart ndirect c n l) in
      let (b2, r, g) =
        trunc_entries-Entries 256 sb (slot ip blocks) (between (λ _. false) 0 ndirect)
          (b1 (ip1.addrs ndirect)) blocks b1 m (omega arith)
          (λ j l h. (ap (λ y. get_uint y j) bytes ∙ sym (slot_entry j ip blocks h n), ground arith))
          f in
      let (b3, r3, g3) =
        Freed-free sb (slot ip blocks) (between (between (λ _. false) 0 ndirect) (317 - 256) 317)
          blocks b2 ndirect m g (ground arith) n in
      (
        record ip1 { addrs = update ip1.addrs ndirect 0 },
        b3,
        indirect_free ip1 sb b1 b2 b3 e r (ap (λ a. bfree a sb b2) same ∙ r3),
        record {
          inum = num;
          empty = λ j l. elim (ℕ_discrete j 60) [
            | yes d ↦ ground (arith, d)
            | no d ↦ update_other ip1.addrs ndirect 0 j (λ w. d (sym w)) ∙ low j (omega arith)
          ];
          freed = λ k p. let h = slot_bound k ip blocks p in g3.freed k (ground (arith, h)) p;
          kept = λ c a. g3.kept c (λ k _. a k);
        },
      )
]

itrunc_steps :
    (ip ip1 ip2 : Inode) (sb : Superblock) (blocks b1 b2 : Blocks)
    → trunc_direct ndirect ip sb blocks ≡ ok (ip1, b1)
    → trunc_indirect ip1 sb b1 ≡ ok (ip2, b2)
    → itrunc ip sb blocks ≡ ok (record ip2 { size = 0 }, iupdate (record ip2 { size = 0 }) sb b2)
unfolding itrunc
itrunc_steps ip ip1 ip2 sb blocks b1 b2 e f = rw (e, f) refl

iupdate_bits :
    (ip : Inode) (sb : Superblock) (blocks : Blocks) (c : ℕ)
    → iblock ip.inum sb ≢ bblock c sb
    → used sb (iupdate ip sb blocks) c ≡ used sb blocks c
unfolding iupdate
iupdate_bits ip sb blocks c n =
    ap (λ bytes. bit bytes (c % bpb)) (update_other blocks (iblock ip.inum sb) _ (bblock c sb) n)

-- `itrunc` of an inode whose blocks are distinct blocks in use does not panic. It leaves size 0 and no
-- address; every block of the inode is free, the indirect block included, and every other block of the
-- disk is in use or free as before. The inode's own block is not one of the bitmap's.
pub itrunc-Emptied :
    (ip : Inode) (sb : Superblock) (blocks : Blocks)
    → IsMapped sb (slot ip blocks) blocks
    → ((c : ℕ) → c < sb.size → iblock ip.inum sb ≢ bblock c sb)
    → (ip' : Inode) × (after : Blocks) × (itrunc ip sb blocks ≡ ok (ip', after))
      × (ip'.size ≡ 0)
      × ((j : ℕ) → j ≤ ndirect → ip'.addrs j ≡ 0)
      × ((k : ℕ) → slot ip blocks k ≢ 0 → used sb after (slot ip blocks k) ≡ 0)
      × ((c : ℕ)
          → c < sb.size
          → ((k : ℕ) → slot ip blocks k ≢ c)
          → used sb after c ≡ used sb blocks c)
itrunc-Emptied ip sb blocks m apart =
    let (ip1, b1, r, f, num, _, high, ind) =
      trunc_direct-Directs 60 sb (slot ip blocks) (λ _. false) ip blocks blocks m (omega arith)
        (λ j l h. (sym (slot_direct j ip blocks (omega arith)), refl))
        (Freed-none sb (slot ip blocks) blocks) in
    let (ip2, b2, r2, g) =
      indirect-Emptied sb ip ip1 blocks b1 m f num (λ j l. high j (omega arith) l) ind in
    let clear : (c : ℕ)
        → c < sb.size
        → used sb (iupdate (record ip2 { size = 0 }) sb b2) c ≡ used sb b2 c =
      (λ c h.
        iupdate_bits (record ip2 { size = 0 }) sb b2 c
          (subst (λ i. iblock i sb ≢ bblock c sb) (sym g.inum) (apart c h))) in
    (
      record ip2 { size = 0 },
      iupdate (record ip2 { size = 0 }) sb b2,
      itrunc_steps ip ip1 ip2 sb blocks b1 b2 r r2,
      refl,
      g.empty,
      λ k n. clear (slot ip blocks k) (m.in_disk k n) ∙ g.freed k n,
      λ c h a. clear c h ∙ g.kept c a,
    )
