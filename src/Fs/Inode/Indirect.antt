-- ===== src/Fs/Inode/Indirect.antt =====
-- kernel/fs.c: an entry of the indirect block is filled.
use zept_os.Prelude.{
  ℕ, ◌+◌, ◌-◌, ◌^◌, ◌<◌, ◌≡◌, ◌≢◌, ◌∙◌, ap, sym, refl, fun_ext, inl, inr, true, false, arith, ltb,
  leb, ◌==◌, if◌then◌else◌, Bool-cases, update, update_self, update_other, ℕ_discrete,
}
use mathlib.Core.Path.{subst}
use zept_os.Fs.{Blocks, Superblock, bblock, balloc}
use zept_os.Fs.Bitmap.{Allocated}
use zept_os.Fs.Balloc.{balloc-Ballocs}
use zept_os.Fs.Inode.{Inode, ndirect, nindirect, get_uint, put_uint, bmap_indirect}
use zept_os.Fs.Inode.Words.{get-put, get_other}
use zept_os.Fs.Inode.Slots.{IsMapped, new_pos, slot_same}
use zept_os.Fs.Inode.Mapping.{slot, Filled, Filled-there, Filled-none, Filled-new}

pub slot_entry :
    (bn : ℕ) (ip : Inode) (blocks : Blocks)
    → bn < nindirect
    → ip.addrs ndirect ≢ 0
    → slot ip blocks (61 + bn) ≡ get_uint (blocks (ip.addrs ndirect)) bn
slot_entry bn ip blocks h n =
    let a : leb (61 + bn) ndirect ≡ false = ground arith in
    let b : (ip.addrs ndirect == 0) ≡ false = ground (arith, n) in
    let c : 61 + bn - 61 ≡ bn = omega arith in
    let d : ltb bn nindirect ≡ true = ground (arith, h) in rw (a, b, c, d) refl

-- A new block for the entry `bn` of the indirect block.
module _ (sb : Superblock) (bn b : ℕ) (ip : Inode) (blocks blocks' : Blocks) (h : bn < nindirect)
    (size : sb.size < 2 ^ 32) (n : ip.addrs ndirect ≢ 0) (m : IsMapped sb (slot ip blocks) blocks)
    (z : get_uint (blocks (ip.addrs ndirect)) bn ≡ 0) (new : Allocated sb blocks b blocks') where
  entered : Blocks
  entered = update blocks' (ip.addrs ndirect) (put_uint (blocks' (ip.addrs ndirect)) bn b)

  entered_at : entered (ip.addrs ndirect) ≡ put_uint (blocks' (ip.addrs ndirect)) bn b
  unfolding entered
  entered_at = update_self blocks' (ip.addrs ndirect) (put_uint (blocks' (ip.addrs ndirect)) bn b)

  entered_other : (c : ℕ) → ip.addrs ndirect ≢ c → entered c ≡ blocks' c
  unfolding entered
  entered_other c d =
      update_other blocks' (ip.addrs ndirect) (put_uint (blocks' (ip.addrs ndirect)) bn b) c d

  old_entry :
      (j : ℕ) → get_uint (blocks' (ip.addrs ndirect)) j ≡ get_uint (blocks (ip.addrs ndirect)) j
  old_entry j =
      ap (λ bytes. get_uint bytes j)
        (fun_ext (λ i. slot_same sb (slot ip blocks) blocks blocks' b m new ndirect i n))

  entry_is :
      (j : ℕ)
      → get_uint (entered (ip.addrs ndirect)) j
        ≡ (if bn == j then b else get_uint (blocks (ip.addrs ndirect)) j)
  entry_is j = ap (λ bytes. get_uint bytes j) entered_at ∙ (elim (ℕ_discrete bn j) [
    | yes d ↦
        ap (get_uint (put_uint (blocks' (ip.addrs ndirect)) bn b)) (sym d)
        ∙ get-put (blocks' (ip.addrs ndirect)) bn b (omega (arith, new.in_disk, size))
        ∙ ground (arith, d)
    | no d ↦ get_other (blocks' (ip.addrs ndirect)) bn j b d ∙ old_entry j ∙ ground (arith, d)
  ])

  entered_slots : (k : ℕ) → slot ip entered k ≡ update (slot ip blocks) (61 + bn) b k
  entered_slots k =
      let y : (ip.addrs 60 == 0) ≡ false = ground (arith, n) in
      elim (Bool-cases (leb k ndirect)) [
        | inl e ↦ let kn : (61 + bn == k) ≡ false = ground (arith, e) in rw (e, kn) refl
        | inr e ↦ elim (Bool-cases (ltb (k - 61) nindirect)) [
          | inr l ↦ let kn : (61 + bn == k) ≡ false = ground (arith, l, h) in rw (e, y, l, kn) refl
          | inl l ↦
              let kn : (61 + bn == k) ≡ (bn == k - 61) = ground (arith, e) in
              rw (e, y, l, kn) (entry_is (k - 61))
        ]
      ]

  entered-Filled : Filled sb (61 + bn) ip blocks (b, ip, entered)
  entered-Filled =
      Filled-new sb (61 + bn) b ip ip blocks blocks' entered m new (slot_entry bn ip blocks h n ∙ z)
        entered_slots (λ c l. entered_other (bblock c sb) (m.apart ndirect c n l))
        (λ k i p d.
          ap (λ bytes. bytes i)
            (entered_other (slot ip blocks k) (m.distinct ndirect k n (λ e. d (sym e)))))
        (λ _. refl)

entry_there :
    (addr bn : ℕ) (ip : Inode) (sb : Superblock) (blocks : Blocks)
    → (get_uint (blocks addr) bn == 0) ≡ false
    → bmap_indirect addr bn ip sb blocks ≡ (get_uint (blocks addr) bn, ip, blocks)
unfolding bmap_indirect
entry_there addr bn ip sb blocks e = rw e refl

entry_new :
    (addr bn b : ℕ) (ip : Inode) (sb : Superblock) (blocks blocks' : Blocks)
    → (get_uint (blocks addr) bn == 0) ≡ true
    → balloc sb blocks ≡ (b, blocks')
    → b ≢ 0
    → bmap_indirect addr bn ip sb blocks
      ≡ (b, ip, update blocks' addr (put_uint (blocks' addr) bn b))
unfolding bmap_indirect
entry_new addr bn b ip sb blocks blocks' e f n =
    let z : (b == 0) ≡ false = ground (arith, n) in rw (e, f, z) refl

entry_none :
    (addr bn : ℕ) (ip : Inode) (sb : Superblock) (blocks : Blocks)
    → (get_uint (blocks addr) bn == 0) ≡ true
    → balloc sb blocks ≡ (0, blocks)
    → bmap_indirect addr bn ip sb blocks ≡ (0, ip, blocks)
unfolding bmap_indirect
entry_none addr bn ip sb blocks e f = rw (e, f) refl

pub bmap_indirect-Filled :
    (sb : Superblock) (bn : ℕ) (ip : Inode) (blocks : Blocks)
    → bn < nindirect
    → sb.size < 2 ^ 32
    → ip.addrs ndirect ≢ 0
    → IsMapped sb (slot ip blocks) blocks
    → Filled sb (61 + bn) ip blocks (bmap_indirect (ip.addrs ndirect) bn ip sb blocks)
unfolding entered
bmap_indirect-Filled sb bn ip blocks h size n m =
    let s = slot_entry bn ip blocks h n in
    elim (Bool-cases (get_uint (blocks (ip.addrs ndirect)) bn == 0)) [
      | inr e ↦
          subst (Filled sb (61 + bn) ip blocks)
            (sym (entry_there (ip.addrs ndirect) bn ip sb blocks e))
            (subst (λ a. Filled sb (61 + bn) ip blocks (a, ip, blocks)) s
              (Filled-there sb (61 + bn) ip blocks m (λ z. absurd (ground (arith, e, s, z)))))
      | inl e ↦
          let z : get_uint (blocks (ip.addrs ndirect)) bn ≡ 0 = ground (arith, e) in
          elim (balloc-Ballocs sb blocks m.bitmap) [
            | inl (all, f) ↦
                subst (Filled sb (61 + bn) ip blocks)
                  (sym (entry_none (ip.addrs ndirect) bn ip sb blocks e f))
                  (Filled-none sb (61 + bn) ip blocks m (s ∙ z) all)
            | inr new ↦
                let p =
                  new_pos sb (slot ip blocks) blocks (balloc sb blocks).1 (balloc sb blocks).0 m
                    new in
                subst (Filled sb (61 + bn) ip blocks)
                  (sym (
                    entry_new (ip.addrs ndirect) bn (balloc sb blocks).0 ip sb blocks
                      (balloc sb blocks).1 e refl p))
                  (entered-Filled sb bn (balloc sb blocks).0 ip blocks (balloc sb blocks).1 h size n
                    m z new)
          ]
    ]
