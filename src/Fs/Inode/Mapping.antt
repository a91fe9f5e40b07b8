-- ===== src/Fs/Inode/Mapping.antt =====
-- kernel/fs.c: `bmap` fills one slot of the inode.
use zept_os.Prelude.{
  ℕ, ◌-◌, ◌%◌, ◌≤◌, ◌<◌, ◌≡◌, ◌≢◌, ◌∙◌, ap, sym, refl, fun_ext, ◌⊎◌, inl, inr, true, false, arith,
  ltb, leb, ◌==◌, if◌then◌else◌, Bool-cases, update, update_self, update_other,
}
use mathlib.Core.Path.{subst}
use zept_os.Fs.{Blocks, Superblock, bblock, bpb, balloc, bit}
use zept_os.Fs.Bitmap.{used, Allocated}
use zept_os.Fs.Balloc.{balloc-Ballocs}
use zept_os.Fs.Inode.{Inode, ndirect, nindirect, get_uint, bmap_direct}
use zept_os.Fs.Inode.Words.{get_zero}
use zept_os.Fs.Inode.Slots.{
  IsMapped, new_pos, still_used, slot_same, grown_slot, grown-IsMapped, IsMapped-rebits,
}

-- The slots: 60 direct blocks, the indirect block, and its 256 entries.
abbrev pub slot : Inode → Blocks → (k : ℕ) → ℕ
slot ip blocks k =
    if leb k ndirect
    then ip.addrs k
    else if ip.addrs ndirect == 0
    then 0
    else if ltb (k - 61) nindirect
    then get_uint (blocks (ip.addrs ndirect)) (k - 61)
    else 0

-- What looking up the block of the slot `k` leaves: only that slot, and the one of the indirect block,
-- may have got a block, one that was free, and the contents of the other blocks of the inode are kept.
pub record Filled (sb : Superblock) (k : ℕ) (ip : Inode) (blocks : Blocks)
    (result : ℕ × Inode × Blocks) : Type 0 where
  pub mapped : IsMapped sb (slot result.1 result.2) result.2
  pub others : (m : ℕ) → m ≢ k → m ≢ ndirect → slot result.1 result.2 m ≡ slot ip blocks m
  pub indirect : ip.addrs ndirect ≢ 0 → result.1.addrs ndirect ≡ ip.addrs ndirect
  pub contents :
      (m i : ℕ)
      → slot ip blocks m ≢ 0
      → m ≢ ndirect
      → result.2 (slot ip blocks m) i ≡ blocks (slot ip blocks m) i
  pub grows : (c : ℕ) → c < sb.size → used sb blocks c ≡ 1 → used sb result.2 c ≡ 1
  pub found :
      ((result.0 ≡ 0)
        × (slot result.1 result.2 k ≡ 0)
        × (slot ip blocks k ≡ 0)
        × ((c : ℕ) → c < sb.size → used sb result.2 c ≡ 1))
      ⊎ ((result.0 ≢ 0)
          × (slot result.1 result.2 k ≡ result.0)
          × ((slot ip blocks k ≡ result.0)
              ⊎ ((slot ip blocks k ≡ 0) × (used sb blocks result.0 ≡ 0))))

-- Nothing changes when the slot has a block, or when there is none to be had.
pub Filled-there :
    (sb : Superblock) (k : ℕ) (ip : Inode) (blocks : Blocks)
    → IsMapped sb (slot ip blocks) blocks
    → slot ip blocks k ≢ 0
    → Filled sb k ip blocks (slot ip blocks k, ip, blocks)
Filled-there sb k ip blocks m n = record {
  mapped = m;
  others = λ _ _ _. refl;
  indirect = λ _. refl;
  contents = λ _ _ _ _. refl;
  grows = λ _ _ u. u;
  found = inr (n, refl, inl refl);
}

pub Filled-none :
    (sb : Superblock) (k : ℕ) (ip : Inode) (blocks : Blocks)
    → IsMapped sb (slot ip blocks) blocks
    → slot ip blocks k ≡ 0
    → ((c : ℕ) → c < sb.size → used sb blocks c ≡ 1)
    → Filled sb k ip blocks (0, ip, blocks)
Filled-none sb k ip blocks m z all = record {
  mapped = m;
  others = λ _ _ _. refl;
  indirect = λ _. refl;
  contents = λ _ _ _ _. refl;
  grows = λ _ _ u. u;
  found = inl (refl, z, z, all);
}

-- A new block for the empty slot `k`, in `ip'` and `blocks2`.
pub Filled-new :
    (sb : Superblock) (k b : ℕ) (ip ip' : Inode) (blocks blocks' blocks2 : Blocks)
    → IsMapped sb (slot ip blocks) blocks
    → Allocated sb blocks b blocks'
    → slot ip blocks k ≡ 0
    → ((m : ℕ) → slot ip' blocks2 m ≡ update (slot ip blocks) k b m)
    → ((c : ℕ) → c < sb.size → blocks2 (bblock c sb) ≡ blocks' (bblock c sb))
    → ((m i : ℕ)
        → slot ip blocks m ≢ 0
        → m ≢ ndirect
        → blocks2 (slot ip blocks m) i ≡ blocks' (slot ip blocks m) i)
    → (ip.addrs ndirect ≢ 0 → ip'.addrs ndirect ≡ ip.addrs ndirect)
    → Filled sb k ip blocks (b, ip', blocks2)
unfolding grown_slot
Filled-new sb k b ip ip' blocks blocks' blocks2 m new z slots bits same ind = record {
  mapped =
      subst (λ s. IsMapped sb s blocks2) (sym (fun_ext slots))
        (IsMapped-rebits sb (grown_slot sb (slot ip blocks) blocks blocks' b m new k) blocks'
          blocks2 (omega (arith, new.in_disk)) bits
          (grown-IsMapped sb (slot ip blocks) blocks blocks' b m new k z));
  others = λ n d _. slots n ∙ update_other (slot ip blocks) k b n (λ e. d (sym e));
  indirect = ind;
  contents = λ n i p d. same n i p d ∙ slot_same sb (slot ip blocks) blocks blocks' b m new n i p;
  grows = λ c h u.
      ap (λ bytes. bit bytes (c % bpb)) (bits c h)
      ∙ still_used sb (slot ip blocks) blocks blocks' b m new c h u;
  found = inr (
    new_pos sb (slot ip blocks) blocks blocks' b m new,
    slots k ∙ update_self (slot ip blocks) k b,
    inr (z, new.was_free),
  );
}

-- A direct slot, or that of the indirect block.
module _ (sb : Superblock) (k b : ℕ) (ip : Inode) (blocks blocks' : Blocks) (low : k ≤ ndirect)
    (m : IsMapped sb (slot ip blocks) blocks) (z : ip.addrs k ≡ 0)
    (new : Allocated sb blocks b blocks') where
  direct : Inode
  direct = record ip { addrs = update ip.addrs k b }

  direct_empty : slot ip blocks k ≡ 0
  direct_empty = ground (arith, low, z)

  entry_same :
      (j : ℕ)
      → ip.addrs ndirect ≢ 0
      → get_uint (blocks' (ip.addrs ndirect)) j ≡ get_uint (blocks (ip.addrs ndirect)) j
  entry_same j n =
      ap (λ bytes. get_uint bytes j)
        (fun_ext (λ i. slot_same sb (slot ip blocks) blocks blocks' b m new ndirect i n))

  direct_slots : (n : ℕ) → slot direct blocks' n ≡ update (slot ip blocks) k b n
  unfolding direct
  direct_slots n = elim (Bool-cases (leb n ndirect)) [
    | inl e ↦ rw e refl
    | inr e ↦
        let kn : (k == n) ≡ false = ground (arith, e, low) in
        elim (Bool-cases (k == ndirect)) [
          | inl d ↦
              let d' : k ≡ 60 = ground (arith, d) in
              let none_yet : ip.addrs 60 ≡ 0 = ap ip.addrs (sym d') ∙ z in
              elim (Bool-cases (ltb (n - 61) nindirect)) [
                | inl l ↦
                    rw
                      (
                        e,
                        kn,
                        d,
                        none_yet,
                        l,
                        get_zero (blocks' b) (n - 61) new.zeroed (ground (arith, l)),
                      )
                      (ground arith)
                | inr l ↦ rw (e, kn, d, none_yet, l) (ground arith)
              ]
          | inr d ↦ elim (Bool-cases (ip.addrs 60 == 0)) [
            | inl y ↦ rw (e, kn, d, y) refl
            | inr y ↦
                rw (e, kn, d, y, entry_same (n - 61) (λ w. absurd (ground (arith, y, w)))) refl
          ]
        ]
  ]

  direct-Filled : Filled sb k ip blocks (b, direct, blocks')
  unfolding direct
  direct-Filled =
      Filled-new sb k b ip direct blocks blocks' blocks' m new direct_empty direct_slots
        (λ _ _. refl) (λ _ _ _ _. refl)
        (λ n. update_other ip.addrs k b ndirect (λ e. n (ap ip.addrs (sym e) ∙ z)))

pub slot_direct :
    (k : ℕ) (ip : Inode) (blocks : Blocks) → k ≤ ndirect → slot ip blocks k ≡ ip.addrs k
slot_direct k ip blocks h = ground (arith, h)

direct_there :
    (k : ℕ) (ip : Inode) (sb : Superblock) (blocks : Blocks)
    → (ip.addrs k == 0) ≡ false
    → bmap_direct k ip sb blocks ≡ (ip.addrs k, ip, blocks)
unfolding bmap_direct
direct_there k ip sb blocks e = rw e refl

direct_new :
    (k b : ℕ) (ip : Inode) (sb : Superblock) (blocks blocks' : Blocks)
    → (ip.addrs k == 0) ≡ true
    → balloc sb blocks ≡ (b, blocks')
    → b ≢ 0
    → bmap_direct k ip sb blocks ≡ (b, record ip { addrs = update ip.addrs k b }, blocks')
unfolding bmap_direct
direct_new k b ip sb blocks blocks' e f n =
    let z : (b == 0) ≡ false = ground (arith, n) in rw (e, f, z) refl

direct_none :
    (k : ℕ) (ip : Inode) (sb : Superblock) (blocks : Blocks)
    → (ip.addrs k == 0) ≡ true
    → balloc sb blocks ≡ (0, blocks)
    → bmap_direct k ip sb blocks ≡ (0, ip, blocks)
unfolding bmap_direct
direct_none k ip sb blocks e f = rw (e, f) refl

pub bmap_direct-Filled :
    (sb : Superblock) (k : ℕ) (ip : Inode) (blocks : Blocks)
    → k ≤ ndirect
    → IsMapped sb (slot ip blocks) blocks
    → Filled sb k ip blocks (bmap_direct k ip sb blocks)
unfolding direct
bmap_direct-Filled sb k ip blocks h m = elim (Bool-cases (ip.addrs k == 0)) [
  | inr e ↦
      let s = slot_direct k ip blocks h in
      subst (Filled sb k ip blocks) (sym (direct_there k ip sb blocks e)) (
        subst (λ a. Filled sb k ip blocks (a, ip, blocks)) s
          (Filled-there sb k ip blocks m (λ z. absurd (ground (arith, e, s, z)))))
  | inl e ↦
      let z : ip.addrs k ≡ 0 = ground (arith, e) in
      elim (balloc-Ballocs sb blocks m.bitmap) [
        | inl (all, f) ↦
            subst (Filled sb k ip blocks) (sym (direct_none k ip sb blocks e f))
              (Filled-none sb k ip blocks m (slot_direct k ip blocks h ∙ z) all)
        | inr new ↦
            let n =
              new_pos sb (slot ip blocks) blocks (balloc sb blocks).1 (balloc sb blocks).0 m new in
            subst (Filled sb k ip blocks)
              (sym (direct_new k (balloc sb blocks).0 ip sb blocks (balloc sb blocks).1 e refl n))
              (direct-Filled sb k (balloc sb blocks).0 ip blocks (balloc sb blocks).1 h m z new)
      ]
]
