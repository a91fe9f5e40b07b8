-- ===== src/Fs/Inode/Bmap.antt =====
-- kernel/fs.c: `bmap` on direct blocks, and on the entries of the indirect block.
use zept_os.Prelude.{
  ℕ, ◌+◌, ◌-◌, ◌%◌, ◌^◌, ◌≤◌, ◌<◌, ◌≡◌, ◌≢◌, ◌∙◌, ap, sym, refl, ◌⊎◌, inl, inr, true, false, arith,
  ltb, leb, ◌==◌, if◌then◌else◌, Bool-cases, ok, panic,
}
use mathlib.Core.Path.{subst}
use zept_os.Fs.{Blocks, Superblock, bblock, bpb, bit}
use zept_os.Fs.Bitmap.{used}
use zept_os.Fs.Inode.{Inode, ndirect, nindirect, bmap_direct, bmap_indirect, bmap}
use zept_os.Fs.Inode.Slots.{IsMapped}
use zept_os.Fs.Inode.Mapping.{slot, Filled, bmap_direct-Filled}
use zept_os.Fs.Inode.Indirect.{bmap_indirect-Filled}

-- The slot of the block `bn` of a file.
abbrev pub slot_of : (bn : ℕ) → ℕ
slot_of bn = if ltb bn ndirect then bn else 61 + (bn - ndirect)

not_one : (bytes : ℕ → ℕ) (bi : ℕ) → bit bytes bi ≢ 1 → bit bytes bi ≡ 0
not_one bytes bi n = omega (arith, n)

-- First the indirect block, then its entry.
Filled-trans :
    (sb : Superblock) (k : ℕ) (ip : Inode) (blocks : Blocks) (r1 r2 : ℕ × Inode × Blocks)
    → k ≢ ndirect
    → Filled sb ndirect ip blocks r1
    → Filled sb k r1.1 r1.2 r2
    → Filled sb k ip blocks r2
Filled-trans sb k ip blocks r1 r2 nk f g = record {
  mapped = g.mapped;
  others = λ m n d. g.others m n d ∙ f.others m d d;
  indirect = λ n. let e = f.indirect n in g.indirect (λ z. n (sym e ∙ z)) ∙ e;
  contents = λ m i n d.
      let e = f.others m d d in
      ap (λ a. r2.2 a i) (sym e)
      ∙ g.contents m i (λ z. n (sym e ∙ z)) d
      ∙ ap (λ a. r1.2 a i) e
      ∙ f.contents m i n d;
  grows = λ c h u. g.grows c h (f.grows c h u);
  found = elim g.found [
    | inl (z, e, e', all) ↦ inl (z, e, sym (f.others k nk nk) ∙ e', all)
    | inr (n, e, inl old) ↦ inr (n, e, inl (sym (f.others k nk nk) ∙ old))
    | inr (n, e, inr (z, free)) ↦
        let inside : r2.0 < sb.size =
          subst (λ a. a < sb.size) e (g.mapped.in_disk k (λ z. n (sym e ∙ z))) in
        inr (
          n,
          e,
          inr (
            sym (f.others k nk nk) ∙ z,
            not_one (blocks (bblock r2.0 sb)) (r2.0 % bpb)
                (λ u. let v = sym free ∙ f.grows r2.0 inside u in absurd (omega (arith, v))),
          ),
        )
  ];
}

-- There was no block for the indirect block.
Filled-short :
    (sb : Superblock) (bn : ℕ) (ip : Inode) (blocks : Blocks) (r1 : ℕ × Inode × Blocks)
    → Filled sb ndirect ip blocks r1
    → r1.0 ≡ 0
    → slot r1.1 r1.2 ndirect ≡ 0
    → ((c : ℕ) → c < sb.size → used sb r1.2 c ≡ 1)
    → Filled sb (61 + bn) ip blocks (0, r1.1, r1.2)
Filled-short sb bn ip blocks r1 f e z all = record {
  mapped = f.mapped;
  others = λ m _ d. f.others m d d;
  indirect = f.indirect;
  contents = f.contents;
  grows = f.grows;
  found =
      let a : leb (61 + bn) ndirect ≡ false = ground arith in
      let b : (r1.1.addrs ndirect == 0) ≡ true = ground (arith, z) in
      let now : slot r1.1 r1.2 (61 + bn) ≡ 0 = rw (a, b) refl in
      let apart : 61 + bn ≢ ndirect = (λ d. absurd (omega (arith, d))) in
      inl (refl, now, sym (f.others (61 + bn) apart apart) ∙ now, all);
}

bmap_low :
    (bn : ℕ) (ip : Inode) (sb : Superblock) (blocks : Blocks)
    → ltb bn ndirect ≡ true
    → bmap bn ip sb blocks ≡ ok (bmap_direct bn ip sb blocks)
unfolding bmap
bmap_low bn ip sb blocks e = rw e refl

bmap_high :
    (bn : ℕ) (ip : Inode) (sb : Superblock) (blocks : Blocks) (r1 : ℕ × Inode × Blocks)
    → ltb bn ndirect ≡ false
    → ltb (bn - ndirect) nindirect ≡ true
    → bmap_direct ndirect ip sb blocks ≡ r1
    → bmap bn ip sb blocks ≡ (
        if r1.0 == 0
        then ok (0, r1.1, r1.2)
        else ok (bmap_indirect r1.0 (bn - ndirect) r1.1 sb r1.2))
unfolding bmap
bmap_high bn ip sb blocks r1 e f g = rw (e, f, g) refl

bmap_past :
    (bn : ℕ) (ip : Inode) (sb : Superblock) (blocks : Blocks)
    → 316 ≤ bn
    → bmap bn ip sb blocks ≡ panic "bmap: out of range"
unfolding bmap
bmap_past bn ip sb blocks h =
    let e : ltb bn ndirect ≡ false = ground (arith, h) in
    let f : ltb (bn - ndirect) nindirect ≡ false = ground (arith, h) in rw (e, f) refl

high-Filled :
    (sb : Superblock) (bn : ℕ) (ip : Inode) (blocks : Blocks) (r1 : ℕ × Inode × Blocks)
    → bn < nindirect
    → sb.size < 2 ^ 32
    → Filled sb ndirect ip blocks r1
    → (result : ℕ × Inode × Blocks) × ((if r1.0 == 0
          then ok (0, r1.1, r1.2)
          else ok (bmap_indirect r1.0 bn r1.1 sb r1.2))
        ≡ ok result)
      × Filled sb (61 + bn) ip blocks result
high-Filled sb bn ip blocks r1 h size f = elim f.found [
  | inl (e, z, _, all) ↦ (_, rw e refl, Filled-short sb bn ip blocks r1 f e z all)
  | inr (n, e, _) ↦
      let z : (r1.0 == 0) ≡ false = ground (arith, n) in
      let e' : r1.1.addrs ndirect ≡ r1.0 = e in
      (
        _,
        rw z refl,
        Filled-trans sb (61 + bn) ip blocks r1 _ (λ d. absurd (omega (arith, d))) f
            (subst (λ a. Filled sb (61 + bn) r1.1 r1.2 (bmap_indirect a bn r1.1 sb r1.2)) e'
              (bmap_indirect-Filled sb bn r1.1 r1.2 h size (λ y. n (sym e' ∙ y)) f.mapped)),
      )
]

-- `bmap` of a block within MAXFILE, for an inode whose blocks are distinct blocks in use: it returns the
-- block's address; a block that had none has got one that was free, or every block is in use and the
-- result is 0. The blocks of the inode are again distinct and in use, those of all other positions are
-- the same with the same contents, and no block is freed. Past MAXFILE it panics.
pub bmap-Filled :
    (sb : Superblock) (bn : ℕ) (ip : Inode) (blocks : Blocks)
    → sb.size < 2 ^ 32
    → IsMapped sb (slot ip blocks) blocks
    → ((bn < 316)
        × ((result : ℕ × Inode × Blocks) × (bmap bn ip sb blocks ≡ ok result)
            × Filled sb (slot_of bn) ip blocks result))
      ⊎ ((316 ≤ bn) × (bmap bn ip sb blocks ≡ panic "bmap: out of range"))
bmap-Filled sb bn ip blocks size m = elim (Bool-cases (ltb bn ndirect)) [
  | inl e ↦ inl (
    ground (arith, e),
    (
      bmap_direct bn ip sb blocks,
      bmap_low bn ip sb blocks e,
      rw e (bmap_direct-Filled sb bn ip blocks (ground (arith, e)) m),
    ),
  )
  | inr e ↦ elim (Bool-cases (ltb (bn - ndirect) nindirect)) [
    | inl f ↦
        let (result, g, filled) =
          high-Filled sb (bn - ndirect) ip blocks (bmap_direct ndirect ip sb blocks)
            (ground (arith, f)) size (bmap_direct-Filled sb ndirect ip blocks (omega arith) m) in
        inl (ground (arith, e, f), (result, bmap_high bn ip sb blocks _ e f refl ∙ g, rw e filled))
    | inr f ↦ let h : 316 ≤ bn = ground (arith, e, f) in inr (h, bmap_past bn ip sb blocks h)
  ]
]
