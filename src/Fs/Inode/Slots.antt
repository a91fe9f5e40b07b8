-- ===== src/Fs/Inode/Slots.antt =====
-- kernel/fs.c: the slots of an inode for blocks: direct ones, the indirect block, and its entries.
use zept_os.Prelude.{
  ℕ, ◌%◌, ◌<◌, ◌≡◌, ◌≢◌, ◌∙◌, ap, sym, ◌⊎◌, inl, inr, arith, update, update_self, update_other,
  ℕ_discrete,
}
use zept_os.Fs.{Blocks, Superblock, bblock, bpb, bit}
use zept_os.Fs.Bitmap.{used, IsBitmap, Allocated}

-- The slots that are not 0 hold distinct blocks of the disk in use, and none of the bitmap's; block 0,
-- which is no block's address, is in use.
pub record IsMapped (sb : Superblock) (slot : ℕ → ℕ) (blocks : Blocks) : Type 0 where
  pub bitmap : IsBitmap sb blocks
  pub boot : used sb blocks 0 ≡ 1
  pub in_disk : (k : ℕ) → slot k ≢ 0 → slot k < sb.size
  pub taken : (k : ℕ) → slot k ≢ 0 → used sb blocks (slot k) ≡ 1
  pub apart : (k c : ℕ) → slot k ≢ 0 → c < sb.size → slot k ≢ bblock c sb
  pub distinct : (k m : ℕ) → slot k ≢ 0 → k ≢ m → slot k ≢ slot m

module _ (sb : Superblock) (slot : ℕ → ℕ) (blocks blocks' : Blocks) (b : ℕ)
    (mapped : IsMapped sb slot blocks) (new : Allocated sb blocks b blocks') where
  -- A block in use is not the new one.
  pub not_new : (c : ℕ) → used sb blocks c ≡ 1 → c ≢ b
  not_new c h e = let z = sym (ap (used sb blocks) e) ∙ h in absurd (omega (arith, z, new.was_free))

  pub new_pos : b ≢ 0
  new_pos e = not_new 0 mapped.boot (sym e)

  pub still_used : (c : ℕ) → c < sb.size → used sb blocks c ≡ 1 → used sb blocks' c ≡ 1
  still_used c h u = new.others c h (not_new c u) ∙ u

  new-IsBitmap : IsBitmap sb blocks'
  new-IsBitmap c h = let (l, u) = mapped.bitmap c h in (l, still_used (bblock c sb) l u)

  pub slot_same : (k i : ℕ) → slot k ≢ 0 → blocks' (slot k) i ≡ blocks (slot k) i
  slot_same k i n =
      new.same (slot k) i (not_new (slot k) (mapped.taken k n)) (mapped.apart k b n new.in_disk)

  new_apart : (c : ℕ) → c < sb.size → b ≢ bblock c sb
  new_apart c h e = not_new (bblock c sb) (mapped.bitmap c h).1 (sym e)

  new_boot : used sb blocks' 0 ≡ 1
  new_boot = still_used 0 (omega (arith, new.in_disk)) mapped.boot

  unfoldable pub grown_slot : (k : ℕ) → ℕ → ℕ
  grown_slot k = update slot k b

  grown_cases : (k m : ℕ) → ((k ≡ m) × (grown_slot k m ≡ b)) ⊎ ((k ≢ m) × (grown_slot k m ≡ slot m))
  unfolding grown_slot
  grown_cases k m = elim (ℕ_discrete k m) [
    | yes d ↦ inl (d, ap (update slot k b) (sym d) ∙ update_self slot k b)
    | no d ↦ inr (d, update_other slot k b m d)
  ]

  -- The new block in an empty slot.
  pub grown-IsMapped : (k : ℕ) → slot k ≡ 0 → IsMapped sb (grown_slot k) blocks'
  grown-IsMapped k z = record {
    bitmap = new-IsBitmap;
    boot = new_boot;
    in_disk = λ m n. elim (grown_cases k m) [
      | inl (_, e) ↦ rw e new.in_disk
      | inr (_, e) ↦ let n' = rw e at n in rw e (mapped.in_disk m n')
    ];
    taken = λ m n. elim (grown_cases k m) [
      | inl (_, e) ↦ rw e new.marked
      | inr (_, e) ↦
          let n' = rw e at n in rw e (still_used (slot m) (mapped.in_disk m n') (mapped.taken m n'))
    ];
    apart = λ m c n h. elim (grown_cases k m) [
      | inl (_, e) ↦ rw e (new_apart c h)
      | inr (_, e) ↦ let n' = rw e at n in rw e (mapped.apart m c n' h)
    ];
    distinct = λ m l n d. elim (grown_cases k m) [
      | inl (g, e) ↦ elim (grown_cases k l) [
        | inl (g', _) ↦ absurd (d (sym g ∙ g'))
        | inr (_, e') ↦ rw (e, e') (other l)
      ]
      | inr (g, e) ↦
          let n' = rw e at n in
          elim (grown_cases k l) [
            | inl (_, e') ↦ rw (e, e') (not_new (slot m) (mapped.taken m n'))
            | inr (_, e') ↦ rw (e, e') (mapped.distinct m l n' d)
          ]
    ];
  }
    where
      other : (l : ℕ) → b ≢ slot l
      other l e = not_new (slot l) (mapped.taken l (λ z. new_pos (e ∙ z))) (sym e)

-- The slots depend on the bitmap only through its blocks.
pub IsMapped-rebits :
    (sb : Superblock) (slot : ℕ → ℕ) (blocks blocks2 : Blocks)
    → 0 < sb.size
    → ((c : ℕ) → c < sb.size → blocks2 (bblock c sb) ≡ blocks (bblock c sb))
    → IsMapped sb slot blocks
    → IsMapped sb slot blocks2
IsMapped-rebits sb slot blocks blocks2 p same m = record {
  bitmap = λ c h. let (l, u) = m.bitmap c h in (l, bits (bblock c sb) l ∙ u);
  boot = bits 0 p ∙ m.boot;
  in_disk = m.in_disk;
  taken = λ k n. bits (slot k) (m.in_disk k n) ∙ m.taken k n;
  apart = m.apart;
  distinct = m.distinct;
}
  where
    bits : (c : ℕ) → c < sb.size → used sb blocks2 c ≡ used sb blocks c
    bits c h = ap (λ bytes. bit bytes (c % bpb)) (same c h)
