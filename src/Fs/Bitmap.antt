-- ===== src/Fs/Bitmap.antt =====
-- kernel/fs.c: the bitmap of blocks in use, and a block that is taken or freed.
use zept_os.Prelude.{
  ℕ, ◌%◌, ◌<◌, ◌≡◌, ◌≢◌, ◌∙◌, ap, sym, refl, ◌⊎◌, inl, inr, false, arith, ltb, ◌==◌, if◌then◌else◌,
  Bool-cases, update, ok, panic, update_self, update_other, ℕ_discrete,
}
use zept_os.Fs.{Blocks, bsize, bpb, Superblock, bblock, bzero, bit, mark, unmark, bfree}
use zept_os.Fs.Bits.{mark-bit, mark_other, unmark-bit, unmark_other}

-- The bit of a block in the bitmap.
abbrev pub used : Superblock → Blocks → (b : ℕ) → ℕ
used sb blocks b = bit (blocks (bblock b sb)) (b % bpb)

-- The blocks of the bitmap are blocks of the disk, and in use.
abbrev pub IsBitmap : Superblock → Blocks → Type 0
IsBitmap sb blocks =
    (b : ℕ) → b < sb.size → (bblock b sb < sb.size) × (used sb blocks (bblock b sb) ≡ 1)

pub bit_two : (bytes : ℕ → ℕ) (bi : ℕ) → (bit bytes bi == 0) ≡ false → bit bytes bi ≡ 1
bit_two bytes bi e = ground (arith, e)

-- Block `b`, the first one that was free, is now in use and all zero; the other blocks are in use or
-- free as before, and have the same contents, the one with the bit of `b` apart.
pub record Allocated (sb : Superblock) (blocks : Blocks) (b : ℕ) (blocks' : Blocks) : Type 0 where
  pub in_disk : b < sb.size
  pub was_free : used sb blocks b ≡ 0
  pub first : (c : ℕ) → c < b → used sb blocks c ≡ 1
  pub marked : used sb blocks' b ≡ 1
  pub others : (c : ℕ) → c < sb.size → c ≢ b → used sb blocks' c ≡ used sb blocks c
  pub zeroed : (i : ℕ) → i < bsize → blocks' b i ≡ 0
  pub same : (c i : ℕ) → c ≢ b → c ≢ bblock b sb → blocks' c i ≡ blocks c i

bzero_self : (b i : ℕ) (blocks : Blocks) → i < bsize → bzero b blocks b i ≡ 0
unfolding bzero
bzero_self b i blocks h = ground (arith, h)

bzero_other : (b c : ℕ) (blocks : Blocks) → b ≢ c → bzero b blocks c ≡ blocks c
unfolding bzero
bzero_other b c blocks n = update_other blocks b (λ i. if ltb i bsize then 0 else blocks b i) c n

module _ (sb : Superblock) (blocks : Blocks) (b : ℕ) (bitmap : IsBitmap sb blocks)
    (in_disk : b < sb.size) (free : used sb blocks b ≡ 0) where
  unfoldable pub marking : Blocks
  marking = update blocks (bblock b sb) (mark (blocks (bblock b sb)) (b % bpb))

  apart : (c : ℕ) → c < sb.size → b ≢ bblock c sb
  apart c h e =
      let z = sym free ∙ ap (used sb blocks) e ∙ (bitmap c h).1 in absurd (omega (arith, z))

  marking_bits : (c : ℕ) → c < sb.size → used sb (bzero b marking) c ≡ used sb marking c
  marking_bits c h =
      ap (λ bytes. bit bytes (c % bpb)) (bzero_other b (bblock c sb) marking (apart c h))

  marking_self : used sb marking b ≡ 1
  unfolding marking
  marking_self =
      ap (λ bytes. bit bytes (b % bpb))
        (update_self blocks (bblock b sb) (mark (blocks (bblock b sb)) (b % bpb)))
      ∙ mark-bit (blocks (bblock b sb)) (b % bpb) free

  marking_other : (c : ℕ) → c ≢ b → used sb marking c ≡ used sb blocks c
  unfolding marking
  marking_other c n = elim (ℕ_discrete (bblock b sb) (bblock c sb)) [
    | yes d ↦
        let m : b % bpb ≢ c % bpb = λ e. n (omega arith) in
        ap (λ k. bit (marking k) (c % bpb)) (sym d)
        ∙ ap (λ bytes. bit bytes (c % bpb))
            (update_self blocks (bblock b sb) (mark (blocks (bblock b sb)) (b % bpb)))
        ∙ mark_other (blocks (bblock b sb)) (b % bpb) (c % bpb) m free
        ∙ ap (λ k. bit (blocks k) (c % bpb)) d
    | no d ↦
        ap (λ bytes. bit bytes (c % bpb))
          (update_other blocks (bblock b sb) (mark (blocks (bblock b sb)) (b % bpb)) (bblock c sb)
            d)
  ]

  pub marking-Allocated :
      ((c : ℕ) → c < b → used sb blocks c ≡ 1) → Allocated sb blocks b (bzero b marking)
  unfolding marking
  marking-Allocated first = record {
    in_disk = in_disk;
    was_free = free;
    first = first;
    marked = marking_bits b in_disk ∙ marking_self;
    others = λ c h n. marking_bits c h ∙ marking_other c n;
    zeroed = λ i h. bzero_self b i marking h;
    same = λ c i n m.
        ap (λ bytes. bytes i)
          (bzero_other b c marking (λ e. n (sym e))
            ∙ update_other blocks (bblock b sb) (mark (blocks (bblock b sb)) (b % bpb)) c
                (λ e. m (sym e)));
  }

-- `bfree` panics when the block is free already; otherwise it frees the block, and no other one.
pub bfree_lem :
    (b : ℕ) (sb : Superblock) (blocks : Blocks)
    → ((used sb blocks b ≡ 0) × (bfree b sb blocks ≡ panic "freeing free block"))
      ⊎ ((blocks' : Blocks) × (used sb blocks b ≡ 1)
          × (bfree b sb blocks ≡ ok blocks')
          × (used sb blocks' b ≡ 0)
          × ((c : ℕ) → c ≢ b → used sb blocks' c ≡ used sb blocks c)
          × ((c : ℕ) → c ≢ bblock b sb → blocks' c ≡ blocks c))
unfolding bfree
bfree_lem b sb blocks = elim (Bool-cases (bit (blocks (bblock b sb)) (b % bpb) == 0)) [
  | inl e ↦ inl (ground (arith, e), rw e refl)
  | inr e ↦
      let one = bit_two (blocks (bblock b sb)) (b % bpb) e in
      let bytes = blocks (bblock b sb) in
      inr (
        update blocks (bblock b sb) (unmark bytes (b % bpb)),
        one,
        rw e refl,
        ap (λ z. bit z (b % bpb)) (update_self blocks (bblock b sb) (unmark bytes (b % bpb)))
            ∙ unmark-bit bytes (b % bpb) one,
        λ c n. elim (ℕ_discrete (bblock b sb) (bblock c sb)) [
          | yes d ↦
              let m : b % bpb ≢ c % bpb = λ f. n (omega arith) in
              ap (λ k. bit (update blocks (bblock b sb) (unmark bytes (b % bpb)) k) (c % bpb))
                (sym d)
              ∙ ap (λ z. bit z (c % bpb))
                  (update_self blocks (bblock b sb) (unmark bytes (b % bpb)))
              ∙ unmark_other bytes (b % bpb) (c % bpb) m one
              ∙ ap (λ k. bit (blocks k) (c % bpb)) d
          | no d ↦
              ap (λ z. bit z (c % bpb))
                (update_other blocks (bblock b sb) (unmark bytes (b % bpb)) (bblock c sb) d)
        ],
        λ c n. update_other blocks (bblock b sb) (unmark bytes (b % bpb)) c (λ f. n (sym f)),
      )
]
