-- ===== src/Fs/Inode/Freed.antt =====
-- kernel/fs.c: the blocks of an inode are freed one by one.
use zept_os.Prelude.{
  ℕ, ◌<◌, ◌≡◌, ◌≢◌, ◌∙◌, ap, sym, refl, fun_ext, inl, inr, Bool, true, false, ◌||◌, arith, ◌==◌, ok,
  ℕ_discrete,
}
use mathlib.Core.Path.{subst}
use zept_os.Fs.{Blocks, Superblock, bblock, bfree}
use zept_os.Fs.Bitmap.{used, bfree_lem}
use zept_os.Fs.Inode.Slots.{IsMapped}

-- From `blocks` to `after`: the blocks of the slots that are `done` are free, all other blocks are in
-- use as before, and only the bitmap has changed.
pub record Freed (sb : Superblock) (slot : ℕ → ℕ) (done : ℕ → Bool) (blocks after : Blocks)
    : Type 0 where
  pub freed : (k : ℕ) → done k ≡ true → slot k ≢ 0 → used sb after (slot k) ≡ 0
  pub kept : (c : ℕ) → ((k : ℕ) → done k ≡ true → slot k ≢ c) → used sb after c ≡ used sb blocks c
  pub outside : (b : ℕ) → ((c : ℕ) → c < sb.size → b ≢ bblock c sb) → after b ≡ blocks b

pub Freed-none :
    (sb : Superblock) (slot : ℕ → ℕ) (blocks : Blocks) → Freed sb slot (λ _. false) blocks blocks
Freed-none sb slot blocks = record {
  freed = λ k d n. absurd (cc);
  kept = λ c a. refl;
  outside = λ b o. refl;
}

pub Freed-ext :
    (sb : Superblock) (slot : ℕ → ℕ) (done done' : ℕ → Bool) (blocks after : Blocks)
    → ((k : ℕ) → done k ≡ done' k)
    → Freed sb slot done blocks after
    → Freed sb slot done' blocks after
Freed-ext sb slot done done' blocks after e f =
    subst (λ d. Freed sb slot d blocks after) (fun_ext e) f

module _ (sb : Superblock) (slot : ℕ → ℕ) (done : ℕ → Bool) (blocks after : Blocks) (k : ℕ)
    (m : IsMapped sb slot blocks) (f : Freed sb slot done blocks after) where
  unfoldable pub with_slot : ℕ → Bool
  with_slot j = done j || (j == k)

  -- A slot without a block.
  pub Freed-skip : slot k ≡ 0 → Freed sb slot with_slot blocks after
  unfolding with_slot
  Freed-skip z = record {
    freed = λ j d n. elim (ℕ_discrete j k) [
      | yes e ↦ absurd (n (ap slot e ∙ z))
      | no e ↦ f.freed j (ground (arith, d, e)) n
    ];
    kept = λ c a. f.kept c (λ j d. a j (ground (arith, d)));
    outside = f.outside;
  }

  -- A slot with a block that is not freed yet.
  pub Freed-free :
      done k ≡ false
      → slot k ≢ 0
      → (next : Blocks) × (bfree (slot k) sb after ≡ ok next) × Freed sb slot with_slot blocks next
  unfolding with_slot
  Freed-free nd n =
      let still : used sb after (slot k) ≡ 1 =
        f.kept (slot k)
          (λ j d e. m.distinct k j n (λ g. let z = sym nd ∙ ap done g ∙ d in absurd (cc)) (sym e))
        ∙ m.taken k n in
      elim (bfree_lem (slot k) sb after) [
        | inl (z, _) ↦ let w = sym z ∙ still in absurd (omega (arith, w))
        | inr (next, _, e, z, others, same) ↦ (
          next,
          e,
          record {
            freed = λ j d p. elim (ℕ_discrete j k) [
              | yes g ↦ ap (λ i. used sb next (slot i)) g ∙ z
              | no g ↦
                  others (slot j) (λ h. m.distinct j k p g h) ∙ f.freed j (ground (arith, d, g)) p
            ];
            kept = λ c a.
                others c (λ h. a k (ground arith) (sym h))
                ∙ f.kept c (λ j d. a j (ground (arith, d)));
            outside = λ b o. same b (o (slot k) (m.in_disk k n)) ∙ f.outside b o;
          },
        )
      ]
