-- ===== src/Fs/Content/Rounds.antt =====
-- kernel/fs.c: one round of the loop of `writei`.
use zept_os.Prelude.{
  ℕ, ◌+◌, ◌-◌, ◌/◌, ◌%◌, ◌≤◌, ◌<◌, ◌≡◌, ◌≢◌, ◌∙◌, ap, sym, fun_ext, ◌⊎◌, inl, inr, arith, ltb, leb,
  ◌==◌, if◌then◌else◌, update, update_self, update_other, ℕ_discrete,
}
use mathlib.Core.Path.{subst}
use zept_os.Fs.{Blocks, bsize, Superblock, bblock}
use zept_os.Fs.Inode.{Inode, ndirect, nindirect, get_uint}
use zept_os.Fs.Inode.Slots.{IsMapped, IsMapped-rebits}
use zept_os.Fs.Inode.Mapping.{slot, Filled}
use zept_os.Fs.Inode.Bmap.{slot_of}
use zept_os.Fs.Content.{Copy, copied}

-- The address of the block of an offset, and the byte there.
abbrev pub block_at : Inode → Blocks → (o : ℕ) → ℕ
block_at ip blocks o = slot ip blocks (slot_of (o / bsize))

abbrev pub content : Inode → Blocks → (o : ℕ) → ℕ
content ip blocks o = blocks (block_at ip blocks o) (o % bsize)

pub slot_of_direct : (bn : ℕ) → slot_of bn ≢ ndirect
slot_of_direct bn e = absurd (ground (arith, e))

slot_of_same : (a b : ℕ) → slot_of a ≡ slot_of b → a ≡ b
slot_of_same a b e = ground (arith, e)

module _ (sb : Superblock) (off addr : ℕ) (ip ip1 : Inode) (blocks blocks1 : Blocks) (c : Copy)
    (size : 0 < sb.size) (f : Filled sb (slot_of (off / bsize)) ip blocks (addr, ip1, blocks1))
    (there : addr ≢ 0) (at : slot ip1 blocks1 (slot_of (off / bsize)) ≡ addr)
    (room : off % bsize + c.count ≤ bsize) where
  unfoldable pub stored : Blocks
  stored = update blocks1 addr (copied (off % bsize) c (blocks1 addr))

  present : slot ip1 blocks1 (slot_of (off / bsize)) ≢ 0
  present z = there (sym at ∙ z)

  stored_other : (b : ℕ) → addr ≢ b → stored b ≡ blocks1 b
  unfolding stored
  stored_other b n = update_other blocks1 addr (copied (off % bsize) c (blocks1 addr)) b n

  stored_at : stored addr ≡ copied (off % bsize) c (blocks1 addr)
  unfolding stored
  stored_at = update_self blocks1 addr (copied (off % bsize) c (blocks1 addr))

  addr_apart : (k : ℕ) → slot_of (off / bsize) ≢ k → addr ≢ slot ip1 blocks1 k
  addr_apart k n e = f.mapped.distinct (slot_of (off / bsize)) k present n (at ∙ e)

  -- The indirect block is not the one that is written.
  stored_slot : (k : ℕ) → slot ip1 stored k ≡ slot ip1 blocks1 k
  stored_slot k =
      ap
        (λ (bytes : ℕ → ℕ).
          if leb k ndirect
          then ip1.addrs k
          else if ip1.addrs ndirect == 0
          then 0
          else if ltb (k - 61) nindirect
          then get_uint bytes (k - 61)
          else 0)
        (stored_other (ip1.addrs ndirect) (addr_apart ndirect (slot_of_direct (off / bsize))))

  stored_bits : (b : ℕ) → b < sb.size → stored (bblock b sb) ≡ blocks1 (bblock b sb)
  stored_bits b h =
      stored_other (bblock b sb) (λ e. f.mapped.apart (slot_of (off / bsize)) b present h (at ∙ e))

  pub stored-IsMapped : IsMapped sb (slot ip1 stored) stored
  stored-IsMapped =
      subst (λ s. IsMapped sb s stored) (sym (fun_ext stored_slot))
        (IsMapped-rebits sb (slot ip1 blocks1) blocks1 stored size stored_bits f.mapped)

  pub stored_written :
      (i : ℕ)
      → i < c.count
      → (block_at ip1 stored (off + i) ≢ 0) × (content ip1 stored (off + i) ≡ c.bytes i)
  stored_written i h =
      let d : (off + i) / bsize ≡ off / bsize = omega (arith, room, h) in
      let e : (off + i) % bsize ≡ off % bsize + i = omega (arith, room, h) in
      let where_it_is : block_at ip1 stored (off + i) ≡ addr =
        ap (λ b. slot ip1 stored (slot_of b)) d ∙ stored_slot (slot_of (off / bsize)) ∙ at in
      (
        λ z. there (sym where_it_is ∙ z),
        (λ j. stored (where_it_is j) (e j))
            ∙ ap (λ bytes. bytes (off % bsize + i)) stored_at
            ∙ ground (arith, h),
      )

  was_there :
      slot ip blocks (slot_of (off / bsize)) ≢ 0 → slot ip blocks (slot_of (off / bsize)) ≡ addr
  was_there n = elim f.found [
    | inl (z, _, _, _) ↦ absurd (there z)
    | inr (_, _, inl e) ↦ e
    | inr (_, _, inr (z, _)) ↦ absurd (n z)
  ]

  pub stored_kept :
      (o : ℕ)
      → block_at ip blocks o ≢ 0
      → (o < off) ⊎ (off + c.count ≤ o)
      → (block_at ip1 stored o ≢ 0) × (content ip1 stored o ≡ content ip blocks o)
  stored_kept o n out = elim (ℕ_discrete (off / bsize) (o / bsize)) [
    | yes d ↦
        let k_eq : block_at ip blocks o ≡ slot ip blocks (slot_of (off / bsize)) =
          ap (λ b. slot ip blocks (slot_of b)) (sym d) in
        let old = k_eq ∙ was_there (λ z. n (k_eq ∙ z)) in
        let new : block_at ip1 stored o ≡ addr =
          ap (λ b. slot ip1 stored (slot_of b)) (sym d)
          ∙ stored_slot (slot_of (off / bsize))
          ∙ at in
        let outside : copied (off % bsize) c (blocks1 addr) (o % bsize) ≡ blocks1 addr (o % bsize) =
          ground (arith, d, out) in
        (
          λ z. there (sym new ∙ z),
          ap (λ b. stored b (o % bsize)) new
              ∙ ap (λ bytes. bytes (o % bsize)) stored_at
              ∙ outside
              ∙ ap (λ b. blocks1 b (o % bsize)) (sym old)
              ∙ f.contents (slot_of (o / bsize)) (o % bsize) n (slot_of_direct (o / bsize)),
        )
    | no d ↦
        let k_ne : slot_of (off / bsize) ≢ slot_of (o / bsize) =
          (λ e. d (slot_of_same (off / bsize) (o / bsize) e)) in
        let keeps =
          f.others (slot_of (o / bsize)) (λ e. k_ne (sym e)) (slot_of_direct (o / bsize)) in
        let new : block_at ip1 stored o ≡ block_at ip blocks o =
          stored_slot (slot_of (o / bsize)) ∙ keeps in
        (
          λ z. n (sym new ∙ z),
          ap (λ b. stored b (o % bsize)) new
              ∙ ap (λ bytes. bytes (o % bsize))
                  (stored_other (block_at ip blocks o)
                    (λ e. addr_apart (slot_of (o / bsize)) k_ne (e ∙ sym keeps)))
              ∙ f.contents (slot_of (o / bsize)) (o % bsize) n (slot_of_direct (o / bsize)),
        )
  ]
