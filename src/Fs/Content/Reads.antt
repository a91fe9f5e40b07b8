-- ===== src/Fs/Content/Reads.antt =====
-- kernel/fs.c: what the loop of `readi` does when it ends.
use zept_os.Prelude.{
  ℕ, ◌+◌, ◌-◌, ◌/◌, ◌%◌, ◌≤◌, ◌<◌, ◌≡◌, ◌≢◌, ◌∙◌, ap, sym, ◌⊎◌, inl, inr, Bool, true, false,
  ℕ_discrete,
}
use zept_os.Fs.{Blocks, bsize, Superblock}
use zept_os.Fs.Inode.{Inode}
use zept_os.Fs.Inode.Slots.{IsMapped}
use zept_os.Fs.Inode.Mapping.{slot, Filled}
use zept_os.Fs.Inode.Bmap.{slot_of}
use zept_os.Fs.Content.{portion, Reading}
use zept_os.Fs.Content.Rounds.{block_at, content, slot_of_direct}

-- `either_copyout` copies no more than it is asked to, and all of it unless it fails.
pub record CopiesOut (copyout : ℕ → ℕ → Bool × ℕ) : Type 0 where
  pub within : (dst m : ℕ) → (copyout dst m).1 ≤ m
  pub whole : (dst m : ℕ) → (copyout dst m).0 ≡ false → (copyout dst m).1 ≡ m

-- Every byte of the `n` from `p` on has a block.
abbrev pub Present : (n : ℕ) → Reading → Type 0
Present n p = (i : ℕ) → p.tot + i < n → block_at p.ip p.blocks (p.off + i) ≢ 0

-- The blocks and the bytes of the file are as before.
pub record SameFile (sb : Superblock) (p q : Reading) : Type 0 where
  pub mapped : IsMapped sb (slot q.ip q.blocks) q.blocks
  pub bytes :
      (o : ℕ)
      → block_at p.ip p.blocks o ≢ 0
      → (block_at q.ip q.blocks o ≢ 0) × (content q.ip q.blocks o ≡ content p.ip p.blocks o)

-- From `p` the loop has read the rest of the `n` bytes to `dst`, or it has read some of them and the
-- copy of the portion that comes next has failed.
pub record Read (copyout : ℕ → ℕ → Bool × ℕ) (n dst : ℕ) (sb : Superblock) (p : Reading)
    (result : Bool × Reading) : Type 0 where
  pub file : SameFile sb p result.1
  pub outside : (a : ℕ) → (a < dst) ⊎ (dst + (n - p.tot) ≤ a) → result.1.user a ≡ p.user a
  pub more : p.tot ≤ result.1.tot
  pub most : result.1.tot ≤ n
  pub offset : result.1.off + p.tot ≡ p.off + result.1.tot
  pub bytes :
      (i : ℕ)
      → p.tot + i < result.1.tot
      → result.1.user (dst + i) ≡ content p.ip p.blocks (p.off + i)
  pub done :
      ((result.0 ≡ true)
        × (result.1.tot < n)
        × ((copyout (dst + (result.1.tot - p.tot)) (portion result.1.tot result.1.off n)).0 ≡ true))
      ⊎ ((result.0 ≡ false) × (result.1.tot ≡ n))

-- `bmap` of a block that is there.
pub present_round :
    (sb : Superblock) (p : Reading) (r : ℕ × Inode × Blocks)
    → slot p.ip p.blocks (slot_of (p.off / bsize)) ≢ 0
    → Filled sb (slot_of (p.off / bsize)) p.ip p.blocks r
    → (r.0 ≢ 0)
      × (slot r.1 r.2 (slot_of (p.off / bsize)) ≡ r.0)
      × ((user : ℕ → ℕ) (tot off : ℕ)
          → SameFile sb p (record { tot = tot; off = off; ip = r.1; blocks = r.2; user = user }))
present_round sb p r n f = elim f.found [
  | inl (_, _, z, _) ↦ absurd (n z)
  | inr (_, _, inr (z, _)) ↦ absurd (n z)
  | inr (y, at, inl old) ↦ (
    y,
    at,
    λ user tot off. record {
      mapped = f.mapped;
      bytes = λ o a. elim (ℕ_discrete (slot_of (o / bsize)) (slot_of (p.off / bsize))) [
        | yes d ↦
            let same : block_at r.1 r.2 o ≡ block_at p.ip p.blocks o =
              ap (slot r.1 r.2) d ∙ at ∙ sym old ∙ ap (slot p.ip p.blocks) (sym d) in
            (
              λ z. a (sym same ∙ z),
              ap (λ b. r.2 b (o % bsize)) same
                  ∙ f.contents (slot_of (o / bsize)) (o % bsize) a (slot_of_direct (o / bsize)),
            )
        | no d ↦
            let same = f.others (slot_of (o / bsize)) d (slot_of_direct (o / bsize)) in
            (
              λ z. a (sym same ∙ z),
              ap (λ b. r.2 b (o % bsize)) same
                  ∙ f.contents (slot_of (o / bsize)) (o % bsize) a (slot_of_direct (o / bsize)),
            )
      ];
    },
  )
]
