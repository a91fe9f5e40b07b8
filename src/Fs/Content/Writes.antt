-- ===== src/Fs/Content/Writes.antt =====
-- kernel/fs.c: what the loop of `writei` does when it ends.
use zept_os.Prelude.{
  ℕ, suc, ◌+◌, ◌-◌, ◌/◌, ◌%◌, ◌≤◌, ◌<◌, ◌≡◌, ◌≢◌, ◌∙◌, ap, sym, refl, ◌⊎◌, inl, inr, true, false,
  arith, ltb, ◌==◌, if◌then◌else◌, update, ok,
}
use zept_os.Fs.{Blocks, bsize, Superblock}
use zept_os.Fs.Bitmap.{used}
use zept_os.Fs.Inode.{Inode, bmap}
use zept_os.Fs.Inode.Slots.{IsMapped}
use zept_os.Fs.Inode.Mapping.{slot, Filled}
use zept_os.Fs.Inode.Bmap.{slot_of}
use zept_os.Fs.Content.{Copy, portion, copied, Progress, write_loop}
use zept_os.Fs.Content.Rounds.{block_at, content, slot_of_direct}

-- `either_copyin` copies bytes of the memory `user`, all of them unless it fails.
pub record Copies (copyin : ℕ → ℕ → Copy) (user : ℕ → ℕ) : Type 0 where
  pub within : (src m : ℕ) → (copyin src m).count ≤ m
  pub whole : (src m : ℕ) → (copyin src m).failed ≡ false → (copyin src m).count ≡ m
  pub bytes : (src m i : ℕ) → i < (copyin src m).count → (copyin src m).bytes i ≡ user (src + i)

-- From `p` the loop has written the bytes from `src` on and stands at `q`.
pub record Wrote (copyin : ℕ → ℕ → Copy) (user : ℕ → ℕ) (src n : ℕ) (sb : Superblock)
    (p q : Progress) : Type 0 where
  pub mapped : IsMapped sb (slot q.ip q.blocks) q.blocks
  pub more : p.tot ≤ q.tot
  pub most : q.tot ≤ n
  pub offset : q.off + p.tot ≡ p.off + q.tot
  pub written :
      (i : ℕ)
      → p.tot + i < q.tot
      → (block_at q.ip q.blocks (p.off + i) ≢ 0)
        × (content q.ip q.blocks (p.off + i) ≡ user (src + i))
  pub kept :
      (o : ℕ)
      → block_at p.ip p.blocks o ≢ 0
      → (o < p.off) ⊎ (p.off + (n - p.tot) ≤ o)
      → (block_at q.ip q.blocks o ≢ 0) × (content q.ip q.blocks o ≡ content p.ip p.blocks o)
  pub ended :
      (q.tot ≡ n)
      ⊎ ((c : ℕ) → c < sb.size → used sb q.blocks c ≡ 1)
      ⊎ ((copyin (src + (q.tot - p.tot)) (portion q.tot q.off n)).failed ≡ true)

pub portion_bounds :
    (tot off n : ℕ)
    → tot < n
    → (0 < portion tot off n)
      × (portion tot off n ≤ n - tot)
      × (off % bsize + portion tot off n ≤ bsize)
portion_bounds tot off n h = (ground (arith, h), ground (arith, h), ground (arith, h))

pub loop_done :
    (copyin : ℕ → ℕ → Copy) (fuel src n : ℕ) (sb : Superblock) (p : Progress)
    → n ≤ p.tot
    → write_loop copyin (suc fuel) src n sb p ≡ ok p
unfolding write_loop
loop_done copyin fuel src n sb p h = let e : ltb p.tot n ≡ false = ground (arith, h) in rw e refl

pub loop_full :
    (copyin : ℕ → ℕ → Copy) (fuel src n : ℕ) (sb : Superblock) (p : Progress) (ip : Inode)
    (blocks : Blocks)
    → p.tot < n
    → bmap (p.off / bsize) p.ip sb p.blocks ≡ ok (0, ip, blocks)
    → write_loop copyin (suc fuel) src n sb p ≡ ok (record p { ip = ip; blocks = blocks })
unfolding write_loop
loop_full copyin fuel src n sb p ip blocks h b =
    let e : ltb p.tot n ≡ true = ground (arith, h) in rw (e, b) refl

-- The round stores what `either_copyin` has copied.
pub loop_round :
    (copyin : ℕ → ℕ → Copy) (fuel src n addr : ℕ) (sb : Superblock) (p : Progress) (ip : Inode)
    (blocks : Blocks)
    → p.tot < n
    → bmap (p.off / bsize) p.ip sb p.blocks ≡ ok (addr, ip, blocks)
    → addr ≢ 0
    → let m = portion p.tot p.off n in
      let c = copyin src m in
      let blocks' = update blocks addr (copied (p.off % bsize) c (blocks addr)) in
      write_loop copyin (suc fuel) src n sb p ≡ (
        if c.failed
        then ok (record p { ip = ip; blocks = blocks' })
        else write_loop copyin fuel
            (src + m)
            n
            sb
            (record { tot = p.tot + m; off = p.off + m; ip = ip; blocks = blocks' }))
unfolding write_loop
loop_round copyin fuel src n addr sb p ip blocks h b z =
    let e : ltb p.tot n ≡ true = ground (arith, h) in
    let f : (addr == 0) ≡ false = ground (arith, z) in rw (e, b, f) refl

pub Wrote-done :
    (copyin : ℕ → ℕ → Copy) (user : ℕ → ℕ) (src n : ℕ) (sb : Superblock) (p : Progress)
    → IsMapped sb (slot p.ip p.blocks) p.blocks
    → p.tot ≡ n
    → Wrote copyin user src n sb p p
Wrote-done copyin user src n sb p m e = record {
  mapped = m;
  more = omega arith;
  most = omega (arith, e);
  offset = refl;
  written = λ i h. absurd (omega arith);
  kept = λ o a out. (a, refl);
  ended = inl e;
}

pub Wrote-full :
    (copyin : ℕ → ℕ → Copy) (user : ℕ → ℕ) (src n : ℕ) (sb : Superblock) (p : Progress) (ip : Inode)
    (blocks : Blocks)
    → p.tot < n
    → Filled sb (slot_of (p.off / bsize)) p.ip p.blocks (0, ip, blocks)
    → slot p.ip p.blocks (slot_of (p.off / bsize)) ≡ 0
    → ((c : ℕ) → c < sb.size → used sb blocks c ≡ 1)
    → Wrote copyin user src n sb p (record p { ip = ip; blocks = blocks })
Wrote-full copyin user src n sb p ip blocks h f z all = record {
  mapped = f.mapped;
  more = omega arith;
  most = omega (arith, h);
  offset = refl;
  written = λ i l. absurd (omega arith);
  kept = λ o a out.
      let apart : slot_of (o / bsize) ≢ slot_of (p.off / bsize) =
        (λ e. a (ap (slot p.ip p.blocks) e ∙ z)) in
      let direct = slot_of_direct (o / bsize) in
      let keeps = f.others (slot_of (o / bsize)) apart direct in
      (
        λ y. a (sym keeps ∙ y),
        ap (λ b. blocks b (o % bsize)) keeps
            ∙ f.contents (slot_of (o / bsize)) (o % bsize) a direct,
      );
  ended = inr (inl all);
}
