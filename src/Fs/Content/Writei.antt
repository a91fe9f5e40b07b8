-- ===== src/Fs/Content/Writei.antt =====
-- kernel/fs.c: `writei` as a change of the content of an inode.
use zept_os.Prelude.{
  ℕ, zero, suc, ◌+◌, ◌-◌, ◌*◌, ◌/◌, ◌%◌, ◌^◌, ◌≤◌, ◌<◌, ◌≡◌, ◌≢◌, ◌∙◌, refl, ◌⊎◌, inl, inr, true,
  false, ◌||◌, none, some, arith, ltb, if◌then◌else◌, Bool-cases, ok,
}
use mathlib.Core.Path.{subst}
use zept_os.Fs.{Blocks, bsize, Superblock}
use zept_os.Fs.Inode.{Inode, iupdate}
use zept_os.Fs.Inode.Slots.{IsMapped}
use zept_os.Fs.Inode.Mapping.{slot, Filled}
use zept_os.Fs.Inode.Bmap.{slot_of, bmap-Filled}
use zept_os.Fs.Content.{Copy, portion, Progress, write_loop, writei}
use zept_os.Fs.Content.Rounds.{
  block_at, content, stored, stored-IsMapped, stored_written, stored_kept,
}
use zept_os.Fs.Content.Writes.{
  Copies, Wrote, portion_bounds, loop_done, loop_full, loop_round, Wrote-done, Wrote-full,
}

no_more : (src t : ℕ) → src ≡ src + (t - t)
no_more src t = omega arith

-- A round that stores a portion, in front of the rest of the loop.
module _ (copyin : ℕ → ℕ → Copy) (user : ℕ → ℕ) (src n addr : ℕ) (sb : Superblock) (p : Progress)
    (ip : Inode) (blocks : Blocks) (size : 0 < sb.size) (copies : Copies copyin user)
    (less : p.tot < n) (f : Filled sb (slot_of (p.off / bsize)) p.ip p.blocks (addr, ip, blocks))
    (there : addr ≢ 0) (at : slot ip blocks (slot_of (p.off / bsize)) ≡ addr) where
  copy : Copy
  copy = copyin src (portion p.tot p.off n)

  room : p.off % bsize + copy.count ≤ bsize
  unfolding copy
  room =
      let (_, _, r) = portion_bounds p.tot p.off n less in
      omega (arith, r, copies.within src (portion p.tot p.off n))

  after : Blocks
  unfolding copy
  after = stored sb p.off addr p.ip ip p.blocks blocks copy size f there at room

  after-IsMapped : IsMapped sb (slot ip after) after
  unfolding after
  after-IsMapped = stored-IsMapped sb p.off addr p.ip ip p.blocks blocks copy size f there at room

  kept_outside :
      (o : ℕ)
      → block_at p.ip p.blocks o ≢ 0
      → (o < p.off) ⊎ (p.off + (n - p.tot) ≤ o)
      → (block_at ip after o ≢ 0) × (content ip after o ≡ content p.ip p.blocks o)
  unfolding after copy
  kept_outside o a out =
      let (_, r, _) = portion_bounds p.tot p.off n less in
      stored_kept sb p.off addr p.ip ip p.blocks blocks copy size f there at room o a (elim out [
        | inl l ↦ inl l
        | inr l ↦ inr (omega (arith, l, r, copies.within src (portion p.tot p.off n)))
      ])

  Wrote-failed :
      copy.failed ≡ true → Wrote copyin user src n sb p (record p { ip = ip; blocks = after })
  unfolding copy
  Wrote-failed e = record {
    mapped = after-IsMapped;
    more = omega arith;
    most = omega (arith, less);
    offset = refl;
    written = λ i l. absurd (omega arith);
    kept = kept_outside;
    ended =
        inr (
          inr
            (subst (λ s. (copyin s (portion p.tot p.off n)).failed ≡ true) (no_more src p.tot) e));
  }

  -- The portion is in place.
  round_written :
      copy.failed ≡ false
      → (i : ℕ) → i < portion p.tot p.off n
      → (block_at ip after (p.off + i) ≢ 0) × (content ip after (p.off + i) ≡ user (src + i))
  unfolding after copy
  round_written e i h =
      let i' : i < copy.count = omega (arith, h, copies.whole src (portion p.tot p.off n) e) in
      let (b, s) =
        stored_written sb p.off addr p.ip ip p.blocks blocks copy size f there at room i i' in
      (b, s ∙ copies.bytes src (portion p.tot p.off n) i i')

  next : Progress
  next = record {
    tot = p.tot + portion p.tot p.off n;
    off = p.off + portion p.tot p.off n;
    ip = ip;
    blocks = after;
  }

  Wrote-round :
      (q : Progress)
      → copy.failed ≡ false
      → Wrote copyin user (src + portion p.tot p.off n) n sb next q
      → Wrote copyin user src n sb p q
  unfolding next copy
  Wrote-round q e w =
      let m = portion p.tot p.off n in
      let (pos, r, _) = portion_bounds p.tot p.off n less in
      let all : copy.count ≡ m = copies.whole src m e in
      record {
        mapped = w.mapped;
        more = omega (arith, w.more);
        most = w.most;
        offset = omega (arith, w.offset, w.more);
        written = λ i l. elim (Bool-cases (ltb i m)) [
          | inl h ↦
              let h' : i < m = ground (arith, h) in
              let (b, s) = round_written e i h' in
              let (b2, s2) = w.kept (p.off + i) b (inl (omega (arith, h'))) in (b2, s2 ∙ s)
          | inr h ↦
              let h' : m ≤ i = ground (arith, h) in
              let place : p.off + m + (i - m) ≡ p.off + i = omega arith in
              let source : src + m + (i - m) ≡ src + i = omega arith in
              subst
                (λ (z : ℕ × ℕ).
                  (block_at q.ip q.blocks z.0 ≢ 0) × (content q.ip q.blocks z.0 ≡ user z.1))
                (λ j. (place j, source j)) (w.written (i - m) (omega arith))
        ];
        kept = λ o a out.
            let (b, s) = kept_outside o a out in
            let (b2, s2) =
              w.kept o b
                (elim out [ inl l ↦ inl (omega arith) | inr l ↦ inr (omega (arith, r)) ]) in
            (b2, s2 ∙ s);
        ended = elim w.ended [
          | inl all ↦ inl all
          | inr (inl full) ↦ inr (inl full)
          | inr (inr bad) ↦
              let place : src + m + (q.tot - (p.tot + m)) ≡ src + (q.tot - p.tot) =
                omega (arith, w.more) in
              inr (inr (subst (λ s. (copyin s (portion q.tot q.off n)).failed ≡ true) place bad))
        ];
      }

write_loop-Wrote :
    (copyin : ℕ → ℕ → Copy) (user : ℕ → ℕ) (fuel src n : ℕ) (sb : Superblock) (p : Progress)
    → Copies copyin user
    → 0 < sb.size
    → sb.size < 2 ^ 32
    → IsMapped sb (slot p.ip p.blocks) p.blocks
    → p.tot ≤ n
    → p.off + (n - p.tot) ≤ 316 * 1024
    → n - p.tot < fuel
    → (q : Progress) × (write_loop copyin fuel src n sb p ≡ ok q) × Wrote copyin user src n sb p q
unfolding next after copy stored
write_loop-Wrote copyin user zero src n sb p c z s m t o l = absurd (omega arith)
write_loop-Wrote copyin user (suc fuel) src n sb p c z s m t o l = elim (Bool-cases (ltb p.tot n)) [
  | inr e ↦
      let h : n ≤ p.tot = ground (arith, e) in
      (p, loop_done copyin fuel src n sb p h, Wrote-done copyin user src n sb p m (omega arith))
  | inl e ↦
      let h : p.tot < n = ground (arith, e) in
      elim (bmap-Filled sb (p.off / bsize) p.ip p.blocks s m) [
        | inr (past, _) ↦ absurd (omega (arith, past))
        | inl (_, (r, b, f)) ↦ elim f.found [
          | inl (y, _, s0, all) ↦ (
            _,
            loop_full copyin fuel src n sb p r.1 r.2 h (b ∙ (λ i. ok (y i, r.1, r.2))),
            Wrote-full copyin user src n sb p r.1 r.2 h
                (subst (λ a. Filled sb (slot_of (p.off / bsize)) p.ip p.blocks (a, r.1, r.2)) y f)
                s0 all,
          )
          | inr (y, at, _) ↦
              let round = loop_round copyin fuel src n r.0 sb p r.1 r.2 h b y in
              let (pos, less, _) = portion_bounds p.tot p.off n h in
              elim (Bool-cases (copyin src (portion p.tot p.off n)).failed) [
                | inl w ↦ (
                  _,
                  round ∙ rw w refl,
                  Wrote-failed copyin user src n r.0 sb p r.1 r.2 z c h f y at w,
                )
                | inr w ↦
                    let (q, g, wrote) =
                      write_loop-Wrote copyin user fuel (src + portion p.tot p.off n) n sb
                        (next copyin user src n r.0 sb p r.1 r.2 z c h f y at) c z s
                        (after-IsMapped copyin user src n r.0 sb p r.1 r.2 z c h f y at)
                        (omega arith) (omega arith) (omega arith) in
                    (
                      q,
                      round ∙ rw w g,
                      Wrote-round copyin user src n r.0 sb p r.1 r.2 z c h f y at q w wrote,
                    )
              ]
        ]
      ]
]

abbrev pub start : (off : ℕ) → Inode → Blocks → Progress
start off ip blocks = record { tot = 0; off = off; ip = ip; blocks = blocks }

-- `if(off > ip->size) ip->size = off;`
abbrev pub with_size : Progress → Inode
with_size q = record q.ip { size = if ltb q.ip.size q.off then q.off else q.ip.size }

writei_refused :
    (copyin : ℕ → ℕ → Copy) (src off n : ℕ) (ip : Inode) (sb : Superblock) (blocks : Blocks)
    → (ltb ip.size off || ltb ((off + n) % 2 ^ 32) off) ≡ true
      ⊎ (ltb (316 * 1024) ((off + n) % 2 ^ 32) ≡ true)
    → writei copyin src off n ip sb blocks ≡ ok (none, ip, blocks)
unfolding writei
writei_refused copyin src off n ip sb blocks (inl e) = rw e refl
writei_refused copyin src off n ip sb blocks (inr e) =
    elim (Bool-cases (ltb ip.size off || ltb ((off + n) % 2 ^ 32) off)) [
      | inl f ↦ rw f refl
      | inr f ↦ rw (f, e) refl
    ]

writei_loop :
    (copyin : ℕ → ℕ → Copy) (src off n : ℕ) (ip : Inode) (sb : Superblock) (blocks : Blocks)
    (q : Progress)
    → (ltb ip.size off || ltb ((off + n) % 2 ^ 32) off) ≡ false
    → ltb (316 * 1024) ((off + n) % 2 ^ 32) ≡ false
    → write_loop copyin (n + 1) src n sb (start off ip blocks) ≡ ok q
    → writei copyin src off n ip sb blocks
      ≡ ok (some q.tot, with_size q, iupdate (with_size q) sb q.blocks)
unfolding writei
writei_loop copyin src off n ip sb blocks q e f g = rw (e, f, g) refl

-- `writei` to an inode whose blocks are distinct blocks in use. Past the end of the file, past 2^32 or
-- past MAXFILE blocks it returns -1 and changes nothing. Otherwise it returns the number of bytes that
-- it wrote, all `n` of them unless every block of the disk is in use or the copy of the portion that
-- comes next from the caller fails.
-- When it writes back the inode, those bytes of the file are the caller's, every byte of the file
-- outside the `n` bytes is as before, and the blocks of the inode are again distinct and in use.
pub writei-Wrote :
    (copyin : ℕ → ℕ → Copy) (user : ℕ → ℕ) (src off n : ℕ) (ip : Inode) (sb : Superblock)
    (blocks : Blocks)
    → Copies copyin user
    → 0 < sb.size
    → sb.size < 2 ^ 32
    → IsMapped sb (slot ip blocks) blocks
    → off < 2 ^ 32
    → n < 2 ^ 32
    → (((ip.size < off) ⊎ ((2 ^ 32 ≤ off + n) ⊎ (316 * 1024 < off + n)))
        × (writei copyin src off n ip sb blocks ≡ ok (none, ip, blocks)))
      ⊎ ((q : Progress) × (off ≤ ip.size)
          × (off + n ≤ 316 * 1024)
          × (writei copyin src off n ip sb blocks
              ≡ ok (some q.tot, with_size q, iupdate (with_size q) sb q.blocks))
          × Wrote copyin user src n sb (start off ip blocks) q)
writei-Wrote copyin user src off n ip sb blocks c z s m ho hn =
    elim (Bool-cases (ltb ip.size off || ltb ((off + n) % 2 ^ 32) off)) [
      | inl e ↦ inl (early e, writei_refused copyin src off n ip sb blocks (inl e))
      | inr e ↦ elim (Bool-cases (ltb (316 * 1024) ((off + n) % 2 ^ 32))) [
        | inl f ↦
            inl (
              inr (inr (ground (arith, e, f))),
              writei_refused copyin src off n ip sb blocks (inr f),
            )
        | inr f ↦
            let h : off + n ≤ 316 * 1024 = ground (arith, e, f, ho, hn) in
            let (q, g, w) =
              write_loop-Wrote copyin user (n + 1) src n sb (start off ip blocks) c z s m
                (omega arith) (omega arith) (omega arith) in
            let inside : off ≤ ip.size = ground (arith, e) in
            inr (q, inside, h, writei_loop copyin src off n ip sb blocks q e f g, w)
      ]
    ]
  where
    early :
        (ltb ip.size off || ltb ((off + n) % 2 ^ 32) off) ≡ true
        → (ip.size < off) ⊎ ((2 ^ 32 ≤ off + n) ⊎ (316 * 1024 < off + n))
    early e = elim (Bool-cases (ltb ip.size off)) [
      | inl f ↦ inl (ground (arith, f))
      | inr f ↦ inr (inl (ground (arith, e, f, ho, hn)))
    ]
