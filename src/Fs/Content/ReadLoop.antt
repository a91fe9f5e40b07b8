-- ===== src/Fs/Content/ReadLoop.antt =====
-- kernel/fs.c: the loop of `readi`, round by round.
use zept_os.Prelude.{
  ℕ, zero, suc, ◌+◌, ◌-◌, ◌*◌, ◌/◌, ◌%◌, ◌^◌, ◌≤◌, ◌<◌, ◌≡◌, ◌≢◌, ◌∙◌, ap, sym, refl, inl, inr,
  Bool, true, false, ◌&&◌, arith, ltb, leb, ◌==◌, Bool-cases, ok,
}
use mathlib.Core.Path.{subst}
use zept_os.Fs.{Blocks, bsize, Superblock}
use zept_os.Fs.Inode.{Inode, bmap}
use zept_os.Fs.Inode.Slots.{IsMapped}
use zept_os.Fs.Inode.Mapping.{slot}
use zept_os.Fs.Inode.Bmap.{slot_of, bmap-Filled}
use zept_os.Fs.Content.{portion, Reading, copied_out, read_loop}
use zept_os.Fs.Content.Rounds.{block_at, content}
use zept_os.Fs.Content.Writes.{portion_bounds}
use zept_os.Fs.Content.Reads.{CopiesOut, Present, SameFile, Read, present_round}

loop_done :
    (copyout : ℕ → ℕ → Bool × ℕ) (fuel dst n : ℕ) (sb : Superblock) (p : Reading)
    → n ≤ p.tot
    → read_loop copyout (suc fuel) dst n sb p ≡ ok (false, p)
unfolding read_loop
loop_done copyout fuel dst n sb p h = let e : ltb p.tot n ≡ false = ground (arith, h) in rw e refl

-- The state after a round that copies out `count` bytes.
abbrev after : (dst count m : ℕ) → Reading → (r : ℕ × Inode × Blocks) → Reading
after dst count m p r = record {
  tot = p.tot + m;
  off = p.off + m;
  ip = r.1;
  blocks = r.2;
  user = copied_out (p.off % bsize) dst count (r.2 r.0) p.user;
}

loop_failed :
    (copyout : ℕ → ℕ → Bool × ℕ) (fuel dst n : ℕ) (sb : Superblock) (p : Reading)
    (r : ℕ × Inode × Blocks)
    → p.tot < n
    → bmap (p.off / bsize) p.ip sb p.blocks ≡ ok r
    → r.0 ≢ 0
    → (copyout dst (portion p.tot p.off n)).0 ≡ true
    → read_loop copyout (suc fuel) dst n sb p
      ≡ ok (
        true,
        record p {
          ip = r.1;
          blocks = r.2;
          user =
              copied_out
                (p.off % bsize)
                dst
                (copyout dst (portion p.tot p.off n)).1
                (r.2 r.0)
                p.user;
        },
      )
unfolding read_loop
loop_failed copyout fuel dst n sb p r h b z w =
    let e : ltb p.tot n ≡ true = ground (arith, h) in
    let f : (r.0 == 0) ≡ false = ground (arith, z) in rw (e, b, f, w) refl

loop_more :
    (copyout : ℕ → ℕ → Bool × ℕ) (fuel dst n : ℕ) (sb : Superblock) (p : Reading)
    (r : ℕ × Inode × Blocks)
    → p.tot < n
    → bmap (p.off / bsize) p.ip sb p.blocks ≡ ok r
    → r.0 ≢ 0
    → (copyout dst (portion p.tot p.off n)).0 ≡ false
    → read_loop copyout (suc fuel) dst n sb p
      ≡ read_loop copyout fuel
          (dst + portion p.tot p.off n)
          n
          sb
          (after dst (copyout dst (portion p.tot p.off n)).1 (portion p.tot p.off n) p r)
unfolding read_loop
loop_more copyout fuel dst n sb p r h b z w =
    let e : ltb p.tot n ≡ true = ground (arith, h) in
    let f : (r.0 == 0) ≡ false = ground (arith, z) in rw (e, b, f, w) refl

-- A round in front of the rest of the loop.
Read-round :
    (copyout : ℕ → ℕ → Bool × ℕ) (n dst m : ℕ) (sb : Superblock) (p : Reading)
    (r : ℕ × Inode × Blocks) (result : Bool × Reading)
    → (m ≤ n - p.tot) × (p.off % bsize + m ≤ bsize)
    → slot r.1 r.2 (slot_of (p.off / bsize)) ≡ r.0
    → Present n p
    → SameFile sb p (after dst m m p r)
    → Read copyout n (dst + m) sb (after dst m m p r) result
    → Read copyout n dst sb p result
Read-round copyout n dst m sb p r result (less, room) at present same read = record {
  file = record {
    mapped = read.file.mapped;
    bytes =
        λ o a. let (b, e) = same.bytes o a in let (b2, e2) = read.file.bytes o b in (b2, e2 ∙ e);
  };
  outside = λ a out.
      read.outside a (elim out [ inl l ↦ inl (omega arith) | inr l ↦ inr (omega (arith, less)) ])
      ∙ ground (arith, out, less);
  more = omega (arith, read.more);
  most = read.most;
  offset = omega (arith, read.offset, read.more);
  bytes = λ i l. elim (Bool-cases (ltb i m)) [
    | inl h ↦
        let h' : i < m = ground (arith, h) in
        read.outside (dst + i) (inl (omega (arith, h')))
        ∙ copied_byte i h'
        ∙ (same.bytes (p.off + i) (present i (omega (arith, l, read.most)))).1
    | inr h ↦
        let h' : m ≤ i = ground (arith, h) in
        let place : dst + m + (i - m) ≡ dst + i = omega arith in
        let source : p.off + m + (i - m) ≡ p.off + i = omega arith in
        subst (λ (z : ℕ × ℕ). result.1.user z.0 ≡ content r.1 r.2 z.1) (λ j. (place j, source j))
          (read.bytes (i - m) (omega arith))
        ∙ (same.bytes (p.off + i) (present i (omega (arith, l, read.most)))).1
  ];
  done = elim read.done [
    | inr all ↦ inr all
    | inl (e, t, bad) ↦
        let place : dst + m + (result.1.tot - (p.tot + m)) ≡ dst + (result.1.tot - p.tot) =
          omega (arith, read.more) in
        inl
          (e, t, subst (λ s. (copyout s (portion result.1.tot result.1.off n)).0 ≡ true) place bad)
  ];
}
  where
    copied_byte :
        (i : ℕ)
        → i < m
        → copied_out (p.off % bsize) dst m (r.2 r.0) p.user (dst + i) ≡ content r.1 r.2 (p.off + i)
    copied_byte i h =
        let d : (p.off + i) / bsize ≡ p.off / bsize = omega (arith, room, h) in
        let e : p.off % bsize + i ≡ (p.off + i) % bsize = omega (arith, room, h) in
        let g : dst + i - dst ≡ i = omega arith in
        let y : (leb dst (dst + i) && ltb (dst + i) (dst + m)) ≡ true = ground (arith, h) in
        let at' : r.0 ≡ block_at r.1 r.2 (p.off + i) =
          sym (ap (λ b. slot r.1 r.2 (slot_of b)) d ∙ at) in
        rw (y, g) (λ j. r.2 (at' j) (e j))

pub read_loop-Read :
    (copyout : ℕ → ℕ → Bool × ℕ) (fuel dst n : ℕ) (sb : Superblock) (p : Reading)
    → CopiesOut copyout
    → sb.size < 2 ^ 32
    → IsMapped sb (slot p.ip p.blocks) p.blocks
    → p.tot ≤ n
    → p.off + (n - p.tot) ≤ 316 * 1024
    → n - p.tot < fuel
    → Present n p
    → (result : Bool × Reading) × (read_loop copyout fuel dst n sb p ≡ ok result)
      × Read copyout n dst sb p result
read_loop-Read copyout zero dst n sb p c s m t o l a = absurd (omega arith)
read_loop-Read copyout (suc fuel) dst n sb p c s m t o l a = elim (Bool-cases (ltb p.tot n)) [
  | inr e ↦
      let h : n ≤ p.tot = ground (arith, e) in
      (
        _,
        loop_done copyout fuel dst n sb p h,
        record {
          file = record { mapped = m; bytes = λ o b. (b, refl) };
          outside = λ a out. refl;
          more = omega arith;
          most = t;
          offset = refl;
          bytes = λ i z. absurd (omega arith);
          done = inr (refl, omega arith);
        },
      )
  | inl e ↦
      let h : p.tot < n = ground (arith, e) in
      let first = subst (λ o. block_at p.ip p.blocks o ≢ 0) (add_zero p.off) (a 0 (omega arith)) in
      let (pos, less, room) = portion_bounds p.tot p.off n h in
      let size = portion p.tot p.off n in
      elim (bmap-Filled sb (p.off / bsize) p.ip p.blocks s m) [
        | inr (past, _) ↦ absurd (omega (arith, past))
        | inl (_, (r, b, f)) ↦
            let (z, at, same) = present_round sb p r first f in
            elim (Bool-cases (copyout dst (portion p.tot p.off n)).0) [
              | inl w ↦ (
                _,
                loop_failed copyout fuel dst n sb p r h b z w,
                record {
                  file = same _ _ _;
                  outside =
                      λ a out. ground (arith, out, less, c.within dst (portion p.tot p.off n));
                  more = omega arith;
                  most = t;
                  offset = refl;
                  bytes = λ i y. absurd (omega arith);
                  done = inl (
                    refl,
                    h,
                    subst (λ d. (copyout d (portion p.tot p.off n)).0 ≡ true) (no_more dst p.tot) w,
                  );
                },
              )
              | inr w ↦
                  let all = c.whole dst size w in
                  let (result, g, read) =
                    read_loop-Read copyout fuel (dst + size) n sb (after dst size size p r) c s
                      (same (after dst size size p r).user (p.tot + size) (p.off + size)).mapped
                      (omega arith) (omega arith) (omega arith)
                      (λ i y.
                        ((same (after dst size size p r).user (p.tot + size) (p.off + size)).bytes
                          (p.off + size + i)
                          (subst (λ o. block_at p.ip p.blocks o ≢ 0) (shift p.off size i)
                            (a (size + i) (omega arith)))).0) in
                  (
                    result,
                    loop_more copyout fuel dst n sb p r h b z w
                        ∙ ap (λ k. read_loop copyout fuel (dst + size) n sb (after dst k size p r))
                            all
                        ∙ g,
                    Read-round copyout n dst size sb p r result (less, room) at a
                        (same (after dst size size p r).user (p.tot + size) (p.off + size)) read,
                  )
            ]
      ]
]
  where
    no_more : (d t : ℕ) → d ≡ d + (t - t)
    no_more d t = omega arith

    add_zero : (o : ℕ) → o + 0 ≡ o
    add_zero o = omega arith

    shift : (o m i : ℕ) → o + (m + i) ≡ o + m + i
    shift o m i = omega arith
