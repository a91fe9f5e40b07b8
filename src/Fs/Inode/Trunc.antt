-- ===== src/Fs/Inode/Trunc.antt =====
-- kernel/fs.c: the loops of `itrunc`.
use zept_os.Prelude.{
  ℕ, zero, suc, ◌+◌, ◌-◌, ◌≤◌, ◌<◌, ◌≡◌, ◌≢◌, ◌∙◌, ap, sym, refl, inl, inr, Bool, true, false, ◌&&◌,
  ◌||◌, arith, ltb, leb, ◌==◌, Bool-cases, update, Outcome, ok, update_self, update_other,
  ℕ_discrete,
}
use mathlib.Core.Path.{subst}
use zept_os.Fs.{Blocks, Superblock, bfree}
use zept_os.Fs.Inode.{Inode, ndirect, nindirect, get_uint, trunc_direct, trunc_entries}
use zept_os.Fs.Inode.Slots.{IsMapped}
use zept_os.Fs.Inode.Freed.{Freed, Freed-ext, with_slot, Freed-skip, Freed-free}

direct_skip :
    (left : ℕ) (ip : Inode) (sb : Superblock) (blocks : Blocks)
    → (ip.addrs (ndirect - suc left) == 0) ≡ true
    → trunc_direct (suc left) ip sb blocks ≡ trunc_direct left ip sb blocks
unfolding trunc_direct
direct_skip left ip sb blocks e = rw e refl

direct_free :
    (left : ℕ) (ip : Inode) (sb : Superblock) (blocks next : Blocks)
    → (ip.addrs (ndirect - suc left) == 0) ≡ false
    → bfree (ip.addrs (ndirect - suc left)) sb blocks ≡ ok next
    → trunc_direct (suc left) ip sb blocks
      ≡ trunc_direct left (record ip { addrs = update ip.addrs (ndirect - suc left) 0 }) sb next
unfolding trunc_direct
direct_free left ip sb blocks next e f = rw (e, f) refl

entries_skip :
    (left : ℕ) (bytes : ℕ → ℕ) (sb : Superblock) (blocks : Blocks)
    → (get_uint bytes (nindirect - suc left) == 0) ≡ true
    → trunc_entries (suc left) bytes sb blocks ≡ trunc_entries left bytes sb blocks
unfolding trunc_entries
entries_skip left bytes sb blocks e = rw e refl

entries_free :
    (left : ℕ) (bytes : ℕ → ℕ) (sb : Superblock) (blocks next : Blocks)
    → (get_uint bytes (nindirect - suc left) == 0) ≡ false
    → bfree (get_uint bytes (nindirect - suc left)) sb blocks ≡ ok next
    → trunc_entries (suc left) bytes sb blocks ≡ trunc_entries left bytes sb next
unfolding trunc_entries
entries_free left bytes sb blocks next e f = rw (e, f) refl

-- The slots from `lo` to before `hi`, and those that were done.
abbrev pub between : (done : ℕ → Bool) (lo hi : ℕ) → ℕ → Bool
between done lo hi j = done j || (leb lo j && ltb j hi)

between-none : (done : ℕ → Bool) (lo j : ℕ) → done j ≡ between done lo lo j
between-none done lo j = ground arith

between-more :
    (done : ℕ → Bool) (lo hi j : ℕ)
    → lo < hi
    → between (λ j. done j || (j == lo)) (suc lo) hi j ≡ between done lo hi j
between-more done lo hi j h = ground (arith, h)

-- The direct slots from `60 - left` on are freed, and the addresses set to 0.
abbrev pub Directs :
    (sb : Superblock) (s : ℕ → ℕ) (done : ℕ → Bool) (left : ℕ) (ip : Inode) (blocks : Blocks)
    → Outcome (Inode × Blocks)
    → Type 0
Directs sb s done left ip blocks result =
    (ip' : Inode) × (after : Blocks) × (result ≡ ok (ip', after))
    × Freed sb s (between done (ndirect - left) ndirect) blocks after
    × (ip'.inum ≡ ip.inum)
    × ((j : ℕ) → j < ndirect - left → ip'.addrs j ≡ ip.addrs j)
    × ((j : ℕ) → ndirect - left ≤ j → j < ndirect → ip'.addrs j ≡ 0)
    × (ip'.addrs ndirect ≡ ip.addrs ndirect)

-- After the slot `i` the rest of the slots; `ip1` has the address of `i` set to 0.
Directs-step :
    (sb : Superblock) (s : ℕ → ℕ) (done : ℕ → Bool) (left i : ℕ) (ip ip1 : Inode) (blocks : Blocks)
    (result : Outcome (Inode × Blocks))
    → suc i ≡ ndirect - left
    → i ≡ ndirect - suc left
    → i < ndirect
    → ip1.inum ≡ ip.inum
    → ip1.addrs i ≡ 0
    → ((j : ℕ) → j ≢ i → ip1.addrs j ≡ ip.addrs j)
    → Directs sb s (λ j. done j || (j == i)) left ip1 blocks result
    → Directs sb s done (suc left) ip blocks result
Directs-step sb s done left i ip ip1 blocks result e e' h n z same
      (ip', after, r, f, num, low, high, ind) =
    (
      ip',
      after,
      r,
      Freed-ext sb s (between (λ j. done j || (j == i)) (ndirect - left) ndirect)
          (between done (ndirect - suc left) ndirect) blocks after
          (λ j. rw (sym e, sym e') (between-more done i ndirect j h)) f,
      num ∙ n,
      λ j l. low j (omega arith) ∙ same j (λ d. absurd (omega arith)),
      λ j l g. elim (ℕ_discrete j i) [
        | yes d ↦ ap ip'.addrs d ∙ low i (omega arith) ∙ z
        | no d ↦ high j (omega arith) g
      ],
      ind ∙ same ndirect (λ d. absurd (omega arith)),
    )

pub trunc_direct-Directs :
    (left : ℕ) (sb : Superblock) (s : ℕ → ℕ) (done : ℕ → Bool) (ip : Inode) (blocks before : Blocks)
    → IsMapped sb s blocks
    → left ≤ ndirect
    → ((j : ℕ) → ndirect - left ≤ j → j < ndirect → (ip.addrs j ≡ s j) × (done j ≡ false))
    → Freed sb s done blocks before
    → Directs sb s done left ip blocks (trunc_direct left ip sb before)
unfolding trunc_direct with_slot
trunc_direct-Directs zero sb s done ip blocks before m h a f = (
  ip,
  before,
  refl,
  Freed-ext sb s done (between done 60 60) blocks before (between-none done 60) f,
  refl,
  λ j l. refl,
  λ j l g. absurd (omega arith),
  refl,
)
trunc_direct-Directs (suc left) sb s done ip blocks before m h a f =
    let i = ndirect - suc left in
    let (ai, di) = a i (omega arith) (omega arith) in
    let later : (j : ℕ)
        → ndirect - left ≤ j
        → j < ndirect
        → (ip.addrs j ≡ s j) × ((done j || (j == i)) ≡ false) =
      (λ j l g. let (aj, dj) = a j (omega arith) g in (aj, ground (arith, dj, l))) in
    elim (Bool-cases (ip.addrs i == 0)) [
      | inl e ↦
          let z : ip.addrs i ≡ 0 = ground (arith, e) in
          subst (Directs sb s done (suc left) ip blocks) (sym (direct_skip left ip sb before e)) (
            Directs-step sb s done left i ip ip blocks _ (omega arith) refl (omega arith) refl z
              (λ j n. refl)
              (trunc_direct-Directs left sb s (λ j. done j || (j == i)) ip blocks before m
                (omega arith) later (Freed-skip sb s done blocks before i m f (sym ai ∙ z))))
      | inr e ↦
          let (next, r, g) =
            Freed-free sb s done blocks before i m f di
              (λ z. let y = ai ∙ z in absurd (ground (arith, e, y))) in
          let r' = ap (λ b. bfree b sb before) ai ∙ r in
          subst (Directs sb s done (suc left) ip blocks)
            (sym (direct_free left ip sb before next e r'))
            (Directs-step sb s done left i ip (record ip { addrs = update ip.addrs i 0 }) blocks _
              (omega arith) refl (omega arith) refl (update_self ip.addrs i 0)
              (λ j n. update_other ip.addrs i 0 j (λ d. n (sym d)))
              (trunc_direct-Directs left sb s (λ j. done j || (j == i))
                (record ip { addrs = update ip.addrs i 0 }) blocks next m (omega arith)
                (λ j l g'.
                  let (aj, dj) = later j l g' in
                  (update_other ip.addrs i 0 j (λ d. absurd (omega arith)) ∙ aj, dj))
                g))
    ]

-- The entries from `256 - left` on are freed.
abbrev pub Entries :
    (sb : Superblock) (s : ℕ → ℕ) (done : ℕ → Bool) (left : ℕ) (blocks : Blocks)
    → Outcome Blocks
    → Type 0
Entries sb s done left blocks result =
    (after : Blocks) × (result ≡ ok after) × Freed sb s (between done (317 - left) 317) blocks after

pub trunc_entries-Entries :
    (left : ℕ) (sb : Superblock) (s : ℕ → ℕ) (done : ℕ → Bool) (bytes : ℕ → ℕ)
    (blocks before : Blocks)
    → IsMapped sb s blocks
    → left ≤ nindirect
    → ((j : ℕ)
        → nindirect - left ≤ j
        → j < nindirect
        → (get_uint bytes j ≡ s (61 + j)) × (done (61 + j) ≡ false))
    → Freed sb s done blocks before
    → Entries sb s done left blocks (trunc_entries left bytes sb before)
unfolding trunc_entries with_slot
trunc_entries-Entries zero sb s done bytes blocks before m h a f = (
  before,
  refl,
  Freed-ext sb s done (between done 317 317) blocks before (between-none done 317) f,
)
trunc_entries-Entries (suc left) sb s done bytes blocks before m h a f =
    let i = nindirect - suc left in
    let (ai, di) = a i (omega arith) (omega arith) in
    let later : (j : ℕ)
        → nindirect - left ≤ j
        → j < nindirect
        → (get_uint bytes j ≡ s (61 + j)) × ((done (61 + j) || (61 + j == 61 + i)) ≡ false) =
      (λ j l g. let (aj, dj) = a j (omega arith) g in (aj, ground (arith, dj, l))) in
    let finish =
      λ (after : Blocks)
          (g : Freed sb s (between (λ j. done j || (j == 61 + i)) (317 - left) 317) blocks after).
        Freed-ext sb s (between (λ j. done j || (j == 61 + i)) (317 - left) 317)
          (between done (317 - suc left) 317) blocks after (λ j. ground (arith, h)) g in
    elim (Bool-cases (get_uint bytes i == 0)) [
      | inl e ↦
          let z : get_uint bytes i ≡ 0 = ground (arith, e) in
          let (after, r, g) =
            trunc_entries-Entries left sb s (λ j. done j || (j == 61 + i)) bytes blocks before m
              (omega arith) later (Freed-skip sb s done blocks before (61 + i) m f (sym ai ∙ z)) in
          (after, entries_skip left bytes sb before e ∙ r, finish after g)
      | inr e ↦
          let (next, r, g) =
            Freed-free sb s done blocks before (61 + i) m f di
              (λ z. let y = ai ∙ z in absurd (ground (arith, e, y))) in
          let (after, r2, g2) =
            trunc_entries-Entries left sb s (λ j. done j || (j == 61 + i)) bytes blocks next m
              (omega arith) later g in
          (
            after,
            entries_free left bytes sb before next e (ap (λ b. bfree b sb before) ai ∙ r) ∙ r2,
            finish after g2,
          )
    ]
