-- ===== src/Kalloc.antt =====
-- kernel/kalloc.c: the allocator of physical pages, with its free list threaded through the pages.
pub mod FreeList
pub mod Range
mod Tests
use zept_os.Prelude.{
  ℕ, zero, suc, ◌+◌, ◌-◌, ◌*◌, ◌/◌, ◌%◌, ◌^◌, ◌≤◌, ◌<◌, ◌≡◌, ◌≢◌, ◌∙◌, ap, sym, refl, fun_ext, ◌⊎◌,
  inl, inr, ◌↔◌, Bool, true, false, not, ◌&&◌, ◌||◌, Option, none, some, List, [], ◌∷◌, ◌++◌, map,
  append_assoc, append-nil, arith, ltb, leb, ◌==◌, if◌then◌else◌, Bool-cases, Option-cases, length,
  length-append, get_elem?, set, get_or, take, drop, replicate, update, Outcome, ok, panic,
  panic_if, ◌>>=◌, ◌>>◌, >>=-eq-ok,
}

-- Memory by words: `mem a` is the 64-bit word at address `a`.
abbrev pub Memory : Type 0
Memory = ℕ → ℕ

abbrev pub pgsize : ℕ
pgsize = 4096

-- PGROUNDUP: `& ~(PGSIZE-1)` clears the low twelve bits; `uint64` addition wraps.
abbrev pub pg_round_up : ℕ → ℕ
pg_round_up sz = (sz + 4095) % 2 ^ 64 / 4096 * 4096

-- PGROUNDDOWN
abbrev pub pg_round_down : ℕ → ℕ
pg_round_down a = a / 4096 * 4096

-- `memset(pa, c, PGSIZE)` of a page, as the word that the byte makes.
unfoldable pub fill_page : Memory → (pa word : ℕ) → Memory
fill_page mem pa word a = if leb pa a && ltb a (pa + pgsize) then word else mem a

-- `kmem` with `ram_end`, the symbol `end`, and the memory. Pointers are addresses, 0 is null; a
-- `struct run` is the word at the page's address.
pub record Kmem : Type 0 where
  pub kernel_end : ℕ
  pub ram_end : ℕ
  pub freelist : ℕ
  pub mem : Memory

unfoldable pub kfree : ℕ → Kmem → Outcome Kmem
unfolding fill_page
kfree pa k = do
  panic_if (not (pa % pgsize == 0) || ltb pa k.kernel_end || leb k.ram_end pa) "kfree"
  ok (record k {
    mem = update (fill_page k.mem pa 0x0101_0101_0101_0101) pa k.freelist;
    freelist = pa;
  })

-- The page's address, or 0.
unfoldable pub kalloc : Kmem → ℕ × Kmem
unfolding fill_page
kalloc k =
    let r = k.freelist in
    if r == 0
    then (0, k)
    else (r, record k { freelist = k.mem r; mem = fill_page k.mem r 0x0505_0505_0505_0505 })

-- The loop of `freerange`, with `fuel` rounds at most.
unfoldable pub free_loop : (fuel p pa_end : ℕ) → Kmem → Outcome Kmem
unfolding kfree
free_loop zero p pa_end k = ok k
free_loop (suc fuel) p pa_end k =
    let rest = (kfree p k >>= λ k'. free_loop fuel (p + pgsize) pa_end k') in
    if leb (p + pgsize) pa_end then rest else ok k

-- Each round takes PGSIZE bytes of the range.
unfoldable pub freerange : (pa_start pa_end : ℕ) → Kmem → Outcome Kmem
unfolding free_loop
freerange pa_start pa_end k = free_loop (pa_end / pgsize) (pg_round_up pa_start) pa_end k

unfoldable pub kinit : (ram_start ram_size : ℕ) → Kmem → Outcome Kmem
unfolding freerange
kinit ram_start ram_size k =
    let ram_end = ram_start + ram_size in
    freerange k.kernel_end ram_end (record k { ram_end = ram_end })
