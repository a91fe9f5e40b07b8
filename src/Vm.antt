-- ===== src/Vm.antt =====
-- kernel/vm.c: page tables of three levels in physical memory, over the allocator of kernel/kalloc.c.
pub mod Tree
pub mod Grow
pub mod Walk
pub mod Write
pub mod Map
pub mod Pages
pub mod Ranges
pub mod Lookup
pub mod Unmap
mod Tests
use zept_os.Prelude.{
  ℕ, zero, suc, ◌+◌, ◌-◌, ◌*◌, ◌/◌, ◌%◌, ◌^◌, ◌≤◌, ◌<◌, ◌≡◌, ◌≢◌, ◌∙◌, ap, sym, refl, fun_ext, ◌⊎◌,
  inl, inr, ◌↔◌, Bool, true, false, not, ◌&&◌, ◌||◌, Option, none, some, List, [], ◌∷◌, ◌++◌, map,
  append_assoc, append-nil, arith, ltb, leb, ◌==◌, if◌then◌else◌, Bool-cases, Option-cases, length,
  length-append, get_elem?, set, get_or, take, drop, replicate, update, Outcome, ok, panic,
  panic_if, ◌>>=◌, ◌>>◌, >>=-eq-ok,
}
use zept_os.Kalloc.{Memory, Kmem, pgsize, pg_round_up, fill_page, kfree, kalloc}

-- A page table entry is its 64-bit word. PTE_V, PTE_U and the other flags are its low ten bits.
abbrev pub pte_v : ℕ → Bool
pte_v pte = pte % 2 == 1

abbrev pub pte_u : ℕ → Bool
pte_u pte = pte / 16 % 2 == 1

abbrev pub pte_flags : ℕ → ℕ
pte_flags pte = pte % 1024

abbrev pub pte_to_pa : ℕ → ℕ
pte_to_pa pte = pte / 1024 * 4096 % 2 ^ 64

abbrev pub pa_to_pte : ℕ → ℕ
pa_to_pte pa = pa / 4096 * 1024

-- `PA2PTE(pa) | perm | PTE_V` for flags `perm`, below 1024: the low ten bits of PA2PTE are 0.
abbrev pub leaf_pte : (pa perm : ℕ) → ℕ
leaf_pte pa perm = pa_to_pte pa + (perm / 2 * 2 + 1)

abbrev pub maxva : ℕ
maxva = 2 ^ 38

-- PX: the nine bits of the virtual address that select the entry at a level.
abbrev pub px : (level va : ℕ) → ℕ
px level va = va / 2 ^ (12 + 9 * level) % 512

-- `&pagetable[PX(level, va)]`
unfoldable pub pte_addr : (pagetable level va : ℕ) → ℕ
pte_addr pagetable level va = pagetable + 8 * px level va

-- The loop of `walk` from `level` on. It gives the address of the entry, or 0.
unfoldable pub walk_loop : (alloc : Bool) (level va pagetable : ℕ) → Kmem → ℕ × Kmem
walk_loop alloc zero va pagetable k = (pte_addr pagetable 0 va, k)
walk_loop alloc (suc level) va pagetable k =
    let pte = pte_addr pagetable (suc level) va in
    let down = walk_loop alloc level va (pte_to_pa (k.mem pte)) k in
    let (page, k') = kalloc k in
    let made =
      walk_loop alloc level va page
        (record k' { mem = update (fill_page k'.mem page 0) pte (pa_to_pte page + 1) }) in
    if pte_v (k.mem pte)
    then down
    else if not alloc
    then (0, k)
    else if page == 0
    then (0, k')
    else made

unfoldable pub walk : (pagetable va : ℕ) (alloc : Bool) → Kmem → Outcome (ℕ × Kmem)
unfolding walk_loop
walk pagetable va alloc k = do panic_if (leb maxva va) "walk"; ok (walk_loop alloc 2 va pagetable k)

-- `walkaddr`; a walk that does not allocate leaves memory as it is.
unfoldable pub walkaddr : (pagetable va : ℕ) → Kmem → Outcome ℕ
unfolding walk
walkaddr pagetable va k =
    let found = (do
      (pte, k') ← walk pagetable va false k
      ok (
          if pte == 0
          then 0
          else if not (pte_v (k.mem pte))
          then 0
          else if not (pte_u (k.mem pte))
          then 0
          else pte_to_pa (k.mem pte) + va % 4096)) in
    if leb maxva va then ok 0 else found

-- The body of the loop of `mappages`: whether a page table page was missing and could not be made.
unfoldable pub map_one : (pagetable a pa perm : ℕ) → Kmem → Outcome (Bool × Kmem)
unfolding walk
map_one pagetable a pa perm k = do
  (pte, k') ← walk pagetable a true k
  if pte == 0 then ok (false, k') else (do
    panic_if (pte_v (k'.mem pte)) "mappages: remap"
    ok (true, record k' { mem = update k'.mem pte (leaf_pte pa perm) }))

-- The loop of `mappages` with `rest` pages after the present one; `true` is 0, `false` is -1.
unfoldable pub map_loop : (rest pagetable a pa perm : ℕ) → Kmem → Outcome (Bool × Kmem)
unfolding map_one
map_loop zero pagetable a pa perm k = map_one pagetable a pa perm k
map_loop (suc rest) pagetable a pa perm k = do
  (mapped, k') ← map_one pagetable a pa perm k
  if mapped then map_loop rest pagetable (a + pgsize) (pa + pgsize) perm k' else ok (false, k')

unfoldable pub mappages : (pagetable va size pa perm : ℕ) → Kmem → Outcome (Bool × Kmem)
unfolding map_loop
mappages pagetable va size pa perm k = do
  panic_if (not (va % pgsize == 0)) "mappages: va not aligned"
  panic_if (not (size % pgsize == 0)) "mappages: size not aligned"
  panic_if (size == 0) "mappages: size"
  map_loop (size / pgsize - 1) pagetable va pa perm k

unfoldable pub kvmmap : (kpgtbl va pa sz perm : ℕ) → Kmem → Outcome Kmem
unfolding mappages
kvmmap kpgtbl va pa sz perm k = do
  (mapped, k') ← mappages kpgtbl va sz pa perm k
  panic_if (not mapped) "kvmmap"
  ok k'

-- The loop of `uvmunmap` with `npages` pages left.
unfoldable pub unmap_loop : (npages pagetable a : ℕ) (do_free : Bool) → Kmem → Outcome Kmem
unfolding walk
unmap_loop zero pagetable a do_free k = ok k
unmap_loop (suc npages) pagetable a do_free k = do
  (pte, k') ← walk pagetable a false k
  panic_if (pte == 0) "uvmunmap: walk"
  panic_if (not (pte_v (k.mem pte))) "uvmunmap: not mapped"
  panic_if (pte_flags (k.mem pte) == 1) "uvmunmap: not a leaf"
  k'' ← if do_free then kfree (pte_to_pa (k.mem pte)) k else ok k
  unmap_loop npages pagetable (a + pgsize) do_free (record k'' { mem = update k''.mem pte 0 })

unfoldable pub uvmunmap : (pagetable va npages : ℕ) (do_free : Bool) → Kmem → Outcome Kmem
unfolding unmap_loop
uvmunmap pagetable va npages do_free k = do
  panic_if (not (va % pgsize == 0)) "uvmunmap: not aligned"
  unmap_loop npages pagetable va do_free k

-- A page from `kalloc`, cleared; 0 when there is none.
unfoldable pub uvmcreate : Kmem → ℕ × Kmem
uvmcreate k =
    let (page, k') = kalloc k in
    if page == 0 then (0, k') else (page, record k' { mem = fill_page k'.mem page 0 })

unfoldable pub uvmdealloc : (pagetable oldsz newsz : ℕ) → Kmem → Outcome (ℕ × Kmem)
unfolding uvmunmap
uvmdealloc pagetable oldsz newsz k =
    let npages = (pg_round_up oldsz - pg_round_up newsz) / pgsize in
    let unmapped = (do k' ← uvmunmap pagetable (pg_round_up newsz) npages true k; ok (newsz, k')) in
    if leb oldsz newsz
    then ok (oldsz, k)
    else if ltb (pg_round_up newsz) (pg_round_up oldsz)
    then unmapped
    else ok (newsz, k)

-- The loop of `uvmalloc` at address `a`, with `rest` pages to go; `base` is `oldsz`, rounded up.
unfoldable pub alloc_loop : (rest pagetable base a newsz xperm : ℕ) → Kmem → Outcome (ℕ × Kmem)
unfolding uvmdealloc mappages
alloc_loop zero pagetable base a newsz xperm k = ok (newsz, k)
alloc_loop (suc rest) pagetable base a newsz xperm k =
    let (page, k1) = kalloc k in
    let give_up = λ (k : Kmem). (do (_, k') ← uvmdealloc pagetable a base k; ok (0, k')) in
    let mapped = (do
      (done, k2) ←
          mappages pagetable a pgsize page (18 + xperm)
            (record k1 { mem = fill_page k1.mem page 0 })
      if done
          then alloc_loop rest pagetable base (a + pgsize) newsz xperm k2
          else (do k3 ← kfree page k2; give_up k3)) in
    if page == 0 then give_up k1 else mapped

-- `uvmalloc`; `xperm` is PTE_W, PTE_X, both or 0, so `PTE_R|PTE_U|xperm` is a sum.
unfoldable pub uvmalloc : (pagetable oldsz newsz xperm : ℕ) → Kmem → Outcome (ℕ × Kmem)
unfolding alloc_loop
uvmalloc pagetable oldsz newsz xperm k =
    let base = pg_round_up oldsz in
    let grown = alloc_loop ((newsz + 4095 - base) / pgsize) pagetable base base newsz xperm k in
    if ltb newsz oldsz then ok (oldsz, k) else grown
