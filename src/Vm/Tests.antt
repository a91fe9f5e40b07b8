-- ===== src/Vm/Tests.antt =====
-- kernel/vm.c: page tables in a small memory.
use zept_os.Prelude.{
  ℕ, ◌+◌, ◌-◌, ◌*◌, ◌≤◌, ◌<◌, ◌≡◌, ◌≢◌, ◌∙◌, sym, refl, ◌⊎◌, inl, inr, Bool, true, false, List, [],
  ◌∷◌, arith, ◌==◌, if◌then◌else◌, Outcome, ok, panic,
}
use mathlib.Core.Path.{subst}
use zept_os.Kalloc.{Memory, Kmem, kalloc}
use zept_os.Kalloc.FreeList.{IsPage, IsFree}
use zept_os.Vm.{pte_v, pte_u, maxva, walkaddr, mappages, uvmunmap, uvmcreate}
use zept_os.Vm.Map.{IsPageTable, entry, Maps}
use zept_os.Vm.Ranges.{MapsPages, mappages-MapsPages}
use zept_os.Vm.Lookup.{address, walkaddr_lem, mappages-walkaddr, uvmcreate-Maps}
use zept_os.Vm.Unmap.{UnmapsPages, uvmunmap-UnmapsPages}

-- Four free pages, from address 4096 on.
abbrev links : Memory
links a = if a == 4096 then 8192 else if a == 8192 then 12288 else if a == 12288 then 16384 else 0

abbrev small : Kmem
small = record { kernel_end = 4096; ram_end = 20480; freelist = 4096; mem = links }

small_pages : IsFree small (4096 ∷ 8192 ∷ 12288 ∷ 16384 ∷ [])
small_pages = record {
  kernel = omega arith;
  chain = (refl, (refl, (refl, (refl, refl))));
  pages = (
    is_page 0 (omega arith),
    (apart 0 1 (omega arith), (apart 0 2 (omega arith), (apart 0 3 (omega arith), tt))),
    (
      is_page 1 (omega arith),
      (apart 1 2 (omega arith), (apart 1 3 (omega arith), tt)),
      (is_page 2 (omega arith), (apart 2 3 (omega arith), tt), (is_page 3 (omega arith), tt, tt)),
    ),
  );
}
  where
    is_page : (i : ℕ) → i < 4 → IsPage small (4096 + i * 4096)
    is_page i h = record { aligned = omega arith; low = omega arith; high = omega arith }

    apart : (i j : ℕ) → i < j → 4096 + i * 4096 ≢ 4096 + j * 4096
    apart i j h e = absurd (omega arith)

abbrev free_pages : List ℕ
free_pages = 4096 ∷ 8192 ∷ 12288 ∷ 16384 ∷ []

-- The memory with an empty page table at 4096.
abbrev rooted : Kmem
unfolding uvmcreate kalloc
rooted = (uvmcreate small).1

uvmcreate-Maps_example :
    ((free_pages ≡ []) × (uvmcreate small ≡ (0, small)))
    ⊎ ((page : ℕ) × (k' : Kmem) × (uvmcreate small ≡ (page, k'))
        × (page ≢ 0)
        × Maps page k' (λ _. 0))
uvmcreate-Maps_example = uvmcreate-Maps small free_pages small_pages (omega arith)

rooted_table : IsPageTable 4096 rooted
unfolding uvmcreate kalloc
rooted_table = elim (uvmcreate-Maps small free_pages small_pages (omega arith)) [
  | inl (e, _) ↦ absurd (cc)
  | inr (page, k', e, n, maps) ↦ subst (λ (r : ℕ × Kmem). IsPageTable r.0 r.1) (sym e) maps.table
]

-- Two user pages at 8192, mapped to the pages from 65536 on.
abbrev result_memory : Kmem → Outcome (Bool × Kmem) → Kmem
result_memory k (ok r) = r.1
result_memory k (panic text) = k

abbrev mapped : Kmem
unfolding mappages
mapped = result_memory small (mappages 4096 8192 8192 65536 22 rooted)

mapped_eq : mappages 4096 8192 8192 65536 22 rooted ≡ ok (true, mapped)
unfolding mappages rooted zept_os.Vm.pte_addr
mapped_eq = refl

mappages-MapsPages_example :
    MapsPages 4096 2 8192 65536 22 rooted rooted_table (mappages 4096 8192 8192 65536 22 rooted)
mappages-MapsPages_example =
    mappages-MapsPages 4096 2 8192 65536 22 rooted (omega arith) (omega arith) (omega arith)
      rooted_table

mappages-walkaddr_example :
    ((va : ℕ) → 8192 ≤ va → va < 16384 → walkaddr 4096 va mapped ≡ ok (65536 + (va - 8192)))
    × ((va : ℕ) → (va < 8192) ⊎ (16384 ≤ va) → walkaddr 4096 va mapped ≡ walkaddr 4096 va rooted)
mappages-walkaddr_example =
    mappages-walkaddr 4096 2 8192 65536 22 rooted mapped (omega arith) (omega arith) (omega arith)
      (omega arith) (omega arith) (omega arith) (omega arith) rooted_table mapped_eq

walkaddr_lem_example : walkaddr 4096 8200 rooted ≡ ok (address (entry 4096 rooted) 8200)
walkaddr_lem_example = walkaddr_lem 4096 8200 rooted rooted_table

mapped_table : IsPageTable 4096 mapped
mapped_table =
    elim (mappages-MapsPages 4096 2 8192 65536 22 rooted (omega arith) (omega arith) (omega arith)
      rooted_table) [
        | inl (i, l, v, f) ↦ let z = sym f ∙ mapped_eq in absurd (cc)
        | inr (inl (m, k1, l, f, out, stop, maps, c)) ↦ let z = sym f ∙ mapped_eq in absurd (cc)
        | inr (inr (k1, v, f, maps, c)) ↦
            let z : k1 ≡ mapped = same (sym f ∙ mapped_eq) in subst (IsPageTable 4096) z maps.table
      ]
  where
    same : {r s : Kmem} → ◌≡◌ {A = Outcome (Bool × Kmem)} (ok (true, r)) (ok (true, s)) → r ≡ s
    same e = cc

uvmunmap-UnmapsPages_example : UnmapsPages 4096 2 8192 mapped (uvmunmap 4096 8192 2 false mapped)
uvmunmap-UnmapsPages_example =
    uvmunmap-UnmapsPages 4096 2 8192 mapped (omega arith) (omega arith) mapped_table
