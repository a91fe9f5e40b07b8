-- ===== src/Vm/Lookup.antt =====
-- kernel/vm.c: what `walkaddr` finds, after `mappages` and after `uvmcreate`.
use zept_os.Prelude.{
  ℕ, suc, ◌+◌, ◌-◌, ◌*◌, ◌/◌, ◌%◌, ◌^◌, ◌≤◌, ◌<◌, ◌≡◌, ◌≢◌, ◌∙◌, ap, sym, refl, ◌⊎◌, inl, inr, Bool,
  true, false, ◌&&◌, none, some, List, [], arith, ltb, leb, if◌then◌else◌, Bool-cases, update,
  Outcome, ok, panic, update_self, update_other, ℕ_discrete, String,
}
use mathlib.Core.Path.{subst}
use zept_os.Kalloc.{Kmem, pgsize, fill_page, kalloc}
use zept_os.Kalloc.FreeList.{
  IsPage, IsFree, Absent, Chain-frame, Pages-SameRange, fill_page-SameOutside, kalloc-IsFree,
}
use zept_os.Vm.{
  pte_v, pte_u, pte_to_pa, maxva, px, pte_addr, walk_loop, walkaddr, mappages, uvmcreate,
}
use zept_os.Vm.Tree.{vpn, px_bound, Places, IsTable, leaf, Reaches, none-ne-some}
use zept_os.Vm.Walk.{Looked, walk_loop-Looked, Reaches-leaf}
use zept_os.Vm.Map.{IsPageTable, entry, Maps, root_place, addr_pos}
use zept_os.Vm.Ranges.{with_pages, mappages-MapsPages}

-- The physical address of a user page that is mapped, and 0 otherwise.
abbrev pub address : (entries : ℕ → ℕ) → (va : ℕ) → ℕ
address entries va =
    if ltb va maxva && pte_v (entries va) && pte_u (entries va)
    then pte_to_pa (entries va) + va % 4096
    else 0

walkaddr_past :
    (root va : ℕ) (k : Kmem)
    → leb maxva va ≡ true
    → walkaddr root va k ≡ ok (address (entry root k) va)
unfolding walkaddr
walkaddr_past root va k e = let f : ltb va maxva ≡ false = ground (arith, e) in rw (e, f) refl

walkaddr_found :
    (root va : ℕ) (k : Kmem)
    → va < maxva
    → (result : ℕ × Kmem) (own : Places) → walk_loop false 2 va root k ≡ result
    → (t : IsPageTable root k) → Looked 2 va root k t.own result
    → walkaddr root va k ≡ ok (address (entry root k) va)
unfolding walkaddr
walkaddr_found root va k h result own e t (same, inl (z, f)) =
    let g : leb maxva va ≡ false = ground (arith, h) in rw (g, e, z, f) (ground arith)
walkaddr_found root va k h result own e t (same, inr (q, place, eq, reach)) =
    let g : leb maxva va ≡ false = ground (arith, h) in
    let g' : ltb va maxva ≡ true = ground (arith, h) in
    let pos = addr_pos k q 0 (vpn 1 va) va t.pages t.own t.table place in
    let found =
      Reaches-leaf k.mem 2 va root (pte_addr q 0 va) (subst (Reaches k.mem 2 va root) eq reach) in
    rw (g, g', e, eq, found) (ground (arith, pos))

-- `walkaddr` in terms of the entry: the physical address of a user page that is mapped, and 0 otherwise.
pub walkaddr_lem :
    (root va : ℕ) (k : Kmem)
    → IsPageTable root k
    → walkaddr root va k ≡ ok (address (entry root k) va)
walkaddr_lem root va k t = elim (Bool-cases (leb maxva va)) [
  | inl e ↦ walkaddr_past root va k e
  | inr e ↦
      let h : va < maxva = ground (arith, e) in
      walkaddr_found root va k h (walk_loop false 2 va root k) t.own refl t (
        walk_loop-Looked 2 va root k t.pages t.own (omega arith) t.table
          (root_place root va t.own h t.root_own))
]

walkaddr-Maps :
    (root va : ℕ) (k : Kmem) (f : ℕ → ℕ) → Maps root k f → walkaddr root va k ≡ ok (address f va)
walkaddr-Maps root va k f m = elim (Bool-cases (ltb va maxva)) [
  | inl e ↦ walkaddr_lem root va k m.table ∙ (λ n. ok (
      if ltb va maxva
        && pte_v (m.entry_eq va (ground (arith, e)) n)
        && pte_u (m.entry_eq va (ground (arith, e)) n)
      then pte_to_pa (m.entry_eq va (ground (arith, e)) n) + va % 4096
      else 0))
  | inr e ↦ walkaddr_lem root va k m.table ∙ rw e refl
]

address_in :
    (f : ℕ → ℕ) (n a pa perm va : ℕ)
    → a % 4096 ≡ 0
    → a + n * 4096 ≤ maxva
    → pa % 4096 ≡ 0
    → pa + n * 4096 ≤ 2 ^ 64
    → perm < 1024
    → perm / 16 % 2 ≡ 1
    → a ≤ va
    → va < a + n * 4096
    → address (with_pages f n a pa perm) va ≡ pa + (va - a)
address_in f n a pa perm va h b hp bp fl u l g = ground arith

address_out :
    (f : ℕ → ℕ) (n a pa perm va : ℕ)
    → a % 4096 ≡ 0
    → (va < a) ⊎ (a + n * 4096 ≤ va)
    → address (with_pages f n a pa perm) va ≡ address f va
address_out f n a pa perm va h o = ground (arith, o)

-- When `mappages` returns 0 for `n` user pages, `walkaddr` takes each address of the range to the
-- address at the same distance into the physical range, and any other address as before.
pub mappages-walkaddr :
    (root n a pa perm : ℕ) (k k' : Kmem)
    → 0 < n
    → a % 4096 ≡ 0
    → a + n * 4096 ≤ maxva
    → pa % 4096 ≡ 0
    → pa + n * 4096 ≤ 2 ^ 64
    → perm < 1024
    → perm / 16 % 2 ≡ 1
    → IsPageTable root k
    → mappages root a (n * pgsize) pa perm k ≡ ok (true, k')
    → ((va : ℕ) → a ≤ va → va < a + n * 4096 → walkaddr root va k' ≡ ok (pa + (va - a)))
      × ((va : ℕ) → (va < a) ⊎ (a + n * 4096 ≤ va) → walkaddr root va k' ≡ walkaddr root va k)
mappages-walkaddr root n a pa perm k k' p h b hp bp fl u t e =
    elim (mappages-MapsPages root n a pa perm k p h b t) [
      | inl (i, l, v, f) ↦ absurd (panic-ne-ok (sym f ∙ e))
      | inr (inl (m, k1, l, f, out, stop, maps, c)) ↦ absurd (less-ne-all (sym f ∙ e))
      | inr (inr (k1, v, f, maps, c)) ↦
          let maps' =
            subst (λ z. Maps root z (with_pages (entry root k) n a pa perm))
              (same_memory (sym f ∙ e)) maps in
          (
            λ va l g.
                walkaddr-Maps root va k' _ maps'
                ∙ (λ i. ok (address_in (entry root k) n a pa perm va h b hp bp fl u l g i)),
            λ va o.
                walkaddr-Maps root va k' _ maps'
                ∙ (λ i. ok (address_out (entry root k) n a pa perm va h o i))
                ∙ sym (walkaddr_lem root va k t),
          )
    ]
  where
    panic-ne-ok :
        {text : String} {r : Bool × Kmem} → ◌≡◌ {A = Outcome (Bool × Kmem)} (panic text) (ok r) → ⊥
    panic-ne-ok e = cc

    less-ne-all : {r s : Kmem} → ◌≡◌ {A = Outcome (Bool × Kmem)} (ok (false, r)) (ok (true, s)) → ⊥
    less-ne-all e = cc

    same_memory :
        {r s : Kmem} → ◌≡◌ {A = Outcome (Bool × Kmem)} (ok (true, r)) (ok (true, s)) → r ≡ s
    same_memory e = cc

-- The table with the cleared page as its root.
module _ (k : Kmem) (page : ℕ) (ys : List ℕ) (low : k.ram_end ≤ 2 ^ 64) (fresh : IsPage k page)
    (absent : Absent page ys) (free : IsFree k ys) where
  root_only : Places
  root_only = update (λ _. none) page (some (2, 0))

  cleared : Kmem
  cleared = record k { mem = fill_page k.mem page 0 }

  root_place_only : (p l x : ℕ) → root_only p ≡ some (l, x) → page ≡ p
  unfolding root_only
  root_place_only p l x e = elim (ℕ_discrete page p) [
    | yes d ↦ d
    | no d ↦ absurd (none-ne-some (sym (update_other (λ _. none) page (some (2, 0)) p d) ∙ e))
  ]

  cleared_zero : (p i : ℕ) → page ≡ p → i < 512 → cleared.mem (p + 8 * i) ≡ 0
  unfolding cleared fill_page
  cleared_zero p i d h = ground (arith, d)

  cleared-IsTable : IsTable cleared ys root_only
  unfolding cleared
  cleared-IsTable = record {
    free = record {
      kernel = free.kernel;
      chain =
          Chain-frame k k.mem cleared.mem page k.freelist ys fresh.aligned
            (fill_page-SameOutside k.mem page 0) absent free.pages free.chain;
      pages = Pages-SameRange k cleared ys (refl, refl) free.pages;
    };
    low = low;
    apart = λ p l x e. rw (sym (root_place_only p l x e)) absent;
    page = λ p l x e.
        rw (sym (root_place_only p l x e))
          (record { aligned = fresh.aligned; low = fresh.low; high = fresh.high });
    down = λ p l x i e h v.
        let z = sym (ap pte_v (cleared_zero p i (root_place_only p (suc l) x e) h)) ∙ v in
        absurd (cc);
  }

  cleared-IsPageTable : IsPageTable page cleared
  unfolding root_only
  cleared-IsPageTable = record {
    pages = ys;
    own = root_only;
    table = cleared-IsTable;
    root_own = update_self (λ _. none) page (some (2, 0));
  }

  cleared-entry : (va : ℕ) → entry page cleared va ≡ 0
  unfolding leaf pte_addr
  cleared-entry va = rw (cleared_zero page (px 2 va) refl (px_bound 2 va)) refl

-- `uvmcreate` returns 0 when there is no free page. Otherwise it returns the root of a page table
-- that maps nothing.
pub uvmcreate-Maps :
    (k : Kmem) (pages : List ℕ)
    → IsFree k pages
    → k.ram_end ≤ 2 ^ 64
    → ((pages ≡ []) × (uvmcreate k ≡ (0, k)))
      ⊎ ((page : ℕ) × (k' : Kmem) × (uvmcreate k ≡ (page, k')) × (page ≢ 0) × Maps page k' (λ _. 0))
unfolding uvmcreate cleared
uvmcreate-Maps k pages free low = elim (kalloc-IsFree k pages free) [
  | inl (e, f) ↦ inl (e, rw f refl)
  | inr (page, ys, e, r, n, fresh, absent, rest, range, _) ↦
      let fresh' : IsPage (kalloc k).1 page = record {
        aligned = fresh.aligned;
        low = omega (arith, fresh.low, range.0);
        high = omega (arith, fresh.high, range.1);
      } in
      let low' : (kalloc k).1.ram_end ≤ 2 ^ 64 = omega (arith, low, range.1) in
      inr (
        page,
        _,
        rw r (ground (arith, n)),
        n,
        record {
          table = cleared-IsPageTable (kalloc k).1 page ys low' fresh' absent rest;
          entry_eq = λ va _. cleared-entry (kalloc k).1 page ys low' fresh' absent rest va;
        },
      )
]
