-- ===== src/Vm/Unmap.antt =====
-- kernel/vm.c: `uvmunmap` as a map of entries.
use zept_os.Prelude.{
  ℕ, zero, suc, ◌+◌, ◌*◌, ◌/◌, ◌%◌, ◌≤◌, ◌<◌, ◌≡◌, ◌≢◌, ◌∙◌, ap, sym, refl, ◌⊎◌, inl, inr, Bool,
  true, false, not, ◌&&◌, arith, ltb, leb, ◌==◌, if◌then◌else◌, Bool-cases, update, Outcome, ok,
  panic,
}
use mathlib.Core.Path.{subst}
use Prim.Native.String.{String}
use zept_os.Kalloc.{Kmem, pgsize}
use zept_os.Vm.{pte_v, pte_flags, maxva, pte_addr, walk_loop, walk, unmap_loop, uvmunmap}
use zept_os.Vm.Tree.{vpn, Reaches}
use zept_os.Vm.Walk.{Looked, walk_loop-Looked, Reaches-leaf}
use zept_os.Vm.Pages.{first_page, later_page}
use zept_os.Vm.Map.{
  IsPageTable, entry, Maps, root_place, walk_in, addr_pos, with_entry, written_Maps,
}
use zept_os.Vm.Ranges.{Maps-eq}

-- The entries without those of `n` pages from `a` on.
abbrev pub without_pages : (ℕ → ℕ) → (n a : ℕ) → ℕ → ℕ
without_pages f n a va =
    if leb (a / 4096) (va / 4096) && ltb (va / 4096) (a / 4096 + n) then 0 else f va

-- An entry that `uvmunmap` removes: valid, with a flag besides PTE_V.
abbrev pub is_mapped : ℕ → Bool
is_mapped pte = pte_v pte && not (pte_flags pte == 1)

abbrev pub UnmapsPages : (root n a : ℕ) → Kmem → Outcome Kmem → Type 0
UnmapsPages root n a k result =
    ((i : ℕ) × (text : String) × (i < n)
      × (is_mapped (entry root k (a + i * 4096)) ≡ false)
      × (result ≡ panic text))
    ⊎ ((k' : Kmem) × ((i : ℕ) → i < n → is_mapped (entry root k (a + i * 4096)) ≡ true)
        × (result ≡ ok k')
        × Maps root k' (without_pages (entry root k) n a))

abbrev unmapped : ℕ → Kmem → Kmem
unmapped pte k = record k { mem = update k.mem pte 0 }

unmap_step :
    (rest root a r : ℕ) (k : Kmem)
    → walk root a false k ≡ ok (r, k)
    → r ≢ 0
    → is_mapped (k.mem r) ≡ true
    → unmap_loop (suc rest) root a false k ≡ unmap_loop rest root (a + pgsize) false (unmapped r k)
unfolding unmap_loop
unmap_step rest root a r k e n m =
    let v : pte_v (k.mem r) ≡ true = ground (arith, m) in
    let f : (pte_flags (k.mem r) == 1) ≡ false = ground (arith, m) in
    let z : (r == 0) ≡ false = ground (arith, n) in rw (e, z, v, f) refl

unmap_stop :
    (rest root a r : ℕ) (k : Kmem)
    → walk root a false k ≡ ok (r, k)
    → (r ≡ 0) ⊎ (is_mapped (k.mem r) ≡ false)
    → (text : String) × (unmap_loop (suc rest) root a false k ≡ panic text)
unfolding unmap_loop
unmap_stop rest root a r k e (inl z) = ("uvmunmap: walk", rw (e, z) refl)
unmap_stop rest root a r k e (inr m) = elim (Bool-cases (r == 0)) [
  | inl z ↦ ("uvmunmap: walk", rw (e, z) refl)
  | inr z ↦ elim (Bool-cases (pte_v (k.mem r))) [
    | inr v ↦ ("uvmunmap: not mapped", rw (e, z, v) refl)
    | inl v ↦
        let f : (pte_flags (k.mem r) == 1) ≡ true = ground (arith, m, v) in
        ("uvmunmap: not a leaf", rw (e, z, v, f) refl)
  ]
]

-- One round of the loop, by the entry for the address.
abbrev UnmapsOne : (rest root a : ℕ) → Kmem → Type 0
UnmapsOne rest root a k =
    ((text : String) × (is_mapped (entry root k a) ≡ false)
      × (unmap_loop (suc rest) root a false k ≡ panic text))
    ⊎ ((k1 : Kmem) × (is_mapped (entry root k a) ≡ true)
        × (unmap_loop (suc rest) root a false k ≡ unmap_loop rest root (a + pgsize) false k1)
        × Maps root k1 (with_entry (entry root k) a 0))

unmap_one-Looked :
    (rest root a : ℕ) (k : Kmem) (t : IsPageTable root k) (result : ℕ × Kmem)
    → a < maxva
    → walk root a false k ≡ ok result
    → Looked 2 a root k t.own result
    → UnmapsOne rest root a k
unmap_one-Looked rest root a k t (r, k1) h e (same, inl (z, f)) =
    let (text, stop) = unmap_stop rest root a r k (e ∙ (λ i. ok (r, same i))) (inl z) in
    inl (text, ap is_mapped f, stop)
unmap_one-Looked rest root a k t (r, k1) h e (same, inr (q, place, eq, reach)) =
    let e' = e ∙ (λ i. ok (eq i, same i)) in
    let reach' = subst (Reaches k.mem 2 a root) eq reach in
    let f = Reaches-leaf k.mem 2 a root (pte_addr q 0 a) reach' in
    elim (Bool-cases (is_mapped (k.mem (pte_addr q 0 a)))) [
      | inl m ↦ inr (
        _,
        ap is_mapped f ∙ m,
        unmap_step rest root a (pte_addr q 0 a) k e'
            (addr_pos k q 0 (vpn 1 a) a t.pages t.own t.table place) m,
        written_Maps root a 0 k t.pages t.own q h t.table t.root_own place reach',
      )
      | inr m ↦
          let (text, stop) = unmap_stop rest root a (pte_addr q 0 a) k e' (inr m) in
          inl (text, ap is_mapped f ∙ m, stop)
    ]

unmap_one : (rest root a : ℕ) (k : Kmem) → a < maxva → IsPageTable root k → UnmapsOne rest root a k
unmap_one rest root a k h t =
    unmap_one-Looked rest root a k t (walk_loop false 2 a root k) h (walk_in root a false k h) (
      walk_loop-Looked 2 a root k t.pages t.own (omega arith) t.table
        (root_place root a t.own h t.root_own))

without_pages-more :
    (f g : ℕ → ℕ) (n a va : ℕ)
    → a % 4096 ≡ 0
    → g va ≡ with_entry f a 0 va
    → without_pages g n (a + pgsize) va ≡ without_pages f (suc n) a va
without_pages-more f g n a va h e = ground (arith, e)

step :
    (rest root a : ℕ) (k k1 : Kmem) (result : Outcome Kmem)
    → a % 4096 ≡ 0
    → a + suc rest * 4096 ≤ maxva
    → is_mapped (entry root k a) ≡ true
    → Maps root k1 (with_entry (entry root k) a 0)
    → UnmapsPages root rest (a + pgsize) k1 result
    → UnmapsPages root (suc rest) a k result
step rest root a k k1 result h b v m (inl (i, text, l, w, e)) = inl (
  suc i,
  text,
  omega arith,
  sym (ap is_mapped (later_page root a 0 i k k1 (omega arith) m)) ∙ w,
  e,
)
step rest root a k k1 result h b v m (inr (k2, w, e, m2)) = inr (
  k2,
  mapped,
  e,
  Maps-eq root k2 _ _ m2
      (λ va g. without_pages-more (entry root k) (entry root k1) rest a va h (m.entry_eq va g)),
)
  where
    mapped : (i : ℕ) → i < suc rest → is_mapped (entry root k (a + i * 4096)) ≡ true
    mapped zero l = first_page is_mapped root a k true v
    mapped (suc i) l =
        sym (ap is_mapped (later_page root a 0 i k k1 (omega arith) m)) ∙ w i (omega arith)

unmap_loop_lem :
    (n root a : ℕ) (k : Kmem)
    → a % 4096 ≡ 0
    → a + n * 4096 ≤ maxva
    → IsPageTable root k
    → UnmapsPages root n a k (unmap_loop n root a false k)
unfolding unmap_loop
unmap_loop_lem zero root a k h b t =
    inr
      (k, λ i l. absurd (omega arith), refl, record { table = t; entry_eq = λ va _. ground arith })
unmap_loop_lem (suc rest) root a k h b t = elim (unmap_one rest root a k (omega arith) t) [
  | inl (text, m, e) ↦ inl (0, text, omega arith, first_page is_mapped root a k false m, e)
  | inr (k1, m, e, maps) ↦ subst (UnmapsPages root (suc rest) a k) (sym e) (
      step rest root a k k1 _ h b m maps
        (unmap_loop_lem rest root (a + pgsize) k1 (omega arith) (omega arith) maps.table))
]

-- `uvmunmap` of `n` pages at an aligned address below MAXVA, without freeing them, panics when one of
-- them is not mapped; otherwise it removes their entries, and every other address keeps its entry.
pub uvmunmap-UnmapsPages :
    (root n a : ℕ) (k : Kmem)
    → a % 4096 ≡ 0
    → a + n * 4096 ≤ maxva
    → IsPageTable root k
    → UnmapsPages root n a k (uvmunmap root a n false k)
unfolding uvmunmap
uvmunmap-UnmapsPages root n a k h b t =
    let z : (a % pgsize == 0) ≡ true = ground (arith, h) in rw z (unmap_loop_lem n root a k h b t)
