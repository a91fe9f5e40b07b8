-- ===== src/Vm/Ranges.antt =====
-- kernel/vm.c: `mappages` over its range of pages.
use zept_os.Prelude.{
  ℕ, zero, suc, ◌+◌, ◌-◌, ◌*◌, ◌/◌, ◌%◌, ◌≤◌, ◌<◌, ◌≡◌, ◌∙◌, ap, sym, refl, ◌⊎◌, inl, inr, Bool,
  true, false, ◌&&◌, arith, ltb, leb, ◌==◌, if◌then◌else◌, Outcome, ok, panic,
}
use mathlib.Core.Path.{subst}
use Prim.Native.String.{String}
use zept_os.Kalloc.{Kmem, pgsize}
use zept_os.Vm.{pte_v, leaf_pte, maxva, map_one, map_loop, mappages}
use zept_os.Vm.Pages.{first_page, later_page}
use zept_os.Vm.Map.{IsPageTable, KeepsPages, entry, Maps, with_entry, map_one_lem}
use zept_os.Vm.Tree.{Blocked, Grows-trans}

-- The entries with `n` pages from `a` on mapped to the pages from `pa` on.
abbrev pub with_pages : (ℕ → ℕ) → (n a pa perm : ℕ) → ℕ → ℕ
with_pages f n a pa perm va =
    if leb (a / 4096) (va / 4096) && ltb (va / 4096) (a / 4096 + n)
    then leaf_pte (pa + (va / 4096 - a / 4096) * 4096) perm
    else f va

pub Maps-eq :
    (root : ℕ) (k : Kmem) (f g : ℕ → ℕ)
    → Maps root k f
    → ((va : ℕ) → va < maxva → f va ≡ g va)
    → Maps root k g
Maps-eq root k f g m e = record { table = m.table; entry_eq = λ va h. m.entry_eq va h ∙ e va h }

with_pages-none : (f : ℕ → ℕ) (a pa perm va : ℕ) → f va ≡ with_pages f 0 a pa perm va
with_pages-none f a pa perm va = ground arith

with_pages-one :
    (f : ℕ → ℕ) (a pa perm va : ℕ)
    → with_entry f a (leaf_pte pa perm) va ≡ with_pages f 1 a pa perm va
with_pages-one f a pa perm va = ground arith

with_pages-more :
    (f g : ℕ → ℕ) (n a pa perm va : ℕ)
    → a % 4096 ≡ 0
    → g va ≡ with_entry f a (leaf_pte pa perm) va
    → with_pages g n (a + pgsize) (pa + pgsize) perm va ≡ with_pages f (suc n) a pa perm va
with_pages-more f g n a pa perm va h e = ground (arith, e)

-- What `mappages` does for `n` pages.
abbrev pub MapsPages :
    (root n a pa perm : ℕ) (k : Kmem) → IsPageTable root k → Outcome (Bool × Kmem) → Type 0
MapsPages root n a pa perm k t result =
    ((i : ℕ) × (i < n)
      × (pte_v (entry root k (a + i * 4096)) ≡ true)
      × (result ≡ panic "mappages: remap"))
    ⊎ ((m : ℕ) × (k' : Kmem) × (m < n)
        × (result ≡ ok (false, k'))
        × (k'.freelist ≡ 0)
        × Blocked k'.mem 2 (a + m * 4096) root
        × (maps : Maps root k' (with_pages (entry root k) m a pa perm)) × KeepsPages root k k' t
            maps.table)
    ⊎ ((k' : Kmem) × ((i : ℕ) → i < n → pte_v (entry root k (a + i * 4096)) ≡ false)
        × (result ≡ ok (true, k'))
        × (maps : Maps root k' (with_pages (entry root k) n a pa perm)) × KeepsPages root k k' t
            maps.table)

loop_stop :
    (rest root a pa perm : ℕ) (k : Kmem) (text : String)
    → map_one root a pa perm k ≡ panic text
    → map_loop (suc rest) root a pa perm k ≡ panic text
unfolding map_loop
loop_stop rest root a pa perm k text e = rw e refl

loop_out :
    (rest root a pa perm : ℕ) (k k' : Kmem)
    → map_one root a pa perm k ≡ ok (false, k')
    → map_loop (suc rest) root a pa perm k ≡ ok (false, k')
unfolding map_loop
loop_out rest root a pa perm k k' e = rw e refl

loop_more :
    (rest root a pa perm : ℕ) (k k' : Kmem)
    → map_one root a pa perm k ≡ ok (true, k')
    → map_loop (suc rest) root a pa perm k ≡ map_loop rest root (a + pgsize) (pa + pgsize) perm k'
unfolding map_loop
loop_more rest root a pa perm k k' e = rw e refl

next_place : (a n : ℕ) → a + pgsize + n * 4096 ≡ a + suc n * 4096
next_place a n = omega arith

no_pages : (a : ℕ) → a ≡ a + 0 * 4096
no_pages a = omega arith

step :
    (rest root a pa perm : ℕ) (k k' : Kmem) (t : IsPageTable root k)
    (result : Outcome (Bool × Kmem))
    → a % 4096 ≡ 0
    → a + suc (suc rest) * 4096 ≤ maxva
    → pte_v (entry root k a) ≡ false
    → (m : Maps root k' (with_entry (entry root k) a (leaf_pte pa perm)))
    → KeepsPages root k k' t m.table
    → MapsPages root (suc rest) (a + pgsize) (pa + pgsize) perm k' m.table result
    → MapsPages root (suc (suc rest)) a pa perm k t result
unfolding Maps-eq
step rest root a pa perm k k' t result h b v m c (inl (i, l, w, e)) = inl (
  suc i,
  omega arith,
  sym (ap pte_v (later_page root a (leaf_pte pa perm) i k k' (omega arith) m)) ∙ w,
  e,
)
step rest root a pa perm k k' t result h b v m c (inr (inl (n, k2, l, e, out, stop, m2, c2))) =
    inr (
      inl (
        suc n,
        k2,
        omega arith,
        e,
        out,
        subst (λ va. Blocked k2.mem 2 va root) (next_place a n) stop,
        Maps-eq root k2 _ _ m2 (λ va g.
            with_pages-more (entry root k) (entry root k') n a pa perm va h (m.entry_eq va g)),
        Grows-trans k k' k2 t.pages m.table.pages m2.table.pages t.own m.table.own m2.table.own c
            c2,
      ))
step rest root a pa perm k k' t result h b v m c (inr (inr (k2, w, e, m2, c2))) = inr (
    inr (
      k2,
      invalid,
      e,
      Maps-eq root k2 _ _ m2 (λ va g.
          with_pages-more (entry root k) (entry root k') (suc rest) a pa perm va h
            (m.entry_eq va g)),
      Grows-trans k k' k2 t.pages m.table.pages m2.table.pages t.own m.table.own m2.table.own c c2,
    ))
  where
    invalid : (i : ℕ) → i < suc (suc rest) → pte_v (entry root k (a + i * 4096)) ≡ false
    invalid zero l = first_page pte_v root a k false v
    invalid (suc i) l =
        sym (ap pte_v (later_page root a (leaf_pte pa perm) i k k' (omega arith) m))
        ∙ w i (omega arith)

only_page :
    (root a : ℕ) (k : Kmem)
    → pte_v (entry root k a) ≡ false
    → (i : ℕ) → i < 1
    → pte_v (entry root k (a + i * 4096)) ≡ false
only_page root a k v zero l = first_page pte_v root a k false v
only_page root a k v (suc i) l = absurd (omega arith)

map_loop_lem :
    (rest root a pa perm : ℕ) (k : Kmem)
    → a % 4096 ≡ 0
    → a + suc rest * 4096 ≤ maxva
    → (t : IsPageTable root k)
    → MapsPages root (suc rest) a pa perm k t (map_loop rest root a pa perm k)
unfolding map_loop Maps-eq
map_loop_lem zero root a pa perm k h b t = elim (map_one_lem root a pa perm k (omega arith) t) [
  | inl (v, e) ↦ inl (0, omega arith, first_page pte_v root a k true v, e)
  | inr (v, inl (k', e, out, stop, m, c)) ↦ inr (
      inl (
        0,
        k',
        omega arith,
        e,
        out,
        subst (λ va. Blocked k'.mem 2 va root) (no_pages a) stop,
        Maps-eq root k' _ _ m (λ va _. with_pages-none (entry root k) a pa perm va),
        c,
      ))
  | inr (v, inr (k', e, m, c)) ↦ inr (
      inr (
        k',
        only_page root a k v,
        e,
        Maps-eq root k' _ _ m (λ va _. with_pages-one (entry root k) a pa perm va),
        c,
      ))
]
map_loop_lem (suc rest) root a pa perm k h b t =
    elim (map_one_lem root a pa perm k (omega arith) t) [
      | inl (v, e) ↦
          inl
            (0, omega arith, first_page pte_v root a k true v, loop_stop rest root a pa perm k _ e)
      | inr (v, inl (k', e, out, stop, m, c)) ↦ inr (
          inl (
            0,
            k',
            omega arith,
            loop_out rest root a pa perm k k' e,
            out,
            subst (λ va. Blocked k'.mem 2 va root) (no_pages a) stop,
            Maps-eq root k' _ _ m (λ va _. with_pages-none (entry root k) a pa perm va),
            c,
          ))
      | inr (v, inr (k', e, m, c)) ↦
          subst (MapsPages root (suc (suc rest)) a pa perm k t)
            (sym (loop_more rest root a pa perm k k' e))
            (step rest root a pa perm k k' t _ h b v m c (
              map_loop_lem rest root (a + pgsize) (pa + pgsize) perm k' (omega arith) (omega arith)
                m.table))
    ]

mappages_loop :
    (rest root a pa perm : ℕ) (k : Kmem)
    → a % 4096 ≡ 0
    → mappages root a (suc rest * pgsize) pa perm k ≡ map_loop rest root a pa perm k
unfolding mappages
mappages_loop rest root a pa perm k h = rw (aligned, whole, some_page, pages) refl
  where
    aligned : (a % pgsize == 0) ≡ true
    aligned = ground (arith, h)

    whole : (suc rest * pgsize % pgsize == 0) ≡ true
    whole = ground arith

    some_page : (suc rest * pgsize == 0) ≡ false
    some_page = ground arith

    pages : suc rest * pgsize / pgsize - 1 ≡ rest
    pages = omega arith

-- Mapping `n` pages at an aligned address below MAXVA, `mappages` panics only when one of them is
-- mapped already. Otherwise it maps them all, to consecutive pages with the flags, or returns -1 with
-- the first few of them mapped, when the next one has no page table page and no page is free. In both
-- cases no page is lost, the pages that it took from the allocator join the tree, each with a valid
-- entry that leads to it, and every address outside keeps its entry.
pub mappages-MapsPages :
    (root n a pa perm : ℕ) (k : Kmem)
    → 0 < n
    → a % 4096 ≡ 0
    → a + n * 4096 ≤ maxva
    → (t : IsPageTable root k)
    → MapsPages root n a pa perm k t (mappages root a (n * pgsize) pa perm k)
mappages-MapsPages root zero a pa perm k p h b t = absurd (omega arith)
mappages-MapsPages root (suc rest) a pa perm k p h b t =
    subst (MapsPages root (suc rest) a pa perm k t) (sym (mappages_loop rest root a pa perm k h))
      (map_loop_lem rest root a pa perm k h b t)
