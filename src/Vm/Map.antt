-- ===== src/Vm/Map.antt =====
-- kernel/vm.c: page tables as maps from addresses to entries; `mappages` and `walkaddr` in these terms.
use zept_os.Prelude.{
  ℕ, ◌/◌, ◌≤◌, ◌<◌, ◌≡◌, ◌≢◌, ◌∙◌, ap, sym, refl, ◌⊎◌, inl, inr, Bool, true, false, some, List,
  arith, ◌==◌, if◌then◌else◌, Bool-cases, update, Outcome, ok, panic, ℕ_discrete, Option, suc,
  update_other, ◌+◌, ◌*◌,
}
use mathlib.Core.Path.{subst}
use zept_os.Kalloc.{Kmem}
use zept_os.Vm.{px, pte_v, leaf_pte, maxva, pte_addr, walk_loop, walk, map_one}
use zept_os.Vm.Tree.{
  vpn, Places, IsTable, leaf, Reaches, Blocked, Grows, Grows-trans, entry_apart, px_bound,
}
use zept_os.Vm.Walk.{Walked, walk_loop-Walked, Reaches-leaf}
use zept_os.Vm.Write.{leaf_same, written, written-IsTable, written_leaf, written_other}

-- A page table with its root.
pub record IsPageTable (root : ℕ) (k : Kmem) : Type 0 where
  pub pages : List ℕ
  pub own : Places
  pub table : IsTable k pages own
  pub root_own : own root ≡ some (2, 0)

-- The pages that left the allocator are in the tree, each with an entry that leads to it.
abbrev pub KeepsPages : (root : ℕ) (k k' : Kmem) → IsPageTable root k → IsPageTable root k' → Type 0
KeepsPages root k k' t t' = Grows k t.pages t.own k' t'.pages t'.own

-- The entry that a page table has for an address.
abbrev pub entry : (root : ℕ) → Kmem → (va : ℕ) → ℕ
entry root k va = leaf k.mem 2 va root

-- The page table of `k`, with these entries.
pub record Maps (root : ℕ) (k : Kmem) (entries : ℕ → ℕ) : Type 0 where
  pub table : IsPageTable root k
  pub entry_eq : (va : ℕ) → va < maxva → entry root k va ≡ entries va

root_vpn : (va : ℕ) → va < maxva → vpn 3 va ≡ 0
root_vpn va h = omega arith

pub root_place :
    (root va : ℕ) (own : Places)
    → va < maxva
    → own root ≡ some (2, 0)
    → own root ≡ some (2, vpn 3 va)
root_place root va own h o = o ∙ (λ n. some (2, sym (root_vpn va h) n))

pub walk_in :
    (root va : ℕ) (alloc : Bool) (k : Kmem)
    → va < maxva
    → walk root va alloc k ≡ ok (walk_loop alloc 2 va root k)
unfolding walk
walk_in root va alloc k h = ground arith

pub walk_past :
    (root va : ℕ) (alloc : Bool) (k : Kmem) → maxva ≤ va → walk root va alloc k ≡ panic "walk"
unfolding walk
walk_past root va alloc k h = ground arith

-- An entry of a page of the tree is not at address 0.
pub addr_pos :
    (k : Kmem) (q l x va : ℕ) (pages : List ℕ) (own : Places)
    → IsTable k pages own
    → own q ≡ some (l, x)
    → pte_addr q 0 va ≢ 0
unfolding pte_addr
addr_pos k q l x va pages own t o e = absurd (omega (arith, t.free.kernel, (t.page q l x o).low))

-- The entries with `word` for the page of `a`.
abbrev pub with_entry : (ℕ → ℕ) → (a word : ℕ) → ℕ → ℕ
with_entry f a word va = if va / 4096 == a / 4096 then word else f va

pub written_Maps :
    (root a word : ℕ) (k : Kmem) (pages : List ℕ) (own : Places) (q : ℕ)
    → a < maxva
    → IsTable k pages own
    → own root ≡ some (2, 0)
    → own q ≡ some (0, vpn 1 a)
    → Reaches k.mem 2 a root (pte_addr q 0 a)
    → Maps root
        (record k { mem = update k.mem (pte_addr q 0 a) word })
        (with_entry (entry root k) a word)
unfolding written pte_addr
written_Maps root a word k pages own q h t r o reach = record {
  table = record {
    pages = pages;
    own = own;
    table = written-IsTable k pages own q a word t o;
    root_own = r;
  };
  entry_eq = λ va g. elim (ℕ_discrete (va / 4096) (a / 4096)) [
    | yes d ↦
        leaf_same _ 2 va a root (omega arith) d
        ∙ written_leaf k pages own q a word t o 2 0 root r reach
        ∙ ground (arith, d)
    | no d ↦
        written_other k pages own q a word t o 2 va root (omega arith) (root_place root va own g r)
          d
        ∙ ground (arith, d)
  ];
}

-- A last entry is none of those that lead to pages.
written_Grows :
    (k : Kmem) (pages : List ℕ) (own : Places) (q a word : ℕ)
    → IsTable k pages own
    → own q ≡ some (0, vpn 1 a)
    → Grows k pages own (record k { mem = update k.mem (pte_addr q 0 a) word }) pages own
unfolding pte_addr
written_Grows k pages own q a word t o = record {
  conserves = λ p x n. (x, n);
  keeps = λ p m y e. e;
  upper = λ p m y j e c v. update_other k.mem (q + 8 * px 0 a) word (p + 8 * j) (
      entry_apart q p (px 0 a) j (t.page q 0 (vpn 1 a) o).aligned (t.page p (suc m) y e).aligned
        (px_bound 0 a) c (λ d. zero-ne-suc (sym o ∙ ap own d ∙ e)));
  entered = λ p l x e. inl e;
}
  where
    zero-ne-suc : {m x y : ℕ} → ◌≡◌ {A = Option (ℕ × ℕ)} (some (0, x)) (some (suc m, y)) → ⊥
    zero-ne-suc e = absurd (cc)

-- What `map_one` does, by the entry for the address and by whether memory lasts.
abbrev pub MapsOne :
    (root a pa perm : ℕ) (k : Kmem) → IsPageTable root k → Outcome (Bool × Kmem) → Type 0
MapsOne root a pa perm k t result =
    ((pte_v (entry root k a) ≡ true) × (result ≡ panic "mappages: remap"))
    ⊎ ((pte_v (entry root k a) ≡ false)
        × (((k' : Kmem) × (result ≡ ok (false, k'))
              × (k'.freelist ≡ 0)
              × Blocked k'.mem 2 a root
              × (m : Maps root k' (entry root k)) × KeepsPages root k k' t m.table)
            ⊎ ((k' : Kmem) × (result ≡ ok (true, k'))
                × (m : Maps root k' (with_entry (entry root k) a (leaf_pte pa perm))) × KeepsPages
                    root k k' t m.table)))

map_one_out :
    (root a pa perm : ℕ) (k k' : Kmem)
    → walk root a true k ≡ ok (0, k')
    → map_one root a pa perm k ≡ ok (false, k')
unfolding map_one
map_one_out root a pa perm k k' e = rw e refl

map_one_remap :
    (root a pa perm r : ℕ) (k k' : Kmem)
    → walk root a true k ≡ ok (r, k')
    → r ≢ 0
    → pte_v (k'.mem r) ≡ true
    → map_one root a pa perm k ≡ panic "mappages: remap"
unfolding map_one
map_one_remap root a pa perm r k k' e n v = rw (e, v) (ground (arith, n))

map_one_mapped :
    (root a pa perm r : ℕ) (k k' : Kmem)
    → walk root a true k ≡ ok (r, k')
    → r ≢ 0
    → pte_v (k'.mem r) ≡ false
    → map_one root a pa perm k ≡ ok (true, record k' { mem = update k'.mem r (leaf_pte pa perm) })
unfolding map_one
map_one_mapped root a pa perm r k k' e n v = rw (e, v) (ground (arith, n))

map_one-Walked :
    (root a pa perm r : ℕ) (k k' : Kmem) (t : IsPageTable root k)
    → a < maxva
    → walk root a true k ≡ ok (r, k')
    → Walked 2 a root k t.pages t.own (r, k')
    → MapsOne root a pa perm k t (map_one root a pa perm k)
unfolding written_Maps
map_one-Walked root a pa perm r k k' t h e w =
    let o = t.root_own in
    let same = λ (va : ℕ). w.extends.leaves 2 0 root va o in
    let table : IsPageTable root k' = record {
      pages = w.pages;
      own = w.own';
      table = w.table;
      root_own = w.extends.keeps root 2 0 o;
    } in
    elim w.found [
      | inl (z, f, out, stop) ↦ inr (
        ap pte_v f,
        inl (
          k',
          map_one_out root a pa perm k k' (e ∙ (λ n. ok (z n, k'))),
          out,
          stop,
          record { table = table; entry_eq = λ va _. same va },
          w.grows,
        ),
      )
      | inr (q, place, eq, reach) ↦
          let pos = addr_pos k' q 0 (vpn 1 a) a w.pages w.own' w.table place in
          let e' = e ∙ (λ n. ok (eq n, k')) in
          let reach' = subst (Reaches k'.mem 2 a root) eq reach in
          let found = sym (same a) ∙ Reaches-leaf k'.mem 2 a root (pte_addr q 0 a) reach' in
          elim (Bool-cases (pte_v (k'.mem (pte_addr q 0 a)))) [
            | inl v ↦
                inl
                  (ap pte_v found ∙ v, map_one_remap root a pa perm (pte_addr q 0 a) k k' e' pos v)
            | inr v ↦
                let m =
                  written_Maps root a (leaf_pte pa perm) k' w.pages w.own' q h w.table
                    (w.extends.keeps root 2 0 o) place reach' in
                inr (
                  ap pte_v found ∙ v,
                  inr (
                    _,
                    map_one_mapped root a pa perm (pte_addr q 0 a) k k' e' pos v,
                    record {
                      table = m.table;
                      entry_eq = λ va g.
                          m.entry_eq va g
                          ∙ ap (λ z. if va / 4096 == a / 4096 then leaf_pte pa perm else z)
                              (same va);
                    },
                    Grows-trans k k' _ t.pages w.pages w.pages t.own w.own' w.own' w.grows
                        (written_Grows k' w.pages w.own' q a (leaf_pte pa perm) w.table place),
                  ),
                )
          ]
    ]

pub map_one_lem :
    (root a pa perm : ℕ) (k : Kmem)
    → a < maxva
    → (t : IsPageTable root k) → MapsOne root a pa perm k t (map_one root a pa perm k)
map_one_lem root a pa perm k h t =
    map_one-Walked root a pa perm _ k _ t h (walk_in root a true k h) (
      walk_loop-Walked 2 a root k t.pages t.own (omega arith) t.table
        (root_place root a t.own h t.root_own))
