-- ===== src/Vm/Walk.antt =====
-- kernel/vm.c: `walk` over the tree, with the page table pages that it makes.
use zept_os.Prelude.{
  ℕ, zero, suc, ◌+◌, ◌*◌, ◌<◌, ◌≡◌, ◌≢◌, ◌∙◌, ap, sym, refl, ◌⊎◌, inl, inr, Bool, true, false, some,
  List, arith, Bool-cases, update,
}
use mathlib.Core.Path.{subst}
use zept_os.Kalloc.{Memory, Kmem, fill_page, kalloc}
use zept_os.Kalloc.FreeList.{Absent, IsFree, kalloc-IsFree}
use zept_os.Vm.{pte_v, pte_to_pa, pa_to_pte, px, pte_addr, walk_loop}
use zept_os.Vm.Tree.{
  vpn, px_bound, px_step, pa_to_pte_to_pa, Places, IsTable, leaf, Reaches, Extends, Extends-refl,
  Extends-trans, Extends-none, Blocked, Grows, Grows-refl, Grows-trans, none-ne-some,
}
use zept_os.Vm.Grow.{grown, grown_own, grown_place, grown_lem}

-- The result of a walk for `va` from the page `p` of a level.
pub record Walked (level va p : ℕ) (k : Kmem) (pages0 : List ℕ) (own : Places) (result : ℕ × Kmem)
    : Type 0 where
  pub pages : List ℕ
  pub own' : Places
  pub table : IsTable result.1 pages own'
  pub extends : Extends k own result.1 own'
  pub grows : Grows k pages0 own result.1 pages own'
  pub found :
      ((result.0 ≡ 0)
        × (leaf k.mem level va p ≡ 0)
        × (result.1.freelist ≡ 0)
        × Blocked result.1.mem level va p)
      ⊎ ((q : ℕ) × (own' q ≡ some (0, vpn 1 va))
          × (result.0 ≡ pte_addr q 0 va)
          × Reaches result.1.mem level va p result.0)

walk-valid :
    (alloc : Bool) (l va p : ℕ) (k : Kmem)
    → pte_v (k.mem (pte_addr p (suc l) va)) ≡ true
    → walk_loop alloc (suc l) va p k
      ≡ walk_loop alloc l va (pte_to_pa (k.mem (pte_addr p (suc l) va))) k
unfolding walk_loop
walk-valid alloc l va p k v = rw v refl

walk-out :
    (l va p : ℕ) (k : Kmem)
    → pte_v (k.mem (pte_addr p (suc l) va)) ≡ false
    → kalloc k ≡ (0, k)
    → walk_loop true (suc l) va p k ≡ (0, k)
unfolding walk_loop
walk-out l va p k v e = rw (v, e) refl

walk-made :
    (l va p page : ℕ) (k : Kmem)
    → pte_v (k.mem (pte_addr p (suc l) va)) ≡ false
    → (kalloc k).0 ≡ page
    → page ≢ 0
    → walk_loop true (suc l) va p k
      ≡ walk_loop true l va page (record (kalloc k).1 {
        mem =
            update (fill_page (kalloc k).1.mem page 0) (pte_addr p (suc l) va) (pa_to_pte page + 1);
      })
unfolding walk_loop
walk-made l va p page k v e n = rw (v, e) (ground (arith, n))

-- A walk from the page that a valid entry leads to is a walk from the entry's page.
Walked-up :
    (l va p q x : ℕ) (k0 k : Kmem) (pages0 pages : List ℕ) (own0 own : Places) (result : ℕ × Kmem)
    → Extends k0 own0 k own
    → own0 p ≡ some (suc l, x)
    → pte_v (k.mem (pte_addr p (suc l) va)) ≡ true
    → pte_to_pa (k.mem (pte_addr p (suc l) va)) ≡ q
    → Grows k0 pages0 own0 k pages own
    → Walked l va q k pages own result
    → Walked (suc l) va p k0 pages0 own0 result
unfolding Reaches pte_addr leaf Blocked
Walked-up l va p q x k0 k pages0 pages own0 own result ext o v e c w = record {
  pages = w.pages;
  own' = w.own';
  table = w.table;
  extends = Extends-trans ext w.extends;
  grows = Grows-trans k0 k result.1 pages0 pages w.pages own0 own w.own' c w.grows;
  found = elim w.found [
    | inl (z, f, out, stop) ↦ inl (
      z,
      sym (ext.leaves (suc l) x p va o) ∙ rw (v, e) f,
      out,
      inr (ap pte_v kept ∙ v, subst (Blocked result.1.mem l va) (sym (ap pte_to_pa kept ∙ e)) stop),
    )
    | inr (r, place, eq, reach) ↦ inr (
      r,
      place,
      eq,
      (
        ap pte_v kept ∙ v,
        subst (λ a. Reaches result.1.mem l va a result.0) (sym (ap pte_to_pa kept ∙ e)) reach,
      ),
    )
  ];
}
  where
    kept : result.1.mem (p + 8 * px (suc l) va) ≡ k.mem (p + 8 * px (suc l) va)
    kept =
        w.extends.valid p (suc l) x (px (suc l) va) (ext.keeps p (suc l) x o) (px_bound (suc l) va)
          v

pa_to_pte_v : (page : ℕ) → pte_v (pa_to_pte page + 1) ≡ true
pa_to_pte_v page = ground arith

-- `walk` that allocates, from a page of the tree: on every branch the pages still form a tree, with
-- the last entries that they had; the address is that of the last entry for `va`, or memory was out.
pub walk_loop-Walked :
    (l va p : ℕ) (k : Kmem) (pages : List ℕ) (own : Places)
    → l < 3
    → IsTable k pages own
    → own p ≡ some (l, vpn (suc l) va)
    → Walked l va p k pages own (walk_loop true l va p k)
unfolding walk_loop Reaches pte_addr leaf grown grown_own Blocked
walk_loop-Walked zero va p k pages own h t o = record {
  pages = pages;
  own' = own;
  table = t;
  extends = Extends-refl k own;
  grows = Grows-refl k pages own;
  found = inr (p, o, refl, refl);
}
walk_loop-Walked (suc l) va p k pages own h t o =
    elim (Bool-cases (pte_v (k.mem (pte_addr p (suc l) va)))) [
      | inl v ↦ subst (Walked (suc l) va p k pages own) (sym (walk-valid true l va p k v)) (
          Walked-up l va p _ (vpn (suc (suc l)) va) k k pages pages own own _ (Extends-refl k own) o
            v refl (Grows-refl k pages own)
            (walk_loop-Walked l va _ k pages own (omega arith) t (
              t.down p l (vpn (suc (suc l)) va) (px (suc l) va) o (px_bound (suc l) va) v
              ∙ (λ n. some (l, px_step (suc l) va h n)))))
      | inr v ↦ elim (kalloc-IsFree k pages t.free) [
        | inl (empty, e) ↦
            subst (Walked (suc l) va p k pages own) (sym (walk-out l va p k v e)) (record {
              pages = pages;
              own' = own;
              table = t;
              extends = Extends-refl k own;
              grows = Grows-refl k pages own;
              found = inl (refl, rw v refl, (subst (IsFree k) empty t.free).chain, inl v);
            })
        | inr (page, ys, e, r, n, fresh, _, rest, range, same) ↦
            subst (Walked (suc l) va p k pages own) (sym (walk-made l va p page k v r n)) (
              let t' = subst (λ z. IsTable k z own) e t in
              let i = px (suc l) va in
              let b = px_bound (suc l) va in
              let own1 : Places =
                grown_own k (kalloc k).1 page ys own p l (vpn (suc (suc l)) va) i t' o b v fresh
                  rest range same in
              let k1 : Kmem =
                grown k (kalloc k).1 page ys own p l (vpn (suc (suc l)) va) i t' o b v fresh rest
                  range same in
              let (ext, table, place, entry) =
                grown_lem k (kalloc k).1 page ys own p l (vpn (suc (suc l)) va) i t' o b v fresh
                  rest range same in
              let leads : pte_to_pa (k1.mem (p + 8 * i)) ≡ page =
                ap pte_to_pa entry
                ∙ pa_to_pte_to_pa page fresh.aligned (omega (arith, fresh.high, t.low)) in
              Walked-up l va p page (vpn (suc (suc l)) va) k _ pages ys own _ _ ext o
                (ap pte_v entry ∙ pa_to_pte_v page) leads
                (record {
                  conserves = λ a out gone. (
                    subst (Absent a) (sym e)
                        ((λ d. none-ne-some (sym gone ∙ (ap own1 d ∙ place))), out),
                    Extends-none k k1 own own1 a ext gone,
                  );
                  keeps = ext.keeps;
                  upper = λ q m y. ext.valid q (suc m) y;
                  entered = λ a m y f.
                      elim (grown_place k (kalloc k).1 page ys own p l (vpn (suc (suc l)) va) i t' o
                        b v fresh rest range same a m y f) [
                          | inr (_, g) ↦ inl g
                          | inl (d, g, _) ↦ inr (
                            p,
                            vpn (suc (suc l)) va,
                            i,
                            ext.keeps p (suc l) _ o
                                ∙ (λ n. some (suc (sym g n), vpn (suc (suc l)) va)),
                            b,
                            ap pte_v entry ∙ pa_to_pte_v page,
                            leads ∙ sym d,
                          )
                        ];
                })
                (walk_loop-Walked l va page _ ys _ (omega arith) table
                  (place ∙ (λ n. some (l, px_step (suc l) va h n)))))
      ]
    ]

walk-stop :
    (l va p : ℕ) (k : Kmem)
    → pte_v (k.mem (pte_addr p (suc l) va)) ≡ false
    → walk_loop false (suc l) va p k ≡ (0, k)
unfolding walk_loop
walk-stop l va p k v = rw v refl

-- The result of a walk that allocates nothing.
abbrev pub Looked : (level va p : ℕ) → Kmem → Places → ℕ × Kmem → Type 0
Looked level va p k own result =
    (result.1 ≡ k)
    × (((result.0 ≡ 0) × (leaf k.mem level va p ≡ 0))
        ⊎ ((q : ℕ) × (own q ≡ some (0, vpn 1 va))
            × (result.0 ≡ pte_addr q 0 va)
            × Reaches k.mem level va p result.0))

Looked-up :
    (l va p : ℕ) (k : Kmem) (own : Places) (result : ℕ × Kmem)
    → pte_v (k.mem (pte_addr p (suc l) va)) ≡ true
    → Looked l va (pte_to_pa (k.mem (pte_addr p (suc l) va))) k own result
    → Looked (suc l) va p k own result
unfolding Reaches leaf
Looked-up l va p k own result v (same, inl (z, zero_leaf)) = (same, inl (z, rw v zero_leaf))
Looked-up l va p k own result v (same, inr (q, place, eq, reach)) =
    (same, inr (q, place, eq, (v, reach)))

-- `walk` that allocates nothing changes nothing, and finds the last entry, where there is one.
pub walk_loop-Looked :
    (l va p : ℕ) (k : Kmem) (pages : List ℕ) (own : Places)
    → l < 3
    → IsTable k pages own
    → own p ≡ some (l, vpn (suc l) va)
    → Looked l va p k own (walk_loop false l va p k)
unfolding walk_loop Reaches leaf pte_addr
walk_loop-Looked zero va p k pages own h t o = (refl, inr (p, o, refl, refl))
walk_loop-Looked (suc l) va p k pages own h t o =
    elim (Bool-cases (pte_v (k.mem (pte_addr p (suc l) va)))) [
      | inl v ↦ subst (Looked (suc l) va p k own) (sym (walk-valid false l va p k v)) (
          Looked-up l va p k own _ v (
            walk_loop-Looked l va _ k pages own (omega arith) t (
              t.down p l (vpn (suc (suc l)) va) (px (suc l) va) o (px_bound (suc l) va) v
              ∙ (λ n. some (l, px_step (suc l) va h n)))))
      | inr v ↦
          subst (Looked (suc l) va p k own) (sym (walk-stop l va p k v))
            (refl, inl (refl, rw v refl))
    ]

pub Reaches-leaf : (mem : Memory) (l va p r : ℕ) → Reaches mem l va p r → leaf mem l va p ≡ mem r
unfolding Reaches leaf
Reaches-leaf mem zero va p r e = ap mem (sym e)
Reaches-leaf mem (suc l) va p r (v, reach) = rw v (Reaches-leaf mem l va _ r reach)
