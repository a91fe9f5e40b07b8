-- ===== src/Vm/Write.antt =====
-- kernel/vm.c: a last entry is written.
use zept_os.Prelude.{
  ℕ, zero, suc, ◌+◌, ◌*◌, ◌/◌, ◌<◌, ◌≡◌, ◌≢◌, ◌∙◌, ap, sym, refl, inl, inr, some, List, arith,
  Bool-cases, update, update_self, update_other,
}
use mathlib.Core.Path.{subst}
use zept_os.Kalloc.{Memory, Kmem}
use zept_os.Kalloc.FreeList.{Chain-frame, Pages-SameRange}
use zept_os.Vm.{pte_v, pte_to_pa, px, pte_addr}
use zept_os.Vm.Tree.{
  vpn, px_bound, px_step, px_same, entry_same, places_eq, Places, IsTable, leaf, Reaches,
}

-- Addresses of one page have the same last entry.
pub leaf_same :
    (mem : Memory) (l a b p : ℕ) → l < 3 → a / 4096 ≡ b / 4096 → leaf mem l a p ≡ leaf mem l b p
unfolding leaf pte_addr
leaf_same mem zero a b p h e = ap (λ i. mem (p + 8 * i)) (px_same 0 a b (omega arith) e)
leaf_same mem (suc l) a b p h e =
    rw (px_same (suc l) a b h e)
      (rw (leaf_same mem l a b (pte_to_pa (mem (p + 8 * px (suc l) b))) (omega arith) e) refl)

page_same : (a b : ℕ) → vpn 1 a ≡ vpn 1 b → px 0 a ≡ px 0 b → a / 4096 ≡ b / 4096
page_same a b e f = omega arith

-- The entry for `va` of the last-level page `q` gets the word `w`.
module _ (k : Kmem) (pages : List ℕ) (own : Places) (q va w : ℕ) (t : IsTable k pages own)
    (o : own q ≡ some (0, vpn 1 va)) where
  unfoldable pub written : Kmem
  written = record k { mem = update k.mem (q + 8 * px 0 va) w }

  written_entry : written.mem (q + 8 * px 0 va) ≡ w
  unfolding written
  written_entry = update_self k.mem (q + 8 * px 0 va) w

  -- Entries above the last level stay, and so do the entries of other addresses.
  written_up :
      (p l x j : ℕ)
      → own p ≡ some (suc l, x)
      → j < 512
      → written.mem (p + 8 * j) ≡ k.mem (p + 8 * j)
  unfolding written
  written_up p l x j e c = update_other k.mem (q + 8 * px 0 va) w (p + 8 * j) (λ d.
      let (pq, _) =
        entry_same q p (px 0 va) j (t.page q 0 (vpn 1 va) o).aligned (t.page p (suc l) x e).aligned
          (px_bound 0 va) c d in
      let (z, _) = places_eq (sym o ∙ (ap own pq ∙ e)) in omega arith)

  pub written-IsTable : IsTable written pages own
  unfolding written
  written-IsTable = record {
    free = record {
      kernel = t.free.kernel;
      chain =
          Chain-frame k k.mem written.mem q k.freelist pages (t.page q 0 (vpn 1 va) o).aligned
            (λ a out.
              update_other k.mem (q + 8 * px 0 va) w a
                (λ d. elim out [ inl h ↦ absurd (omega arith) | inr h ↦ absurd (omega arith) ]))
            (t.apart q 0 (vpn 1 va) o) t.free.pages t.free.chain;
      pages = Pages-SameRange k written pages (refl, refl) t.free.pages;
    };
    low = t.low;
    apart = t.apart;
    page = λ p l x e.
        let g = t.page p l x e in record { aligned = g.aligned; low = g.low; high = g.high };
    down = λ p l x i e c v.
        let g = written_up p l x i e c in
        subst (λ z. own (pte_to_pa z) ≡ some (l, x * 512 + i)) (sym g)
          (t.down p l x i e c (sym (ap pte_v g) ∙ v));
  }

  pub written_leaf :
      (l x p : ℕ)
      → own p ≡ some (l, x)
      → Reaches k.mem l va p (pte_addr q 0 va)
      → leaf written.mem l va p ≡ w
  unfolding leaf Reaches pte_addr
  written_leaf zero x p e r = ap written.mem (sym r) ∙ written_entry
  written_leaf (suc l) x p e (v, r) =
      rw (written_up p l x (px (suc l) va) e (px_bound (suc l) va), v)
        (written_leaf l (x * 512 + px (suc l) va) _
          (t.down p l x (px (suc l) va) e (px_bound (suc l) va) v) r)

  pub written_other :
      (l a p : ℕ)
      → l < 3
      → own p ≡ some (l, vpn (suc l) a)
      → a / 4096 ≢ va / 4096
      → leaf written.mem l a p ≡ leaf k.mem l a p
  unfolding leaf pte_addr written
  written_other zero a p h e n = update_other k.mem (q + 8 * px 0 va) w (p + 8 * px 0 a) (λ d.
      let (pq, ij) =
        entry_same q p (px 0 va) (px 0 a) (t.page q 0 (vpn 1 va) o).aligned
          (t.page p 0 (vpn 1 a) e).aligned (px_bound 0 va) (px_bound 0 a) d in
      let (_, xy) = places_eq (sym o ∙ (ap own pq ∙ e)) in n (page_same a va (sym xy) (sym ij)))
  written_other (suc l) a p h e n =
      let g = written_up p l (vpn (suc (suc l)) a) (px (suc l) a) e (px_bound (suc l) a) in
      elim (Bool-cases (pte_v (k.mem (p + 8 * px (suc l) a)))) [
        | inl v ↦
            rw (g, v)
              (written_other l a _ (omega arith)
                (t.down p l (vpn (suc (suc l)) a) (px (suc l) a) e (px_bound (suc l) a) v
                  ∙ (λ m. some (l, px_step (suc l) a h m)))
                n)
        | inr v ↦ rw (g, v) refl
      ]
