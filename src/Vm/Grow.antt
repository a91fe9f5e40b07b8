-- ===== src/Vm/Grow.antt =====
-- kernel/vm.c: a fresh page becomes a page table page.
use zept_os.Prelude.{
  ℕ, zero, suc, ◌+◌, ◌*◌, ◌^◌, ◌≤◌, ◌<◌, ◌≡◌, ◌≢◌, ◌∙◌, ap, sym, refl, ◌⊎◌, inl, inr, true, false,
  none, some, List, ◌∷◌, arith, Bool-cases, Option-cases, update, update_self, update_other,
  ℕ_discrete,
}
use zept_os.Kalloc.{Memory, Kmem, pgsize, fill_page}
use zept_os.Kalloc.FreeList.{
  Absent, IsPage, IsFree, SameOutside, SameRange, Chain-frame, Pages-SameRange,
  fill_page-SameOutside,
}
use zept_os.Vm.{pte_v, pte_to_pa, pa_to_pte, px, pte_addr}
use zept_os.Vm.Tree.{
  px_bound, entry_apart, pa_to_pte_to_pa, Places, IsTable, leaf, places_eq, entry_same,
  none-ne-some, Extends,
}

filled_inside :
    (mem : Memory) (page word a : ℕ)
    → page ≤ a
    → a < page + pgsize
    → fill_page mem page word a ≡ word
unfolding fill_page
filled_inside mem page word a l h = ground arith

-- The allocator `k'` has handed out `page`, the free page of `k`, for the entry `i` of page `p`.
module _ (k k' : Kmem) (page : ℕ) (ys : List ℕ) (own : Places) (p l x i : ℕ)
    (t : IsTable k (page ∷ ys) own) (o : own p ≡ some (suc l, x)) (b : i < 512)
    (free : pte_v (k.mem (p + 8 * i)) ≡ false) (fresh : IsPage k page) (rest : IsFree k' ys)
    (range : SameRange k k') (same : SameOutside page k.mem k'.mem) where
  -- Memory with the page cleared and entered.
  unfoldable pub grown : Kmem
  grown = record k' { mem = update (fill_page k'.mem page 0) (p + 8 * i) (pa_to_pte page + 1) }

  unfoldable pub grown_own : Places
  grown_own = update own page (some (l, x * 512 + i))

  own_page : own page ≡ none
  own_page = elim (Option-cases (own page)) [
    | inl e ↦ e
    | inr ((m, y), e) ↦ absurd ((t.apart page m y e).0 refl)
  ]

  owned_apart : (q m y : ℕ) → own q ≡ some (m, y) → page ≢ q
  owned_apart q m y e d = none-ne-some (sym own_page ∙ (ap own d ∙ e))

  -- An owned page of the new places is an old one, or the fresh page.
  pub grown_place :
      (q m y : ℕ)
      → grown_own q ≡ some (m, y)
      → ((q ≡ page) × (m ≡ l) × (y ≡ x * 512 + i)) ⊎ ((page ≢ q) × (own q ≡ some (m, y)))
  unfolding grown_own
  grown_place q m y e = elim (ℕ_discrete page q) [
    | yes d ↦
        let f =
          places_eq (sym (update_self own page (some (l, x * 512 + i))) ∙ ap grown_own d ∙ e) in
        inl (sym d, sym f.0, sym f.1)
    | no d ↦ inr (d, sym (update_other own page (some (l, x * 512 + i)) q d) ∙ e)
  ]

  grown_keeps : (q m y : ℕ) → own q ≡ some (m, y) → grown_own q ≡ some (m, y)
  unfolding grown_own
  grown_keeps q m y e = update_other own page (some (l, x * 512 + i)) q (owned_apart q m y e) ∙ e

  -- The new memory at an entry of an old page, and of the fresh one.
  grown_old :
      (q m y j : ℕ)
      → own q ≡ some (m, y)
      → j < 512
      → (p + 8 * i) ≢ (q + 8 * j)
      → grown.mem (q + 8 * j) ≡ k.mem (q + 8 * j)
  unfolding grown
  grown_old q m y j e c d =
      update_other (fill_page k'.mem page 0) (p + 8 * i) (pa_to_pte page + 1) (q + 8 * j) d
      ∙ fill_page-SameOutside k'.mem page 0 (q + 8 * j) out
      ∙ same (q + 8 * j) out
    where
      out : (q + 8 * j < page) ⊎ (page + pgsize ≤ q + 8 * j)
      out = ground (arith, fresh.aligned, (t.page q m y e).aligned, owned_apart q m y e, c)

  grown_entry : grown.mem (p + 8 * i) ≡ pa_to_pte page + 1
  unfolding grown
  grown_entry = update_self (fill_page k'.mem page 0) (p + 8 * i) (pa_to_pte page + 1)

  grown_fresh : (j : ℕ) → j < 512 → grown.mem (page + 8 * j) ≡ 0
  unfolding grown
  grown_fresh j c =
      update_other (fill_page k'.mem page 0) (p + 8 * i) (pa_to_pte page + 1) (page + 8 * j) (
        entry_apart p page i j (t.page p (suc l) x o).aligned fresh.aligned b c
          (λ d. owned_apart p (suc l) x o (sym d)))
      ∙ filled_inside k'.mem page 0 (page + 8 * j) (omega arith) (omega arith)

  -- A valid entry of an old page stays.
  grown_valid :
      (q m y j : ℕ)
      → own q ≡ some (m, y)
      → j < 512
      → pte_v (k.mem (q + 8 * j)) ≡ true
      → grown.mem (q + 8 * j) ≡ k.mem (q + 8 * j)
  grown_valid q m y j e c v =
      grown_old q m y j e c (λ d. let f = sym free ∙ (ap (λ a. pte_v (k.mem a)) d ∙ v) in cc)

  fresh_low : page < 2 ^ 64
  fresh_low = omega (arith, fresh.high, t.low)

  grown-IsFree : IsFree grown ys
  unfolding grown
  grown-IsFree = record {
    kernel = rest.kernel;
    chain =
        Chain-frame k' (fill_page k'.mem page 0) grown.mem p k'.freelist ys
          (t.page p (suc l) x o).aligned
          (λ a out.
            update_other (fill_page k'.mem page 0) (p + 8 * i) (pa_to_pte page + 1) a
              (λ d. elim out [ inl h ↦ absurd (omega arith) | inr h ↦ absurd (omega arith) ]))
          (t.apart p (suc l) x o).1 rest.pages
          (Chain-frame k' k'.mem (fill_page k'.mem page 0) page k'.freelist ys fresh.aligned
            (fill_page-SameOutside k'.mem page 0) absent rest.pages rest.chain);
    pages = Pages-SameRange k' grown ys (refl, refl) rest.pages;
  }
    where
      absent : Absent page ys
      absent = t.free.pages.1

  grown_own_page : grown_own page ≡ some (l, x * 512 + i)
  unfolding grown_own
  grown_own_page = update_self own page (some (l, x * 512 + i))

  -- The new entry leads to the fresh page.
  new_down :
      (q m y j : ℕ)
      → own q ≡ some (suc m, y)
      → j < 512
      → p + 8 * i ≡ q + 8 * j
      → grown_own (pte_to_pa (grown.mem (q + 8 * j))) ≡ some (m, y * 512 + j)
  new_down q m y j e c d =
      let (pq, ij) =
        entry_same p q i j (t.page p (suc l) x o).aligned (t.page q (suc m) y e).aligned b c d in
      let (lm, xy) = places_eq (sym o ∙ (ap own pq ∙ e)) in
      let lm' : l ≡ m = omega arith in
      ap (λ a. grown_own (pte_to_pa (grown.mem a))) (sym d)
      ∙ ap (λ w. grown_own (pte_to_pa w)) grown_entry
      ∙ ap grown_own (pa_to_pte_to_pa page fresh.aligned fresh_low)
      ∙ grown_own_page
      ∙ (λ n. some (lm' n, xy n * 512 + ij n))

  place_down :
      (q m y j : ℕ)
      → grown_own q ≡ some (suc m, y)
      → j < 512
      → pte_v (grown.mem (q + 8 * j)) ≡ true
      → grown_own (pte_to_pa (grown.mem (q + 8 * j))) ≡ some (m, y * 512 + j)
  place_down q m y j e c v = elim (grown_place q (suc m) y e) [
    | inl (d, _, _) ↦ let z = rw d at v in let w = sym (ap pte_v (grown_fresh j c)) ∙ z in cc
    | inr (n, o') ↦ elim (ℕ_discrete (p + 8 * i) (q + 8 * j)) [
      | yes d ↦ new_down q m y j o' c d
      | no d ↦
          let g = grown_old q (suc m) y j o' c d in
          rw g (grown_keeps _ m (y * 512 + j) (t.down q m y j o' c (sym (ap pte_v g) ∙ v)))
    ]
  ]

  grown_low : grown.ram_end ≤ 2 ^ 64
  unfolding grown
  grown_low = omega (arith, range.1, t.low)

  grown-IsPage : (q : ℕ) → IsPage k q → IsPage grown q
  unfolding grown
  grown-IsPage q g = record {
    aligned = g.aligned;
    low = omega (arith, g.low, range.0);
    high = omega (arith, g.high, range.1);
  }

  grown-IsTable : IsTable grown ys grown_own
  grown-IsTable = record {
    free = grown-IsFree;
    low = grown_low;
    apart = λ q m y e. elim (grown_place q m y e) [
      | inl (d, _, _) ↦ rw d t.free.pages.1
      | inr (n, f) ↦ (t.apart q m y f).1
    ];
    page = λ q m y e. elim (grown_place q m y e) [
      | inl (d, _, _) ↦ rw d (grown-IsPage page fresh)
      | inr (n, f) ↦ grown-IsPage q (t.page q m y f)
    ];
    down = place_down;
  }

  fresh_leaf : (m va : ℕ) → leaf grown.mem m va page ≡ 0
  unfolding leaf pte_addr
  fresh_leaf zero va = grown_fresh (px 0 va) (px_bound 0 va)
  fresh_leaf (suc m) va = rw (grown_fresh (px (suc m) va) (px_bound (suc m) va)) refl

  grown_leaf : (m y q va : ℕ) → own q ≡ some (m, y) → leaf grown.mem m va q ≡ leaf k.mem m va q
  unfolding leaf pte_addr
  grown_leaf zero y q va e = grown_old q zero y (px 0 va) e (px_bound 0 va) (λ d.
      let (pq, _) =
        entry_same p q i (px 0 va) (t.page p (suc l) x o).aligned (t.page q zero y e).aligned b
          (px_bound 0 va) d in
      let (z, _) = places_eq (sym o ∙ (ap own pq ∙ e)) in omega arith)
  grown_leaf (suc m) y q va e = elim (ℕ_discrete (p + 8 * i) (q + 8 * px (suc m) va)) [
    | yes d ↦
        let g : grown.mem (q + 8 * px (suc m) va) ≡ pa_to_pte page + 1 =
          ap grown.mem (sym d) ∙ grown_entry in
        let h : pte_v (k.mem (q + 8 * px (suc m) va)) ≡ false =
          ap (λ a. pte_v (k.mem a)) (sym d) ∙ free in
        rw (g, h, pa_to_pte_to_pa page fresh.aligned fresh_low, fresh_leaf m va) (ground arith)
    | no d ↦
        let g = grown_old q (suc m) y (px (suc m) va) e (px_bound (suc m) va) d in
        elim (Bool-cases (pte_v (k.mem (q + 8 * px (suc m) va)))) [
          | inl v ↦
              rw (g, v)
                (grown_leaf m (y * 512 + px (suc m) va) _ va
                  (t.down q m y (px (suc m) va) e (px_bound (suc m) va) v))
          | inr v ↦ rw (g, v) refl
        ]
  ]

  -- The grown tree extends the old one, and the entry leads to the fresh page in its place.
  pub grown_lem :
      Extends k own grown grown_own
      × IsTable grown ys grown_own
      × (grown_own page ≡ some (l, x * 512 + i))
      × (grown.mem (p + 8 * i) ≡ pa_to_pte page + 1)
  grown_lem = (
    record { keeps = grown_keeps; valid = grown_valid; leaves = grown_leaf },
    grown-IsTable,
    grown_own_page,
    grown_entry,
  )
