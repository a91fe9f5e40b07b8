-- ===== src/Vm/Tree.antt =====
-- kernel/vm.c: the tree of page table pages, and the entries that it holds for virtual addresses.
use zept_os.Prelude.{
  ℕ, zero, suc, ◌+◌, ◌*◌, ◌/◌, ◌%◌, ◌^◌, ◌≤◌, ◌<◌, ◌≡◌, ◌≢◌, ◌∙◌, ap, refl, true, Option, none,
  some, List, arith, if◌then◌else◌, Option-cases, false, inl, ◌⊎◌, inr, sym,
}
use zept_os.Kalloc.{Memory, Kmem, pgsize}
use zept_os.Kalloc.FreeList.{Absent, IsPage, IsFree}
use zept_os.Vm.{pte_v, pte_to_pa, pa_to_pte, px, pte_addr}

-- The virtual address without the bits that the levels below `level` use.
abbrev pub vpn : (level va : ℕ) → ℕ
vpn level va = va / 2 ^ (12 + 9 * level)

pub px_bound : (level va : ℕ) → px level va < 512
px_bound level va = omega arith

pub px_step : (level va : ℕ) → level < 3 → vpn (suc level) va * 512 + px level va ≡ vpn level va
px_step zero va h = omega arith
px_step (suc zero) va h = omega arith
px_step (suc (suc zero)) va h = omega arith
px_step (suc (suc (suc l))) va h = absurd (omega arith)

-- Addresses of one page have the same indices.
pub px_same : (level a b : ℕ) → level < 3 → a / 4096 ≡ b / 4096 → px level a ≡ px level b
px_same zero a b h e = omega arith
px_same (suc zero) a b h e = omega arith
px_same (suc (suc zero)) a b h e = omega arith
px_same (suc (suc (suc l))) a b h e = absurd (omega arith)

-- Entries of distinct pages are distinct.
pub entry_apart :
    (p q i j : ℕ)
    → p % pgsize ≡ 0
    → q % pgsize ≡ 0
    → i < 512
    → j < 512
    → p ≢ q
    → p + 8 * i ≢ q + 8 * j
entry_apart p q i j a b c d n e = n (omega arith)

pub entry_same :
    (p q i j : ℕ)
    → p % pgsize ≡ 0
    → q % pgsize ≡ 0
    → i < 512
    → j < 512
    → p + 8 * i ≡ q + 8 * j
    → (p ≡ q) × (i ≡ j)
entry_same p q i j a b c d e = (omega arith, omega arith)

pub pa_to_pte_to_pa : (pa : ℕ) → pa % pgsize ≡ 0 → pa < 2 ^ 64 → pte_to_pa (pa_to_pte pa + 1) ≡ pa
pa_to_pte_to_pa pa a b = omega arith

-- Which pages are page table pages: the level, and the bits of the addresses below the page.
abbrev pub Places : Type 0
Places = ℕ → Option (ℕ × ℕ)

-- The page table pages form a tree, apart from the free pages: a valid entry above the last level
-- leads to the page table page of its addresses. A page has one place, so no page is reached twice.
pub record IsTable (k : Kmem) (pages : List ℕ) (own : Places) : Type 0 where
  pub free : IsFree k pages
  pub low : k.ram_end ≤ 2 ^ 64
  pub apart : (p l x : ℕ) → own p ≡ some (l, x) → Absent p pages
  pub page : (p l x : ℕ) → own p ≡ some (l, x) → IsPage k p
  pub down :
      (p l x i : ℕ)
      → own p ≡ some (suc l, x)
      → i < 512
      → pte_v (k.mem (p + 8 * i)) ≡ true
      → own (pte_to_pa (k.mem (p + 8 * i))) ≡ some (l, x * 512 + i)

-- The last entry for an address below a page of a level, or 0 where an entry on the way is not valid.
unfoldable pub leaf : Memory → (level va page : ℕ) → ℕ
leaf mem zero va page = mem (pte_addr page 0 va)
leaf mem (suc level) va page =
    let pte = mem (pte_addr page (suc level) va) in
    let below = leaf mem level va (pte_to_pa pte) in if pte_v pte then below else 0

-- The entry is reached from a page of a level by the valid entries of the address.
unfoldable pub Reaches : Memory → (level va page entry : ℕ) → Type 0
Reaches mem zero va page entry = entry ≡ pte_addr page 0 va
Reaches mem (suc level) va page entry =
    (pte_v (mem (pte_addr page (suc level) va)) ≡ true)
    × Reaches mem level va (pte_to_pa (mem (pte_addr page (suc level) va))) entry

-- The page with the last entry for the address is missing: an entry on the way is not valid.
unfoldable pub Blocked : Memory → (level va page : ℕ) → Type 0
Blocked mem zero va page = ⊥
Blocked mem (suc level) va page =
    (pte_v (mem (pte_addr page (suc level) va)) ≡ false)
    ⊎ ((pte_v (mem (pte_addr page (suc level) va)) ≡ true)
        × Blocked mem level va (pte_to_pa (mem (pte_addr page (suc level) va))))

-- The entries of a page are the same.
abbrev pub SameEntries : Memory → Memory → ℕ → Type 0
SameEntries m n p = (i : ℕ) → i < 512 → n (p + 8 * i) ≡ m (p + 8 * i)

pub places_eq :
    {l m x y : ℕ} → ◌≡◌ {A = Option (ℕ × ℕ)} (some (l, x)) (some (m, y)) → (l ≡ m) × (x ≡ y)
places_eq e = (cc, cc)

pub none-ne-some : {a : ℕ × ℕ} → ◌≡◌ {A = Option (ℕ × ℕ)} none (some a) → ⊥
none-ne-some e = cc

-- A later tree has the pages of an earlier one, its valid entries and its last entries.
pub record Extends (k : Kmem) (own : Places) (k' : Kmem) (own' : Places) : Type 0 where
  pub keeps : (q m y : ℕ) → own q ≡ some (m, y) → own' q ≡ some (m, y)
  pub valid :
      (q m y j : ℕ)
      → own q ≡ some (m, y)
      → j < 512
      → pte_v (k.mem (q + 8 * j)) ≡ true
      → k'.mem (q + 8 * j) ≡ k.mem (q + 8 * j)
  pub leaves : (m y q va : ℕ) → own q ≡ some (m, y) → leaf k'.mem m va q ≡ leaf k.mem m va q

pub Extends-none :
    (k k' : Kmem) (own own' : Places) (p : ℕ) → Extends k own k' own' → own' p ≡ none → own p ≡ none
Extends-none k k' own own' p ext e = elim (Option-cases (own p)) [
  | inl n ↦ n
  | inr ((l, x), o) ↦ absurd (none-ne-some (sym e ∙ ext.keeps p l x o))
]

pub Extends-refl : (k : Kmem) (own : Places) → Extends k own k own
Extends-refl k own = record {
  keeps = λ q m y e. e;
  valid = λ q m y j e c v. refl;
  leaves = λ m y q va e. refl;
}

pub Extends-trans :
    {k0 k1 k2 : Kmem} {own0 own1 own2 : Places}
    → Extends k0 own0 k1 own1
    → Extends k1 own1 k2 own2
    → Extends k0 own0 k2 own2
Extends-trans a b = record {
  keeps = λ q m y e. b.keeps q m y (a.keeps q m y e);
  valid = λ q m y j e c v.
      let f = a.valid q m y j e c v in b.valid q m y j (a.keeps q m y e) c (ap pte_v f ∙ v) ∙ f;
  leaves = λ m y q va e. b.leaves m y q va (a.keeps q m y e) ∙ a.leaves m y q va e;
}

-- A valid entry of a page of the level above leads to the page.
abbrev pub Entered : Kmem → Places → (p l : ℕ) → Type 0
Entered k own p l =
    (q : ℕ) × (y : ℕ) × (i : ℕ) × (own q ≡ some (suc l, y))
    × (i < 512)
    × (pte_v (k.mem (q + 8 * i)) ≡ true)
    × (pte_to_pa (k.mem (q + 8 * i)) ≡ p)

-- The tree grows by pages that were free: none is lost, each new one has an entry that leads to it, and
-- the entries that lead to pages stay.
pub record Grows (k : Kmem) (pages : List ℕ) (own : Places) (k' : Kmem) (pages' : List ℕ)
    (own' : Places) : Type 0 where
  pub conserves : (p : ℕ) → Absent p pages' → own' p ≡ none → Absent p pages × (own p ≡ none)
  pub keeps : (q m y : ℕ) → own q ≡ some (m, y) → own' q ≡ some (m, y)
  pub upper :
      (q m y j : ℕ)
      → own q ≡ some (suc m, y)
      → j < 512
      → pte_v (k.mem (q + 8 * j)) ≡ true
      → k'.mem (q + 8 * j) ≡ k.mem (q + 8 * j)
  pub entered : (p l x : ℕ) → own' p ≡ some (l, x) → (own p ≡ some (l, x)) ⊎ Entered k' own' p l

pub Grows-refl : (k : Kmem) (pages : List ℕ) (own : Places) → Grows k pages own k pages own
Grows-refl k pages own = record {
  conserves = λ p a n. (a, n);
  keeps = λ q m y e. e;
  upper = λ q m y j e c v. refl;
  entered = λ p l x e. inl e;
}

pub Grows-trans :
    (k0 k1 k2 : Kmem) (pages0 pages1 pages2 : List ℕ) (own0 own1 own2 : Places)
    → Grows k0 pages0 own0 k1 pages1 own1
    → Grows k1 pages1 own1 k2 pages2 own2
    → Grows k0 pages0 own0 k2 pages2 own2
Grows-trans k0 k1 k2 pages0 pages1 pages2 own0 own1 own2 a b = record {
  conserves = λ p c n. let (c', n') = b.conserves p c n in a.conserves p c' n';
  keeps = λ q m y e. b.keeps q m y (a.keeps q m y e);
  upper = λ q m y j e c v.
      let f = a.upper q m y j e c v in
      b.upper q m y j (a.keeps q (suc m) y e) c (ap pte_v f ∙ v) ∙ f;
  entered = λ p l x e. elim (b.entered p l x e) [
    | inr n ↦ inr n
    | inl o ↦ elim (a.entered p l x o) [
      | inl o' ↦ inl o'
      | inr (q, y, i, u, c, v, w) ↦
          let f = b.upper q l y i u c v in
          inr (q, y, i, b.keeps q (suc l) y u, c, ap pte_v f ∙ v, ap pte_to_pa f ∙ w)
    ]
  ];
}
