-- ===== src/Kalloc/FreeList.antt =====
-- kernel/kalloc.c: the free list as a set of pages. `kfree` adds one, `kalloc` hands one out, and
-- neither touches memory outside the page that it is about.
use zept_os.Prelude.{
  ℕ, ◌+◌, ◌%◌, ◌≤◌, ◌<◌, ◌≡◌, ◌≢◌, sym, refl, ◌⊎◌, inl, inr, true, not, ◌||◌, List, [], ◌∷◌, arith,
  ltb, leb, ◌==◌, Bool-cases, update, ok, panic,
}
use mathlib.Core.Path.{subst}
use zept_os.Kalloc.{Memory, Kmem, pgsize, fill_page, kfree, kalloc}

-- From the pointer `p` the list leads through the pages.
abbrev pub Chain : Memory → (p : ℕ) → List ℕ → Type 0
Chain mem p [] = p ≡ 0
Chain mem p (x ∷ xs) = (p ≡ x) × Chain mem (mem x) xs

abbrev pub Absent : ℕ → List ℕ → Type 0
Absent p [] = Unit
Absent p (x ∷ xs) = (p ≢ x) × Absent p xs

-- An address of a page that the allocator may hold.
pub record IsPage (k : Kmem) (pa : ℕ) : Type 0 where
  pub aligned : pa % pgsize ≡ 0
  pub low : k.kernel_end ≤ pa
  pub high : pa < k.ram_end

-- Distinct pages of the range.
abbrev pub Pages : Kmem → List ℕ → Type 0
Pages k [] = Unit
Pages k (x ∷ xs) = IsPage k x × Absent x xs × Pages k xs

pub record IsFree (k : Kmem) (xs : List ℕ) : Type 0 where
  pub kernel : 0 < k.kernel_end
  pub chain : Chain k.mem k.freelist xs
  pub pages : Pages k xs

-- Memory outside the page at `pa` is the same.
abbrev pub SameOutside : (pa : ℕ) → Memory → Memory → Type 0
SameOutside pa m n = (a : ℕ) → (a < pa) ⊎ (pa + pgsize ≤ a) → n a ≡ m a

abbrev pub SameRange : Kmem → Kmem → Type 0
SameRange k k' = (k'.kernel_end ≡ k.kernel_end) × (k'.ram_end ≡ k.ram_end)

pub Pages-SameRange : (k k' : Kmem) (xs : List ℕ) → SameRange k k' → Pages k xs → Pages k' xs
Pages-SameRange k k' [] e h = tt
Pages-SameRange k k' (x ∷ xs) e h = (
  record { aligned = h.0.aligned; low = omega (arith, h.0.low); high = omega (arith, h.0.high) },
  h.1,
  Pages-SameRange k k' xs e h.2,
)

-- A change inside a page that is not on the list keeps the list.
pub Chain-frame :
    (k : Kmem) (m n : Memory) (pa p : ℕ) (xs : List ℕ)
    → pa % pgsize ≡ 0
    → SameOutside pa m n
    → Absent pa xs
    → Pages k xs
    → Chain m p xs
    → Chain n p xs
Chain-frame k m n pa p [] al same out pages c = c
Chain-frame k m n pa p (x ∷ xs) al same out pages c = (
  c.0,
  rw (same x (apart pages.0.aligned (out.0)))
      (Chain-frame k m n pa (m x) xs al same out.1 pages.2 c.1),
)
  where
    apart : x % pgsize ≡ 0 → pa ≢ x → (x < pa) ⊎ (pa + pgsize ≤ x)
    apart e ne = ground arith

eqb_self : (a : ℕ) → (a == a) ≡ true
eqb_self a = ground arith

pub fill_page-SameOutside :
    (mem : Memory) (pa word : ℕ) → SameOutside pa mem (fill_page mem pa word)
unfolding fill_page
fill_page-SameOutside mem pa word a h = ground arith

-- `kfree` of a page of the range that is not free puts it on the list, and changes memory only
-- inside the page. Any other address panics.
pub kfree-IsFree :
    (k : Kmem) (pa : ℕ) (xs : List ℕ)
    → IsFree k xs
    → (IsPage k pa
        → Absent pa xs
        → (k' : Kmem) × (kfree pa k ≡ ok k')
          × IsFree k' (pa ∷ xs)
          × SameRange k k'
          × SameOutside pa k.mem k'.mem)
      × (¬ IsPage k pa → kfree pa k ≡ panic "kfree")
unfolding kfree
kfree-IsFree k pa xs v = (
  λ page out. (
    after,
    ground (arith, page.aligned, page.low, page.high),
    record {
      kernel = v.kernel;
      chain = (
        refl,
        rw (eqb_self pa)
            (Chain-frame k k.mem after.mem pa k.freelist xs page.aligned same out v.pages v.chain),
      );
      pages = (
        record { aligned = page.aligned; low = page.low; high = page.high },
        out,
        Pages-SameRange k after xs (refl, refl) v.pages,
      );
    },
    (refl, refl),
    same,
  ),
  λ bad. elim (Bool-cases (not (pa % pgsize == 0) || ltb pa k.kernel_end || leb k.ram_end pa)) [
    | inl stop ↦ rw stop
    | inr go ↦
        absurd (bad (record { aligned = ground arith; low = ground arith; high = ground arith }))
  ],
)
  where
    after : Kmem
    after = record k {
      mem = update (fill_page k.mem pa 0x0101_0101_0101_0101) pa k.freelist;
      freelist = pa;
    }

    same : SameOutside pa k.mem after.mem
    same a h = ground (arith, fill_page-SameOutside k.mem pa 0x0101_0101_0101_0101 a)

-- The allocator without the page at the head of its list.
abbrev taken : Kmem → Kmem
taken k = record k {
  freelist = k.mem k.freelist;
  mem = fill_page k.mem k.freelist 0x0505_0505_0505_0505;
}

-- `kalloc` hands out the first page of the list, which is a page of the range and no longer on the
-- list, and changes memory only inside it; on an empty list it returns 0 and changes nothing.
pub kalloc-IsFree :
    (k : Kmem) (xs : List ℕ)
    → IsFree k xs
    → ((xs ≡ []) × (kalloc k ≡ (0, k)))
      ⊎ ((pa : ℕ) × (ys : List ℕ) × (xs ≡ pa ∷ ys)
          × ((kalloc k).0 ≡ pa)
          × (pa ≢ 0)
          × IsPage k pa
          × Absent pa ys
          × IsFree (kalloc k).1 ys
          × SameRange k (kalloc k).1
          × SameOutside pa k.mem (kalloc k).1.mem)
unfolding kalloc
kalloc-IsFree k [] v = inl (refl, ground (arith, v.chain))
kalloc-IsFree k (pa ∷ ys) v = inr (
  pa,
  ys,
  refl,
  ground (arith, v.chain.0),
  omega arith,
  v.pages.0,
  v.pages.1,
  rw found (record {
    kernel = v.kernel;
    chain = subst (λ p. Chain (fill_page k.mem p junk) (k.mem p) ys) (sym v.chain.0) rest;
    pages = Pages-SameRange k (taken k) ys (refl, refl) v.pages.2;
  }),
  rw found (refl, refl),
  rw found (
      subst (λ p. SameOutside pa k.mem (fill_page k.mem p junk)) (sym v.chain.0)
        (fill_page-SameOutside k.mem pa junk)),
)
  where
    junk : ℕ
    junk = 0x0505_0505_0505_0505

    found : kalloc k ≡ (k.freelist, taken k)
    found = ground (arith, v.chain.0, v.pages.0.low, v.kernel)

    rest : Chain (fill_page k.mem pa junk) (k.mem pa) ys
    rest =
        Chain-frame k k.mem (fill_page k.mem pa junk) pa (k.mem pa) ys v.pages.0.aligned
          (fill_page-SameOutside k.mem pa junk) v.pages.1 v.pages.2 v.chain.1
