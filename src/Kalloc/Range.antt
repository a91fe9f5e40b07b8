-- ===== src/Kalloc/Range.antt =====
-- kernel/kalloc.c: `kinit` frees exactly the whole pages between the kernel and the end of RAM.
use zept_os.Prelude.{
  ℕ, zero, suc, ◌+◌, ◌*◌, ◌/◌, ◌%◌, ◌^◌, ◌≤◌, ◌<◌, ◌≡◌, ◌∙◌, refl, inl, inr, Bool, true, false,
  ◌&&◌, ◌||◌, List, [], ◌∷◌, arith, leb, ◌==◌, Bool-cases, ok,
}
use zept_os.Kalloc.{Kmem, pgsize, pg_round_up, free_loop, kinit}
use zept_os.Kalloc.FreeList.{Absent, IsPage, IsFree, SameRange, kfree-IsFree}

abbrev pub has : ℕ → List ℕ → Bool
has y [] = false
has y (x ∷ xs) = y == x || has y xs

Absent-of_has : (p : ℕ) (xs : List ℕ) → has p xs ≡ false → Absent p xs
Absent-of_has p [] h = tt
Absent-of_has p (x ∷ xs) h = (ground arith, Absent-of_has p xs (ground arith))

-- `y` is the address of a whole page of the range.
abbrev pub is_whole_page : (from to y : ℕ) → Bool
is_whole_page from to y = y % pgsize == 0 && (leb from y && leb (y + pgsize) to)

record Freed (fuel p pa_end : ℕ) (k : Kmem) (xs : List ℕ) : Type 0 where
  after : Kmem
  runs : free_loop fuel p pa_end k ≡ ok after
  pages : List ℕ
  free : IsFree after pages
  range : SameRange k after
  exact : (y : ℕ) → has y pages ≡ (has y xs || is_whole_page p pa_end y)

free_loop-Freed :
    (fuel p pa_end : ℕ) (k : Kmem) (xs : List ℕ)
    → IsFree k xs
    → p % pgsize ≡ 0
    → k.kernel_end ≤ p
    → pa_end ≤ k.ram_end
    → pa_end < p + fuel * pgsize + pgsize
    → ((y : ℕ) → has y xs ≡ true → y < p)
    → Freed fuel p pa_end k xs
unfolding free_loop
free_loop-Freed zero p pa_end k xs v al low high enough below = record {
  after = k;
  runs = refl;
  pages = xs;
  free = v;
  range = (refl, refl);
  exact = λ y. ground arith;
}
free_loop-Freed (suc fuel) p pa_end k xs v al low high enough below =
    elim (Bool-cases (leb (p + pgsize) pa_end)) [
      | inr done ↦ record {
        after = k;
        runs = rw done;
        pages = xs;
        free = v;
        range = (refl, refl);
        exact = λ y. ground arith;
      }
      | inl more ↦
          let page : IsPage k p = record { aligned = al; low = low; high = ground arith } in
          let out : has p xs ≡ false = ground (arith, below p) in
          let (k', e, v', range, same) = (kfree-IsFree k p xs v).0 page (Absent-of_has p xs out) in
          let r =
            free_loop-Freed fuel (p + pgsize) pa_end k' (p ∷ xs) v' (omega arith)
              (omega (arith, range.0)) (omega (arith, range.1)) (omega arith)
              (λ y h. ground (arith, below y)) in
          record {
            after = r.after;
            runs = rw (more, e) r.runs;
            pages = r.pages;
            free = r.free;
            range = (r.range.0 ∙ range.0, r.range.1 ∙ range.1);
            exact = λ y. r.exact y ∙ ground arith;
          }
    ]

-- On an empty list `kinit` does not panic, and frees exactly the whole pages that lie between the
-- end of the kernel and the end of RAM, each once.
pub kinit-IsFree :
    (ram_start ram_size : ℕ) (k : Kmem)
    → 0 < k.kernel_end
    → k.kernel_end + 4095 < 2 ^ 64
    → k.freelist ≡ 0
    → (k' : Kmem) × (pages : List ℕ) × (kinit ram_start ram_size k ≡ ok k')
      × IsFree k' pages
      × ((y : ℕ) → has y pages ≡ is_whole_page k.kernel_end (ram_start + ram_size) y)
unfolding kinit
kinit-IsFree ram_start ram_size k pos fits nil =
    let ram_end : ℕ = ram_start + ram_size in
    let k0 : Kmem = record k { ram_end = ram_end } in
    let p : ℕ = pg_round_up k.kernel_end in
    let r =
      free_loop-Freed (ram_end / pgsize) p ram_end k0 []
        (record { kernel = pos; chain = nil; pages = tt }) (omega arith) (omega arith) (omega arith)
        (omega arith) (λ y h. cc) in
    (r.after, r.pages, r.runs, r.free, λ y. r.exact y ∙ ground arith)
