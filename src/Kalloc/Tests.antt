-- ===== src/Kalloc/Tests.antt =====
-- The theorems on kernel/kalloc.c at a small memory.
use zept_os.Prelude.{ℕ, ◌≡◌, refl, List, [], ◌∷◌, arith, ok}
use zept_os.Kalloc.{Kmem, kinit}
use zept_os.Kalloc.FreeList.{IsFree}
use zept_os.Kalloc.Range.{has, is_whole_page, kinit-IsFree}

-- A kernel that ends inside its third page, and nothing freed yet.
abbrev cold : Kmem
cold = record { kernel_end = 9000; ram_end = 0; freelist = 0; mem = λ a. 0 }

-- One free page of the two.
abbrev warm : Kmem
warm = record { kernel_end = 9000; ram_end = 20480; freelist = 12288; mem = λ a. 0 }

warm-IsFree : IsFree warm (12288 ∷ [])
warm-IsFree = record {
  kernel = omega arith;
  chain = (refl, refl);
  pages = (record { aligned = refl; low = omega arith; high = omega arith }, tt, tt);
}

kinit-IsFree_example :
    (k' : Kmem) × (pages : List ℕ) × (kinit 8192 12288 cold ≡ ok k')
    × IsFree k' pages
    × ((y : ℕ) → has y pages ≡ is_whole_page 9000 20480 y)
kinit-IsFree_example = kinit-IsFree 8192 12288 cold (omega arith) (omega arith) refl
