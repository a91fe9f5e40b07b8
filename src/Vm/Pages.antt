-- ===== src/Vm/Pages.antt =====
-- kernel/vm.c: the entries of consecutive pages, as a loop over them goes on.
use zept_os.Prelude.{ℕ, suc, ◌+◌, ◌*◌, ◌<◌, ◌≡◌, ◌∙◌, Bool, arith}
use zept_os.Kalloc.{Kmem, pgsize}
use zept_os.Vm.{maxva}
use zept_os.Vm.Map.{entry, Maps, with_entry}

-- A test of the entry of the first page.
pub first_page :
    (test : ℕ → Bool) (root a : ℕ) (k : Kmem) (b : Bool)
    → test (entry root k a) ≡ b
    → test (entry root k (a + 0 * 4096)) ≡ b
first_page test root a k b v = rw (add_zero a) v
  where
    add_zero : (a : ℕ) → a + 0 * 4096 ≡ a
    add_zero a = omega arith

-- The entry of a page after the first one is as before the first one was changed.
pub later_page :
    (root a word i : ℕ) (k k' : Kmem)
    → a + suc i * 4096 < maxva
    → Maps root k' (with_entry (entry root k) a word)
    → entry root k' (a + pgsize + i * 4096) ≡ entry root k (a + suc i * 4096)
later_page root a word i k k' h m = rw (shift a i) (m.entry_eq (a + suc i * 4096) h ∙ ground arith)
  where
    shift : (a i : ℕ) → a + pgsize + i * 4096 ≡ a + suc i * 4096
    shift a i = omega arith
