-- ===== src/Pipealloc/Tests.antt =====
-- kernel/pipe.c: a pipe from an empty table, and one without memory.
use zept_os.Prelude.{ℕ, ◌≡◌, refl, false, List, [], ◌∷◌, Outcome, ok, panic}
use zept_os.File.{fd_none, Ftable, alloc_loop, filealloc, closing_of, fileclose}
use zept_os.Kalloc.{Kmem, kalloc, fill_page}
use zept_os.Pipealloc.{close_all, Allocated, pipe_at, no_pipe, give_up, set_ends, pipealloc}

abbrev no_files : Ftable
no_files f = record {
  type = fd_none;
  ref = 0;
  readable = false;
  writable = false;
  pipe = 0;
  ip = 0;
  off = 0;
  major = 0;
}

-- One page, or none, is free.
abbrev memory : ℕ → Kmem
memory page = record { kernel_end = 4096; ram_end = 65536; freelist = page; mem = λ a. 0 }

-- The files and the page that were given, or how often a file stays in use.
abbrev given : Outcome Allocated → List ℕ
given (ok (pipe_at f0 f1 page p t k)) = f0 ∷ f1 ∷ page ∷ (t f0).ref ∷ (t f1).ref ∷ []
given (ok (no_pipe t cs k)) = (t 0).ref ∷ (t 1).ref ∷ []
given (panic msg) = []

with_memory : given (pipealloc no_files (memory 8192)) ≡ 0 ∷ 1 ∷ 8192 ∷ 1 ∷ 1 ∷ []
unfolding pipealloc filealloc alloc_loop kalloc fill_page set_ends
with_memory = refl

without_memory : given (pipealloc no_files (memory 0)) ≡ 0 ∷ 0 ∷ []
unfolding pipealloc filealloc alloc_loop kalloc fill_page set_ends give_up close_all fileclose
    closing_of
without_memory = refl
