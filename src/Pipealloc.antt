-- ===== src/Pipealloc.antt =====
-- kernel/pipe.c: `pipealloc`, over the table of open files and the page allocator.
mod Tests
use zept_os.Prelude.{
  ℕ, zero, suc, ◌+◌, ◌-◌, ◌*◌, ◌/◌, ◌%◌, ◌^◌, ◌≤◌, ◌<◌, ◌≡◌, ◌≢◌, ◌∙◌, ap, sym, refl, fun_ext, ◌⊎◌,
  inl, inr, ◌↔◌, Bool, true, false, not, ◌&&◌, ◌||◌, Option, none, some, List, [], ◌∷◌, ◌++◌, map,
  append_assoc, append-nil, arith, ltb, leb, ◌==◌, if◌then◌else◌, Bool-cases, Option-cases, length,
  length-append, get_elem?, set, get_or, take, drop, replicate, update, Outcome, ok, panic,
  panic_if, ◌>>=◌, ◌>>◌, >>=-eq-ok,
}
use zept_os.Pipe.{Pipe, pipe_init}
use zept_os.File.{fd_pipe, File, Ftable, filealloc, Closing, fileclose}
use zept_os.Kalloc.{Kmem, kalloc}

-- The end of `pipealloc` at `bad`, for the files that were taken, without a page: -1, with what
-- `fileclose` did after it released the table.
unfoldable pub close_all : List ℕ → Ftable → Outcome (Ftable × List Closing)
close_all [] t = ok (t, [])
close_all (f ∷ fs) t = do (t', c) ← fileclose f t; (t'', cs) ← close_all fs t'; ok (t'', c ∷ cs)

-- What `pipealloc` ends with: two files and their pipe, at a page, or -1.
pub data Allocated : Type 0 where
  pipe_at : (f0 f1 page : ℕ) → Pipe → Ftable → Kmem → Allocated
  no_pipe : Ftable → List Closing → Kmem → Allocated

unfoldable pub give_up : List ℕ → Ftable → Kmem → Outcome Allocated
unfolding close_all
give_up fs t k = do (t', cs) ← close_all fs t; ok (no_pipe t' cs k)

-- The two files of a pipe.
unfoldable pub set_ends : (f0 f1 page : ℕ) → Ftable → Ftable
set_ends f0 f1 page t =
    let t1 =
      update t f0
        (record (t f0) { type = fd_pipe; readable = true; writable = false; pipe = page }) in
    update t1 f1 (record (t1 f1) { type = fd_pipe; readable = false; writable = true; pipe = page })

-- `kalloc` has filled the page with bytes 5.
unfoldable pub pipealloc : Ftable → Kmem → Outcome Allocated
unfolding set_ends give_up
pipealloc t k = elim (filealloc t) [
  | none ↦ give_up [] t k
  | some (f0, t1) ↦ elim (filealloc t1) [
    | none ↦ give_up (f0 ∷ []) t1 k
    | some (f1, t2) ↦
        let (pi, k') = kalloc k in
        let bad = give_up (f0 ∷ f1 ∷ []) t2 k' in
        if pi == 0
        then bad
        else ok (pipe_at f0 f1 pi (pipe_init (λ _. 5)) (set_ends f0 f1 pi t2) k')
  ]
]
