-- ===== src/Pipe.antt =====
-- kernel/pipe.c: the ring of bytes between a writer and a reader, and the calls that sleep on it.
-- The pipe's lock is held from one sleep to the next, so such a stretch of a call is one function.
pub mod Fifo
pub mod Calls
pub mod Stream
mod Tests
use zept_os.Prelude.{
  ℕ, zero, suc, ◌+◌, ◌%◌, ◌^◌, Bool, true, false, not, ◌&&◌, ◌||◌, Option, none, some, List, [],
  ◌∷◌, ◌==◌, if◌then◌else◌, update, length,
}

-- `struct pipe`. The counters are `uint`; an index into `buf` is taken modulo PIPESIZE.
pub record Pipe : Type 0 where
  pub buf : ℕ → ℕ
  pub nread : ℕ
  pub nwrite : ℕ
  pub readopen : Bool
  pub writeopen : Bool

abbrev pub pipesize : ℕ
pipesize = 512

-- `uint` addition
abbrev pub add_uint : ℕ → ℕ → ℕ
add_uint a b = (a + b) % 2 ^ 32

-- The fields that `pipealloc` sets; `buf` is what the page held.
unfoldable pub pipe_init : (ℕ → ℕ) → Pipe
pipe_init page = record { buf = page; nread = 0; nwrite = 0; readopen = true; writeopen = true }

-- The two channels that calls sleep on: `&pi->nread` and `&pi->nwrite`.
pub data Chan : Type 0 where
  nread_chan nwrite_chan : Chan

-- What a call returns: -1, or a number of bytes.
pub data Ret : Type 0 where
  fail : Ret
  count : ℕ → Ret

-- How a stretch of a call ends, with the channels that it woke, the last one first: it returns,
-- or it sleeps on a channel with `i` bytes done, to go on in the loop's head.
pub data Stretch : Type 0 where
  returned : Pipe → List Chan → Ret → Stretch
  asleep : Pipe → List Chan → Chan → ℕ → Stretch

-- `pi->data[pi->nwrite++ % PIPESIZE] = ch`
unfoldable pub put : Pipe → ℕ → Pipe
put p ch = record p { buf = update p.buf (p.nwrite % pipesize) ch; nwrite = add_uint p.nwrite 1 }

-- `ch = pi->data[pi->nread++ % PIPESIZE]`
unfoldable pub get : Pipe → ℕ × Pipe
get p = (p.buf (p.nread % pipesize), record p { nread = add_uint p.nread 1 })

abbrev pub is_full : Pipe → Bool
is_full p = p.nwrite == add_uint p.nread pipesize

abbrev pub is_empty : Pipe → Bool
is_empty p = p.nread == p.nwrite

-- `killed i` is what `killed(pr)` returns when `i` bytes are done, and `copyin i` the byte at
-- `addr + i`, or `none` where `copyin` returns -1.
module _ (killed : ℕ → Bool) (copyin : ℕ → Option ℕ) where
  -- The loop of `pipewrite` with `rest` bytes to go and `i` done: `n` is `i + rest`.
  unfoldable pub pipewrite : (rest i : ℕ) → Pipe → Stretch
  unfolding put
  pipewrite zero i p = returned p (nread_chan ∷ []) (count i)
  pipewrite (suc rest) i p =
      if not p.readopen || killed i
      then returned p [] fail
      else if is_full p
      then asleep p (nread_chan ∷ []) nwrite_chan i
      else elim (copyin i) [
        | none ↦ returned p (nread_chan ∷ []) (count i)
        | some ch ↦ pipewrite rest (suc i) (put p ch)
      ]

-- The copy loop of `piperead`. `copyout i` tells whether the byte could be stored at `addr + i`.
-- With the pipe come the bytes that were stored; a byte that could not be is gone from the pipe.
unfoldable pub copy_loop : (ℕ → Bool) → (rest i : ℕ) → Pipe → Pipe × List ℕ
unfolding get
copy_loop copyout zero i p = (p, [])
copy_loop copyout (suc rest) i p =
    let (ch, p') = get p in
    let more : Pipe × List ℕ = copy_loop copyout rest (suc i) p' in
    if is_empty p then (p, []) else if copyout i then (more.0, ch ∷ more.1) else (p', [])

-- `piperead` from the head of its waiting loop, with the bytes that it stored.
unfoldable pub piperead : Bool → (ℕ → Bool) → (n : ℕ) → Pipe → Stretch × List ℕ
unfolding copy_loop
piperead killed copyout n p =
    if is_empty p && p.writeopen
    then (if killed then (returned p [] fail, []) else (asleep p [] nread_chan 0, []))
    else let (p', out) = copy_loop copyout n 0 p in
      (returned p' (nwrite_chan ∷ []) (count (length out)), out)

-- `pipeclose`: the pipe, the channel that is woken, and whether its page is freed.
unfoldable pub pipeclose : Pipe → Bool → Pipe × Chan × Bool
pipeclose p writable =
    let p' = if writable then record p { writeopen = false } else record p { readopen = false } in
    (p', if writable then nread_chan else nwrite_chan, not p'.readopen && not p'.writeopen)
