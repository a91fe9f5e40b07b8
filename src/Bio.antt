-- ===== src/Bio.antt =====
-- kernel/bio.c: the buffer cache, with its list of buffers as the code links it.
pub mod Lists
pub mod Cached
mod Tests
use zept_os.Prelude.{
  ℕ, zero, suc, ◌+◌, ◌-◌, ◌*◌, ◌/◌, ◌%◌, ◌^◌, ◌≤◌, ◌<◌, ◌≡◌, ◌≢◌, ◌∙◌, ap, sym, refl, fun_ext, ◌⊎◌,
  inl, inr, ◌↔◌, Bool, true, false, not, ◌&&◌, ◌||◌, Option, none, some, List, [], ◌∷◌, ◌++◌, map,
  append_assoc, append-nil, arith, ltb, leb, ◌==◌, if◌then◌else◌, Bool-cases, Option-cases, length,
  length-append, get_elem?, set, get_or, take, drop, replicate, update, Outcome, ok, panic,
  panic_if, ◌>>=◌, ◌>>◌, >>=-eq-ok,
}

abbrev pub nbuf : ℕ
nbuf = 30

-- A `struct buf` apart from its lock and its links; `bytes` is its `data`. A `struct buf *` is an index below NBUF.
pub record Buf : Type 0 where
  pub valid : Bool
  pub dev : ℕ
  pub blockno : ℕ
  pub refcnt : ℕ
  pub bytes : ℕ → ℕ

-- `&bcache.head`
abbrev pub head : ℕ
head = 30

-- `bcache`; the links of the head stand at the index `head`.
pub record Bcache : Type 0 where
  pub buf : ℕ → Buf
  pub next_of : ℕ → ℕ
  pub prev_of : ℕ → ℕ

-- `b` is put between the head and what follows it.
unfoldable pub push_front : ℕ → Bcache → Bcache
push_front b k =
    let first = k.next_of head in
    let k1 = record k { next_of = update k.next_of b first; prev_of = update k.prev_of b head } in
    record k1 { prev_of = update k1.prev_of first b; next_of = update k1.next_of head b }

-- `b` is taken out of the list; its own links stay.
unfoldable pub unlink : ℕ → Bcache → Bcache
unlink b k =
    let k1 = record k { prev_of = update k.prev_of (k.next_of b) (k.prev_of b) } in
    record k1 { next_of = update k1.next_of (k1.prev_of b) (k1.next_of b) }

-- The loop of `binit` from buffer `b` on, `rest` of them.
unfoldable pub init_loop : (rest b : ℕ) → Bcache → Bcache
unfolding push_front
init_loop zero b k = k
init_loop (suc rest) b k = init_loop rest (b + 1) (push_front b k)

unfoldable pub binit : Bcache → Bcache
unfolding init_loop
binit k =
    init_loop nbuf 0
      (record k { prev_of = update k.prev_of head head; next_of = update k.next_of head head })

-- The first loop of `bget`, from `b` on: the buffer of the block. The list has NBUF buffers, so as
-- many rounds end it.
unfoldable pub find_block : (fuel b dev blockno : ℕ) → Bcache → Option ℕ
find_block zero b dev blockno k = none
find_block (suc fuel) b dev blockno k =
    let later = find_block fuel (k.next_of b) dev blockno k in
    if b == head
    then none
    else if (k.buf b).dev == dev && ((k.buf b).blockno == blockno)
    then some b
    else later

-- The second loop of `bget`, from `b` on: a buffer that nobody uses.
unfoldable pub find_free : (fuel b : ℕ) → Bcache → Option ℕ
find_free zero b k = none
find_free (suc fuel) b k =
    let later = find_free fuel (k.prev_of b) k in
    if b == head then none else if (k.buf b).refcnt == 0 then some b else later

-- `uint` addition
abbrev pub add_uint : ℕ → ℕ → ℕ
add_uint a b = (a + b) % 2 ^ 32

abbrev pub put_buf : ℕ → Buf → Bcache → Bcache
put_buf b v k = record k { buf = update k.buf b v }

-- `bget` up to `acquiresleep`.
unfoldable pub bget : (dev blockno : ℕ) → Bcache → Outcome (ℕ × Bcache)
unfolding find_block find_free
bget dev blockno k = elim (find_block (nbuf + 1) (k.next_of head) dev blockno k) [
  | some b ↦ ok (b, put_buf b (record (k.buf b) { refcnt = add_uint (k.buf b).refcnt 1 }) k)
  | none ↦ elim (find_free (nbuf + 1) (k.prev_of head) k) [
    | some b ↦ ok (
      b,
      put_buf b (record (k.buf b) { dev = dev; blockno = blockno; valid = false; refcnt = 1 }) k,
    )
    | none ↦ panic "bget: no buffers"
  ]
]

-- `bread`; `disk` is what the disk holds, by device and block.
unfoldable pub bread : (disk : ℕ → ℕ → ℕ → ℕ) (dev blockno : ℕ) → Bcache → Outcome (ℕ × Bcache)
unfolding bget
bread disk dev blockno k = do
  (b, k') ← bget dev blockno k
  ok (
    b,
    if (k'.buf b).valid
        then k'
        else put_buf b
            (record (k'.buf b) { bytes = disk (k'.buf b).dev (k'.buf b).blockno; valid = true }) k',
  )

-- `brelse`, given whether the caller holds the buffer's lock.
unfoldable pub brelse : (holding : Bool) (b : ℕ) → Bcache → Outcome Bcache
unfolding unlink push_front
brelse holding b k =
    let k1 = put_buf b (record (k.buf b) { refcnt = add_uint (k.buf b).refcnt (2 ^ 32 - 1) }) k in
    do
      panic_if (not holding) "brelse"
      ok (if (k1.buf b).refcnt == 0 then push_front b (unlink b k1) else k1)
