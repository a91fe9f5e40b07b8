-- ===== src/Log.antt =====
-- kernel/log.c: the redo log. A call's changes reach the disk through `commit`, and a crash is
-- repaired by `recover_from_log`.
pub mod Header
pub mod Loops
pub mod Atomic
pub mod Space
mod Tests
use zept_os.Prelude.{
  ℕ, zero, suc, ◌+◌, ◌-◌, ◌*◌, ◌/◌, ◌%◌, ◌^◌, ◌≤◌, ◌<◌, ◌≡◌, ◌≢◌, ◌∙◌, ap, sym, refl, fun_ext, ◌⊎◌,
  inl, inr, ◌↔◌, Bool, true, false, not, ◌&&◌, ◌||◌, Option, none, some, List, [], ◌∷◌, ◌++◌, map,
  append_assoc, append-nil, arith, ltb, leb, ◌==◌, if◌then◌else◌, Bool-cases, Option-cases, length,
  length-append, get_elem?, set, get_or, take, drop, replicate, update, Outcome, ok, panic,
  panic_if, ◌>>=◌, ◌>>◌, >>=-eq-ok,
}

-- `buf->data` as 32-bit words: 256 of them.
abbrev pub Block : Type 0
Block = ℕ → ℕ

-- What the log uses of kernel/bio.c and of the disk: `cache b` is what `bread` of block `b` gives,
-- `pins b` the references that `bpin` took, `writes` what `bwrite` sent to the disk, the last first.
pub record Store : Type 0 where
  pub cache : ℕ → Block
  pub pins : ℕ → ℕ
  pub writes : List (ℕ × Block)

-- `bread`, a change of `buf->data` to `d`, and `bwrite`
unfoldable pub bwrite : ℕ → Block → Store → Store
bwrite b d s = record s { cache = update s.cache b d; writes = (b, d) ∷ s.writes }

unfoldable pub bpin : ℕ → Store → Store
bpin b s = record s { pins = update s.pins b (s.pins b + 1) }

unfoldable pub bunpin : ℕ → Store → Store
bunpin b s = record s { pins = update s.pins b (s.pins b - 1) }

-- `struct log` with its `struct logheader`; `outstanding` is an `int`, as its bit pattern; it never
-- is below -1.
pub record Log : Type 0 where
  pub start : ℕ
  pub size : ℕ
  pub outstanding : ℕ
  pub committing : Bool
  pub n : ℕ
  pub block : ℕ → ℕ

abbrev pub maxopblocks : ℕ
maxopblocks = 10

abbrev pub logsize : ℕ
logsize = 30

-- The loop of `install_trans`.
unfoldable pub install_loop : (recovering : Bool) → Log → (rest tail : ℕ) → Store → Store
unfolding bwrite bunpin
install_loop recovering l zero tail s = s
install_loop recovering l (suc rest) tail s =
    let lbuf = s.cache (l.start + tail + 1) in
    let dst = l.block tail in
    let s' = bwrite dst lbuf s in
    install_loop recovering l rest (tail + 1) (if recovering then s' else bunpin dst s')

unfoldable pub install_trans : (recovering : Bool) → Log → Store → Store
unfolding install_loop
install_trans recovering l s = install_loop recovering l l.n 0 s

-- The loop of `write_head`: `hb->block[i] = log.lh.block[i]`; word 0 is `hb->n`.
unfoldable pub head_loop : (ℕ → ℕ) → (rest i : ℕ) → Block → Block
head_loop block zero i hb = hb
head_loop block (suc rest) i hb = head_loop block rest (i + 1) (update hb (1 + i) (block i))

unfoldable pub write_head : Log → Store → Store
unfolding head_loop bwrite
write_head l s = bwrite l.start (head_loop l.block l.n 0 (update (s.cache l.start) 0 l.n)) s

-- The loop of `read_head`: `log.lh.block[i] = lh->block[i]`.
unfoldable pub read_loop : Block → (rest i : ℕ) → (ℕ → ℕ) → ℕ → ℕ
read_loop lh zero i block = block
read_loop lh (suc rest) i block = read_loop lh rest (i + 1) (update block i (lh (1 + i)))

unfoldable pub read_head : Log → Store → Log
unfolding read_loop
read_head l s =
    let lh = s.cache l.start in record l { n = lh 0; block = read_loop lh (lh 0) 0 l.block }

unfoldable pub recover_from_log : Log → Store → Log × Store
unfolding read_head install_trans write_head
recover_from_log l s =
    let l' = read_head l s in
    let s' = install_trans true l' s in let l'' = record l' { n = 0 } in (l'', write_head l'' s')

-- The loop of `write_log`.
unfoldable pub write_loop : Log → (rest tail : ℕ) → Store → Store
unfolding bwrite
write_loop l zero tail s = s
write_loop l (suc rest) tail s =
    write_loop l rest (tail + 1) (bwrite (l.start + tail + 1) (s.cache (l.block tail)) s)

unfoldable pub write_log : Log → Store → Store
unfolding write_loop
write_log l s = write_loop l l.n 0 s

-- `struct log` before `initlog`: a global, so all zero; with the two fields that `initlog` sets.
abbrev pub empty_log : (logstart nlog : ℕ) → Log
empty_log logstart nlog = record {
  start = logstart;
  size = nlog;
  outstanding = 0;
  committing = false;
  n = 0;
  block = λ _. 0;
}

-- `initlog`, with the two fields of the superblock that it reads. A `struct logheader` has 124
-- bytes, fewer than BSIZE, so the check of its size passes.
unfoldable pub initlog : (logstart nlog : ℕ) → Store → Log × Store
unfolding recover_from_log
initlog logstart nlog s = recover_from_log (empty_log logstart nlog) s

unfoldable pub commit : Log → Store → Log × Store
unfolding write_log write_head install_trans
commit l s =
    let s1 = write_log l s in
    let s2 = write_head l s1 in
    let s3 = install_trans false l s2 in
    let l' = record l { n = 0 } in if ltb 0 l.n then (l', write_head l' s3) else (l, s)

-- One round of the loop of `begin_op`: the call starts, or sleeps until the next `wakeup(&log)`.
pub data Begun : Type 0 where
  started : Log → Begun
  sleeping : Log → Begun

-- `int` addition of bit patterns
abbrev pub add_int : ℕ → ℕ → ℕ
add_int a b = (a + b) % 2 ^ 32

unfoldable pub begin_op : Log → Begun
begin_op l =
    if l.committing
    then sleeping l
    else if ltb logsize (l.n + add_int l.outstanding 1 * maxopblocks)
    then sleeping l
    else started (record l { outstanding = add_int l.outstanding 1 })

-- `end_op` up to the release of the lock, and whether the caller commits.
unfoldable pub end_op_enter : Log → Outcome (Log × Bool)
end_op_enter l =
    let left = add_int l.outstanding (2 ^ 32 - 1) in
    do
      panic_if l.committing "log.committing"
      ok (
          if left == 0
          then (record l { outstanding = left; committing = true }, true)
          else (record l { outstanding = left }, false))

unfoldable pub end_op : Log → Store → Outcome (Log × Store)
unfolding end_op_enter
end_op l s = do
  (l', do_commit) ← end_op_enter l
  let (l'', s') = commit l' s
  ok (if do_commit then (record l'' { committing = false }, s') else (l', s))

-- `outstanding < 1` of an `int`
abbrev pub less_one : ℕ → Bool
less_one x = x == 0 || leb (2 ^ 31) x

-- The loop of `log_write` that looks for the block among those logged.
unfoldable pub find_slot : (ℕ → ℕ) → (b rest i : ℕ) → ℕ
find_slot block b zero i = i
find_slot block b (suc rest) i =
    let next = find_slot block b rest (i + 1) in if block i == b then i else next

-- `log_write` past its checks.
unfoldable pub log_slot : Log → Store → ℕ → Log × Store
unfolding find_slot bpin
log_slot l s b =
    let i = find_slot l.block b l.n 0 in
    let l' = record l { block = update l.block i b } in
    if i == l.n then (record l' { n = l.n + 1 }, bpin b s) else (l', s)

unfoldable pub log_write : Log → Store → ℕ → Outcome (Log × Store)
unfolding log_slot
log_write l s b = do
  panic_if (leb logsize l.n || leb (l.size - 1) l.n) "too big a transaction"
  panic_if (less_one l.outstanding) "log_write outside of trans"
  ok (log_slot l s b)
