-- ===== src/File.antt =====
-- kernel/file.c: the table of open files, and reads and writes through it.
pub mod Refs
pub mod Chunks
pub mod Write
mod Tests
use zept_os.Prelude.{
  ℕ, zero, suc, ◌+◌, ◌-◌, ◌*◌, ◌/◌, ◌%◌, ◌^◌, ◌≤◌, ◌<◌, ◌≡◌, ◌≢◌, ◌∙◌, ap, sym, refl, fun_ext, ◌⊎◌,
  inl, inr, ◌↔◌, Bool, true, false, not, ◌&&◌, ◌||◌, Option, none, some, List, [], ◌∷◌, ◌++◌, map,
  append_assoc, append-nil, arith, ltb, leb, ◌==◌, if◌then◌else◌, Bool-cases, Option-cases, length,
  length-append, get_elem?, set, get_or, take, drop, replicate, update, Outcome, ok, panic,
  panic_if, ◌>>=◌, ◌>>◌, >>=-eq-ok,
}
use zept_os.Pipe.{Ret, fail, count}

-- The `type` of a `struct file`.
pub data FileType : Type 0 where
  fd_none fd_pipe fd_inode fd_device : FileType

-- `struct file`; the pointers are numbers. A file in the table that has no handle has `ref` 0.
pub record File : Type 0 where
  pub type : FileType
  pub ref : ℕ
  pub readable : Bool
  pub writable : Bool
  pub pipe : ℕ
  pub ip : ℕ
  pub off : ℕ
  pub major : ℕ

abbrev pub nfile : ℕ
nfile = 100

abbrev pub ndev : ℕ
ndev = 10

-- `ftable.file`; a `struct file *` is an index below NFILE.
abbrev pub Ftable : Type 0
Ftable = ℕ → File

-- The loop of `filealloc`, with `rest` files to look at.
unfoldable pub alloc_loop : (rest i : ℕ) → Ftable → Option (ℕ × Ftable)
alloc_loop zero i t = none
alloc_loop (suc rest) i t =
    let later = alloc_loop rest (suc i) t in
    if (t i).ref == 0 then some (i, update t i (record (t i) { ref = 1 })) else later

unfoldable pub filealloc : Ftable → Option (ℕ × Ftable)
unfolding alloc_loop
filealloc t = alloc_loop nfile 0 t

unfoldable pub filedup : ℕ → Ftable → Outcome Ftable
filedup f t = do
  panic_if (ltb (t f).ref 1) "filedup"
  ok (update t f (record (t f) { ref = (t f).ref + 1 }))

-- What `fileclose` does after it has released the table: nothing, `pipeclose`, or `iput` in a
-- transaction of its own.
pub data Closing : Type 0 where
  keep : Closing
  close_pipe : (pipe : ℕ) (writable : Bool) → Closing
  put_inode : (ip : ℕ) → Closing

unfoldable pub closing_of : File → FileType → Closing
closing_of ff fd_none = keep
closing_of ff fd_pipe = close_pipe ff.pipe ff.writable
closing_of ff fd_inode = put_inode ff.ip
closing_of ff fd_device = put_inode ff.ip

unfoldable pub fileclose : ℕ → Ftable → Outcome (Ftable × Closing)
unfolding closing_of
fileclose f t =
    let ff = record (t f) { ref = (t f).ref - 1 } in
    do
      panic_if (ltb (t f).ref 1) "fileclose"
      ok (
          if ltb 0 ff.ref
          then (update t f ff, keep)
          else (update t f (record ff { ref = 0; type = fd_none }), closing_of ff ff.type))

-- What `fileread` and `filewrite` call, over a state of their own: the pipe, the device switch
-- (`none` for a null pointer) and the inode layer, at an offset of the caller's memory.
pub record Io (S : Type 0) : Type 0 where
  pub pipe_io : (pipe : ℕ) (offset n : ℕ) → S → Ret × S
  pub dev_io : (major : ℕ) → Option ((offset n : ℕ) → S → Ret × S)
  pub inode_io : (ip : ℕ) (offset off n : ℕ) → S → Ret × S

-- `r > 0` and `f->off += r`; `off` is a `uint`.
unfoldable pub advance_off : Ret → File → File
advance_off fail f = f
advance_off (count r) f = record f { off = (f.off + r) % 2 ^ 32 }

-- `max` of `filewrite`, and the size of the next transaction with `left` bytes to go.
abbrev pub max_chunk : ℕ
max_chunk = (10 - 1 - 1 - 2) / 2 * 1024

unfoldable pub chunk : (left : ℕ) → ℕ
chunk left = if ltb max_chunk left then max_chunk else left

module _ {S : Type 0} (io : Io S) where
  dev_transfer : Option ((offset n : ℕ) → S → Ret × S) → (n : ℕ) → S → Ret × S
  dev_transfer none n s = (fail, s)
  dev_transfer (some call) n s = call 0 n s

  read_as : FileType → File → (n : ℕ) → S → Outcome (Ret × File × S)
  read_as fd_none f n s = panic "fileread"
  read_as fd_pipe f n s = let (r, s') = io.pipe_io f.pipe 0 n s in ok (r, f, s')
  read_as fd_inode f n s = let (r, s') = io.inode_io f.ip 0 f.off n s in ok (r, advance_off r f, s')
  read_as fd_device f n s =
      let (r, s') = dev_transfer (io.dev_io f.major) n s in
      ok (if leb ndev f.major then (fail, f, s) else (r, f, s'))

  unfoldable pub fileread : File → (n : ℕ) → S → Outcome (Ret × File × S)
  unfolding advance_off dev_transfer read_as
  fileread f n s = let r = read_as f.type f n s in if not f.readable then ok (fail, f, s) else r

  -- The loop of `filewrite` on an inode, `i` bytes done of `n`, with `fuel` rounds at most. Each
  -- round is one transaction. The bytes done come back.
  unfoldable pub write_chunks : (fuel n i : ℕ) → File → S → ℕ × File × S
  unfolding advance_off
  write_chunks zero n i f s = (i, f, s)
  write_chunks (suc fuel) n i f s =
      let n1 = chunk (n - i) in
      let (r, s') = io.inode_io f.ip i f.off n1 s in
      let f' = advance_off r f in
      let more = write_chunks fuel n (i + n1) f' s' in
      let stop : ℕ × File × S = (i, f', s') in
      if ltb i n
      then elim r [ fail ↦ stop | count m ↦ if m == n1 then more else stop ]
      else (i, f, s)

  pub write_as : FileType → File → (n : ℕ) → S → Outcome (Ret × File × S)
  write_as fd_none f n s = panic "filewrite"
  write_as fd_pipe f n s = let (r, s') = io.pipe_io f.pipe 0 n s in ok (r, f, s')
  write_as fd_inode f n s =
      let (i, f', s') = write_chunks (n + 1) n 0 f s in
      ok (if i == n then count n else fail, f', s')
  write_as fd_device f n s =
      let (r, s') = dev_transfer (io.dev_io f.major) n s in
      ok (if leb ndev f.major then (fail, f, s) else (r, f, s'))

  unfoldable pub filewrite : File → (n : ℕ) → S → Outcome (Ret × File × S)
  unfolding write_chunks dev_transfer write_as
  filewrite f n s = let r = write_as f.type f n s in if not f.writable then ok (fail, f, s) else r
