-- ===== src/Fs/Content.antt =====
-- kernel/fs.c: writing and reading the content of an inode.
pub mod Rounds
pub mod Writes
pub mod Writei
pub mod Reads
pub mod ReadLoop
pub mod Readi
mod Tests
use zept_os.Prelude.{
  ℕ, zero, suc, ◌+◌, ◌-◌, ◌*◌, ◌/◌, ◌%◌, ◌^◌, ◌≤◌, ◌<◌, ◌≡◌, ◌≢◌, ◌∙◌, ap, sym, refl, fun_ext, ◌⊎◌,
  inl, inr, ◌↔◌, Bool, true, false, not, ◌&&◌, ◌||◌, Option, none, some, List, [], ◌∷◌, ◌++◌, map,
  append_assoc, append-nil, arith, ltb, leb, ◌==◌, if◌then◌else◌, Bool-cases, Option-cases, length,
  length-append, get_elem?, set, get_or, take, drop, replicate, update, Outcome, ok, panic,
  panic_if, ◌>>=◌, ◌>>◌, >>=-eq-ok, update_cases, update_self, update_other, ℕ_discrete,
}
use zept_os.Fs.{Blocks, bsize, Superblock}
use zept_os.Fs.Inode.{Inode, bmap, iupdate}

-- What `either_copyin` of `m` bytes does to its destination: the first `count` bytes are copied, all
-- of them unless it fails.
pub record Copy : Type 0 where
  pub failed : Bool
  pub count : ℕ
  pub bytes : ℕ → ℕ

-- `min(n - tot, BSIZE - off%BSIZE)`
abbrev pub portion : (tot off n : ℕ) → ℕ
portion tot off n = if ltb (n - tot) (bsize - off % bsize) then n - tot else bsize - off % bsize

-- The bytes of a block after a copy to its byte `at`.
abbrev pub copied : (at : ℕ) → Copy → (bytes : ℕ → ℕ) → ℕ → ℕ
copied at c bytes j = if leb at j && ltb j (at + c.count) then c.bytes (j - at) else bytes j

-- The state of the loop of `writei`.
pub record Progress : Type 0 where
  pub tot : ℕ
  pub off : ℕ
  pub ip : Inode
  pub blocks : Blocks

-- The loop, with `fuel` rounds at most; each one writes a byte at least. `copyin src m` is
-- `either_copyin`.
unfoldable pub write_loop :
    (copyin : ℕ → ℕ → Copy) (fuel src n : ℕ) → Superblock → Progress → Outcome Progress
write_loop copyin zero src n sb p = ok p
write_loop copyin (suc fuel) src n sb p =
    let m = portion p.tot p.off n in
    let c = copyin src m in
    let round = (do
      (addr, ip, blocks) ← bmap (p.off / bsize) p.ip sb p.blocks
      let blocks' = update blocks addr (copied (p.off % bsize) c (blocks addr))
      let more =
          write_loop copyin fuel (src + m) n sb
            (record { tot = p.tot + m; off = p.off + m; ip = ip; blocks = blocks' })
      if addr == 0
          then ok (record p { ip = ip; blocks = blocks })
          else if c.failed
          then ok (record p { ip = ip; blocks = blocks' })
          else more) in
    if ltb p.tot n then round else ok p

-- `writei`; none is -1. `off + n` is a `uint`, and MAXFILE*BSIZE is 316 * 1024.
unfoldable pub writei :
    (copyin : ℕ → ℕ → Copy) (src off n : ℕ)
    → Inode
    → Superblock
    → Blocks
    → Outcome (Option ℕ × Inode × Blocks)
writei copyin src off n ip sb blocks =
    let written = (do
      p ←
          write_loop copyin (n + 1) src n sb
            (record { tot = 0; off = off; ip = ip; blocks = blocks })
      let ip' = record p.ip { size = if ltb p.ip.size p.off then p.off else p.ip.size }
      ok (some p.tot, ip', iupdate ip' sb p.blocks)) in
    if ltb ip.size off || ltb ((off + n) % 2 ^ 32) off
    then ok (none, ip, blocks)
    else if ltb (316 * 1024) ((off + n) % 2 ^ 32)
    then ok (none, ip, blocks)
    else written

-- The state of the loop of `readi`, with the memory that it copies to.
pub record Reading : Type 0 where
  pub tot : ℕ
  pub off : ℕ
  pub ip : Inode
  pub blocks : Blocks
  pub user : ℕ → ℕ

-- Memory after `count` bytes of a block from its byte `at` on are copied to `dst`.
abbrev pub copied_out : (at dst count : ℕ) (bytes user : ℕ → ℕ) → ℕ → ℕ
copied_out at dst count bytes user a =
    if leb dst a && ltb a (dst + count) then bytes (at + (a - dst)) else user a

-- The loop, with `fuel` rounds at most. `copyout dst m` is `either_copyout`: whether it fails, and how
-- many of the bytes it copies. The first part of the result is whether a copy has failed.
unfoldable pub read_loop :
    (copyout : ℕ → ℕ → Bool × ℕ) (fuel dst n : ℕ) → Superblock → Reading → Outcome (Bool × Reading)
read_loop copyout zero dst n sb p = ok (false, p)
read_loop copyout (suc fuel) dst n sb p =
    let m = portion p.tot p.off n in
    let (failed, count) = copyout dst m in
    let round = (do
      (addr, ip, blocks) ← bmap (p.off / bsize) p.ip sb p.blocks
      let user = copied_out (p.off % bsize) dst count (blocks addr) p.user
      let more =
          read_loop copyout fuel (dst + m) n sb
            (record { tot = p.tot + m; off = p.off + m; ip = ip; blocks = blocks; user = user })
      if addr == 0
          then ok (false, record p { ip = ip; blocks = blocks })
          else if failed
          then ok (true, record p { ip = ip; blocks = blocks; user = user })
          else more) in
    if ltb p.tot n then round else ok (false, p)

-- `readi`: the number of bytes read, where none is -1, with the state that it leaves.
unfoldable pub readi :
    (copyout : ℕ → ℕ → Bool × ℕ) (dst off n : ℕ)
    → Inode
    → Superblock
    → Blocks
    → (user : ℕ → ℕ) → Outcome (Option ℕ × Reading)
readi copyout dst off n ip sb blocks user =
    let first : Reading = record { tot = 0; off = off; ip = ip; blocks = blocks; user = user } in
    let n' = (if ltb ip.size ((off + n) % 2 ^ 32) then ip.size - off else n) in
    let read = (do
      (failed, p) ← read_loop copyout (n' + 1) dst n' sb first
      ok (if failed then none else some p.tot, p)) in
    if ltb ip.size off || ltb ((off + n) % 2 ^ 32) off then ok (some 0, first) else read
