-- ===== src/Fs/Content/Readi.antt =====
-- kernel/fs.c: `readi` gives the content of an inode.
use zept_os.Prelude.{
  ℕ, ◌+◌, ◌-◌, ◌*◌, ◌%◌, ◌^◌, ◌≤◌, ◌<◌, ◌≡◌, ◌≢◌, ◌∙◌, refl, ◌⊎◌, inl, inr, Bool, true, false, ◌||◌,
  Option, none, some, arith, ltb, if◌then◌else◌, Bool-cases, Outcome, ok,
}
use zept_os.Fs.{Blocks, Superblock}
use zept_os.Fs.Inode.{Inode}
use zept_os.Fs.Inode.Slots.{IsMapped}
use zept_os.Fs.Inode.Mapping.{slot}
use zept_os.Fs.Content.{Reading, read_loop, readi}
use zept_os.Fs.Content.Rounds.{block_at}
use zept_os.Fs.Content.Reads.{CopiesOut, Read}
use zept_os.Fs.Content.ReadLoop.{read_loop-Read}

-- The state before the loop of `readi`.
abbrev pub at_start : (off : ℕ) → Inode → Blocks → (user : ℕ → ℕ) → Reading
at_start off ip blocks user = record { tot = 0; off = off; ip = ip; blocks = blocks; user = user }

-- How many of `n` bytes from `off` on a file of `size` bytes has.
abbrev pub clipped : (size off n : ℕ) → ℕ
clipped size off n = if ltb size (off + n) then size - off else n

-- What `readi` gives when its loop ends with `result` and reads `count` bytes.
abbrev pub returned : (result : Bool × Reading) (count : ℕ) → Outcome (Option ℕ × Reading)
returned result count = ok (if result.0 then none else some count, result.1)

readi_loop :
    (copyout : ℕ → ℕ → Bool × ℕ) (dst off n : ℕ) (ip : Inode) (sb : Superblock) (blocks : Blocks)
    (user : ℕ → ℕ) (result : Bool × Reading)
    → off ≤ ip.size
    → off + n < 2 ^ 32
    → read_loop copyout
        (clipped ip.size off n + 1)
        dst
        (clipped ip.size off n)
        sb
        (at_start off ip blocks user)
      ≡ ok result
    → readi copyout dst off n ip sb blocks user ≡ returned result result.1.tot
unfolding readi
readi_loop copyout dst off n ip sb blocks user result h w g =
    let d : (off + n) % 2 ^ 32 ≡ off + n = omega (arith, w) in
    let e : ltb ip.size off ≡ false = ground (arith, h) in
    let f : ltb (off + n) off ≡ false = ground arith in rw (d, e, f, g) refl

readi_nothing :
    (copyout : ℕ → ℕ → Bool × ℕ) (dst off n : ℕ) (ip : Inode) (sb : Superblock) (blocks : Blocks)
    (user : ℕ → ℕ)
    → (ltb ip.size off || ltb ((off + n) % 2 ^ 32) off) ≡ true
    → readi copyout dst off n ip sb blocks user ≡ ok (some 0, at_start off ip blocks user)
unfolding readi
readi_nothing copyout dst off n ip sb blocks user e = rw e refl

-- The number that `readi` gives after its loop.
number_read :
    (result : Bool × Reading) (count : ℕ) (P Q : Type 0)
    → ((result.0 ≡ true) × P × Q) ⊎ ((result.0 ≡ false) × (result.1.tot ≡ count))
    → returned result result.1.tot ≡ returned result count
number_read result count P Q d = elim d [ inl (e, _, _) ↦ rw e refl | inr (e, t) ↦ rw t refl ]

-- `readi`, of an inode whose blocks are mapped and whose bytes from `off` on all have a block, with a
-- copy that copies no more than it is asked to, and all of it unless it fails. From past the end of
-- the file, or with a wrapping `off + n`, it reads 0 bytes and changes nothing. Else it gives the number
-- of the bytes from `off` to the end of the file, `n` at most, which are then at `dst` in order; or -1,
-- with the first of these bytes at `dst`, when the copy of the portion after them has failed. Memory
-- outside these bytes, the blocks of the file and its bytes are as before.
pub readi-Read :
    (copyout : ℕ → ℕ → Bool × ℕ) (dst off n : ℕ) (ip : Inode) (sb : Superblock) (blocks : Blocks)
    (user : ℕ → ℕ)
    → CopiesOut copyout
    → sb.size < 2 ^ 32
    → IsMapped sb (slot ip blocks) blocks
    → ip.size ≤ 316 * 1024
    → off < 2 ^ 32
    → n < 2 ^ 32
    → ((i : ℕ) → off + i < ip.size → block_at ip blocks (off + i) ≢ 0)
    → (((ip.size < off) ⊎ (2 ^ 32 ≤ off + n))
        × (readi copyout dst off n ip sb blocks user ≡ ok (some 0, at_start off ip blocks user)))
      ⊎ ((result : Bool × Reading) × (readi copyout dst off n ip sb blocks user
            ≡ returned result (clipped ip.size off n))
          × (off ≤ ip.size)
          × (off + n < 2 ^ 32)
          × Read copyout (clipped ip.size off n) dst sb (at_start off ip blocks user) result)
readi-Read copyout dst off n ip sb blocks user c s m top ho hn present =
    elim (Bool-cases (ltb ip.size off || ltb ((off + n) % 2 ^ 32) off)) [
      | inl e ↦ inl (early e, readi_nothing copyout dst off n ip sb blocks user e)
      | inr e ↦
          let h : off ≤ ip.size = ground (arith, e) in
          let w : off + n < 2 ^ 32 = ground (arith, e, ho, hn) in
          let short : off + clipped ip.size off n ≤ ip.size = ground (arith, h) in
          let (result, g, read) =
            read_loop-Read copyout (clipped ip.size off n + 1) dst (clipped ip.size off n) sb
              (at_start off ip blocks user) c s m (omega arith) (omega (arith, short, top))
              (omega arith) (λ i l. present i (omega (arith, short, l))) in
          inr (
            result,
            readi_loop copyout dst off n ip sb blocks user result h w g
                ∙ number_read result (clipped ip.size off n) _ _ read.done,
            h,
            w,
            read,
          )
    ]
  where
    early :
        (ltb ip.size off || ltb ((off + n) % 2 ^ 32) off) ≡ true
        → (ip.size < off) ⊎ (2 ^ 32 ≤ off + n)
    early e = elim (Bool-cases (ltb ip.size off)) [
      | inl f ↦ inl (ground (arith, f))
      | inr f ↦ inr (ground (arith, e, f, ho, hn))
    ]
