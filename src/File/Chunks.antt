-- ===== src/File/Chunks.antt =====
-- kernel/file.c: how the loop of `filewrite` over transactions ends, whatever the inode layer does.
use zept_os.Prelude.{
  ℕ, zero, suc, ◌+◌, ◌-◌, ◌%◌, ◌^◌, ◌≤◌, ◌<◌, ◌≡◌, ap, refl, inl, inr, true, arith, ltb, ◌==◌,
  if◌then◌else◌, Bool-cases, false, not, ok, ◌∙◌,
}
use zept_os.Pipe.{Ret, fail, count}
use zept_os.File.{
  FileType, fd_inode, File, Io, advance_off, chunk, write_chunks, write_as, filewrite,
}

-- The inode layer writes at most what it is asked for.
abbrev pub IsBounded : {S : Type 0} → Io S → Type 0
IsBounded {S} io =
    (ip offset off n : ℕ) (s : S) (m : ℕ) → (io.inode_io ip offset off n s).0 ≡ count m → m ≤ n

pub chunk_bounds :
    (n i : ℕ)
    → ltb i n ≡ true
    → (0 < chunk (n - i)) × (chunk (n - i) ≤ 3072) × (i + chunk (n - i) ≤ n)
unfolding chunk
chunk_bounds n i h = ground arith

advance_off-lt : (r : Ret) (f : File) → f.off < 2 ^ 32 → (advance_off r f).off < 2 ^ 32
unfolding advance_off
advance_off-lt fail f h = h
advance_off-lt (count m) f h = omega arith

-- How the loop ends, started with `i` bytes done: all is written and counted, or the last of its
-- transactions fell short by what it was asked for, of which it wrote `extra` bytes.
pub record Chunked (n i : ℕ) (f : File) (done : ℕ) (f' : File) : Type 0 where
  pub extra : ℕ
  pub low : i ≤ done
  pub high : done + extra ≤ n
  pub short : extra ≤ 3072
  pub whole : done ≡ n → extra ≡ 0
  pub off : f'.off ≡ (f.off + (done - i) + extra) % 2 ^ 32
  pub same : f' ≡ record f { off = f'.off }

module _ {S : Type 0} (io : Io S) (bounded : IsBounded io) where
  -- One round, given how the later ones end.
  chunk_step :
      (n i n1 : ℕ) (f : File) (s' : S) (more : ℕ × File × S) (r : Ret)
      → i < n
      → 0 < n1
      → n1 ≤ 3072
      → i + n1 ≤ n
      → f.off < 2 ^ 32
      → ((m : ℕ) → r ≡ count m → m ≤ n1)
      → (r ≡ count n1 → Chunked n (i + n1) (advance_off r f) more.0 more.1)
      → let stop : ℕ × File × S = (i, advance_off r f, s') in
        let (done, f', _) : ℕ × File × S = elim r [
          | fail ↦ stop
          | count m ↦ if m == n1 then more else stop
        ] in
        Chunked n i f done f'
  unfolding advance_off
  chunk_step n i n1 f s' more fail lt pos small fits o b ih = record {
    extra = 0;
    low = omega arith;
    high = omega arith;
    short = omega arith;
    whole = λ e. refl;
    off = omega arith;
    same = refl;
  }
  chunk_step n i n1 f s' more (count m) lt pos small fits o b ih = elim (Bool-cases (m == n1)) [
    | inl all ↦
        let e : m ≡ n1 = ground arith in
        let c = ih (ap count e) in
        rw all (record {
          extra = c.extra;
          low = omega (arith, c.low);
          high = c.high;
          short = c.short;
          whole = c.whole;
          off = omega (arith, c.off, c.low);
          same = c.same;
        })
    | inr part ↦ rw part (record {
      extra = m;
      low = omega arith;
      high = omega (arith, b m refl);
      short = omega (arith, b m refl);
      whole = λ e. absurd (omega arith);
      off = ground arith;
      same = refl;
    })
  ]

  write_chunks-Chunked :
      (fuel n i : ℕ) (f : File) (s : S)
      → i ≤ n
      → n < i + fuel
      → f.off < 2 ^ 32
      → let (done, f', s') = write_chunks io fuel n i f s in Chunked n i f done f'
  unfolding write_chunks
  write_chunks-Chunked zero n i f s h e o = absurd (omega arith)
  write_chunks-Chunked (suc fuel) n i f s h e o = elim (Bool-cases (ltb i n)) [
    | inl more ↦ rw more (
        let (pos, small, fits) = chunk_bounds n i more in
        chunk_step n i (chunk (n - i)) f _ _ (io.inode_io f.ip i f.off (chunk (n - i)) s).0
          (ground arith) pos small fits o (λ m. bounded f.ip i f.off (chunk (n - i)) s m)
          (λ r.
            write_chunks-Chunked fuel n (i + chunk (n - i)) _ _ fits (omega arith)
              (advance_off-lt _ f o)))
    | inr end ↦ rw end (record {
      extra = 0;
      low = omega arith;
      high = omega arith;
      short = omega arith;
      whole = λ q. refl;
      off = omega arith;
      same = refl;
    })
  ]

-- `filewrite` of a file open for writing goes by the type of the file.
pub filewrite_as :
    {S : Type 0} (io : Io S) (f : File) (n : ℕ) (s : S) (ty : FileType)
    → f.type ≡ ty
    → f.writable ≡ true
    → filewrite io f n s ≡ write_as io ty f n s
unfolding filewrite
filewrite_as io f n s ty e w =
    ap (λ b. if not b then ok (fail, f, s) else write_as io f.type f n s) w
    ∙ ap (λ t. write_as io t f n s) e

filewrite_shut :
    {S : Type 0} (io : Io S) (f : File) (n : ℕ) (s : S)
    → f.writable ≡ false
    → filewrite io f n s ≡ ok (fail, f, s)
unfolding filewrite
filewrite_shut io f n s w = rw w

-- Over any inode layer that writes no more than it is asked for, a write of `n` bytes to an inode
-- does not panic. It returns `n`, with the offset moved by `n`, or -1 when a transaction fell short,
-- with the offset moved by what was written before the failing transaction and in it; nothing else
-- of the file changes. A file not open for writing gives -1 and stays as it is.
pub filewrite-inode :
    {S : Type 0} (io : Io S) (f : File) (n : ℕ) (s : S)
    → IsBounded io
    → f.type ≡ fd_inode
    → f.off < 2 ^ 32
    → (r : Ret) × (f' : File) × (s' : S) × (done : ℕ) × (filewrite io f n s ≡ ok (r, f', s'))
      × (f.writable ≡ false → (r ≡ fail) × (f' ≡ f))
      × (f.writable ≡ true → (r ≡ (if done == n then count n else fail)) × Chunked n 0 f done f')
unfolding write_as
filewrite-inode io f n s b ty o = elim (Bool-cases f.writable) [
  | inl w ↦ (
    _,
    _,
    _,
    _,
    filewrite_as io f n s fd_inode ty w,
    (λ no. absurd (ground arith)),
    (λ yes_. (refl, write_chunks-Chunked io b (n + 1) n 0 f s (omega arith) (omega arith) o)),
  )
  | inr w ↦ (
    fail,
    f,
    s,
    0,
    filewrite_shut io f n s w,
    (λ no. (refl, refl)),
    (λ yes_. absurd (ground arith)),
  )
]
