-- ===== src/File/Write.antt =====
-- kernel/file.c: the transactions of `filewrite` cover the bytes.
use zept_os.Prelude.{
  ℕ, zero, suc, ◌+◌, ◌-◌, ◌*◌, ◌/◌, ◌%◌, ◌^◌, ◌≤◌, ◌<◌, ◌≡◌, refl, inl, inr, true, none, List, [],
  ◌∷◌, ◌++◌, arith, ltb, ◌==◌, Bool-cases, append-nil, ok, ◌∙◌, append_assoc,
}
use zept_os.Pipe.{fail, count}
use zept_os.File.{fd_inode, File, Io, advance_off, chunk, write_chunks, write_as, filewrite}
use zept_os.File.Chunks.{chunk_bounds, filewrite_as}

-- Calls of the inode layer, in order: offset in the caller's memory, offset in the file, bytes.
abbrev pub Calls : Type 0
Calls = List (ℕ × ℕ × ℕ)

-- An inode layer that notes its calls and writes all that it is asked for.
abbrev pub noting : Io Calls
noting = record {
  pipe_io = λ pipe offset n s. (fail, s);
  dev_io = λ major. none;
  inode_io = λ ip offset off n s. (count n, s ++ (offset, off, n) ∷ []);
}

-- The calls cover the bytes from `i` to `n`, from offset `off` of the file on, without a gap, each
-- of at least one byte and within the blocks that a transaction may write.
abbrev pub Covers : (n i off : ℕ) → Calls → Type 0
Covers n i off [] = i ≡ n
Covers n i off ((offset, o, k) ∷ cs) =
    (offset ≡ i)
    × (o ≡ off)
    × (0 < k)
    × (k ≤ (10 - 1 - 1 - 2) / 2 * 1024)
    × ((o + k + 1023) / 1024 - o / 1024 ≤ 4)
    × Covers n (i + k) ((off + k) % 2 ^ 32) cs

eqb_self : (a : ℕ) → (a == a) ≡ true
eqb_self a = ground arith

sub_zero : (a : ℕ) → a - 0 ≡ a
sub_zero a = omega arith

off-sum :
    (o k n i : ℕ) → i + k ≤ n → ((o + k) % 2 ^ 32 + (n - (i + k))) % 2 ^ 32 ≡ (o + (n - i)) % 2 ^ 32
off-sum o k n i h = omega arith

write_chunks-noting :
    (fuel n i : ℕ) (f : File) (cs : Calls)
    → ltb i n ≡ true
    → let k = chunk (n - i) in
      write_chunks noting (suc fuel) n i f cs
      ≡ write_chunks noting fuel n
          (i + k)
          (record f { off = (f.off + k) % 2 ^ 32 })
          (cs ++ (i, f.off, k) ∷ [])
unfolding write_chunks advance_off
write_chunks-noting fuel n i f cs more = rw (more, eqb_self (chunk (n - i)))

write_chunks-Covers :
    (fuel n i : ℕ) (f : File) (cs : Calls)
    → i ≤ n
    → n < i + fuel
    → f.off < 2 ^ 32
    → (calls : Calls) × (write_chunks noting fuel n i f cs
        ≡ (n, record f { off = (f.off + (n - i)) % 2 ^ 32 }, cs ++ calls))
      × Covers n i f.off calls
unfolding write_chunks advance_off
write_chunks-Covers zero n i f cs h e o = absurd (omega arith)
write_chunks-Covers (suc fuel) n i f cs h e o = elim (Bool-cases (ltb i n)) [
  | inr end ↦ ([], rw (end, append-nil) (ground arith), ground arith)
  | inl more ↦
      let k : ℕ = chunk (n - i) in
      let (pos, small, fits) = chunk_bounds n i more in
      let moved = λ (j : ℕ) (q : i + j ≤ n). off-sum f.off j n i q in
      let f' : File = record f { off = (f.off + k) % 2 ^ 32 } in
      let (calls, run, cover) =
        write_chunks-Covers fuel n (i + k) f' (cs ++ (i, f.off, k) ∷ []) fits (omega arith)
          (omega arith) in
      (
        (i, f.off, k) ∷ calls,
        write_chunks-noting fuel n i f cs more ∙ run ∙ (λ j.
            (n, record f { off = moved k fits j }, append_assoc cs ((i, f.off, k) ∷ []) calls j)),
        (refl, refl, pos, small, omega arith, cover),
      )
]

-- A write of `n` bytes to an inode whose layer writes all it is asked for returns `n` and moves the
-- offset by `n`. Its transactions cover the bytes in order and without a gap, from the offset on;
-- each is of at least one byte, of at most half of what MAXOPBLOCKS leaves besides the inode, the
-- indirect block and two blocks of slop, and touches at most four data blocks.
pub filewrite-Covers :
    (f : File) (n : ℕ)
    → f.type ≡ fd_inode
    → f.writable ≡ true
    → f.off < 2 ^ 32
    → (calls : Calls) × (filewrite noting f n []
        ≡ ok (count n, record f { off = (f.off + n) % 2 ^ 32 }, calls))
      × Covers n 0 f.off calls
unfolding write_as
filewrite-Covers f n ty w o =
    let (calls, run, cover) = write_chunks-Covers (n + 1) n 0 f [] (omega arith) (omega arith) o in
    (calls, filewrite_as noting f n [] fd_inode ty w ∙ rw (run, eqb_self n, sub_zero n), cover)
