-- ===== src/Console/Reads.antt =====
-- kernel/console.c: a read takes characters of the text in order, up to the end of a line.
use zept_os.Prelude.{
  ℕ, zero, suc, ◌+◌, ◌%◌, ◌<◌, ◌≡◌, ◌≢◌, ◌∙◌, ap, sym, refl, inl, inr, Bool, [], arith, ltb, ◌==◌,
  if◌then◌else◌, Bool-cases,
}
use mathlib.Core.Path.{subst}
use zept_os.Console.{
  Cons, input_buf_size, newline, ctrl_d, add_uint, sub_uint, consoleread, returned, asleep,
}
use zept_os.Pipe.{fail, count}
use zept_os.Console.Editor.{Text, Holds}
use zept_os.Console.Line.{
  Got, ReadEnds, read_line, next_char, read_one-Holds, put_back, none-Got, last-Got,
  stored-ReadEnds,
}

-- Nothing is finished: the read waits, or gives up.
empty_ends :
    (killed : Bool) (copyout : ℕ → Bool) (rest i : ℕ) (k : Cons) (t : Text)
    → Holds k t
    → t.read ≡ t.line
    → ReadEnds killed copyout t (suc rest) i (if killed then returned k [] fail else asleep k [] i)
unfolding ReadEnds
empty_ends killed copyout rest i k t h e = elim (Bool-cases killed) [
  | inl dead ↦ rw dead (g, omega (arith, e), omega arith, refl)
  | inr live ↦ rw live (g, omega (arith, e), omega arith, refl, omega arith)
]
  where
    g : Got t (suc rest) k [] t.line
    g = none-Got t (suc rest) k t.line (subst (λ m. Holds k (record t { read = m })) e h)

add_zero : (n : ℕ) → n + 0 ≡ n
add_zero n = omega arith

-- A control-d is taken when it is the first character, and else left for the next read.
eof_ends :
    (killed : Bool) (copyout : ℕ → Bool) (rest i : ℕ) (k : Cons) (t : Text)
    → Holds k t
    → Holds (record k { r = add_uint k.r 1 }) (record t { read = t.read + 1 })
    → t.read < t.line
    → t.char t.read ≡ ctrl_d
    → ReadEnds killed copyout t (suc rest) i (
        returned
          (if ltb 0 i
            then record k { r = sub_uint (add_uint k.r 1) 1 }
            else record k { r = add_uint k.r 1 })
          []
          (count i))
unfolding ReadEnds
eof_ends killed copyout rest i k t h h' l d = elim (Bool-cases (ltb 0 i)) [
  | inl e ↦ rw e (
    t.read,
    none-Got t (suc rest) _ t.read
        (subst (λ x. Holds (record k { r = x }) t) (sym (put_back k.r t.read h.r)) h),
    omega arith,
    inr (inr (inl (omega arith, omega arith, next, ground (arith, e)))),
  )
  | inr e ↦ rw e (
    t.read + 1,
    none-Got t (suc rest) _ (t.read + 1) h',
    omega arith,
    inr (inr (inl (omega arith, omega arith, next, ground (arith, e)))),
  )
]
  where
    next : t.char (t.read + 0) ≡ ctrl_d
    next = ap t.char (add_zero t.read) ∙ d

-- A read from a ring that holds a text stores the next characters of the text, none after the first
-- newline, none from a control-d on, and no more than there is room for. It returns their number when
-- it has all that was asked for or a newline, at a control-d, or when the next byte cannot be stored;
-- it takes a control-d that nothing comes before, and a byte that cannot be stored, off the text. It
-- is -1 only when the caller is killed, and sleeps only when it is not, in both cases with room left
-- and all finished lines read. The ring is left with the rest of the text.
pub consoleread-ReadEnds :
    (killed : Bool) (copyout : ℕ → Bool) (rest i : ℕ) (k : Cons) (t : Text)
    → Holds k t
    → ReadEnds killed copyout t rest i (consoleread killed copyout rest i k)
unfolding consoleread ReadEnds
consoleread-ReadEnds killed copyout zero i k t h =
    (t.read, none-Got t 0 k t.read h, omega arith, inl (refl, omega arith))
consoleread-ReadEnds killed copyout (suc rest) i k t h = elim (Bool-cases (t.read == t.line)) [
  | inl x ↦ rw (read_line k t h ∙ x) (empty_ends killed copyout rest i k t h (ground (arith, x)))
  | inr x ↦
      let lt : t.read < t.line = (let l = h.read_line in ground (arith, x, l)) in
      let c = k.buf (k.r % input_buf_size) in
      let e : c ≡ t.char t.read = next_char k t h lt in
      let h' = read_one-Holds k t h lt in
      rw (read_line k t h ∙ x) (elim (Bool-cases (c == ctrl_d)) [
        | inl d ↦ rw d (eof_ends killed copyout rest i k t h h' lt (sym e ∙ ground (arith, d)))
        | inr d ↦ rw d (
            let eof : c ≢ ctrl_d = ground (arith, d) in
            elim (Bool-cases (copyout i)) [
              | inr bad ↦ rw bad (
                t.read + 1,
                none-Got t (suc rest) _ (t.read + 1) h',
                omega arith,
                inr (
                    inr (
                      inr (
                        omega arith,
                        omega (arith, lt),
                        ap copyout (add_zero i) ∙ bad,
                        omega arith,
                      ))),
              )
              | inl good ↦ rw good (elim (Bool-cases (c == newline)) [
                | inl end ↦ rw end (
                  t.read + 1,
                  last-Got t rest _ c e eof h',
                  omega arith,
                  inr (
                      inl (
                        0,
                        refl,
                        ap t.char (add_zero t.read) ∙ sym e ∙ ground (arith, end),
                        omega arith,
                      )),
                )
                | inr more ↦ rw more (
                    stored-ReadEnds killed copyout t rest i c _ e (ground (arith, more)) eof (
                      consoleread-ReadEnds killed copyout rest (suc i)
                        (record k { r = add_uint k.r 1 }) (record t { read = t.read + 1 }) h'))
              ])
            ])
      ])
]
