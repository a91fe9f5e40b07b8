-- ===== src/Console/Line.antt =====
-- kernel/console.c: how a stretch of a read may end, and one more byte in front of it.
use zept_os.Prelude.{
  ℕ, zero, suc, ◌+◌, ◌%◌, ◌^◌, ◌≤◌, ◌<◌, ◌≡◌, ◌≢◌, ◌∙◌, ap, sym, refl, ◌⊎◌, inl, inr, Bool, true,
  false, List, [], ◌∷◌, arith, ltb, ◌==◌, if◌then◌else◌, Bool-cases, length, ℕ_discrete,
}
use zept_os.Console.{
  Cons, input_buf_size, newline, ctrl_d, add_uint, sub_uint, Stretch, returned, asleep, stored,
}
use zept_os.Pipe.{fail, count}
use zept_os.Console.Editor.{Text, Holds, ring_index, marks}

-- The characters of a text from place `a` on, `n` of them.
unfoldable pub slice : (ℕ → ℕ) → (a n : ℕ) → List ℕ
slice f a zero = []
slice f a (suc n) = f a ∷ slice f (a + 1) n

-- The bytes `out` are the next of the text, up to the first newline at most, and the ring is left with
-- the text that is read up to `mark`.
pub record Got (t : Text) (rest : ℕ) (k : Cons) (out : List ℕ) (mark : ℕ) : Type 0 where
  pub holds : Holds k (record t { read = mark })
  pub bytes : out ≡ slice t.char t.read (length out)
  pub short : length out ≤ rest
  pub one_line : (j : ℕ) → t.read ≤ j → suc j < t.read + length out → t.char j ≢ newline
  pub no_eof : (j : ℕ) → t.read ≤ j → j < t.read + length out → t.char j ≢ ctrl_d

-- Why a read returns with `len` bytes, and how far it has read then: all that was asked for is there;
-- the last byte is a newline; a control-d comes next, which is taken when nothing comes before it; or
-- the next byte could not be stored, and is lost.
abbrev pub Why : (copyout : ℕ → Bool) (t : Text) (rest i len mark : ℕ) → Type 0
Why copyout t rest i len mark =
    ((len ≡ rest) × (mark ≡ t.read + len))
    ⊎ ((j : ℕ) × (suc j ≡ len) × (t.char (t.read + j) ≡ newline) × (mark ≡ t.read + len))
    ⊎ ((len < rest)
        × (t.read + len < t.line)
        × (t.char (t.read + len) ≡ ctrl_d)
        × (mark ≡ (if ltb 0 (i + len) then t.read + len else t.read + len + 1)))
    ⊎ ((len < rest)
        × (t.read + len < t.line)
        × (copyout (i + len) ≡ false)
        × (mark ≡ t.read + len + 1))

-- How a stretch of a read ends. It returns the bytes that it has, or -1 when the process is killed
-- with all finished lines read; or it sleeps, likewise with all finished lines read.
unfoldable pub ReadEnds :
    (killed : Bool) (copyout : ℕ → Bool) (t : Text) (rest i : ℕ) → Stretch → Type 0
ReadEnds killed copyout t rest i (returned k out (count m)) =
    (mark : ℕ) × Got t rest k out mark
    × (m ≡ i + length out)
    × Why copyout t rest i (length out) mark
ReadEnds killed copyout t rest i (returned k out fail) =
    Got t rest k out t.line × (t.line ≡ t.read + length out) × (length out < rest) × (killed ≡ true)
ReadEnds killed copyout t rest i (asleep k out j) =
    Got t rest k out t.line
    × (t.line ≡ t.read + length out)
    × (length out < rest)
    × (killed ≡ false)
    × (j ≡ i + length out)

Why-suc :
    (copyout : ℕ → Bool) (t : Text) (rest i len mark : ℕ)
    → Why copyout (record t { read = t.read + 1 }) rest (suc i) len mark
    → Why copyout t (suc rest) i (suc len) mark
Why-suc copyout t rest i len mark (inl (e, m)) = inl (omega arith, omega arith)
Why-suc copyout t rest i len mark (inr (inl (j, e, n, m))) =
    let place : t.read + suc j ≡ t.read + 1 + j = omega arith in
    inr (inl (suc j, omega arith, ap t.char place ∙ n, omega arith))
Why-suc copyout t rest i len mark (inr (inr (inl (l, b, d, m)))) =
    let place : t.read + suc len ≡ t.read + 1 + len = omega arith in
    inr (inr (inl (omega arith, omega arith, ap t.char place ∙ d, ground (arith, m))))
Why-suc copyout t rest i len mark (inr (inr (inr (l, b, d, m)))) =
    let place : i + suc len ≡ suc i + len = omega arith in
    inr (inr (inr (omega arith, omega arith, ap copyout place ∙ d, omega arith)))

pub read_line : (k : Cons) (t : Text) → Holds k t → (k.r == k.w) ≡ (t.read == t.line)
read_line k t h = elim (Bool-cases (t.read == t.line)) [
  | inl x ↦
      let y : t.read ≡ t.line = ground (arith, x) in
      let z : k.r ≡ k.w = h.r ∙ ap (λ m. m % 2 ^ 32) y ∙ sym h.w in rw x (ground (arith, z))
  | inr x ↦
      let d : k.r ≢ k.w = λ z.
        (let y =
            marks t.read t.line h.read_line (omega (arith, h.fits, h.line_cursor))
              (sym h.w ∙ sym z ∙ h.r) in
          ground (arith, x, y)) in
      rw x (ground (arith, d))
]

pub next_char :
    (k : Cons) (t : Text)
    → Holds k t
    → t.read < t.line
    → k.buf (k.r % input_buf_size) ≡ t.char t.read
next_char k t h l =
    ap k.buf (ap (λ m. m % input_buf_size) h.r ∙ ring_index t.read)
    ∙ h.chars t.read (omega arith) (omega (arith, h.line_cursor))

pub read_one-Holds :
    (k : Cons) (t : Text)
    → Holds k t
    → t.read < t.line
    → Holds (record k { r = add_uint k.r 1 }) (record t { read = t.read + 1 })
read_one-Holds k t h l = record {
  r = rw h.r (omega arith);
  w = h.w;
  e = h.e;
  read_line = omega arith;
  line_cursor = h.line_cursor;
  fits = omega (arith, h.fits);
  chars = λ i x y. h.chars i (omega arith) y;
  unfinished = h.unfinished;
}

pub put_back : (x c : ℕ) → x ≡ c % 2 ^ 32 → sub_uint (add_uint x 1) 1 ≡ x
put_back x c e = omega arith

pub none-Got :
    (t : Text) (rest : ℕ) (k : Cons) (mark : ℕ)
    → Holds k (record t { read = mark })
    → Got t rest k [] mark
unfolding slice
none-Got t rest k mark h = record {
  holds = h;
  bytes = refl;
  short = omega arith;
  one_line = λ j x y. absurd (omega arith);
  no_eof = λ j x y. absurd (omega arith);
}

-- A byte before those that the rest of a stretch stores.
more-Got :
    (t : Text) (rest : ℕ) (k : Cons) (out : List ℕ) (mark c : ℕ)
    → c ≡ t.char t.read
    → c ≢ newline
    → c ≢ ctrl_d
    → Got (record t { read = t.read + 1 }) rest k out mark
    → Got t (suc rest) k (c ∷ out) mark
unfolding slice
more-Got t rest k out mark c e d eof g = record {
  holds = g.holds;
  bytes = λ m. (e m ∷ g.bytes m);
  short = omega (arith, g.short);
  one_line = λ j x y. elim (ℕ_discrete t.read j) [
    | yes q ↦ λ z. d (e ∙ ap t.char q ∙ z)
    | no q ↦ g.one_line j (omega (arith, q)) (omega arith)
  ];
  no_eof = λ j x y. elim (ℕ_discrete t.read j) [
    | yes q ↦ λ z. eof (e ∙ ap t.char q ∙ z)
    | no q ↦ g.no_eof j (omega (arith, q)) (omega arith)
  ];
}

pub stored-ReadEnds :
    (killed : Bool) (copyout : ℕ → Bool) (t : Text) (rest i c : ℕ) (s : Stretch)
    → c ≡ t.char t.read
    → c ≢ newline
    → c ≢ ctrl_d
    → ReadEnds killed copyout (record t { read = t.read + 1 }) rest (suc i) s
    → ReadEnds killed copyout t (suc rest) i (stored c s)
unfolding stored ReadEnds
stored-ReadEnds killed copyout t rest i c (returned k out (count m)) e d f (mark, g, n, w) = (
  mark,
  more-Got t rest k out mark c e d f g,
  omega arith,
  Why-suc copyout t rest i (length out) mark w,
)
stored-ReadEnds killed copyout t rest i c (returned k out fail) e d f (g, m, l, dead) =
    (more-Got t rest k out t.line c e d f g, omega arith, omega arith, dead)
stored-ReadEnds killed copyout t rest i c (asleep k out j) e d f (g, m, l, live, r) =
    (more-Got t rest k out t.line c e d f g, omega arith, omega arith, live, omega arith)

-- The last byte of a line.
pub last-Got :
    (t : Text) (rest : ℕ) (k : Cons) (c : ℕ)
    → c ≡ t.char t.read
    → c ≢ ctrl_d
    → Holds k (record t { read = t.read + 1 })
    → Got t (suc rest) k (c ∷ []) (t.read + 1)
unfolding slice
last-Got t rest k c e eof h = record {
  holds = h;
  bytes = λ m. (e m ∷ []);
  short = omega arith;
  one_line = λ j x y. absurd (omega arith);
  no_eof = λ j x y. let q : t.read ≡ j = omega arith in λ z. eof (e ∙ ap t.char q ∙ z);
}
