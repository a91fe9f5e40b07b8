-- ===== src/Console/Editor.antt =====
-- kernel/console.c: the ring of the console keeps an endless text with three marks.
use zept_os.Prelude.{
  ℕ, zero, suc, ◌+◌, ◌-◌, ◌%◌, ◌^◌, ◌≤◌, ◌<◌, ◌≡◌, ◌≢◌, ◌∙◌, ap, sym, refl, inl, inr, false, not,
  ◌&&◌, ◌||◌, arith, ltb, ◌==◌, if◌then◌else◌, Bool-cases, update,
}
use mathlib.Core.Path.{subst}
use zept_os.Console.{
  Cons, input_buf_size, newline, ctrl_d, ctrl_h, ctrl_p, ctrl_u, sub_uint, kill_line,
}

-- All that was typed, with what has been read, what ended with a whole line, and where the cursor is.
pub record Text : Type 0 where
  pub char : ℕ → ℕ
  pub read : ℕ
  pub line : ℕ
  pub cursor : ℕ

-- A key without the ring: control-u drops the unfinished line, control-h its last character; another
-- character is added while fewer than 128 are unread, and a newline, control-d or a full buffer ends
-- the line.
unfoldable pub type_key : ℕ → Text → Text
type_key c t =
    let c' = if c == 13 then newline else c in
    let t' = record t { char = update t.char t.cursor c'; cursor = t.cursor + 1 } in
    let whole = c' == newline || (c' == ctrl_d || t.cursor + 1 == t.read + input_buf_size) in
    if c == ctrl_p
    then t
    else if c == ctrl_u
    then record t { cursor = t.line }
    else if c == ctrl_h || c == 127
    then record t { cursor = if t.cursor == t.line then t.line else t.cursor - 1 }
    else if not (c == 0) && ltb t.cursor (t.read + input_buf_size)
    then (if whole then record t' { line = t'.cursor } else t')
    else t

-- The ring holds the unread part of the text; its indices are the marks modulo 2^32.
pub record Holds (k : Cons) (t : Text) : Type 0 where
  pub r : k.r ≡ t.read % 2 ^ 32
  pub w : k.w ≡ t.line % 2 ^ 32
  pub e : k.e ≡ t.cursor % 2 ^ 32
  pub read_line : t.read ≤ t.line
  pub line_cursor : t.line ≤ t.cursor
  pub fits : t.cursor ≤ t.read + input_buf_size
  pub chars : (i : ℕ) → t.read ≤ i → i < t.cursor → k.buf (i % input_buf_size) ≡ t.char i
  pub unfinished : (i : ℕ) → t.line ≤ i → i < t.cursor → t.char i ≢ newline

-- The cursor moves back to `c`.
back-Holds :
    (k : Cons) (t : Text) (c : ℕ)
    → t.line ≤ c
    → c ≤ t.cursor
    → Holds k t
    → Holds (record k { e = c % 2 ^ 32 }) (record t { cursor = c })
back-Holds k t c a b h = record {
  r = h.r;
  w = h.w;
  e = refl;
  read_line = h.read_line;
  line_cursor = a;
  fits = omega (arith, h.fits);
  chars = λ i x y. h.chars i x (omega arith);
  unfinished = λ i x y. h.unfinished i x (omega arith);
}

-- One step back of an index.
back_one : (x c : ℕ) → x ≡ c % 2 ^ 32 → 0 < c → sub_uint x 1 ≡ (c - 1) % 2 ^ 32
back_one x c e p = omega arith

-- An index of the ring is a mark modulo its size.
pub ring_index : (c : ℕ) → c % 2 ^ 32 % input_buf_size ≡ c % input_buf_size
ring_index c = omega arith

-- Two marks less than a buffer apart are equal when their indices are.
pub marks : (a b : ℕ) → a ≤ b → b ≤ a + input_buf_size → b % 2 ^ 32 ≡ a % 2 ^ 32 → a ≡ b
marks a b l u e = omega arith

pub cursor_line : (k : Cons) (t : Text) → Holds k t → (k.e == k.w) ≡ (t.cursor == t.line)
cursor_line k t h = elim (Bool-cases (t.cursor == t.line)) [
  | inl x ↦
      let y : t.cursor ≡ t.line = ground (arith, x) in
      let z : k.e ≡ k.w = h.e ∙ ap (λ m. m % 2 ^ 32) y ∙ sym h.w in rw x (ground (arith, z))
  | inr x ↦
      let d : k.e ≢ k.w = λ z.
        (let y =
            marks t.line t.cursor h.line_cursor (omega (arith, h.fits, h.read_line))
              (sym h.e ∙ z ∙ h.w) in
          ground (arith, x, y)) in
      rw x (ground (arith, d))
]

last_char :
    (k : Cons) (t : Text)
    → Holds k t
    → t.line < t.cursor
    → (k.buf (sub_uint k.e 1 % input_buf_size) == newline) ≡ false
last_char k t h l =
    let i =
      ap (λ m. m % input_buf_size) (back_one k.e t.cursor h.e (omega arith))
      ∙ ring_index (t.cursor - 1) in
    let b = ap k.buf i ∙ h.chars (t.cursor - 1) (omega (arith, h.read_line)) (omega arith) in
    let u = h.unfinished (t.cursor - 1) (omega arith) (omega arith) in rw b (ground (arith, u))

pub back_one-Holds :
    (k : Cons) (t : Text)
    → t.line < t.cursor
    → Holds k t
    → Holds (record k { e = sub_uint k.e 1 }) (record t { cursor = t.cursor - 1 })
back_one-Holds k t l h =
    subst (λ x. Holds (record k { e = x }) (record t { cursor = t.cursor - 1 }))
      (sym (back_one k.e t.cursor h.e (omega arith)))
      (back-Holds k t (t.cursor - 1) (omega arith) (omega arith) h)

-- With as many rounds as there are characters, `kill_line` drops the unfinished line.
pub kill_line-Holds :
    (fuel : ℕ) (k : Cons) (t : Text)
    → t.cursor ≡ t.line + fuel
    → Holds k t
    → Holds (kill_line fuel k).0 (record t { cursor = t.line }) × ((kill_line fuel k).1 ≡ fuel)
unfolding kill_line
kill_line-Holds zero k t f h = (
  record {
    r = h.r;
    w = h.w;
    e = h.e ∙ ap (λ m. m % 2 ^ 32) (omega (arith, f));
    read_line = h.read_line;
    line_cursor = omega arith;
    fits = omega (arith, h.fits, h.line_cursor);
    chars = λ i x y. h.chars i x (omega arith);
    unfinished = λ i x y. absurd (omega arith);
  },
  refl,
)
kill_line-Holds (suc fuel) k t f h =
    let more : (k.e == k.w) ≡ false = cursor_line k t h ∙ ground (arith, f) in
    let (x, y) =
      kill_line-Holds fuel (record k { e = sub_uint k.e 1 }) (record t { cursor = t.cursor - 1 })
        (omega arith) (back_one-Holds k t (omega arith) h) in
    rw (more, last_char k t h (omega arith)) (x, ap suc y)

-- The difference of two indices of marks at most a buffer apart.
pub distance :
    (a b : ℕ) → a ≤ b → b ≤ a + input_buf_size → sub_uint (b % 2 ^ 32) (a % 2 ^ 32) ≡ b - a
distance a b l u = omega arith

-- The number of rounds that `consoleintr` gives.
pub length_of_line : (k : Cons) (t : Text) → Holds k t → t.cursor ≡ t.line + sub_uint k.e k.w
length_of_line k t h =
    rw (h.e, h.w, distance t.line t.cursor h.line_cursor (omega (arith, h.fits, h.read_line)))
      (omega (arith, h.line_cursor))
