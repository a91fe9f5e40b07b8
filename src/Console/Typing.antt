-- ===== src/Console/Typing.antt =====
-- kernel/console.c: what each key does to the ring is what it does to the text.
use zept_os.Prelude.{
  ℕ, ◌+◌, ◌%◌, ◌^◌, ◌≤◌, ◌<◌, ◌≡◌, ◌≢◌, ◌∙◌, ap, sym, refl, inl, inr, Bool, true, false, not, ◌&&◌,
  ◌||◌, arith, ltb, ◌==◌, if◌then◌else◌, Bool-cases, update, update_cases, update_self,
  update_other, ℕ_discrete,
}
use mathlib.Core.Path.{subst}
use zept_os.Console.{
  Cons, input_buf_size, newline, ctrl_h, ctrl_p, ctrl_u, add_uint, sub_uint, take_char, consoleintr,
}
use zept_os.Console.Editor.{
  Text, type_key, Holds, ring_index, distance, length_of_line, kill_line-Holds, cursor_line,
  back_one-Holds,
}

-- The character that the text holds at each place after one is added at the cursor.
added_char :
    (k : Cons) (t : Text) (c i : ℕ)
    → c < 256
    → t.cursor < t.read + input_buf_size
    → Holds k t
    → t.read ≤ i
    → i < t.cursor + 1
    → update k.buf (k.e % input_buf_size) (c % 256) (i % input_buf_size)
      ≡ update t.char t.cursor c i
added_char k t c i b room h low high =
    let index = ap (λ m. m % input_buf_size) h.e ∙ ring_index t.cursor in
    rw index (elim (ℕ_discrete t.cursor i) [
      | yes d ↦ rw (sym d) (
          update_self k.buf (t.cursor % input_buf_size) (c % 256)
          ∙ omega (arith, b)
          ∙ sym (update_self t.char t.cursor c))
      | no d ↦
          update_other k.buf (t.cursor % input_buf_size) (c % 256) (i % input_buf_size)
            (λ e. d (omega (arith, e)))
          ∙ h.chars i low (omega (arith, d))
          ∙ sym (update_other t.char t.cursor c i d)
    ])

-- The text and the ring with a character added, the line not ended or ended.
typed : (c : ℕ) → Text → Text
typed c t = record t { char = update t.char t.cursor c; cursor = t.cursor + 1 }

put : (c : ℕ) → Cons → Cons
put c k = record k { buf = update k.buf (k.e % input_buf_size) (c % 256); e = add_uint k.e 1 }

next_index : (x c : ℕ) → x ≡ c % 2 ^ 32 → add_uint x 1 ≡ (c + 1) % 2 ^ 32
next_index x c e = omega arith

put-Holds :
    (c : ℕ) (k : Cons) (t : Text)
    → c < 256
    → c ≢ newline
    → t.cursor < t.read + input_buf_size
    → Holds k t
    → Holds (put c k) (typed c t)
unfolding put typed
put-Holds c k t b d room h = record {
  r = h.r;
  w = h.w;
  e = next_index k.e t.cursor h.e;
  read_line = h.read_line;
  line_cursor = omega (arith, h.line_cursor);
  fits = omega arith;
  chars = λ i x y. added_char k t c i b room h x y;
  unfinished = λ i x y.
      update_cases (λ v. i < t.cursor + 1 → v ≢ newline) t.char t.cursor c i (λ e z. d)
        (λ e z. h.unfinished i x (omega (arith, z, e))) y;
}

end_line-Holds :
    (c : ℕ) (k : Cons) (t : Text)
    → c < 256
    → t.cursor < t.read + input_buf_size
    → Holds k t
    → Holds (record (put c k) { w = (put c k).e }) (record (typed c t) { line = t.cursor + 1 })
unfolding put typed
end_line-Holds c k t b room h = record {
  r = h.r;
  w = next_index k.e t.cursor h.e;
  e = next_index k.e t.cursor h.e;
  read_line = omega (arith, h.read_line, h.line_cursor);
  line_cursor = omega arith;
  fits = omega arith;
  chars = λ i x y. added_char k t c i b room h x y;
  unfinished = λ i x y. absurd (omega arith);
}

has_room :
    (k : Cons) (t : Text)
    → Holds k t
    → ltb (sub_uint k.e k.r) input_buf_size ≡ ltb t.cursor (t.read + input_buf_size)
has_room k t h =
    rw (h.e, h.r, distance t.read t.cursor (omega (arith, h.read_line, h.line_cursor)) h.fits)
      (let a = h.read_line in let b = h.line_cursor in ground arith)

is_full :
    (k : Cons) (t : Text)
    → Holds k t
    → t.cursor < t.read + input_buf_size
    → (sub_uint (add_uint k.e 1) k.r == input_buf_size) ≡ (t.cursor + 1 == t.read + input_buf_size)
is_full k t h room =
    rw
      (
        next_index k.e t.cursor h.e,
        h.r,
        distance t.read (t.cursor + 1) (omega (arith, h.read_line, h.line_cursor)) (omega arith),
      )
      (let a = h.read_line in let b = h.line_cursor in ground arith)

end_cases :
    (c : ℕ) (k : Cons) (t : Text) (whole : Bool)
    → c < 256
    → t.cursor < t.read + input_buf_size
    → (whole ≡ false → c ≢ newline)
    → Holds k t
    → Holds
        (if whole then record (put c k) { w = (put c k).e } else put c k)
        (if whole then record (typed c t) { line = t.cursor + 1 } else typed c t)
end_cases c k t true b room d h = end_line-Holds c k t b room h
end_cases c k t false b room d h = put-Holds c k t b (d refl) room h

-- The character that a key stands for.
abbrev key_char : ℕ → ℕ
key_char c = if c == 13 then newline else c

key_char-lt : (c : ℕ) → c < 256 → key_char c < 256
key_char-lt c b = ground (arith, b)

other_key :
    (c : ℕ) (k : Cons) (t : Text)
    → c < 256
    → (c == ctrl_p) ≡ false
    → (c == ctrl_u) ≡ false
    → (c == ctrl_h || c == 127) ≡ false
    → Holds k t
    → Holds (take_char c k).0 (type_key c t)
unfolding take_char type_key put typed
other_key c k t b p u d h =
    rw (p, u, d, has_room k t h)
      (elim (Bool-cases (not (c == 0) && ltb t.cursor (t.read + input_buf_size))) [
        | inr full ↦ rw full h
        | inl more ↦
            let room : t.cursor < t.read + input_buf_size = ground (arith, more) in
            rw (more, is_full k t h room)
              (end_cases (key_char c) k t _ (key_char-lt c b) room (λ e. ground (arith, e)) h)
      ])

other_case :
    (c : ℕ) (k : Cons)
    → (c == ctrl_p) ≡ false
    → (c == ctrl_u) ≡ false
    → (c == ctrl_h || c == 127) ≡ false
    → (consoleintr c k).0 ≡ (take_char c k).0
unfolding consoleintr
other_case c k p u d = rw (p, u, d) refl

erase_case :
    (c : ℕ) (k : Cons) (t : Text)
    → (c == ctrl_p) ≡ false
    → (c == ctrl_u) ≡ false
    → (c == ctrl_h || c == 127) ≡ true
    → Holds k t
    → Holds (consoleintr c k).0 (type_key c t)
unfolding consoleintr type_key
erase_case c k t p u d h =
    rw (p, u, d, cursor_line k t h)
      (elim (Bool-cases (t.cursor == t.line)) [
        | inl x ↦
            let e : t.cursor ≡ t.line = ground (arith, x) in
            rw x (subst (λ m. Holds k (record t { cursor = m })) e h)
        | inr x ↦ rw x (back_one-Holds k t (let l = h.line_cursor in ground (arith, x, l)) h)
      ])

kill_case :
    (c : ℕ) (k : Cons) (t : Text)
    → (c == ctrl_p) ≡ false
    → (c == ctrl_u) ≡ true
    → Holds k t
    → Holds (consoleintr c k).0 (type_key c t)
unfolding consoleintr type_key
kill_case c k t p u h =
    rw (p, u) (kill_line-Holds (sub_uint k.e k.w) k t (length_of_line k t h) h).0

print_case :
    (c : ℕ) (k : Cons) (t : Text)
    → (c == ctrl_p) ≡ true
    → Holds k t
    → Holds (consoleintr c k).0 (type_key c t)
unfolding consoleintr type_key
print_case c k t p h = rw p h

-- When the ring holds a text, it holds the text with the key typed after `consoleintr` of the key:
-- control-u drops the unfinished line, control-h or delete its last character, and another character
-- is added while fewer than 128 are unread; a newline, control-d or a full buffer ends the line.
pub consoleintr-Holds :
    (c : ℕ) (k : Cons) (t : Text) → c < 256 → Holds k t → Holds (consoleintr c k).0 (type_key c t)
consoleintr-Holds c k t b h = elim (Bool-cases (c == ctrl_p)) [
  | inl p ↦ print_case c k t p h
  | inr p ↦ elim (Bool-cases (c == ctrl_u)) [
    | inl u ↦ kill_case c k t p u h
    | inr u ↦ elim (Bool-cases (c == ctrl_h || c == 127)) [
      | inl d ↦ erase_case c k t p u d h
      | inr d ↦
          subst (λ x. Holds x (type_key c t)) (sym (other_case c k p u d))
            (other_key c k t b p u d h)
    ]
  ]
]
