-- ===== src/Console.antt =====
-- kernel/console.c: the line editor between the keyboard and `consoleread`.
pub mod Editor
pub mod Typing
pub mod Line
pub mod Reads
mod Tests
use zept_os.Prelude.{
  ℕ, zero, suc, ◌+◌, ◌-◌, ◌*◌, ◌/◌, ◌%◌, ◌^◌, ◌≤◌, ◌<◌, ◌≡◌, ◌≢◌, ◌∙◌, ap, sym, refl, fun_ext, ◌⊎◌,
  inl, inr, ◌↔◌, Bool, true, false, not, ◌&&◌, ◌||◌, Option, none, some, List, [], ◌∷◌, ◌++◌, map,
  append_assoc, append-nil, arith, ltb, leb, ◌==◌, if◌then◌else◌, Bool-cases, Option-cases, length,
  length-append, get_elem?, set, get_or, take, drop, replicate, update, Outcome, ok, panic,
  panic_if, ◌>>=◌, ◌>>◌, >>=-eq-ok, update_cases, update_self, update_other, ℕ_discrete,
}
use zept_os.Pipe.{Ret, fail, count}

abbrev pub input_buf_size : ℕ
input_buf_size = 128

abbrev pub newline : ℕ
newline = 10

-- `C('D')`, `C('H')`, `C('P')`, `C('U')`, and the code that makes `consputc` erase a character.
abbrev pub ctrl_d : ℕ
ctrl_d = 4

abbrev pub ctrl_h : ℕ
ctrl_h = 8

abbrev pub ctrl_p : ℕ
ctrl_p = 16

abbrev pub ctrl_u : ℕ
ctrl_u = 21

abbrev pub backspace : ℕ
backspace = 256

-- `cons`; the indices are `uint`.
pub record Cons : Type 0 where
  pub buf : ℕ → ℕ
  pub r : ℕ
  pub w : ℕ
  pub e : ℕ

-- `uint` arithmetic
abbrev pub add_uint : ℕ → ℕ → ℕ
add_uint a b = (a + b) % 2 ^ 32

abbrev pub sub_uint : ℕ → ℕ → ℕ
sub_uint a b = (a + (2 ^ 32 - b)) % 2 ^ 32

-- The loop of `C('U')`, with `fuel` rounds at most; the characters erased are counted.
unfoldable pub kill_line : (fuel : ℕ) → Cons → Cons × ℕ
kill_line zero k = (k, 0)
kill_line (suc fuel) k =
    let k' = record k { e = sub_uint k.e 1 } in
    let more : Cons × ℕ = kill_line fuel k' in
    if not (k.e == k.w) && not (k.buf (k'.e % input_buf_size) == newline)
    then (more.0, suc more.1)
    else (k, 0)

-- The default case of `consoleintr`: the state, whether `c` was taken, and whether readers are woken.
unfoldable pub take_char : (c : ℕ) → Cons → Cons × Bool × Bool
take_char c k =
    let c' = if c == 13 then newline else c in
    let k' = record k {
      buf = update k.buf (k.e % input_buf_size) (c' % 256);
      e = add_uint k.e 1;
    } in
    let whole = c' == newline || (c' == ctrl_d || sub_uint k'.e k'.r == input_buf_size) in
    if not (c == 0) && ltb (sub_uint k.e k.r) input_buf_size
    then (if whole then record k' { w = k'.e } else k', true, whole)
    else (k, false, false)

-- `consoleintr` on the character `c`: the state, what is given to `consputc`, and whether readers
-- are woken.
unfoldable pub consoleintr : (c : ℕ) → Cons → Cons × List ℕ × Bool
unfolding kill_line take_char
consoleintr c k =
    let (k1, erased) = kill_line (sub_uint k.e k.w) k in
    let (k2, taken, woken) = take_char c k in
    if c == ctrl_p
    then (k, [], false)
    else if c == ctrl_u
    then (k1, replicate erased backspace, false)
    else if c == ctrl_h || c == 127
    then (if k.e == k.w
        then (k, [], false)
        else (record k { e = sub_uint k.e 1 }, backspace ∷ [], false))
    else (k2, if taken then (if c == 13 then newline else c) ∷ [] else [], woken)

-- How a stretch of `consoleread` ends, with the bytes that it stored: it returns, or it sleeps on
-- `&cons.r` with `i` bytes done.
pub data Stretch : Type 0 where
  returned : Cons → List ℕ → Ret → Stretch
  asleep : Cons → List ℕ → (i : ℕ) → Stretch

-- A byte is stored before what a stretch stores.
unfoldable pub stored : ℕ → Stretch → Stretch
stored c (returned k out ret) = returned k (c ∷ out) ret
stored c (asleep k out i) = asleep k (c ∷ out) i

-- The loop of `consoleread` with `rest` bytes to go and `i` done. `killed` is what
-- `killed(myproc())` returns, and `copyout i` tells whether the byte could be stored at `dst + i`.
unfoldable pub consoleread : (killed : Bool) (copyout : ℕ → Bool) (rest i : ℕ) → Cons → Stretch
unfolding stored
consoleread killed copyout zero i k = returned k [] (count i)
consoleread killed copyout (suc rest) i k =
    let c = k.buf (k.r % input_buf_size) in
    let k' = record k { r = add_uint k.r 1 } in
    let more = consoleread killed copyout rest (suc i) k' in
    if k.r == k.w
    then (if killed then returned k [] fail else asleep k [] i)
    else if c == ctrl_d
    then returned (if ltb 0 i then record k' { r = sub_uint k'.r 1 } else k') [] (count i)
    else if not (copyout i)
    then returned k' [] (count i)
    else if c == newline
    then returned k' (c ∷ []) (count (suc i))
    else stored c more
