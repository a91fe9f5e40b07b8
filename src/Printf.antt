-- ===== src/Printf.antt =====
-- kernel/printf.c: formatted output to the console, as the list of characters that it puts out.
pub mod Digits
pub mod Room
pub mod Formats
mod Tests
use zept_os.Prelude.{
  ℕ, zero, suc, ◌+◌, ◌-◌, ◌*◌, ◌/◌, ◌%◌, ◌^◌, ◌≤◌, ◌<◌, ◌≡◌, ◌≢◌, ◌∙◌, ap, sym, refl, fun_ext, ◌⊎◌,
  inl, inr, ◌↔◌, Bool, true, false, not, ◌&&◌, ◌||◌, Option, none, some, List, [], ◌∷◌, ◌++◌, map,
  append_assoc, append-nil, arith, ltb, leb, ◌==◌, if◌then◌else◌, Bool-cases, Option-cases, length,
  length-append, get_elem?, set, get_or, take, drop, replicate, update, update_cases, update_self,
  update_other, ℕ_discrete,
}

-- What can run over `buf`: none is a store out of its bounds.
infixl 5 ◌>>=◌
abbrev pub ◌>>=◌ {ℓ κ} : {A : Type ℓ} {B : Type κ} → Option A → (A → Option B) → Option B
none >>= k = none
some a >>= k = k a

-- `digits[i]`
abbrev pub digit : ℕ → ℕ
digit i = if ltb i 10 then 48 + i else 87 + i

-- `buf[i++] = c` of `printint`, whose `buf` has 16 bytes; the latest character is first.
unfoldable pub store : (c : ℕ) (buf : List ℕ) → Option (List ℕ)
store c buf = if ltb (length buf) 16 then some (c ∷ buf) else none

-- The loop of `printint`, with `fuel` rounds at most.
unfoldable pub digit_loop : (fuel base x : ℕ) (buf : List ℕ) → Option (List ℕ)
unfolding store
digit_loop zero base x buf = none
digit_loop (suc fuel) base x buf = do
  buf' ← store (digit (x % base)) buf
  let more = digit_loop fuel base (x / base) buf' in if x / base == 0 then some buf' else more

-- `printint` of the 64-bit word `xx`, a `long long`: 2^63 and above are negative. The store of a 17th
-- digit is out of bounds, so 17 rounds are enough.
unfoldable pub printint : (xx base : ℕ) (sign : Bool) → Option (List ℕ)
unfolding digit_loop
printint xx base sign =
    let is_neg = sign && leb (2 ^ 63) xx in
    let x = (if is_neg then (2 ^ 64 - xx) % 2 ^ 64 else xx) in
    (do buf ← digit_loop 17 base x []; if is_neg then store b'-' buf else some buf)

-- The loop of `printptr` with `n` digits to go.
unfoldable pub ptr_loop : (n x : ℕ) → List ℕ
ptr_loop zero x = []
ptr_loop (suc n) x = digit (x / 2 ^ 60) ∷ ptr_loop n (x * 16 % 2 ^ 64)

unfoldable pub printptr : ℕ → List ℕ
unfolding ptr_loop
printptr x = b'0' ∷ b'x' ∷ ptr_loop 16 x

-- `va_arg(ap, int)` of an argument's 64-bit word, as the `long long` parameter of `printint`.
abbrev pub int_arg : ℕ → ℕ
int_arg w = if ltb (w % 2 ^ 32) (2 ^ 31) then w % 2 ^ 32 else w % 2 ^ 32 + (2 ^ 64 - 2 ^ 32)

-- A directive of `printf`: what it puts out, by how much `i` moves past its `%`, and whether it takes
-- the argument. `string` has the characters at an address.
pub record Directive : Type 0 where
  pub out : Option (List ℕ)
  pub moves : ℕ
  pub takes : Bool

unfoldable pub directive : (string : ℕ → List ℕ) (c0 c1 c2 arg : ℕ) → Directive
directive string c0 c1 c2 arg =
    if c0 == b'd'
    then record { out = printint (int_arg arg) 10 true; moves = 1; takes = true }
    else if c0 == b'l' && c1 == b'd'
    then record { out = printint arg 10 true; moves = 2; takes = true }
    else if c0 == b'l' && c1 == b'l' && c2 == b'd'
    then record { out = printint arg 10 true; moves = 3; takes = true }
    else if c0 == b'u'
    then record { out = printint (int_arg arg) 10 false; moves = 1; takes = true }
    else if c0 == b'l' && c1 == b'u'
    then record { out = printint arg 10 false; moves = 2; takes = true }
    else if c0 == b'l' && c1 == b'l' && c2 == b'u'
    then record { out = printint arg 10 false; moves = 3; takes = true }
    else if c0 == b'x'
    then record { out = printint (int_arg arg) 16 false; moves = 1; takes = true }
    else if c0 == b'l' && c1 == b'x'
    then record { out = printint arg 16 false; moves = 2; takes = true }
    else if c0 == b'l' && c1 == b'l' && c2 == b'x'
    then record { out = printint arg 16 false; moves = 3; takes = true }
    else if c0 == b'p'
    then record { out = some (printptr arg); moves = 1; takes = true }
    else if c0 == b's'
    then record {
      out = some (if arg == 0 then b'(' ∷ b'n' ∷ b'u' ∷ b'l' ∷ b'l' ∷ b')' ∷ [] else string arg);
      moves = 1;
      takes = true;
    }
    else if c0 == b'%'
    then record { out = some (b'%' ∷ []); moves = 1; takes = false }
    else if c0 == 0
    then record { out = some []; moves = 0; takes = false }
    else record { out = some (b'%' ∷ c0 ∷ []); moves = 1; takes = false }

-- The character of the format at `i`; its end is a 0.
abbrev pub char_at : (i : ℕ) → List ℕ → ℕ
char_at i [] = 0
char_at zero (c ∷ fmt) = c
char_at (suc i) (c ∷ fmt) = char_at i fmt

-- The loop of `printf` on the rest of the format, of which the first `skip` characters belong to the
-- last directive; `args n` is the `n`th argument, and `taken` of them are used.
unfoldable pub printf_loop :
    (string : ℕ → List ℕ) (args : ℕ → ℕ) (skip taken : ℕ) (fmt : List ℕ) → Option (List ℕ)
unfolding directive
printf_loop string args skip taken [] = some []
printf_loop string args (suc skip) taken (c ∷ fmt) = printf_loop string args skip taken fmt
printf_loop string args zero taken (cx ∷ fmt) =
    let d = directive string (char_at 0 fmt) (char_at 1 fmt) (char_at 2 fmt) (args taken) in
    let plain = (do more ← printf_loop string args 0 taken fmt; some (cx ∷ more)) in
    let converted = (do
      text ← d.out
      more ← printf_loop string args d.moves (if d.takes then taken + 1 else taken) fmt
      some (text ++ more)) in
    if not (cx == b'%') then plain else converted

unfoldable pub printf : (string : ℕ → List ℕ) (fmt : List ℕ) (args : ℕ → ℕ) → Option (List ℕ)
unfolding printf_loop
printf string fmt args = printf_loop string args 0 0 fmt
