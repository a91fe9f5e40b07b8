-- ===== src/Ulib.antt =====
-- user/ulib.c: the string functions of user programs that the kernel does not have.
pub mod Text
mod Tests
use zept_os.Prelude.{
  ℕ, zero, suc, ◌+◌, ◌-◌, ◌*◌, ◌/◌, ◌%◌, ◌^◌, ◌≤◌, ◌<◌, ◌≡◌, ◌≢◌, ◌∙◌, ap, sym, refl, fun_ext, ◌⊎◌,
  inl, inr, ◌↔◌, Bool, true, false, not, ◌&&◌, ◌||◌, Option, none, some, List, [], ◌∷◌, ◌++◌, map,
  append_assoc, append-nil, arith, ltb, leb, ◌==◌, if◌then◌else◌, Bool-cases, Option-cases, length,
  length-append, get_elem?, set, get_or, take, drop, replicate, update, Outcome, ok, panic,
  panic_if, ◌>>=◌, ◌>>◌, >>=-eq-ok, ℕ_discrete,
}
use zept_os.Prelude.Int.{ℤ, pos, sub_ℕ}
use zept_os.Strings.{Bytes}

-- `strcpy`, looking at `fuel` bytes at most.
unfoldable pub strcpy : (fuel s t : ℕ) → Bytes → Option Bytes
strcpy zero s t mem = none
strcpy (suc fuel) s t mem =
    let mem' = update mem s (mem t) in
    let more = strcpy fuel (s + 1) (t + 1) mem' in if mem t == 0 then some mem' else more

-- `strcmp`, looking at `fuel` bytes at most.
unfoldable pub strcmp : (fuel p q : ℕ) → Bytes → Option ℤ
strcmp zero p q mem = none
strcmp (suc fuel) p q mem =
    let more = strcmp fuel (p + 1) (q + 1) mem in
    if not (mem p == 0) && (mem p == mem q) then more else some (sub_ℕ (mem p) (mem q))

-- `strchr`, looking at `fuel` bytes at most; 0 is the null pointer.
unfoldable pub strchr : (fuel s c : ℕ) → Bytes → Option ℕ
strchr zero s c mem = none
strchr (suc fuel) s c mem =
    let more = strchr fuel (s + 1) c mem in
    if mem s == 0 then some 0 else if mem s == c then some s else more

abbrev pub is_digit : ℕ → Bool
is_digit c = leb 48 c && leb c 57

-- The loop of `atoi`, looking at `fuel` bytes at most; an `int` is its bit pattern.
unfoldable pub atoi_loop : (fuel n s : ℕ) → Bytes → Option ℕ
atoi_loop zero n s mem = none
atoi_loop (suc fuel) n s mem =
    let more = atoi_loop fuel ((n * 10 + mem s + (2 ^ 32 - 48)) % 2 ^ 32) (s + 1) mem in
    if is_digit (mem s) then more else some n

unfoldable pub atoi : (fuel s : ℕ) → Bytes → Option ℕ
unfolding atoi_loop
atoi fuel s mem = atoi_loop fuel 0 s mem
