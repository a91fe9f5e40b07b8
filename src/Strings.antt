-- ===== src/Strings.antt =====
-- kernel/string.c over the bytes of memory.
pub mod Move
pub mod Names
mod Tests
use zept_os.Prelude.{
  ℕ, zero, suc, ◌+◌, ◌-◌, ◌*◌, ◌/◌, ◌%◌, ◌^◌, ◌≤◌, ◌<◌, ◌≡◌, ◌≢◌, ◌∙◌, ap, sym, refl, fun_ext, ◌⊎◌,
  inl, inr, ◌↔◌, Bool, true, false, not, ◌&&◌, ◌||◌, Option, none, some, List, [], ◌∷◌, ◌++◌, map,
  append_assoc, append-nil, arith, ltb, leb, ◌==◌, if◌then◌else◌, Bool-cases, Option-cases, length,
  length-append, get_elem?, set, get_or, take, drop, replicate, update, Outcome, ok, panic,
  panic_if, ◌>>=◌, ◌>>◌, >>=-eq-ok,
}
use zept_os.Prelude.Int.{ℤ, pos, sub_ℕ}

-- Memory by bytes, as `uchar`.
abbrev pub Bytes : Type 0
Bytes = ℕ → ℕ

-- `memset`: `c` is stored as a byte.
unfoldable pub memset : (dst c n : ℕ) → Bytes → Bytes
memset dst c zero mem = mem
memset dst c (suc n) mem = memset (dst + 1) c n (update mem dst (c % 256))

unfoldable pub memcmp : (s1 s2 n : ℕ) → Bytes → ℤ
memcmp s1 s2 zero mem = pos 0
memcmp s1 s2 (suc n) mem =
    let rest = memcmp (s1 + 1) (s2 + 1) n mem in
    if mem s1 == mem s2 then rest else sub_ℕ (mem s1) (mem s2)

-- `while(n-- > 0) *d++ = *s++;`
unfoldable pub copy_up : (d s n : ℕ) → Bytes → Bytes
copy_up d s zero mem = mem
copy_up d s (suc n) mem = copy_up (d + 1) (s + 1) n (update mem d (mem s))

-- `while(n-- > 0) *--d = *--s;` from `d + n` and `s + n`
unfoldable pub copy_down : (d s n : ℕ) → Bytes → Bytes
copy_down d s zero mem = mem
copy_down d s (suc n) mem = copy_down d s n (update mem (d + n) (mem (s + n)))

-- `memmove`, and `memcpy`, which calls it.
unfoldable pub memmove : (dst src n : ℕ) → Bytes → Bytes
unfolding copy_up copy_down
memmove dst src n mem =
    if n == 0
    then mem
    else if ltb src dst && ltb dst (src + n)
    then copy_down dst src n mem
    else copy_up dst src n mem

unfoldable pub strncmp : (p q n : ℕ) → Bytes → ℤ
strncmp p q zero mem = pos 0
strncmp p q (suc n) mem =
    let rest = strncmp (p + 1) (q + 1) n mem in
    if not (mem p == 0) && (mem p == mem q) then rest else sub_ℕ (mem p) (mem q)

-- `while(n-- > 0) *s++ = 0;`
unfoldable pub pad : (s n : ℕ) → Bytes → Bytes
pad s zero mem = mem
pad s (suc n) mem = pad (s + 1) n (update mem s 0)

unfoldable pub strncpy : (s t n : ℕ) → Bytes → Bytes
unfolding pad
strncpy s t zero mem = mem
strncpy s t (suc n) mem =
    let mem' = update mem s (mem t) in
    let more = strncpy (s + 1) (t + 1) n mem' in if mem t == 0 then pad (s + 1) n mem' else more

-- The loop of `safestrcpy` with `left` bytes that may be copied, and the final NUL.
unfoldable pub safe_copy : (s t left : ℕ) → Bytes → Bytes
safe_copy s t zero mem = update mem s 0
safe_copy s t (suc left) mem =
    let mem' = update mem s (mem t) in
    let more = safe_copy (s + 1) (t + 1) left mem' in
    if mem t == 0 then update mem' (s + 1) 0 else more

unfoldable pub safestrcpy : (s t n : ℕ) → Bytes → Bytes
unfolding safe_copy
safestrcpy s t n mem = if n == 0 then mem else safe_copy s t (n - 1) mem

-- `strlen`, looking at `fuel` bytes at most.
unfoldable pub strlen : (fuel s : ℕ) → Bytes → Option ℕ
strlen zero s mem = none
strlen (suc fuel) s mem =
    let rest : Option ℕ = elim (strlen fuel (s + 1) mem) [ none ↦ none | some n ↦ some (suc n) ] in
    if mem s == 0 then some 0 else rest
