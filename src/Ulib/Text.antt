-- ===== src/Ulib/Text.antt =====
-- user/ulib.c: comparing strings and reading numbers.
use zept_os.Prelude.{
  ℕ, zero, suc, ◌+◌, ◌-◌, ◌*◌, ◌%◌, ◌^◌, ◌≤◌, ◌<◌, ◌≡◌, ◌≢◌, ◌∙◌, ap, sym, refl, ◌⊎◌, true, false,
  not, ◌&&◌, some, arith, ◌==◌,
}
use zept_os.Prelude.Int.{sub_ℕ}
use zept_os.Strings.{Bytes}
use zept_os.Ulib.{strcmp, is_digit, atoi_loop, atoi}

add_zero : (p : ℕ) → p + 0 ≡ p
add_zero p = omega arith

shift : (p j : ℕ) → p + 1 + j ≡ p + suc j
shift p j = omega arith

-- `strcmp` of two strings compares the bytes at the first place where the strings differ or both end;
-- looking at the bytes up to that place is enough.
pub strcmp_lem :
    (k fuel p q : ℕ) (mem : Bytes)
    → k < fuel
    → ((j : ℕ) → j < k → (mem (p + j) ≢ 0) × (mem (p + j) ≡ mem (q + j)))
    → (mem (p + k) ≡ 0) ⊎ (mem (p + k) ≢ mem (q + k))
    → strcmp fuel p q mem ≡ some (sub_ℕ (mem (p + k)) (mem (q + k)))
unfolding strcmp
strcmp_lem k zero p q mem b same ends = absurd (omega arith)
strcmp_lem zero (suc fuel) p q mem b same ends = rw (stop, add_zero p, add_zero q) refl
  where
    stop : (not (mem p == 0) && (mem p == mem q)) ≡ false
    stop = ground (arith, ends)
strcmp_lem (suc k) (suc fuel) p q mem b same ends =
    rw (go, sym (shift p k), sym (shift q k))
      (strcmp_lem k fuel (p + 1) (q + 1) mem (omega arith)
        (λ j c. rw (shift p j, shift q j) (same (suc j) (omega arith)))
        (rw (shift p k, shift q k) ends))
  where
    go : (not (mem p == 0) && (mem p == mem q)) ≡ true
    go = let h = same 0 (omega arith) in ground (arith, h)

-- The number that the first `k` bytes of a string write in decimal.
unfoldable pub number : Bytes → (s k : ℕ) → ℕ
number mem s zero = 0
number mem s (suc k) = number mem s k * 10 + (mem (s + k) - 48)

-- One more digit, modulo 2^32.
add_digit :
    (n c : ℕ)
    → is_digit c ≡ true
    → (n % 2 ^ 32 * 10 + c + (2 ^ 32 - 48)) % 2 ^ 32 ≡ (n * 10 + (c - 48)) % 2 ^ 32
add_digit n c d = let b : 48 ≤ c = ground (arith, d) in omega arith

atoi_loop-number :
    (rest fuel i m s : ℕ) (mem : Bytes)
    → m ≡ i + rest
    → rest < fuel
    → ((j : ℕ) → j < m → is_digit (mem (s + j)) ≡ true)
    → is_digit (mem (s + m)) ≡ false
    → atoi_loop fuel (number mem s i % 2 ^ 32) (s + i) mem ≡ some (number mem s m % 2 ^ 32)
unfolding atoi_loop number
atoi_loop-number rest zero i m s mem e b digits end = absurd (omega arith)
atoi_loop-number zero (suc fuel) i m s mem e b digits end =
    let d : m ≡ i = omega (arith, e) in rw d (rw (rw d at end) refl)
atoi_loop-number (suc rest) (suc fuel) i m s mem e b digits end =
    rw
      (
        digits i (omega arith),
        add_digit (number mem s i) (mem (s + i)) (digits i (omega arith)),
        place s i,
      )
      (atoi_loop-number rest fuel (suc i) m s mem (omega arith) (omega arith) digits end)
  where
    place : (s i : ℕ) → s + i + 1 ≡ s + suc i
    place s i = omega arith

-- `atoi` of a string that begins with `k` digits and another byte gives the number that the digits
-- write, modulo 2^32; looking at the digits and the byte after them is enough.
pub atoi-number :
    (k fuel s : ℕ) (mem : Bytes)
    → k < fuel
    → ((j : ℕ) → j < k → is_digit (mem (s + j)) ≡ true)
    → is_digit (mem (s + k)) ≡ false
    → atoi fuel s mem ≡ some (number mem s k % 2 ^ 32)
unfolding atoi number
atoi-number k fuel s mem b digits end =
    ap (λ p. atoi_loop fuel 0 p mem) (sym (add_zero s))
    ∙ atoi_loop-number k fuel 0 k s mem (omega arith) b digits end
