-- ===== src/Fs/Bits.antt =====
-- kernel/fs.c: the bits of a block of the bitmap.
use zept_os.Prelude.{
  ℕ, zero, suc, ◌+◌, ◌-◌, ◌/◌, ◌%◌, ◌^◌, ◌≤◌, ◌≡◌, ◌≢◌, ◌∙◌, ap, sym, refl, arith, update_self,
  update_other, ℕ_discrete,
}
use native.Mathlib.Omega.{pow_step}
use native.Mathlib.Nat.{div-div-eq-div-mul}
use zept_os.Fs.{bit, mark, unmark}

half : (x j : ℕ) → x / 2 ^ suc j ≡ x / 2 / 2 ^ j
half x j = ap (λ n. x / n) (pow_step 2 j) ∙ sym (div-div-eq-div-mul x 2 (2 ^ j))

set_same : (i x : ℕ) → x / 2 ^ i % 2 ≡ 0 → (x + 2 ^ i) / 2 ^ i % 2 ≡ 1
set_same zero x h = omega arith
set_same (suc i) x h =
    let e : (x + 2 ^ suc i) / 2 ≡ x / 2 + 2 ^ i = omega (arith, pow_step 2 i) in
    ap (λ n. n % 2) (half (x + 2 ^ suc i) i)
    ∙ ap (λ n. n / 2 ^ i % 2) e
    ∙ set_same i (x / 2) (ap (λ n. n % 2) (sym (half x i)) ∙ h)

set_other : (i j x : ℕ) → i ≢ j → x / 2 ^ i % 2 ≡ 0 → (x + 2 ^ i) / 2 ^ j % 2 ≡ x / 2 ^ j % 2
set_other zero zero x n h = absurd (n refl)
set_other zero (suc j) x n h =
    let e : (x + 2 ^ 0) / 2 ≡ x / 2 = omega arith in
    ap (λ m. m % 2) (half (x + 2 ^ 0) j)
    ∙ ap (λ m. m / 2 ^ j % 2) e
    ∙ ap (λ m. m % 2) (sym (half x j))
set_other (suc i) zero x n h = omega (arith, pow_step 2 i)
set_other (suc i) (suc j) x n h =
    let e : (x + 2 ^ suc i) / 2 ≡ x / 2 + 2 ^ i = omega (arith, pow_step 2 i) in
    ap (λ m. m % 2) (half (x + 2 ^ suc i) j)
    ∙ ap (λ m. m / 2 ^ j % 2) e
    ∙ set_other i j (x / 2) (λ d. n (λ k. suc (d k))) (ap (λ m. m % 2) (sym (half x i)) ∙ h)
    ∙ ap (λ m. m % 2) (sym (half x j))

clear_same : (i x : ℕ) → x / 2 ^ i % 2 ≡ 1 → (x - 2 ^ i) / 2 ^ i % 2 ≡ 0
clear_same zero x h = omega arith
clear_same (suc i) x h =
    let e : (x - 2 ^ suc i) / 2 ≡ x / 2 - 2 ^ i = omega (arith, pow_step 2 i) in
    ap (λ n. n % 2) (half (x - 2 ^ suc i) i)
    ∙ ap (λ n. n / 2 ^ i % 2) e
    ∙ clear_same i (x / 2) (ap (λ n. n % 2) (sym (half x i)) ∙ h)

bit_le : (i x : ℕ) → x / 2 ^ i % 2 ≡ 1 → 2 ^ i ≤ x
bit_le zero x h = omega arith
bit_le (suc i) x h =
    omega (arith, pow_step 2 i, bit_le i (x / 2) (ap (λ n. n % 2) (sym (half x i)) ∙ h))

clear_other : (i j x : ℕ) → i ≢ j → x / 2 ^ i % 2 ≡ 1 → (x - 2 ^ i) / 2 ^ j % 2 ≡ x / 2 ^ j % 2
clear_other zero zero x n h = absurd (n refl)
clear_other zero (suc j) x n h =
    let e : (x - 2 ^ 0) / 2 ≡ x / 2 = omega arith in
    ap (λ m. m % 2) (half (x - 2 ^ 0) j)
    ∙ ap (λ m. m / 2 ^ j % 2) e
    ∙ ap (λ m. m % 2) (sym (half x j))
clear_other (suc i) zero x n h = omega (arith, pow_step 2 i, bit_le (suc i) x h)
clear_other (suc i) (suc j) x n h =
    let e : (x - 2 ^ suc i) / 2 ≡ x / 2 - 2 ^ i = omega (arith, pow_step 2 i) in
    ap (λ m. m % 2) (half (x - 2 ^ suc i) j)
    ∙ ap (λ m. m / 2 ^ j % 2) e
    ∙ clear_other i j (x / 2) (λ d. n (λ k. suc (d k))) (ap (λ m. m % 2) (sym (half x i)) ∙ h)
    ∙ ap (λ m. m % 2) (sym (half x j))

pub mark-bit : (bytes : ℕ → ℕ) (bi : ℕ) → bit bytes bi ≡ 0 → bit (mark bytes bi) bi ≡ 1
mark-bit bytes bi h =
    ap (λ n. n / 2 ^ (bi % 8) % 2) (update_self bytes (bi / 8) (bytes (bi / 8) + 2 ^ (bi % 8)))
    ∙ set_same (bi % 8) (bytes (bi / 8)) h

pub mark_other :
    (bytes : ℕ → ℕ) (bi bj : ℕ) → bi ≢ bj → bit bytes bi ≡ 0 → bit (mark bytes bi) bj ≡ bit bytes bj
mark_other bytes bi bj n h = elim (ℕ_discrete (bi / 8) (bj / 8)) [
  | yes d ↦
      let same =
        ap (mark bytes bi) (sym d) ∙ update_self bytes (bi / 8) (bytes (bi / 8) + 2 ^ (bi % 8)) in
      let m : bi % 8 ≢ bj % 8 = λ e. n (omega arith) in
      ap (λ n. n / 2 ^ (bj % 8) % 2) same
      ∙ set_other (bi % 8) (bj % 8) (bytes (bi / 8)) m h
      ∙ ap (λ k. bytes k / 2 ^ (bj % 8) % 2) d
  | no d ↦
      ap (λ n. n / 2 ^ (bj % 8) % 2)
        (update_other bytes (bi / 8) (bytes (bi / 8) + 2 ^ (bi % 8)) (bj / 8) d)
]

pub unmark-bit : (bytes : ℕ → ℕ) (bi : ℕ) → bit bytes bi ≡ 1 → bit (unmark bytes bi) bi ≡ 0
unmark-bit bytes bi h =
    ap (λ n. n / 2 ^ (bi % 8) % 2) (update_self bytes (bi / 8) (bytes (bi / 8) - 2 ^ (bi % 8)))
    ∙ clear_same (bi % 8) (bytes (bi / 8)) h

pub unmark_other :
    (bytes : ℕ → ℕ) (bi bj : ℕ)
    → bi ≢ bj
    → bit bytes bi ≡ 1
    → bit (unmark bytes bi) bj ≡ bit bytes bj
unmark_other bytes bi bj n h = elim (ℕ_discrete (bi / 8) (bj / 8)) [
  | yes d ↦
      let same =
        ap (unmark bytes bi) (sym d) ∙ update_self bytes (bi / 8) (bytes (bi / 8) - 2 ^ (bi % 8)) in
      let m : bi % 8 ≢ bj % 8 = λ e. n (omega arith) in
      ap (λ n. n / 2 ^ (bj % 8) % 2) same
      ∙ clear_other (bi % 8) (bj % 8) (bytes (bi / 8)) m h
      ∙ ap (λ k. bytes k / 2 ^ (bj % 8) % 2) d
  | no d ↦
      ap (λ n. n / 2 ^ (bj % 8) % 2)
        (update_other bytes (bi / 8) (bytes (bi / 8) - 2 ^ (bi % 8)) (bj / 8) d)
]
