-- ===== src/Printf/Digits.antt =====
-- kernel/printf.c: the digits that `printint` puts out, and the room that they need.
use zept_os.Prelude.{
  ℕ, zero, suc, ◌+◌, ◌-◌, ◌*◌, ◌/◌, ◌%◌, ◌^◌, ◌≤◌, ◌<◌, ◌≡◌, ◌≢◌, ◌∙◌, ap, sym, refl, ◌⊎◌, inl, inr,
  true, false, Option, none, some, List, [], ◌∷◌, ◌++◌, append_assoc, arith, ltb, ◌==◌,
  if◌then◌else◌, Bool-cases, length, length-append, ℕ_discrete,
}
use zept_os.Printf.{digit, store, digit_loop}
use mathlib.Core.Path.{subst}
use native.Mathlib.Omega.{pow_step}

abbrev pub digit_value : ℕ → ℕ
digit_value c = if ltb c 97 then c - 48 else c - 87

-- One of the characters 0 to 9 and a to f, with a value below the base.
abbrev pub IsDigit : (base c : ℕ) → Type 0
IsDigit base c = (((48 ≤ c) × (c ≤ 57)) ⊎ ((97 ≤ c) × (c ≤ 102))) × (digit_value c < base)

abbrev pub AllDigits : (base : ℕ) → List ℕ → Type 0
AllDigits base [] = Unit
AllDigits base (c ∷ cs) = IsDigit base c × AllDigits base cs

-- The number that the digits stand for, after `acc`.
abbrev pub value : (base acc : ℕ) → List ℕ → ℕ
value base acc [] = acc
value base acc (c ∷ cs) = value base (acc * base + digit_value c) cs

-- The bases of the directives.
abbrev pub IsBase : ℕ → Type 0
IsBase base = (base ≡ 10) ⊎ (base ≡ 16)

value_append :
    (base acc : ℕ) (cs : List ℕ) (c : ℕ)
    → value base acc (cs ++ (c ∷ [])) ≡ value base acc cs * base + digit_value c
value_append base acc [] c = refl
value_append base acc (d ∷ cs) c = value_append base (acc * base + digit_value d) cs c

digit_value-digit : (base x : ℕ) → IsBase base → digit_value (digit (x % base)) ≡ x % base
digit_value-digit base x (inl e) = rw e (ground arith)
digit_value-digit base x (inr e) = rw e (ground arith)

digit-IsDigit : (base x : ℕ) → IsBase base → IsDigit base (digit (x % base))
unfolding digit
digit-IsDigit base x (inl e) = rw e (ground arith, ground arith)
digit-IsDigit base x (inr e) = rw e (ground arith, ground arith)

AllDigits-append :
    (base c : ℕ) (cs : List ℕ)
    → AllDigits base cs
    → IsDigit base c
    → AllDigits base (cs ++ (c ∷ []))
AllDigits-append base c [] a d = (d, tt)
AllDigits-append base c (x ∷ cs) a d = (a.0, AllDigits-append base c cs a.1 d)

ten : (k x : ℕ) → ((x < 10 ^ suc k) × (x / 10 < 10 ^ k)) ⊎ ((10 ^ suc k ≤ x) × (10 ^ k ≤ x / 10))
ten k x = elim (Bool-cases (ltb x (10 ^ suc k))) [
  | inl h ↦ let h' : x < 10 ^ suc k = ground (arith, h) in inl (h', omega (arith, pow_step 10 k))
  | inr h ↦ let h' : 10 ^ suc k ≤ x = ground (arith, h) in inr (h', omega (arith, pow_step 10 k))
]

sixteen :
    (k x : ℕ) → ((x < 16 ^ suc k) × (x / 16 < 16 ^ k)) ⊎ ((16 ^ suc k ≤ x) × (16 ^ k ≤ x / 16))
sixteen k x = elim (Bool-cases (ltb x (16 ^ suc k))) [
  | inl h ↦ let h' : x < 16 ^ suc k = ground (arith, h) in inl (h', omega (arith, pow_step 16 k))
  | inr h ↦ let h' : 16 ^ suc k ≤ x = ground (arith, h) in inr (h', omega (arith, pow_step 16 k))
]

div_pow :
    (base k x : ℕ)
    → IsBase base
    → ((x < base ^ suc k) × (x / base < base ^ k)) ⊎ ((base ^ suc k ≤ x) × (base ^ k ≤ x / base))
div_pow base k x (inl e) = rw e (ten k x)
div_pow base k x (inr e) = rw e (sixteen k x)

last_digit : (base x : ℕ) → IsBase base → x / base * base + x % base ≡ x
last_digit base x (inl e) = rw e (omega arith)
last_digit base x (inr e) = rw e (omega arith)

one_digit : (base x : ℕ) → IsBase base → x / base ≡ 0 → (x % base ≡ x) × (x < base ^ 1)
one_digit base x (inl e) = rw e (λ h. (omega arith, omega arith))
one_digit base x (inr e) = rw e (λ h. (omega arith, omega arith))

more_digits : (base x : ℕ) → IsBase base → x / base ≢ 0 → base ^ 1 ≤ x
more_digits base x (inl e) = rw e (λ h. omega arith)
more_digits base x (inr e) = rw e (λ h. omega arith)

pub store_full : (c : ℕ) (buf : List ℕ) → length buf ≡ 16 → store c buf ≡ none
unfolding store
store_full c buf h = rw h refl

pub store_room : (c : ℕ) (buf : List ℕ) → length buf < 16 → store c buf ≡ some (c ∷ buf)
unfolding store
store_room c buf h = let e : ltb (length buf) 16 ≡ true = ground (arith, h) in rw e refl

loop_full :
    (fuel base x : ℕ) (buf : List ℕ) → length buf ≡ 16 → digit_loop (suc fuel) base x buf ≡ none
unfolding digit_loop
loop_full fuel base x buf h = rw (store_full (digit (x % base)) buf h) refl

loop_last :
    (fuel base x : ℕ) (buf : List ℕ)
    → length buf < 16
    → x / base ≡ 0
    → digit_loop (suc fuel) base x buf ≡ some (digit (x % base) ∷ buf)
unfolding digit_loop
loop_last fuel base x buf h z = rw (store_room (digit (x % base)) buf h, z) refl

loop_more :
    (fuel base x : ℕ) (buf : List ℕ)
    → length buf < 16
    → x / base ≢ 0
    → digit_loop (suc fuel) base x buf ≡ digit_loop fuel base (x / base) (digit (x % base) ∷ buf)
unfolding digit_loop
loop_more fuel base x buf h z =
    let e : (x / base == 0) ≡ false = ground (arith, z) in
    rw (store_room (digit (x % base)) buf h, e) refl

-- Digits of `x` in a base, the first of them not 0 unless it is the only one.
abbrev pub IsShort : (base x : ℕ) → List ℕ → Type 0
IsShort base x ds =
    (n : ℕ) × (length ds ≡ suc n)
    × (x < base ^ suc n)
    × ((n ≡ 0) ⊎ (base ^ n ≤ x))
    × (value base 0 ds ≡ x)
    × AllDigits base ds

-- The digits of `x` in front of `buf`, if they fit in the `room` that is left.
abbrev pub Digits : (base x room : ℕ) (buf : List ℕ) → Option (List ℕ) → Type 0
Digits base x room buf result =
    ((ds : List ℕ) × IsShort base x ds
      × (x < base ^ room)
      × (result ≡ some (ds ++ buf))
      × (length ds ≤ room))
    ⊎ ((base ^ room ≤ x) × (result ≡ none))

pow_pos : (base k : ℕ) → IsBase base → 0 < base ^ k
pow_pos base zero (inl e) = rw e (omega arith)
pow_pos base zero (inr e) = rw e (omega arith)
pow_pos base (suc k) (inl e) = rw e (omega (arith, pow_pos 10 k (inl refl), pow_step 10 k))
pow_pos base (suc k) (inr e) = rw e (omega (arith, pow_pos 16 k (inr refl), pow_step 16 k))

-- The last round.
Digits-last :
    (k fuel base x : ℕ) (buf : List ℕ)
    → IsBase base
    → length buf < 16
    → x / base ≡ 0
    → Digits base x (suc k) buf (digit_loop (suc fuel) base x buf)
Digits-last k fuel base x buf b l z =
    let (v, one) = one_digit base x b z in
    let small : x < base ^ suc k = (elim (div_pow base k x b) [
      | inl (h, _) ↦ h
      | inr (_, g) ↦ absurd (omega (arith, pow_pos base k b, g, z))
    ]) in
    inl (
      digit (x % base) ∷ [],
      (
        0,
        refl,
        one,
        inl refl,
        zero_times base (digit_value (digit (x % base))) ∙ digit_value-digit base x b ∙ v,
        (digit-IsDigit base x b, tt),
      ),
      small,
      loop_last fuel base x buf l z,
      omega arith,
    )
  where
    zero_times : (base n : ℕ) → 0 * base + n ≡ n
    zero_times base n = omega arith

pow_down : (base k x : ℕ) → IsBase base → x / base < base ^ k → x < base ^ suc k
pow_down base k x b h = elim (div_pow base k x b) [
  | inl (g, _) ↦ g
  | inr (_, g) ↦ absurd (omega (arith, g, h))
]

pow_up : (base k x : ℕ) → IsBase base → base ^ k ≤ x / base → base ^ suc k ≤ x
pow_up base k x b h = elim (div_pow base k x b) [
  | inl (_, g) ↦ absurd (omega (arith, g, h))
  | inr (g, _) ↦ g
]

-- One more digit behind the digits of `x / base`.
IsShort-append :
    (base x : ℕ) (ds : List ℕ)
    → IsBase base
    → x / base ≢ 0
    → IsShort base (x / base) ds
    → IsShort base x (ds ++ (digit (x % base) ∷ []))
IsShort-append base x ds b z (n, len, below, above, v, all) = (
  suc n,
  omega (arith, length-append ds (digit (x % base) ∷ []), len),
  pow_down base (suc n) x b below,
  inr (elim above [
    | inl e ↦ subst (λ m. base ^ suc m ≤ x) (sym e) (more_digits base x b z)
    | inr g ↦ pow_up base n x b g
  ]),
  value_append base 0 ds (digit (x % base))
      ∙ ap (λ m. m * base + digit_value (digit (x % base))) v
      ∙ ap (λ m. x / base * base + m) (digit_value-digit base x b)
      ∙ last_digit base x b,
  AllDigits-append base (digit (x % base)) ds all (digit-IsDigit base x b),
)

-- A round before others.
Digits-more :
    (k base x : ℕ) (buf : List ℕ) (result : Option (List ℕ))
    → IsBase base
    → x / base ≢ 0
    → Digits base (x / base) (suc k) (digit (x % base) ∷ buf) result
    → Digits base x (suc (suc k)) buf result
Digits-more k base x buf result b z (inl (ds, s, h, e, l)) = inl (
  ds ++ (digit (x % base) ∷ []),
  IsShort-append base x ds b z s,
  pow_down base (suc k) x b h,
  e ∙ ap some (sym (append_assoc ds (digit (x % base) ∷ []) buf)),
  omega (arith, length-append ds (digit (x % base) ∷ []), l),
)
Digits-more k base x buf result b z (inr (h, e)) = inr (pow_up base (suc k) x b h, e)

pub digit_loop-Digits :
    (k fuel base x : ℕ) (buf : List ℕ)
    → IsBase base
    → length buf + suc k ≡ 16
    → suc k < fuel
    → Digits base x (suc k) buf (digit_loop fuel base x buf)
digit_loop-Digits k zero base x buf b l f = absurd (omega arith)
digit_loop-Digits zero (suc zero) base x buf b l f = absurd (omega arith)
digit_loop-Digits zero (suc (suc fuel)) base x buf b l f = elim (ℕ_discrete (x / base) 0) [
  | yes z ↦ Digits-last zero (suc fuel) base x buf b (omega arith) z
  | no z ↦ inr (
    more_digits base x b z,
    loop_more (suc fuel) base x buf (omega arith) z
        ∙ loop_full fuel base (x / base) (digit (x % base) ∷ buf) (omega arith),
  )
]
digit_loop-Digits (suc k) (suc fuel) base x buf b l f = elim (ℕ_discrete (x / base) 0) [
  | yes z ↦ Digits-last (suc k) fuel base x buf b (omega arith) z
  | no z ↦
      subst (Digits base x (suc (suc k)) buf) (sym (loop_more fuel base x buf (omega arith) z)) (
        Digits-more k base x buf _ b z (
          digit_loop-Digits k fuel base (x / base) (digit (x % base) ∷ buf) b (omega arith)
            (omega arith)))
]

suc_add : (n k : ℕ) → suc n + k ≡ suc (n + k)
suc_add n k = omega arith

pub pow_le : (base k n : ℕ) → IsBase base → base ^ k ≤ base ^ (n + k)
pow_le base k zero b = rw (zero_add k) (omega arith)
  where
    zero_add : (k : ℕ) → 0 + k ≡ k
    zero_add k = omega arith
pow_le base k (suc n) (inl e) =
    rw (e, suc_add n k) (omega (arith, pow_le 10 k n (inl refl), pow_step 10 (n + k)))
pow_le base k (suc n) (inr e) =
    rw (e, suc_add n k) (omega (arith, pow_le 16 k n (inr refl), pow_step 16 (n + k)))
