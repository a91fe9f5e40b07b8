-- ===== src/Printf/Room.antt =====
-- kernel/printf.c: when the 16 bytes of `printint` are enough, and what `printf` then puts out.
use zept_os.Prelude.{
  ℕ, suc, ◌+◌, ◌-◌, ◌%◌, ◌^◌, ◌≤◌, ◌<◌, ◌≡◌, ◌∙◌, ap, sym, refl, ◌⊎◌, inl, inr, Bool, true, false,
  ◌&&◌, Option, none, some, List, [], ◌∷◌, append-nil, arith, ltb, leb, if◌then◌else◌, Bool-cases,
  length,
}
use mathlib.Core.Path.{subst}
use zept_os.Printf.{◌>>=◌, store, digit_loop, printint, int_arg}
use zept_os.Printf.Digits.{
  IsBase, IsShort, Digits, digit_loop-Digits, store_full, store_room, pow_le,
}

-- The sign and the magnitude of a `long long`.
abbrev pub is_negative : (xx : ℕ) (sign : Bool) → Bool
is_negative xx sign = sign && leb (2 ^ 63) xx

abbrev pub magnitude : (xx : ℕ) (sign : Bool) → ℕ
magnitude xx sign = if is_negative xx sign then (2 ^ 64 - xx) % 2 ^ 64 else xx

-- The digits that fit into `buf`.
abbrev pub digits_room : (neg : Bool) → ℕ
digits_room neg = if neg then 15 else 16

abbrev pub with_sign : (neg : Bool) → List ℕ → List ℕ
with_sign neg ds = if neg then b'-' ∷ ds else ds

-- The outcome of `printint` for a number: its digits after its sign, if they fit.
abbrev pub Prints : (neg : Bool) (x base : ℕ) → Option (List ℕ) → Type 0
Prints neg x base result =
    ((ds : List ℕ) × (x < base ^ digits_room neg)
      × (result ≡ some (with_sign neg ds))
      × IsShort base x ds)
    ⊎ ((base ^ digits_room neg ≤ x) × (result ≡ none))

abbrev finish : Bool → Option (List ℕ) → Option (List ℕ)
finish neg digits = digits >>= λ buf. if neg then store b'-' buf else some buf

printint-finish :
    (xx base : ℕ) (sign : Bool)
    → printint xx base sign
      ≡ finish (is_negative xx sign) (digit_loop 17 base (magnitude xx sign) [])
unfolding printint
printint-finish xx base sign = refl

-- A minus sign after the digits, if there is room for it.
minus :
    (base x : ℕ) (ds : List ℕ)
    → IsBase base
    → IsShort base x ds
    → length ds ≤ 16
    → ((x < base ^ 15) × (store b'-' ds ≡ some (b'-' ∷ ds)))
      ⊎ ((base ^ 15 ≤ x) × (store b'-' ds ≡ none))
minus base x ds b (n, len, below, above, v, _) l = elim (Bool-cases (ltb n 15)) [
  | inl h ↦
      let h' : n < 15 = ground (arith, h) in
      let le = pow_le base (suc n) (14 - n) b in
      let e : 14 - n + suc n ≡ 15 = omega arith in
      let le' = subst (λ m. base ^ suc n ≤ base ^ m) e le in
      inl (omega (arith, below, le'), store_room b'-' ds (omega (arith, h', len)))
  | inr h ↦
      let e : n ≡ 15 = ground (arith, h, len, l) in
      inr (
        (elim above [
          | inl z ↦ absurd (omega (arith, z, e))
          | inr g ↦ subst (λ m. base ^ m ≤ x) e g
        ]),
        store_full b'-' ds (omega (arith, len, e)),
      )
]

more_room : (base : ℕ) → IsBase base → base ^ 15 ≤ base ^ 16
more_room base b = pow_le base 15 1 b

Digits-finish :
    (neg : Bool) (x base : ℕ) (result : Option (List ℕ))
    → IsBase base
    → Digits base x 16 [] result
    → Prints neg x base (finish neg result)
Digits-finish false x base result b (inl (ds, s, h, e, l)) =
    inl (ds, h, rw e (ap some (append-nil ds)), s)
Digits-finish false x base result b (inr (h, e)) = inr (h, rw e refl)
Digits-finish true x base result b (inl (ds, s, h, e, l)) =
    let e' = e ∙ ap some (append-nil ds) in
    elim (minus base x ds b s l) [
      | inl (g, f) ↦ inl (ds, g, rw (e', f) refl, s)
      | inr (g, f) ↦ inr (g, rw (e', f) refl)
    ]
Digits-finish true x base result b (inr (h, e)) =
    inr (omega (arith, h, more_room base b), rw e refl)

-- `printint` in base 10 or 16 puts out the digits of the number, characters 0 to 9 and a to f with
-- values below the base, the first of them not 0 unless it is
-- the only one, after a minus sign if the number is negative, exactly when they fit into its 16 bytes:
-- 16 digits, or 15 and the sign. For any other number it stores past `buf`.
pub printint-Prints :
    (xx base : ℕ) (sign : Bool)
    → IsBase base
    → Prints (is_negative xx sign) (magnitude xx sign) base (printint xx base sign)
printint-Prints xx base sign b =
    subst (Prints (is_negative xx sign) (magnitude xx sign) base)
      (sym (printint-finish xx base sign))
      (Digits-finish (is_negative xx sign) (magnitude xx sign) base _ b
        (digit_loop-Digits 15 17 base (magnitude xx sign) [] b (omega arith) (omega arith)))

fits :
    (neg : Bool) (x base : ℕ) (result : Option (List ℕ))
    → x < base ^ digits_room neg
    → Prints neg x base result
    → (text : List ℕ) × (result ≡ some text)
fits neg x base result h (inl (ds, _, e, _)) = (with_sign neg ds, e)
fits neg x base result h (inr (g, _)) = absurd (omega (arith, g, h))

over :
    (neg : Bool) (x base : ℕ) (result : Option (List ℕ))
    → base ^ digits_room neg ≤ x
    → Prints neg x base result
    → result ≡ none
over neg x base result h (inl (ds, g, _, _)) = absurd (omega (arith, g, h))
over neg x base result h (inr (_, e)) = e

int_room : (w : ℕ) → magnitude (int_arg w) true < 10 ^ digits_room (is_negative (int_arg w) true)
int_room w = elim (Bool-cases (ltb (w % 2 ^ 32) (2 ^ 31))) [
  | inl e ↦ let z : leb (2 ^ 63) (w % 2 ^ 32) ≡ false = ground arith in rw (e, z) (omega arith)
  | inr e ↦
      let z : leb (2 ^ 63) (w % 2 ^ 32 + (2 ^ 64 - 2 ^ 32)) ≡ true = ground (arith, e) in
      rw (e, z) (ground (arith, e))
]

hex_room : (w : ℕ) → magnitude (int_arg w) false < 16 ^ 16
hex_room w = ground arith

pub int_decimal : (w : ℕ) → (text : List ℕ) × (printint (int_arg w) 10 true ≡ some text)
int_decimal w =
    fits (is_negative (int_arg w) true) (magnitude (int_arg w) true) 10 _ (int_room w)
      (printint-Prints (int_arg w) 10 true (inl refl))

pub int_hexadecimal : (w : ℕ) → (text : List ℕ) × (printint (int_arg w) 16 false ≡ some text)
int_hexadecimal w =
    fits false (magnitude (int_arg w) false) 16 _ (hex_room w)
      (printint-Prints (int_arg w) 16 false (inr refl))

-- `%u` prints an `int` that is not negative. A negative one is extended to 64 bits, and its 20 digits
-- are stored past the 16 bytes of `buf`; so is a number of `%lu` from 10^16 on.
pub printint_unsigned :
    (w : ℕ)
    → (w % 2 ^ 32 < 2 ^ 31 → (text : List ℕ) × (printint (int_arg w) 10 false ≡ some text))
      × (2 ^ 31 ≤ w % 2 ^ 32 → printint (int_arg w) 10 false ≡ none)
      × (10 ^ 16 ≤ w → printint w 10 false ≡ none)
printint_unsigned w = (
  λ h.
      fits false (magnitude (int_arg w) false) 10 _ (ground (arith, h))
        (printint-Prints (int_arg w) 10 false (inl refl)),
  λ h.
      over false (magnitude (int_arg w) false) 10 _ (ground (arith, h))
        (printint-Prints (int_arg w) 10 false (inl refl)),
  λ h. over false (magnitude w false) 10 _ h (printint-Prints w 10 false (inl refl)),
)
