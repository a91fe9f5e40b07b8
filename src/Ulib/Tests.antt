-- ===== src/Ulib/Tests.antt =====
-- The theorems on user/ulib.c at short strings.
use zept_os.Prelude.{ℕ, zero, suc, ◌+◌, ◌<◌, ◌≡◌, ◌≢◌, refl, true, some, [], ◌∷◌, arith, get_or}
use zept_os.Strings.{Bytes}
use zept_os.Ulib.{atoi, is_digit}

-- "42", then "43" at 10.
abbrev text : Bytes
text a = get_or (52 ∷ 50 ∷ 0 ∷ 0 ∷ 0 ∷ 0 ∷ 0 ∷ 0 ∷ 0 ∷ 0 ∷ 52 ∷ 51 ∷ []) a 0

text_digits : (j : ℕ) → j < 2 → is_digit (text (0 + j)) ≡ true
text_digits zero b = refl
text_digits (suc zero) b = refl
text_digits (suc (suc j)) b = absurd (omega arith)

text_same : (j : ℕ) → j < 1 → (text (0 + j) ≢ 0) × (text (0 + j) ≡ text (10 + j))
text_same zero b = (omega arith, refl)
text_same (suc j) b = absurd (omega arith)

text_number : atoi 3 0 text ≡ some 42
unfolding atoi
text_number = refl
