-- ===== src/Printf/Tests.antt =====
-- kernel/printf.c: small formats and numbers.
use zept_os.Prelude.{
  ℕ, ◌%◌, ◌^◌, ◌≤◌, ◌<◌, ◌≡◌, refl, inl, true, false, none, some, List, [], ◌∷◌, arith,
}
use zept_os.Printf.{printint, int_arg, directive, printf}
use zept_os.Printf.Room.{Prints, is_negative, magnitude, printint-Prints, printint_unsigned}
use zept_os.Printf.Formats.{printf_total}

-- -42 as an argument's word.
abbrev minus_42 : ℕ
minus_42 = 18446744073709551574

printint-minus_42 : printint minus_42 10 true ≡ some (b'-' ∷ b'4' ∷ b'2' ∷ [])
unfolding printint
printint-minus_42 = refl

abbrev no_strings : ℕ → List ℕ
no_strings a = []

-- "n=%d\n"
abbrev count_format : List ℕ
count_format = b'n' ∷ b'=' ∷ b'%' ∷ b'd' ∷ 10 ∷ []

printf_count :
    printf no_strings count_format (λ _. minus_42)
    ≡ some (b'n' ∷ b'=' ∷ b'-' ∷ b'4' ∷ b'2' ∷ 10 ∷ [])
unfolding printf directive printint
printf_count = refl

printint-Prints_example :
    Prints (is_negative minus_42 true) (magnitude minus_42 true) 10 (printint minus_42 10 true)
printint-Prints_example = printint-Prints minus_42 10 true (inl refl)

printint_unsigned_example :
    ((minus_42 % 2 ^ 32 < 2 ^ 31
        → (text : List ℕ) × (printint (int_arg minus_42) 10 false ≡ some text))
      × (2 ^ 31 ≤ minus_42 % 2 ^ 32 → printint (int_arg minus_42) 10 false ≡ none)
      × (10 ^ 16 ≤ minus_42 → printint minus_42 10 false ≡ none))
printint_unsigned_example = printint_unsigned minus_42

printf_total_example :
    (text : List ℕ) × (printf no_strings count_format (λ _. minus_42) ≡ some text)
printf_total_example =
    printf_total no_strings count_format (λ _. minus_42) (omega arith, omega arith, tt)
