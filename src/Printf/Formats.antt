-- ===== src/Printf/Formats.antt =====
-- kernel/printf.c: formats that `printf` prints whatever their arguments are.
use zept_os.Prelude.{
  ℕ, zero, suc, ◌+◌, ◌<◌, ◌≡◌, ◌≢◌, refl, inl, inr, Bool, true, false, ◌&&◌, some, List, [], ◌∷◌,
  ◌++◌, arith, ◌==◌, if◌then◌else◌, Bool-cases,
}
use zept_os.Printf.{Directive, directive, char_at, printf_loop, printf}
use zept_os.Printf.Room.{int_decimal, int_hexadecimal}

-- No directive of the format starts with `u` or `l`; `skip` characters belong to the last directive.
abbrev pub NoWide : (skip : ℕ) (fmt : List ℕ) → Type 0
NoWide skip [] = Unit
NoWide (suc skip) (c ∷ fmt) = NoWide skip fmt
NoWide zero (c ∷ fmt) =
    if c == b'%'
    then (char_at 0 fmt ≢ b'u') × (char_at 0 fmt ≢ b'l') × NoWide 1 fmt
    else NoWide 0 fmt

-- A directive that puts out a text and takes only its own character, if that is there.
abbrev pub Narrow : (c0 : ℕ) → Directive → Type 0
Narrow c0 d = ((text : List ℕ) × (d.out ≡ some text)) × (d.moves ≡ (if c0 == 0 then 0 else 1))

Narrow-if :
    (c0 : ℕ) (b : Bool) (x y : Directive)
    → (b ≡ true → Narrow c0 x)
    → (b ≡ false → Narrow c0 y)
    → Narrow c0 (if b then x else y)
Narrow-if c0 true x y f g = f refl
Narrow-if c0 false x y f g = g refl

at_char : (c0 c : ℕ) → 0 < c → (c0 == c) ≡ true → ◌≡◌ {A = ℕ} 1 (if c0 == 0 then 0 else 1)
at_char c0 c p e = ground (arith, e, p)

wide : (c0 : ℕ) (b : Bool) → c0 ≢ b'l' → (c0 == b'l' && b) ≡ true → ⊥
wide c0 b l e = absurd (ground (arith, l, e))

wider : (c0 : ℕ) (a b : Bool) → c0 ≢ b'l' → ((c0 == b'l' && a) && b) ≡ true → ⊥
wider c0 a b l e = absurd (ground (arith, l, e))

directive-Narrow :
    (string : ℕ → List ℕ) (c0 c1 c2 arg : ℕ)
    → c0 ≢ b'u'
    → c0 ≢ b'l'
    → Narrow c0 (directive string c0 c1 c2 arg)
unfolding directive
directive-Narrow string c0 c1 c2 arg u l =
    Narrow-if c0 (c0 == b'd') _ _ (λ e. (int_decimal arg, at_char c0 b'd' (omega arith) e))
      (λ _.
        Narrow-if c0 (c0 == b'l' && c1 == b'd') _ _ (λ e. absurd (wide c0 (c1 == b'd') l e))
          (λ _.
            Narrow-if c0 ((c0 == b'l' && c1 == b'l') && c2 == b'd') _ _
              (λ e. absurd (wider c0 (c1 == b'l') (c2 == b'd') l e))
              (λ _.
                Narrow-if c0 (c0 == b'u') _ _ (λ e. absurd (u (ground (arith, e))))
                  (λ _.
                    Narrow-if c0 (c0 == b'l' && c1 == b'u') _ _
                      (λ e. absurd (wide c0 (c1 == b'u') l e))
                      (λ _.
                        Narrow-if c0 ((c0 == b'l' && c1 == b'l') && c2 == b'u') _ _
                          (λ e. absurd (wider c0 (c1 == b'l') (c2 == b'u') l e))
                          (λ _.
                            Narrow-if c0 (c0 == b'x') _ _
                              (λ e. (int_hexadecimal arg, at_char c0 b'x' (omega arith) e))
                              (λ _.
                                Narrow-if c0 (c0 == b'l' && c1 == b'x') _ _
                                  (λ e. absurd (wide c0 (c1 == b'x') l e))
                                  (λ _.
                                    Narrow-if c0 ((c0 == b'l' && c1 == b'l') && c2 == b'x') _ _
                                      (λ e. absurd (wider c0 (c1 == b'l') (c2 == b'x') l e))
                                      (λ _.
                                        Narrow-if c0 (c0 == b'p') _ _
                                          (λ e. ((_, refl), at_char c0 b'p' (omega arith) e))
                                          (λ _.
                                            Narrow-if c0 (c0 == b's') _ _
                                              (λ e. ((_, refl), at_char c0 b's' (omega arith) e))
                                              (λ _.
                                                Narrow-if c0 (c0 == b'%') _ _
                                                  (λ e.
                                                    ((_, refl), at_char c0 b'%' (omega arith) e))
                                                  (λ _.
                                                    Narrow-if c0 (c0 == 0) _ _
                                                      (λ e. ((_, refl), ground (arith, e)))
                                                      (λ e.
                                                        ((_, refl), ground (arith, e)))))))))))))))

loop_plain :
    (string : ℕ → List ℕ) (args : ℕ → ℕ) (taken cx : ℕ) (fmt text : List ℕ)
    → (cx == b'%') ≡ false
    → printf_loop string args 0 taken fmt ≡ some text
    → printf_loop string args 0 taken (cx ∷ fmt) ≡ some (cx ∷ text)
unfolding printf_loop
loop_plain string args taken cx fmt text e f = rw (e, f) refl

loop_directive :
    (string : ℕ → List ℕ) (args : ℕ → ℕ) (taken cx moves : ℕ) (fmt out more : List ℕ)
    → (cx == b'%') ≡ true
    → (directive string (char_at 0 fmt) (char_at 1 fmt) (char_at 2 fmt) (args taken)).out ≡ some out
    → (directive string (char_at 0 fmt) (char_at 1 fmt) (char_at 2 fmt) (args taken)).moves ≡ moves
    → printf_loop string args moves
        (if (directive string (char_at 0 fmt) (char_at 1 fmt) (char_at 2 fmt) (args taken)).takes
          then taken + 1
          else taken)
        fmt
      ≡ some more
    → printf_loop string args 0 taken (cx ∷ fmt) ≡ some (out ++ more)
unfolding printf_loop
loop_directive string args taken cx moves fmt out more e f g h = rw (e, f, g, h) refl

NoWide-moves : (fmt : List ℕ) → NoWide 1 fmt → NoWide (if char_at 0 fmt == 0 then 0 else 1) fmt
NoWide-moves [] n = tt
NoWide-moves (c ∷ fmt) n = elim (Bool-cases (c == 0)) [
  | inl e ↦ let z : (c == b'%') ≡ false = ground (arith, e) in rw (e, z) n
  | inr e ↦ rw e n
]

loop_total :
    (string : ℕ → List ℕ) (args : ℕ → ℕ) (skip taken : ℕ) (fmt : List ℕ)
    → NoWide skip fmt
    → (text : List ℕ) × (printf_loop string args skip taken fmt ≡ some text)
unfolding printf_loop
loop_total string args skip taken [] n = ([], refl)
loop_total string args (suc skip) taken (c ∷ fmt) n = loop_total string args skip taken fmt n
loop_total string args zero taken (c ∷ fmt) n = elim (Bool-cases (c == b'%')) [
  | inr e ↦
      let n' = rw e at n in
      let (text, f) = loop_total string args 0 taken fmt n' in
      (c ∷ text, loop_plain string args taken c fmt text e f)
  | inl e ↦
      let (u, l, n') = rw e at n in
      let ((out, f), moves) =
        directive-Narrow string (char_at 0 fmt) (char_at 1 fmt) (char_at 2 fmt) (args taken) u l in
      let (more, h) =
        loop_total string args (if char_at 0 fmt == 0 then 0 else 1)
          (if (directive string (char_at 0 fmt) (char_at 1 fmt) (char_at 2 fmt) (args taken)).takes
            then taken + 1
            else taken)
          fmt (NoWide-moves fmt n') in
      (out ++ more, loop_directive string args taken c _ fmt out more e f moves h)
]

-- `printf` of a format with no `%u` and no `%l`, whatever the arguments, puts out a text and stores
-- nothing past the buffer of `printint`.
pub printf_total :
    (string : ℕ → List ℕ) (fmt : List ℕ) (args : ℕ → ℕ)
    → NoWide 0 fmt
    → (text : List ℕ) × (printf string fmt args ≡ some text)
unfolding printf
printf_total string fmt args n = loop_total string args 0 0 fmt n
