-- ===== src/Strings/Names.antt =====
-- kernel/string.c: the functions on strings of bounded length, as directory entries hold them.
use zept_os.Prelude.{
  ℕ, zero, suc, ◌+◌, ◌-◌, ◌≤◌, ◌<◌, ◌≡◌, ◌∙◌, ap, sym, refl, ◌⊎◌, inl, inr, ◌↔◌, ◌&&◌, some, List,
  [], ◌∷◌, arith, ltb, leb, ◌==◌, if◌then◌else◌, Bool-cases, length, update,
}
use zept_os.Prelude.Int.{pos}
use zept_os.Strings.{Bytes, strncmp, pad, strncpy, safe_copy, safestrcpy, strlen}

-- The string at an address: its bytes up to a NUL, and `n` at most.
abbrev pub text : (n p : ℕ) → Bytes → List ℕ
text zero p mem = []
text (suc n) p mem = if mem p == 0 then [] else mem p ∷ text n (p + 1) mem

-- `strncmp` returns 0 exactly when the two strings of at most `n` bytes are the same.
pub strncmp_lem :
    (p q n : ℕ) (mem : Bytes) → (strncmp p q n mem ≡ pos 0) ↔ (text n p mem ≡ text n q mem)
unfolding strncmp
strncmp_lem p q zero mem = (λ h. refl, λ h. refl)
strncmp_lem p q (suc n) mem = (
  λ h. ground (arith, (strncmp_lem (p + 1) (q + 1) n mem).0),
  λ h. ground (arith, (strncmp_lem (p + 1) (q + 1) n mem).1),
)

-- Two memories that agree on the `n` bytes from `p` on hold the same string there.
pub text-ext :
    (n p q : ℕ) (mem mem' : Bytes)
    → ((k : ℕ) → k < n → mem (p + k) ≡ mem' (q + k))
    → text n p mem ≡ text n q mem'
text-ext zero p q mem mem' h = refl
text-ext (suc n) p q mem mem' h =
    let rest = text-ext n (p + 1) (q + 1) mem mem' (λ k l. next k l) in ground (arith, h 0, rest)
  where
    next : (k : ℕ) → k < n → mem (p + 1 + k) ≡ mem' (q + 1 + k)
    next k l = ground (arith, h (k + 1))

pad_lem :
    (s n : ℕ) (mem : Bytes) (j : ℕ)
    → pad s n mem j ≡ (if leb s j && ltb j (s + n) then 0 else mem j)
unfolding pad
pad_lem s zero mem j = ground arith
pad_lem s (suc n) mem j = pad_lem (s + 1) n _ j ∙ ground arith

-- The two ranges of `n` bytes share no byte.
abbrev pub Apart : (s t n : ℕ) → Type 0
Apart s t n = (s + n ≤ t) ⊎ (t + n ≤ s)

-- Outside the `n` bytes from `s` on the memory is as it was.
abbrev pub SameOutside : (s n : ℕ) → Bytes → Bytes → Type 0
SameOutside s n mem mem' = (j : ℕ) → (j < s) ⊎ (s + n ≤ j) → mem' j ≡ mem j

strncpy-SameOutside : (s t n : ℕ) (mem : Bytes) → SameOutside s n mem (strncpy s t n mem)
unfolding strncpy
strncpy-SameOutside s t zero mem j h = refl
strncpy-SameOutside s t (suc n) mem j h = ground (
  arith,
  pad_lem (s + 1) n (update mem s (mem t)) j,
  strncpy-SameOutside (s + 1) (t + 1) n (update mem s (mem t)) j,
)

strncpy-text : (s t n : ℕ) (mem : Bytes) → Apart s t n → text n s (strncpy s t n mem) ≡ text n t mem
unfolding strncpy
strncpy-text s t zero mem h = refl
strncpy-text s t (suc n) mem h = elim (Bool-cases (mem t == 0)) [
  | inl nul ↦ ground (arith, pad_lem (s + 1) n (update mem s (mem t)) s)
  | inr more ↦
      let mem' : Bytes = update mem s (mem t) in
      let same = text-ext n (t + 1) (t + 1) mem' mem (λ k l. ground arith) in
      ground (
        arith,
        strncpy-SameOutside (s + 1) (t + 1) n mem' s,
        strncpy-text (s + 1) (t + 1) n mem',
        same,
      )
]

strncpy_padded :
    (s t n k : ℕ) (mem : Bytes)
    → Apart s t n
    → length (text n t mem) ≤ k
    → k < n
    → strncpy s t n mem (s + k) ≡ 0
unfolding strncpy
strncpy_padded s t zero k mem h a b = absurd (omega arith)
strncpy_padded s t (suc n) k mem h a b = elim (Bool-cases (mem t == 0)) [
  | inl nul ↦ ground (arith, pad_lem (s + 1) n (update mem s (mem t)) (s + k))
  | inr more ↦
      let mem' : Bytes = update mem s (mem t) in
      let same = text-ext n (t + 1) (t + 1) mem' mem (λ j l. ground arith) in
      ground (arith, strncpy_padded (s + 1) (t + 1) n (k - 1) mem', ap length same)
]

-- `strncpy` between ranges that share no byte leaves at the destination the same string of at most
-- `n` bytes, with NULs after it up to the `n`-th byte, and touches nothing else; so `strncmp` of the
-- two then returns 0.
pub strncpy_lem :
    (s t n : ℕ) (mem : Bytes)
    → Apart s t n
    → let mem' = strncpy s t n mem in
      (text n s mem' ≡ text n t mem)
      × ((k : ℕ) → length (text n t mem) ≤ k → k < n → mem' (s + k) ≡ 0)
      × SameOutside s n mem mem'
      × (strncmp s t n mem' ≡ pos 0)
strncpy_lem s t n mem h = (
  strncpy-text s t n mem h,
  λ k a b. strncpy_padded s t n k mem h a b,
  strncpy-SameOutside s t n mem,
  (strncmp_lem s t n _).1 (
      strncpy-text s t n mem h
      ∙ text-ext n t t mem (strncpy s t n mem)
          (λ k l. sym (strncpy-SameOutside s t n mem (t + k) (ground arith)))),
)

safe_copy-SameOutside :
    (s t left : ℕ) (mem : Bytes) → SameOutside s (suc left) mem (safe_copy s t left mem)
unfolding safe_copy
safe_copy-SameOutside s t zero mem j h = ground arith
safe_copy-SameOutside s t (suc left) mem j h =
    ground (arith, safe_copy-SameOutside (s + 1) (t + 1) left (update mem s (mem t)) j)

safe_copy-text :
    (s t left : ℕ) (mem : Bytes)
    → Apart s t (suc left)
    → text (suc left) s (safe_copy s t left mem) ≡ text left t mem
unfolding safe_copy
safe_copy-text s t zero mem h = ground arith
safe_copy-text s t (suc left) mem h = elim (Bool-cases (mem t == 0)) [
  | inl nul ↦ ground arith
  | inr more ↦
      let mem' : Bytes = update mem s (mem t) in
      let same = text-ext left (t + 1) (t + 1) mem' mem (λ k l. ground arith) in
      ground (
        arith,
        safe_copy-SameOutside (s + 1) (t + 1) left mem' s,
        safe_copy-text (s + 1) (t + 1) left mem',
        same,
      )
]

safestrcpy-suc :
    (s t n : ℕ) (mem : Bytes) → safestrcpy s t (suc n) mem ≡ safe_copy s t (suc n - 1) mem
unfolding safestrcpy
safestrcpy-suc s t n mem = ground arith

suc-sub : (n : ℕ) → suc n - 1 ≡ n
suc-sub n = omega arith

text_short : (n p : ℕ) (mem : Bytes) → length (text n p mem) ≤ n
text_short zero p mem = omega arith
text_short (suc n) p mem = ground (arith, text_short n (p + 1) mem)

-- `safestrcpy` between ranges that share no byte leaves a string of fewer than `n` bytes, NUL
-- included in the `n`: the source cut to `n` - 1 bytes. It touches nothing outside the `n` bytes, and
-- nothing at all if `n` is 0.
pub safestrcpy_lem :
    (s t n : ℕ) (mem : Bytes)
    → Apart s t n
    → let mem' = safestrcpy s t n mem in
      (0 < n → (text n s mem' ≡ text (n - 1) t mem) × (length (text n s mem') < n))
      × SameOutside s n mem mem'
safestrcpy_lem s t zero mem h = ((λ p. absurd (omega arith)), λ j p. unfold safestrcpy in refl)
safestrcpy_lem s t (suc n) mem h =
    rw (safestrcpy-suc s t n mem, suc-sub n)
      (
        (λ p. (cut, omega (arith, ap length cut, text_short n t mem))),
        safe_copy-SameOutside s t n mem,
      )
  where
    cut : text (suc n) s (safe_copy s t n mem) ≡ text n t mem
    cut = safe_copy-text s t n mem h

-- `strlen`, given enough bytes to look at, returns the number of bytes before the first NUL.
pub strlen_lem :
    (fuel s : ℕ) (mem : Bytes)
    → length (text fuel s mem) < fuel
    → strlen fuel s mem ≡ some (length (text fuel s mem))
unfolding strlen
strlen_lem zero s mem h = absurd (omega arith)
strlen_lem (suc fuel) s mem h = ground (arith, strlen_lem fuel (s + 1) mem)
