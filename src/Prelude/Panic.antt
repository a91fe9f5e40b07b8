-- ===== src/Prelude/Panic.antt =====
-- What a kernel function can end in: a value, or `panic(msg)`, which stops the machine.
use Prim.Native.Nat.{ℕ}
use Prim.Native.String.{String}
use mathlib.Core.Path.{◌≡◌, refl}
use mathlib.Core.Logic.{◌≢◌, inl, inr}
use native.Mathlib.Omega.{arith}
use mathlib.Core.Bool.{Bool, true, false}
use zept_os.Prelude.Tests.{◌==◌, if◌then◌else◌, Bool-cases}

pub data Outcome {ℓ} (A : Type ℓ) : Type ℓ where
  ok : A → Outcome A
  panic : String → Outcome A

infixl 5 ◌>>=◌ ◌>>◌
abbrev pub ◌>>=◌ {ℓ κ} : {A : Type ℓ} {B : Type κ} → Outcome A → (A → Outcome B) → Outcome B
ok a >>= k = k a
panic m >>= k = panic m

abbrev pub ◌>>◌ {ℓ} : {B : Type ℓ} → Outcome (Unit {0}) → Outcome B → Outcome B
m >> k = m >>= λ _. k

-- `if(bad) panic(msg);`
abbrev pub panic_if : Bool → String → Outcome (Unit {0})
panic_if true msg = panic msg
panic_if false msg = ok tt

-- A successful bind, taken apart.
pub >>=-eq-ok {ℓ κ} :
    {A : Type ℓ} {B : Type κ} (m : Outcome A) (k : A → Outcome B) {b : B}
    → (m >>= k) ≡ ok b
    → (a : A) × (m ≡ ok a) × (k a ≡ ok b)
>>=-eq-ok (ok a) k h = (a, refl, h)
>>=-eq-ok (panic msg) k h = cc

-- An array cell, or a word of memory, is overwritten.
abbrev pub update {ℓ} : {A : Type ℓ} → (ℕ → A) → ℕ → A → ℕ → A
update f i v j = if i == j then v else f j

-- What holds of the new value at the cell, and of every other cell, holds of each cell.
pub update_cases {ℓ κ} :
    {A : Type ℓ} (P : A → Type κ) (f : ℕ → A) (i : ℕ) (v : A) (j : ℕ)
    → (i ≡ j → P v)
    → (i ≢ j → P (f j))
    → P (update f i v j)
update_cases P f i v j here there = elim (Bool-cases (i == j)) [
  | inl e ↦ rw e (here (ground arith))
  | inr e ↦ rw e (there (ground arith))
]

pub update_self {ℓ} : {A : Type ℓ} (f : ℕ → A) (i : ℕ) (v : A) → update f i v i ≡ v
update_self f i v = update_cases (λ w. w ≡ v) f i v i (λ e. refl) (λ d. absurd (d refl))

pub update_other {ℓ} :
    {A : Type ℓ} (f : ℕ → A) (i : ℕ) (v : A) (j : ℕ) → i ≢ j → update f i v j ≡ f j
update_other f i v j d = update_cases (λ w. w ≡ f j) f i v j (λ e. absurd (d e)) (λ h. refl)
