-- ===== src/Spinlock/Nesting.antt =====
-- kernel/spinlock.c: `push_off` and `pop_off` are matched, as the comment above them says.
use zept_os.Prelude.{
  ℕ, zero, suc, ◌-◌, ◌<◌, ◌≡◌, refl, false, arith, Outcome, ok, ◌>>=◌, ◌==◌, if◌then◌else◌,
}
use zept_os.Spinlock.{Cpu, push_off, pop_off}

-- While a CPU is inside a `push_off`, its interrupts are off.
abbrev pub IsMasked : Cpu → Type 0
IsMasked c = 0 < c.noff → c.intr ≡ false

-- `push_off`, `n` times.
abbrev pub push_times : ℕ → Cpu → Cpu
push_times zero c = c
push_times (suc n) c = push_times n (push_off c)

-- `pop_off`, `n` times, up to the first panic.
abbrev pub pop_times : ℕ → Cpu → Outcome Cpu
pop_times zero c = ok c
pop_times (suc n) c = pop_times n c >>= pop_off

pub push_off-IsMasked : (c : Cpu) → IsMasked (push_off c)
unfolding push_off
push_off-IsMasked c h = refl

pub pop_off-IsMasked : (c c' : Cpu) → IsMasked c → pop_off c ≡ ok c' → IsMasked c'
unfolding pop_off
pop_off-IsMasked c c' m e = ground arith

-- What matched calls bring back: the depth and the interrupt bit, and `intena` too inside a nest.
pub record SameMask (c d : Cpu) : Type 0 where
  pub depth : d.noff ≡ c.noff
  pub mask : d.intr ≡ c.intr
  pub saved : 0 < c.noff → d.intena ≡ c.intena

pop-push :
    (c d : Cpu)
    → IsMasked c
    → SameMask (push_off c) d
    → (e : Cpu) × (pop_off d ≡ ok e) × SameMask c e
unfolding push_off pop_off
pop-push c d m s = (
  record d { noff = d.noff - 1; intr = if d.noff - 1 == 0 then d.intena else false },
  ground arith,
  ground arith,
)

-- Any number of `push_off` calls followed by as many `pop_off` calls does not panic, and leaves
-- the nesting depth and the interrupt enable bit as they were; inside an enclosing `push_off`
-- the saved bit is kept too.
pub pop_times-push_times :
    (n : ℕ) (c : Cpu)
    → IsMasked c
    → (e : Cpu) × (pop_times n (push_times n c) ≡ ok e) × SameMask c e
pop_times-push_times zero c m = (c, refl, ground arith)
pop_times-push_times (suc n) c m =
    let (d, e, s) = pop_times-push_times n (push_off c) (push_off-IsMasked c) in
    let (f, g, t) = pop-push c d m s in (f, rw e g, t)
