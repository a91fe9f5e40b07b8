-- ===== src/Spinlock.antt =====
-- kernel/spinlock.c: the interrupt nesting of `push_off` and `pop_off`, and the lock itself.
pub mod Nesting
pub mod Exclusion
mod Tests
use zept_os.Prelude.{
  ℕ, suc, ◌-◌, ◌+◌, Bool, true, false, ◌&&◌, Option, none, some, ◌==◌, ltb, if◌then◌else◌, Outcome,
  ok, panic_if, ◌>>=◌, ◌>>◌, not,
}

-- `struct cpu` of kernel/proc.h, as far as the locks use it, with the interrupt enable bit that
-- `intr_get`, `intr_on` and `intr_off` read and write.
pub record Cpu : Type 0 where
  pub noff : ℕ
  pub intena : Bool
  pub intr : Bool

-- `struct spinlock`; `cpu` is the number of the holding CPU, `none` for a null pointer.
pub record Spinlock : Type 0 where
  pub locked : Bool
  pub cpu : Option ℕ

pub initlock : Spinlock
initlock = record { locked = false; cpu = none }

pub push_off : Cpu → Cpu
push_off c = record {
  noff = c.noff + 1;
  intena = if c.noff == 0 then c.intr else c.intena;
  intr = false;
}

pub pop_off : Cpu → Outcome Cpu
pop_off c = do
  panic_if c.intr "pop_off - interruptible"
  panic_if (ltb c.noff 1) "pop_off"
  ok (record c { noff = c.noff - 1; intr = if c.noff - 1 == 0 then c.intena else false })

-- `lk->cpu == mycpu()`, on the CPU with number `id`.
abbrev pub is_cpu : Option ℕ → ℕ → Bool
is_cpu none id = false
is_cpu (some o) id = o == id

unfoldable pub holding : Spinlock → ℕ → Bool
holding lk id = lk.locked && is_cpu lk.cpu id

-- `__sync_lock_test_and_set(&lk->locked, 1)`: the old value, and the lock after the swap.
pub test_and_set : Spinlock → Bool × Spinlock
test_and_set lk = (lk.locked, record lk { locked = true })

-- What one round of `acquire` comes to: the lock is taken, or the CPU goes on spinning.
pub data Acquired : Type 0 where
  taken : Spinlock → Cpu → Acquired
  spinning : Spinlock → Cpu → Acquired

-- One round of the loop of `acquire`, with what follows it when the swap gets the lock.
unfoldable pub spin : ℕ → Spinlock → Cpu → Acquired
unfolding test_and_set
spin id lk c =
    let (old, lk') = test_and_set lk in
    if old then spinning lk' c else taken (record lk' { cpu = some id }) c

-- `acquire` up to the end of its first round.
unfoldable pub acquire : ℕ → Spinlock → Cpu → Outcome Acquired
unfolding spin push_off holding
acquire id lk c = let c' = push_off c in do panic_if (holding lk id) "acquire"; ok (spin id lk c')

unfoldable pub release : ℕ → Spinlock → Cpu → Outcome (Spinlock × Cpu)
unfolding pop_off holding
release id lk c = do
  panic_if (not (holding lk id)) "release"
  c' ← pop_off c
  ok (record { locked = false; cpu = none }, c')
