-- ===== src/Spinlock/Tests.antt =====
-- The theorems on kernel/spinlock.c at concrete CPUs and schedules.
use zept_os.Prelude.{ℕ, ◌≡◌, refl, true, false, none, some, [], ◌∷◌, ok, panic, List}
use zept_os.Spinlock.{Cpu, acquire, taken}
use zept_os.Spinlock.Exclusion.{System, start, run, has_lock, run_exclusive}

abbrev running : Cpu
running = record { noff = 0; intena = false; intr = true }

-- CPU 1 spins while CPU 0 has the lock, and gets it after the release.
abbrev schedule : List ℕ
schedule = 0 ∷ 0 ∷ 1 ∷ 1 ∷ 0 ∷ 1 ∷ 0 ∷ 0 ∷ 0 ∷ 1 ∷ 1 ∷ []

run_exclusive_example :
    (t : System) × (run schedule (start (λ _. true)) ≡ ok t)
    × ((i j : ℕ) → has_lock (t.phase i) ≡ true → has_lock (t.phase j) ≡ true → i ≡ j)
    × ((i : ℕ) → has_lock (t.phase i) ≡ true → (t.cpus i).intr ≡ false)
run_exclusive_example = run_exclusive (λ _. true) schedule

acquire_twice : acquire 2 (record { locked = true; cpu = some 2 }) running ≡ panic "acquire"
unfolding acquire
acquire_twice = refl

acquire_free :
    acquire 2 (record { locked = false; cpu = none }) running
    ≡ ok (
        taken
          (record { locked = true; cpu = some 2 })
          (record { noff = 1; intena = true; intr = false }))
unfolding acquire
acquire_free = refl
