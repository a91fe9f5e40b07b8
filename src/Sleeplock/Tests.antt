-- ===== src/Sleeplock/Tests.antt =====
-- The theorem on kernel/sleeplock.c at two processes that want the lock.
use zept_os.Prelude.{ℕ, ◌<◌, ◌≡◌, refl, Bool, true, false, none, arith, update}
use zept_os.Proc.{
  Proc, Table, nproc, running, runnable, procinit, sleep_enter, wakeup, wakeup_loop, wake,
}
use zept_os.Sleeplock.{Sleeplock, initsleeplock, acquiresleep, releasesleep, holdingsleep}
use zept_os.Sleeplock.Handoff.{
  asleep_on, World, Run, locks, blocks, unlocks, stay, next, one_holder,
}

abbrev lock_chan : ℕ
lock_chan = 1000

-- Processes 0 and 1 run.
abbrev runs : ℕ → Proc
runs pid = record {
  state = running;
  chan = 0;
  killed = false;
  xstate = 0;
  pid = pid;
  parent = none;
}

abbrev pair : Table
pair = record {
  proc = update (update procinit.proc 0 (runs 1)) 1 (runs 2);
  nextpid = 3;
  initproc = 0;
}

pair_awake : (j : ℕ) → j < nproc → asleep_on lock_chan (pair.proc j) ≡ false
pair_awake j b = ground arith

abbrev world : Sleeplock → Table → (ℕ → Bool) → World
world lk t held = record { lock = lk; table = t; held = held }

abbrev start : World
start = world initsleeplock pair (λ _. false)

abbrev first_holds : World
first_holds = world (record { locked = true; pid = 1 }) pair (update start.held 0 true)

-- Process 1 sleeps on the lock.
abbrev second_waits : World
second_waits = world first_holds.lock (sleep_enter 1 lock_chan pair) first_holds.held

abbrev released : World
released =
    world (releasesleep lock_chan 0 second_waits.lock second_waits.table).0
      (releasesleep lock_chan 0 second_waits.lock second_waits.table).1
      (update second_waits.held 0 false)

Run-released : Run lock_chan start released
unfolding acquiresleep sleep_enter initsleeplock
Run-released =
    next start second_waits released
      (next start first_holds second_waits
        (next start start first_holds (stay start)
          (locks 0 start first_holds.lock (omega arith) refl refl))
        (blocks 1 first_holds second_waits.table (omega arith) refl refl))
      (unlocks 0 second_waits (omega arith) refl refl)

one_holder_example :
    ((i j : ℕ) → released.held i ≡ true → released.held j ≡ true → i ≡ j)
    × ((i : ℕ) → released.held i ≡ true → holdingsleep i released.lock released.table ≡ true)
    × ((j : ℕ)
        → j < nproc
        → asleep_on lock_chan (released.table.proc j) ≡ true
        → released.lock.locked ≡ true)
one_holder_example = one_holder lock_chan pair released pair_awake Run-released

-- The release has woken process 1.
woken : (released.table.proc 1).state ≡ runnable
unfolding sleep_enter releasesleep wakeup wakeup_loop wake
woken = refl
