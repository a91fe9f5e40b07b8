-- ===== src/Sleeplock.antt =====
-- kernel/sleeplock.c: locks that a process may hold while it sleeps, over the table of processes.
pub mod Handoff
mod Tests
use zept_os.Prelude.{
  ℕ, zero, suc, ◌+◌, ◌-◌, ◌*◌, ◌/◌, ◌%◌, ◌^◌, ◌≤◌, ◌<◌, ◌≡◌, ◌≢◌, ◌∙◌, ap, sym, refl, fun_ext, ◌⊎◌,
  inl, inr, ◌↔◌, Bool, true, false, not, ◌&&◌, ◌||◌, Option, none, some, List, [], ◌∷◌, ◌++◌, map,
  append_assoc, append-nil, arith, ltb, leb, ◌==◌, if◌then◌else◌, Bool-cases, Option-cases, length,
  length-append, get_elem?, set, get_or, take, drop, replicate, update, Outcome, ok, panic,
  panic_if, ◌>>=◌, ◌>>◌, >>=-eq-ok,
}
use zept_os.Proc.{Proc, Table, running, sleeping, is_state, sleep_enter, wakeup}

-- `struct sleeplock`; its spin lock makes each stretch below one step.
pub record Sleeplock : Type 0 where
  pub locked : Bool
  pub pid : ℕ

pub initsleeplock : Sleeplock
initsleeplock = record { locked = false; pid = 0 }

-- How a round of `acquiresleep` by process `me` ends: it has the lock, or it sleeps on the lock,
-- whose address is `chan`, to test again when it is woken.
pub data Round : Type 0 where
  has_lock : Sleeplock → Round
  waits_for : Table → Round

unfoldable pub acquiresleep : (chan me : ℕ) → Sleeplock → Table → Round
unfolding sleep_enter
acquiresleep chan me lk t =
    if lk.locked
    then waits_for (sleep_enter me chan t)
    else has_lock (record { locked = true; pid = (t.proc me).pid })

unfoldable pub releasesleep : (chan me : ℕ) → Sleeplock → Table → Sleeplock × Table
unfolding wakeup
releasesleep chan me lk t = (record { locked = false; pid = 0 }, wakeup me chan t)

unfoldable pub holdingsleep : (me : ℕ) → Sleeplock → Table → Bool
holdingsleep me lk t = lk.locked && (lk.pid == (t.proc me).pid)
