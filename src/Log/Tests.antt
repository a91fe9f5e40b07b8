-- ===== src/Log/Tests.antt =====
-- The theorems on kernel/log.c at concrete logs, disks and crashes.
use zept_os.Prelude.{
  ℕ, ◌+◌, ◌≤◌, ◌<◌, ◌≡◌, refl, ◌⊎◌, true, [], ◌∷◌, arith, ◌==◌, if◌then◌else◌, drop, ok, panic,
}
use zept_os.Log.{Store, Log, write_head, read_head, empty_log, log_write, commit, initlog, begin_op}
use zept_os.Log.Header.{read_head-write_head}
use zept_os.Log.Loops.{Disk, replay, IsFit}
use zept_os.Log.Atomic.{
  Cut-drop, boot, recovered, Crashed, in_commit, in_recovery, AllNew, AllOld, crash_atomic,
  commit-durable,
}
use zept_os.Log.Space.Shortfall.{log_write-short}
use zept_os.Log.Space.{System, sum, Reach, here, next, begins, idle, log_write-has_room}

-- A transaction of blocks 50 and 60 in a log of 30 blocks from block 2 on.
abbrev log : Log
log = record {
  start = 2;
  size = 30;
  outstanding = 0;
  committing = true;
  n = 2;
  block = λ i. if i == 0 then 50 else 60;
}

abbrev disk : Disk
disk b w = 0

-- The cache holds new contents of the two blocks.
abbrev store : Store
store = record {
  cache = λ b w. if b == 50 then 7 else if b == 60 then 8 else 0;
  pins = λ b. 1;
  writes = [];
}

log-IsFit : IsFit log
log-IsFit = record { room = omega arith; home = λ j p. ground arith }

read_head-write_head_example :
    let r = read_head (empty_log 2 30) (write_head log store) in
    (r.n ≡ 2) × ((j : ℕ) → j < 2 → r.block j ≡ log.block j)
read_head-write_head_example = read_head-write_head log (empty_log 2 30) store refl

-- The machine stops with the header written and nothing installed, and again in the recovery.
abbrev stopped : Disk
stopped = replay disk (drop 3 (commit log store).1.writes)

abbrev stopped_again : Disk
stopped_again = replay stopped (drop 1 (initlog 2 30 (boot stopped)).1.writes)

stopped-Crashed : Crashed log store disk stopped
stopped-Crashed = in_commit (Cut-drop 3 _)

stopped_again-Crashed : Crashed log store disk stopped_again
stopped_again-Crashed = in_recovery stopped-Crashed (Cut-drop 1 _)

recovered_block : (recovered log stopped_again 60 0 ≡ 8) × (stopped 60 0 ≡ 0)
unfolding commit initlog
recovered_block = (refl, refl)

crash_atomic_example :
    (recovered log stopped_again 2 0 ≡ 0)
    × (AllOld log disk (recovered log stopped_again)
        ⊎ AllNew log store.cache disk (recovered log stopped_again))
crash_atomic_example = crash_atomic log store disk log-IsFit refl refl stopped_again-Crashed

commit-durable_example :
    let after = replay disk (commit log store).1.writes in
    (after 2 0 ≡ 0)
    × AllNew log store.cache disk after
    × AllNew log store.cache disk (recovered log after)
commit-durable_example = commit-durable log store disk log-IsFit refl refl

-- One call in a log of 31 blocks.
abbrev one_call : System
one_call = record {
  log = record (idle 2 31 store).log { outstanding = 1 };
  store = store;
  budgets = 10 ∷ [];
}

one_call-Reach : Reach (idle 2 31 store) one_call
unfolding begin_op
one_call-Reach = next here (begins _ refl refl)

log_write-has_room_example :
    (0 + sum (10 ∷ []) ≤ 30)
    × (1 ≤ 3)
    × ((l : Log) × (st : Store) × (log_write one_call.log store 77 ≡ ok (l, st)))
log_write-has_room_example = log_write-has_room 2 31 store 0 9 77 one_call-Reach refl (omega arith)

log_write-short_example :
    (t : System) × Reach (idle 2 30 store) t
    × (t.budgets ≡ 0 ∷ 0 ∷ 1 ∷ [])
    × ((b : ℕ) → log_write t.log t.store b ≡ panic "too big a transaction")
log_write-short_example = log_write-short 2 store
