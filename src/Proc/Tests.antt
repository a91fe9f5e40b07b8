-- ===== src/Proc/Tests.antt =====
-- The theorems on kernel/proc.c at a table with the first process and a child of it.
use zept_os.Prelude.{
  ℕ, ◌<◌, ◌≡◌, ◌≢◌, refl, true, false, ◌&&◌, none, some, arith, ◌==◌, update, ok, panic,
}
use zept_os.Proc.{
  unused, used, runnable, running, Proc, nproc, Table, is_state, proc_chan, freeproc, allocpid,
  find_unused, allocproc, fork, fork_alloc, fork_parent, fork_start, wake, wakeup, reparent,
  reparent_loop, wakeup_loop, wake_parent, exit, reaped, wait_fails, wait_sleeps, wait_scan, wait,
  schedule, sleep_enter, sleep_leave, kill,
}
use zept_os.Proc.Sound.{IsSound}
use zept_os.Proc.{procinit, userinit}
use zept_os.Proc.Exit.{Exited, exit-Exited}
use zept_os.Proc.Wait.{DeadChild, WaitEnds, wait-WaitEnds}
use zept_os.Proc.Handover.{Waits, resumed, exit_then_wait}
use zept_os.Proc.Reach.{
  Steps, allocates, parents, starts, schedules, sleeps, stay, next, reach-IsSound,
}
use zept_os.Proc.Kill.{kill_zero-fork}

abbrev first : Proc
first = record { state = runnable; chan = 0; killed = false; xstate = 0; pid = 1; parent = none }

abbrev one : Table
one = record {
  proc = update (update procinit.proc 0 (record first { state = used })) 0 first;
  nextpid = 2;
  initproc = 0;
}

userinit-one : userinit true procinit ≡ some one
unfolding userinit allocproc find_unused allocpid
userinit-one = refl

-- The first process forks and sleeps in `wait`; its child runs.
abbrev running_one : Table
running_one = schedule 0 one

abbrev two : Table
two = (fork true true 0 running_one).1

-- Before the child has its parent.
abbrev new : Table
new = (fork_alloc true true running_one).1

abbrev waiting : Table
waiting = schedule 1 (sleep_enter 0 (proc_chan 0) two)

Steps-waiting : Steps one waiting
unfolding schedule fork fork_alloc fork_parent fork_start allocproc find_unused allocpid sleep_enter
Steps-waiting =
    next one (sleep_enter 0 (proc_chan 0) two) waiting
      (next one two (sleep_enter 0 (proc_chan 0) two)
        (next one (fork_parent 0 1 new) two
          (next one new (fork_parent 0 1 new)
            (next one running_one new (next one one running_one (stay one) (schedules 0 one))
              (allocates true true 0 running_one refl (omega arith)))
            (parents 0 1 new (omega arith) refl (omega arith) refl))
          (starts 0 1 (fork_parent 0 1 new) refl (omega arith) refl refl))
        (sleeps 0 (proc_chan 0) two refl))
      (schedules 1 (sleep_enter 0 (proc_chan 0) two))

reach-IsSound_example : IsSound waiting
reach-IsSound_example = reach-IsSound one waiting userinit-one Steps-waiting

waiting-IsSound : IsSound waiting
waiting-IsSound = reach-IsSound one waiting userinit-one Steps-waiting

waiting_running : (waiting.proc 1).state ≡ running
unfolding schedule fork fork_alloc fork_parent fork_start allocproc find_unused allocpid sleep_enter
waiting_running = refl

waiting_first : waiting.initproc ≡ 0
unfolding schedule fork fork_alloc fork_parent fork_start allocproc find_unused allocpid sleep_enter
waiting_first = refl

waiting-Waits : Waits waiting 1 0
unfolding schedule fork fork_alloc fork_parent fork_start allocproc find_unused allocpid sleep_enter
waiting-Waits = record { inside = omega arith; parent = refl; asleep = refl; on_itself = refl }

exit-Exited_example :
    (1 ≡ waiting.initproc → exit 1 7 waiting ≡ panic "init exiting")
    × (1 ≢ waiting.initproc → (u : Table) × (exit 1 7 waiting ≡ ok u) × Exited waiting 1 7 u)
exit-Exited_example = exit-Exited 1 7 waiting (omega arith) waiting_running waiting-IsSound

not_first : 1 ≢ waiting.initproc
not_first = rw waiting_first (ground arith)

exit_then_wait_example :
    (u : Table) × (exit 1 7 waiting ≡ ok u)
    × ((u.proc 0).state ≡ runnable)
    × ((j : ℕ) × (w : Table) × (p : ℕ) × DeadChild u 0 j
        × (0 < p)
        × (p ≡ (u.proc j).pid)
        × (wait true 0 (resumed 0 u) ≡ reaped p w)
        × IsSound w)
exit_then_wait_example =
    exit_then_wait 1 0 7 waiting (omega arith) waiting_running not_first waiting-Waits
      waiting-IsSound

wait-WaitEnds_example : WaitEnds waiting true 0 (wait true 0 waiting)
wait-WaitEnds_example = wait-WaitEnds true 0 waiting

waiting_unused : find_unused nproc 0 waiting ≡ some 2
unfolding find_unused schedule fork fork_alloc fork_parent fork_start allocproc allocpid sleep_enter
waiting_unused = refl

kill_zero-fork_example :
    ((kill 0 waiting).0 ≡ true)
    × ((fork true true 1 (kill 0 waiting).1).0 ≡ some waiting.nextpid)
    × (((fork true true 1 (kill 0 waiting).1).1.proc 2).killed ≡ true)
    × (((fork true true 1 (kill 0 waiting).1).1.proc 2).pid ≡ waiting.nextpid)
kill_zero-fork_example = kill_zero-fork 1 2 waiting waiting-IsSound waiting_unused

-- The first process is woken by the exit of its child, frees it, and then has no child.
exit-wait_runs :
    (elim (exit 1 7 waiting) [
      | ok u ↦ elim (wait true 0 (resumed 0 u)) [
        | reaped p w ↦
            (p == 2) && (is_state (w.proc 1).state unused && is_state (w.proc 0).state running)
        | wait_fails ↦ false
        | wait_sleeps ↦ false
      ]
      | panic msg ↦ false
    ])
    ≡ true
unfolding exit reparent reparent_loop wake_parent wakeup wakeup_loop wake wait wait_scan freeproc
    schedule fork fork_alloc fork_parent fork_start allocproc find_unused allocpid sleep_enter
    sleep_leave
exit-wait_runs = refl
