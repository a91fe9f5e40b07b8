-- ===== src/Proc/Reach.antt =====
-- kernel/proc.c: the calls as steps, and what holds of every table that the kernel reaches.
use zept_os.Prelude.{
  ℕ, ◌<◌, ◌≡◌, ap, sym, refl, Bool, true, Option, none, some, arith, ok, ℕ_discrete, ◌+◌, ◌^◌,
}
use mathlib.Core.Path.{subst}
use zept_os.Proc.{
  used, sleeping, runnable, running, nproc, Table, is_state, allocpid, find_unused, allocproc,
  fork_alloc, fork_parent, fork_start, wakeup, exit, reaped, wait, schedule, yield_cpu, sleep_enter,
  sleep_leave, kill, setkilled,
}
use zept_os.Proc.Sound.{
  IsSound, alive, put-IsSound, run_put-IsSound, wakeup-IsSound, schedule-IsSound, kill_loop-IsSound,
}
use zept_os.Proc.Fork.{fork_alloc-IsSound, fork_parent-IsSound, fork_start-IsSound}
use zept_os.Proc.{procinit, userinit}
use zept_os.Proc.Exit.{exit-Exited}
use zept_os.Proc.Wait.{wait-IsSound}

-- One step of the kernel: a call by a process that runs, or one of the sections of `fork`, between
-- which other steps come; or a round of a scheduler.
pub data Step : Table → Table → Type 0 where
  -- The three sections of `fork` by `me`, while `nextpid` does not overflow.
  allocates :
      (m copied : Bool) (me : ℕ) (t : Table)
      → (t.proc me).state ≡ running
      → t.nextpid + 1 < 2 ^ 31
      → Step t (fork_alloc m copied t).1
  parents :
      (me i : ℕ) (t : Table)
      → me < nproc
      → (t.proc me).state ≡ running
      → i < nproc
      → (t.proc i).state ≡ used
      → Step t (fork_parent me i t)
  starts :
      (me i : ℕ) (t : Table)
      → (t.proc me).state ≡ running
      → i < nproc
      → (t.proc i).state ≡ used
      → (t.proc i).parent ≡ some me
      → Step t (fork_start i t)
  exits :
      (me code : ℕ) (t u : Table)
      → me < nproc
      → (t.proc me).state ≡ running
      → exit me code t ≡ ok u
      → Step t u
  waits : (copied : Bool) (me : ℕ) (t u : Table) (p : ℕ) → wait copied me t ≡ reaped p u → Step t u
  wakes : (me chan : ℕ) (t : Table) → Step t (wakeup me chan t)
  schedules : (i : ℕ) (t : Table) → Step t (schedule i t)
  yields : (me : ℕ) (t : Table) → (t.proc me).state ≡ running → Step t (yield_cpu me t)
  sleeps : (me chan : ℕ) (t : Table) → (t.proc me).state ≡ running → Step t (sleep_enter me chan t)
  leaves : (me : ℕ) (t : Table) → Step t (sleep_leave me t)
  kills : (pid : ℕ) (t : Table) → Step t (kill pid t).1
  marks : (i : ℕ) (t : Table) → Step t (setkilled i t)

pub data Steps : Table → Table → Type 0 where
  stay : (t : Table) → Steps t t
  next : (t u v : Table) → Steps t u → Step u v → Steps t v

Step-IsSound : (t u : Table) → Step t u → IsSound t → IsSound u
unfolding yield_cpu sleep_enter sleep_leave kill setkilled
Step-IsSound _ _ (allocates m copied me t e w) s = fork_alloc-IsSound m copied t w s
Step-IsSound _ _ (parents me i t b r c u) s = fork_parent-IsSound me i t b r c u s
Step-IsSound _ _ (starts me i t r c u p) s = fork_start-IsSound me i t r c u p s
Step-IsSound _ _ (exits me code t u b e h) s = elim (ℕ_discrete me t.initproc) [
  | yes d ↦ let g = (exit-Exited me code t b e s).0 d in cc
  | no d ↦
      let (v, g, x) = (exit-Exited me code t b e s).1 d in
      let same : v ≡ u = cc in subst IsSound same x.sound
]
Step-IsSound _ _ (waits copied me t u p e) s = wait-IsSound copied me t u p s e
Step-IsSound _ _ (wakes me chan t) s = wakeup-IsSound me chan t s
Step-IsSound _ _ (schedules i t) s = schedule-IsSound i t s
Step-IsSound _ _ (yields me t e) s =
    run_put-IsSound t me _ runnable (ap alive e) refl (sym (ap (λ x. is_state x used) e)) _ s
Step-IsSound _ _ (sleeps me chan t e) s =
    run_put-IsSound t me chan sleeping (ap alive e) refl (sym (ap (λ x. is_state x used) e)) _ s
Step-IsSound _ _ (leaves me t) s =
    put-IsSound t me _
      (record { pid = refl; parent = refl; free = refl; fresh = refl; dead = refl }) s
Step-IsSound _ _ (kills pid t) s = kill_loop-IsSound pid nproc 0 t s
Step-IsSound _ _ (marks i t) s =
    put-IsSound t i _ (record { pid = refl; parent = refl; free = refl; fresh = refl; dead = refl })
      s

Steps-IsSound : (t u : Table) → Steps t u → IsSound t → IsSound u
Steps-IsSound _ _ (stay t) s = s
Steps-IsSound _ _ (next t v u r h) s = Step-IsSound v u h (Steps-IsSound t v r s)

abbrev get_some : Option Table → Table
get_some (some t) = t
get_some none = procinit

-- The first process.
userinit-IsSound : (t : Table) → userinit true procinit ≡ some t → IsSound t
unfolding userinit allocproc find_unused allocpid
userinit-IsSound t e = subst IsSound d (record {
  counting = omega arith;
  init_in = omega arith;
  init_alive = refl;
  unused_pid = λ i b. ground arith;
  numbered = λ i b. ground arith;
  distinct = λ i j b c x y. ground (arith, x, y);
  owned = λ i b h. ground (arith, h);
  parents = λ i q b h. ground (arith, h);
})
  where
    d : get_some (userinit true procinit) ≡ t
    d = ap get_some e

-- Every table that the kernel reaches after `userinit`, with other steps between the sections of `fork`,
-- and no more processes than an `int` can number, is sound: its pids are distinct and below
-- `nextpid`, a slot is unused when its pid is 0, the first process is alive, and each other process
-- that was started has a parent, which is alive.
pub reach-IsSound : (t u : Table) → userinit true procinit ≡ some t → Steps t u → IsSound u
reach-IsSound t u e r = Steps-IsSound t u r (userinit-IsSound t e)
