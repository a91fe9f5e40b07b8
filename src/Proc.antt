-- ===== src/Proc.antt =====
-- kernel/proc.c: the process table and the calls that move processes between states.
-- A process's lock is held where the code holds it, so each call here is one step on the table.
pub mod Wakeup
pub mod Sound
pub mod Fork
pub mod Exit
pub mod Wait
pub mod Handover
pub mod Reach
pub mod Kill
mod Tests
use zept_os.Prelude.{
  ℕ, zero, suc, ◌+◌, ◌-◌, ◌*◌, ◌/◌, ◌%◌, ◌^◌, ◌≤◌, ◌<◌, ◌≡◌, ◌≢◌, ◌∙◌, ap, sym, refl, fun_ext, ◌⊎◌,
  inl, inr, ◌↔◌, Bool, true, false, not, ◌&&◌, ◌||◌, Option, none, some, List, [], ◌∷◌, ◌++◌, map,
  append_assoc, append-nil, arith, ltb, leb, ◌==◌, if◌then◌else◌, Bool-cases, Option-cases, length,
  length-append, get_elem?, set, get_or, take, drop, replicate, update, Outcome, ok, panic,
  panic_if, ◌>>=◌, ◌>>◌, >>=-eq-ok,
}

pub data State : Type 0 where
  unused used sleeping runnable running zombie : State

-- `struct proc`, as far as scheduling goes. `chan` is an address, 0 for none; `parent` is an index
-- of the table.
pub record Proc : Type 0 where
  pub state : State
  pub chan : ℕ
  pub killed : Bool
  pub xstate : ℕ
  pub pid : ℕ
  pub parent : Option ℕ

abbrev pub nproc : ℕ
nproc = 64

-- `proc`, `nextpid` and the index of `initproc`.
pub record Table : Type 0 where
  pub proc : ℕ → Proc
  pub nextpid : ℕ
  pub initproc : ℕ

abbrev pub is_state : State → State → Bool
is_state unused unused = true
is_state used used = true
is_state sleeping sleeping = true
is_state runnable runnable = true
is_state running running = true
is_state zombie zombie = true
is_state _ _ = false

abbrev pub is_parent : Option ℕ → ℕ → Bool
is_parent none i = false
is_parent (some q) i = q == i

abbrev pub put_proc : Table → ℕ → Proc → Table
put_proc t i p = record t { proc = update t.proc i p }

-- `proc[i].parent` and the address that `&proc[i]` is as a channel.
abbrev pub proc_chan : ℕ → ℕ
proc_chan i = i + 1

-- A process whose fields `freeproc` has cleared. The memory that it gives back is another module's.
unfoldable pub freeproc : Proc → Proc
freeproc p = record { state = unused; chan = 0; killed = false; xstate = 0; pid = 0; parent = none }

-- `nextpid` is an `int`, as its bit pattern.
unfoldable pub allocpid : Table → ℕ × Table
allocpid t = (t.nextpid, record t { nextpid = (t.nextpid + 1) % 2 ^ 32 })

-- The loop of `allocproc`, with `rest` processes to look at.
unfoldable pub find_unused : (rest i : ℕ) → Table → Option ℕ
find_unused zero i t = none
find_unused (suc rest) i t =
    let later = find_unused rest (suc i) t in
    if is_state (t.proc i).state unused then some i else later

-- `have_memory` tells whether the trap frame and the page table could be allocated.
unfoldable pub allocproc : (have_memory : Bool) → Table → Option ℕ × Table
unfolding find_unused allocpid freeproc
allocproc have_memory t = elim (find_unused nproc 0 t) [
  | none ↦ (none, t)
  | some i ↦
      let (pid, t') = allocpid t in
      let p = record (t'.proc i) { pid = pid; state = used } in
      if have_memory then (some i, put_proc t' i p) else (none, put_proc t' i (freeproc p))
]

-- The table when the kernel starts, after `procinit`: static storage is zero.
abbrev pub procinit : Table
procinit = record {
  proc =
      λ i. record { state = unused; chan = 0; killed = false; xstate = 0; pid = 0; parent = none };
  nextpid = 1;
  initproc = 0;
}

-- `userinit`, `none` where it would write through a null pointer.
unfoldable pub userinit : (have_memory : Bool) → Table → Option Table
unfolding allocproc
userinit have_memory t =
    let (found, t') = allocproc have_memory t in
    elim found [
      | none ↦ none
      | some i ↦
          some (record (put_proc t' i (record (t'.proc i) { state = runnable })) { initproc = i })
    ]

-- The first section of `fork`, which ends with the release of the child's lock: the child's slot, or
-- `none` for -1. `copied` tells whether `uvmcopy` succeeded.
unfoldable pub fork_alloc : (have_memory copied : Bool) → Table → Option ℕ × Table
unfolding allocproc
fork_alloc have_memory copied t =
    let (found, t') = allocproc have_memory t in
    elim found [
      | none ↦ (none, t')
      | some i ↦ if copied then (some i, t') else (none, put_proc t' i (freeproc (t'.proc i)))
    ]

-- The section of `fork` under `wait_lock`.
unfoldable pub fork_parent : (me i : ℕ) → Table → Table
fork_parent me i t = put_proc t i (record (t.proc i) { parent = some me })

-- The last section of `fork`.
unfoldable pub fork_start : (i : ℕ) → Table → Table
fork_start i t = put_proc t i (record (t.proc i) { state = runnable })

-- `fork` by process `me`, when no other step comes between its sections: the child's pid, or `none`
-- for -1.
unfoldable pub fork : (have_memory copied : Bool) (me : ℕ) → Table → Option ℕ × Table
unfolding fork_alloc fork_parent fork_start
fork have_memory copied me t =
    let (found, t') = fork_alloc have_memory copied t in
    elim found [
      | none ↦ (none, t')
      | some i ↦ (some (t'.proc i).pid, fork_start i (fork_parent me i t'))
    ]

-- The body of the loop of `wakeup`.
unfoldable pub wake : (chan : ℕ) → Proc → Proc
wake chan p =
    if is_state p.state sleeping && (p.chan == chan) then record p { state = runnable } else p

unfoldable pub wakeup_loop : (me chan rest i : ℕ) → Table → Table
unfolding wake
wakeup_loop me chan zero i t = t
wakeup_loop me chan (suc rest) i t =
    wakeup_loop me chan rest (suc i) (if i == me then t else put_proc t i (wake chan (t.proc i)))

-- `wakeup` by process `me`, which is not woken.
unfoldable pub wakeup : (me chan : ℕ) → Table → Table
unfolding wakeup_loop
wakeup me chan t = wakeup_loop me chan nproc 0 t

unfoldable pub reparent_loop : (me rest i : ℕ) → Table → Table
unfolding wakeup
reparent_loop me zero i t = t
reparent_loop me (suc rest) i t = reparent_loop me rest (suc i) (
    if is_parent (t.proc i).parent me
    then wakeup me (proc_chan t.initproc)
        (put_proc t i (record (t.proc i) { parent = some t.initproc }))
    else t)

-- `reparent` of the children of `me`, called by `me`.
unfoldable pub reparent : (me : ℕ) → Table → Table
unfolding reparent_loop
reparent me t = reparent_loop me nproc 0 t

-- `wakeup(p->parent)`
unfoldable pub wake_parent : (me : ℕ) → Option ℕ → Table → Table
unfolding wakeup
wake_parent me none t = wakeup me 0 t
wake_parent me (some q) t = wakeup me (proc_chan q) t

-- `exit` by process `me`, after its files and its directory are closed, up to the switch.
unfoldable pub exit : (me status : ℕ) → Table → Outcome Table
unfolding reparent wake_parent
exit me status t =
    let t' = reparent me t in
    let t'' = wake_parent me (t'.proc me).parent t' in
    do
      panic_if (me == t.initproc) "init exiting"
      ok (put_proc t'' me (record (t''.proc me) { xstate = status; state = zombie }))

-- How one round of the loop of `wait` ends: it returns a pid, or -1, or the caller sleeps on itself.
pub data Waited : Type 0 where
  reaped : (pid : ℕ) → Table → Waited
  wait_fails : Waited
  wait_sleeps : Waited

-- The scan of `wait` by process `me`. `copied` tells whether `copyout` of the status succeeded (or
-- none was asked for).
unfoldable pub wait_scan : (copied : Bool) (me rest i : ℕ) (havekids killed : Bool) → Table → Waited
unfolding freeproc
wait_scan copied me zero i havekids killed t =
    if not havekids || killed then wait_fails else wait_sleeps
wait_scan copied me (suc rest) i havekids killed t =
    let pp = t.proc i in
    let child = is_parent pp.parent me in
    let later = wait_scan copied me rest (suc i) (havekids || child) killed t in
    if child && is_state pp.state zombie
    then (if copied then reaped pp.pid (put_proc t i (freeproc pp)) else wait_fails)
    else later

unfoldable pub wait : (copied : Bool) (me : ℕ) → Table → Waited
unfolding wait_scan
wait copied me t = wait_scan copied me nproc 0 false (t.proc me).killed t

-- The body of the loop of `scheduler`: a runnable process is chosen.
unfoldable pub schedule : (i : ℕ) → Table → Table
schedule i t =
    if is_state (t.proc i).state runnable
    then put_proc t i (record (t.proc i) { state = running })
    else t

-- `yield` up to the switch.
unfoldable pub yield_cpu : (me : ℕ) → Table → Table
yield_cpu me t = put_proc t me (record (t.proc me) { state = runnable })

-- `sleep` up to the switch, and after it.
unfoldable pub sleep_enter : (me chan : ℕ) → Table → Table
sleep_enter me chan t = put_proc t me (record (t.proc me) { chan = chan; state = sleeping })

unfoldable pub sleep_leave : (me : ℕ) → Table → Table
sleep_leave me t = put_proc t me (record (t.proc me) { chan = 0 })

-- The loop of `kill`: whether a process with the pid was found, and the table.
unfoldable pub kill_loop : (pid rest i : ℕ) → Table → Bool × Table
kill_loop pid zero i t = (false, t)
kill_loop pid (suc rest) i t =
    let p = t.proc i in
    let later = kill_loop pid rest (suc i) t in
    if p.pid == pid
    then (
      true,
      put_proc t i (record p {
        killed = true;
        state = if is_state p.state sleeping then runnable else p.state;
      }),
    )
    else later

unfoldable pub kill : (pid : ℕ) → Table → Bool × Table
unfolding kill_loop
kill pid t = kill_loop pid nproc 0 t

unfoldable pub setkilled : (i : ℕ) → Table → Table
setkilled i t = put_proc t i (record (t.proc i) { killed = true })
