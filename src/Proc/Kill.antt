-- ===== src/Proc/Kill.antt =====
-- kernel/proc.c: which process `kill` marks.
use zept_os.Prelude.{
  ℕ, zero, suc, ◌+◌, ◌<◌, ◌≡◌, ◌≢◌, ◌∙◌, ap, sym, refl, ◌⊎◌, inl, inr, Bool, true, false, Option,
  none, some, arith, ◌==◌, if◌then◌else◌, Bool-cases, update, update_cases, update_self, ℕ_discrete,
  ◌%◌, ◌^◌,
}
use zept_os.Proc.{
  unused, used, sleeping, runnable, Proc, nproc, Table, is_state, put_proc, allocpid, find_unused,
  allocproc, fork, fork_alloc, fork_parent, fork_start, kill_loop, kill,
}
use zept_os.Proc.Sound.{IsSound}

-- What `kill` does to the process that it finds.
abbrev pub marked : Proc → Proc
marked p = record p {
  killed = true;
  state = if is_state p.state sleeping then runnable else p.state;
}

-- The result of `kill`: the first process with the pid is marked, or there is none.
pub record Marked (t : Table) (pid j : ℕ) (r : Bool × Table) : Type 0 where
  pub result : r.0 ≡ true
  pub inside : j < nproc
  pub same_pid : (t.proc j).pid ≡ pid
  pub first : (k : ℕ) → k < j → (t.proc k).pid ≢ pid
  pub table : r.1 ≡ put_proc t j (marked (t.proc j))

pub Kills : (t : Table) (pid : ℕ) → Bool × Table → Type 0
Kills t pid r =
    ((j : ℕ) × Marked t pid j r)
    ⊎ ((r.0 ≡ false) × (r.1 ≡ t) × ((k : ℕ) → k < nproc → (t.proc k).pid ≢ pid))

kill_loop-Kills :
    (pid rest i : ℕ) (t : Table)
    → i + rest ≡ nproc
    → ((k : ℕ) → k < i → (t.proc k).pid ≢ pid)
    → Kills t pid (kill_loop pid rest i t)
unfolding kill_loop Kills
kill_loop-Kills pid zero i t e before = inr (refl, refl, λ k b. before k (omega arith))
kill_loop-Kills pid (suc rest) i t e before = elim (Bool-cases ((t.proc i).pid == pid)) [
  | inl h ↦ rw h (
      inl (
        i,
        record {
          result = refl;
          inside = omega arith;
          same_pid = ground (arith, h);
          first = before;
          table = refl;
        },
      ))
  | inr h ↦ rw h (
      kill_loop-Kills pid rest (suc i) t (omega arith) (λ k b. elim (ℕ_discrete k i) [
        | yes d ↦ rw d (ground (arith, h))
        | no d ↦ before k (omega (arith, b, d))
      ]))
]

-- `kill` marks the first process with the pid as killed, makes it runnable if it sleeps, changes
-- nothing else, and returns whether there is one.
pub kill-Kills : (pid : ℕ) (t : Table) → Kills t pid (kill pid t)
unfolding kill
kill-Kills pid t = kill_loop-Kills pid nproc 0 t refl (λ k b. absurd (omega arith))

find_unused-same :
    (rest i : ℕ) (t u : Table)
    → ((j : ℕ) → is_state (u.proc j).state unused ≡ is_state (t.proc j).state unused)
    → find_unused rest i u ≡ find_unused rest i t
unfolding find_unused
find_unused-same zero i t u h = refl
find_unused-same (suc rest) i t u h = rw (h i, find_unused-same rest (suc i) t u h) refl

abbrev found : Table → Bool × Table
found u = (true, u)

marked-unused : (p : Proc) → is_state p.state unused ≡ true → marked p ≡ record p { killed = true }
marked-unused p h = ap (λ s. record p { killed = true; state = s }) awake
  where
    awake : (if is_state p.state sleeping then runnable else p.state) ≡ p.state
    awake = ground (arith, h)

-- In a sound table, `kill(0)` finds the slot that `allocproc` gives next.
kill_zero :
    (rest i k : ℕ) (t : Table)
    → IsSound t
    → i + rest ≡ nproc
    → find_unused rest i t ≡ some k
    → kill_loop 0 rest i t ≡ found (put_proc t k (record (t.proc k) { killed = true }))
unfolding kill_loop find_unused
kill_zero zero i k t s e f = cc
kill_zero (suc rest) i k t s e f =
    let g = s.unused_pid i (omega arith) in
    elim (Bool-cases (is_state (t.proc i).state unused)) [
      | inl h ↦
          let d : i ≡ k = (let x = rw h at f in cc) in
          rw (sym g ∙ h) (
            ap (λ p. found (put_proc t i p)) (marked-unused (t.proc i) h)
            ∙ ap (λ k. found (put_proc t k (record (t.proc k) { killed = true }))) d)
      | inr h ↦ rw (sym g ∙ h) (kill_zero rest (suc i) k t s (omega arith) (rw h at f))
    ]

kill_zero_table :
    (k : ℕ) (t : Table)
    → IsSound t
    → find_unused nproc 0 t ≡ some k
    → kill 0 t ≡ found (put_proc t k (record (t.proc k) { killed = true }))
unfolding kill
kill_zero_table k t s f = kill_zero nproc 0 k t s refl f

-- Slot `k` with the next pid.
abbrev with_pid : (k : ℕ) → Table → Table
with_pid k t = record (put_proc t k (record (t.proc k) { pid = t.nextpid; state = used })) {
  nextpid = (t.nextpid + 1) % 2 ^ 32;
}

abbrev got : (k : ℕ) → Table → Option ℕ × Table
got k u = (some k, u)

allocproc_found :
    (k : ℕ) (t : Table) → find_unused nproc 0 t ≡ some k → allocproc true t ≡ got k (with_pid k t)
unfolding allocproc allocpid
allocproc_found k t f = rw (f, allocproc) refl

-- `fork` from the result of `allocproc` on, with the memory copied.
abbrev forked : (me : ℕ) → Option ℕ × Table → Option ℕ × Table
forked me (found, t) = elim found [
  | none ↦ (none, t)
  | some i ↦ (some (t.proc i).pid, fork_start i (fork_parent me i t))
]

fork_alloc_found :
    (k : ℕ) (t : Table)
    → find_unused nproc 0 t ≡ some k
    → fork_alloc true true t ≡ got k (with_pid k t)
unfolding fork_alloc
fork_alloc_found k t f =
    rw (allocproc_found k t f, fork_alloc) (λ j. (some k, (allocproc_found k t f j).1))

fork-forked : (me : ℕ) (t : Table) → fork true true me t ≡ forked me (fork_alloc true true t)
unfolding fork
fork-forked me t = refl

-- A `fork` that succeeds gives the next pid to the slot and keeps what the slot has of `killed`.
fork_slot :
    (me k : ℕ) (t : Table)
    → find_unused nproc 0 t ≡ some k
    → ((fork true true me t).0 ≡ some t.nextpid)
      × (((fork true true me t).1.proc k).killed ≡ (t.proc k).killed)
      × (((fork true true me t).1.proc k).pid ≡ t.nextpid)
unfolding fork_start fork_parent
fork_slot me k t f = rw (fork-forked me t ∙ ap (forked me) (fork_alloc_found k t f)) (
  ap (λ p. some p.pid) slot,
  ap (λ (p : Proc). p.killed) started ∙ ap (λ p. p.killed) slot,
  ap (λ (p : Proc). p.pid) started ∙ ap (λ p. p.pid) slot,
)
  where
    slot :
        update t.proc k (record (t.proc k) { pid = t.nextpid; state = used }) k
        ≡ record (t.proc k) { pid = t.nextpid; state = used }
    slot = update_self t.proc k _

    started :
        (fork_start k (fork_parent me k (with_pid k t))).proc k
        ≡ record ((with_pid k t).proc k) { parent = some me; state = runnable }
    started =
        update_self (fork_parent me k (with_pid k t)).proc k _
        ∙ ap (λ (p : Proc). record p { state = runnable }) (update_self (with_pid k t).proc k _)

-- After `kill(0)` in a sound table with an unused slot, the next `fork` that succeeds makes a process
-- that is marked as killed.
pub kill_zero-fork :
    (me k : ℕ) (t : Table)
    → IsSound t
    → find_unused nproc 0 t ≡ some k
    → (kill 0 t).0 ≡ true
      × ((fork true true me (kill 0 t).1).0 ≡ some t.nextpid)
      × (((fork true true me (kill 0 t).1).1.proc k).killed ≡ true)
      × (((fork true true me (kill 0 t).1).1.proc k).pid ≡ t.nextpid)
kill_zero-fork me k t s f =
    let u = put_proc t k (record (t.proc k) { killed = true }) in
    let e = kill_zero_table k t s f in
    let (x, y, z) = fork_slot me k u (find_unused-same nproc 0 t u (same_free t k) ∙ f) in
    rw e (refl, x, y ∙ ap (λ p. p.killed) (update_self t.proc k _), z)
  where
    same_free :
        (t : Table) (k j : ℕ)
        → is_state ((put_proc t k (record (t.proc k) { killed = true })).proc j).state unused
          ≡ is_state (t.proc j).state unused
    same_free t k j =
        update_cases (λ p. is_state p.state unused ≡ is_state (t.proc j).state unused) t.proc k
          (record (t.proc k) { killed = true }) j
          (λ d. ap (λ k. is_state (t.proc k).state unused) d) (λ d. refl)
