-- ===== src/Proc/Sound.antt =====
-- kernel/proc.c: the process tree. What holds of the table whatever the processes do.
use zept_os.Prelude.{
  ℕ, zero, suc, ◌<◌, ◌≡◌, ◌≢◌, ◌∙◌, ap, sym, refl, ◌⊎◌, inl, inr, Bool, true, not, ◌&&◌, some,
  arith, ◌==◌, Bool-cases, update, update_cases,
}
use mathlib.Core.Path.{subst}
use zept_os.Proc.{
  State, unused, used, runnable, running, zombie, Proc, nproc, Table, is_state, put_proc, wakeup,
  schedule, kill_loop,
}
use zept_os.Proc.Wakeup.{SameTable, Kept, wakeup_lem, wakeup-Kept}

-- A process that runs or may run again.
abbrev pub alive : State → Bool
alive s = not (is_state s unused) && not (is_state s zombie)

-- A slot that `fork` or `userinit` has finished.
abbrev pub started : State → Bool
started s = not (is_state s unused) && not (is_state s used)

-- The table is sound: a slot is unused when its pid is 0, pids are below `nextpid` and each is one
-- process's, a process that was started has a parent unless it is the first, and a parent is alive.
pub record IsSound (t : Table) : Type 0 where
  pub counting : 0 < t.nextpid
  pub init_in : t.initproc < nproc
  pub init_alive : alive (t.proc t.initproc).state ≡ true
  pub unused_pid : (i : ℕ) → i < nproc → is_state (t.proc i).state unused ≡ ((t.proc i).pid == 0)
  pub numbered : (i : ℕ) → i < nproc → (t.proc i).pid < t.nextpid
  pub distinct :
      (i j : ℕ)
      → i < nproc
      → j < nproc
      → 0 < (t.proc i).pid
      → (t.proc i).pid ≡ (t.proc j).pid
      → i ≡ j
  pub owned :
      (i : ℕ)
      → i < nproc
      → started (t.proc i).state ≡ true
      → (i ≡ t.initproc) ⊎ ((q : ℕ) × ((t.proc i).parent ≡ some q))
  pub parents :
      (i q : ℕ)
      → i < nproc
      → (t.proc i).parent ≡ some q
      → (q < nproc) × (alive (t.proc q).state ≡ true)

-- Two processes that the tree does not tell apart.
pub record Alike (p q : Proc) : Type 0 where
  pub pid : q.pid ≡ p.pid
  pub parent : q.parent ≡ p.parent
  pub free : is_state q.state unused ≡ is_state p.state unused
  pub fresh : is_state q.state used ≡ is_state p.state used
  pub dead : is_state q.state zombie ≡ is_state p.state zombie

Alike-refl : (p : Proc) → Alike p p
Alike-refl p = record { pid = refl; parent = refl; free = refl; fresh = refl; dead = refl }

alive-Alike : (p q : Proc) → Alike p q → alive q.state ≡ alive p.state
alive-Alike p q a = rw (a.free, a.dead) refl

-- A table whose processes are like those of a sound table is sound.
pub Alike-IsSound :
    (t u : Table)
    → SameTable t u
    → ((i : ℕ) → i < nproc → Alike (t.proc i) (u.proc i))
    → IsSound t
    → IsSound u
Alike-IsSound t u same like s = record {
  counting = rw same.next s.counting;
  init_in = rw same.init s.init_in;
  init_alive = rw same.init (alive-Alike _ _ (like t.initproc s.init_in) ∙ s.init_alive);
  unused_pid = λ i b. rw ((like i b).free, (like i b).pid) (s.unused_pid i b);
  numbered = λ i b. rw ((like i b).pid, same.next) (s.numbered i b);
  distinct = λ i j b c. rw ((like i b).pid, (like j c).pid) (s.distinct i j b c);
  owned = λ i b. rw ((like i b).free, (like i b).fresh, (like i b).parent, same.init) (s.owned i b);
  parents = λ i q b e.
      let (c, a) = s.parents i q b (sym (like i b).parent ∙ e) in
      (c, alive-Alike _ _ (like q c) ∙ a);
}

-- One process is put back, like before.
pub put-IsSound :
    (t : Table) (i : ℕ) (p : Proc) → Alike (t.proc i) p → IsSound t → IsSound (put_proc t i p)
put-IsSound t i p a =
    Alike-IsSound t (put_proc t i p) (record { next = refl; init = refl })
      (λ j b.
        update_cases (Alike (t.proc j)) t.proc i p j (λ e. subst (λ k. Alike (t.proc k) p) e a)
          (λ e. Alike-refl (t.proc j)))

-- A process that runs does something with its state, and stays alive.
pub run_put-IsSound :
    (t : Table) (i chan : ℕ) (s : State)
    → alive (t.proc i).state ≡ true
    → alive s ≡ true
    → is_state s used ≡ is_state (t.proc i).state used
    → (killed : Bool) → IsSound t
    → IsSound (put_proc t i (record (t.proc i) { chan = chan; state = s; killed = killed }))
run_put-IsSound t i chan s a b c killed = put-IsSound t i _ (record {
  pid = refl;
  parent = refl;
  free = ground (arith, a, b);
  fresh = ground (arith, a, b, c);
  dead = ground (arith, a, b);
})

pub Kept-Alike : (p q : Proc) → Kept p q → q.parent ≡ p.parent → Alike p q
Kept-Alike p q k e = record {
  pid = k.pid;
  parent = e;
  free = ground (arith, k.state);
  fresh = ground (arith, k.state);
  dead = ground (arith, k.state);
}

pub wakeup-IsSound : (me chan : ℕ) (t : Table) → IsSound t → IsSound (wakeup me chan t)
wakeup-IsSound me chan t =
    Alike-IsSound t (wakeup me chan t) (wakeup_lem me chan t).1
      (λ i b. let k = wakeup-Kept me chan t i in Kept-Alike _ _ k.0 k.1)

pub schedule-IsSound : (i : ℕ) (t : Table) → IsSound t → IsSound (schedule i t)
unfolding schedule
schedule-IsSound i t s = elim (Bool-cases (is_state (t.proc i).state runnable)) [
  | inl e ↦ rw e (
      run_put-IsSound t i (t.proc i).chan running (ground (arith, e)) refl (ground (arith, e))
        (t.proc i).killed s)
  | inr e ↦ rw e s
]

pub kill_loop-IsSound :
    (pid rest i : ℕ) (t : Table) → IsSound t → IsSound (kill_loop pid rest i t).1
unfolding kill_loop
kill_loop-IsSound pid zero i t s = s
kill_loop-IsSound pid (suc rest) i t s = elim (Bool-cases ((t.proc i).pid == pid)) [
  | inl e ↦ rw e (
      put-IsSound t i _
        (record {
          pid = refl;
          parent = refl;
          free = ground arith;
          fresh = ground arith;
          dead = ground arith;
        })
        s)
  | inr e ↦ rw e (kill_loop-IsSound pid rest (suc i) t s)
]

-- What process `p` needs so that a sound table with it at `i` is sound.
pub record Fits (t : Table) (i : ℕ) (p : Proc) : Type 0 where
  pub free : is_state p.state unused ≡ (p.pid == 0)
  pub numbered : p.pid < t.nextpid
  pub distinct : (j : ℕ) → j < nproc → i ≢ j → 0 < p.pid → p.pid ≢ (t.proc j).pid
  pub owned : started p.state ≡ true → (i ≡ t.initproc) ⊎ ((q : ℕ) × (p.parent ≡ some q))
  pub parent : (q : ℕ) → p.parent ≡ some q → (q < nproc) × (alive (t.proc q).state ≡ true) × (i ≢ q)
  pub needed :
      (alive p.state ≡ true)
      ⊎ ((i ≢ t.initproc) × ((j : ℕ) → j < nproc → (t.proc j).parent ≢ some i))

Fits-alive :
    (t : Table) (i : ℕ) (p : Proc)
    → Fits t i p
    → (j q : ℕ) → (t.proc j).parent ≡ some q
    → j < nproc
    → alive (t.proc q).state ≡ true
    → alive ((put_proc t i p).proc q).state ≡ true
Fits-alive t i p f j q e b a =
    update_cases (λ v. alive v.state ≡ true) t.proc i p q
      (λ h. elim f.needed [ inl x ↦ x | inr (x, y) ↦ absurd (y j b (e ∙ ap some (sym h))) ])
      (λ h. a)

pub Fits-IsSound :
    (t : Table) (i : ℕ) (p : Proc) → Fits t i p → IsSound t → IsSound (put_proc t i p)
Fits-IsSound t i p f s = record {
  counting = s.counting;
  init_in = s.init_in;
  init_alive =
      update_cases (λ v. alive v.state ≡ true) t.proc i p t.initproc
        (λ h. elim f.needed [ inl x ↦ x | inr (x, y) ↦ absurd (x h) ]) (λ h. s.init_alive);
  unused_pid = λ j b.
      update_cases (λ v. is_state v.state unused ≡ (v.pid == 0)) t.proc i p j (λ h. f.free)
        (λ h. s.unused_pid j b);
  numbered = λ j b.
      update_cases (λ v. v.pid < t.nextpid) t.proc i p j (λ h. f.numbered) (λ h. s.numbered j b);
  distinct = λ j k b c.
      update_cases (λ v. 0 < v.pid → v.pid ≡ (update t.proc i p k).pid → j ≡ k) t.proc i p j
        (λ h.
          update_cases (λ w. 0 < p.pid → p.pid ≡ w.pid → j ≡ k) t.proc i p k (λ g x e. sym h ∙ g)
            (λ g x e. absurd (f.distinct k c g x e)))
        (λ h.
          update_cases (λ w. 0 < (t.proc j).pid → (t.proc j).pid ≡ w.pid → j ≡ k) t.proc i p k
            (λ g x e. absurd (f.distinct j b h (rw e at x) (sym e))) (λ g. s.distinct j k b c));
  owned = λ j b.
      update_cases
        (λ v. started v.state ≡ true → (j ≡ t.initproc) ⊎ ((q : ℕ) × (v.parent ≡ some q))) t.proc i
        p j
        (λ h.
          subst (λ k. started p.state ≡ true → (k ≡ t.initproc) ⊎ ((q : ℕ) × (p.parent ≡ some q))) h
            f.owned)
        (λ h. s.owned j b);
  parents = λ j q b.
      update_cases
        (λ v. v.parent ≡ some q → (q < nproc) × (alive ((put_proc t i p).proc q).state ≡ true))
        t.proc i p j
        (λ h e.
          let (c, a, d) = f.parent q e in
          (c, update_cases (λ w. alive w.state ≡ true) t.proc i p q (λ g. absurd (d g)) (λ g. a)))
        (λ h e. let (c, a) = s.parents j q b e in (c, Fits-alive t i p f j q e b a));
}
