-- ===== src/Proc/Exit.antt =====
-- kernel/proc.c: `exit` keeps the process tree sound, its orphans included.
use zept_os.Prelude.{
  ℕ, ◌<◌, ◌≡◌, ◌≢◌, ◌∙◌, ap, sym, refl, ◌⊎◌, inl, inr, true, false, ◌&&◌, Option, none, some, arith,
  ltb, ◌==◌, if◌then◌else◌, Bool-cases, Option-cases, ok, panic, update_cases, update_self,
}
use mathlib.Core.Path.{subst}
use zept_os.Proc.{
  unused, running, zombie, Proc, nproc, Table, is_state, is_parent, put_proc, proc_chan, reparent,
  wake_parent, exit,
}
use zept_os.Proc.Wakeup.{SameTable, Kept, wakeup_lem, wakeup-Kept, reparent-Kept}
use zept_os.Proc.Sound.{IsSound, alive, started, Fits, Fits-IsSound, wakeup-IsSound}
use zept_os.Proc.Fork.{childless}

is_parent-eq : (o : Option ℕ) (q : ℕ) → is_parent o q ≡ true → o ≡ some q
is_parent-eq none q h = cc
is_parent-eq (some p) q h = ap some (ground arith)

-- The parent of a process after `reparent`.
unfoldable pub Heir : (t : Table) (me : ℕ) → Option ℕ → Option ℕ → Type 0
Heir t me before after =
    (after ≡ some t.initproc) ⊎ ((after ≡ before) × (is_parent before me ≡ false))

pub reparent-Heir :
    (t : Table) (me j : ℕ) → j < nproc → Heir t me (t.proc j).parent ((reparent me t).proc j).parent
unfolding Heir
reparent-Heir t me j b =
    let e = ((reparent-Kept me t).1 j).1 in
    elim (Bool-cases (is_parent (t.proc j).parent me)) [
      | inl h ↦ inl (e ∙ rw h (if_true _ _ b))
      | inr h ↦ inr (e ∙ rw h (if_false _ _), h)
    ]
  where
    if_true : (x y : Option ℕ) → j < nproc → (if ltb j nproc && true then x else y) ≡ x
    if_true x y b = ground (arith, b)

    if_false : (x y : Option ℕ) → (if ltb j nproc && false then x else y) ≡ y
    if_false x y = ground arith

reparent-IsSound : (me : ℕ) (t : Table) → IsSound t → IsSound (reparent me t)
unfolding Heir
reparent-IsSound me t s =
    let (same, all) = reparent-Kept me t in
    record {
      counting = rw same.next s.counting;
      init_in = rw same.init s.init_in;
      init_alive = rw same.init (stays _ _ (all t.initproc).0 s.init_alive);
      unused_pid = λ i b. rw (like_free _ _ (all i).0, (all i).0.pid) (s.unused_pid i b);
      numbered = λ i b. rw ((all i).0.pid, same.next) (s.numbered i b);
      distinct = λ i j b c. rw ((all i).0.pid, (all j).0.pid) (s.distinct i j b c);
      owned = λ i b h. elim (reparent-Heir t me i b) [
        | inl e ↦ inr (t.initproc, e)
        | inr (e, x) ↦ rw (e, same.init) (s.owned i b (like_started _ _ (all i).0 h))
      ];
      parents = λ i q b h. elim (reparent-Heir t me i b) [
        | inl e ↦
            let d : t.initproc ≡ q = cc in
            subst (λ q. (q < nproc) × (alive ((reparent me t).proc q).state ≡ true)) d
              (s.init_in, stays _ _ (all t.initproc).0 s.init_alive)
        | inr (e, x) ↦ let (c, a) = s.parents i q b (sym e ∙ h) in (c, stays _ _ (all q).0 a)
      ];
    }
  where
    stays : (p q : Proc) → Kept p q → alive p.state ≡ true → alive q.state ≡ true
    stays p q k a = ground (arith, k.state, a)

    like_free : (p q : Proc) → Kept p q → is_state q.state unused ≡ is_state p.state unused
    like_free p q k = ground (arith, k.state)

    like_started : (p q : Proc) → Kept p q → started q.state ≡ true → started p.state ≡ true
    like_started p q k h = ground (arith, k.state, h)

-- After `reparent` by a process that is not the first, it has no children.
reparent_childless :
    (me : ℕ) (t : Table)
    → (me ≢ t.initproc)
    → (j : ℕ) → j < nproc
    → ((reparent me t).proc j).parent ≢ some me
unfolding Heir
reparent_childless me t d j b h = elim (reparent-Heir t me j b) [
  | inl e ↦ d (ground (arith, e, h))
  | inr (e, x) ↦ let y : (t.proc j).parent ≡ some me = sym e ∙ h in ground (arith, rw y at x)
]

pub still_running : (p q : Proc) → Kept p q → p.state ≡ running → q.state ≡ running
still_running p q k e = elim k.state [ inl h ↦ h ∙ e | inr (h, g) ↦ ground (arith, h, e) ]

zombie-Fits :
    (t : Table) (me status : ℕ)
    → IsSound t
    → me < nproc
    → (t.proc me).state ≡ running
    → (me ≢ t.initproc)
    → ((j : ℕ) → j < nproc → (t.proc j).parent ≢ some me)
    → Fits t me (record (t.proc me) { xstate = status; state = zombie })
zombie-Fits t me status s b e first childless = record {
  free = sym (ap (λ x. is_state x unused) e) ∙ s.unused_pid me b;
  numbered = s.numbered me b;
  distinct = λ j c d h g. d (s.distinct me j b c h g);
  owned = λ h. s.owned me b (ap started e);
  parent =
      λ q h. let (c, a) = s.parents me q b h in (c, a, λ d. childless me b (h ∙ ap some (sym d)));
  needed = inr (first, childless);
}

-- The table when an exiting process has woken its parent.
abbrev pub left : (me : ℕ) → Table → Table
left me t = let t' = reparent me t in wake_parent me (t'.proc me).parent t'

left-IsSound : (me : ℕ) (t : Table) → IsSound t → IsSound (left me t)
unfolding wake_parent
left-IsSound me t s = elim (Option-cases ((reparent me t).proc me).parent) [
  | inl e ↦ rw (e, wake_parent) (wakeup-IsSound me 0 (reparent me t) (reparent-IsSound me t s))
  | inr (q, e) ↦
      rw (e, wake_parent)
        (wakeup-IsSound me (proc_chan q) (reparent me t) (reparent-IsSound me t s))
]

pub wake_parent-Kept :
    (me : ℕ) (o : Option ℕ) (t : Table)
    → SameTable t (wake_parent me o t)
      × ((j : ℕ)
          → Kept (t.proc j) ((wake_parent me o t).proc j)
            × (((wake_parent me o t).proc j).parent ≡ (t.proc j).parent))
unfolding wake_parent
wake_parent-Kept me none t = ((wakeup_lem me 0 t).1, wakeup-Kept me 0 t)
wake_parent-Kept me (some q) t = ((wakeup_lem me (proc_chan q) t).1, wakeup-Kept me (proc_chan q) t)

-- What holds in the table that an exiting process leaves.
pub record Left (t : Table) (me : ℕ) (u : Table) : Type 0 where
  pub sound : IsSound u
  pub init : u.initproc ≡ t.initproc
  pub me_running : (u.proc me).state ≡ running
  pub me_pid : (u.proc me).pid ≡ (t.proc me).pid
  pub me_childless : (j : ℕ) → j < nproc → (u.proc j).parent ≢ some me
  pub orphan :
      (j : ℕ) → j < nproc → (t.proc j).parent ≡ some me → (u.proc j).parent ≡ some t.initproc

pub left-Left :
    (me : ℕ) (t : Table)
    → (t.proc me).state ≡ running
    → (me ≢ t.initproc)
    → IsSound t
    → Left t me (left me t)
unfolding Heir
left-Left me t e d s =
    let (same, all) = reparent-Kept me t in
    let (same', all') = wake_parent-Kept me ((reparent me t).proc me).parent (reparent me t) in
    record {
      sound = left-IsSound me t s;
      init = same'.init ∙ same.init;
      me_running = still_running _ _ (all' me).0 (still_running _ _ (all me).0 e);
      me_pid = (all' me).0.pid ∙ (all me).0.pid;
      me_childless = λ j b h. reparent_childless me t d j b (sym (all' j).1 ∙ h);
      orphan = λ j b h.
          (all' j).1
          ∙ elim (reparent-Heir t me j b) [ inl g ↦ g | inr (g, x) ↦ ground (arith, rw h at x) ];
    }

-- A sound table after process `me` has exited with the status `code`: `me` is a zombie that keeps its
-- pid and has no children, and its children are the first process's.
pub record Exited (t : Table) (me code : ℕ) (u : Table) : Type 0 where
  pub sound : IsSound u
  pub dead : (u.proc me).state ≡ zombie
  pub status : (u.proc me).xstate ≡ code
  pub pid : (u.proc me).pid ≡ (t.proc me).pid
  pub childless : (j : ℕ) → j < nproc → (u.proc j).parent ≢ some me
  pub adopted :
      (j : ℕ) → j < nproc → (t.proc j).parent ≡ some me → (u.proc j).parent ≡ some t.initproc

pub zombie-Exited :
    (t : Table) (me code : ℕ) (u : Table)
    → me < nproc
    → (me ≢ t.initproc)
    → Left t me u
    → Exited t me code (put_proc u me (record (u.proc me) { xstate = code; state = zombie }))
zombie-Exited t me code u b d l = record {
  sound =
      Fits-IsSound u me _
        (zombie-Fits u me code l.sound b l.me_running (λ h. d (h ∙ l.init)) l.me_childless) l.sound;
  dead = ap (λ p. p.state) (update_self u.proc me _);
  status = ap (λ p. p.xstate) (update_self u.proc me _);
  pid = ap (λ p. p.pid) (update_self u.proc me _) ∙ l.me_pid;
  childless = λ j c.
      update_cases (λ v. v.parent ≢ some me) u.proc me _ j (λ h. l.me_childless me b)
        (λ h. l.me_childless j c);
  adopted = λ j c e.
      update_cases (λ v. v.parent ≡ some t.initproc) u.proc me _ j
        (λ h. ap (λ k. (u.proc k).parent) h ∙ l.orphan j c e) (λ h. l.orphan j c e);
}

-- The table that `exit` ends with, where it ends with one.
pub exit_ok :
    (me code : ℕ) (t : Table)
    → me ≢ t.initproc
    → exit me code t
      ≡ ok
          (put_proc (left me t) me (record ((left me t).proc me) { xstate = code; state = zombie }))
unfolding exit
exit_ok me code t d = rw not_first refl
  where
    not_first : (me == t.initproc) ≡ false
    not_first = ground (arith, d)

exit_first : (me code : ℕ) (t : Table) → me ≡ t.initproc → exit me code t ≡ panic "init exiting"
unfolding exit
exit_first me code t d = rw the_first refl
  where
    the_first : (me == t.initproc) ≡ true
    the_first = ground (arith, d)

-- When a running process of a sound table exits, the first process panics; another one leaves a
-- sound table in which it is a zombie with its status and its pid, has no children, and its children
-- are the first process's.
pub exit-Exited :
    (me code : ℕ) (t : Table)
    → me < nproc
    → (t.proc me).state ≡ running
    → IsSound t
    → (me ≡ t.initproc → exit me code t ≡ panic "init exiting")
      × (me ≢ t.initproc → (u : Table) × (exit me code t ≡ ok u) × Exited t me code u)
exit-Exited me code t b e s = (
  exit_first me code t,
  λ d. (_, exit_ok me code t d, zombie-Exited t me code (left me t) b d (left-Left me t e d s)),
)
