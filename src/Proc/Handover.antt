-- ===== src/Proc/Handover.antt =====
-- kernel/proc.c: a parent that sleeps in `wait` is woken when its child exits, and finds it.
use zept_os.Prelude.{
  ℕ, ◌<◌, ◌≡◌, ◌≢◌, ◌∙◌, ap, sym, refl, ◌⊎◌, inl, inr, true, false, not, ◌&&◌, Option, some, arith,
  ltb, ◌==◌, if◌then◌else◌, ok, update_self, update_other,
}
use zept_os.Proc.{
  sleeping, runnable, running, zombie, nproc, Table, is_state, is_parent, put_proc, proc_chan,
  wakeup, reparent, wake_parent, exit, reaped, wait, schedule, sleep_leave,
}
use zept_os.Proc.Wakeup.{wakeup_lem, reparent-Kept}
use zept_os.Proc.Sound.{IsSound, put-IsSound}
use zept_os.Proc.Exit.{left, left-Left, zombie-Exited, exit_ok, wake_parent-Kept}
use zept_os.Proc.Wait.{DeadChild, wait-WaitEnds, wait-IsSound, reaps}

-- A process that `wakeup` keeps asleep or has woken is runnable after it is woken.
woken_parent :
    (me q : ℕ) (t : Table)
    → q < nproc
    → (q ≢ me)
    → ((t.proc q).state ≡ sleeping) ⊎ ((t.proc q).state ≡ runnable)
    → (t.proc q).chan ≡ proc_chan q
    → ((wakeup me (proc_chan q) t).proc q).state ≡ runnable
woken_parent me q t b d s c =
    (ap (λ p. p.state) ((wakeup_lem me (proc_chan q) t).0 q))
    ∙ elim s [ inl h ↦ rw (guard h) refl | inr h ↦ rw (awake h) h ]
  where
    guard :
        (t.proc q).state ≡ sleeping
        → (ltb q nproc
            && not (q == me)
            && (is_state (t.proc q).state sleeping && ((t.proc q).chan == proc_chan q)))
          ≡ true
    guard h = ground (arith, b, d, h, c)

    awake :
        (t.proc q).state ≡ runnable
        → (ltb q nproc
            && not (q == me)
            && (is_state (t.proc q).state sleeping && ((t.proc q).chan == proc_chan q)))
          ≡ false
    awake h = ground (arith, h)

-- The parent of process `me` sleeps in `wait`.
pub record Waits (t : Table) (me q : ℕ) : Type 0 where
  pub inside : q < nproc
  pub parent : (t.proc me).parent ≡ some q
  pub asleep : (t.proc q).state ≡ sleeping
  pub on_itself : (t.proc q).chan ≡ proc_chan q

left_parent :
    (t : Table) (me q : ℕ)
    → me < nproc
    → (t.proc me).state ≡ running
    → Waits t me q
    → (((left me t).proc me).parent ≡ some q) × (((left me t).proc q).state ≡ runnable)
unfolding wake_parent
left_parent t me q b e w =
    let (same, all) = reparent-Kept me t in
    let apart : q ≢ me = λ d. (let h = rw d at w.asleep in ground (arith, h, e)) in
    let stays : ((reparent me t).proc me).parent ≡ some q =
      (all me).1 ∙ rw w.parent (keeps me q apart (some t.initproc)) in
    let s : ((reparent me t).proc q).state ≡ sleeping ⊎ ((reparent me t).proc q).state ≡ runnable =
      ground (arith, (all q).0.state, w.asleep) in
    (
      ((wake_parent-Kept me _ (reparent me t)).1 me).1 ∙ stays,
      rw (stays, wake_parent)
          (woken_parent me q (reparent me t) w.inside apart s ((all q).0.chan ∙ w.on_itself)),
    )
  where
    keeps :
        (me q : ℕ)
        → (q ≢ me)
        → (o : Option ℕ) → (if ltb me nproc && (q == me) then o else some q) ≡ some q
    keeps me q d o = ground (arith, d)

-- A process that is chosen by `scheduler` and leaves `sleep`.
abbrev pub resumed : (q : ℕ) → Table → Table
resumed q u = sleep_leave q (schedule q u)

resumed_lem :
    (u : Table) (q : ℕ)
    → (u.proc q).state ≡ runnable
    → IsSound u
    → (((resumed q u).proc q).state ≡ running)
      × ((j : ℕ) → q ≢ j → (resumed q u).proc j ≡ u.proc j)
      × IsSound (resumed q u)
unfolding schedule sleep_leave
resumed_lem u q e s = rw (chosen e) (
  ap (λ p. p.state) (update_self v.proc q _) ∙ ap (λ p. p.state) (update_self u.proc q _),
  λ j d. update_other v.proc q _ j d ∙ update_other u.proc q _ j d,
  put-IsSound v q _ (record { pid = refl; parent = refl; free = refl; fresh = refl; dead = refl })
      (put-IsSound u q _
        (record {
          pid = refl;
          parent = refl;
          free = ground (arith, e);
          fresh = ground (arith, e);
          dead = ground (arith, e);
        })
        s),
)
  where
    v : Table
    v = put_proc u q (record (u.proc q) { state = running })

    chosen : (u.proc q).state ≡ runnable → is_state (u.proc q).state runnable ≡ true
    chosen h = ap (λ x. is_state x runnable) h

resumed_child : (t u : Table) (q j : ℕ) → u.proc j ≡ t.proc j → DeadChild t q j → DeadChild u q j
resumed_child t u q j e c = record {
  child = record { inside = c.child.inside; parent = rw e c.child.parent };
  dead = rw e c.dead;
}

is_own_parent : (o : Option ℕ) (q : ℕ) → o ≡ some q → is_parent o q ≡ true
is_own_parent o q e = rw e (ground arith)

pid_positive :
    (t : Table) {q : ℕ} (j : ℕ) {p : ℕ} → IsSound t → DeadChild t q j → p ≡ (t.proc j).pid → 0 < p
pid_positive t j s c e =
    let h = s.unused_pid j c.child.inside in let d = c.dead in ground (arith, h, d, e)

-- When process `me` of a sound table exits while its parent `q` sleeps in `wait`, `q` is runnable, and
-- when it is scheduled its next round of `wait` frees a child that has exited, `me` or another, and
-- returns its pid, which is not 0.
pub exit_then_wait :
    (me q code : ℕ) (t : Table)
    → me < nproc
    → (t.proc me).state ≡ running
    → (me ≢ t.initproc)
    → Waits t me q
    → IsSound t
    → (u : Table) × (exit me code t ≡ ok u)
      × ((u.proc q).state ≡ runnable)
      × ((j : ℕ) × (w : Table) × (p : ℕ) × DeadChild u q j
          × (0 < p)
          × (p ≡ (u.proc j).pid)
          × (wait true q (resumed q u) ≡ reaped p w)
          × IsSound w)
exit_then_wait me q code t b e d w s =
    let x = zombie-Exited t me code (left me t) b d (left-Left me t e d s) in
    let u =
      put_proc (left me t) me (record ((left me t).proc me) { xstate = code; state = zombie }) in
    let (mine, ready) = left_parent t me q b e w in
    let apart : q ≢ me = λ h. (let g = rw h at w.asleep in ground (arith, g, e)) in
    let awake : (u.proc q).state ≡ runnable =
      ap (λ p. p.state) (update_other (left me t).proc me _ q (λ h. apart (sym h))) ∙ ready in
    let parent : (u.proc me).parent ≡ some q =
      ap (λ p. p.parent) (update_self (left me t).proc me _) ∙ mine in
    (u, exit_ok me code t d, awake, found u me q b apart awake parent x.dead x.sound)
  where
    found :
        (u : Table) (me q : ℕ)
        → me < nproc
        → (q ≢ me)
        → (u.proc q).state ≡ runnable
        → (u.proc me).parent ≡ some q
        → (u.proc me).state ≡ zombie
        → IsSound u
        → (j : ℕ) × (w : Table) × (p : ℕ) × DeadChild u q j
          × (0 < p)
          × (p ≡ (u.proc j).pid)
          × (wait true q (resumed q u) ≡ reaped p w)
          × IsSound w
    found u me q b apart awake parent dead s =
        let (runs, others, s') = resumed_lem u q awake s in
        let (p, w, e, (j, c, f)) =
          reaps (resumed q u) q me _
            (resumed_child u (resumed q u) q me (others me apart) (record {
              child = record { inside = b; parent = is_own_parent _ q parent };
              dead = ap (λ x. is_state x zombie) dead;
            }))
            (wait-WaitEnds true q (resumed q u)) in
        let d : q ≢ j = λ h. (let g = rw (sym h) at c.dead in ground (arith, runs, g)) in
        (
          j,
          w,
          p,
          resumed_child (resumed q u) u q j (sym (others j d)) c,
          pid_positive _ j s' c f,
          f ∙ ap (λ p. p.pid) (others j d),
          e,
          wait-IsSound true q (resumed q u) w p s' e,
        )
