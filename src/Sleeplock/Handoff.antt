-- ===== src/Sleeplock/Handoff.antt =====
-- kernel/sleeplock.c: interleavings of the processes that use one sleep lock.
use zept_os.Prelude.{
  ℕ, ◌<◌, ◌≡◌, ◌∙◌, ap, sym, refl, ◌⊎◌, inl, inr, Bool, true, false, not, ◌&&◌, arith, ltb, ◌==◌,
  if◌then◌else◌, Bool-cases, update, update_cases, ℕ_discrete,
}
use mathlib.Core.Path.{subst}
use zept_os.Proc.{Proc, Table, nproc, running, runnable, sleeping, is_state, sleep_enter, wakeup}
use zept_os.Proc.Wakeup.{wakeup_lem}
use zept_os.Proc.Reach.{Step}
use zept_os.Sleeplock.{
  Sleeplock, initsleeplock, has_lock, waits_for, acquiresleep, releasesleep, holdingsleep,
}

-- A process sleeps on the channel.
abbrev pub asleep_on : ℕ → Proc → Bool
asleep_on chan p = is_state p.state sleeping && (p.chan == chan)

-- The lock at address `chan`, the table, and which processes have come out of `acquiresleep` and
-- not yet gone into `releasesleep`.
pub record World : Type 0 where
  pub lock : Sleeplock
  pub table : Table
  pub held : ℕ → Bool

-- A step of the system. A process that runs does a round of `acquiresleep`, or releases the lock
-- that it holds; or the kernel does another step of its own, in which no process begins to sleep on
-- the lock and a holder keeps its pid.
pub data Moves (chan : ℕ) : World → World → Type 0 where
  locks :
      (me : ℕ) (w : World) (lk : Sleeplock)
      → me < nproc
      → (w.table.proc me).state ≡ running
      → acquiresleep chan me w.lock w.table ≡ has_lock lk
      → Moves chan w (record { lock = lk; table = w.table; held = update w.held me true })
  blocks :
      (me : ℕ) (w : World) (t : Table)
      → me < nproc
      → (w.table.proc me).state ≡ running
      → acquiresleep chan me w.lock w.table ≡ waits_for t
      → Moves chan w (record w { table = t })
  unlocks :
      (me : ℕ) (w : World)
      → me < nproc
      → (w.table.proc me).state ≡ running
      → w.held me ≡ true
      → Moves chan w (record {
        lock = (releasesleep chan me w.lock w.table).0;
        table = (releasesleep chan me w.lock w.table).1;
        held = update w.held me false;
      })
  elsewhere :
      (w : World) (u : Table)
      → Step w.table u
      → ((j : ℕ) → asleep_on chan (u.proc j) ≡ true → asleep_on chan (w.table.proc j) ≡ true)
      → ((j : ℕ) → w.held j ≡ true → (u.proc j).pid ≡ (w.table.proc j).pid)
      → Moves chan w (record w { table = u })

pub data Run (chan : ℕ) : World → World → Type 0 where
  stay : (w : World) → Run chan w w
  next : (w x y : World) → Run chan w x → Moves chan x y → Run chan w y

-- What holds in every state: a free lock has no holder and nobody sleeps on it, a held one has one
-- holder, whose pid it records.
pub record IsExclusive (chan : ℕ) (w : World) : Type 0 where
  pub free : w.lock.locked ≡ false → (j : ℕ) → w.held j ≡ false
  pub quiet : w.lock.locked ≡ false → (j : ℕ) → j < nproc → asleep_on chan (w.table.proc j) ≡ false
  pub unique : (i j : ℕ) → w.held i ≡ true → w.held j ≡ true → i ≡ j
  pub owner :
      (i : ℕ) → w.held i ≡ true → (w.lock.locked ≡ true) × (w.lock.pid ≡ (w.table.proc i).pid)

round_cases :
    (chan me : ℕ) (lk : Sleeplock) (t : Table)
    → ((lk.locked ≡ false)
        × (acquiresleep chan me lk t ≡ has_lock (record { locked = true; pid = (t.proc me).pid })))
      ⊎ ((lk.locked ≡ true) × (acquiresleep chan me lk t ≡ waits_for (sleep_enter me chan t)))
unfolding acquiresleep
round_cases chan me lk t = elim (Bool-cases lk.locked) [
  | inl h ↦ inr (h, rw h refl)
  | inr h ↦ inl (h, rw h refl)
]

differ : true ≡ false → ⊥
differ q = cc

-- With no holder, the process that has just set the flag is the only one.
only_holder :
    (held : ℕ → Bool) (me i : ℕ)
    → ((j : ℕ) → held j ≡ false)
    → update held me true i ≡ true
    → me ≡ i
only_holder held me i none_held = let a = none_held i in λ x. ground (arith, a, x)

locks-IsExclusive :
    (chan me : ℕ) (w : World)
    → w.lock.locked ≡ false
    → IsExclusive chan w
    → IsExclusive chan (record {
      lock = record { locked = true; pid = (w.table.proc me).pid };
      table = w.table;
      held = update w.held me true;
    })
locks-IsExclusive chan me w h s = record {
  free = λ e. cc;
  quiet = λ e. cc;
  unique =
      λ i j x y. sym (only_holder w.held me i (s.free h) x) ∙ only_holder w.held me j (s.free h) y;
  owner = λ i x. (refl, ap (λ k. (w.table.proc k).pid) (only_holder w.held me i (s.free h) x));
}

-- A process goes to sleep on the lock that another holds.
blocks-IsExclusive :
    (chan me : ℕ) (w : World)
    → w.lock.locked ≡ true
    → IsExclusive chan w
    → IsExclusive chan (record w { table = sleep_enter me chan w.table })
unfolding sleep_enter
blocks-IsExclusive chan me w h s = record {
  free = s.free;
  quiet = λ e. cc;
  unique = s.unique;
  owner = λ i x.
      let (a, b) = s.owner i x in
      (
        a,
        b
            ∙ update_cases (λ p. (w.table.proc i).pid ≡ p.pid) w.table.proc me _ i
                (λ d. ap (λ k. (w.table.proc k).pid) (sym d)) (λ d. refl),
      );
}

quiet_if :
    (chan : ℕ) (p : Proc) (a b : Bool)
    → ((a ≡ true) × (b ≡ true)) ⊎ (p.state ≡ running)
    → asleep_on chan (
        if a && b && (is_state p.state sleeping && (p.chan == chan))
        then record p { state = runnable }
        else p)
      ≡ false
quiet_if chan p a b (inl (x, y)) =
    rw (x, y) (elim (Bool-cases (asleep_on chan p)) [ inl h ↦ rw h refl | inr h ↦ rw h h ])
quiet_if chan p a b (inr e) = ground (arith, e)

-- Nobody sleeps on the channel after `wakeup` by a process that runs.
wakeup_quiet :
    (chan me : ℕ) (t : Table)
    → (t.proc me).state ≡ running
    → (j : ℕ) → j < nproc
    → asleep_on chan ((wakeup me chan t).proc j) ≡ false
wakeup_quiet chan me t e j b = rw ((wakeup_lem me chan t).0 j) (
    quiet_if chan (t.proc j) (ltb j nproc) (not (j == me)) (elim (ℕ_discrete j me) [
      | yes d ↦ inr (rw d e)
      | no d ↦ inl (ground (arith, b), ground (arith, d))
    ]))

unlocks-IsExclusive :
    (chan me : ℕ) (w : World)
    → (w.table.proc me).state ≡ running
    → w.held me ≡ true
    → IsExclusive chan w
    → IsExclusive chan (record {
      lock = (releasesleep chan me w.lock w.table).0;
      table = (releasesleep chan me w.lock w.table).1;
      held = update w.held me false;
    })
unfolding releasesleep
unlocks-IsExclusive chan me w e h s = record {
  free = λ f j. none_left j;
  quiet = λ f j b. wakeup_quiet chan me w.table e j b;
  unique = λ i j x y. absurd (differ (sym x ∙ none_left i));
  owner = λ i x. absurd (differ (sym x ∙ none_left i));
}
  where
    none_left : (j : ℕ) → update w.held me false j ≡ false
    none_left j =
        update_cases (λ v. v ≡ false) w.held me false j (λ d. refl)
          (λ d. elim (Bool-cases (w.held j)) [ inl x ↦ absurd (d (s.unique me j h x)) | inr x ↦ x ])

Moves-IsExclusive :
    (chan : ℕ) (w x : World) → Moves chan w x → IsExclusive chan w → IsExclusive chan x
Moves-IsExclusive chan _ _ (locks me w lk b e h) s = elim (round_cases chan me w.lock w.table) [
  | inl (f, g) ↦
      subst
        (λ l. IsExclusive chan (record { lock = l; table = w.table; held = update w.held me true }))
        (has_lock-inj _ _ (sym g ∙ h)) (locks-IsExclusive chan me w f s)
  | inr (f, g) ↦ absurd (lock_or_wait _ _ (sym h ∙ g))
]
  where
    has_lock-inj : (a c : Sleeplock) → has_lock a ≡ has_lock c → a ≡ c
    has_lock-inj a c q = cc

    lock_or_wait : (a : Sleeplock) (c : Table) → has_lock a ≡ waits_for c → ⊥
    lock_or_wait a c q = cc
Moves-IsExclusive chan _ _ (blocks me w t b e h) s = elim (round_cases chan me w.lock w.table) [
  | inl (f, g) ↦ absurd (lock_or_wait _ _ (sym g ∙ h))
  | inr (f, g) ↦
      subst (λ u. IsExclusive chan (record w { table = u })) (waits_for-inj _ _ (sym g ∙ h))
        (blocks-IsExclusive chan me w f s)
]
  where
    waits_for-inj : (a c : Table) → waits_for a ≡ waits_for c → a ≡ c
    waits_for-inj a c q = cc

    lock_or_wait : (a : Sleeplock) (c : Table) → has_lock a ≡ waits_for c → ⊥
    lock_or_wait a c q = cc
Moves-IsExclusive chan _ _ (unlocks me w b e h) s = unlocks-IsExclusive chan me w e h s
Moves-IsExclusive chan _ _ (elsewhere w u st quiet pids) s = record {
  free = s.free;
  quiet = λ e j c.
      let a = s.quiet e j c in
      elim (Bool-cases (asleep_on chan (u.proc j))) [
        | inl x ↦ absurd (differ (sym (quiet j x) ∙ a))
        | inr x ↦ x
      ];
  unique = s.unique;
  owner = λ i x. let (a, b) = s.owner i x in (a, b ∙ sym (pids i x));
}

Run-IsExclusive : (chan : ℕ) (w x : World) → Run chan w x → IsExclusive chan w → IsExclusive chan x
Run-IsExclusive chan _ _ (stay w) s = s
Run-IsExclusive chan _ _ (next w x y r m) s =
    Moves-IsExclusive chan x y m (Run-IsExclusive chan w x r s)

-- However the processes are interleaved from a free lock on which nobody sleeps, at most one process
-- holds the lock, the lock is then set and `holdingsleep` is true for the holder, and a process sleeps
-- on the lock only while a process has it set: no wakeup is lost.
pub one_holder :
    (chan : ℕ) (t : Table) (w : World)
    → ((j : ℕ) → j < nproc → asleep_on chan (t.proc j) ≡ false)
    → Run chan (record { lock = initsleeplock; table = t; held = λ _. false }) w
    → ((i j : ℕ) → w.held i ≡ true → w.held j ≡ true → i ≡ j)
      × ((i : ℕ) → w.held i ≡ true → holdingsleep i w.lock w.table ≡ true)
      × ((j : ℕ) → j < nproc → asleep_on chan (w.table.proc j) ≡ true → w.lock.locked ≡ true)
unfolding holdingsleep
one_holder chan t w q r =
    let s = Run-IsExclusive chan _ w r (record {
      free = λ e j. refl;
      quiet = λ e. q;
      unique = λ i j x y. absurd (differ (sym x));
      owner = λ i x. absurd (differ (sym x));
    }) in
    (
      s.unique,
      λ i x. let (a, b) = s.owner i x in rw (a, b) (ground arith),
      λ j b x. elim (Bool-cases w.lock.locked) [
        | inl y ↦ y
        | inr y ↦ absurd (differ (sym x ∙ s.quiet y j b))
      ],
    )
