-- ===== src/Spinlock/Exclusion.antt =====
-- kernel/spinlock.c: CPUs that acquire and release one lock, interleaved at the accesses to it.
use zept_os.Prelude.{
  ℕ, ◌≡◌, refl, Bool, true, false, not, none, some, List, [], ◌∷◌, arith, Outcome, ok, panic_if,
  ◌>>=◌, ◌>>◌, if◌then◌else◌, update, inl, inr, Bool-cases, ℕ_discrete, ◌-◌, sym, ap, ◌∙◌,
  update_self, update_other,
}
use mathlib.Core.Path.{subst}
use zept_os.Spinlock.{Cpu, Spinlock, initlock, push_off, pop_off, test_and_set, holding}

-- Where a CPU stands: not at the lock; in the loop of `acquire`; past the swap that got the lock,
-- before `lk->cpu` is set; in the critical section; past `lk->cpu = 0` of `release`; past the store
-- that releases the lock, before `pop_off`.
pub data Phase : Type 0 where
  outside spinning won inside leaving released : Phase

pub record System : Type 0 where
  pub lock : Spinlock
  pub phase : ℕ → Phase
  pub cpus : ℕ → Cpu

-- No CPU holds a lock; `enabled` tells which CPUs have interrupts enabled.
unfoldable pub start : (enabled : ℕ → Bool) → System
unfolding initlock
start enabled = record {
  lock = initlock;
  phase = λ _. outside;
  cpus = λ id. record { noff = 0; intena = false; intr = enabled id };
}

-- The next step of CPU `id`: an access to the lock, `push_off` before the first one, or `pop_off` after
-- the last.
unfoldable pub advance : Phase → ℕ → System → Outcome System
unfolding holding test_and_set push_off pop_off
advance outside id s =
    let s' = record s { cpus = update s.cpus id (push_off (s.cpus id)) } in
    do
      panic_if (holding s'.lock id) "acquire"
      ok (record s' { phase = update s'.phase id spinning })
advance spinning id s =
    let (old, lk) = test_and_set s.lock in
    if old
    then ok (record s { lock = lk })
    else ok (record s { lock = lk; phase = update s.phase id won })
advance won id s =
    ok (record s { lock = record s.lock { cpu = some id }; phase = update s.phase id inside })
advance inside id s = do
  panic_if (not (holding s.lock id)) "release"
  ok (record s { lock = record s.lock { cpu = none }; phase = update s.phase id leaving })
advance leaving id s =
    ok (record s { lock = record s.lock { locked = false }; phase = update s.phase id released })
advance released id s = do
  c ← pop_off (s.cpus id)
  ok (record s { cpus = update s.cpus id c; phase = update s.phase id outside })

unfoldable pub step : ℕ → System → Outcome System
unfolding advance
step id s = advance (s.phase id) id s

-- The CPUs move in the order of the schedule.
unfoldable pub run : List ℕ → System → Outcome System
run [] s = ok s
run (id ∷ ids) s = step id s >>= run ids

-- The CPU has the lock: it is between the successful swap and the store that releases it.
abbrev pub has_lock : Phase → Bool
has_lock outside = false
has_lock spinning = false
has_lock won = true
has_lock inside = true
has_lock leaving = true
has_lock released = false

-- The CPU's nesting depth: 1 from `push_off` to `pop_off`, with interrupts off.
abbrev pub Nests : Phase → Cpu → Type 0
Nests outside c = c.noff ≡ 0
Nests spinning c = (c.noff ≡ 1) × (c.intr ≡ false)
Nests won c = (c.noff ≡ 1) × (c.intr ≡ false)
Nests inside c = (c.noff ≡ 1) × (c.intr ≡ false)
Nests leaving c = (c.noff ≡ 1) × (c.intr ≡ false)
Nests released c = (c.noff ≡ 1) × (c.intr ≡ false)

record IsSafe (s : System) : Type 0 where
  unlocked : s.lock.locked ≡ false → (i : ℕ) → has_lock (s.phase i) ≡ false
  alone : (i j : ℕ) → has_lock (s.phase i) ≡ true → has_lock (s.phase j) ≡ true → i ≡ j
  named : (i : ℕ) → s.phase i ≡ inside → s.lock.cpu ≡ some i
  owned : (i : ℕ) → s.lock.cpu ≡ some i → s.phase i ≡ inside
  nested : (i : ℕ) → Nests (s.phase i) (s.cpus i)

start-IsSafe : (enabled : ℕ → Bool) → IsSafe (start enabled)
unfolding start
start-IsSafe enabled = record {
  unlocked = λ e i. refl;
  alone = λ i j p q. cc;
  named = λ i e. cc;
  owned = λ i e. cc;
  nested = λ i. refl;
}

-- The CPU `id` goes to the phase `p`, with the CPU state `c`; the other ones stay.
move_Nests :
    (id : ℕ) (p : Phase) (c : Cpu) (phase : ℕ → Phase) (cpus : ℕ → Cpu)
    → Nests p c
    → ((i : ℕ) → Nests (phase i) (cpus i))
    → (i : ℕ) → Nests (update phase id p i) (update cpus id c i)
move_Nests id p c phase cpus n all i = elim (ℕ_discrete id i) [
  | yes d ↦
      subst (λ (z : Phase × Cpu). Nests z.0 z.1)
        (λ k. (
          sym (ap (update phase id p) (sym d) ∙ update_self phase id p) k,
          sym (ap (update cpus id c) (sym d) ∙ update_self cpus id c) k,
        ))
        n
  | no d ↦
      subst (λ (z : Phase × Cpu). Nests z.0 z.1)
        (λ k. (sym (update_other phase id p i d) k, sym (update_other cpus id c i d) k)) (all i)
]

-- The same, where the CPU's state stays too.
stay_Nests :
    (id : ℕ) (p : Phase) (phase : ℕ → Phase) (cpus : ℕ → Cpu)
    → Nests p (cpus id)
    → ((i : ℕ) → Nests (phase i) (cpus i))
    → (i : ℕ) → Nests (update phase id p i) (cpus i)
stay_Nests id p phase cpus n all i = elim (ℕ_discrete id i) [
  | yes d ↦
      subst (λ (z : Phase × Cpu). Nests z.0 z.1)
        (λ k. (sym (ap (update phase id p) (sym d) ∙ update_self phase id p) k, cpus (d k))) n
  | no d ↦ subst (λ z. Nests z (cpus i)) (sym (update_other phase id p i d)) (all i)
]

module _ (id : ℕ) (s : System) (safe : IsSafe s) where
  here : (p : Phase) → s.phase id ≡ p → Nests p (s.cpus id)
  here p e = subst (λ z. Nests z (s.cpus id)) e (safe.nested id)

  advance-IsSafe : (p : Phase) → s.phase id ≡ p → (t : System) × (advance p id s ≡ ok t) × IsSafe t
  unfolding advance push_off pop_off
  advance-IsSafe outside e = (
    record s { cpus = update s.cpus id (push_off (s.cpus id)); phase = update s.phase id spinning },
    ground (arith, safe.owned id),
    record {
      unlocked = λ f i. ground (arith, safe.unlocked f i);
      alone = λ i j. ground (arith, safe.alone i j);
      named = λ i. ground (arith, safe.named i);
      owned = λ i. ground (arith, safe.owned i);
      nested =
          let n = here outside e in
          move_Nests id spinning (push_off (s.cpus id)) s.phase s.cpus (omega (arith, n), refl)
            safe.nested;
    },
  )
  advance-IsSafe spinning e = elim (Bool-cases s.lock.locked) [
    | inl busy ↦ (s, ground arith, safe)
    | inr free ↦ (
      record s { lock = record s.lock { locked = true }; phase = update s.phase id won },
      ground arith,
      record {
        unlocked = λ f i. cc;
        alone = λ i j. ground (arith, safe.unlocked free i, safe.unlocked free j);
        named = λ i. ground (arith, safe.named i);
        owned = λ i. ground (arith, safe.owned i);
        nested = stay_Nests id won s.phase s.cpus (here spinning e) safe.nested;
      },
    )
  ]
  advance-IsSafe won e = (
    record s { lock = record s.lock { cpu = some id }; phase = update s.phase id inside },
    refl,
    record {
      unlocked = λ f i. ground (arith, safe.unlocked f id, safe.unlocked f i);
      alone = λ i j. ground (arith, safe.alone i j, safe.alone id j, safe.alone i id);
      named = λ i. ground (arith, safe.named i, safe.alone id i);
      owned = λ i. ground (arith, safe.owned i);
      nested = stay_Nests id inside s.phase s.cpus (here won e) safe.nested;
    },
  )
  advance-IsSafe inside e = (
    record s { lock = record s.lock { cpu = none }; phase = update s.phase id leaving },
    ground (arith, safe.named id, λ (f : s.lock.locked ≡ false). safe.unlocked f id),
    record {
      unlocked = λ f i. ground (arith, safe.unlocked f id, safe.unlocked f i);
      alone = λ i j. ground (arith, safe.alone i j, safe.alone id j, safe.alone i id);
      named = λ i. ground (arith, safe.named i, safe.alone id i);
      owned = λ i. cc;
      nested = stay_Nests id leaving s.phase s.cpus (here inside e) safe.nested;
    },
  )
  advance-IsSafe leaving e = (
    record s { lock = record s.lock { locked = false }; phase = update s.phase id released },
    refl,
    record {
      unlocked = λ f i. ground (arith, safe.alone id i);
      alone = λ i j. ground (arith, safe.alone i j);
      named = λ i. ground (arith, safe.named i, safe.alone id i);
      owned = λ i. ground (arith, safe.owned i);
      nested = stay_Nests id released s.phase s.cpus (here leaving e) safe.nested;
    },
  )
  advance-IsSafe released e =
      let (depth, off) = here released e in
      let c : Cpu = record (s.cpus id) { noff = (s.cpus id).noff - 1; intr = (s.cpus id).intena } in
      (
        record s { cpus = update s.cpus id c; phase = update s.phase id outside },
        popped depth off,
        record {
          unlocked = λ f i. ground (arith, safe.unlocked f i);
          alone = λ i j. ground (arith, safe.alone i j);
          named = λ i. ground (arith, safe.named i);
          owned = λ i. ground (arith, safe.owned i);
          nested = move_Nests id outside c s.phase s.cpus (omega (arith, depth)) safe.nested;
        },
      )
    where
      popped :
          (s.cpus id).noff ≡ 1
          → (s.cpus id).intr ≡ false
          → advance released id s
            ≡ ok (record s {
              cpus =
                  update s.cpus id
                    (record (s.cpus id) { noff = (s.cpus id).noff - 1; intr = (s.cpus id).intena });
              phase = update s.phase id outside;
            })
      popped depth off = rw (off, depth) refl

run-IsSafe : (ids : List ℕ) (s : System) → IsSafe s → (t : System) × (run ids s ≡ ok t) × IsSafe t
unfolding run step
run-IsSafe [] s safe = (s, refl, safe)
run-IsSafe (id ∷ ids) s safe =
    let (t, e, safe') = advance-IsSafe id s safe (s.phase id) refl in
    let (u, f, safe'') = run-IsSafe ids t safe' in (u, rw e f, safe'')

has_lock-Nests : (p : Phase) (c : Cpu) → has_lock p ≡ true → Nests p c → c.intr ≡ false
has_lock-Nests outside c e n = cc
has_lock-Nests spinning c e n = n.1
has_lock-Nests won c e n = n.1
has_lock-Nests inside c e n = n.1
has_lock-Nests leaving c e n = n.1
has_lock-Nests released c e n = cc

-- However the CPUs interleave, from a state in which none holds a lock, no `acquire`, no `release` and
-- no `pop_off` in it panics, two CPUs between the successful swap and the releasing store are one and
-- the same, and such a CPU has its interrupts off.
pub run_exclusive :
    (enabled : ℕ → Bool) (ids : List ℕ)
    → (t : System) × (run ids (start enabled) ≡ ok t)
      × ((i j : ℕ) → has_lock (t.phase i) ≡ true → has_lock (t.phase j) ≡ true → i ≡ j)
      × ((i : ℕ) → has_lock (t.phase i) ≡ true → (t.cpus i).intr ≡ false)
run_exclusive enabled ids =
    let (t, e, safe) = run-IsSafe ids (start enabled) (start-IsSafe enabled) in
    (t, e, safe.alone, λ i h. has_lock-Nests (t.phase i) (t.cpus i) h (safe.nested i))
