-- ===== src/Proc/Wait.antt =====
-- kernel/proc.c: what `wait` finds, and that a child that exits is found.
use zept_os.Prelude.{
  ℕ, zero, suc, ◌+◌, ◌≤◌, ◌<◌, ◌≡◌, sym, refl, ◌⊎◌, inl, inr, Bool, true, false, not, ◌&&◌, ◌||◌,
  arith, if◌then◌else◌, Bool-cases, ℕ_discrete,
}
use mathlib.Core.Path.{subst}
use zept_os.Proc.{
  zombie, nproc, Table, is_state, is_parent, put_proc, freeproc, Waited, reaped, wait_fails,
  wait_sleeps, wait_scan, wait,
}
use zept_os.Proc.Sound.{IsSound, Fits-IsSound}
use zept_os.Proc.Fork.{freeproc-Fits, childless}

-- Process `j` is a child of `me`, and a child that has exited.
pub record Child (t : Table) (me j : ℕ) : Type 0 where
  pub inside : j < nproc
  pub parent : is_parent (t.proc j).parent me ≡ true

pub record DeadChild (t : Table) (me j : ℕ) : Type 0 where
  pub child : Child t me j
  pub dead : is_state (t.proc j).state zombie ≡ true

-- What the rounds of the scan of `wait` from process `i` on mean: `havekids` and `killed` are its flags.
ScanEnds : (t : Table) (copied : Bool) (me i : ℕ) (havekids killed : Bool) → Waited → Type 0
ScanEnds t copied me i havekids killed (reaped p u) =
    (j : ℕ) × DeadChild t me j
    × (copied ≡ true)
    × (p ≡ (t.proc j).pid)
    × (u ≡ put_proc t j (freeproc (t.proc j)))
ScanEnds t copied me i havekids killed wait_fails =
    ((copied ≡ false) × ((j : ℕ) × DeadChild t me j))
    ⊎ (((j : ℕ) → i ≤ j → DeadChild t me j → ⊥)
        × (((havekids ≡ false) × ((j : ℕ) → i ≤ j → Child t me j → ⊥)) ⊎ (killed ≡ true)))
ScanEnds t copied me i havekids killed wait_sleeps =
    ((havekids ≡ true) ⊎ ((j : ℕ) × Child t me j))
    × (killed ≡ false)
    × ((j : ℕ) → i ≤ j → DeadChild t me j → ⊥)

outside : (t : Table) (me i j : ℕ) → i + 0 ≡ nproc → i ≤ j → Child t me j → ⊥
outside t me i j e l c = let b = c.inside in omega arith

no_dead : (t : Table) (me i j : ℕ) → i + 0 ≡ nproc → i ≤ j → DeadChild t me j → ⊥
no_dead t me i j e l c = outside t me i j e l c.child

scan_end :
    (t : Table) (copied : Bool) (me i : ℕ) (havekids killed : Bool)
    → i + 0 ≡ nproc
    → ScanEnds t copied me i havekids killed
        (if not havekids || killed then wait_fails else wait_sleeps)
unfolding ScanEnds
scan_end t copied me i false killed e =
    inr (λ j. no_dead t me i j e, inl (refl, λ j. outside t me i j e))
scan_end t copied me i true true e = inr (λ j. no_dead t me i j e, inr refl)
scan_end t copied me i true false e = (inl refl, refl, λ j. no_dead t me i j e)

still_none :
    (t : Table) (me i : ℕ)
    → i < nproc
    → (is_parent (t.proc i).parent me && is_state (t.proc i).state zombie) ≡ false
    → ((j : ℕ) → suc i ≤ j → DeadChild t me j → ⊥)
    → (j : ℕ) → i ≤ j
    → DeadChild t me j
    → ⊥
still_none t me i b e z j l c = elim (ℕ_discrete i j) [
  | yes d ↦
      let p = rw (sym d) at c.child.parent in
      let q = rw (sym d) at c.dead in ground (arith, e, p, q)
  | no d ↦ z j (omega (arith, l, d)) c
]

-- A process that is no dead child does not end the scan.
scan_step :
    (t : Table) (copied : Bool) (me i : ℕ) (havekids killed : Bool) (w : Waited)
    → i < nproc
    → (is_parent (t.proc i).parent me && is_state (t.proc i).state zombie) ≡ false
    → ScanEnds t copied me (suc i) (havekids || is_parent (t.proc i).parent me) killed w
    → ScanEnds t copied me i havekids killed w
unfolding ScanEnds
scan_step t copied me i havekids killed (reaped p u) b e h = h
scan_step t copied me i havekids killed wait_fails b e h = elim h [
  | inl x ↦ inl x
  | inr (z, w) ↦ inr (
    still_none t me i b e z,
    elim w [
      | inl (x, y) ↦ inl (
        or_left _ _ x,
        λ j l c. elim (ℕ_discrete i j) [
          | yes d ↦ let p = rw (sym d) at c.parent in ground (arith, x, p)
          | no d ↦ y j (omega (arith, l, d)) c
        ],
      )
      | inr x ↦ inr x
    ],
  )
]
  where
    or_left : (a c : Bool) → (a || c) ≡ false → a ≡ false
    or_left a c h = ground arith
scan_step t copied me i havekids killed wait_sleeps b e (x, y, z) =
    (kids (Bool-cases havekids), y, still_none t me i b e z)
  where
    kids : (havekids ≡ true) ⊎ (havekids ≡ false) → (havekids ≡ true) ⊎ ((j : ℕ) × Child t me j)
    kids (inl h) = inl h
    kids (inr h) = elim x [
      | inl g ↦ inr (i, record { inside = b; parent = ground (arith, g, h) })
      | inr g ↦ inr g
    ]

wait_scan-ScanEnds :
    (copied : Bool) (me rest i : ℕ) (havekids killed : Bool) (t : Table)
    → i + rest ≡ nproc
    → ScanEnds t copied me i havekids killed (wait_scan copied me rest i havekids killed t)
unfolding wait_scan ScanEnds
wait_scan-ScanEnds copied me zero i havekids killed t e = scan_end t copied me i havekids killed e
wait_scan-ScanEnds copied me (suc rest) i havekids killed t e =
    elim (Bool-cases (is_parent (t.proc i).parent me && is_state (t.proc i).state zombie)) [
      | inl h ↦ rw h (
          found copied (record {
            child = record { inside = omega arith; parent = ground (arith, h) };
            dead = ground (arith, h);
          }))
      | inr h ↦ rw h (
          scan_step t copied me i havekids killed _ (omega arith) h (
            wait_scan-ScanEnds copied me rest (suc i) (havekids || is_parent (t.proc i).parent me)
              killed t (omega arith)))
    ]
  where
    found :
        (copied : Bool)
        → DeadChild t me i
        → ScanEnds t copied me i havekids killed (
            if copied
            then reaped (t.proc i).pid (put_proc t i (freeproc (t.proc i)))
            else wait_fails)
    found true c = (i, c, refl, refl, refl)
    found false c = inl (refl, (i, c))

-- How a round of `wait` by process `me` ends.
pub WaitEnds : (t : Table) (copied : Bool) (me : ℕ) → Waited → Type 0
WaitEnds t copied me (reaped p u) =
    (j : ℕ) × DeadChild t me j
    × (copied ≡ true)
    × (p ≡ (t.proc j).pid)
    × (u ≡ put_proc t j (freeproc (t.proc j)))
WaitEnds t copied me wait_fails =
    ((copied ≡ false) × ((j : ℕ) × DeadChild t me j))
    ⊎ (((j : ℕ) → DeadChild t me j → ⊥)
        × (((j : ℕ) → Child t me j → ⊥) ⊎ ((t.proc me).killed ≡ true)))
WaitEnds t copied me wait_sleeps =
    ((j : ℕ) × Child t me j) × ((t.proc me).killed ≡ false) × ((j : ℕ) → DeadChild t me j → ⊥)

ends_of :
    (t : Table) (copied : Bool) (me : ℕ) (w : Waited)
    → ScanEnds t copied me 0 false (t.proc me).killed w
    → WaitEnds t copied me w
unfolding ScanEnds WaitEnds
ends_of t copied me (reaped p u) h = h
ends_of t copied me wait_fails h = elim h [
  | inl x ↦ inl x
  | inr (z, w) ↦ inr (
    λ j c. z j (omega arith) c,
    elim w [ inl (x, y) ↦ inl (λ j c. y j (omega arith) c) | inr x ↦ inr x ],
  )
]
ends_of t copied me wait_sleeps (x, y, z) =
    (elim x [ inl e ↦ cc | inr c ↦ c ], y, λ j c. z j (omega arith) c)

-- A round of `wait` frees a child that has exited and returns its pid when the status can be copied;
-- it fails when there is one and the status cannot be copied, and when there is none and the caller has
-- no child or was killed; it sleeps only when there is a child, none has exited, and the caller was not killed.
pub wait-WaitEnds : (copied : Bool) (me : ℕ) (t : Table) → WaitEnds t copied me (wait copied me t)
unfolding wait
wait-WaitEnds copied me t =
    ends_of t copied me _ (wait_scan-ScanEnds copied me nproc 0 false (t.proc me).killed t refl)

-- With a dead child, a round of `wait` to which the status can be copied frees one.
pub reaps :
    (t : Table) (q me : ℕ) (w : Waited)
    → DeadChild t q me
    → WaitEnds t true q w
    → (p : ℕ) × (u : Table) × (w ≡ reaped p u) × ((j : ℕ) × DeadChild t q j × (p ≡ (t.proc j).pid))
unfolding WaitEnds
reaps t q me (reaped p u) c (j, d, e, f, g) = (p, u, refl, (j, d, f))
reaps t q me wait_fails c h = elim h [ inl (x, y) ↦ cc | inr (x, y) ↦ absurd (x me c) ]
reaps t q me wait_sleeps c (x, y, z) = absurd (z me c)

-- `wait` by a process of a sound table leaves a sound table.
pub wait-IsSound :
    (copied : Bool) (me : ℕ) (t u : Table) (p : ℕ)
    → IsSound t
    → wait copied me t ≡ reaped p u
    → IsSound u
unfolding WaitEnds
wait-IsSound copied me t u p s e =
    let (j, c, x, y, z) : WaitEnds t copied me (reaped p u) =
      subst (WaitEnds t copied me) e (wait-WaitEnds copied me t) in
    let h = c.dead in
    let (f, g) = childless t j s (ground (arith, h)) in
    rw z (Fits-IsSound t j _ (freeproc-Fits t j s f g) s)
