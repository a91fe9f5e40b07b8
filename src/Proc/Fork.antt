-- ===== src/Proc/Fork.antt =====
-- kernel/proc.c: `allocproc` and `fork` keep the process tree sound.
use zept_os.Prelude.{
  ℕ, zero, suc, ◌+◌, ◌<◌, ◌≡◌, ◌≢◌, ◌∙◌, ap, sym, refl, inl, inr, Bool, true, false, Option, some,
  arith, Bool-cases, Option-cases, update_self, update_other, ℕ_discrete, ◌^◌,
}
use mathlib.Core.Path.{subst}
use zept_os.Proc.{
  unused, used, runnable, running, nproc, Table, is_state, put_proc, freeproc, allocpid,
  find_unused, allocproc, fork_alloc, fork_parent, fork_start,
}
use zept_os.Proc.Sound.{IsSound, alive, Fits, Fits-IsSound}

-- A slot with no children that is not the first process can be freed.
pub freeproc-Fits :
    (t : Table) (i : ℕ)
    → IsSound t
    → (i ≢ t.initproc)
    → ((j : ℕ) → j < nproc → (t.proc j).parent ≢ some i)
    → Fits t i (freeproc (t.proc i))
unfolding freeproc
freeproc-Fits t i s first childless = record {
  free = refl;
  numbered = s.counting;
  distinct = λ j b d h. absurd (omega (arith, h));
  owned = λ h. cc;
  parent = λ q e. cc;
  needed = inr (first, childless);
}

-- A slot that is not alive has no children, and is not the first process.
pub childless :
    (t : Table) (i : ℕ)
    → IsSound t
    → alive (t.proc i).state ≡ false
    → (i ≢ t.initproc) × ((j : ℕ) → j < nproc → (t.proc j).parent ≢ some i)
childless t i s d = (
  λ e. let a = s.init_alive in let b = rw e at d in ground (arith, a, b),
  λ j b e. let a = (s.parents j i b e).1 in ground (arith, a, d),
)

find_unused-some :
    (rest i k : ℕ) (t : Table)
    → find_unused rest i t ≡ some k
    → (k < i + rest) × (is_state (t.proc k).state unused ≡ true)
unfolding find_unused
find_unused-some zero i k t e = cc
find_unused-some (suc rest) i k t e = elim (Bool-cases (is_state (t.proc i).state unused)) [
  | inl h ↦ ground (arith, h, e)
  | inr h ↦ let (a, b) = find_unused-some rest (suc i) k t (rw h at e) in (omega (arith, a), b)
]

-- Slot `i`, which was unused, has been given the next pid.
record Taken (t : Table) (i : ℕ) (u : Table) : Type 0 where
  pub inside : i < nproc
  pub free : is_state (t.proc i).state unused ≡ true
  pub slot : u.proc i ≡ record (t.proc i) { pid = t.nextpid; state = used }
  pub others : (j : ℕ) → i ≢ j → u.proc j ≡ t.proc j

-- What `allocproc` gives.
record Fresh (t : Table) (r : Option ℕ × Table) : Type 0 where
  pub sound : IsSound r.1
  pub init : r.1.initproc ≡ t.initproc
  pub found : (i : ℕ) → r.0 ≡ some i → Taken t i r.1

-- The pid counter moves on.
count-IsSound : (t : Table) → t.nextpid + 1 < 2 ^ 31 → IsSound t → IsSound (allocpid t).1
unfolding allocpid
count-IsSound t w s = record {
  counting = omega (arith, w);
  init_in = s.init_in;
  init_alive = s.init_alive;
  unused_pid = s.unused_pid;
  numbered = λ i b. let h = s.numbered i b in omega (arith, h, w);
  distinct = s.distinct;
  owned = s.owned;
  parents = s.parents;
}

-- The slot that `allocproc` has chosen, with its pid.
used-Fits :
    (t : Table) (i : ℕ)
    → i < nproc
    → is_state (t.proc i).state unused ≡ true
    → t.nextpid + 1 < 2 ^ 31
    → IsSound t
    → Fits (allocpid t).1 i (record (t.proc i) { pid = t.nextpid; state = used })
unfolding allocpid
used-Fits t i b u w s = record {
  free = let h = s.counting in ground (arith, h);
  numbered = omega (arith, w);
  distinct = λ j c d h e. let g = s.numbered j c in omega (arith, g, e);
  owned = λ h. cc;
  parent = λ q e.
      let (c, a) = s.parents i q b e in (c, a, λ d. let x = rw d at u in ground (arith, a, x));
  needed = inl refl;
}

allocproc-Fresh :
    (m : Bool) (t : Table) → t.nextpid + 1 < 2 ^ 31 → IsSound t → Fresh t (allocproc m t)
unfolding allocproc allocpid
allocproc-Fresh m t w s = elim (Option-cases (find_unused nproc 0 t)) [
  | inl none_left ↦ rw (none_left, allocproc) (record { sound = s; init = refl; found = λ i e. cc })
  | inr (i, e) ↦
      let (b, u) = find_unused-some nproc 0 i t e in
      rw (e, allocproc)
        (elim (Bool-cases m) [
          | inl ample ↦ rw ample (record {
            sound = Fits-IsSound _ i _ (used-Fits t i b u w s) (count-IsSound t w s);
            init = refl;
            found = λ k h.
                let d : i ≡ k = cc in
                subst
                  (λ k. Taken t k (
                    put_proc (allocpid t).1 i
                      (record (t.proc i) { pid = t.nextpid; state = used })))
                  d
                  (record {
                    inside = b;
                    free = u;
                    slot = update_self t.proc i _;
                    others = update_other t.proc i _;
                  });
          })
          | inr scarce ↦ rw scarce (record {
            sound =
                let (f, c) = childless t i s (ground (arith, u)) in
                Fits-IsSound _ i _ (freeproc-Fits (allocpid t).1 i (count-IsSound t w s) f c)
                  (count-IsSound t w s);
            init = refl;
            found = λ k h. cc;
          })
        ])
]

-- The slot that was taken has no children, and is not the first process.
taken_childless :
    (t u : Table) (i : ℕ)
    → Taken t i u
    → IsSound t
    → u.initproc ≡ t.initproc
    → (i ≢ u.initproc) × ((j : ℕ) → j < nproc → (u.proc j).parent ≢ some i)
taken_childless t u i k s e =
    let (f, c) = childless t i s (let h = k.free in ground (arith, h)) in
    (
      λ d. f (d ∙ e),
      λ j b h. elim (ℕ_discrete i j) [
        | yes d ↦
            c i k.inside
              (ap (λ p. p.parent) (sym k.slot) ∙ subst (λ j. (u.proc j).parent ≡ some i) (sym d) h)
        | no d ↦ c j b (sym (ap (λ p. p.parent) (k.others j d)) ∙ h)
      ],
    )

-- The first section of `fork`.
pub fork_alloc-IsSound :
    (m copied : Bool) (t : Table)
    → t.nextpid + 1 < 2 ^ 31
    → IsSound t
    → IsSound (fork_alloc m copied t).1
unfolding fork_alloc
fork_alloc-IsSound m copied t w s =
    let f = allocproc-Fresh m t w s in
    elim (Option-cases (allocproc m t).0) [
      | inl full ↦ rw (full, fork_alloc) f.sound
      | inr (i, e) ↦
          let k = f.found i e in
          rw (e, fork_alloc)
            (elim (Bool-cases copied) [
              | inl done ↦ rw done f.sound
              | inr failed ↦ rw failed (
                  let (x, y) = taken_childless t _ i k s f.init in
                  Fits-IsSound _ i _ (freeproc-Fits _ i f.sound x y) f.sound)
            ])
    ]

used_apart : (t : Table) (i me : ℕ) → (t.proc i).state ≡ used → (t.proc me).state ≡ running → i ≢ me
used_apart t i me u r d = let e : used ≡ running = sym u ∙ ap (λ j. (t.proc j).state) d ∙ r in cc

-- The child gets its parent.
pub fork_parent-IsSound :
    (me i : ℕ) (t : Table)
    → me < nproc
    → (t.proc me).state ≡ running
    → i < nproc
    → (t.proc i).state ≡ used
    → IsSound t
    → IsSound (fork_parent me i t)
unfolding fork_parent
fork_parent-IsSound me i t b r c u s =
    let apart = used_apart t i me u r in
    Fits-IsSound t i (record (t.proc i) { parent = some me })
      (record {
        free = s.unused_pid i c;
        numbered = s.numbered i c;
        distinct = λ j d n h e. n (s.distinct i j c d h e);
        owned = λ h. inr (me, refl);
        parent = λ q e.
            let d : me ≡ q = cc in
            subst (λ q. (q < nproc) × (alive (t.proc q).state ≡ true) × (i ≢ q)) d
              (b, ap alive r, apart);
        needed = inl (ap alive u);
      })
      s

-- The child can run.
pub fork_start-IsSound :
    (me i : ℕ) (t : Table)
    → (t.proc me).state ≡ running
    → i < nproc
    → (t.proc i).state ≡ used
    → (t.proc i).parent ≡ some me
    → IsSound t
    → IsSound (fork_start i t)
unfolding fork_start
fork_start-IsSound me i t r c u p s =
    let apart = used_apart t i me u r in
    Fits-IsSound t i (record (t.proc i) { state = runnable })
      (record {
        free = sym (ap (λ x. is_state x unused) u) ∙ s.unused_pid i c;
        numbered = s.numbered i c;
        distinct = λ j d n h e. n (s.distinct i j c d h e);
        owned = λ h. inr (me, p);
        parent = λ q e.
            let d : me ≡ q = (let z = sym p ∙ e in cc) in
            let (b, a) = s.parents i q c e in (b, a, subst (λ q. i ≢ q) d apart);
        needed = inl refl;
      })
      s
