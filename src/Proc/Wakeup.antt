-- ===== src/Proc/Wakeup.antt =====
-- kernel/proc.c: what `wakeup` and `reparent` do to each process of the table.
use zept_os.Prelude.{
  ℕ, zero, suc, ◌+◌, ◌≡◌, ◌∙◌, ap, refl, ◌⊎◌, inl, inr, Bool, true, false, not, ◌&&◌, Option, some,
  arith, ltb, leb, ◌==◌, if◌then◌else◌, Bool-cases, update_cases,
}
use mathlib.Core.Path.{subst}
use zept_os.Proc.{
  State, sleeping, runnable, Proc, nproc, Table, is_state, is_parent, put_proc, proc_chan, wake,
  wakeup_loop, wakeup, reparent_loop, reparent,
}

-- Only the processes of the table have changed.
pub record SameTable (t u : Table) : Type 0 where
  pub next : u.nextpid ≡ t.nextpid
  pub init : u.initproc ≡ t.initproc

-- The processes from `i` on, `rest` of them, have been through the loop of `wakeup`.
abbrev woken : (me chan rest i : ℕ) → Table → ℕ → Proc
woken me chan rest i t j =
    if leb i j && ltb j (i + rest) && not (j == me) then wake chan (t.proc j) else t.proc j

wakeup_loop-woken :
    (me chan rest i : ℕ) (t : Table) (j : ℕ)
    → (wakeup_loop me chan rest i t).proc j ≡ woken me chan rest i t j
unfolding wakeup_loop
wakeup_loop-woken me chan zero i t j = ground arith
wakeup_loop-woken me chan (suc rest) i t j = elim (Bool-cases (i == me)) [
  | inl own ↦ rw (own, wakeup_loop) (wakeup_loop-woken me chan rest (suc i) t j ∙ ground arith)
  | inr other ↦ rw (other, wakeup_loop) (wakeup_loop-woken me chan rest (suc i) _ j ∙ ground arith)
]

wakeup_loop-SameTable :
    (me chan rest i : ℕ) (t : Table) → SameTable t (wakeup_loop me chan rest i t)
unfolding wakeup_loop
wakeup_loop-SameTable me chan zero i t = record { next = refl; init = refl }
wakeup_loop-SameTable me chan (suc rest) i t = elim (Bool-cases (i == me)) [
  | inl own ↦ rw own (wakeup_loop-SameTable me chan rest (suc i) t)
  | inr other ↦ rw other (
      let s = wakeup_loop-SameTable me chan rest (suc i) (put_proc t i (wake chan (t.proc i))) in
      record { next = s.next; init = s.init })
]

-- `wakeup` makes runnable exactly the processes of the table that sleep on the channel, the caller
-- excepted, and changes nothing else.
pub wakeup_lem :
    (me chan : ℕ) (t : Table)
    → ((j : ℕ)
        → (wakeup me chan t).proc j ≡ (
            if ltb j nproc
              && not (j == me)
              && (is_state (t.proc j).state sleeping && ((t.proc j).chan == chan))
            then record (t.proc j) { state = runnable }
            else t.proc j))
      × SameTable t (wakeup me chan t)
unfolding wakeup wake
wakeup_lem me chan t = (
  λ j. wakeup_loop-woken me chan nproc 0 t j ∙ ground arith,
  wakeup_loop-SameTable me chan nproc 0 t,
)

-- What a process keeps when others are woken and it is perhaps given another parent: all but its
-- parent, and a process that sleeps may be runnable.
pub record Kept (p q : Proc) : Type 0 where
  pub pid : q.pid ≡ p.pid
  pub killed : q.killed ≡ p.killed
  pub chan : q.chan ≡ p.chan
  pub xstate : q.xstate ≡ p.xstate
  pub state : (q.state ≡ p.state) ⊎ ((p.state ≡ sleeping) × (q.state ≡ runnable))

Kept-refl : (p : Proc) → Kept p p
Kept-refl p = record { pid = refl; killed = refl; chan = refl; xstate = refl; state = inl refl }

Kept-parent : (p : Proc) (q : Option ℕ) → Kept p (record p { parent = q })
Kept-parent p q = record { pid = refl; killed = refl; chan = refl; xstate = refl; state = inl refl }

Kept-trans : (p q r : Proc) → Kept p q → Kept q r → Kept p r
Kept-trans p q r a b = record {
  pid = b.pid ∙ a.pid;
  killed = b.killed ∙ a.killed;
  chan = b.chan ∙ a.chan;
  xstate = b.xstate ∙ a.xstate;
  state = ground (arith, a.state, b.state);
}

is_sleeping : (s : State) → is_state s sleeping ≡ true → s ≡ sleeping
is_sleeping s h = ground arith

Kept-if :
    (p : Proc) (b : Bool)
    → (b ≡ true → p.state ≡ sleeping)
    → Kept p (if b then record p { state = runnable } else p)
Kept-if p true h = record {
  pid = refl;
  killed = refl;
  chan = refl;
  xstate = refl;
  state = inr (h refl, refl);
}
Kept-if p false h = Kept-refl p

parent_if :
    (p : Proc) (b : Bool) → (if b then record p { state = runnable } else p).parent ≡ p.parent
parent_if p true = refl
parent_if p false = refl

-- `wakeup` keeps of every process all but the state, which changes only from sleeping to runnable.
pub wakeup-Kept :
    (me chan : ℕ) (t : Table) (j : ℕ)
    → Kept (t.proc j) ((wakeup me chan t).proc j)
      × (((wakeup me chan t).proc j).parent ≡ (t.proc j).parent)
wakeup-Kept me chan t j =
    rw (wakeup_lem me chan t).0 (Kept-if (t.proc j) _ asleep, parent_if (t.proc j) _)
  where
    asleep :
        (ltb j nproc
            && not (j == me)
            && (is_state (t.proc j).state sleeping && ((t.proc j).chan == chan)))
          ≡ true
        → (t.proc j).state ≡ sleeping
    asleep h = ground arith

-- The caller of `wakeup` is not woken.
pub wakeup_self : (me chan : ℕ) (t : Table) → (wakeup me chan t).proc me ≡ t.proc me
wakeup_self me chan t = (wakeup_lem me chan t).0 me ∙ ground arith

-- One round of the loop of `reparent`.
abbrev adopted : (me i : ℕ) → Table → Table
adopted me i t =
    if is_parent (t.proc i).parent me
    then wakeup me (proc_chan t.initproc)
        (put_proc t i (record (t.proc i) { parent = some t.initproc }))
    else t

-- The parent of process `j` after the loop of `reparent` over `rest` processes from `i` on.
abbrev heir : (me rest i : ℕ) → Table → ℕ → Option ℕ
heir me rest i t j =
    if leb i j && ltb j (i + rest) && is_parent (t.proc j).parent me
    then some t.initproc
    else (t.proc j).parent

-- A table after others were woken and given another parent.
record Reparented (me rest i : ℕ) (t u : Table) : Type 0 where
  pub same : SameTable t u
  pub kept : (j : ℕ) → Kept (t.proc j) (u.proc j)
  pub parent : (j : ℕ) → (u.proc j).parent ≡ heir me rest i t j

reparent_loop-Reparented :
    (me rest i : ℕ) (t : Table) → Reparented me rest i t (reparent_loop me rest i t)
unfolding reparent_loop
reparent_loop-Reparented me zero i t = record {
  same = record { next = refl; init = refl };
  kept = λ j. Kept-refl (t.proc j);
  parent = λ j. ground arith;
}
reparent_loop-Reparented me (suc rest) i t = elim (Bool-cases (is_parent (t.proc i).parent me)) [
  | inl child ↦
      rw (child, reparent_loop)
        (let t' = put_proc t i (record (t.proc i) { parent = some t.initproc }) in
          let c = proc_chan t.initproc in
          let s = (wakeup_lem me c t').1 in
          let r = reparent_loop-Reparented me rest (suc i) (wakeup me c t') in
          record {
            same = record { next = r.same.next ∙ s.next; init = r.same.init ∙ s.init };
            kept = λ j. Kept-trans (t.proc j) (t'.proc j) _ (put_parent-Kept t i j) (
                Kept-trans (t'.proc j) ((wakeup me c t').proc j) _ (wakeup-Kept me c t' j).0
                  (r.kept j));
            parent = λ j.
                r.parent j ∙ rw ((wakeup-Kept me c t' j).1, s.init) (heir_step me rest i t j child);
          })
  | inr other ↦
      rw (other, reparent_loop)
        (let r = reparent_loop-Reparented me rest (suc i) t in
          record {
            same = r.same;
            kept = r.kept;
            parent = λ j. r.parent j ∙ heir_skip me rest i t j other;
          })
]
  where
    put_parent-Kept :
        (t : Table) (i j : ℕ)
        → Kept (t.proc j) ((put_proc t i (record (t.proc i) { parent = some t.initproc })).proc j)
    put_parent-Kept t i j =
        update_cases (Kept (t.proc j)) t.proc i (record (t.proc i) { parent = some t.initproc }) j
          (λ e.
            subst (λ k. Kept (t.proc k) (record (t.proc i) { parent = some t.initproc })) e
              (Kept-parent (t.proc i) (some t.initproc)))
          (λ e. Kept-refl (t.proc j))

    heir_step :
        (me rest i : ℕ) (t : Table) (j : ℕ)
        → is_parent (t.proc i).parent me ≡ true
        → heir me rest (suc i) (put_proc t i (record (t.proc i) { parent = some t.initproc })) j
          ≡ heir me (suc rest) i t j
    heir_step me rest i t j child = ground (arith, child)

    heir_skip :
        (me rest i : ℕ) (t : Table) (j : ℕ)
        → is_parent (t.proc i).parent me ≡ false
        → heir me rest (suc i) t j ≡ heir me (suc rest) i t j
    heir_skip me rest i t j other = ground (arith, other)

whole : (n j : ℕ) (b : Bool) → (leb 0 j && ltb j (0 + n) && b) ≡ (ltb j n && b)
whole n j b = ground arith

-- `reparent` gives the children of the caller to the first process, may wake processes, and changes
-- nothing else.
pub reparent-Kept :
    (me : ℕ) (t : Table)
    → SameTable t (reparent me t)
      × ((j : ℕ)
          → Kept (t.proc j) ((reparent me t).proc j)
            × (((reparent me t).proc j).parent ≡ (
                if ltb j nproc && is_parent (t.proc j).parent me
                then some t.initproc
                else (t.proc j).parent)))
unfolding reparent
reparent-Kept me t =
    let r = reparent_loop-Reparented me nproc 0 t in
    (
      r.same,
      λ j. (
        r.kept j,
        r.parent j ∙ ap (λ b. if b then some t.initproc else (t.proc j).parent) (whole nproc j _),
      ),
    )
