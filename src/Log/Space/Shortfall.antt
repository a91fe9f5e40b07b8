-- ===== src/Log/Space/Shortfall.antt =====
-- kernel/log.c with the log that tools/mkfs.c lays out: `begin_op` promises LOGSIZE blocks, but a log
-- of LOGSIZE blocks, header included, holds one fewer, and `log_write` panics at the last.
use zept_os.Prelude.{
  ℕ, zero, suc, ◌+◌, ◌≤◌, ◌<◌, ◌≡◌, ◌≢◌, ◌∙◌, ap, sym, refl, some, List, [], ◌∷◌, arith, get_elem?,
  set, update, ok, panic,
}
use zept_os.Log.{Log, Store, logsize, begin_op, bpin, log_write, log_slot, find_slot}
use zept_os.Log.Space.{System, Step, begins, logs, Reach, here, next, idle}

append : {s t u : System} → Reach s t → Reach t u → Reach s u
append r here = r
append r (next q st) = next (append r q) st

find_slot-fresh :
    (block : ℕ → ℕ) (b rest i : ℕ)
    → ((j : ℕ) → i ≤ j → j < i + rest → block j ≢ b)
    → find_slot block b rest i ≡ i + rest
unfolding find_slot
find_slot-fresh block b zero i h = omega arith
find_slot-fresh block b (suc rest) i h = ground (
  arith,
  h i (omega arith) (omega arith),
  find_slot-fresh block b rest (i + 1) (λ j p q. h j (omega arith) (omega arith)),
)

-- Three calls are under way, and blocks 0, 1, … are logged.
record IsFilled (s : System) : Type 0 where
  calls : s.log.outstanding ≡ 3
  size : s.log.size ≡ logsize
  slots : (j : ℕ) → j < s.log.n → s.log.block j ≡ j

-- The system after one more block of call `k`.
abbrev logged : System → (k b : ℕ) → System
logged s k b = record {
  log = record s.log { block = update s.log.block s.log.n s.log.n; n = s.log.n + 1 };
  store = bpin s.log.n s.store;
  budgets = set s.budgets k b;
}

module _ (s : System) (f : IsFilled s) (room : s.log.n < 29) where
  log_write-fresh :
      (k b : ℕ) → log_write s.log s.store s.log.n ≡ ok ((logged s k b).log, (logged s k b).store)
  unfolding log_write log_slot
  log_write-fresh k b = ground (
    arith,
    f.calls,
    f.size,
    find_slot-fresh s.log.block s.log.n s.log.n 0
        (λ j p q e. absurd (omega (arith, f.slots j (omega arith)))),
  )

  logged-IsFilled : (k b : ℕ) → IsFilled (logged s k b)
  logged-IsFilled k b = record {
    calls = f.calls;
    size = f.size;
    slots = λ j p. ground (arith, f.slots j);
  }

set_self : (bs : List ℕ) (k b : ℕ) → get_elem? bs k ≡ some b → set bs k b ≡ bs
set_self [] k b e = refl
set_self (x ∷ xs) zero b e = ground arith
set_self (x ∷ xs) (suc k) b e = ap (λ l. x ∷ l) (set_self xs k b e)

set-set : (bs : List ℕ) (k b c : ℕ) → set (set bs k c) k b ≡ set bs k b
set-set [] k b c = refl
set-set (x ∷ xs) zero b c = refl
set-set (x ∷ xs) (suc k) b c = ap (λ l. x ∷ l) (set-set xs k b c)

get-set : (bs : List ℕ) (k b c : ℕ) → get_elem? bs k ≡ some c → get_elem? (set bs k b) k ≡ some b
get-set [] k b c e = cc
get-set (x ∷ xs) zero b c e = refl
get-set (x ∷ xs) (suc k) b c e = get-set xs k b c e

-- What call `k` has reached when it has logged `m` more blocks.
record Filled (s : System) (m k b : ℕ) : Type 0 where
  end : System
  reach : Reach s end
  full : IsFilled end
  count : end.log.n ≡ s.log.n + m
  left : end.budgets ≡ set s.budgets k b

module _ (m k b : ℕ) (s : System) (f : IsFilled s) (e : get_elem? s.budgets k ≡ some (suc m + b))
    (h : s.log.n + suc m ≤ 29) where
  fill_room : s.log.n < 29
  fill_room = omega arith

  fill_one : Step s (logged s k (m + b))
  fill_one =
      logs k (m + b) s.log.n _ _ (e ∙ ap some (omega arith))
        (log_write-fresh s f fill_room k (m + b)) refl refl

  fill_suc : Filled (logged s k (m + b)) m k b → Filled s (suc m) k b
  fill_suc rest = record {
    end = rest.end;
    reach = append (next here fill_one) rest.reach;
    full = rest.full;
    count = omega (arith, rest.count);
    left = rest.left ∙ set-set s.budgets k b (m + b);
  }

fill :
    (m k b : ℕ) (s : System)
    → IsFilled s
    → get_elem? s.budgets k ≡ some (m + b)
    → s.log.n + m ≤ 29
    → Filled s m k b
fill zero k b s f e h = record {
  end = s;
  reach = here;
  full = f;
  count = omega arith;
  left = sym (set_self s.budgets k b (e ∙ ap some (omega arith)));
}
fill (suc m) k b s f e h = fill_suc m k b s f e h (
    fill m k b (logged s k (m + b)) (logged-IsFilled s f (fill_room m k b s f e h) k (m + b))
      (get-set s.budgets k (m + b) _ e) (omega arith))

-- Three calls have begun.
abbrev three : (start : ℕ) → Store → System
three start st = record {
  log = record (idle start logsize st).log { outstanding = 3 };
  store = st;
  budgets = 10 ∷ 10 ∷ 10 ∷ [];
}

three-Reach : (start : ℕ) (st : Store) → Reach (idle start logsize st) (three start st)
unfolding begin_op
three-Reach start st =
    next (next (next here (begins _ refl refl)) (begins _ refl refl)) (begins _ refl refl)

too_big :
    (l : Log) (s : Store) (b : ℕ)
    → l.n + 1 ≡ l.size
    → log_write l s b ≡ panic "too big a transaction"
unfolding log_write
too_big l s b e = ground arith

-- With a log of LOGSIZE blocks, as mkfs lays it out, three calls that `begin_op` admitted can come to
-- a state where one of them has logged nine blocks of its MAXOPBLOCKS, and `log_write` of any block,
-- also of one that is logged already, panics.
pub log_write-short :
    (start : ℕ) (st : Store)
    → (t : System) × Reach (idle start logsize st) t
      × (t.budgets ≡ 0 ∷ 0 ∷ 1 ∷ [])
      × ((b : ℕ) → log_write t.log t.store b ≡ panic "too big a transaction")
log_write-short start st =
    let f : IsFilled (three start st) = record {
      calls = refl;
      size = refl;
      slots = λ j p. absurd (omega arith);
    } in
    let a = fill 10 0 0 (three start st) f refl (omega arith) in
    let b = fill 10 1 0 a.end a.full (rw a.left refl) (omega (arith, a.count)) in
    let c = fill 9 2 1 b.end b.full (rw (b.left, a.left) refl) (omega (arith, a.count, b.count)) in
    (
      c.end,
      append (three-Reach start st) (append a.reach (append b.reach c.reach)),
      rw (c.left, b.left, a.left) refl,
      λ x. too_big c.end.log c.end.store x (omega (arith, a.count, b.count, c.count, c.full.size)),
    )
