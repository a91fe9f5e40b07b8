-- ===== src/Log/Space.antt =====
-- kernel/log.c: the room in the log. `begin_op` admits a call only if MAXOPBLOCKS blocks are left for
-- it; each call logs at most that many new blocks.
pub mod Shortfall
use zept_os.Prelude.{
  ℕ, zero, suc, ◌+◌, ◌-◌, ◌*◌, ◌^◌, ◌≤◌, ◌<◌, ◌≡◌, ◌∙◌, sym, true, false, some, List, [], ◌∷◌,
  arith, length, get_elem?, set, ok, length-set, refl,
}
use zept_os.Log.{
  Log, Store, maxopblocks, logsize, add_int, started, begin_op, end_op_enter, end_op, log_write,
  log_slot, find_slot, commit,
}

-- The log, and for each call between `begin_op` and `end_op` the number of blocks it may still add.
pub record System : Type 0 where
  pub log : Log
  pub store : Store
  pub budgets : List ℕ

abbrev pub sum : List ℕ → ℕ
sum [] = 0
sum (x ∷ xs) = x + sum xs

-- The budgets without the one at a place.
abbrev pub remove : List ℕ → ℕ → List ℕ
remove [] k = []
remove (x ∷ xs) zero = xs
remove (x ∷ xs) (suc k) = x ∷ remove xs k

pub data Step (s : System) (t : System) : Type 0 where
  begins :
      (l : Log)
      → begin_op s.log ≡ started l
      → t ≡ record s { log = l; budgets = maxopblocks ∷ s.budgets }
      → Step s t
  logs :
      (k b block : ℕ) (l : Log) (st : Store)
      → get_elem? s.budgets k ≡ some (suc b)
      → log_write s.log s.store block ≡ ok (l, st)
      → l.n ≡ s.log.n + 1
      → t ≡ record { log = l; store = st; budgets = set s.budgets k b }
      → Step s t
  -- The block is in the log already.
  absorbs :
      (k b block : ℕ) (l : Log) (st : Store)
      → get_elem? s.budgets k ≡ some b
      → log_write s.log s.store block ≡ ok (l, st)
      → l.n ≡ s.log.n
      → t ≡ record { log = l; store = st; budgets = s.budgets }
      → Step s t
  ends :
      (k b : ℕ) (l : Log) (st : Store)
      → get_elem? s.budgets k ≡ some b
      → end_op s.log s.store ≡ ok (l, st)
      → t ≡ record { log = l; store = st; budgets = remove s.budgets k }
      → Step s t

pub data Reach (s : System) : System → Type 0 where
  here : Reach s s
  next : {t u : System} → Reach s t → Step t u → Reach s u

abbrev pub AllSmall : List ℕ → Type 0
AllSmall [] = Unit
AllSmall (x ∷ xs) = (x ≤ maxopblocks) × AllSmall xs

pub record IsReserved (s : System) : Type 0 where
  pub counted : s.log.outstanding ≡ length s.budgets
  pub quiet : s.log.committing ≡ false
  pub reserved : s.log.n + sum s.budgets ≤ logsize
  pub few : length s.budgets * maxopblocks ≤ logsize
  pub small : AllSmall s.budgets

sum-set : (bs : List ℕ) (k b : ℕ) → get_elem? bs k ≡ some (suc b) → sum (set bs k b) + 1 ≡ sum bs
sum-set [] k b e = cc
sum-set (x ∷ xs) zero b e = ground arith
sum-set (x ∷ xs) (suc k) b e = omega (arith, sum-set xs k b e)

length-remove :
    (bs : List ℕ) (k b : ℕ) → get_elem? bs k ≡ some b → length (remove bs k) + 1 ≡ length bs
length-remove [] k b e = cc
length-remove (x ∷ xs) zero b e = omega arith
length-remove (x ∷ xs) (suc k) b e = omega (arith, length-remove xs k b e)

sum-remove : (bs : List ℕ) (k b : ℕ) → get_elem? bs k ≡ some b → sum (remove bs k) + b ≡ sum bs
sum-remove [] k b e = cc
sum-remove (x ∷ xs) zero b e = ground arith
sum-remove (x ∷ xs) (suc k) b e = omega (arith, sum-remove xs k b e)

sum-le : (bs : List ℕ) → AllSmall bs → sum bs ≤ length bs * maxopblocks
sum-le [] a = omega arith
sum-le (x ∷ xs) a = omega (arith, sum-le xs a.1)

AllSmall-set :
    (bs : List ℕ) (k b : ℕ) → get_elem? bs k ≡ some (suc b) → AllSmall bs → AllSmall (set bs k b)
AllSmall-set [] k b e a = tt
AllSmall-set (x ∷ xs) zero b e a = (ground arith, a.1)
AllSmall-set (x ∷ xs) (suc k) b e a = (a.0, AllSmall-set xs k b e a.1)

AllSmall-remove : (bs : List ℕ) (k : ℕ) → AllSmall bs → AllSmall (remove bs k)
AllSmall-remove [] k a = tt
AllSmall-remove (x ∷ xs) zero a = a.1
AllSmall-remove (x ∷ xs) (suc k) a = (a.0, AllSmall-remove xs k a.1)

-- `find_slot` stops inside the loop's range, at the block or at the end.
pub find_slot_bounds :
    (block : ℕ → ℕ) (b rest i : ℕ)
    → (i ≤ find_slot block b rest i) × (find_slot block b rest i ≤ i + rest)
unfolding find_slot
find_slot_bounds block b zero i = omega arith
find_slot_bounds block b (suc rest) i = ground (arith, find_slot_bounds block b rest (i + 1))

begin_op-IsReserved :
    (s : System) (l : Log)
    → IsReserved s
    → begin_op s.log ≡ started l
    → IsReserved (record s { log = l; budgets = maxopblocks ∷ s.budgets })
unfolding begin_op
begin_op-IsReserved s l v e = record {
  counted = ground (arith, few, v.counted);
  quiet = ground (arith, v.quiet);
  reserved = ground (arith, sum-le s.budgets v.small, few, v.counted);
  few = ground (arith, few, v.counted);
  small = (omega arith, v.small);
}
  where
    few : length s.budgets ≤ 3
    few = omega (arith, v.few)

log_write-n :
    (l l' : Log) (s s' : Store) (b : ℕ)
    → log_write l s b ≡ ok (l', s')
    → (l'.n ≤ l.n + 1)
      × (l'.outstanding ≡ l.outstanding)
      × (l'.committing ≡ l.committing)
      × (l'.size ≡ l.size)
unfolding log_write
log_write-n l l' s s' b e = ground arith

log_write-fits :
    (l : Log) (s : Store) (b : ℕ)
    → l.n < logsize
    → l.n + 1 < l.size
    → 0 < l.outstanding
    → l.outstanding < 2 ^ 31
    → (l' : Log) × (s' : Store) × (log_write l s b ≡ ok (l', s'))
unfolding log_write
log_write-fits l s b p q out neg = ((log_slot l s b).0, (log_slot l s b).1, ground arith)

log_write-IsReserved :
    (s : System) (k b block : ℕ) (l : Log) (st : Store)
    → IsReserved s
    → get_elem? s.budgets k ≡ some (suc b)
    → log_write s.log s.store block ≡ ok (l, st)
    → IsReserved (record { log = l; store = st; budgets = set s.budgets k b })
log_write-IsReserved s k b block l st v e f =
    let (n, out, done, size) = log_write-n s.log l s.store st block f in
    record {
      counted = out ∙ v.counted ∙ sym (length-set s.budgets k b);
      quiet = done ∙ v.quiet;
      reserved = omega (arith, sum-set s.budgets k b e, v.reserved);
      few = rw (length-set s.budgets k b) v.few;
      small = AllSmall-set s.budgets k b e v.small;
    }

absorbed-IsReserved :
    (s : System) (block : ℕ) (l : Log) (st : Store)
    → IsReserved s
    → log_write s.log s.store block ≡ ok (l, st)
    → l.n ≡ s.log.n
    → IsReserved (record { log = l; store = st; budgets = s.budgets })
absorbed-IsReserved s block l st v f m =
    let (n, out, done, size) = log_write-n s.log l s.store st block f in
    record {
      counted = out ∙ v.counted;
      quiet = done ∙ v.quiet;
      reserved = omega (arith, m, v.reserved);
      few = v.few;
      small = v.small;
    }

commit-fields :
    (l : Log) (s : Store)
    → let l' = (commit l s).0 in (l'.outstanding ≡ l.outstanding) × (l'.n ≤ l.n)
unfolding commit
commit-fields l s = ground arith

end_op-fields :
    (l l' : Log) (s s' : Store)
    → 0 < l.outstanding
    → l.outstanding ≤ 3
    → end_op l s ≡ ok (l', s')
    → (l'.outstanding + 1 ≡ l.outstanding) × (l'.committing ≡ false) × (l'.n ≤ l.n)
unfolding end_op end_op_enter
end_op-fields l l' s s' p q e = ground (
  arith,
  commit-fields (record l { outstanding = add_int l.outstanding (2 ^ 32 - 1); committing = true })
      s,
)

end_op-IsReserved :
    (s : System) (k b : ℕ) (l : Log) (st : Store)
    → IsReserved s
    → get_elem? s.budgets k ≡ some b
    → end_op s.log s.store ≡ ok (l, st)
    → IsReserved (record { log = l; store = st; budgets = remove s.budgets k })
end_op-IsReserved s k b l st v e f =
    let len = length-remove s.budgets k b e in
    let few : length s.budgets ≤ 3 = omega (arith, v.few) in
    let (out, done, n) =
      end_op-fields s.log l s.store st (omega (arith, v.counted)) (omega (arith, v.counted)) f in
    record {
      counted = omega (arith, v.counted);
      quiet = done;
      reserved = omega (arith, sum-remove s.budgets k b e, v.reserved);
      few = omega arith;
      small = AllSmall-remove s.budgets k v.small;
    }

Step-IsReserved : {s t : System} → IsReserved s → Step s t → IsReserved t
Step-IsReserved {s} v (begins l e f) = rw f (begin_op-IsReserved s l v e)
Step-IsReserved {s} v (absorbs k b block l st e f m g) =
    rw g (absorbed-IsReserved s block l st v f m)
Step-IsReserved {s} v (logs k b block l st e f m g) =
    rw g (log_write-IsReserved s k b block l st v e f)
Step-IsReserved {s} v (ends k b l st e f g) = rw g (end_op-IsReserved s k b l st v e f)

pub Reach-IsReserved : {s t : System} → IsReserved s → Reach s t → IsReserved t
Reach-IsReserved v here = v
Reach-IsReserved v (next r st) = Step-IsReserved (Reach-IsReserved v r) st

-- A log with no call under way.
abbrev pub idle : (start size : ℕ) → Store → System
idle start size st = record {
  log = record {
    start = start;
    size = size;
    outstanding = 0;
    committing = false;
    n = 0;
    block = λ _. 0;
  };
  store = st;
  budgets = [];
}

idle-IsReserved : (start size : ℕ) (st : Store) → IsReserved (idle start size st)
idle-IsReserved start size st = record {
  counted = refl;
  quiet = refl;
  reserved = omega arith;
  few = omega arith;
  small = tt;
}

-- In every state that `begin_op`, `log_write` and `end_op` reach from an idle log, where no call adds
-- more than MAXOPBLOCKS blocks to the log (blocks that are in it already do not count), the blocks
-- logged and those still promised fit in LOGSIZE, at most three calls are under way, and a call that
-- has not used up its MAXOPBLOCKS can log any block without a panic, if the log on disk has more than
-- LOGSIZE blocks.
pub log_write-has_room :
    (start size : ℕ) (st : Store) {t : System} (k b block : ℕ)
    → Reach (idle start size st) t
    → get_elem? t.budgets k ≡ some (suc b)
    → logsize < t.log.size
    → (t.log.n + sum t.budgets ≤ logsize)
      × (length t.budgets ≤ 3)
      × ((l : Log) × (st' : Store) × (log_write t.log t.store block ≡ ok (l, st')))
log_write-has_room start size st {t} k b block r e h =
    let v = Reach-IsReserved (idle-IsReserved start size st) r in
    let one = sum-set t.budgets k b e in
    let some_call = length-remove t.budgets k (suc b) e in
    let few : length t.budgets ≤ 3 = omega (arith, v.few) in
    (
      v.reserved,
      few,
      log_write-fits t.log t.store block (omega (arith, v.reserved)) (omega arith)
          (omega (arith, v.counted)) (omega (arith, v.counted)),
    )
