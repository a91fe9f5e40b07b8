-- ===== src/Log/Atomic.antt =====
-- kernel/log.c: a transaction is atomic and durable, wherever the machine stops in `commit` and
-- however often it stops again in the recovery.
use zept_os.Prelude.{
  ℕ, ◌<◌, ◌≡◌, refl, inl, inr, true, false, List, [], ◌∷◌, arith, ltb, Bool-cases, update, ◌⊎◌,
  drop, suc, zero,
}
use zept_os.Log.{Block, Store, Log, commit, write_log, install_trans, read_head, initlog, empty_log}
use zept_os.Log.Header.{read_head_lem}
use zept_os.Log.Loops.{
  Disk, replay, Always, IsHome, IsFit, IsOld, Untouched, IsCommitted, IsInstalled, IsSafe, old,
  committed, installed, Logging, write_loop-Logging, write_head-Installing, install_loop-Installing,
  write_head-IsInstalled,
}

-- The machine stops after some of the writes: the first ones, which stand last.
pub data Cut : List (ℕ × Block) → List (ℕ × Block) → Type 0 where
  all : (ws : List (ℕ × Block)) → Cut ws ws
  before_last : {us ws : List (ℕ × Block)} (w : ℕ × Block) → Cut us ws → Cut us (w ∷ ws)

-- The machine stops before the last `k` writes.
pub Cut-drop : (k : ℕ) (ws : List (ℕ × Block)) → Cut (drop k ws) ws
Cut-drop zero ws = all ws
Cut-drop (suc k) [] = all []
Cut-drop (suc k) (w ∷ ws) = before_last w (Cut-drop k ws)

-- The machine starts with an empty cache, which reads blocks from the disk.
abbrev pub boot : Disk → Store
boot d = record { cache = d; pins = λ _. 0; writes = [] }

-- What `initlog` leaves on a disk.
abbrev pub recovered : Log → Disk → Disk
recovered l d = replay d (initlog l.start l.size (boot d)).1.writes

-- The disks that a crash can leave: in `commit`, or in the recovery from an earlier crash.
pub data Crashed (l : Log) (s : Store) (before : Disk) : Disk → Type 0 where
  in_commit :
      {us : List (ℕ × Block)} → Cut us (commit l s).1.writes → Crashed l s before (replay before us)
  in_recovery :
      {d : Disk} {us : List (ℕ × Block)}
      → Crashed l s before d
      → Cut us (initlog l.start l.size (boot d)).1.writes
      → Crashed l s before (replay d us)

module _ (P : Disk → Type 0) where
  Always-now : (d : Disk) (ws : List (ℕ × Block)) → Always P d ws → P (replay d ws)
  Always-now d [] a = a
  Always-now d (w ∷ ws) a = a.0

  Always-Cut : (d : Disk) {us ws : List (ℕ × Block)} → Cut us ws → Always P d ws → P (replay d us)
  Always-Cut d (all ws) a = Always-now d ws a
  Always-Cut d (before_last w c) a = Always-Cut d c a.1

-- The disk outside the log after a whole transaction.
pub record AllNew (l : Log) (view before after : Disk) : Type 0 where
  pub written : (j : ℕ) → j < l.n → after (l.block j) ≡ view (l.block j)
  pub rest : Untouched l view before after

-- The disk outside the log with nothing of the transaction.
abbrev pub AllOld : Log → (before after : Disk) → Type 0
AllOld l before after = (b : ℕ) → IsHome l b → after b ≡ before b

module _ (l : Log) (s : Store) (before : Disk) (fit : IsFit l) (quiet : s.writes ≡ [])
    (clear : before l.start 0 ≡ 0) where
  abbrev Old : Disk → Type 0
  Old = IsOld l s.cache before

  abbrev Safe : Disk → Type 0
  Safe = IsSafe l s.cache before

  Old-before : Old before
  Old-before = record { clear = clear; same = λ b i. refl }

  Logging-start : Logging l s.cache before before 0 s
  Logging-start = record {
    safe = rw quiet (old Old-before);
    now = rw quiet Old-before;
    on_disk = λ j p. absurd (omega arith);
    in_cache = λ j p. absurd (omega arith);
    homes = λ j p. refl;
  }

  -- Every write of `commit` leaves the disk in a state that the recovery repairs, and the last one
  -- leaves the transaction installed.
  commit-Always :
      Always Safe before (commit l s).1.writes
      × IsInstalled l s.cache before (replay before (commit l s).1.writes)
  unfolding commit
  commit-Always = elim (Bool-cases (ltb 0 l.n)) [
    | inl some_blocks ↦ rw some_blocks (
        write_head-IsInstalled l s.cache before fit before (record l { n = 0 }) _ refl refl
          (install_loop-Installing l s.cache before fit before false l l.n 0 _ refl (λ j p. refl)
            (omega arith)
            (write_head-Installing l s.cache before fit before (write_log l s) (
              write_loop-Logging l s.cache before fit before l.n 0 s (omega arith) Logging-start))))
    | inr no_block ↦ rw no_block (
        rw quiet (
          old Old-before,
          record { clear = clear; installed = λ j p. absurd (ground arith); rest = λ b i u. refl },
        ))
  ]

  -- Recovery of a disk whose log is empty writes an empty header and nothing else.
  clear_recovery :
      (d : Disk)
      → d l.start 0 ≡ 0
      → (hb : Block) × (hb 0 ≡ 0)
        × ((initlog l.start l.size (boot d)).1.writes ≡ (l.start, hb) ∷ [])
  unfolding initlog
  clear_recovery d z =
      (update ((install_trans true (read_head m (boot d)) (boot d)).cache l.start) 0 0, refl, rw z)
    where
      m : Log
      m = empty_log l.start l.size

  -- Recovery of a committed transaction installs it.
  committed_recovery :
      (d : Disk)
      → IsCommitted l s.cache before d
      → let ws = (initlog l.start l.size (boot d)).1.writes in
        Always Safe d ws × IsInstalled l s.cache before (replay d ws)
  unfolding initlog
  committed_recovery d c =
      write_head-IsInstalled l s.cache before fit d (record m { n = 0 }) _ refl refl
        (install_loop-Installing l s.cache before fit d true m m.n 0 (boot d) refl (head.1)
          (omega (arith, head.0))
          (record {
            safe = committed c;
            now = c;
            in_cache = c.logged;
            done = λ j p. absurd (omega arith);
          }))
    where
      m : Log
      m = read_head (empty_log l.start l.size) (boot d)

      head : (m.n ≡ l.n) × ((j : ℕ) → j < l.n → m.block j ≡ l.block j)
      head = read_head_lem l (empty_log l.start l.size) (boot d) c.head

  -- An empty header leaves an old or an installed disk what it is.
  Old-clear : (d : Disk) (hb : Block) → hb 0 ≡ 0 → Old d → Old (update d l.start hb)
  Old-clear d hb z o = record {
    clear = ground arith;
    same = λ b i. ground (arith, o.same b i, fit.room);
  }

  IsInstalled-clear :
      (d : Disk) (hb : Block)
      → hb 0 ≡ 0
      → IsInstalled l s.cache before d
      → IsInstalled l s.cache before (update d l.start hb)
  IsInstalled-clear d hb z i = record {
    clear = ground arith;
    installed = λ j p. ground (arith, i.installed j p, fit.home j p, fit.room);
    rest = λ b h u. ground (arith, i.rest b h u, fit.room);
  }

  -- Recovery keeps the disk repairable at each of its writes, undoes nothing that is committed, and
  -- ends with all or nothing of the transaction.
  record Repaired (d : Disk) : Type 0 where
    safe : Always Safe d (initlog l.start l.size (boot d)).1.writes
    ends : (Old d × Old (recovered l d)) ⊎ IsInstalled l s.cache before (recovered l d)

  Safe-Repaired : (d : Disk) → Safe d → Repaired d
  Safe-Repaired d (old o) =
      let (hb, z, e) = clear_recovery d o.clear in
      let o' = Old-clear d hb z o in record { safe = rw e (old o', old o); ends = inl (o, rw e o') }
  Safe-Repaired d (committed c) =
      let (safe, now) = committed_recovery d c in record { safe = safe; ends = inr now }
  Safe-Repaired d (installed i) =
      let (hb, z, e) = clear_recovery d i.clear in
      let i' = IsInstalled-clear d hb z i in
      record { safe = rw e (installed i', installed i); ends = inr (rw e i') }

  Crashed-Safe : {d : Disk} → Crashed l s before d → Safe d
  Crashed-Safe (in_commit c) = Always-Cut Safe before c commit-Always.0
  Crashed-Safe (in_recovery {d} r c) =
      Always-Cut Safe d c (Repaired.safe (Safe-Repaired d (Crashed-Safe r)))

  -- Whatever disk the crashes left, the recovery that completes finds it with an empty log and,
  -- outside the log, either as it was before `commit` or with the whole transaction written and
  -- nothing else changed. A transaction is a header of fewer than `size` blocks outside the log; the
  -- log on disk is empty before it, and a crash stops `commit`, or a recovery from an earlier crash,
  -- after any number of its disk writes.
  pub crash_atomic :
      {d : Disk}
      → Crashed l s before d
      → (recovered l d l.start 0 ≡ 0)
        × (AllOld l before (recovered l d) ⊎ AllNew l s.cache before (recovered l d))
  crash_atomic {d} c = elim (Repaired.ends (Safe-Repaired d (Crashed-Safe c))) [
    | inl o ↦ (o.1.clear, inl o.1.same)
    | inr i ↦ (i.clear, inr (record { written = i.installed; rest = i.rest }))
  ]

  IsInstalled-recovered :
      (d : Disk) → IsInstalled l s.cache before d → IsInstalled l s.cache before (recovered l d)
  IsInstalled-recovered d i =
      let (hb, z, e) = clear_recovery d i.clear in rw e (IsInstalled-clear d hb z i)

  -- When `commit` has returned, the whole transaction is on the disk with the log empty, and a later
  -- recovery keeps it there.
  pub commit-durable :
      let after = replay before (commit l s).1.writes in
      (after l.start 0 ≡ 0)
      × AllNew l s.cache before after
      × AllNew l s.cache before (recovered l after)
  commit-durable =
      let i = commit-Always.1 in
      let j = IsInstalled-recovered _ i in
      (
        i.clear,
        record { written = i.installed; rest = i.rest },
        record { written = j.installed; rest = j.rest },
      )
