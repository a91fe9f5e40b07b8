-- ===== src/Log/Loops.antt =====
-- kernel/log.c: the writes of `write_log`, `write_head` and `install_trans` one by one, and the
-- states of the disk between them.
use zept_os.Prelude.{
  ℕ, zero, suc, ◌+◌, ◌≤◌, ◌<◌, ◌≡◌, ◌≢◌, ◌⊎◌, Bool, true, false, List, [], ◌∷◌, arith, ◌==◌,
  if◌then◌else◌, update,
}
use mathlib.Core.Path.{subst}
use zept_os.Log.{Block, Store, Log, bwrite, bunpin, install_loop, write_head, write_loop}
use zept_os.Log.Header.{
  IsHeader, header, header-IsHeader, header-count, cache-write_head, writes-write_head,
}

abbrev pub Disk : Type 0
Disk = ℕ → Block

-- The disk after the writes, of which the last stands first.
abbrev pub replay : Disk → List (ℕ × Block) → Disk
replay d [] = d
replay d ((b, x) ∷ ws) = update (replay d ws) b x

-- `P` holds of the disk at every moment: before the first write and after each of them.
abbrev pub Always : (Disk → Type 0) → Disk → List (ℕ × Block) → Type 0
Always P d [] = P d
Always P d (w ∷ ws) = P (replay d (w ∷ ws)) × Always P d ws

-- A block that is not part of the log.
abbrev pub IsHome : Log → ℕ → Type 0
IsHome l b = (b < l.start) ⊎ (l.start + l.size ≤ b)

-- A transaction that fits the log on disk, of blocks outside it.
pub record IsFit (l : Log) : Type 0 where
  pub room : l.n < l.size
  pub home : (j : ℕ) → j < l.n → IsHome l (l.block j)

eqb_self : (a : ℕ) → (a == a) ≡ true
eqb_self a = ground arith

-- `l` is the transaction, `view` what the cache holds when `commit` starts, `before` the disk then.
module _ (l : Log) (view : ℕ → Block) (before : Disk) where
  -- Nothing is committed, and the disk outside the log is as before.
  pub record IsOld (d : Disk) : Type 0 where
    pub clear : d l.start 0 ≡ 0
    pub same : (b : ℕ) → IsHome l b → d b ≡ before b

  -- The blocks outside the log that the transaction does not write are as before.
  abbrev pub Untouched : Disk → Type 0
  Untouched d = (b : ℕ) → IsHome l b → ((j : ℕ) → j < l.n → l.block j ≢ b) → d b ≡ before b

  -- The transaction is committed: header and data stand in the log on disk.
  pub record IsCommitted (d : Disk) : Type 0 where
    pub head : IsHeader l (d l.start)
    pub logged : (j : ℕ) → j < l.n → d (l.start + j + 1) ≡ view (l.block j)
    pub rest : Untouched d

  -- All of the transaction is installed, and the log is empty.
  pub record IsInstalled (d : Disk) : Type 0 where
    pub clear : d l.start 0 ≡ 0
    pub installed : (j : ℕ) → j < l.n → d (l.block j) ≡ view (l.block j)
    pub rest : Untouched d

  pub data IsSafe (d : Disk) : Type 0 where
    old : IsOld d → IsSafe d
    committed : IsCommitted d → IsSafe d
    installed : IsInstalled d → IsSafe d

  -- In `write_log`, with the slots below `tail` written.
  pub record Logging (base : Disk) (tail : ℕ) (s : Store) : Type 0 where
    pub safe : Always IsSafe base s.writes
    pub now : IsOld (replay base s.writes)
    pub on_disk : (j : ℕ) → j < tail → replay base s.writes (l.start + j + 1) ≡ view (l.block j)
    pub in_cache : (j : ℕ) → j < tail → s.cache (l.start + j + 1) ≡ view (l.block j)
    pub homes : (j : ℕ) → j < l.n → s.cache (l.block j) ≡ view (l.block j)

  -- In `install_trans`, with the blocks of the slots below `tail` written.
  pub record Installing (base : Disk) (tail : ℕ) (s : Store) : Type 0 where
    pub safe : Always IsSafe base s.writes
    pub now : IsCommitted (replay base s.writes)
    pub in_cache : (j : ℕ) → j < l.n → s.cache (l.start + j + 1) ≡ view (l.block j)
    pub done : (j : ℕ) → j < tail → replay base s.writes (l.block j) ≡ view (l.block j)

  module _ (fit : IsFit l) (base : Disk) where
    log_one :
        (tail : ℕ) (s : Store)
        → tail < l.n
        → Logging base tail s
        → Logging base (tail + 1) (bwrite (l.start + tail + 1) (s.cache (l.block tail)) s)
    unfolding bwrite
    log_one tail s h g = record {
      safe = (old now', g.safe);
      now = now';
      on_disk = λ j p. ground (arith, g.on_disk j, g.homes tail h);
      in_cache = λ j p. ground (arith, g.in_cache j, g.homes tail h);
      homes = λ j p. ground (arith, g.homes j, fit.home j p, fit.room);
    }
      where
        now' : IsOld (update (replay base s.writes) (l.start + tail + 1) (s.cache (l.block tail)))
        now' = record {
          clear = ground (arith, g.now.clear);
          same = λ b i. ground (arith, g.now.same b, fit.room);
        }

    pub write_loop-Logging :
        (rest tail : ℕ) (s : Store)
        → tail + rest ≡ l.n
        → Logging base tail s
        → Logging base l.n (write_loop l rest tail s)
    unfolding write_loop
    write_loop-Logging zero tail s e g =
        let e' : tail ≡ l.n = omega arith in subst (λ k. Logging base k s) e' g
    write_loop-Logging (suc rest) tail s e g =
        write_loop-Logging rest (tail + 1) _ (omega arith) (log_one tail s (omega arith) g)

    -- The write of the header commits the transaction.
    pub write_head-Installing :
        (s : Store) → Logging base l.n s → Installing base 0 (write_head l s)
    write_head-Installing s g = record {
      safe = rw writes-write_head (committed now', g.safe);
      now = rw writes-write_head now';
      in_cache = λ j p. rw cache-write_head (ground (arith, g.in_cache j));
      done = λ j p. absurd (omega arith);
    }
      where
        now' : IsCommitted (update (replay base s.writes) l.start (header l s))
        now' = record {
          head = rw (eqb_self l.start) (header-IsHeader l s);
          logged = λ j p. ground (arith, g.on_disk j);
          rest = λ b i u. ground (arith, g.now.same b, fit.room);
        }

    install_one :
        (tail : ℕ) (s : Store)
        → tail < l.n
        → Installing base tail s
        → Installing base (tail + 1) (bwrite (l.block tail) (s.cache (l.start + tail + 1)) s)
    unfolding bwrite
    install_one tail s h g = record {
      safe = (committed now', g.safe);
      now = now';
      in_cache = λ j p. ground (arith, g.in_cache j, fit.home tail h, fit.room);
      done = λ j p. ground (arith, g.done j, g.in_cache tail h);
    }
      where
        not_start : (l.block tail == l.start) ≡ false
        not_start = ground (arith, fit.home tail h, fit.room)

        now' :
            IsCommitted
              (update (replay base s.writes) (l.block tail) (s.cache (l.start + tail + 1)))
        now' = record {
          head = rw not_start g.now.head;
          logged = λ j p. ground (arith, g.now.logged j, fit.home tail h, fit.room);
          rest = λ b i u. ground (arith, g.now.rest b i u, u tail h);
        }

    bunpin-Installing :
        (tail b : ℕ) (s : Store) → Installing base tail s → Installing base tail (bunpin b s)
    unfolding bunpin
    bunpin-Installing tail b s g = record {
      safe = g.safe;
      now = g.now;
      in_cache = g.in_cache;
      done = g.done;
    }

    install_next :
        (recovering : Bool) (tail dst src : ℕ) (s : Store)
        → tail < l.n
        → dst ≡ l.block tail
        → src ≡ l.start + tail + 1
        → Installing base tail s
        → let s' = bwrite dst (s.cache src) s in
          Installing base (tail + 1) (if recovering then s' else bunpin dst s')
    install_next true tail dst src s h e f g = rw (e, f) (install_one tail s h g)
    install_next false tail dst src s h e f g =
        bunpin-Installing (tail + 1) dst _ (rw (e, f) (install_one tail s h g))

    -- `m` is an in-memory header with the transaction's slots, as `read_head` gives it.
    pub install_loop-Installing :
        (recovering : Bool) (m : Log) (rest tail : ℕ) (s : Store)
        → m.start ≡ l.start
        → ((j : ℕ) → j < l.n → m.block j ≡ l.block j)
        → tail + rest ≡ l.n
        → Installing base tail s
        → Installing base l.n (install_loop recovering m rest tail s)
    unfolding install_loop
    install_loop-Installing recovering m zero tail s st same e g =
        let e' : tail ≡ l.n = omega arith in subst (λ k. Installing base k s) e' g
    install_loop-Installing recovering m (suc rest) tail s st same e g =
        install_loop-Installing recovering m rest (tail + 1) _ st same (omega arith) (
          install_next recovering tail (m.block tail) (m.start + tail + 1) s (omega arith)
            (same tail (omega arith)) (omega arith) g)

    -- Clearing the header ends the transaction.
    pub write_head-IsInstalled :
        (m : Log) (s : Store)
        → m.start ≡ l.start
        → m.n ≡ 0
        → Installing base l.n s
        → Always IsSafe base (write_head m s).writes
          × IsInstalled (replay base (write_head m s).writes)
    write_head-IsInstalled m s st z g = rw writes-write_head ((installed now', g.safe), now')
      where
        now' : IsInstalled (update (replay base s.writes) m.start (header m s))
        now' = record {
          clear = ground (arith, header-count m s);
          installed = λ j p. ground (arith, g.done j p, fit.home j p, fit.room);
          rest = λ b i u. ground (arith, g.now.rest b i u, fit.room);
        }
