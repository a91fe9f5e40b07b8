-- ===== src/Log/Header.antt =====
-- kernel/log.c: the header block, as `write_head` writes it and `read_head` reads it back.
use zept_os.Prelude.{
  ℕ, zero, suc, ◌+◌, ◌≤◌, ◌<◌, ◌≡◌, ◌∙◌, refl, true, ◌∷◌, arith, ◌==◌, if◌then◌else◌, update,
}
use zept_os.Log.{Block, Store, Log, head_loop, read_loop, write_head, read_head}

head_loop-zero : (block : ℕ → ℕ) (rest i : ℕ) (hb : Block) → head_loop block rest i hb 0 ≡ hb 0
unfolding head_loop
head_loop-zero block zero i hb = refl
head_loop-zero block (suc rest) i hb =
    ground (arith, head_loop-zero block rest (i + 1) (update hb (1 + i) (block i)))

-- The loop writes the words of the slots that it goes through, and no word below them.
head_loop-below :
    (block : ℕ → ℕ) (rest i j : ℕ) (hb : Block)
    → j < i
    → head_loop block rest i hb (1 + j) ≡ hb (1 + j)
unfolding head_loop
head_loop-below block zero i j hb h = refl
head_loop-below block (suc rest) i j hb h =
    ground (arith, head_loop-below block rest (i + 1) j (update hb (1 + i) (block i)))

head_loop-slot :
    (block : ℕ → ℕ) (rest i j : ℕ) (hb : Block)
    → i ≤ j
    → j < i + rest
    → head_loop block rest i hb (1 + j) ≡ block j
unfolding head_loop
head_loop-slot block zero i j hb h k = absurd (omega arith)
head_loop-slot block (suc rest) i j hb h k = ground (
  arith,
  head_loop-below block rest (i + 1) j (update hb (1 + i) (block i)),
  head_loop-slot block rest (i + 1) j (update hb (1 + i) (block i)),
)

read_loop-below :
    (lh : Block) (rest i j : ℕ) (block : ℕ → ℕ) → j < i → read_loop lh rest i block j ≡ block j
unfolding read_loop
read_loop-below lh zero i j block h = refl
read_loop-below lh (suc rest) i j block h =
    ground (arith, read_loop-below lh rest (i + 1) j (update block i (lh (1 + i))))

pub read_loop-slot :
    (lh : Block) (rest i j : ℕ) (block : ℕ → ℕ)
    → i ≤ j
    → j < i + rest
    → read_loop lh rest i block j ≡ lh (1 + j)
unfolding read_loop
read_loop-slot lh zero i j block h k = absurd (omega arith)
read_loop-slot lh (suc rest) i j block h k = ground (
  arith,
  read_loop-below lh rest (i + 1) j (update block i (lh (1 + i))),
  read_loop-slot lh rest (i + 1) j (update block i (lh (1 + i))),
)

-- The header block that `write_head` sends to the disk.
unfoldable pub header : Log → Store → Block
header l s = head_loop l.block l.n 0 (update (s.cache l.start) 0 l.n)

pub header-count : (l : Log) (s : Store) → header l s 0 ≡ l.n
unfolding header
header-count l s = head_loop-zero l.block l.n 0 (update (s.cache l.start) 0 l.n)

pub header-slot : (l : Log) (s : Store) (j : ℕ) → j < l.n → header l s (1 + j) ≡ l.block j
unfolding header
header-slot l s j h =
    head_loop-slot l.block l.n 0 j (update (s.cache l.start) 0 l.n) (omega arith) (omega arith)

pub cache-write_head :
    (l : Log) (s : Store) (b : ℕ)
    → (write_head l s).cache b ≡ (if l.start == b then header l s else s.cache b)
unfolding write_head header
cache-write_head l s b = refl

pub writes-write_head :
    (l : Log) (s : Store) → (write_head l s).writes ≡ (l.start, header l s) ∷ s.writes
unfolding write_head header
writes-write_head l s = refl

-- What a header block tells of a transaction.
pub record IsHeader (l : Log) (lh : Block) : Type 0 where
  pub count : lh 0 ≡ l.n
  pub slots : (j : ℕ) → j < l.n → lh (1 + j) ≡ l.block j

pub header-IsHeader : (l : Log) (s : Store) → IsHeader l (header l s)
header-IsHeader l s = record { count = header-count l s; slots = header-slot l s }

-- `read_head` gives the count and the block numbers that the header block holds.
pub read_head_lem :
    (l m : Log) (s : Store)
    → IsHeader l (s.cache m.start)
    → ((read_head m s).n ≡ l.n) × ((j : ℕ) → j < l.n → (read_head m s).block j ≡ l.block j)
unfolding read_head
read_head_lem l m s h = (
  h.count,
  λ j p.
      read_loop-slot (s.cache m.start) (s.cache m.start 0) 0 j m.block (omega arith)
        (omega (arith, h.count))
      ∙ h.slots j p,
)

-- `read_head` after `write_head` restores the count and the block numbers of the transaction,
-- whatever the in-memory header held before.
pub read_head-write_head :
    (l m : Log) (s : Store)
    → m.start ≡ l.start
    → let r = read_head m (write_head l s) in
      (r.n ≡ l.n) × ((j : ℕ) → j < l.n → r.block j ≡ l.block j)
read_head-write_head l m s e =
    read_head_lem l m (write_head l s) (rw (cache-write_head, same) (header-IsHeader l s))
  where
    same : (l.start == m.start) ≡ true
    same = ground arith
