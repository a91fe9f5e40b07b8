-- ===== src/Bio/Cached.antt =====
-- kernel/bio.c: a block that `bread` gives is what the disk holds.
use zept_os.Prelude.{ℕ, ◌<◌, ◌≢◌, ◌≡◌, ◌⊎◌, true, if◌then◌else◌}
use zept_os.Bio.Lists.{IsBlock}
use zept_os.Bio.{nbuf, Bcache, put_buf, add_uint}

-- A buffer that holds a block of the disk, when it says so.
unfoldable pub IsFaithful : (disk : ℕ → ℕ → ℕ → ℕ) → Bcache → Type 0
IsFaithful disk k =
    (b : ℕ) → (k.buf b).valid ≡ true → (k.buf b).bytes ≡ disk (k.buf b).dev (k.buf b).blockno

-- How the buffer `b` is taken: it is the block's and has one reference more, or no buffer is the
-- block's, and it had no references and has one. The other buffers, and the links, stay.
pub record Taken (dev blockno b : ℕ) (k k' : Bcache) : Type 0 where
  pub counted :
      (IsBlock dev blockno (k.buf b) × ((k'.buf b).refcnt ≡ add_uint (k.buf b).refcnt 1))
      ⊎ (((c : ℕ) → c < nbuf → IsBlock dev blockno (k.buf c) → ⊥)
          × ((k.buf b).refcnt ≡ 0)
          × ((k'.buf b).refcnt ≡ 1))
  pub others : (c : ℕ) → b ≢ c → k'.buf c ≡ k.buf c
  pub next_same : k'.next_of ≡ k.next_of
  pub prev_same : k'.prev_of ≡ k.prev_of

-- `bget` panics: no buffer is the block's, and all are in use.
abbrev pub AllBusy : (dev blockno : ℕ) → Bcache → Type 0
AllBusy dev blockno k =
    (b : ℕ) → b < nbuf → ((k.buf b).refcnt ≢ 0) × (IsBlock dev blockno (k.buf b) → ⊥)

-- What `bread` does with the buffer that `bget` gave it.
abbrev loaded : (disk : ℕ → ℕ → ℕ → ℕ) (b : ℕ) → Bcache → Bcache
loaded disk b k =
    if (k.buf b).valid
    then k
    else put_buf b (record (k.buf b) { bytes = disk (k.buf b).dev (k.buf b).blockno; valid = true })
        k

-- Buffer `b` of the cache holds the block.
pub record Has (disk : ℕ → ℕ → ℕ → ℕ) (dev blockno b : ℕ) (k : Bcache) : Type 0 where
  pub dev_is : (k.buf b).dev ≡ dev
  pub block_is : (k.buf b).blockno ≡ blockno
  pub valid : (k.buf b).valid ≡ true
  pub bytes : (k.buf b).bytes ≡ disk dev blockno
  pub others : IsFaithful disk k
