-- ===== src/Pipe/Fifo.antt =====
-- kernel/pipe.c: the ring as a first-in first-out queue of at most PIPESIZE bytes, with counters
-- that wrap at 2 ^ 32.
use zept_os.Prelude.{
  ℕ, zero, suc, ◌+◌, ◌-◌, ◌%◌, ◌^◌, ◌≤◌, ◌<◌, ◌≡◌, refl, ap, ◌∙◌, false, List, [], ◌∷◌, ◌++◌, arith,
  ◌==◌, update, length, true,
}
use zept_os.Pipe.{Pipe, pipesize, add_uint, put, get, is_full, is_empty}

-- nwrite - nread in `uint`: the number of bytes in the ring.
abbrev pub used : Pipe → ℕ
used p = (p.nwrite + 2 ^ 32 - p.nread) % 2 ^ 32

pub record IsValid (p : Pipe) : Type 0 where
  pub read_uint : p.nread < 2 ^ 32
  pub write_uint : p.nwrite < 2 ^ 32
  pub bounded : used p ≤ pipesize

-- The `n` bytes from counter `r` on.
unfoldable pub window : (ℕ → ℕ) → (r n : ℕ) → List ℕ
window buf r zero = []
window buf r (suc n) = buf (r % pipesize) ∷ window buf (add_uint r 1) n

-- The bytes in the pipe, oldest first.
unfoldable pub contents : Pipe → List ℕ
unfolding window
contents p = window p.buf p.nread (used p)

length-window : (buf : ℕ → ℕ) (r n : ℕ) → length (window buf r n) ≡ n
unfolding window
length-window buf r zero = refl
length-window buf r (suc n) = ap suc (length-window buf (add_uint r 1) n)

pub length-contents : (p : Pipe) → length (contents p) ≡ used p
unfolding contents
length-contents p = length-window p.buf p.nread (used p)

-- A byte stored behind a window that does not fill the ring extends it.
window-update :
    (buf : ℕ → ℕ) (x n r i : ℕ)
    → r < 2 ^ 32
    → n < pipesize
    → i ≡ add_uint r n
    → window (update buf (i % pipesize) x) r (suc n) ≡ window buf r n ++ (x ∷ [])
unfolding window
window-update buf x zero r i hr hn e = ground arith
window-update buf x (suc n) r i hr hn e = ground (arith, window-update buf x n (add_uint r 1) i)

window_of_pos :
    (buf : ℕ → ℕ) (r n : ℕ)
    → 0 < n
    → window buf r n ≡ buf (r % pipesize) ∷ window buf (add_uint r 1) (n - 1)
unfolding window
window_of_pos buf r zero h = absurd (omega arith)
window_of_pos buf r (suc n) h =
    ap (λ k. buf (r % pipesize) ∷ window buf (add_uint r 1) k) (omega arith)

module _ (p : Pipe) (v : IsValid p) where
  -- The code's tests for a full and for an empty pipe tell the number of bytes.
  pub full_iff : is_full p ≡ (used p == pipesize)
  full_iff = ground arith

  pub empty_iff : is_empty p ≡ (used p == 0)
  empty_iff = ground arith

  module _ (x : ℕ) (room : is_full p ≡ false) where
    pub put-IsValid : IsValid (put p x)
    unfolding put
    put-IsValid = ground arith

    pub contents-put : contents (put p x) ≡ contents p ++ (x ∷ [])
    unfolding contents put
    contents-put =
        ap (window (update p.buf (p.nwrite % pipesize) x) p.nread) (used-put)
        ∙ window-update p.buf x (used p) p.nread p.nwrite (omega arith) (ground arith) (omega arith)
      where
        used-put : used (put p x) ≡ suc (used p)
        used-put = ground arith

  module _ (some_byte : is_empty p ≡ false) where
    pub get-IsValid : IsValid (get p).1
    unfolding get
    get-IsValid = ground arith

    pub contents-get : contents p ≡ (get p).0 ∷ contents (get p).1
    unfolding contents get
    contents-get =
        window_of_pos p.buf p.nread (used p) (ground arith)
        ∙ ap (λ k. (get p).0 ∷ window p.buf (add_uint p.nread 1) k) used-get
      where
        used-get : used p - 1 ≡ used (get p).1
        used-get = ground arith

pub contents_of_empty : (p : Pipe) → IsValid p → is_empty p ≡ true → contents p ≡ []
unfolding contents window
contents_of_empty p v e = ap (window p.buf p.nread) {y = 0} (ground arith)
