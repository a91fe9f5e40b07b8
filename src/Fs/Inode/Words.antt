-- ===== src/Fs/Inode/Words.antt =====
-- kernel/fs.c: the words of an indirect block.
use zept_os.Prelude.{
  ℕ, ◌+◌, ◌*◌, ◌/◌, ◌%◌, ◌^◌, ◌<◌, ◌≡◌, ◌≢◌, ◌∙◌, ap, sym, refl, true, false, arith, ◌==◌,
}
use zept_os.Fs.{bsize}
use zept_os.Fs.Inode.{get_uint, put_uint}

byte_of :
    (i word k : ℕ) (bytes : ℕ → ℕ)
    → k < 4
    → put_uint bytes i word (4 * i + k) ≡ word / 256 ^ k % 256
unfolding put_uint
byte_of i word k bytes h =
    let e : ((4 * i + k) / 4 == i) ≡ true = ground (arith, h) in
    let f : (4 * i + k) % 4 ≡ k = omega arith in rw (e, f) refl

byte_other :
    (i j word k : ℕ) (bytes : ℕ → ℕ)
    → k < 4
    → i ≢ j
    → put_uint bytes i word (4 * j + k) ≡ bytes (4 * j + k)
unfolding put_uint
byte_other i j word k bytes h n =
    let e : ((4 * j + k) / 4 == i) ≡ false = ground (arith, h, n) in rw e refl

first : (i : ℕ) → 4 * i ≡ 4 * i + 0
first i = omega arith

pub get-put :
    (bytes : ℕ → ℕ) (i word : ℕ) → word < 2 ^ 32 → get_uint (put_uint bytes i word) i ≡ word
unfolding get_uint
get-put bytes i word h =
    rw
      (
        ap (put_uint bytes i word) (first i) ∙ byte_of i word 0 bytes (omega arith),
        byte_of i word 1 bytes (omega arith),
        byte_of i word 2 bytes (omega arith),
        byte_of i word 3 bytes (omega arith),
      )
      (omega arith)

pub get_other :
    (bytes : ℕ → ℕ) (i j word : ℕ) → i ≢ j → get_uint (put_uint bytes i word) j ≡ get_uint bytes j
unfolding get_uint
get_other bytes i j word n =
    rw
      (
        ap (put_uint bytes i word) (first j)
            ∙ byte_other i j word 0 bytes (omega arith) n
            ∙ ap bytes (sym (first j)),
        byte_other i j word 1 bytes (omega arith) n,
        byte_other i j word 2 bytes (omega arith) n,
        byte_other i j word 3 bytes (omega arith) n,
      )
      refl

pub get_zero :
    (bytes : ℕ → ℕ) (i : ℕ) → ((t : ℕ) → t < bsize → bytes t ≡ 0) → i < 256 → get_uint bytes i ≡ 0
unfolding get_uint
get_zero bytes i z h =
    rw
      (
        z (4 * i) (omega arith),
        z (4 * i + 1) (omega arith),
        z (4 * i + 2) (omega arith),
        z (4 * i + 3) (omega arith),
      )
      refl
