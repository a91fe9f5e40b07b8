-- ===== src/Fs/Balloc.antt =====
-- kernel/fs.c: `balloc` finds the first free block.
use zept_os.Prelude.{
  ℕ, zero, suc, ◌+◌, ◌-◌, ◌*◌, ◌/◌, ◌%◌, ◌≤◌, ◌<◌, ◌≡◌, ◌∙◌, sym, refl, ◌⊎◌, inl, inr, true, false,
  Option, none, some, arith, ltb, ◌==◌, Bool-cases, update, ℕ_discrete,
}
use mathlib.Core.Path.{subst}
use zept_os.Fs.{Blocks, bpb, Superblock, bblock, bzero, bit, mark, find_bit, balloc_loop, balloc}
use zept_os.Fs.Bitmap.{used, IsBitmap, bit_two, Allocated, marking, marking-Allocated}

-- What the inner loop finds.
abbrev Finds : (left b bi size : ℕ) (bytes : ℕ → ℕ) → Option ℕ → Type 0
Finds left b bi size bytes found =
    ((found ≡ none) × ((j : ℕ) → bi ≤ j → j < bi + left → b + j < size → bit bytes j ≡ 1))
    ⊎ ((k : ℕ) × (found ≡ some k)
        × (bi ≤ k)
        × (k < bi + left)
        × (b + k < size)
        × (bit bytes k ≡ 0)
        × ((j : ℕ) → bi ≤ j → j < k → bit bytes j ≡ 1))

find_next :
    (left b bi size : ℕ) (bytes : ℕ → ℕ) (found : Option ℕ)
    → bit bytes bi ≡ 1
    → Finds left b (bi + 1) size bytes found
    → Finds (suc left) b bi size bytes found
find_next left b bi size bytes found one (inl (e, all)) = inl (
  e,
  λ j l h s. elim (ℕ_discrete bi j) [
    | yes d ↦ subst (λ k. bit bytes k ≡ 1) d one
    | no d ↦ all j (omega arith) (omega arith) s
  ],
)
find_next left b bi size bytes found one (inr (k, e, l, h, s, z, all)) = inr (
  k,
  e,
  omega arith,
  omega arith,
  s,
  z,
  λ j m g. elim (ℕ_discrete bi j) [
    | yes d ↦ subst (λ k. bit bytes k ≡ 1) d one
    | no d ↦ all j (omega arith) g
  ],
)

find_bit-Finds :
    (left b bi size : ℕ) (bytes : ℕ → ℕ)
    → Finds left b bi size bytes (find_bit left b bi size bytes)
unfolding find_bit
find_bit-Finds zero b bi size bytes = inl (refl, λ j l h s. absurd (omega arith))
find_bit-Finds (suc left) b bi size bytes = elim (Bool-cases (ltb (b + bi) size)) [
  | inr past ↦ rw past (inl (refl, λ j l h s. absurd (ground (arith, past))))
  | inl in_disk ↦ elim (Bool-cases (bit bytes bi == 0)) [
    | inl e ↦
        rw (in_disk, e)
          (inr (
            bi,
            refl,
            omega arith,
            omega arith,
            ground (arith, in_disk),
            ground (arith, e),
            λ j l h. absurd (omega arith),
          ))
    | inr e ↦
        rw (in_disk, e)
          (find_next left b bi size bytes _ (bit_two bytes bi e)
            (find_bit-Finds left b (bi + 1) size bytes))
  ]
]

-- The outcome of `balloc`.
abbrev pub Ballocs : Superblock → Blocks → ℕ × Blocks → Type 0
Ballocs sb blocks result =
    (((c : ℕ) → c < sb.size → used sb blocks c ≡ 1) × (result ≡ (0, blocks)))
    ⊎ Allocated sb blocks result.0 result.1

loop_zero : (b : ℕ) (sb : Superblock) (blocks : Blocks) → balloc_loop 0 b sb blocks ≡ (0, blocks)
unfolding balloc_loop
loop_zero b sb blocks = refl

loop_end :
    (fuel b : ℕ) (sb : Superblock) (blocks : Blocks)
    → sb.size ≤ b
    → balloc_loop (suc fuel) b sb blocks ≡ (0, blocks)
unfolding balloc_loop
loop_end fuel b sb blocks h = let e : ltb b sb.size ≡ false = ground (arith, h) in rw e refl

loop_next :
    (fuel b : ℕ) (sb : Superblock) (blocks : Blocks)
    → b < sb.size
    → find_bit bpb b 0 sb.size (blocks (bblock b sb)) ≡ none
    → balloc_loop (suc fuel) b sb blocks ≡ balloc_loop fuel (b + bpb) sb blocks
unfolding balloc_loop
loop_next fuel b sb blocks h n = let e : ltb b sb.size ≡ true = ground (arith, h) in rw (e, n) refl

loop_found :
    (fuel b k : ℕ) (sb : Superblock) (blocks : Blocks)
    → b < sb.size
    → find_bit bpb b 0 sb.size (blocks (bblock b sb)) ≡ some k
    → balloc_loop (suc fuel) b sb blocks
      ≡ (b + k, bzero (b + k) (update blocks (bblock b sb) (mark (blocks (bblock b sb)) k)))
unfolding balloc_loop
loop_found fuel b k sb blocks h n =
    let e : ltb b sb.size ≡ true = ground (arith, h) in rw (e, n) refl

-- The bits of a block of the bitmap are those of its blocks.
used_at :
    (b k : ℕ) (sb : Superblock) (blocks : Blocks)
    → b % bpb ≡ 0
    → k < bpb
    → used sb blocks (b + k) ≡ bit (blocks (bblock b sb)) k
used_at b k sb blocks h l =
    let e : bblock (b + k) sb ≡ bblock b sb = omega arith in
    let f : (b + k) % bpb ≡ k = omega arith in λ i. bit (blocks (e i)) (f i)

seen :
    (b : ℕ) (sb : Superblock) (blocks : Blocks)
    → b % bpb ≡ 0
    → ((c : ℕ) → c < b → c < sb.size → used sb blocks c ≡ 1)
    → ((j : ℕ) → 0 ≤ j → j < 0 + bpb → b + j < sb.size → bit (blocks (bblock b sb)) j ≡ 1)
    → (c : ℕ) → c < b + bpb
    → c < sb.size
    → used sb blocks c ≡ 1
seen b sb blocks h u all c l s = elim (Bool-cases (ltb c b)) [
  | inl g ↦ u c (ground (arith, g)) s
  | inr g ↦
      let g' : b ≤ c = ground (arith, g) in
      let e : b + (c - b) ≡ c = omega arith in
      subst (λ d. used sb blocks d ≡ 1) e
        (used_at b (c - b) sb blocks h (omega arith)
          ∙ all (c - b) (omega arith) (omega arith) (omega arith))
]

found_Allocated :
    (b k : ℕ) (sb : Superblock) (blocks : Blocks)
    → IsBitmap sb blocks
    → b % bpb ≡ 0
    → k < 0 + bpb
    → b + k < sb.size
    → bit (blocks (bblock b sb)) k ≡ 0
    → ((c : ℕ) → c < b → c < sb.size → used sb blocks c ≡ 1)
    → ((j : ℕ) → 0 ≤ j → j < k → bit (blocks (bblock b sb)) j ≡ 1)
    → Allocated sb blocks
        (b + k)
        (bzero (b + k) (update blocks (bblock b sb) (mark (blocks (bblock b sb)) k)))
unfolding marking
found_Allocated b k sb blocks m h l s z u all =
    let e : bblock (b + k) sb ≡ bblock b sb = omega arith in
    let f : (b + k) % bpb ≡ k = omega arith in
    subst
      (λ (p : ℕ × ℕ).
        Allocated sb blocks (b + k) (bzero (b + k) (update blocks p.0 (mark (blocks p.0) p.1))))
      (λ i. (e i, f i))
      (marking-Allocated sb blocks (b + k) m s (used_at b k sb blocks h (omega arith) ∙ z) (λ c g.
        elim (Bool-cases (ltb c b)) [
          | inl y ↦ u c (ground (arith, y)) (omega arith)
          | inr y ↦
              let y' : b ≤ c = ground (arith, y) in
              let d : b + (c - b) ≡ c = omega arith in
              subst (λ d. used sb blocks d ≡ 1) d
                (used_at b (c - b) sb blocks h (omega arith)
                  ∙ all (c - b) (omega arith) (omega arith))
        ]))

balloc_loop-Ballocs :
    (fuel b : ℕ) (sb : Superblock) (blocks : Blocks)
    → IsBitmap sb blocks
    → b % bpb ≡ 0
    → sb.size < b + fuel * bpb
    → ((c : ℕ) → c < b → c < sb.size → used sb blocks c ≡ 1)
    → Ballocs sb blocks (balloc_loop fuel b sb blocks)
balloc_loop-Ballocs zero b sb blocks m h f u =
    inl (λ c l. u c (omega arith) l, loop_zero b sb blocks)
balloc_loop-Ballocs (suc fuel) b sb blocks m h f u = elim (Bool-cases (ltb b sb.size)) [
  | inr past ↦
      let p : sb.size ≤ b = ground (arith, past) in
      inl (λ c l. u c (omega arith) l, loop_end fuel b sb blocks p)
  | inl inside ↦
      let p : b < sb.size = ground (arith, inside) in
      elim (find_bit-Finds bpb b 0 sb.size (blocks (bblock b sb))) [
        | inl (e, all) ↦ subst (Ballocs sb blocks) (sym (loop_next fuel b sb blocks p e)) (
            balloc_loop-Ballocs fuel (b + bpb) sb blocks m (omega arith) (omega arith)
              (seen b sb blocks h u all))
        | inr (k, e, l, g, s, z, all) ↦
            subst (Ballocs sb blocks) (sym (loop_found fuel b k sb blocks p e))
              (inr (found_Allocated b k sb blocks m h g s z u all))
      ]
]

-- Where the blocks of the bitmap are blocks of the disk in use: `balloc` returns 0 and changes nothing
-- when every block is in use. Otherwise it returns the first block that is free, now in use and all
-- zero; no other block is taken or freed, and the contents change only there and in the bitmap.
pub balloc-Ballocs :
    (sb : Superblock) (blocks : Blocks) → IsBitmap sb blocks → Ballocs sb blocks (balloc sb blocks)
unfolding balloc
balloc-Ballocs sb blocks m =
    balloc_loop-Ballocs (sb.size / bpb + 2) 0 sb blocks m (omega arith) (omega arith)
      (λ c l s. absurd (omega arith))
