-- ===== src/Bio/Lists.antt =====
-- kernel/bio.c: what the loops of `bget` find in the list of buffers.
use zept_os.Prelude.{
  ℕ, zero, suc, ◌+◌, ◌<◌, ◌≡◌, ◌≤◌, ◌≢◌, sym, refl, inl, inr, false, ◌&&◌, none, some, arith, ◌==◌,
  Bool-cases, ℕ_discrete,
}
use mathlib.Core.Path.{subst}
use zept_os.Bio.{nbuf, Buf, head, Bcache, find_block, find_free}

-- The links go through all the buffers, in the order `place`, from the head and back to it.
pub record IsLinked (k : Bcache) : Type 0 where
  pub place : ℕ → ℕ
  pub first : k.next_of head ≡ place 0
  pub forward : (i : ℕ) → suc i < nbuf → k.next_of (place i) ≡ place (suc i)
  pub ends : k.next_of (place 29) ≡ head
  pub last : k.prev_of head ≡ place 29
  pub backward : (i : ℕ) → suc i < nbuf → k.prev_of (place (suc i)) ≡ place i
  pub inside : (i : ℕ) → i < nbuf → place i < nbuf
  pub all : (b : ℕ) → b < nbuf → (i : ℕ) × (i < nbuf) × (place i ≡ b)

-- The buffer is one of the block.
abbrev pub IsBlock : (dev blockno : ℕ) → Buf → Type 0
IsBlock dev blockno v = (v.dev ≡ dev) × (v.blockno ≡ blockno)

pub find_block-some :
    (fuel b dev blockno c : ℕ) (k : Bcache)
    → find_block fuel b dev blockno k ≡ some c
    → IsBlock dev blockno (k.buf c)
unfolding find_block
find_block-some zero b dev blockno c k e = cc
find_block-some (suc fuel) b dev blockno c k e = elim (Bool-cases (b == head)) [
  | inl h ↦ let f = rw h at e in cc
  | inr h ↦ elim (Bool-cases ((k.buf b).dev == dev && ((k.buf b).blockno == blockno))) [
    | inl g ↦
        let f : b ≡ c = (let z = rw (h, g) at e in cc) in
        rw (sym f) (ground (arith, g), ground (arith, g))
    | inr g ↦ find_block-some fuel (k.next_of b) dev blockno c k (rw (h, g) at e)
  ]
]

pub find_free-some :
    (fuel b c : ℕ) (k : Bcache) → find_free fuel b k ≡ some c → (k.buf c).refcnt ≡ 0
unfolding find_free
find_free-some zero b c k e = cc
find_free-some (suc fuel) b c k e = elim (Bool-cases (b == head)) [
  | inl h ↦ let f = rw h at e in cc
  | inr h ↦ elim (Bool-cases ((k.buf b).refcnt == 0)) [
    | inl g ↦ let f : b ≡ c = (let z = rw (h, g) at e in cc) in rw (sym f) (ground (arith, g))
    | inr g ↦ find_free-some fuel (k.prev_of b) c k (rw (h, g) at e)
  ]
]

find_block-step :
    (fuel b dev blockno : ℕ) (k : Bcache)
    → b ≢ head
    → find_block (suc fuel) b dev blockno k ≡ none
    → (IsBlock dev blockno (k.buf b) → ⊥) × (find_block fuel (k.next_of b) dev blockno k ≡ none)
unfolding find_block
find_block-step fuel b dev blockno k n e =
    let h : (b == head) ≡ false = ground (arith, n) in
    elim (Bool-cases ((k.buf b).dev == dev && ((k.buf b).blockno == blockno))) [
      | inl g ↦ let f = rw (h, g) at e in absurd (cc)
      | inr g ↦ (λ o. absurd (ground (arith, g, o.0, o.1)), rw (h, g) at e)
    ]

find_free-step :
    (fuel b : ℕ) (k : Bcache)
    → b ≢ head
    → find_free (suc fuel) b k ≡ none
    → ((k.buf b).refcnt ≢ 0) × (find_free fuel (k.prev_of b) k ≡ none)
unfolding find_free
find_free-step fuel b k n e =
    let h : (b == head) ≡ false = ground (arith, n) in
    elim (Bool-cases ((k.buf b).refcnt == 0)) [
      | inl g ↦ let f = rw (h, g) at e in absurd (cc)
      | inr g ↦ (ground (arith, g), rw (h, g) at e)
    ]

module _ (k : Bcache) (l : IsLinked k) where
  no_head : (i : ℕ) → i < nbuf → l.place i ≢ head
  no_head i h e = absurd (omega (arith, l.inside i h, e))

  -- From the place `i` on no buffer is of the block.
  find_block-none :
      (n i dev blockno : ℕ)
      → i + suc n ≡ nbuf
      → find_block (suc (suc n)) (l.place i) dev blockno k ≡ none
      → (j : ℕ) → i ≤ j
      → j < nbuf
      → IsBlock dev blockno (k.buf (l.place j))
      → ⊥
  find_block-none zero i dev blockno s e j p q o =
      let (this, _) = find_block-step 1 (l.place i) dev blockno k (no_head i (omega arith)) e in
      let d : i ≡ j = omega arith in
      this (subst (λ z. IsBlock dev blockno (k.buf (l.place z))) (sym d) o)
  find_block-none (suc n) i dev blockno s e j p q o =
      let (this, rest) =
        find_block-step (suc (suc n)) (l.place i) dev blockno k (no_head i (omega arith)) e in
      elim (ℕ_discrete i j) [
        | yes d ↦ this (subst (λ z. IsBlock dev blockno (k.buf (l.place z))) (sym d) o)
        | no d ↦
            find_block-none n (suc i) dev blockno (omega arith)
              (subst (λ b. find_block (suc (suc n)) b dev blockno k ≡ none)
                (l.forward i (omega arith)) rest)
              j (omega (arith, d)) q o
      ]

  -- Up to the place `i` every buffer is in use.
  find_free-none :
      (i : ℕ)
      → i < nbuf
      → find_free (suc (suc i)) (l.place i) k ≡ none
      → (j : ℕ) → j ≤ i
      → (k.buf (l.place j)).refcnt ≢ 0
  find_free-none zero h e j p =
      let (this, rest) = find_free-step 1 (l.place 0) k (no_head 0 h) e in
      let d : 0 ≡ j = omega arith in subst (λ z. (k.buf (l.place z)).refcnt ≢ 0) d this
  find_free-none (suc i) h e j p =
      let (this, rest) = find_free-step (suc (suc i)) (l.place (suc i)) k (no_head (suc i) h) e in
      elim (ℕ_discrete (suc i) j) [
        | yes d ↦ subst (λ z. (k.buf (l.place z)).refcnt ≢ 0) d this
        | no d ↦
            find_free-none i (omega arith)
              (subst (λ b. find_free (suc (suc i)) b k ≡ none) (l.backward i h) rest) j
              (omega (arith, d))
      ]

  -- The two loops of `bget` miss only what no buffer has.
  pub no_block :
      (dev blockno : ℕ)
      → find_block (nbuf + 1) (k.next_of head) dev blockno k ≡ none
      → (b : ℕ) → b < nbuf
      → IsBlock dev blockno (k.buf b)
      → ⊥
  no_block dev blockno e b h o =
      let (i, p, q) = l.all b h in
      find_block-none 29 0 dev blockno refl
        (subst (λ c. find_block (nbuf + 1) c dev blockno k ≡ none) l.first e) i (omega arith) p
        (subst (λ c. IsBlock dev blockno (k.buf c)) (sym q) o)

  pub none_free :
      find_free (nbuf + 1) (k.prev_of head) k ≡ none → (b : ℕ) → b < nbuf → (k.buf b).refcnt ≢ 0
  none_free e b h =
      let (i, p, q) = l.all b h in
      subst (λ c. (k.buf c).refcnt ≢ 0) q
        (find_free-none 29 (omega arith) (subst (λ c. find_free (nbuf + 1) c k ≡ none) l.last e) i
          (omega arith))
