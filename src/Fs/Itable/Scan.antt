-- ===== src/Fs/Itable/Scan.antt =====
-- kernel/fs.c: what the loop of `iget` finds.
use zept_os.Prelude.{
  ℕ, zero, suc, ◌+◌, ◌≤◌, ◌<◌, ◌≡◌, ◌≢◌, ◌∙◌, ap, sym, refl, ◌⊎◌, inl, inr, true, false, Option,
  none, some, arith, ◌==◌, Bool-cases, ℕ_discrete,
}
use mathlib.Core.Path.{subst}
use zept_os.Fs.Itable.{Entry, Itable, is_inode, remember, iget_loop}

-- The entry is one of the inode's, with a reference.
pub record Holds (dev inum : ℕ) (e : Entry) : Type 0 where
  pub live : 0 < e.ref
  pub device : e.dev ≡ dev
  pub number : e.ip.inum ≡ inum

is_inode-true : (dev inum : ℕ) (e : Entry) → is_inode dev inum e ≡ true → Holds dev inum e
unfolding is_inode
is_inode-true dev inum e h = record {
  live = ground (arith, h);
  device = ground (arith, h);
  number = ground (arith, h);
}

is_inode-false : (dev inum : ℕ) (e : Entry) → is_inode dev inum e ≡ false → Holds dev inum e → ⊥
unfolding is_inode
is_inode-false dev inum e h o = absurd (ground (arith, h, o.live, o.device, o.number))

-- What the loop finds in the entries from `i` on, `rest` of them.
pub data Found (rest i dev inum : ℕ) (empty : Option ℕ) (t : Itable) : ℕ ⊎ (Option ℕ) → Type 0 where
  found : (k : ℕ) → k < i + rest → Holds dev inum (t k) → Found rest i dev inum empty t (inl k)
  missed :
      (e : Option ℕ)
      → ((k : ℕ) → i ≤ k → k < i + rest → Holds dev inum (t k) → ⊥)
      → ((k : ℕ) → e ≡ some k → (empty ≡ some k) ⊎ ((k < i + rest) × ((t k).ref ≡ 0)))
      → (e ≡ none → (empty ≡ none) × ((k : ℕ) → i ≤ k → k < i + rest → (t k).ref ≢ 0))
      → Found rest i dev inum empty t (inr e)

remember-some :
    (empty : Option ℕ) (i : ℕ) (e : Entry) (k : ℕ)
    → remember empty i e ≡ some k
    → (empty ≡ some k) ⊎ ((k ≡ i) × (e.ref ≡ 0))
unfolding remember
remember-some (some m) i e k h = inl h
remember-some none i e k h = elim (Bool-cases (e.ref == 0)) [
  | inl z ↦ inr (ground (arith, h, z), ground (arith, z))
  | inr z ↦ inl (ground (arith, h, z))
]

remember-none :
    (empty : Option ℕ) (i : ℕ) (e : Entry)
    → remember empty i e ≡ none
    → (empty ≡ none) × (e.ref ≢ 0)
unfolding remember
remember-none (some m) i e h = absurd (cc)
remember-none none i e h = elim (Bool-cases (e.ref == 0)) [
  | inl z ↦ let h' : some i ≡ none = rw z at h in absurd (cc)
  | inr z ↦ (refl, ground (arith, z))
]

pub iget_loop-Found :
    (rest i dev inum : ℕ) (empty : Option ℕ) (t : Itable)
    → Found rest i dev inum empty t (iget_loop rest i dev inum empty t)
unfolding iget_loop
iget_loop-Found zero i dev inum empty t =
    missed empty (λ k l h. absurd (omega arith)) (λ k e. inl e)
      (λ e. (e, λ k l h. absurd (omega arith)))
iget_loop-Found (suc rest) i dev inum empty t = elim (Bool-cases (is_inode dev inum (t i))) [
  | inl e ↦ rw e (found i (omega arith) (is_inode-true dev inum (t i) e))
  | inr e ↦ rw e (
      widen rest i dev inum empty t (iget_loop rest (suc i) dev inum (remember empty i (t i)) t)
        (is_inode-false dev inum (t i) e)
        (iget_loop-Found rest (suc i) dev inum (remember empty i (t i)) t))
]
  where
    widen :
        (rest i dev inum : ℕ) (empty : Option ℕ) (t : Itable) (r : ℕ ⊎ (Option ℕ))
        → (Holds dev inum (t i) → ⊥)
        → Found rest (suc i) dev inum (remember empty i (t i)) t r
        → Found (suc rest) i dev inum empty t r
    widen rest i dev inum empty t r other (found k h o) = found k (omega (arith, h)) o
    widen rest i dev inum empty t r other (missed e none_of some_of full) =
        missed e
          (λ k l h o. elim (ℕ_discrete i k) [
            | yes d ↦ other (subst (λ z. Holds dev inum (t z)) (sym d) o)
            | no d ↦ none_of k (omega arith) (omega arith) o
          ])
          (λ k s. elim (some_of k s) [
            | inr (h, z) ↦ inr (omega (arith, h), z)
            | inl m ↦ elim (remember-some empty i (t i) k m) [
              | inl g ↦ inl g
              | inr (d, z) ↦ inr (omega (arith, d), ap (λ j. (t j).ref) d ∙ z)
            ]
          ])
          (λ s.
            let (m, all) = full s in
            let (g, z) = remember-none empty i (t i) m in
            (
              g,
              λ k l h. elim (ℕ_discrete i k) [
                | yes d ↦ subst (λ j. (t j).ref ≢ 0) d z
                | no d ↦ all k (omega arith) (omega arith)
              ],
            ))
