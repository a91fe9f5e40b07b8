-- ===== src/Strings/Move.antt =====
-- kernel/string.c: `memmove` copies correctly whether or not the two ranges overlap.
use zept_os.Prelude.{
  ℕ, zero, suc, ◌+◌, ◌-◌, ◌%◌, ◌≤◌, ◌<◌, ◌≡◌, ◌≢◌, ◌∙◌, refl, ◌⊎◌, inl, inr, ◌&&◌, arith, ltb, leb,
  ◌==◌, if◌then◌else◌, Bool-cases,
}
use zept_os.Prelude.Int.{pos, sub_ℕ}
use zept_os.Strings.{Bytes, memset, memcmp, copy_up, copy_down, memmove}

-- The memory in which the `n` bytes from `d` on are those that stood from `s` on.
abbrev pub moved : (d s n : ℕ) → Bytes → Bytes
moved d s n mem j = if leb d j && ltb j (d + n) then mem (s + (j - d)) else mem j

copy_up-moved :
    (d s n : ℕ) (mem : Bytes) (j : ℕ)
    → (d ≤ s) ⊎ (s + n ≤ d)
    → copy_up d s n mem j ≡ moved d s n mem j
unfolding copy_up
copy_up-moved d s zero mem j h = ground arith
copy_up-moved d s (suc n) mem j h =
    copy_up-moved (d + 1) (s + 1) n _ j (ground arith) ∙ ground arith

copy_down-moved :
    (d s n : ℕ) (mem : Bytes) (j : ℕ) → s < d → copy_down d s n mem j ≡ moved d s n mem j
unfolding copy_down
copy_down-moved d s zero mem j h = ground arith
copy_down-moved d s (suc n) mem j h = copy_down-moved d s n _ j h ∙ ground arith

-- After `memmove` the destination holds the bytes that the source held before, also where the two
-- ranges overlap, and every other byte is as it was.
pub memmove-moved :
    (dst src n : ℕ) (mem : Bytes) (j : ℕ) → memmove dst src n mem j ≡ moved dst src n mem j
unfolding memmove
memmove-moved dst src n mem j =
    ground (arith, copy_up-moved dst src n mem j, copy_down-moved dst src n mem j)

-- `memset` fills its range with the byte, and touches nothing else.
pub memset_lem :
    (dst c n : ℕ) (mem : Bytes) (j : ℕ)
    → memset dst c n mem j ≡ (if leb dst j && ltb j (dst + n) then c % 256 else mem j)
unfolding memset
memset_lem dst c zero mem j = ground arith
memset_lem dst c (suc n) mem j = memset_lem (dst + 1) c n _ j ∙ ground arith

-- `memcmp` returns 0 exactly when the ranges hold the same bytes. Otherwise its sign is that of the
-- first difference.
pub memcmp_lem :
    (s1 s2 n : ℕ) (mem : Bytes)
    → ((memcmp s1 s2 n mem ≡ pos 0) × ((k : ℕ) → k < n → mem (s1 + k) ≡ mem (s2 + k)))
      ⊎ ((k : ℕ) × (k < n)
          × ((j : ℕ) → j < k → mem (s1 + j) ≡ mem (s2 + j))
          × (mem (s1 + k) ≢ mem (s2 + k))
          × (memcmp s1 s2 n mem ≡ sub_ℕ (mem (s1 + k)) (mem (s2 + k))))
unfolding memcmp
memcmp_lem s1 s2 zero mem = inl (refl, λ k h. absurd (omega arith))
memcmp_lem s1 s2 (suc n) mem = elim (Bool-cases (mem s1 == mem s2)) [
  | inr differ ↦ inr (0, omega arith, λ j h. absurd (omega arith), ground arith, ground arith)
  | inl same ↦ elim (memcmp_lem (s1 + 1) (s2 + 1) n mem) [
    | inl (z, all) ↦ inl (rw same z, λ k h. ground (arith, all (k - 1)))
    | inr (k, lt, before, ne, e) ↦ inr (
      k + 1,
      omega arith,
      λ j h. ground (arith, before (j - 1)),
      ground (arith, ne),
      ground (arith, e),
    )
  ]
]
