-- ===== src/Fs/Itable/Unique.antt =====
-- kernel/fs.c: an inode has one entry of the table at most.
use zept_os.Prelude.{
  ℕ, ◌+◌, ◌<◌, ◌≡◌, ◌≢◌, ◌∙◌, ap, sym, refl, ◌⊎◌, inl, inr, false, Option, none, some, arith,
  update, update_self, update_other, ℕ_discrete, ok, panic,
}
use mathlib.Core.Path.{subst}
use zept_os.Fs.Itable.Scan.{Holds, Found, found, missed, iget_loop-Found}
use zept_os.Fs.Itable.{ninode, Entry, Itable, iget_loop, iget_found, iget, idup}

-- No inode has two entries.
abbrev pub IsUnique : Itable → Type 0
IsUnique t =
    (i j dev inum : ℕ)
    → i < ninode
    → j < ninode
    → Holds dev inum (t i)
    → Holds dev inum (t j)
    → i ≡ j

-- The entry of the inode in place of one that nothing refers to, or of the inode's own.
pub put-IsUnique :
    (i dev inum : ℕ) (e : Entry) (t : Itable)
    → Holds dev inum e
    → ((k : ℕ) → k < ninode → Holds dev inum (t k) → k ≡ i)
    → IsUnique t
    → IsUnique (update t i e)
put-IsUnique i dev inum e t o only u j k d n hj hk oj ok' = elim (ℕ_discrete i j) [
  | yes y ↦ elim (ℕ_discrete i k) [
    | yes z ↦ sym y ∙ z
    | no z ↦ sym y ∙ sym (only k hk (moved j k y z hk oj ok'))
  ]
  | no y ↦ elim (ℕ_discrete i k) [
    | yes z ↦ only j hj (moved k j z y hj ok' oj) ∙ z
    | no z ↦ u j k d n hj hk (kept j y oj) (kept k z ok')
  ]
]
  where
    kept : (j : ℕ) → i ≢ j → Holds d n (update t i e j) → Holds d n (t j)
    kept j y h = subst (Holds d n) (update_other t i e j y) h

    -- The new entry at `j` is of the inode that `k` has.
    moved :
        (j k : ℕ)
        → i ≡ j
        → i ≢ k
        → k < ninode
        → Holds d n (update t i e j)
        → Holds d n (update t i e k)
        → Holds dev inum (t k)
    moved j k y z h oj ok' =
        let a = subst (Holds d n) (ap (update t i e) (sym y) ∙ update_self t i e) oj in
        let b = kept k z ok' in
        record {
          live = b.live;
          device = b.device ∙ sym a.device ∙ o.device;
          number = b.number ∙ sym a.number ∙ o.number;
        }

-- The outcome of `iget`: no entry is left for the inode, or the one at `i` is the inode's, with one
-- reference more than before, and nothing else has changed.
pub record Got (dev inum : ℕ) (t : Itable) (i : ℕ) (t' : Itable) : Type 0 where
  pub in_table : i < ninode
  pub entry : Holds dev inum (t' i)
  pub counted : (t' i).ref ≡ (t i).ref + 1
  pub others : (k : ℕ) → i ≢ k → t' k ≡ t k
  pub reread : (t i).ref ≡ 0 → (t' i).ip.valid ≡ false
  pub kept : (t i).ref ≢ 0 → (t' i).ip ≡ (t i).ip
  pub unique : IsUnique t'

-- One reference more for the entry of the inode.
one_more :
    (i dev inum : ℕ) (t : Itable)
    → i < ninode
    → Holds dev inum (t i)
    → IsUnique t
    → Got dev inum t i (update t i (record (t i) { ref = (t i).ref + 1 }))
one_more i dev inum t h o u =
    let e : Entry = record (t i) { ref = (t i).ref + 1 } in
    let o' : Holds dev inum e = record {
      live = omega arith;
      device = o.device;
      number = o.number;
    } in
    record {
      in_table = h;
      entry = subst (Holds dev inum) (sym (update_self t i e)) o';
      counted = ap (λ (x : Entry). x.ref) (update_self t i e);
      others = update_other t i e;
      reread = λ z. let p = o.live in absurd (omega (arith, p, z));
      kept = λ z. ap (λ (x : Entry). x.ip) (update_self t i e);
      unique = put-IsUnique i dev inum e t o' (λ k l q. u k i dev inum l h q o) u;
    }

-- `idup` of an entry of the table in use: one reference more, and no inode has two entries.
idup-Got :
    (i : ℕ) (t : Itable)
    → i < ninode
    → 0 < (t i).ref
    → IsUnique t
    → Got (t i).dev (t i).ip.inum t i (idup i t)
unfolding idup
idup-Got i t h live u =
    let own : Holds (t i).dev (t i).ip.inum (t i) = record {
      live = live;
      device = refl;
      number = refl;
    } in
    one_more i (t i).dev (t i).ip.inum t h own u

-- `iget` of a table in which no inode has two entries. When the table has no entry of the inode and
-- none without references, it panics. Otherwise it returns an index whose entry is then the inode's,
-- with one reference more than before; a recycled entry is marked as not read, another one keeps its
-- inode, the other entries are as before, and still no inode has two entries.
pub iget-Got :
    (dev inum : ℕ) (t : Itable)
    → IsUnique t
    → ((iget dev inum t ≡ panic "iget: no inodes")
        × ((k : ℕ) → k < ninode → ((t k).ref ≢ 0) × (Holds dev inum (t k) → ⊥)))
      ⊎ ((i : ℕ) × (t' : Itable) × (iget dev inum t ≡ ok (i, t')) × Got dev inum t i t')
unfolding iget iget_found
iget-Got dev inum t u =
    gets (iget_loop ninode 0 dev inum none t) (iget_loop-Found ninode 0 dev inum none t)
  where
    none_no : (k : ℕ) → ◌≡◌ {A = Option ℕ} none (some k) → ⊥
    none_no k e = absurd (cc)

    gets :
        (r : ℕ ⊎ (Option ℕ))
        → Found ninode 0 dev inum none t r
        → ((iget_found dev inum r t ≡ panic "iget: no inodes")
            × ((k : ℕ) → k < ninode → ((t k).ref ≢ 0) × (Holds dev inum (t k) → ⊥)))
          ⊎ ((i : ℕ) × (t' : Itable) × (iget_found dev inum r t ≡ ok (i, t')) × Got dev inum t i t')
    gets (inl i) (found _ h o) = inr (i, _, refl, one_more i dev inum t h o u)
    gets (inr none) (missed _ no_one some_of full) =
        inl (refl, λ k h. ((full refl).1 k (omega arith) h, no_one k (omega arith) h))
    gets (inr (some i)) (missed _ no_one some_of full) = elim (some_of i refl) [
      | inl z ↦ absurd (none_no i z)
      | inr (h, z) ↦
          let e : Entry = record {
            ref = 1;
            dev = dev;
            ip = record (t i).ip { inum = inum; valid = false };
          } in
          let o : Holds dev inum e = record { live = omega arith; device = refl; number = refl } in
          inr (
            i,
            update t i e,
            refl,
            record {
              in_table = h;
              entry = subst (Holds dev inum) (sym (update_self t i e)) o;
              counted = ap (λ (x : Entry). x.ref) (update_self t i e) ∙ omega (arith, z);
              others = update_other t i e;
              reread = λ _. ap (λ (x : Entry). x.ip.valid) (update_self t i e);
              kept = λ n. absurd (n z);
              unique =
                  put-IsUnique i dev inum e t o (λ k l q. absurd (no_one k (omega arith) l q)) u;
            },
          )
    ]
