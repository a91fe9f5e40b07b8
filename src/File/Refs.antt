-- ===== src/File/Refs.antt =====
-- kernel/file.c: the reference counts. The handles are the pointers to open files that descriptors
-- and system calls hold; `ref` of a file counts the handles on it.
use zept_os.Prelude.{
  ℕ, zero, suc, ◌+◌, ◌-◌, ◌≤◌, ◌<◌, ◌≡◌, ◌≢◌, refl, inl, inr, Option, none, some, List, [], ◌∷◌,
  arith, ltb, ◌==◌, if◌then◌else◌, Bool-cases, update, ok, panic,
}
use zept_os.File.{
  FileType, fd_none, fd_pipe, fd_inode, fd_device, File, nfile, Ftable, alloc_loop, filealloc,
  filedup, Closing, keep, close_pipe, put_inode, closing_of, fileclose,
}

-- How often a file is held.
abbrev pub uses : ℕ → List ℕ → ℕ
uses f [] = 0
uses f (h ∷ hs) = (if h == f then 1 else 0) + uses f hs

-- The handles without one handle on `f`.
abbrev pub drop_one : ℕ → List ℕ → List ℕ
drop_one f [] = []
drop_one f (h ∷ hs) = if h == f then hs else h ∷ drop_one f hs

abbrev pub AllBelow : ℕ → List ℕ → Type 0
AllBelow n [] = Unit
AllBelow n (h ∷ hs) = (h < n) × AllBelow n hs

pub record IsCounted (t : Ftable) (hs : List ℕ) : Type 0 where
  pub inside : AllBelow nfile hs
  pub counted : (f : ℕ) → f < nfile → (t f).ref ≡ uses f hs

uses-drop_one :
    (f g : ℕ) (hs : List ℕ)
    → 0 < uses f hs
    → uses g (drop_one f hs) + (if f == g then 1 else 0) ≡ uses g hs
uses-drop_one f g [] h = absurd (omega arith)
uses-drop_one f g (x ∷ hs) h = ground (arith, uses-drop_one f g hs)

AllBelow-drop_one : (n f : ℕ) (hs : List ℕ) → AllBelow n hs → AllBelow n (drop_one f hs)
AllBelow-drop_one n f [] a = tt
AllBelow-drop_one n f (x ∷ hs) a = elim (Bool-cases (x == f)) [
  | inl e ↦ rw e a.1
  | inr e ↦ rw e (a.0, AllBelow-drop_one n f hs a.1)
]

below_of_uses : (n f : ℕ) (hs : List ℕ) → AllBelow n hs → 0 < uses f hs → f < n
below_of_uses n f [] a h = absurd (omega arith)
below_of_uses n f (x ∷ hs) a h = ground (arith, a.0, below_of_uses n f hs a.1)

-- What the loop of `filealloc` finds.
abbrev Found : (rest i : ℕ) → Ftable → Option (ℕ × Ftable) → Type 0
Found rest i t none = (f : ℕ) → i ≤ f → f < i + rest → (t f).ref ≢ 0
Found rest i t (some (f, u)) =
    (i ≤ f) × (f < i + rest) × ((t f).ref ≡ 0) × (u ≡ update t f (record (t f) { ref = 1 }))

Found-later :
    (rest i : ℕ) (t : Ftable) (o : Option (ℕ × Ftable))
    → (t i).ref ≢ 0
    → Found rest (suc i) t o
    → Found (suc rest) i t o
Found-later rest i t none used h = λ f p q z. h f (ne f p z) (omega arith) z
  where
    ne : (f : ℕ) → i ≤ f → (t f).ref ≡ 0 → suc i ≤ f
    ne f p z = ground arith
Found-later rest i t (some (f, u)) used h = (omega (arith, h.0), omega (arith, h.1), h.2, h.3)

alloc_loop-Found : (rest i : ℕ) (t : Ftable) → Found rest i t (alloc_loop rest i t)
unfolding alloc_loop
alloc_loop-Found zero i t = λ f p q. absurd (omega arith)
alloc_loop-Found (suc rest) i t = elim (Bool-cases ((t i).ref == 0)) [
  | inl free ↦ rw free (omega arith, omega arith, ground arith, refl)
  | inr used ↦ rw used (Found-later rest i t _ (ground arith) (alloc_loop-Found rest (suc i) t))
]

-- What `filealloc` gives against the handles that exist.
abbrev pub Allocated : Ftable → List ℕ → Option (ℕ × Ftable) → Type 0
Allocated t hs none = (f : ℕ) → f < nfile → 0 < uses f hs
Allocated t hs (some (f, u)) = (f < nfile) × (uses f hs ≡ 0) × IsCounted u (f ∷ hs)

-- `filealloc` gives a file that no handle is on, with one handle counted, and touches no other
-- file; it fails only when every file of the table is held.
pub filealloc-Allocated : (t : Ftable) (hs : List ℕ) → IsCounted t hs → Allocated t hs (filealloc t)
unfolding filealloc
filealloc-Allocated t hs v = go (alloc_loop nfile 0 t) (alloc_loop-Found nfile 0 t)
  where
    go : (o : Option (ℕ × Ftable)) → Found nfile 0 t o → Allocated t hs o
    go none h = λ f p. ground (arith, h f (omega arith) p, v.counted f p)
    go (some (f, u)) h = (
      h.1,
      omega (arith, v.counted f h.1, h.2),
      rw h.3 (record {
        inside = (h.1, v.inside);
        counted = λ g p. ground (arith, v.counted g p, h.2);
      }),
    )

-- What is given up with a file of a type: the end of its pipe, the reference on its inode (that of the
-- device file too), or nothing.
abbrev pub GivenUp : File → FileType → Closing → Type 0
GivenUp ff fd_none c = c ≡ keep
GivenUp ff fd_pipe c = c ≡ close_pipe ff.pipe ff.writable
GivenUp ff fd_inode c = c ≡ put_inode ff.ip
GivenUp ff fd_device c = c ≡ put_inode ff.ip

closing_of-GivenUp : (f : File) (ty : FileType) → GivenUp f ty (closing_of f ty)
unfolding closing_of
closing_of-GivenUp f fd_none = refl
closing_of-GivenUp f fd_pipe = refl
closing_of-GivenUp f fd_inode = refl
closing_of-GivenUp f fd_device = refl

-- What `fileclose` does with a file of which it drops the last handle, or another.
abbrev pub Closed : File → (others : ℕ) → Closing → Type 0
Closed ff zero c = GivenUp ff ff.type c
Closed ff (suc n) c = c ≡ keep

closing_of-ref :
    (f : File) (r : ℕ) (ty : FileType) → closing_of (record f { ref = r }) ty ≡ closing_of f ty
unfolding closing_of
closing_of-ref f r fd_none = refl
closing_of-ref f r fd_pipe = refl
closing_of-ref f r fd_inode = refl
closing_of-ref f r fd_device = refl

Closed-suc : (ff : File) (n : ℕ) → 0 < n → Closed ff n keep
Closed-suc ff zero h = absurd (omega arith)
Closed-suc ff (suc n) h = refl

Closed-zero : (ff : File) (n : ℕ) → n ≡ 0 → Closed ff n (closing_of ff ff.type)
Closed-zero ff zero h = closing_of-GivenUp ff ff.type
Closed-zero ff (suc n) h = absurd (omega arith)

module _ (t : Ftable) (hs : List ℕ) (f : ℕ) (lt : f < nfile) (v : IsCounted t hs)
    (held : 0 < uses f hs) where
  -- What `fileclose` is to come to.
  Dropped : Type 0
  Dropped =
      (u : Ftable) × (c : Closing) × (fileclose f t ≡ ok (u, c))
      × IsCounted u (drop_one f hs)
      × Closed (t f) (uses f (drop_one f hs)) c

  one_less : uses f (drop_one f hs) + 1 ≡ uses f hs
  one_less = ground (arith, uses-drop_one f f hs)

  drop_to :
      (ff : File) → ff.ref ≡ uses f (drop_one f hs) → IsCounted (update t f ff) (drop_one f hs)
  drop_to ff e = record {
    inside = AllBelow-drop_one nfile f hs v.inside;
    counted = λ g p. ground (arith, v.counted g p, uses-drop_one f g hs);
  }

  fileclose-Dropped : Dropped
  unfolding fileclose Dropped
  fileclose-Dropped = elim (Bool-cases (ltb 0 ((t f).ref - 1))) [
    | inl more ↦ (
      update t f (record (t f) { ref = (t f).ref - 1 }),
      keep,
      ground (arith, v.counted f lt),
      drop_to _ (omega (arith, v.counted f lt, one_less)),
      Closed-suc (t f) _ (ground (arith, v.counted f lt, one_less)),
    )
    | inr last ↦ (
      update t f (record (t f) { ref = 0; type = fd_none }),
      closing_of (t f) (t f).type,
      ground (arith, v.counted f lt, closing_of-ref (t f) ((t f).ref - 1) (t f).type),
      drop_to _ (ground (arith, v.counted f lt, one_less)),
      Closed-zero (t f) _ (ground (arith, v.counted f lt, one_less)),
    )
  ]

-- With a handle on `f`, `filedup` and `fileclose` do not panic; the counts stay exact with one
-- handle more, or one fewer; and the end of the pipe, or the inode, of a device too, behind the file
-- is given up exactly when the last handle goes, whose file is then free. Without a handle both panic.
pub filedup-fileclose :
    (t : Ftable) (hs : List ℕ) (f : ℕ)
    → f < nfile
    → IsCounted t hs
    → (0 < uses f hs
        → ((u : Ftable) × (filedup f t ≡ ok u) × IsCounted u (f ∷ hs))
          × ((u : Ftable) × (c : Closing) × (fileclose f t ≡ ok (u, c))
              × IsCounted u (drop_one f hs)
              × Closed (t f) (uses f (drop_one f hs)) c))
      × (uses f hs ≡ 0 → (filedup f t ≡ panic "filedup") × (fileclose f t ≡ panic "fileclose"))
unfolding filedup fileclose Dropped
filedup-fileclose t hs f lt v = (
  λ held. (
    (
      update t f (record (t f) { ref = (t f).ref + 1 }),
      ground (arith, v.counted f lt),
      record { inside = (lt, v.inside); counted = λ g p. ground (arith, v.counted g p) },
    ),
    fileclose-Dropped t hs f lt v held,
  ),
  λ none_held. (ground (arith, v.counted f lt), ground (arith, v.counted f lt)),
)
