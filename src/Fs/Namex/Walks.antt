-- ===== src/Fs/Namex/Walks.antt =====
-- kernel/fs.c: `namex` walks along the components of a path.
use zept_os.Prelude.{
  ℕ, zero, suc, ◌+◌, ◌<◌, ◌≡◌, ◌≢◌, ap, sym, refl, ◌⊎◌, inl, inr, Bool, true, false, not, ◌&&◌,
  Option, none, some, List, [], ◌∷◌, map, arith, if◌then◌else◌, Bool-cases, length, take,
}
use mathlib.Core.Path.{subst}
use zept_os.Fs.{dirsiz, skipelem}
use zept_os.Fs.Path.{components, no_components, skipelem-components}
use zept_os.Fs.Namex.{Inodes, is_slash, at_end, iunlockput, namex_loop, namex}
use zept_os.Fs.Namex.Balance.{
  Walks, arrives, rootless, not_dir, stops, missing, enters, one, one_same, held, IsCounted,
  Walks-balance,
}

at_end_nil : (path : List ℕ) → at_end path ≡ true → path ≡ []
unfolding at_end
at_end_nil [] e = refl
at_end_nil (c ∷ path) e = absurd (cc)

nil_at_end : (path : List ℕ) → path ≡ [] → at_end path ≡ true
unfolding at_end
nil_at_end [] e = refl
nil_at_end (c ∷ path) e = absurd (cc)

map_nil : (xs : List (List ℕ)) → map (take dirsiz) xs ≡ [] → xs ≡ []
map_nil [] e = refl
map_nil (x ∷ xs) e = absurd (cc)

-- The components of a path as `skipelem` cuts them.
abbrev pub names : List ℕ → List (List ℕ)
names path = map (take dirsiz) (components path)

-- The parent is not wanted here: it is not wanted at all, or names are left.
goes_on :
    (parent : Bool) (rest : List ℕ)
    → (parent && at_end rest) ≡ false
    → (rest ≡ []) ⊎ (components rest ≢ [])
    → (parent ≡ false) ⊎ (names rest ≢ [])
goes_on parent rest b (inl e) = let a = nil_at_end rest e in inl (ground (arith, a, b))
goes_on parent rest b (inr n) = inr (λ z. n (map_nil (components rest) z))

module _ {S : Type 0} (io : Inodes S) (parent : Bool) where
  loop_end :
      (fuel ip : ℕ) (path name : List ℕ) (s : S)
      → skipelem path ≡ none
      → namex_loop io parent (suc fuel) ip path name s
        ≡ (if parent then (none, name, io.iput ip s) else (some ip, name, s))
  unfolding namex_loop
  loop_end fuel ip path name s e = rw (e, namex_loop) refl

  -- The lookup in a directory, with the rest of the loop.
  after_lookup : (fuel ip : ℕ) (elem rest : List ℕ) → Option ℕ → S → Option ℕ × List ℕ × S
  after_lookup fuel ip elem rest found s2 = elim found [
    | none ↦ (none, elem, io.iput ip (io.iunlock ip s2))
    | some next ↦ namex_loop io parent fuel next rest elem (io.iput ip (io.iunlock ip s2))
  ]

  -- The round for the element `elem` with `rest` to go.
  round : (fuel ip : ℕ) (elem rest : List ℕ) (s : S) → Option ℕ × List ℕ × S
  unfolding after_lookup
  round fuel ip elem rest s =
      let s1 = io.ilock ip s in
      if not (io.is_dir ip s1)
      then (none, elem, io.iput ip (io.iunlock ip s1))
      else if parent && at_end rest
      then (some ip, elem, io.iunlock ip s1)
      else after_lookup fuel ip elem rest (io.dirlookup ip elem s1).0 (io.dirlookup ip elem s1).1

  loop_round :
      (fuel ip : ℕ) (path name elem rest : List ℕ) (s : S)
      → skipelem path ≡ some (elem, rest)
      → namex_loop io parent (suc fuel) ip path name s ≡ round fuel ip elem rest s
  unfolding namex_loop iunlockput round after_lookup
  loop_round fuel ip path name elem rest s e = rw (e, namex_loop) refl

  end-Walks :
      (ip : ℕ) (name : List ℕ) (s : S) (p : Bool)
      → parent ≡ p
      → Walks io parent ip [] name s (if p then (none, name, io.iput ip s) else (some ip, name, s))
  end-Walks ip name s true e = rootless ip name s e
  end-Walks ip name s false e = arrives ip name s e

  lookup-Walks :
      (fuel ip : ℕ) (elem rest name : List ℕ) (s s2 : S) (found : Option ℕ)
      → io.is_dir ip (io.ilock ip s) ≡ true
      → (parent ≡ false) ⊎ (names rest ≢ [])
      → io.dirlookup ip elem (io.ilock ip s) ≡ (found, s2)
      → ((next : ℕ) (t : S)
          → Walks io parent next (names rest) elem t (namex_loop io parent fuel next rest elem t))
      → Walks io parent ip (elem ∷ names rest) name s (after_lookup fuel ip elem rest found s2)
  unfolding after_lookup
  lookup-Walks fuel ip elem rest name s s2 none d g f w =
      missing ip elem name (names rest) s s2 d g f
  lookup-Walks fuel ip elem rest name s s2 (some next) d g f w =
      enters ip next elem name (names rest) s s2 _ d g f (w next _)

  round-Walks :
      (fuel ip : ℕ) (elem rest name : List ℕ) (s : S)
      → (rest ≡ []) ⊎ (components rest ≢ [])
      → ((next : ℕ) (t : S)
          → Walks io parent next (names rest) elem t (namex_loop io parent fuel next rest elem t))
      → Walks io parent ip (elem ∷ names rest) name s (round fuel ip elem rest s)
  unfolding round
  round-Walks fuel ip elem rest name s last w = elim (Bool-cases (io.is_dir ip (io.ilock ip s))) [
    | inr d ↦ rw d (not_dir ip elem name (names rest) s d)
    | inl d ↦ rw d (elim (Bool-cases (parent && at_end rest)) [
      | inl b ↦
          let p : parent ≡ true = ground (arith, b) in
          let a : at_end rest ≡ true = ground (arith, b) in
          let z : names rest ≡ [] =
            ap (map (take dirsiz)) (no_components rest (at_end_nil rest a)) in
          rw b (
            subst
              (λ ns.
                Walks io parent ip (elem ∷ ns) name s
                  (some ip, elem, io.iunlock ip (io.ilock ip s)))
              (sym z) (stops ip elem name s d p))
      | inr b ↦
          rw b (lookup-Walks fuel ip elem rest name s _ _ d (goes_on parent rest b last) refl w)
    ])
  ]

  loop-Walks :
      (fuel ip : ℕ) (path name : List ℕ) (s : S)
      → length path < fuel
      → Walks io parent ip (names path) name s (namex_loop io parent fuel ip path name s)
  loop-Walks zero ip path name s h = absurd (omega arith)
  loop-Walks (suc fuel) ip path name s h = elim (skipelem-components path) [
    | inl (c, e) ↦
        subst
          (λ ns.
            Walks io parent ip (map (take dirsiz) ns) name s
              (namex_loop io parent (suc fuel) ip path name s))
          (sym c)
          (subst (Walks io parent ip [] name s) (sym (loop_end fuel ip path name s e))
            (end-Walks ip name s parent refl))
    | inr (part, rest, c, e, l, last) ↦
        subst
          (λ ns.
            Walks io parent ip (map (take dirsiz) ns) name s
              (namex_loop io parent (suc fuel) ip path name s))
          (sym c)
          (subst (Walks io parent ip (take dirsiz part ∷ names rest) name s)
            (sym (loop_round fuel ip path name (take dirsiz part) rest s e))
            (round-Walks fuel ip (take dirsiz part) rest name s last
              (λ next t. loop-Walks fuel next rest (take dirsiz part) t (omega arith))))
  ]

-- Where `namex` starts: at the root for a path with a slash in front, else at the current directory.
abbrev pub first : {S : Type 0} → Inodes S → List ℕ → S → ℕ × S
first io path s = if is_slash path then io.iget_root s else io.idup_cwd s

-- `namex` ends, and walks from the root or the current directory along the components of the path, each
-- cut at DIRSIZ characters: it gives a null pointer at an inode that is no directory, at a name that
-- a directory does not have, and for the parent of a path without components; else the inode at the
-- end, or, for the parent, the one before the last name, unlocked. When the functions it calls take
-- and drop one reference each, it leaves the references as they were, with one more to its result.
pub namex-Walks :
    {S : Type 0} (io : Inodes S) (parent : Bool) (path name : List ℕ) (s : S) (refs : S → ℕ → ℕ)
    → IsCounted io refs
    → Walks io parent
        (first io path s).0
        (names path)
        name
        (first io path s).1
        (namex io parent path name s)
      × ((x : ℕ)
          → refs (namex io parent path name s).2 x
            ≡ refs s x + held (namex io parent path name s).0 x)
unfolding namex
namex-Walks io parent path name s refs c = (walk, λ x. balance x)
  where
    walk :
        Walks io parent
          (first io path s).0
          (names path)
          name
          (first io path s).1
          (namex io parent path name s)
    walk =
        loop-Walks io parent (length path + 1) (first io path s).0 path name (first io path s).1
          (omega arith)

    taken : (x : ℕ) → refs (first io path s).1 x ≡ refs s x + one (first io path s).0 x
    taken x = elim (Bool-cases (is_slash path)) [
      | inl e ↦ rw e (c.root s x)
      | inr e ↦ rw e (c.cwd s x)
    ]

    balance :
        (x : ℕ)
        → refs (namex io parent path name s).2 x ≡ refs s x + held (namex io parent path name s).0 x
    balance x =
        let ip = (first io path s).0 in
        let mine = taken ip in
        let all =
          Walks-balance io refs c parent ip (names path) name (first io path s).1
            (namex io parent path name s) walk (omega (arith, mine, one_same ip)) x in
        omega (arith, all, taken x)
