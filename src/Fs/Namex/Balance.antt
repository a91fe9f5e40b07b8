-- ===== src/Fs/Namex/Balance.antt =====
-- kernel/fs.c: walks along the names of a path, and the references that they leave.
use zept_os.Prelude.{
  ℕ, ◌+◌, ◌<◌, ◌≡◌, ◌≢◌, ◌∙◌, ap, sym, refl, ◌⊎◌, Bool, true, false, Option, none, some, List, [],
  ◌∷◌, arith, ◌==◌, if◌then◌else◌, ℕ_discrete,
}
use mathlib.Core.Path.{subst}
use zept_os.Fs.Namex.{Inodes}

-- The walk from an inode along names, and how it ends.
pub data Walks {S : Type 0} (io : Inodes S) (parent : Bool)
    : ℕ → List (List ℕ) → List ℕ → S → Option ℕ × List ℕ × S → Type 0 where
  -- No name is left: this is the inode, which has no parent to give.
  arrives :
      (ip : ℕ) (name : List ℕ) (s : S)
      → parent ≡ false
      → Walks io parent ip [] name s (some ip, name, s)
  rootless :
      (ip : ℕ) (name : List ℕ) (s : S)
      → parent ≡ true
      → Walks io parent ip [] name s (none, name, io.iput ip s)
  not_dir :
      (ip : ℕ) (elem name : List ℕ) (ns : List (List ℕ)) (s : S)
      → io.is_dir ip (io.ilock ip s) ≡ false
      → Walks io parent ip
          (elem ∷ ns)
          name
          s
          (none, elem, io.iput ip (io.iunlock ip (io.ilock ip s)))
  -- The parent is wanted, and one name is left.
  stops :
      (ip : ℕ) (elem name : List ℕ) (s : S)
      → io.is_dir ip (io.ilock ip s) ≡ true
      → parent ≡ true
      → Walks io parent ip (elem ∷ []) name s (some ip, elem, io.iunlock ip (io.ilock ip s))
  missing :
      (ip : ℕ) (elem name : List ℕ) (ns : List (List ℕ)) (s s2 : S)
      → io.is_dir ip (io.ilock ip s) ≡ true
      → (parent ≡ false) ⊎ (ns ≢ [])
      → io.dirlookup ip elem (io.ilock ip s) ≡ (none, s2)
      → Walks io parent ip (elem ∷ ns) name s (none, elem, io.iput ip (io.iunlock ip s2))
  enters :
      (ip next : ℕ) (elem name : List ℕ) (ns : List (List ℕ)) (s s2 : S)
      (result : Option ℕ × List ℕ × S)
      → io.is_dir ip (io.ilock ip s) ≡ true
      → (parent ≡ false) ⊎ (ns ≢ [])
      → io.dirlookup ip elem (io.ilock ip s) ≡ (some next, s2)
      → Walks io parent next ns elem (io.iput ip (io.iunlock ip s2)) result
      → Walks io parent ip (elem ∷ ns) name s result

-- 1 for the same inode, else 0.
unfoldable pub one : ℕ → ℕ → ℕ
one a x = if a == x then 1 else 0

pub one_same : (a : ℕ) → one a a ≡ 1
unfolding one
one_same a = ground arith

one_other : (a b : ℕ) → a ≢ b → one a b ≡ 0
unfolding one
one_other a b n = ground (arith, n)

abbrev pub held : Option ℕ → ℕ → ℕ
held none x = 0
held (some ip) x = one ip x

-- `refs` counts the references to each inode: the functions take and drop one reference each.
pub record IsCounted {S : Type 0} (io : Inodes S) (refs : S → ℕ → ℕ) : Type 0 where
  pub root : (s : S) (x : ℕ) → refs (io.iget_root s).1 x ≡ refs s x + one (io.iget_root s).0 x
  pub cwd : (s : S) (x : ℕ) → refs (io.idup_cwd s).1 x ≡ refs s x + one (io.idup_cwd s).0 x
  pub lock : (ip : ℕ) (s : S) (x : ℕ) → refs (io.ilock ip s) x ≡ refs s x
  pub unlock : (ip : ℕ) (s : S) (x : ℕ) → refs (io.iunlock ip s) x ≡ refs s x
  pub put : (ip : ℕ) (s : S) (x : ℕ) → 0 < refs s ip → refs (io.iput ip s) x + one ip x ≡ refs s x
  pub lookup :
      (ip : ℕ) (name : List ℕ) (s : S) (x : ℕ)
      → refs (io.dirlookup ip name s).1 x ≡ refs s x + held (io.dirlookup ip name s).0 x

module _ {S : Type 0} (io : Inodes S) (refs : S → ℕ → ℕ) (c : IsCounted io refs) where
  put_down :
      (ip : ℕ) (s : S)
      → 0 < refs s ip
      → (x : ℕ) → refs (io.iput ip (io.iunlock ip s)) x + one ip x ≡ refs s x
  put_down ip s h x =
      c.put ip (io.iunlock ip s) x (let e = c.unlock ip s ip in omega (arith, e, h))
      ∙ c.unlock ip s x

  looked :
      (ip : ℕ) (elem : List ℕ) (s s2 : S) (r : Option ℕ)
      → io.dirlookup ip elem (io.ilock ip s) ≡ (r, s2)
      → (x : ℕ) → refs s2 x ≡ refs s x + held r x
  looked ip elem s s2 r e x =
      ap (λ (p : Option ℕ × S). refs p.1 x) (sym e)
      ∙ c.lookup ip elem (io.ilock ip s) x
      ∙ (λ i. c.lock ip s x i + held (e i).0 x)

  -- A walk gives up the reference to the inode that it starts from, and keeps one to its result.
  pub Walks-balance :
      (parent : Bool) (ip : ℕ) (ns : List (List ℕ)) (name : List ℕ) (s : S)
      (result : Option ℕ × List ℕ × S)
      → Walks io parent ip ns name s result
      → 0 < refs s ip
      → (x : ℕ) → refs result.2 x + one ip x ≡ refs s x + held result.0 x
  Walks-balance parent _ _ _ _ _ (arrives ip name s p) h x = refl
  Walks-balance parent _ _ _ _ _ (rootless ip name s p) h x =
      let e = c.put ip s x h in omega (arith, e)
  Walks-balance parent _ _ _ _ _ (not_dir ip elem name ns s d) h x =
      let l = c.lock ip s in
      let e = put_down ip (io.ilock ip s) (omega (arith, h, l ip)) x in omega (arith, e, l x)
  Walks-balance parent _ _ _ _ _ (stops ip elem name s d p) h x =
      let e = c.unlock ip (io.ilock ip s) x in let l = c.lock ip s x in omega (arith, e, l)
  Walks-balance parent _ _ _ _ _ (missing ip elem name ns s s2 d p f) h x =
      let l = looked ip elem s s2 none f in
      let e = put_down ip s2 (omega (arith, h, l ip)) x in omega (arith, e, l x)
  Walks-balance parent _ _ _ _ _ (enters ip next elem name ns s s2 result d p f w) h x =
      let l = looked ip elem s s2 (some next) f in
      let e = put_down ip s2 (omega (arith, h, l ip)) in
      let rest =
        Walks-balance parent next ns elem (io.iput ip (io.iunlock ip s2)) result w
          (elim (ℕ_discrete ip next) [
            | yes y ↦
                let l' = subst (λ z. 0 < refs s z) y h in
                let o : one ip next ≡ 1 = subst (λ z. one ip z ≡ 1) y (one_same ip) in
                omega (arith, e next, l next, l', o, one_same next)
            | no n ↦ omega (arith, e next, l next, one_other ip next n, one_same next)
          ])
          x in
      omega (arith, rest, e x, l x)
