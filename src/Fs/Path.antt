-- ===== src/Fs/Path.antt =====
-- kernel/fs.c: the elements of a path, as `skipelem` takes them off.
use zept_os.Prelude.{
  ℕ, ◌≤◌, ◌<◌, ◌≡◌, ◌∙◌, ap, sym, refl, ◌⊎◌, inl, inr, true, false, none, some, List, [], ◌∷◌,
  arith, ◌==◌, if◌then◌else◌, Bool-cases, length, take, ◌≢◌,
}
use zept_os.Fs.{dirsiz, skip_slashes, element, skipelem}

-- A character in front of the first of the parts.
abbrev extend : ℕ → List (List ℕ) → List (List ℕ)
extend c [] = (c ∷ []) ∷ []
extend c (part ∷ parts) = (c ∷ part) ∷ parts

-- The parts of a path between its slashes, the empty ones included.
pub split : List ℕ → List (List ℕ)
split [] = [] ∷ []
split (c ∷ path) = let parts = split path in if c == b'/' then [] ∷ parts else extend c parts

-- The parts that are not empty.
pub kept : List (List ℕ) → List (List ℕ)
kept [] = []
kept ([] ∷ parts) = kept parts
kept ((c ∷ part) ∷ parts) = (c ∷ part) ∷ kept parts

abbrev pub components : List ℕ → List (List ℕ)
components path = kept (split path)

pub no_components : (path : List ℕ) → path ≡ [] → components path ≡ []
unfolding kept split
no_components path e = ap components e

slash_split : (c : ℕ) (path : List ℕ) → (c == b'/') ≡ true → split (c ∷ path) ≡ [] ∷ split path
unfolding split
slash_split c path e = rw e refl

char_split :
    (c : ℕ) (path : List ℕ) → (c == b'/') ≡ false → split (c ∷ path) ≡ extend c (split path)
unfolding split
char_split c path e = rw e refl

components-skip_slashes : (path : List ℕ) → components (skip_slashes path) ≡ components path
unfolding skip_slashes kept
components-skip_slashes [] = refl
components-skip_slashes (c ∷ path) = elim (Bool-cases (c == b'/')) [
  | inl e ↦ rw e (components-skip_slashes path ∙ ap kept (sym (slash_split c path e)))
  | inr e ↦ rw e refl
]

-- The first part is what `element` passes, and the other ones are those of the rest.
element-split :
    (path : List ℕ)
    → (parts : List (List ℕ)) × (split path ≡ (element path).0 ∷ parts)
      × (kept parts ≡ components (element path).1)
unfolding element kept split
element-split [] = ([], refl, refl)
element-split (c ∷ path) = elim (Bool-cases (c == b'/')) [
  | inl e ↦ rw e (split path, refl, ap kept (sym (slash_split c path e)))
  | inr e ↦ let (parts, s, k) = element-split path in rw (e, s) (parts, refl, k)
]

skip_cases :
    (path : List ℕ)
    → (skip_slashes path ≡ [])
      ⊎ ((c : ℕ) × (rest : List ℕ) × (skip_slashes path ≡ c ∷ rest)
          × ((c == b'/') ≡ false)
          × (length rest < length path))
unfolding skip_slashes
skip_cases [] = inl refl
skip_cases (c ∷ path) = elim (Bool-cases (c == b'/')) [
  | inl e ↦ elim (skip_cases path) [
    | inl f ↦ inl (rw e f)
    | inr (d, rest, f, n, l) ↦ inr (d, rest, rw e f, n, omega arith)
  ]
  | inr e ↦ inr (c, path, rw e refl, e, omega arith)
]

length-skip_slashes : (path : List ℕ) → length (skip_slashes path) ≤ length path
unfolding skip_slashes
length-skip_slashes [] = omega arith
length-skip_slashes (c ∷ path) = elim (Bool-cases (c == b'/')) [
  | inl e ↦ rw e (omega (arith, length-skip_slashes path))
  | inr e ↦ rw e (omega arith)
]

length-element : (path : List ℕ) → length (element path).1 ≤ length path
unfolding element
length-element [] = omega arith
length-element (c ∷ path) = elim (Bool-cases (c == b'/')) [
  | inl e ↦ rw e (omega arith)
  | inr e ↦ rw e (omega (arith, length-element path))
]

element_char :
    (c : ℕ) (path : List ℕ)
    → (c == b'/') ≡ false
    → element (c ∷ path) ≡ (c ∷ (element path).0, (element path).1)
unfolding element
element_char c path e = rw e refl

skipelem-none : (path : List ℕ) → skip_slashes path ≡ [] → skipelem path ≡ none
unfolding skipelem
skipelem-none path e = rw (e, skipelem) refl

skipelem-some :
    (path : List ℕ) (c : ℕ) (rest : List ℕ)
    → skip_slashes path ≡ c ∷ rest
    → skipelem path ≡ some (take dirsiz (element (c ∷ rest)).0, skip_slashes (element (c ∷ rest)).1)
unfolding skipelem
skipelem-some path c rest e =
    rw (e, skipelem) (λ i. some (take dirsiz (element (e i)).0, skip_slashes (element (e i)).1))

-- The components of a path that starts with a character of a name.
components_char :
    (c : ℕ) (path : List ℕ)
    → (c == b'/') ≡ false
    → components (c ∷ path) ≡ (c ∷ (element path).0) ∷ components (skip_slashes (element path).1)
unfolding kept
components_char c path e =
    let (parts, s, k) = element-split path in
    ap kept (char_split c path e ∙ ap (extend c) s)
    ∙ (λ i. (c ∷ (element path).0) ∷ (k ∙ sym (components-skip_slashes (element path).1)) i)

-- A path without a slash in front is empty, or has components.
no_slash : (path : List ℕ) → (skip_slashes path ≡ []) ⊎ (components (skip_slashes path) ≢ [])
no_slash path = elim (skip_cases path) [
  | inl e ↦ inl e
  | inr (c, rest, e, n, l) ↦
      inr (λ z. (let f = sym (components_char c rest n) ∙ sym (ap components e) ∙ z in absurd (cc)))
]

-- `skipelem` fails exactly on a path without components. Otherwise it gives the first component, cut
-- at DIRSIZ characters, and a shorter path with the other components, which is empty when there are
-- none.
pub skipelem-components :
    (path : List ℕ)
    → ((components path ≡ []) × (skipelem path ≡ none))
      ⊎ ((part : List ℕ) × (rest : List ℕ) × (components path ≡ part ∷ components rest)
          × (skipelem path ≡ some (take dirsiz part, rest))
          × (length rest < length path)
          × ((rest ≡ []) ⊎ (components rest ≢ [])))
unfolding kept split
skipelem-components path = elim (skip_cases path) [
  | inl e ↦ inl (sym (components-skip_slashes path) ∙ ap components e, skipelem-none path e)
  | inr (c, more, e, n, l) ↦ inr (
    c ∷ (element more).0,
    skip_slashes (element more).1,
    sym (components-skip_slashes path) ∙ ap components e ∙ components_char c more n,
    skipelem-some path c more e
        ∙ ap (λ (r : List ℕ × List ℕ). some (take dirsiz r.0, skip_slashes r.1))
            (element_char c more n),
    omega (arith, l, length-skip_slashes (element more).1, length-element more),
    no_slash (element more).1,
  )
]
