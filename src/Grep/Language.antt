-- ===== src/Grep/Language.antt =====
-- user/grep.c: the language that a pattern denotes.
use zept_os.Prelude.{ℕ, ◌≡◌, refl, Bool, true, false, List, [], ◌∷◌, ◌++◌, ◌==◌, if◌then◌else◌}
use zept_os.Grep.{accepts}

-- One character, or any number of characters, each accepted by the character of the pattern.
pub data Item : Type 0 where
  one : (c : ℕ) → Item
  star : (c : ℕ) → Item

-- The items of a pattern without its `^`: a last `$` is none, and a star belongs to what it follows.
unfoldable pub items : (re : List ℕ) → List Item
items [] = []
items (c ∷ []) = if c == b'$' then [] else one c ∷ []
items (c ∷ d ∷ re) = elim (d == b'*') [ true ↦ star c ∷ items re | false ↦ one c ∷ items (d ∷ re) ]

-- Whether the pattern ends in a `$` for the end of the text.
unfoldable pub ends : (re : List ℕ) → Bool
ends [] = false
ends (c ∷ []) = c == b'$'
ends (c ∷ d ∷ re) = elim (d == b'*') [ true ↦ ends re | false ↦ ends (d ∷ re) ]

abbrev pub Accepted : ℕ → List ℕ → Type 0
Accepted c [] = Unit
Accepted c (x ∷ xs) = (accepts c x ≡ true) × Accepted c xs

-- The words of a list of items.
abbrev pub Denotes : List Item → (word : List ℕ) → Type 0
Denotes [] word = word ≡ []
Denotes (one c ∷ is) word =
    (x : ℕ) × (rest : List ℕ) × (word ≡ x ∷ rest) × (accepts c x ≡ true) × Denotes is rest
Denotes (star c ∷ is) word =
    (some_of : List ℕ) × (rest : List ℕ) × (word ≡ some_of ++ rest)
    × Accepted c some_of
    × Denotes is rest

-- A word of the items stands at the start of the text, and is all of it if `whole`.
abbrev pub Starts : (is : List Item) (whole : Bool) (text : List ℕ) → Type 0
Starts is whole text =
    (word : List ℕ) × (after : List ℕ) × (text ≡ word ++ after)
    × Denotes is word
    × (whole ≡ true → after ≡ [])

-- A pattern without its `^`.
abbrev pub body : (re : List ℕ) → List ℕ
body [] = []
body (c ∷ re) = if c == b'^' then re else c ∷ re

abbrev pub is_anchored : (re : List ℕ) → Bool
is_anchored [] = false
is_anchored (c ∷ re) = c == b'^'

-- A word of the pattern stands in the text: with `^`, at the start; with `$`, at the end.
abbrev pub Matches : (re text : List ℕ) → Type 0
Matches re text =
    (before : List ℕ) × (rest : List ℕ) × (text ≡ before ++ rest)
    × (is_anchored re ≡ true → before ≡ [])
    × Starts (items (body re)) (ends (body re)) rest

pub items-star :
    (c d : ℕ) (re : List ℕ) → (d == b'*') ≡ true → items (c ∷ d ∷ re) ≡ star c ∷ items re
unfolding items
items-star c d re e = rw (e, items) refl

pub items-one :
    (c d : ℕ) (re : List ℕ) → (d == b'*') ≡ false → items (c ∷ d ∷ re) ≡ one c ∷ items (d ∷ re)
unfolding items
items-one c d re e = rw (e, items) refl

pub ends-star : (c d : ℕ) (re : List ℕ) → (d == b'*') ≡ true → ends (c ∷ d ∷ re) ≡ ends re
unfolding ends
ends-star c d re e = rw (e, ends) refl

pub ends-one : (c d : ℕ) (re : List ℕ) → (d == b'*') ≡ false → ends (c ∷ d ∷ re) ≡ ends (d ∷ re)
unfolding ends
ends-one c d re e = rw (e, ends) refl
