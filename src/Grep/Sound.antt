-- ===== src/Grep/Sound.antt =====
-- user/grep.c: the matcher decides the language of the pattern.
use zept_os.Prelude.{
  ℕ, ◌≡◌, ◌∙◌, ap, sym, refl, inl, inr, ◌↔◌, Bool, true, false, ◌&&◌, List, [], ◌∷◌, ◌++◌,
  append_assoc, arith, ◌==◌, if◌then◌else◌, Bool-cases,
}
use mathlib.Core.Path.{subst}
use zept_os.Grep.{accepts, matchstar, match_one, matchhere, search, match_re}
use zept_os.Grep.Language.{
  Item, one, star, items, ends, Accepted, Starts, Matches, items-star, items-one, ends-star,
  ends-one,
}

star_sound :
    (here : List ℕ → Bool) (c : ℕ) (text : List ℕ)
    → matchstar here c text ≡ true
    → (u : List ℕ) × (v : List ℕ) × (text ≡ u ++ v) × Accepted c u × (here v ≡ true)
unfolding matchstar
star_sound here c [] m = ([], [], refl, tt, ground (arith, m))
star_sound here c (x ∷ text) m = elim (Bool-cases (here (x ∷ text))) [
  | inl e ↦ ([], x ∷ text, refl, tt, e)
  | inr e ↦
      let a : accepts c x ≡ true = ground (arith, m, e) in
      let m' : matchstar here c text ≡ true = ground (arith, m, e) in
      let (u, v, s, w, h) = star_sound here c text m' in (x ∷ u, v, (λ i. x ∷ s i), (a, w), h)
]

star_complete :
    (here : List ℕ → Bool) (c : ℕ) (u v : List ℕ)
    → Accepted c u
    → here v ≡ true
    → matchstar here c (u ++ v) ≡ true
unfolding matchstar
star_complete here c [] [] a h = rw h refl
star_complete here c [] (x ∷ v) a h = rw h refl
star_complete here c (x ∷ u) v a h = elim (Bool-cases (here (x ∷ (u ++ v)))) [
  | inl e ↦ rw e refl
  | inr e ↦ rw (e, a.0, star_complete here c u v a.1 h) refl
]

match_star :
    (c d : ℕ) (re text : List ℕ)
    → (d == b'*') ≡ true
    → matchhere (c ∷ d ∷ re) text ≡ matchstar (matchhere re) c text
unfolding matchhere
match_star c d re text e = rw (e, matchhere) refl

match_char :
    (c d : ℕ) (re text : List ℕ)
    → (d == b'*') ≡ false
    → matchhere (c ∷ d ∷ re) text ≡ match_one c false (matchhere (d ∷ re)) text
unfolding matchhere
match_char c d re text e = rw (e, matchhere) refl

no_char : (c : ℕ) (here : List ℕ → Bool) → match_one c false here [] ≡ false
no_char c here = ground arith

one_char :
    (c x : ℕ) (here : List ℕ → Bool) (text : List ℕ)
    → match_one c false here (x ∷ text) ≡ (accepts c x && here text)
one_char c x here text = ground arith

and_true : (a b : Bool) → (a && b) ≡ true → (a ≡ true) × (b ≡ true)
and_true true b e = (refl, e)
and_true false b e = absurd (cc)

-- Items for a match that starts with one character.
one-Starts :
    (c x : ℕ) (is : List Item) (whole : Bool) (text : List ℕ)
    → accepts c x ≡ true
    → Starts is whole text
    → Starts (one c ∷ is) whole (x ∷ text)
one-Starts c x is whole text a (word, after, s, den, w) =
    (x ∷ word, after, (λ i. x ∷ s i), (x, word, refl, a, den), w)

star-Starts :
    (c : ℕ) (is : List Item) (whole : Bool) (u v : List ℕ)
    → Accepted c u
    → Starts is whole v
    → Starts (star c ∷ is) whole (u ++ v)
star-Starts c is whole u v a (word, after, s, den, w) = (
  u ++ word,
  after,
  ap (λ z. u ++ z) s ∙ sym (append_assoc u word after),
  (u, word, refl, a, den),
  w,
)

one_sound :
    (c : ℕ) (is : List Item) (whole : Bool) (here : List ℕ → Bool) (text : List ℕ)
    → ((t : List ℕ) → here t ≡ true → Starts is whole t)
    → match_one c false here text ≡ true
    → Starts (one c ∷ is) whole text
one_sound c is whole here [] f m = absurd (ground (arith, m))
one_sound c is whole here (x ∷ text) f m =
    let (a, h) = and_true (accepts c x) (here text) (sym (one_char c x here text) ∙ m) in
    one-Starts c x is whole text a (f text h)

here_sound : (re text : List ℕ) → matchhere re text ≡ true → Starts (items re) (ends re) text
unfolding matchhere items ends
here_sound [] text m = ([], text, refl, refl, λ e. absurd (cc))
here_sound (c ∷ []) [] m =
    let e : (c == b'$') ≡ true = ground (arith, m) in rw e ([], [], refl, refl, λ _. refl)
here_sound (c ∷ []) (x ∷ text) m =
    let e : (c == b'$') ≡ false = ground (arith, m) in
    let a : accepts c x ≡ true = ground (arith, m) in
    rw e (x ∷ [], text, refl, (x, [], refl, a, refl), λ e. absurd (cc))
here_sound (c ∷ d ∷ re) text m = elim (Bool-cases (d == b'*')) [
  | inl e ↦
      let (u, v, s, a, h) = star_sound (matchhere re) c text (sym (match_star c d re text e) ∙ m) in
      rw (items-star c d re e, ends-star c d re e, s)
        (star-Starts c (items re) (ends re) u v a (here_sound re v h))
  | inr e ↦
      rw (items-one c d re e, ends-one c d re e)
        (one_sound c (items (d ∷ re)) (ends (d ∷ re)) (matchhere (d ∷ re)) text
          (here_sound (d ∷ re)) (sym (match_char c d re text e) ∙ m))
]

last_char :
    (c x : ℕ) (here : List ℕ → Bool) (text : List ℕ)
    → (c == b'$') ≡ false
    → accepts c x ≡ true
    → match_one c true here (x ∷ text) ≡ here text
last_char c x here text e a = ground (arith, e, a)

here_complete : (re text : List ℕ) → Starts (items re) (ends re) text → matchhere re text ≡ true
unfolding matchhere items ends
here_complete [] text s = refl
here_complete (c ∷ []) text s = elim (Bool-cases (c == b'$')) [
  | inl e ↦
      let (word, after, p, den, w) =
        subst (λ b. Starts (if b then [] else one c ∷ []) b text) e s in
      rw (p ∙ (λ i. den i ++ w refl i), e) refl
  | inr e ↦
      let (word, after, p, (x, rest, q, a, r), w) =
        subst (λ b. Starts (if b then [] else one c ∷ []) b text) e s in
      ap (match_one c true (matchhere [])) (p ∙ (λ i. q i ++ after))
      ∙ last_char c x (matchhere []) (rest ++ after) e a
]
here_complete (c ∷ d ∷ re) text s = elim (Bool-cases (d == b'*')) [
  | inl e ↦
      let (word, after, p, (u, rest, q, a, den), w) =
        subst (λ is. Starts is (ends re) text) (items-star c d re e)
          (subst (λ b. Starts (items (c ∷ d ∷ re)) b text) (ends-star c d re e) s) in
      match_star c d re text e
      ∙ ap (matchstar (matchhere re) c) (p ∙ (λ i. q i ++ after) ∙ append_assoc u rest after)
      ∙ star_complete (matchhere re) c u (rest ++ after) a
          (here_complete re (rest ++ after) (rest, after, refl, den, w))
  | inr e ↦
      let (word, after, p, (x, rest, q, a, den), w) =
        subst (λ is. Starts is (ends (d ∷ re)) text) (items-one c d re e)
          (subst (λ b. Starts (items (c ∷ d ∷ re)) b text) (ends-one c d re e) s) in
      match_char c d re text e
      ∙ ap (match_one c false (matchhere (d ∷ re))) (p ∙ (λ i. q i ++ after))
      ∙ one_char c x (matchhere (d ∷ re)) (rest ++ after)
      ∙ rw (a, here_complete (d ∷ re) (rest ++ after) (rest, after, refl, den, w)) refl
]

search_sound :
    (re text : List ℕ)
    → search re text ≡ true
    → (before : List ℕ) × (rest : List ℕ) × (text ≡ before ++ rest)
      × Starts (items re) (ends re) rest
unfolding search
search_sound re [] m = ([], [], refl, here_sound re [] (ground (arith, m)))
search_sound re (x ∷ text) m = elim (Bool-cases (matchhere re (x ∷ text))) [
  | inl e ↦ ([], x ∷ text, refl, here_sound re (x ∷ text) e)
  | inr e ↦
      let (before, rest, p, s) = search_sound re text (ground (arith, m, e)) in
      (x ∷ before, rest, (λ i. x ∷ p i), s)
]

search_complete :
    (re before rest : List ℕ) → matchhere re rest ≡ true → search re (before ++ rest) ≡ true
unfolding search
search_complete re [] [] m = rw m refl
search_complete re [] (x ∷ rest) m = rw m refl
search_complete re (x ∷ before) rest m =
    let later = search_complete re before rest m in ground (arith, later)

-- `match` says whether a word of the pattern's language stands in the text, at its start if the pattern
-- begins with `^` and at its end if it ends in `$`. An item is a character or `.`, alone or with a star.
pub match_re-Matches : (re text : List ℕ) → match_re re text ≡ true ↔ Matches re text
unfolding match_re
match_re-Matches [] text = (
  λ m.
      let (before, rest, p, s) = search_sound [] text m in (before, rest, p, (λ e. absurd (cc)), s),
  λ (before, rest, p, _, s).
      ap (search []) p ∙ search_complete [] before rest (here_complete [] rest s),
)
match_re-Matches (c ∷ re) text = elim (Bool-cases (c == b'^')) [
  | inl e ↦ rw e (
    λ m. ([], text, refl, (λ _. refl), here_sound re text m),
    λ (before, rest, p, b, s).
        ap (matchhere re) (p ∙ (λ i. b refl i ++ rest)) ∙ here_complete re rest s,
  )
  | inr e ↦ rw e (
    λ m.
        let (before, rest, p, s) = search_sound (c ∷ re) text m in
        (before, rest, p, (λ f. absurd (cc)), s),
    λ (before, rest, p, _, s).
        ap (search (c ∷ re)) p
        ∙ search_complete (c ∷ re) before rest (here_complete (c ∷ re) rest s),
  )
]
