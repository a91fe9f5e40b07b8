-- ===== src/Grep.antt =====
-- user/grep.c: the pattern matcher. A string is the list of its bytes, without the final zero.
pub mod Language
mod Sound
mod Tests
use zept_os.Prelude.{
  ℕ, zero, suc, ◌+◌, ◌-◌, ◌*◌, ◌/◌, ◌%◌, ◌^◌, ◌≤◌, ◌<◌, ◌≡◌, ◌≢◌, ◌∙◌, ap, sym, refl, fun_ext, ◌⊎◌,
  inl, inr, ◌↔◌, Bool, true, false, not, ◌&&◌, ◌||◌, Option, none, some, List, [], ◌∷◌, ◌++◌, map,
  append_assoc, append-nil, arith, ltb, leb, ◌==◌, if◌then◌else◌, Bool-cases, Option-cases, length,
  length-append, get_elem?, set, get_or, take, drop, replicate, update, Outcome, ok, panic,
  panic_if, ◌>>=◌, ◌>>◌, >>=-eq-ok, update_cases, update_self, update_other, ℕ_discrete,
}

-- `*text==c || c=='.'`
abbrev pub accepts : (c x : ℕ) → Bool
accepts c x = x == c || c == b'.'

-- The loop of `matchstar`, with the match of the pattern after the star.
unfoldable pub matchstar : (here : List ℕ → Bool) (c : ℕ) (text : List ℕ) → Bool
matchstar here c [] = if here [] then true else false
matchstar here c (x ∷ text) =
    let more = matchstar here c text in
    if here (x ∷ text) then true else if accepts c x then more else false

-- A character that is not followed by a star, before the rest of the pattern.
abbrev pub match_one : (c : ℕ) (last : Bool) (here : List ℕ → Bool) (text : List ℕ) → Bool
match_one c last here [] = if c == b'$' && last then true else false
match_one c last here (x ∷ text) =
    if c == b'$' && last then false else if c == b'.' || c == x then here text else false

unfoldable pub matchhere : (re text : List ℕ) → Bool
unfolding matchstar
matchhere [] text = true
matchhere (c ∷ []) text = match_one c true (matchhere []) text
matchhere (c ∷ d ∷ re) text = elim (d == b'*') [
  | true ↦ matchstar (matchhere re) c text
  | false ↦ match_one c false (matchhere (d ∷ re)) text
]

-- The loop of `match`.
unfoldable pub search : (re text : List ℕ) → Bool
unfolding matchhere
search re [] = if matchhere re [] then true else false
search re (x ∷ text) = let later = search re text in if matchhere re (x ∷ text) then true else later

-- `match`
unfoldable pub match_re : (re text : List ℕ) → Bool
unfolding search
match_re [] text = search [] text
match_re (c ∷ re) text = if c == b'^' then matchhere re text else search (c ∷ re) text
