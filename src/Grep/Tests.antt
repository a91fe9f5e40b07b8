-- ===== src/Grep/Tests.antt =====
-- user/grep.c: matches of small patterns.
use zept_os.Prelude.{ℕ, ◌≡◌, refl, ◌↔◌, true, false, List, [], ◌∷◌}
use zept_os.Grep.{match_re}
use zept_os.Grep.Language.{Matches}
use zept_os.Grep.Sound.{match_re-Matches}

-- "^ab*c$" and "ab*$"
abbrev anchored : List ℕ
anchored = b'^' ∷ b'a' ∷ b'b' ∷ b'*' ∷ b'c' ∷ b'$' ∷ []

abbrev abbc : List ℕ
abbc = b'a' ∷ b'b' ∷ b'b' ∷ b'c' ∷ []

anchored-abbc : match_re anchored abbc ≡ true
unfolding match_re
anchored-abbc = refl

anchored-later : match_re anchored (b'x' ∷ abbc) ≡ false
unfolding match_re
anchored-later = refl

match_re-Matches_example : match_re anchored abbc ≡ true ↔ Matches anchored abbc
match_re-Matches_example = match_re-Matches anchored abbc
