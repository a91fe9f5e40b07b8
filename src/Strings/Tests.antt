-- ===== src/Strings/Tests.antt =====
-- The theorems on kernel/string.c at a small memory.
use zept_os.Prelude.{◌+◌, ◌%◌, ◌≡◌, refl, ◌&&◌, ltb, leb, if◌then◌else◌}
use zept_os.Strings.{Bytes, memmove}
use zept_os.Strings.Move.{moved, memmove-moved}

-- "abab" at 100, and zeros.
abbrev memory : Bytes
memory a = if leb 100 a && ltb a 104 then 97 + a % 2 else 0

memmove-moved_example : memmove 101 100 3 memory 103 ≡ moved 101 100 3 memory 103
memmove-moved_example = memmove-moved 101 100 3 memory 103

overlapping : memmove 101 100 3 memory 103 ≡ 97
unfolding memmove
overlapping = refl
