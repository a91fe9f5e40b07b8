-- ===== src/Console/Tests.antt =====
-- The theorems on kernel/console.c at a short line.
use zept_os.Prelude.{ℕ, ◌≡◌, refl, true, false, List, [], ◌∷◌, arith}
use zept_os.Pipe.{count}
use zept_os.Console.{Cons, kill_line, take_char, consoleintr, consoleread, returned, stored}
use zept_os.Console.Editor.{Text, type_key, Holds}
use zept_os.Console.Typing.{consoleintr-Holds}
use zept_os.Console.Line.{ReadEnds}
use zept_os.Console.Reads.{consoleread-ReadEnds}

abbrev blank : Text
blank = record { char = λ _. 0; read = 0; line = 0; cursor = 0 }

abbrev quiet : Cons
quiet = record { buf = λ _. 0; r = 0; w = 0; e = 0 }

quiet-Holds : Holds quiet blank
quiet-Holds = record {
  r = refl;
  w = refl;
  e = refl;
  read_line = omega arith;
  line_cursor = omega arith;
  fits = omega arith;
  chars = λ i x y. refl;
  unfinished = λ i x y. absurd (omega arith);
}

consoleintr-Holds_example : Holds (consoleintr 104 quiet).0 (type_key 104 blank)
consoleintr-Holds_example = consoleintr-Holds 104 quiet blank (omega arith) quiet-Holds

typed_keys : List ℕ → Cons → Cons
typed_keys [] k = k
typed_keys (c ∷ cs) k = typed_keys cs (consoleintr c k).0

-- "hx", control-h, "i" and return.
abbrev line : List ℕ
line = 104 ∷ 120 ∷ 8 ∷ 105 ∷ 13 ∷ []

line_read :
    consoleread false (λ _. true) 10 0 (typed_keys line quiet)
    ≡ returned (record (typed_keys line quiet) { r = 3 }) (104 ∷ 105 ∷ 10 ∷ []) (count 3)
unfolding consoleread consoleintr take_char kill_line stored typed_keys
line_read = refl

consoleread-ReadEnds_example :
    ReadEnds false
      (λ _. true)
      (type_key 10 blank)
      5
      0
      (consoleread false (λ _. true) 5 0 (consoleintr 10 quiet).0)
consoleread-ReadEnds_example =
    consoleread-ReadEnds false (λ _. true) 5 0 (consoleintr 10 quiet).0 (type_key 10 blank)
      (consoleintr-Holds 10 quiet blank (omega arith) quiet-Holds)
