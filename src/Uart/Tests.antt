-- ===== src/Uart/Tests.antt =====
-- The theorem on kernel/uart.c at three characters.
use zept_os.Prelude.{ℕ, ◌≡◌, refl, true, false, List, [], ◌∷◌, ◌++◌, arith}
use zept_os.Uart.{Uart, uartstart, uartputc}
use zept_os.Uart.Sending.{Holds, Event, putting, interrupt, run, run-Holds}

abbrev empty : Uart
empty = record { uart_tx_buf = λ _. 0; uart_tx_w = 0; uart_tx_r = 0; sent = [] }

empty-Holds : Holds empty []
empty-Holds = record {
  r = omega arith;
  w = refl;
  fits = omega arith;
  bytes = λ i b. absurd (omega arith);
}

-- The first character goes out at once, the others when the line is idle again.
abbrev events : List Event
events =
    putting 97 (true ∷ [])
    ∷ putting 98 []
    ∷ putting 99 (false ∷ [])
    ∷ interrupt (true ∷ true ∷ [])
    ∷ []

run-Holds_example :
    (rest : List ℕ) × Holds (run events empty).0 rest
    × ((run events empty).0.sent ++ rest ≡ [] ++ (run events empty).1)
run-Holds_example = run-Holds events empty [] empty-Holds

all_sent : (run events empty).0.sent ≡ 97 ∷ 98 ∷ 99 ∷ []
unfolding run uartputc uartstart
all_sent = refl
