-- ===== src/Uart.antt =====
-- kernel/uart.c: the ring of characters that wait to be sent on the serial line.
pub mod Sending
mod Tests
use zept_os.Prelude.{
  ℕ, zero, suc, ◌+◌, ◌-◌, ◌*◌, ◌/◌, ◌%◌, ◌^◌, ◌≤◌, ◌<◌, ◌≡◌, ◌≢◌, ◌∙◌, ap, sym, refl, fun_ext, ◌⊎◌,
  inl, inr, ◌↔◌, Bool, true, false, not, ◌&&◌, ◌||◌, Option, none, some, List, [], ◌∷◌, ◌++◌, map,
  append_assoc, append-nil, arith, ltb, leb, ◌==◌, if◌then◌else◌, Bool-cases, Option-cases, length,
  length-append, get_elem?, set, get_or, take, drop, replicate, update, Outcome, ok, panic,
  panic_if, ◌>>=◌, ◌>>◌, >>=-eq-ok, update_cases, update_self, update_other, ℕ_discrete,
}

abbrev pub uart_tx_buf_size : ℕ
uart_tx_buf_size = 32

-- The transmit buffer; the indices are `uint64`. `sent` is what was written to THR, in order.
pub record Uart : Type 0 where
  pub uart_tx_buf : ℕ → ℕ
  pub uart_tx_w : ℕ
  pub uart_tx_r : ℕ
  pub sent : List ℕ

-- `uint64` addition
abbrev pub add_uint64 : ℕ → ℕ → ℕ
add_uint64 a b = (a + b) % 2 ^ 64

-- `uartstart`, given what its tests of LSR_TX_IDLE read; where they end the transmitter is busy.
unfoldable pub uartstart : List Bool → Uart → Uart
uartstart [] u = u
uartstart (idle ∷ later) u =
    let more = uartstart later (record u {
      uart_tx_r = add_uint64 u.uart_tx_r 1;
      sent = u.sent ++ u.uart_tx_buf (u.uart_tx_r % uart_tx_buf_size) ∷ [];
    }) in
    if u.uart_tx_w == u.uart_tx_r then u else if idle then more else u

-- How a round of the loop of `uartputc` ends: the character is in the buffer, or the caller sleeps on
-- `&uart_tx_r`.
pub data Put : Type 0 where
  done : Uart → Put
  waits : Put

-- `uartputc` while `panicked` is 0; `char` keeps the low byte of `c`.
unfoldable pub uartputc : (c : ℕ) → List Bool → Uart → Put
unfolding uartstart
uartputc c idle u =
    if u.uart_tx_w == add_uint64 u.uart_tx_r uart_tx_buf_size
    then waits
    else done (
        uartstart idle (record u {
          uart_tx_buf = update u.uart_tx_buf (u.uart_tx_w % uart_tx_buf_size) (c % 256);
          uart_tx_w = add_uint64 u.uart_tx_w 1;
        }))
