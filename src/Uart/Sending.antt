-- ===== src/Uart/Sending.antt =====
-- kernel/uart.c: what is written to the line is sent in order, and nothing is lost.
use zept_os.Prelude.{
  ℕ, zero, suc, ◌+◌, ◌%◌, ◌^◌, ◌≤◌, ◌<◌, ◌≡◌, ◌≢◌, ◌∙◌, ap, sym, refl, inl, inr, Bool, true, false,
  List, [], ◌∷◌, ◌++◌, append_assoc, append-nil, arith, ◌==◌, if◌then◌else◌, Bool-cases, length,
  length-append, get_or, update, update_self, update_other, ℕ_discrete,
}
use zept_os.Uart.{Uart, uart_tx_buf_size, add_uint64, uartstart, Put, done, waits, uartputc}

-- The ring holds the bytes `queue`, the next one first.
pub record Holds (u : Uart) (queue : List ℕ) : Type 0 where
  pub r : u.uart_tx_r < 2 ^ 64
  pub w : u.uart_tx_w ≡ (u.uart_tx_r + length queue) % 2 ^ 64
  pub fits : length queue ≤ uart_tx_buf_size
  pub bytes :
      (i : ℕ)
      → i < length queue
      → u.uart_tx_buf ((u.uart_tx_r + i) % uart_tx_buf_size) ≡ get_or queue i 0

-- The ring after its first byte was sent.
sent_one : Uart → Uart
sent_one u = record u {
  uart_tx_r = add_uint64 u.uart_tx_r 1;
  sent = u.sent ++ u.uart_tx_buf (u.uart_tx_r % uart_tx_buf_size) ∷ [];
}

next_place : (r i : ℕ) → ((r + 1) % 2 ^ 64 + i) % uart_tx_buf_size ≡ (r + suc i) % uart_tx_buf_size
next_place r i = omega arith

first_place : (r : ℕ) → r % uart_tx_buf_size ≡ (r + 0) % uart_tx_buf_size
first_place r = omega arith

sent_one-Holds :
    (u : Uart) (c : ℕ) (queue : List ℕ)
    → Holds u (c ∷ queue)
    → Holds (sent_one u) queue × ((sent_one u).sent ≡ u.sent ++ c ∷ [])
unfolding sent_one
sent_one-Holds u c queue h = (
  record {
    r = omega arith;
    w = h.w ∙ omega arith;
    fits = omega (arith, h.fits);
    bytes = λ i b. ap u.uart_tx_buf (next_place u.uart_tx_r i) ∙ h.bytes (suc i) (omega arith);
  },
  ap (λ x. u.sent ++ x ∷ []) (ap u.uart_tx_buf (first_place u.uart_tx_r) ∙ h.bytes 0 (omega arith)),
)

-- What sending makes of a ring that holds a queue.
Sends : (u : Uart) (queue : List ℕ) → Uart → Type 0
Sends u queue v =
    (out rest : List ℕ) × (queue ≡ out ++ rest) × Holds v rest × (v.sent ≡ u.sent ++ out)

one_step :
    (idle : Bool) (later : List Bool) (u : Uart) (c : ℕ) (queue : List ℕ)
    → Holds u (c ∷ queue)
    → Sends (sent_one u) queue (uartstart later (sent_one u))
    → Sends u (c ∷ queue) (if idle then uartstart later (sent_one u) else u)
unfolding Sends
one_step true later u c queue h (out, rest, q, k, f) =
    let e = (sent_one-Holds u c queue h).1 in
    (
      c ∷ out,
      rest,
      ap (λ x. c ∷ x) q,
      k,
      f ∙ ap (λ x. x ++ out) e ∙ append_assoc u.sent (c ∷ []) out,
    )
one_step false later u c queue h h' = ([], c ∷ queue, refl, h, sym (append-nil u.sent))

-- Sending moves bytes from the front of the queue to the end of what was sent.
uartstart-Holds :
    (idle : List Bool) (u : Uart) (queue : List ℕ)
    → Holds u queue
    → Sends u queue (uartstart idle u)
unfolding uartstart sent_one Sends
uartstart-Holds [] u queue h = ([], queue, refl, h, sym (append-nil u.sent))
uartstart-Holds (idle ∷ later) u [] h = rw (empty u h) ([], [], refl, h, sym (append-nil u.sent))
  where
    empty : (u : Uart) → Holds u [] → (u.uart_tx_w == u.uart_tx_r) ≡ true
    empty u h = let a = h.w in let b = h.r in ground (arith, a, b)
uartstart-Holds (idle ∷ later) u (c ∷ queue) h = rw (some_left u c queue h) (
    one_step idle later u c queue h
      (uartstart-Holds later (sent_one u) queue (sent_one-Holds u c queue h).0))
  where
    some_left :
        (u : Uart) (c : ℕ) (queue : List ℕ)
        → Holds u (c ∷ queue)
        → (u.uart_tx_w == u.uart_tx_r) ≡ false
    some_left u c queue h =
        let d : u.uart_tx_w ≢ u.uart_tx_r = omega (arith, h.w, h.r, h.fits) in ground (arith, d)

get_or-snoc :
    (xs : List ℕ) (x i : ℕ)
    → get_or (xs ++ x ∷ []) i 0 ≡ (if i == length xs then x else get_or xs i 0)
get_or-snoc [] x zero = refl
get_or-snoc [] x (suc i) = ground arith
get_or-snoc (y ∷ ys) x zero = ground arith
get_or-snoc (y ∷ ys) x (suc i) = get_or-snoc ys x i ∙ ground arith

put_place : (w r n : ℕ) → w ≡ (r + n) % 2 ^ 64 → w % uart_tx_buf_size ≡ (r + n) % uart_tx_buf_size
put_place w r n e = omega arith

apart :
    (r n i : ℕ)
    → i < n
    → n < uart_tx_buf_size
    → (r + n) % uart_tx_buf_size ≢ (r + i) % uart_tx_buf_size
apart r n i a b e = omega arith

put-Holds :
    (u : Uart) (c : ℕ) (queue : List ℕ)
    → length queue < uart_tx_buf_size
    → Holds u queue
    → Holds
        (record u {
          uart_tx_buf = update u.uart_tx_buf (u.uart_tx_w % uart_tx_buf_size) (c % 256);
          uart_tx_w = add_uint64 u.uart_tx_w 1;
        })
        (queue ++ c % 256 ∷ [])
put-Holds u c queue room h = record {
  r = h.r;
  w = rw (length-append queue (c % 256 ∷ [])) (let a = h.w in omega arith);
  fits = rw (length-append queue (c % 256 ∷ [])) (omega (arith, room));
  bytes = λ i b. get_bytes i (rw (length-append queue (c % 256 ∷ [])) at b);
}
  where
    get_bytes :
        (i : ℕ)
        → i < length queue + 1
        → update u.uart_tx_buf
            (u.uart_tx_w % uart_tx_buf_size)
            (c % 256)
            ((u.uart_tx_r + i) % uart_tx_buf_size)
          ≡ get_or (queue ++ c % 256 ∷ []) i 0
    get_bytes i b =
        rw (put_place u.uart_tx_w u.uart_tx_r (length queue) h.w, get_or-snoc queue (c % 256) i)
          (elim (ℕ_discrete i (length queue)) [
            | yes d ↦ rw d (
                update_self u.uart_tx_buf ((u.uart_tx_r + length queue) % uart_tx_buf_size)
                  (c % 256)
                ∙ ground arith)
            | no d ↦
                update_other u.uart_tx_buf ((u.uart_tx_r + length queue) % uart_tx_buf_size)
                  (c % 256) _ (apart u.uart_tx_r (length queue) i (omega (arith, b, d)) room)
                ∙ h.bytes i (omega (arith, b, d))
                ∙ ground (arith, d)
          ])

-- What happens to the ring: a call of `uartputc`, or an interrupt, each with what its tests of the
-- line status read.
pub data Event : Type 0 where
  putting : (c : ℕ) (idle : List Bool) → Event
  interrupt : (idle : List Bool) → Event

-- The ring after a call, with the bytes that were taken.
after : (c : ℕ) → Put → Uart → Uart × List ℕ
after c (done v) u = (v, c % 256 ∷ [])
after c waits u = (u, [])

unfoldable pub run : List Event → Uart → Uart × List ℕ
unfolding after
run [] u = (u, [])
run (putting c idle ∷ es) u =
    let (v, taken) = after c (uartputc c idle u) u in let (w, more) = run es v in (w, taken ++ more)
run (interrupt idle ∷ es) u = run es (uartstart idle u)

-- What an event makes of a ring with a queue, where `taken` joins the queue.
Keeps : (u : Uart) (queue taken : List ℕ) → Uart → Type 0
Keeps u queue taken v =
    (rest : List ℕ) × Holds v rest × (v.sent ++ rest ≡ (u.sent ++ queue) ++ taken)

Sends-Keeps :
    (u v : Uart) (queue taken : List ℕ) → Sends u (queue ++ taken) v → Keeps u queue taken v
unfolding Sends Keeps
Sends-Keeps u v queue taken (out, rest, q, h, e) = (
  rest,
  h,
  ap (λ x. x ++ rest) e
      ∙ append_assoc u.sent out rest
      ∙ ap (λ x. u.sent ++ x) (sym q)
      ∙ sym (append_assoc u.sent queue taken),
)

putting-Keeps :
    (c : ℕ) (idle : List Bool) (u : Uart) (queue : List ℕ)
    → Holds u queue
    → Keeps u queue (after c (uartputc c idle u) u).1 (after c (uartputc c idle u) u).0
unfolding uartputc after Keeps Sends
putting-Keeps c idle u queue h =
    elim (Bool-cases (u.uart_tx_w == add_uint64 u.uart_tx_r uart_tx_buf_size)) [
      | inl full ↦ rw full (queue, h, sym (append-nil (u.sent ++ queue)))
      | inr open_ ↦
          let d : length queue ≢ uart_tx_buf_size = (λ z. not_full u queue h z open_) in
          rw open_ (
            Sends-Keeps u _ queue (c % 256 ∷ [])
              (uartstart-Holds idle _ _ (put-Holds u c queue (omega (arith, h.fits, d)) h)))
    ]
  where
    not_full :
        (u : Uart) (queue : List ℕ)
        → Holds u queue
        → length queue ≡ uart_tx_buf_size
        → (u.uart_tx_w == add_uint64 u.uart_tx_r uart_tx_buf_size) ≡ false
        → ⊥
    not_full u queue h z e = let a = h.w in ground (arith, a, z, e)

-- Whatever calls and interrupts come and whatever the line reports, what was sent followed by what is
-- in the ring is what was sent or in the ring before, followed by the bytes taken since, in order.
pub run-Holds :
    (es : List Event) (u : Uart) (queue : List ℕ)
    → Holds u queue
    → (rest : List ℕ) × Holds (run es u).0 rest
      × ((run es u).0.sent ++ rest ≡ (u.sent ++ queue) ++ (run es u).1)
unfolding run Keeps
run-Holds [] u queue h = (queue, h, sym (append-nil (u.sent ++ queue)))
run-Holds (putting c idle ∷ es) u queue h =
    let (mid, k, e) = putting-Keeps c idle u queue h in
    let (rest, g, f) = run-Holds es _ mid k in
    (
      rest,
      g,
      f
          ∙ ap (λ x. x ++ (run es (after c (uartputc c idle u) u).0).1) e
          ∙ append_assoc (u.sent ++ queue) (after c (uartputc c idle u) u).1 _,
    )
run-Holds (interrupt idle ∷ es) u queue h =
    let s = uartstart-Holds idle u (queue ++ []) (rw (append-nil queue) h) in
    let (mid, k, e) = Sends-Keeps u (uartstart idle u) queue [] s in
    let (rest, g, f) = run-Holds es _ mid k in
    (rest, g, f ∙ ap (λ x. x ++ (run es (uartstart idle u)).1) (e ∙ append-nil (u.sent ++ queue)))
