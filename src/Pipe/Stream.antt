-- ===== src/Pipe/Stream.antt =====
-- kernel/pipe.c: what whole runs of calls on one pipe promise: a byte stream with no loss, no
-- reordering and no duplication, writers and readers that cannot both be stuck, and the ends.
use zept_os.Prelude.{
  ℕ, zero, suc, ◌≤◌, ◌≡◌, ◌∙◌, ap, sym, refl, Bool, true, false, not, Option, List, [], ◌∷◌, ◌++◌,
  append_assoc, append-nil, arith, length,
}
use zept_os.Pipe.{
  Pipe, is_empty, Stretch, returned, asleep, fail, count, Chan, nwrite_chan, pipewrite, piperead,
  pipeclose, copy_loop, get,
}
use zept_os.Pipe.Fifo.{IsValid, contents}
use zept_os.Pipe.Calls.{
  pipe_of, Reads, WriteEnd, pipewrite-Written, ReadEnd, ReadOutcome, piperead-ReadOutcome,
}

-- A stretch of a call on the pipe, with what its environment answers.
pub data Op : Type 0 where
  write : (killed : ℕ → Bool) (copyin : ℕ → Option ℕ) (rest i : ℕ) → Op
  read : (killed : Bool) (copyout : ℕ → Bool) (n : ℕ) → Op
  close : (writable : Bool) → Op

-- The pipe after the stretches, in order, and the bytes that the readers stored.
unfoldable pub run : List Op → Pipe → Pipe × List ℕ
run [] p = (p, [])
run (write killed copyin rest i ∷ ops) p = run ops (pipe_of (pipewrite killed copyin rest i p))
run (read killed copyout n ∷ ops) p =
    let (st, out) = piperead killed copyout n p in
    let (q, outs) = run ops (pipe_of st) in (q, out ++ outs)
run (close writable ∷ ops) p = run ops (pipeclose p writable).0

-- No `copyout` fails.
abbrev pub AllStored : List Op → Type 0
AllStored [] = Unit
AllStored (write killed copyin rest i ∷ ops) = AllStored ops
AllStored (read killed copyout n ∷ ops) = ((i : ℕ) → copyout i ≡ true) × AllStored ops
AllStored (close writable ∷ ops) = AllStored ops

-- One list of bytes for each write, read from the writer's memory at the offset of the write.
abbrev pub Sent : List Op → List (List ℕ) → Type 0
Sent [] [] = Unit
Sent [] (c ∷ cs) = ⊥
Sent (write killed copyin rest i ∷ ops) [] = ⊥
Sent (write killed copyin rest i ∷ ops) (c ∷ cs) =
    Reads killed copyin i c × (length c ≤ rest) × Sent ops cs
Sent (read killed copyout n ∷ ops) cs = Sent ops cs
Sent (close writable ∷ ops) cs = Sent ops cs

abbrev pub join : List (List ℕ) → List ℕ
join [] = []
join (c ∷ cs) = c ++ join cs

WriteEnd-length :
    (killed : ℕ → Bool) (copyin : ℕ → Option ℕ) (p : Pipe) (rest i : ℕ) (xs : List ℕ) (st : Stretch)
    → Reads killed copyin i xs
    → WriteEnd killed copyin p rest i xs st
    → length xs ≤ rest
WriteEnd-length killed copyin p rest i xs (returned q w fail) r h = omega arith
WriteEnd-length killed copyin p rest i xs (returned q w (count m)) r h = ground (arith, h.1)
WriteEnd-length killed copyin p rest i xs (asleep q w c m) r h = omega arith

-- The queue before a read, when every byte taken is stored.
ReadOutcome-queue :
    (copyout : ℕ → Bool) (killed : Bool) (p : Pipe) (n : ℕ) (out : List ℕ) (st : Stretch)
    → ((i : ℕ) → copyout i ≡ true)
    → IsValid p
    → ReadOutcome copyout killed p n out st
    → IsValid (pipe_of st) × (contents p ≡ out ++ contents (pipe_of st))
ReadOutcome-queue copyout killed p n out (returned q w fail) all v (dead, nil, wopen, e, same) =
    rw (same, e) (v, refl)
ReadOutcome-queue copyout killed p n out (returned q w (count m)) all v (em, ew, why, c) =
    (c.valid, c.queue ∙ ap (λ l. out ++ l) (no_loss c.lost c.stop))
  where
    no_loss : (lost : List ℕ) → ReadEnd copyout n 0 out lost q → lost ++ contents q ≡ contents q
    no_loss [] h = refl
    no_loss (x ∷ xs) h = absurd (ground (arith, all (length out), h.1))
ReadOutcome-queue copyout killed p n out (asleep q w c m) all v (alive, nil, wopen, e, same, ch) =
    rw (same, e) (v, refl)

pipeclose-contents :
    (p : Pipe) (writable : Bool)
    → IsValid p
    → IsValid (pipeclose p writable).0 × (contents (pipeclose p writable).0 ≡ contents p)
unfolding pipeclose contents
pipeclose-contents p true v = (ground arith, refl)
pipeclose-contents p false v = (ground arith, refl)

-- A run of reads, writes and closes on a valid pipe, in any order and cut at any sleep, whose
-- `copyout`s succeed, keeps the pipe valid, and every byte is accounted for: what the readers
-- stored, followed by what is left in the pipe, is what the pipe held before, followed by what the
-- writes took from their callers' memory, in order.
pub run_stream :
    (ops : List Op) (p : Pipe)
    → IsValid p
    → AllStored ops
    → let (q, received) = run ops p in
      (chunks : List (List ℕ)) × Sent ops chunks
      × IsValid q
      × (received ++ contents q ≡ contents p ++ join chunks)
unfolding run
run_stream [] p v all = ([], tt, v, rw append-nil)
run_stream (write killed copyin rest i ∷ ops) p v all =
    let w = pipewrite-Written killed copyin rest i p v in
    let (cs, sent, v', e) =
      run_stream ops (pipe_of (pipewrite killed copyin rest i p)) w.valid all in
    (
      w.sent ∷ cs,
      (w.source, WriteEnd-length killed copyin p rest i w.sent _ w.source w.outcome, sent),
      v',
      e ∙ ap (λ l. l ++ join cs) w.queue ∙ append_assoc (contents p) w.sent (join cs),
    )
run_stream (read killed copyout n ∷ ops) p v all =
    let (v', e) =
      ReadOutcome-queue copyout killed p n _ _ all.0 v
        (piperead-ReadOutcome copyout killed n p v) in
    let (cs, sent, v'', f) = run_stream ops (pipe_of (piperead killed copyout n p).0) v' all.1 in
    (
      cs,
      sent,
      v'',
      append_assoc (piperead killed copyout n p).1 _ _
          ∙ ap (λ l. (piperead killed copyout n p).1 ++ l) f
          ∙ sym (append_assoc (piperead killed copyout n p).1 _ (join cs))
          ∙ ap (λ l. l ++ join cs) (sym e),
    )
run_stream (close writable ∷ ops) p v all =
    let (v', e) = pipeclose-contents p writable v in
    let (cs, sent, v'', f) = run_stream ops (pipeclose p writable).0 v' all in
    (cs, sent, v'', f ∙ ap (λ l. l ++ join cs) e)

copy_loop-empty :
    (copyout : ℕ → Bool) (rest i : ℕ) (p : Pipe)
    → is_empty p ≡ true
    → copy_loop copyout rest i p ≡ (p, [])
unfolding copy_loop
copy_loop-empty copyout zero i p e = refl
copy_loop-empty copyout (suc rest) i p e = rw e

-- After a write that went to sleep, a read of at least one byte does not sleep: it stores a byte,
-- when `copyout` lets it, and wakes the channel that the writer sleeps on.
pub read_after_blocked_write :
    (killed : ℕ → Bool) (copyin : ℕ → Option ℕ) (rest i : ℕ) (p q : Pipe) (w : List Chan) (c : Chan)
    (m : ℕ) (dead : Bool) (copyout : ℕ → Bool) (n : ℕ)
    → IsValid p
    → copyout 0 ≡ true
    → pipewrite killed copyin rest i p ≡ asleep q w c m
    → (q' : Pipe) × (k : ℕ) × ((piperead dead copyout (suc n) q).0
        ≡ returned q' (c ∷ []) (count (suc k)))
unfolding piperead copy_loop
read_after_blocked_write killed copyin rest i p q w c m dead copyout n v stores e =
    let wr = rw e at (pipewrite-Written killed copyin rest i p v) in
    let full : is_empty q ≡ false = ground (arith, wr.outcome.2) in
    (
      (copy_loop copyout n 1 (get q).1).0,
      length (copy_loop copyout n 1 (get q).1).1,
      rw (full, stores, wr.outcome.3),
    )

-- The ends of a pipe: with the read end closed a write of at least one byte returns -1 at once and
-- changes nothing; with the write end closed a read of an empty pipe returns 0 bytes and does not
-- sleep; and of two `pipeclose` calls, one for each end, exactly the second frees an open pipe.
pub closed_ends :
    (killed : ℕ → Bool) (copyin : ℕ → Option ℕ) (rest i : ℕ) (dead : Bool) (copyout : ℕ → Bool)
    (n : ℕ) (p : Pipe) (b : Bool)
    → p.readopen ≡ true
    → p.writeopen ≡ true
    → let r = (pipeclose p false).0 in
      let w = (pipeclose p true).0 in
      let first = pipeclose p b in
      (pipewrite killed copyin (suc rest) i r ≡ returned r [] fail)
      × (is_empty p ≡ true
          → piperead dead copyout n w ≡ (returned w (nwrite_chan ∷ []) (count 0), []))
      × (first.2 ≡ false)
      × ((pipeclose first.0 (not b)).2 ≡ true)
unfolding pipewrite piperead copy_loop pipeclose
closed_ends killed copyin rest i dead copyout n p b ro wo = (
  refl,
  λ e. rw (e, copy_loop-empty copyout n 0 (record p { writeopen = false }) e),
  ground arith,
  ground arith,
)
