-- ===== src/Pipe/Calls.antt =====
-- kernel/pipe.c: what one stretch of `pipewrite` or `piperead` does to the queue, on every path.
use zept_os.Prelude.{
  ℕ, zero, suc, ◌+◌, ◌<◌, ◌≡◌, refl, ap, ◌∙◌, Bool, true, false, not, ◌||◌, ◌&&◌, List, [], ◌∷◌,
  ◌++◌, arith, length, append_assoc, append-nil, Option, none, some, ◌⊎◌, inl, inr, Bool-cases,
  Option-cases, ◌≤◌,
}
use zept_os.Pipe.{
  Pipe, pipesize, put, get, is_full, is_empty, Stretch, returned, asleep, fail, count, nread_chan,
  nwrite_chan, pipewrite, piperead, copy_loop,
}
use zept_os.Pipe.Fifo.{
  used, IsValid, contents, put-IsValid, contents-put, get-IsValid, contents-get, contents_of_empty,
}

-- The pipe that a stretch leaves.
abbrev pub pipe_of : Stretch → Pipe
pipe_of (returned p w r) = p
pipe_of (asleep p w c i) = p

-- The ends stay open or closed: only `pipeclose` changes them.
pub record SameEnds (p q : Pipe) : Type 0 where
  pub reading : q.readopen ≡ p.readopen
  pub writing : q.writeopen ≡ p.writeopen

module _ (killed : ℕ → Bool) (copyin : ℕ → Option ℕ) where
  -- The writer's memory holds the bytes from offset `i` on.
  abbrev pub Reads : ℕ → List ℕ → Type 0
  Reads i [] = Unit
  Reads i (x ∷ xs) = (copyin i ≡ some x) × Reads (suc i) xs

  -- How a write of `rest` bytes at offset `i` may end after the bytes `xs`.
  abbrev pub WriteEnd : Pipe → (rest i : ℕ) → List ℕ → Stretch → Type 0
  WriteEnd p rest i xs (returned q w (count m)) =
      (m ≡ i + length xs)
      × ((length xs ≡ rest)
          ⊎ ((length xs < rest) × (copyin m ≡ none) × (killed m ≡ false) × (p.readopen ≡ true)))
      × (w ≡ nread_chan ∷ [])
  WriteEnd p rest i xs (returned q w fail) =
      (length xs < rest) × ((p.readopen ≡ false) ⊎ (killed (i + length xs) ≡ true))
  WriteEnd p rest i xs (asleep q w c m) =
      (m ≡ i + length xs)
      × (length xs < rest)
      × (used q ≡ pipesize)
      × (c ≡ nwrite_chan)
      × (w ≡ nread_chan ∷ [])
      × (killed m ≡ false)
      × (p.readopen ≡ true)

  pub record Written (p : Pipe) (rest i : ℕ) (st : Stretch) : Type 0 where
    pub sent : List ℕ
    pub source : Reads i sent
    pub valid : IsValid (pipe_of st)
    pub queue : contents (pipe_of st) ≡ contents p ++ sent
    pub ends : SameEnds p (pipe_of st)
    pub outcome : WriteEnd p rest i sent st
    pub unstopped : (j : ℕ) → j < length sent → (p.readopen ≡ true) × (killed (i + j) ≡ false)

  -- A stretch that moves no byte.
  Written-none :
      (p : Pipe) (rest i : ℕ) (st : Stretch)
      → IsValid p
      → pipe_of st ≡ p
      → WriteEnd p rest i [] st
      → Written p rest i st
  Written-none p rest i st v e end = record {
    sent = [];
    source = tt;
    valid = rw e v;
    queue = rw (e, append-nil (contents p));
    ends = record { reading = rw e; writing = rw e };
    outcome = end;
    unstopped = λ j h. absurd (omega arith);
  }

  -- One more byte in front of what a stretch moves.
  WriteEnd-cons :
      (p q : Pipe) (rest i ch : ℕ) (xs : List ℕ) (st : Stretch)
      → p.readopen ≡ q.readopen
      → WriteEnd q rest (suc i) xs st
      → WriteEnd p (suc rest) i (ch ∷ xs) st
  WriteEnd-cons p q rest i ch xs (returned r w (count m)) e h = ground arith
  WriteEnd-cons p q rest i ch xs (returned r w fail) e h = (omega arith, ground (arith, h.1))
  WriteEnd-cons p q rest i ch xs (asleep r w c m) e h = ground arith

  unstopped_cons :
      (rest i : ℕ) (p : Pipe) (xs : List ℕ)
      → (p.readopen ≡ true) × (killed i ≡ false)
      → ((j : ℕ) → j < length xs → (p.readopen ≡ true) × (killed (suc i + j) ≡ false))
      → (j : ℕ) → j < suc (length xs)
      → (p.readopen ≡ true) × (killed (i + j) ≡ false)
  unstopped_cons rest i p xs (o, k) all zero h = let e : i + 0 ≡ i = omega arith in (o, rw e k)
  unstopped_cons rest i p xs (o, k) all (suc j) h =
      let e : i + suc j ≡ suc i + j = omega arith in rw e (all j (omega arith))

  -- `pipewrite` appends to the queue the bytes that it copied in, in order, and keeps the ring
  -- valid. It returns their number (the last ones asked for, or up to a failing `copyin`), or -1
  -- when the read end is closed or the process killed, or sleeps on a full ring. With the read end
  -- closed it copies nothing and neither sleeps nor returns a number, unless no byte was asked for;
  -- and no byte is copied once the process is killed.
  pub pipewrite-Written :
      (rest i : ℕ) (p : Pipe) → IsValid p → Written p rest i (pipewrite killed copyin rest i p)
  unfolding pipewrite
  pipewrite-Written zero i p v = Written-none p zero i _ v refl (omega arith, inl refl, refl)
  pipewrite-Written (suc rest) i p v = elim (Bool-cases (not p.readopen || killed i)) [
    | inl stop ↦ rw stop (Written-none p (suc rest) i _ v refl (omega arith, ground arith))
    | inr go ↦ rw go (elim (Bool-cases (is_full p)) [
      | inl full ↦ rw full (
          Written-none p (suc rest) i _ v refl
            (omega arith, omega arith, ground arith, refl, refl, ground arith, ground arith))
      | inr room ↦ rw room (elim (Option-cases (copyin i)) [
        | inl bad ↦ rw bad (
            Written-none p (suc rest) i _ v refl
              (omega arith, inr (omega arith, bad, ground arith, ground arith), refl))
        | inr (ch, e) ↦ rw e (
            let w = pipewrite-Written rest (suc i) (put p ch) (put-IsValid p v ch room) in
            record {
              sent = ch ∷ w.sent;
              source = (e, w.source);
              valid = w.valid;
              queue =
                  w.queue
                  ∙ ap (λ c. c ++ w.sent) (contents-put p v ch room)
                  ∙ append_assoc (contents p) (ch ∷ []) w.sent;
              ends = record { reading = w.ends.reading; writing = w.ends.writing };
              outcome = WriteEnd-cons p (put p ch) rest i ch w.sent _ refl w.outcome;
              unstopped = unstopped_cons rest i p w.sent (ground arith) w.unstopped;
            })
      ])
    ])
  ]

module _ (copyout : ℕ → Bool) where
  -- Why the copy loop of `piperead` stops: all was asked for, the pipe is empty, or `copyout`
  -- failed, in which case one byte has left the pipe for nobody.
  abbrev pub ReadEnd : (rest i : ℕ) → (out lost : List ℕ) → Pipe → Type 0
  ReadEnd rest i out [] q = (length out ≡ rest) ⊎ (contents q ≡ [])
  ReadEnd rest i out (x ∷ xs) q = (xs ≡ []) × (copyout (i + length out) ≡ false)

  pub record Copied (p : Pipe) (rest i : ℕ) (q : Pipe) (out : List ℕ) : Type 0 where
    pub lost : List ℕ
    pub valid : IsValid q
    pub queue : contents p ≡ out ++ (lost ++ contents q)
    pub ends : SameEnds p q
    pub stop : ReadEnd rest i out lost q
    pub bound : length out + length lost ≤ rest
    pub stored : (j : ℕ) → j < length out → copyout (i + j) ≡ true

  ReadEnd-cons :
      (rest i ch : ℕ) (out lost : List ℕ) (q : Pipe)
      → ReadEnd rest (suc i) out lost q
      → ReadEnd (suc rest) i (ch ∷ out) lost q
  ReadEnd-cons rest i ch out [] q h = ground (arith, h)
  ReadEnd-cons rest i ch out (x ∷ xs) q h = ground arith

  stored_cons :
      (i : ℕ) (out : List ℕ)
      → copyout i ≡ true
      → ((j : ℕ) → j < length out → copyout (suc i + j) ≡ true)
      → (j : ℕ) → j < suc (length out)
      → copyout (i + j) ≡ true
  stored_cons i out k all zero h = let e : i + 0 ≡ i = omega arith in rw e k
  stored_cons i out k all (suc j) h =
      let e : i + suc j ≡ suc i + j = omega arith in rw e (all j (omega arith))

  copy_loop-Copied :
      (rest i : ℕ) (p : Pipe)
      → IsValid p
      → Copied p rest i (copy_loop copyout rest i p).0 (copy_loop copyout rest i p).1
  unfolding copy_loop
  copy_loop-Copied zero i p v = record {
    lost = [];
    valid = v;
    queue = refl;
    ends = record { reading = refl; writing = refl };
    stop = inl refl;
    bound = omega arith;
    stored = λ j h. absurd (omega arith);
  }
  copy_loop-Copied (suc rest) i p v = elim (Bool-cases (is_empty p)) [
    | inl none_left ↦ rw none_left (record {
      lost = [];
      valid = v;
      queue = refl;
      ends = record { reading = refl; writing = refl };
      stop = inr (contents_of_empty p v none_left);
      bound = omega arith;
      stored = λ j h. absurd (omega arith);
    })
    | inr more ↦ rw more (elim (Bool-cases (copyout i)) [
      | inl stored ↦ rw stored (
          let c = copy_loop-Copied rest (suc i) (get p).1 (get-IsValid p v more) in
          record {
            lost = c.lost;
            valid = c.valid;
            queue = contents-get p v more ∙ ap (λ xs. (get p).0 ∷ xs) c.queue;
            ends = record { reading = c.ends.reading; writing = c.ends.writing };
            stop = ReadEnd-cons rest i (get p).0 _ c.lost _ c.stop;
            bound = omega (arith, c.bound);
            stored = stored_cons i _ stored c.stored;
          })
      | inr bad ↦ rw bad (record {
        lost = (get p).0 ∷ [];
        valid = get-IsValid p v more;
        queue = contents-get p v more;
        ends = record { reading = refl; writing = refl };
        stop = (refl, ground arith);
        bound = omega arith;
        stored = λ j h. absurd (omega arith);
      })
    ])
  ]

  -- How `piperead` may end with the bytes `out` stored.
  abbrev pub ReadOutcome : Bool → Pipe → (n : ℕ) → List ℕ → Stretch → Type 0
  ReadOutcome killed p n out (returned q w (count m)) =
      (m ≡ length out)
      × (w ≡ nwrite_chan ∷ [])
      × ((is_empty p ≡ false) ⊎ (p.writeopen ≡ false))
      × Copied p n 0 q out
  ReadOutcome killed p n out (returned q w fail) =
      (killed ≡ true) × (contents p ≡ []) × (p.writeopen ≡ true) × (out ≡ []) × (q ≡ p)
  ReadOutcome killed p n out (asleep q w c m) =
      (killed ≡ false)
      × (contents p ≡ [])
      × (p.writeopen ≡ true)
      × (out ≡ [])
      × (q ≡ p)
      × (c ≡ nread_chan)

  -- `piperead` takes bytes off the front of the queue, in order, and stores them: `n` of them, or
  -- all there are if these are fewer, or up to a failing `copyout`, which loses one byte. It wakes the writers and
  -- returns how many it stored. On an empty pipe that may still be written it sleeps, or returns
  -- -1 if the process is killed, and changes nothing.
  pub piperead-ReadOutcome :
      (killed : Bool) (n : ℕ) (p : Pipe)
      → IsValid p
      → ReadOutcome killed p n (piperead killed copyout n p).1 (piperead killed copyout n p).0
  unfolding piperead
  piperead-ReadOutcome killed n p v = elim (Bool-cases (is_empty p && p.writeopen)) [
    | inl waits ↦ rw waits (elim (Bool-cases killed) [
      | inl dead ↦ rw dead (refl, contents_of_empty p v (ground arith), ground arith, refl, refl)
      | inr alive ↦
          rw alive (refl, contents_of_empty p v (ground arith), ground arith, refl, refl, refl)
    ])
    | inr goes ↦ rw goes (refl, refl, ground arith, copy_loop-Copied n 0 p v)
  ]
