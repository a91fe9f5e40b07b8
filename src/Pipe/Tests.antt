-- ===== src/Pipe/Tests.antt =====
-- The theorems on kernel/pipe.c at concrete pipes and runs.
use zept_os.Prelude.{
  ℕ, suc, ◌+◌, ◌-◌, ◌^◌, ◌≡◌, refl, Bool, true, false, Option, none, some, List, [], ◌∷◌, ◌++◌,
  arith, ltb, if◌then◌else◌,
}
use zept_os.Pipe.{
  Pipe, is_empty, returned, fail, count, nread_chan, nwrite_chan, pipewrite, piperead, pipeclose,
}
use zept_os.Pipe.Fifo.{IsValid, contents}
use zept_os.Pipe.Calls.{Written, pipewrite-Written, ReadOutcome, piperead-ReadOutcome}
use zept_os.Pipe.Stream.{
  Op, write, read, close, run, Sent, join, run_stream, read_after_blocked_write, closed_ends,
}

-- A pipe whose counters are about to wrap, with one byte in it.
abbrev late : Pipe
late = record { buf = λ k. k; nread = 2 ^ 32 - 1; nwrite = 0; readopen = true; writeopen = true }

abbrev full : Pipe
full = record late { nwrite = 511 }

late-IsValid : IsValid late
late-IsValid = omega arith

abbrev alive : ℕ → Bool
alive i = false

abbrev memory : ℕ → Option ℕ
memory i = if ltb i 3 then some (i + 100) else none

abbrev stores : ℕ → Bool
stores i = true

contents-late : contents late ≡ 511 ∷ []
unfolding contents
contents-late = refl

pipewrite-Written_example : Written alive memory late 3 0 (pipewrite alive memory 3 0 late)
pipewrite-Written_example = pipewrite-Written alive memory 3 0 late late-IsValid

piperead-ReadOutcome_example :
    ReadOutcome stores false late 4
      (piperead false stores 4 late).1
      (piperead false stores 4 late).0
piperead-ReadOutcome_example = piperead-ReadOutcome stores false 4 late late-IsValid

-- Two bytes of the three at offset 1, up to the failing copyin, then a read of all.
abbrev script : List Op
script = write alive memory 5 1 ∷ read false stores 10 ∷ close true ∷ read false stores 1 ∷ []

stores_in_order : (run script late).1 ≡ 511 ∷ 101 ∷ 102 ∷ []
unfolding run pipewrite piperead pipeclose
stores_in_order = refl

run_stream_example :
    let (q, received) = run script late in
    (chunks : List (List ℕ)) × Sent script chunks
    × IsValid q
    × (received ++ contents q ≡ contents late ++ join chunks)
run_stream_example = run_stream script late late-IsValid (λ i. refl, (λ i. refl, tt))

read_after_blocked_write_example :
    (q' : Pipe) × (k : ℕ) × ((piperead false stores 2 full).0
      ≡ returned q' (nwrite_chan ∷ []) (count (suc k)))
unfolding pipewrite
read_after_blocked_write_example =
    read_after_blocked_write alive memory 2 0 full full (nread_chan ∷ []) nwrite_chan 0 false stores
      1 (omega arith) refl refl

closed_ends_example :
    let r = (pipeclose full false).0 in
    let w = (pipeclose full true).0 in
    let first = pipeclose full true in
    (pipewrite alive memory 2 0 r ≡ returned r [] fail)
    × (is_empty full ≡ true
        → piperead false stores 3 w ≡ (returned w (nwrite_chan ∷ []) (count 0), []))
    × (first.2 ≡ false)
    × ((pipeclose first.0 false).2 ≡ true)
closed_ends_example = closed_ends alive memory 1 0 false stores 3 full true refl refl
