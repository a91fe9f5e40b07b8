-- ===== src/Bio/Tests.antt =====
-- The theorem on kernel/bio.c at a cache that has just been set up.
use zept_os.Prelude.{
  ℕ, ◌+◌, ◌-◌, ◌==◌, if◌then◌else◌, ◌*◌, ◌≡◌, refl, true, false, Outcome, ok, panic, ◌>>=◌,
}
use zept_os.Bio.{
  head, Bcache, binit, init_loop, push_front, unlink, find_block, find_free, bget, bread, brelse,
}

-- Static storage is zero.
abbrev blank : Bcache
blank = record {
  buf = λ _. record { valid = false; dev = 0; blockno = 0; refcnt = 0; bytes = λ _. 0 };
  next_of = λ _. 0;
  prev_of = λ _. 0;
}

abbrev disk : ℕ → ℕ → ℕ → ℕ
disk dev blockno i = 1000 * blockno + i

-- The same buffers, linked from the last one to the first, as `binit` does.
abbrev chain : Bcache
chain = record blank {
  next_of = λ b. if b == 0 then head else if b == head then 29 else b - 1;
  prev_of = λ b. if b == head then 0 else b + 1;
}

-- The buffer that a call gets, or 99.
abbrev got : Outcome (ℕ × Bcache) → ℕ
got (ok (b, k)) = b
got (panic msg) = 99

-- After `binit` the first block goes to buffer 0, the least recent; a second read finds it there.
first_read : got (bread disk 1 7 (binit blank)) ≡ 0
unfolding binit init_loop push_front find_block find_free bget bread
first_read = refl

second_read : got (do (b, k) ← bread disk 1 7 (binit blank); bread disk 1 7 k) ≡ 0
unfolding binit init_loop push_front find_block find_free bget bread
second_read = refl

-- A buffer that was released is the most recent one, so another block goes to buffer 1.
released_read :
    got (do (b, k) ← bread disk 1 7 (binit blank); k' ← brelse true b k; bread disk 1 8 k') ≡ 1
unfolding binit init_loop push_front unlink find_block find_free bget bread brelse
released_read = refl
