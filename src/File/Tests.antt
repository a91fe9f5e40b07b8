-- ===== src/File/Tests.antt =====
-- The theorems on kernel/file.c at a small table and a short write.
use zept_os.Prelude.{
  ℕ, ◌-◌, ◌<◌, ◌≡◌, refl, true, none, [], ◌∷◌, arith, leb, ◌==◌, if◌then◌else◌, ok, panic,
}
use zept_os.Pipe.{fail, count}
use zept_os.File.{fd_none, fd_inode, File, Ftable, filedup, Closing, fileclose, Io, filewrite}
use zept_os.File.Refs.{uses, drop_one, IsCounted, Closed, filedup-fileclose}
use zept_os.File.Chunks.{IsBounded}
use zept_os.File.Write.{Calls, noting, Covers, filewrite-Covers}

abbrev a_file : File
a_file = record {
  type = fd_inode;
  ref = 2;
  readable = true;
  writable = true;
  pipe = 0;
  ip = 9;
  off = 500;
  major = 0;
}

abbrev unused : File
unused = record a_file { type = fd_none; ref = 0 }

-- File 0 is held twice.
abbrev table : Ftable
table f = if 0 == f then a_file else unused

table-IsCounted : IsCounted table (0 ∷ 0 ∷ [])
table-IsCounted = record {
  inside = (omega arith, (omega arith, tt));
  counted = λ f p. ground arith;
}

filedup-fileclose_example :
    (0 < uses 0 (0 ∷ 0 ∷ [])
      → ((u : Ftable) × (filedup 0 table ≡ ok u) × IsCounted u (0 ∷ 0 ∷ 0 ∷ []))
        × ((u : Ftable) × (c : Closing) × (fileclose 0 table ≡ ok (u, c))
            × IsCounted u (drop_one 0 (0 ∷ 0 ∷ []))
            × Closed (table 0) (uses 0 (drop_one 0 (0 ∷ 0 ∷ []))) c))
    × (uses 0 (0 ∷ 0 ∷ []) ≡ 0
        → (filedup 0 table ≡ panic "filedup") × (fileclose 0 table ≡ panic "fileclose"))
filedup-fileclose_example = filedup-fileclose table (0 ∷ 0 ∷ []) 0 (omega arith) table-IsCounted

filewrite-Covers_example :
    (calls : Calls) × (filewrite noting a_file 7000 []
      ≡ ok (count 7000, record a_file { off = 7500 }, calls))
    × Covers 7000 0 500 calls
filewrite-Covers_example = filewrite-Covers a_file 7000 refl refl (omega arith)

-- A disk with room for 4000 more bytes: a call beyond them writes what still fits.
abbrev scarce : Io ℕ
scarce = record {
  pipe_io = λ pipe offset n s. (fail, s);
  dev_io = λ major. none;
  inode_io = λ ip offset off n s. if leb n s then (count n, s - n) else (count s, 0);
}

scarce-IsBounded : IsBounded scarce
scarce-IsBounded ip offset off n s m e = ground arith
