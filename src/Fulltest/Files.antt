-- ===== src/Fulltest/Files.antt =====
-- The two tests of TFS/EXAMPLES/TFS/FULLTEST.C that read and write a file at random positions.
use ttm.Prelude.{
  ℕ, zero, suc, ◌+◌, ◌-◌, ◌%◌, Bool, true, false, not, List, [], ◌∷◌, ◌++◌, ℤ, pos, negsuc, ◌==◌,
  ◌==ℤ◌, if◌then◌else◌, ltb, take, drop, replicate,
}
use ttm.Prelude.Run.{ok, Cmd, pure, ◌>>=◌, ◌>>◌}
use ttm.Disktest.{word_bytes}
use ttm.Tfs.{tfs_o_rdwr, tfs_o_rdonly, tfs_o_trunc, tfs_o_creat}
use ttm.Tfs.Library.{Library}
use ttm.Fulltest.{
  Machine, Tester, buffer_size, block, file, every_access, splice, in_tfs, serious_error,
  complain_if, random, assert, seek, read_cmp, write_orig, assert_same,
}

-- The numbers from `i` on, as the words of a buffer.
unfoldable pub words_from : ℕ → ℕ → List ℕ
words_from zero i = []
words_from (suc n) i = word_bytes i ++ words_from n (i + 1)

-- The bytes from the first one that is marked on are not counted.
unfoldable pub unmarked : List ℕ → ℕ
unmarked [] = 0
unmarked (m ∷ marks) = let more = unmarked marks in if not (m == 0) then 0 else suc more

-- A serious error for each byte that differs.
unfoldable pub note_differences : {D : Type 0} → List ℕ → List ℕ → Cmd (Tester D) (Unit {0})
note_differences [] ys = pure tt
note_differences (x ∷ xs) [] = pure tt
note_differences (x ∷ xs) (y ∷ ys) = complain_if (not (x == y)) >> note_differences xs ys

module _ {D : Type 0} (lib : Library D) (machine : Machine D) (pid : ℤ) where
  unfoldable pub note_same : ℕ → ℕ → Cmd (Tester D) (Unit {0})
  note_same position n s = note_differences (take n s.buf_cmp) (take n (drop position s.buf_orig)) s

  -- The rounds of `tst_seq_write_rand_read` with the file as it was written: whether the test goes
  -- on.
  unfoldable pub read_noting : ℤ → ℕ → Cmd (Tester D) Bool
  read_noting fd zero = pure true
  read_noting fd (suc left) = do
    position ← random lib machine pid (buffer_size - block)
    rv ← seek lib machine pid fd position
    if not (rv ==ℤ pos position) then (do serious_error; pure false) else (do
      rv ← read_cmp lib machine pid fd block
      if not (rv ==ℤ pos block)
          then (do serious_error; pure false)
          else (do note_same position block; read_noting fd left))

  -- The rounds with the file opened again.
  unfoldable pub read_asserting : ℤ → ℕ → Cmd (Tester D) (Unit {0})
  read_asserting fd zero = pure tt
  read_asserting fd (suc left) = do
    position ← random lib machine pid (buffer_size - block)
    rv ← seek lib machine pid fd position
    assert lib machine pid (rv ==ℤ pos position)
    rv ← read_cmp lib machine pid fd block
    assert lib machine pid (rv ==ℤ pos block)
    assert_same lib machine pid position block
    read_asserting fd left

  unfoldable pub reopen_and_read : ℤ → Cmd (Tester D) (Unit {0})
  reopen_and_read fd = do
    rv ← in_tfs (lib.tfs_close pid fd)
    complain_if (not (rv ==ℤ pos 0))
    fd ← in_tfs (lib.tfs_open pid file tfs_o_rdonly 0)
    read_asserting fd 1000
    rv ← in_tfs (lib.tfs_close pid fd)
    assert lib machine pid (rv ==ℤ pos 0)

  unfoldable pub number_orig : Cmd (Tester D) (Unit {0})
  number_orig s = ok tt (record s { buf_orig = words_from 25600 0 })

  -- `tst_seq_write_rand_read` behind the opening.
  unfoldable pub seq_write : ℤ → Cmd (Tester D) (Unit {0})
  seq_write fd = do
    number_orig
    rv ← seek lib machine pid fd 0
    if not (rv ==ℤ pos 0) then serious_error else (do
      rv ← write_orig lib machine pid fd 0 buffer_size
      if not (rv ==ℤ pos buffer_size)
          then serious_error
          else (do goes_on ← read_noting fd 100; if goes_on then reopen_and_read fd else pure tt))

  unfoldable pub tst_seq_write_rand_read : Cmd (Tester D) (Unit {0})
  tst_seq_write_rand_read = do
    fd ← in_tfs (lib.tfs_open pid file (tfs_o_rdwr + tfs_o_trunc + tfs_o_creat) every_access)
    if fd ==ℤ negsuc 0 then serious_error else seq_write fd

  -- The bytes that rand gives.
  unfoldable pub random_bytes : ℕ → Cmd (Tester D) (List ℕ)
  random_bytes zero = pure []
  random_bytes (suc n) = do r ← in_tfs machine.rand; rest ← random_bytes n; pure (r % 256 ∷ rest)

  -- buf_orig at random and no byte marked in buf_cmp.
  unfoldable pub scramble : Cmd (Tester D) (Unit {0})
  scramble = do
    bytes ← random_bytes buffer_size
    λ s. ok tt (record s { buf_orig = bytes; buf_cmp = replicate buffer_size 0 })

  -- tfs_lseek and tfs_write, whose results are not looked at.
  unfoldable pub put_part : ℤ → ℕ → ℕ → Cmd (Tester D) (Unit {0})
  put_part fd position n = do
    _ ← seek lib machine pid fd position
    _ ← write_orig lib machine pid fd position n
    pure tt

  unfoldable pub mark : ℕ → ℕ → Cmd (Tester D) (Unit {0})
  mark position n s = ok tt (record s { buf_cmp = splice position (replicate n 1) s.buf_cmp })

  -- The blocks at random positions, which are marked. The results are not looked at.
  unfoldable pub rand_blocks : ℤ → ℕ → Cmd (Tester D) (Unit {0})
  rand_blocks fd zero = pure tt
  rand_blocks fd (suc left) = do
    position ← random lib machine pid (buffer_size - block)
    put_part fd position block
    mark position block
    rand_blocks fd left

  -- The bytes from `i` on up to the next that is marked.
  unfoldable pub fill_gap : ℤ → ℕ → Cmd (Tester D) (Unit {0})
  fill_gap fd i s =
      let count = unmarked (drop i s.buf_cmp) in
      (if ltb 0 count then put_part fd i count else pure tt) s

  -- The bytes left, from `i` on.
  unfoldable pub fill_gaps : ℤ → ℕ → ℕ → Cmd (Tester D) (Unit {0})
  fill_gaps fd zero i = pure tt
  fill_gaps fd (suc left) i = fill_gap fd i >> fill_gaps fd left (i + 1)

  unfoldable pub reopen_and_compare : ℤ → Cmd (Tester D) (Unit {0})
  reopen_and_compare fd = do
    _ ← in_tfs (lib.tfs_close pid fd)
    fd ← in_tfs (lib.tfs_open pid file tfs_o_rdonly 0)
    rv ← read_cmp lib machine pid fd buffer_size
    complain_if (not (rv ==ℤ pos buffer_size))
    assert_same lib machine pid 0 buffer_size
    _ ← in_tfs (lib.tfs_close pid fd)
    pure tt

  -- `tst_rand_write_seq_read` behind the opening.
  unfoldable pub rand_write : ℤ → Cmd (Tester D) (Unit {0})
  rand_write fd = do
    scramble
    rand_blocks fd 1000
    fill_gaps fd buffer_size 0
    reopen_and_compare fd

  unfoldable pub tst_rand_write_seq_read : Cmd (Tester D) (Unit {0})
  tst_rand_write_seq_read = do
    fd ← in_tfs (lib.tfs_open pid file (tfs_o_rdwr + tfs_o_trunc + tfs_o_creat) every_access)
    if fd ==ℤ negsuc 0 then serious_error else rand_write fd
