-- ===== src/Fulltest.antt =====
-- TFS/EXAMPLES/TFS/FULLTEST.C: the test program of the file system, with the overwriting and the
-- fstat test. What is printed is left out; the counters of the errors and the ends by a failed
-- assertion are kept.
pub mod Attributes
pub mod Buffers
pub mod Files
pub mod Filling
pub mod Halting
pub mod Directory
pub mod Ending
pub mod Links
pub mod Lookup
pub mod Names
pub mod Naming
pub mod Overwrite
pub mod RandomWrite
pub mod Remote
pub mod Scattered
pub mod Sequential
pub mod Store
pub mod Tree
pub mod Umask
pub mod Suite
mod Examples
use Prim.Native.Nat.{bit_and}
use ttm.Prelude.{
  ℕ, zero, suc, ◌+◌, ◌-◌, ◌%◌, Bool, true, false, not, ◌&&◌, List, [], ◌∷◌, ◌++◌, ℤ, pos, negsuc,
  word_mod, ◌==◌, ◌==ℤ◌, if◌then◌else◌, length, take, drop, replicate, overwrite, codes,
}
use ttm.Prelude.Run.{Run, ok, Cmd, pure, exit, ◌>>=◌, ◌>>◌}
use ttm.Tfs.{Stat, tfs_o_rdwr, tfs_o_rdonly, tfs_o_trunc, tfs_o_creat, tfs_seek_set}
use ttm.Tfs.Library.{Library}

-- What the program takes from the C library: rand, and the code with which a program ends whose
-- assertion failed.
pub record Machine (D : Type 0) : Type 0 where
  pub rand : D → ℕ × D
  pub abort_code : ℤ

-- The variables of the program; `tfs` is the state of the file system and the C library.
pub record Tester (D : Type 0) : Type 0 where
  pub serious_errs : ℕ
  pub minor_errs : ℕ
  pub buf_orig : List ℕ
  pub buf_cmp : List ℕ
  pub tfs : D

-- SIZE and BLOCK.
abbrev pub buffer_size : ℕ
buffer_size = 102400

abbrev pub block : ℕ
block = 1000

abbrev pub file : List ℕ
file = codes "test.file"

-- 0777
abbrev pub every_access : ℕ
every_access = 511

-- Bytes that are copied into a buffer behind its first `position`.
unfoldable pub splice : ℕ → List ℕ → List ℕ → List ℕ
splice position bytes buffer =
    take position buffer ++ (bytes ++ drop (position + length bytes) buffer)

-- Whether two blocks are equal, byte by byte.
unfoldable pub same_bytes : List ℕ → List ℕ → Bool
same_bytes [] ys = true
same_bytes (x ∷ xs) [] = false
same_bytes (x ∷ xs) (y ∷ ys) = (x == y) && same_bytes xs ys

-- A call of the file system or the C library.
abbrev pub in_tfs : {D A : Type 0} → (D → A × D) → Cmd (Tester D) A
in_tfs f s = ok (f s.tfs).0 (record s { tfs = (f s.tfs).1 })

unfoldable pub serious_error : {D : Type 0} → Cmd (Tester D) (Unit {0})
serious_error s = ok tt (record s { serious_errs = (s.serious_errs + 1) % word_mod })

unfoldable pub minor_error : {D : Type 0} → Cmd (Tester D) (Unit {0})
minor_error s = ok tt (record s { minor_errs = (s.minor_errs + 1) % word_mod })

abbrev pub complain_if : {D : Type 0} → Bool → Cmd (Tester D) (Unit {0})
complain_if bad = if bad then serious_error else pure tt

-- statcmp
unfoldable pub statcmp : Stat → Stat → ℤ
statcmp s1 s2 =
    if not (s1.st_mode == s1.st_mode)
    then negsuc 0
    else if not (s1.st_ino == s1.st_ino)
    then negsuc 0
    else if not (s1.st_dev == s1.st_dev)
    then negsuc 0
    else if not (s1.st_nlink == s1.st_nlink)
    then negsuc 0
    else if not (s1.st_uid == s1.st_uid)
    then negsuc 0
    else if not (s1.st_gid == s1.st_gid)
    then negsuc 0
    else if not (s1.st_size == s1.st_size)
    then negsuc 0
    else if not (s1.st_mtime == s1.st_mtime)
    then negsuc 0
    else pos 0

module _ {D : Type 0} (lib : Library D) (machine : Machine D) (pid : ℤ) where
  unfoldable pub random : ℕ → Cmd (Tester D) ℕ
  random limit = do r ← in_tfs machine.rand; pure (bit_and r 0x000fffff % limit)

  unfoldable pub assert : Bool → Cmd (Tester D) (Unit {0})
  assert holds = if holds then pure tt else exit machine.abort_code

  unfoldable pub seek : ℤ → ℕ → Cmd (Tester D) ℤ
  seek fd position = in_tfs (lib.tfs_lseek pid fd position tfs_seek_set)

  -- tfs_read into the front of buf_cmp.
  unfoldable pub read_cmp : ℤ → ℕ → Cmd (Tester D) ℤ
  read_cmp fd n s =
      let r = lib.tfs_read pid fd n s.tfs in
      ok r.0.0 (record s { buf_cmp = overwrite r.0.1 s.buf_cmp; tfs = r.1 })

  unfoldable pub write_cmp : ℤ → ℕ → Cmd (Tester D) ℤ
  write_cmp fd n s = in_tfs (lib.tfs_write pid fd (take n s.buf_cmp)) s

  unfoldable pub write_orig : ℤ → ℕ → ℕ → Cmd (Tester D) ℤ
  write_orig fd position n s = in_tfs (lib.tfs_write pid fd (take n (drop position s.buf_orig))) s

  -- The comparison of the front of buf_cmp with a part of buf_orig, where the program ends if they
  -- differ.
  unfoldable pub assert_same : ℕ → ℕ → Cmd (Tester D) (Unit {0})
  assert_same position n s =
      assert (same_bytes (take n s.buf_cmp) (take n (drop position s.buf_orig))) s

  -- The block of `overwrite_tst` in both buffers.
  unfoldable pub put_block : ℕ → ℕ → Cmd (Tester D) (Unit {0})
  put_block position count s =
      let bytes = replicate block (count % 256) in
      ok tt (record s {
        buf_cmp = overwrite bytes s.buf_cmp;
        buf_orig = splice position bytes s.buf_orig;
      })

  -- A part of the file that is read again and compared with buf_orig.
  unfoldable pub check_part : ℤ → ℕ → ℕ → Cmd (Tester D) (Unit {0})
  check_part fd position n = do
    rv ← seek fd position
    assert (rv ==ℤ pos position)
    rv ← read_cmp fd n
    assert (rv ==ℤ pos n)
    assert_same position n

  -- A round at a position: whether the loop goes on. 100 bytes in front of the block, or as many as
  -- there are, are read again.
  unfoldable pub overwrite_at : ℤ → ℕ → ℕ → Cmd (Tester D) Bool
  overwrite_at fd count position = do
    put_block position count
    rv ← seek fd position
    if not (rv ==ℤ pos position) then (do serious_error; pure false) else (do
      rv ← write_cmp fd block
      assert (rv ==ℤ pos block)
      check_part fd (position - 100) block
      pure true)

  -- The rounds left, from the round `count` on.
  unfoldable pub overwrite_blocks : ℤ → ℕ → ℕ → Cmd (Tester D) Bool
  overwrite_blocks fd zero count = pure true
  overwrite_blocks fd (suc left) count = do
    position ← random (buffer_size - block)
    goes_on ← overwrite_at fd count position
    if goes_on then overwrite_blocks fd left (count + 1) else pure false

  unfoldable pub clear_orig : Cmd (Tester D) (Unit {0})
  clear_orig s = ok tt (record s { buf_orig = replicate buffer_size 0 })

  -- buf_orig as the whole file.
  unfoldable pub write_whole : ℤ → Cmd (Tester D) (Unit {0})
  write_whole fd = do
    rv ← seek fd 0
    assert (rv ==ℤ pos 0)
    rv ← write_orig fd 0 buffer_size
    assert (rv ==ℤ pos buffer_size)

  -- The comparison of the whole file.
  unfoldable pub check_file : ℤ → Cmd (Tester D) (Unit {0})
  check_file fd = do check_part fd 0 buffer_size; _ ← in_tfs (lib.tfs_close pid fd); pure tt

  -- `overwrite_tst` behind the opening.
  unfoldable pub overwrite_file : ℤ → Cmd (Tester D) (Unit {0})
  overwrite_file fd = do
    clear_orig
    write_whole fd
    goes_on ← overwrite_blocks fd 1000 0
    if goes_on then check_file fd else pure tt

  unfoldable pub overwrite_tst : Cmd (Tester D) (Unit {0})
  overwrite_tst = do
    fd ← in_tfs (lib.tfs_open pid file (tfs_o_rdwr + tfs_o_trunc + tfs_o_creat) every_access)
    assert (not (fd ==ℤ negsuc 0))
    overwrite_file fd

  -- test_fstat behind the opening.
  unfoldable pub compare_stats : ℤ → Cmd (Tester D) (Unit {0})
  compare_stats fd = do
    st ← in_tfs (lib.tfs_stat pid (codes "fstat.test"))
    if not (st.0 ==ℤ pos 0) then serious_error else (do
      fst ← in_tfs (lib.tfs_fstat pid fd)
      if not (fst.0 ==ℤ pos 0) then serious_error else (do
        complain_if (not (statcmp st.1 fst.1 ==ℤ pos 0))
        _ ← in_tfs (lib.tfs_close pid fd)
        pure tt))

  unfoldable pub test_fstat : Cmd (Tester D) (Unit {0})
  test_fstat = do
    fd ← in_tfs (
        lib.tfs_open pid (codes "fstat.test") (tfs_o_rdwr + tfs_o_trunc + tfs_o_creat) every_access)
    if fd ==ℤ negsuc 0 then serious_error else compare_stats fd
