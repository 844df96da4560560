-- ===== src/Fulltest/Suite.antt =====
-- The measuring of the bandwidth and the main program of TFS/EXAMPLES/TFS/FULLTEST.C.
use ttm.Prelude.{
  ℕ, zero, suc, Bool, true, false, not, List, ℤ, pos, negsuc, ◌+◌, ◌==ℤ◌, if◌then◌else◌, overwrite,
  codes,
}
use ttm.Prelude.Run.{ok, Cmd, pure, exit, ◌>>=◌, ◌>>◌}
use ttm.Tfs.{tfs_o_rdwr, tfs_o_trunc, tfs_o_creat, tfs_write_back, tfs_do_fsck, tfs_dont_fsck}
use ttm.Tfs.Library.{Library}
use ttm.Fulltest.{
  Machine, Tester, every_access, in_tfs, serious_error, seek, write_orig, overwrite_tst, test_fstat,
}
use ttm.Fulltest.Files.{tst_seq_write_rand_read, tst_rand_write_seq_read}
use ttm.Fulltest.Names.{test_umask, test_create, test_dir, test_link, test_rmdir}

-- BLK and CNT.
abbrev pub bandwidth_block : ℕ
bandwidth_block = 16384

abbrev pub bandwidth_count : ℕ
bandwidth_count = 512

abbrev pub bandwidth_name : List ℕ
bandwidth_name = codes "bandwidth.test"

module _ {D : Type 0} (lib : Library D) (machine : Machine D) (pid : ℤ) where
  -- The blocks left to write, and to read: whether the test goes on.
  unfoldable pub bandwidth_write : ℤ → ℕ → Cmd (Tester D) Bool
  bandwidth_write fd zero = pure true
  bandwidth_write fd (suc left) = do
    rv ← write_orig lib machine pid fd 0 bandwidth_block
    if not (rv ==ℤ pos bandwidth_block)
        then (do serious_error; pure false)
        else bandwidth_write fd left

  unfoldable pub read_orig : ℤ → ℕ → Cmd (Tester D) ℤ
  read_orig fd n s =
      let r = lib.tfs_read pid fd n s.tfs in
      ok r.0.0 (record s { buf_orig = overwrite r.0.1 s.buf_orig; tfs = r.1 })

  unfoldable pub bandwidth_read : ℤ → ℕ → Cmd (Tester D) Bool
  bandwidth_read fd zero = pure true
  bandwidth_read fd (suc left) = do
    rv ← read_orig fd bandwidth_block
    if not (rv ==ℤ pos bandwidth_block)
        then (do serious_error; pure false)
        else bandwidth_read fd left

  -- The writing of the blocks that are there, and the reading.
  unfoldable pub bandwidth_again : ℤ → Cmd (Tester D) (Unit {0})
  bandwidth_again fd = do
    written ← bandwidth_write fd bandwidth_count
    if not written then pure tt else (do
      _ ← seek lib machine pid fd 0
      _ ← in_tfs lib.tfs_sync
      got ← bandwidth_read fd bandwidth_count
      if not got then pure tt else (do _ ← in_tfs (lib.tfs_close pid fd); pure tt))

  unfoldable pub bandwidth_first : ℤ → Cmd (Tester D) (Unit {0})
  bandwidth_first fd = do
    written ← bandwidth_write fd bandwidth_count
    if not written then pure tt else (do
      _ ← in_tfs (lib.tfs_close pid fd)
      _ ← in_tfs lib.tfs_sync
      fd ← in_tfs (lib.tfs_open pid bandwidth_name tfs_o_rdwr 0)
      if fd ==ℤ negsuc 0 then serious_error else bandwidth_again fd)

  -- `test_bandwidth`. The clock is only read for the rates, which are left out with what is printed.
  unfoldable pub test_bandwidth : Cmd (Tester D) (Unit {0})
  test_bandwidth = do
    _ ← in_tfs lib.tfs_sync
    fd ←
        in_tfs
          (lib.tfs_open pid bandwidth_name (tfs_o_rdwr + tfs_o_trunc + tfs_o_creat) every_access)
    if fd ==ℤ negsuc 0 then serious_error else bandwidth_first fd

  unfoldable pub all_tests : ℕ → Cmd (Tester D) Bool
  all_tests fuel = do
    overwrite_tst lib machine pid
    tst_seq_write_rand_read lib machine pid
    tst_rand_write_seq_read lib machine pid
    test_create lib pid
    test_dir lib pid
    test_umask lib pid
    test_link lib pid
    ended ← test_rmdir lib pid fuel
    if ended then (do test_fstat lib machine pid; test_bandwidth; pure true) else pure false

module _ {D : Type 0} (lib : Library D) (machine : Machine D) where
  -- `main` with a process.
  unfoldable pub logged_on : ℕ → ℤ → Cmd (Tester D) (Unit {0})
  logged_on fuel pid = do
    ended ← all_tests lib machine pid fuel
    if ended
        then (do
          _ ← in_tfs (lib.tfs_logoff pid)
          _ ← in_tfs (lib.tfs_terminate tfs_dont_fsck)
          exit (pos 0))
        else pure tt

  -- `main` behind tfs_init.
  unfoldable pub initialised : ℕ → Cmd (Tester D) (Unit {0})
  initialised fuel = do
    res ← in_tfs (lib.tfs_mount tfs_do_fsck)
    if not (res ==ℤ pos 0)
        then (do _ ← in_tfs (lib.tfs_terminate tfs_do_fsck); exit (negsuc 0))
        else (do
          pid ← in_tfs (lib.tfs_logon 4 10)
          if pid ==ℤ negsuc 0
              then (do _ ← in_tfs (lib.tfs_terminate tfs_dont_fsck); exit (negsuc 0))
              else logged_on fuel pid)

  -- The program, without the process that passes messages of the file system on. The fuel is that
  -- of `test_rmdir`.
  unfoldable pub main : ℕ → Cmd (Tester D) (Unit {0})
  main fuel = do
    res ← in_tfs (lib.tfs_init 117 0 2 tfs_write_back)
    if not (res ==ℤ pos 0) then exit (negsuc 0) else initialised fuel
