-- ===== src/Fulltest/Remote.antt =====
-- TFS/EXAMPLES/RTFS/FULLTEST.C: the test program over a connection to a server. It has its own copies
-- of the local program's tests, which are its words too; what differs is the way in and out, the
-- comparison in `test_fstat` and the order of two calls in `test_bandwidth`.
pub mod Ending
pub mod Memory
mod Examples
use ttm.Prelude.{
  ℕ, ◌+◌, ◌/◌, ◌%◌, Bool, true, false, not, List, [], ◌∷◌, ◌++◌, ℤ, pos, negsuc, ◌==ℤ◌,
  if◌then◌else◌, codes,
}
use ttm.Prelude.Decimal.{print_int}
use ttm.Prelude.Run.{ok, Cmd, pure, exit, ◌>>=◌, ◌>>◌}
use ttm.Disktest.{word_bytes}
use ttm.Tfs.{Stat, tfs_o_rdwr, tfs_o_trunc, tfs_o_creat}
use ttm.Tfs.Library.{Library}
use ttm.Fulltest.{
  Machine, Tester, every_access, in_tfs, serious_error, complain_if, same_bytes, random,
  overwrite_tst,
}
use ttm.Fulltest.Files.{tst_seq_write_rand_read, tst_rand_write_seq_read}
use ttm.Fulltest.Names.{test_umask, test_create, test_dir, test_link, test_rmdir}
use ttm.Fulltest.Suite.{bandwidth_name, bandwidth_first}

-- What stands in the bytes of a `struct tfs_stat_t` that no field has: behind st_mode and in front of
-- st_size.
pub record Gaps : Type 0 where
  pub behind_mode : ℕ
  pub before_size : ℕ

unfoldable pub half_bytes : ℕ → List ℕ
half_bytes h = (h % 256) ∷ (h / 256 % 256) ∷ []

-- The structure in memory.
unfoldable pub stat_bytes : Stat → Gaps → List ℕ
unfolding half_bytes
stat_bytes st gaps =
    half_bytes st.st_mode
    ++ (half_bytes gaps.behind_mode
        ++ (word_bytes st.st_ino
            ++ (word_bytes st.st_dev
                ++ (half_bytes st.st_nlink
                    ++ (half_bytes st.st_uid
                        ++ (half_bytes st.st_gid
                            ++ (half_bytes gaps.before_size
                                ++ (word_bytes st.st_size ++ word_bytes st.st_mtime))))))))

-- The size of the variable home, and what is printed into it.
abbrev pub home_size : ℕ
home_size = 20

abbrev pub home : ℤ → List ℕ
home user = codes "/fulltest" ++ print_int user

module _ {D : Type 0} where
  -- fatal_error
  unfoldable pub fatal_error : {A : Type 0} → Cmd (Tester D) A
  fatal_error = exit (negsuc 0)

module _ {D : Type 0} (lib : Library D) where
  -- The way to the home directory, which is made if it is not there.
  unfoldable pub enter_home : ℤ → List ℕ → Cmd (Tester D) (Unit {0})
  enter_home pid path = do
    rv ← in_tfs (lib.tfs_chdir pid path)
    if not (rv ==ℤ negsuc 0) then pure tt else (do
      rv ← in_tfs (lib.tfs_mkdir pid path every_access)
      if rv ==ℤ negsuc 0 then fatal_error else (do
        rv ← in_tfs (lib.tfs_chdir pid path)
        if rv ==ℤ negsuc 0 then fatal_error else pure tt))

  -- `test_connect`, with the process id as its result.
  unfoldable pub test_connect : List ℕ → Cmd (Tester D) ℤ
  test_connect path = do
    pid ← in_tfs (lib.tfs_connect (pos 7) (pos 12) (pos 0))
    if pid ==ℤ negsuc 0 then fatal_error else (do enter_home pid path; pure pid)

  unfoldable pub test_disconnect : ℤ → Cmd (Tester D) (Unit {0})
  test_disconnect pid = do _ ← in_tfs (lib.tfs_disconnect pid); pure tt

module _ {D : Type 0} (lib : Library D) (machine : Machine D) (pid : ℤ) where
  -- The copies of the local program's functions.
  unfoldable pub remote_random : ℕ → Cmd (Tester D) ℕ
  remote_random = random lib machine pid

  unfoldable pub remote_overwrite_tst : Cmd (Tester D) (Unit {0})
  remote_overwrite_tst = overwrite_tst lib machine pid

  unfoldable pub remote_tst_seq_write_rand_read : Cmd (Tester D) (Unit {0})
  remote_tst_seq_write_rand_read = tst_seq_write_rand_read lib machine pid

  unfoldable pub remote_tst_rand_write_seq_read : Cmd (Tester D) (Unit {0})
  remote_tst_rand_write_seq_read = tst_rand_write_seq_read lib machine pid

  unfoldable pub remote_test_create : Cmd (Tester D) (Unit {0})
  remote_test_create = test_create lib pid

  unfoldable pub remote_test_dir : Cmd (Tester D) (Unit {0})
  remote_test_dir = test_dir lib pid

  unfoldable pub remote_test_umask : Cmd (Tester D) (Unit {0})
  remote_test_umask = test_umask lib pid

  unfoldable pub remote_test_link : Cmd (Tester D) (Unit {0})
  remote_test_link = test_link lib pid

  unfoldable pub remote_test_rmdir : ℕ → Cmd (Tester D) Bool
  remote_test_rmdir = test_rmdir lib pid

  -- `test_fstat` behind the opening, with memcmp over both structures. Their gaps are what the stack
  -- and the library left there.
  unfoldable pub compare_memory : Gaps → Gaps → ℤ → Cmd (Tester D) (Unit {0})
  unfolding stat_bytes
  compare_memory gaps fgaps fd = do
    st ← in_tfs (lib.tfs_stat pid (codes "fstat.test"))
    if not (st.0 ==ℤ pos 0) then serious_error else (do
      fst ← in_tfs (lib.tfs_fstat pid fd)
      if not (fst.0 ==ℤ pos 0) then serious_error else (do
        complain_if (not (same_bytes (stat_bytes st.1 gaps) (stat_bytes fst.1 fgaps)))
        _ ← in_tfs (lib.tfs_close pid fd)
        pure tt))

  unfoldable pub remote_test_fstat : Gaps → Gaps → Cmd (Tester D) (Unit {0})
  remote_test_fstat gaps fgaps = do
    fd ← in_tfs (
        lib.tfs_open pid (codes "fstat.test") (tfs_o_rdwr + tfs_o_trunc + tfs_o_creat) every_access)
    if fd ==ℤ negsuc 0 then serious_error else compare_memory gaps fgaps fd

  unfoldable pub remote_test_bandwidth : Cmd (Tester D) (Unit {0})
  remote_test_bandwidth = do
    fd ←
        in_tfs
          (lib.tfs_open pid bandwidth_name (tfs_o_rdwr + tfs_o_trunc + tfs_o_creat) every_access)
    _ ← in_tfs lib.tfs_sync
    if fd ==ℤ negsuc 0 then serious_error else bandwidth_first lib machine pid fd

  unfoldable pub remote_tests : Gaps → Gaps → ℕ → Cmd (Tester D) Bool
  remote_tests gaps fgaps fuel = do
    remote_overwrite_tst
    remote_tst_seq_write_rand_read
    remote_tst_rand_write_seq_read
    remote_test_create
    remote_test_dir
    remote_test_umask
    remote_test_link
    ended ← remote_test_rmdir fuel
    if ended
        then (do remote_test_fstat gaps fgaps; remote_test_bandwidth; pure true)
        else pure false

module _ {D : Type 0} (lib : Library D) (machine : Machine D) (gaps fgaps : Gaps) where
  -- `main` behind the connection.
  unfoldable pub connected : ℕ → ℤ → Cmd (Tester D) (Unit {0})
  connected fuel pid = do
    ended ← remote_tests lib machine pid gaps fgaps fuel
    if ended then (do test_disconnect lib pid; exit (pos 0)) else pure tt

  -- `main`, over the number of the user, which is a parameter of the configuration.
  unfoldable pub main : ℕ → ℤ → Cmd (Tester D) (Unit {0})
  main fuel user = do pid ← test_connect lib (home user); connected fuel pid
