-- ===== src/Fulltest/Names.antt =====
-- The tests of TFS/EXAMPLES/TFS/FULLTEST.C on directories, links and permissions.
use Prim.Native.Nat.{bit_and}
use ttm.Prelude.{
  ℕ, zero, suc, ◌+◌, ◌-◌, ◌*◌, Bool, true, false, not, ◌&&◌, Option, none, some, List, ◌++◌, ℤ, pos,
  negsuc, ◌==◌, ◌==ℤ◌, if◌then◌else◌, ltb, codes,
}
use ttm.Prelude.Decimal.{print_int}
use ttm.Prelude.Run.{Cmd, pure, ◌>>=◌, ◌>>◌}
use ttm.Tfs.{tfs_o_rdwr, tfs_o_trunc, tfs_o_creat, tfs_f_ok, tfs_i_dir, tfs_eexist}
use ttm.Tfs.Entry.{dir_size}
use ttm.Tfs.Library.{Library}
use ttm.Fulltest.{Tester, every_access, in_tfs, serious_error, minor_error, complain_if}

-- st_mode & 0777
abbrev pub access : ℕ → ℕ
access mode = bit_and mode 511

abbrev pub fresh : ℕ
fresh = tfs_o_rdwr + tfs_o_creat + tfs_o_trunc

module _ {D : Type 0} (lib : Library D) (pid : ℤ) where
  -- The calls that only return whether they failed, and a complaint if they did.
  abbrev call_or_complain : (D → ℤ × D) → Cmd (Tester D) (Unit {0})
  call_or_complain f = in_tfs f >>= λ rv. complain_if (not (rv ==ℤ pos 0))

  abbrev umask_name : List ℕ
  umask_name = codes "Umask_test_file"

  -- The file that is made under the mask, and the end of `test_umask`.
  unfoldable pub umask_masked : Cmd (Tester D) (Unit {0})
  umask_masked = do
    call_or_complain (lib.tfs_unlink pid umask_name)
    rv ← in_tfs (lib.tfs_access pid umask_name tfs_f_ok)
    complain_if (not (rv ==ℤ negsuc 0))
    fd ← in_tfs (lib.tfs_open pid umask_name fresh every_access)
    complain_if (fd ==ℤ negsuc 0)
    call_or_complain (lib.tfs_close pid fd)
    st ← in_tfs (lib.tfs_stat pid umask_name)
    complain_if (not (st.0 ==ℤ pos 0))
    complain_if (not (access st.1.st_mode == 504))

  -- What follows the change of the mask.
  unfoldable pub umask_changed : ℕ → Cmd (Tester D) (Unit {0})
  umask_changed old_mask = do
    st ← in_tfs (lib.tfs_stat pid umask_name)
    if st.0 ==ℤ negsuc 0 then serious_error else (do
      complain_if (not (access st.1.st_mode == 511 - access old_mask))
      call_or_complain (lib.tfs_chmod pid umask_name 448)
      st ← in_tfs (lib.tfs_stat pid umask_name)
      complain_if (not (st.0 ==ℤ pos 0))
      complain_if (not (access st.1.st_mode == 448))
      umask_masked)

  unfoldable pub umask_set : Cmd (Tester D) (Unit {0})
  umask_set = do
    old_mask ← in_tfs (lib.tfs_umask pid 7)
    λ s. (if not (lib.tfs_errno s.tfs == 0) then serious_error else umask_changed old_mask) s

  unfoldable pub test_umask : Cmd (Tester D) (Unit {0})
  test_umask = do
    _ ← in_tfs (lib.tfs_unlink pid umask_name)
    fd ← in_tfs (lib.tfs_open pid umask_name fresh every_access)
    if fd ==ℤ negsuc 0 then serious_error else (do
      rv ← in_tfs (lib.tfs_close pid fd)
      if not (rv ==ℤ pos 0) then serious_error else umask_set)

  -- `test_create` behind the opening. The name is a constant of the model, so that the test whether
  -- it was corrupted is left out.
  unfoldable pub create_file : ℤ → Cmd (Tester D) (Unit {0})
  create_file fd = do
    rv ← in_tfs (lib.tfs_write pid fd (codes "hello\n"))
    if not (rv ==ℤ pos 6) then serious_error else (do
      rv ← in_tfs (lib.tfs_close pid fd)
      if rv ==ℤ negsuc 0 then minor_error else pure tt
      st ← in_tfs (lib.tfs_stat pid (codes "test_dir/test_file"))
      if st.0 ==ℤ negsuc 0 then serious_error else complain_if (not (st.1.st_size == 6)))

  -- `test_create` behind tfs_mkdir.
  unfoldable pub create_open : Cmd (Tester D) (Unit {0})
  create_open = do
    fd ← in_tfs (lib.tfs_open pid (codes "test_dir/test_file") fresh every_access)
    if fd ==ℤ negsuc 0 then serious_error else create_file fd

  unfoldable pub test_create : Cmd (Tester D) (Unit {0})
  test_create = do
    rv ← in_tfs (lib.tfs_mkdir pid (codes "test_dir") every_access)
    λ s.
        (if (rv ==ℤ negsuc 0) && not (lib.tfs_errno s.tfs == tfs_eexist)
            then serious_error
            else create_open)
          s

  -- The file with a number: whether the test goes on.
  unfoldable pub make_file : ℕ → Cmd (Tester D) Bool
  make_file i = do
    fd ← in_tfs (
        lib.tfs_open pid (codes "file." ++ print_int (pos i)) (tfs_o_rdwr + tfs_o_creat)
          every_access)
    if fd ==ℤ negsuc 0 then (do serious_error; pure false) else (do
      rv ← in_tfs (lib.tfs_close pid fd)
      if not (rv ==ℤ pos 0) then (do serious_error; pure false) else pure true)

  -- The files left to make, from the number `i` on: whether the test goes on.
  unfoldable pub make_files : ℕ → ℕ → Cmd (Tester D) Bool
  make_files zero i = pure true
  make_files (suc left) i = do
    goes_on ← make_file i
    if goes_on then make_files left (i + 1) else pure false

  unfoldable pub check_directory : Cmd (Tester D) (Unit {0})
  check_directory = do
    st ← in_tfs (lib.tfs_stat pid (codes "."))
    if st.0 ==ℤ negsuc 0
        then serious_error
        else (if bit_and st.1.st_mode tfs_i_dir == 0
            then serious_error
            else (if ltb st.1.st_size (303 * dir_size) then minor_error else pure tt))

  unfoldable pub test_dir : Cmd (Tester D) (Unit {0})
  test_dir = do
    rv ← in_tfs (lib.tfs_chdir pid (codes "test_dir"))
    if not (rv ==ℤ pos 0)
        then serious_error
        else (do goes_on ← make_files 300 0; if goes_on then check_directory else pure tt)

  -- `test_link` behind the closing.
  unfoldable pub link_file : Cmd (Tester D) (Unit {0})
  link_file = do
    rv ← in_tfs (lib.tfs_link pid (codes "link.test") (codes "link2.test"))
    if not (rv ==ℤ pos 0) then serious_error else (do
      st ← in_tfs (lib.tfs_stat pid (codes "link.test"))
      if not (st.0 ==ℤ pos 0) then serious_error else (do
        complain_if (not (st.1.st_nlink == 2))
        call_or_complain (lib.tfs_unlink pid (codes "link2.test"))))

  unfoldable pub test_link : Cmd (Tester D) (Unit {0})
  test_link = do
    fd ← in_tfs (lib.tfs_open pid (codes "link.test") fresh every_access)
    if fd ==ℤ negsuc 0 then serious_error else (do _ ← in_tfs (lib.tfs_close pid fd); link_file)

  -- The first name, longer by an A each time, that does not exist. The source has no bound on the
  -- length; `none` stands for a search that has not ended when the fuel is used up.
  unfoldable pub free_name : ℕ → List ℕ → Cmd (Tester D) (Option (List ℕ))
  free_name zero name = pure none
  free_name (suc fuel) name = do
    rv ← in_tfs (lib.tfs_access pid name tfs_f_ok)
    if rv ==ℤ pos 0 then free_name fuel (name ++ codes "A") else pure (some name)

  unfoldable pub make_and_remove : List ℕ → Cmd (Tester D) (Unit {0})
  make_and_remove name = do
    rv ← in_tfs (lib.tfs_mkdir pid name every_access)
    if not (rv ==ℤ pos 0) then serious_error else (do
      rv ← in_tfs (lib.tfs_rmdir pid name)
      if not (rv ==ℤ pos 0) then serious_error else (do
        rv ← in_tfs (lib.tfs_access pid name tfs_f_ok)
        complain_if (not (rv ==ℤ negsuc 0))))

  -- `test_rmdir`, and whether it has ended.
  unfoldable pub test_rmdir : ℕ → Cmd (Tester D) Bool
  test_rmdir fuel = do
    found ← free_name fuel (codes "tmpdir")
    elim found [ none ↦ pure false | some name ↦ make_and_remove name >> pure true ]
