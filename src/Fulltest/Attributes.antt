-- ===== src/Fulltest/Attributes.antt =====
-- `test_fstat` of TFS/EXAMPLES/TFS/FULLTEST.C.
use ttm.Prelude.{◌≡◌, refl, false, ◌==ℤ◌, codes, ◌+◌, ℤ, pos, negsuc, eq→==}
use ttm.Prelude.Run.{ok}
use ttm.Tfs.{Stat, tfs_o_rdwr, tfs_o_trunc, tfs_o_creat}
use ttm.Tfs.Library.{Library}
use ttm.Fulltest.{Tester, Machine, every_access, statcmp, compare_stats, test_fstat}

statcmp-zero : (s1 s2 : Stat) → statcmp s1 s2 ≡ pos 0
unfolding statcmp
statcmp-zero s1 s2 =
    rw
      (
        eq→== s1.st_mode s1.st_mode refl,
        eq→== s1.st_ino s1.st_ino refl,
        eq→== s1.st_dev s1.st_dev refl,
        eq→== s1.st_nlink s1.st_nlink refl,
        eq→== s1.st_uid s1.st_uid refl,
        eq→== s1.st_gid s1.st_gid refl,
        eq→== s1.st_size s1.st_size refl,
        eq→== s1.st_mtime s1.st_mtime refl,
      )
      refl

module _ {D : Type 0} (lib : Library D) (machine : Machine D) (pid : ℤ) (s : Tester D) where
  abbrev opened : ℤ × D
  opened =
      lib.tfs_open pid (codes "fstat.test") (tfs_o_rdwr + tfs_o_trunc + tfs_o_creat) every_access
        s.tfs

  abbrev by_name : (ℤ × Stat) × D
  by_name = lib.tfs_stat pid (codes "fstat.test") opened.1

  abbrev by_file : (ℤ × Stat) × D
  by_file = lib.tfs_fstat pid opened.0 by_name.1

  -- If the file is opened and both tfs_stat and tfs_fstat return 0, `test_fstat` ends with the
  -- counters of the errors as they were, whatever the two have put into their structures.
  pub test_fstat-passes :
      (opened.0 ==ℤ negsuc 0) ≡ false
      → by_name.0.0 ≡ pos 0
      → by_file.0.0 ≡ pos 0
      → (t : Tester D) × ((test_fstat lib machine pid s ≡ ok tt t)
          × ((t.serious_errs ≡ s.serious_errs) × (t.minor_errs ≡ s.minor_errs)))
  unfolding test_fstat compare_stats
  test_fstat-passes o n f = (
    record s { tfs = (lib.tfs_close pid opened.0 by_file.1).1 },
    (rw o (rw n (rw f (rw (statcmp-zero by_name.0.1 by_file.0.1) refl))), (refl, refl)),
  )
