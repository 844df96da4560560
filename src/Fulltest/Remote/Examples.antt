-- ===== src/Fulltest/Remote/Examples.antt =====
-- The remote and the local test program on a file system in which the process calls succeed, with
-- the theorems at concrete inputs.
use ttm.Prelude.{
  ◌==◌, if◌then◌else◌, ℕ, ◌+◌, ◌≤◌, ◌<◌, ◌≡◌, refl, arith, true, [], pos, negsuc, length, word_mod,
  ◌%◌,
}
use ttm.Prelude.Run.{ok}
use ttm.Tfs.Library.{Library}
use ttm.Tfs.Dead.{dead, no_stat}
use ttm.Fulltest.{Machine, Tester}
use ttm.Fulltest.Suite
use ttm.Fulltest.Ending.{Ended, main-Ended}
use ttm.Fulltest.Remote.{Gaps, home, home_size, remote_test_fstat}
use ttm.Fulltest.Remote
use ttm.Fulltest.Remote.Ending.{remote_main-Ended, home_overflows}
use ttm.Fulltest.Remote.Memory.{IsStat, remote_test_fstat_counts}

abbrev library : Library ℕ
library = record dead {
  tfs_init = λ i s l c d. (pos 0, d);
  tfs_mount = λ f d. (pos 0, d);
  tfs_logon = λ u g d. (pos 5, d);
  tfs_connect = λ u g a d. (pos 5, d);
  tfs_mkdir = λ p n m d. (pos 0, d + 1);
  tfs_chdir = λ p n d. (if d == 0 then negsuc 0 else pos 0, d);
  tfs_open = λ p n m c d. (pos 3, d);
  tfs_stat = λ p n d. ((pos 0, no_stat), d);
  tfs_fstat = λ p f d. ((pos 0, no_stat), d);
}

abbrev machine : Machine ℕ
machine = record { rand = λ d. (1234567, d); abort_code = pos 1 }

abbrev start : Tester ℕ
start = record { serious_errs = 0; minor_errs = 0; buf_orig = []; buf_cmp = []; tfs = 0 }

abbrev clean : Gaps
clean = record { behind_mode = 0; before_size = 0 }

abbrev dirty : Gaps
dirty = record { behind_mode = 1; before_size = 0 }

main-Ended_example : Ended true (pos 1) (Suite.main library machine 23 start)
main-Ended_example = main-Ended library machine (λ pid d p l n. refl) 23 start (omega arith)

remote_main-Ended_example :
    Ended true (pos 1) (Remote.main library machine clean dirty 23 (pos 2) start)
remote_main-Ended_example =
    remote_main-Ended library machine clean dirty (λ pid d p l n. refl) 23 (pos 2) start
      (omega arith)

home_overflows_example :
    (1000000000 ≤ 1999999999 + 1 → home_size ≤ length (home (negsuc 1999999999)))
    × ((1000000000 ≤ 1999999999 + 1 → ⊥) → length (home (negsuc 1999999999)) < home_size)
home_overflows_example = home_overflows (negsuc 1999999999) (omega arith)

no_stat-IsStat :
    (gaps : Gaps) → gaps.behind_mode < 65536 → gaps.before_size < 65536 → IsStat no_stat gaps
no_stat-IsStat gaps g h = record {
  mode = omega arith;
  nlink = omega arith;
  uid = omega arith;
  gid = omega arith;
  gap = g;
  last_gap = h;
  ino = omega arith;
  dev = omega arith;
  size = omega arith;
  mtime = omega arith;
}

remote_test_fstat_counts_example :
    (t : Tester ℕ) × ((remote_test_fstat library machine (pos 5) clean dirty start ≡ ok tt t)
      × ((t.minor_errs ≡ 0)
          × ((((no_stat ≡ no_stat) × (clean ≡ dirty)) → t.serious_errs ≡ 0)
              × ((((no_stat ≡ no_stat) × (clean ≡ dirty)) → ⊥)
                  → t.serious_errs ≡ (0 + 1) % word_mod))))
remote_test_fstat_counts_example =
    remote_test_fstat_counts library machine (pos 5) start clean dirty refl refl refl
      (no_stat-IsStat clean (omega arith) (omega arith))
      (no_stat-IsStat dirty (omega arith) (omega arith))
