-- ===== src/Fulltest/Examples.antt =====
-- The tests of TFS/EXAMPLES/TFS/FULLTEST.C on a file system with one file, with the theorems at
-- concrete inputs.
use ttm.Prelude.{
  length-replicate, ℕ, ◌+◌, ◌≡◌, refl, List, [], ℤ, pos, length, take, drop, replicate,
}
use ttm.Prelude.Run.{ok}
use ttm.Prelude.{◌==◌, if◌then◌else◌}
use ttm.Tfs.{tfs_o_rdonly}
use ttm.Tfs.Library.{Library}
use ttm.Tfs.Dead.{dead, no_stat}
use ttm.Fulltest.{Machine, Tester, buffer_size, splice, overwrite_tst, test_fstat}
use ttm.Fulltest.Store.{IsStore}
use ttm.Fulltest.Buffers.{padded}
use ttm.Fulltest.Overwrite.{overwrite_tst-passes}
use ttm.Fulltest.Files.{tst_seq_write_rand_read, tst_rand_write_seq_read}
use ttm.Fulltest.RandomWrite.{tst_rand_write_seq_read-passes}
use ttm.Fulltest.Sequential.{tst_seq_write_rand_read-passes}
use ttm.Fulltest.Attributes.{test_fstat-passes}

-- The file and its pointer.
abbrev Disk : Type 0
Disk = List ℕ × ℕ

abbrev library : Library Disk
library = record dead {
  tfs_open = λ p n m c d. (pos 3, (if m == tfs_o_rdonly then d.0 else [], 0));
  tfs_close = λ p f d. (pos 0, d);
  tfs_lseek = λ p f o w d. (pos o, (d.0, o));
  tfs_read = λ p f n d. ((pos n, take n (drop d.1 d.0)), (d.0, d.1 + n));
  tfs_write = λ p f b d. (pos (length b), (splice d.1 b (padded d.1 d.0), d.1 + length b));
  tfs_stat = λ p n d. ((pos 0, no_stat), d);
  tfs_fstat = λ p f d. ((pos 0, record no_stat { st_size = 1 }), d);
}

abbrev machine : Machine Disk
machine = record { rand = λ d. (123456789, d); abort_code = pos 1 }

abbrev contents : ℤ → Disk → List ℕ × ℕ
contents fd d = d

library-IsStore : IsStore library machine (pos 1) contents
library-IsStore = record {
  opens = λ d. (3, (refl, refl));
  reopens = λ d fd bytes from h. rw h (refl, (3, (refl, refl)));
  seeks = λ d fd bytes from to h. rw h (refl, refl);
  writes = λ d fd bytes new from h i. rw h (refl, refl);
  reads = λ d fd bytes from n h i. rw h (refl, (refl, refl));
  rolls = λ d fd. refl;
}

abbrev start : Tester Disk
start = record {
  serious_errs = 0;
  minor_errs = 0;
  buf_orig = [];
  buf_cmp = replicate buffer_size 0;
  tfs = ([], 0);
}

overwrite_tst-passes_example :
    (t : Tester Disk) × ((overwrite_tst library machine (pos 1) start ≡ ok tt t)
      × ((t.serious_errs ≡ 0) × (t.minor_errs ≡ 0)))
overwrite_tst-passes_example =
    overwrite_tst-passes library machine (pos 1) contents library-IsStore start
      (length-replicate buffer_size 0)

tst_seq_write_rand_read-passes_example :
    (t : Tester Disk) × ((tst_seq_write_rand_read library machine (pos 1) start ≡ ok tt t)
      × ((t.serious_errs ≡ 0) × (t.minor_errs ≡ 0)))
tst_seq_write_rand_read-passes_example =
    tst_seq_write_rand_read-passes library machine (pos 1) contents library-IsStore start
      (length-replicate buffer_size 0)

tst_rand_write_seq_read-passes_example :
    (t : Tester Disk) × ((tst_rand_write_seq_read library machine (pos 1) start ≡ ok tt t)
      × ((t.serious_errs ≡ 0) × (t.minor_errs ≡ 0)))
tst_rand_write_seq_read-passes_example =
    tst_rand_write_seq_read-passes library machine (pos 1) contents library-IsStore start
      (length-replicate buffer_size 0)

-- The sizes that the two calls give are different.
test_fstat-passes_example :
    (t : Tester Disk) × ((test_fstat library machine (pos 1) start ≡ ok tt t)
      × ((t.serious_errs ≡ 0) × (t.minor_errs ≡ 0)))
test_fstat-passes_example = test_fstat-passes library machine (pos 1) start refl refl refl
