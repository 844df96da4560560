-- ===== src/Fulltest/Naming/Examples.antt =====
-- The tests of names, links and permissions of TFS/EXAMPLES/TFS/FULLTEST.C on a file system with one
-- directory, with the theorems at concrete inputs.
use ttm.Prelude.{
  false, ◌&&◌, ltb, is_some, ap, Bool-cases, inl, inr, ℕ, ◌≡◌, ◌≤◌, ◌<◌, refl, arith, List, [],
  none, some, true, pos, codes, length,
}
use ttm.Prelude.Run.{ok}
use ttm.Find.{same_text}
use ttm.Tfs.{tfs_name_max}
use ttm.Fulltest.{Tester}
use ttm.Fulltest.Tree.{has_no_slash}
use ttm.Fulltest.Directory.{file_name}
use ttm.Fulltest.Names.{free_name}
use ttm.Fulltest.Umask.{umask_file}
use ttm.Fulltest.Links.{free_name_ends}
use ttm.Fulltest.Naming.{names_tests, names_tests-pass}
use ttm.Fulltest.Naming.Disk.{Disk, library, tree, library-IsTree}

abbrev start : Tester Disk
start = record {
  serious_errs = 0;
  minor_errs = 0;
  buf_orig = [];
  buf_cmp = [];
  tfs = record { files = λ p. none; low_mask = 18; count = 3 };
}

none_there : (p : List ℕ) → same_text p (codes ".") ≡ false → (tree start.tfs).entry p ≡ none
none_there p e = elim (Bool-cases (has_no_slash p && ltb tfs_name_max (length p))) [
  | inl f ↦ rw (e, f) refl
  | inr f ↦ rw (e, f) refl
]

free_name_ends_example :
    (found : List ℕ) × (d : Disk) × (((fuel : ℕ)
        → 23 ≤ fuel
        → free_name library (pos 1) fuel (codes "tmpdir") start
          ≡ ok (some found) (record start { tfs = d }))
      × (((tree d).entry found ≡ none) × (length found < 256)))
free_name_ends_example = free_name_ends library (pos 1) 4 tree library-IsTree start

names_tests-pass_example :
    (d : Disk) × ((fuel : ℕ)
      → 0 < fuel
      → names_tests library (pos 1) fuel start ≡ ok true (record start { tfs = d }))
unfolding same_text
names_tests-pass_example =
    names_tests-pass library (pos 1) 4 tree library-IsTree start refl (omega arith)
      (λ j l k. ap is_some (none_there (file_name j) refl)) (none_there umask_file refl)
      (none_there (codes "link.test") refl) (none_there (codes "link2.test") refl)
      (none_there (codes "tmpdir") refl)
