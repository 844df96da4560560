-- ===== src/Fulltest/Halting/Names.antt =====
-- How the tests on directories, links and permissions of TFS/EXAMPLES/TFS/FULLTEST.C end.
use ttm.Prelude.{
  Bool-cases, inl, inr, ◌≡◌, ◌≤◌, ◌<◌, refl, arith, length, length-append, some, true, ◌==ℤ◌, ◌&&◌,
  ℕ, zero, suc, ◌+◌, false, List, ◌++◌, ℤ, pos, negsuc, not, ◌==◌, codes,
}
use ttm.Tfs.Library.{Library}
use ttm.Prelude.Run.{Run, ok, exited, pure, and_then}
use ttm.Tfs.{tfs_eexist, tfs_f_ok, tfs_name_max}
use ttm.Fulltest.{Tester, every_access}
use ttm.Fulltest.Names.{
  make_file, create_open, umask_masked, umask_changed, umask_set, test_umask, create_file,
  test_create, make_files, check_directory, test_dir, link_file, test_link, free_name,
  make_and_remove, test_rmdir,
}
use ttm.Fulltest.Tree.{has_no_slash}
use ttm.Fulltest.Links.{no_slash-append}
use ttm.Fulltest.Halting.{
  EndsWith, EndsTrue, Completes, Halts, Halts-pure, Halts-bind, Halts-if, Halts-serious_error,
  halt_rules,
}

removed-EndsTrue :
    {S : Type 0} (code : ℤ) (r : Run S (Unit {0}))
    → EndsWith code r
    → EndsTrue code (and_then r (λ _. pure true))
removed-EndsTrue code (ok u s) e = refl
removed-EndsTrue code (exited c s) e = e

module _ {D : Type 0} (lib : Library D) (pid : ℤ) where
  -- What TFS/MAN/MAN3/ERRNO says under TFS_ENAMETOOLONG: a name that is longer than TFS_NAME_MAX is
  -- refused.
  abbrev pub RefusesLong : Type 0
  RefusesLong =
      (d : D) (p : List ℕ)
      → tfs_name_max < length p
      → has_no_slash p ≡ true
      → (lib.tfs_access pid p tfs_f_ok d).0 ≡ negsuc 0

  -- Once the name with `k` letters more is too long, the search ends within `k` rounds and one.
  free_name_halts :
      RefusesLong
      → (k fuel : ℕ) (name : List ℕ) (s : Tester D) → k < fuel
      → tfs_name_max < length name + k
      → has_no_slash name ≡ true
      → (found : List ℕ) × (t : Tester D) × (free_name lib pid fuel name s ≡ ok (some found) t)
  unfolding free_name
  free_name_halts r k zero name s l n m = absurd (omega arith)
  free_name_halts r zero (suc fuel) name s l n m =
      let a = lib.tfs_access pid name tfs_f_ok s.tfs in
      (name, record s { tfs = a.1 }, rw (r s.tfs name (omega (arith, n)) m) refl)
  free_name_halts r (suc k) (suc fuel) name s l n m =
      let a = lib.tfs_access pid name tfs_f_ok s.tfs in
      elim (Bool-cases (a.0 ==ℤ pos 0)) [
        | inl e ↦
            let (found, t, f) =
              free_name_halts r k fuel (name ++ codes "A") (record s { tfs = a.1 })
                (omega (arith, l)) (omega (arith, n, length-append name (codes "A")))
                (no_slash-append name (codes "A") m refl) in
            (found, t, rw e f)
        | inr e ↦ (name, record s { tfs = a.1 }, rw e refl)
      ]

module _ {D : Type 0} (lib : Library D) (pid : ℤ) {code : ℤ} where
  Halts-umask_masked : Halts code (umask_masked lib pid)
  unfolding umask_masked
  Halts-umask_masked = search halt_rules depth 20

  Halts-umask_changed : (old_mask : ℕ) → Halts code (umask_changed lib pid old_mask)
  unfolding umask_changed
  Halts-umask_changed old_mask = search (halt_rules, Halts-umask_masked) depth 20

  Halts-umask_set : Halts code (umask_set lib pid)
  unfolding umask_set
  Halts-umask_set = record {
    at = λ s.
        let r = lib.tfs_umask pid 7 s.tfs in
        (Halts-if (not (lib.tfs_errno r.1 == 0)) _ _ Halts-serious_error
            (Halts-umask_changed r.0)).at
          (record s { tfs = r.1 });
  }

  pub Halts-test_umask : Halts code (test_umask lib pid)
  unfolding test_umask
  Halts-test_umask = search (halt_rules, Halts-umask_set) depth 12

  Halts-create_file : (fd : ℤ) → Halts code (create_file lib pid fd)
  unfolding create_file
  Halts-create_file fd = search halt_rules depth 20

  Halts-create_open : Halts code (create_open lib pid)
  unfolding create_open
  Halts-create_open = search (halt_rules, Halts-create_file)

  pub Halts-test_create : Halts code (test_create lib pid)
  unfolding test_create
  Halts-test_create = record {
    at = λ s.
        let r = lib.tfs_mkdir pid (codes "test_dir") every_access s.tfs in
        (Halts-if ((r.0 ==ℤ negsuc 0) && not (lib.tfs_errno r.1 == tfs_eexist)) _ _
            Halts-serious_error Halts-create_open).at
          (record s { tfs = r.1 });
  }

  Halts-make_file : (i : ℕ) → Halts code (make_file lib pid i)
  unfolding make_file
  Halts-make_file i = search halt_rules depth 12

  Halts-make_files : (left i : ℕ) → Halts code (make_files lib pid left i)
  unfolding make_files
  Halts-make_files zero i = search halt_rules
  Halts-make_files (suc left) i =
      Halts-bind _ _ (Halts-make_file i)
        (λ goes_on. Halts-if goes_on _ _ (Halts-make_files left (i + 1)) (Halts-pure false))

  Halts-check_directory : Halts code (check_directory lib pid)
  unfolding check_directory
  Halts-check_directory = search halt_rules depth 12

  pub Halts-test_dir : Halts code (test_dir lib pid)
  unfolding test_dir
  Halts-test_dir = search (halt_rules, Halts-make_files, Halts-check_directory) depth 12

  Halts-link_file : Halts code (link_file lib pid)
  unfolding link_file
  Halts-link_file = search halt_rules depth 20

  pub Halts-test_link : Halts code (test_link lib pid)
  unfolding test_link
  Halts-test_link = search (halt_rules, Halts-link_file) depth 12

  Halts-make_and_remove : (name : List ℕ) → Halts code (make_and_remove lib pid name)
  unfolding make_and_remove
  Halts-make_and_remove name = search halt_rules depth 20

  pub test_rmdir-Completes :
      RefusesLong lib pid → (fuel : ℕ) → 23 ≤ fuel → Completes code (test_rmdir lib pid fuel)
  unfolding test_rmdir
  test_rmdir-Completes r fuel l = record {
    at = λ s.
        let (found, t, e) =
          free_name_halts lib pid r 22 fuel (codes "tmpdir") s (omega (arith, l)) (omega arith)
            refl in
        rw e (
          removed-EndsTrue code (make_and_remove lib pid found t)
            ((Halts-make_and_remove found).at t));
  }
