-- ===== src/Fulltest/Ending.antt =====
-- How the main program of TFS/EXAMPLES/TFS/FULLTEST.C ends.
use ttm.Prelude.{
  Bool-cases, ◌&&◌, ◌==ℤ◌, ◌≤◌, ℕ, zero, suc, ◌≡◌, refl, ◌⊎◌, inl, inr, Bool, true, false, ℤ, pos,
  negsuc, not,
}
use ttm.Prelude.Run.{Run, ok, exited, Cmd, and_then, pure, ◌>>◌}
use ttm.Tfs.{tfs_write_back, tfs_do_fsck}
use ttm.Tfs.Library.{Library}
use ttm.Fulltest.{Machine, Tester, serious_error}
use ttm.Fulltest.Suite.{
  bandwidth_write, read_orig, bandwidth_read, bandwidth_again, bandwidth_first, test_bandwidth,
  all_tests, logged_on, initialised, main,
}
use ttm.Fulltest.Halting.{
  EndsTrue, Completes, Completes-pure, Completes-then, Completes-bind, Halts, Halts-bind, Halts-if,
  Halts-write_orig, Halts-overwrite_tst, Halts-test_fstat, halt_rules, step_rules,
}
use ttm.Fulltest.Halting.Files.{Halts-tst_seq_write_rand_read, Halts-tst_rand_write_seq_read}
use ttm.Fulltest.Halting.Names.{
  RefusesLong, Halts-test_umask, Halts-test_create, Halts-test_dir, Halts-test_link,
  test_rmdir-Completes,
}

module _ {D : Type 0} (lib : Library D) (machine : Machine D) (pid : ℤ) where
  stop : Halts machine.abort_code (serious_error {D = D} >> pure false)
  stop = search halt_rules

  Halts-bandwidth_write :
      (fd : ℤ) (left : ℕ) → Halts machine.abort_code (bandwidth_write lib machine pid fd left)
  unfolding bandwidth_write
  Halts-bandwidth_write fd zero = search halt_rules
  Halts-bandwidth_write fd (suc left) =
      Halts-bind _ _ (Halts-write_orig lib machine pid fd 0 _)
        (λ rv. Halts-if _ _ _ stop (Halts-bandwidth_write fd left))

  Halts-read_orig : (fd : ℤ) (n : ℕ) → Halts machine.abort_code (read_orig lib machine pid fd n)
  unfolding read_orig
  Halts-read_orig fd n = record { at = λ s. tt }

  Halts-bandwidth_read :
      (fd : ℤ) (left : ℕ) → Halts machine.abort_code (bandwidth_read lib machine pid fd left)
  unfolding bandwidth_read
  Halts-bandwidth_read fd zero = search halt_rules
  Halts-bandwidth_read fd (suc left) =
      Halts-bind _ _ (Halts-read_orig fd _)
        (λ rv. Halts-if _ _ _ stop (Halts-bandwidth_read fd left))

  Halts-bandwidth_again : (fd : ℤ) → Halts machine.abort_code (bandwidth_again lib machine pid fd)
  unfolding bandwidth_again
  Halts-bandwidth_again fd =
      search (step_rules, Halts-bandwidth_write, Halts-bandwidth_read) depth 20

  pub Halts-bandwidth_first :
      (fd : ℤ) → Halts machine.abort_code (bandwidth_first lib machine pid fd)
  unfolding bandwidth_first
  Halts-bandwidth_first fd =
      search (step_rules, Halts-bandwidth_write, Halts-bandwidth_again) depth 20

  Halts-test_bandwidth : Halts machine.abort_code (test_bandwidth lib machine pid)
  unfolding test_bandwidth
  Halts-test_bandwidth = search (step_rules, Halts-bandwidth_first) depth 12

  all_tests-Completes :
      RefusesLong lib pid
      → (fuel : ℕ) → 23 ≤ fuel
      → Completes machine.abort_code (all_tests lib machine pid fuel)
  unfolding all_tests
  all_tests-Completes r fuel l = Completes-then _ _ (Halts-overwrite_tst lib machine pid) (
      Completes-then _ _ (Halts-tst_seq_write_rand_read lib machine pid) (
        Completes-then _ _ (Halts-tst_rand_write_seq_read lib machine pid) (
          Completes-then _ _ (Halts-test_create lib pid) (
            Completes-then _ _ (Halts-test_dir lib pid) (
              Completes-then _ _ (Halts-test_umask lib pid) (
                Completes-then _ _ (Halts-test_link lib pid) (
                  Completes-bind _ _ (test_rmdir-Completes lib pid r fuel l) (
                    Completes-then _ _ (Halts-test_fstat lib machine pid)
                      (Completes-then _ _ (Halts-test_bandwidth) (Completes-pure))))))))))

-- The program has ended: with exit code 0 or the other one if it was set up, and else with -1.
abbrev pub Ended : {S : Type 0} → Bool → ℤ → Run S (Unit {0}) → Type 0
Ended set_up abort (ok a s) = ⊥
Ended true abort (exited code s) = (code ≡ pos 0) ⊎ (code ≡ abort)
Ended false abort (exited code s) = code ≡ negsuc 0

module _ {D : Type 0} (lib : Library D) (machine : Machine D) where
  -- The initialisation, the mount and the logon succeed one after the other.
  abbrev pub comes_up : D → Bool
  comes_up d =
      let i = lib.tfs_init 117 0 2 tfs_write_back d in
      let m = lib.tfs_mount tfs_do_fsck i.1 in
      let l = lib.tfs_logon 4 10 m.1 in
      (i.0 ==ℤ pos 0) && ((m.0 ==ℤ pos 0) && not (l.0 ==ℤ negsuc 0))

  pub and_then-Ended :
      (r : Run (Tester D) Bool) (f : Bool → Cmd (Tester D) (Unit {0}))
      → EndsTrue machine.abort_code r
      → ((s : Tester D) → Ended true machine.abort_code (f true s))
      → Ended true machine.abort_code (and_then r f)
  and_then-Ended (ok a s) f e h = rw e (h s)
  and_then-Ended (exited c s) f e h = inr e

  -- On a file system that refuses names longer than TFS_NAME_MAX, whatever else it does, the test
  -- program ends: with exit code -1 if the file system cannot be initialised, mounted or logged on
  -- to, and else with exit code 0, also when tests have failed, unless an assertion fails. Fuel for
  -- 23 rounds of the search in `test_rmdir` is enough.
  pub main-Ended :
      ((pid : ℤ) → RefusesLong lib pid)
      → (fuel : ℕ) (s : Tester D) → 23 ≤ fuel
      → Ended (comes_up s.tfs) machine.abort_code (main lib machine fuel s)
  unfolding main initialised logged_on
  main-Ended refuses fuel s enough =
      let i = lib.tfs_init 117 0 2 tfs_write_back s.tfs in
      let m = lib.tfs_mount tfs_do_fsck i.1 in
      let l = lib.tfs_logon 4 10 m.1 in
      elim (Bool-cases (i.0 ==ℤ pos 0)) [
        | inr e ↦ rw e refl
        | inl e ↦ rw e (elim (Bool-cases (m.0 ==ℤ pos 0)) [
          | inr f ↦ rw f refl
          | inl f ↦ rw f (elim (Bool-cases (l.0 ==ℤ negsuc 0)) [
            | inl g ↦ rw g refl
            | inr g ↦ rw g (
                and_then-Ended _ _
                  ((all_tests-Completes lib machine l.0 (refuses l.0) fuel enough).at _)
                  (λ t. inl refl))
          ])
        ])
      ]
