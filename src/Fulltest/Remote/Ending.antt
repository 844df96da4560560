-- ===== src/Fulltest/Remote/Ending.antt =====
-- How the main program of TFS/EXAMPLES/RTFS/FULLTEST.C ends, and its variable home.
use ttm.Prelude.{
  ℕ, ◌+◌, ◌≤◌, ◌<◌, refl, inl, inr, arith, Bool, true, not, ◌&&◌, ◌||◌, Bool-cases, List, ℤ, pos,
  negsuc, ◌==ℤ◌, length, length-append, codes, ◌∷◌, le_or_lt,
}
use ttm.Prelude.Decimal.{IsInt, print_int, decimal, length-decimal_most, length-decimal_least}
use ttm.Tfs.Library.{Library}
use ttm.Fulltest.{Machine, Tester, every_access}
use ttm.Fulltest.Halting.{
  Completes, Completes-pure, Completes-then, Completes-bind, Halts, Halts-overwrite_tst, step_rules,
}
use ttm.Fulltest.Halting.Files.{Halts-tst_seq_write_rand_read, Halts-tst_rand_write_seq_read}
use ttm.Fulltest.Halting.Names.{
  RefusesLong, Halts-test_umask, Halts-test_create, Halts-test_dir, Halts-test_link,
  test_rmdir-Completes,
}
use ttm.Fulltest.Ending.{Halts-bandwidth_first, Ended, and_then-Ended}
use ttm.Fulltest.Remote.{
  Gaps, home_size, home, enter_home, test_connect, test_disconnect, remote_overwrite_tst,
  remote_tst_seq_write_rand_read, remote_tst_rand_write_seq_read, remote_test_create,
  remote_test_dir, remote_test_umask, remote_test_link, remote_test_rmdir, compare_memory,
  remote_test_fstat, remote_test_bandwidth, remote_tests, connected, main, fatal_error,
}

module _ {D : Type 0} (lib : Library D) (machine : Machine D) (pid : ℤ) (gaps fgaps : Gaps) where
  Halts-compare_memory :
      (fd : ℤ) → Halts machine.abort_code (compare_memory lib machine pid gaps fgaps fd)
  unfolding compare_memory
  Halts-compare_memory fd = search step_rules depth 12

  Halts-remote_test_fstat : Halts machine.abort_code (remote_test_fstat lib machine pid gaps fgaps)
  unfolding remote_test_fstat
  Halts-remote_test_fstat = search (step_rules, Halts-compare_memory)

  Halts-remote_test_bandwidth : Halts machine.abort_code (remote_test_bandwidth lib machine pid)
  unfolding remote_test_bandwidth
  Halts-remote_test_bandwidth = search (step_rules, Halts-bandwidth_first) depth 12

  remote_tests-Completes :
      RefusesLong lib pid
      → (fuel : ℕ) → 23 ≤ fuel
      → Completes machine.abort_code (remote_tests lib machine pid gaps fgaps fuel)
  unfolding remote_tests remote_overwrite_tst remote_tst_seq_write_rand_read
      remote_tst_rand_write_seq_read remote_test_create remote_test_dir remote_test_umask
      remote_test_link remote_test_rmdir
  remote_tests-Completes r fuel l = Completes-then _ _ (Halts-overwrite_tst lib machine pid) (
      Completes-then _ _ (Halts-tst_seq_write_rand_read lib machine pid) (
        Completes-then _ _ (Halts-tst_rand_write_seq_read lib machine pid) (
          Completes-then _ _ (Halts-test_create lib pid) (
            Completes-then _ _ (Halts-test_dir lib pid) (
              Completes-then _ _ (Halts-test_umask lib pid) (
                Completes-then _ _ (Halts-test_link lib pid) (
                  Completes-bind _ _ (test_rmdir-Completes lib pid r fuel l) (
                    Completes-then _ _ (Halts-remote_test_fstat)
                      (Completes-then _ _ (Halts-remote_test_bandwidth) (Completes-pure))))))))))

-- The connection succeeds, and so does the way into the home directory or, where it is not there,
-- its making and the way into it.
abbrev pub gets_in : {D : Type 0} → Library D → List ℕ → D → Bool
gets_in lib path d =
    let p = lib.tfs_connect (pos 7) (pos 12) (pos 0) d in
    let c = lib.tfs_chdir p.0 path p.1 in
    let m = lib.tfs_mkdir p.0 path every_access c.1 in
    let a = lib.tfs_chdir p.0 path m.1 in
    not (p.0 ==ℤ negsuc 0)
    && (not (c.0 ==ℤ negsuc 0) || (not (m.0 ==ℤ negsuc 0) && not (a.0 ==ℤ negsuc 0)))

module _ {D : Type 0} (lib : Library D) (machine : Machine D) (gaps fgaps : Gaps) where
  connected-Ended :
      ((pid : ℤ) → RefusesLong lib pid)
      → (fuel : ℕ) (pid : ℤ) (s : Tester D) → 23 ≤ fuel
      → Ended true machine.abort_code (connected lib machine gaps fgaps fuel pid s)
  unfolding connected test_disconnect
  connected-Ended refuses fuel pid s enough =
      and_then-Ended lib machine _ _
        ((remote_tests-Completes lib machine pid gaps fgaps (refuses pid) fuel enough).at s)
        (λ t. inl refl)

  -- On a file system that refuses names longer than TFS_NAME_MAX, whatever else it does, the remote
  -- test program ends: with exit code -1 if it cannot connect or get into its home directory, and
  -- else with exit code 0, also when tests have failed, unless an assertion fails. Fuel for 23
  -- rounds of the search in `test_rmdir` is enough.
  pub remote_main-Ended :
      ((pid : ℤ) → RefusesLong lib pid)
      → (fuel : ℕ) (user : ℤ) (s : Tester D) → 23 ≤ fuel
      → Ended
          (gets_in lib (home user) s.tfs)
          machine.abort_code
          (main lib machine gaps fgaps fuel user s)
  unfolding main test_connect enter_home fatal_error
  remote_main-Ended refuses fuel user s enough =
      let path = home user in
      let p = lib.tfs_connect (pos 7) (pos 12) (pos 0) s.tfs in
      let c = lib.tfs_chdir p.0 path p.1 in
      let m = lib.tfs_mkdir p.0 path every_access c.1 in
      let a = lib.tfs_chdir p.0 path m.1 in
      elim (Bool-cases (p.0 ==ℤ negsuc 0)) [
        | inl e ↦ rw e refl
        | inr e ↦ rw e (elim (Bool-cases (c.0 ==ℤ negsuc 0)) [
          | inr f ↦ rw f (connected-Ended refuses fuel p.0 _ enough)
          | inl f ↦ rw f (elim (Bool-cases (m.0 ==ℤ negsuc 0)) [
            | inl g ↦ rw g refl
            | inr g ↦ rw g (elim (Bool-cases (a.0 ==ℤ negsuc 0)) [
              | inl h ↦ rw h refl
              | inr h ↦ rw h (connected-Ended refuses fuel p.0 _ enough)
            ])
          ])
        ])
      ]

-- Ten digits behind a minus.
abbrev pub IsLong : ℤ → Type 0
IsLong (pos n) = ⊥
IsLong (negsuc n) = 1000000000 ≤ n + 1

-- What is printed into home, with its end mark, is longer than home exactly when the number of the
-- user is -1000000000 or less.
pub home_overflows :
    (user : ℤ)
    → IsInt user
    → (IsLong user → home_size ≤ length (home user))
      × ((IsLong user → ⊥) → length (home user) < home_size)
unfolding print_int
home_overflows (pos n) h = (
  λ l. absurd l,
  λ l. omega (
    arith,
    length-append (codes "/fulltest") (decimal 10 n),
    length-decimal_most 9 10 n (omega (arith, h)),
  ),
)
home_overflows (negsuc n) h = (
  λ l. omega (
    arith,
    length-append (codes "/fulltest") (b'-' ∷ decimal 10 (n + 1)),
    length-decimal_least 9 10 (n + 1) (omega arith) (omega (arith, l)),
  ),
  λ l. omega (
    arith,
    length-append (codes "/fulltest") (b'-' ∷ decimal 10 (n + 1)),
    length-decimal_most 8 10 (n + 1)
        (elim (le_or_lt 1000000000 (n + 1)) [ inl k ↦ absurd (l k) | inr k ↦ omega (arith, k) ]),
  ),
)
