-- ===== src/Fulltest/Naming.antt =====
-- The tests of names, links and permissions of TFS/EXAMPLES/TFS/FULLTEST.C one after the other, as
-- its `main` has them.
pub mod Disk
mod Examples
use ttm.Prelude.{
  ◌≡◌, ◌≢◌, ◌⊎◌, inl, inr, refl, ap, sym, ◌∙◌, arith, ◌+◌, ◌≤◌, ◌<◌, ℕ, zero, suc, ℤ, pos, Bool,
  true, false, Option, none, some, List, codes, length, is_some, get_or,
}
use ttm.Prelude.Run.{ok, Cmd, and_then, ◌>>=◌, ◌>>◌}
use ttm.Tfs.Library.{Library}
use ttm.Fulltest.{Tester}
use ttm.Fulltest.Names.{test_dir, test_umask, test_link, test_rmdir}
use ttm.Fulltest.Tree.{Tree, Others, IsTree, IsFree, is_name}
use ttm.Fulltest.Umask.{umask_file, test_umask-passes}
use ttm.Fulltest.Links.{is_some-none, test_link-passes, test_rmdir-passes}
use ttm.Fulltest.Directory.{NoFiles, IsNumbered, test_dir-passes}

module _ {D : Type 0} (lib : Library D) (pid : ℤ) where
  -- The four tests that follow `test_create`.
  abbrev pub names_tests : ℕ → Cmd (Tester D) Bool
  names_tests fuel = do
    test_dir lib pid
    test_umask lib pid
    test_link lib pid
    test_rmdir lib pid fuel

abbrev pub Absent : List ℕ → Tree → Type 0
Absent p t = t.entry p ≡ none

Others-Absent :
    {Changed : List ℕ → Type 0} {t t' : Tree} (p : List ℕ)
    → is_name p ≡ true
    → (Changed p → ⊥)
    → Others Changed t t'
    → Absent p t
    → Absent p t'
Others-Absent p n f o h = is_some-none _ (o.same p n f ∙ ap is_some h)

not_numbered : (p : List ℕ) → get_or p 0 0 ≢ b'f' → IsNumbered p → ⊥
not_numbered p n (i, (h, e)) = n (ap (λ q. get_or q 0 0) e)

not_equal : (p q : List ℕ) → length p ≢ length q → p ≡ q → ⊥
not_equal p q n e = n (ap length e)

module _ {D : Type 0} (lib : Library D) (pid : ℤ) (user : ℕ) (tree : D → Tree)
    (good : IsTree lib pid user tree) where
  -- On a file system that does what its manual says of names, links, permissions and directories,
  -- these tests end one after the other with the counters of the errors as they were, if they begin
  -- in a directory test_dir that has three names, none of them one that the tests make.
  pub names_tests-pass :
      (s : Tester D)
      → let there = lib.tfs_chdir pid (codes "test_dir") s.tfs in
        there.0 ≡ pos 0
        → 3 ≤ (tree there.1).count
        → NoFiles 0 300 (tree there.1)
        → Absent umask_file (tree there.1)
        → Absent (codes "link.test") (tree there.1)
        → Absent (codes "link2.test") (tree there.1)
        → Absent (codes "tmpdir") (tree there.1)
        → (d : D) × ((fuel : ℕ)
            → 0 < fuel
            → names_tests lib pid fuel s ≡ ok true (record s { tfs = d }))
  names_tests-pass s e c n u l l2 t =
      let (d1, (e1, o1)) = test_dir-passes lib pid user tree good s e n c in
      let p = codes "link.test" in
      let q = codes "link2.test" in
      let r = codes "tmpdir" in
      let u1 =
        Others-Absent umask_file refl (not_numbered umask_file (λ x. omega (arith, x))) o1 u in
      let (d2, (e2, o2)) =
        test_umask-passes lib pid user tree good (record s { tfs = d1 }) (rw u1 tt) in
      let u2 =
        λ (p : List ℕ) (m : is_name p ≡ true) (f : get_or p 0 0 ≢ b'f') (k : length p ≢ 15)
            (h : Absent p (tree (lib.tfs_chdir pid (codes "test_dir") s.tfs).1)).
          Others-Absent p m (not_equal p umask_file k) o2
            (Others-Absent p m (not_numbered p f) o1 h) in
      let (d3, (e3, o3)) =
        test_link-passes lib pid user tree good (record s { tfs = d2 })
          (u2 p refl (λ x. omega (arith, x)) (λ x. omega (arith, x)) l)
          (u2 q refl (λ x. omega (arith, x)) (λ x. omega (arith, x)) l2) in
      let r3 =
        Others-Absent r refl
          (λ c. elim c [
            | inl x ↦ not_equal r p (λ y. omega (arith, y)) x
            | inr x ↦ not_equal r q (λ y. omega (arith, y)) x
          ])
          o3 (u2 r refl (λ x. omega (arith, x)) (λ x. omega (arith, x)) t) in
      let (d4, e4) =
        test_rmdir-passes lib pid user tree good (record s { tfs = d3 }) zero (omega arith) r3 in
      (d4, λ fuel m. rw (e1, e2, e3) (e4 fuel m))
