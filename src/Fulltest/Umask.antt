-- ===== src/Fulltest/Umask.antt =====
-- `test_umask` of TFS/EXAMPLES/TFS/FULLTEST.C on a file system that does what its manual says.
use ttm.Prelude.{◌≡◌, refl, ap, arith, ◌-◌, ℕ, ℤ, pos, codes, eq→==, Option, none, some, List}
use ttm.Prelude.Run.{ok}
use ttm.Tfs.{tfs_f_ok, Stat}
use ttm.Tfs.Library.{Library}
use ttm.Fulltest.{Tester, every_access}
use ttm.Fulltest.Names.{access, fresh, umask_masked, umask_changed, umask_set, test_umask}
use ttm.Fulltest.Tree.{
  Tree, Others, Others-entry, Others-tree, Others-then, IsTree, IsFree, IsOwn, truncating,
}

abbrev pub umask_file : List ℕ
umask_file = codes "Umask_test_file"

abbrev pub IsMasked : List ℕ → Type 0
IsMasked q = q ≡ umask_file

module _ {D : Type 0} (lib : Library D) (pid : ℤ) (user : ℕ) (tree : D → Tree)
    (good : IsTree lib pid user tree) where
  -- The name can be taken away, if it is there.
  unlinked :
      (d : D) (e : Option Stat)
      → (tree d).entry umask_file ≡ e
      → IsFree user e
      → let t = tree (lib.tfs_unlink pid umask_file d).1 in
        (t.entry umask_file ≡ none) × Others IsMasked (tree d) t
  unlinked d none h f =
      let (_, same) = good.unlinks_none d umask_file h in (rw same h, Others-tree same)
  unlinked d (some st) h f =
      let (_, (gone, apart)) = good.unlinks d umask_file st refl h f in (gone, apart.others)

  -- The end of the test, with a file of the name and the mask 7.
  umask_masked-passes :
      (s : Tester D) (st : Stat)
      → (tree s.tfs).entry umask_file ≡ some st
      → IsOwn user st
      → (tree s.tfs).mask ≡ 7
      → (d : D) × ((umask_masked lib pid s ≡ ok tt (record s { tfs = d }))
          × Others IsMasked (tree s.tfs) (tree d))
  unfolding umask_masked
  umask_masked-passes s st h own m =
      let p = umask_file in
      let (e1, (gone, apart)) = good.unlinks s.tfs p st refl h own in
      let d1 = (lib.tfs_unlink pid p s.tfs).1 in
      let (e2, same2) = good.misses d1 p gone in
      let d2 = (lib.tfs_access pid p tfs_f_ok d1).1 in
      let (o, (mode, _)) = good.creates d2 p fresh refl truncating (rw same2 gone) in
      let d3 = (lib.tfs_open pid p fresh every_access d2).1 in
      let (e4, (_, same4)) = good.closes d3 (pos o.number) o.open_now in
      let d4 = (lib.tfs_close pid (pos o.number) d3).1 in
      let (e5, same5) = good.stats d4 p o.stat (rw same4 o.found) in
      (
        (lib.tfs_stat pid p d4).1,
        (
          rw (e1, e2, o.descriptor, e4, e5, mode, same2, apart.mask, m) refl,
          Others-then apart.others (
              Others-then (Others-tree same2) (
                Others-then o.apart.others
                  (Others-then (Others-entry (ap (λ t. t.entry) same4)) (Others-tree same5)))),
        ),
      )

  -- What follows the change of the mask to 7.
  umask_changed-passes :
      (s : Tester D) (st : Stat) (old_mask : ℕ)
      → (tree s.tfs).entry umask_file ≡ some st
      → IsOwn user st
      → access st.st_mode ≡ 511 - access old_mask
      → (tree s.tfs).mask ≡ 7
      → (d : D) × ((umask_changed lib pid old_mask s ≡ ok tt (record s { tfs = d }))
          × Others IsMasked (tree s.tfs) (tree d))
  unfolding umask_changed
  umask_changed-passes s st old_mask h own mode m =
      let p = umask_file in
      let (e1, same1) = good.stats s.tfs p st h in
      let d1 = (lib.tfs_stat pid p s.tfs).1 in
      let (e2, (a2, (st2, (h2, (own2, mode2))))) =
        good.chmods d1 p st 448 (omega arith) (rw same1 h) own in
      let d2 = (lib.tfs_chmod pid p 448 d1).1 in
      let (e3, same3) = good.stats d2 p st2 h2 in
      let d3 = (lib.tfs_stat pid p d2).1 in
      let (d, (e, b)) =
        umask_masked-passes (record s { tfs = d3 }) st2 (rw same3 h2) own2
          (rw (same3, a2.mask, same1) m) in
      (
        d,
        (
          rw (e1, eq→== (access st.st_mode) (511 - access old_mask) mode, e2, e3, mode2) e,
          Others-then (Others-tree same1)
              (Others-then a2.others (Others-then (Others-tree same3) b)),
        ),
      )

  -- On a file system that does what its manual says of names, links and permissions, `test_umask`
  -- ends with the counters of the errors as they were, whatever the mask is at first, if the file
  -- of its name is a regular one of the user's or is not there.
  pub test_umask-passes :
      (s : Tester D)
      → IsFree user ((tree s.tfs).entry umask_file)
      → (d : D) × ((test_umask lib pid s ≡ ok tt (record s { tfs = d }))
          × Others IsMasked (tree s.tfs) (tree d))
  unfolding test_umask umask_set
  test_umask-passes s f =
      let p = umask_file in
      let (gone, b1) = unlinked s.tfs _ refl f in
      let d1 = (lib.tfs_unlink pid p s.tfs).1 in
      let (o, (mode, _)) = good.creates d1 p fresh refl truncating gone in
      let d2 = (lib.tfs_open pid p fresh every_access d1).1 in
      let (e3, (_, same3)) = good.closes d2 (pos o.number) o.open_now in
      let d3 = (lib.tfs_close pid (pos o.number) d2).1 in
      let (e4, (n4, same4)) = good.masks d3 7 (omega arith) in
      let d4 = (lib.tfs_umask pid 7 d3).1 in
      let (d, (e, b)) =
        umask_changed-passes (record s { tfs = d4 }) o.stat (tree d1).mask
          (rw (same4, same3) o.found) o.own mode (rw same4 refl) in
      (
        d,
        (
          rw (o.descriptor, e3, n4, e4, same3, o.apart.mask) e,
          Others-then b1 (
              Others-then o.apart.others (
                Others-then (Others-entry {t = tree d2} {t' = tree d3} (ap (λ t. t.entry) same3)) (
                  Others-then (Others-entry {t = tree d3} {t' = tree d4} (ap (λ t. t.entry) same4))
                    b))),
        ),
      )
