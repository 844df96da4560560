-- ===== src/Fulltest/Links.antt =====
-- `test_link` and `test_rmdir` of TFS/EXAMPLES/TFS/FULLTEST.C on a file system that does what its
-- manual says.
use ttm.Prelude.{
  ◌≡◌, ◌⊎◌, inl, inr, refl, ap, ◌∙◌, arith, ◌+◌, ◌≤◌, ◌<◌, ◌++◌, ℕ, zero, suc, ℤ, pos, negsuc, true,
  false, Option, none, some, List, [], ◌∷◌, codes, length, length-append, is_some,
}
use ttm.Prelude.Run.{ok}
use ttm.Tfs.{tfs_f_ok, tfs_name_max}
use ttm.Tfs.Library.{Library}
use ttm.Fulltest.{Tester, every_access}
use ttm.Fulltest.Names.{fresh, link_file, test_link, free_name, make_and_remove, test_rmdir}
use ttm.Fulltest.Tree.{
  Tree, Others, Others-entry, Others-tree, Others-then, Others-more, IsTree, truncating, is_name,
  has_no_slash,
}

pub is_some-none : {A : Type 0} (e : Option A) → is_some e ≡ false → e ≡ none
is_some-none none h = refl
is_some-none (some a) h = cc

entry_cases : {A : Type 0} (e : Option A) → (e ≡ none) ⊎ ((a : A) × (e ≡ some a))
entry_cases none = inl refl
entry_cases (some a) = inr (a, refl)

pub is_name_if :
    (p : List ℕ) → 1 ≤ length p → length p ≤ tfs_name_max → has_no_slash p ≡ true → is_name p ≡ true
is_name_if p h k n = ground arith

-- The name with so many letters A more.
abbrev pub longer : ℕ → List ℕ → List ℕ
longer zero name = name
longer (suc k) name = longer k (name ++ codes "A")

pub no_slash-append :
    (xs ys : List ℕ)
    → has_no_slash xs ≡ true
    → has_no_slash ys ≡ true
    → has_no_slash (xs ++ ys) ≡ true
no_slash-append [] ys h k = k
no_slash-append (x ∷ xs) ys h k = ground (arith, no_slash-append xs ys)

length-longer : (k : ℕ) (name : List ℕ) → length (longer k name) ≡ length name + k
length-longer zero name = omega arith
length-longer (suc k) name =
    omega (arith, length-longer k (name ++ codes "A"), length-append name (codes "A"))

longer_no_slash :
    (k : ℕ) (name : List ℕ) → has_no_slash name ≡ true → has_no_slash (longer k name) ≡ true
longer_no_slash zero name h = h
longer_no_slash (suc k) name h = longer_no_slash k _ (no_slash-append name (codes "A") h refl)

module _ {D : Type 0} (lib : Library D) (pid : ℤ) (user : ℕ) (tree : D → Tree)
    (good : IsTree lib pid user tree) where
  -- On a file system that does what its manual says of names and links, `test_link` ends with the
  -- counters of the errors as they were if neither of its two names is there.
  pub test_link-passes :
      (s : Tester D)
      → (tree s.tfs).entry (codes "link.test") ≡ none
      → (tree s.tfs).entry (codes "link2.test") ≡ none
      → (d : D) × ((test_link lib pid s ≡ ok tt (record s { tfs = d }))
          × Others (λ q. (q ≡ codes "link.test") ⊎ (q ≡ codes "link2.test")) (tree s.tfs) (tree d))
  unfolding test_link link_file
  test_link-passes s h k =
      let p = codes "link.test" in
      let q = codes "link2.test" in
      let (o, (_, (one, _))) = good.creates s.tfs p fresh refl truncating h in
      let d1 = (lib.tfs_open pid p fresh every_access s.tfs).1 in
      let free =
        is_some-none _
          (o.apart.others.same q refl (λ e. absurd (omega (arith, ap length e))) ∙ ap is_some k) in
      let (_, (_, same2)) = good.closes d1 (pos o.number) o.open_now in
      let d2 = (lib.tfs_close pid (pos o.number) d1).1 in
      let (e3, (st, (found, (found2, (own, (two, b3)))))) =
        good.links d2 p q o.stat refl refl (rw same2 o.found) o.own one (rw same2 free) in
      let d3 = (lib.tfs_link pid p q d2).1 in
      let (e4, same4) = good.stats d3 p st found in
      let d4 = (lib.tfs_stat pid p d3).1 in
      let (e5, (_, a5)) = good.unlinks d4 q st refl (rw same4 found2) own in
      (
        (lib.tfs_unlink pid q d4).1,
        (
          rw (o.descriptor, e3, e4, two, e5) refl,
          Others-then (Others-more (λ n e. inl e) o.apart.others) (
              Others-then (Others-entry (ap (λ t. t.entry) same2)) (
                Others-then (Others-more (λ n e. inr e) b3)
                  (Others-then (Others-tree same4) (Others-more (λ n e. inr e) a5.others)))),
        ),
      )

  -- Where the search for a name that is not there ends, whatever the fuel is from some number on.
  record Found (s : Tester D) (name : List ℕ) (rounds : ℕ) : Type 0 where
    found : List ℕ
    after : D
    result :
        (fuel : ℕ)
        → rounds < fuel
        → free_name lib pid fuel name s ≡ ok (some found) (record s { tfs = after })
    absent : (tree after).entry found ≡ none
    no_shorter : length name ≤ length found
    fits : length found ≤ length name + rounds
    no_slash : has_no_slash found ≡ true

  at_none :
      (fuel : ℕ) (name : List ℕ) (s : Tester D)
      → 0 < fuel
      → (lib.tfs_access pid name tfs_f_ok s.tfs).0 ≡ negsuc 0
      → free_name lib pid fuel name s
        ≡ ok (some name) (record s { tfs = (lib.tfs_access pid name tfs_f_ok s.tfs).1 })
  unfolding free_name
  at_none zero name s l r = absurd (omega (arith, l))
  at_none (suc fuel) name s l r = rw r refl

  at_some :
      (fuel k : ℕ) (name : List ℕ) (s : Tester D)
      → suc k < fuel
      → (lib.tfs_access pid name tfs_f_ok s.tfs).0 ≡ pos 0
      → (f : Found
          (record s { tfs = (lib.tfs_access pid name tfs_f_ok s.tfs).1 })
          (name ++ codes "A")
          k)
      → free_name lib pid fuel name s ≡ ok (some f.found) (record s { tfs = f.after })
  unfolding free_name
  at_some zero k name s l r f = absurd (omega (arith, l))
  at_some (suc fuel) k name s l r f = rw r (f.result fuel (omega (arith, l)))

  none-Found :
      (k : ℕ) (name : List ℕ) (s : Tester D)
      → has_no_slash name ≡ true
      → (tree s.tfs).entry name ≡ none
      → Found s name k
  none-Found k name s n e =
      let (r, same) = good.misses s.tfs name e in
      record {
        found = name;
        after = (lib.tfs_access pid name tfs_f_ok s.tfs).1;
        result = λ fuel l. at_none fuel name s (omega (arith, l)) r;
        absent = rw same e;
        no_shorter = omega arith;
        fits = omega arith;
        no_slash = n;
      }

  -- If the name is not there with `k` letters more, the search ends after `k` rounds at most.
  free_name-Found :
      (k : ℕ) (name : List ℕ) (s : Tester D)
      → has_no_slash name ≡ true
      → (tree s.tfs).entry (longer k name) ≡ none
      → Found s name k
  free_name-Found zero name s n h = none-Found zero name s n h
  free_name-Found (suc k) name s n h = elim (entry_cases ((tree s.tfs).entry name)) [
    | inl e ↦ none-Found (suc k) name s n e
    | inr (st, e) ↦
        (let (r, same) = good.finds s.tfs name st e in
          let next = (lib.tfs_access pid name tfs_f_ok s.tfs).1 in
          let rest =
            free_name-Found k (name ++ codes "A") (record s { tfs = next })
              (no_slash-append name (codes "A") n refl) (rw same h) in
          record {
            found = rest.found;
            after = rest.after;
            result = λ fuel l. at_some fuel k name s l r rest;
            absent = rest.absent;
            no_shorter = omega (arith, rest.no_shorter, length-append name (codes "A"));
            fits = omega (arith, rest.fits, length-append name (codes "A"));
            no_slash = rest.no_slash;
          })
  ]

  -- Since no name is longer than TFS_NAME_MAX, the search for a new name in `test_rmdir` ends, with a
  -- name that is not there and that fits the array of 256 bytes; fuel for 23 rounds is enough, and
  -- more makes no difference.
  pub free_name_ends :
      (s : Tester D)
      → (found : List ℕ) × (d : D) × (((fuel : ℕ)
            → 23 ≤ fuel
            → free_name lib pid fuel (codes "tmpdir") s ≡ ok (some found) (record s { tfs = d }))
          × (((tree d).entry found ≡ none) × (length found < 256)))
  free_name_ends s =
      let name = codes "tmpdir" in
      let f = free_name-Found 22 name s refl (
        good.refuses s.tfs (longer 22 name) (omega (arith, length-longer 22 name))
          (longer_no_slash 22 name refl)) in
      (
        f.found,
        f.after,
        (λ fuel l. f.result fuel (omega (arith, l)), (f.absent, omega (arith, f.fits))),
      )

  -- On a file system that does what its manual says of names and directories, `test_rmdir` ends with
  -- the counters of the errors as they were if tmpdir, with up to 21 letters A more, is not there.
  pub test_rmdir-passes :
      (s : Tester D) (k : ℕ)
      → k ≤ 21
      → (tree s.tfs).entry (longer k (codes "tmpdir")) ≡ none
      → (d : D) × ((fuel : ℕ)
          → k < fuel
          → test_rmdir lib pid fuel s ≡ ok true (record s { tfs = d }))
  unfolding test_rmdir make_and_remove
  test_rmdir-passes s k l h =
      let f = free_name-Found k (codes "tmpdir") s refl h in
      let name = f.found in
      let n = is_name_if name (omega (arith, f.no_shorter)) (omega (arith, f.fits, l)) f.no_slash in
      let (e1, (st, (found, empty))) = good.makes f.after name n f.absent in
      let d1 = (lib.tfs_mkdir pid name every_access f.after).1 in
      let (e2, gone) = good.removes d1 name st n found empty in
      let d2 = (lib.tfs_rmdir pid name d1).1 in
      let (e3, _) = good.misses d2 name gone in
      ((lib.tfs_access pid name tfs_f_ok d2).1, λ fuel m. rw (f.result fuel m, e1, e2, e3) refl)
