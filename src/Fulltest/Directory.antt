-- ===== src/Fulltest/Directory.antt =====
-- `test_dir` of TFS/EXAMPLES/TFS/FULLTEST.C on a file system that does what its manual says.
use Prim.Native.Nat.{bit_and}
use ttm.Prelude.{
  ◌≡◌, refl, ap, ◌∙◌, arith, ◌+◌, ◌*◌, ◌≤◌, ◌<◌, ◌++◌, ℕ, zero, suc, ℤ, pos, true, false, List, [],
  ◌∷◌, codes, is_some, drop, le→ltb, lt→ltb, le_or_lt, inl, inr, ◌/◌, ◌%◌, ne→==,
}
use ttm.Prelude.Decimal.{print_int, decimal, length-decimal_most, decimal_injective}
use ttm.Prelude.Run.{ok}
use ttm.Tfs.{tfs_o_rdwr, tfs_o_creat, tfs_i_dir}
use ttm.Tfs.Entry.{dir_size}
use ttm.Tfs.Library.{Library}
use ttm.Fulltest.{Tester, every_access}
use ttm.Fulltest.Names.{make_file, make_files, check_directory, test_dir}
use ttm.Fulltest.Tree.{
  Tree, Others, Others-entry, Others-tree, Others-then, Others-more, IsTree, keeping, is_name,
  has_no_slash,
}
use ttm.Fulltest.Links.{no_slash-append, is_some-none, is_name_if}

abbrev pub file_name : ℕ → List ℕ
file_name i = codes "file." ++ print_int (pos i)

digits_no_slash : (digits n : ℕ) → has_no_slash (decimal digits n) ≡ true
unfolding decimal
digits_no_slash zero n = refl
digits_no_slash (suc digits) n = elim (le_or_lt 10 n) [
  | inl l ↦ rw (le→ltb n 10 l) (
      no_slash-append (decimal digits (n / 10)) ((b'0' + n % 10) ∷ [])
        (digits_no_slash digits (n / 10))
        (rw (ne→== (b'0' + n % 10) b'/' (λ e. omega (arith, e))) refl))
  | inr l ↦ rw (lt→ltb n 10 l, ne→== (b'0' + n) b'/' (λ e. omega (arith, e))) refl
]

file_name-is_name : (i : ℕ) → i < 300 → is_name (file_name i) ≡ true
unfolding print_int
file_name-is_name i h =
    is_name_if (file_name i) (omega arith)
      (omega (arith, length-decimal_most 9 10 i (omega (arith, h)))) (digits_no_slash 10 i)

file_name_injective : (i j : ℕ) → i < 300 → j < 300 → file_name i ≡ file_name j → i ≡ j
unfolding print_int
file_name_injective i j h k e =
    decimal_injective 10 i j (omega (arith, h)) (omega (arith, k)) (ap (drop 5) e)

-- One of the names file.0 to file.299.
abbrev pub IsNumbered : List ℕ → Type 0
IsNumbered q = (i : ℕ) × ((i < 300) × (q ≡ file_name i))

-- None of the files with these numbers is there.
abbrev pub NoFiles : ℕ → ℕ → Tree → Type 0
NoFiles i last t = (j : ℕ) → i ≤ j → j < last → is_some (t.entry (file_name j)) ≡ false

module _ {D : Type 0} (lib : Library D) (pid : ℤ) (user : ℕ) (tree : D → Tree)
    (good : IsTree lib pid user tree) where
  make_files-count :
      (left i : ℕ) (s : Tester D)
      → i + left ≤ 300
      → NoFiles i (i + left) (tree s.tfs)
      → (d : D) × ((make_files lib pid left i s ≡ ok true (record s { tfs = d }))
          × (((tree d).count ≡ (tree s.tfs).count + left)
              × Others IsNumbered (tree s.tfs) (tree d)))
  unfolding make_files make_file
  make_files-count zero i s h n = (s.tfs, (refl, (omega arith, Others-tree refl)))
  make_files-count (suc left) i s h n =
      let p = file_name i in
      let (o, (_, (_, more))) =
        good.creates s.tfs p (tfs_o_rdwr + tfs_o_creat) (file_name-is_name i (omega (arith, h)))
          keeping (is_some-none _ (n i (omega arith) (omega arith))) in
      let d1 = (lib.tfs_open pid p (tfs_o_rdwr + tfs_o_creat) every_access s.tfs).1 in
      let (e2, (_, same2)) = good.closes d1 (pos o.number) o.open_now in
      let d2 = (lib.tfs_close pid (pos o.number) d1).1 in
      let (d, (e, (c, b))) =
        make_files-count left (i + 1) (record s { tfs = d2 }) (omega (arith, h))
          (λ j l k. rw same2 (
            o.apart.others.same (file_name j) (file_name-is_name j (omega (arith, h, k))) (λ e.
              absurd (
                omega
                  (arith, l, file_name_injective j i (omega (arith, h, k)) (omega (arith, h)) e)))
            ∙ n j (omega (arith, l)) (omega (arith, k)))) in
      (
        d,
        (
          rw (o.descriptor, e2) e,
          (
            omega (arith, c, ap (λ t. t.count) same2, more),
            Others-then (Others-more (λ q e. (i, (omega (arith, h), e))) o.apart.others)
                (Others-then (Others-entry (ap (λ t. t.entry) same2)) b),
          ),
        ),
      )

  -- On a file system that does what its manual says of names and directories, `test_dir` ends with the
  -- counters of the errors as they were if it can go into test_dir, and that directory has none of
  -- the files file.0 to file.299 and three names already, which are ".", ".." and a file: then it
  -- has at least the 303 entries that the test asks for.
  pub test_dir-passes :
      (s : Tester D)
      → let there = lib.tfs_chdir pid (codes "test_dir") s.tfs in
        there.0 ≡ pos 0
        → NoFiles 0 300 (tree there.1)
        → 3 ≤ (tree there.1).count
        → (d : D) × ((test_dir lib pid s ≡ ok tt (record s { tfs = d }))
            × Others IsNumbered (tree there.1) (tree d))
  unfolding test_dir check_directory
  test_dir-passes s e n c =
      let d1 = (lib.tfs_chdir pid (codes "test_dir") s.tfs).1 in
      let (d2, (e2, (c2, b2))) = make_files-count 300 0 (record s { tfs = d1 }) (omega arith) n in
      let (st, (found, (mode, size))) = good.sizes d2 in
      let (e3, same3) = good.stats d2 (codes ".") st found in
      (
        (lib.tfs_stat pid (codes ".") d2).1,
        (
          rw
              (
                e,
                e2,
                e3,
                ne→== (bit_and st.st_mode tfs_i_dir) 0 mode,
                le→ltb st.st_size (303 * dir_size) (omega (arith, size, c, c2)),
              )
              refl,
          Others-then b2 (Others-tree same3),
        ),
      )
