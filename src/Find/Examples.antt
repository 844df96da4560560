-- ===== src/Find/Examples.antt =====
-- The command of TFS/EXAMPLES/TFSH/FIND.C on a file system with one directory, with tests and the
-- theorems at concrete inputs.
use ttm.Prelude.{
  inl, inr, ℕ, ◌+◌, false, ◌≡◌, refl, arith, true, some, List, [], ◌∷◌, ◌++◌, ℤ, pos, negsuc, ltb,
  lt→ltb, le→ltb, ◌==◌, if◌then◌else◌, length, codes,
}
use ttm.Prelude.Run.{ok}
use ttm.Tfs.{Dir, Stat, tfs_i_dir, tfs_i_reg, tfs_open_max}
use ttm.Tfs.Entry.{dir_size, dir_to_bytes, dir_of_bytes, IsEntry}
use ttm.Tfs.Library.{Library}
use ttm.Tfs.Dead.{dead, no_stat}
use ttm.Find.{
  options, find_all, paths, find_node, find_dir, find_entry, found, entry_path, shown, is_skipped,
  is_set, find_path, find,
}
use ttm.Find.Listing.{
  Node, regular, directory, stop, passed, child, size, IsTree, Open, Opens, IsStore, Shows,
}
use ttm.Find.Arguments.{only_files, option_arguments, tree_paths, listings, AreShown, find-listings}

abbrev dot : Dir
dot = record { inode_no = 2; name = codes "." }

abbrev note : Dir
note = record { inode_no = 7; name = codes "note" }

dot-IsEntry : IsEntry dot
dot-IsEntry = record { inode = omega arith; room = omega arith; text = omega arith }

note-IsEntry : IsEntry note
note-IsEntry = record { inode = omega arith; room = omega arith; text = omega arith }

abbrev tree : Node
tree = directory (tfs_i_dir + 493) (passed dot (child note (regular (tfs_i_reg + 420)) stop))

abbrev contents : List Dir
contents = dot ∷ note ∷ []

-- The library on the list of the open directories.
abbrev stat_of : List ℕ → Stat
stat_of path =
    if length path == 2
    then record no_stat { st_mode = tfs_i_dir + 493 }
    else record no_stat { st_mode = tfs_i_reg + 420 }

abbrev read_last : Open → (ℤ × List ℕ) × Open
read_last [] = ((negsuc 0, []), [])
read_last ((fd, []) ∷ rest) = ((pos 0, []), (fd, []) ∷ rest)
read_last ((fd, e ∷ es) ∷ rest) = ((pos dir_size, dir_to_bytes e), (fd, es) ∷ rest)

abbrev close_last : Open → Open
close_last [] = []
close_last (_ ∷ rest) = rest

abbrev opened : Open → ℤ × Open
opened d =
    if ltb (length d) tfs_open_max
    then (pos (length d), (pos (length d), contents) ∷ d)
    else (negsuc 0, d)

abbrev library : Library Open
library = record dead {
  tfs_stat = λ p n d. ((pos 0, stat_of n), d);
  tfs_open = λ p n m c d. opened d;
  tfs_read = λ p f n d. read_last d;
  tfs_close = λ p f d. (pos 0, close_last d);
}

abbrev files : Open → Open
files d = d

abbrev pid : ℤ
pid = pos 1

library-IsStore : IsStore library pid files
library-IsStore = record {
  reads = λ d fd e es rest h. rw h (refl, (refl, refl));
  ends = λ d fd rest h. rw h (refl, refl);
  closes = λ d fd es rest h. rw h refl;
}

library-Opens : (path : List ℕ) → Opens library pid files path contents
library-Opens path d = (
  (λ h. (length d, rw (lt→ltb (length d) tfs_open_max h) (refl, refl))),
  (λ h. rw (le→ltb (length d) tfs_open_max h) (refl, refl)),
)

tree-IsTree : IsTree tree
unfolding IsTree is_set
tree-IsTree = (
  (refl, (refl, refl)),
  (
    (dot-IsEntry, inr (inl refl)),
    ((note-IsEntry, (omega arith, ((λ h. cc), (λ h. cc)))), ((refl, (refl, refl)), tt)),
  ),
)

tree-Shows : Shows library pid files (codes "/a") tree
unfolding Shows
tree-Shows =
    (((λ d. (refl, (refl, refl))), library-Opens (codes "/a")), ((λ d. (refl, (refl, refl))), tt))

abbrev trees : List (List ℕ × Node)
trees = (codes "/a", tree) ∷ []

trees-AreShown : AreShown library pid files 9 trees
unfolding size
trees-AreShown = (((omega arith), (tree-IsTree, (tree-Shows, omega arith))), tt)

find_test :
    find library pid 9 (codes "/a" ∷ option_arguments only_files true) []
    ≡ ok (some (found (codes "/a/note") ∷ [])) []
unfolding find find_path options find_all paths find_node is_set find_dir find_entry is_skipped
    dir_of_bytes dir_to_bytes entry_path shown
find_test = refl

find-listings_example :
    (d' : Open) × ((find library pid 9 (tree_paths trees ++ option_arguments only_files true) []
        ≡ ok (some (listings true false 16 trees)) d')
      × (d' ≡ []))
find-listings_example =
    find-listings library pid files library-IsStore only_files true 9 (codes "/a") tree [] 16 []
      trees-AreShown refl
