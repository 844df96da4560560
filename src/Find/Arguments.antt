-- ===== src/Find/Arguments.antt =====
-- The command line of TFS/EXAMPLES/TFSH/FIND.C, as TFS/MAN/MAN1/TFSH documents it, and what the
-- command prints for it.
use ttm.Prelude.{
  ℕ, ◌+◌, ◌≤◌, ◌≡◌, ◌≢◌, refl, ap, ◌∙◌, Bool, true, false, some, List, [], ◌∷◌, ◌++◌, ℤ, ne→==,
  get_or, length, codes, All,
}
use ttm.Prelude.Run.{ok}
use ttm.Tfs.{tfs_i_dir, tfs_i_reg, tfs_open_max}
use ttm.Tfs.Library.{Library}
use ttm.Find.{Settings, defaults, Line, same_text, options, paths, find_path, find_all, find}
use ttm.Find.Listing.{Node, listing, size, IsTree, Open, IsStore, Shows, Yields, bind-Yields}
use ttm.Find.Passed.{Selects}
use ttm.Find.Walk.{walk}

-- Which files are printed.
pub data Kind : Type 0 where
  any only_files only_directories : Kind

abbrev pub kind_mask : Kind → ℕ
kind_mask any = tfs_i_dir + tfs_i_reg
kind_mask only_files = tfs_i_reg
kind_mask only_directories = tfs_i_dir

abbrev pub kind_arguments : Kind → List (List ℕ)
kind_arguments any = []
kind_arguments only_files = codes "-type" ∷ codes "f" ∷ []
kind_arguments only_directories = codes "-type" ∷ codes "d" ∷ []

abbrev pub print_arguments : Bool → List (List ℕ)
print_arguments true = codes "-print" ∷ []
print_arguments false = []

-- [ -type f|d ] [ -print ]
abbrev pub option_arguments : Kind → Bool → List (List ℕ)
option_arguments k print = kind_arguments k ++ print_arguments print

abbrev pub settings_of : Kind → Bool → Settings
settings_of k print = record { type_mask = kind_mask k; print = print }

-- Whether the options print regular files, and directories.
abbrev pub prints_files : Kind → Bool → Bool
prints_files only_directories print = false
prints_files any print = print
prints_files only_files print = print

abbrev pub prints_directories : Kind → Bool → Bool
prints_directories only_files print = false
prints_directories any print = print
prints_directories only_directories print = print

settings_of-Selects :
    (k : Kind) (print : Bool)
    → Selects (settings_of k print) (prints_files k print) (prints_directories k print)
settings_of-Selects any print = (λ m r. rw r.1.1 refl, λ m r. rw r.1.1 refl)
settings_of-Selects only_files print = (λ m r. rw r.1.0 refl, λ m r. rw r.1.0 refl)
settings_of-Selects only_directories print = (λ m r. rw r.0 refl, λ m r. rw r.0 refl)

-- A path that is not taken for an option.
abbrev pub IsPath : List ℕ → Type 0
IsPath p = get_or p 0 0 ≢ b'-'

same_text-option :
    (p : List ℕ) (c : ℕ) (cs : List ℕ) → get_or p 0 0 ≢ c → same_text p (c ∷ cs) ≡ false
unfolding same_text
same_text-option [] c cs h = refl
same_text-option (x ∷ xs) c cs h = rw (ne→== x c h) refl

options-path :
    (p : List ℕ) (rest : List (List ℕ)) (s : Settings)
    → IsPath p
    → options (p ∷ rest) s ≡ options rest s
unfolding options
options-path p [] s h =
    rw (same_text-option p b'-' (codes "type") h, same_text-option p b'-' (codes "print") h) refl
options-path p (q ∷ rest) s h =
    rw (same_text-option p b'-' (codes "type") h, same_text-option p b'-' (codes "print") h) refl

options-paths :
    (ps tail : List (List ℕ)) (s : Settings)
    → All IsPath ps
    → options (ps ++ tail) s ≡ options tail s
options-paths [] tail s h = refl
options-paths (p ∷ ps) tail s h = options-path p (ps ++ tail) s h.0 ∙ options-paths ps tail s h.1

options-option_arguments :
    (k : Kind) (print : Bool)
    → options (option_arguments k print) defaults ≡ some (settings_of k print)
unfolding options
options-option_arguments any true = refl
options-option_arguments any false = refl
options-option_arguments only_files true = refl
options-option_arguments only_files false = refl
options-option_arguments only_directories true = refl
options-option_arguments only_directories false = refl

paths-option_arguments : (k : Kind) (print : Bool) → paths (option_arguments k print) ≡ []
unfolding paths
paths-option_arguments any true = refl
paths-option_arguments any false = refl
paths-option_arguments only_files print = refl
paths-option_arguments only_directories print = refl

paths-append : (ps tail : List (List ℕ)) → All IsPath ps → paths tail ≡ [] → paths (ps ++ tail) ≡ ps
unfolding paths
paths-append [] tail h e = e
paths-append (p ∷ ps) tail h e =
    rw (ne→== (get_or p 0 0) b'-' h.0) (ap (λ l. p ∷ l) (paths-append ps tail h.1 e))

abbrev pub tree_paths : List (List ℕ × Node) → List (List ℕ)
tree_paths [] = []
tree_paths ((p, n) ∷ ts) = p ∷ tree_paths ts

-- The listings of some trees, one behind the other.
abbrev pub listings : Bool → Bool → ℕ → List (List ℕ × Node) → List Line
listings fs ds room [] = []
listings fs ds room ((p, n) ∷ ts) = listing fs ds room p n ++ listings fs ds room ts

module _ {D : Type 0} (lib : Library D) (pid : ℤ) (files : D → Open) where
  -- Trees that the file system holds at their paths, with enough fuel for each.
  abbrev pub AreShown : ℕ → List (List ℕ × Node) → Type 0
  AreShown fuel [] = Unit {0}
  AreShown fuel ((p, n) ∷ ts) =
      (IsPath p × (IsTree n × (Shows lib pid files p n × (size n ≤ fuel)))) × AreShown fuel ts

  module _ (store : IsStore lib pid files) where
    find_all-listings :
        (s : Settings) (fs ds : Bool) (fuel : ℕ) (ts : List (List ℕ × Node)) (d : D)
        → Selects s fs ds
        → AreShown fuel ts
        → (room : ℕ) → room + length (files d) ≡ tfs_open_max
        → Yields lib pid files
            (listings fs ds room ts)
            (files d)
            (find_all lib pid s fuel (tree_paths ts) d)
    unfolding find_all
    find_all-listings s fs ds fuel [] d sel h room m = record {
      after = d;
      result = refl;
      open_files = refl;
    }
    find_all-listings s fs ds fuel ((p, n) ∷ ts) d sel h room m =
        let ((k, (t, (i, z))), more) = h in
        bind-Yields lib pid files (find_path lib pid s fuel p d) _
          (walk lib pid files s store fs ds sel room fuel p n d t i z m)
          (λ u f.
            bind-Yields lib pid files (find_all lib pid s fuel (tree_paths ts) u) _
              (rw f at (find_all-listings s fs ds fuel ts u sel more room (rw f m)))
              (λ v g. record { after = v; result = refl; open_files = g }))

    trees_are_paths :
        (fuel : ℕ) (ts : List (List ℕ × Node)) → AreShown fuel ts → All IsPath (tree_paths ts)
    trees_are_paths fuel [] h = tt
    trees_are_paths fuel ((p, n) ∷ ts) h = (h.0.0, trees_are_paths fuel ts h.1)

    -- On a file system that holds a tree of files at each of the paths, `find` with the paths and
    -- the documented options prints the listing of each tree in turn, and ends with the same files
    -- open as before. A listing has the path itself and then, for a directory, what is below it in
    -- the order of the entries, free ones, "." and ".." left out: regular files unless the type d
    -- was asked for, directories unless the type f was, nothing with no -print, and a message in
    -- place of the contents of a directory for which no file descriptor is left. The fuel is
    -- enough if it is no less than the size of each tree.
    pub find-listings :
        (k : Kind) (print : Bool) (fuel : ℕ) (p : List ℕ) (n : Node) (ts : List (List ℕ × Node))
        (room : ℕ) (d : D)
        → AreShown fuel ((p, n) ∷ ts)
        → room + length (files d) ≡ tfs_open_max
        → (d' : D) × ((find lib pid fuel (tree_paths ((p, n) ∷ ts) ++ option_arguments k print) d
              ≡ ok
                  (some (
                    listings
                      (prints_files k print)
                      (prints_directories k print)
                      room
                      ((p, n) ∷ ts)))
                  d')
            × (files d' ≡ files d))
    unfolding find
    find-listings k print fuel p n ts room d h m =
        let y =
          find_all-listings (settings_of k print) (prints_files k print)
            (prints_directories k print) fuel ((p, n) ∷ ts) d (settings_of-Selects k print) h room
            m in
        let ps = trees_are_paths fuel ((p, n) ∷ ts) h in
        (
          y.after,
          (
            rw
                (options-paths (tree_paths ts) (option_arguments k print) defaults ps.1
                  ∙ options-option_arguments k print)
                (rw
                  (paths-append (p ∷ tree_paths ts) (option_arguments k print) ps
                    (paths-option_arguments k print))
                  (rw y.result refl)),
            y.open_files,
          ),
        )
