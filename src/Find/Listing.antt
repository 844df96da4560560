-- ===== src/Find/Listing.antt =====
-- What TFS/EXAMPLES/TFSH/FIND.C prints for a tree of files, over a file system that holds it.
use ttm.Prelude.{
  true, false, Bool, codes, ◌≢◌, ◌⊎◌, ℕ, zero, suc, ◌+◌, ◌≤◌, ◌<◌, ◌≡◌, ap, ◌∙◌, true, false, List,
  [], ◌∷◌, ◌++◌, ℤ, pos, negsuc, length,
}
use ttm.Prelude.Run.{Run, ok, Cmd, and_then}
use ttm.Tfs.{Dir, tfs_i_reg, tfs_i_dir, tfs_o_rdonly, tfs_open_max}
use ttm.Tfs.Entry.{dir_size, dir_to_bytes, IsEntry}
use ttm.Tfs.Library.{Library}
use ttm.Find.{Line, found, open_failed, is_set}

-- A file of some mode, or a directory with its entries in their order. The entries that the command
-- passes over are among them.
mutual
  pub data Node : Type 0 where
    regular : ℕ → Node
    directory : ℕ → Entries → Node

  pub data Entries : Type 0 where
    stop : Entries
    passed : Dir → Entries → Entries
    child : Dir → Node → Entries → Entries

abbrev pub entry_dirs : Entries → List Dir
entry_dirs stop = []
entry_dirs (passed e es) = e ∷ entry_dirs es
entry_dirs (child e n es) = e ∷ entry_dirs es

-- The line of a path that is to be printed.
unfoldable pub line : Bool → List ℕ → List Line
line true path = found path ∷ []
line false path = []

-- The lines in their order, where regular files and directories are to be printed or not, and
-- `room` more directories can be open at once.
unfoldable mutual
  pub listing : Bool → Bool → ℕ → List ℕ → Node → List Line
  listing fs ds room path (regular mode) = line fs path
  listing fs ds zero path (directory mode es) = line ds path ++ (open_failed path ∷ [])
  listing fs ds (suc room) path (directory mode es) =
      line ds path ++ listing_entries fs ds room path es

  pub listing_entries : Bool → Bool → ℕ → List ℕ → Entries → List Line
  listing_entries fs ds room path stop = []
  listing_entries fs ds room path (passed e es) = listing_entries fs ds room path es
  listing_entries fs ds room path (child e n es) =
      listing fs ds room (path ++ (b'/' ∷ e.name)) n ++ listing_entries fs ds room path es

-- Enough fuel.
unfoldable mutual
  pub size : Node → ℕ
  size (regular mode) = 1
  size (directory mode es) = suc (size_entries es)

  pub size_entries : Entries → ℕ
  size_entries stop = 1
  size_entries (passed e es) = suc (size_entries es)
  size_entries (child e n es) = suc (size n + size_entries es)

-- The type in a mode is one of the two.
abbrev pub IsRegular : ℕ → Type 0
IsRegular mode =
    (is_set mode tfs_i_dir ≡ false)
    × ((is_set mode tfs_i_reg ≡ true) × (is_set mode (tfs_i_dir + tfs_i_reg) ≡ true))

abbrev pub IsDirectory : ℕ → Type 0
IsDirectory mode =
    (is_set mode tfs_i_dir ≡ true)
    × ((is_set mode tfs_i_reg ≡ false) × (is_set mode (tfs_i_dir + tfs_i_reg) ≡ true))

-- A free entry, or the directory itself or the one above.
abbrev pub IsPassed : Dir → Type 0
IsPassed e = (e.inode_no ≡ 0) ⊎ ((e.name ≡ codes ".") ⊎ (e.name ≡ codes ".."))

abbrev pub IsChild : Dir → Type 0
IsChild e = (e.inode_no ≢ 0) × ((e.name ≢ codes ".") × (e.name ≢ codes ".."))

-- The modes are those of the files, and the entries are marked rightly.
unfoldable mutual
  pub IsTree : Node → Type 0
  IsTree (regular mode) = IsRegular mode
  IsTree (directory mode es) = IsDirectory mode × AreEntries es

  pub AreEntries : Entries → Type 0
  AreEntries stop = Unit
  AreEntries (passed e es) = (IsEntry e × IsPassed e) × AreEntries es
  AreEntries (child e n es) = (IsEntry e × IsChild e) × (IsTree n × AreEntries es)

-- The open directories with the entries that are left to read, the one that was opened last first.
abbrev pub Open : Type 0
Open = List (ℤ × List Dir)

module _ {D : Type 0} (lib : Library D) (pid : ℤ) (files : D → Open) where
  abbrev pub Stats : List ℕ → ℕ → Type 0
  Stats path mode =
      (d : D)
      → let r = lib.tfs_stat pid path d in
        (r.0.0 ≡ pos 0) × ((r.0.1.st_mode ≡ mode) × (files r.1 ≡ files d))

  -- A directory can be opened as long as fewer than TFS_OPEN_MAX files are open.
  abbrev pub Opens : List ℕ → List Dir → Type 0
  Opens path es =
      (d : D)
      → let r = lib.tfs_open pid path tfs_o_rdonly 0 d in
        (length (files d) < tfs_open_max
          → (n : ℕ) × ((r.0 ≡ pos n) × (files r.1 ≡ (pos n, es) ∷ files d)))
        × (tfs_open_max ≤ length (files d) → (r.0 ≡ negsuc 0) × (files r.1 ≡ files d))

  -- Reading and closing the directory that was opened last.
  pub record IsStore : Type 0 where
    pub reads :
        (d : D) (fd : ℤ) (e : Dir) (es : List Dir) (rest : Open)
        → files d ≡ (fd, e ∷ es) ∷ rest
        → let r = lib.tfs_read pid fd dir_size d in
          (r.0.0 ≡ pos dir_size) × ((r.0.1 ≡ dir_to_bytes e) × (files r.1 ≡ (fd, es) ∷ rest))
    pub ends :
        (d : D) (fd : ℤ) (rest : Open)
        → files d ≡ (fd, []) ∷ rest
        → let r = lib.tfs_read pid fd dir_size d in (r.0.0 ≡ pos 0) × (files r.1 ≡ (fd, []) ∷ rest)
    pub closes :
        (d : D) (fd : ℤ) (es : List Dir) (rest : Open)
        → files d ≡ (fd, es) ∷ rest
        → files (lib.tfs_close pid fd d).1 ≡ rest

  -- The file system holds the tree at the path.
  unfoldable mutual
    pub Shows : List ℕ → Node → Type 0
    Shows path (regular mode) = Stats path mode
    Shows path (directory mode es) =
        (Stats path mode × Opens path (entry_dirs es)) × ShowsEntries path es

    pub ShowsEntries : List ℕ → Entries → Type 0
    ShowsEntries path stop = Unit
    ShowsEntries path (passed e es) = ShowsEntries path es
    ShowsEntries path (child e n es) = Shows (path ++ (b'/' ∷ e.name)) n × ShowsEntries path es

  -- A run gives the lines and leaves these files open.
  pub record Yields (lines : List Line) (left : Open) (r : Run D (List Line)) : Type 0 where
    pub after : D
    pub result : r ≡ ok lines after
    pub open_files : files after ≡ left

  pub bind-Yields :
      {lines lines' : List Line} {left left' : Open} (r : Run D (List Line))
      (f : List Line → Cmd D (List Line))
      → Yields lines left r
      → ((d : D) → files d ≡ left → Yields lines' left' (f lines d))
      → Yields lines' left' (and_then r f)
  bind-Yields {lines} r f y h =
      let z = h y.after y.open_files in
      record {
        after = z.after;
        result = ap (λ t. and_then t f) y.result ∙ z.result;
        open_files = z.open_files;
      }
