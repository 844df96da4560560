-- ===== src/Find.antt =====
-- TFS/EXAMPLES/TFSH/FIND.C: the command that lists the files below some paths. What is printed is
-- kept as a list of lines.
pub mod Arguments
pub mod Listing
pub mod Passed
pub mod Text
pub mod Walk
mod Examples
use Prim.Native.Nat.{bit_and}
use ttm.Prelude.{
  ℕ, zero, suc, ◌+◌, ◌≡◌, Bool, true, false, not, ◌&&◌, ◌||◌, Option, none, some, List, [], ◌∷◌,
  ◌++◌, ℤ, pos, negsuc, ◌==◌, ◌==ℤ◌, if◌then◌else◌, get_or, codes,
}
use ttm.Prelude.Run.{Cmd, pure, call, ◌>>=◌}
use ttm.Tfs.{Dir, tfs_i_dir, tfs_i_reg, tfs_o_rdonly}
use ttm.Tfs.Entry.{dir_size, dir_of_bytes}
use ttm.Tfs.Library.{Library}

-- strcmp( a, b ) == 0
unfoldable pub same_text : List ℕ → List ℕ → Bool
same_text [] [] = true
same_text [] (d ∷ ds) = false
same_text (c ∷ cs) [] = false
same_text (c ∷ cs) (d ∷ ds) = (c == d) && same_text cs ds

-- The variables type_mask and print.
pub record Settings : Type 0 where
  pub type_mask : ℕ
  pub print : Bool

abbrev pub defaults : Settings
defaults = record { type_mask = tfs_i_dir + tfs_i_reg; print = false }

-- A line on the standard output, or a message that names the path. `out_of_fuel` stands where the
-- model stops.
pub data Line : Type 0 where
  found open_failed stat_failed : List ℕ → Line
  out_of_fuel : Line

-- mode & mask
unfoldable pub is_set : ℕ → ℕ → Bool
is_set mode mask = not (bit_and mode mask == 0)

-- strcpy, strcat and strcat. The buffer's size is not looked at.
unfoldable pub entry_path : List ℕ → List ℕ → List ℕ
entry_path dir_path name = dir_path ++ (b'/' ∷ name)

-- The entries that are passed over: free ones, "." and "..".
unfoldable pub is_skipped : Dir → Bool
unfolding same_text
is_skipped e = (e.inode_no == 0) || (same_text e.name (codes ".") || same_text e.name (codes ".."))

-- The line for a path whose mode is known.
unfoldable pub shown : Settings → List ℕ → ℕ → List Line
shown settings path mode =
    if is_set mode settings.type_mask && settings.print then found path ∷ [] else []

module _ {D : Type 0} (lib : Library D) (pid : ℤ) (settings : Settings) where
  -- `find_dir`, with what it does between the opening and the closing.
  unfoldable pub find_dir : (ℤ → Cmd D (List Line)) → List ℕ → Cmd D (List Line)
  find_dir entries dir_path = do
    fd ← call (lib.tfs_open pid dir_path tfs_o_rdonly 0)
    elim (fd ==ℤ negsuc 0) [
      | true ↦ pure (open_failed dir_path ∷ [])
      | false ↦ entries fd >>= λ lines. call (lib.tfs_close pid fd) >>= λ _. pure lines
    ]

  -- `_find` behind its stat.
  unfoldable pub find_node : Cmd D (List Line) → List ℕ → ℕ → Cmd D (List Line)
  find_node below path mode = elim (is_set mode tfs_i_dir) [
    | true ↦ below >>= λ lines. pure (shown settings path mode ++ lines)
    | false ↦ pure (shown settings path mode)
  ]

  -- What the loop does with an entry.
  unfoldable pub find_entry : (List ℕ → Cmd D (List Line)) → List ℕ → Dir → Cmd D (List Line)
  find_entry visit dir_path e = elim (is_skipped e) [
    | true ↦ pure []
    | false ↦ visit (entry_path dir_path e.name)
  ]

  unfoldable mutual
    -- `_find`. The fuel counts the calls and the rounds of the loops under way.
    pub find_path : ℕ → List ℕ → Cmd D (List Line)
    find_path zero path = pure (out_of_fuel ∷ [])
    find_path (suc fuel) path = do
      r ← call (lib.tfs_stat pid path)
      elim (r.0 ==ℤ negsuc 0) [
        | true ↦ pure (stat_failed path ∷ [])
        | false ↦ find_node (find_dir (find_entries fuel path) path) path r.1.st_mode
      ]

    -- The loop of `find_dir`.
    pub find_entries : ℕ → List ℕ → ℤ → Cmd D (List Line)
    find_entries zero dir_path fd = pure (out_of_fuel ∷ [])
    find_entries (suc fuel) dir_path fd = do
      r ← call (lib.tfs_read pid fd dir_size)
      elim (r.0 ==ℤ pos dir_size) [
        | true ↦ find_entry (find_path fuel) dir_path (dir_of_bytes r.1) >>= λ lines.
            find_entries fuel dir_path fd >>= λ rest. pure (lines ++ rest)
        | false ↦ pure []
      ]

-- The first loop of `find`, over the arguments from the second on: `none` is the jump to use_err.
unfoldable pub options : List (List ℕ) → Settings → Option Settings
unfolding same_text
options [] s = some s
options (a ∷ []) s =
    if same_text a (codes "-type")
    then none
    else some (if same_text a (codes "-print") then record s { print = true } else s)
options (a ∷ b ∷ rest) s =
    let printing : Settings =
      if same_text a (codes "-print") then record s { print = true } else s in
    let plain = options (b ∷ rest) printing in
    let files = options (b ∷ rest) (record printing { type_mask = tfs_i_reg }) in
    let dirs = options (b ∷ rest) (record printing { type_mask = tfs_i_dir }) in
    if same_text a (codes "-type")
    then (if get_or b 0 0 == b'f' then files else if get_or b 0 0 == b'd' then dirs else none)
    else plain

-- The second loop: the arguments in front of the first option.
unfoldable pub paths : List (List ℕ) → List (List ℕ)
paths [] = []
paths (a ∷ rest) = let more = paths rest in if get_or a 0 0 == b'-' then [] else a ∷ more

module _ {D : Type 0} (lib : Library D) (pid : ℤ) where
  unfoldable pub find_all : Settings → ℕ → List (List ℕ) → Cmd D (List Line)
  find_all settings fuel [] = pure []
  find_all settings fuel (path ∷ rest) = find_path lib pid settings fuel path >>= λ lines.
      find_all settings fuel rest >>= λ more. pure (lines ++ more)

  unfoldable pub find_with : ℕ → List (List ℕ) → Option Settings → Cmd D (Option (List Line))
  find_with fuel from none = pure none
  find_with fuel from (some settings) = find_all settings fuel from >>= λ lines. pure (some lines)

  -- `find`, over the arguments behind its name; `none` where it prints its usage.
  unfoldable pub find : ℕ → List (List ℕ) → Cmd D (Option (List Line))
  unfolding find_with
  find fuel [] = pure (some [])
  find fuel (first ∷ rest) = find_with fuel (paths (first ∷ rest)) (options rest defaults)
