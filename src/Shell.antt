-- ===== src/Shell.antt =====
-- TFS/EXAMPLES/TFSH/TFS_UTIL.C and RTFSH.C: the shells of the file system, local and remote, with
-- the commands that log on and off and mount. The commands and the reading of command lines that
-- the repository has in binary form only are parameters. Messages are given as data.
pub mod Commands
pub mod Start
pub mod Prompt
pub mod Begin
pub mod Program
mod Examples
use ttm.Prelude.{
  ℕ, suc, ◌+◌, ◌%◌, ◌||◌, Bool, true, false, not, Option, none, some, List, [], ◌∷◌, ℤ, pos, negsuc,
  is_neg, to_word, ◌==ℤ◌, if◌then◌else◌, ltb, codes, overwrite, take,
}
use ttm.Prelude.Run.{Run, ok, exited, Cmd, and_then, pure, exit, ◌>>=◌, ◌>>◌}
use ttm.Tfs.{tfs_do_fsck, tfs_dont_fsck, tfs_write_back}
use ttm.Tfs.Library.{Library}
use ttm.Bench.{atoi}
use ttm.Find.{same_text}

-- The variables pid and cwd, and the state of the file system.
pub record Session (D : Type 0) : Type 0 where
  pub pid : ℤ
  pub cwd : List ℕ
  pub tfs : D

pub data Said : Type 0 where
  usage tfs_error illegal_inodes : Said

-- The functions of the shell that have no source: getcwd, which looks up the current directory of
-- the process and puts it into cwd, tfsh_exec_command_line and tfsh_interactive.
pub record Rest (D : Type 0) : Type 0 where
  pub getcwd : ℤ → D → List ℕ × D
  pub exec_command_line : List (List ℕ) → Cmd (Session D) ℤ
  pub interactive : Cmd (Session D) (Unit {0})

abbrev pub not_mounted : List ℕ
not_mounted = codes "not mounted"

abbrev pub not_logged_on : List ℕ
not_logged_on = codes "not logged on"

-- The variables as the program starts.
abbrev pub initial : {D : Type 0} → D → Session D
initial d = record { pid = negsuc 0; cwd = not_mounted; tfs = d }

-- A call of the file system.
abbrev pub in_tfs : {D A : Type 0} → (D → A × D) → Cmd (Session D) A
in_tfs f s = ok (f s.tfs).0 (record s { tfs = (f s.tfs).1 })

abbrev pub set_pid : {D : Type 0} → ℤ → Cmd (Session D) (Unit {0})
set_pid p s = ok tt (record s { pid = p })

abbrev pub set_cwd : {D : Type 0} → List ℕ → Cmd (Session D) (Unit {0})
set_cwd c s = ok tt (record s { cwd = c })

-- The conversion of an int to u_short.
abbrev pub u_short : ℤ → ℕ
u_short n = to_word n % 65536

-- tfs_perror or the number of the error, if a call did not return 0.
abbrev pub complaint : ℤ → List Said
complaint r = if r ==ℤ pos 0 then [] else tfs_error ∷ []

-- What a variable of the environment says, or a default.
unfoldable pub number_or : ℤ → Option (List ℕ) → ℤ
unfolding atoi
number_or default none = default
number_or default (some text) = atoi text

unfoldable pub home_or_root : Option (List ℕ) → List ℕ
home_or_root none = codes "/"
home_or_root (some path) = path

module _ {D : Type 0} (lib : Library D) (shell : Rest D) where
  unfoldable pub show_cwd : Cmd (Session D) (Unit {0})
  show_cwd s = let r = shell.getcwd s.pid s.tfs in ok tt (record s { cwd = r.0; tfs = r.1 })

  -- The commands, over the arguments behind their names.
  unfoldable pub logon : List (List ℕ) → Cmd (Session D) (List Said)
  unfolding atoi show_cwd
  logon (u ∷ g ∷ []) = do
    p ← in_tfs (lib.tfs_logon (u_short (atoi u)) (u_short (atoi g)))
    set_pid p
    if is_neg p then pure (tfs_error ∷ []) else (do show_cwd; pure [])
  logon _ = pure (usage ∷ [])

  unfoldable pub logoff : Cmd (Session D) (List Said)
  logoff s =
      and_then (in_tfs (lib.tfs_logoff s.pid) s)
        (λ r. do set_pid (negsuc 0); set_cwd not_logged_on; pure (complaint r))

  unfoldable pub offline : Cmd (Session D) (List Said)
  offline = do _ ← in_tfs lib.tfs_offline; exit (pos 0)

  -- The mounting behind the arguments.
  unfoldable pub mount_with : ℤ → Cmd (Session D) (List Said)
  mount_with do_fsck = do
    r ← in_tfs (lib.tfs_mount do_fsck)
    if r ==ℤ pos 0 then (do set_cwd not_logged_on; pure []) else pure (tfs_error ∷ [])

  unfoldable pub mount : List (List ℕ) → Cmd (Session D) (List Said)
  unfolding mount_with same_text
  mount [] = mount_with tfs_dont_fsck
  mount (a ∷ _) = if same_text (codes "fsck") a then mount_with tfs_do_fsck else pure (usage ∷ [])

  unfoldable pub format : Cmd (Session D) (List Said)
  format = do r ← in_tfs lib.tfs_format; pure (complaint r)

  -- mkfs behind the arguments.
  unfoldable pub mkfs_with : ℤ → Cmd (Session D) (List Said)
  mkfs_with (pos (suc n)) = do r ← in_tfs (lib.tfs_mkfs (suc n)); pure (complaint r)
  mkfs_with _ = pure (illegal_inodes ∷ usage ∷ [])

  unfoldable pub mkfs : List (List ℕ) → Cmd (Session D) (List Said)
  unfolding mkfs_with atoi
  mkfs (inodes ∷ []) = mkfs_with (atoi inodes)
  mkfs _ = pure (usage ∷ [])
