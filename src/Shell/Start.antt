-- ===== src/Shell/Start.antt =====
-- The programs: `tfsh`, and `main` of TFS_UTIL.C and of RTFSH.C in TFS/EXAMPLES/TFSH, and the
-- process `listen` that prints the messages of the file system.
use ttm.Prelude.{
  ℕ, Bool, true, false, not, Option, List, [], ◌∷◌, ℤ, pos, negsuc, ◌==ℤ◌, if◌then◌else◌, ltb,
  codes, overwrite, take,
}
use ttm.Prelude.Run.{ok, exited, Cmd, and_then, pure, exit, ◌>>=◌, ◌>>◌}
use ttm.Tfs.{tfs_dont_fsck, tfs_write_back}
use ttm.Tfs.Library.{Library}
use ttm.Find.{same_text}
use ttm.Shell.{
  Session, Rest, not_logged_on, in_tfs, set_pid, set_cwd, u_short, number_or, home_or_root,
  show_cwd,
}

-- The variables of the environment.
pub record Environment : Type 0 where
  pub tfs_uid : Option (List ℕ)
  pub tfs_gid : Option (List ℕ)
  pub tfs_auth : Option (List ℕ)
  pub tfs_home : Option (List ℕ)

-- Whether the first argument is -n.
unfoldable pub stays_off : List (List ℕ) → Bool
unfolding same_text
stays_off [] = false
stays_off (a ∷ _) = same_text a (codes "-n")

module _ {D : Type 0} (lib : Library D) (shell : Rest D) (environment : Environment) where
  -- The arguments as a command, or the commands that are typed in; the result of `tfsh`.
  unfoldable pub commands : List (List ℕ) → Cmd (Session D) ℤ
  commands [] = do shell.interactive; pure (pos 0)
  commands (a ∷ rest) = shell.exec_command_line (a ∷ rest)

  -- tfs_chdir to the home directory.
  unfoldable pub go_home : Cmd (Session D) (Unit {0})
  unfolding show_cwd
  go_home s =
      and_then (in_tfs (lib.tfs_chdir s.pid (home_or_root environment.tfs_home)) s)
        (λ _. show_cwd lib shell)

  -- The logon of `tfsh` once the file system is mounted.
  unfoldable pub log_on : Cmd (Session D) (Unit {0})
  unfolding go_home
  log_on = do
    set_cwd not_logged_on
    p ← in_tfs (
        lib.tfs_logon (u_short (number_or (negsuc 1) environment.tfs_uid))
          (u_short (number_or (negsuc 1) environment.tfs_gid)))
    set_pid p
    if p ==ℤ negsuc 0 then pure tt else go_home

  -- `tfsh` behind its tfs_mount.
  unfoldable pub mounted : List (List ℕ) → ℤ → Cmd (Session D) ℤ
  mounted arguments r = if r ==ℤ pos 0 then log_on >> commands arguments else pure (negsuc 0)

  -- `tfsh`, over the arguments behind the program's name.
  unfoldable pub tfsh : List (List ℕ) → Cmd (Session D) ℤ
  tfsh arguments = elim (stays_off arguments) [
    | true ↦ elim arguments [ [] ↦ commands [] | a ∷ rest ↦ commands rest ]
    | false ↦ in_tfs (lib.tfs_mount tfs_dont_fsck) >>= mounted arguments
  ]

  -- `main` of TFS_UTIL.C; `allocated` says whether ChanAlloc and ProcAlloc succeed.
  unfoldable pub main : Bool → List (List ℕ) → Cmd (Session D) (Unit {0})
  main allocated arguments = if not allocated then exit (pos 1) else (do
    r ← in_tfs (lib.tfs_init 0 0 2 tfs_write_back)
    if not (r ==ℤ pos 0)
        then exit (pos 1)
        else (do _ ← tfsh arguments; _ ← in_tfs (lib.tfs_terminate tfs_dont_fsck); exit (pos 0)))

  -- `main` of RTFSH.C. It goes on when its channels are missing, and only prints a message then.
  unfoldable pub remote_main : List (List ℕ) → Cmd (Session D) (Unit {0})
  unfolding go_home
  remote_main arguments = do
    p ← in_tfs (
        lib.tfs_connect (number_or (negsuc 1) environment.tfs_uid)
          (number_or (negsuc 1) environment.tfs_gid) (number_or (negsuc 0) environment.tfs_auth))
    set_pid p
    if p ==ℤ negsuc 0 then exit (negsuc 0) else (do go_home; _ ← commands arguments; disconnect)
    where
      disconnect : Cmd (Session D) (Unit {0})
      disconnect s = and_then (in_tfs (lib.tfs_disconnect s.pid) s) (λ _. exit (pos 0))

-- sizeof( data ) in `listen`.
abbrev pub data_size : ℕ
data_size = 256

-- `listen`, over the messages that come in, each with its length: `memory` is the array and what
-- lies behind it.
unfoldable pub listen : List (ℤ × List ℕ) → Cmd (List ℕ) (Unit {0})
listen [] memory = ok tt memory
listen ((negsuc n, bytes) ∷ rest) memory = exited (pos 1) memory
listen ((pos n, bytes) ∷ rest) memory =
    if ltb data_size n then exited (pos 1) memory else listen rest (overwrite (take n bytes) memory)
