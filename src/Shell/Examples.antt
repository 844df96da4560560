-- ===== src/Shell/Examples.antt =====
-- The shells of TFS/EXAMPLES/TFSH on a file system that mounts and logs on, with tests and the
-- theorems at concrete inputs.
use ttm.Prelude.{
  length, inl, inr, some, ℕ, zero, suc, ◌≡◌, refl, true, false, none, List, [], ◌∷◌, ◌++◌, ℤ, pos,
  negsuc, codes, replicate,
}
use ttm.Prelude.Run.{ok}
use ttm.Tfs.Library.{Library}
use ttm.Tfs.Dead.{dead}
use ttm.Shell.{Session, Rest, not_logged_on, show_cwd, logon, logoff}
use ttm.Shell.Start.{Environment, go_home, log_on, listen}
use ttm.Shell.Prompt.{IsPrompted, IsLogon, by_logon, by_logoff, Reach, start_up, later, Reach-Shows}
use ttm.Shell.Commands.{usage_line, tfsh_commands, rtfsh_commands}
use ttm.Shell.Commands
use ttm.Shell.Program.{Listened, listen-Listened}

-- One process at a time: the state counts the logons that are left.
abbrev logged : ℕ → ℤ × ℕ
logged zero = (negsuc 0, zero)
logged (suc n) = (pos 4, n)

abbrev library : Library ℕ
library = record dead {
  tfs_init = λ i s l c d. (pos 0, d);
  tfs_mount = λ f d. (pos 0, d);
  tfs_logon = λ u g d. logged d;
  tfs_chdir = λ p a d. (pos 0, d);
}

abbrev shell : Rest ℕ
shell = record {
  getcwd = λ p d. (codes "/home", d);
  exec_command_line = λ a s. ok (pos 0) s;
  interactive = λ s. ok tt s;
}

abbrev environment : Environment
environment = record { tfs_uid = none; tfs_gid = none; tfs_auth = none; tfs_home = none }

abbrev command : List (List ℕ)
command = codes "pwd" ∷ []

-- A logon with a process fails: the session is logged off, under the prompt of the process before.
abbrev working : Session ℕ
working = record { pid = pos 4; cwd = codes "/home"; tfs = 0 }

abbrev stale : Session ℕ
stale = record { pid = negsuc 0; cwd = codes "/home"; tfs = 0 }

working-Reach : Reach library shell environment 1 false working
unfolding log_on go_home show_cwd
working-Reach = start_up refl refl

stale-Reach : Reach library shell environment 1 true stale
unfolding logon show_cwd
stale-Reach = later working-Reach (by_logon (codes "4" ∷ codes "5" ∷ []) refl)

stale_test : ¬ IsPrompted stale
stale_test = λ p. elim (p refl) [ inl a ↦ cc | inr a ↦ cc ]

library-IsLogon : IsLogon library
library-IsLogon u g zero h = refl
library-IsLogon u g (suc n) h = absurd (cc)

abbrev logged_off : Session ℕ
logged_off = record { pid = negsuc 0; cwd = not_logged_on; tfs = 0 }

logged_off-Reach : Reach library shell environment 1 false logged_off
unfolding logoff
logged_off-Reach = later stale-Reach (by_logoff refl)

Reach-Shows_example : IsPrompted logged_off
Reach-Shows_example = Reach-Shows library shell environment library-IsLogon 1 logged_off-Reach

abbrev messages : List (ℤ × List ℕ)
messages = (pos 3, codes "ab" ++ (0 ∷ [])) ∷ (pos 257, replicate 257 1) ∷ []

listen-Listened_example :
    Listened false (replicate 256 0 ++ (7 ∷ [])) (listen messages (replicate 256 0 ++ (7 ∷ [])))
listen-Listened_example = listen-Listened messages (replicate 256 0 ++ (7 ∷ []))

usage_test :
    usage_line (record {
      name = codes "logon";
      usage = some (codes "<uid> <gid>");
      function = Commands.logon;
    })
    ≡ codes "Usage: logon <uid> <gid>\n"
unfolding usage_line
usage_test = refl

tables_test : (length tfsh_commands ≡ 25) × (length rtfsh_commands ≡ 19)
unfolding tfsh_commands rtfsh_commands
tables_test = (refl, refl)
