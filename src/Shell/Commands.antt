-- ===== src/Shell/Commands.antt =====
-- The tables of commands of the two shells, TFS/EXAMPLES/TFSH/TFS_UTIL.C and RTFSH.C, and the usage
-- line of a command. The reader of command lines, which goes through a table, is there in binary
-- form only; the entries that end a table for it are left out.
use ttm.Prelude.{ℕ, Option, none, some, List, [], ◌∷◌, ◌++◌, codes}

-- The functions of the commands.
pub data Action : Type 0 where
  format mkfs mount sync logon logoff mkdir cd pwd ls download upload rm : Action
  rmdir source ln mv cp du chmod find tar df benchmark offline : Action

-- struct command
pub record Entry : Type 0 where
  pub name : List ℕ
  pub usage : Option (List ℕ)
  pub function : Action

abbrev entry : List ℕ → List ℕ → Action → Entry
entry n u f = record { name = n; usage = some u; function = f }

abbrev bare : List ℕ → Action → Entry
bare n f = record { name = n; usage = none; function = f }

-- usage
unfoldable pub usage_line : Entry → List ℕ
usage_line e = elim e.usage [
  | none ↦ codes "Usage: " ++ (e.name ++ codes "\n")
  | some u ↦ codes "Usage: " ++ (e.name ++ (codes " " ++ (u ++ codes "\n")))
]

-- Command of TFS_UTIL.C
unfoldable pub tfsh_commands : List Entry
tfsh_commands =
    bare (codes "format") format
    ∷ entry (codes "mkfs") (codes "<inodes>") mkfs
    ∷ entry (codes "mount") (codes "[ fsck ]") mount
    ∷ entry (codes "sync") (codes "[ <blocks> ]") sync
    ∷ entry (codes "logon") (codes "<uid> <gid>") logon
    ∷ bare (codes "logoff") logoff
    ∷ entry (codes "mkdir") (codes "<name> <perms>") mkdir
    ∷ entry (codes "cd") (codes "<path>") cd
    ∷ bare (codes "pwd") pwd
    ∷ entry (codes "ls") (codes "[ <path> ... ]") ls
    ∷ entry (codes "download") (codes "<hostfile> <tfs_file>") download
    ∷ entry (codes "upload") (codes "<tfs_file> <hostfile>") upload
    ∷ entry (codes "rm") (codes "[ -r ] [ <path> ... ]") rm
    ∷ entry (codes "rmdir") (codes "[ <path> ... ]") rmdir
    ∷ entry (codes "source") (codes "<command_file>") source
    ∷ entry (codes "ln") (codes "<filename> <linkname>") ln
    ∷ entry (codes "mv") (codes "<oldname> <newname> OR [ <files> ... ] <dir>") mv
    ∷ entry (codes "cp") (codes "[ -r ] <name> <newname> OR [ <files> ... ] <dir>") cp
    ∷ entry (codes "du") (codes "[ -s ] [ <dirs> ... ]") du
    ∷ entry (codes "chmod") (codes " <mode> [ <files> ... ]") chmod
    ∷ entry (codes "find") (codes "[ <files> ... ] [ -type f|d ] -print") find
    ∷ entry (codes "tar") (codes "c|x[v][f] [ <files> ... ]") tar
    ∷ bare (codes "df") df
    ∷ entry (codes "benchmark") (codes "<blocksize> <blocks>") benchmark
    ∷ bare (codes "offline") offline
    ∷ []

-- Command of RTFSH.C
unfoldable pub rtfsh_commands : List Entry
rtfsh_commands =
    entry (codes "sync") (codes "[ <blocks> ]") sync
    ∷ entry (codes "mkdir") (codes "<name> <perms>") mkdir
    ∷ entry (codes "cd") (codes "<path>") cd
    ∷ bare (codes "pwd") pwd
    ∷ entry (codes "ls") (codes "[ <path> ... ]") ls
    ∷ entry (codes "download") (codes "<hostfile> <tfs_file>") download
    ∷ entry (codes "upload") (codes "<tfs_file> <hostfile>") upload
    ∷ entry (codes "rm") (codes "[ -r ] [ <path> ... ]") rm
    ∷ entry (codes "rmdir") (codes "[ <path> ... ]") rmdir
    ∷ entry (codes "source") (codes "<command_file>") source
    ∷ entry (codes "ln") (codes "<filename> <linkname>") ln
    ∷ entry (codes "mv") (codes "<oldname> <newname> OR [ <files> ... ] <dir>") mv
    ∷ entry (codes "cp") (codes "[ -r ] <name> <newname> OR [ <files> ... ] <dir>") cp
    ∷ entry (codes "du") (codes "[ -s ] [ <dirs> ... ]") du
    ∷ entry (codes "chmod") (codes " <mode> [ <files> ... ]") chmod
    ∷ entry (codes "find") (codes "[ <files> ... ] [ -type f|d ] -print") find
    ∷ entry (codes "tar") (codes "c|x[v][f] [ <files> ... ]") tar
    ∷ bare (codes "df") df
    ∷ entry (codes "benchmark") (codes "<blocksize> <blocks>") benchmark
    ∷ []
