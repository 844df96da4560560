-- ===== src/Mkfs.antt =====
-- TFS/EXAMPLES/TFS/MKFS.C: the program that makes a file system, and the process that prints the
-- messages of the file system, which TFS/EXAMPLES/TFS/FULLTEST.C has too.
use ttm.Prelude.{
  ℕ, suc, ◌<◌, ◌≡◌, refl, arith, not, List, [], ◌∷◌, ◌++◌, ℤ, pos, ◌==ℤ◌, if◌then◌else◌, length,
  get_or, take, overwrite, take-length, zero,
}
use ttm.Prelude.Run.{exited, Cmd}
use ttm.Tfs.{tfs_do_fsck, tfs_write_back}
use ttm.Tfs.Library.{Library}

-- The errors that are printed.
pub data Complaint : Type 0 where
  init_failed mkfs_failed terminate_failed : Complaint

abbrev pub if_failed : ℤ → Complaint → List Complaint
if_failed res complaint = if not (res ==ℤ pos 0) then complaint ∷ [] else []

-- `main`; the state has what was printed, and the file system. EXIT_SUCCESS is 0.
unfoldable pub main : {D : Type 0} → Library D → Cmd (List Complaint × D) (Unit {0})
main lib (printed, d) =
    let i = lib.tfs_init 117 0 2 tfs_write_back d in
    let m = lib.tfs_mkfs 5000 i.1 in
    let t = lib.tfs_terminate tfs_do_fsck m.1 in
    exited (pos 0) (
      printed
          ++ (if_failed i.0 init_failed
              ++ (if_failed m.0 mkfs_failed ++ if_failed t.0 terminate_failed)),
      t.1,
    )

-- `err_mon`, over the messages that come in, each with the length that is announced for it: `memory`
-- is the array str and what lies behind it. The length is not looked at.
unfoldable pub err_mon : List (ℕ × List ℕ) → List ℕ → List ℕ
err_mon [] memory = memory
err_mon ((len, bytes) ∷ rest) memory = err_mon rest (overwrite (take len bytes) memory)

-- sizeof( str )
abbrev pub message_size : ℕ
message_size = 1000

get_or-overwrite :
    (ys xs : List ℕ) (i : ℕ)
    → i < length ys
    → i < length xs
    → get_or (overwrite ys xs) i 0 ≡ get_or ys i 0
get_or-overwrite [] xs i h k = absurd (omega arith)
get_or-overwrite (y ∷ ys) [] i h k = absurd (omega arith)
get_or-overwrite (y ∷ ys) (x ∷ xs) zero h k = refl
get_or-overwrite (y ∷ ys) (x ∷ xs) (suc i) h k =
    get_or-overwrite ys xs i (omega arith) (omega arith)

-- A message of more than 1000 bytes is written over what lies behind the array.
err_mon_overruns :
    (bytes memory : List ℕ)
    → message_size < length bytes
    → message_size < length memory
    → get_or (err_mon ((length bytes, bytes) ∷ []) memory) message_size 0
      ≡ get_or bytes message_size 0
unfolding err_mon
err_mon_overruns bytes memory h k =
    rw (take-length bytes) (get_or-overwrite bytes memory message_size h k)
