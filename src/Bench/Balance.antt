-- ===== src/Bench/Balance.antt =====
-- The files and the memory of TFS/EXAMPLES/TFSH/BENCH.C: what is taken is given back on every path.
use ttm.Prelude.{
  ℕ, zero, suc, ◌+◌, arith, Bool, true, false, not, Bool-cases, inl, inr, List, [], ◌∷◌, replicate,
  ℤ, pos, negsuc, is_neg, ◌==ℤ◌, if◌then◌else◌,
}
use ttm.Prelude.Run.{Run, ok, exited, Cmd, and_then}
use ttm.Tfs.{tfs_o_rdonly, tfs_o_wronly, tfs_o_creat}
use ttm.Tfs.Library.{Library}
use ttm.Bench.{
  Machine, Message, file_name, write_blocks, read_blocks, err_exit, err_close, read_file,
  finish_writing, write_file, run_sizes, atoi, benchmark,
}
use ttm.Bench.Ledger.{Ledger, logged_library, logged_machine, Settles, neutral_first}

module _ {D : Type 0} (lib : Library D) (machine : Machine D) (pid : ℤ) where
  abbrev Logged : Type 0
  Logged = D × Ledger

  write_blocks-Settles :
      (times size : ℕ) (fd : ℤ) (s : Logged)
      → Settles 0 0 s.1
          (write_blocks (logged_library lib) (logged_machine machine) pid times size fd s)
  unfolding write_blocks
  write_blocks-Settles zero size fd s = (omega arith, omega arith)
  write_blocks-Settles (suc times) size fd s =
      elim (Bool-cases ((lib.tfs_write pid fd (replicate size 0) s.0).0 ==ℤ pos size)) [
        | inl e ↦ rw e (write_blocks-Settles times size fd _)
        | inr e ↦ rw e (omega arith, omega arith)
      ]

  read_blocks-Settles :
      (times size : ℕ) (fd : ℤ) (s : Logged)
      → Settles 0 0 s.1
          (read_blocks (logged_library lib) (logged_machine machine) pid times size fd s)
  unfolding read_blocks
  read_blocks-Settles zero size fd s = (omega arith, omega arith)
  read_blocks-Settles (suc times) size fd s =
      elim (Bool-cases ((lib.tfs_read pid fd size s.0).0.0 ==ℤ pos size)) [
        | inl e ↦ rw e (read_blocks-Settles times size fd _)
        | inr e ↦ rw e (omega arith, omega arith)
      ]

  err_exit-Settles :
      (messages : List Message) (s : Logged)
      → Settles 0 1 s.1 (err_exit (logged_library lib) (logged_machine machine) pid messages s)
  unfolding err_exit
  err_exit-Settles messages s = (omega arith, omega arith)

  err_close-Settles :
      (fd : ℤ) (messages : List Message) (s : Logged)
      → Settles 1 1 s.1 (err_close (logged_library lib) (logged_machine machine) pid fd messages s)
  unfolding err_close err_exit
  err_close-Settles fd messages s = (omega arith, omega arith)

  -- The end of a transfer: whether all blocks went over, and what is done in each case.
  decided-Settles :
      (files : ℕ) (n : Ledger) (bad next : Cmd Logged (List Message)) (good : Bool) (s : Logged)
      → Settles files 1 n (bad s)
      → Settles files 1 n (next s)
      → Settles files 1 n (if◌then◌else◌ {A = Cmd Logged (List Message)} (not good) bad next s)
  decided-Settles files n bad next true s h k = k
  decided-Settles files n bad next false s h k = h

  neutral_do :
      {A B : Type 0} (files blocks : ℕ) (m : Cmd Logged A) (f : A → Cmd Logged B) (s : Logged)
      → Settles 0 0 s.1 (m s)
      → ((a : A) (t : Logged) → Settles files blocks t.1 (f a t))
      → Settles files blocks s.1 (and_then (m s) f)
  neutral_do files blocks m f s = neutral_first files blocks s.1 (m s) f

  after_open :
      {A : Type 0} (n : Ledger) (r : Run Logged A)
      → Settles 1 1 (record n { opened = n.opened + 1 }) r
      → Settles 0 1 n r
  after_open n (ok a s) h = (omega arith, omega arith)
  after_open n (exited c s) h = h

  read_file-Settles :
      (size times : ℕ) (messages : List Message) (s : Logged)
      → Settles 0 1 s.1
          (read_file (logged_library lib) (logged_machine machine) pid size times messages s)
  unfolding read_file
  read_file-Settles size times messages s =
      elim (Bool-cases (is_neg (lib.tfs_open pid file_name tfs_o_rdonly 438 s.0).0)) [
        | inl e ↦ rw e (err_exit-Settles _ _)
        | inr e ↦ rw e (
            after_open s.1 _ (
              neutral_do 1 1
                (read_blocks (logged_library lib) (logged_machine machine) pid times size _) _ _
                (read_blocks-Settles times size _ _)
                (λ good t.
                  decided-Settles 1 t.1 _ _ good t (err_close-Settles _ _ t)
                    (err_close-Settles _ _ _))))
      ]

  after_close :
      {A : Type 0} (n : Ledger) (r : Run Logged A)
      → Settles 0 1 (record n { closed = n.closed + 1 }) r
      → Settles 1 1 n r
  after_close n (ok a s) h = (omega arith, omega arith)
  after_close n (exited c s) h = h

  finish_writing-Settles :
      (size times : ℕ) (fd : ℤ) (report : Message) (s : Logged)
      → Settles 1 1 s.1
          (finish_writing (logged_library lib) (logged_machine machine) pid size times fd report s)
  unfolding finish_writing
  finish_writing-Settles size times fd report s =
      after_close s.1 _ (elim (Bool-cases ((lib.tfs_close pid fd s.0).0 ==ℤ pos 0)) [
        | inl e ↦ rw e (read_file-Settles size times _ _)
        | inr e ↦ rw e (err_exit-Settles _ _)
      ])

  write_file-Settles :
      (size times : ℕ) (s : Logged)
      → Settles 0 1 s.1 (write_file (logged_library lib) (logged_machine machine) pid size times s)
  unfolding write_file
  write_file-Settles size times s =
      elim (Bool-cases
        (is_neg (lib.tfs_open pid file_name (tfs_o_wronly + tfs_o_creat) 438 s.0).0)) [
          | inl e ↦ rw e (err_exit-Settles _ _)
          | inr e ↦ rw e (
              after_open s.1 _ (
                neutral_do 1 1
                  (write_blocks (logged_library lib) (logged_machine machine) pid times size _) _ _
                  (write_blocks-Settles times size _ _)
                  (λ good t.
                    decided-Settles 1 t.1 _ _ good t (err_close-Settles _ _ t)
                      (finish_writing-Settles size times _ _ _))))
        ]

  after_calloc :
      {A : Type 0} (n : Ledger) (r : Run Logged A)
      → Settles 0 1 (record n { allocated = n.allocated + 1 }) r
      → Settles 0 0 n r
  after_calloc n (ok a s) h = (omega arith, omega arith)
  after_calloc n (exited c s) h = h

  run_sizes-Settles :
      (size times : ℤ) (s : Logged)
      → Settles 0 0 s.1 (run_sizes (logged_library lib) (logged_machine machine) pid size times s)
  unfolding run_sizes
  run_sizes-Settles (pos (suc size)) (pos (suc times)) s =
      elim (Bool-cases (machine.calloc (suc size) s.0).0) [
        | inl e ↦ rw e (after_calloc s.1 _ (write_file-Settles (suc size) (suc times) _))
        | inr e ↦ rw e (omega arith, omega arith)
      ]
  run_sizes-Settles (pos (suc size)) (pos zero) s = (omega arith, omega arith)
  run_sizes-Settles (pos (suc size)) (negsuc n) s = (omega arith, omega arith)
  run_sizes-Settles (pos zero) times s = (omega arith, omega arith)
  run_sizes-Settles (negsuc n) times s = (omega arith, omega arith)

  -- Whatever the file system answers, the benchmark ends; it closes as many files as it has opened
  -- and frees as much memory as it has allocated, on every path.
  pub benchmark-Settles :
      (arguments : List (List ℕ)) (s : Logged)
      → Settles 0 0 s.1 (benchmark (logged_library lib) (logged_machine machine) pid arguments s)
  unfolding benchmark
  benchmark-Settles (size ∷ times ∷ []) s = run_sizes-Settles (atoi size) (atoi times) s
  benchmark-Settles [] s = (omega arith, omega arith)
  benchmark-Settles (a ∷ []) s = (omega arith, omega arith)
  benchmark-Settles (a ∷ b ∷ c ∷ rest) s = (omega arith, omega arith)
