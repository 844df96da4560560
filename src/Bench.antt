-- ===== src/Bench.antt =====
-- TFS/EXAMPLES/TFSH/BENCH.C: the command that measures how fast a file is written and read. What is
-- printed is kept as a list of messages; the rates, which are floating point, are left out, with
-- the interval and the kilobytes that they are computed from in their place.
pub mod Ledger
pub mod Balance
pub mod Kilobytes
pub mod Working
mod Examples
use ttm.Prelude.{
  ℕ, zero, suc, ◌+◌, ◌-◌, ◌*◌, ◌/◌, ◌%◌, Bool, true, false, not, ◌||◌, Option, none, some, List, [],
  ◌∷◌, ◌++◌, ℤ, pos, negsuc, is_neg, is_negative, word_mod, word_sub, ◌==◌, ◌==ℤ◌, if◌then◌else◌,
  replicate, codes,
}
use ttm.Prelude.Run.{Run, Cmd, pure, call, ◌>>=◌, ◌>>◌}
use ttm.Prelude.Scan.{scan_int}
use ttm.Tfs.{tfs_o_rdonly, tfs_o_wronly, tfs_o_creat}
use ttm.Tfs.Library.{Library}

-- What the command takes from the C library and the processor: whether the memory is there, and
-- the clock.
pub record Machine (D : Type 0) : Type 0 where
  pub calloc : ℕ → D → Bool × D
  pub free : D → (Unit {0}) × D
  pub proc_time : D → ℕ × D

-- The messages; `written` and `measured` stand for the two reports.
pub data Message : Type 0 where
  usage invalid_arguments no_memory open_failed write_failed read_failed close_failed : Message
  written measured : ℕ → ℤ → Message

-- atoi
unfoldable pub atoi : List ℕ → ℤ
unfolding scan_int
atoi text = elim (scan_int text) [ none ↦ pos 0 | some n ↦ n ]

-- kb = (size * times) / 1024 of int: the product wraps, and the division goes towards 0.
unfoldable pub kilobytes : ℕ → ℕ → ℤ
kilobytes size times =
    let product = size * times % word_mod in
    let below = (word_mod - product) / 1024 in
    if is_negative product
    then (if below == 0 then pos 0 else negsuc (below - 1))
    else pos (product / 1024)

abbrev pub file_name : List ℕ
file_name = codes "temp.dat"

module _ {D : Type 0} (lib : Library D) (machine : Machine D) (pid : ℤ) where
  -- for (i = 0; i < times; i++), by the rounds left: whether all blocks were written.
  unfoldable pub write_blocks : ℕ → ℕ → ℤ → Cmd D Bool
  write_blocks zero size fd = pure true
  write_blocks (suc times) size fd = do
    n ← call (lib.tfs_write pid fd (replicate size 0))
    if n ==ℤ pos size then write_blocks times size fd else pure false

  unfoldable pub read_blocks : ℕ → ℕ → ℤ → Cmd D Bool
  read_blocks zero size fd = pure true
  read_blocks (suc times) size fd = do
    r ← call (lib.tfs_read pid fd size)
    if r.0 ==ℤ pos size then read_blocks times size fd else pure false

  -- err_exit
  unfoldable pub err_exit : List Message → Cmd D (List Message)
  err_exit messages = call machine.free >> pure messages

  -- err_close
  unfoldable pub err_close : ℤ → List Message → Cmd D (List Message)
  err_close fd messages = do
    r ← call (lib.tfs_close pid fd)
    err_exit (messages ++ (if r ==ℤ pos 0 then [] else close_failed ∷ []))

  -- The reading, with the messages so far.
  unfoldable pub read_file : ℕ → ℕ → List Message → Cmd D (List Message)
  read_file size times messages = do
    fd ← call (lib.tfs_open pid file_name tfs_o_rdonly 438)
    if is_neg fd then err_exit (messages ++ (open_failed ∷ [])) else (do
      start ← call machine.proc_time
      good ← read_blocks times size fd
      if not good then err_close fd (messages ++ (read_failed ∷ [])) else (do
        end ← call machine.proc_time
        err_close fd (messages ++ (measured (word_sub end start) (kilobytes size times) ∷ []))))

  -- What comes behind the report of the writing.
  unfoldable pub finish_writing : ℕ → ℕ → ℤ → Message → Cmd D (List Message)
  finish_writing size times fd report = do
    r ← call (lib.tfs_close pid fd)
    if not (r ==ℤ pos 0)
        then err_exit (report ∷ close_failed ∷ [])
        else (do _ ← call lib.tfs_sync; read_file size times (report ∷ []))

  -- The writing, and then the reading.
  unfoldable pub write_file : ℕ → ℕ → Cmd D (List Message)
  write_file size times = do
    fd ← call (lib.tfs_open pid file_name (tfs_o_wronly + tfs_o_creat) 438)
    if is_neg fd then err_exit (open_failed ∷ []) else (do
      start ← call machine.proc_time
      good ← write_blocks times size fd
      if not good then err_close fd (write_failed ∷ []) else (do
        end ← call machine.proc_time
        finish_writing size times fd (written (word_sub end start) (kilobytes size times))))

  -- The command behind its arguments.
  unfoldable pub run_sizes : ℤ → ℤ → Cmd D (List Message)
  run_sizes (pos (suc size)) (pos (suc times)) = do
    got ← call (machine.calloc (suc size))
    if got then write_file (suc size) (suc times) else pure (no_memory ∷ [])
  run_sizes _ _ = pure (invalid_arguments ∷ usage ∷ [])

  -- `benchmark`, over the arguments behind its name.
  unfoldable pub benchmark : List (List ℕ) → Cmd D (List Message)
  unfolding atoi
  benchmark (size ∷ times ∷ []) = run_sizes (atoi size) (atoi times)
  benchmark _ = pure (usage ∷ [])
