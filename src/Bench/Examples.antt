-- ===== src/Bench/Examples.antt =====
-- The command of TFS/EXAMPLES/TFSH/BENCH.C on a file system that takes everything, with tests and
-- the theorems at concrete inputs.
use ttm.Prelude.{
  ltb, if◌then◌else◌, ℕ, ◌+◌, ◌*◌, ◌/◌, ◌<◌, ◌≡◌, ◌↔◌, refl, arith, true, List, [], ◌∷◌, pos,
  length, codes, sign_bit,
}
use ttm.Prelude.Run.{ok}
use ttm.Tfs.Library.{Library}
use ttm.Tfs.Dead.{dead}
use ttm.Bench.{
  atoi, Machine, written, measured, kilobytes, run_sizes, write_file, write_blocks, finish_writing,
  read_file, read_blocks, err_close, err_exit, benchmark,
}
use ttm.Bench.Ledger.{blank, logged_library, logged_machine, Settles}
use ttm.Bench.Balance.{benchmark-Settles}
use ttm.Bench.Working.{View, IsRoomy, Measures, benchmark-Measures}
use ttm.Bench.Kilobytes.{kilobytes-exact}

-- A clock that is the state.
abbrev library : Library ℕ
library = record dead {
  tfs_open = λ p a m c d. (pos 3, d);
  tfs_close = λ p f d. (pos 0, d);
  tfs_write = λ p f b d. (pos (length b), d + 1);
  tfs_read = λ p f n d. ((pos n, []), d + 2);
}

abbrev machine : Machine ℕ
machine = record { calloc = λ n d. (true, d); free = λ d. (tt, d); proc_time = λ d. (d, d) }

abbrev arguments : List (List ℕ)
arguments = codes "4" ∷ codes "512" ∷ []

abbrev few : List (List ℕ)
few = codes "4" ∷ codes "3" ∷ []

benchmark_test :
    benchmark library machine (pos 1) few 0 ≡ ok (written 3 (pos 0) ∷ measured 6 (pos 0) ∷ []) 9
unfolding benchmark run_sizes write_file write_blocks finish_writing read_file read_blocks err_close
    err_exit kilobytes
benchmark_test = refl

benchmark-Settles_example :
    Settles 0 0 blank
      (benchmark (logged_library library) (logged_machine machine) (pos 1) arguments (0, blank))
benchmark-Settles_example = benchmark-Settles library machine (pos 1) arguments (0, blank)

kilobytes-exact_example :
    (kilobytes 16384 131072 ≡ pos (16384 * 131072 / 1024)) ↔ (16384 * 131072 < sign_bit)
kilobytes-exact_example = kilobytes-exact 16384 131072 (omega arith)

-- The file with its pointer, the bytes that have been written and read, and the clock.
record Tape : Type 0 where
  pointer : ℕ
  size : ℕ
  sent : ℕ
  fetched : ℕ
  clock : ℕ

abbrev tape_library : Library Tape
tape_library = record dead {
  tfs_open = λ p a m c d. (pos 3, record d { pointer = 0 });
  tfs_close = λ p f d. (pos 0, d);
  tfs_sync = λ d. (pos 0, d);
  tfs_write = λ p f b d. (
    pos (length b),
    record d {
      pointer = d.pointer + length b;
      size = if ltb d.size (d.pointer + length b) then d.pointer + length b else d.size;
      sent = d.sent + length b;
      clock = d.clock + 1;
    },
  );
  tfs_read = λ p f n d. (
    (pos n, []),
    record d { pointer = d.pointer + n; fetched = d.fetched + n; clock = d.clock + 2 },
  );
}

abbrev tape_machine : Machine Tape
tape_machine = record {
  calloc = λ n d. (true, d);
  free = λ d. (tt, d);
  proc_time = λ d. (d.clock, d);
}

abbrev tape_view : View Tape
tape_view = record {
  at = λ fd d. (d.pointer, d.size);
  is_open = λ fd d. true;
  sent = λ d. d.sent;
  fetched = λ d. d.fetched;
}

tape-IsRoomy : IsRoomy tape_library tape_machine (pos 1) 2000000 4096 tape_view
tape-IsRoomy = record {
  opens = λ d. (3, refl, refl, refl, (refl, refl));
  writes = λ d fd bytes o h. (refl, refl, ground arith, refl, refl, refl);
  reopens = λ d fd o. (3, refl, refl, refl, refl, refl, (refl, refl));
  reads = λ d fd n o h. (refl, refl, refl, refl, refl, refl);
  closes = λ d fd o. (refl, (refl, refl));
  ticks = λ d fd. (refl, refl, refl, (refl, refl));
  gives = λ d. (refl, (refl, refl));
  frees = λ d. (refl, refl);
}

abbrev blank_tape : Tape
blank_tape = record { pointer = 0; size = 7; sent = 0; fetched = 0; clock = 0 }

benchmark-Measures_example :
    Measures tape_view 4096 400
      (benchmark tape_library tape_machine (pos 1) (codes "4096" ∷ codes "400" ∷ []))
      blank_tape
unfolding atoi
benchmark-Measures_example =
    benchmark-Measures tape_library tape_machine (pos 1) 2000000 4095 tape_view tape-IsRoomy
      (codes "4096") (codes "400") 399 blank_tape refl refl (omega arith)
