-- ===== src/Disktest/Examples.antt =====
-- The disk test of TTM50/EXAMPLES/DISKTEST.C on a disk that keeps what is written, with tests and
-- the theorems at concrete inputs.
use ttm.Prelude.{
  zero, length-replicate, ℕ, ◌+◌, ◌*◌, ◌%◌, ◌≤◌, ◌<◌, ◌≡◌, ◌⊎◌, ◌↔◌, refl, false, ◌||◌, some, List,
  [], ◌∷◌, arith, ℤ, pos, is_neg, ◌==◌, ◌==ℤ◌, word_add, if◌then◌else◌, get_or, take, replicate,
  length, codes, take-take,
}
use ttm.Prelude.Run.{ok, exited}
use ttm.Scsi.{Address, Command, scmd_write_10, sdev_direct_access}
use ttm.Scsi.Library.{Library, Device}
use ttm.Disktest.{
  Args, defaults, parse, plan, transfer_cdb, value_start, rounds, pattern_bytes, matches, outcome,
  transfer, fill_test, trials, run_test, main, max_buffer_size, max_blocks,
}
use ttm.Disktest.Arguments.{IsInRange}
use ttm.Disktest.Geometry.{plan_bounds, plan-cdb}
use ttm.Disktest.FillTest.{
  IsStore, Succeeded, write_reply, read_reply, set_up, clear, fill_test-passes, fill_test_sound,
  pattern_overruns,
}
use ttm.Disktest.Working.{IsDisk, address_of, main-passes}
use ttm.Disktest.Program.{Ends, Passed, main-Ends, run_test-zero}

-- One disk of one block of eight bytes.
abbrev disk : Device
disk = record { type = sdev_direct_access; last_block = λ _. 0; block_size = λ _. 8 }

abbrev answer : Address → Command → List ℕ → (Command × ℤ) × List ℕ
answer address c d =
    if get_or c.cdb 0 0 == scmd_write_10
    then ((c, pos 0), c.bytes)
    else ((record c { bytes = d }, pos 0), d)

abbrev library : Library (List ℕ)
library = record {
  scsi_initialise = λ d. (pos 7, d);
  scsi_reset_bus = λ d. (tt, d);
  scsi_find_device = λ a d. (some disk, d);
  scsi_command = answer;
  scsi_malloc = λ n d. (some (replicate n 1), d);
  scsi_free = λ d. (tt, d);
}

abbrev address : Address
address = record { id = pos 0; lun = pos 0 }

abbrev memory : List ℕ
memory = replicate 12 1

library-IsStore : (d : List ℕ) → IsStore library address 1 8 d
unfolding transfer outcome
library-IsStore d = record { writes = λ m. refl; reads = λ m s. refl; keeps = λ m s. take-take 8 m }

fill_test_run :
    fill_test library address 1 memory 8 []
    ≡ ok
        (set_up library address 1 8 memory)
        (read_reply library address 1 8
          (clear library address 1 8 (set_up library address 1 8 memory))
          (write_reply library address 1 8 (set_up library address 1 8 memory) []).1).1
unfolding pattern_bytes
fill_test_run = fill_test-passes library address 1 8 memory [] (library-IsStore []) (omega arith)

-- What the read command delivers in the test above.
abbrev delivered : List ℕ
delivered =
    take 8
      (read_reply library address 1 8
        (clear library address 1 8 (set_up library address 1 8 memory))
        (write_reply library address 1 8 (set_up library address 1 8 memory) []).1).0.0.bytes

fill_test_sound_example :
    Succeeded (write_reply library address 1 8 (set_up library address 1 8 memory) []).0
    × Succeeded
        (read_reply library address 1 8
          (clear library address 1 8 (set_up library address 1 8 memory))
          (write_reply library address 1 8 (set_up library address 1 8 memory) []).1).0
    × (delivered ≡ pattern_bytes (rounds 8) value_start)
unfolding transfer pattern_bytes outcome
fill_test_sound_example =
    fill_test_sound library address 1 8 memory [] fill_test_run refl (omega arith) refl
      (omega arith)

pattern_overruns_example :
    (5 ≤ length (pattern_bytes (rounds 5) value_start))
    × (length (pattern_bytes (rounds 5) value_start) < 5 + 4)
    × ((length (pattern_bytes (rounds 5) value_start) ≡ 5) ↔ (5 % 4 ≡ 0))
unfolding plan
pattern_overruns_example = pattern_overruns 5 1 refl

abbrev many : ℕ
many = 2048

plan_bounds_example :
    (0 < many)
    × (many ≤ 100000)
    × (many ≤ max_blocks)
    × (many * 512 ≤ max_buffer_size)
    × ((many ≡ 100000) ⊎ ((many ≡ max_blocks) ⊎ (max_buffer_size < (many + 1) * 512)))
unfolding plan
plan_bounds_example = plan_bounds 512 100000 refl

plan-cdb_example :
    let cdb = transfer_cdb scmd_write_10 (pos 3) 2048 in
    (get_or cdb 1 0 ≡ 3 * 32)
    × (get_or cdb 7 0 * 256 + get_or cdb 8 0 ≡ 2048)
    × (get_or cdb 7 0 < 128)
unfolding plan
plan-cdb_example = plan-cdb scmd_write_10 3 512 100000 {blocks = many} (omega arith) refl

abbrev arguments : List (List ℕ)
arguments = codes "-i" ∷ codes "3" ∷ codes "/L" ∷ codes "2" ∷ codes "-v" ∷ []

arguments-parse :
    parse arguments defaults
    ≡ ok tt (record { id = pos 3; lun = pos 2; verbosity = 1; continuous = false })
unfolding parse
arguments-parse = refl

-- The option that the first line of the usage text names for the id is refused.
usage_option : parse (codes "-t" ∷ codes "3" ∷ []) defaults ≡ exited (pos 1) defaults
unfolding parse
usage_option = refl

main-Ends_example :
    ((code : ℤ) × (main library 1 arguments [] ≡ exited code [])
      × ((code ≡ pos 0) ⊎ (code ≡ pos 1)))
    ⊎ ((args : Args) × IsInRange args
        × (main library 1 arguments [] ≡ run_test library 1 args [])
        × Ends args.continuous (main library 1 arguments []))
main-Ends_example = main-Ends library 0 arguments []

run_test_passes : run_test library 1 defaults [] ≡ exited (pos 0) (pattern_bytes 2 value_start)
unfolding run_test trials fill_test pattern_bytes matches transfer
run_test_passes = refl

run_test-zero_example :
    ((is_neg (pos 7) || (pos 7 ==ℤ pos 0)) ≡ false)
    × ((device : Device) × (n : ℕ) × (some disk ≡ some device)
        × (device.type ≡ sdev_direct_access)
        × (plan (device.block_size (pos 0)) (word_add (device.last_block (pos 0)) 1) ≡ some n)
        × Passed library address n
            (device.block_size (pos 0))
            (library.scsi_malloc (n * device.block_size (pos 0)) []).0
            (library.scsi_malloc (n * device.block_size (pos 0)) []).1)
run_test-zero_example = run_test-zero library 0 defaults [] run_test_passes

abbrev chosen : Args
chosen = record { id = pos 3; lun = pos 2; verbosity = 1; continuous = false }

library-IsDisk : IsDisk library (address_of chosen) disk 1 8
unfolding transfer outcome
library-IsDisk = record {
  initialises = λ d. refl;
  finds = λ d. refl;
  direct = refl;
  gives = λ d. (replicate 8 1, (refl, omega (arith, length-replicate 8 1)));
  stores = λ d. record { writes = λ m. refl; reads = λ m s. refl; keeps = λ m s. take-take 8 m };
}

main-passes_example : (d : List ℕ) × (main library 1 arguments [] ≡ exited (pos 0) d)
unfolding plan
main-passes_example =
    main-passes library chosen disk 1 library-IsDisk zero arguments [] arguments-parse refl refl
