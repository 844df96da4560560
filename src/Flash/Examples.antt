-- ===== src/Flash/Examples.antt =====
-- The flash EPROM utility of TTM50/EXAMPLES/FLASH.C on EPROMs that are easy to follow, with tests
-- and the theorems at concrete inputs.
use ttm.Prelude.{
  if◌then◌else◌, ◌==◌, ◌<◌, word_mod, true, false, arith, ℕ, ◌≡◌, refl, Option, none, some, List,
  [], ◌∷◌, codes,
}
use ttm.Prelude.Run.{ok, exited}
use ttm.Flash.{
  Eprom, words, in_flash, exit_success, accept_line, read_line, prog_attempts, program_rounds,
  parse, flash, read, write, wait, check_ep, check_hf, high_pr,
}
use ttm.Flash.Check.{IsQuiet}
use ttm.Flash.Attempts.{counted}
use ttm.Flash.Chip.{Chip, reading, blank, in_mode, chip_read, chip_write, IsFlash}
use ttm.Flash.Working.{high_pr_succeeds}
use ttm.Flash.Target.{FileStands}
use ttm.Flash.Print.{print_line, read_line-print_line}
use ttm.Flash.Program.{Programmed, high_pr-Programmed}

-- An EPROM whose words all read as the state, which a write sets.
abbrev eprom : Eprom ℕ
eprom = record { read = λ a d. (d, d); write = λ a v d. (tt, v); proc_wait = λ n d. (tt, d) }

abbrev eprom-IsQuiet : IsQuiet eprom
eprom-IsQuiet a d = refl

abbrev line : List ℕ
line = codes "100 01 02 03 04"

abbrev file : List (List ℕ)
file = line ∷ codes "  " ∷ []

abbrev word : ℕ
word = 0x04030201

read_line_test : read_line (some line) ≡ some (words 0x40000100 (word ∷ []))
unfolding read_line
read_line_test = refl

read_line-print_line_example :
    read_line (some (print_line true 0x100 (0xdeadbeef ∷ 5 ∷ [])))
    ≡ some (words (in_flash 0x100) (0xdeadbeef ∷ 5 ∷ []))
read_line-print_line_example =
    read_line-print_line true 0x100 (0xdeadbeef ∷ 5 ∷ []) (omega arith) (omega arith) (omega arith)
      (omega arith, (omega arith, tt))

check_hf_test : check_hf eprom (some file) word ≡ ok tt word
unfolding check_hf check_ep accept_line read_line read
check_hf_test = refl

high_pr-Programmed_example : Programmed eprom (some file) (high_pr eprom (some file) 0)
high_pr-Programmed_example = high_pr-Programmed eprom (some file) eprom-IsQuiet 0

abbrev files : List ℕ → Option (List (List ℕ))
files name = some file

abbrev help : List (List ℕ)
help = codes "-v" ∷ codes "-h" ∷ []

parse_test : parse none (codes "-v" ∷ codes "rom.hex" ∷ []) ≡ flash (codes "rom.hex")
unfolding parse
parse_test = refl

-- An EPROM that keeps nothing: three attempts are made.
abbrev dead : Eprom ℕ
dead = record eprom { write = λ a v d. (tt, d) }

prog_attempts_test :
    prog_attempts (counted dead) program_rounds 0x40000000 1 word (0, 0) ≡ ok false (0, 9)
unfolding prog_attempts read write wait
prog_attempts_test = refl

-- A chip that programs a blank word, and a word that has the value; other words become 0.
abbrev burn : ℕ → ℕ → ℕ
burn w v = if w == 0xffffffff then v else if w == v then v else 0

abbrev working : Eprom Chip
working = record {
  read = λ a c. (chip_read a c, c);
  write = λ a v c. (tt, chip_write burn a v c);
  proc_wait = λ n c. (tt, c);
}

working-IsFlash : IsFlash working burn (λ c. c)
working-IsFlash = record {
  clears = λ w. ground arith;
  burns = λ v h. refl;
  keeps = λ v. ground arith;
  writes = λ a v d. refl;
  waits = λ n d. refl;
  reads = λ a d. refl;
  stays = λ a d. refl;
}

abbrev target : ℕ → ℕ
target x = if x == 0x40000100 then word else 0xffffffff

target_bounds : (x : ℕ) → target x < word_mod
target_bounds x = ground arith

file_stands : FileStands file target
unfolding read_line
file_stands = ((refl, tt), (tt, tt))

high_pr_succeeds_example :
    (c : Chip) × (high_pr working (some file) (in_mode reading blank) ≡ exited exit_success c)
high_pr_succeeds_example =
    high_pr_succeeds working-IsFlash target target_bounds file (in_mode reading blank) refl
      file_stands
