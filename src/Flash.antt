-- ===== src/Flash.antt =====
-- TTM50/EXAMPLES/FLASH.C: the flash EPROM programming utility. The EPROM is memory-mapped and
-- volatile: it is a parameter over a state `D`. Messages are left out; an error ends the program
-- with its exit code.
pub mod Hex
pub mod Check
pub mod Chip
pub mod Erasing
pub mod Attempts
pub mod Exit
pub mod Print
pub mod Program
pub mod Target
pub mod Working
mod Examples
use ttm.Prelude.{
  ℕ, zero, suc, ◌+◌, ◌*◌, ◌/◌, ◌%◌, Bool, true, false, ◌&&◌, ◌||◌, Option, none, some, List, [],
  ◌∷◌, ℤ, pos, word_add, ◌==◌, if◌then◌else◌, get_or, take, length,
}
use ttm.Prelude.Run.{Run, ok, exited, Cmd, and_then, pure, exit, call, ◌>>=◌, ◌>>◌}
use ttm.Prelude.Scan.{is_space, scan_hex}

-- A read, a write and a wait of so many ticks.
pub record Eprom (D : Type 0) : Type 0 where
  pub read : ℕ → D → ℕ × D
  pub write : ℕ → ℕ → D → (Unit {0}) × D
  pub proc_wait : ℕ → D → (Unit {0}) × D

abbrev pub flash_base_address : ℕ
flash_base_address = 0x40000000

abbrev pub flash_word_size : ℕ
flash_word_size = 0x20000

abbrev pub flash_read_memory : ℕ
flash_read_memory = 0x00000000

abbrev pub flash_erase_setup : ℕ
flash_erase_setup = 0x20202020

abbrev pub flash_erase : ℕ
flash_erase = 0x20202020

abbrev pub flash_program_setup : ℕ
flash_program_setup = 0x40404040

abbrev pub flash_read_id_codes : ℕ
flash_read_id_codes = 0x90909090

abbrev pub flash_erase_verify : ℕ
flash_erase_verify = 0xa0a0a0a0

abbrev pub flash_program_verify : ℕ
flash_program_verify = 0xc0c0c0c0

abbrev pub flash_reset : ℕ
flash_reset = 0xffffffff

abbrev pub manufacturer_code : ℕ
manufacturer_code = 0x89898989

abbrev pub device_code : ℕ
device_code = 0xb4b4b4b4

-- EXIT_SUCCESS and EXIT_FAILURE.
abbrev pub exit_success : ℤ
exit_success = pos 0

abbrev pub exit_failure : ℤ
exit_failure = pos 1

-- &fl_eprom[j], where fl_eprom points to `base`.
abbrev pub word_address : ℕ → ℕ → ℕ
word_address base j = word_add base (4 * j)

-- The rounds of `while (i < 4 …)` and of `while (… i < 1000)`, where i starts at 1.
abbrev pub program_rounds : ℕ
program_rounds = 3

abbrev pub erase_rounds : ℕ
erase_rounds = 999

-- What `get_line` leaves in *file_end, hex_data and *word_ct: the end of the file, no word, or an
-- address and one to four words.
pub data HexLine : Type 0 where
  file_end empty : HexLine
  words : ℕ → List ℕ → HexLine

-- The switch on the number of values.
unfoldable pub word_count : ℕ → Option ℕ
word_count n =
    if n == 5
    then some 1
    else if n == 9
    then some 2
    else if n == 13
    then some 3
    else if n == 17
    then some 4
    else none

-- hex_data[0] |= FLASH_BASE_ADDRESS, which is one bit.
unfoldable pub in_flash : ℕ → ℕ
in_flash a = if a / flash_base_address % 2 == 1 then a else a + flash_base_address

-- The words that 4 bytes at a time make in memory, the first byte least significant.
unfoldable pub words_of : ℕ → List ℕ → List ℕ
words_of zero bytes = []
words_of (suc n) (a ∷ b ∷ c ∷ d ∷ rest) =
    (a % 256 + b % 256 * 256 + c % 256 * 65536 + d % 256 * 16777216) ∷ words_of n rest
words_of (suc n) _ = []

-- strspn( line, white space ) == strlen( line )
unfoldable pub is_blank : List ℕ → Bool
unfolding is_space
is_blank [] = true
is_blank (c ∷ cs) = is_space c && is_blank cs

-- The values of a line, address first, and what `get_line` makes of them; `none` where it ends the
-- program.
unfoldable pub counted_line : Option ℕ → Bool → ℕ → List ℕ → Option HexLine
unfolding in_flash words_of
counted_line (some n) blank address bytes = some (words (in_flash address) (words_of n bytes))
counted_line none blank address bytes = if blank then some empty else none

unfoldable pub line_of_values : Bool → List ℕ → Option HexLine
unfolding word_count counted_line
line_of_values blank [] = if blank then some empty else none
line_of_values blank (address ∷ bytes) =
    counted_line (word_count (length (address ∷ bytes))) blank address bytes

unfoldable pub read_line : Option (List ℕ) → Option HexLine
unfolding scan_hex is_blank line_of_values
read_line none = some file_end
read_line (some line) = line_of_values (is_blank line) (scan_hex 17 line)

module _ {D : Type 0} (eprom : Eprom D) where
  unfoldable pub read : ℕ → Cmd D ℕ
  read address = call (eprom.read address)

  unfoldable pub write : ℕ → ℕ → Cmd D (Unit {0})
  write address value = call (eprom.write address value)

  unfoldable pub wait : ℕ → Cmd D (Unit {0})
  wait ticks = call (eprom.proc_wait ticks)

  unfoldable pub reset_fe : Cmd D (Unit {0})
  reset_fe = do write flash_base_address flash_reset; write flash_base_address flash_reset; wait 10

  unfoldable pub read_i_i : Cmd D (Unit {0})
  read_i_i = do
    write flash_base_address flash_reset
    write flash_base_address flash_reset
    wait 10
    write flash_base_address flash_read_id_codes
    wait 10
    manufacturer ← read flash_base_address
    device ← read (word_address flash_base_address 1)
    if (manufacturer == manufacturer_code) && (device == device_code)
        then pure tt
        else exit exit_failure

  -- The attempts to program word `j` to 0, by the rounds left and the data read last.
  unfoldable pub zero_attempts : ℕ → ℕ → ℕ → Cmd D (Unit {0})
  zero_attempts zero j ep_data = pure tt
  zero_attempts (suc r) j ep_data = if ep_data == 0 then pure tt else (do
    write flash_base_address flash_program_setup
    write (word_address flash_base_address j) 0
    wait 10
    write flash_base_address flash_program_verify
    wait 6
    v ← read (word_address flash_base_address j)
    zero_attempts r j v)

  -- for (j = 0; j < FLASH_WORD_SIZE; j++), by the words left and the next one.
  unfoldable pub prog_to_0_from : ℕ → ℕ → Cmd D (Unit {0})
  unfolding zero_attempts
  prog_to_0_from zero j = pure tt
  prog_to_0_from (suc n) j = zero_attempts program_rounds j 0xffffffff >> prog_to_0_from n (j + 1)

  unfoldable pub prog_to_0 : Cmd D (Unit {0})
  prog_to_0 = prog_to_0_from flash_word_size 0

  unfoldable pub check_value_from : ℕ → ℕ → ℕ → Cmd D (Unit {0})
  check_value_from zero j value = pure tt
  check_value_from (suc n) j value = do
    ep_data ← read (word_address flash_base_address j)
    if ep_data == value then check_value_from n (j + 1) value else exit exit_failure

  unfoldable pub check_value : ℕ → Cmd D (Unit {0})
  check_value value = check_value_from flash_word_size 0 value

  -- The erase verify loop: whether it came to its end.
  unfoldable pub erase_verify_from : ℕ → ℕ → Cmd D Bool
  erase_verify_from zero j = pure true
  erase_verify_from (suc n) j = do
    write (word_address flash_base_address j) flash_erase_verify
    wait 6
    v ← read (word_address flash_base_address j)
    if v == 0xffffffff then erase_verify_from n (j + 1) else pure false

  -- The erase attempts, each over so many words: whether the last verify came to its end.
  unfoldable pub erase_attempts : ℕ → ℕ → Cmd D Bool
  unfolding erase_verify_from
  erase_attempts zero n = pure false
  erase_attempts (suc r) n = do
    write flash_base_address flash_erase_setup
    write flash_base_address flash_erase
    wait 10000
    verified ← erase_verify_from n 0
    if verified then pure true else erase_attempts r n

  unfoldable pub erase : Cmd D (Unit {0})
  erase = do
    verified ← erase_attempts erase_rounds flash_word_size
    write flash_base_address flash_read_memory
    if verified then pure tt else exit exit_failure

  unfoldable pub accept_line : Option HexLine → Cmd D HexLine
  unfolding reset_fe
  accept_line (some l) = pure l
  accept_line none = reset_fe >> exit exit_failure

  unfoldable pub get_line : Option (List ℕ) → Cmd D HexLine
  get_line line = accept_line (read_line line)

  -- The attempts to program a word of a line: whether one of them succeeded.
  unfoldable pub prog_attempts : ℕ → ℕ → ℕ → ℕ → Cmd D Bool
  prog_attempts zero base j value = pure false
  prog_attempts (suc r) base j value = do
    write base flash_program_setup
    write (word_address base j) value
    wait 10
    write base flash_program_verify
    wait 6
    ep_data ← read (word_address base j)
    if ep_data == value then pure true else prog_attempts r base j value

  -- The words of a line from number `j` on.
  unfoldable pub prog_ep : ℕ → ℕ → List ℕ → Cmd D (Unit {0})
  prog_ep base j [] = pure tt
  prog_ep base j (value ∷ values) = do
    programmed ← prog_attempts program_rounds base j value
    if programmed
        then prog_ep base (j + 1) values
        else (do write base flash_reset; write base flash_reset; exit exit_failure)

  unfoldable pub check_ep : ℕ → ℕ → List ℕ → Cmd D (Unit {0})
  check_ep base j [] = pure tt
  check_ep base j (value ∷ values) = do
    ep_data ← read (word_address base j)
    if ep_data == value then check_ep base (j + 1) values else exit exit_failure

  -- The body of `while (file_end == 0)` after `get_line`: `act` on a line that has words, then the
  -- next lines.
  unfoldable pub use_line :
      (ℕ → List ℕ → Cmd D (Unit {0})) → Cmd D (Unit {0}) → HexLine → Cmd D (Unit {0})
  use_line act next file_end = pure tt
  use_line act next empty = next
  use_line act next (words address values) = act address values >> next

  -- The loop over the file, which is what `fgets` gives.
  unfoldable pub for_lines : (ℕ → List ℕ → Cmd D (Unit {0})) → List (List ℕ) → Cmd D (Unit {0})
  unfolding get_line use_line
  for_lines act [] = get_line none >>= use_line act (pure tt)
  for_lines act (line ∷ lines) = get_line (some line) >>= use_line act (for_lines act lines)

  -- `none` is a file that `fopen` does not open.
  unfoldable pub prog_hf : Option (List (List ℕ)) → Cmd D (Unit {0})
  unfolding for_lines prog_ep
  prog_hf none = exit exit_failure
  prog_hf (some file) = for_lines (λ address values. prog_ep address 0 values) file

  unfoldable pub check_hf : Option (List (List ℕ)) → Cmd D (Unit {0})
  unfolding for_lines check_ep
  check_hf none = exit exit_failure
  check_hf (some file) = for_lines (λ address values. check_ep address 0 values) file

  unfoldable pub high_pr : Option (List (List ℕ)) → Cmd D (Unit {0})
  high_pr file = do
    reset_fe
    read_i_i
    reset_fe
    read_i_i
    reset_fe
    prog_to_0
    check_value 0x00000000
    reset_fe
    erase
    check_value 0xffffffff
    reset_fe
    prog_hf file
    reset_fe
    reset_fe
    check_hf file
    exit exit_success

-- What the arguments ask for: the end of the program with an exit code, or the file to program.
pub data Command : Type 0 where
  stop : ℤ → Command
  flash : List ℕ → Command

-- An argument that is no option: the file, unless there is one.
unfoldable pub named : Option (List ℕ) → Command → Command
named (some name) go_on = stop (pos 1)
named none go_on = go_on

-- Verbosity, which only the messages read, is left out.
unfoldable pub parse : Option (List ℕ) → List (List ℕ) → Command
unfolding named
parse none [] = stop (pos 1)
parse (some name) [] = flash name
parse name (argument ∷ arguments) =
    let first = get_or argument 0 0 in
    let c = get_or argument 1 0 in
    let verbose = parse name arguments in
    let file = parse (some argument) arguments in
    if (first == b'-') || (first == b'/')
    then (if (c == b'h') || (c == b'H')
        then stop (pos 0)
        else if (c == b'v') || (c == b'V')
        then verbose
        else stop (pos 1))
    else named name file

-- The case that ProcAlloc fails, which calls abort, is left out.
unfoldable pub run_command :
    {D : Type 0} → Eprom D → (List ℕ → Option (List (List ℕ))) → Command → Cmd D (Unit {0})
run_command eprom files (stop code) = exit code
run_command eprom files (flash name) = high_pr eprom (files name)

-- The files by their names, as `fopen` and `fgets` give them.
unfoldable pub main :
    {D : Type 0} → Eprom D → (List ℕ → Option (List (List ℕ))) → List (List ℕ) → Cmd D (Unit {0})
unfolding parse run_command
main eprom files arguments = run_command eprom files (parse none arguments)
