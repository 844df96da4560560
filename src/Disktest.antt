-- ===== src/Disktest.antt =====
-- TTM50/EXAMPLES/DISKTEST.C: the arguments, the write and read commands, the test of a buffer and
-- `main`. Messages are left out; an error ends the program with its exit code.
pub mod Arguments
pub mod Geometry
pub mod Pattern
pub mod FillTest
pub mod Program
pub mod Working
mod Examples
use ttm.Prelude.{
  ℕ, zero, suc, ◌+◌, ◌-◌, ◌*◌, ◌/◌, ◌%◌, Bool, true, false, ◌&&◌, ◌||◌, Option, none, some, List,
  [], ◌∷◌, ◌++◌, ℤ, pos, negsuc, is_neg, word_mod, word_add, is_negative, exceeds, to_word, ltb,
  ◌==◌, ◌==ℤ◌, if◌then◌else◌, get_or, take, drop, replicate, overwrite,
}
use ttm.Prelude.Run.{Run, ok, exited, Cmd, and_then, pure, exit, call, ◌>>=◌, ◌>>◌}
use ttm.Prelude.Scan.{scan_int}
use ttm.Scsi.{
  Address, Command, scsi_ok, scsi_not_ok, sflag_data_in, sflag_data_out, scmd_read_10,
  scmd_write_10, sdev_direct_access,
}
use ttm.Scsi.Library.{Library, Device}

abbrev pub max_buffer_size : ℕ
max_buffer_size = 1048576

abbrev pub max_blocks : ℕ
max_blocks = 0x7fff

abbrev pub value_start : ℕ
value_start = 0xdeadbeef

abbrev pub value_inc : ℕ
value_inc = 0x12345678

-- The block of the extended write and read commands: one byte each, as an unsigned char keeps it.
unfoldable pub transfer_cdb : ℕ → ℤ → ℕ → List ℕ
transfer_cdb opcode lun number_blocks =
    opcode
    ∷ (to_word lun * 32 % 256)
    ∷ 0
    ∷ 0
    ∷ 0
    ∷ 0
    ∷ 0
    ∷ (number_blocks / 256 % 256)
    ∷ (number_blocks % 256)
    ∷ 0
    ∷ []

-- The command structure. Its residue and status are the library's to set.
unfoldable pub transfer : ℕ → ℕ → Address → ℕ → List ℕ → ℕ → Command
unfolding transfer_cdb
transfer opcode flags address number_blocks bytes data_len = record {
  cdb = transfer_cdb opcode address.lun number_blocks;
  cdb_len = 10;
  bytes = take data_len bytes;
  data_len = data_len;
  residue = 0;
  status = 0;
  flags = flags;
  timeout = 10;
}

-- The tests on the result, the status and the residue of a command.
unfoldable pub outcome : Command × ℤ → ℤ
outcome (command, result) =
    if result ==ℤ pos 0
    then (if (command.status == 0) && (command.residue == 0) then scsi_ok else scsi_not_ok)
    else scsi_not_ok

-- The bytes of a word in memory, the least significant first, and the word at the front of a memory.
abbrev pub word_bytes : ℕ → List ℕ
word_bytes w = (w % 256) ∷ (w / 256 % 256) ∷ (w / 65536 % 256) ∷ (w / 16777216 % 256) ∷ []

abbrev pub word_at : List ℕ → ℕ
word_at m = get_or m 0 0 + get_or m 1 0 * 256 + get_or m 2 0 * 65536 + get_or m 3 0 * 16777216

-- for (i = 0; i < size; i += 4): the rounds of the loop.
abbrev pub rounds : ℕ → ℕ
rounds size = (size + 3) / 4

-- The values that the first loop of `fill_test` stores, one after the other.
unfoldable pub pattern_bytes : ℕ → ℕ → List ℕ
pattern_bytes zero value = []
pattern_bytes (suc n) value = word_bytes value ++ pattern_bytes n (word_add value value_inc)

-- The second loop: whether each word holds its value.
unfoldable pub matches : ℕ → ℕ → List ℕ → Bool
matches zero value memory = true
matches (suc n) value memory =
    let rest = matches n (word_add value value_inc) (drop 4 memory) in
    if word_at memory == value then rest else false

-- The variables that the arguments set.
pub record Args : Type 0 where
  pub id : ℤ
  pub lun : ℤ
  pub verbosity : ℕ
  pub continuous : Bool

abbrev pub defaults : Args
defaults = record { id = pos 0; lun = pos 0; verbosity = 0; continuous = false }

-- A value outside 0 .. 7.
abbrev pub is_invalid : ℤ → Bool
is_invalid (pos n) = ltb 7 n
is_invalid (negsuc _) = true

-- The cases of the switch on an argument.
pub data Choice : Type 0 where
  help verbose again target_id target_lun unknown : Choice

unfoldable pub choice : List ℕ → Choice
choice argument =
    let first = get_or argument 0 0 in
    let c = get_or argument 1 0 in
    if (first == b'-') || (first == b'/')
    then (if (c == b'h') || (c == b'H')
        then help
        else if (c == b'v') || (c == b'V')
        then verbose
        else if (c == b'c') || (c == b'C')
        then again
        else if (c == b'i') || (c == b'I')
        then target_id
        else if (c == b'l') || (c == b'L')
        then target_lun
        else unknown)
    else unknown

-- The value of an option: read as a number, stored, and checked.
stored_value : (ℤ → Args → Args) → List ℕ → Cmd Args (Unit {0})
unfolding scan_int
stored_value store text args = elim (scan_int text) [
  | none ↦ exit (pos 1) args
  | some v ↦ if is_invalid v then exit (pos 1) (store v args) else pure tt (store v args)
]

abbrev set_id : ℤ → Args → Args
set_id v args = record args { id = v }

abbrev set_lun : ℤ → Args → Args
set_lun v args = record args { lun = v }

-- One argument with none behind it.
last_argument : Choice → Cmd Args (Unit {0})
last_argument help args = exit (pos 0) args
last_argument verbose args = pure tt (record args { verbosity = args.verbosity + 1 })
last_argument again args = pure tt (record args { continuous = true })
last_argument _ args = exit (pos 1) args

-- One argument, the next one, and the loop from there or from behind it.
next_argument : Choice → List ℕ → (from behind : Cmd Args (Unit {0})) → Cmd Args (Unit {0})
next_argument help value from behind args = exit (pos 0) args
next_argument verbose value from behind args = from (record args { verbosity = args.verbosity + 1 })
next_argument again value from behind args = from (record args { continuous = true })
next_argument target_id value from behind args =
    and_then (stored_value set_id value args) (λ _. behind)
next_argument target_lun value from behind args =
    and_then (stored_value set_lun value args) (λ _. behind)
next_argument unknown value from behind args = exit (pos 1) args

-- The loop over the arguments behind the program's name.
unfoldable pub parse : List (List ℕ) → Cmd Args (Unit {0})
unfolding choice stored_value last_argument next_argument
parse [] args = pure tt args
parse (a ∷ []) args = last_argument (choice a) args
parse (a ∷ b ∷ rest) args = next_argument (choice a) b (parse (b ∷ rest)) (parse rest) args

-- How many blocks the buffer takes, from the block size and the number of blocks of the disk; none
-- if these are refused.
unfoldable pub plan : ℕ → ℕ → Option ℕ
plan block_size number_blocks =
    let fit = max_buffer_size / block_size in
    let capped = if ltb max_blocks fit then max_blocks else fit in
    if is_negative block_size
      || ltb block_size 4
      || exceeds block_size max_buffer_size
      || is_negative number_blocks
      || ltb number_blocks 1
    then none
    else some (if ltb number_blocks capped then number_blocks else capped)

module _ {D : Type 0} (lib : Library D) where
  unfoldable pub fill : Address → ℕ → List ℕ → ℕ → Cmd D ℤ
  unfolding outcome
  fill address number_blocks memory data_len = do
    r ← call (
        lib.scsi_command address
          (transfer scmd_write_10 sflag_data_out address number_blocks memory data_len))
    pure (outcome r)

  -- The result and the memory, into which the data of the command went.
  unfoldable pub dump : Address → ℕ → List ℕ → ℕ → Cmd D (ℤ × List ℕ)
  unfolding outcome
  dump address number_blocks memory data_len = do
    r ← call (
        lib.scsi_command address
          (transfer scmd_read_10 sflag_data_in address number_blocks memory data_len))
    pure (outcome r, overwrite (take data_len r.0.bytes) memory)

  -- `memory` is what lies in the buffer and behind it; the result is what is left there.
  unfoldable pub fill_test : Address → ℕ → List ℕ → ℕ → Cmd D (List ℕ)
  unfolding fill dump
  fill_test address buffer_blocks memory buffer_size = do
    let set_up = overwrite (pattern_bytes (rounds buffer_size) value_start) memory
    written ← fill address buffer_blocks set_up buffer_size
    if written ==ℤ scsi_ok
        then (do
          (result, got) ←
              dump address buffer_blocks (overwrite (replicate buffer_size 0) set_up) buffer_size
          if result ==ℤ scsi_ok
              then (if matches (rounds buffer_size) value_start got then pure got else exit (pos 1))
              else exit (pos 1))
        else exit (pos 1)

  -- The trials. Without the continuous flag there is one; with it they go on until one fails, and
  -- `none` stands for as many as `fuel` that have passed.
  unfoldable pub trials : ℕ → Bool → Address → ℕ → List ℕ → ℕ → Cmd D (Option (List ℕ))
  trials zero continuous address blocks memory size d = ok none d
  trials (suc fuel) continuous address blocks memory size d =
      and_then (fill_test address blocks memory size d) (λ memory' d'. elim continuous [
        | true ↦ trials fuel true address blocks memory' size d'
        | false ↦ ok (some memory') d'
      ])

  -- The end of `main` once the trials are over.
  finish : Option (List ℕ) → Cmd D (Unit {0})
  finish none = pure tt
  finish (some memory) = do call lib.scsi_free; exit (pos 0)

  test_memory : ℕ → Bool → Address → ℕ → ℕ → Option (List ℕ) → Cmd D (Unit {0})
  unfolding finish
  test_memory fuel continuous address blocks size none = exit (pos 1)
  test_memory fuel continuous address blocks size (some memory) =
      trials fuel continuous address blocks memory size >>= finish

  test_blocks : ℕ → Bool → Address → ℕ → Option ℕ → Cmd D (Unit {0})
  unfolding test_memory
  test_blocks fuel continuous address block_size none = exit (pos 1)
  test_blocks fuel continuous address block_size (some blocks) =
      call (lib.scsi_malloc (blocks * block_size))
      >>= test_memory fuel continuous address blocks (blocks * block_size)

  test_device : ℕ → Bool → Address → Option Device → Cmd D (Unit {0})
  unfolding test_blocks
  test_device fuel continuous address none = exit (pos 1)
  test_device fuel continuous address (some device) =
      let block_size = device.block_size address.lun in
      if device.type == sdev_direct_access
      then test_blocks fuel continuous address block_size
          (plan block_size (word_add (device.last_block address.lun) 1))
      else exit (pos 1)

  -- `main` behind the arguments. It returns only while trials are still going on.
  unfoldable pub run_test : ℕ → Args → Cmd D (Unit {0})
  unfolding plan test_device
  run_test fuel args = do
    let address : Address = record { id = args.id; lun = args.lun }
    id ← call lib.scsi_initialise
    if is_neg id || (id ==ℤ args.id) then exit (pos 1) else (do
      call lib.scsi_reset_bus
      found ← call (lib.scsi_find_device address)
      test_device fuel args.continuous address found)

  unfoldable pub main : ℕ → List (List ℕ) → Cmd D (Unit {0})
  unfolding parse run_test
  main fuel arguments d = elim (parse arguments defaults) [
    | ok _ args ↦ run_test fuel args d
    | exited code args ↦ exited code d
  ]
