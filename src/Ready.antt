-- ===== src/Ready.antt =====
-- TTM50/EXAMPLES/TEST.C: one TEST UNIT READY command to a fixed unit.
pub mod Outcome
mod Examples
use ttm.Prelude.{
  ℕ, ◌||◌, ◌*◌, ◌%◌, not, List, [], ◌∷◌, ℤ, pos, is_neg, ◌==ℤ◌, to_word, if◌then◌else◌,
}
use ttm.Prelude.Run.{Cmd, pure, exit, call, ◌>>=◌}
use ttm.Scsi.{Address, Command, scmd_test_unit_ready}
use ttm.Scsi.Library.{Library}

-- ID and LUN
abbrev pub target_address : Address
target_address = record { id = pos 0; lun = pos 0 }

unfoldable pub ready_command : Command
ready_command = record {
  cdb = scmd_test_unit_ready ∷ (to_word target_address.lun * 32 % 256) ∷ 0 ∷ 0 ∷ 0 ∷ 0 ∷ [];
  cdb_len = 6;
  bytes = [];
  data_len = 0;
  residue = 0;
  status = 0;
  flags = 0;
  timeout = 10;
}

-- The status that is printed; `main` then returns.
unfoldable pub main : {D : Type 0} → Library D → Cmd D ℕ
main lib = do
  id ← call lib.scsi_initialise
  if is_neg id || (id ==ℤ target_address.id) then exit (pos 1) else (do
    r ← call (lib.scsi_command target_address ready_command)
    if not (r.1 ==ℤ pos 0) then exit (pos 1) else pure r.0.status)
