-- ===== src/Scsi/Library.antt =====
-- The functions of the SCSI library that the programs call (TTM50/MAN/MAN3). The library is given
-- in binary form only: it is a parameter, over a state `D` of the SCSI bus and its devices.
use ttm.Prelude.{ℕ, ℤ, List, Option}
use ttm.Scsi.{Address, Command}

-- struct scsi_device, with the parameters of the direct access units by their number.
pub record Device : Type 0 where
  pub type : ℕ
  pub last_block : ℤ → ℕ
  pub block_size : ℤ → ℕ

pub record Library (D : Type 0) : Type 0 where
  pub scsi_initialise : D → ℤ × D
  pub scsi_reset_bus : D → (Unit {0}) × D
  pub scsi_find_device : Address → D → Option Device × D
  -- The command comes back with its data, residue and status, and the result.
  pub scsi_command : Address → Command → D → (Command × ℤ) × D
  -- The memory from the block on, if there is room for it.
  pub scsi_malloc : ℕ → D → Option (List ℕ) × D
  pub scsi_free : D → (Unit {0}) × D
