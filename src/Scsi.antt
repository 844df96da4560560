-- ===== src/Scsi.antt =====
-- TTM50/LIBS/SCSI.H: the constants and the structures of the SCSI library that the example
-- programs use.
pub mod Inquiry
pub mod Library
use ttm.Prelude.{ℕ, ℤ, pos, negsuc, List}

-- Function return codes.
abbrev pub scsi_ok : ℤ
scsi_ok = pos 0

abbrev pub scsi_not_ok : ℤ
scsi_not_ok = negsuc 0

abbrev pub scsi_reset : ℤ
scsi_reset = negsuc 4

-- Function flags.
abbrev pub sflag_data_in : ℕ
sflag_data_in = 0x001

abbrev pub sflag_data_out : ℕ
sflag_data_out = 0x002

abbrev pub sflag_no_disconnects : ℕ
sflag_no_disconnects = 0x004

-- SCSI commands.
abbrev pub scmd_test_unit_ready : ℕ
scmd_test_unit_ready = 0x00

abbrev pub scmd_receive : ℕ
scmd_receive = 0x08

abbrev pub scmd_send : ℕ
scmd_send = 0x0a

abbrev pub scmd_inquiry : ℕ
scmd_inquiry = 0x12

abbrev pub scmd_read_10 : ℕ
scmd_read_10 = 0x28

abbrev pub scmd_write_10 : ℕ
scmd_write_10 = 0x2a

abbrev pub scsi_std_inquiry_size : ℕ
scsi_std_inquiry_size = 36

-- SCSI device types and qualifiers.
abbrev pub sdev_direct_access : ℕ
sdev_direct_access = 0x00

abbrev pub sdev_processor : ℕ
sdev_processor = 0x03

abbrev pub sdev_communications : ℕ
sdev_communications = 0x09

abbrev pub sdev_unknown : ℕ
sdev_unknown = 0x1f

abbrev pub squal_connected : ℕ
squal_connected = 0x0

abbrev pub squal_no_device : ℕ
squal_no_device = 0x3

-- SCSI status.
abbrev pub sstat_good : ℕ
sstat_good = 0x00

abbrev pub sstat_check_condition : ℕ
sstat_check_condition = 0x02

abbrev pub sstat_busy : ℕ
sstat_busy = 0x08

-- SCSI target routine values.
abbrev pub starg_complete : ℤ
starg_complete = pos 0

abbrev pub starg_command : ℤ
starg_command = pos 1

abbrev pub starg_data_in : ℤ
starg_data_in = pos 2

abbrev pub starg_data_out : ℤ
starg_data_out = pos 3

abbrev pub starg_save_and_disconnect : ℤ
starg_save_and_disconnect = pos 4

abbrev pub starg_disconnect : ℤ
starg_disconnect = pos 5

abbrev pub starg_reselect : ℤ
starg_reselect = pos 6

abbrev pub starg_restart : ℤ
starg_restart = pos 7

abbrev pub starg_abort : ℤ
starg_abort = pos 8

-- struct scsi_address.
pub record Address : Type 0 where
  pub id : ℤ
  pub lun : ℤ

-- struct scsi_command, with the block and the data that its pointers lead to.
pub record Command : Type 0 where
  pub cdb : List ℕ
  pub cdb_len : ℕ
  pub bytes : List ℕ
  pub data_len : ℕ
  pub residue : ℕ
  pub status : ℕ
  pub flags : ℕ
  pub timeout : ℕ
