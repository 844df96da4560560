-- ===== src/Probe.antt =====
-- TTM50/EXAMPLES/PROBE.C: the probe of the SCSI bus. What `main` and `probe_unit` print is kept as
-- the text of the rows below the header; the fixed texts above them are left out.
pub mod Row
pub mod Scan
pub mod Order
mod Examples
use ttm.Prelude.{
  ℕ, zero, suc, ◌+◌, ◌-◌, ◌*◌, ◌/◌, ◌%◌, Bool, true, false, not, ◌&&◌, ◌||◌, List, [], ◌∷◌, ◌++◌, ℤ,
  pos, is_neg, to_word, ltb, leb, ◌==◌, ◌==ℤ◌, if◌then◌else◌, get_or, take, replicate, overwrite,
  length, map, codes,
}
use ttm.Prelude.Run.{Run, ok, exited, Cmd, and_then, pure, exit, call, ◌>>=◌, ◌>>◌}
use ttm.Scsi.{
  Address, Command, sflag_data_in, scmd_inquiry, scsi_std_inquiry_size, sdev_communications,
  sdev_unknown, squal_no_device,
}
use ttm.Scsi.Inquiry.{Inquiry, of_bytes}
use ttm.Scsi.Library.{Library}

-- MAX_DEVICE_TYPE
abbrev pub max_device_type : ℕ
max_device_type = sdev_communications

abbrev pub device_type : List (List ℕ)
device_type =
    codes "Direct Access"
    ∷ codes "Sequential Access"
    ∷ codes "Printer"
    ∷ codes "Processor"
    ∷ codes "Write Once"
    ∷ codes "CD-ROM"
    ∷ codes "Scanner"
    ∷ codes "Optical Memory"
    ∷ codes "Medium Changer"
    ∷ codes "Communications"
    ∷ []

abbrev pub space : ℕ
space = b' '

abbrev pub newline : ℕ
newline = 10

-- isprint in the C locale
unfoldable pub is_print : ℕ → Bool
is_print c = leb 32 c && leb c 126

unfoldable pub print_data : List ℕ → List ℕ
unfolding is_print
print_data [] = []
print_data (c ∷ cs) = (if is_print c then c else space) ∷ print_data cs

-- %d of a number below 10
unfoldable pub digit : ℕ → ℕ
digit n = 48 + n

-- A digit of %x
unfoldable pub hex_digit : ℕ → ℕ
hex_digit n = if ltb n 10 then 48 + n else 87 + n

-- %- 17s
unfoldable pub padded : List ℕ → List ℕ
padded text = text ++ replicate (17 - length text) space

-- The column of the device type.
unfoldable pub type_text : ℕ → List ℕ
unfolding padded hex_digit
type_text type =
    if ltb type max_device_type
    then padded (get_or device_type type []) ++ (space ∷ [])
    else codes "Type 0x" ++ (hex_digit (type / 16) ∷ hex_digit (type % 16) ∷ replicate 9 space)

-- What is printed for a unit.
unfoldable pub row : ℕ → ℕ → Inquiry → List ℕ
unfolding digit type_text print_data
row id lun inquiry =
    (space ∷ digit id ∷ space ∷ space ∷ digit lun ∷ space ∷ space ∷ [])
    ++ (type_text inquiry.type
        ++ (print_data inquiry.vendor
            ++ (space
                ∷ (print_data inquiry.product
                    ++ (space ∷ (print_data inquiry.revision ++ (newline ∷ [])))))))

-- The inquiry command, for cleared inquiry data.
unfoldable pub inquiry_of : Address → Command
inquiry_of address = record {
  cdb = scmd_inquiry ∷ (to_word address.lun * 32 % 256) ∷ 0 ∷ 0 ∷ scsi_std_inquiry_size ∷ 0 ∷ [];
  cdb_len = 6;
  bytes = replicate scsi_std_inquiry_size 0;
  data_len = scsi_std_inquiry_size;
  residue = 0;
  status = 0;
  flags = sflag_data_in;
  timeout = 10;
}

-- The inquiry data after the command.
unfoldable pub inquiry_data : Command → Inquiry
unfolding of_bytes
inquiry_data command =
    of_bytes
      (overwrite (take scsi_std_inquiry_size command.bytes) (replicate scsi_std_inquiry_size 0))

-- The three returns before the printing are not taken.
unfoldable pub is_shown : Command × ℤ → Bool
unfolding inquiry_data
is_shown (command, result) =
    let inquiry = inquiry_data command in
    (result ==ℤ pos 0)
    && (not (command.residue == scsi_std_inquiry_size)
        && not ((inquiry.type == sdev_unknown) || (inquiry.qualifier == squal_no_device)))

-- The exit code for the arguments: any argument ends the program.
unfoldable pub usage_code : List ℕ → ℤ
usage_code argument =
    let first = get_or argument 0 0 in
    let c = get_or argument 1 0 in
    if ((first == b'-') || (first == b'/')) && ((c == b'h') || (c == b'H')) then pos 0 else pos 1

module _ {D : Type 0} (lib : Library D) where
  -- The text that is printed.
  unfoldable pub probe_unit : ℕ → ℕ → Cmd D (List ℕ)
  probe_unit id lun = do
    r ← call (
        lib.scsi_command (record { id = pos id; lun = pos lun })
          (inquiry_of (record { id = pos id; lun = pos lun })))
    if is_shown r then pure (row id lun (inquiry_data r.0)) else pure []

  -- for (address.lun = 0; …), by the rounds left and the next unit.
  unfoldable pub probe_units : ℕ → ℕ → ℕ → Cmd D (List ℕ)
  probe_units zero id lun = pure []
  probe_units (suc n) id lun = do
    text ← probe_unit id lun
    rest ← probe_units n id (lun + 1)
    pure (text ++ rest)

  -- for (address.id = 0; …). `scsi_id` is a variable of the library.
  unfoldable pub probe_ids : (D → ℤ) → ℕ → ℕ → Cmd D (List ℕ)
  probe_ids scsi_id zero id d = ok [] d
  probe_ids scsi_id (suc n) id d =
      and_then (if not (pos id ==ℤ scsi_id d) then probe_units 8 id 0 d else ok [] d)
        (λ text d'. and_then (probe_ids scsi_id n (id + 1) d') (λ rest d''. ok (text ++ rest) d''))

  -- The text of the rows; the exit code is 0 where it is given.
  unfoldable pub main : (D → ℤ) → List (List ℕ) → Cmd D (List ℕ)
  unfolding usage_code
  main scsi_id (argument ∷ rest) = exit (usage_code argument)
  main scsi_id [] = do
    id ← call lib.scsi_initialise
    if is_neg id then exit (pos 1) else (do call lib.scsi_reset_bus; probe_ids scsi_id 8 0)
