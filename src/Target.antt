-- ===== src/Target.antt =====
-- TTM50/EXAMPLES/TARGET.C: the state of the example target driver, `target_command` and
-- `target_callback`.
pub mod Invariant
pub mod Session
pub mod Ownership
pub mod Identity
mod Examples
use ttm.Prelude.{
  ℕ, ◌+◌, ◌-◌, ◌/◌, ◌%◌, Bool, true, false, ◌||◌, List, [], ◌∷◌, ◌++◌, ℤ, pos, is_neg, Option, none,
  some, word_sub, is_negative, exceeds, ◌==◌, ◌==ℤ◌, if◌then◌else◌, get_or, take, drop, overwrite,
  codes, word_mod,
}
use ttm.Scsi.{
  scsi_not_ok, scsi_reset, sflag_no_disconnects, scmd_test_unit_ready, scmd_receive, scmd_send,
  scmd_inquiry, scsi_std_inquiry_size, sdev_processor, squal_connected, sstat_good,
  sstat_check_condition, sstat_busy, starg_complete, starg_command, starg_data_in, starg_data_out,
  starg_save_and_disconnect, starg_disconnect, starg_reselect, starg_restart, starg_abort,
}
use ttm.Scsi.Inquiry.{Inquiry, to_bytes, cleared}

abbrev pub data_size : ℕ
data_size = 4096

-- struct state. `data_at` is the pointer to the buffer, and `buffer` what it holds.
pub record State : Type 0 where
  pub residue : ℕ
  pub direction : ℤ
  pub data_at : ℕ
  pub buffer : List ℕ
  pub busy : Bool
  pub working : Bool

-- The fields of struct scsi_target that the driver reads or writes.
pub record Target : Type 0 where
  pub cdb : List ℕ
  pub data_at : ℕ
  pub data_len : ℕ
  pub status : ℕ
  pub reason : ℤ
  pub flags : ℕ

-- What a call of the driver leaves behind and returns.
pub record Reply : Type 0 where
  pub state : State
  pub target : Target
  pub action : ℤ

abbrev pub reply : State → Target → ℤ → Reply
reply st tg a = record { state = st; target = tg; action = a }

-- strcpy( inquiry->vendor, … ) runs on into the product and the revision.
abbrev pub identity : List ℕ
identity = codes "TRANST  Example Target 0001" ++ 0 ∷ []

unfoldable pub target_inquiry : Inquiry
unfolding cleared
target_inquiry = record cleared {
  type = sdev_processor;
  qualifier = squal_connected;
  format = 2;
  length = scsi_std_inquiry_size - 4;
  sync = 1;
  vendor = take 8 identity;
  product = take 16 (drop 8 identity);
  revision = take 4 (drop 24 identity);
}

-- At most DATA_SIZE bytes go at a time.
abbrev pub chunk : ℕ → ℕ
chunk n = if exceeds n data_size then data_size else n

-- target->flags & SFLAG_NO_DISCONNECTS
abbrev pub no_disconnects : Target → Bool
no_disconnects tg = tg.flags / sflag_no_disconnects % 2 == 1

-- The cases SCMD_SEND and SCMD_RECEIVE once the length is read.
transfer_command : State → Target → ℤ → Reply
transfer_command st tg direction =
    if st.residue == 0
    then reply st (record tg { status = sstat_good }) starg_complete
    else reply (record st { busy = true })
        (record tg { data_len = chunk st.residue; data_at = st.data_at }) direction

-- The case SCMD_INQUIRY.
inquiry_command : State → Target → Reply
unfolding target_inquiry to_bytes
inquiry_command st tg =
    let asked = get_or tg.cdb 4 0 in
    let st' = record st { buffer = overwrite (to_bytes target_inquiry) st.buffer } in
    let n = if exceeds asked scsi_std_inquiry_size then scsi_std_inquiry_size else asked in
    if asked == 0
    then reply (record st' { residue = asked }) (record tg { status = sstat_good }) starg_complete
    else reply (record st' { residue = n; busy = true })
        (record tg { data_len = n; data_at = st.data_at }) starg_data_in

-- The case STARG_DATA_IN, STARG_DATA_OUT.
data_done : State → Target → Reply
data_done st tg =
    let st' = record st { residue = word_sub st.residue tg.data_len } in
    if st'.residue == 0
    then reply (record st' { busy = false }) (record tg { status = sstat_good }) starg_complete
    else if is_negative st'.residue
    then reply (record st' { busy = false }) tg scsi_not_ok
    else if no_disconnects tg
    then reply st' (record tg { data_len = chunk st'.residue }) tg.reason
    else reply (record st' { direction = tg.reason }) tg starg_save_and_disconnect

-- The case STARG_DISCONNECT. While the SCSI system is unlocked other processes may enter the
-- driver: `others` is what they make of the state.
disconnected : (State → State) → State → Target → Reply
disconnected others st tg =
    let st' = others (record st { working = true }) in
    if st'.working
    then reply (record st' { working = false }) tg starg_reselect
    else reply (record st' { busy = false }) tg starg_restart

-- The cases SCSI_RESET, STARG_ABORT and default.
called_off : State → Target → ℤ → Reply
called_off st tg a =
    reply (record st { busy = if st.working then st.busy else false; working = false }) tg a

-- `scsi_get_value` is the SCSI library's.
module _ (scsi_get_value : List ℕ → ℕ → ℕ) where
  unfoldable pub target_command : State → Target → Reply
  unfolding transfer_command inquiry_command
  target_command st tg =
      let opcode = get_or tg.cdb 0 0 in
      let asked = scsi_get_value (drop 2 tg.cdb) 3 % word_mod in
      if st.busy
      then reply st (record tg { status = sstat_busy }) starg_complete
      else if opcode == scmd_test_unit_ready
      then reply st (record tg { status = sstat_good }) starg_complete
      else if opcode == scmd_inquiry
      then inquiry_command st tg
      else if opcode == scmd_send
      then transfer_command (record st { residue = asked }) tg starg_data_out
      else if opcode == scmd_receive
      then transfer_command (record st { residue = asked }) tg starg_data_in
      else reply st (record tg { status = sstat_check_condition }) starg_complete

  unfoldable pub target_callback : (State → State) → State → Target → Reply
  unfolding data_done disconnected called_off
  target_callback others st tg =
      let reason = tg.reason in
      if reason ==ℤ starg_command
      then target_command st tg
      else if (reason ==ℤ starg_data_in) || (reason ==ℤ starg_data_out)
      then data_done st tg
      else if reason ==ℤ starg_disconnect
      then disconnected others st tg
      else if reason ==ℤ starg_reselect
      then reply st (record tg { data_len = chunk st.residue }) st.direction
      else if reason ==ℤ scsi_reset
      then called_off st tg scsi_reset
      else if reason ==ℤ starg_abort
      then called_off st tg starg_abort
      else called_off st tg scsi_not_ok

-- The state in which `main` starts the driver.
unfoldable pub reset_flags : State → State
reset_flags st = record st { busy = false; working = false }

-- `main`, over what its calls return: the id that `scsi_initialise` gives, the memory for the
-- state and for its buffer, and the result of `scsi_target`, which does not return while it
-- serves. The result is the exit code, if `main` states one.
unfoldable pub main : ℤ → Option State → Option ℕ → (State → Option ℤ) → Option ℤ
unfolding reset_flags
main id state_memory data_memory scsi_target =
    if is_neg id then some (pos 1) else elim state_memory [
      | none ↦ some (pos 1)
      | some st ↦ elim data_memory [
        | none ↦ some (pos 0)
        | some p ↦ elim (scsi_target (reset_flags (record st { data_at = p }))) [
          | none ↦ none
          | some result ↦ if result ==ℤ pos 0 then none else some (pos 1)
        ]
      ]
    ]
