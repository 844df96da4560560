-- ===== src/Target/Examples.antt =====
-- The driver of TTM50/EXAMPLES/TARGET.C at work: tests, and the theorems at concrete calls.
use ttm.Prelude.{
  ℕ, ◌+◌, ◌*◌, ◌%◌, ◌≡◌, refl, inr, true, false, List, [], ◌∷◌, ◌++◌, arith, ℤ, pos, ◌==◌,
  if◌then◌else◌, get_or, take, replicate, codes,
}
use ttm.Scsi.{
  scmd_inquiry, scmd_send, starg_command, starg_data_in, starg_data_out, starg_disconnect,
  starg_reselect, starg_abort, scsi_reset, sdev_processor, squal_connected,
}
use ttm.Scsi.Inquiry.{of_bytes, Inquiry}
use ttm.Target.{State, Target, reply, target_inquiry, target_command, target_callback}
use ttm.Target.Invariant.{Is24Bit, IsValid, Fits, callback-IsValid, callback-Fits}
use ttm.Target.Session.{serve, Completed}
use ttm.Target.Session.Sequence.{AllCompleted, serve_all, serve_all-AllCompleted}
use ttm.Target.Session.Total.{serve-completes, length_asked, final_status}
use ttm.Target.Ownership.{visits, calls_off, visits-keep, disconnect-visits, two_resets-intrude}
use ttm.Target.Identity.{IsSent, inquiry_identity}

-- A SCSI library that reads three bytes, the most significant first.
abbrev get_value : List ℕ → ℕ → ℕ
get_value source n =
    (get_or source 0 0 % 256 * 256 + get_or source 1 0 % 256) * 256 + get_or source 2 0 % 256

get_value-Is24Bit : Is24Bit get_value
get_value-Is24Bit source = omega arith

abbrev idle : State
idle = record {
  residue = 0;
  direction = starg_data_in;
  data_at = 0x1000;
  buffer = replicate 40 0xff;
  busy = false;
  working = false;
}

abbrev request : List ℕ → ℤ → Target
request cdb reason = record {
  cdb = cdb;
  data_at = 0;
  data_len = 0;
  status = 0;
  reason = reason;
  flags = 0;
}

-- SEND of 10000 bytes.
abbrev send : Target
send = request (scmd_send ∷ 0 ∷ 0 ∷ 39 ∷ 16 ∷ 0 ∷ []) starg_command

abbrev inquiry : Target
inquiry = request (scmd_inquiry ∷ 0 ∷ 0 ∷ 0 ∷ 255 ∷ 0 ∷ []) starg_command

abbrev undisturbed : State → State
undisturbed st = st

-- The first and second part done, the state before the third.
abbrev sending : State
sending = record idle { residue = 10000; direction = starg_data_out; busy = true }

callback-IsValid_example : IsValid (target_callback get_value undisturbed idle send).state
callback-IsValid_example =
    callback-IsValid get_value get_value-Is24Bit idle send undisturbed (λ s v. v)
      (record { byte = omega arith; asked = omega arith; owned = λ h. ground arith })
      (record { residue_pos = λ h. ground arith; residue_lt = λ h. ground arith })

callback-Fits_example : Fits idle (target_callback get_value undisturbed idle send)
unfolding target_callback target_command
callback-Fits_example =
    callback-Fits get_value get_value-Is24Bit idle send undisturbed
      (record { byte = omega arith; asked = omega arith; owned = λ h. ground arith })
      (λ h. ground arith)
      (record { residue_pos = λ h. ground arith; residue_lt = λ h. ground arith }) (inr refl)

serve-completes_example :
    Completed 10000 3 0 (serve get_value undisturbed 10 (target_command get_value idle send))
unfolding length_asked final_status
serve-completes_example =
    serve-completes get_value get_value-Is24Bit idle send (omega arith) refl undisturbed
      (λ s b w. refl) 0

serve_all-AllCompleted_example :
    AllCompleted get_value
      (send ∷ send ∷ [])
      (serve_all get_value undisturbed (send ∷ send ∷ []) idle)
serve_all-AllCompleted_example =
    serve_all-AllCompleted get_value undisturbed get_value-Is24Bit (λ s b w. refl)
      (send ∷ send ∷ []) idle (omega arith, (omega arith, tt)) refl

abbrev resets : List Target
resets = request [] scsi_reset ∷ send ∷ []

visits-keep_example :
    visits get_value (record sending { working = true }) resets
    ≡ record sending { working = calls_off resets == 0 }
unfolding calls_off
visits-keep_example =
    visits-keep get_value (record sending { working = true }) resets (refl, (refl, tt)) refl refl
      (omega arith)

disconnect-visits_example :
    target_callback get_value (λ s. visits get_value s resets) sending (request [] starg_disconnect)
    ≡ (if calls_off resets == 0
        then reply (record sending { working = false }) (request [] starg_disconnect) starg_reselect
        else reply
            (record sending { busy = false; working = false })
            (request [] starg_disconnect)
            (pos 7))
unfolding calls_off
disconnect-visits_example =
    disconnect-visits get_value sending (request [] starg_disconnect) resets refl (refl, (refl, tt))
      refl (omega arith)

abbrev intruders : List Target
intruders = request [] scsi_reset ∷ request [] starg_abort ∷ send ∷ []

two_resets-intrude_example :
    let woken =
      target_callback get_value
        (λ s. visits get_value s intruders)
        sending
        (request [] starg_disconnect) in
    ((visits get_value (record sending { working = true }) intruders).busy ≡ true)
    × (woken.action ≡ pos 7)
    × (woken.state.residue ≡ 10000)
    × (woken.state.busy ≡ false)
two_resets-intrude_example =
    two_resets-intrude get_value sending (request [] starg_disconnect) (request [] scsi_reset)
      (request [] starg_abort) send refl refl refl refl refl refl refl get_value-Is24Bit
      (omega arith)

inquiry_identity_example :
    let q = of_bytes (take 36 (target_command get_value idle inquiry).state.buffer) in
    IsSent idle 255 (target_command get_value idle inquiry)
    × (q ≡ target_inquiry)
    × (q.type ≡ sdev_processor)
    × (q.qualifier ≡ squal_connected)
    × (q.vendor ≡ codes "TRANST  ")
    × (q.product ≡ codes "Example Target 0")
    × (q.revision ≡ codes "001" ++ 0 ∷ [])
inquiry_identity_example =
    inquiry_identity get_value idle inquiry refl refl (omega arith) (omega arith) (omega arith)

abbrev printer : Inquiry
printer = record {
  type = 2;
  qualifier = 0;
  modifier = 1;
  rmb = 1;
  ansi = 2;
  ecma = 0;
  iso = 0;
  format = 2;
  trmiop = 0;
  aenc = 1;
  length = 31;
  sftre = 1;
  cmdque = 0;
  linked = 1;
  sync = 1;
  wbus16 = 0;
  wbus32 = 0;
  reladr = 1;
  vendor = codes "ACME    ";
  product = codes "LinePrinter     ";
  revision = codes "2.01";
}
