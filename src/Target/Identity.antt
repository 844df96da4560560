-- ===== src/Target/Identity.antt =====
-- What the driver of TTM50/EXAMPLES/TARGET.C says of itself in answer to INQUIRY, and how its
-- `main` ends.
use ttm.Prelude.{
  if◌then◌else◌, ltb, ℕ, ◌≤◌, ◌<◌, ◌≡◌, refl, sym, ap, ◌∙◌, ◌↔◌, true, false, Option, none, some,
  List, [], ◌∷◌, ◌++◌, arith, ℤ, pos, is_neg, is_some, get_or, take, overwrite, length, codes,
  take-overwrite,
}
use ttm.Scsi.{scmd_inquiry, sdev_processor, squal_connected, starg_data_in}
use ttm.Scsi.Inquiry.{to_bytes, of_bytes}
use ttm.Scsi.Inquiry.Layout.{IsInRange, of_bytes-to_bytes}
use ttm.Target.{State, Target, Reply, target_inquiry, target_command, main}

target_inquiry-IsInRange : IsInRange target_inquiry
unfolding target_inquiry
target_inquiry-IsInRange = ground arith

inquiry-buffer :
    (get : List ℕ → ℕ → ℕ) (st : State) (tg : Target)
    → st.busy ≡ false
    → get_or tg.cdb 0 0 ≡ scmd_inquiry
    → (target_command get st tg).state.buffer ≡ overwrite (to_bytes target_inquiry) st.buffer
unfolding target_command
inquiry-buffer get st tg idle op = ground arith

target_inquiry-size : length (to_bytes target_inquiry) ≡ 36
unfolding target_inquiry to_bytes
target_inquiry-size = refl

stored :
    (buffer : List ℕ)
    → 36 ≤ length buffer
    → of_bytes (take 36 (overwrite (to_bytes target_inquiry) buffer)) ≡ target_inquiry
stored buffer room =
    ap of_bytes (
      ap (λ n. take n (overwrite (to_bytes target_inquiry) buffer)) (sym target_inquiry-size)
      ∙ take-overwrite (to_bytes target_inquiry) buffer (rw target_inquiry-size room))
    ∙ of_bytes-to_bytes target_inquiry target_inquiry-IsInRange

-- What is sent of the identity: no more than the initiator has room for.
abbrev pub IsSent : State → ℕ → Reply → Type 0
IsSent st allocated r =
    (r.action ≡ starg_data_in)
    × (r.target.data_at ≡ st.data_at)
    × (r.target.data_len ≡ (if ltb allocated 36 then allocated else 36))

inquiry-IsSent :
    (get : List ℕ → ℕ → ℕ) (st : State) (tg : Target)
    → st.busy ≡ false
    → get_or tg.cdb 0 0 ≡ scmd_inquiry
    → 0 < get_or tg.cdb 4 0
    → get_or tg.cdb 4 0 < 256
    → IsSent st (get_or tg.cdb 4 0) (target_command get st tg)
unfolding target_command
inquiry-IsSent get st tg idle op wanted byte = ground arith

-- An idle driver answers INQUIRY with the identity of a connected processor device: it asks for a
-- transfer to the initiator from the start of its buffer, of 36 bytes or of as many as byte 4 of
-- the command allows if these are fewer, and the first 36 bytes of the buffer hold the identity.
-- Byte 4 is from 1 to 255, and the buffer has 36 bytes or more. As the text in the source is one
-- character short, the product ends in the first digit of the revision, and the revision is what is
-- left, with the text's end mark.
pub inquiry_identity :
    (get : List ℕ → ℕ → ℕ) (st : State) (tg : Target)
    → st.busy ≡ false
    → get_or tg.cdb 0 0 ≡ scmd_inquiry
    → 0 < get_or tg.cdb 4 0
    → get_or tg.cdb 4 0 < 256
    → 36 ≤ length st.buffer
    → let q = of_bytes (take 36 (target_command get st tg).state.buffer) in
      IsSent st (get_or tg.cdb 4 0) (target_command get st tg)
      × (q ≡ target_inquiry)
      × (q.type ≡ sdev_processor)
      × (q.qualifier ≡ squal_connected)
      × (q.vendor ≡ codes "TRANST  ")
      × (q.product ≡ codes "Example Target 0")
      × (q.revision ≡ codes "001" ++ 0 ∷ [])
unfolding target_inquiry
inquiry_identity get st tg idle op wanted byte room =
    let e =
      ap (λ b. of_bytes (take 36 b)) (inquiry-buffer get st tg idle op) ∙ stored st.buffer room in
    (
      inquiry-IsSent get st tg idle op wanted byte,
      e,
      ap (λ q. q.type) e,
      ap (λ q. q.qualifier) e,
      ap (λ q. q.vendor) e,
      ap (λ q. q.product) e,
      ap (λ q. q.revision) e,
    )

-- `main` ends with exit code 0 exactly when the SCSI library and the state are there and the
-- memory for the buffer is not.
pub main-eq_zero :
    (id : ℤ) (state_memory : Option State) (data_memory : Option ℕ) (scsi_target : State → Option ℤ)
    → (main id state_memory data_memory scsi_target ≡ some (pos 0))
      ↔ ((is_neg id ≡ false) × (is_some state_memory ≡ true) × (is_some data_memory ≡ false))
unfolding main
main-eq_zero id none d t = (λ h. ground arith, λ h. ground arith)
main-eq_zero id (some st) none t = (λ h. ground arith, λ h. ground arith)
main-eq_zero id (some st) (some p) t = (λ h. ground arith, λ h. ground arith)
