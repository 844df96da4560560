-- ===== src/Target/Session/Total.antt =====
-- Every command that reaches the idle driver of TTM50/EXAMPLES/TARGET.C is carried through.
use ttm.Prelude.{
  ℕ, zero, suc, ◌+◌, ◌-◌, ◌*◌, ◌≤◌, ◌<◌, ◌≡◌, refl, ap, ◌∙◌, inl, inr, true, false, none, some,
  List, arith, ◌==◌, if◌then◌else◌, ◌||◌, ltb, ◌/◌, Bool-cases, get_or, drop, ℤ, le_or_lt,
}
use ttm.Scsi.{
  scmd_test_unit_ready, scmd_receive, scmd_send, scmd_inquiry, scsi_std_inquiry_size, sstat_good,
  sstat_check_condition, starg_complete, starg_disconnect, starg_reselect,
}
use ttm.Target.{State, Target, Reply, reply, data_size, chunk, no_disconnects, target_command}
use ttm.Target.Invariant.{Is24Bit}
use ttm.Target.Session.{
  Outcome, is_data, next_reason, call, serve, IsQuiet, IsMoving, Completed, with_transfer-Completed,
  finished, saved, waiting, call-last, call-more, call-saved, call-waiting, call-reselect,
}

Completed-mono :
    (n k : ℕ) (o : Outcome) → Completed n 1 sstat_good o → Completed n (suc k) sstat_good o
Completed-mono n k none c = elim c [ ]
Completed-mono n k (some (ns, r)) c = ground arith

module _ (get : List ℕ → ℕ → ℕ) (others : State → State) where
  serve-finished :
      (f : ℕ) (r : Reply)
      → r.action ≡ starg_complete
      → (r.state.busy ≡ false)
      → Completed 0 0 r.target.status (serve get others (suc f) r)
  unfolding serve
  serve-finished f r a b = ground arith

  serve-last :
      (f n : ℕ) (r : Reply)
      → 0 < n
      → n ≤ data_size
      → IsMoving n r
      → Completed n 1 sstat_good (serve get others (suc (suc f)) r)
  unfolding serve
  serve-last f n r p h m =
      ground (arith, call-last get others r n, serve-finished f (finished get others r))

  -- One step of `serve` over an action that a call follows.
  serve-transfer :
      (f m n k : ℕ) (r : Reply)
      → is_data r.action ≡ true
      → r.target.data_len ≡ data_size
      → Completed n k m (serve get others f (finished get others r))
      → Completed (data_size + n) (suc k) m (serve get others (suc f) r)
  unfolding serve
  serve-transfer f m n k r d e c =
      ground (
        arith,
        with_transfer-Completed data_size n k m (serve get others f (finished get others r)),
      )

  -- The driver after a disconnect and a reselection, with the next part asked for.
  abbrev resumed : ℕ → Reply → Reply
  resumed n r =
      let w = waiting get others (saved get others r n) in
      reply w.state (record w.target { reason = starg_reselect; data_len = chunk (n - data_size) })
        r.action

  -- A call between two transfers adds nothing to their list.
  serve-step :
      (f : ℕ) (reason : ℤ) (r : Reply)
      → next_reason r.action ≡ some reason
      → is_data r.action ≡ false
      → serve get others (suc f) r ≡ serve get others f (call get others reason r)
  unfolding serve
  serve-step f reason r e d = rw (e, serve) (rw d)

  serve-saved :
      IsQuiet others
      → (f n : ℕ) (r : Reply) → r.state.busy ≡ true
      → serve get others (suc (suc f)) (saved get others r n) ≡ serve get others f (resumed n r)
  serve-saved q f n r b =
      let s = saved get others r n in
      let w = waiting get others s in
      serve-step (suc f) starg_disconnect s refl refl
      ∙ ap (serve get others (suc f)) (call-waiting get others s q b)
      ∙ serve-step f starg_reselect w refl refl
      ∙ ap (serve get others f) (call-reselect get others w)

  resumed-IsMoving : (n : ℕ) (r : Reply) → IsMoving n r → IsMoving (n - data_size) (resumed n r)
  resumed-IsMoving n r m = ground arith

  -- A transfer of at most `k` parts is carried through within `3 k + 1` calls.
  serve-moving :
      IsQuiet others
      → (k f n : ℕ) (r : Reply) → 0 < n
      → n ≤ k * data_size
      → n < 16777216
      → IsMoving n r
      → Completed n k sstat_good (serve get others (suc (k * 3 + f)) r)
  serve-moving q zero f n r p h b m = absurd (omega arith)
  serve-moving q (suc k) f n r p h b m = elim (le_or_lt n data_size) [
    | inl small ↦
        let fuel : suc (suc k * 3 + f) ≡ suc (suc (k * 3 + f + 2)) = omega arith in
        rw fuel (Completed-mono _ k _ (serve-last (k * 3 + f + 2) n r p small m))
    | inr large ↦
        let total : n ≡ data_size + (n - data_size) = omega arith in
        rw total (elim (Bool-cases (no_disconnects r.target)) [
          | inl connected ↦
              let fuel : suc (suc k * 3 + f) ≡ suc (suc (k * 3 + (f + 2))) = omega arith in
              rw fuel (
                serve-transfer (suc (k * 3 + (f + 2))) _ (n - data_size) k r m.direction
                  (ground arith)
                  (serve-moving q k (f + 2) (n - data_size) (finished get others r) (omega arith)
                    (omega arith) (omega arith) (call-more get others r n large b m connected).0))
          | inr free ↦
              let fuel : suc (suc k * 3 + f) ≡ suc (suc (suc (suc (k * 3 + f)))) = omega arith in
              rw fuel (
                serve-transfer (suc (suc (suc (k * 3 + f)))) _ (n - data_size) k r m.direction
                  (ground arith)
                  (rw
                    (
                      call-saved get others r n large b m free,
                      serve-saved q (suc (k * 3 + f)) n r m.busy,
                    )
                    (serve-moving q k f (n - data_size) (resumed n r) (omega arith) (omega arith)
                      (omega arith) (resumed-IsMoving n r m))))
        ])
  ]

-- The bytes that a command transfers, and the status it ends with.
unfoldable pub length_asked : (List ℕ → ℕ → ℕ) → List ℕ → ℕ
length_asked get cdb =
    let opcode = get_or cdb 0 0 in
    let allocated = get_or cdb 4 0 in
    if (opcode == scmd_send) || (opcode == scmd_receive)
    then get (drop 2 cdb) 3
    else if opcode == scmd_inquiry
    then (if ltb allocated scsi_std_inquiry_size then allocated else scsi_std_inquiry_size)
    else 0

unfoldable pub final_status : List ℕ → ℕ
final_status cdb =
    let opcode = get_or cdb 0 0 in
    if (opcode == scmd_send)
      || (opcode == scmd_receive)
      || (opcode == scmd_inquiry)
      || (opcode == scmd_test_unit_ready)
    then sstat_good
    else sstat_check_condition

-- The number of buffers that n bytes fill, the last one perhaps in part.
abbrev pub parts : ℕ → ℕ
parts n = (n + 4095) / data_size

module _ (get : List ℕ → ℕ → ℕ) (bits : Is24Bit get) (st : State) (tg : Target)
    (byte : get_or tg.cdb 4 0 < 256) (idle : st.busy ≡ false) where
  pub command-IsMoving :
      0 < length_asked get tg.cdb
      → IsMoving (length_asked get tg.cdb) (target_command get st tg)
        × (final_status tg.cdb ≡ sstat_good)
        × (length_asked get tg.cdb < 16777216)
  unfolding target_command length_asked final_status
  command-IsMoving h = ground (arith, bits (drop 2 tg.cdb))

  command_complete :
      length_asked get tg.cdb ≡ 0
      → ((target_command get st tg).action ≡ starg_complete)
        × ((target_command get st tg).target.status ≡ final_status tg.cdb)
        × ((target_command get st tg).state.busy ≡ false)
  unfolding target_command length_asked final_status
  command_complete h = ground (arith, bits (drop 2 tg.cdb))

  module _ (others : State → State) (quiet : IsQuiet others) where
    -- A command that reaches the idle driver comes to its end, whatever its opcode and whether or
    -- not disconnects are enabled: within three calls for each buffer that its data fill, and one,
    -- the driver reports it complete with the status that belongs to the opcode and is free again.
    -- The transfers add up to the length asked for, each fits the buffer, and there are no more
    -- than the data fill buffers. It is supposed that byte 4 of the command is below 256, that the
    -- SCSI library reads 24-bit lengths and that what enters during a disconnect leaves a working
    -- driver's state alone.
    pub serve-completes :
        (f : ℕ)
        → let n = length_asked get tg.cdb in
          Completed n
            (parts n)
            (final_status tg.cdb)
            (serve get others (suc (parts n * 3 + f)) (target_command get st tg))
    serve-completes f = elim (le_or_lt (length_asked get tg.cdb) 0) [
      | inl nothing ↦
          let e : length_asked get tg.cdb ≡ 0 = omega arith in
          let (over, status, free) = command_complete e in
          rw (e, ← status)
            (serve-finished get others (parts 0 * 3 + f) (target_command get st tg) over free)
      | inr something ↦
          let (moving, good, small) = command-IsMoving something in
          rw good (
            serve-moving get others quiet (parts (length_asked get tg.cdb)) f
              (length_asked get tg.cdb) (target_command get st tg) something (omega arith) small
              moving)
    ]
