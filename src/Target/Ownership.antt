-- ===== src/Target/Ownership.antt =====
-- While a command of TTM50/EXAMPLES/TARGET.C is disconnected the driver unlocks the SCSI system,
-- and calls for other commands reach `target_callback`. They share its one state structure.
use ttm.Prelude.{
  ℕ, suc, ◌≤◌, ◌<◌, ◌≡◌, refl, ap, inl, inr, true, false, ◌||◌, List, [], ◌∷◌, arith, ◌==◌, ◌==ℤ◌,
  if◌then◌else◌, Bool-cases, get_or, drop, All,
}
use ttm.Scsi.{
  scmd_send, starg_command, starg_data_in, starg_data_out, starg_disconnect, starg_reselect,
  starg_restart, starg_data_out,
}
use ttm.Target.{State, Target, reply, target_command, target_callback}
use ttm.Target.Invariant.{Is24Bit}

-- A new command, or a reset, an abort or an unknown reason: none of the calls that belong to a
-- command under way.
abbrev pub IsForeign : Target → Type 0
IsForeign tg =
    ((tg.reason ==ℤ starg_data_in)
      || (tg.reason ==ℤ starg_data_out)
      || (tg.reason ==ℤ starg_disconnect)
      || (tg.reason ==ℤ starg_reselect))
    ≡ false

-- How many of the calls are no new commands.
unfoldable pub calls_off : List Target → ℕ
calls_off [] = 0
calls_off (tg ∷ tgs) = if tg.reason ==ℤ starg_command then calls_off tgs else suc (calls_off tgs)

module _ (get : List ℕ → ℕ → ℕ) where
  pub visit : State → Target → State
  visit st tg = (target_callback get (λ s. s) st tg).state

  unfoldable pub visits : State → List Target → State
  visits st [] = st
  visits st (tg ∷ tgs) = visits (visit st tg) tgs

  visit-command :
      (st : State) (tg : Target)
      → (tg.reason ==ℤ starg_command) ≡ true
      → st.busy ≡ true
      → visit st tg ≡ st
  unfolding visit target_callback target_command
  visit-command st tg e b = ground arith

  visit-called_off :
      (st : State) (tg : Target)
      → IsForeign tg
      → (tg.reason ==ℤ starg_command) ≡ false
      → visit st tg ≡ record st { busy = if st.working then st.busy else false; working = false }
  unfolding visit target_callback
  visit-called_off st tg f e = ground arith

  -- Once the working flag is down, further commands still find the driver busy.
  visits-commands :
      (st : State) (tgs : List Target)
      → All IsForeign tgs
      → st.busy ≡ true
      → calls_off tgs ≡ 0
      → visits st tgs ≡ st
  unfolding visits calls_off
  visits-commands st [] f b n = refl
  visits-commands st (tg ∷ tgs) f b n = elim (Bool-cases (tg.reason ==ℤ starg_command)) [
    | inl c ↦ rw (visit-command st tg c b) (visits-commands st tgs f.1 b (rw c at n))
    | inr c ↦ absurd (ground arith)
  ]

  -- Calls for other commands, of which at most one is a reset, an abort or an unknown reason, do
  -- not disturb a command that is disconnected: all that they may change is the working flag,
  -- which such a call takes down.
  pub visits-keep :
      (st : State) (tgs : List Target)
      → All IsForeign tgs
      → st.busy ≡ true
      → st.working ≡ true
      → calls_off tgs ≤ 1
      → visits st tgs ≡ record st { working = calls_off tgs == 0 }
  unfolding visits calls_off
  visits-keep st [] f b w n = ground arith
  visits-keep st (tg ∷ tgs) f b w n = elim (Bool-cases (tg.reason ==ℤ starg_command)) [
    | inl c ↦ rw (visit-command st tg c b, c) (visits-keep st tgs f.1 b w (rw c at n))
    | inr c ↦
        let down : State = record st { busy = true; working = false } in
        let none_left : calls_off tgs ≡ 0 = ground arith in
        rw (visit-called_off st tg f.0 c, w, b, c, none_left)
          (visits-commands down tgs f.1 refl none_left)
  ]

  -- After a command is disconnected and the calls above have come in, the driver goes on with it
  -- if none of them was a reset, an abort or an unknown reason, and else restarts and is free;
  -- what is left to transfer is as before.
  pub disconnect-visits :
      (st : State) (tg : Target) (tgs : List Target)
      → tg.reason ≡ starg_disconnect
      → All IsForeign tgs
      → st.busy ≡ true
      → calls_off tgs ≤ 1
      → target_callback get (λ s. visits s tgs) st tg ≡ (
          if calls_off tgs == 0
          then reply (record st { working = false }) tg starg_reselect
          else reply (record st { busy = false; working = false }) tg starg_restart)
  unfolding target_callback
  disconnect-visits st tg tgs e f b n =
      ground (arith, visits-keep (record st { working = true }) tgs f b refl n)

  visit-send :
      (st : State) (tg : Target)
      → Is24Bit get
      → st.busy ≡ false
      → tg.reason ≡ starg_command
      → get_or tg.cdb 0 0 ≡ scmd_send
      → 0 < get (drop 2 tg.cdb) 3
      → visit st tg ≡ record st { residue = get (drop 2 tg.cdb) 3; busy = true }
  unfolding visit target_callback target_command
  visit-send st tg bits b e o p = ground (arith, bits (drop 2 tg.cdb))

  callback-restart :
      (others : State → State) (st : State) (tg : Target)
      → tg.reason ≡ starg_disconnect
      → (others (record st { working = true })).working ≡ false
      → target_callback get others st tg
        ≡ reply (record (others (record st { working = true })) { busy = false }) tg starg_restart
  unfolding target_callback
  callback-restart others st tg e w = ground arith

  visits-intrude :
      (st : State) (first second send : Target)
      → IsForeign first
      → (first.reason ==ℤ starg_command) ≡ false
      → IsForeign second
      → (second.reason ==ℤ starg_command) ≡ false
      → send.reason ≡ starg_command
      → get_or send.cdb 0 0 ≡ scmd_send
      → Is24Bit get
      → 0 < get (drop 2 send.cdb) 3
      → visits (record st { working = true }) (first ∷ second ∷ send ∷ [])
        ≡ record st { residue = get (drop 2 send.cdb) 3; busy = true; working = false }
  unfolding visits
  visits-intrude st first second send f c f' c' s o bits p =
      rw (visit-called_off (record st { working = true }) first f c) (
        rw (visit-called_off (record st { working = false }) second f' c')
          (visit-send (record st { busy = false; working = false }) send bits refl s o p))

  -- A second reset, abort or unknown reason during the disconnect frees the driver, so that a SEND
  -- of another nexus is accepted and its length takes the place of what the disconnected command
  -- has left to transfer. When the disconnected command wakes up it takes the busy flag of the new
  -- one away.
  pub two_resets-intrude :
      (st : State) (tg first second send : Target)
      → tg.reason ≡ starg_disconnect
      → IsForeign first
      → (first.reason ==ℤ starg_command) ≡ false
      → IsForeign second
      → (second.reason ==ℤ starg_command) ≡ false
      → send.reason ≡ starg_command
      → get_or send.cdb 0 0 ≡ scmd_send
      → Is24Bit get
      → 0 < get (drop 2 send.cdb) 3
      → let calls = first ∷ second ∷ send ∷ [] in
        let woken = target_callback get (λ s. visits s calls) st tg in
        ((visits (record st { working = true }) calls).busy ≡ true)
        × (woken.action ≡ starg_restart)
        × (woken.state.residue ≡ get (drop 2 send.cdb) 3)
        × (woken.state.busy ≡ false)
  two_resets-intrude st tg first second send e f c f' c' s o bits p =
      let calls = first ∷ second ∷ send ∷ [] in
      let after = visits-intrude st first second send f c f' c' s o bits p in
      rw (callback-restart (λ t. visits t calls) st tg e (ap (λ t. t.working) after), after)
        (refl, refl, refl, refl)
