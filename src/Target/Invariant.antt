-- ===== src/Target/Invariant.antt =====
-- What holds between two calls of the target driver (TTM50/EXAMPLES/TARGET.C).
use ttm.Prelude.{ℕ, ◌≤◌, ◌<◌, ◌≡◌, ◌⊎◌, true, List, arith, get_or, drop}
use ttm.Scsi.{starg_data_in, starg_data_out, starg_reselect}
use ttm.Target.{State, Target, Reply, data_size, target_command, target_callback}

-- The driver has at most a 24-bit number of bytes to go while it is busy.
pub record IsValid (st : State) : Type 0 where
  pub residue_pos : st.busy ≡ true → 0 < st.residue
  pub residue_lt : st.busy ≡ true → st.residue < 16777216

-- What the manual promises of `scsi_get_value` with length 3: a value of 24 bits.
abbrev pub Is24Bit : (List ℕ → ℕ → ℕ) → Type 0
Is24Bit get = (source : List ℕ) → get source 3 < 16777216

-- What the SCSI system keeps to in a call: the block holds bytes, a transfer was asked for by the
-- driver, and a finished transfer and a reselection belong to a command under way.
pub record IsCall (st : State) (tg : Target) : Type 0 where
  pub byte : get_or tg.cdb 4 0 < 256
  pub asked : tg.data_len ≤ data_size
  pub owned :
      (tg.reason ≡ starg_data_in) ⊎ (tg.reason ≡ starg_data_out) ⊎ (tg.reason ≡ starg_reselect)
      → st.busy ≡ true

-- The action is a data transfer.
abbrev pub IsData : Reply → Type 0
IsData r = (r.action ≡ starg_data_in) ⊎ (r.action ≡ starg_data_out)

-- The call belongs to a transfer under way, whose place the driver does not set again.
abbrev pub IsLater : Target → Type 0
IsLater tg =
    (tg.reason ≡ starg_data_in) ⊎ (tg.reason ≡ starg_data_out) ⊎ (tg.reason ≡ starg_reselect)

-- The transfer asked for begins where the buffer of the state before the call does, is of no more
-- than the buffer holds and of no more than is left to go, and the driver is busy.
abbrev pub Fits : State → Reply → Type 0
Fits st r =
    (r.target.data_at ≡ st.data_at)
    × (r.state.data_at ≡ st.data_at)
    × (0 < r.target.data_len)
    × (r.target.data_len ≤ data_size)
    × (r.target.data_len ≤ r.state.residue)
    × (r.state.busy ≡ true)

module _ (get : List ℕ → ℕ → ℕ) (bits : Is24Bit get) (st : State) (tg : Target) where
  target_command-IsValid :
      get_or tg.cdb 4 0 < 256 → IsValid st → IsValid (target_command get st tg).state
  unfolding target_command
  target_command-IsValid h v = ground (arith, bits (drop 2 tg.cdb))

  target_command-Fits :
      get_or tg.cdb 4 0 < 256
      → IsData (target_command get st tg)
      → Fits st (target_command get st tg)
  unfolding target_command
  target_command-Fits h a = ground (arith, bits (drop 2 tg.cdb))

  module _ (others : State → State) where
    -- Every call leaves a valid state, provided that it is a call that the SCSI system makes and
    -- that the processes which enter during a disconnect leave a valid state.
    pub callback-IsValid :
        ((s : State) → IsValid s → IsValid (others s))
        → IsCall st tg
        → IsValid st
        → IsValid (target_callback get others st tg).state
    unfolding target_callback
    callback-IsValid keeps c v =
        ground (arith, target_command-IsValid, keeps (record st { working = true }))

    -- Whenever a call asks for a data transfer, the driver is busy, and the transfer lies within its
    -- buffer: it begins where the buffer does, and is of at least one byte, of no more than the
    -- buffer holds and of no more than is left to go. It is supposed that the state is valid, that
    -- the call is one that the SCSI system makes, and that in the calls of a transfer under way the
    -- pointer to the data is still the one that the driver has set.
    pub callback-Fits :
        IsCall st tg
        → (IsLater tg → tg.data_at ≡ st.data_at)
        → IsValid st
        → IsData (target_callback get others st tg)
        → Fits st (target_callback get others st tg)
    unfolding target_callback
    callback-Fits c p v a = ground (arith, target_command-Fits)
