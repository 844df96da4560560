-- ===== src/Target/Session.antt =====
-- A whole command as TTM50/MAN/MAN3/TARGET lays it down for the SCSI system: after an action of
-- the driver (TTM50/EXAMPLES/TARGET.C) the system calls it again with the reason that belongs to
-- it, until the driver reports the command complete.
pub mod Sequence
pub mod Total
use ttm.Prelude.{
  ℕ, zero, suc, ◌+◌, ◌-◌, ◌*◌, ◌/◌, ◌≤◌, ◌<◌, ◌≡◌, refl, Bool, true, false, ◌||◌, Option, none,
  some, List, [], ◌∷◌, arith, ℤ, ◌==◌, ◌==ℤ◌, if◌then◌else◌, get_or, drop, length, All,
}
use ttm.Scsi.{
  scmd_test_unit_ready, scmd_receive, scmd_send, scmd_inquiry, scsi_std_inquiry_size, sstat_good,
  sstat_check_condition, starg_complete, starg_data_in, starg_data_out, starg_save_and_disconnect,
  starg_disconnect, starg_reselect,
}
use ttm.Target.{
  State, Target, Reply, reply, data_size, no_disconnects, chunk, target_command, target_callback,
}
use ttm.Target.Invariant.{Is24Bit}

abbrev pub is_data : ℤ → Bool
is_data a = (a ==ℤ starg_data_in) || (a ==ℤ starg_data_out)

-- The reason of the call that follows an action, if one does.
abbrev pub next_reason : ℤ → Option ℤ
next_reason a =
    if is_data a
    then some a
    else if a ==ℤ starg_save_and_disconnect
    then some starg_disconnect
    else if a ==ℤ starg_reselect
    then some starg_reselect
    else none

abbrev pub sum : List ℕ → ℕ
sum [] = 0
sum (n ∷ ns) = n + sum ns

-- The lengths of the transfers, in order, and the last reply.
abbrev pub Outcome : Type 0
Outcome = Option (List ℕ × Reply)

abbrev pub with_transfer : ℕ → Outcome → Outcome
with_transfer n none = none
with_transfer n (some (ns, r)) = some (n ∷ ns, r)

module _ (get : List ℕ → ℕ → ℕ) (others : State → State) where
  pub call : ℤ → Reply → Reply
  call reason r = target_callback get others r.state (record r.target { reason = reason })

  -- `none` stands for a command that goes on after so many calls.
  pub serve : ℕ → Reply → Outcome
  unfolding call
  serve zero r = none
  serve (suc fuel) r = elim (next_reason r.action) [
    | none ↦ some ([], r)
    | some reason ↦
        let rest = serve fuel (call reason r) in
        if is_data r.action then with_transfer r.target.data_len rest else rest
  ]

-- The command came to its end: its transfers add up to `n` bytes in `k` transfers or fewer, each
-- fits the buffer, and the driver is free again and reports the status.
abbrev pub Completed : ℕ → ℕ → ℕ → Outcome → Type 0
Completed n k status none = ⊥
Completed n k status (some (ns, r)) =
    (sum ns ≡ n)
    × (length ns ≤ k)
    × All (λ m. m ≤ data_size) ns
    × (r.action ≡ starg_complete)
    × (r.target.status ≡ status)
    × (r.state.busy ≡ false)

pub with_transfer-Completed :
    (m n k status : ℕ) (o : Outcome)
    → m ≤ data_size
    → Completed n k status o
    → Completed (m + n) (suc k) status (with_transfer m o)
with_transfer-Completed m n k status none h c = elim c [ ]
with_transfer-Completed m n k status (some (ns, r)) h c = ground arith

-- A data transfer with `n` bytes to go has been asked for.
pub record IsMoving (n : ℕ) (r : Reply) : Type 0 where
  pub direction : is_data r.action ≡ true
  pub residue : r.state.residue ≡ n
  pub busy : r.state.busy ≡ true
  pub part : r.target.data_len ≡ chunk n

-- Processes that enter during a disconnect leave the state of a busy, working driver alone.
abbrev pub IsQuiet : (State → State) → Type 0
IsQuiet others = (s : State) → s.busy ≡ true → s.working ≡ true → others s ≡ s

module _ (get : List ℕ → ℕ → ℕ) (others : State → State) (r : Reply) where
  abbrev pub finished : Reply
  finished = call get others r.action r

  pub call-last :
      (n : ℕ)
      → 0 < n
      → n ≤ data_size
      → IsMoving n r
      → (finished.action ≡ starg_complete)
        × (finished.target.status ≡ sstat_good)
        × (finished.state.busy ≡ false)
  unfolding call target_callback
  call-last n p h m = ground arith

  pub call-more :
      (n : ℕ)
      → data_size < n
      → n < 16777216
      → IsMoving n r
      → no_disconnects r.target ≡ true
      → IsMoving (n - data_size) finished × (no_disconnects finished.target ≡ true)
  unfolding call target_callback
  call-more n p h m c = ground arith

  -- The reply to a transfer that leaves more to do, where the driver may disconnect.
  abbrev pub saved : ℕ → Reply
  saved n =
      reply (record r.state { residue = n - data_size; direction = r.action })
        (record r.target { reason = r.action }) starg_save_and_disconnect

  pub call-saved :
      (n : ℕ)
      → data_size < n
      → n < 16777216
      → IsMoving n r
      → no_disconnects r.target ≡ false
      → finished ≡ saved n
  unfolding call target_callback
  call-saved n p h m c = ground arith

module _ (get : List ℕ → ℕ → ℕ) (others : State → State) (r : Reply) where
  -- The reply once the other processes have left the driver.
  abbrev pub waiting : Reply
  waiting =
      reply (record r.state { working = false }) (record r.target { reason = starg_disconnect })
        starg_reselect

  pub call-waiting :
      IsQuiet others → r.state.busy ≡ true → call get others starg_disconnect r ≡ waiting
  unfolding call target_callback
  call-waiting q b = ground (arith, q (record r.state { working = true }))

  pub call-reselect :
      call get others starg_reselect r
      ≡ reply r.state
          (record r.target { reason = starg_reselect; data_len = chunk r.state.residue })
          r.state.direction
  unfolding call target_callback
  call-reselect = refl
