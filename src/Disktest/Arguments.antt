-- ===== src/Disktest/Arguments.antt =====
-- The arguments of TTM50/EXAMPLES/DISKTEST.C.
use ttm.Prelude.{ℕ, ◌≡◌, refl, ◌⊎◌, inl, inr, false, List, [], ◌∷◌, arith, pos}
use ttm.Prelude.Run.{Run, ok, exited, Cmd, and_then}
use ttm.Disktest.{
  Args, is_invalid, Choice, help, verbose, again, target_id, target_lun, unknown, choice,
  stored_value, set_id, set_lun, last_argument, next_argument, parse,
}

-- The id and the logical unit number are those of a SCSI bus.
pub record IsInRange (args : Args) : Type 0 where
  pub id : is_invalid args.id ≡ false
  pub lun : is_invalid args.lun ≡ false

-- The outcome of the arguments: in range, or an end of the program with exit code 0 or 1.
abbrev pub Settled : Run Args (Unit {0}) → Type 0
Settled (ok _ args) = IsInRange args
Settled (exited code args) = (code ≡ pos 0) ⊎ (code ≡ pos 1)

stored_id : (text : List ℕ) (args : Args) → IsInRange args → Settled (stored_value set_id text args)
unfolding stored_value
stored_id text args r = ground arith

stored_lun :
    (text : List ℕ) (args : Args) → IsInRange args → Settled (stored_value set_lun text args)
unfolding stored_value
stored_lun text args r = ground arith

Settled-then :
    (r : Run Args (Unit {0})) (f : Unit {0} → Cmd Args (Unit {0}))
    → Settled r
    → ((args : Args) → IsInRange args → Settled (f tt args))
    → Settled (and_then r f)
Settled-then (ok u args) f s g = g args s
Settled-then (exited code args) f s g = s

last_argument-Settled : (c : Choice) (args : Args) → IsInRange args → Settled (last_argument c args)
unfolding last_argument
last_argument-Settled help args r = inl refl
last_argument-Settled verbose args r = ground arith
last_argument-Settled again args r = ground arith
last_argument-Settled _ args r = inr refl

module _ (value : List ℕ) (from behind : Cmd Args (Unit {0}))
    (from_ok : (args : Args) → IsInRange args → Settled (from args))
    (behind_ok : (args : Args) → IsInRange args → Settled (behind args)) where
  next_argument-Settled :
      (c : Choice) (args : Args) → IsInRange args → Settled (next_argument c value from behind args)
  unfolding next_argument
  next_argument-Settled help args r = inl refl
  next_argument-Settled verbose args r = from_ok _ (ground arith)
  next_argument-Settled again args r = from_ok _ (ground arith)
  next_argument-Settled target_id args r =
      Settled-then (stored_value set_id value args) (λ _. behind) (stored_id value args r) behind_ok
  next_argument-Settled target_lun args r =
      Settled-then (stored_value set_lun value args) (λ _. behind) (stored_lun value args r)
        behind_ok
  next_argument-Settled unknown args r = inr refl

-- Whatever the arguments are, they leave an id and a logical unit number from 0 to 7, or the
-- program ends with exit code 0 or 1, provided that the values before them are in range.
pub parse-Settled :
    (arguments : List (List ℕ)) (args : Args) → IsInRange args → Settled (parse arguments args)
unfolding parse
parse-Settled [] args r = r
parse-Settled (a ∷ []) args r = last_argument-Settled (choice a) args r
parse-Settled (a ∷ b ∷ rest) args r =
    next_argument-Settled b (parse (b ∷ rest)) (parse rest) (parse-Settled (b ∷ rest))
      (parse-Settled rest) (choice a) args r
