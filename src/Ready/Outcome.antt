-- ===== src/Ready/Outcome.antt =====
-- How TTM50/EXAMPLES/TEST.C ends.
use ttm.Prelude.{
  ℕ, ◌≡◌, refl, Bool, true, false, ◌||◌, not, ℤ, pos, is_neg, ◌==ℤ◌, ◌⊎◌, inl, inr, if◌then◌else◌,
}
use ttm.Prelude.Run.{Run, ok, exited, Cmd, pure, exit}
use ttm.Scsi.{Command}
use ttm.Scsi.Library.{Library}
use ttm.Ready.{target_address, ready_command, main}

-- The program has ended with exit code 1, and no command or a failed one, or it has printed the
-- status of the command. `id` is the own address, `answer` what the command gives.
abbrev pub Outcome : {D : Type 0} → ℤ → Command × ℤ → Run D ℕ → Type 0
Outcome id answer (ok status _) =
    ((is_neg id ≡ false) × ((id ==ℤ pos 0) ≡ false))
    × (((answer.1 ==ℤ pos 0) ≡ true) × (status ≡ answer.0.status))
Outcome id answer (exited code _) =
    (code ≡ pos 1)
    × ((is_neg id ≡ true) ⊎ (((id ==ℤ pos 0) ≡ true) ⊎ ((answer.1 ==ℤ pos 0) ≡ false)))

module _ {D : Type 0} (lib : Library D) (d : D) where
  abbrev pub own : ℤ
  own = (lib.scsi_initialise d).0

  abbrev pub replied : (Command × ℤ) × D
  replied = lib.scsi_command target_address ready_command (lib.scsi_initialise d).1

  -- The program returns exactly when the library starts, the own address is not the unit's and the
  -- command succeeds; it then prints the command's status. Else its exit code is 1.
  pub main-Outcome : Outcome own (replied.0) (main lib d)
  unfolding main
  main-Outcome = by_tests (is_neg own) (own ==ℤ pos 0) refl refl
    where
      send : Cmd D ℕ
      send t =
          let r = lib.scsi_command target_address ready_command t in
          if◌then◌else◌ {A = Cmd D ℕ} (not (r.0.1 ==ℤ pos 0)) (exit (pos 1)) (pure (r.0.0.status))
            (r.1)

      by_result :
          (good : Bool)
          → is_neg own ≡ false
          → (own ==ℤ pos 0) ≡ false
          → (replied.0.1 ==ℤ pos 0) ≡ good
          → Outcome own (replied.0) (
              if◌then◌else◌ {A = Cmd D ℕ}
                (not good)
                (exit (pos 1))
                (pure (replied.0.0.status))
                (replied.1))
      by_result true e f g = ((e, f), (g, refl))
      by_result false e f g = (refl, inr (inr g))

      by_tests :
          (negative same : Bool)
          → is_neg own ≡ negative
          → (own ==ℤ pos 0) ≡ same
          → Outcome own (replied.0) (
              if◌then◌else◌ {A = Cmd D ℕ}
                (negative || same)
                (exit (pos 1))
                send
                (lib.scsi_initialise d).1)
      by_tests true same e f = (refl, inl e)
      by_tests false true e f = (refl, inr (inl f))
      by_tests false false e f = by_result (replied.0.1 ==ℤ pos 0) e f refl
