-- ===== src/Flash/Program.antt =====
-- How TTM50/EXAMPLES/FLASH.C ends.
use ttm.Prelude.{ℕ, ◌≡◌, refl, Option, none, some, List, ◌⊎◌, inl, inr}
use ttm.Prelude.Run.{Run, ok, exited, Cmd, and_then}
use ttm.Flash.{Eprom, exit_failure, exit_success, read_i_i, reset_fe, check_hf, high_pr}
use ttm.Flash.Check.{IsQuiet, FileHolds, check_lines-FileHolds}
use ttm.Flash.Exit.{
  MayFail, IsSafe, reset_fe-IsSafe, read_i_i-IsSafe, prog_to_0-IsSafe, check_value-IsSafe,
  erase-IsSafe, prog_hf-IsSafe, check_hf-IsSafe,
}

-- There is a file, and the EPROM holds every word of every line of it.
abbrev pub Holds : {D : Type 0} → Eprom D → D → Option (List (List ℕ)) → Type 0
Holds eprom d none = ⊥
Holds eprom d (some file) = FileHolds eprom d file

-- The program has ended: with EXIT_FAILURE, or with EXIT_SUCCESS and the EPROM holds the file.
abbrev pub Programmed : {D : Type 0} → Eprom D → Option (List (List ℕ)) → Run D (Unit {0}) → Type 0
Programmed eprom file (ok _ d) = ⊥
Programmed eprom file (exited code d) =
    (code ≡ exit_failure) ⊎ ((code ≡ exit_success) × Holds eprom d file)

check_hf-Holds :
    {D : Type 0} (eprom : Eprom D)
    → IsQuiet eprom
    → (file : Option (List (List ℕ))) (d : D) {u : Unit {0}} {d' : D}
    → check_hf eprom file d ≡ ok u d'
    → Holds eprom d file × (d' ≡ d)
unfolding check_hf
check_hf-Holds eprom quiet none d h = cc
check_hf-Holds eprom quiet (some file) d h = check_lines-FileHolds eprom quiet file d h

module _ {D : Type 0} (eprom : Eprom D) (file : Option (List (List ℕ))) where
  after :
      {A : Type 0} (m : Cmd D A) (f : A → Cmd D (Unit {0}))
      → IsSafe m
      → ((a : A) (d : D) → Programmed eprom file (f a d))
      → (d : D) → Programmed eprom file (and_then (m d) f)
  unfolding IsSafe
  after m f h k d = step (m d) (h d)
    where
      step : (r : Run D _) → MayFail r → Programmed eprom file (and_then r f)
      step (ok a t) h = k a t
      step (exited code t) h = inl h

  last_check :
      IsQuiet eprom
      → (d : D)
      → Programmed eprom file (and_then (check_hf eprom file d) (λ _. exited exit_success))
  unfolding IsSafe
  last_check quiet d = step (check_hf eprom file d) refl (check_hf-IsSafe eprom file d)
    where
      step :
          (r : Run D (Unit {0}))
          → check_hf eprom file d ≡ r
          → MayFail r
          → Programmed eprom file (and_then r (λ _. exited exit_success))
      step (ok a t) e h =
          let (held, same) = check_hf-Holds eprom quiet file d e in inr (refl, rw same held)
      step (exited code t) e h = inl h

  -- If reading leaves the EPROM as it is, `high_pr` always ends the program, with EXIT_FAILURE or
  -- with EXIT_SUCCESS; with EXIT_SUCCESS, there is a file and the EPROM holds every word of every
  -- line of it.
  pub high_pr-Programmed : IsQuiet eprom → (d : D) → Programmed eprom file (high_pr eprom file d)
  unfolding high_pr
  high_pr-Programmed quiet = after _ _ reset (λ _. after _ _ ids (λ _. after _ _ reset (λ _.
      after _ _ ids (λ _. after _ _ reset (λ _. after _ _ (prog_to_0-IsSafe eprom) (λ _.
        after _ _ (check_value-IsSafe eprom _) (λ _. after _ _ reset (λ _.
          after _ _ (erase-IsSafe eprom) (λ _. after _ _ (check_value-IsSafe eprom _) (λ _.
            after _ _ reset (λ _.
              after _ _ (prog_hf-IsSafe eprom file)
                (λ _. after _ _ reset (λ _. after _ _ reset (λ _. last_check quiet))))))))))))))
    where
      reset : IsSafe (reset_fe eprom)
      reset = reset_fe-IsSafe eprom

      ids : IsSafe (read_i_i eprom)
      ids = read_i_i-IsSafe eprom
