-- ===== src/Flash/Exit.antt =====
-- Where the parts of TTM50/EXAMPLES/FLASH.C end the program: with EXIT_FAILURE alone.
use ttm.Prelude.{
  ℕ, zero, suc, ◌+◌, ◌≡◌, refl, Bool, true, false, Option, none, some, List, [], ◌∷◌, if◌then◌else◌,
}
use ttm.Prelude.Run.{Run, ok, exited, Cmd, and_then}
use ttm.Flash.{
  Eprom, read, write, wait, HexLine, file_end, empty, words, exit_failure, flash_word_size,
  read_line, read_i_i, reset_fe, zero_attempts, prog_to_0_from, prog_to_0, check_value_from,
  check_value, erase_verify_from, erase_attempts, erase, accept_line, get_line, prog_attempts,
  prog_ep, check_ep, use_line, for_lines, prog_hf, check_hf,
}

-- A part of the run goes on, or has ended the program with EXIT_FAILURE.
abbrev pub MayFail : {D A : Type 0} → Run D A → Type 0
MayFail (ok a d) = Unit {0}
MayFail (exited code d) = code ≡ exit_failure

unfoldable pub IsSafe : {D A : Type 0} → Cmd D A → Type 0
IsSafe {D} m = (d : D) → MayFail (m d)

and_then-IsSafe :
    {D A B : Type 0} (m : Cmd D A) (f : A → Cmd D B)
    → IsSafe m
    → ((a : A) → IsSafe (f a))
    → IsSafe (λ d. and_then (m d) f)
unfolding IsSafe
and_then-IsSafe m f h k d = and_then-MayFail (m d) f (h d) k
  where
    and_then-MayFail :
        {D A B : Type 0} (r : Run D A) (f : A → Cmd D B)
        → MayFail r
        → ((a : A) (d : D) → MayFail (f a d))
        → MayFail (and_then r f)
    and_then-MayFail (ok a d) f h k = k a d
    and_then-MayFail (exited code d) f h k = h

if-IsSafe :
    {D A : Type 0} (b : Bool) (m m' : Cmd D A) → IsSafe m → IsSafe m' → IsSafe (if b then m else m')
if-IsSafe true m m' h h' = h
if-IsSafe false m m' h h' = h'

pure-IsSafe : (D : Type 0) {A : Type 0} (a : A) → IsSafe (λ (d : D). ok a d)
unfolding IsSafe
pure-IsSafe D a d = tt

exit-IsSafe : (D A : Type 0) → IsSafe {D = D} {A = A} (λ d. exited exit_failure d)
unfolding IsSafe
exit-IsSafe D A d = refl

module _ {D : Type 0} (eprom : Eprom D) where
  read-IsSafe : (a : ℕ) → IsSafe (read eprom a)
  unfolding read IsSafe
  read-IsSafe a d = tt

  write-IsSafe : (a v : ℕ) → IsSafe (write eprom a v)
  unfolding write IsSafe
  write-IsSafe a v d = tt

  wait-IsSafe : (n : ℕ) → IsSafe (wait eprom n)
  unfolding wait IsSafe
  wait-IsSafe n d = tt

ruleset safe =
    (and_then-IsSafe, if-IsSafe, pure-IsSafe, exit-IsSafe, read-IsSafe, write-IsSafe, wait-IsSafe)

module _ {D : Type 0} (eprom : Eprom D) where
  pub reset_fe-IsSafe : IsSafe (reset_fe eprom)
  unfolding reset_fe
  reset_fe-IsSafe = search safe

  pub read_i_i-IsSafe : IsSafe (read_i_i eprom)
  unfolding read_i_i
  read_i_i-IsSafe = search safe depth 12

  zero_attempts-IsSafe : (r j ep_data : ℕ) → IsSafe (zero_attempts eprom r j ep_data)
  unfolding zero_attempts
  zero_attempts-IsSafe zero j ep_data = search safe
  zero_attempts-IsSafe (suc r) j ep_data = search (safe, zero_attempts-IsSafe r j) depth 12

  prog_to_0_from-IsSafe : (n j : ℕ) → IsSafe (prog_to_0_from eprom n j)
  unfolding prog_to_0_from IsSafe
  prog_to_0_from-IsSafe zero j = search safe
  prog_to_0_from-IsSafe (suc n) j = search (safe, zero_attempts-IsSafe, prog_to_0_from-IsSafe n)

  check_value_from-IsSafe : (n j value : ℕ) → IsSafe (check_value_from eprom n j value)
  unfolding check_value_from
  check_value_from-IsSafe zero j value = search safe
  check_value_from-IsSafe (suc n) j value = search (safe, check_value_from-IsSafe n)

  pub prog_to_0-IsSafe : IsSafe (prog_to_0 eprom)
  unfolding prog_to_0
  prog_to_0-IsSafe = prog_to_0_from-IsSafe flash_word_size 0

  pub check_value-IsSafe : (value : ℕ) → IsSafe (check_value eprom value)
  unfolding check_value
  check_value-IsSafe value = check_value_from-IsSafe flash_word_size 0 value

  erase_verify-IsSafe : (n j : ℕ) → IsSafe (erase_verify_from eprom n j)
  unfolding erase_verify_from
  erase_verify-IsSafe zero j = search safe
  erase_verify-IsSafe (suc n) j = search (safe, erase_verify-IsSafe n) depth 8

  erase_attempts-IsSafe : (r n : ℕ) → IsSafe (erase_attempts eprom r n)
  unfolding erase_attempts IsSafe
  erase_attempts-IsSafe zero n = search safe
  erase_attempts-IsSafe (suc r) n =
      search (safe, erase_verify-IsSafe, erase_attempts-IsSafe r) depth 8

  pub erase-IsSafe : IsSafe (erase eprom)
  unfolding erase
  erase-IsSafe = search (safe, erase_attempts-IsSafe) depth 8

  prog_attempts-IsSafe : (r base j value : ℕ) → IsSafe (prog_attempts eprom r base j value)
  unfolding prog_attempts
  prog_attempts-IsSafe zero base j value = search safe
  prog_attempts-IsSafe (suc r) base j value = search (safe, prog_attempts-IsSafe r) depth 12

  prog_ep-IsSafe : (base j : ℕ) (values : List ℕ) → IsSafe (prog_ep eprom base j values)
  unfolding prog_ep
  prog_ep-IsSafe base j [] = search safe
  prog_ep-IsSafe base j (v ∷ vs) =
      search (safe, prog_attempts-IsSafe, prog_ep-IsSafe base (j + 1) vs) depth 8

  check_ep-IsSafe : (base j : ℕ) (values : List ℕ) → IsSafe (check_ep eprom base j values)
  unfolding check_ep
  check_ep-IsSafe base j [] = search safe
  check_ep-IsSafe base j (v ∷ vs) = search (safe, check_ep-IsSafe base (j + 1) vs)

  accept_line-IsSafe : (l : Option HexLine) → IsSafe (accept_line eprom l)
  unfolding accept_line
  accept_line-IsSafe (some l) = search safe
  accept_line-IsSafe none = search (safe, reset_fe-IsSafe)

  get_line-IsSafe : (l : Option (List ℕ)) → IsSafe (get_line eprom l)
  unfolding get_line
  get_line-IsSafe l = accept_line-IsSafe (read_line l)

  module _ (act : ℕ → List ℕ → Cmd D (Unit {0}))
      (acts : (address : ℕ) (values : List ℕ) → IsSafe (act address values)) where
    use_line-IsSafe :
        (next : Cmd D (Unit {0})) → IsSafe next → (l : HexLine) → IsSafe (use_line eprom act next l)
    unfolding use_line
    use_line-IsSafe next h file_end = search safe
    use_line-IsSafe next h empty = h
    use_line-IsSafe next h (words address values) = search (safe, acts)

    for_lines-IsSafe : (lines : List (List ℕ)) → IsSafe (for_lines eprom act lines)
    unfolding for_lines
    for_lines-IsSafe [] = search (safe, get_line-IsSafe, use_line-IsSafe)
    for_lines-IsSafe (line ∷ lines) =
        search (safe, get_line-IsSafe, use_line-IsSafe, for_lines-IsSafe lines)

  pub prog_hf-IsSafe : (file : Option (List (List ℕ))) → IsSafe (prog_hf eprom file)
  unfolding prog_hf
  prog_hf-IsSafe none = search safe
  prog_hf-IsSafe (some file) = for_lines-IsSafe _ (λ address. prog_ep-IsSafe address 0) file

  pub check_hf-IsSafe : (file : Option (List (List ℕ))) → IsSafe (check_hf eprom file)
  unfolding check_hf
  check_hf-IsSafe none = search safe
  check_hf-IsSafe (some file) = for_lines-IsSafe _ (λ address. check_ep-IsSafe address 0) file
