-- ===== src/Fulltest/Halting.antt =====
-- How the parts of TFS/EXAMPLES/TFS/FULLTEST.C end: they return, or an assertion of theirs fails.
pub mod Files
pub mod Names
use ttm.Prelude.{ℕ, zero, suc, ◌+◌, ◌≡◌, refl, Bool, true, false, List, ℤ, pos, if◌then◌else◌}
use ttm.Prelude.Run.{Run, ok, exited, Cmd, and_then, pure, exit, ◌>>=◌, ◌>>◌}
use ttm.Tfs.Library.{Library}
use ttm.Fulltest.{
  Machine, Tester, in_tfs, serious_error, minor_error, complain_if, random, assert, seek, read_cmp,
  write_cmp, write_orig, assert_same, put_block, check_part, overwrite_at, overwrite_blocks,
  clear_orig, write_whole, check_file, overwrite_file, overwrite_tst, compare_stats, test_fstat,
}

-- The run returns, or it ends the program with this code.
abbrev pub EndsWith : {S A : Type 0} → ℤ → Run S A → Type 0
EndsWith code (ok a s) = Unit {0}
EndsWith code (exited c s) = c ≡ code

pub record Halts {S A : Type 0} (code : ℤ) (m : Cmd S A) : Type 0 where
  pub at : (s : S) → EndsWith code (m s)

module _ {S : Type 0} {code : ℤ} where
  pub Halts-pure : {A : Type 0} (a : A) → Halts code (pure {S = S} a)
  Halts-pure a = record { at = λ s. tt }

  Halts-and_then :
      {A B : Type 0} (r : Run S A) (f : A → Cmd S B)
      → EndsWith code r
      → ((a : A) → Halts code (f a))
      → EndsWith code (and_then r f)
  Halts-and_then (ok a s) f e h = (h a).at s
  Halts-and_then (exited c s) f e h = e

  pub Halts-bind :
      {A B : Type 0} (m : Cmd S A) (f : A → Cmd S B)
      → Halts code m
      → ((a : A) → Halts code (f a))
      → Halts code (m >>= f)
  Halts-bind m f h k = record { at = λ s. Halts-and_then (m s) f (h.at s) k }

  pub Halts-then :
      {B : Type 0} (m : Cmd S (Unit {0})) (k : Cmd S B)
      → Halts code m
      → Halts code k
      → Halts code (m >> k)
  Halts-then m k h g = record { at = λ s. Halts-and_then (m s) _ (h.at s) (λ _. g) }

  pub Halts-if :
      {A : Type 0} (b : Bool) (m n : Cmd S A)
      → Halts code m
      → Halts code n
      → Halts code (if b then m else n)
  Halts-if true m n h k = h
  Halts-if false m n h k = k

-- The run returns true, or it ends the program with this code.
abbrev pub EndsTrue : {S : Type 0} → ℤ → Run S Bool → Type 0
EndsTrue code (ok b s) = b ≡ true
EndsTrue code (exited c s) = c ≡ code

-- Whatever the state, the tests come to their end, or an assertion of theirs fails.
pub record Completes {S : Type 0} (code : ℤ) (m : Cmd S Bool) : Type 0 where
  pub at : (s : S) → EndsTrue code (m s)

module _ {S : Type 0} {code : ℤ} where
  pub Completes-pure : Completes code (pure {S = S} true)
  Completes-pure = record { at = λ s. refl }

  and_then-EndsTrue :
      {A : Type 0} (r : Run S A) (f : A → Cmd S Bool)
      → EndsWith code r
      → ((a : A) → Completes code (f a))
      → EndsTrue code (and_then r f)
  and_then-EndsTrue (ok a s) f e h = (h a).at s
  and_then-EndsTrue (exited c s) f e h = e

  pub Completes-then :
      (m : Cmd S (Unit {0})) (k : Cmd S Bool)
      → Halts code m
      → Completes code k
      → Completes code (m >> k)
  Completes-then m k h g = record { at = λ s. and_then-EndsTrue (m s) _ (h.at s) (λ _. g) }

  EndsTrue-and_then :
      (r : Run S Bool) (f : Bool → Cmd S Bool)
      → EndsTrue code r
      → Completes code (f true)
      → EndsTrue code (and_then r f)
  EndsTrue-and_then (ok b s) f e h = rw e (h.at s)
  EndsTrue-and_then (exited c s) f e h = e

  pub Completes-bind :
      (m : Cmd S Bool) (f : Bool → Cmd S Bool)
      → Completes code m
      → Completes code (f true)
      → Completes code (m >>= f)
  Completes-bind m f h g = record { at = λ s. EndsTrue-and_then (m s) f (h.at s) g }

module _ {D : Type 0} {code : ℤ} where
  pub Halts-in_tfs : {A : Type 0} (f : D → A × D) → Halts code (in_tfs f)
  Halts-in_tfs f = record { at = λ s. tt }

  pub Halts-serious_error : Halts code (serious_error {D = D})
  unfolding serious_error
  Halts-serious_error = record { at = λ s. tt }

  pub Halts-minor_error : Halts code (minor_error {D = D})
  unfolding minor_error
  Halts-minor_error = record { at = λ s. tt }

pub ruleset halt_rules = (
  Halts-pure, Halts-bind, Halts-then, Halts-if, Halts-in_tfs, Halts-serious_error,
  Halts-minor_error,
)

module _ {D : Type 0} (lib : Library D) (machine : Machine D) (pid : ℤ) where
  pub Halts-random : (limit : ℕ) → Halts machine.abort_code (random lib machine pid limit)
  unfolding random
  Halts-random limit = search halt_rules

  pub Halts-assert : (b : Bool) → Halts machine.abort_code (assert lib machine pid b)
  unfolding assert
  Halts-assert true = record { at = λ s. tt }
  Halts-assert false = record { at = λ s. refl }

  pub Halts-seek : (fd : ℤ) (to : ℕ) → Halts machine.abort_code (seek lib machine pid fd to)
  unfolding seek
  Halts-seek fd to = record { at = λ s. tt }

  pub Halts-read_cmp : (fd : ℤ) (n : ℕ) → Halts machine.abort_code (read_cmp lib machine pid fd n)
  unfolding read_cmp
  Halts-read_cmp fd n = record { at = λ s. tt }

  pub Halts-write_cmp : (fd : ℤ) (n : ℕ) → Halts machine.abort_code (write_cmp lib machine pid fd n)
  unfolding write_cmp
  Halts-write_cmp fd n = record { at = λ s. tt }

  pub Halts-write_orig :
      (fd : ℤ) (from n : ℕ) → Halts machine.abort_code (write_orig lib machine pid fd from n)
  unfolding write_orig
  Halts-write_orig fd from n = record { at = λ s. tt }

  pub Halts-assert_same :
      (from n : ℕ) → Halts machine.abort_code (assert_same lib machine pid from n)
  unfolding assert_same
  Halts-assert_same from n = record { at = λ s. (Halts-assert _).at s }

  pub ruleset step_rules = (
    halt_rules, Halts-random, Halts-assert, Halts-seek, Halts-read_cmp, Halts-write_cmp,
    Halts-write_orig, Halts-assert_same,
  )

  Halts-put_block :
      (position count : ℕ) → Halts machine.abort_code (put_block lib machine pid position count)
  unfolding put_block
  Halts-put_block position count = record { at = λ s. tt }

  Halts-clear_orig : Halts machine.abort_code (clear_orig lib machine pid)
  unfolding clear_orig
  Halts-clear_orig = record { at = λ s. tt }

  Halts-check_part :
      (fd : ℤ) (position n : ℕ)
      → Halts machine.abort_code (check_part lib machine pid fd position n)
  unfolding check_part
  Halts-check_part fd position n = search step_rules

  Halts-overwrite_at :
      (fd : ℤ) (count position : ℕ)
      → Halts machine.abort_code (overwrite_at lib machine pid fd count position)
  unfolding overwrite_at
  Halts-overwrite_at fd count position =
      search (step_rules, Halts-put_block, Halts-check_part) depth 12

  Halts-overwrite_blocks :
      (fd : ℤ) (left count : ℕ)
      → Halts machine.abort_code (overwrite_blocks lib machine pid fd left count)
  unfolding overwrite_blocks
  Halts-overwrite_blocks fd zero count = search step_rules
  Halts-overwrite_blocks fd (suc left) count = Halts-bind _ _ (Halts-random _) (λ position.
      Halts-bind _ _ (Halts-overwrite_at fd count position) (λ goes_on.
        Halts-if goes_on _ _ (Halts-overwrite_blocks fd left (count + 1)) (Halts-pure false)))

  Halts-write_whole : (fd : ℤ) → Halts machine.abort_code (write_whole lib machine pid fd)
  unfolding write_whole
  Halts-write_whole fd = search step_rules

  Halts-check_file : (fd : ℤ) → Halts machine.abort_code (check_file lib machine pid fd)
  unfolding check_file
  Halts-check_file fd = search (step_rules, Halts-check_part)

  Halts-overwrite_file : (fd : ℤ) → Halts machine.abort_code (overwrite_file lib machine pid fd)
  unfolding overwrite_file
  Halts-overwrite_file fd =
      search
        (step_rules, Halts-clear_orig, Halts-write_whole, Halts-overwrite_blocks, Halts-check_file)

  pub Halts-overwrite_tst : Halts machine.abort_code (overwrite_tst lib machine pid)
  unfolding overwrite_tst
  Halts-overwrite_tst = search (step_rules, Halts-overwrite_file)

  Halts-compare_stats : (fd : ℤ) → Halts machine.abort_code (compare_stats lib machine pid fd)
  unfolding compare_stats
  Halts-compare_stats fd = search step_rules depth 12

  pub Halts-test_fstat : Halts machine.abort_code (test_fstat lib machine pid)
  unfolding test_fstat
  Halts-test_fstat = search (step_rules, Halts-compare_stats)
