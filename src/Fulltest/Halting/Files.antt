-- ===== src/Fulltest/Halting/Files.antt =====
-- How the tests at random positions of TFS/EXAMPLES/TFS/FULLTEST.C end.
use ttm.Prelude.{ℕ, zero, suc, ◌+◌, ◌%◌, false, List, [], ◌∷◌, ℤ, not, ◌==◌}
use ttm.Prelude.Run.{pure, ◌>>◌}
use ttm.Tfs.Library.{Library}
use ttm.Fulltest.{Machine, serious_error}
use ttm.Fulltest.Files.{
  note_differences, note_same, read_noting, read_asserting, reopen_and_read, number_orig, seq_write,
  tst_seq_write_rand_read, random_bytes, scramble, put_part, mark, rand_blocks, fill_gap, fill_gaps,
  reopen_and_compare, rand_write, tst_rand_write_seq_read,
}
use ttm.Fulltest.Halting.{
  Halts, Halts-pure, Halts-bind, Halts-then, Halts-if, Halts-in_tfs, halt_rules, Halts-random,
  Halts-read_cmp, Halts-seek, Halts-assert, Halts-serious_error, step_rules, Halts-assert_same,
}

module _ {D : Type 0} {code : ℤ} where
  Halts-note_differences : (xs ys : List ℕ) → Halts code (note_differences {D = D} xs ys)
  unfolding note_differences
  Halts-note_differences [] ys = search halt_rules
  Halts-note_differences (x ∷ xs) [] = search halt_rules
  Halts-note_differences (x ∷ xs) (y ∷ ys) =
      Halts-then _ _ (Halts-if (not (x == y)) _ _ Halts-serious_error (Halts-pure tt))
        (Halts-note_differences xs ys)

module _ {D : Type 0} (lib : Library D) (machine : Machine D) (pid : ℤ) where
  Halts-note_same : (from n : ℕ) → Halts machine.abort_code (note_same lib machine pid from n)
  unfolding note_same
  Halts-note_same from n = record { at = λ s. (Halts-note_differences _ _).at s }

  Halts-read_noting :
      (fd : ℤ) (left : ℕ) → Halts machine.abort_code (read_noting lib machine pid fd left)
  unfolding read_noting
  Halts-read_noting fd zero = search halt_rules
  Halts-read_noting fd (suc left) = Halts-bind _ _ (Halts-random lib machine pid _) (λ position.
      Halts-bind _ _ (Halts-seek lib machine pid fd position) (λ rv. Halts-if _ _ _ stop (
        Halts-bind _ _ (Halts-read_cmp lib machine pid fd _) (λ rv.
          Halts-if _ _ _ stop
            (Halts-then _ _ (Halts-note_same position _) (Halts-read_noting fd left))))))
    where
      stop : Halts machine.abort_code (serious_error {D = D} >> pure false)
      stop = search halt_rules

  Halts-read_asserting :
      (fd : ℤ) (left : ℕ) → Halts machine.abort_code (read_asserting lib machine pid fd left)
  unfolding read_asserting
  Halts-read_asserting fd zero = search halt_rules
  Halts-read_asserting fd (suc left) = Halts-bind _ _ (Halts-random lib machine pid _) (λ position.
      Halts-bind _ _ (Halts-seek lib machine pid fd position) (λ rv.
        Halts-then _ _ (Halts-assert lib machine pid _) (
          Halts-bind _ _ (Halts-read_cmp lib machine pid fd _) (λ rv.
            Halts-then _ _ (Halts-assert lib machine pid _) (
              Halts-then _ _ (Halts-assert_same lib machine pid position _)
                (Halts-read_asserting fd left))))))

  Halts-reopen_and_read : (fd : ℤ) → Halts machine.abort_code (reopen_and_read lib machine pid fd)
  unfolding reopen_and_read
  Halts-reopen_and_read fd = search (step_rules, Halts-read_asserting) depth 12

  Halts-number_orig : Halts machine.abort_code (number_orig lib machine pid)
  unfolding number_orig
  Halts-number_orig = record { at = λ s. tt }

  Halts-seq_write : (fd : ℤ) → Halts machine.abort_code (seq_write lib machine pid fd)
  unfolding seq_write
  Halts-seq_write fd =
      search (step_rules, Halts-number_orig, Halts-read_noting, Halts-reopen_and_read) depth 12

  pub Halts-tst_seq_write_rand_read :
      Halts machine.abort_code (tst_seq_write_rand_read lib machine pid)
  unfolding tst_seq_write_rand_read
  Halts-tst_seq_write_rand_read = search (step_rules, Halts-seq_write)

  Halts-random_bytes : (n : ℕ) → Halts machine.abort_code (random_bytes lib machine pid n)
  unfolding random_bytes
  Halts-random_bytes zero = search halt_rules
  Halts-random_bytes (suc n) =
      Halts-bind _ _ (Halts-in_tfs machine.rand)
        (λ r. Halts-bind _ _ (Halts-random_bytes n) (λ rest. Halts-pure (r % 256 ∷ rest)))

  Halts-scramble : Halts machine.abort_code (scramble lib machine pid)
  unfolding scramble
  Halts-scramble = Halts-bind _ _ (Halts-random_bytes _) (λ bytes. record { at = λ s. tt })

  Halts-put_part :
      (fd : ℤ) (from n : ℕ) → Halts machine.abort_code (put_part lib machine pid fd from n)
  unfolding put_part
  Halts-put_part fd from n = search step_rules

  Halts-mark : (from n : ℕ) → Halts machine.abort_code (mark lib machine pid from n)
  unfolding mark
  Halts-mark from n = record { at = λ s. tt }

  Halts-rand_blocks :
      (fd : ℤ) (left : ℕ) → Halts machine.abort_code (rand_blocks lib machine pid fd left)
  unfolding rand_blocks
  Halts-rand_blocks fd zero = search halt_rules
  Halts-rand_blocks fd (suc left) = Halts-bind _ _ (Halts-random lib machine pid _) (λ position.
      Halts-then _ _ (Halts-put_part fd position _)
        (Halts-then _ _ (Halts-mark position _) (Halts-rand_blocks fd left)))

  Halts-fill_gap : (fd : ℤ) (i : ℕ) → Halts machine.abort_code (fill_gap lib machine pid fd i)
  unfolding fill_gap
  Halts-fill_gap fd i = record {
    at = λ s. (Halts-if _ _ _ (Halts-put_part fd i _) (Halts-pure tt)).at s;
  }

  Halts-fill_gaps :
      (fd : ℤ) (left i : ℕ) → Halts machine.abort_code (fill_gaps lib machine pid fd left i)
  unfolding fill_gaps
  Halts-fill_gaps fd zero i = search halt_rules
  Halts-fill_gaps fd (suc left) i =
      Halts-then _ _ (Halts-fill_gap fd i) (Halts-fill_gaps fd left (i + 1))

  Halts-reopen_and_compare :
      (fd : ℤ) → Halts machine.abort_code (reopen_and_compare lib machine pid fd)
  unfolding reopen_and_compare
  Halts-reopen_and_compare fd = search step_rules depth 12

  Halts-rand_write : (fd : ℤ) → Halts machine.abort_code (rand_write lib machine pid fd)
  unfolding rand_write
  Halts-rand_write fd =
      search
        (step_rules, Halts-scramble, Halts-rand_blocks, Halts-fill_gaps, Halts-reopen_and_compare)

  pub Halts-tst_rand_write_seq_read :
      Halts machine.abort_code (tst_rand_write_seq_read lib machine pid)
  unfolding tst_rand_write_seq_read
  Halts-tst_rand_write_seq_read = search (step_rules, Halts-rand_write)
