-- ===== src/Flash/Attempts.antt =====
-- How often TTM50/EXAMPLES/FLASH.C tries to program a word.
use ttm.Prelude.{ℕ, zero, suc, ◌+◌, ◌*◌, ◌≤◌, ◌≡◌, sym, Bool, true, false, arith, if◌then◌else◌}
use ttm.Prelude.Run.{Run, ok, exited, Cmd, pure}
use ttm.Flash.{Eprom, read, write, wait, prog_attempts}

-- The EPROM with a count of the writes to it.
abbrev pub counted : {D : Type 0} → Eprom D → Eprom (D × ℕ)
counted eprom = record {
  read = λ a s. ((eprom.read a s.0).0, ((eprom.read a s.0).1, s.1));
  write = λ a v s. (tt, ((eprom.write a v s.0).1, s.1 + 1));
  proc_wait = λ n s. (tt, ((eprom.proc_wait n s.0).1, s.1));
}

-- From a count of `before` writes on: three writes for each attempt; one to `r` attempts if one
-- succeeded, and `r` if none did.
abbrev pub Tried : {D : Type 0} → ℕ → ℕ → Run (D × ℕ) Bool → Type 0
Tried r before (ok true s) = (before + 3 ≤ s.1) × (s.1 ≤ before + 3 * r)
Tried r before (ok false s) = s.1 ≡ before + 3 * r
Tried r before (exited code s) = ⊥

one_more :
    {D : Type 0} (r before : ℕ) (run : Run (D × ℕ) Bool)
    → Tried r (before + 3) run
    → Tried (suc r) before run
one_more r before (ok true s) h = (omega arith, omega arith)
one_more r before (ok false s) h = omega arith
one_more r before (exited code s) h = h

attempt :
    {D : Type 0} (r before : ℕ) (good : Bool) (next : Cmd (D × ℕ) Bool) (s : D × ℕ)
    → s.1 ≡ before + 3
    → Tried r s.1 (next s)
    → Tried (suc r) before (if◌then◌else◌ {A = Cmd (D × ℕ) Bool} good (pure true) next s)
attempt r before true next s e h = (omega arith, omega arith)
attempt r before false next s e h = one_more r before (next s) (rw (sym e) h)

module _ {D : Type 0} (eprom : Eprom D) where
  -- The loop over the attempts for a word makes three writes in each, makes at least one if
  -- it succeeds and at most as many attempts as it has rounds, and all of them when none succeeds.
  pub prog_attempts-Tried :
      (r base j value : ℕ) (s : D × ℕ)
      → Tried r s.1 (prog_attempts (counted eprom) r base j value s)
  unfolding prog_attempts read write wait
  prog_attempts-Tried zero base j value s = omega arith
  prog_attempts-Tried (suc r) base j value s =
      attempt r s.1 _ (prog_attempts (counted eprom) r base j value) (_, s.1 + 1 + 1 + 1)
        (omega arith) (prog_attempts-Tried r base j value (_, s.1 + 1 + 1 + 1))
