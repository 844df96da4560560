-- ===== src/Prelude/Run.antt =====
-- Programs over a state that may end by `exit`: a value with the new state, or the exit code with
-- the state in which the program ended.
use mathlib.Core.Path.{◌≡◌, refl}
use ttm.Prelude.Word.{ℤ}

pub data Run (S A : Type 0) : Type 0 where
  ok : A → S → Run S A
  exited : ℤ → S → Run S A

abbrev pub Cmd : Type 0 → Type 0 → Type 0
Cmd S A = S → Run S A

abbrev pub pure : {S A : Type 0} → A → Cmd S A
pure a s = ok a s

-- exit( code )
abbrev pub exit : {S A : Type 0} → ℤ → Cmd S A
exit code s = exited code s

abbrev pub and_then : {S A B : Type 0} → Run S A → (A → Cmd S B) → Run S B
and_then (ok a s) f = f a s
and_then (exited code s) f = exited code s

infixl 5 ◌>>=◌ ◌>>◌
abbrev pub ◌>>=◌ : {S A B : Type 0} → Cmd S A → (A → Cmd S B) → Cmd S B
◌>>=◌ m f s = and_then (m s) f

abbrev pub ◌>>◌ : {S B : Type 0} → Cmd S (Unit {0}) → Cmd S B → Cmd S B
m >> k = m >>= λ _. k

-- A call of the environment, which cannot exit.
abbrev pub call : {S A : Type 0} → (S → A × S) → Cmd S A
call f s = ok (f s).0 (f s).1

-- Inversion of a run that went through its first part.
pub and_then-eq-ok :
    {S A B : Type 0} (r : Run S A) (f : A → Cmd S B) {b : B} {s : S}
    → and_then r f ≡ ok b s
    → (a : A) × (t : S) × (r ≡ ok a t) × (f a t ≡ ok b s)
and_then-eq-ok (ok a t) f h = (a, t, refl, h)
and_then-eq-ok (exited c t) f h = cc
