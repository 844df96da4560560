-- ===== src/Prelude/Word.antt =====
-- Machine words of the transputer, which are 32 bits wide: an `int` or a `long` is its bit
-- pattern, a number below 2 ^ 32. The small integers that the C names as constants, among them
-- negative return codes, are ℤ.
use Prim.Native.Nat.{ℕ, ◌+◌, ◌-◌, ◌%◌}
use mathlib.Core.Bool.{Bool, true, false, ◌&&◌}
use mathlib.Core.Path.{◌≡◌, refl}
use ttm.Prelude.Tests.{ltb, leb, ◌==◌, eq→==}

abbrev pub word_mod : ℕ
word_mod = 4294967296

abbrev pub sign_bit : ℕ
sign_bit = 2147483648

-- a + b and a - b of two words.
abbrev pub word_add : ℕ → ℕ → ℕ
word_add a b = (a + b) % word_mod

abbrev pub word_sub : ℕ → ℕ → ℕ
word_sub a b = (a + word_mod - b) % word_mod

-- (int) w < 0.
abbrev pub is_negative : ℕ → Bool
is_negative w = leb sign_bit w

-- (int) w > k for a constant k that is not negative.
abbrev pub exceeds : ℕ → ℕ → Bool
exceeds w k = ltb k w && ltb w sign_bit

-- `negsuc n` is -(n + 1).
pub data ℤ : Type 0 where
  pos : ℕ → ℤ
  negsuc : ℕ → ℤ

infix 50 ◌==ℤ◌
abbrev pub ◌==ℤ◌ : ℤ → ℤ → Bool
pos a ==ℤ pos b = a == b
negsuc a ==ℤ negsuc b = a == b
_ ==ℤ _ = false

abbrev pub is_neg : ℤ → Bool
is_neg (pos _) = false
is_neg (negsuc _) = true

-- (unsigned) k
abbrev pub to_word : ℤ → ℕ
to_word (pos n) = n % word_mod
to_word (negsuc n) = word_mod - 1 - n % word_mod

pub ==ℤ-refl : (z : ℤ) → (z ==ℤ z) ≡ true
==ℤ-refl (pos n) = eq→== n n refl
==ℤ-refl (negsuc n) = eq→== n n refl
