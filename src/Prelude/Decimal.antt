-- ===== src/Prelude/Decimal.antt =====
-- How sprintf prints an int by %d.
use Prim.Native.Nat.{ℕ, zero, suc, ◌+◌, ◌-◌, ◌*◌, ◌/◌, ◌%◌, ◌≤◌, ◌<◌}
use mathlib.Core.Path.{◌≡◌, refl, sym, ap, ◌∙◌}
use mathlib.Core.List.{List, [], ◌∷◌, ◌++◌}
use native.Mathlib.Omega.{arith}
use ttm.Prelude.Tests.{ltb, if◌then◌else◌, le_or_lt, lt→ltb, le→ltb}
use ttm.Prelude.Lists.{length, length-append}
use ttm.Prelude.Word.{ℤ, pos, negsuc}
use mathlib.Core.Logic.{inl, inr}

-- An int of 32 bits.
abbrev pub IsInt : ℤ → Type 0
IsInt (pos n) = n < 2147483648
IsInt (negsuc n) = n < 2147483648

-- The digits, with fuel for the most of them.
unfoldable pub decimal : ℕ → ℕ → List ℕ
decimal zero n = []
decimal (suc digits) n =
    let front = decimal digits (n / 10) in
    if ltb n 10 then (b'0' + n) ∷ [] else front ++ ((b'0' + n % 10) ∷ [])

-- An int has at most ten digits.
unfoldable pub print_int : ℤ → List ℕ
unfolding decimal
print_int (pos n) = decimal 10 n
print_int (negsuc n) = b'-' ∷ decimal 10 (n + 1)

abbrev pub tens : ℕ → ℕ
tens zero = 1
tens (suc k) = 10 * tens k

tens_positive : (k : ℕ) → 1 ≤ tens k
tens_positive zero = omega arith
tens_positive (suc k) = omega (arith, tens_positive k)

pub length-decimal_most : (k digits n : ℕ) → n < tens (suc k) → length (decimal digits n) ≤ suc k
unfolding decimal
length-decimal_most k zero n h = omega arith
length-decimal_most zero (suc digits) n h = rw (lt→ltb n 10 (omega (arith, h))) (omega arith)
length-decimal_most (suc k) (suc digits) n h = elim (le_or_lt 10 n) [
  | inr small ↦ rw (lt→ltb n 10 small) (omega arith)
  | inl large ↦ rw (le→ltb n 10 large) (
      omega (
        arith,
        length-append (decimal digits (n / 10)) ((b'0' + n % 10) ∷ []),
        length-decimal_most k digits (n / 10) (omega (arith, h)),
      ))
]

pub length-decimal_least :
    (k digits n : ℕ) → k < digits → tens k ≤ n → suc k ≤ length (decimal digits n)
unfolding decimal
length-decimal_least k zero n l h = absurd (omega arith)
length-decimal_least zero (suc digits) n l h = elim (le_or_lt 10 n) [
  | inr small ↦ rw (lt→ltb n 10 small) (omega arith)
  | inl large ↦
      rw (le→ltb n 10 large)
        (omega (arith, length-append (decimal digits (n / 10)) ((b'0' + n % 10) ∷ [])))
]
length-decimal_least (suc k) (suc digits) n l h =
    let t = tens_positive k in
    rw (le→ltb n 10 (omega (arith, h, t))) (
      omega (
        arith,
        length-append (decimal digits (n / 10)) ((b'0' + n % 10) ∷ []),
        length-decimal_least k digits (n / 10) (omega arith) (omega (arith, h)),
      ))

-- The value of the digits of a text, read onto a value.
abbrev value_onto : ℕ → List ℕ → ℕ
value_onto v [] = v
value_onto v (c ∷ cs) = value_onto (v * 10 + (c - b'0')) cs

value_onto-append :
    (v c : ℕ) (xs : List ℕ) → value_onto v (xs ++ (c ∷ [])) ≡ value_onto v xs * 10 + (c - b'0')
value_onto-append v c [] = refl
value_onto-append v c (x ∷ xs) = value_onto-append (v * 10 + (x - b'0')) c xs

value_onto-decimal : (digits n : ℕ) → n < tens digits → value_onto 0 (decimal digits n) ≡ n
unfolding decimal
value_onto-decimal zero n h = omega (arith, h)
value_onto-decimal (suc digits) n h = elim (le_or_lt 10 n) [
  | inl l ↦ rw (le→ltb n 10 l) (
      value_onto-append 0 (b'0' + n % 10) (decimal digits (n / 10))
      ∙ omega (arith, value_onto-decimal digits (n / 10) (omega (arith, h))))
  | inr l ↦ rw (lt→ltb n 10 l) (omega arith)
]

-- Different numbers are printed differently.
pub decimal_injective :
    (digits m n : ℕ)
    → m < tens digits
    → n < tens digits
    → decimal digits m ≡ decimal digits n
    → m ≡ n
decimal_injective digits m n h k e =
    sym (value_onto-decimal digits m h) ∙ (ap (value_onto 0) e ∙ value_onto-decimal digits n k)
