-- ===== src/Bench/Kilobytes.antt =====
-- The kilobytes that TFS/EXAMPLES/TFSH/BENCH.C computes its rates from.
use ttm.Prelude.{
  ℕ, ◌*◌, ◌-◌, ◌/◌, ◌%◌, ◌<◌, ◌≡◌, ◌↔◌, sym, ap, ◌∙◌, arith, ℤ, pos, negsuc, word_mod, sign_bit,
  is_negative, ◌==◌, if◌then◌else◌,
}
use ttm.Bench.{kilobytes}

quotient : ℕ → ℤ
quotient product =
    let below = (word_mod - product) / 1024 in
    if is_negative product
    then (if below == 0 then pos 0 else negsuc (below - 1))
    else pos (product / 1024)

quotient-small : (p : ℕ) → p < sign_bit → quotient p ≡ pos (p / 1024)
unfolding quotient
quotient-small p h = ground arith

quotient-large : (p : ℕ) → p < word_mod → quotient p ≡ pos (p / 1024) → p < sign_bit
unfolding quotient
quotient-large p k e = ground arith

kilobytes-quotient :
    (size times : ℕ) → size * times < word_mod → kilobytes size times ≡ quotient (size * times)
unfolding kilobytes quotient
kilobytes-quotient size times h = ap quotient (below (size * times) h)
  where
    below : (p : ℕ) → p < word_mod → p % word_mod ≡ p
    below p k = omega arith

-- For a number of bytes below 2 ^ 32, the report is computed from the right number of kilobytes
-- exactly when it is below 2 ^ 31.
pub kilobytes-exact :
    (size times : ℕ)
    → size * times < word_mod
    → (kilobytes size times ≡ pos (size * times / 1024)) ↔ (size * times < sign_bit)
kilobytes-exact size times h = (
  (λ e. quotient-large (size * times) h (sym (kilobytes-quotient size times h) ∙ e)),
  (λ k. kilobytes-quotient size times h ∙ quotient-small (size * times) k),
)
