-- ===== src/Flash/Hex.antt =====
-- The lines of hex text that TTM50/EXAMPLES/FLASH.C reads.
use ttm.Prelude.{
  ℕ, zero, suc, ◌+◌, ◌*◌, ◌/◌, ◌%◌, ◌<◌, ◌≤◌, ◌≡◌, refl, Bool, true, false, Option, none, some,
  List, [], ◌∷◌, arith, if◌then◌else◌, length, All, word_mod,
}
use ttm.Prelude.Scan.{scan_hex}
use ttm.Flash.{
  HexLine, file_end, empty, words, word_count, in_flash, words_of, counted_line, line_of_values,
  is_blank, read_line, flash_base_address,
}

-- The words of a line: one to four of 32 bits, at an address with the bit of the flash EPROM.
abbrev pub IsProper : Option HexLine → Type 0
IsProper none = Unit {0}
IsProper (some file_end) = Unit {0}
IsProper (some empty) = Unit {0}
IsProper (some (words address values)) =
    ((1 ≤ length values) × (length values ≤ 4))
    × (All (λ w. w < word_mod) values × (address / flash_base_address % 2 ≡ 1))

word_count-lt : (n m : ℕ) → word_count n ≡ some m → (1 ≤ m) × ((m ≤ 4) × (n ≡ 4 * m + 1))
unfolding word_count
word_count-lt n m h = ground arith

in_flash_bit : (a : ℕ) → in_flash a / flash_base_address % 2 ≡ 1
unfolding in_flash
in_flash_bit a = ground arith

length-words_of : (n : ℕ) (bytes : List ℕ) → length bytes ≡ 4 * n → length (words_of n bytes) ≡ n
unfolding words_of
length-words_of zero bytes h = refl
length-words_of (suc n) (a ∷ b ∷ c ∷ d ∷ rest) h = rw (length-words_of n rest (omega arith)) refl
length-words_of (suc n) [] h = omega arith
length-words_of (suc n) (a ∷ []) h = omega arith
length-words_of (suc n) (a ∷ b ∷ []) h = omega arith
length-words_of (suc n) (a ∷ b ∷ c ∷ []) h = omega arith

words_of_bounds : (n : ℕ) (bytes : List ℕ) → All (λ w. w < word_mod) (words_of n bytes)
unfolding words_of
words_of_bounds zero bytes = tt
words_of_bounds (suc n) (a ∷ b ∷ c ∷ d ∷ rest) = (omega arith, words_of_bounds n rest)
words_of_bounds (suc n) [] = tt
words_of_bounds (suc n) (a ∷ []) = tt
words_of_bounds (suc n) (a ∷ b ∷ []) = tt
words_of_bounds (suc n) (a ∷ b ∷ c ∷ []) = tt

blank-IsProper : (b : Bool) → IsProper (if b then some empty else none)
blank-IsProper true = tt
blank-IsProper false = tt

counted_line-IsProper :
    (n : Option ℕ) (blank : Bool) (address : ℕ) (bytes : List ℕ)
    → ((m : ℕ) → n ≡ some m → (1 ≤ m) × ((m ≤ 4) × (length bytes ≡ 4 * m)))
    → IsProper (counted_line n blank address bytes)
unfolding counted_line
counted_line-IsProper none blank address bytes h = blank-IsProper blank
counted_line-IsProper (some n) blank address bytes h =
    let (low, (high, count)) = h n refl in
    let counted = length-words_of n bytes count in
    ((rw counted low, rw counted high), (words_of_bounds n bytes, in_flash_bit address))

line_of_values-IsProper : (blank : Bool) (values : List ℕ) → IsProper (line_of_values blank values)
unfolding line_of_values
line_of_values-IsProper blank [] = blank-IsProper blank
line_of_values-IsProper blank (address ∷ bytes) =
    counted_line-IsProper (word_count (length (address ∷ bytes))) blank address bytes (λ m e.
      let (low, (high, count)) = word_count-lt (length (address ∷ bytes)) m e in
      (low, (high, omega arith)))

-- Every line that `get_line` accepts as words gives one to four words of 32 bits, and an address
-- that has the bit of the flash EPROM's base.
pub read_line-IsProper : (line : Option (List ℕ)) → IsProper (read_line line)
unfolding read_line
read_line-IsProper none = tt
read_line-IsProper (some line) = line_of_values-IsProper (is_blank line) (scan_hex 17 line)
