-- ===== src/Flash/Print.antt =====
-- A hex file as TTM50/EXAMPLES/FLASH.C reads it, from its words: an address and the bytes of one to
-- four words in each line.
use ttm.Prelude.{
  ℕ, suc, ◌*◌, ◌/◌, ◌%◌, ◌<◌, ◌≤◌, ◌≡◌, refl, ap₂, Bool, some, List, [], ◌∷◌, arith, length, All,
  word_mod,
}
use ttm.Prelude.Scan.Printed.{hex_word, print_bytes, scan_hex-hex_word}
use ttm.Flash.{words, word_count, in_flash, words_of, counted_line, line_of_values, read_line}

-- The bytes of words, the least significant one of each first.
unfoldable pub bytes_of : List ℕ → List ℕ
bytes_of [] = []
bytes_of (w ∷ ws) = (w % 256) ∷ (w / 256 % 256) ∷ (w / 65536 % 256) ∷ (w / 16777216) ∷ bytes_of ws

-- A line of a hex file, in capital or small letters.
abbrev pub print_line : Bool → ℕ → List ℕ → List ℕ
print_line capital address ws = hex_word capital address (print_bytes capital (bytes_of ws))

length-bytes_of : (ws : List ℕ) → length (bytes_of ws) ≡ 4 * length ws
unfolding bytes_of
length-bytes_of [] = refl
length-bytes_of (w ∷ ws) = omega (arith, length-bytes_of ws)

bytes_of_bounds : (ws : List ℕ) → All (λ w. w < word_mod) ws → All (λ b. b < 256) (bytes_of ws)
unfolding bytes_of
bytes_of_bounds [] h = tt
bytes_of_bounds (w ∷ ws) (h, k) =
    (omega arith, (omega arith, (omega arith, (omega (arith, h), bytes_of_bounds ws k))))

words_of-bytes_of :
    (ws : List ℕ) → All (λ w. w < word_mod) ws → words_of (length ws) (bytes_of ws) ≡ ws
unfolding words_of bytes_of
words_of-bytes_of [] h = refl
words_of-bytes_of (w ∷ ws) (h, k) = ap₂ (λ v vs. v ∷ vs) (omega (arith, h)) (words_of-bytes_of ws k)

word_count_bytes : (n : ℕ) → 1 ≤ n → n ≤ 4 → word_count (suc (4 * n)) ≡ some n
unfolding word_count
word_count_bytes n h k = ground arith

-- A line that is printed from an address and one to four words of 32 bits is read as these words,
-- at that address in the flash EPROM; the letters may be capital or small.
pub read_line-print_line :
    (capital : Bool) (address : ℕ) (ws : List ℕ)
    → address < word_mod
    → 1 ≤ length ws
    → length ws ≤ 4
    → All (λ w. w < word_mod) ws
    → read_line (some (print_line capital address ws)) ≡ some (words (in_flash address) ws)
unfolding read_line line_of_values counted_line
read_line-print_line capital address ws h l m k =
    let count = length-bytes_of ws in
    rw
      (
        scan_hex-hex_word capital 16 address (bytes_of ws) h (omega (arith, count, m))
            (bytes_of_bounds ws k),
        count,
        word_count_bytes (length ws) l m,
        words_of-bytes_of ws k,
      )
      refl
