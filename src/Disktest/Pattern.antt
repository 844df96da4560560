-- ===== src/Disktest/Pattern.antt =====
-- The values with which `fill_test` of TTM50/EXAMPLES/DISKTEST.C fills the buffer, and its check.
use ttm.Prelude.{
  ℕ, zero, suc, ◌+◌, ◌*◌, ◌/◌, ◌%◌, ◌≤◌, ◌<◌, ◌≡◌, ◌≢◌, refl, ◌∙◌, true, List, [], ◌∷◌, ◌++◌, arith,
  word_add, word_mod, ◌==◌, eq→==, ==→eq, drop, length, All,
}
use ttm.Disktest.{value_start, value_inc, word_bytes, word_at, pattern_bytes, matches}

-- The word with number i in a memory.
unfoldable pub word_number : ℕ → List ℕ → ℕ
word_number zero memory = word_at memory
word_number (suc i) memory = word_number i (drop 4 memory)

pub word_at-word_bytes : (w : ℕ) (rest : List ℕ) → w < word_mod → word_at (word_bytes w ++ rest) ≡ w
word_at-word_bytes w rest h = omega arith

word_number-pattern :
    (i n v : ℕ)
    → i < n
    → v < word_mod
    → word_number i (pattern_bytes n v) ≡ (v + i * value_inc) % word_mod
unfolding word_number pattern_bytes
word_number-pattern i zero v h l = absurd (omega arith)
word_number-pattern zero (suc n) v h l = omega arith
word_number-pattern (suc i) (suc n) v h l =
    word_number-pattern i n (word_add v value_inc) (omega arith) (omega arith) ∙ omega arith

-- Word number i of the pattern is the start value and i increments, modulo 2 ^ 32; in a buffer of
-- up to 2 ^ 29 words no two are equal, so a word that the disk puts in another word's place shows.
pub pattern_distinct :
    (i j n : ℕ)
    → i < j
    → j < n
    → n ≤ 536870912
    → let memory = pattern_bytes n value_start in
      (word_number i memory ≡ (value_start + i * value_inc) % word_mod)
      × (word_number i memory ≢ word_number j memory)
pattern_distinct i j n p q r =
    let at_i = word_number-pattern i n value_start (omega arith) (omega arith) in
    let at_j = word_number-pattern j n value_start q (omega arith) in (at_i, λ e. omega arith)

-- The check accepts the pattern, whatever lies behind it.
pub matches-pattern :
    (n v : ℕ) (rest : List ℕ) → v < word_mod → matches n v (pattern_bytes n v ++ rest) ≡ true
unfolding matches pattern_bytes
matches-pattern zero v rest h = refl
matches-pattern (suc n) v rest h =
    rw (eq→== _ _ (word_at-word_bytes v (pattern_bytes n (word_add v value_inc) ++ rest) h))
      (matches-pattern n (word_add v value_inc) rest (omega arith))

word_and_rest :
    (n v : ℕ) (memory : List ℕ)
    → matches (suc n) v memory ≡ true
    → ((word_at memory == v) ≡ true) × (matches n (word_add v value_inc) (drop 4 memory) ≡ true)
unfolding matches
word_and_rest n v memory h = ground arith

bytes_of_word :
    (a b c d w : ℕ)
    → (a < 256) × (b < 256) × (c < 256) × (d < 256)
    → a + b * 256 + c * 65536 + d * 16777216 ≡ w
    → (a ≡ w % 256) × (b ≡ w / 256 % 256) × (c ≡ w / 65536 % 256) × (d ≡ w / 16777216 % 256)
bytes_of_word a b c d w h e = omega arith

-- A memory of bytes that the check accepts, and that is long enough for it, begins with the
-- pattern.
pub pattern_of_matches :
    (n v : ℕ) (memory : List ℕ)
    → All (λ b. b < 256) memory
    → n * 4 ≤ length memory
    → matches n v memory ≡ true
    → (rest : List ℕ) × (memory ≡ pattern_bytes n v ++ rest)
unfolding matches pattern_bytes
pattern_of_matches zero v memory b l h = (memory, refl)
pattern_of_matches (suc n) v [] b l h = absurd (omega arith)
pattern_of_matches (suc n) v (a1 ∷ []) b l h = absurd (omega arith)
pattern_of_matches (suc n) v (a1 ∷ a2 ∷ []) b l h = absurd (omega arith)
pattern_of_matches (suc n) v (a1 ∷ a2 ∷ a3 ∷ []) b l h = absurd (omega arith)
pattern_of_matches (suc n) v (a1 ∷ a2 ∷ a3 ∷ a4 ∷ m) b l h =
    let (first, others) = word_and_rest n v (a1 ∷ a2 ∷ a3 ∷ a4 ∷ m) h in
    let (rest, e) = pattern_of_matches n (word_add v value_inc) m b.1.1.1.1 (omega arith) others in
    let (e1, e2, e3, e4) =
      bytes_of_word a1 a2 a3 a4 v (b.0, b.1.0, b.1.1.0, b.1.1.1.0) (==→eq _ _ first) in
    (rest, cc)

-- What lies behind the words that it reads does not matter to the check.
pub matches-append :
    (n v : ℕ) (memory rest : List ℕ)
    → n * 4 ≤ length memory
    → matches n v (memory ++ rest) ≡ matches n v memory
unfolding matches
matches-append zero v memory rest l = refl
matches-append (suc n) v [] rest l = absurd (omega arith)
matches-append (suc n) v (a1 ∷ []) rest l = absurd (omega arith)
matches-append (suc n) v (a1 ∷ a2 ∷ []) rest l = absurd (omega arith)
matches-append (suc n) v (a1 ∷ a2 ∷ a3 ∷ []) rest l = absurd (omega arith)
matches-append (suc n) v (a1 ∷ a2 ∷ a3 ∷ a4 ∷ m) rest l =
    rw (matches-append n (word_add v value_inc) m rest (omega arith))

pub length-pattern : (n v : ℕ) → length (pattern_bytes n v) ≡ n * 4
unfolding pattern_bytes
length-pattern zero v = refl
length-pattern (suc n) v = omega (arith, length-pattern n (word_add v value_inc))
