-- ===== src/Prelude/Scan.antt =====
-- The conversions `%d` and `%x` of the C library's `sscanf`, over the codes of a text.
pub mod Printed
use ttm.Prelude.Tests.{leb, ltb, ◌==◌, if◌then◌else◌, is_some}
use ttm.Prelude.Word.{ℤ, pos, negsuc, word_mod}
use Prim.Native.Nat.{ℕ, zero, suc, ◌+◌, ◌-◌, ◌*◌, ◌%◌}
use mathlib.Core.Bool.{Bool, ◌&&◌, ◌||◌}
use mathlib.Core.Option
use mathlib.Core.Option.{Option, none, some}
use mathlib.Core.List.{List, [], ◌∷◌}

-- isspace
unfoldable pub is_space : ℕ → Bool
is_space c = (c == 32) || (leb 9 c && leb c 13)

unfoldable pub skip_spaces : List ℕ → List ℕ
skip_spaces [] = []
skip_spaces (c ∷ cs) = if is_space c then skip_spaces cs else c ∷ cs

-- The value of a digit, decimal or hexadecimal.
unfoldable pub digit? : ℕ → Option ℕ
digit? c =
    if leb b'0' c && leb c b'9'
    then some (c - b'0')
    else if leb b'a' c && leb c b'f'
    then some (c - 87)
    else if leb b'A' c && leb c b'F'
    then some (c - 55)
    else none

is_hex : ℕ → Bool
unfolding digit?
is_hex c = is_some (digit? c)

-- The digits below `base` at the front of a text, read onto a value, and the rest of the text.
unfoldable pub digits : ℕ → ℕ → List ℕ → ℕ × List ℕ
digits base value [] = (value, [])
digits base value (c ∷ cs) = elim (digit? c) [
  | none ↦ (value, c ∷ cs)
  | some d ↦ if ltb d base then digits base (value * base + d) cs else (value, c ∷ cs)
]

-- A number in `base`: one digit or more.
unfoldable pub number : ℕ → List ℕ → Option (ℕ × List ℕ)
number base [] = none
number base (c ∷ cs) = elim (digit? c) [
  | none ↦ none
  | some d ↦ if ltb d base then some (digits base d cs) else none
]

abbrev negate : ℕ → ℤ
negate zero = pos 0
negate (suc n) = negsuc n

abbrev with_sign : (ℕ → ℤ) → Option (ℕ × List ℕ) → Option ℤ
with_sign sign none = none
with_sign sign (some (n, _)) = some (sign n)

signed : List ℕ → Option ℤ
signed [] = none
signed (c ∷ cs) =
    if c == b'-'
    then with_sign negate (number 10 cs)
    else if c == b'+'
    then with_sign pos (number 10 cs)
    else with_sign pos (number 10 (c ∷ cs))

-- sscanf( text, "%d", … ): the number, if one is assigned. A number that does not fit an int is
-- undefined in C; here it keeps its value.
unfoldable pub scan_int : List ℕ → Option ℤ
unfolding signed skip_spaces is_space number digits digit?
scan_int text = signed (skip_spaces text)

-- An x behind a leading 0 is passed over if a hexadecimal digit follows.
skip_prefix : List ℕ → List ℕ
skip_prefix [] = []
skip_prefix (a ∷ []) = a ∷ []
skip_prefix (a ∷ b ∷ []) = a ∷ b ∷ []
skip_prefix (a ∷ b ∷ c ∷ cs) =
    if (a == b'0') && ((b == b'x') || (b == b'X')) && is_hex c then c ∷ cs else a ∷ b ∷ c ∷ cs

-- %x behind its spaces: a sign or none, 0x or nothing, and hexadecimal digits; the value is that of
-- an unsigned word.
hex_number : List ℕ → Option (ℕ × List ℕ)
hex_number [] = none
hex_number (c ∷ cs) =
    if c == b'-'
    then Option.map (λ (n, rest). ((word_mod - n % word_mod) % word_mod, rest))
        (number 16 (skip_prefix cs))
    else Option.map (λ (n, rest). (n % word_mod, rest))
        (number 16 (skip_prefix (if c == b'+' then cs else c ∷ cs)))

-- sscanf( text, "%x %x …", … ) with so many conversions: the values that are assigned.
unfoldable pub scan_hex : ℕ → List ℕ → List ℕ
unfolding skip_spaces is_space hex_number skip_prefix is_hex number digits digit?
scan_hex zero text = []
scan_hex (suc n) text = elim (hex_number (skip_spaces text)) [
  | none ↦ []
  | some (value, rest) ↦ value ∷ scan_hex n rest
]
