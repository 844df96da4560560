-- ===== src/Prelude/Scan/Printed.antt =====
-- Texts of hexadecimal numbers, in capital or small letters, and what `scan_hex` reads in them.
use ttm.Prelude.Tests.{ltb, ◌==◌, if◌then◌else◌, lt→ltb, ne→==, Bool-cases}
use ttm.Prelude.Lists.{length, All}
use ttm.Prelude.Word.{word_mod}
use ttm.Prelude.Scan.{
  is_space, skip_spaces, digit?, digits, number, skip_prefix, hex_number, scan_hex,
}
use Prim.Native.Nat.{ℕ, zero, suc, ◌+◌, ◌*◌, ◌/◌, ◌%◌, ◌<◌, ◌≤◌}
use mathlib.Core.Bool.{Bool}
use mathlib.Core.Option.{some}
use mathlib.Core.Path.{◌≡◌, refl, ap, ap₂, ◌∙◌}
use mathlib.Core.Logic.{◌≢◌, inl, inr}
use native.Mathlib.Omega.{arith}
use mathlib.Core.List.{List, [], ◌∷◌}

-- The letter of a digit.
unfoldable pub digit_code : Bool → ℕ → ℕ
digit_code capital d = if ltb d 10 then d + 48 else if capital then d + 55 else d + 87

-- The two digits of a byte in front of a text.
abbrev pub hex_byte : Bool → ℕ → List ℕ → List ℕ
hex_byte capital b rest = digit_code capital (b / 16) ∷ digit_code capital (b % 16) ∷ rest

digit?-digit_code : (capital : Bool) (d : ℕ) → d < 16 → digit? (digit_code capital d) ≡ some d
unfolding digit? digit_code
digit?-digit_code capital d h = ground arith

digits-digit :
    (v c d : ℕ) (rest : List ℕ)
    → digit? c ≡ some d
    → d < 16
    → digits 16 v (c ∷ rest) ≡ digits 16 (v * 16 + d) rest
unfolding digits
digits-digit v c d rest e h = rw (digits, e, lt→ltb d 16 h) refl

digits-hex_byte :
    (capital : Bool) (v b : ℕ) (rest : List ℕ)
    → b < 256
    → digits 16 v (hex_byte capital b rest) ≡ digits 16 (v * 256 + b) rest
digits-hex_byte capital v b rest h =
    digits-digit v (digit_code capital (b / 16)) (b / 16) _
      (digit?-digit_code capital (b / 16) (omega (arith, h))) (omega (arith, h))
    ∙ (digits-digit (v * 16 + b / 16) (digit_code capital (b % 16)) (b % 16) rest
          (digit?-digit_code capital (b % 16) (omega arith)) (omega arith)
        ∙ ap (λ w. digits 16 w rest) (omega (arith, h)))

-- A text that starts with no digit.
abbrev pub IsEnd : List ℕ → Type 0
IsEnd rest = (v : ℕ) → digits 16 v rest ≡ (v, rest)

digit_code_bounds :
    (capital : Bool) (d : ℕ)
    → d < 16
    → (48 ≤ digit_code capital d) × ((digit_code capital d ≤ 102) × (digit_code capital d ≢ 88))
unfolding digit_code
digit_code_bounds capital d h = ground arith

skip_spaces-digit : (c : ℕ) (rest : List ℕ) → 48 ≤ c → skip_spaces (c ∷ rest) ≡ c ∷ rest
unfolding skip_spaces is_space
skip_spaces-digit c rest h = ground arith

skip_prefix-digits :
    (a b : ℕ) (rest : List ℕ) → b ≤ 102 → b ≢ 88 → skip_prefix (a ∷ b ∷ rest) ≡ a ∷ b ∷ rest
unfolding skip_prefix
skip_prefix-digits a b [] h n = refl
skip_prefix-digits a b (c ∷ rest) h n =
    rw (ne→== b 120 (λ e. omega (arith, h, e)), ne→== b 88 n)
      (elim (Bool-cases (a == b'0')) [ inl e ↦ rw e refl | inr e ↦ rw e refl ])

-- What %x makes of two digits and what follows.
hex_number-digits :
    (a b d : ℕ) (rest : List ℕ)
    → 48 ≤ a
    → skip_prefix (a ∷ b ∷ rest) ≡ a ∷ b ∷ rest
    → digit? a ≡ some d
    → d < 16
    → hex_number (a ∷ b ∷ rest)
      ≡ some ((digits 16 d (b ∷ rest)).0 % word_mod, (digits 16 d (b ∷ rest)).1)
unfolding hex_number number
hex_number-digits a b d rest h p q l =
    rw
      (
        ne→== a 45 (λ e. omega (arith, h, e)),
        ne→== a 43 (λ e. omega (arith, h, e)),
        p,
        number,
        q,
        lt→ltb d 16 l,
      )
      refl

hex_number-hex_byte :
    (capital : Bool) (b : ℕ) (rest : List ℕ)
    → b < 256
    → hex_number (hex_byte capital b rest)
      ≡ some ((digits 16 b rest).0 % word_mod, (digits 16 b rest).1)
hex_number-hex_byte capital b rest h =
    let (low, _) = digit_code_bounds capital (b / 16) (omega (arith, h)) in
    let (_, (high, small)) = digit_code_bounds capital (b % 16) (omega arith) in
    hex_number-digits _ _ (b / 16) rest low (skip_prefix-digits _ _ rest high small)
      (digit?-digit_code capital (b / 16) (omega (arith, h))) (omega (arith, h))
    ∙ ap (λ r. some (r.0 % word_mod, r.1))
        (digits-digit (b / 16) _ (b % 16) rest (digit?-digit_code capital (b % 16) (omega arith))
            (omega arith)
          ∙ ap (λ w. digits 16 w rest) (omega (arith, h)))

-- Bytes, each behind a space, and the end of the line.
unfoldable pub print_bytes : Bool → List ℕ → List ℕ
print_bytes capital [] = b'\n' ∷ []
print_bytes capital (b ∷ bs) = b' ' ∷ hex_byte capital b (print_bytes capital bs)

print_bytes-IsEnd : (capital : Bool) (bs : List ℕ) → IsEnd (print_bytes capital bs)
unfolding print_bytes digits digit?
print_bytes-IsEnd capital [] v = refl
print_bytes-IsEnd capital (b ∷ bs) v = refl

skip_spaces-hex_byte :
    (capital : Bool) (b : ℕ) (rest : List ℕ)
    → b < 256
    → skip_spaces (hex_byte capital b rest) ≡ hex_byte capital b rest
skip_spaces-hex_byte capital b rest h =
    skip_spaces-digit _ _ (digit_code_bounds capital (b / 16) (omega (arith, h))).0

scan_hex-value :
    (n v : ℕ) (text number rest : List ℕ)
    → skip_spaces text ≡ number
    → hex_number number ≡ some (v, rest)
    → scan_hex (suc n) text ≡ v ∷ scan_hex n rest
unfolding scan_hex
scan_hex-value n v text number rest p q = rw (scan_hex, p, q) refl

scan_hex-print_bytes :
    (capital : Bool) (n : ℕ) (bs : List ℕ)
    → length bs ≤ n
    → All (λ b. b < 256) bs
    → scan_hex n (print_bytes capital bs) ≡ bs
unfolding scan_hex skip_spaces is_space print_bytes hex_number
scan_hex-print_bytes capital zero [] h k = refl
scan_hex-print_bytes capital zero (b ∷ bs) h k = absurd (omega (arith, h))
scan_hex-print_bytes capital (suc n) [] h k = refl
scan_hex-print_bytes capital (suc n) (b ∷ bs) h (l, k) =
    let rest = print_bytes capital bs in
    scan_hex-value n (b % word_mod) (print_bytes capital (b ∷ bs)) _ rest
      (skip_spaces-hex_byte capital b rest l)
      (hex_number-hex_byte capital b rest l
        ∙ ap (λ r. some (r.0 % word_mod, r.1)) (print_bytes-IsEnd capital bs b))
    ∙ ap₂ (λ v vs. v ∷ vs) (omega (arith, l))
        (scan_hex-print_bytes capital n bs (omega (arith, h)) k)

-- A word of eight digits in front of a text.
abbrev pub hex_word : Bool → ℕ → List ℕ → List ℕ
hex_word capital w rest = hex_byte capital (w / 16777216) (
    hex_byte capital (w / 65536 % 256)
      (hex_byte capital (w / 256 % 256) (hex_byte capital (w % 256) rest)))

-- A line of a word and bytes is read as the word and the bytes.
pub scan_hex-hex_word :
    (capital : Bool) (n w : ℕ) (bs : List ℕ)
    → w < word_mod
    → length bs ≤ n
    → All (λ b. b < 256) bs
    → scan_hex (suc n) (hex_word capital w (print_bytes capital bs)) ≡ w ∷ bs
scan_hex-hex_word capital n w bs h k l =
    let rest = print_bytes capital bs in
    let two = hex_byte capital (w % 256) rest in
    let three = hex_byte capital (w / 256 % 256) two in
    let four = hex_byte capital (w / 65536 % 256) three in
    scan_hex-value n w (hex_word capital w rest) _ rest
      (skip_spaces-hex_byte capital (w / 16777216) four (omega (arith, h)))
      (hex_number-hex_byte capital (w / 16777216) four (omega (arith, h))
        ∙ ap (λ r. some (r.0 % word_mod, r.1))
            (digits-hex_byte capital _ (w / 65536 % 256) three (omega arith)
              ∙ (digits-hex_byte capital _ (w / 256 % 256) two (omega arith)
                  ∙ (digits-hex_byte capital _ (w % 256) rest (omega arith)
                      ∙ print_bytes-IsEnd capital bs _)))
        ∙ ap (λ v. some (v, rest)) (omega (arith, h)))
    ∙ ap (λ vs. w ∷ vs) (scan_hex-print_bytes capital n bs k l)
