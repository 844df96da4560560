-- ===== src/Flash/Check.antt =====
-- The checks of TTM50/EXAMPLES/FLASH.C: what the EPROM holds when they pass.
use ttm.Prelude.{
  ℕ, zero, suc, ◌+◌, ◌≡◌, refl, sym, ◌∙◌, Bool, true, false, ◌&&◌, Option, none, some, List, [],
  ◌∷◌, arith, length, ◌==◌, if◌then◌else◌, Bool-cases, inl, inr,
}
use ttm.Prelude.Run.{ok, exited, Cmd, and_then, and_then-eq-ok}
use ttm.Prelude.Scan.{scan_hex}
use ttm.Flash.{
  Eprom, HexLine, file_end, empty, words, word_address, exit_failure, flash_base_address, read_line,
  line_of_values, counted_line, word_count, is_blank, read, accept_line, use_line, check_value_from,
  check_ep, get_line, for_lines, check_hf,
}

accepted :
    {D : Type 0} (b : Bool) {d d' : D} {u : Unit {0}}
    → (if b then ok tt d else exited exit_failure d) ≡ ok u d'
    → (b ≡ true) × (d' ≡ d)
accepted b h = ground arith

-- A line of the file is not its end.
abbrev pub IsLine : Option HexLine → Type 0
IsLine (some file_end) = ⊥
IsLine (some empty) = Unit {0}
IsLine (some (words address values)) = Unit {0}
IsLine none = Unit {0}

blank-IsLine : (b : Bool) → IsLine (if b then some empty else none)
blank-IsLine true = tt
blank-IsLine false = tt

counted-IsLine :
    (n : Option ℕ) (blank : Bool) (address : ℕ) (bytes : List ℕ)
    → IsLine (counted_line n blank address bytes)
unfolding counted_line
counted-IsLine (some n) blank address bytes = tt
counted-IsLine none blank address bytes = blank-IsLine blank

values-IsLine : (blank : Bool) (values : List ℕ) → IsLine (line_of_values blank values)
unfolding line_of_values
values-IsLine blank [] = blank-IsLine blank
values-IsLine blank (address ∷ bytes) =
    counted-IsLine (word_count (length (address ∷ bytes))) blank address bytes

read_line-IsLine : (line : List ℕ) → IsLine (read_line (some line))
unfolding read_line
read_line-IsLine line = values-IsLine (is_blank line) (scan_hex 17 line)

module _ {D : Type 0} (eprom : Eprom D) where
  -- Reading leaves the EPROM as it is.
  abbrev pub IsQuiet : Type 0
  IsQuiet = (a : ℕ) (d : D) → (eprom.read a d).1 ≡ d

  -- Whether the values stand in the EPROM from word `j` behind `base` on.
  unfoldable pub holds : D → ℕ → ℕ → List ℕ → Bool
  holds d base j [] = true
  holds d base j (v ∷ vs) = ((eprom.read (word_address base j) d).0 == v) && holds d base (j + 1) vs

  -- Whether `n` words from word `j` on are all `value`.
  unfoldable pub is_filled : D → ℕ → ℕ → ℕ → Bool
  is_filled d value zero j = true
  is_filled d value (suc n) j =
      ((eprom.read (word_address flash_base_address j) d).0 == value) && is_filled d value n (j + 1)

  -- The line is empty, or gives words that stand in the EPROM.
  abbrev pub LineHolds : D → Option HexLine → Type 0
  LineHolds d (some (words address values)) = holds d address 0 values ≡ true
  LineHolds d (some empty) = Unit {0}
  LineHolds d (some file_end) = ⊥
  LineHolds d none = ⊥

  abbrev pub FileHolds : D → List (List ℕ) → Type 0
  FileHolds d [] = Unit {0}
  FileHolds d (line ∷ lines) = LineHolds d (read_line (some line)) × FileHolds d lines

  module _ (quiet : IsQuiet) where
    -- If reading leaves the EPROM as it is, `check_ep` accepts a line exactly when the EPROM holds
    -- its words, and else ends the program with EXIT_FAILURE; the EPROM is not changed.
    pub check_ep-holds :
        (base j : ℕ) (values : List ℕ) (d : D)
        → check_ep eprom base j values d
          ≡ (if holds d base j values then ok tt d else exited exit_failure d)
    unfolding check_ep read holds
    check_ep-holds base j [] d = refl
    check_ep-holds base j (v ∷ vs) d =
        rw (quiet (word_address base j) d)
          (elim (Bool-cases ((eprom.read (word_address base j) d).0 == v)) [
            | inl e ↦ rw e (check_ep-holds base (j + 1) vs d)
            | inr e ↦ rw e refl
          ])

    -- If reading leaves the EPROM as it is, the check of `n` words accepts them exactly when all
    -- are the value, and else ends the program with EXIT_FAILURE; the EPROM is not changed.
    pub check_value-is_filled :
        (n j value : ℕ) (d : D)
        → check_value_from eprom n j value d
          ≡ (if is_filled d value n j then ok tt d else exited exit_failure d)
    unfolding check_value_from read is_filled
    check_value-is_filled zero j value d = refl
    check_value-is_filled (suc n) j value d =
        rw (quiet (word_address flash_base_address j) d)
          (elim (Bool-cases ((eprom.read (word_address flash_base_address j) d).0 == value)) [
            | inl e ↦ rw e (check_value-is_filled n (j + 1) value d)
            | inr e ↦ rw e refl
          ])

    LineHolds-words :
        (address : ℕ) (values : List ℕ) (d : D) {u : Unit {0}} {d' : D}
        → check_ep eprom address 0 values d ≡ ok u d'
        → (holds d address 0 values ≡ true) × (d' ≡ d)
    LineHolds-words address values d h =
        accepted (holds d address 0 values) (sym (check_ep-holds address 0 values d) ∙ h)

    check_line :
        (l : Option HexLine) (lines : List (List ℕ)) (next : Cmd D (Unit {0})) (d : D)
        {u : Unit {0}} {d' : D}
        → IsLine l
        → ((d₁ : D) → next d₁ ≡ ok u d' → FileHolds d₁ lines × (d' ≡ d₁))
        → and_then
            (accept_line eprom l d)
            (use_line eprom (λ address values. check_ep eprom address 0 values) next)
          ≡ ok u d'
        → (LineHolds d l × FileHolds d lines) × (d' ≡ d)
    unfolding accept_line use_line
    check_line none lines next d i r h = grind arith
    check_line (some file_end) lines next d i r h = absurd i
    check_line (some empty) lines next d i r h = ((tt, (r d h).0), (r d h).1)
    check_line (some (words address values)) lines next d i r h =
        let (u₁, t, e, k) = and_then-eq-ok (check_ep eprom address 0 values d) (λ _. next) h in
        let (held, same) = LineHolds-words address values d e in
        let (rest, end) = r t k in ((held, rw (sym same) rest), end ∙ same)

    -- If reading leaves the EPROM as it is and `check_hf` passes, then the EPROM holds every word
    -- of every line of the file, and is not changed by the check.
    pub check_lines-FileHolds :
        (lines : List (List ℕ)) (d : D) {u : Unit {0}} {d' : D}
        → check_hf eprom (some lines) d ≡ ok u d'
        → FileHolds d lines × (d' ≡ d)
    unfolding check_hf for_lines get_line read_line line_of_values accept_line use_line
    check_lines-FileHolds [] d h = (tt, grind arith)
    check_lines-FileHolds (line ∷ lines) d h =
        check_line (read_line (some line)) lines
          (for_lines eprom (λ address values. check_ep eprom address 0 values) lines) d
          (read_line-IsLine line) (λ d₁ k. check_lines-FileHolds lines d₁ k) h
