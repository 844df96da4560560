-- ===== src/Flash/Target.antt =====
-- The words that a hex file asks for, and those of an EPROM that is being programmed with them.
use ttm.Prelude.{
  ℕ, ◌+◌, ◌≡◌, ◌⊎◌, refl, sym, ap, ◌∙◌, inl, inr, Bool-cases, Option, none, some, List, [], ◌∷◌,
  All, ◌==◌, ==→eq,
}
use ttm.Flash.{HexLine, file_end, empty, words, word_address, read_line}
use ttm.Flash.Chip.{updated}

-- The words of a line, from number `j` behind `base` on, are those of an EPROM.
abbrev pub Stand : (ℕ → ℕ) → ℕ → ℕ → List ℕ → Type 0
Stand w base j [] = Unit {0}
Stand w base j (v ∷ vs) = (w (word_address base j) ≡ v) × Stand w base (j + 1) vs

-- A line is empty, or has words, and they are those of an EPROM.
abbrev pub LineStands : (ℕ → ℕ) → Option HexLine → Type 0
LineStands w none = ⊥
LineStands w (some file_end) = ⊥
LineStands w (some empty) = Unit {0}
LineStands w (some (words address values)) = Stand w address 0 values

-- Every line of a file stands in the words.
abbrev pub FileStands : List (List ℕ) → (ℕ → ℕ) → Type 0
FileStands file w = All (λ line. LineStands w (read_line (some line))) file

-- A word of the EPROM is blank or as it shall be.
abbrev pub OnTheWay : (ℕ → ℕ) → (ℕ → ℕ) → Type 0
OnTheWay target w = (x : ℕ) → (w x ≡ 0xffffffff) ⊎ (w x ≡ target x)

-- What is as it shall be stays so.
abbrev pub Stays : (ℕ → ℕ) → (ℕ → ℕ) → (ℕ → ℕ) → Type 0
Stays target w w' = (x : ℕ) → w x ≡ target x → w' x ≡ target x

updated_cases :
    (a x v : ℕ) (w : ℕ → ℕ) → (updated a v w x ≡ w x) ⊎ ((x ≡ a) × (updated a v w x ≡ v))
updated_cases a x v w = elim (Bool-cases (x == a)) [
  | inl e ↦ inr (==→eq x a e, rw e refl)
  | inr e ↦ inl (rw e refl)
]

pub updated-OnTheWay :
    (a : ℕ) (target w : ℕ → ℕ) → OnTheWay target w → OnTheWay target (updated a (target a) w)
updated-OnTheWay a target w h x = elim (updated_cases a x (target a) w) [
  | inl e ↦ rw e (h x)
  | inr (e, f) ↦ inr (f ∙ ap target (sym e))
]

pub updated-Stays : (a : ℕ) (target w : ℕ → ℕ) → Stays target w (updated a (target a) w)
updated-Stays a target w x h = elim (updated_cases a x (target a) w) [
  | inl e ↦ e ∙ h
  | inr (e, f) ↦ f ∙ ap target (sym e)
]

pub Stand-Stays :
    (target w w' : ℕ → ℕ) (base j : ℕ) (vs : List ℕ)
    → Stays target w w'
    → Stand target base j vs
    → Stand w base j vs
    → Stand w' base j vs
Stand-Stays target w w' base j [] s t h = tt
Stand-Stays target w w' base j (v ∷ vs) s (e, t) (f, h) =
    (s _ (f ∙ sym e) ∙ e, Stand-Stays target w w' base (j + 1) vs s t h)
