-- ===== src/Shell/Program.antt =====
-- Where `listen` of TFS/EXAMPLES/TFSH/TFS_UTIL.C writes, and when it ends.
use ttm.Prelude.{
  ℕ, zero, suc, ◌≤◌, ◌≡◌, refl, ◌∙◌, inl, inr, arith, Bool, true, false, not, ◌&&◌, Bool-cases,
  List, [], ◌∷◌, ℤ, pos, negsuc, ltb, length, take, drop, overwrite,
}
use ttm.Prelude.Run.{Run, ok, exited}
use ttm.Shell.Start.{data_size, listen}

drop-overwrite : (n : ℕ) (ys xs : List ℕ) → length ys ≤ n → drop n (overwrite ys xs) ≡ drop n xs
drop-overwrite n [] xs h = refl
drop-overwrite n (y ∷ ys) [] h = refl
drop-overwrite zero (y ∷ ys) (x ∷ xs) h = absurd (omega arith)
drop-overwrite (suc n) (y ∷ ys) (x ∷ xs) h = drop-overwrite n ys xs (omega arith)

length-take-le : (n : ℕ) (xs : List ℕ) → length (take n xs) ≤ n
length-take-le zero xs = omega arith
length-take-le (suc n) [] = omega arith
length-take-le (suc n) (x ∷ xs) = omega (arith, length-take-le n xs)

-- The length of a message is one that `listen` takes.
abbrev pub fits : ℤ → Bool
fits (pos n) = not (ltb data_size n)
fits (negsuc n) = false

abbrev pub all_fit : List (ℤ × List ℕ) → Bool
all_fit [] = true
all_fit ((n, bytes) ∷ rest) = fits n && all_fit rest

-- What lies behind the array is as before, and the program has ended, with exit code 1, exactly if
-- a message did not fit.
abbrev pub Listened : Bool → List ℕ → Run (List ℕ) (Unit {0}) → Type 0
Listened fitting memory (ok u left) =
    (fitting ≡ true) × (drop data_size left ≡ drop data_size memory)
Listened fitting memory (exited code left) =
    ((fitting ≡ false) × (code ≡ pos 1)) × (drop data_size left ≡ drop data_size memory)

heard_from :
    (fitting : Bool) (memory before : List ℕ) (r : Run (List ℕ) (Unit {0}))
    → drop data_size memory ≡ drop data_size before
    → Listened fitting memory r
    → Listened fitting before r
heard_from fitting memory before (ok u left) e h = (h.0, h.1 ∙ e)
heard_from fitting memory before (exited code left) e h = (h.0, h.1 ∙ e)

below : (n : ℕ) (bytes : List ℕ) → ltb data_size n ≡ false → length (take n bytes) ≤ data_size
below n bytes e =
    let short = length-take-le n bytes in let small : n ≤ data_size = ground arith in omega arith

-- `listen` never writes behind its array, whatever lengths it is sent; it goes on with every
-- message of 0 to 256 bytes and ends the program with exit code 1 at the first other one.
pub listen-Listened :
    (messages : List (ℤ × List ℕ)) (memory : List ℕ)
    → Listened (all_fit messages) memory (listen messages memory)
unfolding listen
listen-Listened [] memory = (refl, refl)
listen-Listened ((negsuc n, bytes) ∷ rest) memory = ((refl, refl), refl)
listen-Listened ((pos n, bytes) ∷ rest) memory = elim (Bool-cases (ltb data_size n)) [
  | inl e ↦ rw e ((refl, refl), refl)
  | inr e ↦ rw e (
      heard_from (all_fit rest) (overwrite (take n bytes) memory) memory
        (listen rest (overwrite (take n bytes) memory))
        (drop-overwrite data_size (take n bytes) memory (below n bytes e))
        (listen-Listened rest (overwrite (take n bytes) memory)))
]
