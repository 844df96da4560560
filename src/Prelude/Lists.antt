-- ===== src/Prelude/Lists.antt =====
-- Lists measured and indexed by native numbers, under the library's names.
use Prim.Native.Nat.{ℕ, zero, suc, ◌+◌, ◌≤◌}
use mathlib.Core.Path.{◌≡◌, refl, ap, ◌∙◌}
use mathlib.Core.List.{List, [], ◌∷◌, ◌++◌, append-nil}
use native.Mathlib.Omega.{arith}

module _ {ℓ} {A : Type ℓ} where
  abbrev pub length : List A → ℕ
  length [] = 0
  length (_ ∷ xs) = suc (length xs)

  abbrev pub get_or : List A → ℕ → A → A
  get_or [] i d = d
  get_or (x ∷ xs) zero d = x
  get_or (x ∷ xs) (suc i) d = get_or xs i d

  abbrev pub take : ℕ → List A → List A
  take zero xs = []
  take (suc n) [] = []
  take (suc n) (x ∷ xs) = x ∷ take n xs

  abbrev pub drop : ℕ → List A → List A
  drop zero xs = xs
  drop (suc n) [] = []
  drop (suc n) (x ∷ xs) = drop n xs

  abbrev pub replicate : ℕ → A → List A
  replicate zero a = []
  replicate (suc n) a = a ∷ replicate n a

  -- A block copy over the front of a buffer; what lies past its end is not written.
  abbrev pub overwrite : List A → List A → List A
  overwrite [] xs = xs
  overwrite (y ∷ ys) [] = []
  overwrite (y ∷ ys) (x ∷ xs) = y ∷ overwrite ys xs

  abbrev pub All {κ} : (A → Type κ) → List A → Type κ
  All P [] = Unit
  All P (x ∷ xs) = P x × All P xs

module _ {ℓ} {A : Type ℓ} where
  pub length-append : (xs ys : List A) → length (xs ++ ys) ≡ length xs + length ys
  length-append [] ys = omega arith
  length-append (x ∷ xs) ys = omega (arith, length-append xs ys)

  pub length-overwrite : (ys xs : List A) → length (overwrite ys xs) ≡ length xs
  length-overwrite [] xs = refl
  length-overwrite (y ∷ ys) [] = refl
  length-overwrite (y ∷ ys) (x ∷ xs) = ap suc (length-overwrite ys xs)

  pub take-overwrite :
      (ys xs : List A) → length ys ≤ length xs → take (length ys) (overwrite ys xs) ≡ ys
  take-overwrite [] xs h = refl
  take-overwrite (y ∷ ys) [] h = absurd (omega arith)
  take-overwrite (y ∷ ys) (x ∷ xs) h = ap (◌∷◌ y) (take-overwrite ys xs (omega arith))

  pub take-append : (xs ys : List A) → take (length xs) (xs ++ ys) ≡ xs
  take-append [] ys = refl
  take-append (x ∷ xs) ys = ap (◌∷◌ x) (take-append xs ys)

  pub drop-append : (xs ys : List A) → drop (length xs) (xs ++ ys) ≡ ys
  drop-append [] ys = refl
  drop-append (x ∷ xs) ys = drop-append xs ys

  pub take-length : (xs : List A) → take (length xs) xs ≡ xs
  take-length [] = refl
  take-length (x ∷ xs) = ap (◌∷◌ x) (take-length xs)

  pub overwrite-append :
      (ys xs : List A) → length ys ≤ length xs → overwrite ys xs ≡ ys ++ drop (length ys) xs
  overwrite-append [] xs h = refl
  overwrite-append (y ∷ ys) [] h = absurd (omega arith)
  overwrite-append (y ∷ ys) (x ∷ xs) h = ap (◌∷◌ y) (overwrite-append ys xs (omega arith))

  -- What was cleared comes back when it is written again.
  pub overwrite-take-clear :
      (n : ℕ) (a : A) (xs : List A) → overwrite (take n xs) (overwrite (replicate n a) xs) ≡ xs
  overwrite-take-clear zero a xs = refl
  overwrite-take-clear (suc n) a [] = refl
  overwrite-take-clear (suc n) a (x ∷ xs) = ap (◌∷◌ x) (overwrite-take-clear n a xs)

  -- A front as long as the whole is the whole.
  pub append_nil_of_length : (xs ys zs : List A) → xs ≡ ys ++ zs → length xs ≡ length ys → xs ≡ ys
  append_nil_of_length xs ys [] e l = e ∙ append-nil ys
  append_nil_of_length xs ys (z ∷ zs) e l =
      absurd (omega (arith, ap length e, length-append ys (z ∷ zs)))

  pub take-take : (n : ℕ) (xs : List A) → take n (take n xs) ≡ take n xs
  take-take zero xs = refl
  take-take (suc n) [] = refl
  take-take (suc n) (x ∷ xs) = ap (◌∷◌ x) (take-take n xs)

pub length-replicate : (n a : ℕ) → length (replicate n a) ≡ n
length-replicate zero a = refl
length-replicate (suc n) a = ap suc (length-replicate n a)
