-- ===== src/Fulltest/Lookup.antt =====
-- The single bytes of the buffers of TFS/EXAMPLES/TFS/FULLTEST.C and of parts of them.
use ttm.Prelude.{
  ℕ, zero, suc, ◌+◌, ◌-◌, ◌≤◌, ◌<◌, ◌≡◌, refl, ap, ap₂, ◌∙◌, arith, List, [], ◌∷◌, ◌++◌, length,
  get_or, take, drop, replicate,
}
use ttm.Fulltest.{splice}
use ttm.Fulltest.Buffers.{padded, length-take}

get_or-append_left :
    (xs ys : List ℕ) (i : ℕ) → i < length xs → get_or (xs ++ ys) i 0 ≡ get_or xs i 0
get_or-append_left [] ys i h = absurd (omega arith)
get_or-append_left (x ∷ xs) ys zero h = refl
get_or-append_left (x ∷ xs) ys (suc i) h = get_or-append_left xs ys i (omega arith)

get_or-append_right :
    (xs ys : List ℕ) (i k : ℕ) → i ≡ length xs + k → get_or (xs ++ ys) i 0 ≡ get_or ys k 0
get_or-append_right [] ys i k h = ap (λ n. get_or ys n 0) (omega (arith, h))
get_or-append_right (x ∷ xs) ys zero k h = absurd (omega arith)
get_or-append_right (x ∷ xs) ys (suc i) k h = get_or-append_right xs ys i k (omega arith)

pub get_or-take : (n : ℕ) (xs : List ℕ) (i : ℕ) → i < n → get_or (take n xs) i 0 ≡ get_or xs i 0
get_or-take zero xs i h = absurd (omega arith)
get_or-take (suc n) [] i h = refl
get_or-take (suc n) (x ∷ xs) zero h = refl
get_or-take (suc n) (x ∷ xs) (suc i) h = get_or-take n xs i (omega arith)

pub get_or-drop :
    (n : ℕ) (xs : List ℕ) (i k : ℕ) → k ≡ n + i → get_or (drop n xs) i 0 ≡ get_or xs k 0
get_or-drop zero xs i k h = ap (λ m. get_or xs m 0) (omega arith)
get_or-drop (suc n) [] i k h = refl
get_or-drop (suc n) (x ∷ xs) i zero h = absurd (omega arith)
get_or-drop (suc n) (x ∷ xs) i (suc k) h = get_or-drop n xs i k (omega arith)

pub get_or-replicate : (n a i : ℕ) → i < n → get_or (replicate n a) i 0 ≡ a
get_or-replicate zero a i h = absurd (omega arith)
get_or-replicate (suc n) a zero h = refl
get_or-replicate (suc n) a (suc i) h = get_or-replicate n a i (omega arith)

pub get_or-padded :
    (n : ℕ) (xs : List ℕ) (i : ℕ) → i < length xs → get_or (padded n xs) i 0 ≡ get_or xs i 0
unfolding padded
get_or-padded n xs i h = get_or-append_left xs _ i h

pub get_or-splice_before :
    (from : ℕ) (new xs : List ℕ) (i : ℕ)
    → from ≤ length xs
    → i < from
    → get_or (splice from new xs) i 0 ≡ get_or xs i 0
unfolding splice
get_or-splice_before from new xs i h k =
    get_or-append_left (take from xs) _ i (omega (arith, length-take from xs h))
    ∙ get_or-take from xs i k

pub get_or-splice_inside :
    (from : ℕ) (new xs : List ℕ) (i k : ℕ)
    → from ≤ length xs
    → i ≡ from + k
    → k < length new
    → get_or (splice from new xs) i 0 ≡ get_or new k 0
unfolding splice
get_or-splice_inside from new xs i k h e l =
    get_or-append_right (take from xs) _ i k (omega (arith, length-take from xs h))
    ∙ get_or-append_left new _ k l

pub get_or-splice_behind :
    (from : ℕ) (new xs : List ℕ) (i : ℕ)
    → from ≤ length xs
    → from + length new ≤ i
    → get_or (splice from new xs) i 0 ≡ get_or xs i 0
unfolding splice
get_or-splice_behind from new xs i h k =
    get_or-append_right (take from xs) _ i (i - from) (omega (arith, length-take from xs h))
    ∙ (get_or-append_right new _ (i - from) (i - (from + length new)) (omega arith)
        ∙ get_or-drop (from + length new) xs (i - (from + length new)) i (omega arith))

-- Buffers of the same size with the same bytes.
pub same_of_get_or :
    (xs ys : List ℕ)
    → length xs ≡ length ys
    → ((i : ℕ) → i < length xs → get_or xs i 0 ≡ get_or ys i 0)
    → xs ≡ ys
same_of_get_or [] [] e h = refl
same_of_get_or [] (y ∷ ys) e h = absurd (omega (arith, e))
same_of_get_or (x ∷ xs) [] e h = absurd (omega (arith, e))
same_of_get_or (x ∷ xs) (y ∷ ys) e h =
    ap₂ ◌∷◌ (h 0 (omega arith))
      (same_of_get_or xs ys (omega (arith, e)) (λ i l. h (suc i) (omega arith)))
