-- ===== src/Fulltest/Buffers.antt =====
-- The parts of the buffers of TFS/EXAMPLES/TFS/FULLTEST.C.
use ttm.Prelude.{
  length-replicate, replicate, ◌-◌, ℕ, zero, suc, ◌+◌, ◌≤◌, ◌≡◌, refl, sym, ap, ◌∙◌, arith, true,
  List, [], ◌∷◌, ◌++◌, length, take, drop, overwrite, length-append, take-overwrite, take-length,
  eq→==,
}
use mathlib.Core.List.{append-nil}
use ttm.Fulltest.{splice, same_bytes}

pub same_bytes_refl : (t : List ℕ) → same_bytes t t ≡ true
unfolding same_bytes
same_bytes_refl [] = refl
same_bytes_refl (c ∷ cs) = rw (eq→== c c refl, same_bytes_refl cs) refl

pub length-take : (n : ℕ) (xs : List ℕ) → n ≤ length xs → length (take n xs) ≡ n
length-take zero xs h = refl
length-take (suc n) [] h = absurd (omega arith)
length-take (suc n) (x ∷ xs) h = ap suc (length-take n xs (omega arith))

length-drop : (n : ℕ) (xs : List ℕ) → n ≤ length xs → n + length (drop n xs) ≡ length xs
length-drop zero xs h = omega arith
length-drop (suc n) [] h = absurd (omega arith)
length-drop (suc n) (x ∷ xs) h = omega (arith, length-drop n xs (omega arith))

pub length-part :
    (n position : ℕ) (xs : List ℕ)
    → position + n ≤ length xs
    → length (take n (drop position xs)) ≡ n
length-part n position xs h =
    length-take n (drop position xs) (omega (arith, length-drop position xs (omega arith)))

pub take-overwrite_whole :
    (n : ℕ) (new xs : List ℕ) → length new ≡ n → n ≤ length xs → take n (overwrite new xs) ≡ new
take-overwrite_whole n new xs e h =
    ap (λ k. take k (overwrite new xs)) (sym e) ∙ take-overwrite new xs (omega arith)

pub take_whole : (n : ℕ) (xs : List ℕ) → length xs ≡ n → take n xs ≡ xs
take_whole n xs e = ap (λ k. take k xs) (sym e) ∙ take-length xs

drop_none : (n : ℕ) → drop {A = ℕ} n [] ≡ []
drop_none zero = refl
drop_none (suc n) = refl

splice_empty : (xs : List ℕ) → splice 0 xs [] ≡ xs
unfolding splice
splice_empty xs = ap (λ r. xs ++ r) (drop_none _) ∙ append-nil xs

pub length-splice :
    (position : ℕ) (bytes xs : List ℕ)
    → position + length bytes ≤ length xs
    → length (splice position bytes xs) ≡ length xs
unfolding splice
length-splice position bytes xs h =
    let rest = drop (position + length bytes) xs in
    omega (
      arith,
      length-append (take position xs) (bytes ++ rest),
      length-append bytes rest,
      length-take position xs (omega arith),
      length-drop (position + length bytes) xs h,
    )

-- A buffer made at least as long as some position, by bytes that are 0.
unfoldable pub padded : ℕ → List ℕ → List ℕ
padded n xs = xs ++ replicate (n - length xs) 0

pub length-padded : (n : ℕ) (xs : List ℕ) → length (padded n xs) ≡ length xs + (n - length xs)
unfolding padded
length-padded n xs =
    omega
      (arith, length-append xs (replicate (n - length xs) 0), length-replicate (n - length xs) 0)

pub padded_none : (n : ℕ) (xs : List ℕ) → n ≤ length xs → padded n xs ≡ xs
unfolding padded
padded_none n xs h =
    let k : n - length xs ≡ 0 = omega arith in ap (λ m. xs ++ replicate m 0) k ∙ append-nil xs

pub splice_fresh : (xs : List ℕ) → splice 0 xs (padded 0 []) ≡ xs
splice_fresh xs = ap (splice 0 xs) (padded_none 0 [] (omega arith)) ∙ splice_empty xs

pub length_drop_eq : (n : ℕ) (xs : List ℕ) → length (drop n xs) ≡ length xs - n
length_drop_eq zero xs = omega arith
length_drop_eq (suc n) [] = omega arith
length_drop_eq (suc n) (x ∷ xs) = omega (arith, length_drop_eq n xs)

-- A splice may reach behind the end.
pub length-splice_wide :
    (position : ℕ) (bytes xs : List ℕ)
    → position ≤ length xs
    → length (splice position bytes xs)
      ≡ position + length bytes + (length xs - (position + length bytes))
unfolding splice
length-splice_wide position bytes xs h =
    let rest = drop (position + length bytes) xs in
    omega (
      arith,
      length-append (take position xs) (bytes ++ rest),
      length-append bytes rest,
      length-take position xs h,
      length_drop_eq (position + length bytes) xs,
    )
