-- ===== src/Find/Text.antt =====
-- What `same_text`, which stands for strcmp, says of two texts.
use ttm.Prelude.{◌≡◌, refl, arith, ℕ, true, List, [], ◌∷◌, eq→==}
use ttm.Find.{same_text}

pub same_text-eq : (p q : List ℕ) → same_text p q ≡ true → p ≡ q
unfolding same_text
same_text-eq [] [] h = refl
same_text-eq [] (d ∷ ds) h = cc
same_text-eq (c ∷ cs) [] h = cc
same_text-eq (c ∷ cs) (d ∷ ds) h = ground (arith, same_text-eq cs ds)

pub same_text_refl : (p : List ℕ) → same_text p p ≡ true
unfolding same_text
same_text_refl [] = refl
same_text_refl (c ∷ cs) = rw (eq→== c c refl, same_text_refl cs) refl
