-- ===== src/Find/Passed.antt =====
-- Which files TFS/EXAMPLES/TFSH/FIND.C prints, and which entries of a directory it passes over.
use ttm.Prelude.{
  Bool, ap, ◌≢◌, ◌⊎◌, ◌||◌, ◌&&◌, ◌==◌, codes, ap₂, Bool-cases, inl, inr, eq→==, ==→eq, ne→==, ℕ,
  ◌≡◌, refl, ◌∙◌, true, false, List, [], ◌∷◌,
}
use ttm.Tfs.{Dir}
use ttm.Find.{same_text, Settings, is_set, is_skipped, shown}
use ttm.Find.Listing.{line, IsRegular, IsDirectory, IsPassed, IsChild}

-- Which files the settings print.
abbrev pub Selects : Settings → Bool → Bool → Type 0
Selects s fs ds =
    ((mode : ℕ) → IsRegular mode → (is_set mode s.type_mask && s.print) ≡ fs)
    × ((mode : ℕ) → IsDirectory mode → (is_set mode s.type_mask && s.print) ≡ ds)

pub line-shown :
    (s : Settings) (path : List ℕ) (mode : ℕ) (b : Bool)
    → (is_set mode s.type_mask && s.print) ≡ b
    → line b path ≡ shown s path mode
unfolding line shown
line-shown s path mode true e = rw e refl
line-shown s path mode false e = rw e refl

not_both : false ≡ true → ⊥
not_both e = cc

same_text_refl : (t : List ℕ) → same_text t t ≡ true
unfolding same_text
same_text_refl [] = refl
same_text_refl (c ∷ cs) = rw (eq→== c c refl, same_text_refl cs) refl

same_text-eq : (a b : List ℕ) → same_text a b ≡ true → a ≡ b
unfolding same_text
same_text-eq [] [] e = refl
same_text-eq [] (d ∷ ds) e = cc
same_text-eq (c ∷ cs) [] e = cc
same_text-eq (c ∷ cs) (d ∷ ds) e = elim (Bool-cases (c == d)) [
  | inl q ↦ ap₂ ◌∷◌ (==→eq c d q) (same_text-eq cs ds (rw q at e))
  | inr q ↦ absurd (not_both (rw q at e))
]

same_text-ne : (a b : List ℕ) → a ≢ b → same_text a b ≡ false
same_text-ne a b n = elim (Bool-cases (same_text a b)) [
  | inl e ↦ absurd (n (same_text-eq a b e))
  | inr e ↦ e
]

or_true : (a b : Bool) → (a ≡ true) ⊎ (b ≡ true) → (a || b) ≡ true
or_true true b h = refl
or_true false b (inl h) = absurd (not_both h)
or_true false b (inr h) = h

pub is_skipped-passed : (e : Dir) → IsPassed e → is_skipped e ≡ true
unfolding is_skipped
is_skipped-passed e (inl h) = rw (eq→== e.inode_no 0 h) refl
is_skipped-passed e (inr (inl h)) = or_true (e.inode_no == 0) _ (
    inr (
      or_true (same_text e.name (codes ".")) _
        (inl (ap (λ t. same_text t (codes ".")) h ∙ same_text_refl (codes ".")))))
is_skipped-passed e (inr (inr h)) = or_true (e.inode_no == 0) _ (
    inr (
      or_true (same_text e.name (codes ".")) _
        (inr (ap (λ t. same_text t (codes "..")) h ∙ same_text_refl (codes "..")))))

pub is_skipped-child : (e : Dir) → IsChild e → is_skipped e ≡ false
unfolding is_skipped
is_skipped-child e (i, (d, u)) =
    rw (ne→== e.inode_no 0 i, same_text-ne e.name (codes ".") d, same_text-ne e.name (codes "..") u)
      refl
