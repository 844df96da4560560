-- ===== src/Scsi/Inquiry/Layout.antt =====
-- The layout of `struct scsi_inquiry` (TTM50/LIBS/SCSI.H) loses nothing.
use ttm.Prelude.{
  ℕ, ◌+◌, ◌<◌, ◌≡◌, zero, suc, refl, sym, ap, ◌∙◌, List, [], ◌∷◌, ◌++◌, arith, take, drop,
  take-append, drop-append, take-length,
}
use ttm.Prelude
use ttm.Scsi.Inquiry.{Inquiry, to_bytes, of_bytes}

-- Each field fits its bits, and each text its array.
pub record IsInRange (q : Inquiry) : Type 0 where
  pub type : q.type < 32
  pub qualifier : q.qualifier < 8
  pub modifier : q.modifier < 128
  pub rmb : q.rmb < 2
  pub ansi : q.ansi < 8
  pub ecma : q.ecma < 8
  pub iso : q.iso < 4
  pub format : q.format < 16
  pub trmiop : q.trmiop < 2
  pub aenc : q.aenc < 2
  pub length : q.length < 256
  pub sftre : q.sftre < 2
  pub cmdque : q.cmdque < 2
  pub linked : q.linked < 2
  pub sync : q.sync < 2
  pub wbus16 : q.wbus16 < 2
  pub wbus32 : q.wbus32 < 2
  pub reladr : q.reladr < 2
  pub vendor : Prelude.length q.vendor ≡ 8
  pub product : Prelude.length q.product ≡ 16
  pub revision : Prelude.length q.revision ≡ 4

take_front : (n : ℕ) (xs ys : List ℕ) → Prelude.length xs ≡ n → take n (xs ++ ys) ≡ xs
take_front n xs ys e = ap (λ k. take k (xs ++ ys)) (sym e) ∙ take-append xs ys

drop_front : (n : ℕ) (xs ys : List ℕ) → Prelude.length xs ≡ n → drop n (xs ++ ys) ≡ ys
drop_front n xs ys e = ap (λ k. drop k (xs ++ ys)) (sym e) ∙ drop-append xs ys

drop-nil : (n : ℕ) → drop {A = ℕ} n [] ≡ []
drop-nil zero = refl
drop-nil (suc n) = refl

drop-drop : (m n k : ℕ) (xs : List ℕ) → k ≡ m + n → drop k xs ≡ drop n (drop m xs)
drop-drop zero n k xs e = ap (λ j. drop j xs) (e ∙ omega arith)
drop-drop (suc m) n zero xs e = absurd (omega arith)
drop-drop (suc m) n (suc k) [] e = sym (drop-nil n)
drop-drop (suc m) n (suc k) (x ∷ xs) e = drop-drop m n k xs (omega arith)

-- The three texts behind one another, read back.
module _ (v p r : List ℕ) (lv : Prelude.length v ≡ 8) (lp : Prelude.length p ≡ 16)
    (lr : Prelude.length r ≡ 4) where
  text_vendor : take 8 (v ++ (p ++ r)) ≡ v
  text_vendor = take_front 8 v (p ++ r) lv

  text_product : take 16 (drop 8 (v ++ (p ++ r))) ≡ p
  text_product = ap (take 16) (drop_front 8 v (p ++ r) lv) ∙ take_front 16 p r lp

  text_revision : take 4 (drop 24 (v ++ (p ++ r))) ≡ r
  text_revision =
      ap (take 4) (drop-drop 8 16 24 (v ++ (p ++ r)) refl)
      ∙ ap (λ t. take 4 (drop 16 t)) (drop_front 8 v (p ++ r) lv)
      ∙ ap (take 4) (drop_front 16 p r lp)
      ∙ ap (λ k. take k r) (sym lr)
      ∙ take-length r

pub of_bytes-to_bytes : (q : Inquiry) → IsInRange q → of_bytes (to_bytes q) ≡ q
unfolding of_bytes to_bytes
of_bytes-to_bytes q r = ground (
  arith,
  text_vendor q.vendor q.product q.revision r.vendor r.product r.revision,
  text_product q.vendor q.product q.revision r.vendor r.product r.revision,
  text_revision q.vendor q.product q.revision r.vendor r.product r.revision,
)
