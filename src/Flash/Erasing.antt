-- ===== src/Flash/Erasing.antt =====
-- The first half of `high_pr` of TTM50/EXAMPLES/FLASH.C on a flash EPROM that works: every word is
-- programmed to 0 and the EPROM is erased.
use ttm.Prelude.{
  ℕ, zero, suc, ◌+◌, ◌≤◌, ◌<◌, ◌≡◌, refl, ap, ◌∙◌, true, arith, eq→==, le_or_lt, inl, inr,
}
use ttm.Flash.{
  Eprom, flash_base_address, flash_word_size, word_address, program_rounds, zero_attempts,
  prog_to_0_from, prog_to_0, check_value_from, check_value, erase_verify_from, erase_attempts,
  erase,
}
use ttm.Flash.Chip.{
  reading, Chip, updated, blank, in_mode, IsFlash, Takes, Takes-pure, Takes-bind, Takes-write,
  Takes-wait, Takes-write_to, Takes-read_as,
}

-- The words from number `j` on, `n` of them, set to 0.
abbrev pub zeroed : ℕ → ℕ → (ℕ → ℕ) → ℕ → ℕ
zeroed zero j w = w
zeroed (suc n) j w = zeroed n (j + 1) (updated (word_address flash_base_address j) 0 w)

pub updated_at : (a v : ℕ) (w : ℕ → ℕ) → updated a v w a ≡ v
updated_at a v w = rw (eq→== a a refl) refl

updated_zero : (a x : ℕ) (w : ℕ → ℕ) → w x ≡ 0 → updated a 0 w x ≡ 0
updated_zero a x w h = ground arith

zeroed_stays : (n j x : ℕ) (w : ℕ → ℕ) → w x ≡ 0 → zeroed n j w x ≡ 0
zeroed_stays zero j x w h = h
zeroed_stays (suc n) j x w h = zeroed_stays n (j + 1) x _ (updated_zero _ x w h)

zeroed_at :
    (n j i : ℕ) (w : ℕ → ℕ)
    → j ≤ i
    → i < j + n
    → zeroed n j w (word_address flash_base_address i) ≡ 0
zeroed_at zero j i w h k = absurd (omega (arith, h, k))
zeroed_at (suc n) j i w h k = elim (le_or_lt i j) [
  | inl l ↦ zeroed_stays n (j + 1) _ _ (
      ap (λ x. updated (word_address flash_base_address j) 0 w (word_address flash_base_address x))
        (omega (arith, h, l))
      ∙ updated_at _ 0 w)
  | inr l ↦ zeroed_at n (j + 1) i _ (omega (arith, l)) (omega (arith, k))
]

module _ {D : Type 0} {eprom : Eprom D} {burn : ℕ → ℕ → ℕ} {chip : D → Chip}
    (flash : IsFlash eprom burn chip) where
  zero_attempts-Takes :
      (j : ℕ) (w : ℕ → ℕ)
      → Takes chip
          (in_mode reading w)
          (zero_attempts eprom program_rounds j 0xffffffff)
          tt
          (in_mode reading (updated (word_address flash_base_address j) 0 w))
  unfolding zero_attempts
  zero_attempts-Takes j w =
      let a = word_address flash_base_address j in
      Takes-bind _ (Takes-write flash _ _ _) (
        Takes-bind _
          (Takes-write_to flash a 0 _ _
            (ap (λ v. in_mode reading (updated a v w)) (flash.clears (w a))))
          (Takes-bind _ (Takes-wait flash _ _) (
            Takes-bind _ (Takes-write flash _ _ _) (
              Takes-bind _ (Takes-wait flash _ _)
                (Takes-bind _ (Takes-read_as flash a 0 _ (updated_at a 0 w)) (Takes-pure _ _))))))

  prog_to_0_from-Takes :
      (n j : ℕ) (w : ℕ → ℕ)
      → Takes chip
          (in_mode reading w)
          (prog_to_0_from eprom n j)
          tt
          (in_mode reading (zeroed n j w))
  unfolding prog_to_0_from
  prog_to_0_from-Takes zero j w = Takes-pure _ _
  prog_to_0_from-Takes (suc n) j w =
      Takes-bind _ (zero_attempts-Takes j w) (prog_to_0_from-Takes n (j + 1) _)

  check_value_from-Takes :
      (n j value : ℕ) (w : ℕ → ℕ)
      → ((i : ℕ) → j ≤ i → i < j + n → w (word_address flash_base_address i) ≡ value)
      → Takes chip (in_mode reading w) (check_value_from eprom n j value) tt (in_mode reading w)
  unfolding check_value_from
  check_value_from-Takes zero j value w h = Takes-pure _ _
  check_value_from-Takes (suc n) j value w h =
      Takes-bind _ (Takes-read_as flash _ value _ (h j (omega arith) (omega arith))) (
        rw (eq→== value value refl) (
          check_value_from-Takes n (j + 1) value w
            (λ i l k. h i (omega (arith, l)) (omega (arith, k)))))

  -- The words are programmed to 0, and the check finds that.
  pub prog_to_0-Takes :
      (w : ℕ → ℕ)
      → Takes chip
          (in_mode reading w)
          (prog_to_0 eprom)
          tt
          (in_mode reading (zeroed flash_word_size 0 w))
  unfolding prog_to_0
  prog_to_0-Takes w = prog_to_0_from-Takes flash_word_size 0 w

  pub check_zero-Takes :
      (w : ℕ → ℕ)
      → Takes chip
          (in_mode reading (zeroed flash_word_size 0 w))
          (check_value eprom 0)
          tt
          (in_mode reading (zeroed flash_word_size 0 w))
  unfolding check_value
  check_zero-Takes w =
      check_value_from-Takes flash_word_size 0 0 _ (λ i l k. zeroed_at flash_word_size 0 i w l k)

  pub check_blank-Takes :
      Takes chip (in_mode reading blank) (check_value eprom 0xffffffff) tt (in_mode reading blank)
  unfolding check_value
  check_blank-Takes = check_value_from-Takes flash_word_size 0 0xffffffff blank (λ i l k. refl)

  erase_verify_from-Takes :
      (n j : ℕ)
      → Takes chip
          (in_mode reading blank)
          (erase_verify_from eprom n j)
          true
          (in_mode reading blank)
  unfolding erase_verify_from
  erase_verify_from-Takes zero j = Takes-pure _ _
  erase_verify_from-Takes (suc n) j = Takes-bind _ (Takes-write flash _ _ _) (
      Takes-bind _ (Takes-wait flash _ _) (
        Takes-bind _ (Takes-read_as flash _ 0xffffffff _ refl) (erase_verify_from-Takes n (j + 1))))

  erase_attempts-Takes :
      (r n : ℕ) (w : ℕ → ℕ)
      → Takes chip (in_mode reading w) (erase_attempts eprom (suc r) n) true (in_mode reading blank)
  unfolding erase_attempts
  erase_attempts-Takes r n w = Takes-bind _ (Takes-write flash _ _ _) (
      Takes-bind _ (Takes-write flash _ _ _) (
        Takes-bind _ (Takes-wait flash _ _)
          (Takes-bind _ (erase_verify_from-Takes n 0) (Takes-pure _ _))))

  pub erase-Takes :
      (w : ℕ → ℕ) → Takes chip (in_mode reading w) (erase eprom) tt (in_mode reading blank)
  unfolding erase
  erase-Takes w =
      Takes-bind _ (erase_attempts-Takes 998 flash_word_size w)
        (Takes-bind _ (Takes-write flash _ _ _) (Takes-pure _ _))
