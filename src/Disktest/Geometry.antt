-- ===== src/Disktest/Geometry.antt =====
-- The size of the buffer of TTM50/EXAMPLES/DISKTEST.C, and what the command block makes of it.
use ttm.Prelude.{
  ℕ, ◌+◌, ◌*◌, ◌/◌, ◌≤◌, ◌<◌, ◌≡◌, ◌⊎◌, inl, inr, ◌↔◌, none, some, arith, pos, get_or, sign_bit,
  word_mod,
}
use ttm.Disktest.{max_buffer_size, max_blocks, transfer_cdb, plan}

div_bounds : (m s : ℕ) → 0 < s → (m / s * s ≤ m) × (m < (m / s + 1) * s)
div_bounds m s h = grind arith

div_pos : (m s : ℕ) → 0 < s → s ≤ m → 0 < m / s
div_pos m s h p = grind arith

mul_bound : (a b s : ℕ) → a ≤ b → a * s ≤ b * s
mul_bound a b s h = grind arith

-- What the tests of the code say of the number of blocks.
plan_choice :
    (s n : ℕ) {blocks : ℕ}
    → plan s n ≡ some blocks
    → let fit = max_buffer_size / s in
      (4 ≤ s)
      × (s ≤ max_buffer_size)
      × (0 < n)
      × (blocks ≤ n)
      × (blocks ≤ max_blocks)
      × (blocks ≤ fit)
      × ((blocks ≡ n) ⊎ ((blocks ≡ max_blocks) ⊎ (blocks ≡ fit)))
unfolding plan
plan_choice s n h = ground arith

-- The buffer of an accepted disk takes at least one block, no more than the disk has, no more than
-- the 15 bits that the program allows, and at most a megabyte; and it cannot be made larger: one
-- more block would pass one of these bounds.
pub plan_bounds :
    (block_size number_blocks : ℕ) {blocks : ℕ}
    → plan block_size number_blocks ≡ some blocks
    → (0 < blocks)
      × (blocks ≤ number_blocks)
      × (blocks ≤ max_blocks)
      × (blocks * block_size ≤ max_buffer_size)
      × ((blocks ≡ number_blocks)
          ⊎ ((blocks ≡ max_blocks) ⊎ (max_buffer_size < (blocks + 1) * block_size)))
plan_bounds s n {blocks} h =
    let (wide, most, some_block, by_disk, by_cap, by_size, which) = plan_choice s n h in
    let (under, over) = div_bounds max_buffer_size s (omega arith) in
    let product = mul_bound blocks (max_buffer_size / s) s by_size in
    let largest : (blocks ≡ n) ⊎ ((blocks ≡ max_blocks) ⊎ (max_buffer_size < (blocks + 1) * s)) =
      elim which [
        | inl e ↦ inl e
        | inr (inl e) ↦ inr (inl e)
        | inr (inr e) ↦ inr (inr (rw e over))
      ] in
    let fits = div_pos max_buffer_size s (omega arith) most in
    (omega arith, by_disk, by_cap, omega arith, largest)

-- A disk is refused exactly when its block size is below 4 or above a megabyte, or it has no
-- block, as 32-bit integers.
pub plan-eq-none :
    (block_size number_blocks : ℕ)
    → block_size < word_mod
    → number_blocks < word_mod
    → (plan block_size number_blocks ≡ none) ↔ (
        (block_size < 4)
        ⊎ ((max_buffer_size < block_size) ⊎ ((number_blocks < 1) ⊎ (sign_bit ≤ number_blocks))))
unfolding plan
plan-eq-none s n hs hn = (λ h. ground arith, λ h. ground arith)

-- The command block of a planned transfer says what is meant: the logical unit in the top three
-- bits of its byte, and the number of blocks in two bytes, the most significant first.
pub plan-cdb :
    (opcode lun block_size number_blocks : ℕ) {blocks : ℕ}
    → lun ≤ 7
    → plan block_size number_blocks ≡ some blocks
    → let cdb = transfer_cdb opcode (pos lun) blocks in
      (get_or cdb 1 0 ≡ lun * 32)
      × (get_or cdb 7 0 * 256 + get_or cdb 8 0 ≡ blocks)
      × (get_or cdb 7 0 < 128)
unfolding transfer_cdb
plan-cdb opcode lun s n h p = omega (arith, plan_bounds s n p)
