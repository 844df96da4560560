-- ===== src/Disktest/FillTest.antt =====
-- `fill_test` of TTM50/EXAMPLES/DISKTEST.C: what it accepts, and where it writes.
use ttm.Prelude.{
  ℕ, ◌+◌, ◌*◌, ◌%◌, ◌≤◌, ◌<◌, ◌≡◌, ◌↔◌, ap, ◌∙◌, sym, Bool, true, some, List, arith, ℤ, pos, negsuc,
  ◌==ℤ◌, if◌then◌else◌, Bool-cases, inl, inr, take, drop, append_nil_of_length, replicate,
  overwrite, length, All, overwrite-append, overwrite-take-clear, length-overwrite,
}
use ttm.Prelude.Run.{Run, ok, exited}
use ttm.Scsi.{Address, Command, scsi_ok, sflag_data_in, sflag_data_out, scmd_read_10, scmd_write_10}
use ttm.Scsi.Library.{Library}
use ttm.Disktest.{value_start, rounds, pattern_bytes, matches, transfer, outcome, plan, fill_test}
use ttm.Disktest.Pattern.{matches-pattern, pattern_of_matches, matches-append, length-pattern}

-- A test that went through has passed each of its checks.
accepted :
    {D : Type 0} (x y : ℤ) (m : Bool) (got : List ℕ) (d1 d2 : D) {left : List ℕ} {d' : D}
    → (if x ==ℤ scsi_ok
        then (if y ==ℤ scsi_ok
            then (if m then ok got d2 else exited (pos 1) d2)
            else exited (pos 1) d2)
        else exited (pos 1) d1)
      ≡ ok left d'
    → (x ≡ scsi_ok) × (y ≡ scsi_ok) × (m ≡ true)
accepted x y m got d1 d2 h = ground arith

-- The test passes, or the program ends with exit code 1.
abbrev pub Tested : {D : Type 0} → Run D (List ℕ) → Type 0
Tested (ok left d) = Unit {0}
Tested (exited code d) = code ≡ pos 1

decided :
    {D : Type 0} (x y : ℤ) (m : Bool) (got : List ℕ) (d1 d2 : D)
    → Tested (
        if x ==ℤ scsi_ok
        then (if y ==ℤ scsi_ok
            then (if m then ok got d2 else exited (pos 1) d2)
            else exited (pos 1) d2)
        else exited (pos 1) d1)
decided x y m got d1 d2 = ground arith

-- A command that was carried out whole.
pub record Succeeded (r : Command × ℤ) : Type 0 where
  pub result : r.1 ≡ pos 0
  pub status : r.0.status ≡ 0
  pub residue : r.0.residue ≡ 0

outcome-Succeeded : (r : Command × ℤ) → outcome r ≡ scsi_ok → Succeeded r
unfolding outcome
outcome-Succeeded (c, pos n) h = record {
  result = ap pos (ground arith);
  status = ground arith;
  residue = ground arith;
}
outcome-Succeeded (c, negsuc n) h = absurd (cc)

module _ {D : Type 0} (lib : Library D) (address : Address) (blocks size : ℕ) where
  -- The library's answers to the write command and to the read command.
  abbrev pub write_reply : List ℕ → D → (Command × ℤ) × D
  write_reply memory =
      lib.scsi_command address (transfer scmd_write_10 sflag_data_out address blocks memory size)

  abbrev pub read_reply : List ℕ → D → (Command × ℤ) × D
  read_reply memory =
      lib.scsi_command address (transfer scmd_read_10 sflag_data_in address blocks memory size)

  -- The buffer with the pattern in it, and what is behind the buffer.
  abbrev pub set_up : List ℕ → List ℕ
  set_up memory = overwrite (pattern_bytes (rounds size) value_start) memory

  abbrev pub clear : List ℕ → List ℕ
  clear memory = overwrite (replicate size 0) memory

  fill_test-outcomes :
      (memory : List ℕ) (d : D)
      → let w = write_reply (set_up memory) d in
        let r = read_reply (clear (set_up memory)) w.1 in
        let got = overwrite (take size r.0.0.bytes) (clear (set_up memory)) in
        fill_test lib address blocks memory size d ≡ (
          if outcome w.0 ==ℤ scsi_ok
          then (if outcome r.0 ==ℤ scsi_ok
              then (if matches (rounds size) value_start got
                  then ok got r.1
                  else exited (pos 1) r.1)
              else exited (pos 1) r.1)
          else exited (pos 1) w.1)
  unfolding fill_test
  fill_test-outcomes memory d =
      let w = write_reply (set_up memory) d in
      let r = read_reply (clear (set_up memory)) w.1 in
      let got = overwrite (take size r.0.0.bytes) (clear (set_up memory)) in
      elim (Bool-cases (outcome w.0 ==ℤ scsi_ok)) [
        | inr e ↦ rw e
        | inl e ↦ rw e (elim (Bool-cases (outcome r.0 ==ℤ scsi_ok)) [
          | inr e' ↦ rw e'
          | inl e' ↦ rw e' (elim (Bool-cases (matches (rounds size) value_start got)) [
            | inl m ↦ rw m
            | inr m ↦ rw m
          ])
        ])
      ]

  pub fill_test-Tested :
      (memory : List ℕ) (d : D) → Tested (fill_test lib address blocks memory size d)
  fill_test-Tested memory d =
      let w = write_reply (set_up memory) d in
      let r = read_reply (clear (set_up memory)) w.1 in
      let got = overwrite (take size r.0.0.bytes) (clear (set_up memory)) in
      rw (fill_test-outcomes memory d)
        (decided (outcome w.0) (outcome r.0) (matches (rounds size) value_start got) got w.1 r.1)

  -- What the disk promises: it accepts the write and the read of these blocks, and the read gives
  -- what the write was given.
  pub record IsStore (d : D) : Type 0 where
    pub writes : (memory : List ℕ) → outcome (write_reply memory d).0 ≡ scsi_ok
    pub reads :
        (memory scratch : List ℕ)
        → outcome (read_reply scratch (write_reply memory d).1).0 ≡ scsi_ok
    pub keeps :
        (memory scratch : List ℕ)
        → take size (read_reply scratch (write_reply memory d).1).0.0.bytes ≡ take size memory

  -- A disk that keeps what is written passes the test, and the buffer and what is behind it are
  -- left with the pattern over them, provided that there is memory for the whole last word.
  pub fill_test-passes :
      (memory : List ℕ) (d : D)
      → IsStore d
      → rounds size * 4 ≤ length memory
      → fill_test lib address blocks memory size d
        ≡ ok
            (set_up memory)
            (read_reply (clear (set_up memory)) (write_reply (set_up memory) d).1).1
  fill_test-passes memory d s l =
      let kept = set_up memory in
      let r = read_reply (clear kept) (write_reply kept d).1 in
      let back : overwrite (take size r.0.0.bytes) (clear kept) ≡ kept =
        ap (λ t. overwrite t (clear kept)) (s.keeps kept (clear kept))
        ∙ overwrite-take-clear size 0 kept in
      let room : length (pattern_bytes (rounds size) value_start) ≤ length memory =
        omega (arith, length-pattern (rounds size) value_start) in
      let matched =
        ap (matches (rounds size) value_start)
          (back ∙ overwrite-append (pattern_bytes (rounds size) value_start) memory room)
        ∙ matches-pattern (rounds size) value_start
            (drop (length (pattern_bytes (rounds size) value_start)) memory) (omega arith) in
      fill_test-outcomes memory d
      ∙ rw (s.writes kept) (rw (s.reads kept (clear kept)) (rw matched (ap (λ t. ok t r.1) back)))

  -- The test passes only if both commands had result 0, status 0 and residue 0, and the data that the
  -- read command delivered are the pattern, word for word, provided that the size is a multiple of
  -- 4 and that the command delivered as many bytes as it was asked for.
  pub fill_test_sound :
      (memory : List ℕ) (d : D) {left : List ℕ} {d' : D}
      → let w = write_reply (set_up memory) d in
        let r = read_reply (clear (set_up memory)) w.1 in
        fill_test lib address blocks memory size d ≡ ok left d'
        → size % 4 ≡ 0
        → size ≤ length memory
        → length (take size r.0.0.bytes) ≡ size
        → All (λ b. b < 256) (take size r.0.0.bytes)
        → Succeeded w.0
          × Succeeded r.0
          × (take size r.0.0.bytes ≡ pattern_bytes (rounds size) value_start)
  fill_test_sound memory d e m l n b =
      let kept = set_up memory in
      let w = write_reply kept d in
      let r = read_reply (clear kept) w.1 in
      let delivered = take size r.0.0.bytes in
      let (written, read, matched) =
        accepted (outcome w.0) (outcome r.0)
          (matches (rounds size) value_start (overwrite delivered (clear kept)))
          (overwrite delivered (clear kept)) w.1 r.1 (sym (fill_test-outcomes memory d) ∙ e) in
      let room : length delivered ≤ length (clear kept) = omega (
        arith,
        n,
        length-overwrite (replicate size 0) kept,
        length-overwrite (pattern_bytes (rounds size) value_start) memory,
      ) in
      let whole : rounds size * 4 ≤ length delivered = omega (arith, n) in
      let front =
        sym (
          matches-append (rounds size) value_start delivered (drop (length delivered) (clear kept))
            whole)
        ∙ ap (matches (rounds size) value_start)
            (sym (overwrite-append delivered (clear kept) room))
        ∙ matched in
      let (rest, split) = pattern_of_matches (rounds size) value_start delivered b whole front in
      (
        outcome-Succeeded w.0 written,
        outcome-Succeeded r.0 read,
        append_nil_of_length delivered (pattern_bytes (rounds size) value_start) rest split
            (omega (arith, n, length-pattern (rounds size) value_start)),
      )

-- The first loop of `fill_test` stores whole words: the size of the buffer rounded up to a multiple
-- of 4. For an accepted disk whose buffer is no such multiple it writes behind the buffer.
pub pattern_overruns :
    (block_size number_blocks : ℕ) {blocks : ℕ}
    → plan block_size number_blocks ≡ some blocks
    → let size = blocks * block_size in
      let stored = length (pattern_bytes (rounds size) value_start) in
      (size ≤ stored) × (stored < size + 4) × ((stored ≡ size) ↔ (size % 4 ≡ 0))
pattern_overruns s n {blocks} h = omega (arith, length-pattern (rounds (blocks * s)) value_start)
