-- ===== src/Bench/Working.antt =====
-- The command of TFS/EXAMPLES/TFSH/BENCH.C on a file system that keeps its file.
use ttm.Prelude.{
  ==ℤ-refl, ℕ, zero, suc, ◌+◌, ◌*◌, ◌≤◌, ◌≡◌, refl, ap, ◌∙◌, arith, Bool, true, List, [], ◌∷◌, ℤ,
  pos, length, replicate, length-replicate,
}
use ttm.Prelude.Run.{Cmd, ok}
use ttm.Tfs.{tfs_o_rdonly, tfs_o_wronly, tfs_o_creat}
use ttm.Tfs.Library.{Library}
use ttm.Bench.{
  Machine, Message, written, measured, atoi, kilobytes, file_name, write_blocks, read_blocks,
  err_exit, err_close, read_file, finish_writing, write_file, run_sizes, benchmark,
}

-- What can be seen of a file system: where the pointer of a descriptor is and the size of its file,
-- whether it is open, and how many bytes have been written and read so far.
pub record View (D : Type 0) : Type 0 where
  pub at : ℤ → D → ℕ × ℕ
  pub is_open : ℤ → D → Bool
  pub sent : D → ℕ
  pub fetched : D → ℕ

-- Nothing has been written or read in between.
abbrev pub Rests : {D : Type 0} → View D → D → D → Type 0
Rests view d d' = (view.sent d' ≡ view.sent d) × (view.fetched d' ≡ view.fetched d)

-- A file system with so much room for the file of the command, and memory for one of its blocks.
-- The clock and the memory leave the files as they are.
pub record IsRoomy {D : Type 0} (lib : Library D) (machine : Machine D) (pid : ℤ) (room block : ℕ)
    (view : View D) : Type 0 where
  pub opens :
      (d : D)
      → let r = lib.tfs_open pid file_name (tfs_o_wronly + tfs_o_creat) 438 d in
        (n : ℕ) × (r.0 ≡ pos n)
        × ((view.at (pos n) r.1).0 ≡ 0)
        × (view.is_open (pos n) r.1 ≡ true)
        × Rests view d r.1
  pub writes :
      (d : D) (fd : ℤ) (bytes : List ℕ)
      → view.is_open fd d ≡ true
      → (view.at fd d).0 + length bytes ≤ room
      → let r = lib.tfs_write pid fd bytes d in
        (r.0 ≡ pos (length bytes))
        × ((view.at fd r.1).0 ≡ (view.at fd d).0 + length bytes)
        × ((view.at fd r.1).0 ≤ (view.at fd r.1).1)
        × (view.is_open fd r.1 ≡ true)
        × (view.sent r.1 ≡ view.sent d + length bytes)
        × (view.fetched r.1 ≡ view.fetched d)
  -- The file is closed, written to the disk and opened again.
  pub reopens :
      (d : D) (fd : ℤ)
      → view.is_open fd d ≡ true
      → let c = lib.tfs_close pid fd d in
        let r = lib.tfs_open pid file_name tfs_o_rdonly 438 (lib.tfs_sync c.1).1 in
        (n : ℕ) × (c.0 ≡ pos 0)
        × (r.0 ≡ pos n)
        × ((view.at (pos n) r.1).0 ≡ 0)
        × ((view.at (pos n) r.1).1 ≡ (view.at fd d).1)
        × (view.is_open (pos n) r.1 ≡ true)
        × Rests view d r.1
  pub reads :
      (d : D) (fd : ℤ) (n : ℕ)
      → view.is_open fd d ≡ true
      → (view.at fd d).0 + n ≤ (view.at fd d).1
      → let r = lib.tfs_read pid fd n d in
        (r.0.0 ≡ pos n)
        × ((view.at fd r.1).0 ≡ (view.at fd d).0 + n)
        × ((view.at fd r.1).1 ≡ (view.at fd d).1)
        × (view.is_open fd r.1 ≡ true)
        × (view.sent r.1 ≡ view.sent d)
        × (view.fetched r.1 ≡ view.fetched d + n)
  pub closes :
      (d : D) (fd : ℤ)
      → view.is_open fd d ≡ true
      → let r = lib.tfs_close pid fd d in (r.0 ≡ pos 0) × Rests view d r.1
  pub ticks :
      (d : D) (fd : ℤ)
      → let t = (machine.proc_time d).1 in
        ((view.at fd t).0 ≡ (view.at fd d).0)
        × ((view.at fd t).1 ≡ (view.at fd d).1)
        × (view.is_open fd t ≡ view.is_open fd d)
        × Rests view d t
  pub gives : (d : D) → let r = machine.calloc block d in (r.0 ≡ true) × Rests view d r.1
  pub frees : (d : D) → Rests view d (machine.free d).1

-- The run has ended with the two reports, and has written and read as many bytes as all the blocks
-- have.
abbrev pub Measures : {D : Type 0} → View D → ℕ → ℕ → Cmd D (List Message) → D → Type 0
Measures {D} view size times m d =
    (writing : ℕ) × (reading : ℕ) × (d' : D) × (m d
      ≡ ok (written writing (kilobytes size times) ∷ measured reading (kilobytes size times) ∷ [])
          d')
    × (view.sent d' ≡ view.sent d + times * size)
    × (view.fetched d' ≡ view.fetched d + times * size)

module _ {D : Type 0} (lib : Library D) (machine : Machine D) (pid : ℤ) (room block : ℕ)
    (view : View D) (roomy : IsRoomy lib machine pid room block view) where
  write_blocks-passes :
      (times size : ℕ) (fd : ℤ) (d : D)
      → view.is_open fd d ≡ true
      → (view.at fd d).0 + times * size ≤ room
      → (view.at fd d).0 ≤ (view.at fd d).1
      → (d' : D) × (write_blocks lib machine pid times size fd d ≡ ok true d')
        × ((view.at fd d').0 ≡ (view.at fd d).0 + times * size)
        × ((view.at fd d').0 ≤ (view.at fd d').1)
        × (view.is_open fd d' ≡ true)
        × (view.sent d' ≡ view.sent d + times * size)
        × (view.fetched d' ≡ view.fetched d)
  unfolding write_blocks
  write_blocks-passes zero size fd d o h k = (d, refl, omega arith, k, o, omega arith, omega arith)
  write_blocks-passes (suc times) size fd d o h k =
      let bytes : List ℕ = replicate size 0 in
      let l : length bytes ≡ size = length-replicate size 0 in
      let (e, p, q, o', w, g) = roomy.writes d fd bytes o (omega (arith, h, l)) in
      let (d', f, p', q', o2, w', g') =
        write_blocks-passes times size fd (lib.tfs_write pid fd bytes d).1 o'
          (omega (arith, h, p, l)) q in
      (
        d',
        rw (e ∙ ap pos l, ==ℤ-refl (pos size)) f,
        omega (arith, p, p', l),
        q',
        o2,
        omega (arith, w, w', l),
        omega (arith, g, g'),
      )

  read_blocks-passes :
      (times size : ℕ) (fd : ℤ) (d : D)
      → view.is_open fd d ≡ true
      → (view.at fd d).0 + times * size ≤ (view.at fd d).1
      → (d' : D) × (read_blocks lib machine pid times size fd d ≡ ok true d')
        × (view.is_open fd d' ≡ true)
        × (view.sent d' ≡ view.sent d)
        × (view.fetched d' ≡ view.fetched d + times * size)
  unfolding read_blocks
  read_blocks-passes zero size fd d o h = (d, refl, o, omega arith, omega arith)
  read_blocks-passes (suc times) size fd d o h =
      let (e, p, p1, o', w, g) = roomy.reads d fd size o (omega (arith, h)) in
      let (d', f, o2, w', g') =
        read_blocks-passes times size fd (lib.tfs_read pid fd size d).1 o'
          (omega (arith, h, p, p1)) in
      (d', rw (e, ==ℤ-refl (pos size)) f, o2, omega (arith, w, w'), omega (arith, g, g'))

module _ {D : Type 0} (lib : Library D) (machine : Machine D) (pid : ℤ) (room size : ℕ)
    (view : View D) (roomy : IsRoomy lib machine pid room (suc size) view) where
  run_sizes-Measures :
      (times : ℕ) (d : D)
      → suc times * suc size ≤ room
      → Measures view
          (suc size)
          (suc times)
          (run_sizes lib machine pid (pos (suc size)) (pos (suc times)))
          d
  unfolding run_sizes write_file finish_writing read_file err_close err_exit
  run_sizes-Measures times d h =
      let (given, (w0, g0)) = roomy.gives d in
      let d1 = (machine.calloc (suc size) d).1 in
      let (n, e1, from, o1, (w1, g1)) = roomy.opens d1 in
      let d2 = (lib.tfs_open pid file_name (tfs_o_wronly + tfs_o_creat) 438 d1).1 in
      let (t2, t2s, t2o, (w2, g2)) = roomy.ticks d2 (pos n) in
      let d3 = (machine.proc_time d2).1 in
      let (d4, e4, behind, within, o4, w4, g4) =
        write_blocks-passes lib machine pid room (suc size) view roomy (suc times) (suc size)
          (pos n) d3 (t2o ∙ o1) (omega (arith, h, t2, from)) (omega (arith, t2, from)) in
      let (t4, t4s, t4o, (w5, g5)) = roomy.ticks d4 (pos n) in
      let d5 = (machine.proc_time d4).1 in
      let (m, e6, e7, again, whole, o6, (w6, g6)) = roomy.reopens d5 (pos n) (t4o ∙ o4) in
      let d6 =
        (lib.tfs_open pid file_name tfs_o_rdonly 438
          (lib.tfs_sync (lib.tfs_close pid (pos n) d5).1).1).1 in
      let (t6, t6s, t6o, (w7, g7)) = roomy.ticks d6 (pos m) in
      let d7 = (machine.proc_time d6).1 in
      let (d8, e8, o8, w8, g8) =
        read_blocks-passes lib machine pid room (suc size) view roomy (suc times) (suc size) (pos m)
          d7 (t6o ∙ o6) (omega (arith, within, behind, t2, from, t4, t4s, again, whole, t6, t6s)) in
      let (_, _, t8o, (w9, g9)) = roomy.ticks d8 (pos m) in
      let d9 = (machine.proc_time d8).1 in
      let (e9, (w10, g10)) = roomy.closes d9 (pos m) (t8o ∙ o8) in
      let d10 = (lib.tfs_close pid (pos m) d9).1 in
      let (w11, g11) = roomy.frees d10 in
      rw (given, e1, e4, e6, e7, e8, e9)
        (
          _,
          _,
          (machine.free d10).1,
          refl,
          omega (arith, w0, w1, w2, w4, w5, w6, w7, w8, w9, w10, w11),
          omega (arith, g0, g1, g2, g4, g5, g6, g7, g8, g9, g10, g11),
        )

  -- On a file system that keeps the command's file and has room for so many blocks of the size,
  -- with memory for one block, and with two arguments that atoi reads as the size and the number,
  -- `benchmark` writes that many bytes and reads as many, and ends with the two reports, for the
  -- kilobytes of that size and number.
  pub benchmark-Measures :
      (a b : List ℕ) (times : ℕ) (d : D)
      → atoi a ≡ pos (suc size)
      → atoi b ≡ pos (suc times)
      → suc times * suc size ≤ room
      → Measures view (suc size) (suc times) (benchmark lib machine pid (a ∷ b ∷ [])) d
  unfolding benchmark
  benchmark-Measures a b times d e f h = rw (e, f) (run_sizes-Measures times d h)
