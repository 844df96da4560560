-- ===== src/User.antt =====
-- TFS/EXAMPLES/IOROUTER/USER.C: a program that writes a file over the router, reads it again and
-- counts the differences in the first and in the last block. The file functions of the C library
-- are a parameter. What is printed is left out, but for the count, and so is the clock.
pub mod Transfer
mod Examples
use ttm.Prelude.{
  ℕ, zero, suc, ◌+◌, ◌*◌, ◌%◌, Option, some, List, [], ◌∷◌, ◌++◌, ℤ, pos, negsuc, ◌==◌, ◌==ℤ◌,
  if◌then◌else◌, codes, overwrite,
}
use ttm.Prelude.Decimal.{print_int}
use ttm.Prelude.Run.{ok, Cmd, pure, exit, ◌>>=◌, ◌>>◌}

-- O_WRONLY | O_CREAT, and O_RDONLY.
pub data Access : Type 0 where
  write_only_creating read_only : Access

-- `open`, `close`, `write`, and `read` with the bytes that went into the buffer.
pub record Io (D : Type 0) : Type 0 where
  pub open_file : List ℕ → Access → D → ℤ × D
  pub close : ℤ → D → ℤ × D
  pub write : ℤ → List ℕ → D → ℤ × D
  pub read : ℤ → ℕ → D → (ℤ × List ℕ) × D

-- The buffers that are read into, and the count that is printed.
pub record User (D : Type 0) : Type 0 where
  pub buf : List ℕ
  pub first_read : List ℕ
  pub last_read : List ℕ
  pub shown : Option ℕ
  pub io : D

-- BLOCK and COUNT.
abbrev pub block : ℕ
block = 8192

abbrev pub count : ℕ
count = 128

-- A buffer in which each byte is computed from the one in front. A char keeps the low 8 bits.
unfoldable pub filled : (ℕ → ℕ) → ℕ → ℕ → List ℕ
filled next zero c = []
filled next (suc n) c = c ∷ filled next n (next c)

abbrev pub next_first : ℕ → ℕ
next_first c = (c * 329857 + 985793) % 256

abbrev pub next_last : ℕ → ℕ
next_last c = (c * 386157 + 298735) % 256

unfoldable pub first_write : List ℕ
unfolding filled
first_write = filled next_first block 35

unfoldable pub last_write : List ℕ
unfolding filled
last_write = filled next_last block 143

-- The variable name, which has 20 bytes, without the end mark.
abbrev pub name : ℤ → List ℕ
name user = codes "TFS:test" ++ print_int user

-- The bytes that differ.
unfoldable pub differences : List ℕ → List ℕ → ℕ
differences [] ys = 0
differences (x ∷ xs) [] = 0
differences (x ∷ xs) (y ∷ ys) = let rest = differences xs ys in if x == y then rest else suc rest

module _ {D : Type 0} (io : Io D) where
  abbrev pub in_io : {A : Type 0} → (D → A × D) → Cmd (User D) A
  in_io f s = ok (f s.io).0 (record s { io = (f s.io).1 })

  -- write( fh, buf, BLOCK ), by the rounds left. The results are not looked at.
  unfoldable pub write_bufs : ℤ → ℕ → Cmd (User D) (Unit {0})
  write_bufs fh zero s = ok tt s
  write_bufs fh (suc left) s = write_bufs fh left (record s { io = (io.write fh s.buf s.io).1 })

  unfoldable pub read_first : ℤ → Cmd (User D) (Unit {0})
  read_first fh s =
      let r = io.read fh block s.io in
      ok tt (record s { first_read = overwrite r.0.1 s.first_read; io = r.1 })

  unfoldable pub read_bufs : ℤ → ℕ → Cmd (User D) (Unit {0})
  read_bufs fh zero s = ok tt s
  read_bufs fh (suc left) s =
      let r = io.read fh block s.io in
      read_bufs fh left (record s { buf = overwrite r.0.1 s.buf; io = r.1 })

  unfoldable pub read_last : ℤ → Cmd (User D) (Unit {0})
  read_last fh s =
      let r = io.read fh block s.io in
      ok tt (record s { last_read = overwrite r.0.1 s.last_read; io = r.1 })

  -- The count of the errors, as it is printed.
  unfoldable pub show_errors : Cmd (User D) (Unit {0})
  show_errors s = ok tt (record s {
    shown = some (differences s.first_read first_write + differences s.last_read last_write);
  })

  -- What follows the second opening.
  unfoldable pub read_back : ℤ → Cmd (User D) (Unit {0})
  read_back fh = do
    read_first fh
    read_bufs fh count
    read_last fh
    show_errors
    _ ← in_io (io.close fh)
    exit (pos 0)

  -- The writing of the file.
  unfoldable pub write_out : ℤ → Cmd (User D) (Unit {0})
  write_out fh = do
    _ ← in_io (io.write fh first_write)
    write_bufs fh count
    _ ← in_io (io.write fh last_write)
    _ ← in_io (io.close fh)
    pure tt

  -- `main`, over the number of the user, which is a parameter of the configuration.
  unfoldable pub main : ℤ → Cmd (User D) (Unit {0})
  main user = do
    fh ← in_io (io.open_file (name user) write_only_creating)
    if fh ==ℤ negsuc 0 then exit (negsuc 0) else (do
      write_out fh
      fh ← in_io (io.open_file (name user) read_only)
      if fh ==ℤ negsuc 0 then exit (negsuc 0) else read_back fh)
