-- ===== src/User/Transfer.antt =====
-- The program of TFS/EXAMPLES/IOROUTER/USER.C over files that keep what is written, and its variable
-- name.
use ttm.Prelude.{
  ℕ, zero, suc, ◌+◌, ◌≤◌, ◌<◌, ◌≡◌, refl, sym, ap, ap₂, ◌∙◌, arith, some, List, [], ◌∷◌, ◌++◌, ℤ,
  pos, negsuc, length, take, drop, overwrite, length-append, take-append, drop-append, eq→==, codes,
}
use mathlib.Core.List.{append_assoc, append-nil}
use ttm.Prelude.Decimal.{print_int, decimal, length-decimal_most}
use ttm.Prelude.Run.{Run, ok, exited}
use ttm.Prelude.Decimal.{IsInt}
use ttm.User.{
  write_only_creating, read_only, Io, User, block, count, filled, first_write, last_write, name,
  next_first, next_last, differences, write_bufs, read_first, read_bufs, read_last, show_errors,
  read_back, write_out, main,
}

-- Files that keep what is written: what stands before the pointer of a descriptor and behind it. A
-- file that is there already keeps its bytes when it is opened.
pub record IsStore {D : Type 0} (io : Io D) (view : ℤ → D → List ℕ × List ℕ) (user : ℤ)
    : Type 0 where
  pub opens :
      (d : D)
      → let r = io.open_file (name user) write_only_creating d in
        (n : ℕ) × ((r.0 ≡ pos n) × ((rest : List ℕ) × (view (pos n) r.1 ≡ ([], rest))))
  pub writes :
      (d : D) (fh : ℤ) (before behind new : List ℕ)
      → view fh d ≡ (before, behind)
      → view fh (io.write fh new d).1 ≡ (before ++ new, drop (length new) behind)
  pub reopens :
      (d : D) (fh : ℤ) (before behind : List ℕ)
      → view fh d ≡ (before, behind)
      → let r = io.open_file (name user) read_only (io.close fh d).1 in
        (n : ℕ) × ((r.0 ≡ pos n) × (view (pos n) r.1 ≡ ([], before ++ behind)))
  pub reads :
      (d : D) (fh : ℤ) (before behind : List ℕ) (n : ℕ)
      → view fh d ≡ (before, behind)
      → n ≤ length behind
      → let r = io.read fh n d in
        (r.0.1 ≡ take n behind) × (view fh r.1 ≡ (before ++ take n behind, drop n behind))

length-filled : (next : ℕ → ℕ) (n c : ℕ) → length (filled next n c) ≡ n
unfolding filled
length-filled next zero c = refl
length-filled next (suc n) c = ap suc (length-filled next n (next c))

differences_same : (xs : List ℕ) → differences xs xs ≡ 0
unfolding differences
differences_same [] = refl
differences_same (x ∷ xs) = rw (eq→== x x refl) (differences_same xs)

length_first_write : length first_write ≡ block
unfolding first_write
length_first_write = length-filled next_first block 35

length_last_write : length last_write ≡ block
unfolding last_write
length_last_write = length-filled next_last block 143

-- A buffer some times over.
repeated : ℕ → List ℕ → List ℕ
repeated zero b = []
repeated (suc n) b = b ++ repeated n b

overwrite_whole : (ys xs : List ℕ) → length ys ≡ length xs → overwrite ys xs ≡ ys
overwrite_whole [] [] e = refl
overwrite_whole [] (x ∷ xs) e = absurd (omega (arith, e))
overwrite_whole (y ∷ ys) [] e = absurd (omega (arith, e))
overwrite_whole (y ∷ ys) (x ∷ xs) e = ap (λ l. y ∷ l) (overwrite_whole ys xs (omega (arith, e)))

module _ {D : Type 0} {io : Io D} {view : ℤ → D → List ℕ × List ℕ} {user : ℤ}
    (store : IsStore io view user) (fh : ℤ) where
  write_bufs-view :
      (left : ℕ) (before behind : List ℕ) (s : User D)
      → view fh s.io ≡ (before, behind)
      → (d : D) × ((write_bufs io fh left s ≡ ok tt (record s { io = d }))
          × ((rest : List ℕ) × (view fh d ≡ (before ++ repeated left s.buf, rest))))
  unfolding write_bufs repeated
  write_bufs-view zero before behind s h =
      (s.io, (refl, (behind, h ∙ ap (λ b. (b, behind)) (sym (append-nil before)))))
  write_bufs-view (suc left) before behind s h =
      let (d, (e, (rest, g))) =
        write_bufs-view left (before ++ s.buf) (drop (length s.buf) behind) _
          (store.writes s.io fh before behind s.buf h) in
      (d, (e, (rest, g ∙ ap (λ b. (b, rest)) (append_assoc before s.buf (repeated left s.buf)))))

  -- A read of what stands behind the pointer.
  reads_front :
      (d : D) (before front rest : List ℕ) (n : ℕ)
      → view fh d ≡ (before, front ++ rest)
      → length front ≡ n
      → let r = io.read fh n d in (r.0.1 ≡ front) × (view fh r.1 ≡ (before ++ front, rest))
  reads_front d before front rest n h l =
      let (e, g) =
        store.reads d fh before (front ++ rest) n h (omega (arith, length-append front rest)) in
      let taken : take n (front ++ rest) ≡ front =
        ap (λ k. take k (front ++ rest)) (sym l) ∙ take-append front rest in
      let dropped : drop n (front ++ rest) ≡ rest =
        ap (λ k. drop k (front ++ rest)) (sym l) ∙ drop-append front rest in
      (e ∙ taken, g ∙ ap₂ (λ x y. (before ++ x, y)) taken dropped)

  read_bufs-view :
      (left : ℕ) (before behind b : List ℕ) (s : User D)
      → length b ≡ block
      → view fh s.io ≡ (before, repeated left b ++ behind)
      → (d : D) × ((buf : List ℕ) × ((read_bufs io fh left s
              ≡ ok tt (record s { buf = buf; io = d }))
            × ((before' : List ℕ) × (view fh d ≡ (before', behind)))))
  unfolding read_bufs repeated
  read_bufs-view zero before behind b s l h = (s.io, (s.buf, (refl, (before, h))))
  read_bufs-view (suc left) before behind b s l h =
      let again : view fh s.io ≡ (before, b ++ (repeated left b ++ behind)) =
        h ∙ ap (λ x. (before, x)) (append_assoc b (repeated left b) behind) in
      let r = reads_front s.io before b (repeated left b ++ behind) block again l in
      read_bufs-view left (before ++ b) behind b _ l r.1

module _ {D : Type 0} {io : Io D} {view : ℤ → D → List ℕ × List ℕ} {user : ℤ}
    (store : IsStore io view user) where
  -- The run has ended with exit code 0 and has shown no errors.
  abbrev IsClean : Run (User D) (Unit {0}) → Type 0
  IsClean r = (t : User D) × ((r ≡ exited (pos 0) t) × (t.shown ≡ some 0))

  read_back-IsClean :
      (fh : ℤ) (b rest : List ℕ) (s : User D)
      → length b ≡ block
      → length s.first_read ≡ block
      → length s.last_read ≡ block
      → view fh s.io ≡ ([], first_write ++ (repeated count b ++ (last_write ++ rest)))
      → IsClean (read_back io fh s)
  unfolding read_back read_first read_last show_errors
  read_back-IsClean fh b rest s l f k h =
      let (e, g) = reads_front store fh s.io [] first_write _ block h length_first_write in
      let r = io.read fh block s.io in
      let one = overwrite r.0.1 s.first_read in
      let (d, (buf, (run, (before, v)))) =
        read_bufs-view store fh count _ _ b (record s { first_read = one; io = r.1 }) l g in
      let (e', g') = reads_front store fh d before last_write rest block v length_last_write in
      let r' = io.read fh block d in
      let two = overwrite r'.0.1 s.last_read in
      let first : one ≡ first_write =
        ap (λ x. overwrite x s.first_read) e
        ∙ overwrite_whole first_write s.first_read (length_first_write ∙ sym f) in
      let last : two ≡ last_write =
        ap (λ x. overwrite x s.last_read) e'
        ∙ overwrite_whole last_write s.last_read (length_last_write ∙ sym k) in
      (
        record {
          buf = buf;
          first_read = one;
          last_read = two;
          shown = some (differences one first_write + differences two last_write);
          io = (io.close fh r'.1).1;
        },
        (
          rw run refl,
          ap some (
              ap₂ (λ x y. differences x first_write + differences y last_write) first last
              ∙ ap₂ ◌+◌ (differences_same first_write) (differences_same last_write)),
        ),
      )

  write_out-view :
      (fh : ℤ) (rest : List ℕ) (s : User D)
      → view fh s.io ≡ ([], rest)
      → (d : D) × ((write_out io fh s ≡ ok tt (record s { io = (io.close fh d).1 }))
          × ((behind : List ℕ) × (view fh d
                ≡ ((first_write ++ repeated count s.buf) ++ last_write, behind))))
  unfolding write_out
  write_out-view fh rest s h =
      let one = store.writes s.io fh [] rest first_write h in
      let (d, (run, (behind, v))) =
        write_bufs-view store fh count _ _ (record s { io = (io.write fh first_write s.io).1 })
          one in
      ((io.write fh last_write d).1, (rw run refl, (_, store.writes d fh _ behind last_write v)))

  -- If the files keep what is written, the program ends with exit code 0 and shows that there are no
  -- errors, also when the file was there before and is longer. The buffers have their sizes.
  pub main-IsClean :
      (s : User D)
      → length s.buf ≡ block
      → length s.first_read ≡ block
      → length s.last_read ≡ block
      → IsClean (main io user s)
  unfolding main
  main-IsClean s l f k =
      let (n, (e, (rest, h))) = store.opens s.io in
      let (d, (run, (behind, v))) =
        write_out-view (pos n) rest
          (record s { io = (io.open_file (name user) write_only_creating s.io).1 }) h in
      let (m, (e', h')) = store.reopens d (pos n) _ behind v in
      rw e (
        rw run (
          rw e' (
            read_back-IsClean (pos m) s.buf behind _ l f k (
              h'
              ∙ ap (λ x. ([], x))
                  (append_assoc (first_write ++ repeated count s.buf) last_write behind
                    ∙ append_assoc first_write (repeated count s.buf) (last_write ++ behind))))))

-- The name with its end mark fits into its 20 bytes, whatever the number of the user is.
name_fits : (user : ℤ) → IsInt user → length (name user) < 20
unfolding print_int
name_fits (pos n) h = omega (
  arith,
  length-append (codes "TFS:test") (decimal 10 n),
  length-decimal_most 9 10 n (omega (arith, h)),
)
name_fits (negsuc n) h = omega (
  arith,
  length-append (codes "TFS:test") (b'-' ∷ decimal 10 (n + 1)),
  length-decimal_most 9 10 (n + 1) (omega (arith, h)),
)
