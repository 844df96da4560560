-- ===== src/Fulltest/Overwrite.antt =====
-- `overwrite_tst` of TFS/EXAMPLES/TFS/FULLTEST.C over a file system that keeps its files.
use ttm.Prelude.{
  ==ℤ-refl, length-replicate, ℕ, zero, suc, ◌+◌, ◌-◌, ◌%◌, ◌≤◌, ◌≡◌, refl, ap, ◌∙◌, arith, true,
  List, [], ℤ, pos, ◌==ℤ◌, length, take, drop, length-overwrite, replicate,
}
use ttm.Prelude.Run.{ok}
use ttm.Tfs.{tfs_o_rdwr, tfs_o_trunc, tfs_o_creat}
use ttm.Tfs.Library.{Library}
use ttm.Fulltest.{
  overwrite_file, file, every_access, Machine, Tester, buffer_size, block, splice, assert,
  assert_same, put_block, check_part, overwrite_at, overwrite_blocks, clear_orig, write_whole,
  check_file, overwrite_tst,
}
use ttm.Fulltest.Buffers.{
  same_bytes_refl, length-splice, take-overwrite_whole, take_whole, splice_fresh,
}
use ttm.Fulltest.Store.{
  Ends, bind-Ends, IsStore, At, random-Ends, assert-Ends, seek-Ends, read_cmp-Ends, write_cmp-Ends,
  write_orig-Ends,
}

pub is_equal : {a b : ℤ} → a ≡ b → (a ==ℤ b) ≡ true
is_equal {b} e = ap (λ z. z ==ℤ b) e ∙ ==ℤ-refl b

module _ {D : Type 0} {lib : Library D} {machine : Machine D} {pid : ℤ}
    {contents : ℤ → D → List ℕ × ℕ} (store : IsStore lib machine pid contents) (fd : ℤ)
    (serious minor : ℕ) where
  -- The file is what buf_orig has.
  abbrev pub Kept : List ℕ → ℕ → Tester D → Type 0
  Kept bytes position s = At store fd serious minor bytes bytes position s

  -- The same for some contents of full size.
  abbrev pub Keeps : Tester D → Type 0
  Keeps s =
      (bytes : List ℕ) × ((position : ℕ) × ((length bytes ≡ buffer_size) × Kept bytes position s))

  pub assert_same-Ends :
      (bytes : List ℕ) (from n position : ℕ) (s : Tester D)
      → take n s.buf_cmp ≡ take n (drop from bytes)
      → Kept bytes position s
      → Ends (assert_same lib machine pid from n s) (λ _ t. Kept bytes position t)
  unfolding assert_same
  assert_same-Ends bytes from n position s e a =
      assert-Ends store fd serious minor _ s (rw e (rw a.1.0 (same_bytes_refl _))) a

  check_part-Ends :
      (bytes : List ℕ) (position from n : ℕ) (s : Tester D)
      → from + n ≤ length bytes
      → n ≤ buffer_size
      → Kept bytes position s
      → Ends (check_part lib machine pid fd from n s) (λ _ t. Kept bytes (from + n) t)
  unfolding check_part
  check_part-Ends bytes position from n s h k a =
      bind-Ends _ _ (seek-Ends store fd serious minor bytes bytes position from s a) (λ rv t i.
        bind-Ends _ _ (assert-Ends store fd serious minor _ t (is_equal i.0) i.1.1) (λ _ u j.
          bind-Ends _ _ (read_cmp-Ends store fd serious minor bytes bytes from n u h k j) (λ rv v l.
            bind-Ends _ _
              (assert-Ends store fd serious minor
                {Q = λ w. (take n w.buf_cmp ≡ take n (drop from bytes)) × Kept bytes (from + n) w} _
                v (is_equal l.0) l.1)
              (λ _ w m. assert_same-Ends bytes from n (from + n) w m.0 m.1))))

  overwrite_at-Ends :
      (count position : ℕ) (s : Tester D)
      → position + block ≤ buffer_size
      → Keeps s
      → Ends
          (overwrite_at lib machine pid fd count position s)
          (λ goes_on t. (goes_on ≡ true) × Keeps t)
  unfolding overwrite_at put_block
  overwrite_at-Ends count position s h (bytes, (from, (n, (f, (o, (l, c)))))) =
      let new = replicate block (count % 256) in
      let after = splice position new bytes in
      let m = length-replicate block (count % 256) in
      let whole = length-splice position new bytes (omega arith) in
      bind-Ends _ _
        (seek-Ends store fd serious minor bytes after from position _
          (f, (rw o refl, (length-overwrite new s.buf_cmp ∙ l, c))))
        (λ rv t i. rw (is_equal i.0) (
          bind-Ends _ _
            (write_cmp-Ends store fd serious minor bytes after new position block t h (omega arith)
              (ap (take block) i.1.0 ∙ take-overwrite_whole block new s.buf_cmp m (omega arith)) m
              i.1.1)
            (λ rv u j.
              bind-Ends _ _ (assert-Ends store fd serious minor _ u (is_equal j.0) j.1) (λ _ v k.
                bind-Ends _ _
                  (check_part-Ends after (position + block) (position - 100) block v (omega arith)
                    (omega arith) k)
                  (λ _ w q. record {
                    value = true;
                    after = w;
                    result = refl;
                    holds = (refl, (after, (_, (whole ∙ n, q))));
                  })))))

  overwrite_blocks-Ends :
      (left count : ℕ) (s : Tester D)
      → Keeps s
      → Ends
          (overwrite_blocks lib machine pid fd left count s)
          (λ goes_on t. (goes_on ≡ true) × Keeps t)
  unfolding overwrite_blocks
  overwrite_blocks-Ends zero count s k = record {
    value = true;
    after = s;
    result = refl;
    holds = (refl, k);
  }
  overwrite_blocks-Ends (suc left) count s (bytes, (from, (n, a))) =
      bind-Ends _ _
        (random-Ends store fd serious minor (buffer_size - block) bytes bytes from s (omega arith)
          a)
        (λ position t i.
          bind-Ends _ _
            (overwrite_at-Ends count position t (omega (arith, i.0)) (bytes, (from, (n, i.1.1))))
            (λ goes_on u j. rw j.0 (overwrite_blocks-Ends left (count + 1) u j.1)))

  write_whole-Ends :
      (orig : List ℕ) (s : Tester D)
      → length orig ≡ buffer_size
      → At store fd serious minor [] orig 0 s
      → Ends (write_whole lib machine pid fd s) (λ _ t. Keeps t)
  unfolding write_whole
  write_whole-Ends orig s n a =
      bind-Ends _ _ (seek-Ends store fd serious minor [] orig 0 0 s a) (λ rv t j.
        bind-Ends _ _ (assert-Ends store fd serious minor _ t (is_equal j.0) j.1.1) (λ _ u k.
          bind-Ends _ _
            (write_orig-Ends store fd serious minor [] orig orig 0 0 buffer_size u (omega arith)
              (take_whole buffer_size orig n) n k)
            (λ rv v q. assert-Ends store fd serious minor _ v (is_equal q.0) (
              orig,
              (_, (n, (q.1.1.0 ∙ ap (λ b. (b, 0 + buffer_size)) (splice_fresh orig), q.1.1.1))),
            ))))

  check_file-Ends :
      (s : Tester D)
      → Keeps s
      → Ends
          (check_file lib machine pid fd s)
          (λ _ t. (t.serious_errs ≡ serious) × (t.minor_errs ≡ minor))
  unfolding check_file
  check_file-Ends s (bytes, (from, (n, a))) =
      bind-Ends _ _ (check_part-Ends bytes from 0 buffer_size s (omega arith) (omega arith) a)
        (λ _ t i. record { value = tt; after = _; result = refl; holds = i.1.1.1 })

  overwrite_file-Ends :
      (orig : List ℕ) (s : Tester D)
      → At store fd serious minor [] orig 0 s
      → Ends
          (overwrite_file lib machine pid fd s)
          (λ _ t. (t.serious_errs ≡ serious) × (t.minor_errs ≡ minor))
  unfolding overwrite_file clear_orig
  overwrite_file-Ends orig s (f, (o, i)) =
      let blank = replicate buffer_size 0 in
      bind-Ends _ _ (write_whole-Ends blank _ (length-replicate buffer_size 0) (f, (refl, i)))
        (λ _ t j.
          bind-Ends _ _ (overwrite_blocks-Ends 1000 0 t j)
            (λ goes_on u k. rw k.0 (check_file-Ends u k.1)))

module _ {D : Type 0} (lib : Library D) (machine : Machine D) (pid : ℤ)
    (contents : ℤ → D → List ℕ × ℕ) (store : IsStore lib machine pid contents) where
  -- Over a file system that keeps a file as its manual says and has room for the largest file of
  -- the tests, `overwrite_tst` comes to its end whatever numbers rand gives, with no failed
  -- assertion and with the counters of the errors as they were. The buffer buf_cmp has its size.
  pub overwrite_tst-passes :
      (s : Tester D)
      → length s.buf_cmp ≡ buffer_size
      → (t : Tester D) × ((overwrite_tst lib machine pid s ≡ ok tt t)
          × ((t.serious_errs ≡ s.serious_errs) × (t.minor_errs ≡ s.minor_errs)))
  unfolding overwrite_tst assert
  overwrite_tst-passes s l =
      let (n, (e, f)) = store.opens s.tfs in
      let after =
        overwrite_file-Ends store (pos n) s.serious_errs s.minor_errs s.buf_orig
          (record s {
            tfs =
                (lib.tfs_open pid file (tfs_o_rdwr + tfs_o_trunc + tfs_o_creat) every_access
                  s.tfs).1;
          })
          (f, (refl, (l, (refl, refl)))) in
      rw e (after.after, (after.result, after.holds))
