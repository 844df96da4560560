-- ===== src/Fulltest/Sequential.antt =====
-- `tst_seq_write_rand_read` of TFS/EXAMPLES/TFS/FULLTEST.C over a file system that keeps its files.
use ttm.Prelude.{
  ℕ, zero, suc, ◌+◌, ◌-◌, ◌*◌, ◌≡◌, refl, ap, ap₂, ◌∙◌, arith, true, List, [], ◌∷◌, ℤ, pos, length,
  take, drop, eq→==,
}
use ttm.Prelude.Run.{ok}
use ttm.Tfs.Library.{Library}
use ttm.Tfs.{tfs_o_rdwr, tfs_o_trunc, tfs_o_creat}
use ttm.Fulltest.{Machine, Tester, buffer_size, block, file, every_access}
use ttm.Fulltest.Files.{
  words_from, note_differences, note_same, read_noting, read_asserting, reopen_and_read,
  number_orig, seq_write, tst_seq_write_rand_read,
}
use ttm.Fulltest.Buffers.{take_whole, splice_fresh}
use ttm.Fulltest.Store.{
  Ends, bind-Ends, IsStore, At, random-Ends, assert-Ends, seek-Ends, read_cmp-Ends, write_orig-Ends,
}
use ttm.Fulltest.Overwrite.{is_equal, Kept, Keeps, assert_same-Ends}

length-words_from : (n i : ℕ) → length (words_from n i) ≡ n * 4
unfolding words_from
length-words_from zero i = refl
length-words_from (suc n) i = omega (arith, length-words_from n (i + 1))

note_differences_same :
    {D : Type 0} (xs : List ℕ) (s : Tester D) → note_differences xs xs s ≡ ok tt s
unfolding note_differences
note_differences_same [] s = refl
note_differences_same (x ∷ xs) s = rw (eq→== x x refl) (note_differences_same xs s)

module _ {D : Type 0} {lib : Library D} {machine : Machine D} {pid : ℤ}
    {contents : ℤ → D → List ℕ × ℕ} (store : IsStore lib machine pid contents) (fd : ℤ)
    (serious minor : ℕ) where
  note_same-Ends :
      (bytes : List ℕ) (from n position : ℕ) (s : Tester D)
      → take n s.buf_cmp ≡ take n (drop from bytes)
      → Kept store fd serious minor bytes position s
      → Ends
          (note_same lib machine pid from n s)
          (λ _ t. Kept store fd serious minor bytes position t)
  unfolding note_same
  note_same-Ends bytes from n position s e a = record {
    value = tt;
    after = s;
    result =
        ap₂ (λ x y. note_differences x y s) e (ap (λ o. take n (drop from o)) a.1.0)
        ∙ note_differences_same _ s;
    holds = a;
  }

  read_noting-Ends :
      (left : ℕ) (s : Tester D)
      → Keeps store fd serious minor s
      → Ends
          (read_noting lib machine pid fd left s)
          (λ goes_on t. (goes_on ≡ true) × Keeps store fd serious minor t)
  unfolding read_noting
  read_noting-Ends zero s k = record { value = true; after = s; result = refl; holds = (refl, k) }
  read_noting-Ends (suc left) s (bytes, (from, (n, a))) =
      bind-Ends _ _
        (random-Ends store fd serious minor (buffer_size - block) bytes bytes from s (omega arith)
          a)
        (λ position t i.
          bind-Ends _ _ (seek-Ends store fd serious minor bytes bytes from position t i.1.1)
            (λ rv u j. rw (is_equal j.0) (
              bind-Ends _ _
                (read_cmp-Ends store fd serious minor bytes bytes position block u
                  (omega (arith, i.0)) (omega arith) j.1.1)
                (λ rv v k. rw (is_equal k.0) (
                  bind-Ends _ _
                    (note_same-Ends bytes position block (position + block) v k.1.0 k.1.1)
                    (λ _ w m. read_noting-Ends left w (bytes, (_, (n, m)))))))))

  read_asserting-Ends :
      (left : ℕ) (s : Tester D)
      → Keeps store fd serious minor s
      → Ends (read_asserting lib machine pid fd left s) (λ _ t. Keeps store fd serious minor t)
  unfolding read_asserting
  read_asserting-Ends zero s k = record { value = tt; after = s; result = refl; holds = k }
  read_asserting-Ends (suc left) s (bytes, (from, (n, a))) =
      bind-Ends _ _
        (random-Ends store fd serious minor (buffer_size - block) bytes bytes from s (omega arith)
          a)
        (λ position t i.
          bind-Ends _ _ (seek-Ends store fd serious minor bytes bytes from position t i.1.1)
            (λ rv u j.
              bind-Ends _ _ (assert-Ends store fd serious minor _ u (is_equal j.0) j.1.1) (λ _ v k.
                bind-Ends _ _
                  (read_cmp-Ends store fd serious minor bytes bytes position block v
                    (omega (arith, i.0)) (omega arith) k)
                  (λ rv w l.
                    bind-Ends _ _
                      (assert-Ends store fd serious minor
                        {Q = λ x.
                          (take block x.buf_cmp ≡ take block (drop position bytes))
                          × Kept store fd serious minor bytes (position + block) x}
                        _ w (is_equal l.0) l.1)
                      (λ _ x m.
                        bind-Ends _ _
                          (assert_same-Ends store fd serious minor bytes position block
                            (position + block) x m.0 m.1)
                          (λ _ y q. read_asserting-Ends left y (bytes, (_, (n, q)))))))))

module _ {D : Type 0} {lib : Library D} {machine : Machine D} {pid : ℤ}
    {contents : ℤ → D → List ℕ × ℕ} (store : IsStore lib machine pid contents)
    (serious minor : ℕ) where
  reopen_and_read-Ends :
      (fd : ℤ) (s : Tester D)
      → Keeps store fd serious minor s
      → Ends
          (reopen_and_read lib machine pid fd s)
          (λ _ t. (t.serious_errs ≡ serious) × (t.minor_errs ≡ minor))
  unfolding reopen_and_read
  reopen_and_read-Ends fd s (bytes, (from, (n, (f, i)))) =
      let (c, (m, (e, g))) = store.reopens s.tfs fd bytes from f in
      rw (is_equal c) (
        rw e (
          bind-Ends _ _
            (read_asserting-Ends store (pos m) serious minor 1000 _ (bytes, (0, (n, (g, i)))))
            (λ _ t (bytes', (from', (n', (f', i')))).
              assert-Ends store (pos m) serious minor _ _
                (is_equal (store.reopens t.tfs (pos m) bytes' from' f').0) i'.1.1)))

  seq_write-Ends :
      (fd : ℤ) (orig : List ℕ) (s : Tester D)
      → At store fd serious minor [] orig 0 s
      → Ends
          (seq_write lib machine pid fd s)
          (λ _ t. (t.serious_errs ≡ serious) × (t.minor_errs ≡ minor))
  unfolding seq_write number_orig
  seq_write-Ends fd orig s (f, (o, i)) =
      let bytes = words_from 25600 0 in
      let n = length-words_from 25600 0 in
      bind-Ends _ _ (seek-Ends store fd serious minor [] bytes 0 0 _ (f, (refl, i))) (λ rv t j.
        rw (is_equal j.0) (
          bind-Ends _ _
            (write_orig-Ends store fd serious minor [] bytes bytes 0 0 buffer_size t (omega arith)
              (take_whole buffer_size bytes n) n j.1.1)
            (λ rv u k. rw (is_equal k.0) (
              bind-Ends _ _
                (read_noting-Ends store fd serious minor 100 u (
                  bytes,
                  (
                    _,
                    (n, (k.1.1.0 ∙ ap (λ b. (b, 0 + buffer_size)) (splice_fresh bytes), k.1.1.1)),
                  ),
                ))
                (λ goes_on v l. rw l.0 (reopen_and_read-Ends fd v l.1))))))

module _ {D : Type 0} (lib : Library D) (machine : Machine D) (pid : ℤ)
    (contents : ℤ → D → List ℕ × ℕ) (store : IsStore lib machine pid contents) where
  -- Over a file system that keeps a file as its manual says and has room for the largest file of
  -- the tests, `tst_seq_write_rand_read` comes to its end whatever numbers rand gives, with no failed
  -- assertion and with the counters of the errors as they were. The buffer buf_cmp has its size.
  pub tst_seq_write_rand_read-passes :
      (s : Tester D)
      → length s.buf_cmp ≡ buffer_size
      → (t : Tester D) × ((tst_seq_write_rand_read lib machine pid s ≡ ok tt t)
          × ((t.serious_errs ≡ s.serious_errs) × (t.minor_errs ≡ s.minor_errs)))
  unfolding tst_seq_write_rand_read
  tst_seq_write_rand_read-passes s l =
      let (n, (e, f)) = store.opens s.tfs in
      let done =
        seq_write-Ends store s.serious_errs s.minor_errs (pos n) s.buf_orig
          (record s {
            tfs =
                (lib.tfs_open pid file (tfs_o_rdwr + tfs_o_trunc + tfs_o_creat) every_access
                  s.tfs).1;
          })
          (f, (refl, (l, (refl, refl)))) in
      rw e (done.after, (done.result, done.holds))
