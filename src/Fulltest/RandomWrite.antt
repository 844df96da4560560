-- ===== src/Fulltest/RandomWrite.antt =====
-- `tst_rand_write_seq_read` of TFS/EXAMPLES/TFS/FULLTEST.C over a file system that keeps its files.
use ttm.Prelude.{
  length-replicate, ℕ, ◌+◌, ◌≤◌, ◌≡◌, inl, inr, refl, arith, List, [], ℤ, pos, length, replicate,
  ◌<◌,
}
use ttm.Prelude.Run.{ok}
use ttm.Tfs.{tfs_o_rdwr, tfs_o_trunc, tfs_o_creat}
use ttm.Tfs.Library.{Library}
use ttm.Fulltest.{Machine, Tester, buffer_size, file, every_access}
use ttm.Fulltest.Files.{scramble, reopen_and_compare, rand_write, tst_rand_write_seq_read}
use ttm.Fulltest.Lookup.{get_or-replicate, same_of_get_or}
use ttm.Fulltest.Scattered.{Marked, Good}
use ttm.Fulltest.Filling.{On, weaken-On, random_bytes-Ends, rand_blocks-Ends, fill_gaps-Ends}
use ttm.Fulltest.Overwrite.{is_equal, Kept, assert_same-Ends}
use ttm.Fulltest.Store.{Ends, bind-Ends, IsStore, At, read_cmp-Ends}

-- A file of no more than the full size in which every byte is good is buf_orig.
whole_file :
    (orig bytes : List ℕ)
    → length orig ≡ buffer_size
    → length bytes ≤ buffer_size
    → ((i : ℕ) → i < buffer_size → Good orig bytes i)
    → bytes ≡ orig
whole_file orig bytes l b g =
    let last : 102399 < length bytes = (g 102399 (omega arith)).0 in
    same_of_get_or bytes orig (omega arith) (λ i h. (g i (omega arith)).1)

module _ {D : Type 0} {lib : Library D} {machine : Machine D} {pid : ℤ}
    {contents : ℤ → D → List ℕ × ℕ} (store : IsStore lib machine pid contents)
    (serious minor : ℕ) where
  reopen_and_compare-Ends :
      (fd : ℤ) (bytes : List ℕ) (position : ℕ) (s : Tester D)
      → length bytes ≡ buffer_size
      → Kept store fd serious minor bytes position s
      → Ends
          (reopen_and_compare lib machine pid fd s)
          (λ _ t. (t.serious_errs ≡ serious) × (t.minor_errs ≡ minor))
  unfolding reopen_and_compare
  reopen_and_compare-Ends fd bytes position s n (f, i) =
      let (c, (m, (e, g))) = store.reopens s.tfs fd bytes position f in
      rw e (
        bind-Ends _ _
          (read_cmp-Ends store (pos m) serious minor bytes bytes 0 buffer_size _ (omega (arith, n))
            (omega arith) (g, i))
          (λ rv t j. rw (is_equal j.0) (
            bind-Ends _ _
              (assert_same-Ends store (pos m) serious minor bytes 0 buffer_size _ t j.1.0 j.1.1)
              (λ _ u k. record { value = tt; after = _; result = refl; holds = k.1.1.1 }))))

  scramble-Ends :
      (fd : ℤ) (orig : List ℕ) (s : Tester D)
      → At store fd serious minor [] orig 0 s
      → Ends (scramble lib machine pid s) (λ _ t.
        (length t.buf_orig ≡ buffer_size)
        × ((marks : List ℕ) × On store fd serious minor t.buf_orig (Marked marks) marks t))
  unfolding scramble
  scramble-Ends fd orig s a =
      bind-Ends _ _ (random_bytes-Ends store fd serious minor buffer_size [] orig 0 s a)
        (λ new t (l, (f, (o, (c, i)))). record {
          value = tt;
          after = _;
          result = refl;
          holds = (
            l,
            (
              replicate buffer_size 0,
              (
                [],
                (
                  0,
                  (
                    (f, (refl, (length-replicate buffer_size 0, i))),
                    (
                      refl,
                      (omega arith, λ k (h, m). absurd (m (get_or-replicate buffer_size 0 k h))),
                    ),
                  ),
                ),
              ),
            ),
          );
        })

  rand_write-Ends :
      (fd : ℤ) (orig : List ℕ) (s : Tester D)
      → At store fd serious minor [] orig 0 s
      → Ends
          (rand_write lib machine pid fd s)
          (λ _ t. (t.serious_errs ≡ serious) × (t.minor_errs ≡ minor))
  unfolding rand_write
  rand_write-Ends fd orig s a = bind-Ends _ _ (scramble-Ends fd orig s a) (λ _ t (l, (marks, o)).
      bind-Ends _ _ (rand_blocks-Ends store fd serious minor t.buf_orig 1000 marks t l o)
        (λ _ u (marks', o').
          bind-Ends _ _
            (fill_gaps-Ends store fd serious minor t.buf_orig marks' buffer_size 0 u l (omega arith)
              (weaken-On store fd serious minor t.buf_orig marks' _ _ u
                (λ j q. elim q [ inl k ↦ k | inr k ↦ absurd (omega arith) ]) o'))
            (λ _ v (bytes, (position, (b, (m, (h, g))))).
              let same = whole_file t.buf_orig bytes l h (λ i k. g i (inr k)) in
              reopen_and_compare-Ends fd t.buf_orig position v l (rw same at b))))

module _ {D : Type 0} (lib : Library D) (machine : Machine D) (pid : ℤ)
    (contents : ℤ → D → List ℕ × ℕ) (store : IsStore lib machine pid contents) where
  -- Over a file system that keeps a file as its manual says and has room for the largest file of
  -- the tests, `tst_rand_write_seq_read` comes to its end whatever numbers rand gives, with no failed
  -- assertion and with the counters of the errors as they were: the file that it reads back is what
  -- it meant to write. The buffer buf_cmp has its size.
  pub tst_rand_write_seq_read-passes :
      (s : Tester D)
      → length s.buf_cmp ≡ buffer_size
      → (t : Tester D) × ((tst_rand_write_seq_read lib machine pid s ≡ ok tt t)
          × ((t.serious_errs ≡ s.serious_errs) × (t.minor_errs ≡ s.minor_errs)))
  unfolding tst_rand_write_seq_read
  tst_rand_write_seq_read-passes s l =
      let (n, (e, f)) = store.opens s.tfs in
      let done =
        rand_write-Ends store s.serious_errs s.minor_errs (pos n) s.buf_orig
          (record s {
            tfs =
                (lib.tfs_open pid file (tfs_o_rdwr + tfs_o_trunc + tfs_o_creat) every_access
                  s.tfs).1;
          })
          (f, (refl, (l, (refl, refl)))) in
      rw e (done.after, (done.result, done.holds))
