-- ===== src/Fulltest/Filling.antt =====
-- The steps of `tst_rand_write_seq_read` of TFS/EXAMPLES/TFS/FULLTEST.C over a file system that keeps
-- its files.
use ttm.Prelude.{
  length-replicate, ℕ, zero, suc, ◌+◌, ◌-◌, ◌%◌, ◌∷◌, ◌≤◌, ◌<◌, ◌≡◌, ◌⊎◌, inl, inr, refl, sym, ap,
  ◌∙◌, arith, List, [], ℤ, length, take, drop, replicate, le_or_lt, lt→ltb, le→ltb,
}
use ttm.Tfs.Library.{Library}
use ttm.Fulltest.{Machine, Tester, buffer_size, block, splice}
use ttm.Fulltest.Files.{put_part, unmarked, random_bytes, mark, rand_blocks, fill_gap, fill_gaps}
use ttm.Fulltest.Buffers.{padded, length-part, length-splice, length_drop_eq}
use ttm.Fulltest.Scattered.{
  Marked, Good, Within, unmarked-le, unmarked-Marked, put-Good, length-put, splice-Marked,
}
use ttm.Fulltest.Store.{
  Ends, bind-Ends, map-Ends, IsStore, At, random-Ends, seek-Ends, write_orig-Ends,
}

module _ {D : Type 0} {lib : Library D} {machine : Machine D} {pid : ℤ}
    {contents : ℤ → D → List ℕ × ℕ} (store : IsStore lib machine pid contents) (fd : ℤ)
    (serious minor : ℕ) where
  -- The bytes of the file that are known to be good, with what the buffers hold.
  abbrev pub On : List ℕ → (ℕ → Type 0) → List ℕ → Tester D → Type 0
  On orig P marks s =
      (bytes : List ℕ) × ((position : ℕ) × ((At store fd serious minor bytes orig position s)
          × ((s.buf_cmp ≡ marks)
              × ((length bytes ≤ buffer_size) × ((i : ℕ) → P i → Good orig bytes i)))))

  pub random_bytes-Ends :
      (n : ℕ) (bytes orig : List ℕ) (position : ℕ) (s : Tester D)
      → At store fd serious minor bytes orig position s
      → Ends
          (random_bytes lib machine pid n s)
          (λ new t. (length new ≡ n) × At store fd serious minor bytes orig position t)
  unfolding random_bytes
  random_bytes-Ends zero bytes orig position s a = record {
    value = [];
    after = s;
    result = refl;
    holds = (refl, a);
  }
  random_bytes-Ends (suc n) bytes orig position s (f, i) =
      bind-Ends _ _ (random_bytes-Ends n bytes orig position _ (store.rolls s.tfs fd ∙ f, i))
        (λ rest t j. record {
          value = (machine.rand s.tfs).0 % 256 ∷ rest;
          after = t;
          result = refl;
          holds = (ap suc j.0, j.1);
        })

  -- The seek and the writing of a part of buf_orig, and what comes behind.
  put-On :
      (orig marks : List ℕ) (P : ℕ → Type 0) (from n : ℕ) (s : Tester D)
      → length orig ≡ buffer_size
      → from + n ≤ buffer_size
      → On orig P marks s
      → Ends
          (put_part lib machine pid fd from n s)
          (λ _ t. On orig (λ i. P i ⊎ Within from n i) marks t)
  unfolding put_part
  put-On orig marks P from n s l h (bytes, (position, (a, (m, (b, g))))) =
      bind-Ends _ _ (seek-Ends store fd serious minor bytes orig position from s a) (λ rv t i.
        bind-Ends _ _
          (write_orig-Ends store fd serious minor bytes orig (take n (drop from orig)) from from n t
            h refl (length-part n from orig (omega arith)) i.1.1)
          (λ rv u j. record {
            value = tt;
            after = u;
            result = refl;
            holds = (
              splice from (take n (drop from orig)) (padded from bytes),
              (
                _,
                (
                  j.1.1,
                  (
                    j.1.0 ∙ (i.1.0 ∙ m),
                    (
                      length-put orig bytes from n buffer_size (omega arith) h b,
                      λ k q.
                          put-Good orig bytes from n k (omega arith)
                            (elim q [ inl p ↦ inl (g k p) | inr w ↦ inr w ]),
                    ),
                  ),
                ),
              ),
            );
          }))

  -- Fewer bytes are claimed.
  pub weaken-On :
      (orig marks : List ℕ) (P Q : ℕ → Type 0) (s : Tester D)
      → ((i : ℕ) → Q i → P i)
      → On orig P marks s
      → On orig Q marks s
  weaken-On orig marks P Q s h (bytes, (position, (a, (m, (b, g))))) =
      (bytes, (position, (a, (m, (b, λ i q. g i (h i q))))))

  mark-Ends :
      (orig marks : List ℕ) (from n : ℕ) (s : Tester D)
      → from + n ≤ buffer_size
      → On orig (λ i. Marked marks i ⊎ Within from n i) marks s
      → Ends
          (mark lib machine pid from n s)
          (λ _ t. (marks' : List ℕ) × On orig (Marked marks') marks' t)
  unfolding mark
  mark-Ends orig marks from n s h (bytes, (position, (a, (m, (b, g))))) =
      let ones : List ℕ = replicate n 1 in
      let r = length-replicate n 1 in
      let l : length marks ≡ buffer_size = ap length (sym m) ∙ a.1.1.0 in
      let whole = length-splice from ones s.buf_cmp (omega (arith, a.1.1.0, r)) in
      record {
        value = tt;
        after = _;
        result = refl;
        holds = (
          splice from ones marks,
          (
            bytes,
            (
              position,
              (
                (a.0, (a.1.0, (whole ∙ a.1.1.0, a.1.1.1))),
                (
                  ap (splice from ones) m,
                  (b, λ k q. g k (splice-Marked marks from n k (omega arith) q)),
                ),
              ),
            ),
          ),
        );
      }

  pub rand_blocks-Ends :
      (orig : List ℕ) (left : ℕ) (marks : List ℕ) (s : Tester D)
      → length orig ≡ buffer_size
      → On orig (Marked marks) marks s
      → Ends
          (rand_blocks lib machine pid fd left s)
          (λ _ t. (marks' : List ℕ) × On orig (Marked marks') marks' t)
  unfolding rand_blocks
  rand_blocks-Ends orig zero marks s l o = record {
    value = tt;
    after = s;
    result = refl;
    holds = (marks, o);
  }
  rand_blocks-Ends orig (suc left) marks s l (bytes, (position, (a, (m, (b, g))))) =
      bind-Ends _ _
        (random-Ends store fd serious minor (buffer_size - block) bytes orig position s
          (omega arith) a)
        (λ from t i.
          bind-Ends _ _
            (put-On orig marks (Marked marks) from block t l (omega (arith, i.0))
              (bytes, (position, (i.1.1, (i.1.0 ∙ m, (b, g))))))
            (λ _ u j.
              bind-Ends _ _ (mark-Ends orig marks from block u (omega (arith, i.0)) j)
                (λ _ v (marks', o). rand_blocks-Ends orig left marks' v l o)))

  fill_gap-Ends :
      (orig marks : List ℕ) (i : ℕ) (s : Tester D)
      → length orig ≡ buffer_size
      → i < buffer_size
      → On orig (λ j. Marked marks j ⊎ (j < i)) marks s
      → Ends
          (fill_gap lib machine pid fd i s)
          (λ _ t. On orig (λ j. Marked marks j ⊎ (j < suc i)) marks t)
  unfolding fill_gap
  fill_gap-Ends orig marks i s l h o =
      let size : length s.buf_cmp ≡ buffer_size = o.1.1.0.1.1.0 in
      let rest = drop i s.buf_cmp in
      let count = unmarked rest in
      let fits : i + count ≤ buffer_size =
        omega (arith, length_drop_eq i s.buf_cmp, unmarked-le rest, size) in
      elim (le_or_lt count 0) [
        | inl none_left ↦ rw (le→ltb 0 count none_left) (record {
          value = tt;
          after = s;
          result = refl;
          holds =
              weaken-On orig marks _ _ s
                (λ j q. elim q [
                  | inl k ↦ inl k
                  | inr k ↦ elim (le_or_lt i j) [
                    | inr less ↦ inr less
                    | inl more ↦
                        inl
                          (rw o.1.1.1.0 at (unmarked-Marked s.buf_cmp i j size h more k none_left))
                  ]
                ])
                o;
        })
        | inr some_left ↦ rw (lt→ltb 0 count some_left) (
            map-Ends (put-On orig marks _ i count s l fits o) (λ _ t.
              weaken-On orig marks _ _ t (λ j q. elim q [
                | inl k ↦ inl (inl k)
                | inr k ↦ elim (le_or_lt i j) [
                  | inr less ↦ inl (inr less)
                  | inl more ↦ inr (more, omega arith)
                ]
              ])))
      ]

  pub fill_gaps-Ends :
      (orig marks : List ℕ) (left i : ℕ) (s : Tester D)
      → length orig ≡ buffer_size
      → left + i ≡ buffer_size
      → On orig (λ j. Marked marks j ⊎ (j < i)) marks s
      → Ends
          (fill_gaps lib machine pid fd left i s)
          (λ _ t. On orig (λ j. Marked marks j ⊎ (j < buffer_size)) marks t)
  unfolding fill_gaps
  fill_gaps-Ends orig marks zero i s l e o = record {
    value = tt;
    after = s;
    result = refl;
    holds =
        weaken-On orig marks _ _ s (λ j q. elim q [ inl k ↦ inl k | inr k ↦ inr (omega arith) ]) o;
  }
  fill_gaps-Ends orig marks (suc left) i s l e o =
      bind-Ends _ _ (fill_gap-Ends orig marks i s l (omega arith) o) (λ _ t k.
        fill_gaps-Ends orig marks left (i + 1) t l (omega arith) (
          weaken-On orig marks _ _ t (λ j q. elim q [ inl k ↦ inl k | inr k ↦ inr (omega arith) ])
            k))
