-- ===== src/Fulltest/Store.antt =====
-- A file system that keeps a file as TFS/MAN/MAN3 says, for the tests of
-- TFS/EXAMPLES/TFS/FULLTEST.C, and what their single steps do over it.
use ttm.Prelude.{
  ℕ, ◌+◌, ◌≤◌, ◌<◌, ◌≡◌, refl, ap, ap₂, ◌∙◌, arith, Bool, true, List, [], ℤ, pos, length, take,
  drop, length-overwrite,
}
use native.Mathlib.Nat.{mod-lt}
use ttm.Prelude.Run.{Run, ok, Cmd, and_then}
use ttm.Tfs.{tfs_o_rdonly, tfs_o_rdwr, tfs_o_trunc, tfs_o_creat, tfs_seek_set}
use ttm.Tfs.Library.{Library}
use ttm.Fulltest.{
  Machine, Tester, buffer_size, file, every_access, splice, in_tfs, random, assert, seek, read_cmp,
  write_cmp, write_orig,
}
use ttm.Fulltest.Buffers.{padded, padded_none, length-part, take-overwrite_whole}

-- The run does not end by an exit, and what it leaves has the property.
pub record Ends {S A : Type 0} (r : Run S A) (Q : A → S → Type 0) : Type 0 where
  pub value : A
  pub after : S
  pub result : r ≡ ok value after
  pub holds : Q value after

pub bind-Ends :
    {S A B : Type 0} {Q : A → S → Type 0} {R : B → S → Type 0} (r : Run S A) (f : A → Cmd S B)
    → Ends r Q
    → ((a : A) (s : S) → Q a s → Ends (f a s) R)
    → Ends (and_then r f) R
bind-Ends r f y h =
    let z = h y.value y.after y.holds in
    record {
      value = z.value;
      after = z.after;
      result = ap (λ t. and_then t f) y.result ∙ z.result;
      holds = z.holds;
    }

pub map-Ends :
    {S A : Type 0} {Q R : A → S → Type 0} {r : Run S A}
    → Ends r Q
    → ((a : A) (s : S) → Q a s → R a s)
    → Ends r R
map-Ends y h = record {
  value = y.value;
  after = y.after;
  result = y.result;
  holds = h y.value y.after y.holds;
}

-- A file system that keeps the file of the tests: what it holds, seen through a descriptor of it,
-- and where the descriptor's pointer is. Writing behind the end fills up with 0. There is room for the largest file of the tests.
pub record IsStore {D : Type 0} (lib : Library D) (machine : Machine D) (pid : ℤ)
    (contents : ℤ → D → List ℕ × ℕ) : Type 0 where
  pub opens :
      (d : D)
      → let r = lib.tfs_open pid file (tfs_o_rdwr + tfs_o_trunc + tfs_o_creat) every_access d in
        (n : ℕ) × ((r.0 ≡ pos n) × (contents (pos n) r.1 ≡ ([], 0)))
  pub reopens :
      (d : D) (fd : ℤ) (bytes : List ℕ) (from : ℕ)
      → contents fd d ≡ (bytes, from)
      → let c = lib.tfs_close pid fd d in
        let r = lib.tfs_open pid file tfs_o_rdonly 0 c.1 in
        (c.0 ≡ pos 0) × ((n : ℕ) × ((r.0 ≡ pos n) × (contents (pos n) r.1 ≡ (bytes, 0))))
  pub seeks :
      (d : D) (fd : ℤ) (bytes : List ℕ) (from to : ℕ)
      → contents fd d ≡ (bytes, from)
      → let r = lib.tfs_lseek pid fd to tfs_seek_set d in
        (r.0 ≡ pos to) × (contents fd r.1 ≡ (bytes, to))
  pub writes :
      (d : D) (fd : ℤ) (bytes new : List ℕ) (from : ℕ)
      → contents fd d ≡ (bytes, from)
      → from + length new ≤ buffer_size
      → let r = lib.tfs_write pid fd new d in
        (r.0 ≡ pos (length new))
        × (contents fd r.1 ≡ (splice from new (padded from bytes), from + length new))
  pub reads :
      (d : D) (fd : ℤ) (bytes : List ℕ) (from n : ℕ)
      → contents fd d ≡ (bytes, from)
      → from + n ≤ length bytes
      → let r = lib.tfs_read pid fd n d in
        (r.0.0 ≡ pos n)
        × ((r.0.1 ≡ take n (drop from bytes)) × (contents fd r.1 ≡ (bytes, from + n)))
  pub rolls : (d : D) (fd : ℤ) → contents fd (machine.rand d).1 ≡ contents fd d

module _ {D : Type 0} {lib : Library D} {machine : Machine D} {pid : ℤ}
    {contents : ℤ → D → List ℕ × ℕ} (store : IsStore lib machine pid contents) (fd : ℤ)
    (serious minor : ℕ) where
  -- The file and its pointer, buf_orig, the size of buf_cmp and the counters of the errors.
  abbrev pub At : List ℕ → List ℕ → ℕ → Tester D → Type 0
  At bytes orig position s =
      (contents fd s.tfs ≡ (bytes, position))
      × ((s.buf_orig ≡ orig)
          × ((length s.buf_cmp ≡ buffer_size)
              × ((s.serious_errs ≡ serious) × (s.minor_errs ≡ minor))))

  pub random-Ends :
      (limit : ℕ) (bytes orig : List ℕ) (position : ℕ) (s : Tester D)
      → 0 < limit
      → At bytes orig position s
      → Ends
          (random lib machine pid limit s)
          (λ r t. (r < limit) × ((t.buf_cmp ≡ s.buf_cmp) × At bytes orig position t))
  unfolding random
  random-Ends limit bytes orig position s z (f, i) = record {
    value = _;
    after = _;
    result = refl;
    holds = (mod-lt _ z, (refl, (store.rolls s.tfs fd ∙ f, i)));
  }

  pub assert-Ends :
      {Q : Tester D → Type 0} (b : Bool) (s : Tester D)
      → b ≡ true
      → Q s
      → Ends (assert lib machine pid b s) (λ _ t. Q t)
  unfolding assert
  assert-Ends b s e q = rw e (record { value = tt; after = s; result = refl; holds = q })

  pub seek-Ends :
      (bytes orig : List ℕ) (from to : ℕ) (s : Tester D)
      → At bytes orig from s
      → Ends
          (seek lib machine pid fd to s)
          (λ rv t. (rv ≡ pos to) × ((t.buf_cmp ≡ s.buf_cmp) × At bytes orig to t))
  unfolding seek
  seek-Ends bytes orig from to s (f, i) =
      let (e, g) = store.seeks s.tfs fd bytes from to f in
      record { value = _; after = _; result = refl; holds = (e, (refl, (g, i))) }

  pub read_cmp-Ends :
      (bytes orig : List ℕ) (position n : ℕ) (s : Tester D)
      → position + n ≤ length bytes
      → n ≤ buffer_size
      → At bytes orig position s
      → Ends (read_cmp lib machine pid fd n s) (λ rv t.
        (rv ≡ pos n)
        × ((take n t.buf_cmp ≡ take n (drop position bytes)) × At bytes orig (position + n) t))
  unfolding read_cmp
  read_cmp-Ends bytes orig position n s h k (f, (o, (l, i))) =
      let (e, (b, g)) = store.reads s.tfs fd bytes position n f h in
      record {
        value = _;
        after = _;
        result = refl;
        holds = (
          e,
          (
            rw b
                (take-overwrite_whole n _ s.buf_cmp (length-part n position bytes h) (omega arith)),
            (g, (o, (length-overwrite _ s.buf_cmp ∙ l, i))),
          ),
        );
      }

  pub write_cmp-Ends :
      (bytes orig new : List ℕ) (position n : ℕ) (s : Tester D)
      → position + n ≤ buffer_size
      → position ≤ length bytes
      → take n s.buf_cmp ≡ new
      → length new ≡ n
      → At bytes orig position s
      → Ends
          (write_cmp lib machine pid fd n s)
          (λ rv t. (rv ≡ pos n) × At (splice position new bytes) orig (position + n) t)
  unfolding write_cmp
  write_cmp-Ends bytes orig new position n s h k e l (f, i) =
      let (r, g) = store.writes s.tfs fd bytes new position f (omega arith) in
      record {
        value = _;
        after = _;
        result = ap (λ b. in_tfs (lib.tfs_write pid fd b) s) e;
        holds = (
          r ∙ ap pos l,
          (
            g ∙ ap₂ (λ b m. (splice position new b, position + m)) (padded_none position bytes k) l,
            i,
          ),
        );
      }

  pub write_orig-Ends :
      (bytes orig new : List ℕ) (position from n : ℕ) (s : Tester D)
      → position + n ≤ buffer_size
      → take n (drop from orig) ≡ new
      → length new ≡ n
      → At bytes orig position s
      → Ends (write_orig lib machine pid fd from n s) (λ rv t.
        (rv ≡ pos n)
        × ((t.buf_cmp ≡ s.buf_cmp)
            × At (splice position new (padded position bytes)) orig (position + n) t))
  unfolding write_orig
  write_orig-Ends bytes orig new position from n s h e l (f, (o, i)) =
      let (r, g) = store.writes s.tfs fd bytes new position f (omega arith) in
      record {
        value = _;
        after = _;
        result =
            ap (λ b. in_tfs (lib.tfs_write pid fd (take n (drop from b))) s) o
            ∙ ap (λ b. in_tfs (lib.tfs_write pid fd b) s) e;
        holds = (
          r ∙ ap pos l,
          (
            refl,
            (g ∙ ap (λ m. (splice position new (padded position bytes), position + m)) l, (o, i)),
          ),
        );
      }
