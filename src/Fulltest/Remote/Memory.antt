-- ===== src/Fulltest/Remote/Memory.antt =====
-- What the comparison in `test_fstat` of TFS/EXAMPLES/RTFS/FULLTEST.C sees.
use ttm.Prelude.{
  ℕ, ◌+◌, ◌*◌, ◌%◌, ◌<◌, ◌≡◌, refl, sym, ap, ap₂, ◌∙◌, arith, true, false, Bool-cases, inl, inr,
  List, [], ◌∷◌, ℤ, pos, negsuc, ◌==◌, ◌==ℤ◌, ==→eq, codes, drop, get_or, length, word_mod,
}
use ttm.Prelude.Run.{ok}
use ttm.Disktest.{word_at}
use ttm.Disktest.Pattern.{word_at-word_bytes}
use ttm.Tfs.{Stat, tfs_o_rdwr, tfs_o_trunc, tfs_o_creat}
use ttm.Tfs.Library.{Library}
use ttm.Fulltest.{Machine, Tester, every_access, serious_error, same_bytes}
use ttm.Fulltest.Buffers.{same_bytes_refl}
use ttm.Fulltest.Remote.{Gaps, half_bytes, stat_bytes, compare_memory, remote_test_fstat}

-- The fields are of u_short and of unsigned, and the gaps of two bytes each.
pub record IsStat (st : Stat) (gaps : Gaps) : Type 0 where
  pub mode : st.st_mode < 65536
  pub nlink : st.st_nlink < 65536
  pub uid : st.st_uid < 65536
  pub gid : st.st_gid < 65536
  pub gap : gaps.behind_mode < 65536
  pub last_gap : gaps.before_size < 65536
  pub ino : st.st_ino < word_mod
  pub dev : st.st_dev < word_mod
  pub size : st.st_size < word_mod
  pub mtime : st.st_mtime < word_mod

abbrev half_at : List ℕ → ℕ
half_at m = get_or m 0 0 + get_or m 1 0 * 256

same_bytes-eq : (xs ys : List ℕ) → length xs ≡ length ys → same_bytes xs ys ≡ true → xs ≡ ys
unfolding same_bytes
same_bytes-eq [] [] l e = refl
same_bytes-eq [] (y ∷ ys) l e = absurd (omega (arith, l))
same_bytes-eq (x ∷ xs) [] l e = absurd (omega (arith, l))
same_bytes-eq (x ∷ xs) (y ∷ ys) l e = elim (Bool-cases (x == y)) [
  | inl q ↦ ap₂ ◌∷◌ (==→eq x y q) (same_bytes-eq xs ys (omega (arith, l)) (rw q at e))
  | inr q ↦ absurd (cc (rw q at e))
]

-- The fields at their offsets.
abbrev read_stat : List ℕ → Stat × Gaps
read_stat m = (
  record {
    st_mode = half_at m;
    st_ino = word_at (drop 4 m);
    st_dev = word_at (drop 8 m);
    st_nlink = half_at (drop 12 m);
    st_uid = half_at (drop 14 m);
    st_gid = half_at (drop 16 m);
    st_size = word_at (drop 20 m);
    st_mtime = word_at (drop 24 m);
  },
  record { behind_mode = half_at (drop 2 m); before_size = half_at (drop 18 m) },
)

read_stat-stat_bytes : (a : Stat) (g : Gaps) → IsStat a g → read_stat (stat_bytes a g) ≡ (a, g)
unfolding stat_bytes half_bytes
read_stat-stat_bytes a g h =
    let mode : half_at (stat_bytes a g) ≡ a.st_mode = omega (arith, h.mode) in
    let gap : half_at (drop 2 (stat_bytes a g)) ≡ g.behind_mode = omega (arith, h.gap) in
    let ino : word_at (drop 4 (stat_bytes a g)) ≡ a.st_ino = word_at-word_bytes a.st_ino [] h.ino in
    let dev : word_at (drop 8 (stat_bytes a g)) ≡ a.st_dev = word_at-word_bytes a.st_dev [] h.dev in
    let nlink : half_at (drop 12 (stat_bytes a g)) ≡ a.st_nlink = omega (arith, h.nlink) in
    let uid : half_at (drop 14 (stat_bytes a g)) ≡ a.st_uid = omega (arith, h.uid) in
    let gid : half_at (drop 16 (stat_bytes a g)) ≡ a.st_gid = omega (arith, h.gid) in
    let last : half_at (drop 18 (stat_bytes a g)) ≡ g.before_size = omega (arith, h.last_gap) in
    let size : word_at (drop 20 (stat_bytes a g)) ≡ a.st_size =
      word_at-word_bytes a.st_size [] h.size in
    let mtime : word_at (drop 24 (stat_bytes a g)) ≡ a.st_mtime =
      word_at-word_bytes a.st_mtime [] h.mtime in
    λ i. (
      record {
        st_mode = mode i;
        st_ino = ino i;
        st_dev = dev i;
        st_nlink = nlink i;
        st_uid = uid i;
        st_gid = gid i;
        st_size = size i;
        st_mtime = mtime i;
      },
      record { behind_mode = gap i; before_size = last i },
    )

length-stat_bytes : (a b : Stat) (g h : Gaps) → length (stat_bytes a g) ≡ length (stat_bytes b h)
unfolding stat_bytes half_bytes
length-stat_bytes a b g h = refl

-- The bytes are the same when the fields and the gaps are, and only then.
stat_bytes-same :
    (a b : Stat) (g h : Gaps)
    → IsStat a g
    → IsStat b h
    → same_bytes (stat_bytes a g) (stat_bytes b h) ≡ true
    → (a ≡ b) × (g ≡ h)
stat_bytes-same a b g h i j e =
    let same = same_bytes-eq (stat_bytes a g) (stat_bytes b h) (length-stat_bytes a b g h) e in
    let read =
      sym (read_stat-stat_bytes a g i) ∙ (ap read_stat same ∙ read_stat-stat_bytes b h j) in
    (ap (λ x. x.0) read, ap (λ x. x.1) read)

different :
    (a b : Stat) (g h : Gaps)
    → same_bytes (stat_bytes a g) (stat_bytes b h) ≡ false
    → (a ≡ b) × (g ≡ h)
    → ⊥
different a b g h e (p, q) = cc (same_bytes_refl (stat_bytes a g), ap₂ stat_bytes p q)

module _ {D : Type 0} (lib : Library D) (machine : Machine D) (pid : ℤ) (s : Tester D) where
  abbrev opened : ℤ × D
  opened =
      lib.tfs_open pid (codes "fstat.test") (tfs_o_rdwr + tfs_o_trunc + tfs_o_creat) every_access
        s.tfs

  abbrev by_name : (ℤ × Stat) × D
  by_name = lib.tfs_stat pid (codes "fstat.test") opened.1

  abbrev by_file : (ℤ × Stat) × D
  by_file = lib.tfs_fstat pid opened.0 by_name.1

  abbrev Same : Gaps → Gaps → Type 0
  Same gaps fgaps = (by_name.0.1 ≡ by_file.0.1) × (gaps ≡ fgaps)

  -- If the file is opened and both tfs_stat and tfs_fstat return 0 and fill in their structures,
  -- the remote `test_fstat` ends; it counts no error if the structures have the same fields and the
  -- same bytes in their gaps, and one serious error if a field or a gap is different.
  pub remote_test_fstat_counts :
      (gaps fgaps : Gaps)
      → (opened.0 ==ℤ negsuc 0) ≡ false
      → by_name.0.0 ≡ pos 0
      → by_file.0.0 ≡ pos 0
      → IsStat by_name.0.1 gaps
      → IsStat by_file.0.1 fgaps
      → (t : Tester D) × ((remote_test_fstat lib machine pid gaps fgaps s ≡ ok tt t)
          × ((t.minor_errs ≡ s.minor_errs)
              × ((Same gaps fgaps → t.serious_errs ≡ s.serious_errs)
                  × ((Same gaps fgaps → ⊥) → t.serious_errs ≡ (s.serious_errs + 1) % word_mod))))
  unfolding remote_test_fstat compare_memory serious_error
  remote_test_fstat_counts gaps fgaps o n f ia ib =
      let a = stat_bytes by_name.0.1 gaps in
      let b = stat_bytes by_file.0.1 fgaps in
      let d = (lib.tfs_close pid opened.0 by_file.1).1 in
      elim (Bool-cases (same_bytes a b)) [
        | inl e ↦ (
          record s { tfs = d },
          (
            rw o (rw n (rw f (rw e refl))),
            (
              refl,
              (
                λ _. refl,
                λ h. absurd (h (stat_bytes-same by_name.0.1 by_file.0.1 gaps fgaps ia ib e)),
              ),
            ),
          ),
        )
        | inr e ↦ (
          record s { serious_errs = (s.serious_errs + 1) % word_mod; tfs = d },
          (
            rw o (rw n (rw f (rw e refl))),
            (refl, (λ h. absurd (different by_name.0.1 by_file.0.1 gaps fgaps e h), λ _. refl)),
          ),
        )
      ]
