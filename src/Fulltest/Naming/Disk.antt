-- ===== src/Fulltest/Naming/Disk.antt =====
-- A file system with one directory, for the examples: it does what Fulltest/Tree.antt asks for.
use Prim.Native.Nat.{bit_and}
use ttm.Prelude.{
  ◌≡◌, inl, inr, refl, ap, sym, ◌∙◌, arith, ◌+◌, ◌-◌, ◌*◌, ◌<◌, ℕ, zero, suc, pos, negsuc, Bool,
  true, false, ◌&&◌, not, Option, none, some, List, codes, length, is_some, ltb, ◌==◌,
  if◌then◌else◌, Bool-cases, lt→ltb,
}
use ttm.Tfs.{Stat, tfs_name_max, tfs_i_dir}
use ttm.Tfs.Entry.{dir_size}
use ttm.Tfs.Library.{Library}
use ttm.Tfs.Dead.{dead, no_stat}
use ttm.Find.{same_text}
use ttm.Find.Text.{same_text-eq, same_text_refl}
use ttm.Fulltest.Names.{access}
use ttm.Fulltest.Tree.{Tree, Others, IsOwn, IsTree, is_name, has_no_slash}

-- Whether a test holds of the numbers in front of `n`, which evaluation finds out.
holds_before : (ℕ → Bool) → ℕ → Bool
holds_before test zero = true
holds_before test (suc n) = holds_before test n && test n

holds_before-at : (test : ℕ → Bool) (n m : ℕ) → m < n → holds_before test n ≡ true → test m ≡ true
unfolding holds_before
holds_before-at test zero m l h = absurd (omega (arith, l))
holds_before-at test (suc n) m l h = ground (arith, holds_before-at test n m)

-- Permission bits are no more than that.
abbrev is_bits : ℕ → Bool
is_bits m =
    (access m == m)
    && ((access (511 - m) == 511 - m)
        && ((bit_and m tfs_i_dir == 0) && (bit_and (511 - m) tfs_i_dir == 0)))

bits_table : holds_before is_bits 512 ≡ true
unfolding holds_before
bits_table = refl

bits :
    (m : ℕ)
    → m < 512
    → (access m ≡ m)
      × ((access (511 - m) ≡ 511 - m)
          × ((bit_and m tfs_i_dir ≡ 0) × (bit_and (511 - m) tfs_i_dir ≡ 0)))
bits m h = let e = holds_before-at is_bits 512 m h bits_table in ground (arith, e)

pub record Disk : Type 0 where
  pub files : List ℕ → Option Stat
  pub low_mask : ℕ
  pub count : ℕ

abbrev is_dot : List ℕ → Bool
is_dot p = same_text p (codes ".")

abbrev is_long : List ℕ → Bool
is_long p = has_no_slash p && ltb tfs_name_max (length p)

abbrev directory : ℕ → Stat
directory count = record no_stat { st_mode = tfs_i_dir + 511; st_size = count * dir_size }

abbrev shown : Disk → List ℕ → Option Stat
shown d p = if is_dot p then some (directory d.count) else if is_long p then none else d.files p

abbrev mask_of : Disk → ℕ
mask_of d = if ltb d.low_mask 512 then d.low_mask else 0

abbrev put : List ℕ → Option Stat → Disk → Disk
put p e d = record d { files = λ q. if same_text q p then e else d.files q }

abbrev pub tree : Disk → Tree
tree d = record {
  entry = shown d;
  is_empty = λ p. not (is_dot p);
  is_open = λ fd. true;
  mask = mask_of d;
  count = d.count;
}

abbrev with_stat : {A : Type 0} → Option Stat → A → (Stat → A) → A
with_stat none a f = a
with_stat (some st) a f = f st

abbrev new_file : Disk → Stat
new_file d = record no_stat { st_mode = 511 - mask_of d; st_nlink = 1; st_uid = 4 }

abbrev made : List ℕ → Disk → Disk
made p d = record (put p (some (new_file d)) d) { count = d.count + 1 }

abbrev pub library : Library Disk
library = record dead {
  tfs_chdir = λ i p d. (pos 0, d);
  tfs_open = λ i p m c d. (pos 3, with_stat (shown d p) (made p d) (λ st. d));
  tfs_close = λ i f d. (pos 0, d);
  tfs_stat = λ i p d. (with_stat (shown d p) (negsuc 0, no_stat) (λ st. (pos 0, st)), d);
  tfs_access = λ i p m d. (with_stat (shown d p) (negsuc 0) (λ st. pos 0), d);
  tfs_unlink = λ i p d. with_stat (shown d p) (negsuc 0, d) (λ st. (pos 0, put p none d));
  tfs_rmdir = λ i p d. with_stat (shown d p) (negsuc 0, d) (λ st. (pos 0, put p none d));
  tfs_mkdir = λ i p m d. (pos 0, put p (some (directory 2)) d);
  tfs_chmod = λ i p m d.
      with_stat (shown d p) (negsuc 0, d)
        (λ st. (pos 0, put p (some (record st { st_mode = m })) d));
  tfs_link = λ i p q d.
      with_stat (shown d p) (negsuc 0, d)
        (λ st. (
          pos 0,
          put q (some (record st { st_nlink = 2 })) (put p (some (record st { st_nlink = 2 })) d),
        ));
  tfs_umask = λ i m d. (mask_of d, record d { low_mask = m });
  tfs_errno = λ d. 0;
}

-- A path that is neither "." nor too long.
abbrev IsPlain : List ℕ → Type 0
IsPlain p = (is_dot p ≡ false) × (is_long p ≡ false)

name_short : (p : List ℕ) → is_name p ≡ true → is_long p ≡ false
name_short p h = ground arith

shown_dot : (d : Disk) (p : List ℕ) → is_dot p ≡ true → shown d p ≡ some (directory d.count)
shown_dot d p e = rw e refl

shown_long : (d : Disk) (p : List ℕ) → is_dot p ≡ false → is_long p ≡ true → shown d p ≡ none
shown_long d p e f = rw (e, f) refl

some_not_none : {A : Type 0} (a : A) → some a ≡ none → ⊥
some_not_none a h = cc

some_injective : {A : Type 0} (a b : A) → some a ≡ some b → a ≡ b
some_injective a b h = cc

dot_not_own : (count : ℕ) (st : Stat) → directory count ≡ st → IsOwn 4 st → ⊥
dot_not_own count st e (h, _) =
    let k = ap (λ s. bit_and s.st_mode tfs_i_dir) e ∙ h in omega (arith, k)

none-IsPlain : (d : Disk) (p : List ℕ) → is_name p ≡ true → shown d p ≡ none → IsPlain p
none-IsPlain d p n h = elim (Bool-cases (is_dot p)) [
  | inl e ↦ absurd (some_not_none _ (sym (shown_dot d p e) ∙ h))
  | inr e ↦ (e, name_short p n)
]

some-IsPlain :
    (d : Disk) (p : List ℕ) (st : Stat) → is_dot p ≡ false → shown d p ≡ some st → IsPlain p
some-IsPlain d p st e h = elim (Bool-cases (is_long p)) [
  | inl l ↦ absurd (some_not_none _ (sym h ∙ shown_long d p e l))
  | inr l ↦ (e, l)
]

own_not_dot :
    (d : Disk) (p : List ℕ) (st : Stat) → shown d p ≡ some st → IsOwn 4 st → is_dot p ≡ false
own_not_dot d p st h o = elim (Bool-cases (is_dot p)) [
  | inl e ↦ absurd (dot_not_own d.count st (some_injective _ _ (sym (shown_dot d p e) ∙ h)) o)
  | inr e ↦ e
]

shown-put : (d : Disk) (p : List ℕ) (e : Option Stat) → IsPlain p → shown (put p e d) p ≡ e
shown-put d p e (a, b) = rw (a, b, same_text_refl p) refl

put-Others :
    (d : Disk) (p : List ℕ) (e : Option Stat) → Others (λ q. q ≡ p) (tree d) (tree (put p e d))
put-Others d p e = record {
  same = λ q n f. elim (Bool-cases (same_text q p)) [
    | inl h ↦ absurd (f (same_text-eq q p h))
    | inr h ↦ rw h refl
  ];
}

made-Others : (d : Disk) (p : List ℕ) → Others (λ q. q ≡ p) (tree d) (tree (made p d))
made-Others d p = record {
  same = λ q n f. elim (Bool-cases (is_dot q)) [
    | inl h ↦ rw h refl
    | inr h ↦ elim (Bool-cases (same_text q p)) [
      | inl k ↦ absurd (f (same_text-eq q p k))
      | inr k ↦ rw (h, k) refl
    ]
  ];
}

shown-made : (d : Disk) (p : List ℕ) → IsPlain p → shown (made p d) p ≡ some (new_file d)
shown-made d p (a, b) = rw (a, b, same_text_refl p) refl

mask_bounds : (d : Disk) → mask_of d < 512
mask_bounds d = ground arith

linked_at :
    (d : Disk) (p q : List ℕ) (e : Option Stat) → IsPlain p → shown (put q e (put p e d)) p ≡ e
linked_at d p q e (a, b) = elim (Bool-cases (same_text p q)) [
  | inl k ↦ rw (a, b, k) refl
  | inr k ↦ rw (a, b, k, same_text_refl p) refl
]

linked-Others :
    (d : Disk) (p q : List ℕ) (st : Stat)
    → IsPlain p
    → is_some (shown d p) ≡ true
    → Others (λ n. n ≡ q) (tree d) (tree (put q (some st) (put p (some st) d)))
linked-Others d p q st plain h = record {
  same = λ n m f. elim (Bool-cases (same_text n q)) [
    | inl k ↦ absurd (f (same_text-eq n q k))
    | inr k ↦ elim (Bool-cases (same_text n p)) [
      | inl l ↦
          (let e = same_text-eq n p l in
            ap (λ m. is_some (shown (put q (some st) (put p (some st) d)) m)) e
            ∙ (ap is_some (linked_at d p q (some st) plain)
                ∙ (sym h ∙ ap (λ m. is_some (shown d m)) (sym e))))
      | inr l ↦ rw (k, l) refl
    ]
  ];
}

not-true : (b : Bool) → not b ≡ true → b ≡ false
not-true true h = cc
not-true false h = refl

pub library-IsTree : IsTree library (pos 1) 4 tree
unfolding same_text
library-IsTree = record {
  stats = λ d p st h. rw h (refl, refl);
  finds = λ d p st h. rw h (refl, refl);
  misses = λ d p h. rw h (refl, refl);
  refuses = λ d p l n. elim (Bool-cases (is_dot p)) [
    | inl e ↦ absurd (omega (arith, l, ap length (same_text-eq p (codes ".") e)))
    | inr e ↦ shown_long d p e (rw n (lt→ltb tfs_name_max (length p) (omega (arith, l))))
  ];
  creates = λ d p mode n m h.
      let plain = none-IsPlain d p n h in
      let (ma, (ra, (mi, ri))) = bits (mask_of d) (mask_bounds d) in
      rw h (
        record {
          number = 3;
          descriptor = refl;
          open_now = refl;
          stat = new_file d;
          found = shown-made d p plain;
          own = (ri, refl);
          apart = record { mask = refl; others = made-Others d p };
        },
        (ra ∙ ap (λ x. 511 - x) (sym ma), (refl, refl)),
      );
  closes = λ d fd h. (refl, ((λ fd. true), refl));
  unlinks = λ d p st n h o.
      let plain = some-IsPlain d p st (own_not_dot d p st h o) h in
      rw h (refl, (shown-put d p none plain, record { mask = refl; others = put-Others d p none }));
  unlinks_none = λ d p h. rw h (refl, refl);
  links = λ d p q st n m h o one g.
      let plain = some-IsPlain d p st (own_not_dot d p st h o) h in
      let two = record st { st_nlink = 2 } in
      rw h (
        refl,
        (
          two,
          (
            linked_at d p q (some two) plain,
            (
              shown-put (put p (some two) d) q (some two) (none-IsPlain d q m g),
              (o, (refl, linked-Others d p q two plain (ap is_some h))),
            ),
          ),
        ),
      );
  chmods = λ d p st mode l h o.
      let plain = some-IsPlain d p st (own_not_dot d p st h o) h in
      let (e, (_, (i, _))) = bits mode (omega (arith, l)) in
      let new = some (record st { st_mode = mode }) in
      rw h (
        refl,
        (
          record { mask = refl; others = put-Others d p new },
          (record st { st_mode = mode }, (shown-put d p new plain, ((i, o.1), e))),
        ),
      );
  masks = λ d mask l. (refl, (refl, rw (lt→ltb mask 512 (omega (arith, l))) refl));
  makes = λ d p n h.
      let plain = none-IsPlain d p n h in
      (refl, (directory 2, (shown-put d p _ plain, rw plain.0 refl)));
  removes = λ d p st n h e. rw h (refl, shown-put d p none (some-IsPlain d p st (not-true _ e) h));
  sizes = λ d. (directory d.count, (refl, ((λ e. omega (arith, e)), omega arith)));
}
