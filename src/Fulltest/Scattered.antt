-- ===== src/Fulltest/Scattered.antt =====
-- `tst_rand_write_seq_read` of TFS/EXAMPLES/TFS/FULLTEST.C over a file system that keeps its files:
-- what the marks in buf_cmp say of the file.
use ttm.Prelude.{
  length-replicate, ℕ, suc, ◌+◌, ◌-◌, ◌≤◌, ◌<◌, ◌≡◌, ◌≢◌, ◌⊎◌, inl, inr, ◌∙◌, arith, List, [], ◌∷◌,
  length, get_or, take, drop, replicate, le_or_lt, ◌==◌, Bool-cases,
}
use ttm.Fulltest.{buffer_size, splice}
use ttm.Fulltest.Files.{unmarked}
use ttm.Fulltest.Buffers.{length_drop_eq, padded, length-part, length-splice_wide, length-padded}
use ttm.Fulltest.Lookup.{
  get_or-take, get_or-drop, get_or-padded, get_or-splice_before, get_or-splice_inside,
  get_or-splice_behind,
}

abbrev pub Marked : List ℕ → ℕ → Type 0
Marked marks i = (i < buffer_size) × (get_or marks i 0 ≢ 0)

-- A byte of the file is that of buf_orig.
abbrev pub Good : List ℕ → List ℕ → ℕ → Type 0
Good orig bytes i = (i < length bytes) × (get_or bytes i 0 ≡ get_or orig i 0)

abbrev pub Within : ℕ → ℕ → ℕ → Type 0
Within from n i = (from ≤ i) × (i < from + n)

pub unmarked-le : (marks : List ℕ) → unmarked marks ≤ length marks
unfolding unmarked
unmarked-le [] = omega arith
unmarked-le (m ∷ marks) = elim (Bool-cases (m == 0)) [
  | inl e ↦ rw e (omega (arith, unmarked-le marks))
  | inr e ↦ rw e (omega arith)
]

unmarked-zero : (marks : List ℕ) → 0 < length marks → unmarked marks ≡ 0 → get_or marks 0 0 ≢ 0
unfolding unmarked
unmarked-zero [] l e = absurd (omega arith)
unmarked-zero (m ∷ marks) l e = elim (Bool-cases (m == 0)) [
  | inl q ↦ absurd (omega (arith, rw q at e))
  | inr q ↦ λ z. ground arith
]

-- Where no byte is counted the first one is marked.
pub unmarked-Marked :
    (marks : List ℕ) (i j : ℕ)
    → length marks ≡ buffer_size
    → i < buffer_size
    → i ≤ j
    → j < suc i
    → unmarked (drop i marks) ≤ 0
    → Marked marks j
unmarked-Marked marks i j l h a b u = (
  omega arith,
  λ e.
      unmarked-zero (drop i marks) (omega (arith, length_drop_eq i marks)) (omega arith)
        (get_or-drop i marks 0 j (omega arith) ∙ e),
)

-- After a part of buf_orig was written, what was good is, and so is the part.
pub put-Good :
    (orig bytes : List ℕ) (from n i : ℕ)
    → from + n ≤ length orig
    → Good orig bytes i ⊎ Within from n i
    → Good orig (splice from (take n (drop from orig)) (padded from bytes)) i
put-Good orig bytes from n i h g =
    let part = take n (drop from orig) in
    let whole = padded from bytes in
    let l = length-part n from orig h in
    let w = length-padded from bytes in
    let k : from ≤ length whole = omega (arith, w) in
    let size = length-splice_wide from part whole k in
    elim (le_or_lt from i) [
      | inr before ↦ elim g [
        | inl (b, e) ↦ (
          omega (arith, size, w),
          get_or-splice_before from part whole i k before ∙ (get_or-padded from bytes i b ∙ e),
        )
        | inr (b, _) ↦ absurd (omega arith)
      ]
      | inl behind ↦ elim (le_or_lt (from + n) i) [
        | inr inside ↦ (
          omega (arith, size, l),
          get_or-splice_inside from part whole i (i - from) k (omega arith) (omega (arith, l))
              ∙ (get_or-take n (drop from orig) (i - from) (omega arith)
                  ∙ get_or-drop from orig (i - from) i (omega arith)),
        )
        | inl after ↦ elim g [
          | inl (b, e) ↦ (
            omega (arith, size, w, l),
            get_or-splice_behind from part whole i k (omega (arith, l))
                ∙ (get_or-padded from bytes i b ∙ e),
          )
          | inr (_, b) ↦ absurd (omega arith)
        ]
      ]
    ]

pub length-put :
    (orig bytes : List ℕ) (from n size : ℕ)
    → from + n ≤ length orig
    → from + n ≤ size
    → length bytes ≤ size
    → length (splice from (take n (drop from orig)) (padded from bytes)) ≤ size
length-put orig bytes from n size h k b =
    let w = length-padded from bytes in
    omega (
      arith,
      length-splice_wide from (take n (drop from orig)) (padded from bytes) (omega (arith, w)),
      w,
      length-part n from orig h,
    )

pub splice-Marked :
    (marks : List ℕ) (from n i : ℕ)
    → from + n ≤ length marks
    → Marked (splice from (replicate n 1) marks) i
    → Marked marks i ⊎ Within from n i
splice-Marked marks from n i h (l, m) =
    let ones : List ℕ = replicate n 1 in
    let r = length-replicate n 1 in
    elim (le_or_lt from i) [
      | inr before ↦
          inl (l, λ e. m (get_or-splice_before from ones marks i (omega arith) before ∙ e))
      | inl behind ↦ elim (le_or_lt (from + n) i) [
        | inl after ↦ inl (
          l,
          λ e. m (get_or-splice_behind from ones marks i (omega arith) (omega (arith, r)) ∙ e),
        )
        | inr inside ↦ inr (behind, inside)
      ]
    ]
