-- ===== src/Tfs/Entry.antt =====
-- TFS/LIBS/TFS.H: `struct tfs_dir_t` in memory, as a directory is read: a word, and a name of up to
-- 27 characters with the \0 behind it.
use ttm.Prelude.{
  length-replicate, ℕ, zero, suc, ◌+◌, ◌-◌, ◌*◌, ◌/◌, ◌%◌, ◌<◌, ◌≤◌, ◌≡◌, ◌≢◌, refl, ap, ap₂, arith,
  List, [], ◌∷◌, ◌++◌, ◌==◌, ne→==, if◌then◌else◌, All, get_or, length, length-append, take, drop,
  replicate, word_mod,
}
use ttm.Tfs.{Dir, tfs_name_max}

-- sizeof( struct tfs_dir_t )
abbrev pub dir_size : ℕ
dir_size = 32

-- The characters in front of the first \0.
unfoldable pub c_string : List ℕ → List ℕ
c_string [] = []
c_string (c ∷ cs) = let rest = c_string cs in if c == 0 then [] else c ∷ rest

unfoldable pub dir_of_bytes : List ℕ → Dir
unfolding c_string
dir_of_bytes b = record {
  inode_no = get_or b 0 0 + get_or b 1 0 * 256 + get_or b 2 0 * 65536 + get_or b 3 0 * 16777216;
  name = c_string (take (tfs_name_max + 1) (drop 4 b));
}

unfoldable pub dir_to_bytes : Dir → List ℕ
dir_to_bytes e =
    (e.inode_no % 256)
    ∷ (e.inode_no / 256 % 256)
    ∷ (e.inode_no / 65536 % 256)
    ∷ (e.inode_no / 16777216 % 256)
    ∷ (e.name ++ replicate (tfs_name_max + 1 - length e.name) 0)

-- An inode number of a word, and a name that has room and holds no \0.
pub record IsEntry (e : Dir) : Type 0 where
  pub inode : e.inode_no < word_mod
  pub room : length e.name ≤ tfs_name_max
  pub text : All (λ c. c ≢ 0) e.name

c_string-name :
    (name : List ℕ) (n : ℕ) → All (λ c. c ≢ 0) name → c_string (name ++ replicate (suc n) 0) ≡ name
unfolding c_string
c_string-name [] n h = refl
c_string-name (c ∷ cs) n h = rw (ne→== c 0 h.0) (ap (λ l. c ∷ l) (c_string-name cs n h.1))

take-all : (n : ℕ) (xs : List ℕ) → length xs ≤ n → take n xs ≡ xs
take-all zero [] h = refl
take-all zero (x ∷ xs) h = absurd (omega arith)
take-all (suc n) [] h = refl
take-all (suc n) (x ∷ xs) h = ap (λ l. x ∷ l) (take-all n xs (omega arith))

name_back :
    (name : List ℕ) (n : ℕ)
    → All (λ c. c ≢ 0) name
    → n + length name ≡ tfs_name_max
    → c_string (take 28 (name ++ replicate (suc n) 0)) ≡ name
name_back name n h k =
    rw
      (take-all 28 (name ++ replicate (suc n) 0)
        (omega (arith, length-append name (replicate (suc n) 0), length-replicate (suc n) 0)))
      (c_string-name name n h)

-- A directory entry is read back from its bytes, provided that its inode number is a word and its
-- name holds no \0 and has at most 27 characters.
pub dir_of_bytes-dir_to_bytes : (e : Dir) → IsEntry e → dir_of_bytes (dir_to_bytes e) ≡ e
unfolding dir_of_bytes dir_to_bytes
dir_of_bytes-dir_to_bytes e h = ap₂ (λ i n. record { inode_no = i; name = n }) number text
  where
    number : (dir_of_bytes (dir_to_bytes e)).inode_no ≡ e.inode_no
    number = let small = h.inode in omega arith

    text : (dir_of_bytes (dir_to_bytes e)).name ≡ e.name
    text =
        let fits = h.room in
        let more : 28 - length e.name ≡ suc (27 - length e.name) = omega arith in
        rw more (name_back e.name (27 - length e.name) h.text (omega arith))
