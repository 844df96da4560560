-- ===== src/Fulltest/Tree.antt =====
-- What TFS/MAN/MAN3 says of names, links and permissions, for the tests of
-- TFS/EXAMPLES/TFS/FULLTEST.C on them.
use Prim.Native.Nat.{bit_and}
use ttm.Prelude.{
  ℕ, ◌+◌, ◌-◌, ◌*◌, ◌≤◌, ◌≡◌, ◌≢◌, ap, ◌∙◌, Bool, true, ◌&&◌, not, Option, none, some, List, [],
  ◌∷◌, ℤ, pos, negsuc, ◌==◌, ltb, leb, length, codes, is_some,
}
use ttm.Tfs.{Stat, tfs_o_rdwr, tfs_o_trunc, tfs_o_creat, tfs_f_ok, tfs_i_dir, tfs_name_max}
use ttm.Tfs.Entry.{dir_size}
use ttm.Tfs.Library.{Library}
use ttm.Fulltest.{every_access}
use ttm.Fulltest.Names.{access}

-- The process's view: what its paths name, which directories are empty, which descriptors are open,
-- the mask, and how many names the current directory has.
pub record Tree : Type 0 where
  pub entry : List ℕ → Option Stat
  pub is_empty : List ℕ → Bool
  pub is_open : ℤ → Bool
  pub mask : ℕ
  pub count : ℕ

-- No slash in a path.
abbrev pub has_no_slash : List ℕ → Bool
has_no_slash [] = true
has_no_slash (c ∷ cs) = let rest = has_no_slash cs in not (c == b'/') && rest

-- A name in the current directory, which is not too long.
abbrev pub is_name : List ℕ → Bool
is_name p = ltb 0 (length p) && leb (length p) tfs_name_max && has_no_slash p

-- A regular file of the user's.
abbrev pub IsOwn : ℕ → Stat → Type 0
IsOwn user st = (bit_and st.st_mode tfs_i_dir ≡ 0) × (st.st_uid ≡ user)

-- There is no file of the name, or a regular one of the user's.
abbrev pub IsFree : ℕ → Option Stat → Type 0
IsFree user none = Unit {0}
IsFree user (some st) = IsOwn user st

-- The names but some are there or not as before.
pub record Others (Changed : List ℕ → Type 0) (t t' : Tree) : Type 0 where
  pub same :
      (q : List ℕ) → is_name q ≡ true → (Changed q → ⊥) → is_some (t'.entry q) ≡ is_some (t.entry q)

pub Others-entry :
    {Changed : List ℕ → Type 0} {t t' : Tree} → t'.entry ≡ t.entry → Others Changed t t'
Others-entry e = record { same = λ q n f. ap (λ h. is_some (h q)) e }

pub Others-tree : {Changed : List ℕ → Type 0} {t t' : Tree} → t' ≡ t → Others Changed t t'
Others-tree e = Others-entry (ap (λ t. t.entry) e)

pub Others-then :
    {Changed : List ℕ → Type 0} {t t' t'' : Tree}
    → Others Changed t t'
    → Others Changed t' t''
    → Others Changed t t''
Others-then o p = record { same = λ q n f. p.same q n f ∙ o.same q n f }

pub Others-more :
    {Changed More : List ℕ → Type 0} {t t' : Tree}
    → ((q : List ℕ) → Changed q → More q)
    → Others Changed t t'
    → Others More t t'
Others-more w o = record { same = λ q n f. o.same q n (λ c. f (w q c)) }

-- The other names are there or not as before, and the mask is as before.
pub record Apart (p : List ℕ) (t t' : Tree) : Type 0 where
  pub mask : t'.mask ≡ t.mask
  pub others : Others (λ q. q ≡ p) t t'

-- A path is open now, and it names a regular file of the user's.
pub record IsOpened (user : ℕ) (p : List ℕ) (t t' : Tree) (fd : ℤ) : Type 0 where
  pub number : ℕ
  pub descriptor : fd ≡ pos number
  pub open_now : t'.is_open (pos number) ≡ true
  pub stat : Stat
  pub found : t'.entry p ≡ some stat
  pub own : IsOwn user stat
  pub apart : Apart p t t'

-- O_RDWR, with O_CREAT and with O_TRUNC or without.
pub data Creating : ℕ → Type 0 where
  keeping : Creating (tfs_o_rdwr + tfs_o_creat)
  truncating : Creating (tfs_o_rdwr + tfs_o_creat + tfs_o_trunc)

-- A file system with room, in which the process `pid` of the user may make and remove files in its
-- current directory.
pub record IsTree {D : Type 0} (lib : Library D) (pid : ℤ) (user : ℕ) (tree : D → Tree)
    : Type 0 where
  pub stats :
      (d : D) (p : List ℕ) (st : Stat)
      → (tree d).entry p ≡ some st
      → let r = lib.tfs_stat pid p d in (r.0 ≡ (pos 0, st)) × (tree r.1 ≡ tree d)
  pub finds :
      (d : D) (p : List ℕ) (st : Stat)
      → (tree d).entry p ≡ some st
      → let r = lib.tfs_access pid p tfs_f_ok d in (r.0 ≡ pos 0) × (tree r.1 ≡ tree d)
  pub misses :
      (d : D) (p : List ℕ)
      → (tree d).entry p ≡ none
      → let r = lib.tfs_access pid p tfs_f_ok d in (r.0 ≡ negsuc 0) × (tree r.1 ≡ tree d)
  -- No file has a name that is too long.
  pub refuses :
      (d : D) (p : List ℕ)
      → tfs_name_max + 1 ≤ length p
      → has_no_slash p ≡ true
      → (tree d).entry p ≡ none
  -- A file that is made has the permissions that the mask leaves.
  pub creates :
      (d : D) (p : List ℕ) (mode : ℕ)
      → is_name p ≡ true
      → Creating mode
      → (tree d).entry p ≡ none
      → let r = lib.tfs_open pid p mode every_access d in
        (o : IsOpened user p (tree d) (tree r.1) r.0) × ((access o.stat.st_mode
            ≡ 511 - access (tree d).mask)
          × ((o.stat.st_nlink ≡ 1) × ((tree r.1).count ≡ (tree d).count + 1)))
  pub closes :
      (d : D) (fd : ℤ)
      → (tree d).is_open fd ≡ true
      → let r = lib.tfs_close pid fd d in
        (r.0 ≡ pos 0) × ((o : ℤ → Bool) × (tree r.1 ≡ record (tree d) { is_open = o }))
  pub unlinks :
      (d : D) (p : List ℕ) (st : Stat)
      → is_name p ≡ true
      → (tree d).entry p ≡ some st
      → IsOwn user st
      → let r = lib.tfs_unlink pid p d in
        (r.0 ≡ pos 0) × (((tree r.1).entry p ≡ none) × Apart p (tree d) (tree r.1))
  pub unlinks_none :
      (d : D) (p : List ℕ)
      → (tree d).entry p ≡ none
      → let r = lib.tfs_unlink pid p d in (r.0 ≡ negsuc 0) × (tree r.1 ≡ tree d)
  -- The new link and the old one are to the same file.
  pub links :
      (d : D) (p q : List ℕ) (st : Stat)
      → is_name p ≡ true
      → is_name q ≡ true
      → (tree d).entry p ≡ some st
      → IsOwn user st
      → st.st_nlink ≡ 1
      → (tree d).entry q ≡ none
      → let r = lib.tfs_link pid p q d in
        (r.0 ≡ pos 0)
        × ((st' : Stat) × (((tree r.1).entry p ≡ some st')
              × (((tree r.1).entry q ≡ some st')
                  × (IsOwn user st'
                      × ((st'.st_nlink ≡ 2) × Others (λ n. n ≡ q) (tree d) (tree r.1))))))
  pub chmods :
      (d : D) (p : List ℕ) (st : Stat) (mode : ℕ)
      → mode ≤ 511
      → (tree d).entry p ≡ some st
      → IsOwn user st
      → let r = lib.tfs_chmod pid p mode d in
        (r.0 ≡ pos 0)
        × (Apart p (tree d) (tree r.1)
            × ((st' : Stat) × (((tree r.1).entry p ≡ some st')
                  × (IsOwn user st' × (access st'.st_mode ≡ mode)))))
  pub masks :
      (d : D) (mask : ℕ)
      → mask ≤ 511
      → let r = lib.tfs_umask pid mask d in
        (r.0 ≡ (tree d).mask)
        × ((lib.tfs_errno r.1 ≡ 0) × (tree r.1 ≡ record (tree d) { mask = mask }))
  pub makes :
      (d : D) (p : List ℕ)
      → is_name p ≡ true
      → (tree d).entry p ≡ none
      → let r = lib.tfs_mkdir pid p every_access d in
        (r.0 ≡ pos 0)
        × ((st : Stat) × (((tree r.1).entry p ≡ some st) × ((tree r.1).is_empty p ≡ true)))
  pub removes :
      (d : D) (p : List ℕ) (st : Stat)
      → is_name p ≡ true
      → (tree d).entry p ≡ some st
      → (tree d).is_empty p ≡ true
      → let r = lib.tfs_rmdir pid p d in (r.0 ≡ pos 0) × ((tree r.1).entry p ≡ none)
  -- A directory has an entry for each of its names, "." and ".." among them.
  pub sizes :
      (d : D)
      → (st : Stat) × (((tree d).entry (codes ".") ≡ some st)
          × ((bit_and st.st_mode tfs_i_dir ≢ 0) × ((tree d).count * dir_size ≤ st.st_size)))
