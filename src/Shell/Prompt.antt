-- ===== src/Shell/Prompt.antt =====
-- The prompt of the shells in TFS/EXAMPLES/TFSH: what the variables pid and cwd say of each other.
use ttm.Prelude.{
  ℕ, zero, suc, codes, ◌≡◌, refl, sym, ap, ◌∙◌, ◌⊎◌, inl, inr, Bool, true, false, not, ◌&&◌, ◌||◌,
  Bool-cases, List, [], ◌∷◌, ℤ, pos, negsuc, is_neg, ◌==ℤ◌,
}
use ttm.Prelude.Run.{Run, ok, exited}
use ttm.Tfs.{tfs_do_fsck, tfs_dont_fsck}
use ttm.Tfs.Library.{Library}
use ttm.Bench.{atoi}
use ttm.Find.{same_text}
use ttm.Shell.Start.{Environment, go_home, log_on}
use ttm.Shell.{
  u_short, number_or, show_cwd, Session, Said, Rest, initial, not_mounted, not_logged_on, logon,
  logoff, mount, mount_with, format, mkfs, mkfs_with,
}

-- A session that is logged off says so at its prompt.
abbrev pub IsPrompted : {D : Type 0} → Session D → Type 0
IsPrompted s = is_neg s.pid ≡ true → (s.cwd ≡ not_mounted) ⊎ (s.cwd ≡ not_logged_on)

not_both : {b : Bool} → b ≡ true → b ≡ false → ⊥
not_both h k = cc

-- Whether the prompt can be stale: a logon has failed while the session had a process, and none has
-- succeeded since.
abbrev pub stale_after : {D : Type 0} → Bool → Session D → Session D → Bool
stale_after stale s t = is_neg t.pid && (stale || not (is_neg s.pid))

-- What is known of a session: its prompt where that cannot be stale, and else that it is logged off.
abbrev pub Shows : {D : Type 0} → Bool → Session D → Type 0
Shows false s = IsPrompted s
Shows true s = is_neg s.pid ≡ true

-- What TFS/MAN/MAN3/LOGON says of the result: the process, or -1.
abbrev pub IsLogon : {D : Type 0} → Library D → Type 0
IsLogon {D} lib =
    (u g : ℕ) (d : D) → is_neg (lib.tfs_logon u g d).0 ≡ true → (lib.tfs_logon u g d).0 ≡ negsuc 0

module _ {D : Type 0} (lib : Library D) (shell : Rest D) (environment : Environment) where
  -- A command at the prompt, and whether the prompt can be stale before and after it. The commands
  -- other than those of the source leave the process as it is, and change the prompt only for a
  -- process.
  pub data Step : Bool → Session D → Bool → Session D → Type 0 where
    by_logon :
        {b : Bool} {s t : Session D} {said : List Said} (arguments : List (List ℕ))
        → logon lib shell arguments s ≡ ok said t
        → Step b s (stale_after b s t) t
    by_logoff :
        {b : Bool} {s t : Session D} {said : List Said}
        → logoff lib shell s ≡ ok said t
        → Step b s false t
    by_mount :
        {b : Bool} {s t : Session D} {said : List Said} (arguments : List (List ℕ))
        → mount lib shell arguments s ≡ ok said t
        → Step b s b t
    by_format :
        {b : Bool} {s t : Session D} {said : List Said}
        → format lib shell s ≡ ok said t
        → Step b s b t
    by_mkfs :
        {b : Bool} {s t : Session D} {said : List Said} (arguments : List (List ℕ))
        → mkfs lib shell arguments s ≡ ok said t
        → Step b s b t
    by_other :
        {b : Bool} {s t : Session D}
        → s.pid ≡ t.pid
        → (is_neg s.pid ≡ true → s.cwd ≡ t.cwd)
        → Step b s b t

  -- The session with the file system mounted.
  abbrev pub mounted_session : D → Session D
  mounted_session d = record (initial d) { tfs = (lib.tfs_mount tfs_dont_fsck d).1 }

  -- The sessions that `tfsh` and the commands reach: with -n from the first one, and else from the
  -- one that the mount and the logon leave, whether or not the logon succeeds.
  pub data Reach (d : D) : Bool → Session D → Type 0 where
    start : {s : Session D} → s ≡ initial d → Reach d false s
    start_up :
        {t : Session D}
        → (lib.tfs_mount tfs_dont_fsck d).0 ≡ pos 0
        → log_on lib shell environment (mounted_session d) ≡ ok tt t
        → Reach d false t
    later : {b c : Bool} {s t : Session D} → Reach d b s → Step b s c t → Reach d c t

  -- What a command that goes on leaves satisfies the predicate.
  abbrev Leaves : {A : Type 0} → (Session D → Type 0) → Run (Session D) A → Type 0
  Leaves P (ok said t) = P t
  Leaves P (exited code t) = Unit {0}

  left :
      {A : Type 0} (P : Session D → Type 0) (r : Run (Session D) A) {said : A} {t : Session D}
      → r ≡ ok said t
      → Leaves P r
      → P t
  left P (ok said' t') {said} {t} e h = let q : t ≡ t' = cc in rw q h
  left P (exited c t') {said} {t} e h = absurd (cc)

  -- A session in which nothing has changed.
  same_Shows : (b : Bool) (s : Session D) → Shows b s → Shows (stale_after b s s) s
  same_Shows b s h = elim (Bool-cases (is_neg s.pid)) [
    | inl e ↦ logged_off b e h
    | inr e ↦ rw e (λ i. absurd (not_both i e))
  ]
    where
      logged_off : (b : Bool) → is_neg s.pid ≡ true → Shows b s → Shows (stale_after b s s) s
      logged_off true e h = rw e e
      logged_off false e h = rw e h

  working_Shows : (b : Bool) (s t : Session D) → is_neg t.pid ≡ false → Shows (stale_after b s t) t
  working_Shows b s t e = rw e (λ i. absurd (not_both i e))

  failed_Shows :
      (b : Bool) (s : Session D) (p : ℤ) (d : D)
      → is_neg p ≡ true
      → Shows b s
      → let t : Session D = record s { pid = p; tfs = d } in Shows (stale_after b s t) t
  failed_Shows true s p d e h = rw e e
  failed_Shows false s p d e h = elim (Bool-cases (is_neg s.pid)) [
    | inl i ↦ rw (e, i) (λ _. h i)
    | inr i ↦ rw (e, i) e
  ]

  logon-Leaves :
      (b : Bool) (arguments : List (List ℕ)) (s : Session D)
      → Shows b s
      → Leaves (λ t. Shows (stale_after b s t) t) (logon lib shell arguments s)
  unfolding logon show_cwd
  logon-Leaves b (u ∷ g ∷ []) s h =
      let r = lib.tfs_logon (u_short (atoi u)) (u_short (atoi g)) s.tfs in
      elim (Bool-cases (is_neg r.0)) [
        | inl e ↦ rw e (failed_Shows b s r.0 r.1 e h)
        | inr e ↦ rw e (
            working_Shows b s
              (record s {
                pid = r.0;
                cwd = (shell.getcwd r.0 r.1).0;
                tfs = (shell.getcwd r.0 r.1).1;
              })
              e)
      ]
  logon-Leaves b [] s h = same_Shows b s h
  logon-Leaves b (a ∷ []) s h = same_Shows b s h
  logon-Leaves b (x ∷ y ∷ z ∷ rest) s h = same_Shows b s h

  mount_with-Leaves :
      (b : Bool) (f : ℤ) (s : Session D) → Shows b s → Leaves (Shows b) (mount_with lib shell f s)
  unfolding mount_with
  mount_with-Leaves b f s h = elim (Bool-cases ((lib.tfs_mount f s.tfs).0 ==ℤ pos 0)) [
    | inl e ↦ rw e (mounted b h)
    | inr e ↦ rw e (kept b h)
  ]
    where
      mounted :
          (b : Bool)
          → Shows b s
          → Shows b (record s { cwd = not_logged_on; tfs = (lib.tfs_mount f s.tfs).1 })
      mounted true h = h
      mounted false h = λ _. inr refl

      kept : (b : Bool) → Shows b s → Shows b (record s { tfs = (lib.tfs_mount f s.tfs).1 })
      kept true h = h
      kept false h = h

  mount-Leaves :
      (b : Bool) (arguments : List (List ℕ)) (s : Session D)
      → Shows b s
      → Leaves (Shows b) (mount lib shell arguments s)
  unfolding mount
  mount-Leaves b [] s h = mount_with-Leaves b tfs_dont_fsck s h
  mount-Leaves b (a ∷ rest) s h = elim (Bool-cases (same_text (codes "fsck") a)) [
    | inl e ↦ rw e (mount_with-Leaves b tfs_do_fsck s h)
    | inr e ↦ rw e h
  ]

  -- Calls of the file system alone change nothing of what is known.
  calls_Shows : (b : Bool) (s : Session D) (d : D) → Shows b s → Shows b (record s { tfs = d })
  calls_Shows true s d h = h
  calls_Shows false s d h = h

  mkfs_with-Leaves :
      (b : Bool) (n : ℤ) (s : Session D) → Shows b s → Leaves (Shows b) (mkfs_with lib shell n s)
  unfolding mkfs_with
  mkfs_with-Leaves b (pos (suc n)) s h = calls_Shows b s _ h
  mkfs_with-Leaves b (pos zero) s h = h
  mkfs_with-Leaves b (negsuc n) s h = h

  mkfs-Leaves :
      (b : Bool) (arguments : List (List ℕ)) (s : Session D)
      → Shows b s
      → Leaves (Shows b) (mkfs lib shell arguments s)
  unfolding mkfs
  mkfs-Leaves b (inodes ∷ []) s h = mkfs_with-Leaves b (atoi inodes) s h
  mkfs-Leaves b [] s h = h
  mkfs-Leaves b (x ∷ y ∷ rest) s h = h

  other_Shows :
      (b : Bool) (s t : Session D)
      → s.pid ≡ t.pid
      → (is_neg s.pid ≡ true → s.cwd ≡ t.cwd)
      → Shows b s
      → Shows b t
  other_Shows true s t same kept h = ap is_neg (sym same) ∙ h
  other_Shows false s t same kept h = λ m.
      let i : is_neg s.pid ≡ true = ap is_neg same ∙ m in
      elim (h i) [ inl a ↦ inl (sym (kept i) ∙ a) | inr a ↦ inr (sym (kept i) ∙ a) ]

  Step-Shows : {b c : Bool} {s t : Session D} → Step b s c t → Shows b s → Shows c t
  unfolding logoff format
  Step-Shows {b} {c} {s} {t} (by_logon arguments e) h =
      left (λ x. Shows (stale_after b s x) x) (logon lib shell arguments s) e
        (logon-Leaves b arguments s h)
  Step-Shows {s = s} (by_logoff e) h = left (Shows false) (logoff lib shell s) e (λ _. inr refl)
  Step-Shows {b} {s = s} (by_mount arguments e) h =
      left (Shows b) (mount lib shell arguments s) e (mount-Leaves b arguments s h)
  Step-Shows {b} {s = s} (by_format e) h =
      left (Shows b) (format lib shell s) e (calls_Shows b s _ h)
  Step-Shows {b} {s = s} (by_mkfs arguments e) h =
      left (Shows b) (mkfs lib shell arguments s) e (mkfs-Leaves b arguments s h)
  Step-Shows {b} {s = s} {t = t} (by_other same kept) h = other_Shows b s t same kept h

  log_on-Leaves : IsLogon lib → (s : Session D) → Leaves IsPrompted (log_on lib shell environment s)
  unfolding log_on go_home show_cwd
  log_on-Leaves good s =
      let u = u_short (number_or (negsuc 1) environment.tfs_uid) in
      let g = u_short (number_or (negsuc 1) environment.tfs_gid) in
      let r = lib.tfs_logon u g s.tfs in
      elim (Bool-cases (r.0 ==ℤ negsuc 0)) [
        | inl e ↦ rw e (λ _. inr refl)
        | inr e ↦ rw e (λ i. absurd (not_both (ap (λ p. p ==ℤ negsuc 0) (good u g s.tfs i)) e))
      ]

  -- In every session that `tfsh` and its commands reach, the prompt of a session without a process
  -- says "not mounted" or "not logged on", unless a logon has failed while the session had a
  -- process and none has succeeded since; then the session is logged off. It is supposed that
  -- tfs_logon returns a process or -1.
  pub Reach-Shows : IsLogon lib → (d : D) {b : Bool} {s : Session D} → Reach d b s → Shows b s
  Reach-Shows good d {s = s} (start e) = rw e (λ _. inl refl)
  Reach-Shows good d (start_up m e) =
      left IsPrompted (log_on lib shell environment (mounted_session d)) e
        (log_on-Leaves good (mounted_session d))
  Reach-Shows good d (later r st) = Step-Shows st (Reach-Shows good d r)
