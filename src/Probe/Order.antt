-- ===== src/Probe/Order.antt =====
-- Which units TTM50/EXAMPLES/PROBE.C probes, and in which order.
use ttm.Prelude.{
  ℕ, zero, suc, ◌+◌, ◌≡◌, refl, sym, ap, ◌∙◌, inl, inr, Bool, true, false, List, [], ◌∷◌, ◌++◌, ℤ,
  pos, ◌==ℤ◌, Bool-cases, if◌then◌else◌,
}
use ttm.Prelude.Run.{Run, ok, exited, Cmd, and_then}
use ttm.Scsi.{Address, Command}
use ttm.Scsi.Library.{Library}
use ttm.Probe.{probe_unit, probe_units, probe_ids, is_shown, inquiry_of, inquiry_data, row}

-- Printing by a run, and then by a command.
unfoldable followed : {D : Type 0} → Run D (List ℕ) → Cmd D (List ℕ) → Run D (List ℕ)
followed r k = and_then r (λ text d. and_then (k d) (λ rest d'. ok (text ++ rest) d'))

append_assoc : (xs ys zs : List ℕ) → (xs ++ ys) ++ zs ≡ xs ++ (ys ++ zs)
append_assoc [] ys zs = refl
append_assoc (x ∷ xs) ys zs = ap (λ l. x ∷ l) (append_assoc xs ys zs)

module _ {D : Type 0} where
  behind :
      (t r : List ℕ) (s : Run D (List ℕ))
      → and_then s (λ q d. ok ((t ++ r) ++ q) d)
        ≡ and_then (and_then s (λ q d. ok (r ++ q) d)) (λ q d. ok (t ++ q) d)
  behind t r (ok q d) = ap (λ l. ok l d) (append_assoc t r q)
  behind t r (exited c d) = refl

  shift :
      (t : List ℕ) (s : Run D (List ℕ)) (k : Cmd D (List ℕ))
      → followed (and_then s (λ q d. ok (t ++ q) d)) k
        ≡ and_then (followed s k) (λ q d. ok (t ++ q) d)
  unfolding followed
  shift t (ok r d) k = behind t r (k d)
  shift t (exited c d) k = refl

  followed_assoc :
      (r : Run D (List ℕ)) (k l : Cmd D (List ℕ))
      → followed (followed r k) l ≡ followed r (λ d. followed (k d) l)
  unfolding followed
  followed_assoc (ok t d) k l = shift t (k d) l
  followed_assoc (exited c d) k l = refl

  nothing_first : (s : Run D (List ℕ)) → and_then s (λ q d. ok q d) ≡ s
  nothing_first (ok q d) = refl
  nothing_first (exited c d) = refl

  -- Every state in which a run goes on satisfies the predicate.
  GoesOn : (D → Type 0) → Run D (List ℕ) → Type 0
  GoesOn P (ok t d) = P d
  GoesOn P (exited c d) = Unit {0}

  followed_cong :
      (P : D → Type 0) (r : Run D (List ℕ)) (k l : Cmd D (List ℕ))
      → GoesOn P r
      → ((d : D) → P d → k d ≡ l d)
      → followed r k ≡ followed r l
  unfolding followed GoesOn
  followed_cong P (ok t d) k l h e = ap (λ s. and_then s (λ q d'. ok (t ++ q) d')) (e d h)
  followed_cong P (exited c d) k l h e = refl

  GoesOn-followed :
      (P : D → Type 0) (r : Run D (List ℕ)) (k : Cmd D (List ℕ))
      → GoesOn P r
      → ((d : D) → P d → GoesOn P (k d))
      → GoesOn P (followed r k)
  unfolding followed GoesOn
  GoesOn-followed P (ok t d) k h g = last (k d) (g d h)
    where
      last : (s : Run D (List ℕ)) → GoesOn P s → GoesOn P (and_then s (λ q d'. ok (t ++ q) d'))
      last (ok q d') p = p
      last (exited c d') p = p
  GoesOn-followed P (exited c d) k h g = tt

-- `n` units of an id from `lun` on, and the units of `n` ids from `id` on but for the own one.
unfoldable pub units : ℕ → ℕ → ℕ → List (ℕ × ℕ)
units zero id lun = []
units (suc n) id lun = (id, lun) ∷ units n id (lun + 1)

unfoldable pub targets : ℤ → ℕ → ℕ → List (ℕ × ℕ)
targets own zero id = []
targets own (suc n) id =
    let rest = targets own n (id + 1) in if pos id ==ℤ own then rest else units 8 id 0 ++ rest

module _ {D : Type 0} (lib : Library D) where
  -- The units of a list, one after the other.
  unfoldable pub probe_all : List (ℕ × ℕ) → Cmd D (List ℕ)
  unfolding followed
  probe_all [] d = ok [] d
  probe_all ((id, lun) ∷ rest) d = followed (probe_unit lib id lun d) (probe_all rest)

  -- The own address that the library keeps does not change by commands.
  abbrev pub IsSteady : (D → ℤ) → Type 0
  IsSteady scsi_id =
      (a : Address) (c : Command) (d : D) → scsi_id (lib.scsi_command a c d).1 ≡ scsi_id d

  everywhere : (r : Run D (List ℕ)) → GoesOn (λ _. Unit {0}) r
  unfolding GoesOn
  everywhere (ok t d) = tt
  everywhere (exited c d) = tt

  probe_all-append :
      (xs ys : List (ℕ × ℕ)) (d : D)
      → probe_all (xs ++ ys) d ≡ followed (probe_all xs d) (probe_all ys)
  unfolding probe_all followed
  probe_all-append [] ys d = sym (nothing_first (probe_all ys d))
  probe_all-append ((id, lun) ∷ xs) ys d =
      followed_cong (λ _. Unit {0}) (probe_unit lib id lun d) (probe_all (xs ++ ys))
        (λ t. followed (probe_all xs t) (probe_all ys)) (everywhere (probe_unit lib id lun d))
        (λ t _. probe_all-append xs ys t)
      ∙ sym (followed_assoc (probe_unit lib id lun d) (probe_all xs) (probe_all ys))

  probe_units-units :
      (n id lun : ℕ) (d : D) → probe_units lib n id lun d ≡ probe_all (units n id lun) d
  unfolding probe_units probe_all units followed
  probe_units-units zero id lun d = refl
  probe_units-units (suc n) id lun d =
      followed_cong (λ _. Unit {0}) (probe_unit lib id lun d) (probe_units lib n id (lun + 1))
        (probe_all (units n id (lun + 1))) (everywhere (probe_unit lib id lun d))
        (λ t _. probe_units-units n id (lun + 1) t)

  module _ (scsi_id : D → ℤ) (steady : IsSteady scsi_id) (own : ℤ) where
    abbrev Owned : D → Type 0
    Owned d = scsi_id d ≡ own

    probe_unit_keeps : (id lun : ℕ) (d : D) → Owned d → GoesOn Owned (probe_unit lib id lun d)
    unfolding probe_unit GoesOn
    probe_unit_keeps id lun d h =
        either (is_shown answer.0) (row id lun (inquiry_data answer.0.0)) answer.1
          (steady address (inquiry_of address) d ∙ h)
      where
        address : Address
        address = record { id = pos id; lun = pos lun }

        answer : (Command × ℤ) × D
        answer = lib.scsi_command address (inquiry_of address) d

        either :
            (b : Bool) (text : List ℕ) (t : D)
            → Owned t
            → GoesOn Owned (if◌then◌else◌ {A = Cmd D (List ℕ)} b (λ s. ok text s) (λ s. ok [] s) t)
        either true text t k = k
        either false text t k = k

    probe_all_keeps : (ts : List (ℕ × ℕ)) (d : D) → Owned d → GoesOn Owned (probe_all ts d)
    unfolding probe_all GoesOn
    probe_all_keeps [] d h = h
    probe_all_keeps ((id, lun) ∷ ts) d h =
        GoesOn-followed Owned (probe_unit lib id lun d) (probe_all ts) (probe_unit_keeps id lun d h)
          (probe_all_keeps ts)

    -- The loops of `main` over `n` ids from `id` on probe the units of the targets in their order,
    -- each once, provided that the commands leave the library's own address as it is.
    pub probe_ids-targets :
        (n id : ℕ) (d : D)
        → scsi_id d ≡ own
        → probe_ids lib scsi_id n id d ≡ probe_all (targets own n id) d
    unfolding probe_ids probe_all targets followed
    probe_ids-targets zero id d h = refl
    probe_ids-targets (suc n) id d h = rw h (elim (Bool-cases (pos id ==ℤ own)) [
      | inl e ↦
          rw e
            (nothing_first (probe_ids lib scsi_id n (id + 1) d) ∙ probe_ids-targets n (id + 1) d h)
      | inr e ↦ rw e (
          rw (probe_units-units 8 id 0 d) (
            followed_cong Owned (probe_all (units 8 id 0) d) (probe_ids lib scsi_id n (id + 1))
              (probe_all (targets own n (id + 1))) (probe_all_keeps (units 8 id 0) d h)
              (probe_ids-targets n (id + 1))
            ∙ sym (probe_all-append (units 8 id 0) (targets own n (id + 1)) d)))
    ])
