-- ===== src/Probe/Scan.antt =====
-- The scan of the SCSI bus by TTM50/EXAMPLES/PROBE.C and its report.
use ttm.Prelude.{
  ℕ, zero, suc, ◌+◌, ◌*◌, ◌<◌, ◌≤◌, ◌≡◌, refl, sym, ap, ◌∙◌, ◌⊎◌, inl, inr, Bool, true, false, not,
  ◌&&◌, ◌||◌, List, [], ◌∷◌, ◌++◌, ℤ, pos, is_neg, ◌==◌, ◌==ℤ◌, arith, All, length, length-append,
  get_or, if◌then◌else◌,
}
use ttm.Prelude.Run.{Run, ok, exited, Cmd, and_then, pure}
use ttm.Scsi.{Address, Command}
use ttm.Scsi.Library.{Library}
use ttm.Probe.{
  row, is_shown, inquiry_of, inquiry_data, probe_unit, probe_units, probe_ids, usage_code, main,
}
use ttm.Probe.Row.{IsRow, row-IsRow, inquiry_data-IsData}

unfoldable pub joined : List (List ℕ) → List ℕ
joined [] = []
joined (r ∷ rs) = r ++ joined rs

-- At most `n` rows.
pub record IsTable (n : ℕ) (text : List ℕ) : Type 0 where
  pub rows : List (List ℕ)
  pub whole : text ≡ joined rows
  pub each : All IsRow rows
  pub count : length rows ≤ n

joined-append : (xs ys : List (List ℕ)) → joined (xs ++ ys) ≡ joined xs ++ joined ys
unfolding joined
joined-append [] ys = refl
joined-append (x ∷ xs) ys = ap (λ l. x ++ l) (joined-append xs ys) ∙ assoc x (joined xs) (joined ys)
  where
    assoc : (xs ys zs : List ℕ) → xs ++ (ys ++ zs) ≡ (xs ++ ys) ++ zs
    assoc [] ys zs = refl
    assoc (x ∷ xs) ys zs = ap (λ l. x ∷ l) (assoc xs ys zs)

rows-append : (xs ys : List (List ℕ)) → All IsRow xs → All IsRow ys → All IsRow (xs ++ ys)
rows-append [] ys h k = k
rows-append (x ∷ xs) ys h k = (h.0, rows-append xs ys h.1 k)

append-IsTable :
    (m n o : ℕ) (xs ys : List ℕ) → m + n ≡ o → IsTable m xs → IsTable n ys → IsTable o (xs ++ ys)
append-IsTable m n o xs ys s h k = record {
  rows = h.rows ++ k.rows;
  whole = (rw (h.whole, k.whole) refl) ∙ sym (joined-append h.rows k.rows);
  each = rows-append h.rows k.rows h.each k.each;
  count =
      let e = length-append h.rows k.rows in let low = h.count in let high = k.count in omega arith;
}

empty-IsTable : (n : ℕ) → IsTable n []
unfolding joined
empty-IsTable n = record { rows = []; whole = refl; each = tt; count = omega arith }

-- The run goes on, and has printed at most `n` rows.
abbrev pub Prints : {D : Type 0} → ℕ → Run D (List ℕ) → Type 0
Prints n (ok text _) = IsTable n text
Prints n (exited _ _) = ⊥

both-Prints :
    {D : Type 0} (m n o : ℕ) (r : Run D (List ℕ)) (next : Cmd D (List ℕ))
    → m + n ≡ o
    → Prints m r
    → ((d : D) → Prints n (next d))
    → Prints o (and_then r (λ text d. and_then (next d) (λ rest d'. ok (text ++ rest) d')))
both-Prints {D} m n o (exited code t) next s h k = h
both-Prints {D} m n o (ok text t) next s h k = join (next t) (k t)
  where
    join :
        (r : Run D (List ℕ)) → Prints n r → Prints o (and_then r (λ rest d'. ok (text ++ rest) d'))
    join (ok rest t') p = append-IsTable m n o text rest s h p
    join (exited code t') p = p

shown-Prints :
    {D : Type 0} (b : Bool) (text : List ℕ) (d : D)
    → IsRow text
    → Prints 1 (if◌then◌else◌ {A = Cmd D (List ℕ)} b (pure text) (pure []) d)
unfolding joined
shown-Prints true text d h = record {
  rows = text ∷ [];
  whole = append_nil text;
  each = (h, tt);
  count = omega arith;
}
  where
    append_nil : (xs : List ℕ) → xs ≡ xs ++ []
    append_nil [] = refl
    append_nil (x ∷ xs) = ap (λ l. x ∷ l) (append_nil xs)
shown-Prints false text d h = empty-IsTable 1

usage_code_cases :
    (argument : List ℕ) → (usage_code argument ≡ pos 0) ⊎ (usage_code argument ≡ pos 1)
unfolding usage_code
usage_code_cases argument = cases (
    ((get_or argument 0 0 == b'-') || (get_or argument 0 0 == b'/'))
    && ((get_or argument 1 0 == b'h') || (get_or argument 1 0 == b'H')))
  where
    cases :
        (b : Bool) → ((if b then pos 0 else pos 1) ≡ pos 0) ⊎ ((if b then pos 0 else pos 1) ≡ pos 1)
    cases true = inl refl
    cases false = inr refl

-- The report of `main`: at most 64 rows, or an exit code.
abbrev pub Reported : {D : Type 0} → Run D (List ℕ) → Type 0
Reported (ok text _) = IsTable 64 text
Reported (exited code _) = (code ≡ pos 0) ⊎ (code ≡ pos 1)

module _ {D : Type 0} (lib : Library D) where
  -- For an id and a unit below 8, whatever the device answers, `probe_unit` prints nothing, or one
  -- row of 55 printable characters and a newline.
  pub probe_unit-Prints :
      (id lun : ℕ) (d : D) → id < 8 → lun < 8 → Prints 1 (probe_unit lib id lun d)
  unfolding probe_unit
  probe_unit-Prints id lun d h k =
      shown-Prints (is_shown (answer.0)) (row id lun (inquiry_data (answer.0.0))) (answer.1)
        (row-IsRow id lun (inquiry_data (answer.0.0)) h k (inquiry_data-IsData (answer.0.0)))
    where
      address : Address
      address = record { id = pos id; lun = pos lun }

      answer : (Command × ℤ) × D
      answer = lib.scsi_command address (inquiry_of address) d

  probe_units-Prints :
      (n id lun : ℕ) (d : D) → id < 8 → lun + n ≤ 8 → Prints n (probe_units lib n id lun d)
  unfolding probe_units
  probe_units-Prints zero id lun d h k = empty-IsTable 0
  probe_units-Prints (suc n) id lun d h k =
      both-Prints 1 n (suc n) (probe_unit lib id lun d) (probe_units lib n id (lun + 1))
        (omega arith) (probe_unit-Prints id lun d h (omega arith))
        (λ t. probe_units-Prints n id (lun + 1) t h (omega arith))

  if-Prints :
      (b : Bool) (n : ℕ) (r : Run D (List ℕ)) (d : D)
      → Prints n r
      → Prints n (if b then r else ok [] d)
  if-Prints true n r d h = h
  if-Prints false n r d h = empty-IsTable n

  probe_ids-Prints :
      (scsi_id : D → ℤ) (n id : ℕ) (d : D)
      → id + n ≤ 8
      → Prints (n * 8) (probe_ids lib scsi_id n id d)
  unfolding probe_ids
  probe_ids-Prints scsi_id zero id d k = empty-IsTable 0
  probe_ids-Prints scsi_id (suc n) id d k =
      both-Prints 8 (n * 8) (suc n * 8) _ (probe_ids lib scsi_id n (id + 1)) (omega arith)
        (if-Prints (not (pos id ==ℤ scsi_id d)) 8 (probe_units lib 8 id 0 d) d
          (probe_units-Prints 8 id 0 d (omega arith) (omega arith)))
        (λ t. probe_ids-Prints scsi_id n (id + 1) t (omega arith))

  -- Whatever the devices answer, the probe ends with exit code 0 or 1, or prints at most 64 rows,
  -- each of 55 printable characters and a newline, and nothing else below the header.
  pub main-Reported :
      (scsi_id : D → ℤ) (arguments : List (List ℕ)) (d : D)
      → Reported (main lib scsi_id arguments d)
  unfolding main
  main-Reported scsi_id (argument ∷ rest) d = usage_code_cases argument
  main-Reported scsi_id [] d = start (is_neg (lib.scsi_initialise d).0) (lib.scsi_initialise d).1
    where
      printed : (r : Run D (List ℕ)) → Prints 64 r → Reported r
      printed (ok text t) h = h
      printed (exited code t) h = absurd h

      start :
          (b : Bool) (t : D)
          → Reported (
              if◌then◌else◌ {A = Cmd D (List ℕ)} b
                (λ s. exited (pos 1) s)
                (λ s. probe_ids lib scsi_id 8 0 (lib.scsi_reset_bus s).1)
                t)
      start true t = inr refl
      start false t =
          printed (probe_ids lib scsi_id 8 0 (lib.scsi_reset_bus t).1)
            (probe_ids-Prints scsi_id 8 0 (lib.scsi_reset_bus t).1 (omega arith))
