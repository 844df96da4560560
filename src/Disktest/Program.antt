-- ===== src/Disktest/Program.antt =====
-- How TTM50/EXAMPLES/DISKTEST.C ends.
use ttm.Prelude.{
  ℕ, suc, zero, ◌*◌, ◌≡◌, ◌≢◌, refl, ◌⊎◌, inl, inr, Bool, true, false, ◌||◌, Option, none, some,
  List, ℤ, pos, ◌==◌, ◌==ℤ◌, is_neg, word_add, Bool-cases, ==→eq,
}
use ttm.Prelude.Run.{Run, ok, exited, Cmd, and_then}
use ttm.Scsi.{Address, sdev_direct_access}
use ttm.Scsi.Library.{Library, Device}
use ttm.Disktest.{
  Args, defaults, parse, plan, fill_test, trials, finish, test_memory, test_blocks, test_device,
  run_test, main,
}
use ttm.Disktest.FillTest.{Tested, fill_test-Tested}
use ttm.Disktest.Arguments.{IsInRange, Settled, parse-Settled}

-- A run either goes on, in continuous mode alone, or it has ended: with exit code 1, or with exit
-- code 0 when it is not in continuous mode.
abbrev pub Ends : {D : Type 0} → Bool → Run D (Unit {0}) → Type 0
Ends continuous (ok _ d) = continuous ≡ true
Ends continuous (exited code d) = (code ≡ pos 1) ⊎ ((code ≡ pos 0) × (continuous ≡ false))

module _ {D : Type 0} (lib : Library D) where
  once-Ends :
      (r : Run D (List ℕ))
      → Tested r
      → Ends false (and_then (and_then r (λ memory d'. ok (some memory) d')) (finish lib))
  unfolding finish
  once-Ends (ok left d) t = inr (refl, refl)
  once-Ends (exited code d) t = inl t

  more-Ends :
      (r : Run D (List ℕ)) (next : List ℕ → Cmd D (Option (List ℕ)))
      → Tested r
      → ((left : List ℕ) (d : D) → Ends true (and_then (next left d) (finish lib)))
      → Ends true (and_then (and_then r next) (finish lib))
  more-Ends (ok left d) next t h = h left d
  more-Ends (exited code d) next t h = inl t

  module _ (address : Address) (blocks size : ℕ) where
    continuous-Ends :
        (fuel : ℕ) (memory : List ℕ) (d : D)
        → Ends true (and_then (trials lib fuel true address blocks memory size d) (finish lib))
    unfolding trials finish
    continuous-Ends zero memory d = refl
    continuous-Ends (suc fuel) memory d =
        more-Ends (fill_test lib address blocks memory size d)
          (λ left d'. trials lib fuel true address blocks left size d')
          (fill_test-Tested lib address blocks size memory d) (continuous-Ends fuel)

    trials-Ends :
        (fuel : ℕ) (continuous : Bool) (memory : List ℕ) (d : D)
        → Ends continuous
            (and_then (trials lib (suc fuel) continuous address blocks memory size d) (finish lib))
    unfolding trials
    trials-Ends fuel true memory d = continuous-Ends (suc fuel) memory d
    trials-Ends fuel false memory d =
        once-Ends (fill_test lib address blocks memory size d)
          (fill_test-Tested lib address blocks size memory d)

  module _ (fuel : ℕ) (continuous : Bool) (address : Address) where
    test_memory-Ends :
        (blocks size : ℕ) (memory : Option (List ℕ)) (d : D)
        → Ends continuous (test_memory lib (suc fuel) continuous address blocks size memory d)
    unfolding test_memory
    test_memory-Ends blocks size none d = inl refl
    test_memory-Ends blocks size (some memory) d =
        trials-Ends address blocks size fuel continuous memory d

    test_blocks-Ends :
        (block_size : ℕ) (blocks : Option ℕ) (d : D)
        → Ends continuous (test_blocks lib (suc fuel) continuous address block_size blocks d)
    unfolding test_blocks
    test_blocks-Ends block_size none d = inl refl
    test_blocks-Ends block_size (some blocks) d = test_memory-Ends blocks (blocks * block_size) _ _

    test_device-Ends :
        (device : Option Device) (d : D)
        → Ends continuous (test_device lib (suc fuel) continuous address device d)
    unfolding test_device
    test_device-Ends none d = inl refl
    test_device-Ends (some device) d = elim (Bool-cases (device.type == sdev_direct_access)) [
      | inl e ↦ rw e (
          test_blocks-Ends (device.block_size address.lun)
            (plan (device.block_size address.lun) (word_add (device.last_block address.lun) 1)) d)
      | inr e ↦ rw e (inl refl)
    ]

  -- Behind its arguments the program ends with exit code 1 or, if it is not in continuous mode,
  -- with 0; it does not end only in continuous mode, while every trial passes. One trial as fuel
  -- is enough for that.
  pub run_test-Ends :
      (fuel : ℕ) (args : Args) (d : D) → Ends args.continuous (run_test lib (suc fuel) args d)
  unfolding run_test
  run_test-Ends fuel args d =
      let (id, d1) = lib.scsi_initialise d in
      let d2 = (lib.scsi_reset_bus d1).1 in
      let address : Address = record { id = args.id; lun = args.lun } in
      let (device, d3) = lib.scsi_find_device address d2 in
      elim (Bool-cases (is_neg id || (id ==ℤ args.id))) [
        | inl e ↦ rw e (inl refl)
        | inr e ↦ rw e (test_device-Ends fuel args.continuous address device d3)
      ]

  -- The whole program: arguments that it refuses, or that ask for help, end it with exit code 0 or
  -- 1 before it calls the SCSI library; others leave an id and a logical unit number from 0 to 7,
  -- and then the program ends with exit code 1 or, if it is not in continuous mode, with 0, or it
  -- goes on in continuous mode. One trial as fuel is enough for that.
  pub main-Ends :
      (fuel : ℕ) (arguments : List (List ℕ)) (d : D)
      → ((code : ℤ) × (main lib (suc fuel) arguments d ≡ exited code d)
          × ((code ≡ pos 0) ⊎ (code ≡ pos 1)))
        ⊎ ((args : Args) × IsInRange args
            × (main lib (suc fuel) arguments d ≡ run_test lib (suc fuel) args d)
            × Ends args.continuous (main lib (suc fuel) arguments d))
  unfolding main
  main-Ends fuel arguments d =
      go (parse arguments defaults)
        (parse-Settled arguments defaults (record { id = refl; lun = refl }))
    where
      go :
          (r : Run Args (Unit {0}))
          → Settled r
          → let whole : Run D (Unit {0}) = elim r [
            | ok _ args ↦ run_test lib (suc fuel) args d
            | exited code args ↦ exited code d
          ] in
            ((code : ℤ) × (whole ≡ exited code d) × ((code ≡ pos 0) ⊎ (code ≡ pos 1)))
            ⊎ ((args : Args) × IsInRange args
                × (whole ≡ run_test lib (suc fuel) args d)
                × Ends args.continuous whole)
      go (ok u args) s = inr (args, s, refl, run_test-Ends fuel args d)
      go (exited code args) s = inl (code, refl, s)

  one_not_zero :
      {A : Type 0} {code : ℤ} {d d' : D}
      → code ≡ pos 1
      → ◌≢◌ {A = Run D A} (exited code d) (exited (pos 0) d')
  one_not_zero e h = cc

  passed_of_zero :
      (r : Run D (List ℕ)) {d' : D}
      → Tested r
      → and_then (and_then r (λ memory e. ok (some memory) e)) (finish lib) ≡ exited (pos 0) d'
      → (left : List ℕ) × (e : D) × (r ≡ ok left e)
  passed_of_zero (ok left e) t h = (left, e, refl)
  passed_of_zero (exited code e) t h = absurd (one_not_zero t h)

  not_zero : {d' : D} (r : Run D (Unit {0})) → Ends true r → r ≢ exited (pos 0) d'
  not_zero (ok u d) e h = cc
  not_zero (exited code d) (inl e) h = one_not_zero e h
  not_zero (exited code d) (inr e) h = cc

  -- There was memory of this size, and a passed trial on it.
  abbrev pub Passed : Address → ℕ → ℕ → Option (List ℕ) → D → Type 0
  Passed address blocks block_size memory d =
      (m : List ℕ) × (left : List ℕ) × (e : D) × (memory ≡ some m)
      × (fill_test lib address blocks m (blocks * block_size) d ≡ ok left e)

  module _ (fuel : ℕ) (address : Address) {d' : D} where
    test_memory-zero :
        (continuous : Bool) (blocks block_size : ℕ) (memory : Option (List ℕ)) (d : D)
        → test_memory lib (suc fuel) continuous address blocks (blocks * block_size) memory d
          ≡ exited (pos 0) d'
        → Passed address blocks block_size memory d
    unfolding test_memory trials
    test_memory-zero c blocks block_size none d h = cc
    test_memory-zero true blocks block_size (some m) d h =
        absurd (not_zero _ (trials-Ends address blocks (blocks * block_size) fuel true m d) h)
    test_memory-zero false blocks block_size (some m) d h =
        let (left, e, p) =
          passed_of_zero (fill_test lib address blocks m (blocks * block_size) d)
            (fill_test-Tested lib address blocks (blocks * block_size) m d) h in
        (m, left, e, refl, p)

    test_blocks-zero :
        (continuous : Bool) (block_size : ℕ) (blocks : Option ℕ) (d : D)
        → test_blocks lib (suc fuel) continuous address block_size blocks d ≡ exited (pos 0) d'
        → (n : ℕ) × (blocks ≡ some n)
          × Passed address n block_size
              (lib.scsi_malloc (n * block_size) d).0
              (lib.scsi_malloc (n * block_size) d).1
    unfolding test_blocks
    test_blocks-zero c block_size none d h = cc
    test_blocks-zero c block_size (some n) d h = (n, refl, test_memory-zero c n block_size _ _ h)

    test_device-zero :
        (continuous : Bool) (device : Option Device) (d : D)
        → test_device lib (suc fuel) continuous address device d ≡ exited (pos 0) d'
        → (disk : Device) × (n : ℕ) × (device ≡ some disk)
          × (disk.type ≡ sdev_direct_access)
          × (plan (disk.block_size address.lun) (word_add (disk.last_block address.lun) 1) ≡ some n)
          × Passed address n
              (disk.block_size address.lun)
              (lib.scsi_malloc (n * disk.block_size address.lun) d).0
              (lib.scsi_malloc (n * disk.block_size address.lun) d).1
    unfolding test_device
    test_device-zero c none d h = cc
    test_device-zero c (some disk) d h = elim (Bool-cases (disk.type == sdev_direct_access)) [
      | inl e ↦
          let (n, p, q) = test_blocks-zero c _ _ d (rw e at h) in (disk, n, refl, ==→eq _ _ e, p, q)
      | inr e ↦ absurd (one_not_zero refl (rw e at h))
    ]

  -- Behind its arguments the program ends with exit code 0 only if the library was initialised
  -- with another id than the disk's, the device found at the address is a disk whose geometry was
  -- accepted, memory for its buffer was there, and the fill test on that memory passed.
  pub run_test-zero :
      (fuel : ℕ) (args : Args) (d : D) {d' : D}
      → run_test lib (suc fuel) args d ≡ exited (pos 0) d'
      → let (id, d1) = lib.scsi_initialise d in
        let address : Address = record { id = args.id; lun = args.lun } in
        let (device, d2) = lib.scsi_find_device address (lib.scsi_reset_bus d1).1 in
        ((is_neg id || (id ==ℤ args.id)) ≡ false)
        × ((disk : Device) × (n : ℕ) × (device ≡ some disk)
            × (disk.type ≡ sdev_direct_access)
            × (plan (disk.block_size args.lun) (word_add (disk.last_block args.lun) 1) ≡ some n)
            × Passed address n
                (disk.block_size args.lun)
                (lib.scsi_malloc (n * disk.block_size args.lun) d2).0
                (lib.scsi_malloc (n * disk.block_size args.lun) d2).1)
  unfolding run_test
  run_test-zero fuel args d h =
      elim (Bool-cases
        (is_neg (lib.scsi_initialise d).0 || ((lib.scsi_initialise d).0 ==ℤ args.id))) [
          | inl e ↦ absurd (one_not_zero refl (rw e at h))
          | inr e ↦ (
            e,
            test_device-zero fuel (record { id = args.id; lun = args.lun }) args.continuous _ _
                (rw e at h),
          )
        ]
