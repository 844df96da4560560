-- ===== src/Disktest/Working.antt =====
-- The whole disk test of TTM50/EXAMPLES/DISKTEST.C on a disk that works.
use ttm.Prelude.{
  ℕ, zero, suc, ◌*◌, ◌%◌, ◌≤◌, ◌≡◌, refl, Bool, true, false, ◌||◌, Option, some, List, pos, is_neg,
  ◌==ℤ◌, length, length-overwrite, word_add, eq→==, arith,
}
use ttm.Prelude.Run.{Run, ok, exited, and_then}
use ttm.Scsi.{Address, sdev_direct_access}
use ttm.Scsi.Library.{Library, Device}
use ttm.Disktest.{
  Args, defaults, parse, plan, rounds, pattern_bytes, value_start, trials, finish, test_memory,
  test_blocks, test_device, run_test, main,
}
use ttm.Disktest.FillTest.{IsStore, set_up, fill_test-passes}

-- The library finds a disk at the address, and gives memory of the size. The disk takes one transfer
-- of so many blocks of that size together, and keeps what is written.
pub record IsDisk {D : Type 0} (lib : Library D) (address : Address) (device : Device)
    (blocks size : ℕ) : Type 0 where
  pub initialises :
      (d : D)
      → (is_neg (lib.scsi_initialise d).0 || ((lib.scsi_initialise d).0 ==ℤ address.id)) ≡ false
  pub finds : (d : D) → (lib.scsi_find_device address d).0 ≡ some device
  pub direct : device.type ≡ sdev_direct_access
  pub gives :
      (d : D)
      → (memory : List ℕ) × (((lib.scsi_malloc size d).0 ≡ some memory) × (size ≤ length memory))
  pub stores : (d : D) → IsStore lib address blocks size d

-- What the program has come to after some trials that passed.
abbrev pub Finished : {D : Type 0} → Bool → Run D (Unit {0}) → Type 0
Finished true r = (d : _) × (r ≡ ok tt d)
Finished false r = (d : _) × (r ≡ exited (pos 0) d)

module _ {D : Type 0} (lib : Library D) (address : Address) (device : Device) (blocks size : ℕ)
    (disk : IsDisk lib address device blocks size) where
  trials-pass :
      (fuel : ℕ) (continuous : Bool) (memory : List ℕ) (d : D)
      → rounds size * 4 ≤ length memory
      → Finished continuous
          (and_then (trials lib (suc fuel) continuous address blocks memory size d) (finish lib))
  unfolding trials finish
  trials-pass fuel false memory d l =
      let t = fill_test-passes lib address blocks size memory d (disk.stores d) l in rw t (_, refl)
  trials-pass zero true memory d l =
      let t = fill_test-passes lib address blocks size memory d (disk.stores d) l in rw t (_, refl)
  trials-pass (suc fuel) true memory d l =
      let t = fill_test-passes lib address blocks size memory d (disk.stores d) l in
      rw t (
        trials-pass fuel true (set_up lib address blocks size memory) _
          (omega (arith, l, length-overwrite (pattern_bytes (rounds size) value_start) memory)))

  test_memory-passes :
      (fuel : ℕ) (continuous : Bool) (memory : Option (List ℕ)) (m : List ℕ) (d : D)
      → memory ≡ some m
      → size % 4 ≡ 0
      → size ≤ length m
      → Finished continuous (test_memory lib (suc fuel) continuous address blocks size memory d)
  unfolding test_memory
  test_memory-passes fuel continuous memory m d e w l =
      rw e (trials-pass fuel continuous m d (omega (arith, w, l)))

abbrev pub address_of : Args → Address
address_of args = record { id = args.id; lun = args.lun }

module _ {D : Type 0} (lib : Library D) (args : Args) (device : Device) (blocks : ℕ)
    (disk : IsDisk lib (address_of args) device blocks (blocks * device.block_size args.lun)) where
  run_test-passes :
      (fuel : ℕ) (d : D)
      → blocks * device.block_size args.lun % 4 ≡ 0
      → plan (device.block_size args.lun) (word_add (device.last_block args.lun) 1) ≡ some blocks
      → Finished args.continuous (run_test lib (suc fuel) args d)
  unfolding run_test test_device test_blocks
  run_test-passes fuel d w n =
      let d1 = (lib.scsi_initialise d).1 in
      let d2 = (lib.scsi_reset_bus d1).1 in
      let d3 = (lib.scsi_find_device (address_of args) d2).1 in
      let size = blocks * device.block_size args.lun in
      let (m, (e, l)) = disk.gives d3 in
      rw (disk.initialises d, disk.finds d2, eq→== device.type sdev_direct_access disk.direct, n)
        (test_memory-passes lib (address_of args) device blocks size disk fuel args.continuous _ m
          (lib.scsi_malloc size d3).1 e w l)

  -- With arguments that name a disk whose geometry is accepted, and which takes a transfer of the
  -- planned blocks and keeps what is written, the disk test ends with exit code 0 or, if the
  -- arguments ask for it, goes on for as many trials as there is fuel. The library gives memory of
  -- the size of these blocks, which is a multiple of 4; with another size the test would store
  -- behind the buffer.
  pub main-passes :
      (fuel : ℕ) (arguments : List (List ℕ)) (d : D)
      → parse arguments defaults ≡ ok tt args
      → blocks * device.block_size args.lun % 4 ≡ 0
      → plan (device.block_size args.lun) (word_add (device.last_block args.lun) 1) ≡ some blocks
      → Finished args.continuous (main lib (suc fuel) arguments d)
  unfolding main
  main-passes fuel arguments d p w n = rw (main, p) (run_test-passes fuel d w n)
