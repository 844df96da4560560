-- ===== src/Ready/Examples.antt =====
-- The program of TTM50/EXAMPLES/TEST.C on a library whose unit is ready.
use ttm.Prelude.{ℕ, none, pos, ◌≡◌, refl}
use ttm.Prelude.Run.{ok}
use ttm.Scsi.Library.{Library}
use ttm.Ready.{main}
use ttm.Ready.Outcome.{Outcome, own, replied, main-Outcome}

abbrev library : Library ℕ
library = record {
  scsi_initialise = λ d. (pos 7, d);
  scsi_reset_bus = λ d. (tt, d);
  scsi_find_device = λ a d. (none, d);
  scsi_command = λ a c d. ((record c { status = 2 }, pos 0), d);
  scsi_malloc = λ n d. (none, d);
  scsi_free = λ d. (tt, d);
}

main_test : main library 0 ≡ ok 2 0
unfolding main
main_test = refl

main-Outcome_example : Outcome (own library 0) ((replied library 0).0) (main library 0)
main-Outcome_example = main-Outcome library 0
