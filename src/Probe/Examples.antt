-- ===== src/Probe/Examples.antt =====
-- The probe of TTM50/EXAMPLES/PROBE.C on a bus with one device, with tests and the theorems at
-- concrete inputs.
use ttm.Prelude.{ℕ, ◌≡◌, refl, none, List, [], ◌∷◌, ◌++◌, pos, ℤ, ◌==ℤ◌, codes, if◌then◌else◌}
use ttm.Prelude.Run.{ok}
use ttm.Scsi.{Address, Command}
use ttm.Scsi.Library.{Library}
use ttm.Probe.{is_shown, inquiry_of, row, probe_unit, probe_ids, main}
use ttm.Probe.Order.{targets, probe_all, probe_ids-targets}
use ttm.Probe.Scan.{Reported, main-Reported}

-- A disk.
abbrev reply : List ℕ
reply =
    (0 ∷ 0 ∷ 2 ∷ 2 ∷ 31 ∷ 0 ∷ 0 ∷ 0 ∷ [])
    ++ (codes "MAXTOR  " ++ (codes "7213-SCSI       " ++ codes "1.00"))

abbrev answer : Address → Command → ℕ → (Command × ℤ) × ℕ
answer a c d = if a.id ==ℤ pos 3 then ((record c { bytes = reply }, pos 0), d) else ((c, pos 1), d)

abbrev library : Library ℕ
library = record {
  scsi_initialise = λ d. (pos 7, d);
  scsi_reset_bus = λ d. (tt, d);
  scsi_find_device = λ a d. (none, d);
  scsi_command = answer;
  scsi_malloc = λ n d. (none, d);
  scsi_free = λ d. (tt, d);
}

abbrev own : ℕ → ℤ
own d = pos 7

probe_unit_test :
    probe_unit library 3 0 0
    ≡ ok (codes " 3  0  Direct Access     MAXTOR   7213-SCSI        1.00" ++ (10 ∷ [])) 0
unfolding probe_unit is_shown inquiry_of row
probe_unit_test = refl

main-Reported_example : Reported (main library own [] 0)
main-Reported_example = main-Reported library own [] 0

probe_ids-targets_example : probe_ids library own 8 0 0 ≡ probe_all library (targets (pos 7) 8 0) 0
probe_ids-targets_example = probe_ids-targets library own (λ a c d. refl) (pos 7) 8 0 0 refl
