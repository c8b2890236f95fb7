-- ===== src/Services/Maintenance/Examples.antt =====
-- Maintenance, run (backend/app/services/maintenance.py).
use cabinet_numismatics.Prelude.{◌≡◌, refl, true, false, some, List, [], ◌∷◌}
use cabinet_numismatics.Services.Maintenance.{
  State, resting, drained, nobody, working, Action, test_request, count_request, gate_request,
  start_restore, enter_restore, drain_restore, act, run,
}
use cabinet_numismatics.Services.Maintenance.Draining.{drain-quiet}
use cabinet_numismatics.Services.Maintenance.Gaps.{beside, loop_beside_restore}

abbrev idle : State
idle = record {
  on = false;
  in_flight = 0;
  holder = nobody;
  tested = 0;
  counted = 0;
  served = 0;
  loops = 0;
  phase = resting;
}

-- A request finds maintenance off and is counted only after the drain.
abbrev late_request : List Action
late_request =
    test_request ∷ start_restore ∷ enter_restore ∷ drain_restore ∷ count_request ∷ gate_request ∷ []

abbrev after_late : State
after_late = record idle { on = true; phase = drained }

drain-quiet_example : (after_late.on ≡ true) × (after_late.served ≡ 0)
unfolding run act
drain-quiet_example =
    drain-quiet late_request idle after_late (record { right_count = refl; quiet = refl }) refl refl

loop_beside_restore_example :
    (t : State) × (run beside idle ≡ some t) × (t.phase ≡ drained) × (t.holder ≡ working)
loop_beside_restore_example = loop_beside_restore idle refl refl refl refl
