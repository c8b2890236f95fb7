-- ===== src/Services/Maintenance/Gaps.antt =====
-- What a restore does not wait for (backend/app/services/maintenance.py and restore.py).
use cabinet_numismatics.Prelude.{◌≡◌, refl, true, false, some, List, [], ◌∷◌, arith}
use cabinet_numismatics.Services.Maintenance.{
  State, resting, drained, nobody, working, Action, test_loop, acquire_loop, look_loop,
  start_restore, enter_restore, drain_restore, act, run, look,
}

-- A loop begins between the restore's look at `scheduled_busy` and its entry.
abbrev pub beside : List Action
beside = start_restore ∷ test_loop ∷ acquire_loop ∷ look_loop ∷ enter_restore ∷ drain_restore ∷ []

-- From every state with no restore, no loop at work and no request in flight, a scheduled loop can
-- begin its work after the restore has found that none is busy and before it enters maintenance;
-- the restore drains and goes on with the loop at work beside it.
pub loop_beside_restore :
    (s : State)
    → s.on ≡ false
    → s.phase ≡ resting
    → s.holder ≡ nobody
    → s.in_flight ≡ 0
    → (t : State) × (run beside s ≡ some t) × (t.phase ≡ drained) × (t.holder ≡ working)
unfolding run act look
loop_beside_restore s off rest free none_in = (
  record s { on = true; holder = working; phase = drained },
  ground (arith, off, rest, free, none_in),
  refl,
  refl,
)
