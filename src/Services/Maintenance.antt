-- ===== src/Services/Maintenance.antt =====
-- Maintenance (backend/app/services/maintenance.py), the gate behind its middleware
-- (backend/app/auth/gate.py), and the restore that asks for it (start and _run of
-- backend/app/services/restore.py, as far as these go). Requests, scheduled loops and the
-- restore are threads; an action is what one of them does between two points where another may go on.
pub mod Draining
pub mod Gaps
pub mod Examples
use cabinet_numismatics.Prelude.{
  ℕ, ◌+◌, ◌-◌, Bool, true, false, not, ◌&&◌, Option, none, some, List, [], ◌∷◌, ltb, ◌==◌,
  if◌then◌else◌,
}

-- Where the scheduled loop is that holds `_scheduled`.
pub data Holder : Type 0 where
  nobody : Holder
  acquired : Holder
  working : Holder
  sitting_out : Holder

-- Where the restore is.
pub data Phase : Type 0 where
  resting : Phase
  accepted : Phase
  entered : Phase
  drained : Phase
  ran_out : Phase

-- `_on`, `_in_flight` and the holder of `_scheduled`; how many requests are past the test of `_on` and
-- not counted yet, how many are counted and not past the gate, how many the gate has let through, and
-- how many loops are past their first test. Requests of the exempt and the restore paths, which are
-- not counted, are left out.
pub record State : Type 0 where
  pub on : Bool
  pub in_flight : ℕ
  pub holder : Holder
  pub tested : ℕ
  pub counted : ℕ
  pub served : ℕ
  pub loops : ℕ
  pub phase : Phase

pub data Action : Type 0 where
  -- a request finds `active()` false, is counted, comes to the gate, which looks again, and ends
  test_request count_request gate_request end_request : Action
  -- a loop finds `active()` false, tries `_scheduled`, looks at `active()` again, and ends
  test_loop acquire_loop look_loop end_loop : Action
  -- the restore finds `scheduled_busy()` false, enters, sees no request in flight or waits too long,
  -- and leaves
  start_restore enter_restore drain_restore give_up_drain leave_restore : Action

abbrev pub is_nobody : Holder → Bool
is_nobody nobody = true
is_nobody acquired = false
is_nobody working = false
is_nobody sitting_out = false

-- `yield not active()`
unfoldable pub look : Bool → Holder → Option Holder
look on nobody = none
look on acquired = some (if on then sitting_out else working)
look on working = none
look on sitting_out = none

unfoldable pub let_go : Holder → Option Holder
let_go nobody = none
let_go acquired = none
let_go working = some nobody
let_go sitting_out = some nobody

abbrev pub with_holder : State → Option Holder → Option State
with_holder s none = none
with_holder s (some h) = some (record s { holder = h })

abbrev pub is_resting : Phase → Bool
is_resting resting = true
is_resting accepted = false
is_resting entered = false
is_resting drained = false
is_resting ran_out = false

abbrev pub is_accepted : Phase → Bool
is_accepted resting = false
is_accepted accepted = true
is_accepted entered = false
is_accepted drained = false
is_accepted ran_out = false

abbrev pub is_entered : Phase → Bool
is_entered resting = false
is_entered accepted = false
is_entered entered = true
is_entered drained = false
is_entered ran_out = false

-- The drain is over.
abbrev pub is_past : Phase → Bool
is_past resting = false
is_past accepted = false
is_past entered = false
is_past drained = true
is_past ran_out = true

-- One action; `none` where the thread cannot take it. A loop that does not get `_scheduled` ends.
unfoldable pub act : Action → State → Option State
act test_request s = if s.on then none else some (record s { tested = s.tested + 1 })
act count_request s =
    if ltb 0 s.tested
    then some
        (record s { tested = s.tested - 1; counted = s.counted + 1; in_flight = s.in_flight + 1 })
    else none
act gate_request s =
    if ltb 0 s.counted
    then some (
        if s.on
        then record s { counted = s.counted - 1; in_flight = s.in_flight - 1 }
        else record s { counted = s.counted - 1; served = s.served + 1 })
    else none
act end_request s =
    if ltb 0 s.served
    then some (record s { served = s.served - 1; in_flight = s.in_flight - 1 })
    else none
act test_loop s = if s.on then none else some (record s { loops = s.loops + 1 })
act acquire_loop s =
    if ltb 0 s.loops
    then some (
        if is_nobody s.holder
        then record s { loops = s.loops - 1; holder = acquired }
        else record s { loops = s.loops - 1 })
    else none
act look_loop s = with_holder s (look s.on s.holder)
act end_loop s = with_holder s (let_go s.holder)
act start_restore s =
    if is_resting s.phase && is_nobody s.holder then some (record s { phase = accepted }) else none
act enter_restore s =
    if is_accepted s.phase then some (record s { phase = entered; on = true }) else none
act drain_restore s =
    if is_entered s.phase && s.in_flight == 0 then some (record s { phase = drained }) else none
act give_up_drain s = if is_entered s.phase then some (record s { phase = ran_out }) else none
act leave_restore s =
    if is_past s.phase then some (record s { phase = resting; on = false }) else none

unfoldable pub run : List Action → State → Option State
run [] s = some s
run (a ∷ rest) s = elim (act a s) [ none ↦ none | some t ↦ run rest t ]
