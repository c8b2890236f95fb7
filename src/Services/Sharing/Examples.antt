-- ===== src/Services/Sharing/Examples.antt =====
-- The switch of the share view, run (backend/app/services/share.py).
use cabinet_numismatics.Prelude.{◌≡◌, refl, true, false, some, [], ◌∷◌, arith}
use cabinet_numismatics.Services.Sharing.{set_enabled, finish_load}
use cabinet_numismatics.Services.Sharing.Tasks.{
  System, holding, first, finish, PutStep, Steps, here, next,
}
use cabinet_numismatics.Services.Sharing.Safety.{set_enabled-stays_off}
use cabinet_numismatics.Services.Sharing.Races.{IsLeftOn, puts-IsLeftOn}

-- The switch has just been taken off in the database, while a load holds the value from before.
abbrev overtaken : System
overtaken = record {
  db = false;
  memory = record { enabled = some true; generation = 4 };
  tasks = holding 4 true ∷ [];
}

abbrev stored_off : System
stored_off = record overtaken { memory = set_enabled false overtaken.memory }

set_enabled-stays_off_example : (finish_load 4 true stored_off.memory).0.enabled ≡ some false
unfolding set_enabled finish_load
set_enabled-stays_off_example =
    set_enabled-stays_off overtaken
      (record stored_off { memory = (finish_load 4 true stored_off.memory).0; tasks = [] })
      (omega arith, tt) (tt, tt) refl (next here (finish stored_off 4 true [] (first [])))

abbrev switched_on : System
switched_on = record {
  db = true;
  memory = record { enabled = some true; generation = 4 };
  tasks = [];
}

puts-IsLeftOn_example : (t : System) × Steps PutStep switched_on t × IsLeftOn switched_on t
puts-IsLeftOn_example = puts-IsLeftOn switched_on
