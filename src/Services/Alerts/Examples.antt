-- ===== src/Services/Alerts/Examples.antt =====
-- Alerts on concrete calls (backend/app/services/alerts.py).
use cabinet_numismatics.Services.Alerts.Machine.{step}
use cabinet_numismatics.Services.Alerts.{fail, notify, recover, source_failed, source_ok}
use cabinet_numismatics.Prelude.Text.{append_text, take_text}
use cabinet_numismatics.Prelude.Dict.{put}
use cabinet_numismatics.Prelude.{◌≡◌, refl, false, List, [], ◌∷◌}
use cabinet_numismatics.Prelude.Dict.{get}
use cabinet_numismatics.Services.Alerts.{Alerts, starts_failing, recovered}
use cabinet_numismatics.Services.Alerts.Machine.{
  Call, on_fail, on_source_failed, on_source_ok, run, said, state_of, machine_run,
  run-refines-machine,
}

abbrev quiet : Alerts
quiet = record { states = []; webhook = "https://hook.example/x" }

-- A key is refused twice, and a backup fails in between; then the source answers.
abbrev bad_day : List Call
bad_day =
    on_source_failed 1 "pcgs" "key" "refused"
    ∷ on_fail 2 "backup" "disk full"
    ∷ on_source_failed 3 "pcgs" "key" "still refused"
    ∷ on_source_ok 4 "pcgs"
    ∷ []

run-refines-machine_example :
    (state_of "pcgs_key" (run quiet bad_day).0 ≡ (machine_run "pcgs_key" false bad_day).0)
    × (said "pcgs_key" (run quiet bad_day).1 ≡ (machine_run "pcgs_key" false bad_day).1)
unfolding get
run-refines-machine_example = run-refines-machine "pcgs_key" bad_day quiet refl

two_notices : said "pcgs_key" (run quiet bad_day).1 ≡ starts_failing ∷ recovered ∷ []
unfolding said run step source_failed get append_text fail notify put take_text source_ok recover
two_notices = refl
