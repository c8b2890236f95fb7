-- ===== src/Auth/Audit/Examples.antt =====
-- The audit log on concrete rows (backend/app/auth/audit.py).
use cabinet_numismatics.Auth.Audit.{check_detail, enforce_caps, id_at, is_among, own_cap, trim}
use cabinet_numismatics.Auth.Common.{clip}
use cabinet_numismatics.Prelude.Text.{take_text}
use cabinet_numismatics.Prelude.{◌≡◌, refl, none, some, [], ◌∷◌, arith, eq_iff}
use cabinet_numismatics.Auth.Rows.{AuditEntry}
use cabinet_numismatics.Auth.Audit.{Actor, entry, record_event, failed, failed_cap, is_action}
use cabinet_numismatics.Auth.Audit.Caps.{IsCapped, matching, number_of}
use cabinet_numismatics.Auth.Audit.Evidence.{record_event-IsCapped, record_event-flood}

abbrev nobody : Actor
nobody = record {
  kind = "anonymous";
  user_id = none;
  label = some "unknown";
  address = some "192.0.2.1";
  user_agent = none;
}

-- A log that holds one sign-in.
abbrev signed_in : AuditEntry
signed_in = record {
  id = 1;
  at = 50;
  actor_user_id = some 1;
  actor_label = some "alice";
  actor_kind = "session";
  action = "sign_in";
  target = none;
  detail = "method" ∷ [];
  address = none;
  user_agent = none;
}

abbrev guess : AuditEntry
guess = record {
  id = 2;
  at = 60;
  actor_user_id = none;
  actor_label = some "unknown";
  actor_kind = "anonymous";
  action = "sign_in_failed";
  target = none;
  detail = [];
  address = some "192.0.2.1";
  user_agent = none;
}

signed_in-IsCapped : IsCapped (signed_in ∷ [])
unfolding number_of
signed_in-IsCapped = record {
  log = (tt, tt);
  failed_le = omega arith;
  rejected_le = omega arith;
  other_le = omega arith;
}

record_event-IsCapped_example : IsCapped (guess ∷ signed_in ∷ [])
unfolding record_event is_among check_detail enforce_caps own_cap trim id_at entry clip take_text
record_event-IsCapped_example =
    record_event-IsCapped 60 2 failed nobody none [] (signed_in ∷ []) (guess ∷ signed_in ∷ [])
      (omega arith, tt) signed_in-IsCapped refl

failed-not_sign_in : failed ≡ "sign_in" → ⊥
failed-not_sign_in e = ground (arith, (eq_iff failed "sign_in").1 e)

record_event-flood_example :
    matching (is_action "sign_in") (guess ∷ signed_in ∷ [])
    ≡ matching (is_action "sign_in") (signed_in ∷ [])
unfolding own_cap record_event is_among check_detail enforce_caps trim id_at entry clip take_text
record_event-flood_example =
    record_event-flood 60 2 failed_cap failed "sign_in" nobody none [] (signed_in ∷ [])
      (guess ∷ signed_in ∷ []) refl failed-not_sign_in refl
