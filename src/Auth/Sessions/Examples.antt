-- ===== src/Auth/Sessions/Examples.antt =====
-- Sessions on concrete rows (backend/app/auth/sessions.py).
use cabinet_numismatics.Prelude.{
  ℕ, ◌≡◌, refl, String, true, false, none, some, List, [], ◌∷◌, ◌++◌, arith,
}
use cabinet_numismatics.Auth.Common.{well_formed, is_secret_char}
use cabinet_numismatics.Prelude.Text.{matches_class}
use cabinet_numismatics.Auth.Rows.{User, Session, Method}
use cabinet_numismatics.Auth.Sessions.{
  Origin, create, valid, find, confirm, confirmed, revoke, revoke_where, revoke_all, is_external,
  live, user_by_id, session_by_hash, with_user,
}
use cabinet_numismatics.Auth.Sessions.Validity.{
  IsLive, InTable, confirm_lem, find_sound, find-create,
}
use cabinet_numismatics.Auth.Sessions.Revocation.{revoke_where_lem, revoke_all_ends}

abbrev alice : User
alice = record {
  id = 1;
  username = "alice";
  password_hash = some "hash";
  role = "admin";
  is_active = true;
  created_at = 0;
  last_login_at = none;
  password_changed_at = none;
}

-- A digest, as a concrete function.
abbrev same_text : String → String
same_text s = s

abbrev secret : String
secret = "0123456789012345678901234567890123456789abc"

abbrev here : Origin
here = record { address = some "192.0.2.1"; user_agent = some "browser" }

-- A session that opened at time 10.
abbrev opened : Method → ℕ → Session
opened method i = create same_text i secret 10 1 here method none

abbrev rows : List Session
rows = opened Method.password 5 ∷ opened Method.oidc 6 ∷ []

find-create_example :
    find same_text (some secret) ([] ++ opened Method.password 5 ∷ []) (alice ∷ []) 1_000
    ≡ some (opened Method.password 5, alice)
unfolding well_formed user_by_id matches_class is_secret_char
find-create_example =
    find-create same_text 5 secret 10 1_000 here Method.password none [] (alice ∷ []) alice refl tt
      refl refl (omega arith)

find_sound_example :
    (s : String) × (some secret ≡ some s)
    × (well_formed (some s) ≡ true)
    × ((opened Method.password 5).secret_hash ≡ s)
    × InTable (opened Method.password 5) (opened Method.password 5 ∷ [])
    × (user_by_id (opened Method.password 5).user_id (alice ∷ []) ≡ some alice)
    × IsLive (opened Method.password 5) alice 1_000
unfolding find well_formed session_by_hash with_user user_by_id valid create matches_class
    is_secret_char
find_sound_example =
    find_sound same_text (some secret) (opened Method.password 5 ∷ []) (alice ∷ []) 1_000
      (opened Method.password 5) alice refl

confirm_lem_example :
    (confirmed 300 (confirm 200 (opened Method.password 5)) ≡ true)
    × (confirmed 300 (revoke 200 (opened Method.password 5)) ≡ false)
confirm_lem_example = confirm_lem (opened Method.password 5) 200 300

revoke_where_lem_example : revoke_where (λ row. is_external row.auth_method) 20 rows ≡ (
  opened Method.password 5
      ∷ record (opened Method.oidc 6) { revoked_at = some 20; confirmed_until = none }
      ∷ [],
  1,
)
unfolding create
revoke_where_lem_example = revoke_where_lem (λ row. is_external row.auth_method) 20 rows

revoke_all_ends_example :
    (live 1 (alice ∷ []) 30 (revoke_all 1 20 rows).0 ≡ [])
    × ((j : ℕ)
        → (1 ≡ j → ⊥)
        → live j (alice ∷ []) 30 (revoke_all 1 20 rows).0 ≡ live j (alice ∷ []) 30 rows)
revoke_all_ends_example = revoke_all_ends 1 (alice ∷ []) 20 30 rows
