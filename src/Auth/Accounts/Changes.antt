-- ===== src/Auth/Accounts/Changes.antt =====
-- Changes of the password and the name, and signing out (backend/app/auth/accounts.py).
use text.Mathlib.Text.{◌==◌ as str_eq}
use cabinet_numismatics.Prelude.{
  ℕ, String, Bool, true, false, not, ◌&&◌, ◌||◌, Option, none, some, List, [], ◌∷◌, ◌==◌,
  if◌then◌else◌,
}
use cabinet_numismatics.Auth.Rows.{User, Session, KnownDevice, Db}
use cabinet_numismatics.Auth.Audit
use cabinet_numismatics.Auth.Sessions
use cabinet_numismatics.Auth.Devices
use cabinet_numismatics.Auth.Browsers
use cabinet_numismatics.Auth.Tokens
use cabinet_numismatics.Auth.Passwords.{check_password_rules, normalize_username}
use cabinet_numismatics.Auth.Accounts.World.{
  World, commit, rollback, Tools, Client, Secrets, actor_of, note, put_user, start,
}
use cabinet_numismatics.Auth.Accounts.Checking.{
  Readings, Checked, accepted, rejected, slowed, overloaded, check_password,
}

-- How a change ends: done, or with the exception that it raises.
pub data Changed : Type 0 where
  done : Changed
  refused_rule : Changed
  wrong : Changed
  too_many : ℕ → Changed
  too_busy : Changed
  not_found : Changed
  not_claimed : Changed
  already_claimed : Changed

-- `_end_everything`
unfoldable pub end_everything : ℕ → ℕ → Db → Db
end_everything user_id now db = record db {
  sessions = (Sessions.revoke_all user_id now db.sessions).0;
  devices = (Devices.revoke_all user_id db.devices).0;
  browsers = (Browsers.revoke_all user_id db.browsers).0;
  tokens = (Tokens.revoke_all user_id now db.tokens).0;
}

-- `_verify_current`
unfoldable pub verify_current :
    Tools → Readings → User → String → Client → String → World → World × Checked
verify_current t r user password c during w =
    check_password t r
      (record {
        account = some user;
        key = user.username;
        password = password;
        client = c;
        during = during;
        kind = "session";
      })
      (Devices.find t.digest c.device user.id r.now w.db.devices) w

-- What is done after a right password; the other answers are exceptions.
abbrev pub if_accepted : (World → World × Changed) → World × Checked → World × Changed
if_accepted next (w, accepted) = next w
if_accepted next (w, rejected) = (w, wrong)
if_accepted next (w, slowed wait) = (w, too_many wait)
if_accepted next (w, overloaded) = (w, too_busy)

abbrev pub with_password : Tools → ℕ → String → User → User
with_password t now new user = record user {
  password_hash = some (t.hash_password new);
  password_changed_at = some now;
}

-- The account with a new password, everything ended, and a session for this browser.
unfoldable pub replace_password : Tools → Secrets → ℕ → User → String → Client → Db → Db
replace_password t s now user new c db =
    let changed = record db { users = put_user (with_password t now new user) db.users } in
    let (db', row) = start t s now user c (end_everything user.id now changed) in
    note now "password_changed" (actor_of c "session" (some user) none) none ("tokens_revoked" ∷ [])
      db'

-- `hash_slot` says whether a slot is got for the new hash.
unfoldable pub change_password :
    Tools → Readings → Secrets → Bool → User → String → String → Client → World → World × Changed
change_password t r s hash_slot user current new c w =
    if check_password_rules new
    then if_accepted
        (λ w'.
          if hash_slot
          then (commit (record w' { db = replace_password t s r.now user new c w'.db }), done)
          else (rollback w', too_busy))
        (verify_current t r user current c "password_change" w)
    else (w, refused_rule)

-- `confirm`: the recent-password window of a session.
unfoldable pub confirm :
    Tools → Readings → Session → User → String → Client → World → World × Changed
confirm t r row user password c w =
    if_accepted
      (λ w'. (
        commit (record w' {
          db = note r.now "reauth" (actor_of c "session" (some user) none) none [] (record w'.db {
            sessions = Sessions.put (Sessions.confirm r.now row) w'.db.sessions;
          });
        }),
        done,
      ))
      (verify_current t r user password c "confirm" w)

unfoldable pub name_taken : String → ℕ → List User → Bool
name_taken name id [] = false
name_taken name id (u ∷ us) = str_eq u.username name && not (u.id == id) || name_taken name id us

abbrev pub rename : Readings → User → Client → String → World → World × Changed
rename r user c name w =
    if name_taken name user.id w.db.users then (rollback w, refused_rule) else (
      commit (record w {
        db =
            note r.now "username_changed"
              (actor_of c "session" (some (record user { username = name })) none) none
              ("from" ∷ "to" ∷ [])
              (record w.db { users = put_user (record user { username = name }) w.db.users });
      }),
      done,
    )

unfoldable pub change_username :
    Tools → Readings → User → String → String → Client → World → World × Changed
change_username t r user current username c w = elim (normalize_username username) [
  | none ↦ (w, refused_rule)
  | some name ↦
      if_accepted (rename r user c name) (verify_current t r user current c "username_change" w)
]

-- `admin`: the account of the claim.
unfoldable pub admin : Db → Option User
admin db = elim db.claim [ none ↦ none | some id ↦ Sessions.user_by_id id db.users ]

-- The database after a reset of this account's password.
unfoldable pub reset_account : Tools → ℕ → String → Audit.Actor → User → Db → Db
reset_account t now new actor user db =
    note now "password_reset" actor none ("tokens_revoked" ∷ []) (
      end_everything user.id now (record db {
        users = put_user (record (with_password t now new user) { is_active = true }) db.users;
      }))

abbrev pub reset_checked :
    Tools → Bool → Bool → ℕ → String → Audit.Actor → User → World → World × Changed
reset_checked t false hash_slot now new actor user w = (w, refused_rule)
reset_checked t true false now new actor user w = (w, too_busy)
reset_checked t true true now new actor user w =
    (commit (record w { db = reset_account t now new actor user w.db }), done)

abbrev pub reset_claimed :
    Tools → Bool → ℕ → String → Audit.Actor → World → Option User → World × Changed
reset_claimed t hash_slot now new actor w none = (w, not_claimed)
reset_claimed t hash_slot now new actor w (some user) =
    reset_checked t (check_password_rules new) hash_slot now new actor user w

-- `reset_password`, up to the flag that clears the running backend's throttles.
unfoldable pub reset_password : Tools → Bool → ℕ → String → Audit.Actor → World → World × Changed
reset_password t hash_slot now new actor w = reset_claimed t hash_slot now new actor w (admin w.db)

abbrev pub forget_found : Option KnownDevice → Db → Db
forget_found none db = db
forget_found (some d) db = record db { devices = Devices.forget d.id db.devices }

unfoldable pub sign_out : Tools → ℕ → Session → User → Client → World → World
sign_out t now row user c w =
    let db1 = record w.db { sessions = Sessions.put (Sessions.revoke now row) w.db.sessions } in
    let db2 = forget_found (Devices.find t.digest c.device user.id now w.db.devices) db1 in
    commit
      (record w { db = note now "sign_out" (actor_of c "session" (some user) none) none [] db2 })

unfoldable pub session_by_id : ℕ → List Session → Option Session
session_by_id i [] = none
session_by_id i (s ∷ ss) = if s.id == i then some s else session_by_id i ss

-- `target` is the text `session {id}`.
unfoldable pub end_session : ℕ → User → ℕ → String → Audit.Actor → World → World × Changed
end_session now user id target actor w = elim (session_by_id id w.db.sessions) [
  | none ↦ (w, not_found)
  | some row ↦
      if not (row.user_id == user.id) || not (Sessions.valid row (some user) now)
      then (w, not_found)
      else (
        commit (record w {
          db =
              note now "session_revoked" actor (some target) []
                (record w.db { sessions = Sessions.put (Sessions.revoke now row) w.db.sessions });
        }),
        done,
      )
]

unfoldable pub sign_out_everywhere : ℕ → User → Audit.Actor → World → World × (ℕ × ℕ × ℕ)
sign_out_everywhere now user actor w =
    let (rows, sessions) = Sessions.revoke_all user.id now w.db.sessions in
    let (kept, devices) = Devices.revoke_all user.id w.db.devices in
    let (known, browsers) = Browsers.revoke_all user.id w.db.browsers in
    (
      commit (record w {
        db =
            note now "sessions_revoked_all" actor none ("sessions" ∷ "devices" ∷ "browsers" ∷ [])
              (record w.db { sessions = rows; devices = kept; browsers = known });
      }),
      (sessions, devices, browsers),
    )
