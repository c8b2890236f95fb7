-- ===== src/Auth/Accounts/Endings.antt =====
-- What is left after everything of an account has been ended (backend/app/auth/accounts.py).
use cabinet_numismatics.Prelude.{
  ℕ, ◌≡◌, refl, String, Bool, true, false, Option, none, some, List, [], ◌∷◌, arith, inl, inr,
  Option-cases,
}
use cabinet_numismatics.Auth.Rows.{User, ApiToken, KnownDevice, Db}
use cabinet_numismatics.Auth.Audit
use cabinet_numismatics.Auth.Sessions
use cabinet_numismatics.Auth.Sessions.Revocation.{revoke_all_ends}
use cabinet_numismatics.Auth.Devices
use cabinet_numismatics.Auth.Devices.{device_by_hash, usable}
use cabinet_numismatics.Auth.Tokens.Credentials.{authenticate}
use cabinet_numismatics.Auth.Tokens.RoundTrip.{revoke_all-authenticate}
use cabinet_numismatics.Auth.Passwords.{check_password_rules}
use cabinet_numismatics.Auth.Accounts.World.{World, Tools, note}
use cabinet_numismatics.Auth.Accounts.Changes.{
  done, end_everything, admin, reset_account, reset_checked, reset_claimed, reset_password,
  sign_out_everywhere,
}

device_by_hash-revoke_all :
    (i : ℕ) (h : String) (rows : List KnownDevice) (d : KnownDevice)
    → device_by_hash h (Devices.revoke_all i rows).0 ≡ some d
    → (d.user_id ≡ i → ⊥)
unfolding device_by_hash Devices.revoke_all
device_by_hash-revoke_all i h [] d e = absurd (ground arith)
device_by_hash-revoke_all i h (x ∷ rows) d e = ground (arith, device_by_hash-revoke_all i h rows d)

find-revoke_all :
    (digest : String → String) (cookie : Option String) (i at : ℕ) (rows : List KnownDevice)
    → Devices.find digest cookie i at (Devices.revoke_all i rows).0 ≡ none
unfolding Devices.find
find-revoke_all digest none i at rows = refl
find-revoke_all digest (some secret) i at rows =
    elim (Option-cases (device_by_hash (digest secret) (Devices.revoke_all i rows).0)) [
      | inl gone ↦ ground (arith, gone)
      | inr (d, found) ↦
          ground (arith, found, device_by_hash-revoke_all i (digest secret) rows d found)
    ]

-- The account has no live session, no known device, and no token that authenticates, at any time.
pub record IsShut (i : ℕ) (db : Db) : Type 0 where
  pub no_session : (users : List User) (at : ℕ) → Sessions.live i users at db.sessions ≡ []
  pub no_device :
      (digest : String → String) (cookie : Option String) (at : ℕ)
      → Devices.find digest cookie i at db.devices ≡ none
  pub no_token :
      (digest : String → String) (credential : String) (users : List User) (at : ℕ) (row : ApiToken)
      (user : User)
      → authenticate digest credential db.tokens users at ≡ some (row, user)
      → (row.user_id ≡ i → ⊥)

end_everything-IsShut : (i now : ℕ) (db : Db) → IsShut i (end_everything i now db)
unfolding end_everything
end_everything-IsShut i now db = record {
  no_session = λ users at. (revoke_all_ends i users now at db.sessions).0;
  no_device = λ digest cookie at. find-revoke_all digest cookie i at db.devices;
  no_token = λ digest credential users at row user e.
      revoke_all-authenticate digest credential db.tokens users i now at row user e;
}

note-IsShut :
    (i now : ℕ) (action : String) (actor : Audit.Actor) (target : Option String)
    (detail : List String) (db : Db)
    → IsShut i db
    → IsShut i (note now action actor target detail db)
unfolding note
note-IsShut i now action actor target detail db h = record {
  no_session = h.no_session;
  no_device = h.no_device;
  no_token = h.no_token;
}

reset_account-IsShut :
    (t : Tools) (now : ℕ) (new : String) (actor : Audit.Actor) (user : User) (db : Db)
    → IsShut user.id (reset_account t now new actor user db)
unfolding reset_account
reset_account-IsShut t now new actor user db =
    note-IsShut user.id now "password_reset" actor none ("tokens_revoked" ∷ []) _
      (end_everything-IsShut user.id now _)

reset_checked-done :
    (t : Tools) (rules hash_slot : Bool) (now : ℕ) (new : String) (actor : Audit.Actor)
    (user : User) (w : World)
    → (reset_checked t rules hash_slot now new actor user w).1 ≡ done
    → IsShut user.id (reset_checked t rules hash_slot now new actor user w).0.committed
reset_checked-done t false hash_slot now new actor user w h = absurd (ground arith)
reset_checked-done t true false now new actor user w h = absurd (ground arith)
reset_checked-done t true true now new actor user w h =
    reset_account-IsShut t now new actor user w.db

reset_claimed-done :
    (t : Tools) (hash_slot : Bool) (now : ℕ) (new : String) (actor : Audit.Actor) (w : World)
    (o : Option User)
    → (reset_claimed t hash_slot now new actor w o).1 ≡ done
    → (user : User) × (o ≡ some user)
      × IsShut user.id (reset_claimed t hash_slot now new actor w o).0.committed
reset_claimed-done t hash_slot now new actor w none h = absurd (ground arith)
reset_claimed-done t hash_slot now new actor w (some user) h =
    (user, refl, reset_checked-done t (check_password_rules new) hash_slot now new actor user w h)

-- After a reset of the password the account of the claim has no live session, no known device and
-- no token that authenticates, at any time; this is committed.
pub reset_password_shuts :
    (t : Tools) (hash_slot : Bool) (now : ℕ) (new : String) (actor : Audit.Actor) (w : World)
    → (reset_password t hash_slot now new actor w).1 ≡ done
    → (user : User) × (admin w.db ≡ some user)
      × IsShut user.id (reset_password t hash_slot now new actor w).0.committed
unfolding reset_password
reset_password_shuts t hash_slot now new actor w h =
    reset_claimed-done t hash_slot now new actor w (admin w.db) h

-- Signing out everywhere ends every session and forgets every known device of the account, and
-- leaves its tokens.
pub sign_out_everywhere_ends :
    (now : ℕ) (user : User) (actor : Audit.Actor) (w : World)
    → let after = (sign_out_everywhere now user actor w).0.committed in
      ((users : List User) (at : ℕ) → Sessions.live user.id users at after.sessions ≡ [])
      × ((digest : String → String) (cookie : Option String) (at : ℕ)
          → Devices.find digest cookie user.id at after.devices ≡ none)
      × (after.tokens ≡ w.db.tokens)
unfolding sign_out_everywhere note
sign_out_everywhere_ends now user actor w = (
  λ users at. (revoke_all_ends user.id users now at w.db.sessions).0,
  λ digest cookie at. find-revoke_all digest cookie user.id at w.db.devices,
  refl,
)
