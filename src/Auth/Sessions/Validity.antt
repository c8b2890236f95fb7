-- ===== src/Auth/Sessions/Validity.antt =====
-- How long a session lasts (backend/app/auth/sessions.py).
use text.Mathlib.Text.{◌==◌ as str_eq}
use cabinet_numismatics.Prelude.{
  ℕ, ◌+◌, ◌≤◌, ◌<◌, ◌≡◌, refl, ◌⊎◌, ◌∙◌, String, true, false, Option, none, some, List, [], ◌∷◌,
  ◌++◌, arith, ltb, eq_iff, inl, inr, Bool-cases,
}
use cabinet_numismatics.Auth.Common.{well_formed}
use cabinet_numismatics.Auth.Rows.{User, Session, Method}
use cabinet_numismatics.Auth.Sessions.{
  is_none, lifetime, idle, touch_every, confirm_window, Origin, create, valid, user_by_id,
  session_by_hash, with_user, find, touch, confirm, confirmed, revoke,
}

-- What a valid session has.
pub record IsLive (row : Session) (user : User) (now : ℕ) : Type 0 where
  pub unrevoked : row.revoked_at ≡ none
  pub active : user.is_active ≡ true
  pub unexpired : now < row.expires_at
  pub used : now < row.last_seen_at + idle

pub valid_iff :
    (row : Session) (user : User) (now : ℕ)
    → (valid row (some user) now ≡ true → IsLive row user now)
      × (IsLive row user now → valid row (some user) now ≡ true)
unfolding valid
valid_iff row user now = (λ h. ground arith, λ h. ground arith)

-- What may happen to a row between its creation and its end.
pub data Use : Type 0 where
  touched confirmed_again revoked : ℕ → Use

unfoldable pub apply_use : Session → Use → Session
apply_use row (touched at) = (touch at row).0
apply_use row (confirmed_again at) = confirm at row
apply_use row (revoked at) = revoke at row

unfoldable pub apply_uses : List Use → Session → Session
apply_uses [] row = row
apply_uses (u ∷ us) row = apply_uses us (apply_use row u)

expires_at-apply_use : (u : Use) (row : Session) → (apply_use row u).expires_at ≡ row.expires_at
unfolding apply_use touch confirm revoke
expires_at-apply_use u row = ground arith

expires_at-apply_uses :
    (us : List Use) (row : Session) → (apply_uses us row).expires_at ≡ row.expires_at
unfolding apply_uses
expires_at-apply_uses [] row = refl
expires_at-apply_uses (u ∷ us) row =
    expires_at-apply_uses us (apply_use row u) ∙ expires_at-apply_use u row

-- However often it is used or confirmed, a session is valid for less than 7 days from its creation.
pub valid_within_lifetime :
    (digest : String → String) (id : ℕ) (secret : String) (at i : ℕ) (origin : Origin)
    (method : Method) (identity : Option ℕ) (us : List Use) (user : Option User) (now : ℕ)
    → valid (apply_uses us (create digest id secret at i origin method identity)) user now ≡ true
    → now < at + lifetime
unfolding valid create
valid_within_lifetime digest id secret at i origin method identity us user now h =
    ground (arith, expires_at-apply_uses us (create digest id secret at i origin method identity))

abbrev pub Ended : Session → Type 0
Ended row = is_none row.revoked_at ≡ false

apply_use-Ended : (u : Use) (row : Session) → Ended row → Ended (apply_use row u)
unfolding apply_use touch confirm revoke
apply_use-Ended u row h = ground arith

apply_uses-Ended : (us : List Use) (row : Session) → Ended row → Ended (apply_uses us row)
unfolding apply_uses
apply_uses-Ended [] row h = h
apply_uses-Ended (u ∷ us) row h = apply_uses-Ended us (apply_use row u) (apply_use-Ended u row h)

Ended-revoke : (at : ℕ) (row : Session) → Ended (revoke at row)
unfolding revoke
Ended-revoke at row = ground arith

-- A revoked session stays revoked: no later use of the row makes it valid again.
pub revoke_forever :
    (at : ℕ) (row : Session) (us : List Use) (user : Option User) (now : ℕ)
    → valid (apply_uses us (revoke at row)) user now ≡ false
unfolding valid
revoke_forever at row us user now =
    ground (arith, apply_uses-Ended us (revoke at row) (Ended-revoke at row))

-- Noting a use keeps a valid session valid, writes at most once a minute, and moves nothing but the
-- time of the last use.
pub touch_lem :
    (row : Session) (user : Option User) (now : ℕ)
    → valid row user now ≡ true
    → (valid (touch now row).0 user now ≡ true)
      × (now < (touch now row).0.last_seen_at + touch_every)
      × ((touch now row).1 ≡ false → (touch now row).0 ≡ row)
      × ((touch now row).1 ≡ true
          → (row.last_seen_at + touch_every ≤ now)
            × ((touch now row).0 ≡ record row { last_seen_at = now }))
unfolding touch valid
touch_lem row user now h = (ground arith, ground arith, λ e. ground arith, λ e. ground arith)

-- The recent-password window of a session is open for exactly 5 minutes after a confirmation, and
-- closed once the session is revoked.
pub confirm_lem :
    (row : Session) (at now : ℕ)
    → (confirmed now (confirm at row) ≡ ltb now (at + confirm_window))
      × (confirmed now (revoke at row) ≡ false)
unfolding confirm confirmed revoke
confirm_lem row at now = ground arith

-- The row is in the table.
abbrev pub InTable : Session → List Session → Type 0
InTable row [] = ⊥
InTable row (s ∷ ss) = (row ≡ s) ⊎ InTable row ss

session_by_hash-found :
    (h : String) (rows : List Session) (row : Session)
    → session_by_hash h rows ≡ some row
    → (row.secret_hash ≡ h) × InTable row rows
unfolding session_by_hash
session_by_hash-found h [] row e = cc
session_by_hash-found h (s ∷ ss) row e = elim (Bool-cases (str_eq s.secret_hash h)) [
  | inl same ↦ (ground (arith, eq_iff s.secret_hash h), inl (ground arith))
  | inr other ↦
      let (hash, there) = session_by_hash-found h ss row (rw other at e) in (hash, inr there)
]

with_user-found :
    (o : Option Session) (users : List User) (now : ℕ) (row : Session) (user : User)
    → with_user o users now ≡ some (row, user)
    → (o ≡ some row)
      × (user_by_id row.user_id users ≡ some user)
      × (valid row (some user) now ≡ true)
unfolding with_user
with_user-found none users now row user e = cc
with_user-found (some r) users now row user e = ground arith

-- A cookie opens a session only by the secret whose digest is stored, while the session is not
-- revoked, not expired, used within a day, and its account is there and active.
pub find_sound :
    (digest : String → String) (cookie : Option String) (rows : List Session) (users : List User)
    (now : ℕ) (row : Session) (user : User)
    → find digest cookie rows users now ≡ some (row, user)
    → (secret : String) × (cookie ≡ some secret)
      × (well_formed (some secret) ≡ true)
      × (row.secret_hash ≡ digest secret)
      × InTable row rows
      × (user_by_id row.user_id users ≡ some user)
      × IsLive row user now
unfolding find
find_sound digest none rows users now row user e = cc
find_sound digest (some secret) rows users now row user e =
    let shaped : well_formed (some secret) ≡ true = ground arith in
    let (found, account, ok) =
      with_user-found (session_by_hash (digest secret) rows) users now row user (ground arith) in
    let (hash, there) = session_by_hash-found (digest secret) rows row found in
    (secret, refl, shaped, hash, there, account, (valid_iff row user now).0 ok)

-- No row has this digest.
abbrev pub Unused : String → List Session → Type 0
Unused h [] = Unit
Unused h (s ∷ ss) = (str_eq s.secret_hash h ≡ false) × Unused h ss

session_by_hash-append :
    (h : String) (rows : List Session) (row : Session)
    → Unused h rows
    → row.secret_hash ≡ h
    → session_by_hash h (rows ++ row ∷ []) ≡ some row
unfolding session_by_hash
session_by_hash-append h [] row u e = ground (arith, eq_iff row.secret_hash h)
session_by_hash-append h (s ∷ ss) row u e = ground (arith, session_by_hash-append h ss row u.1 e)

-- A session that has just been created is found by its secret until it is a day old, for an active
-- account and a digest that no other row has.
pub find-create :
    (digest : String → String) (id : ℕ) (secret : String) (at now : ℕ) (origin : Origin)
    (method : Method) (identity : Option ℕ) (rows : List Session) (users : List User) (user : User)
    → well_formed (some secret) ≡ true
    → Unused (digest secret) rows
    → user_by_id user.id users ≡ some user
    → user.is_active ≡ true
    → now < at + idle
    → let row = create digest id secret at user.id origin method identity in
      find digest (some secret) (rows ++ row ∷ []) users now ≡ some (row, user)
unfolding find with_user create valid
find-create digest id secret at now origin method identity rows users user shaped unused known
      active soon =
    let row = create digest id secret at user.id origin method identity in
    ground (arith, session_by_hash-append (digest secret) rows row unused refl)
