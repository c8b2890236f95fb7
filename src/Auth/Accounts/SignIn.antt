-- ===== src/Auth/Accounts/SignIn.antt =====
-- Signing in with the password (`sign_in` of backend/app/auth/accounts.py).
use text.Mathlib.Text.{◌==◌ as str_eq}
use cabinet_numismatics.Prelude.{
  ℕ, String, Bool, true, false, Option, none, some, [], ◌∷◌, if◌then◌else◌,
}
use cabinet_numismatics.Prelude.Text.{take_text}
use cabinet_numismatics.Auth.Rows.{User, Session, Db, KnownDevice}
use cabinet_numismatics.Auth.Audit
use cabinet_numismatics.Auth.Devices
use cabinet_numismatics.Auth.Passwords.{normalize_username}
use cabinet_numismatics.Auth.Accounts.World.{
  World, commit, rollback, Tools, Client, Secrets, actor_of, note, user_named, put_user, start,
  remember_browser,
}
use cabinet_numismatics.Auth.Accounts.Checking.{
  Readings, Checked, accepted, rejected, slowed, overloaded, Asked, check_password,
}

-- `Started`, of a sign-in with the password.
pub record Started : Type 0 where
  pub user : User
  pub session : Session
  pub session_secret : String
  pub device_secret : String
  pub browser_secret : Option String
  pub previous_sign_in_at : Option ℕ
  pub failed_since_previous : ℕ
  pub new_device : Bool

-- A session, or the exception that answers for it.
pub data Answer : Type 0 where
  started : Started → Answer
  wrong_password : Answer
  too_many : ℕ → Answer
  too_busy : Answer

-- `(name or typed.lower())[:64] or "-"`
unfoldable pub bucket_key : Tools → String → Option String → String
bucket_key t typed name =
    let key = take_text 64 (elim name [ some n ↦ n | none ↦ t.lower typed ]) in
    if str_eq key "" then "-" else key

unfoldable pub account_named : Option String → Db → Option User
account_named none db = none
account_named (some name) db = user_named name db.users

abbrev pub active_of : Option User → Option User
active_of none = none
active_of (some u) = if u.is_active then some u else none

abbrev pub device_of : Tools → ℕ → Client → Option User → Db → Option KnownDevice
device_of t now c none db = none
device_of t now c (some u) db = Devices.find t.digest c.device u.id now db.devices

abbrev pub is_known : Option KnownDevice → Bool
is_known none = false
is_known (some d) = true

abbrev pub forget_device : Option KnownDevice → Db → Db
forget_device none db = db
forget_device (some d) db = record db { devices = Devices.forget d.id db.devices }

-- The stored hash, made anew where Argon2's parameters have changed; `none` is `Busy`.
abbrev pub rehash : Tools → Bool → String → Option String → Option (Option String)
rehash t slot_free password none = some none
rehash t slot_free password (some hash) =
    if t.needs_rehash hash
    then if slot_free then some (some (t.hash_password password)) else none
    else some (some hash)

-- The rest of `sign_in` after the password was right.
abbrev pub open_session :
    Tools
    → Secrets
    → ℕ
    → String
    → Client
    → Option KnownDevice
    → User
    → World
    → Option String
    → World × Answer
open_session t s now password c device user w hash =
    let count = Audit.count Audit.failed (some user.username) user.last_login_at w.db.audit in
    let (db1, row) = start t s now user c (forget_device device w.db) in
    let (db2, browser) = remember_browser t s now user c db1 in
    let user' = record user { password_hash = hash; last_login_at = some now } in
    let db3 = record db2 { users = put_user user' db2.users } in
    let db4 =
      note now "sign_in" (actor_of c "session" (some user) none) none ("method" ∷ "new_device" ∷ [])
        db3 in
    (
      commit (record w { db = db4 }),
      started (record {
        user = user';
        session = row;
        session_secret = s.session;
        device_secret = s.device;
        browser_secret = browser;
        previous_sign_in_at = user.last_login_at;
        failed_since_previous = count;
        new_device = if is_known device then false else true;
      }),
    )

abbrev pub rehashed :
    Tools
    → Secrets
    → ℕ
    → String
    → Client
    → Option KnownDevice
    → User
    → World
    → Option (Option String)
    → World × Answer
rehashed t s now password c device user w none = (rollback w, too_busy)
rehashed t s now password c device user w (some hash) =
    open_session t s now password c device user w hash

-- A right password is that of an active account.
abbrev pub finish :
    Tools
    → Secrets
    → Bool
    → ℕ
    → String
    → Client
    → Option KnownDevice
    → Option User
    → World
    → Checked
    → World × Answer
finish t s rehash_slot now password c device active w rejected = (w, wrong_password)
finish t s rehash_slot now password c device active w (slowed wait) = (w, too_many wait)
finish t s rehash_slot now password c device active w overloaded = (w, too_busy)
finish t s rehash_slot now password c device none w accepted = (w, wrong_password)
finish t s rehash_slot now password c device (some user) w accepted =
    rehashed t s now password c device user w (rehash t rehash_slot password user.password_hash)

abbrev pub asked : Tools → String → String → Client → Db → Asked
asked t typed password c db =
    let name = normalize_username typed in
    record {
      account = account_named name db;
      key = bucket_key t typed name;
      password = password;
      client = c;
      during = "sign_in";
      kind = "anonymous";
    }

-- `sign_in`; `rehash_slot` says whether a slot is got for a new hash.
unfoldable pub sign_in :
    Tools → Readings → Secrets → Bool → String → String → Client → World → World × Answer
sign_in t r s rehash_slot typed password c w =
    let a = asked t typed password c w.db in
    let active = active_of a.account in
    let device = device_of t r.now c active w.db in
    let (w', checked) = check_password t r a device w in
    finish t s rehash_slot r.now password c device active w' checked
