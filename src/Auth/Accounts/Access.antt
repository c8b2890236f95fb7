-- ===== src/Auth/Accounts/Access.antt =====
-- Who gets a session by a password (backend/app/auth/accounts.py).
use cabinet_numismatics.Prelude.{ℕ, ◌≤◌, ◌≡◌, refl, String, Bool, true, Option, none, some, arith}
use cabinet_numismatics.Prelude.Text.{text_length}
use cabinet_numismatics.Auth.Rows.{User, KnownDevice}
use cabinet_numismatics.Auth.Passwords.{right, verify, normalize_username, max_length}
use cabinet_numismatics.Auth.Throttle.State.{Verdict, allowed, throttled}
use cabinet_numismatics.Auth.Accounts.World.{World, Tools, Client, Secrets}
use cabinet_numismatics.Auth.Accounts.Checking.{
  Readings, Checked, accepted, rejected, slowed, overloaded, Asked, stored_hash, after_throttles,
  check_password,
}
use cabinet_numismatics.Auth.Accounts.SignIn.{
  started, Started, account_named, active_of, device_of, finish, asked, sign_in,
}

-- The account's own password: it is active, and Argon2 accepts the text for its stored hash.
pub record IsPassword (t : Tools) (account : Option User) (password : String) : Type 0 where
  pub user : User
  pub hash : String
  pub exists : account ≡ some user
  pub active : user.is_active ≡ true
  pub stored : user.password_hash ≡ some hash
  pub accepted : t.argon hash password ≡ true
  pub short : text_length password ≤ max_length

verify-right :
    (argon : String → String → Bool) (slot_free : Bool) (stored : Option String) (password : String)
    → verify argon slot_free stored password ≡ right
    → (hash : String) × (stored ≡ some hash)
      × (argon hash password ≡ true)
      × (text_length password ≤ max_length)
unfolding verify
verify-right argon slot_free none password h = absurd (ground arith)
verify-right argon slot_free (some hash) password h = (hash, refl, ground arith, ground arith)

stored_hash-some :
    (account : Option User) (hash : String)
    → stored_hash account ≡ some hash
    → (user : User) × (account ≡ some user)
      × (user.is_active ≡ true)
      × (user.password_hash ≡ some hash)
unfolding stored_hash
stored_hash-some none hash h = absurd (ground arith)
stored_hash-some (some user) hash h = (user, refl, ground arith, ground arith)

after_throttles-accepted :
    (t : Tools) (r : Readings) (a : Asked) (device : Option KnownDevice) (w : World) (v : Verdict)
    → (after_throttles t r a device w v).1 ≡ accepted
    → verify t.argon r.slot_free (stored_hash a.account) a.password ≡ right
after_throttles-accepted t r a device w (throttled wait) h = absurd (ground arith)
after_throttles-accepted t r a device w allowed h = ground arith

-- A check is passed only with the password of an active account.
pub check_password_accepted :
    (t : Tools) (r : Readings) (a : Asked) (device : Option KnownDevice) (w : World)
    → (check_password t r a device w).1 ≡ accepted
    → IsPassword t a.account a.password
unfolding check_password
check_password_accepted t r a device w h =
    let (hash, stored, ok, short) =
      verify-right t.argon r.slot_free (stored_hash a.account) a.password
        (after_throttles-accepted t r a _ _ _ h) in
    let (user, exists, active, own) = stored_hash-some a.account hash stored in
    record {
      user = user;
      hash = hash;
      exists = exists;
      active = active;
      stored = own;
      accepted = ok;
      short = short;
    }

finish-started :
    (t : Tools) (s : Secrets) (slot : Bool) (now : ℕ) (password : String) (c : Client)
    (device : Option KnownDevice) (active : Option User) (w : World) (checked : Checked)
    (new : Started)
    → (finish t s slot now password c device active w checked).1 ≡ started new
    → checked ≡ accepted
finish-started t s slot now password c device active w rejected new h = absurd (ground arith)
finish-started t s slot now password c device active w (slowed n) new h = absurd (ground arith)
finish-started t s slot now password c device active w overloaded new h = absurd (ground arith)
finish-started t s slot now password c device active w accepted new h = refl

-- A session is opened only for the name and the password of an active account.
pub sign_in_sound :
    (t : Tools) (r : Readings) (s : Secrets) (slot : Bool) (typed password : String) (c : Client)
    (w : World) (new : Started)
    → (sign_in t r s slot typed password c w).1 ≡ started new
    → IsPassword t (account_named (normalize_username typed) w.db) password
unfolding sign_in
sign_in_sound t r s slot typed password c w new h =
    let a = asked t typed password c w.db in
    let device = device_of t r.now c (active_of a.account) w.db in
    check_password_accepted t r a device w
      (finish-started t s slot r.now password c device (active_of a.account) _ _ new h)

slowed-blind :
    (t : Tools) (r : Readings) (a b : Asked) (device : Option KnownDevice) (w : World) (v : Verdict)
    (n : ℕ)
    → (after_throttles t r a device w v).1 ≡ slowed n
    → after_throttles t r b device w v ≡ after_throttles t r a device w v
slowed-blind t r a b device w (throttled wait) n h = refl
slowed-blind t r a b device w allowed n h = absurd (unfold verify in ground arith)

-- A check that the throttles refuse says nothing about the password or the account: with any other
-- password and any other account, under the same key and from the same client, it ends in the same
-- way and leaves everything the same.
pub check_password_blind :
    (t : Tools) (r : Readings) (a : Asked) (account : Option User) (password : String)
    (device : Option KnownDevice) (w : World) (n : ℕ)
    → (check_password t r a device w).1 ≡ slowed n
    → check_password t r (record a { account = account; password = password }) device w
      ≡ check_password t r a device w
unfolding check_password
check_password_blind t r a account password device w n h =
    slowed-blind t r a (record a { account = account; password = password }) _ _ _ n h
