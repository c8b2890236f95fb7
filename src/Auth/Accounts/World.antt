-- ===== src/Auth/Accounts/World.antt =====
-- What the account's operations work on (backend/app/auth/accounts.py): the database with its last
-- commit, and the throttles. An operation that raises rolls the database back.
use text.Mathlib.Text.{◌==◌ as str_eq}
use cabinet_numismatics.Prelude.{
  ℕ, ◌+◌, String, Bool, Option, none, some, List, [], ◌∷◌, ◌++◌, ◌==◌, if◌then◌else◌,
}
use cabinet_numismatics.Auth.Rows.{User, Session, Method, Db}
use cabinet_numismatics.Auth.Audit
use cabinet_numismatics.Auth.Sessions
use cabinet_numismatics.Auth.Devices
use cabinet_numismatics.Auth.Browsers
use cabinet_numismatics.Auth.Throttle.State.{Throttle, Address}

pub record World : Type 0 where
  pub db : Db
  pub committed : Db
  pub throttle : Throttle

abbrev pub commit : World → World
commit w = record w { committed = w.db }

abbrev pub rollback : World → World
rollback w = record w { db = w.committed }

-- The libraries behind the operations: SHA-256, Argon2 with its hash and `check_needs_rehash`,
-- Python's `str.lower` and `ipaddress`.
pub record Tools : Type 0 where
  pub digest : String → String
  pub argon : String → String → Bool
  pub hash_password : String → String
  pub needs_rehash : String → Bool
  pub lower : String → String
  pub ip_address : String → Option Address

-- `Client`
pub record Client : Type 0 where
  pub address : Option String
  pub user_agent : Option String
  pub device : Option String
  pub browser : Option String

-- The random secrets of the cookies.
pub record Secrets : Type 0 where
  pub session : String
  pub device : String
  pub browser : String

-- `Client.actor`: `label` is used where it is given, otherwise the user's name.
unfoldable pub actor_of : Client → String → Option User → Option String → Audit.Actor
actor_of c kind user label = record {
  kind = kind;
  user_id = elim user [ none ↦ none | some u ↦ some u.id ];
  label = elim label [
    | some l ↦ some l
    | none ↦ elim user [ none ↦ none | some u ↦ some u.username ]
  ];
  address = c.address;
  user_agent = c.user_agent;
}

-- `_address`: an empty text counts as none.
abbrev pub address_of : Client → String
address_of c = elim c.address [ none ↦ "unknown" | some a ↦ if str_eq a "" then "unknown" else a ]

-- `audit.record` of one of the listed events, which raises nothing.
unfoldable pub note : ℕ → String → Audit.Actor → Option String → List String → Db → Db
note now action actor target detail db = record db {
  audit =
      Audit.enforce_caps now action
        (Audit.entry now db.next_id action actor target detail ∷ db.audit);
  next_id = db.next_id + 1;
}

unfoldable pub user_named : String → List User → Option User
user_named name [] = none
user_named name (u ∷ us) = if str_eq u.username name then some u else user_named name us

-- An UPDATE of the one account with this id.
unfoldable pub put_user : User → List User → List User
put_user u [] = []
put_user u (v ∷ vs) = if v.id == u.id then u ∷ vs else v ∷ put_user u vs

abbrev pub origin_of : Client → Sessions.Origin
origin_of c = record { address = c.address; user_agent = c.user_agent }

-- `_start`: a session opened with the password, and a known device.
unfoldable pub start : Tools → Secrets → ℕ → User → Client → Db → Db × Session
start t s now user c db =
    let row =
      Sessions.create t.digest db.next_id s.session now user.id (origin_of c) Method.password
        none in
    (
      record db {
        sessions = db.sessions ++ row ∷ [];
        devices = Devices.issue t.digest (db.next_id + 1) s.device now user.id db.devices;
        next_id = db.next_id + 2;
      },
      row,
    )

-- `_remember_browser`: the database, and the new secret where the browser brought no valid one.
unfoldable pub remember_browser : Tools → Secrets → ℕ → User → Client → Db → Db × Option String
remember_browser t s now user c db =
    let (rows, found) = Browsers.find t.digest c.browser user.id now db.browsers in
    if found then (record db { browsers = rows }, none) else (
      record db {
        browsers = Browsers.issue t.digest db.next_id s.browser now user.id rows;
        next_id = db.next_id + 1;
      },
      some s.browser,
    )
