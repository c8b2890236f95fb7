-- ===== src/Auth/Accounts/Checking.antt =====
-- The one check of a password (`_check_password` of backend/app/auth/accounts.py): the throttles, the
-- known device, Argon2, and what a failure leaves behind.
use cabinet_numismatics.Prelude.{ℕ, String, Bool, Option, none, some, [], ◌∷◌, if◌then◌else◌}
use text.Mathlib.Text.{◌==◌ as str_eq}
use cabinet_numismatics.Auth.Rows.{User, Db, KnownDevice}
use cabinet_numismatics.Auth.Audit
use cabinet_numismatics.Auth.Devices
use cabinet_numismatics.Auth.Passwords.{Verified, right, mistaken, busy, verify}
use cabinet_numismatics.Auth.Throttle.Buckets.{Kind}
use cabinet_numismatics.Auth.Throttle.State.{Throttle, Moment, Verdict, allowed, throttled}
use cabinet_numismatics.Auth.Throttle.Ops
use cabinet_numismatics.Auth.Throttle.Counting.{sign_in_keys}
use cabinet_numismatics.Auth.Accounts.World.{
  World, commit, rollback, Tools, Client, actor_of, address_of, note,
}

-- What the clocks and the slots give while one password is checked.
pub record Readings : Type 0 where
  pub attempt_at : Moment
  pub global_at : Moment
  pub user_at : ℕ
  pub addr_at : ℕ
  pub now : ℕ
  pub slot_free : Bool

-- How the check ends: with its answer, or with `Throttled` or `Busy`.
pub data Checked : Type 0 where
  accepted : Checked
  rejected : Checked
  slowed : ℕ → Checked
  overloaded : Checked

-- Who signs in, and for what the password is asked.
pub record Asked : Type 0 where
  pub account : Option User
  pub key : String
  pub password : String
  pub client : Client
  pub during : String
  pub kind : String

-- The device with its attempt reserved, if it has one left.
unfoldable pub reserve_device : Option KnownDevice → World → World × Option KnownDevice
reserve_device none w = (w, none)
reserve_device (some d) w =
    let (rows, reserved) = Devices.reserve d.id w.db.devices in
    (commit (record w { db = record w.db { devices = rows } }), if reserved then some d else none)

-- `throttle.attempt` and `throttle.check_global`, which a reserved device passes.
unfoldable pub pass_throttles :
    Readings → String → String → Option KnownDevice → Throttle → Throttle × Verdict
pass_throttles t key address (some d) s = (s, allowed)
pass_throttles t key address none s =
    let (s1, first) = Ops.attempt (sign_in_keys key address) t.attempt_at s in
    elim first [ throttled w ↦ (s1, throttled w) | allowed ↦ Ops.check_global t.global_at s1 ]

unfoldable pub stored_hash : Option User → Option String
stored_hash none = none
stored_hash (some u) = if u.is_active then u.password_hash else none

abbrev pub release_device : Option KnownDevice → Db → Db
release_device none db = db
release_device (some d) db = record db { devices = Devices.release d.id db.devices }

unfoldable pub succeeded : Tools → Asked → Option KnownDevice → World → World
succeeded t a device w = record w {
  throttle =
      Ops.succeed t.ip_address Kind.addr (address_of a.client)
        (Ops.succeed t.ip_address Kind.user a.key w.throttle);
  db = release_device device w.db;
}

abbrev pub count_failure : Tools → Readings → Asked → Option KnownDevice → World → World
count_failure t r a none w = w
count_failure t r a (some d) w = record w {
  throttle =
      Ops.fail t.ip_address Kind.addr (address_of a.client) r.addr_at
        (Ops.fail t.ip_address Kind.user a.key r.user_at w.throttle);
  db = record w.db { devices = Devices.failed d.id w.db.devices };
}

abbrev pub label_of : Option User → String
label_of none = "unknown"
label_of (some u) = u.username

unfoldable pub failed : Tools → Readings → Asked → Option KnownDevice → World → World
failed t r a device w =
    let w' = count_failure t r a device w in
    let who = if str_eq a.kind "anonymous" then none else a.account in
    let detail = if str_eq a.during "sign_in" then [] else "during" ∷ [] in
    commit (record w' {
      db =
          note r.now Audit.failed (actor_of a.client a.kind who (some (label_of a.account))) none
            detail w'.db;
    })

abbrev pub conclude :
    Tools → Readings → Asked → Option KnownDevice → World → Verified → World × Checked
conclude t r a device w right = (succeeded t a device w, accepted)
conclude t r a device w mistaken = (failed t r a device w, rejected)
conclude t r a device w busy = (rollback w, overloaded)

abbrev pub after_throttles :
    Tools → Readings → Asked → Option KnownDevice → World → Verdict → World × Checked
after_throttles t r a device w (throttled wait) = (rollback w, slowed wait)
after_throttles t r a device w allowed =
    conclude t r a device w (verify t.argon r.slot_free (stored_hash a.account) a.password)

-- `_check_password`
unfoldable pub check_password :
    Tools → Readings → Asked → Option KnownDevice → World → World × Checked
check_password t r a device w =
    let (w1, reserved) = reserve_device device w in
    let (s, verdict) = pass_throttles r a.key (address_of a.client) reserved w1.throttle in
    after_throttles t r a reserved (record w1 { throttle = s }) verdict
