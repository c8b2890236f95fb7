-- ===== src/Auth/Throttle/State.antt =====
-- The constants and the state of the sign-in throttles (backend/app/auth/throttle.py). A time is a
-- number of nanoseconds on the monotonic clock, and `second` of them are a second.
use cabinet_numismatics.Auth.Throttle.Buckets.{
  Kind, user, addr, share, oidc, setup, Key, Entry, Buckets, get, erase,
}
use cabinet_numismatics.Prelude.{
  ℕ, ◌+◌, ◌-◌, ◌*◌, ◌/◌, ◌^◌, min, max, String, Bool, true, false, Option, none, some, List, [],
  ltb, leb, ◌==◌, if◌then◌else◌,
}
use cabinet_numismatics.Prelude.Int.{ℤ, pos, sub_ℕ, pos_part}

abbrev pub second : ℕ
second = 1_000_000_000

abbrev pub window : ℕ
window = 15 * 60 * second

abbrev pub max_keys : ℕ
max_keys = 10_000

abbrev pub cap : ℕ
cap = 60 * second

abbrev pub minute : ℕ
minute = 60 * second

abbrev pub setup_free : ℕ
setup_free = 5

abbrev pub global_per_minute : ℕ
global_per_minute = 60

abbrev pub share_global_per_minute : ℕ
share_global_per_minute = 300

abbrev pub oidc_global_per_minute : ℕ
oidc_global_per_minute = 300

-- `FREE`; the setup bucket has its own limit.
abbrev pub free : Kind → ℕ
free user = 5
free addr = 20
free share = 20
free oidc = 20
free setup = setup_free

-- `none`: the flag's file is not there; `some m`: its modification time.
abbrev pub Flag : Type 0
Flag = Option ℕ

abbrev pub flag_eq : Flag → Flag → Bool
flag_eq none none = true
flag_eq none (some _) = false
flag_eq (some _) none = false
flag_eq (some m) (some n) = m == n

-- The module's variables.
pub record Throttle : Type 0 where
  pub entries : Buckets
  pub checks : List ℕ
  pub flag_seen : Option Flag
  pub shares : Buckets
  pub share_failures : List ℕ
  pub oidc_entries : Buckets
  pub oidc_failures : List ℕ

abbrev pub empty : Throttle
empty = record {
  entries = [];
  checks = [];
  flag_seen = none;
  shares = [];
  share_failures = [];
  oidc_entries = [];
  oidc_failures = [];
}

-- What the caller gets: the call returns, or it raises `Throttled` with this wait.
pub data Verdict : Type 0 where
  allowed : Verdict
  throttled : ℕ → Verdict

-- `Throttled.retry_after`, in whole seconds.
unfoldable pub retry_after : ℕ → ℕ
retry_after wait = max 1 ((wait + (second - 1)) / second)

-- A parsed address of Python's `ipaddress`: its version, its text, the text of the IPv4 address
-- that it maps, and the text of its /64.
pub record Address : Type 0 where
  pub version : ℕ
  pub text : String
  pub ipv4_mapped : Option String
  pub network : String

-- `_map`
unfoldable pub bucket_map : Kind → Throttle → Buckets
bucket_map user s = s.entries
bucket_map addr s = s.entries
bucket_map share s = s.shares
bucket_map oidc s = s.oidc_entries
bucket_map setup s = s.entries

unfoldable pub set_map : Kind → Buckets → Throttle → Throttle
set_map user m s = record s { entries = m }
set_map addr m s = record s { entries = m }
set_map share m s = record s { shares = m }
set_map oidc m s = record s { oidc_entries = m }
set_map setup m s = record s { entries = m }

-- `_live`: the bucket's entry, after an expired one is dropped.
unfoldable pub live : Key → ℕ → Throttle → Throttle × Option Entry
live k t s = elim (get k (bucket_map k.kind s)) [
  | none ↦ (s, none)
  | some e ↦
      if leb (e.last + window) t
      then (set_map k.kind (erase k (bucket_map k.kind s)) s, none)
      else (s, some e)
]

curve : ℕ → Entry → ℕ → ℤ
curve limit e t =
    if ltb e.failures limit
    then pos 0
    else sub_ℕ (e.last + min cap (2 ^ (e.failures - limit) * second)) t

-- `_wait`, which may be negative.
unfoldable pub wait_of : Kind → Entry → ℕ → ℤ
unfolding curve
wait_of setup e t = if leb setup_free e.failures then sub_ℕ (e.last + window) t else pos 0
wait_of user e t = curve (free user) e t
wait_of addr e t = curve (free addr) e t
wait_of share e t = curve (free share) e t
wait_of oidc e t = curve (free oidc) e t

-- `max(0.0, _wait(...)) if entry else 0.0`
unfoldable pub waiting : Kind → Option Entry → ℕ → ℕ
waiting kind none t = 0
waiting kind (some e) t = pos_part (wait_of kind e t)

-- `entry = _live(key, t) or _Entry()`, one failure more
unfoldable pub bump : Option Entry → ℕ → Entry
bump none t = record { failures = 1; last = t }
bump (some e) t = record { failures = e.failures + 1; last = t }

-- `_apply_reset_flag`
unfoldable pub apply_reset_flag : Flag → Throttle → Throttle
apply_reset_flag none s = record s { flag_seen = some none }
apply_reset_flag (some m) s = elim s.flag_seen [
  | none ↦ record s { flag_seen = some (some m) }
  | some seen ↦
      if flag_eq (some m) seen
      then record s { flag_seen = some (some m) }
      else record s { entries = []; checks = []; flag_seen = some (some m) }
]

-- What a call reads from outside: the flag's file and the clock.
pub record Moment : Type 0 where
  pub flag : Flag
  pub at : ℕ

module _ (ip_address : String → Option Address) where
  unfoldable pub share_address : String → String
  share_address address = elim (ip_address address) [
    | none ↦ address
    | some found ↦
        if found.version == 6
        then elim found.ipv4_mapped [ some mapped ↦ mapped | none ↦ found.network ]
        else found.text
  ]

  -- `_key(kind, _value(kind, value))`
  unfoldable pub key_of : Kind → String → Key
  key_of user v = record { kind = user; value = v }
  key_of addr v = record { kind = addr; value = v }
  key_of share v = record { kind = share; value = share_address v }
  key_of oidc v = record { kind = oidc; value = share_address v }
  key_of setup v = record { kind = setup; value = v }
