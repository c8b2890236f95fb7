-- ===== src/Auth/Accounts/Examples.antt =====
-- The account's operations on a concrete database (backend/app/auth/accounts.py).
use cabinet_numismatics.Auth.Rows.{Identity, oidc}
use cabinet_numismatics.Auth.Accounts.SignIn.{account_named, bucket_key}
use cabinet_numismatics.Auth.Passwords.{is_username_char, normalize_username, verify}
use cabinet_numismatics.Prelude.Text.{all_class, lower_ascii, matches_class, take_text}
use cabinet_numismatics.Auth.Accounts.World.{
  actor_of, note, put_user, remember_browser, start, user_named,
}
use cabinet_numismatics.Auth.Accounts.Checking.{failed, stored_hash, succeeded}
use cabinet_numismatics.Auth.Browsers.{find, find_hash, issue}
use cabinet_numismatics.Auth.Common.{clip, is_secret_char, well_formed}
use cabinet_numismatics.Auth.Throttle.Buckets.{erase, evict, push}
use cabinet_numismatics.Auth.Throttle.Ops.{
  check_global, count, count_all, count_each, fail, pop_old, succeed, until_oldest,
}
use cabinet_numismatics.Auth.Throttle.State.{bump, key_of, set_map, share_address}
use cabinet_numismatics.Auth.Accounts.Checking.{pass_throttles, reserve_device}
use cabinet_numismatics.Auth.Throttle.Ops.{attempt, longest_wait}
use cabinet_numismatics.Auth.Throttle.State.{apply_reset_flag, bucket_map, live, wait_of, waiting}
use cabinet_numismatics.Auth.Throttle.Buckets.{get, key_eq}
use cabinet_numismatics.Auth.Passwords.{check_password_rules}
use cabinet_numismatics.Prelude.Text.{text_length}
use text.Mathlib.Text.{◌==◌ as str_eq}
use cabinet_numismatics.Prelude.{
  ◌≡◌, refl, String, Bool, true, false, Option, none, some, [], ◌∷◌, arith,
}
use cabinet_numismatics.Auth.Rows.{User, Db, KnownDevice}
use cabinet_numismatics.Auth.Audit
use cabinet_numismatics.Auth.Sessions
use cabinet_numismatics.Auth.Devices
use cabinet_numismatics.Auth.Tokens
use cabinet_numismatics.Auth.Devices.{max_failures}
use cabinet_numismatics.Auth.Devices.Slots.{used}
use cabinet_numismatics.Auth.Throttle.Buckets.{Entry}
use cabinet_numismatics.Auth.Throttle.State.{Moment, Address, empty}
use cabinet_numismatics.Auth.Throttle.Counting.{user_key}
use cabinet_numismatics.Auth.Accounts.World.{World, Tools, Client, Secrets}
use cabinet_numismatics.Auth.Accounts.Checking.{
  Readings, accepted, rejected, Asked, stored_hash, check_password,
}
use cabinet_numismatics.Auth.Passwords.{verify}
use cabinet_numismatics.Auth.Accounts.SignIn.{Answer, started, Started, sign_in}
use cabinet_numismatics.Auth.Accounts.Access.{IsPassword, sign_in_sound, check_password_blind}
use cabinet_numismatics.Auth.Accounts.Guesses.{outcome_of, check_password_known_device}
use cabinet_numismatics.Auth.Accounts.Changes.{admin, reset_password}
use cabinet_numismatics.Auth.Accounts.Endings.{IsShut, reset_password_shuts}
use cabinet_numismatics.Auth.Accounts.Upkeep.{usable_browser, prune, prune_harmless}
use cabinet_numismatics.Prelude.Keep.{keep}
use cabinet_numismatics.Auth.Rows.{Session, ApiToken, KnownBrowser, read, password}
use cabinet_numismatics.Auth.Devices

abbrev same_text : String → String
same_text s = s

abbrev never : String → Bool
never s = false

abbrev unparsed : String → Option Address
unparsed s = none

abbrev tools : Tools
tools = record {
  digest = same_text;
  argon = str_eq;
  hash_password = same_text;
  needs_rehash = never;
  lower = same_text;
  ip_address = unparsed;
}

abbrev alice : User
alice = record {
  id = 1;
  username = "alice";
  password_hash = some "correct horse";
  role = "admin";
  is_active = true;
  created_at = 0;
  last_login_at = none;
  password_changed_at = none;
}

abbrev laptop : KnownDevice
laptop = record {
  id = 3;
  secret_hash = "digest";
  user_id = 1;
  created_at = 0;
  expires_at = 1_000;
  failures = 4;
}

abbrev db : Db
db = record {
  users = alice ∷ [];
  claim = some 1;
  sessions = [];
  tokens = [];
  devices = laptop ∷ [];
  browsers = [];
  identities = [];
  audit = [];
  next_id = 4;
}

abbrev world : World
world = record { db = db; committed = db; throttle = empty }

-- Alice's name has had five failures at time 0.
abbrev five_failures : Entry
five_failures = record { failures = 5; last = 0 }

abbrev slow_world : World
slow_world = record world {
  throttle = record empty { entries = (user_key "alice", five_failures) ∷ [] };
}

abbrev soon : Moment
soon = record { flag = none; at = 10 }

abbrev readings : Readings
readings = record {
  attempt_at = soon;
  global_at = soon;
  user_at = 10;
  addr_at = 10;
  now = 500;
  slot_free = true;
}

abbrev secrets : Secrets
secrets = record { session = "s"; device = "d"; browser = "b" }

abbrev home : Client
home = record { address = some "192.0.2.1"; user_agent = none; device = none; browser = none }

abbrev guess : Asked
guess = record {
  account = some alice;
  key = "alice";
  password = "wrong";
  client = home;
  during = "sign_in";
  kind = "anonymous";
}

abbrev new_session : Answer → Option Started
new_session (started s) = some s
new_session _ = none

abbrev opened : Started
opened = record {
  user = record alice { last_login_at = some 500 };
  session =
      Sessions.create same_text 4 "s" 500 1
        (record { address = some "192.0.2.1"; user_agent = none })
        cabinet_numismatics.Auth.Rows.password none;
  session_secret = "s";
  device_secret = "d";
  browser_secret = some "b";
  previous_sign_in_at = none;
  failed_since_previous = 0;
  new_device = true;
}

sign_in_sound_example : IsPassword tools (some alice) "correct horse"
unfolding sign_in check_password pass_throttles reserve_device account_named normalize_username
    text_length all_class is_username_char user_named lower_ascii Devices.find attempt longest_wait
    waiting live get failed stored_hash succeeded bucket_key actor_of note put_user remember_browser
    start Audit.count Audit.delete_old Audit.delete_upto Audit.enforce_caps Audit.entry Audit.id_at
    Audit.own_cap Audit.trim find find_hash issue clip is_secret_char well_formed
    Devices.device_by_hash Devices.device_by_id Devices.failed Devices.forget Devices.issue
    Devices.release Devices.reserve verify Sessions.create erase evict key_eq push check_global
    count count_all count_each fail pop_old succeed until_oldest apply_reset_flag bucket_map bump
    key_of set_map share_address wait_of matches_class take_text
sign_in_sound_example =
    sign_in_sound tools readings secrets true "Alice" "correct horse" home world opened refl

check_password_blind_example :
    check_password tools readings
      (record guess { account = none; password = "correct horse" })
      none
      slow_world
    ≡ check_password tools readings guess none slow_world
unfolding check_password pass_throttles reserve_device attempt longest_wait waiting live get
    bucket_map apply_reset_flag key_eq wait_of
check_password_blind_example =
    check_password_blind tools readings guess none "correct horse" none slow_world 999_999_990 refl

check_password_known_device_example :
    ((check_password tools readings guess (some laptop) world).1
      ≡ outcome_of
          (verify tools.argon readings.slot_free (stored_hash guess.account) guess.password))
    × ((check_password tools readings guess (some laptop) world).1 ≡ rejected
        → used 3 (check_password tools readings guess (some laptop) world).0.db.devices ≡ none)
    × ((check_password tools readings guess (some laptop) world).1 ≡ accepted
        → (check_password tools readings guess (some laptop) world).0.db.devices ≡ laptop ∷ [])
check_password_known_device_example =
    check_password_known_device tools readings guess laptop world 4 (omega arith, tt, tt) refl
      (omega arith)

abbrev cli : Audit.Actor
cli = record { kind = "cli"; user_id = none; label = some "cli"; address = none; user_agent = none }

reset_password_shuts_example :
    (user : User) × (admin db ≡ some user)
    × IsShut user.id (reset_password tools true 600 "a new long password" cli world).0.committed
unfolding reset_password admin Sessions.user_by_id check_password_rules text_length
reset_password_shuts_example =
    reset_password_shuts tools true 600 "a new long password" cli world refl

abbrev seen_session : Session
seen_session = record {
  id = 20;
  secret_hash = "live";
  user_id = 1;
  auth_method = password;
  created_at = 500;
  last_seen_at = 550;
  expires_at = 5000;
  confirmed_until = none;
  user_agent = none;
  address = none;
  revoked_at = none;
  identity_id = none;
  notice_failed = none;
  notice_since = none;
}

abbrev script : ApiToken
script = record {
  id = 21;
  public_id = "abcdefghi2";
  secret_hash = "hash";
  user_id = 1;
  name = "script";
  scope = read;
  created_at = 500;
  last_used_at = none;
  expires_at = none;
  revoked_at = none;
}

abbrev browser : KnownBrowser
browser = record {
  id = 22;
  user_id = 1;
  secret_hash = "b";
  created_at = 100;
  last_seen_at = 100;
  expires_at = 9000;
}

-- Of each table, a row that works and one that has expired.
abbrev used_world : World
used_world = record world {
  db = record db {
    sessions = seen_session ∷ (record seen_session { id = 23; expires_at = 560 }) ∷ [];
    devices = laptop ∷ (record laptop { id = 24; expires_at = 560 }) ∷ [];
    browsers = browser ∷ (record browser { id = 25; expires_at = 560 }) ∷ [];
    tokens = script ∷ (record script { id = 26; revoked_at = some 0 }) ∷ [];
  };
}

prune_harmless_example :
    (Sessions.live 1 (alice ∷ []) 700 (prune 600 used_world).db.sessions
      ≡ Sessions.live 1 (alice ∷ []) 700 used_world.db.sessions)
    × (Tokens.live 1 700 (prune 600 used_world).db.tokens ≡ Tokens.live 1 700 used_world.db.tokens)
    × (keep (Devices.usable 1 700) (prune 600 used_world).db.devices
        ≡ keep (Devices.usable 1 700) used_world.db.devices)
    × (keep (usable_browser 1 700) (prune 600 used_world).db.browsers
        ≡ keep (usable_browser 1 700) used_world.db.browsers)
prune_harmless_example = prune_harmless 1 (alice ∷ []) 600 700 used_world (omega arith)

abbrev google : Identity
google = record {
  id = 2;
  user_id = 1;
  kind = "provider";
  provider_id = some 1;
  issuer = "https://accounts.example";
  subject = "7";
  display = none;
  linked_at = 0;
  last_used_at = none;
}
