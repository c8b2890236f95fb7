-- ===== src/Auth/Gate/Examples.antt =====
-- The gate on concrete requests (backend/app/auth/gate.py and backend/app/auth/permissions.py).
use cabinet_numismatics.Prelude.Split.{split_on}
use cabinet_numismatics.Prelude.{
  ◌+◌, ◌≡◌, refl, ◌⊎◌, String, true, false, Option, none, some, [], ◌∷◌,
}
use cabinet_numismatics.Prelude.Text.{
  after_prefix, lower_ascii, strip, matches_class, is_space, split_word, strip_left, strip_right,
  take_text,
}
use cabinet_numismatics.Auth.Common.{well_formed, is_secret_char}
use cabinet_numismatics.Auth.Tokens.Credentials.{bearer}
use cabinet_numismatics.Auth.Rows.{User, Session, Db, Method}
use cabinet_numismatics.Auth.Sessions
use cabinet_numismatics.Auth.Permissions.{
  Principal, Declared, Class, Allowed, check, check_iff, require_permission, granted,
}
use cabinet_numismatics.Auth.Gate.Requests.{
  Request, path_of, among, has_percent, before_query, header, cookie, cookie_among, partition_eq,
}
use cabinet_numismatics.Auth.Gate.Csrf.{Origins, csrf_site, site, csrf_allows}
use cabinet_numismatics.Auth.Gate.Lookup.{Env, pass, session_principal, Meta, meta_of}
use cabinet_numismatics.Auth.Gate.Calls.{
  anonymous, decide, credential_found, cookie_name, share_view, call,
}
use cabinet_numismatics.Auth.Gate.Denial.{
  ByToken, BySession, Reached, reached, call-anonymous, closed_route, call_cross_site,
}

abbrev secret : String
secret = "0123456789012345678901234567890123456789abc"

abbrev same_text : String → String
same_text s = s

abbrev alice : User
alice = record {
  id = 1;
  username = "alice";
  password_hash = some "hash";
  role = "admin";
  is_active = true;
  created_at = 0;
  last_login_at = none;
  password_changed_at = none;
}

abbrev nowhere : Sessions.Origin
nowhere = record { address = none; user_agent = none }

abbrev opened : Session
opened = record {
  id = 5;
  secret_hash = secret;
  user_id = 1;
  auth_method = Method.password;
  created_at = 100;
  last_seen_at = 100;
  expires_at = 100 + Sessions.lifetime;
  confirmed_until = none;
  user_agent = none;
  address = none;
  revoked_at = none;
  identity_id = none;
  notice_failed = none;
  notice_since = none;
}

abbrev db : Db
db = record {
  users = alice ∷ [];
  claim = some 1;
  sessions = opened ∷ [];
  tokens = [];
  devices = [];
  browsers = [];
  identities = [];
  audit = [];
  next_id = 6;
}

-- Origins are read as they are.
abbrev plain_origin : String → Option String
plain_origin s = some s

abbrev origins : Origins
origins = record { origin_of = plain_origin; public_origins = "https://cabinet.example" ∷ [] }

abbrev no_grant : String → Option Principal
no_grant s = none

abbrev env : Env
env = record {
  digest = same_text;
  insecure_http = false;
  origins = origins;
  maintenance = false;
  grant = no_grant;
  sharing = some false;
  loaded = false;
  now = 200;
}

-- A request with the session's cookie, from a page of this kind of site.
abbrev request : String → Request
request from = record {
  is_http = true;
  method = "GET";
  raw = "/api/coins?page=2";
  headers =
      ("Cookie", "__Host-cabinet_session=0123456789012345678901234567890123456789abc")
      ∷ ("Sec-Fetch-Site", from)
      ∷ [];
}

abbrev health : Request
health = record { is_http = true; method = "GET"; raw = "/api/health"; headers = [] }

abbrev nothing : Meta
nothing = record { address = none; user_agent = none }

abbrev signed_in : Principal
signed_in = session_principal opened alice false secret nothing

abbrev coins : Declared
coins = record { cls = Class.read; metrics_ok = false; fresh = false }

-- The request from Cabinet's own pages is alice's.
signed_in-passes : (call env (request "same-origin") db).1 ≡ pass (some signed_in)
unfolding call has_percent before_query among share_view after_prefix decide credential_found bearer
    header lower_ascii well_formed cookie strip cookie_name matches_class is_secret_char csrf_allows
    csrf_site site meta_of cookie_among partition_eq split_on Sessions.confirmed Sessions.find
    Sessions.put Sessions.session_by_hash Sessions.touch Sessions.user_by_id Sessions.valid
    Sessions.with_user is_space split_word strip_left strip_right take_text
signed_in-passes = refl

call-anonymous_example :
    (share_view env health ≡ true) ⊎ (among "GET" (path_of health) anonymous ≡ true)
unfolding call has_percent before_query among share_view after_prefix decide credential_found bearer
    header well_formed cookie
call-anonymous_example = call-anonymous env health db refl refl

signed_in-reaches : Reached env (request "same-origin") db coins (some signed_in)
unfolding require_permission check
signed_in-reaches = reached (some signed_in) signed_in-passes refl

closed_route_example :
    (p : Principal) × (some signed_in ≡ some p)
    × (ByToken env (request "same-origin") db p ⊎ BySession env (request "same-origin") db p)
    × Allowed (some p) Class.read false false
closed_route_example =
    closed_route env (request "same-origin") db coins (some signed_in) refl refl signed_in-reaches

call_cross_site_example : (call env (request "cross-site") db).0 ≡ db
unfolding bearer header lower_ascii csrf_allows site strip before_query
call_cross_site_example = call_cross_site env (request "cross-site") db refl refl

check_iff_example :
    (check (some signed_in) Class.admin false false ≡ granted
      → Allowed (some signed_in) Class.admin false false)
    × (Allowed (some signed_in) Class.admin false false
        → check (some signed_in) Class.admin false false ≡ granted)
check_iff_example = check_iff (some signed_in) Class.admin false false
