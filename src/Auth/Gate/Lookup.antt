-- ===== src/Auth/Gate/Lookup.antt =====
-- The look-up of a credential (`_lookup` of backend/app/auth/gate.py), in one step of the database.
use cabinet_numismatics.Prelude.{
  ℕ, String, Bool, false, not, Option, none, some, List, if◌then◌else◌,
}
use cabinet_numismatics.Prelude.Text.{take_text, is_empty}
use cabinet_numismatics.Auth.Rows.{User, Session, ApiToken, Db}
use cabinet_numismatics.Auth.Sessions
use cabinet_numismatics.Auth.Tokens
use cabinet_numismatics.Auth.Tokens.Credentials.{authenticate}
use cabinet_numismatics.Auth.Permissions.{Principal, Kind}
use cabinet_numismatics.Auth.Gate.Requests.{header}
use cabinet_numismatics.Auth.Gate.Csrf.{Origins}

-- What the gate reads outside the request and the database. `grant` is `restore.granted`; `sharing`
-- is the switch in memory, and `loaded` what the database gives for it, off where that fails.
pub record Env : Type 0 where
  pub digest : String → String
  pub insecure_http : Bool
  pub origins : Origins
  pub maintenance : Bool
  pub grant : String → Option Principal
  pub sharing : Option Bool
  pub loaded : Bool
  pub now : ℕ

pub data Outcome : Type 0 where
  -- an error response with this status
  respond : ℕ → String → Outcome
  -- the application is called, with this principal
  pass : Option Principal → Outcome
  -- no HTTP request: the application is called as it is
  forward : Outcome

pub data Found : Type 0 where
  invalid cross_site nobody : Found
  found : Principal → Found

-- What a principal has of the request: its address and browser.
pub record Meta : Type 0 where
  pub address : Option String
  pub user_agent : Option String

abbrev pub nonempty : String → Option String
nonempty s = if is_empty s then none else some s

abbrev pub text_or_empty : Option String → String
text_or_empty none = ""
text_or_empty (some s) = s

unfoldable pub meta_of : List (String × String) → Meta
meta_of hs = record {
  address = nonempty (take_text 45 (text_or_empty (header "x-real-ip" hs)));
  user_agent = nonempty (take_text 256 (text_or_empty (header "user-agent" hs)));
}

abbrev pub token_principal : ApiToken → User → Meta → Principal
token_principal row user m = record {
  user_id = user.id;
  username = user.username;
  kind = Kind.token;
  scope = some row.scope;
  session_id = none;
  token_id = some row.id;
  confirmed = false;
  session_hash = none;
  address = m.address;
  user_agent = m.user_agent;
}

abbrev pub session_principal : Session → User → Bool → String → Meta → Principal
session_principal row user confirmed hash m = record {
  user_id = user.id;
  username = user.username;
  kind = Kind.session;
  scope = none;
  session_id = some row.id;
  token_id = none;
  confirmed = confirmed;
  session_hash = some hash;
  address = m.address;
  user_agent = m.user_agent;
}

abbrev pub lookup_token : Meta → ℕ → Db → Option (ApiToken × User) → Db × Found
lookup_token m now db none = (db, invalid)
lookup_token m now db (some (row, user)) =
    let (row', wrote) = Tokens.touch now row in
    (
      if wrote then record db { tokens = Tokens.put row' db.tokens } else db,
      found (token_principal row user m),
    )

abbrev pub lookup_session :
    (String → String) → Option String → Meta → Bool → ℕ → Db → Option (Session × User) → Db × Found
lookup_session digest c m csrf_ok now db none = (db, nobody)
lookup_session digest c m csrf_ok now db (some (row, user)) =
    let (row', wrote) = Sessions.touch now row in
    if not csrf_ok then (db, cross_site) else (
      if wrote then record db { sessions = Sessions.put row' db.sessions } else db,
      found (session_principal row user (Sessions.confirmed now row) (digest (text_or_empty c)) m),
    )

-- `_lookup`
abbrev pub lookup : Env → Option String → Option String → Meta → Bool → Db → Db × Found
lookup env (some credential) c m csrf_ok db =
    lookup_token m env.now db (authenticate env.digest credential db.tokens db.users env.now)
lookup env none c m csrf_ok db =
    lookup_session env.digest c m csrf_ok env.now db
      (Sessions.find env.digest c db.sessions db.users env.now)
