-- ===== src/Auth/Gate/Calls.antt =====
-- One request through the gate (`AuthGate.__call__` of backend/app/auth/gate.py).
use text.Mathlib.Text.{◌==◌ as str_eq}
use cabinet_numismatics.Prelude.{
  ℕ, ◌*◌, String, Bool, true, false, not, ◌&&◌, ◌||◌, Option, none, some, List, [], ◌∷◌, ltb,
  if◌then◌else◌,
}
use cabinet_numismatics.Prelude.Text.{after_prefix}
use cabinet_numismatics.Auth.Common.{well_formed}
use cabinet_numismatics.Auth.Rows.{Db, Scope}
use cabinet_numismatics.Auth.Tokens.Credentials.{bearer}
use cabinet_numismatics.Auth.Permissions.{Kind}
use cabinet_numismatics.Auth.Gate.Requests.{
  Request, path_of, has_percent, header, number, cookie, among,
}
use cabinet_numismatics.Auth.Gate.Csrf.{openapi, site, csrf_allows}
use cabinet_numismatics.Auth.Gate.Lookup.{
  Env, Outcome, respond, pass, forward, Found, invalid, cross_site, nobody, found, meta_of,
  text_or_empty, lookup,
}

abbrev pub anonymous : List (String × String)
anonymous =
    ("GET", "/api/health")
    ∷ ("GET", "/api/auth/state")
    ∷ ("POST", "/api/auth/setup")
    ∷ ("POST", "/api/auth/login")
    ∷ ("GET", "/api/auth/oidc/start")
    ∷ ("GET", "/api/auth/oidc/callback")
    ∷ ("POST", "/api/auth/trusted")
    ∷ []

abbrev pub no_lookup : List (String × String)
no_lookup = ("GET", "/api/auth/oidc/callback") ∷ []

abbrev pub small_body : List (String × String)
small_body =
    ("POST", "/api/auth/setup") ∷ ("POST", "/api/auth/login") ∷ ("POST", "/api/auth/trusted") ∷ []

abbrev pub small_body_limit : ℕ
small_body_limit = 8 * 1024

-- `SAFE_METHODS`
unfoldable pub is_safe : String → Bool
is_safe method = str_eq method "GET" || str_eq method "HEAD" || str_eq method "OPTIONS"

abbrev pub is_write : Option Scope → Bool
is_write none = false
is_write (some Scope.read) = false
is_write (some Scope.write) = true
is_write (some Scope.metrics) = false

abbrev pub other_site : Option String → Bool
other_site none = false
other_site (some s) = str_eq s "cross-site" || str_eq s "same-site"

-- The end of `__call__`, once the credential has been looked up.
unfoldable pub decide : Request → Found → Outcome
decide r invalid = respond 401 "This API token is not valid."
decide r cross_site = respond 403 "Cross-site request refused."
decide r nobody =
    if not (among r.method (path_of r) anonymous)
    then respond 401 "Sign in to continue."
    else if among r.method (path_of r) small_body && other_site (site r.headers)
    then respond 403 "Cross-site request refused."
    else pass none
decide r (found p) = elim p.kind [
  | Kind.session ↦ pass (some p)
  | Kind.token ↦
      if str_eq (path_of r) openapi
      then respond 403 "The API schema is for a signed-in session."
      else if not (is_write p.scope)
          && not (is_safe r.method)
          && not (among r.method (path_of r) anonymous)
      then respond 403 "This API token's scope doesn't allow that."
      else pass (some p)
]

unfoldable pub cookie_name : Bool → String
cookie_name true = "cabinet_session"
cookie_name false = "__Host-cabinet_session"

abbrev pub look_up_by : Env → Request → Db → Option String → Option String → Db × Found
look_up_by env r db c (some credential) = lookup env (some credential) c (meta_of r.headers) true db
look_up_by env r db c none =
    if well_formed c
    then lookup env none c (meta_of r.headers)
        (csrf_allows env.origins r.method (path_of r) r.headers) db
    else (db, nobody)

abbrev pub cookie_of : Env → Request → Option String
cookie_of env r = cookie (cookie_name env.insecure_http) r.headers

abbrev pub bearer_of : Request → Option String
bearer_of r = bearer (header "authorization" r.headers)

-- The principal of the request's credential: the session is looked up only for a cookie of the right
-- shape, and the token's request is under no rule on its site.
unfoldable pub credential_found : Env → Request → Db → Db × Found
credential_found env r db = look_up_by env r db (cookie_of env r) (bearer_of r)

-- During maintenance: the restore status for the holder of the grant, and health for everyone.
unfoldable pub maintained : Env → Request → Outcome
maintained env r =
    let c = cookie_of env r in
    if str_eq r.method "GET" && str_eq (path_of r) "/api/restore/status"
    then elim (env.grant (if well_formed c then env.digest (text_or_empty c) else "")) [
      | none ↦ respond 401 "Sign in to continue."
      | some p ↦ pass (some p)
    ]
    else if str_eq r.method "GET" && str_eq (path_of r) "/api/health"
    then pass none
    else respond 503 "Cabinet is restoring a backup; try again in a moment"

-- `_sharing_on`
abbrev pub sharing_on : Env → Bool
sharing_on env = elim env.sharing [ some on ↦ on | none ↦ env.loaded ]

-- A GET or HEAD under the share view, while sharing is on.
unfoldable pub share_view : Env → Request → Bool
share_view env r =
    (str_eq r.method "GET" || str_eq r.method "HEAD")
    && (elim (after_prefix "/api/share/" (path_of r)) [ none ↦ false | some _ ↦ true ])
    && sharing_on env

abbrev pub over_limit : Option ℕ → Bool
over_limit none = true
over_limit (some n) = ltb small_body_limit n

abbrev pub length_header : List (String × String) → String
length_header hs = elim (header "content-length" hs) [ none ↦ "0" | some v ↦ v ]

-- `AuthGate.__call__`
unfoldable pub call : Env → Request → Db → Db × Outcome
call env r db =
    if not r.is_http
    then (db, forward)
    else if has_percent (path_of r)
    then (db, respond 400 "Encoded paths are not accepted.")
    else if among r.method (path_of r) small_body && over_limit (number (length_header r.headers))
    then (db, respond 413 "Too large.")
    else if env.maintenance
    then (db, maintained env r)
    else if share_view env r
    then (db, pass none)
    else if among r.method (path_of r) no_lookup
    then (db, pass none)
    else let (db', f) = credential_found env r db in (db', decide r f)
