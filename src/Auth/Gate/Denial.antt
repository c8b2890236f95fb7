-- ===== src/Auth/Gate/Denial.antt =====
-- Who gets past the gate (backend/app/auth/gate.py), and with layer 2 behind it, who reaches a
-- handler.
use cabinet_numismatics.Prelude.{
  ℕ, ◌≡◌, refl, ap, ◌∙◌, ◌⊎◌, inl, inr, String, Bool, true, false, Option, none, some, arith,
  Bool-cases,
}
use cabinet_numismatics.Auth.Common.{well_formed}
use cabinet_numismatics.Auth.Rows.{User, Session, ApiToken, Db}
use cabinet_numismatics.Auth.Sessions
use cabinet_numismatics.Auth.Tokens.Credentials.{authenticate}
use cabinet_numismatics.Auth.Permissions.{
  Principal, Kind, Declared, is_open, Allowed, check_iff, require_permission, granted, check,
}
use cabinet_numismatics.Auth.Gate.Requests.{Request, path_of, among}
use cabinet_numismatics.Auth.Gate.Csrf.{csrf_allows}
use cabinet_numismatics.Auth.Gate.Lookup.{
  Env, pass, Found, nobody, found, Meta, meta_of, text_or_empty, token_principal, session_principal,
  lookup_token, lookup_session,
}
use cabinet_numismatics.Auth.Gate.Calls.{
  anonymous, no_lookup, is_safe, is_write, decide, look_up_by, cookie_of, bearer_of,
  credential_found, share_view, call,
}

abbrev pub csrf_ok : Env → Request → Bool
csrf_ok env r = csrf_allows env.origins r.method (path_of r) r.headers

-- The principal is that of a token which the request carries and which authenticates.
pub record ByToken (env : Env) (r : Request) (db : Db) (p : Principal) : Type 0 where
  pub credential : String
  pub row : ApiToken
  pub user : User
  pub carried : bearer_of r ≡ some credential
  pub authentic : authenticate env.digest credential db.tokens db.users env.now ≡ some (row, user)
  pub principal : p ≡ token_principal row user (meta_of r.headers)

-- The principal is that of a live session which the request's cookie names; the request carries no
-- token, and comes from Cabinet's own pages.
pub record BySession (env : Env) (r : Request) (db : Db) (p : Principal) : Type 0 where
  pub row : Session
  pub user : User
  pub no_token : bearer_of r ≡ none
  pub live :
      Sessions.find env.digest (cookie_of env r) db.sessions db.users env.now ≡ some (row, user)
  pub same_site : csrf_ok env r ≡ true
  pub principal :
      p
      ≡ session_principal row user
          (Sessions.confirmed env.now row)
          (env.digest (text_or_empty (cookie_of env r)))
          (meta_of r.headers)

token-found :
    (m : Meta) (now : ℕ) (db : Db) (o : Option (ApiToken × User)) (p : Principal)
    → (lookup_token m now db o).1 ≡ found p
    → (row : ApiToken) × (user : User) × (o ≡ some (row, user)) × (p ≡ token_principal row user m)
token-found m now db none p h = absurd (ground arith)
token-found m now db (some (row, user)) p h = (row, user, refl, ground arith)

session-found :
    (digest : String → String) (c : Option String) (m : Meta) (ok : Bool) (now : ℕ) (db : Db)
    (o : Option (Session × User)) (p : Principal)
    → (lookup_session digest c m ok now db o).1 ≡ found p
    → (row : Session) × (user : User) × (o ≡ some (row, user))
      × (ok ≡ true)
      × (p ≡ session_principal row user (Sessions.confirmed now row) (digest (text_or_empty c)) m)
session-found digest c m ok now db none p h = absurd (ground arith)
session-found digest c m true now db (some (row, user)) p h = (row, user, refl, refl, ground arith)
session-found digest c m false now db (some (row, user)) p h = absurd (ground arith)

by-found :
    (env : Env) (r : Request) (db : Db) (b : Option String) (p : Principal)
    → bearer_of r ≡ b
    → (look_up_by env r db (cookie_of env r) b).1 ≡ found p
    → ByToken env r db p ⊎ BySession env r db p
by-found env r db (some credential) p e h =
    let (row, user, ok, same) = token-found (meta_of r.headers) env.now db _ p h in
    inl (record {
      credential = credential;
      row = row;
      user = user;
      carried = e;
      authentic = ok;
      principal = same;
    })
by-found env r db none p e h = elim (Bool-cases (well_formed (cookie_of env r))) [
  | inl shaped ↦
      let (row, user, ok, site, same) =
        session-found env.digest (cookie_of env r) (meta_of r.headers) (csrf_ok env r) env.now db _
          p (rw shaped at h) in
      inr (record {
        row = row;
        user = user;
        no_token = e;
        live = ok;
        same_site = site;
        principal = same;
      })
  | inr other ↦ absurd (ground arith)
]

decide-some :
    (r : Request) (f : Found) (p : Principal)
    → decide r f ≡ pass (some p)
    → (f ≡ found p)
      × (p.kind ≡ Kind.token
          → is_write p.scope ≡ false
          → (is_safe r.method ≡ true) ⊎ (among r.method (path_of r) anonymous ≡ true))
unfolding decide
decide-some r f p h = (
  ground arith,
  λ k low. elim (Bool-cases (is_safe r.method)) [
    | inl safe ↦ inl safe
    | inr unsafe ↦ elim (Bool-cases (among r.method (path_of r) anonymous)) [
      | inl listed ↦ inr listed
      | inr other ↦ absurd (ground arith)
    ]
  ],
)

decided :
    (env : Env) (r : Request) (db : Db) (p : Principal)
    → env.maintenance ≡ false
    → (call env r db).1 ≡ pass (some p)
    → decide r (credential_found env r db).1 ≡ pass (some p)
unfolding call
decided env r db p up h = ground arith

-- Outside maintenance a principal behind the gate is that of a credential in the request: a token
-- that authenticates, or a live session whose request comes from Cabinet's own pages. A token with
-- less than the write scope gets past it only by a safe method or on an anonymous route.
pub call_principal :
    (env : Env) (r : Request) (db : Db) (p : Principal)
    → env.maintenance ≡ false
    → (call env r db).1 ≡ pass (some p)
    → (ByToken env r db p ⊎ BySession env r db p)
      × (p.kind ≡ Kind.token
          → is_write p.scope ≡ false
          → (is_safe r.method ≡ true) ⊎ (among r.method (path_of r) anonymous ≡ true))
call_principal env r db p up h =
    let (f, scope) = decide-some r (credential_found env r db).1 p (decided env r db p up h) in
    (by-found env r db (bearer_of r) p refl (unfold credential_found in f), scope)

no_lookup-anonymous :
    (method path : String) → among method path no_lookup ≡ true → among method path anonymous ≡ true
unfolding among
no_lookup-anonymous method path h = ground arith

decide-none :
    (r : Request) (f : Found)
    → decide r f ≡ pass none
    → (f ≡ nobody) × (among r.method (path_of r) anonymous ≡ true)
unfolding decide
decide-none r f h = ground arith

-- Deny by default: outside maintenance a request passes with no principal only under the share view
-- while sharing is on, or on one of the seven anonymous routes.
pub call-anonymous :
    (env : Env) (r : Request) (db : Db)
    → env.maintenance ≡ false
    → (call env r db).1 ≡ pass none
    → (share_view env r ≡ true) ⊎ (among r.method (path_of r) anonymous ≡ true)
unfolding call
call-anonymous env r db up h = elim (Bool-cases (share_view env r)) [
  | inl shared ↦ inl shared
  | inr other ↦ elim (Bool-cases (among r.method (path_of r) no_lookup)) [
    | inl skipped ↦ inr (no_lookup-anonymous r.method (path_of r) skipped)
    | inr looked_up ↦ inr (decide-none r (credential_found env r db).1 (ground arith)).1
  ]
]

-- Both layers: the principal with which a handler runs that declares `d`.
pub data Reached (env : Env) (r : Request) (db : Db) (d : Declared)
    : Option Principal → Type 0 where
  reached :
      (who : Option Principal)
      → (call env r db).1 ≡ pass who
      → require_permission false (some d) who ≡ granted
      → Reached env r db d who

closed-who :
    (d : Declared) (who : Option Principal)
    → is_open d.cls ≡ false
    → require_permission false (some d) who ≡ granted
    → (p : Principal) × (who ≡ some p) × Allowed (some p) d.cls d.metrics_ok d.fresh
unfolding require_permission
closed-who d none closed h = absurd (unfold check in ground arith)
closed-who d (some p) closed h = (p, refl, (check_iff (some p) d.cls d.metrics_ok d.fresh).0 h)

-- Outside maintenance a handler that declares the read, write or admin class runs only for a
-- credential in the request: a token that authenticates or a live session from Cabinet's own pages,
-- whose principal the table of layer 2 lets through.
pub closed_route :
    (env : Env) (r : Request) (db : Db) (d : Declared) (who : Option Principal)
    → env.maintenance ≡ false
    → is_open d.cls ≡ false
    → Reached env r db d who
    → (p : Principal) × (who ≡ some p)
      × (ByToken env r db p ⊎ BySession env r db p)
      × Allowed (some p) d.cls d.metrics_ok d.fresh
closed_route env r db d who up closed (reached w passed ok) =
    let (p, same, allowed) = closed-who d who closed ok in
    (p, same, (call_principal env r db p up (passed ∙ ap pass same)).0, allowed)

refused-db :
    (digest : String → String) (c : Option String) (m : Meta) (now : ℕ) (db : Db)
    (o : Option (Session × User))
    → (lookup_session digest c m false now db o).0 ≡ db
refused-db digest c m now db none = refl
refused-db digest c m now db (some (row, user)) = refl

by-db :
    (env : Env) (r : Request) (db : Db)
    → csrf_ok env r ≡ false
    → (look_up_by env r db (cookie_of env r) none).0 ≡ db
by-db env r db other = elim (Bool-cases (well_formed (cookie_of env r))) [
  | inl shaped ↦
      let same =
        refused-db env.digest (cookie_of env r) (meta_of r.headers) env.now db
          (Sessions.find env.digest (cookie_of env r) db.sessions db.users env.now) in
      rw shaped (rw other (same))
  | inr _ ↦ ground arith
]

nothing_written :
    (env : Env) (r : Request) (db : Db)
    → bearer_of r ≡ none
    → csrf_ok env r ≡ false
    → (credential_found env r db).0 ≡ db
unfolding credential_found
nothing_written env r db no_token other = rw no_token (by-db env r db other)

-- For a request with no token that is not from Cabinet's own pages, the gate itself writes nothing to
-- the database: it notes no use of a session, so such a request does not keep one alive. What the
-- handler of a request does that the gate lets through is not part of this.
pub call_cross_site :
    (env : Env) (r : Request) (db : Db)
    → bearer_of r ≡ none
    → csrf_ok env r ≡ false
    → (call env r db).0 ≡ db
unfolding call
call_cross_site env r db no_token other = ground (arith, nothing_written env r db no_token other)
