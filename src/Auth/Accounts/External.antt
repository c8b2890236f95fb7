-- ===== src/Auth/Accounts/External.antt =====
-- Sessions through a provider or the trusted header (backend/app/auth/accounts.py).
use cabinet_numismatics.Prelude.{
  ℕ, ◌+◌, ◌≡◌, refl, String, not, Option, none, some, List, [], ◌∷◌, ◌++◌, ◌==◌, if◌then◌else◌,
  arith,
}
use cabinet_numismatics.Auth.Rows.{User, Session, Method, Identity, Db}
use cabinet_numismatics.Auth.Audit
use cabinet_numismatics.Auth.Sessions
use cabinet_numismatics.Auth.Accounts.World.{
  World, commit, Tools, Client, Secrets, actor_of, note, put_user, origin_of, remember_browser,
}
use cabinet_numismatics.Auth.Accounts.Changes.{Changed, done, not_found}

-- An UPDATE of the one identity with this id.
unfoldable pub put_identity : Identity → List Identity → List Identity
put_identity row [] = []
put_identity row (x ∷ xs) = if x.id == row.id then row ∷ xs else x ∷ put_identity row xs

abbrev pub end_found : ℕ → Option (Session × User) → List Session → List Session
end_found now none rows = rows
end_found now (some (old, user)) rows = Sessions.put (Sessions.revoke now old) rows

-- `Started`, of a sign-in from outside: no known device, and no new one.
pub record StartedOutside : Type 0 where
  pub session : Session
  pub session_secret : String
  pub browser_secret : Option String
  pub previous_sign_in_at : Option ℕ
  pub failed_since_previous : ℕ

abbrev pub browser_only : Option String → Client
browser_only secret = record { address = none; user_agent = none; device = none; browser = secret }

-- The new session's row, with the notice of the failed sign-ins.
unfoldable pub outside_session :
    Tools → Secrets → ℕ → ℕ → User → Identity → Client → Method → ℕ → Session
outside_session t s id now user identity c method failed =
    record (Sessions.create t.digest id s.session now user.id (origin_of c) method
      (some identity.id)) { notice_failed = some failed; notice_since = user.last_login_at }

-- The rest of `start_external` for an external method.
abbrev pub start_outside :
    Tools
    → Secrets
    → ℕ
    → User
    → Identity
    → Client
    → Method
    → Option String
    → Option String
    → World
    → World × StartedOutside
start_outside t s now user identity c method browser_secret presented w =
    let held = Sessions.find t.digest presented w.db.sessions w.db.users now in
    let failed = Audit.count Audit.failed (some user.username) user.last_login_at w.db.audit in
    let row = outside_session t s w.db.next_id now user identity c method failed in
    let db1 = record w.db {
      sessions = end_found now held w.db.sessions ++ row ∷ [];
      next_id = w.db.next_id + 1;
    } in
    let (db2, secret) = remember_browser t s now user (browser_only browser_secret) db1 in
    let db3 = record db2 {
      identities = put_identity (record identity { last_used_at = some now }) db2.identities;
      users = put_user (record user { last_login_at = some now }) db2.users;
    } in
    (
      commit (record w {
        db =
            note now "sign_in" (actor_of c "session" (some user) none) none
              ("method" ∷ "new_browser" ∷ []) db3;
      }),
      record {
        session = row;
        session_secret = s.session;
        browser_secret = secret;
        previous_sign_in_at = user.last_login_at;
        failed_since_previous = failed;
      },
    )

abbrev pub some_started : World × StartedOutside → World × Option StartedOutside
some_started (w, opened) = (w, some opened)

-- `start_external`; `none` is the `ValueError`.
unfoldable pub start_external :
    Tools
    → Secrets
    → ℕ
    → User
    → Identity
    → Client
    → Method
    → Option String
    → Option String
    → World
    → World × Option StartedOutside
start_external t s now user identity c method browser_secret presented w =
    if Sessions.is_external method
    then some_started (start_outside t s now user identity c method browser_secret presented w)
    else (w, none)

unfoldable pub identity_by_id : ℕ → List Identity → Option Identity
identity_by_id i [] = none
identity_by_id i (x ∷ xs) = if x.id == i then some x else identity_by_id i xs

unfoldable pub without_identity : ℕ → List Identity → List Identity
without_identity i [] = []
without_identity i (x ∷ xs) =
    let rest = without_identity i xs in if x.id == i then rest else x ∷ rest

abbrev pub unlinked_from : ℕ → Option ℕ → Option ℕ
unlinked_from i none = none
unlinked_from i (some j) = if j == i then none else some j

-- `ON DELETE SET NULL` of the sessions' column
unfoldable pub clear_identity : ℕ → List Session → List Session
clear_identity i [] = []
clear_identity i (row ∷ rows) =
    record row { identity_id = unlinked_from i row.identity_id } ∷ clear_identity i rows

abbrev pub unlink_found :
    ℕ → User → String → Audit.Actor → World → Option Identity → World × Changed
unlink_found now user target actor w none = (w, not_found)
unlink_found now user target actor w (some row) =
    if not (row.user_id == user.id) then (w, not_found) else (
      commit (record w {
        db =
            note now "identity_unlinked" actor (some target)
              ("kind" ∷ "provider_id" ∷ "issuer" ∷ "subject" ∷ "sessions_ended" ∷ [])
              (record w.db {
                sessions =
                    clear_identity row.id
                      (Sessions.revoke_for_identities (row.id ∷ []) now w.db.sessions).0;
                identities = without_identity row.id w.db.identities;
              });
      }),
      done,
    )

-- `unlink_identity`; `target` is the text `identity {id}`.
unfoldable pub unlink_identity : ℕ → User → ℕ → String → Audit.Actor → World → World × Changed
unlink_identity now user id target actor w =
    unlink_found now user target actor w (identity_by_id id w.db.identities)

remember_browser-devices :
    (t : Tools) (s : Secrets) (now : ℕ) (user : User) (c : Client) (db : Db)
    → (remember_browser t s now user c db).0.devices ≡ db.devices
unfolding remember_browser
remember_browser-devices t s now user c db = ground arith

start_outside-devices :
    (t : Tools) (s : Secrets) (now : ℕ) (user : User) (identity : Identity) (c : Client)
    (method : Method) (browser_secret presented : Option String) (w : World)
    → (start_outside t s now user identity c method browser_secret presented w).0.db.devices
      ≡ w.db.devices
unfolding note
start_outside-devices t s now user identity c method browser_secret presented w =
    remember_browser-devices t s now user (browser_only browser_secret) _

-- A sign-in through a provider or the trusted header, whatever its method, leaves the table of known
-- devices as it was: it buys no attempt at the password that the throttles do not slow.
pub start_external_no_device :
    (t : Tools) (s : Secrets) (now : ℕ) (user : User) (identity : Identity) (c : Client)
    (method : Method) (browser_secret presented : Option String) (w : World)
    → (start_external t s now user identity c method browser_secret presented w).0.db.devices
      ≡ w.db.devices
unfolding start_external
start_external_no_device t s now user identity c Method.password browser_secret presented w = refl
start_external_no_device t s now user identity c Method.oidc browser_secret presented w =
    start_outside-devices t s now user identity c Method.oidc browser_secret presented w
start_external_no_device t s now user identity c Method.trusted_header browser_secret presented w =
    start_outside-devices t s now user identity c Method.trusted_header browser_secret presented w
