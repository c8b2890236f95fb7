-- ===== src/Auth/Sessions.antt =====
-- Database-backed sessions (backend/app/auth/sessions.py). The table is a list of rows; an UPDATE
-- gives the new list and the number of rows that it changed. `digest` is SHA-256, and the secret of
-- a new session is an argument, drawn outside.
pub mod Validity
pub mod Revocation
pub mod Examples
use text.Mathlib.Text.{◌==◌ as str_eq}
use cabinet_numismatics.Prelude.{
  ℕ, suc, ◌+◌, ◌*◌, String, Bool, true, false, not, ◌&&◌, ◌||◌, Option, none, some, List, [], ◌∷◌,
  ltb, leb, ◌==◌, if◌then◌else◌,
}
use cabinet_numismatics.Prelude.Sort.{sort_by}
use cabinet_numismatics.Auth.Common.{second, minute, day, well_formed, clip}
use cabinet_numismatics.Auth.Rows.{User, Session, Method, password, oidc, trusted_header}

abbrev pub lifetime : ℕ
lifetime = 7 * day

abbrev pub idle : ℕ
idle = day

abbrev pub confirm_window : ℕ
confirm_window = 5 * minute

abbrev pub touch_every : ℕ
touch_every = minute

abbrev pub is_none : {A : Type 0} → Option A → Bool
is_none none = true
is_none (some _) = false

-- The request's part of a new session.
pub record Origin : Type 0 where
  pub address : Option String
  pub user_agent : Option String

-- The row that `create` adds.
unfoldable pub create :
    (String → String) → ℕ → String → ℕ → ℕ → Origin → Method → Option ℕ → Session
create digest id secret at user_id origin method identity_id = record {
  id = id;
  secret_hash = digest secret;
  user_id = user_id;
  auth_method = method;
  created_at = at;
  last_seen_at = at;
  expires_at = at + lifetime;
  confirmed_until = none;
  user_agent = clip origin.user_agent 256;
  address = clip origin.address 45;
  revoked_at = none;
  identity_id = identity_id;
  notice_failed = none;
  notice_since = none;
}

abbrev pub user_active : Option User → Bool
user_active none = false
user_active (some u) = u.is_active

unfoldable pub valid : Session → Option User → ℕ → Bool
valid row user at =
    is_none row.revoked_at
    && user_active user
    && ltb at row.expires_at
    && ltb at (row.last_seen_at + idle)

unfoldable pub user_by_id : ℕ → List User → Option User
user_by_id i [] = none
user_by_id i (u ∷ us) = if u.id == i then some u else user_by_id i us

unfoldable pub session_by_hash : String → List Session → Option Session
session_by_hash h [] = none
session_by_hash h (s ∷ ss) = if str_eq s.secret_hash h then some s else session_by_hash h ss

-- The join of a session with its account, if both are there and the session is valid.
unfoldable pub with_user : Option Session → List User → ℕ → Option (Session × User)
with_user none users at = none
with_user (some row) users at = elim (user_by_id row.user_id users) [
  | none ↦ none
  | some u ↦ if valid row (some u) at then some (row, u) else none
]

unfoldable pub find :
    (String → String) → Option String → List Session → List User → ℕ → Option (Session × User)
find digest none rows users at = none
find digest (some secret) rows users at =
    if well_formed (some secret)
    then with_user (session_by_hash (digest secret) rows) users at
    else none

-- The row after it, and whether it wrote.
unfoldable pub touch : ℕ → Session → Session × Bool
touch at row =
    if ltb at (row.last_seen_at + touch_every)
    then (row, false)
    else (record row { last_seen_at = at }, true)

unfoldable pub confirm : ℕ → Session → Session
confirm at row = record row { confirmed_until = some (at + confirm_window) }

unfoldable pub confirmed : ℕ → Session → Bool
confirmed at row = elim row.confirmed_until [ none ↦ false | some until ↦ ltb at until ]

unfoldable pub revoke : ℕ → Session → Session
revoke at row = elim row.revoked_at [
  | none ↦ record row { revoked_at = some at; confirmed_until = none }
  | some _ ↦ record row { confirmed_until = none }
]

-- `UPDATE sessions SET revoked_at = at, confirmed_until = NULL WHERE revoked_at IS NULL AND …`
unfoldable pub revoke_where : (Session → Bool) → ℕ → List Session → List Session × ℕ
revoke_where p at [] = ([], 0)
revoke_where p at (row ∷ rows) =
    let (rest, n) = revoke_where p at rows in
    if is_none row.revoked_at && p row
    then (record row { revoked_at = some at; confirmed_until = none } ∷ rest, suc n)
    else (row ∷ rest, n)

unfoldable pub revoke_all : ℕ → ℕ → List Session → List Session × ℕ
revoke_all user_id at rows = revoke_where (λ row. row.user_id == user_id) at rows

abbrev pub mem_ℕ : ℕ → List ℕ → Bool
mem_ℕ x [] = false
mem_ℕ x (y ∷ ys) = x == y || mem_ℕ x ys

abbrev pub through : List ℕ → Option ℕ → Bool
through ids none = false
through ids (some i) = mem_ℕ i ids

unfoldable pub revoke_for_identities : List ℕ → ℕ → List Session → List Session × ℕ
revoke_for_identities [] at rows = (rows, 0)
revoke_for_identities (i ∷ ids) at rows =
    revoke_where (λ row. through (i ∷ ids) row.identity_id) at rows

-- `EXTERNAL`
abbrev pub is_external : Method → Bool
is_external password = false
is_external oidc = true
is_external trusted_header = true

abbrev pub matches_user : Option ℕ → ℕ → Bool
matches_user none i = true
matches_user (some u) i = i == u

-- `revoke_external`; `methods` is a test for the kinds of session that it ends.
unfoldable pub revoke_external : Option ℕ → (Method → Bool) → ℕ → List Session → List Session × ℕ
revoke_external user_id methods at rows =
    revoke_where (λ row. methods row.auth_method && matches_user user_id row.user_id) at rows

-- `ORDER BY last_seen_at DESC, id DESC`
unfoldable pub newer : Session → Session → Bool
newer a b = ltb b.last_seen_at a.last_seen_at || a.last_seen_at == b.last_seen_at && leb b.id a.id

unfoldable pub live_rows : ℕ → List User → ℕ → List Session → List Session
live_rows user_id users at [] = []
live_rows user_id users at (row ∷ rows) =
    let rest = live_rows user_id users at rows in
    if row.user_id == user_id && is_none row.revoked_at && valid row (user_by_id user_id users) at
    then row ∷ rest
    else rest

unfoldable pub live : ℕ → List User → ℕ → List Session → List Session
live user_id users at rows = sort_by newer (live_rows user_id users at rows)

-- An UPDATE of the one row with this id.
unfoldable pub put : Session → List Session → List Session
put row [] = []
put row (s ∷ ss) = if s.id == row.id then row ∷ ss else s ∷ put row ss
