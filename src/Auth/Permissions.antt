-- ===== src/Auth/Permissions.antt =====
-- Layer 2 of the gate (backend/app/auth/permissions.py): what each route declares, and who may call
-- it.
use text.Mathlib.Text.{◌==◌ as str_eq}
use cabinet_numismatics.Prelude.{
  ℕ, ◌≡◌, refl, ◌⊎◌, inl, inr, String, Bool, true, false, not, ◌&&◌, ◌||◌, Option, none, some,
  arith, if◌then◌else◌, Bool-cases,
}
use cabinet_numismatics.Auth.Rows.{Scope}

-- `CLASSES`
pub data Class : Type 0 where
  public read write admin share : Class

pub record Declared : Type 0 where
  pub cls : Class
  pub metrics_ok : Bool
  pub fresh : Bool

pub data Kind : Type 0 where
  session token : Kind

pub record Principal : Type 0 where
  pub user_id : ℕ
  pub username : String
  pub kind : Kind
  pub scope : Option Scope
  pub session_id : Option ℕ
  pub token_id : Option ℕ
  pub confirmed : Bool
  pub session_hash : Option String
  pub address : Option String
  pub user_agent : Option String

-- The class that a declaration names; `none` is the `ValueError`.
unfoldable pub class_of : String → Option Class
class_of text =
    if str_eq text "public"
    then some Class.public
    else if str_eq text "read"
    then some Class.read
    else if str_eq text "write"
    then some Class.write
    else if str_eq text "admin"
    then some Class.admin
    else if str_eq text "share"
    then some Class.share
    else none

unfoldable pub permission : String → Bool → Bool → Option Declared
permission text metrics_ok fresh = elim (class_of text) [
  | none ↦ none
  | some c ↦ some (record { cls = c; metrics_ok = metrics_ok; fresh = fresh })
]

-- What the check ends in: the call goes on, or an HTTP error is raised.
pub data Answer : Type 0 where
  granted : Answer
  -- 401 "Sign in to continue."
  sign_in : Answer
  -- 403 with `reauth_required`
  reauth : Answer
  -- 403 "This API token's scope doesn't allow that."
  scope_refused : Answer
  -- 403 "Forbidden.": the route declares nothing
  undeclared : Answer
  -- the `RuntimeError` of a test run
  test_error : Answer

abbrev pub scope_allows : Class → Bool → Option Scope → Bool
scope_allows c metrics_ok none = false
scope_allows Class.read metrics_ok (some Scope.read) = true
scope_allows Class.read metrics_ok (some Scope.write) = true
scope_allows Class.write metrics_ok (some Scope.write) = true
scope_allows c metrics_ok (some Scope.metrics) = metrics_ok
scope_allows c metrics_ok (some s) = false

abbrev pub check_kind : Kind → Principal → Class → Bool → Bool → Answer
check_kind Kind.session p c metrics_ok fresh = if fresh && not p.confirmed then reauth else granted
check_kind Kind.token p c metrics_ok fresh =
    if not (scope_allows c metrics_ok p.scope) || fresh then scope_refused else granted

abbrev pub check_caller : Option Principal → Class → Bool → Bool → Answer
check_caller none c metrics_ok fresh = sign_in
check_caller (some p) c metrics_ok fresh = check_kind p.kind p c metrics_ok fresh

-- `cls in ("public", "share")`
abbrev pub is_open : Class → Bool
is_open Class.public = true
is_open Class.share = true
is_open Class.read = false
is_open Class.write = false
is_open Class.admin = false

unfoldable pub check : Option Principal → Class → Bool → Bool → Answer
check who c metrics_ok fresh = if is_open c then granted else check_caller who c metrics_ok fresh

-- `require_permission`: `testing` is whether PYTEST_CURRENT_TEST is set.
unfoldable pub require_permission : Bool → Option Declared → Option Principal → Answer
require_permission testing none who = if testing then test_error else undeclared
require_permission testing (some d) who = check who d.cls d.metrics_ok d.fresh

-- The table at the top of the source, row by row: who may call a route.
pub data Allowed : Option Principal → Class → Bool → Bool → Type 0 where
  anyone : (who : Option Principal) (c : Class) (m f : Bool) → is_open c ≡ true → Allowed who c m f
  session :
      (p : Principal) (c : Class) (m f : Bool)
      → p.kind ≡ Kind.session
      → (f ≡ false) ⊎ (p.confirmed ≡ true)
      → Allowed (some p) c m f
  write_token :
      (p : Principal) (c : Class) (m : Bool)
      → p.kind ≡ Kind.token
      → p.scope ≡ some Scope.write
      → (c ≡ Class.read) ⊎ (c ≡ Class.write)
      → Allowed (some p) c m false
  read_token :
      (p : Principal) (m : Bool)
      → p.kind ≡ Kind.token
      → p.scope ≡ some Scope.read
      → Allowed (some p) Class.read m false
  metrics_token :
      (p : Principal) (c : Class)
      → p.kind ≡ Kind.token
      → p.scope ≡ some Scope.metrics
      → Allowed (some p) c true false

Allowed-granted :
    {who : Option Principal} {c : Class} {m f : Bool}
    → Allowed who c m f
    → check who c m f ≡ granted
unfolding check
Allowed-granted (Allowed.anyone who c m f h) = ground arith
Allowed-granted (Allowed.session p c m f k ok) = ground arith
Allowed-granted (Allowed.write_token p c m k s ok) = ground arith
Allowed-granted (Allowed.read_token p m k s) = ground arith
Allowed-granted (Allowed.metrics_token p c k s) = ground arith

token_Allowed :
    (p : Principal) (o : Option Scope) (c : Class) (m : Bool)
    → p.kind ≡ Kind.token
    → p.scope ≡ o
    → scope_allows c m o ≡ true
    → Allowed (some p) c m false
token_Allowed p none c m k s h = absurd (ground arith)
token_Allowed p (some Scope.read) Class.read m k s h = Allowed.read_token p m k s
token_Allowed p (some Scope.read) Class.public m k s h = absurd (ground arith)
token_Allowed p (some Scope.read) Class.write m k s h = absurd (ground arith)
token_Allowed p (some Scope.read) Class.admin m k s h = absurd (ground arith)
token_Allowed p (some Scope.read) Class.share m k s h = absurd (ground arith)
token_Allowed p (some Scope.write) Class.read m k s h =
    Allowed.write_token p Class.read m k s (inl refl)
token_Allowed p (some Scope.write) Class.write m k s h =
    Allowed.write_token p Class.write m k s (inr refl)
token_Allowed p (some Scope.write) Class.public m k s h = absurd (ground arith)
token_Allowed p (some Scope.write) Class.admin m k s h = absurd (ground arith)
token_Allowed p (some Scope.write) Class.share m k s h = absurd (ground arith)
token_Allowed p (some Scope.metrics) c true k s h = Allowed.metrics_token p c k s
token_Allowed p (some Scope.metrics) c false k s h = absurd (ground arith)

kind_Allowed :
    (p : Principal) (k : Kind) (c : Class) (m f : Bool)
    → p.kind ≡ k
    → check_kind k p c m f ≡ granted
    → Allowed (some p) c m f
kind_Allowed p Kind.session c m f e h =
    Allowed.session p c m f e
      (elim (Bool-cases f) [ inl on ↦ inr (ground arith) | inr off ↦ inl off ])
kind_Allowed p Kind.token c m true e h = absurd (ground arith)
kind_Allowed p Kind.token c m false e h = token_Allowed p p.scope c m e refl (ground arith)

granted-Allowed :
    (who : Option Principal) (c : Class) (m f : Bool)
    → check who c m f ≡ granted
    → Allowed who c m f
unfolding check
granted-Allowed none c m f h = Allowed.anyone none c m f (ground arith)
granted-Allowed (some p) c m f h = elim (Bool-cases (is_open c)) [
  | inl yes_open ↦ Allowed.anyone (some p) c m f yes_open
  | inr closed ↦ kind_Allowed p p.kind c m f refl (rw closed at h)
]

-- A call is let through exactly by the table: anyone on a public or share route; a session on any
-- route, inside its recent-password window where the route asks for that; a write token on read and
-- write routes, a read token on read routes, a metrics token where the route says so, and no token
-- where a recent password is asked for.
pub check_iff :
    (who : Option Principal) (c : Class) (m f : Bool)
    → (check who c m f ≡ granted → Allowed who c m f)
      × (Allowed who c m f → check who c m f ≡ granted)
check_iff who c m f = (granted-Allowed who c m f, Allowed-granted)
