-- ===== src/Auth/Tokens.antt =====
-- API tokens (backend/app/auth/tokens.py). `digest` is SHA-256; the public ids and the secret that
-- a new token gets are arguments, drawn outside.
pub mod Limits
pub mod Drawing
pub mod Credentials
pub mod RoundTrip
pub mod Examples
use text.Mathlib.Text.{◌==◌ as str_eq}
use cabinet_numismatics.Prelude.{
  ℕ, zero, suc, ◌+◌, ◌*◌, ◌++◌, String, Bool, true, false, not, ◌&&◌, ◌||◌, Option, none, some,
  List, [], ◌∷◌, length, ltb, leb, ◌==◌, if◌then◌else◌,
}
use cabinet_numismatics.Prelude.Sort.{sort_by}
use cabinet_numismatics.Prelude.Text.{text_length, append_text, strip}
use cabinet_numismatics.Auth.Common.{minute, day, is_secret_char}
use cabinet_numismatics.Auth.Rows.{User, ApiToken, Scope, read, write, metrics}
use cabinet_numismatics.Auth.Sessions.{is_none, user_by_id}

abbrev pub prefix : String
prefix = "cabinet_"

abbrev pub max_live : ℕ
max_live = 50

abbrev pub touch_every : ℕ
touch_every = minute

-- `TokenRejected`, by the rule that was broken.
pub data Rejection : Type 0 where
  bad_name bad_scope must_expire bad_lifetime too_many name_taken : Rejection

pub data Result (A : Type 0) : Type 0 where
  created : A → Result A
  rejected : Rejection → Result A
  -- every public id that was drawn is taken: the loop goes on
  drawing : Result A

abbrev pub passed : ℕ → Option ℕ → Bool
passed at none = false
passed at (some e) = leb e at

unfoldable pub expired : ApiToken → ℕ → Bool
expired row at = passed at row.expires_at

unfoldable pub is_live : ApiToken → ℕ → Bool
is_live row at = is_none row.revoked_at && not (expired row at)

unfoldable pub live_rows : ℕ → ℕ → List ApiToken → List ApiToken
live_rows user_id at [] = []
live_rows user_id at (row ∷ rows) =
    let rest = live_rows user_id at rows in
    if row.user_id == user_id && is_none row.revoked_at && not (expired row at)
    then row ∷ rest
    else rest

-- `ORDER BY created_at DESC, id DESC`
unfoldable pub newer : ApiToken → ApiToken → Bool
newer a b = ltb b.created_at a.created_at || a.created_at == b.created_at && leb b.id a.id

unfoldable pub live : ℕ → ℕ → List ApiToken → List ApiToken
live user_id at rows = sort_by newer (live_rows user_id at rows)

-- `SCOPES`, as the request spells them.
unfoldable pub scope_of : String → Option Scope
scope_of text =
    if str_eq text "read"
    then some read
    else if str_eq text "write"
    then some write
    else if str_eq text "metrics"
    then some metrics
    else none

abbrev pub is_metrics : Scope → Bool
is_metrics read = false
is_metrics write = false
is_metrics metrics = true

-- A lifetime in days that a token of this scope may have.
unfoldable pub lifetime_rule : Scope → Option ℕ → Option Rejection
lifetime_rule scope none = if is_metrics scope then none else some must_expire
lifetime_rule scope (some days) = if days == 1 || days == 7 then none else some bad_lifetime

unfoldable pub has_name : String → List ApiToken → Bool
has_name name [] = false
has_name name (row ∷ rows) = str_eq row.name name || has_name name rows

unfoldable pub public_id_taken : String → List ApiToken → Bool
public_id_taken p [] = false
public_id_taken p (row ∷ rows) = str_eq row.public_id p || public_id_taken p rows

-- `while db.scalar(…): public_id = _public_id()`, over the ids in the order they are drawn.
unfoldable pub first_free : List String → List ApiToken → Option String
first_free [] rows = none
first_free (p ∷ ps) rows =
    let later = first_free ps rows in if public_id_taken p rows then later else some p

abbrev pub expiry : ℕ → Option ℕ → Option ℕ
expiry at none = none
expiry at (some days) = some (at + days * day)

-- What the randomness and the clock give to a creation, with the new row's id.
pub record Draw : Type 0 where
  pub id : ℕ
  pub public_ids : List String
  pub secret : String
  pub at : ℕ

unfoldable pub new_row :
    (String → String) → Draw → String → ℕ → String → Scope → Option ℕ → ApiToken
new_row digest d public_id user_id name scope days = record {
  id = d.id;
  public_id = public_id;
  secret_hash = digest d.secret;
  user_id = user_id;
  name = name;
  scope = scope;
  created_at = d.at;
  last_used_at = none;
  expires_at = expiry d.at days;
  revoked_at = none;
}

-- The checks of `create`, in order; `name` is stripped.
unfoldable pub creation_rule : String → Option Scope → Option ℕ → List ApiToken → Option Rejection
creation_rule name scope days current =
    if ltb (text_length name) 1 || ltb 100 (text_length name) then some bad_name else elim scope [
      | none ↦ some bad_scope
      | some s ↦ elim (lifetime_rule s days) [
        | some r ↦ some r
        | none ↦
            if leb max_live (length current)
            then some too_many
            else if has_name name current
            then some name_taken
            else none
      ]
    ]

abbrev pub text_or_empty : Option String → String
text_or_empty none = ""
text_or_empty (some text) = text

-- The plaintext, the row, and the table after it.
abbrev pub Created : Type 0
Created = String × ApiToken × List ApiToken

-- `f"{PREFIX}{public_id}_{secret}"`
unfoldable pub plaintext : String → String → String
plaintext public_id secret = append_text prefix (append_text public_id (append_text "_" secret))

abbrev pub add_row :
    (String → String)
    → Draw
    → ℕ
    → String
    → Scope
    → Option ℕ
    → List ApiToken
    → Option String
    → Result Created
add_row digest d user_id name scope days rows none = drawing
add_row digest d user_id name scope days rows (some p) =
    let row = new_row digest d p user_id name scope days in
    created (plaintext p d.secret, row, rows ++ row ∷ [])

-- `name` and `scope` as the request has them, and the lifetime in days.
unfoldable pub create :
    (String → String)
    → Draw
    → ℕ
    → Option String
    → String
    → Option ℕ
    → List ApiToken
    → Result Created
create digest d user_id name scope days rows =
    let name' = strip (text_or_empty name) in
    elim (creation_rule name' (scope_of scope) days (live user_id d.at rows)) [
      | some r ↦ rejected r
      | none ↦ elim (scope_of scope) [
        | none ↦ rejected bad_scope
        | some s ↦ add_row digest d user_id name' s days rows (first_free d.public_ids rows)
      ]
    ]

-- The row after it, and whether it wrote.
unfoldable pub touch : ℕ → ApiToken → ApiToken × Bool
touch at row = elim row.last_used_at [
  | none ↦ (record row { last_used_at = some at }, true)
  | some last ↦
      if ltb at (last + touch_every)
      then (row, false)
      else (record row { last_used_at = some at }, true)
]

unfoldable pub revoke : ℕ → ApiToken → ApiToken
revoke at row = elim row.revoked_at [ none ↦ record row { revoked_at = some at } | some _ ↦ row ]

-- `UPDATE … SET revoked_at = at WHERE user_id = … AND revoked_at IS NULL`
unfoldable pub revoke_rows : ℕ → ℕ → List ApiToken → List ApiToken
revoke_rows user_id at [] = []
revoke_rows user_id at (row ∷ rows) =
    (if row.user_id == user_id && is_none row.revoked_at
      then record row { revoked_at = some at }
      else row)
    ∷ revoke_rows user_id at rows

-- The table after it, and the tokens that it ended.
unfoldable pub revoke_all : ℕ → ℕ → List ApiToken → List ApiToken × List ApiToken
revoke_all user_id at rows = (revoke_rows user_id at rows, live user_id at rows)

-- An UPDATE of the one row with this id.
unfoldable pub put : ApiToken → List ApiToken → List ApiToken
put row [] = []
put row (s ∷ ss) = if s.id == row.id then row ∷ ss else s ∷ put row ss
