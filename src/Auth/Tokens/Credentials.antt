-- ===== src/Auth/Tokens/Credentials.antt =====
-- A token as a request carries it (backend/app/auth/tokens.py).
use text.Mathlib.Text.{◌==◌ as str_eq}
use cabinet_numismatics.Prelude.{
  ℕ, String, Bool, true, false, not, ◌&&◌, ◌||◌, Option, none, some, List, [], ◌∷◌, leb,
  if◌then◌else◌,
}
use cabinet_numismatics.Prelude.Text.{
  take_text, drop_text, strip, split_once, after_prefix, matches_class, lower_ascii,
}
use cabinet_numismatics.Auth.Common.{is_secret_char}
use cabinet_numismatics.Auth.Rows.{User, ApiToken}
use cabinet_numismatics.Auth.Sessions.{user_by_id}
use cabinet_numismatics.Auth.Tokens.{prefix, is_live}

abbrev begins_with : String → String → Bool
begins_with p s = elim (after_prefix p s) [ none ↦ false | some _ ↦ true ]

abbrev parts_bearer : Option (String × String) → Option String
parts_bearer none = none
parts_bearer (some (scheme, rest)) =
    if not (str_eq (lower_ascii scheme) "bearer")
    then none
    else let credential = strip rest in
      if begins_with prefix credential then some credential else none

-- `none`: no header, another scheme, or someone else's token.
unfoldable pub bearer : Option String → Option String
bearer none = none
bearer (some header) = parts_bearer (split_once header)

-- `[a-z2-7]`
unfoldable pub is_public_id_char : ℕ → Bool
is_public_id_char c = leb b'a' c && leb c b'z' || leb b'2' c && leb c b'7'

abbrev pub groups : String → Option String → Option (String × String)
groups public_id none = none
groups public_id (some secret) =
    if matches_class is_public_id_char 10 public_id && matches_class is_secret_char 43 secret
    then some (public_id, secret)
    else none

abbrev pub after_id : Option String → Option (String × String)
after_id none = none
after_id (some rest) = groups (take_text 10 rest) (after_prefix "_" (drop_text 10 rest))

-- `TOKEN_RE.fullmatch`: the public id and the secret.
unfoldable pub token_match : String → Option (String × String)
token_match credential = after_id (after_prefix prefix credential)

unfoldable pub token_by_public_id : String → List ApiToken → Option ApiToken
token_by_public_id p [] = none
token_by_public_id p (row ∷ rows) =
    if str_eq row.public_id p then some row else token_by_public_id p rows

abbrev pub checked :
    (String → String) → String → ℕ → ApiToken → Option User → Option (ApiToken × User)
checked digest secret at row none = none
checked digest secret at row (some user) =
    if not (str_eq row.secret_hash (digest secret))
    then none
    else if not (is_live row at) || not user.is_active
    then none
    else some (row, user)

abbrev pub with_user :
    (String → String) → String → List User → ℕ → Option ApiToken → Option (ApiToken × User)
with_user digest secret users at none = none
with_user digest secret users at (some row) =
    checked digest secret at row (user_by_id row.user_id users)

abbrev pub matched :
    (String → String)
    → List ApiToken
    → List User
    → ℕ
    → Option (String × String)
    → Option (ApiToken × User)
matched digest rows users at none = none
matched digest rows users at (some (public_id, secret)) =
    with_user digest secret users at (token_by_public_id public_id rows)

-- `none` is `InvalidToken`.
unfoldable pub authenticate :
    (String → String) → String → List ApiToken → List User → ℕ → Option (ApiToken × User)
authenticate digest credential rows users at = matched digest rows users at (token_match credential)
