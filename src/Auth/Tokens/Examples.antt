-- ===== src/Auth/Tokens/Examples.antt =====
-- API tokens on concrete rows (backend/app/auth/tokens.py).
use cabinet_numismatics.Auth.Tokens.{creation_rule, has_name, lifetime_rule, live_rows}
use cabinet_numismatics.Prelude.Text.{after_prefix, append_text, drop_text, take_text, text_length}
use cabinet_numismatics.Prelude.Sort.{sort_by}
use cabinet_numismatics.Auth.Tokens.Credentials.{token_by_public_id}
use cabinet_numismatics.Prelude.{
  ◌+◌, ◌*◌, ◌≤◌, ◌≡◌, refl, String, true, none, some, [], ◌∷◌, length, arith,
}
use cabinet_numismatics.Prelude.Text.{matches_class, strip}
use cabinet_numismatics.Auth.Common.{day, is_secret_char}
use cabinet_numismatics.Auth.Rows.{User, ApiToken, read}
use cabinet_numismatics.Auth.Sessions.{user_by_id}
use cabinet_numismatics.Auth.Tokens.{
  Draw, created, create, new_row, plaintext, is_live, expired, live, max_live, scope_of, first_free,
  public_id_taken,
}
use cabinet_numismatics.Auth.Tokens.Credentials.{is_public_id_char, token_match, authenticate}
use cabinet_numismatics.Auth.Tokens.{drawing}
use cabinet_numismatics.Prelude.{◌≢◌}
use cabinet_numismatics.Auth.Tokens.Drawing.{create_ends}
use cabinet_numismatics.Auth.Tokens.Limits.{create-live_le}
use cabinet_numismatics.Auth.Tokens.RoundTrip.{
  InTable, token_match-plaintext, authenticate-create, authenticate_sound,
}

abbrev alice : User
alice = record {
  id = 1;
  username = "alice";
  password_hash = some "hash";
  role = "admin";
  is_active = true;
  created_at = 0;
  last_login_at = none;
  password_changed_at = none;
}

abbrev same_text : String → String
same_text s = s

abbrev secret : String
secret = "0123456789012345678901234567890123456789abc"

abbrev public_id : String
public_id = "abcdefghi2"

abbrev plain : String
plain = "cabinet_abcdefghi2_0123456789012345678901234567890123456789abc"

abbrev draw : Draw
draw = record { id = 9; public_ids = public_id ∷ []; secret = secret; at = 100 }

abbrev script : ApiToken
script = record {
  id = 9;
  public_id = public_id;
  secret_hash = secret;
  user_id = 1;
  name = "script";
  scope = read;
  created_at = 100;
  last_used_at = none;
  expires_at = some (100 + 7 * day);
  revoked_at = none;
}

script-created :
    create same_text draw 1 (some " script ") "read" (some 7) []
    ≡ created (plain, script, script ∷ [])
unfolding create creation_rule text_length strip scope_of lifetime_rule live sort_by live_rows
    has_name first_free public_id_taken plaintext new_row append_text
script-created = refl

create-live_le_example : length (live 1 200 (script ∷ [])) ≤ max_live
create-live_le_example =
    create-live_le same_text draw 1 (some " script ") "read" (some 7) [] plain script (script ∷ [])
      200 script-created (omega arith)

token_match-plaintext_example : token_match (plaintext public_id secret) ≡ some (public_id, secret)
unfolding matches_class is_public_id_char is_secret_char
token_match-plaintext_example = token_match-plaintext public_id secret refl refl

authenticate-create_example :
    authenticate same_text plain (script ∷ []) (alice ∷ []) 200 ≡ some (script, alice)
unfolding matches_class is_public_id_char is_secret_char user_by_id is_live expired
authenticate-create_example =
    authenticate-create same_text draw 1 (some " script ") "read" (some 7) [] plain script
      (script ∷ []) (alice ∷ []) alice 200 script-created refl refl refl refl refl

authenticate_sound_example :
    (s : String) × (token_match plain ≡ some (public_id, s))
    × (secret ≡ s)
    × InTable script (script ∷ [])
    × (is_live script 200 ≡ true)
    × (user_by_id 1 (alice ∷ []) ≡ some alice)
    × (true ≡ true)
unfolding authenticate token_match after_prefix drop_text matches_class take_text is_public_id_char
    is_secret_char token_by_public_id user_by_id is_live expired
authenticate_sound_example =
    authenticate_sound same_text plain (script ∷ []) (alice ∷ []) 200 script alice refl

-- The first id that is drawn is taken.
abbrev two_draws : Draw
two_draws = record draw { public_ids = public_id ∷ "other" ∷ [] }

create_ends_example :
    create same_text two_draws 1 (some "other") "read" (some 7) (script ∷ []) ≢ drawing
create_ends_example =
    create_ends same_text two_draws 1 (some "other") "read" (some 7) (script ∷ [])
      ((refl, tt), (tt, tt)) (omega arith)
