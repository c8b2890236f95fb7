-- ===== src/Services/Settings/Examples.antt =====
-- Stored secrets on concrete rows (backend/app/services/app_settings.py).
use cabinet_numismatics.Services.Settings.{clear_each, decrypt, is_encrypted, is_usable}
use cabinet_numismatics.Prelude.Text.{after_prefix}
use cabinet_numismatics.Prelude.Dict.{put}
use cabinet_numismatics.Prelude.{
  String, true, ◌&&◌, ◌≡◌, refl, Option, some, [], ◌∷◌, if◌then◌else◌,
}
use cabinet_numismatics.Prelude.Dict.{Dict, get}
use cabinet_numismatics.Services.Settings.{
  Value, string, Tools, secret_keys, is_listed, row_text, is_refused, clear_unusable_secrets,
}
use cabinet_numismatics.Services.Settings.Secrets.{get-clear_unusable_secrets}

abbrev same_text : String → String
same_text s = s

abbrev some_text : String → Option String
some_text s = some s

abbrev spelled : Value → String
spelled v = "value"

abbrev tools : Tools
tools = record { fernet_encrypt = same_text; fernet_decrypt = some_text; str = spelled }

-- A webhook that someone planted as plain text, and a key that this deployment encrypted.
abbrev rows : Dict Value
rows =
    ("alert_webhook_url", string "https://evil.example")
    ∷ ("numista_api_key", string "enc:v1:key")
    ∷ ("display_currency", string "EUR")
    ∷ []

get-clear_unusable_secrets_example :
    (get "alert_webhook_url" (clear_unusable_secrets tools true rows).0 ≡ (
      if is_listed "alert_webhook_url" secret_keys
        && is_refused tools true (row_text tools (get "alert_webhook_url" rows))
      then some (string "")
      else get "alert_webhook_url" rows))
    × (is_listed "alert_webhook_url" (clear_unusable_secrets tools true rows).1 ≡ (
        is_listed "alert_webhook_url" secret_keys
        && is_refused tools true (row_text tools (get "alert_webhook_url" rows))))
get-clear_unusable_secrets_example =
    get-clear_unusable_secrets tools true "alert_webhook_url" rows refl

planted : (clear_unusable_secrets tools true rows).1 ≡ "alert_webhook_url" ∷ []
unfolding clear_unusable_secrets clear_each is_refused get is_usable is_encrypted after_prefix put
    decrypt
planted = refl
