-- ===== src/Services/Settings.antt =====
-- The stored settings and their secrets (backend/app/services/app_settings.py, and encrypt, decrypt and
-- is_encrypted of backend/app/services/crypto.py). Fernet and Python's `str` of a value that is no
-- text are parameters.
pub mod Secrets
pub mod Examples
use text.Mathlib.Text.{◌==◌ as str_eq}
use cabinet_numismatics.Prelude.{
  String, Bool, true, false, not, ◌&&◌, ◌||◌, Option, none, some, List, [], ◌∷◌, if◌then◌else◌,
}
use cabinet_numismatics.Prelude.Text.{is_empty, after_prefix, append_text}
use cabinet_numismatics.Prelude.Keep.{keep}
use cabinet_numismatics.Prelude.Dict.{Dict, get, put}

-- A JSON value: null, a text, a list of texts, or any other, with its truth and spelled out.
pub data Value : Type 0 where
  null : Value
  string : String → Value
  names : List String → Value
  json : Bool → String → Value

pub record Tools : Type 0 where
  pub fernet_encrypt : String → String
  -- none: InvalidToken or an encoding that fails
  pub fernet_decrypt : String → Option String
  pub str : Value → String

abbrev pub prefix : String
prefix = "enc:v1:"

unfoldable pub is_encrypted : String → Bool
is_encrypted stored = elim (after_prefix prefix stored) [ none ↦ false | some _ ↦ true ]

unfoldable pub encrypt : Tools → String → String
encrypt t plaintext =
    if is_empty plaintext then "" else append_text prefix (t.fernet_encrypt plaintext)

abbrev pub or_empty : Option String → String
or_empty none = ""
or_empty (some s) = s

unfoldable pub decrypt : Tools → String → String
decrypt t stored = if is_empty stored then "" else elim (after_prefix prefix stored) [
  | none ↦ ""
  | some token ↦ or_empty (t.fernet_decrypt token)
]

-- `DEFAULTS`
abbrev pub defaults : Dict Value
defaults =
    ("display_currency", string "USD")
    ∷ ("reestimate_days", null)
    ∷ ("melt_enabled", json true "true")
    ∷ ("numista_enabled", json false "false")
    ∷ ("numista_api_key", string "")
    ∷ ("pcgs_enabled", json false "false")
    ∷ ("pcgs_api_token", string "")
    ∷ ("comps_enabled", json true "true")
    ∷ ("numista_sales_enabled", json false "false")
    ∷ ("value_strategy", string "latest")
    ∷ ("preferred_source", null)
    ∷ ("numista_refresh_days", null)
    ∷ ("pcgs_auto_refresh", json false "false")
    ∷ ("backup_schedule", null)
    ∷ ("backup_retention_days", json true "90")
    ∷ ("trash_retention_days", json true "30")
    ∷ ("backup_include_photos", json true "true")
    ∷ ("alert_webhook_url", string "")
    ∷ ("alert_webhook_format", string "generic")
    ∷ ("heartbeat_url", string "")
    ∷ ("metrics_enabled", json false "false")
    ∷ ("share_enabled", json false "false")
    ∷ ("spot_alerts", names [])
    ∷ ("spot_alert_state", null)
    ∷ ("backup_last_run", null)
    ∷ ("refresh_last_run", null)
    ∷ ("alert_state", null)
    ∷ ("dashboard_layout", null)
    ∷ ("ui_theme", string "bronze")
    ∷ ("secrets_cleared", names [])
    ∷ ("backup_key_saved", null)
    ∷ []

-- `sorted(SECRET_KEYS)`
abbrev pub secret_keys : List String
secret_keys = "alert_webhook_url" ∷ "heartbeat_url" ∷ "numista_api_key" ∷ "pcgs_api_token" ∷ []

abbrev pub is_listed : String → List String → Bool
is_listed k [] = false
is_listed k (x ∷ xs) = str_eq x k || is_listed k xs

-- `str(value or "")`
abbrev pub text_of : Tools → Value → String
text_of t null = ""
text_of t (string s) = s
text_of t (names []) = ""
text_of t (names (x ∷ xs)) = t.str (names (x ∷ xs))
text_of t (json truth s) = if truth then t.str (json truth s) else ""

abbrev pub row_text : Tools → Option Value → String
row_text t none = ""
row_text t (some v) = text_of t v

-- What `get_setting` makes of the row of a key.
abbrev pub read_value : Tools → String → Value → Option Value → Value
read_value t key default none = default
read_value t key default (some null) = default
read_value t key default (some (string s)) =
    if is_listed key secret_keys then string (decrypt t s) else string s
read_value t key default (some v) =
    if is_listed key secret_keys then string (decrypt t (t.str v)) else v

-- `get_setting`; `none` is KeyError
unfoldable pub get_setting : Tools → String → Dict Value → Option Value
get_setting t key rows = elim (get key defaults) [
  | none ↦ none
  | some default ↦ some (read_value t key default (get key rows))
]

-- `get_setting(db, "secrets_cleared") or []`
abbrev pub names_of : Option Value → List String
names_of (some (names ns)) = ns
names_of _ = []

unfoldable pub pending : Tools → Dict Value → List String
pending t rows = names_of (get_setting t "secrets_cleared" rows)

unfoldable pub without_key : String → List String → List String
without_key k [] = []
without_key k (x ∷ xs) = let rest = without_key k xs in if str_eq x k then rest else x ∷ rest

-- The part of `set_setting` for a secret, before the row is written.
unfoldable pub enter_again : Tools → String → Dict Value → Dict Value
enter_again t key rows =
    if is_listed key (pending t rows)
    then put "secrets_cleared" (names (without_key key (pending t rows))) rows
    else rows

-- `set_setting`; `none` is KeyError
unfoldable pub set_setting : Tools → String → Value → Dict Value → Option (Dict Value)
set_setting t key value rows = elim (get key defaults) [
  | none ↦ none
  | some _ ↦ some (
      if is_listed key secret_keys
      then put key (string (encrypt t (text_of t value))) (enter_again t key rows)
      else put key value rows)
]

-- `usable`
unfoldable pub is_usable : Tools → Bool → String → Bool
is_usable t undecryptable stored =
    is_encrypted stored && (not undecryptable || not (is_empty (decrypt t stored)))

-- A stored secret that is not empty and not usable.
unfoldable pub is_refused : Tools → Bool → String → Bool
is_refused t undecryptable stored = not (is_empty stored) && not (is_usable t undecryptable stored)

-- The loop of `clear_unusable_secrets` over keys, with the keys that it clears.
unfoldable pub clear_each : Tools → Bool → List String → Dict Value → Dict Value × List String
clear_each t undecryptable [] rows = (rows, [])
clear_each t undecryptable (k ∷ ks) rows =
    let refused = is_refused t undecryptable (row_text t (get k rows)) in
    let (after, cleared) =
      clear_each t undecryptable ks (if refused then put k (string "") rows else rows) in
    (after, if refused then k ∷ cleared else cleared)

-- `sorted(set(pending) | set(cleared))`, of secrets
unfoldable pub both_listed : List String → List String → List String
both_listed a b = keep (λ k. is_listed k a || is_listed k b) secret_keys

-- The list of what was cleared, for Settings to name.
unfoldable pub name_cleared : Tools → Dict Value → List String → Dict Value
name_cleared t rows [] = rows
name_cleared t rows (k ∷ ks) =
    put "secrets_cleared" (names (both_listed (pending t rows) (k ∷ ks))) rows

-- `clear_unusable_secrets`
unfoldable pub clear_unusable_secrets : Tools → Bool → Dict Value → Dict Value × List String
clear_unusable_secrets t undecryptable rows =
    let (after, cleared) = clear_each t undecryptable secret_keys rows in
    (name_cleared t after cleared, cleared)
