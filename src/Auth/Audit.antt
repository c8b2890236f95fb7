-- ===== src/Auth/Audit.antt =====
-- The audit log (backend/app/auth/audit.py): the rows, with the newest first, and their caps. The
-- lines on stdout are not modelled.
pub mod Caps
pub mod Evidence
pub mod Examples
use Prim.Native.Char.{code}
use text.Mathlib.Text.{◌==◌ as str_eq}
use cabinet_numismatics.Prelude.{
  ℕ, zero, suc, ◌+◌, ◌*◌, min, max, String, Bool, true, false, not, ◌&&◌, ◌||◌, Option, none, some,
  List, [], ◌∷◌, ltb, leb, ◌==◌, if◌then◌else◌,
}
use cabinet_numismatics.Prelude.Text.{after_prefix, lower_ascii}
use cabinet_numismatics.Auth.Common.{day, clip}
use cabinet_numismatics.Auth.Rows.{AuditEntry}

abbrev pub failed : String
failed = "sign_in_failed"

abbrev pub failed_cap : ℕ
failed_cap = 10_000

abbrev pub rejected_sso : String
rejected_sso = "sso_sign_in_rejected"

abbrev pub rejected_sso_cap : ℕ
rejected_sso_cap = 10_000

abbrev pub keep_age : ℕ
keep_age = 180 * day

abbrev pub keep_rows : ℕ
keep_rows = 50_000

abbrev pub events : List String
events =
    "setup" ∷ "setup_failed" ∷ "sign_in" ∷ "sign_in_failed" ∷ "sign_out" ∷ "reauth"
    ∷ "password_changed" ∷ "username_changed" ∷ "password_reset" ∷ "sessions_revoked_all"
    ∷ "tokens_revoked_all" ∷ "session_revoked" ∷ "token_created" ∷ "token_revoked"
    ∷ "backup_downloaded" ∷ "export_downloaded" ∷ "restore_started" ∷ "restore_finished"
    ∷ "secrets_cleared" ∷ "backup_key_shown" ∷ "backup_key_rotated" ∷ "backup_key_saved"
    ∷ "backup_deleted" ∷ "sharing_switched" ∷ "share_link_created" ∷ "share_link_regenerated"
    ∷ "share_link_revoked" ∷ "share_link_changed" ∷ "restore_sharing" ∷ "identity_linked"
    ∷ "identity_unlinked" ∷ "sso_configured" ∷ "sso_disabled" ∷ "sso_sign_in_rejected" ∷ []

unfoldable pub is_among : String → List String → Bool
is_among s [] = false
is_among s (t ∷ ts) = str_eq s t || is_among s ts

pub record Actor : Type 0 where
  pub kind : String
  pub user_id : Option ℕ
  pub label : Option String
  pub address : Option String
  pub user_agent : Option String

abbrev pub starts_with : String → String → Bool
starts_with p s = elim (after_prefix p s) [ none ↦ false | some _ ↦ true ]

-- `word in text`
unfoldable pub contains : String → String → Bool
contains word String.[] = starts_with word ""
contains word (String.◌∷◌ c s) = starts_with word (String.◌∷◌ c s) || contains word s

unfoldable pub contains_any : List String → String → Bool
contains_any [] s = false
contains_any (w ∷ ws) s = contains w s || contains_any ws s

-- `_check_detail`, on the keys: whether no `ValueError` is raised.
unfoldable pub check_detail : List String → Bool
check_detail [] = true
check_detail (key ∷ keys) =
    not (contains_any ("password" ∷ "secret" ∷ "code" ∷ "token_value" ∷ []) (lower_ascii key))
    && check_detail keys

-- The id of the row at this offset among those that match, the newest first.
unfoldable pub id_at : (AuditEntry → Bool) → ℕ → List AuditEntry → Option ℕ
id_at p n [] = none
id_at p zero (r ∷ rs) = let later = id_at p zero rs in if p r then some r.id else later
id_at p (suc n) (r ∷ rs) =
    let found = id_at p n rs in let other = id_at p (suc n) rs in if p r then found else other

-- `DELETE … WHERE p AND id <= cutoff`
unfoldable pub delete_upto : (AuditEntry → Bool) → ℕ → List AuditEntry → List AuditEntry
delete_upto p cutoff [] = []
delete_upto p cutoff (r ∷ rs) =
    let rest = delete_upto p cutoff rs in if p r && leb r.id cutoff then rest else r ∷ rest

unfoldable pub trim : (AuditEntry → Bool) → ℕ → List AuditEntry → List AuditEntry
trim p keep rows = elim (id_at p keep rows) [
  | none ↦ rows
  | some cutoff ↦ delete_upto p cutoff rows
]

-- `_own_caps`
unfoldable pub own_cap : String → Option ℕ
own_cap action =
    if str_eq action failed
    then some failed_cap
    else if str_eq action rejected_sso
    then some rejected_sso_cap
    else none

abbrev pub is_action : String → AuditEntry → Bool
is_action action r = str_eq r.action action

abbrev pub is_other : AuditEntry → Bool
is_other r = not (is_action failed r) && not (is_action rejected_sso r)

-- `DELETE … WHERE others AND at < now - KEEP`
unfoldable pub delete_old : ℕ → List AuditEntry → List AuditEntry
delete_old now [] = []
delete_old now (r ∷ rs) =
    let rest = delete_old now rs in
    if is_other r && ltb (r.at + keep_age) now then rest else r ∷ rest

-- `_enforce_caps`
unfoldable pub enforce_caps : ℕ → String → List AuditEntry → List AuditEntry
enforce_caps now action rows = elim (own_cap action) [
  | some keep ↦ trim (is_action action) keep rows
  | none ↦ trim is_other keep_rows (delete_old now rows)
]

unfoldable pub entry : ℕ → ℕ → String → Actor → Option String → List String → AuditEntry
entry now id action actor target detail = record {
  id = id;
  at = now;
  actor_user_id = actor.user_id;
  actor_label = clip actor.label 64;
  actor_kind = actor.kind;
  action = action;
  target = clip target 200;
  detail = detail;
  address = clip actor.address 45;
  user_agent = clip actor.user_agent 256;
}

-- `record`; `none` is the `ValueError`. `id` is the new row's.
unfoldable pub record_event :
    ℕ
    → ℕ
    → String
    → Actor
    → Option String
    → List String
    → List AuditEntry
    → Option (List AuditEntry)
record_event now id action actor target detail rows =
    if is_among action events && check_detail detail
    then some (enforce_caps now action (entry now id action actor target detail ∷ rows))
    else none

unfoldable pub prune : ℕ → List AuditEntry → List AuditEntry
prune now rows = enforce_caps now "sign_in" rows

unfoldable pub take_rows : ℕ → List AuditEntry → List AuditEntry
take_rows zero rows = []
take_rows (suc n) [] = []
take_rows (suc n) (r ∷ rs) = r ∷ take_rows n rs

abbrev pub is_before : Option ℕ → AuditEntry → Bool
is_before none r = true
is_before (some id) r = ltb r.id id

unfoldable pub rows_before : Option ℕ → List AuditEntry → List AuditEntry
rows_before before [] = []
rows_before before (r ∷ rs) =
    let rest = rows_before before rs in if is_before before r then r ∷ rest else rest

-- `limit` is not negative.
unfoldable pub page : Option ℕ → ℕ → List AuditEntry → List AuditEntry
page before limit rows = take_rows (max 1 (min 200 limit)) (rows_before before rows)

abbrev pub label_is : Option String → AuditEntry → Bool
label_is none r = true
label_is (some label) r = elim r.actor_label [ none ↦ false | some l ↦ str_eq l label ]

abbrev pub is_since : Option ℕ → AuditEntry → Bool
is_since none r = true
is_since (some t) r = ltb t r.at

unfoldable pub count : String → Option String → Option ℕ → List AuditEntry → ℕ
count action label since [] = 0
count action label since (r ∷ rs) =
    (if is_action action r && label_is label r && is_since since r then 1 else 0)
    + count action label since rs
