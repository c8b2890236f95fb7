-- ===== src/Services/Settings/Secrets.antt =====
-- What becomes of stored secrets (backend/app/services/app_settings.py).
use text.Mathlib.Text.{◌==◌ as str_eq}
use cabinet_numismatics.Prelude.{
  String, Bool, true, false, ◌&&◌, ◌≡◌, refl, ap, ◌∙◌, Option, some, List, [], ◌∷◌, arith,
  if◌then◌else◌, eq_iff,
}
use cabinet_numismatics.Prelude.Dict.{Dict, get, put, get-put}
use cabinet_numismatics.Services.Settings.{
  Value, string, names, Tools, secret_keys, is_listed, row_text, pending, is_refused, clear_each,
  name_cleared, clear_unusable_secrets, both_listed,
}

-- What the clearing makes of one row.
abbrev pub cleared_row : Tools → Bool → List String → String → Option Value → Option Value
cleared_row t undecryptable ks k row =
    if is_listed k ks && is_refused t undecryptable (row_text t row) then some (string "") else row

same-row : (k j : String) (rows : Dict Value) → str_eq j k ≡ true → get j rows ≡ get k rows
same-row k j rows h = ap (λ (x : String). get x rows) ((eq_iff j k).0 h)

-- One round of the loop.
abbrev cleared_one : Tools → Bool → String → Dict Value → Dict Value
cleared_one t u j rows =
    if is_refused t u (row_text t (get j rows)) then put j (string "") rows else rows

get-cleared_one :
    (t : Tools) (u : Bool) (j k : String) (rows : Dict Value)
    → get k (cleared_one t u j rows) ≡ (
        if is_refused t u (row_text t (get j rows)) && str_eq j k
        then some (string "")
        else get k rows)
get-cleared_one t u j k rows = ground (arith, get-put k j (string "") rows)

is_refused-empty : (t : Tools) (u : Bool) → is_refused t u "" ≡ false
unfolding is_refused
is_refused-empty t u = refl

get-clear_each :
    (t : Tools) (u : Bool) (ks : List String) (k : String) (rows : Dict Value)
    → (get k (clear_each t u ks rows).0 ≡ cleared_row t u ks k (get k rows))
      × (is_listed k (clear_each t u ks rows).1
          ≡ (is_listed k ks && is_refused t u (row_text t (get k rows))))
unfolding clear_each
get-clear_each t u [] k rows = (refl, refl)
get-clear_each t u (j ∷ ks) k rows =
    let (row, list) = get-clear_each t u ks k (cleared_one t u j rows) in
    (
      ground (arith, row, get-cleared_one t u j k rows, same-row k j rows, is_refused-empty t u),
      ground (arith, list, get-cleared_one t u j k rows, same-row k j rows, is_refused-empty t u),
    )

get-name_cleared :
    (t : Tools) (k : String) (rows : Dict Value) (cleared : List String)
    → str_eq "secrets_cleared" k ≡ false
    → get k (name_cleared t rows cleared) ≡ get k rows
unfolding name_cleared
get-name_cleared t k rows [] other = refl
get-name_cleared t k rows (c ∷ cs) other =
    get-put k "secrets_cleared" (names (both_listed (pending t rows) (c ∷ cs))) rows ∙ rw other refl

-- The clearing replaces a stored secret by the empty text exactly where it is not empty and not
-- usable: not encrypted, or, after a restore, not decrypted to anything by this deployment's key. It
-- returns exactly these keys, and no other row changes but the list of what was cleared.
pub get-clear_unusable_secrets :
    (t : Tools) (u : Bool) (k : String) (rows : Dict Value)
    → str_eq "secrets_cleared" k ≡ false
    → (get k (clear_unusable_secrets t u rows).0 ≡ (
        if is_listed k secret_keys && is_refused t u (row_text t (get k rows))
        then some (string "")
        else get k rows))
      × (is_listed k (clear_unusable_secrets t u rows).1
          ≡ (is_listed k secret_keys && is_refused t u (row_text t (get k rows))))
unfolding clear_unusable_secrets
get-clear_unusable_secrets t u k rows other =
    let (row, list) = get-clear_each t u secret_keys k rows in
    (
      get-name_cleared t k (clear_each t u secret_keys rows).0 (clear_each t u secret_keys rows).1
            other
          ∙ row,
      list,
    )
