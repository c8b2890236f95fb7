-- ===== src/Auth/Devices.antt =====
-- The known-device cookie (backend/app/auth/devices.py): it lifts the throttles of a sign-in for
-- five attempts. The table is a list of rows; the secret of a new row is drawn outside.
pub mod Slots
use text.Mathlib.Text.{◌==◌ as str_eq}
use cabinet_numismatics.Prelude.{
  ℕ, suc, ◌+◌, ◌-◌, ◌*◌, String, Bool, true, false, not, ◌&&◌, ◌||◌, Option, none, some, List, [],
  ◌∷◌, ◌++◌, ltb, leb, ◌==◌, if◌then◌else◌,
}
use cabinet_numismatics.Auth.Common.{day, well_formed}
use cabinet_numismatics.Auth.Rows.{KnownDevice}

abbrev pub lifetime : ℕ
lifetime = 7 * day

abbrev pub max_failures : ℕ
max_failures = 5

unfoldable pub issue : (String → String) → ℕ → String → ℕ → ℕ → List KnownDevice → List KnownDevice
issue digest id secret at user_id rows =
    rows
    ++ record {
      id = id;
      secret_hash = digest secret;
      user_id = user_id;
      created_at = at;
      expires_at = at + lifetime;
      failures = 0;
    }
      ∷ []

unfoldable pub device_by_hash : String → List KnownDevice → Option KnownDevice
device_by_hash h [] = none
device_by_hash h (d ∷ ds) = if str_eq d.secret_hash h then some d else device_by_hash h ds

unfoldable pub device_by_id : ℕ → List KnownDevice → Option KnownDevice
device_by_id i [] = none
device_by_id i (d ∷ ds) = if d.id == i then some d else device_by_id i ds

abbrev pub usable : ℕ → ℕ → KnownDevice → Bool
usable user_id at row = row.user_id == user_id && ltb at row.expires_at

unfoldable pub find :
    (String → String) → Option String → ℕ → ℕ → List KnownDevice → Option KnownDevice
find digest none user_id at rows = none
find digest (some secret) user_id at rows =
    if well_formed (some secret)
    then elim (device_by_hash (digest secret) rows) [
      | none ↦ none
      | some row ↦ if usable user_id at row then some row else none
    ]
    else none

-- `UPDATE … SET failures = failures + 1 WHERE id = i AND failures < MAX_FAILURES`, and whether it
-- changed a row
unfoldable pub reserve : ℕ → List KnownDevice → List KnownDevice × Bool
reserve i [] = ([], false)
reserve i (d ∷ ds) =
    let (rest, changed) = reserve i ds in
    if d.id == i && ltb d.failures max_failures
    then (record d { failures = d.failures + 1 } ∷ ds, true)
    else (d ∷ rest, changed)

-- `UPDATE … SET failures = failures - 1 WHERE id = i AND failures > 0`
unfoldable pub release : ℕ → List KnownDevice → List KnownDevice
release i [] = []
release i (d ∷ ds) =
    let rest = release i ds in
    if d.id == i && ltb 0 d.failures then record d { failures = d.failures - 1 } ∷ ds else d ∷ rest

-- `DELETE … WHERE id = i`
unfoldable pub forget : ℕ → List KnownDevice → List KnownDevice
forget i [] = []
forget i (d ∷ ds) = let rest = forget i ds in if d.id == i then rest else d ∷ rest

-- `failed`: the row is read again, and forgotten once its attempts are used up.
unfoldable pub failed : ℕ → List KnownDevice → List KnownDevice
failed i rows = elim (device_by_id i rows) [
  | none ↦ rows
  | some d ↦ if leb max_failures d.failures then forget i rows else rows
]

unfoldable pub revoke_all : ℕ → List KnownDevice → List KnownDevice × ℕ
revoke_all user_id [] = ([], 0)
revoke_all user_id (d ∷ ds) =
    let (rest, n) = revoke_all user_id ds in
    if d.user_id == user_id then (rest, suc n) else (d ∷ rest, n)
