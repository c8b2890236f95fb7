-- ===== src/Auth/Browsers.antt =====
-- The new-browser alert's cookie (backend/app/auth/browsers.py), which nothing but the alert reads.
use text.Mathlib.Text.{◌==◌ as str_eq}
use cabinet_numismatics.Prelude.{
  ℕ, suc, ◌+◌, ◌*◌, String, Bool, true, false, ◌&&◌, Option, none, some, List, [], ◌∷◌, ◌++◌, ltb,
  ◌==◌, if◌then◌else◌,
}
use cabinet_numismatics.Auth.Common.{day, well_formed}
use cabinet_numismatics.Auth.Rows.{KnownBrowser}

abbrev pub lifetime : ℕ
lifetime = 90 * day

unfoldable pub issue :
    (String → String) → ℕ → String → ℕ → ℕ → List KnownBrowser → List KnownBrowser
issue digest id secret at user_id rows =
    rows
    ++ record {
      id = id;
      user_id = user_id;
      secret_hash = digest secret;
      created_at = at;
      last_seen_at = at;
      expires_at = at + lifetime;
    }
      ∷ []

-- The row of this digest with its use noted, if it is unexpired and for this account: the table
-- after it, and whether there was one.
unfoldable pub find_hash : String → ℕ → ℕ → List KnownBrowser → List KnownBrowser × Bool
find_hash h user_id at [] = ([], false)
find_hash h user_id at (b ∷ bs) =
    let (rest, found) = find_hash h user_id at bs in
    if str_eq b.secret_hash h
    then (if b.user_id == user_id && ltb at b.expires_at
        then (record b { last_seen_at = at } ∷ bs, true)
        else (b ∷ bs, false))
    else (b ∷ rest, found)

unfoldable pub find :
    (String → String) → Option String → ℕ → ℕ → List KnownBrowser → List KnownBrowser × Bool
find digest none user_id at rows = (rows, false)
find digest (some secret) user_id at rows =
    if well_formed (some secret) then find_hash (digest secret) user_id at rows else (rows, false)

unfoldable pub revoke_all : ℕ → List KnownBrowser → List KnownBrowser × ℕ
revoke_all user_id [] = ([], 0)
revoke_all user_id (b ∷ bs) =
    let (rest, n) = revoke_all user_id bs in
    if b.user_id == user_id then (rest, suc n) else (b ∷ rest, n)

unfoldable pub prune : ℕ → List KnownBrowser → List KnownBrowser
prune at [] = []
prune at (b ∷ bs) = let rest = prune at bs in if ltb b.expires_at at then rest else b ∷ rest
