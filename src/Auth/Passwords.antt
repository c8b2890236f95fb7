-- ===== src/Auth/Passwords.antt =====
-- The rules on passwords and names, and the check of a password (backend/app/auth/passwords.py).
-- Argon2 is a parameter; `slot_free` says whether a slot is got within the wait.
use cabinet_numismatics.Prelude.{
  ℕ, String, Bool, true, false, ◌&&◌, ◌||◌, Option, none, some, leb, ◌==◌, if◌then◌else◌,
}
use cabinet_numismatics.Prelude.Text.{text_length, all_class, lower_ascii}

abbrev pub min_length : ℕ
min_length = 12

abbrev pub max_length : ℕ
max_length = 256

-- Whether no `PasswordRejected` is raised.
unfoldable pub check_password_rules : String → Bool
check_password_rules password =
    leb min_length (text_length password) && leb (text_length password) max_length

-- `[A-Za-z0-9._-]`
unfoldable pub is_username_char : ℕ → Bool
is_username_char c =
    leb b'A' c && leb c b'Z'
    || leb b'a' c && leb c b'z'
    || leb b'0' c && leb c b'9'
    || c == b'.'
    || c == b'_'
    || c == b'-'

-- The stored form; `none` is `PasswordRejected`. The characters are ASCII, so is the lowering.
unfoldable pub normalize_username : String → Option String
normalize_username name =
    if leb 1 (text_length name) && leb (text_length name) 64 && all_class is_username_char name
    then some (lower_ascii name)
    else none

-- What `verify` ends in; `busy` is the exception.
pub data Verified : Type 0 where
  right mistaken busy : Verified

abbrev pub verified : Bool → Verified
verified true = right
verified false = mistaken

-- Without a stored hash a dummy one is verified, whatever comes of it.
abbrev pub verify_stored : (String → String → Bool) → Option String → String → Verified
verify_stored argon none password = mistaken
verify_stored argon (some hash) password = verified (argon hash password)

unfoldable pub verify : (String → String → Bool) → Bool → Option String → String → Verified
verify argon slot_free stored password =
    if leb (text_length password) max_length
    then if slot_free then verify_stored argon stored password else busy
    else mistaken
