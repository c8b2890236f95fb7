-- ===== src/Auth/Common.antt =====
-- The secret helpers of backend/app/auth/common.py, and the units of its clock: a time is a number
-- of microseconds, the resolution of Python's `datetime`.
use cabinet_numismatics.Prelude.Text.{matches_class, take_text}
use cabinet_numismatics.Prelude.{
  ℕ, ◌*◌, String, Bool, false, ◌&&◌, ◌||◌, Option, none, some, leb, ◌==◌,
}

abbrev pub second : ℕ
second = 1_000_000

abbrev pub minute : ℕ
minute = 60 * second

abbrev pub day : ℕ
day = 24 * 60 * minute

-- `[A-Za-z0-9_-]`
unfoldable pub is_secret_char : ℕ → Bool
is_secret_char c =
    leb b'A' c && leb c b'Z'
    || leb b'a' c && leb c b'z'
    || leb b'0' c && leb c b'9'
    || c == b'_'
    || c == b'-'

-- `SECRET_RE.fullmatch`: a secret is 43 characters of base64url.
unfoldable pub well_formed : Option String → Bool
well_formed none = false
well_formed (some value) = matches_class is_secret_char 43 value

unfoldable pub clip : Option String → ℕ → Option String
clip none n = none
clip (some text) n = some (take_text n text)
