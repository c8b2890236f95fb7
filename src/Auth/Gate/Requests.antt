-- ===== src/Auth/Gate/Requests.antt =====
-- What the gate reads of a request (backend/app/auth/gate.py): the method, the raw path and the
-- headers. Bytes are read as Latin-1, so a byte is a character below 256.
use Prim.Native.Char.{code}
use text.Mathlib.Text.{◌==◌ as str_eq}
use cabinet_numismatics.Prelude.Split.{split_on}
use cabinet_numismatics.Prelude.{
  ℕ, ◌+◌, ◌-◌, ◌*◌, String, Bool, false, ◌&&◌, ◌||◌, Option, none, some, List, [], ◌∷◌, leb, ◌==◌,
  if◌then◌else◌,
}
use cabinet_numismatics.Prelude.Text.{strip, lower_ascii, is_empty}

pub record Request : Type 0 where
  -- whether the ASGI scope is of type `http`
  pub is_http : Bool
  pub method : String
  -- `raw_path` where the server gives one, otherwise the path as UTF-8
  pub raw : String
  pub headers : List (String × String)

-- `raw.split(b"?", 1)[0]`
unfoldable pub before_query : String → String
before_query String.[] = ""
before_query (String.◌∷◌ c s) =
    let rest = before_query s in if code c == b'?' then "" else String.◌∷◌ c rest

abbrev pub path_of : Request → String
path_of r = before_query r.raw

-- `b"%" in path`
unfoldable pub has_percent : String → Bool
has_percent String.[] = false
has_percent (String.◌∷◌ c s) = code c == b'%' || has_percent s

-- `_headers` and a look-up in it: names are compared in lower case, and the first one counts.
unfoldable pub header : String → List (String × String) → Option String
header name [] = none
header name ((n, v) ∷ hs) = if str_eq (lower_ascii n) name then some v else header name hs

-- A non-empty run of ASCII digits as its number; `none` where `isdigit` is false.
unfoldable pub digits_value : ℕ → String → Option ℕ
digits_value n String.[] = some n
digits_value n (String.◌∷◌ c s) =
    if leb b'0' (code c) && leb (code c) b'9'
    then digits_value (n * 10 + (code c - b'0')) s
    else none

unfoldable pub number : String → Option ℕ
unfolding digits_value
number s = if is_empty s then none else digits_value 0 s

-- `text.partition("=")`: the key and the value.
unfoldable pub partition_eq : String → String × String
partition_eq String.[] = ("", "")
partition_eq (String.◌∷◌ c s) =
    let (key, value) = partition_eq s in
    if code c == b'=' then ("", s) else (String.◌∷◌ c key, value)

unfoldable pub cookie_among : String → List String → Option String
unfolding partition_eq
cookie_among name [] = none
cookie_among name (part ∷ parts) =
    let (key, value) = partition_eq (strip part) in
    if str_eq key name then some (strip value) else cookie_among name parts

-- `_cookie`
unfoldable pub cookie : String → List (String × String) → Option String
unfolding header split_on cookie_among
cookie name hs = elim (header "cookie" hs) [
  | none ↦ none
  | some raw ↦
      if is_empty raw
      then none
      else let (first, rest) = split_on b';' raw in cookie_among name (first ∷ rest)
]

-- A set of pairs of a method and a path.
unfoldable pub among : String → String → List (String × String) → Bool
among method path [] = false
among method path ((m, p) ∷ rest) = str_eq m method && str_eq p path || among method path rest
