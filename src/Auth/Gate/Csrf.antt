-- ===== src/Auth/Gate/Csrf.antt =====
-- Whether a cookie request comes from Cabinet's own pages (`csrf_allows` of
-- backend/app/auth/gate.py).
use Prim.Native.Char.{code}
use text.Mathlib.Text.{◌==◌ as str_eq}
use cabinet_numismatics.Prelude.{
  ℕ, zero, suc, ◌≡◌, String, Bool, true, false, not, ◌&&◌, ◌||◌, Option, none, some, List, [], ◌∷◌,
  leb, ◌==◌, if◌then◌else◌, arith,
}
use cabinet_numismatics.Prelude.Text.{strip, lower_ascii, is_empty, after_prefix}
use cabinet_numismatics.Auth.Gate.Requests.{header}

abbrev pub openapi : String
openapi = "/api/openapi.json"

-- `[0-9A-Fa-f-]`
unfoldable pub is_document_char : ℕ → Bool
is_document_char c =
    leb b'0' c && leb c b'9' || leb b'A' c && leb c b'F' || leb b'a' c && leb c b'f' || c == b'-'

-- `[0-9A-Fa-f-]{0,n}/file`: the class has no slash, so the run ends at the first one.
unfoldable pub document_tail : ℕ → String → Bool
document_tail n String.[] = false
document_tail zero (String.◌∷◌ c s) = str_eq (String.◌∷◌ c s) "/file"
document_tail (suc n) (String.◌∷◌ c s) =
    if is_document_char (code c) then document_tail n s else str_eq (String.◌∷◌ c s) "/file"

abbrev pub document_id : String → Bool
document_id String.[] = false
document_id (String.◌∷◌ c s) = is_document_char (code c) && document_tail 63 s

-- `DOCUMENT_FILE.fullmatch`
unfoldable pub is_document_file : String → Bool
unfolding document_tail is_document_char
is_document_file path = elim (after_prefix "/api/documents/" path) [
  | none ↦ false
  | some rest ↦ document_id rest
]

-- `_site`: `none` is no header, or an empty one.
unfoldable pub site : List (String × String) → Option String
unfolding header
site hs = elim (header "sec-fetch-site" hs) [
  | none ↦ none
  | some raw ↦ let text = lower_ascii (strip raw) in if is_empty text then none else some text
]

-- Where the process runs: `origin_of` is Python's `urlsplit` with `normalize_origin`, for a value
-- that is not empty, and `public_origins` the configured ones.
pub record Origins : Type 0 where
  pub origin_of : String → Option String
  pub public_origins : List String

unfoldable pub origin_in : Origins → Option String → Option String
origin_in o none = none
origin_in o (some value) =
    if is_empty value
    then none
    else let text = strip value in if str_eq text "null" then none else o.origin_of text

abbrev pub mem_text : String → List String → Bool
mem_text s [] = false
mem_text s (t ∷ ts) = str_eq s t || mem_text s ts

abbrev pub or_else : Option String → Option String → Option String
or_else none b = b
or_else (some a) b = some a

abbrev pub listed : Origins → Option String → Bool
listed o none = false
listed o (some origin) = mem_text origin o.public_origins

unfoldable pub csrf_site : Origins → String → String → List (String × String) → Option String → Bool
csrf_site o method path hs (some s) =
    if str_eq method "GET" && str_eq path "/api/auth/photo"
    then not (str_eq s "cross-site")
    else if str_eq s "same-origin"
    then true
    else if str_eq s "none"
    then str_eq method "GET" && (str_eq path openapi || is_document_file path)
    else false
csrf_site o method path hs none =
    if str_eq method "GET" && str_eq path "/api/auth/photo"
    then true
    else listed o (or_else (origin_in o (header "origin" hs)) (origin_in o (header "referer" hs)))

unfoldable pub csrf_allows : Origins → String → String → List (String × String) → Bool
unfolding csrf_site
csrf_allows o method path hs = csrf_site o method path hs (site hs)

-- A request that a browser marks as coming from another site passes on no page.
pub csrf_cross_site :
    (o : Origins) (method path : String) (hs : List (String × String))
    → site hs ≡ some "cross-site"
    → csrf_allows o method path hs ≡ false
unfolding csrf_allows
csrf_cross_site o method path hs h = rw h (ground arith)

-- With no such mark, a request to change something passes only if its Origin, or without one its
-- Referer, is one of the public origins.
pub csrf_unmarked :
    (o : Origins) (method path : String) (hs : List (String × String))
    → site hs ≡ none
    → str_eq method "GET" ≡ false
    → csrf_allows o method path hs
      ≡ listed o (or_else (origin_in o (header "origin" hs)) (origin_in o (header "referer" hs)))
unfolding csrf_allows
csrf_unmarked o method path hs h unsafe = rw h (ground arith)
