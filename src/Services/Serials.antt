-- ===== src/Services/Serials.antt =====
-- The patterns of a serial number (backend/app/services/serials.py).
pub mod Stored
pub mod Examples
use Prim.Native.Char.{code}
use cabinet_numismatics.Prelude.{
  ℕ, zero, suc, ◌+◌, ◌-◌, ◌*◌, ◌/◌, ◌%◌, String, Bool, true, false, not, ◌&&◌, ◌||◌, Option, none,
  some, List, [], ◌∷◌, ◌++◌, ltb, leb, ◌==◌, length, if◌then◌else◌,
}
use cabinet_numismatics.Prelude.Text.{append_text, is_empty}
use cabinet_numismatics.Prelude.Split.{pieces, join, nonempty_texts}

-- The keys of `TRAITS`.
pub data Trait : Type 0 where
  solid ladder radar super_radar repeater super_repeater binary trinary low high double_quad
        is_a_date star :
      Trait

unfoldable pub key : Trait → String
key solid = "solid"
key ladder = "ladder"
key radar = "radar"
key super_radar = "super_radar"
key repeater = "repeater"
key super_repeater = "super_repeater"
key binary = "binary"
key trinary = "trinary"
key low = "low"
key high = "high"
key double_quad = "double_quad"
key is_a_date = "date"
key star = "star"

abbrev pub min_digits : ℕ
min_digits = 4

-- The values of the ASCII digits of a text, in their order.
unfoldable pub digits_of : String → List ℕ
digits_of String.[] = []
digits_of (String.◌∷◌ c s) =
    let rest = digits_of s in
    if leb b'0' (code c) && leb (code c) b'9' then (code c - b'0') ∷ rest else rest

-- `int(digits)`, with the value of the digits before
unfoldable pub value_from : ℕ → List ℕ → ℕ
value_from n [] = n
value_from n (d ∷ ds) = value_from (n * 10 + d) ds

unfoldable pub mem_digit : ℕ → List ℕ → Bool
mem_digit d [] = false
mem_digit d (e ∷ es) = d == e || mem_digit d es

-- `len(set(digits))`
unfoldable pub distinct : List ℕ → ℕ
distinct [] = 0
distinct (d ∷ ds) = let rest = distinct ds in if mem_digit d ds then rest else suc rest

-- Every step is one up, or one down: `steps` of more than one digit is {1}, or {-1}.
unfoldable pub steps_up : List ℕ → Bool
steps_up [] = true
steps_up (a ∷ []) = true
steps_up (a ∷ b ∷ ds) = b == suc a && steps_up (b ∷ ds)

unfoldable pub steps_down : List ℕ → Bool
steps_down [] = true
steps_down (a ∷ []) = true
steps_down (a ∷ b ∷ ds) = a == suc b && steps_down (b ∷ ds)

unfoldable pub same_digits : List ℕ → List ℕ → Bool
same_digits [] [] = true
same_digits [] (b ∷ bs) = false
same_digits (a ∷ rest) [] = false
same_digits (a ∷ rest) (b ∷ bs) = a == b && same_digits rest bs

-- `digits[::-1]`
unfoldable pub reversed : List ℕ → List ℕ
reversed [] = []
reversed (d ∷ ds) = reversed ds ++ d ∷ []

-- `digits[:n]` and `digits[n:]`
unfoldable pub first_digits : ℕ → List ℕ → List ℕ
first_digits zero ds = []
first_digits (suc n) [] = []
first_digits (suc n) (d ∷ ds) = d ∷ first_digits n ds

unfoldable pub after_digits : ℕ → List ℕ → List ℕ
after_digits zero ds = ds
after_digits (suc n) [] = []
after_digits (suc n) (d ∷ ds) = after_digits n ds

-- `digits * n`
unfoldable pub repeated : ℕ → List ℕ → List ℕ
repeated zero ds = []
repeated (suc n) ds = ds ++ repeated n ds

-- `digits[1:-1]`, of at least two
abbrev pub inner : List ℕ → List ℕ
inner ds = after_digits 1 (first_digits (length ds - 1) ds)

abbrev pub is_leap : ℕ → Bool
is_leap year = year % 4 == 0 && (not (year % 100 == 0) || year % 400 == 0)

unfoldable pub days_in_month : ℕ → ℕ → ℕ
days_in_month year month =
    if month == 2
    then if is_leap year then 29 else 28
    else if month == 4 || month == 6 || month == 9 || month == 11
    then 30
    else 31

-- Whether `date(year, month, day)` raises nothing, for a year of the range that is asked.
unfoldable pub is_calendar_date : ℕ → ℕ → ℕ → Bool
is_calendar_date year month day =
    leb 1700 year
    && leb year 2099
    && leb 1 month
    && leb month 12
    && leb 1 day
    && leb day (days_in_month year month)

-- `_is_date`, of eight digits
unfoldable pub is_date : List ℕ → Bool
is_date ds =
    let whole = value_from 0 in
    is_calendar_date (whole (after_digits 4 ds)) (whole (first_digits 2 ds))
      (whole (first_digits 2 (after_digits 2 ds)))
    || is_calendar_date (whole (first_digits 4 ds)) (whole (first_digits 2 (after_digits 4 ds)))
        (whole (after_digits 6 ds))

abbrev pub is_solid : List ℕ → Bool
is_solid ds = distinct ds == 1

abbrev pub is_palindrome : List ℕ → Bool
is_palindrome ds = not (is_solid ds) && same_digits ds (reversed ds)

abbrev pub halves : List ℕ → Bool
halves ds = not (is_solid ds) && length ds % 2 == 0

abbrev pub pairs : List ℕ → Bool
pairs ds = same_digits (repeated (length ds / 2) (first_digits 2 ds)) ds

-- Whether `traits` adds the key for these digits, of which there are enough.
unfoldable pub shows : Trait → List ℕ → Bool
shows solid ds = is_solid ds
shows ladder ds = steps_up ds || steps_down ds
shows radar ds = is_palindrome ds && not (distinct (inner ds) == 1)
shows super_radar ds = is_palindrome ds && distinct (inner ds) == 1
shows repeater ds =
    halves ds && not (pairs ds) && same_digits (repeated 2 (first_digits (length ds / 2) ds)) ds
shows super_repeater ds = halves ds && pairs ds
shows binary ds = distinct ds == 2 && leb 6 (length ds)
shows trinary ds = distinct ds == 3 && length ds == 8
shows low ds = leb 6 (length ds) && leb 1 (value_from 0 ds) && leb (value_from 0 ds) 100
shows high ds = length ds == 8 && leb 99_999_900 (value_from 0 ds)
shows double_quad ds =
    length ds == 8
    && not (is_solid ds)
    && distinct (first_digits 4 ds) == 1
    && distinct (after_digits 4 ds) == 1
shows is_a_date ds = length ds == 8 && is_date ds
shows star ds = false

-- `"*" in text or "★" in text`
unfoldable pub has_star : String → Bool
has_star String.[] = false
has_star (String.◌∷◌ c s) = code c == b'*' || code c == 0x2605 || has_star s

unfoldable pub has_trait : String → Bool → Trait → Bool
has_trait text replacement star = replacement || has_star text
has_trait text replacement t = leb min_digits (length (digits_of text)) && shows t (digits_of text)

unfoldable pub select : (Trait → Bool) → List Trait → List Trait
select p [] = []
select p (t ∷ ts) = let rest = select p ts in if p t then t ∷ rest else rest

-- `TRAITS`, in its order
abbrev pub all_traits : List Trait
all_traits =
    solid ∷ ladder ∷ radar ∷ super_radar ∷ repeater ∷ super_repeater ∷ binary ∷ trinary ∷ low ∷ high
    ∷ double_quad ∷ is_a_date ∷ star ∷ []

abbrev pub text_or_empty : Option String → String
text_or_empty none = ""
text_or_empty (some s) = s

unfoldable pub traits : Option String → Bool → List Trait
traits serial replacement = select (has_trait (text_or_empty serial) replacement) all_traits

unfoldable pub keys : List Trait → List String
keys [] = []
keys (t ∷ ts) = key t ∷ keys ts

unfoldable pub encode : List String → Option String
encode [] = none
encode (k ∷ ks) = some (append_text "," (append_text (join "," (k ∷ ks)) ","))

unfoldable pub decode : Option String → List String
decode stored = nonempty_texts (pieces b',' (text_or_empty stored))

unfoldable pub stored_traits : Option String → Bool → Option String
stored_traits serial replacement = encode (keys (traits serial replacement))
