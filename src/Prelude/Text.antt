-- ===== src/Prelude/Text.antt =====
-- What the code uses of Python's `str`: slices, stripping, the lower case of ASCII letters.
use Prim.Native.Char.{Char, code}
use cabinet_numismatics.Prelude.{
  ℕ, zero, suc, ◌≡◌, ◌≤◌, refl, arith, String, Bool, true, false, ◌&&◌, ◌||◌, Option, none, some,
  leb, ◌==◌, if◌then◌else◌,
}

-- `len(text)`
unfoldable pub text_length : String → ℕ
text_length String.[] = 0
text_length (String.◌∷◌ c s) = suc (text_length s)

-- `text[:n]` and `text[n:]`
unfoldable pub take_text : ℕ → String → String
take_text zero s = ""
take_text (suc n) String.[] = ""
take_text (suc n) (String.◌∷◌ c s) = String.◌∷◌ c (take_text n s)

unfoldable pub drop_text : ℕ → String → String
drop_text zero s = s
drop_text (suc n) String.[] = ""
drop_text (suc n) (String.◌∷◌ c s) = drop_text n s

abbrev pub is_empty : String → Bool
is_empty String.[] = true
is_empty (String.◌∷◌ c s) = false

-- `str.isspace` of one character
unfoldable pub is_space : ℕ → Bool
is_space c =
    leb 9 c && leb c 13
    || leb 28 c && leb c 32
    || c == 0x85
    || c == 0xa0
    || c == 0x1680
    || leb 0x2000 c && leb c 0x200a
    || c == 0x2028
    || c == 0x2029
    || c == 0x202f
    || c == 0x205f
    || c == 0x3000

unfoldable pub strip_left : String → String
strip_left String.[] = ""
strip_left (String.◌∷◌ c s) =
    let rest = strip_left s in if is_space (code c) then rest else String.◌∷◌ c s

unfoldable pub strip_right : String → String
strip_right String.[] = ""
strip_right (String.◌∷◌ c s) =
    let rest = strip_right s in if is_space (code c) && is_empty rest then "" else String.◌∷◌ c rest

-- `text.strip()`
unfoldable pub strip : String → String
unfolding strip_left strip_right is_space
strip s = strip_right (strip_left s)

-- The characters before the first space, and the rest from that space on.
unfoldable pub split_word : String → String × String
split_word String.[] = ("", "")
split_word (String.◌∷◌ c s) =
    let (word, rest) = split_word s in
    if is_space (code c) then ("", String.◌∷◌ c s) else (String.◌∷◌ c word, rest)

-- `text.split(None, 1)`, where it has two parts
unfoldable pub split_once : String → Option (String × String)
unfolding strip_left split_word is_space
split_once s =
    let (word, rest) = split_word (strip_left s) in
    let tail = strip_left rest in if is_empty word || is_empty tail then none else some (word, tail)

-- What follows a prefix, if the text begins with it.
unfoldable pub after_prefix : String → String → Option String
after_prefix String.[] s = some s
after_prefix (String.◌∷◌ c p) String.[] = none
after_prefix (String.◌∷◌ c p) (String.◌∷◌ d s) =
    let rest = after_prefix p s in if code c == code d then rest else none

-- Exactly `n` characters, all of one class.
unfoldable pub matches_class : (ℕ → Bool) → ℕ → String → Bool
matches_class p zero String.[] = true
matches_class p zero (String.◌∷◌ c s) = false
matches_class p (suc n) String.[] = false
matches_class p (suc n) (String.◌∷◌ c s) = p (code c) && matches_class p n s

-- Every character is of one class.
unfoldable pub all_class : (ℕ → Bool) → String → Bool
all_class p String.[] = true
all_class p (String.◌∷◌ c s) = p (code c) && all_class p s

-- The character of the second text that stands where `c` stands in the first.
abbrev translate_char : Char → String → String → Char
translate_char c String.[] l = c
translate_char c (String.◌∷◌ u us) String.[] = c
translate_char c (String.◌∷◌ u us) (String.◌∷◌ l ls) =
    if code c == code u then l else translate_char c us ls

-- `text.lower()` on ASCII letters; other letters stay.
unfoldable pub lower_ascii : String → String
lower_ascii String.[] = ""
lower_ascii (String.◌∷◌ c s) =
    String.◌∷◌ (translate_char c "ABCDEFGHIJKLMNOPQRSTUVWXYZ" "abcdefghijklmnopqrstuvwxyz")
      (lower_ascii s)

pub text_length-take_text : (n : ℕ) (s : String) → text_length (take_text n s) ≤ n
unfolding text_length take_text
text_length-take_text zero s = omega arith
text_length-take_text (suc n) String.[] = omega arith
text_length-take_text (suc n) (String.◌∷◌ c s) = omega (arith, text_length-take_text n s)

-- `a + b`
unfoldable pub append_text : String → String → String
append_text String.[] t = t
append_text (String.◌∷◌ c s) t = String.◌∷◌ c (append_text s t)

pub after_prefix-append_text : (p s : String) → after_prefix p (append_text p s) ≡ some s
unfolding after_prefix append_text
after_prefix-append_text String.[] s = refl
after_prefix-append_text (String.◌∷◌ c p) s = ground (arith, after_prefix-append_text p s)

pub take_text-append_text :
    (n : ℕ) (s t : String) → text_length s ≡ n → take_text n (append_text s t) ≡ s
unfolding text_length take_text append_text
take_text-append_text zero String.[] t h = refl
take_text-append_text zero (String.◌∷◌ c s) t h = absurd (omega arith)
take_text-append_text (suc n) String.[] t h = absurd (omega arith)
take_text-append_text (suc n) (String.◌∷◌ c s) t h =
    ground (arith, take_text-append_text n s t (omega arith))

pub drop_text-append_text :
    (n : ℕ) (s t : String) → text_length s ≡ n → drop_text n (append_text s t) ≡ t
unfolding text_length drop_text append_text
drop_text-append_text zero String.[] t h = refl
drop_text-append_text zero (String.◌∷◌ c s) t h = absurd (omega arith)
drop_text-append_text (suc n) String.[] t h = absurd (omega arith)
drop_text-append_text (suc n) (String.◌∷◌ c s) t h = drop_text-append_text n s t (omega arith)

pub matches_class-length :
    (p : ℕ → Bool) (n : ℕ) (s : String) → matches_class p n s ≡ true → text_length s ≡ n
unfolding matches_class text_length
matches_class-length p zero String.[] h = refl
matches_class-length p zero (String.◌∷◌ c s) h = cc
matches_class-length p (suc n) String.[] h = cc
matches_class-length p (suc n) (String.◌∷◌ c s) h = ground (arith, matches_class-length p n s)
