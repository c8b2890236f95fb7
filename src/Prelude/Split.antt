-- ===== src/Prelude/Split.antt =====
-- Splitting a text at a character, and joining texts with one: Python's `str.split` and `str.join`.
use Prim.Native.Char.{code}
use cabinet_numismatics.Prelude.{
  ℕ, ◌≡◌, refl, ap, ◌∙◌, String, Bool, true, false, not, ◌&&◌, List, [], ◌∷◌, ◌++◌, ◌==◌,
  if◌then◌else◌, arith,
}
use cabinet_numismatics.Prelude.Text.{is_empty, append_text}

-- The pieces of a text between the characters `sep`.
unfoldable pub split_on : ℕ → String → String × List String
split_on sep String.[] = ("", [])
split_on sep (String.◌∷◌ c s) =
    let (first, rest) = split_on sep s in
    if code c == sep then ("", first ∷ rest) else (String.◌∷◌ c first, rest)

-- `text.split(sep)`
abbrev pub pieces : ℕ → String → List String
pieces sep s = let (first, rest) = split_on sep s in first ∷ rest

-- `sep.join(texts)`
unfoldable pub join : String → List String → String
join sep [] = ""
join sep (k ∷ []) = k
join sep (k ∷ l ∷ ks) = append_text k (append_text sep (join sep (l ∷ ks)))

-- `[text for text in texts if text]`
unfoldable pub nonempty_texts : List String → List String
nonempty_texts [] = []
nonempty_texts (s ∷ ss) = let rest = nonempty_texts ss in if is_empty s then rest else s ∷ rest

-- The character stands nowhere in the text.
unfoldable pub lacks : ℕ → String → Bool
lacks sep String.[] = true
lacks sep (String.◌∷◌ c s) = not (code c == sep) && lacks sep s

abbrev pub AllLack : ℕ → List String → Type 0
AllLack sep [] = Unit
AllLack sep (k ∷ ks) = (lacks sep k ≡ true) × (is_empty k ≡ false) × AllLack sep ks

-- Each text with a comma behind it.
unfoldable pub closed : List String → String
closed [] = ""
closed (k ∷ ks) = append_text k (append_text "," (closed ks))

pub append_text_assoc :
    (a b c : String) → append_text (append_text a b) c ≡ append_text a (append_text b c)
unfolding append_text
append_text_assoc String.[] b c = refl
append_text_assoc (String.◌∷◌ d a) b c = ap (String.◌∷◌ d) (append_text_assoc a b c)

join-closed :
    (k : String) (ks : List String) → append_text (join "," (k ∷ ks)) "," ≡ closed (k ∷ ks)
unfolding join closed
join-closed k [] = unfold append_text in refl
join-closed k (l ∷ ks) =
    append_text_assoc k (append_text "," (join "," (l ∷ ks))) ","
    ∙ ap (append_text k)
        (append_text_assoc "," (join "," (l ∷ ks)) "," ∙ ap (append_text ",") (join-closed l ks))

split_on-append_text :
    (k rest : String)
    → lacks b',' k ≡ true
    → split_on b',' (append_text k (append_text "," rest)) ≡ (k, pieces b',' rest)
unfolding split_on append_text lacks
split_on-append_text String.[] rest h = refl
split_on-append_text (String.◌∷◌ c k) rest h = ground (arith, split_on-append_text k rest)

pieces-append_text :
    (k rest : String)
    → lacks b',' k ≡ true
    → pieces b',' (append_text k (append_text "," rest)) ≡ k ∷ pieces b',' rest
pieces-append_text k rest h =
    ap (λ (x : String × List String). x.0 ∷ x.1) (split_on-append_text k rest h)

pieces-comma : (rest : String) → pieces b',' (append_text "," rest) ≡ "" ∷ pieces b',' rest
unfolding split_on append_text
pieces-comma rest = refl

pieces-closed : (ks : List String) → AllLack b',' ks → pieces b',' (closed ks) ≡ ks ++ "" ∷ []
unfolding closed
pieces-closed [] h = unfold split_on in refl
pieces-closed (k ∷ ks) h =
    pieces-append_text k (closed ks) h.0 ∙ ap (λ (l : List String). k ∷ l) (pieces-closed ks h.2)

nonempty_texts-append : (ks : List String) → AllLack b',' ks → nonempty_texts (ks ++ "" ∷ []) ≡ ks
unfolding nonempty_texts
nonempty_texts-append [] h = refl
nonempty_texts-append (k ∷ ks) h = ground (arith, h.1, nonempty_texts-append ks h.2)

-- Texts without a comma, and not empty, are read back from their joined form with a comma at each end.
pub nonempty_texts-join :
    (k : String) (ks : List String)
    → AllLack b',' (k ∷ ks)
    → nonempty_texts (pieces b',' (append_text "," (append_text (join "," (k ∷ ks)) ","))) ≡ k ∷ ks
nonempty_texts-join k ks h =
    ap (λ (s : String). nonempty_texts (pieces b',' (append_text "," s))) (join-closed k ks)
    ∙ ap nonempty_texts (
        pieces-comma (closed (k ∷ ks))
        ∙ ap (λ (l : List String). "" ∷ l) (pieces-closed (k ∷ ks) h))
    ∙ unfold nonempty_texts in nonempty_texts-append (k ∷ ks) h
