-- ===== src/Services/Serials/Stored.antt =====
-- The stored form of the traits (backend/app/services/serials.py).
use cabinet_numismatics.Prelude.{◌≡◌, refl, String, Bool, true, false, Option, List, [], ◌∷◌}
use cabinet_numismatics.Prelude.Text.{is_empty}
use cabinet_numismatics.Prelude.Split.{
  AllLack, lacks, nonempty_texts, split_on, nonempty_texts-join,
}
use cabinet_numismatics.Services.Serials.{
  Trait, solid, ladder, radar, super_radar, repeater, super_repeater, binary, trinary, low, high,
  double_quad, is_a_date, star, key, traits, keys, encode, decode, stored_traits,
}

key-lacks : (t : Trait) → (lacks b',' (key t) ≡ true) × (is_empty (key t) ≡ false)
unfolding lacks key
key-lacks solid = (refl, refl)
key-lacks ladder = (refl, refl)
key-lacks radar = (refl, refl)
key-lacks super_radar = (refl, refl)
key-lacks repeater = (refl, refl)
key-lacks super_repeater = (refl, refl)
key-lacks binary = (refl, refl)
key-lacks trinary = (refl, refl)
key-lacks low = (refl, refl)
key-lacks high = (refl, refl)
key-lacks double_quad = (refl, refl)
key-lacks is_a_date = (refl, refl)
key-lacks star = (refl, refl)

AllLack-keys : (ts : List Trait) → AllLack b',' (keys ts)
unfolding keys
AllLack-keys [] = tt
AllLack-keys (t ∷ ts) = ((key-lacks t).0, (key-lacks t).1, AllLack-keys ts)

decode-encode : (ts : List Trait) → decode (encode (keys ts)) ≡ keys ts
unfolding decode encode keys
decode-encode [] = unfold nonempty_texts split_on in refl
decode-encode (t ∷ ts) = nonempty_texts-join (key t) (keys ts) (AllLack-keys (t ∷ ts))

-- The traits of every serial are read back from their stored form, in the same order.
pub decode-stored_traits :
    (serial : Option String) (replacement : Bool)
    → decode (stored_traits serial replacement) ≡ keys (traits serial replacement)
unfolding stored_traits
decode-stored_traits serial replacement = decode-encode (traits serial replacement)
