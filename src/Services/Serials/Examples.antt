-- ===== src/Services/Serials/Examples.antt =====
-- Concrete serial numbers (backend/app/services/serials.py).
use cabinet_numismatics.Services.Serials.{days_in_month, is_calendar_date, is_date, key, repeated}
use cabinet_numismatics.Services.Serials.{
  after_digits, digits_of, distinct, first_digits, has_star, has_trait, mem_digit, reversed,
  same_digits, select, shows, steps_down, steps_up, value_from,
}
use cabinet_numismatics.Prelude.{◌≡◌, refl, true, false, some, [], ◌∷◌}
use cabinet_numismatics.Services.Serials.{
  ladder, radar, super_radar, binary, low, double_quad, is_a_date, star, traits, keys, decode,
  stored_traits,
}
use cabinet_numismatics.Services.Serials.Stored.{decode-stored_traits}

-- A ladder, and a star behind it.
decode-stored_traits_example :
    decode (stored_traits (some "A12345678*") false) ≡ keys (ladder ∷ star ∷ [])
unfolding traits select keys has_trait digits_of shows distinct mem_digit steps_up same_digits
    reversed repeated first_digits value_from is_date is_calendar_date after_digits days_in_month
    has_star key steps_down
decode-stored_traits_example = decode-stored_traits (some "A12345678*") false

a_radar : traits (some "B 1234 4321") false ≡ radar ∷ []
unfolding traits select has_trait digits_of shows distinct mem_digit steps_up steps_down same_digits
    reversed after_digits first_digits repeated value_from is_date is_calendar_date days_in_month
    has_star
a_radar = refl

a_date : traits (some "07041976") false ≡ is_a_date ∷ []
unfolding traits select has_trait digits_of shows distinct mem_digit steps_up steps_down same_digits
    reversed repeated first_digits value_from is_date is_calendar_date after_digits days_in_month
    has_star
a_date = refl

two_blocks : traits (some "11112222") false ≡ binary ∷ double_quad ∷ []
unfolding traits select has_trait digits_of shows distinct mem_digit steps_up steps_down same_digits
    reversed repeated first_digits value_from after_digits is_date is_calendar_date days_in_month
    has_star
two_blocks = refl

a_super_radar : traits (some "1000001") true ≡ super_radar ∷ binary ∷ star ∷ []
unfolding traits select has_trait digits_of shows distinct mem_digit steps_up steps_down same_digits
    reversed after_digits first_digits value_from
a_super_radar = refl

a_low_number : traits (some "00000007") false ≡ binary ∷ low ∷ []
unfolding traits select has_trait digits_of shows distinct mem_digit steps_up steps_down same_digits
    reversed repeated first_digits value_from after_digits is_date is_calendar_date days_in_month
    has_star
a_low_number = refl
