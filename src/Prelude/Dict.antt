-- ===== src/Prelude/Dict.antt =====
-- Python's `dict` with text keys: a list of entries in the order of their first insertion.
use text.Mathlib.Text.{◌==◌ as str_eq}
use cabinet_numismatics.Prelude.{
  ◌≡◌, refl, String, Option, none, some, List, [], ◌∷◌, arith, eq_iff, if◌then◌else◌,
}

abbrev pub Dict {ℓ} : Type ℓ → Type ℓ
Dict A = List (String × A)

module _ {ℓ} {A : Type ℓ} where
  -- `d.get(key)`
  unfoldable pub get : String → Dict A → Option A
  get k [] = none
  get k ((j, v) ∷ d) = if str_eq j k then some v else get k d

  -- `d[key] = value`, which keeps the place of a key that is there
  unfoldable pub put : String → A → Dict A → Dict A
  put k v [] = (k, v) ∷ []
  put k v ((j, u) ∷ d) = let rest = put k v d in if str_eq j k then (j, v) ∷ d else (j, u) ∷ rest

  -- `d.pop(key, None)`, less what it returns
  unfoldable pub pop : String → Dict A → Dict A
  pop k [] = []
  pop k ((j, v) ∷ d) = let rest = pop k d in if str_eq j k then rest else (j, v) ∷ rest

  pub get-put :
      (k j : String) (v : A) (d : Dict A)
      → get k (put j v d) ≡ (if str_eq j k then some v else get k d)
  unfolding get put
  get-put k j v [] = refl
  get-put k j v ((i, u) ∷ d) = ground (arith, get-put k j v d, eq_iff i j, eq_iff i k, eq_iff j k)

  pub get-pop :
      (k j : String) (d : Dict A) → get k (pop j d) ≡ (if str_eq j k then none else get k d)
  unfolding get pop
  get-pop k j [] = ground arith
  get-pop k j ((i, u) ∷ d) = ground (arith, get-pop k j d, eq_iff i j, eq_iff i k, eq_iff j k)
