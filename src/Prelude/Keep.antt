-- ===== src/Prelude/Keep.antt =====
-- The elements of a list that pass a test, as a query or a comprehension keeps them.
use cabinet_numismatics.Prelude.{
  ℕ, ◌+◌, ◌≡◌, refl, Bool, true, false, ◌&&◌, List, [], ◌∷◌, arith, if◌then◌else◌, ◌==◌, ◌||◌,
}

module _ {ℓ} {A : Type ℓ} where
  unfoldable pub keep : (A → Bool) → List A → List A
  keep p [] = []
  keep p (x ∷ xs) = let rest = keep p xs in if p x then x ∷ rest else rest

  unfoldable pub count_if : (A → Bool) → List A → ℕ
  count_if p [] = 0
  count_if p (x ∷ xs) = (if p x then 1 else 0) + count_if p xs

  -- The test holds of every element.
  abbrev pub Every : (A → Bool) → List A → Type 0
  Every p [] = Unit
  Every p (x ∷ xs) = (p x ≡ true) × Every p xs

  -- Two tests agree on every element.
  abbrev pub Agree : (A → Bool) → (A → Bool) → List A → Type 0
  Agree p q [] = Unit
  Agree p q (x ∷ xs) = (p x ≡ q x) × Agree p q xs

  pub keep-keep : (p q : A → Bool) (xs : List A) → keep p (keep q xs) ≡ keep (λ x. q x && p x) xs
  unfolding keep
  keep-keep p q [] = refl
  keep-keep p q (x ∷ xs) = ground (arith, keep-keep p q xs)

  pub keep-Agree : (p q : A → Bool) (xs : List A) → Agree p q xs → keep p xs ≡ keep q xs
  unfolding keep
  keep-Agree p q [] h = refl
  keep-Agree p q (x ∷ xs) h = ground (arith, h.0, keep-Agree p q xs h.1)

  pub keep-Every : (p : A → Bool) (xs : List A) → Every p (keep p xs)
  unfolding keep
  keep-Every p [] = tt
  keep-Every p (x ∷ xs) = ground (arith, keep-Every p xs)

abbrev pub is_among : ℕ → List ℕ → Bool
is_among x [] = false
is_among x (y ∷ ys) = y == x || is_among x ys
