-- ===== src/Prelude/Sort.antt =====
-- A stable sort by a Boolean order, as `ORDER BY` and `sorted` give.
use cabinet_numismatics.Prelude.{suc, ◌≡◌, refl, Bool, List, [], ◌∷◌, arith, length, if◌then◌else◌}

-- `before x y`: `x` may stand in front of `y`.
unfoldable pub insert_by : {A : Type 0} → (A → A → Bool) → A → List A → List A
insert_by before x [] = x ∷ []
insert_by before x (y ∷ ys) = if before x y then x ∷ y ∷ ys else y ∷ insert_by before x ys

unfoldable pub sort_by : {A : Type 0} → (A → A → Bool) → List A → List A
sort_by before [] = []
sort_by before (x ∷ xs) = insert_by before x (sort_by before xs)

pub length-insert_by :
    {A : Type 0} (before : A → A → Bool) (x : A) (l : List A)
    → length (insert_by before x l) ≡ suc (length l)
unfolding insert_by
length-insert_by before x [] = refl
length-insert_by before x (y ∷ ys) = ground (arith, length-insert_by before x ys)

pub length-sort_by :
    {A : Type 0} (before : A → A → Bool) (l : List A) → length (sort_by before l) ≡ length l
unfolding sort_by
length-sort_by before [] = refl
length-sort_by before (x ∷ xs) =
    omega (arith, length-insert_by before x (sort_by before xs), length-sort_by before xs)
