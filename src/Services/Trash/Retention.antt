-- ===== src/Services/Trash/Retention.antt =====
-- The automatic clear-out of the trash (backend/app/services/trash.py).
use cabinet_numismatics.Prelude.{
  ℕ, ◌+◌, ◌≡◌, ◌≢◌, refl, sym, ap, ◌∙◌, Bool, true, false, not, ◌&&◌, ◌||◌, List, [], ◌∷◌, ◌==◌,
  arith, if◌then◌else◌, length,
}
use mathlib.Core.Path.{subst}
use cabinet_numismatics.Prelude.Sort.{insert_by, sort_by}
use cabinet_numismatics.Prelude.Keep.{
  keep, count_if, is_among, Every, Agree, keep-keep, keep-Agree, keep-Every,
}
use cabinet_numismatics.Services.Trash.{
  Item, Collection, is_trashed, trashed, purge, purge_each, is_expired, purge_expired,
}
use cabinet_numismatics.Services.Trash.Documents.{is_held, purge-items, purge-documents}

abbrev ids : List Item → List ℕ
ids [] = []
ids (i ∷ is) = i.id ∷ ids is

-- No two items have one id, as the primary key has it.
abbrev pub Distinct : List Item → Type 0
Distinct [] = Unit
Distinct (i ∷ is) = (is_among i.id (ids is) ≡ false) × Distinct is

among_insert :
    (d : ℕ) (p : Item → Bool) (before : Item → Item → Bool) (x : Item) (l : List Item)
    → is_among d (ids (keep p (insert_by before x l)))
      ≡ ((p x && x.id == d) || is_among d (ids (keep p l)))
unfolding insert_by keep
among_insert d p before x [] = ground arith
among_insert d p before x (y ∷ ys) = ground (arith, among_insert d p before x ys)

among_sort :
    (d : ℕ) (p : Item → Bool) (before : Item → Item → Bool) (l : List Item)
    → is_among d (ids (keep p (sort_by before l))) ≡ is_among d (ids (keep p l))
unfolding sort_by keep
among_sort d p before [] = refl
among_sort d p before (x ∷ xs) =
    ground (arith, among_insert d p before x (sort_by before xs), among_sort d p before xs)

count_insert :
    (p : Item → Bool) (before : Item → Item → Bool) (x : Item) (l : List Item)
    → length (keep p (insert_by before x l)) ≡ (if p x then 1 else 0) + length (keep p l)
unfolding insert_by keep
count_insert p before x [] = ground arith
count_insert p before x (y ∷ ys) = ground (arith, count_insert p before x ys)

count_sort :
    (p : Item → Bool) (before : Item → Item → Bool) (l : List Item)
    → length (keep p (sort_by before l)) ≡ count_if p l
unfolding sort_by keep count_if
count_sort p before [] = refl
count_sort p before (x ∷ xs) =
    ground (arith, count_insert p before x (sort_by before xs), count_sort p before xs)

keep-all : (l : List Item) → keep (λ i. true) l ≡ l
unfolding keep
keep-all [] = refl
keep-all (x ∷ xs) = ground (arith, keep-all xs)

Agree-cons :
    (d : ℕ) (ds : List ℕ) (l : List Item)
    → Agree (λ i. not (i.id == d) && not (is_among i.id ds)) (λ i. not (is_among i.id (d ∷ ds))) l
Agree-cons d ds [] = tt
Agree-cons d ds (x ∷ xs) = (ground arith, Agree-cons d ds xs)

purge_each-items :
    (xs : List Item) (c : Collection)
    → (purge_each xs c).items ≡ keep (λ i. not (is_among i.id (ids xs))) c.items
unfolding purge_each
purge_each-items [] c = sym (keep-all c.items)
purge_each-items (x ∷ xs) c =
    purge_each-items xs (purge x.id c)
    ∙ ap (keep (λ (i : Item). not (is_among i.id (ids xs)))) (purge-items x.id c)
    ∙ keep-keep (λ i. not (is_among i.id (ids xs))) (λ i. not (i.id == x.id)) c.items
    ∙ keep-Agree _ _ c.items (Agree-cons x.id (ids xs) c.items)

purge-held :
    (id : ℕ) (c : Collection)
    → Every (is_held c.links) c.documents
    → Every (is_held (purge id c).links) (purge id c).documents
purge-held id c h =
    let P = Every (is_held (purge id c).links) in
    subst P (sym (purge-documents id c h)) (keep-Every (is_held (purge id c).links) c.documents)

purge_each-documents :
    (xs : List Item) (c : Collection)
    → Every (is_held c.links) c.documents
    → Every (is_held (purge_each xs c).links) (purge_each xs c).documents
unfolding purge_each
purge_each-documents [] c h = h
purge_each-documents (x ∷ xs) c h = purge_each-documents xs (purge x.id c) (purge-held x.id c h)

-- The expired items of a list, by their ids.
none_among :
    (d : ℕ) (p : Item → Bool) (l : List Item)
    → is_among d (ids l) ≡ false
    → is_among d (ids (keep p l)) ≡ false
unfolding keep
none_among d p [] h = refl
none_among d p (x ∷ xs) h = ground (arith, none_among d p xs)

Agree-skip :
    (d : ℕ) (ds : List ℕ) (q : Item → Bool) (l : List Item)
    → is_among d (ids l) ≡ false
    → Agree (λ i. not (is_among i.id ds)) q l
    → Agree (λ i. not (is_among i.id (d ∷ ds))) q l
Agree-skip d ds q [] h g = tt
Agree-skip d ds q (x ∷ xs) h g =
    (ground (arith, h, g.0), Agree-skip d ds q xs (ground (arith, h)) g.1)

Agree-step :
    (b : Bool) (x : Item) (l xs : List Item) (q : Item → Bool)
    → is_among x.id (ids xs) ≡ false
    → Agree (λ i. not (is_among i.id (ids l))) q xs
    → Agree (λ i. not (is_among i.id (ids (if b then x ∷ l else l)))) q xs
Agree-step true x l xs q h g = Agree-skip x.id (ids l) q xs h g
Agree-step false x l xs q h g = g

Agree-ids :
    (p : Item → Bool) (l : List Item)
    → Distinct l
    → Agree (λ i. not (is_among i.id (ids (keep p l)))) (λ i. not (p i)) l
unfolding keep
Agree-ids p [] h = tt
Agree-ids p (x ∷ xs) h = (
  ground (arith, none_among x.id p xs h.0),
  Agree-step (p x) x (keep p xs) xs (λ i. not (p i)) h.0 (Agree-ids p xs h.1),
)

Agree-sorted :
    (p : Item → Bool) (before : Item → Item → Bool) (xs l : List Item)
    → Agree
        (λ i. not (is_among i.id (ids (keep p (sort_by before l)))))
        (λ i. not (is_among i.id (ids (keep p l))))
        xs
Agree-sorted p before [] l = tt
Agree-sorted p before (x ∷ xs) l =
    (ground (arith, among_sort x.id p before l), Agree-sorted p before xs l)

Agree-expired :
    (days now : ℕ) (l : List Item)
    → Agree (λ i. is_trashed i && is_expired days now i) (is_expired days now) l
unfolding is_expired
Agree-expired days now [] = tt
Agree-expired days now (i ∷ is) = (ground arith, Agree-expired days now is)

count-Agree : (p q : Item → Bool) (l : List Item) → Agree p q l → count_if p l ≡ count_if q l
unfolding count_if
count-Agree p q [] h = refl
count-Agree p q (x ∷ xs) h = ground (arith, h.0, count-Agree p q xs h.1)

count_kept :
    (p q : Item → Bool) (l : List Item) → count_if p (keep q l) ≡ count_if (λ x. q x && p x) l
unfolding count_if keep
count_kept p q [] = refl
count_kept p q (x ∷ xs) = ground (arith, count_kept p q xs)

Agree-kept :
    (days now : ℕ) (l : List Item)
    → Agree (λ i. not (is_trashed i && is_expired days now i)) (λ i. not (is_expired days now i)) l
unfolding is_expired
Agree-kept days now [] = tt
Agree-kept days now (i ∷ is) = (ground arith, Agree-kept days now is)

abbrev expired : ℕ → ℕ → List Item → List Item
expired days now l = keep (is_expired days now) (trashed l)

not-expired :
    (days now : ℕ) (l : List Item)
    → Distinct l
    → keep (λ i. not (is_among i.id (ids (expired days now l)))) l
      ≡ keep (λ i. not (is_expired days now i)) l
unfolding trashed
not-expired days now l h =
    let p = is_expired days now in
    keep-Agree _ _ l (Agree-sorted p _ l (keep is_trashed l))
    ∙ ap (λ (is : List Item). keep (λ i. not (is_among i.id (ids is))) l) (keep-keep p is_trashed l)
    ∙ keep-Agree _ _ l (Agree-ids (λ i. is_trashed i && p i) l h)
    ∙ keep-Agree _ _ l (Agree-kept days now l)

length-expired :
    (days now : ℕ) (l : List Item) → length (expired days now l) ≡ count_if (is_expired days now) l
unfolding trashed
length-expired days now l =
    let p = is_expired days now in
    count_sort p _ (keep is_trashed l)
    ∙ count_kept p is_trashed l
    ∙ count-Agree _ _ l (Agree-expired days now l)

purge_expired-on :
    (days now : ℕ) (c : Collection)
    → days ≢ 0
    → purge_expired days now c
      ≡ (purge_each (expired days now c.items) c, length (expired days now c.items))
unfolding purge_expired
purge_expired-on days now c h = ground arith

-- Where every document was held by some item, every document that the clear-out leaves is held.
pub purge_expired-documents :
    (days now : ℕ) (c : Collection)
    → days ≢ 0
    → Every (is_held c.links) c.documents
    → Every (is_held (purge_expired days now c).0.links) (purge_expired days now c).0.documents
purge_expired-documents days now c h e =
    rw (purge_expired-on days now c h) (purge_each-documents (expired days now c.items) c e)

-- With a retention time, and no id given to two items, the clear-out deletes for good exactly the
-- items that went to the trash at least that many days ago, keeps all others in their order, and
-- returns the number of the deleted ones.
pub purge_expired-items :
    (days now : ℕ) (c : Collection)
    → days ≢ 0
    → Distinct c.items
    → ((purge_expired days now c).0.items ≡ keep (λ i. not (is_expired days now i)) c.items)
      × ((purge_expired days now c).1 ≡ count_if (is_expired days now) c.items)
purge_expired-items days now c h d = rw (purge_expired-on days now c h) (
  purge_each-items (expired days now c.items) c ∙ not-expired days now c.items d,
  length-expired days now c.items,
)
