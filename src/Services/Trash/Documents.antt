-- ===== src/Services/Trash/Documents.antt =====
-- What a permanent deletion does to the documents (backend/app/services/trash.py).
use cabinet_numismatics.Prelude.{
  ℕ, ◌+◌, ◌≡◌, ◌≢◌, refl, sym, ap, ◌∙◌, Bool, true, false, not, ◌&&◌, List, [], ◌∷◌, ◌==◌, arith,
  if◌then◌else◌,
}
use cabinet_numismatics.Prelude.Keep.{keep, count_if, is_among, Every, Agree, keep-keep, keep-Agree}
use cabinet_numismatics.Services.Trash.{
  Link, Collection, of_item, links, delete_document, delete_orphan_documents, document_ids,
  delete_item, purge,
}

-- A document that some item holds.
abbrev pub is_held : List Link → ℕ → Bool
is_held ls d = not (links d ls == 0)

-- Deleting a document without links leaves the links as they are.
links-none :
    (d : ℕ) (ls : List Link) → links d ls ≡ 0 → keep (λ l. not (l.document_id == d)) ls ≡ ls
unfolding links count_if keep
links-none d [] h = refl
links-none d (l ∷ ls) h = ground (arith, links-none d ls)

abbrev orphan_in : List ℕ → List Link → ℕ → Bool
orphan_in ds ls d = is_among d ds && links d ls == 0

abbrev one_less : ℕ → Collection → Collection
one_less d c = if is_among d c.documents && links d c.links == 0 then delete_document d c else c

one_less-links : (d : ℕ) (c : Collection) → (one_less d c).links ≡ c.links
unfolding delete_document
one_less-links d c = ground (arith, links-none d c.links)

one_less-items : (d : ℕ) (c : Collection) → (one_less d c).items ≡ c.items
unfolding delete_document
one_less-items d c = ground arith

-- A deletion that happens where a condition holds, and that is harmless where the element is not
-- there.
less-none :
    (d : ℕ) (b : Bool) (ds : List ℕ)
    → (is_among d ds && b) ≡ false
    → keep (λ e. not (e == d && b)) ds ≡ ds
unfolding keep
less-none d b [] h = refl
less-none d b (x ∷ xs) h = ground (arith, less-none d b xs)

less-some :
    (d : ℕ) (b : Bool) (ds : List ℕ)
    → b ≡ true
    → keep (λ e. not (e == d)) ds ≡ keep (λ e. not (e == d && b)) ds
unfolding keep
less-some d b [] h = refl
less-some d b (x ∷ xs) h = ground (arith, less-some d b xs)

keep-all : (ds : List ℕ) → keep (λ e. true) ds ≡ ds
unfolding keep
keep-all [] = refl
keep-all (x ∷ xs) = ground (arith, keep-all xs)

one_less-documents :
    (d : ℕ) (c : Collection)
    → (one_less d c).documents ≡ keep (λ e. not (e == d && links d c.links == 0)) c.documents
unfolding delete_document
one_less-documents d c = ground (
  arith,
  less-none d (links d c.links == 0) c.documents,
  less-some d (links d c.links == 0) c.documents,
)

-- A round over documents leaves the links and the items.
orphans-links : (ds : List ℕ) (c : Collection) → (delete_orphan_documents ds c).links ≡ c.links
unfolding delete_orphan_documents
orphans-links [] c = refl
orphans-links (d ∷ ds) c = orphans-links ds (one_less d c) ∙ one_less-links d c

pub orphans-items : (ds : List ℕ) (c : Collection) → (delete_orphan_documents ds c).items ≡ c.items
unfolding delete_orphan_documents
orphans-items [] c = refl
orphans-items (d ∷ ds) c = orphans-items ds (one_less d c) ∙ one_less-items d c

Agree-split :
    (d : ℕ) (ds xs : List ℕ) (ls : List Link)
    → Agree
        (λ e. not (e == d && links d ls == 0) && not (orphan_in ds ls e))
        (λ e. not (orphan_in (d ∷ ds) ls e))
        xs
Agree-split d ds [] ls = tt
Agree-split d ds (x ∷ xs) ls = (ground arith, Agree-split d ds xs ls)

orphans-documents :
    (ds : List ℕ) (c : Collection)
    → (delete_orphan_documents ds c).documents
      ≡ keep (λ e. not (orphan_in ds c.links e)) c.documents
unfolding delete_orphan_documents
orphans-documents [] c = sym (keep-all c.documents)
orphans-documents (d ∷ ds) c =
    orphans-documents ds (one_less d c)
    ∙ ap (λ (ls : List Link). keep (λ e. not (orphan_in ds ls e)) (one_less d c).documents)
        (one_less-links d c)
    ∙ ap (keep (λ e. not (orphan_in ds c.links e))) (one_less-documents d c)
    ∙ keep-keep (λ e. not (orphan_in ds c.links e)) (λ e. not (e == d && links d c.links == 0))
        c.documents
    ∙ keep-Agree _ _ c.documents (Agree-split d ds c.documents c.links)

-- What an item holds is on its list of documents.
count_parts :
    (id d : ℕ) (ls : List Link)
    → links d ls ≡ links d (keep (of_item id) ls) + links d (keep (λ l. not (l.item_id == id)) ls)
unfolding links count_if keep
count_parts id d [] = refl
count_parts id d (l ∷ ls) = ground (arith, count_parts id d ls)

counted-among : (d : ℕ) (ls : List Link) → links d ls ≢ 0 → is_among d (document_ids ls) ≡ true
unfolding links count_if document_ids
counted-among d [] h = ground arith
counted-among d (l ∷ ls) h = ground (arith, counted-among d ls)

held-Agree :
    (id : ℕ) (ls : List Link) (ds : List ℕ)
    → Every (is_held ls) ds
    → Agree
        (λ e. not (
          orphan_in (document_ids (keep (of_item id) ls)) (keep (λ l. not (l.item_id == id)) ls) e))
        (is_held (keep (λ l. not (l.item_id == id)) ls))
        ds
held-Agree id ls [] h = tt
held-Agree id ls (d ∷ ds) h = (
  ground (arith, h.0, count_parts id d ls, counted-among d (keep (of_item id) ls)),
  held-Agree id ls ds h.1,
)

pub purge-links :
    (id : ℕ) (c : Collection) → (purge id c).links ≡ keep (λ l. not (l.item_id == id)) c.links
unfolding purge delete_item
purge-links id c = orphans-links (document_ids (keep (of_item id) c.links)) (delete_item id c)

pub purge-items :
    (id : ℕ) (c : Collection) → (purge id c).items ≡ keep (λ i. not (i.id == id)) c.items
unfolding purge delete_item
purge-items id c = orphans-items (document_ids (keep (of_item id) c.links)) (delete_item id c)

-- Where every document is held by some item, deleting an item for good keeps exactly the documents
-- that some item holds afterwards, the trashed items included.
pub purge-documents :
    (id : ℕ) (c : Collection)
    → Every (is_held c.links) c.documents
    → (purge id c).documents ≡ keep (is_held (purge id c).links) c.documents
unfolding purge delete_item
purge-documents id c h =
    orphans-documents (document_ids (keep (of_item id) c.links)) (delete_item id c)
    ∙ keep-Agree _ _ c.documents (held-Agree id c.links c.documents h)
    ∙ sym (ap (λ (ls : List Link). keep (is_held ls) c.documents) (purge-links id c))
