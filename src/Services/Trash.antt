-- ===== src/Services/Trash.antt =====
-- The trash (backend/app/services/trash.py): items with a time of deletion, and what a permanent
-- deletion takes with it. Ids are numbers; an item's columns that the trash does not touch are one
-- value.
pub mod Documents
pub mod Retention
pub mod Recovery
pub mod Examples
use cabinet_numismatics.Prelude.{
  ℕ, ◌+◌, ◌-◌, ◌*◌, String, Bool, true, false, not, ◌&&◌, ◌||◌, Option, none, some, List, [], ◌∷◌,
  ◌++◌, ltb, leb, ◌==◌, if◌then◌else◌, length,
}
use cabinet_numismatics.Prelude.Sort.{sort_by}
use cabinet_numismatics.Prelude.Keep.{keep, count_if, is_among}
use cabinet_numismatics.Auth.Common.{day}

pub record Item : Type 0 where
  pub id : ℕ
  pub columns : String
  pub deleted_at : Option ℕ
  -- set at every update of the row
  pub updated_at : ℕ

pub record Event : Type 0 where
  pub item_id : ℕ
  pub action : String

-- A row of `item_documents`.
pub record Link : Type 0 where
  pub item_id : ℕ
  pub document_id : ℕ

-- The tables, and on disk the photo directories (by item) and the documents' files.
pub record Collection : Type 0 where
  pub items : List Item
  pub events : List Event
  pub links : List Link
  pub documents : List ℕ
  pub photo_dirs : List ℕ
  pub document_files : List ℕ

abbrev pub is_trashed : Item → Bool
is_trashed i = elim i.deleted_at [ none ↦ false | some _ ↦ true ]

-- `purge_at`; no days is never
unfoldable pub purge_at : ℕ → Item → Option ℕ
purge_at days i = elim i.deleted_at [
  | none ↦ none
  | some t ↦ if days == 0 then none else some (t + days * day)
]

unfoldable pub get_any : ℕ → List Item → Option Item
get_any id [] = none
get_any id (i ∷ is) = if i.id == id then some i else get_any id is

abbrev pub trashed_at : Item → ℕ
trashed_at i = elim i.deleted_at [ none ↦ 0 | some t ↦ t ]

-- `trashed`: the most recently deleted first
unfoldable pub trashed : List Item → List Item
trashed is = sort_by (λ a b. leb (trashed_at b) (trashed_at a)) (keep is_trashed is)

-- An UPDATE of the item with this id.
unfoldable pub put_item : Item → List Item → List Item
put_item i [] = []
put_item i (j ∷ js) = if j.id == i.id then i ∷ js else j ∷ put_item i js

abbrev pub moved_one : ℕ → Collection → Item → Collection × ℕ
moved_one stamp c i = if is_trashed i then (c, 0) else (
  record c {
    items = put_item (record i { deleted_at = some stamp; updated_at = stamp }) c.items;
    events = c.events ++ (record { item_id = i.id; action = "trashed" }) ∷ [];
  },
  1,
)

abbrev pub restored_one : ℕ → Collection → Item → Collection × ℕ
restored_one stamp c i =
    if is_trashed i
    then (
      record c {
        items = put_item (record i { deleted_at = none; updated_at = stamp }) c.items;
        events = c.events ++ (record { item_id = i.id; action = "restored" }) ∷ [];
      },
      1,
    )
    else (c, 0)

abbrev pub on_found : (Item → Collection × ℕ) → Collection → Option Item → Collection × ℕ
on_found f c none = (c, 0)
on_found f c (some i) = f i

-- `move_to_trash` of the items with these ids: two objects of one row are one object in a session.
unfoldable pub move_to_trash : ℕ → List ℕ → Collection → Collection × ℕ
move_to_trash stamp [] c = (c, 0)
move_to_trash stamp (id ∷ ids) c =
    let (c1, n) = on_found (moved_one stamp c) c (get_any id c.items) in
    let (c2, m) = move_to_trash stamp ids c1 in (c2, n + m)

-- `restore`
unfoldable pub restore : ℕ → List ℕ → Collection → Collection × ℕ
restore stamp [] c = (c, 0)
restore stamp (id ∷ ids) c =
    let (c1, n) = on_found (restored_one stamp c) c (get_any id c.items) in
    let (c2, m) = restore stamp ids c1 in (c2, n + m)

abbrev pub of_document : ℕ → Link → Bool
of_document d l = l.document_id == d

abbrev pub of_item : ℕ → Link → Bool
of_item i l = l.item_id == i

-- `links`: how many items hold a document, the trashed ones included
unfoldable pub links : ℕ → List Link → ℕ
links d ls = count_if (of_document d) ls

unfoldable pub delete_document : ℕ → Collection → Collection
delete_document d c = record c {
  links = keep (λ l. not (l.document_id == d)) c.links;
  documents = keep (λ e. not (e == d)) c.documents;
  document_files = keep (λ e. not (e == d)) c.document_files;
}

unfoldable pub delete_orphan_documents : List ℕ → Collection → Collection
delete_orphan_documents [] c = c
delete_orphan_documents (d ∷ ds) c =
    delete_orphan_documents ds
      (if is_among d c.documents && links d c.links == 0 then delete_document d c else c)

unfoldable pub document_ids : List Link → List ℕ
document_ids [] = []
document_ids (l ∷ ls) = l.document_id ∷ document_ids ls

-- The rows of an item and what hangs on it.
unfoldable pub delete_item : ℕ → Collection → Collection
delete_item id c = record c {
  items = keep (λ i. not (i.id == id)) c.items;
  events = keep (λ e. not (e.item_id == id)) c.events;
  links = keep (λ l. not (l.item_id == id)) c.links;
  photo_dirs = keep (λ i. not (i == id)) c.photo_dirs;
}

unfoldable pub purge : ℕ → Collection → Collection
purge id c = delete_orphan_documents (document_ids (keep (of_item id) c.links)) (delete_item id c)

unfoldable pub purge_each : List Item → Collection → Collection
purge_each [] c = c
purge_each (i ∷ is) c = purge_each is (purge i.id c)

-- `_utc(i.deleted_at) <= now - days`
unfoldable pub is_expired : ℕ → ℕ → Item → Bool
is_expired days now i = elim i.deleted_at [ none ↦ false | some t ↦ leb (t + days * day) now ]

-- `purge_expired`; `days` is the retention setting
unfoldable pub purge_expired : ℕ → ℕ → Collection → Collection × ℕ
purge_expired days now c =
    if days == 0
    then (c, 0)
    else let expired = keep (is_expired days now) (trashed c.items) in
      (purge_each expired c, length expired)
