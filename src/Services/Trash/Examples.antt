-- ===== src/Services/Trash/Examples.antt =====
-- The trash on a concrete collection (backend/app/services/trash.py).
use cabinet_numismatics.Prelude.{◌≡◌, refl, not, [], ◌∷◌, none, some, arith}
use cabinet_numismatics.Prelude.Sort.{sort_by, insert_by}
use cabinet_numismatics.Prelude.Keep.{keep, count_if, Every}
use cabinet_numismatics.Services.Trash.{
  purge_each, trashed, delete_item, delete_orphan_documents, document_ids, delete_document, Item,
  Collection, get_any, put_item, purge, is_expired, purge_expired, move_to_trash, restore, links,
}
use cabinet_numismatics.Services.Trash.Documents.{is_held, purge-documents}
use cabinet_numismatics.Services.Trash.Retention.{purge_expired-items}
use cabinet_numismatics.Services.Trash.Recovery.{restore-move_to_trash}

abbrev penny : Item
penny = record { id = 1; columns = "penny"; deleted_at = some 100; updated_at = 100 }

abbrev crown : Item
crown = record { id = 2; columns = "crown"; deleted_at = none; updated_at = 50 }

abbrev note : Item
note = record { id = 3; columns = "note"; deleted_at = some 900000000000; updated_at = 900000 }

-- Document 10 is held by the penny and the crown, 11 by the penny alone, 12 by the note.
abbrev cabinet : Collection
cabinet = record {
  items = penny ∷ crown ∷ note ∷ [];
  events = [];
  links =
      (record { item_id = 1; document_id = 10 })
      ∷ (record { item_id = 2; document_id = 10 })
      ∷ (record { item_id = 1; document_id = 11 })
      ∷ (record { item_id = 3; document_id = 12 })
      ∷ [];
  documents = 10 ∷ 11 ∷ 12 ∷ [];
  photo_dirs = 1 ∷ 3 ∷ [];
  document_files = 10 ∷ 11 ∷ 12 ∷ [];
}

cabinet-Every : Every (is_held cabinet.links) cabinet.documents
unfolding links count_if
cabinet-Every = (refl, (refl, (refl, tt)))

purge-documents_example :
    (purge 1 cabinet).documents ≡ keep (is_held (purge 1 cabinet).links) cabinet.documents
purge-documents_example = purge-documents 1 cabinet cabinet-Every

purge_expired-items_example :
    ((purge_expired 7 1000000000000 cabinet).0.items
      ≡ keep (λ i. not (is_expired 7 1000000000000 i)) cabinet.items)
    × ((purge_expired 7 1000000000000 cabinet).1
        ≡ count_if (is_expired 7 1000000000000) cabinet.items)
purge_expired-items_example =
    purge_expired-items 7 1000000000000 cabinet (omega arith) (refl, (refl, (refl, tt)))

restore-move_to_trash_example : restore 400 (2 ∷ []) (move_to_trash 300 (2 ∷ []) cabinet).0 ≡ (
  record cabinet {
    items = put_item (record crown { updated_at = 400 }) cabinet.items;
    events =
        (record { item_id = 2; action = "trashed" })
        ∷ (record { item_id = 2; action = "restored" })
        ∷ [];
  },
  1,
)
unfolding get_any
restore-move_to_trash_example = restore-move_to_trash 300 400 2 cabinet crown refl refl

-- The clear-out deletes the penny, with the one document that it alone held.
clear_out : (purge_expired 7 1000000000000 cabinet).0.documents ≡ 10 ∷ 12 ∷ []
unfolding purge_expired purge_each keep trashed sort_by insert_by is_expired purge delete_item
    delete_orphan_documents document_ids delete_document links count_if
clear_out = refl
