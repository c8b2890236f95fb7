-- ===== src/Services/Trash/Recovery.antt =====
-- Moving an item to the trash and restoring it (backend/app/services/trash.py).
use cabinet_numismatics.Prelude.{
  ℕ, String, ◌≡◌, refl, ◌∙◌, List, [], ◌∷◌, ◌++◌, Option, none, some, arith,
}
use mathlib.Core.List.{append_assoc}
use cabinet_numismatics.Services.Trash.{
  Item, Event, Collection, get_any, put_item, move_to_trash, restore,
}

get_any_id : (id : ℕ) (is : List Item) (i : Item) → get_any id is ≡ some i → i.id ≡ id
unfolding get_any
get_any_id id [] i h = ground arith
get_any_id id (j ∷ js) i h = ground (arith, get_any_id id js i)

get_any-put_item :
    (id : ℕ) (is : List Item) (i k : Item)
    → get_any id is ≡ some i
    → k.id ≡ id
    → get_any id (put_item k is) ≡ some k
unfolding get_any put_item
get_any-put_item id [] i k h e = ground arith
get_any-put_item id (j ∷ js) i k h e = ground (arith, get_any-put_item id js i k)

put_item_twice :
    (is : List Item) (i k : Item) → i.id ≡ k.id → put_item k (put_item i is) ≡ put_item k is
unfolding put_item
put_item_twice [] i k e = refl
put_item_twice (j ∷ js) i k e = ground (arith, put_item_twice js i k e)

abbrev stamped : ℕ → Option ℕ → Item → Item
stamped t d i = record i { deleted_at = d; updated_at = t }

abbrev logged : String → ℕ → Event
logged a id = record { item_id = id; action = a }

move-one :
    (s id : ℕ) (c : Collection) (i : Item)
    → get_any id c.items ≡ some i
    → i.deleted_at ≡ none
    → move_to_trash s (id ∷ []) c ≡ (
      record c {
        items = put_item (stamped s (some s) i) c.items;
        events = c.events ++ logged "trashed" i.id ∷ [];
      },
      1,
    )
unfolding move_to_trash
move-one s id c i h e = rw h (rw e refl)

restore-one :
    (t id : ℕ) (c : Collection) (i : Item) (s : ℕ)
    → get_any id c.items ≡ some i
    → i.deleted_at ≡ some s
    → restore t (id ∷ []) c ≡ (
      record c {
        items = put_item (stamped t none i) c.items;
        events = c.events ++ logged "restored" i.id ∷ [];
      },
      1,
    )
unfolding restore
restore-one t id c i s h e = rw h (rw e refl)

-- An item that is not in the trash, moved there and restored later, is as it was up to the time of
-- its last update; every other item, the links, the documents, the photos and the files are as they
-- were, and the history has two new entries. Each call counts one item.
pub restore-move_to_trash :
    (s t id : ℕ) (c : Collection) (i : Item)
    → get_any id c.items ≡ some i
    → i.deleted_at ≡ none
    → restore t (id ∷ []) (move_to_trash s (id ∷ []) c).0 ≡ (
      record c {
        items = put_item (record i { updated_at = t }) c.items;
        events =
            c.events
            ++ (record { item_id = id; action = "trashed" })
              ∷ (record { item_id = id; action = "restored" })
              ∷ [];
      },
      1,
    )
restore-move_to_trash s t id c i h e = rw (move-one s id c i h e) (
    restore-one t id _ (stamped s (some s) i) s
      (get_any-put_item id c.items i (stamped s (some s) i) h (get_any_id id c.items i h)) refl
    ∙ ground (
      arith,
      put_item_twice c.items (stamped s (some s) i) (stamped t none i) refl,
      get_any_id id c.items i h,
      e,
      append_assoc c.events (logged "trashed" i.id ∷ []) (logged "restored" i.id ∷ []),
    ))
