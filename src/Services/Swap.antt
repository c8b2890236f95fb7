-- ===== src/Services/Swap.antt =====
-- The exchange of a volume's files at the end of a restore (_Swap, _live_entries and _roll_forward
-- of backend/app/services/restore.py). A program that can stop between any two file
-- operations is a list of operations; a folder's entries go by their names. Removing a whole working
-- folder is one operation, save for the unpacked files, which go one by one.
pub mod Moves
pub mod Cuts
pub mod Forward
pub mod Undoing
pub mod Gaps
pub mod Examples
use cabinet_numismatics.Prelude.{
  ◌≡◌, ◌⊎◌, String, Bool, true, false, not, ◌&&◌, ◌||◌, Option, none, some, List, [], ◌∷◌, ◌++◌,
  if◌then◌else◌,
}
use cabinet_numismatics.Prelude.Dict.{Dict, get, put, pop}
use cabinet_numismatics.Prelude.Text.{after_prefix}

-- `folder` with its working folders NEW_DIR, OLD_DIR and TRASH_DIR; `moved_out` is the marker inside
-- OLD_DIR. A working folder that is not there has no entries.
pub record Volume : Type 0 where
  pub live : Dict String
  pub has_new : Bool
  pub new : Dict String
  pub has_old : Bool
  pub old : Dict String
  pub moved_out : Bool
  pub trash : Dict String

-- `entry.name.startswith((backup.RESTORE_PREFIX, ".nfs"))` is false
unfoldable pub is_movable : String → Bool
is_movable name = elim (after_prefix ".restore-" name) [
  | some _ ↦ false
  | none ↦ elim (after_prefix ".nfs" name) [ some _ ↦ false | none ↦ true ]
]

pub data Op : Type 0 where
  make_old : Op
  move_out : String → Op
  touch_marker : Op
  move_in : String → Op
  make_new : Op
  move_off : String → Op
  unlink_marker : Op
  move_back : String → Op
  remove_old : Op
  delete_new : String → Op
  remove_new : Op
  old_to_trash : Op
  remove_trash : Op

abbrev pub carry : String → Option String → Dict String → Dict String → Dict String × Dict String
carry name none a b = (a, b)
carry name (some v) a b = (pop name a, put name v b)

-- `entry.rename`: the entry of this name, if it is there, and what stood in its place is gone
unfoldable pub rename : String → Dict String → Dict String → Dict String × Dict String
rename name a b = carry name (get name a) a b

unfoldable pub exec : Op → Volume → Volume
exec make_old f = record f { has_old = true }
exec (move_out n) f = let (a, b) = rename n f.live f.old in record f { live = a; old = b }
exec touch_marker f = record f { moved_out = true }
exec (move_in n) f = let (a, b) = rename n f.new f.live in record f { new = a; live = b }
exec make_new f = record f { has_new = true }
exec (move_off n) f = let (a, b) = rename n f.live f.new in record f { live = a; new = b }
exec unlink_marker f = record f { moved_out = false }
exec (move_back n) f = let (a, b) = rename n f.old f.live in record f { old = a; live = b }
exec remove_old f = record f { has_old = false; old = [] }
exec (delete_new n) f = record f { new = pop n f.new }
exec remove_new f = record f { has_new = false; new = [] }
exec old_to_trash f = record f { has_old = false; old = []; moved_out = false; trash = f.old }
exec remove_trash f = record f { trash = [] }

unfoldable pub exec_all : List Op → Volume → Volume
exec_all [] f = f
exec_all (o ∷ os) f = exec_all os (exec o f)

unfoldable pub each : (String → Op) → Dict String → List Op
each op [] = []
each op ((n, v) ∷ d) = op n ∷ each op d

-- `_live_entries`
unfoldable pub live_entries : Dict String → Dict String
live_entries [] = []
live_entries ((n, v) ∷ d) =
    let rest = live_entries d in if is_movable n then (n, v) ∷ rest else rest

-- `_Swap.apply`, as the operations that it performs on a volume
unfoldable pub apply_ops : Volume → List Op
apply_ops f =
    make_old
    ∷ ((if f.moved_out then [] else each move_out (live_entries f.live) ++ touch_marker ∷ [])
        ++ each move_in f.new)

-- `_Swap.undo`, up to the removal of NEW_DIR
unfoldable pub undo_ops : Volume → List Op
undo_ops f =
    if f.has_old
    then (if f.moved_out
        then make_new ∷ (each move_off (live_entries f.live) ++ unlink_marker ∷ [])
        else [])
      ++ (each move_back f.old ++ remove_old ∷ [])
    else []

-- `shutil.rmtree(self.new)`
unfoldable pub clear_new_ops : Volume → List Op
clear_new_ops f = each delete_new f.new ++ remove_new ∷ []

-- `_Swap.finish`
unfoldable pub finish_ops : Volume → List Op
finish_ops f =
    remove_trash
    ∷ ((if f.has_old then old_to_trash ∷ [] else []) ++ (remove_new ∷ remove_trash ∷ []))

unfoldable pub apply : Volume → Volume
apply f = exec_all (apply_ops f) f

unfoldable pub undo : Volume → Volume
undo f = let g = exec_all (undo_ops f) f in if f.has_old then exec_all (clear_new_ops g) g else g

unfoldable pub finish : Volume → Volume
finish f = exec_all (finish_ops f) f

-- `_roll_forward` of one folder
unfoldable pub roll_forward : Volume → Volume
roll_forward f = finish (if f.has_new then apply f else f)

-- The volume `g` that is left when a list of operations on `f` stops anywhere.
abbrev pub Cut : List Op → Volume → Volume → Type 0
Cut [] f g = f ≡ g
Cut (o ∷ os) f g = (f ≡ g) ⊎ Cut os (exec o f) g

-- Several exchanges one after another, each stopped anywhere.
pub data Attempts : Volume → Volume → Type 0 where
  begun : {f : Volume} → Attempts f f
  attempt : {f g h : Volume} → Cut (apply_ops f) f g → Attempts g h → Attempts f h
