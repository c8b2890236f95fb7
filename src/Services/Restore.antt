-- ===== src/Services/Restore.antt =====
-- A restore that may stop anywhere, and what the next start makes of it (_run up to its success, and
-- recover of backend/app/services/restore.py), for one volume of files. The database step is two
-- transactions: the tables that the dump does not hold are dropped, and pg_restore replaces the
-- rest. Which archive, the safety backup, the migrations and the share links are left out; so are
-- the order in which the outcome names the dropped tables, and the constraints of other tables that
-- go with them.
pub mod Stages
pub mod Exchange
pub mod Database
pub mod Recovery
pub mod Examples
use text.Mathlib.Text.{◌==◌ as str_eq}
use cabinet_numismatics.Prelude.{
  String, Bool, true, false, not, ◌||◌, ◌≡◌, ◌⊎◌, Option, none, some, List, [], ◌∷◌, ◌++◌,
  if◌then◌else◌,
}
use cabinet_numismatics.Prelude.Dict.{Dict, put}
use cabinet_numismatics.Prelude.Keep.{keep}
use cabinet_numismatics.Services.Swap.{Volume, Op, exec, apply_ops, apply, finish_ops, roll_forward}

-- The journal's phase, with the marker and the dropped tables that it names.
pub data Journal : Type 0 where
  preparing : Journal
  database : String → List String → Journal
  swapping : Journal

-- `replaced`: the database is the archive's. `tables` are the tables of its schema `public`, and
-- `told` those that the outcome names as removed. `marker` is the value of the marker row.
pub record Host : Type 0 where
  pub journal : Option Journal
  pub replaced : Bool
  pub tables : List String
  pub told : List String
  pub marker : Option String
  pub volume : Volume

pub data Event : Type 0 where
  write_journal : Option Journal → Event
  clear_workdirs : Event
  unpack_dir : Event
  unpack : String → String → Event
  write_marker : String → Event
  drop_leftovers : List String → Event
  replace_database : List String → Option String → Event
  delete_marker : Event
  move : Op → Event

unfoldable pub is_named : List String → String → Bool
is_named [] name = false
is_named (d ∷ ds) name = str_eq d name || is_named ds name

-- `set(present) - tables`, and what dropping them leaves
abbrev pub leftovers : List String → List String → List String
leftovers dump present = keep (λ name. not (is_named dump name)) present

abbrev pub shared : List String → List String → List String
shared dump present = keep (is_named dump) present

-- `_clear_workdirs`, where it does not refuse
unfoldable pub without_workdirs : Volume → Volume
without_workdirs f = record f {
  has_new = false;
  new = [];
  has_old = false;
  old = [];
  moved_out = false;
  trash = [];
}

unfoldable pub happen : Event → Host → Host
happen (write_journal j) h = record h { journal = j }
happen clear_workdirs h = record h { volume = without_workdirs h.volume }
happen unpack_dir h = record h { volume = record h.volume { has_new = true } }
happen (unpack n v) h = record h { volume = record h.volume { new = put n v h.volume.new } }
happen (write_marker m) h = record h { marker = some m }
happen (drop_leftovers dump) h = record h { tables = shared dump h.tables }
happen (replace_database dump carried) h = record h {
  replaced = true;
  tables = dump;
  marker = carried;
}
happen delete_marker h = record h { marker = none }
happen (move o) h = record h { volume = exec o h.volume }

unfoldable pub happen_all : List Event → Host → Host
happen_all [] h = h
happen_all (e ∷ es) h = happen_all es (happen e h)

unfoldable pub unpack_each : Dict String → List Event
unpack_each [] = []
unpack_each ((n, v) ∷ d) = unpack n v ∷ unpack_each d

unfoldable pub moves : List Op → List Event
moves [] = []
moves (o ∷ os) = move o ∷ moves os

-- What unpacking makes of the archive's members: a later one replaces an earlier one of its name.
unfoldable pub unpacked : Dict String → Dict String → Dict String
unpacked [] new = new
unpacked ((n, v) ∷ d) new = unpacked d (put n v new)

-- The volume when the exchange begins.
abbrev pub ready_volume : Dict String → Volume → Volume
ready_volume archive f = record (without_workdirs f) { has_new = true; new = unpacked archive [] }

-- The first transaction of `restore_database`, with the journal of `on_drop` before its end.
abbrev pub drop_events : String → List String → List String → List Event
drop_events m dump [] = []
drop_events m dump (n ∷ ns) = write_journal (some (database m (n ∷ ns))) ∷ drop_leftovers dump ∷ []

-- From the replacement on; `dump` names the tables of the dump, and `carried` is the marker row that
-- it brings.
abbrev pub replacing_events : Option String → List String → Volume → List Event
replacing_events carried dump f =
    replace_database dump carried
    ∷ write_journal (some swapping)
    ∷ delete_marker
    ∷ (moves (apply_ops f) ++ (moves (finish_ops (apply f)) ++ (write_journal none ∷ [])))

-- From the database step on, in a database with these tables.
unfoldable pub late_events :
    String → Option String → List String → List String → Volume → List Event
late_events m carried dump tables f =
    write_marker m
    ∷ write_journal (some (database m []))
    ∷ (drop_events m dump (leftovers dump tables) ++ replacing_events carried dump f)

unfoldable pub whole_events :
    String → Option String → List String → List String → Dict String → Volume → List Event
whole_events m carried dump tables archive f =
    write_journal (some preparing)
    ∷ clear_workdirs
    ∷ unpack_dir
    ∷ (unpack_each archive ++ late_events m carried dump tables (ready_volume archive f))

-- `_clear_workdirs` refuses an OLD_DIR that holds anything, the marker `moved_out` included; the run
-- then ends.
abbrev pub events_by :
    Bool
    → Dict String
    → String
    → Option String
    → List String
    → List String
    → Dict String
    → Volume
    → List Event
events_by false [] m carried dump tables archive f = whole_events m carried dump tables archive f
events_by false (e ∷ es) m carried dump tables archive f =
    write_journal (some preparing) ∷ write_journal none ∷ []
events_by true old m carried dump tables archive f =
    write_journal (some preparing) ∷ write_journal none ∷ []

-- `_run` with the archive's files, marked by `m`
unfoldable pub run_events :
    String → Option String → List String → List String → Dict String → Volume → List Event
run_events m carried dump tables archive f =
    events_by f.moved_out f.old m carried dump tables archive f

-- `_drop_unpacked`
unfoldable pub drop_unpacked : Volume → Volume
drop_unpacked f = record f { has_new = false; new = [] }

abbrev pub is_marker : String → Option String → Bool
is_marker m none = false
is_marker m (some found) = str_eq found m

abbrev pub recover_from : Option Journal → Host → Host
recover_from none h = h
recover_from (some preparing) h = record h {
  journal = none;
  told = [];
  volume = drop_unpacked h.volume;
}
recover_from (some (database m dropped)) h =
    if is_marker m h.marker
    then record h { journal = none; told = dropped; marker = none; volume = drop_unpacked h.volume }
    else record h { journal = none; marker = none; volume = roll_forward h.volume }
recover_from (some swapping) h = record h { journal = none; volume = roll_forward h.volume }

-- `recover`, where the database can be reached
unfoldable pub recover : Host → Host
recover h = recover_from h.journal h

-- The host `g` that is left when the events stop anywhere.
abbrev pub HostCut : List Event → Host → Host → Type 0
HostCut [] h g = h ≡ g
HostCut (e ∷ es) h g = (h ≡ g) ⊎ HostCut es (happen e h) g
