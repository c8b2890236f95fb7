-- ===== src/Services/Restore/Examples.antt =====
-- A restore that stops on a concrete host (backend/app/services/restore.py).
use cabinet_numismatics.Prelude.{◌≡◌, List, String, Bool, true, false, refl, none, some, [], ◌∷◌}
use cabinet_numismatics.Prelude.Dict.{Dict}
use cabinet_numismatics.Services.Swap.{Volume}
use cabinet_numismatics.Prelude.Keep.{keep}
use cabinet_numismatics.Services.Restore.{
  preparing, database, Host, write_journal, clear_workdirs, unpack_dir, unpack, write_marker,
  drop_leftovers, is_named, happen_all, recover, happen,
}

abbrev photos : Volume
photos = record {
  live = ("a", "old a") ∷ ("b", "old b") ∷ [];
  has_new = false;
  new = [];
  has_old = false;
  old = [];
  moved_out = false;
  trash = [];
}

abbrev present : List String
present = "alembic_version" ∷ "items" ∷ "share_links" ∷ []

-- The tables of the archive's dump, from before the migration of the share links.
abbrev dump : List String
dump = "alembic_version" ∷ "items" ∷ []

abbrev host : Host
host = record {
  journal = none;
  replaced = false;
  tables = present;
  told = [];
  marker = none;
  volume = photos;
}

abbrev archive : Dict String
archive = ("a", "new a") ∷ []

-- The process stops right after the leftover table has been dropped.
abbrev stopped : Host
stopped =
    happen_all
      (write_journal (some preparing)
        ∷ clear_workdirs
        ∷ unpack_dir
        ∷ unpack "a" "new a"
        ∷ write_marker "m"
        ∷ write_journal (some (database "m" []))
        ∷ write_journal (some (database "m" ("share_links" ∷ [])))
        ∷ drop_leftovers dump
        ∷ [])
      host

-- It is not the place at which the exchange must not stop: the previous files are not in the trash.
abbrev is_empty : Dict String → Bool
is_empty [] = true
is_empty (e ∷ es) = false

-- The next start names the table, which is gone.
recovered : ((recover stopped).tables ≡ dump) × ((recover stopped).told ≡ "share_links" ∷ [])
unfolding recover happen_all happen keep is_named
recovered = (refl, refl)
