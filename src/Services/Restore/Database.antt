-- ===== src/Services/Restore/Database.antt =====
-- The database step of a restore that stops anywhere, and what the next start makes of it
-- (restore_database and _run of backend/app/services/restore.py).
use mathlib.Core.Path.{subst}
use cabinet_numismatics.Prelude.{
  String, true, false, ◌≡◌, ◌≢◌, inl, inr, refl, Option, none, some, List, [], ◌∷◌, ◌++◌,
}
use cabinet_numismatics.Prelude.Dict.{Dict}
use cabinet_numismatics.Services.Swap.{Volume, is_movable, apply}
use cabinet_numismatics.Services.Swap.Cuts.{Underway}
use cabinet_numismatics.Services.Swap.Gaps.{stopped_finish}
use cabinet_numismatics.Services.Restore.{
  preparing, database, Host, happen, late_events, drop_events, replacing_events, leftovers, shared,
  is_marker, recover, HostCut,
}
use cabinet_numismatics.Services.Restore.Stages.{
  Left, IsBefore, IsExchanging, recover-IsBefore, recover-IsExchanging,
}
use cabinet_numismatics.Services.Restore.Exchange.{Agrees, swap-Agrees}

-- The restore of an archive whose dump holds the tables `dump` and brings the marker row `carried`,
-- marked by `m`, in a database with these tables.
module _ (m : String) (carried mark : Option String) (dump tables : List String)
    (other : is_marker m carried ≡ false) where
  -- A host whose database and files are untouched.
  abbrev pub untouched : Volume → Host
  untouched f = record {
    journal = none;
    replaced = false;
    tables = tables;
    told = [];
    marker = mark;
    volume = f;
  }

  abbrev pub prepared : Volume → Host
  prepared v = record (untouched v) { journal = some preparing }

  -- The database step is under way; `names` stand in the journal, and the tables `left` are left.
  abbrev waiting : List String → List String → Volume → Host
  waiting names left v = record (untouched v) {
    journal = some (database m names);
    tables = left;
    marker = some m;
  }

  pub before-Agrees :
      (live : Dict String) (n : String) (x : Option String) (h g : Host)
      → IsBefore dump tables live h
      → h ≡ g
      → Agrees dump tables (recover g) live n x
  before-Agrees live n x h g b p =
      inl (recover-IsBefore dump tables live g (subst (IsBefore dump tables live) p b))

  waiting-Agrees :
      (names left : List String) (n : String) (x : Option String) (v : Volume) (g : Host)
      → Left dump tables left names
      → waiting names left v ≡ g
      → Agrees dump tables (recover g) v.live n x
  waiting-Agrees names left n x v g l p =
      before-Agrees v.live n x (waiting names left v) g
        (record { kept_database = refl; kept_files = refl; waits = (refl, l) }) p

  exchanging-Agrees :
      (live : Dict String) (n : String) (l x : Option String) (h g : Host)
      → is_movable n ≡ true
      → IsExchanging n l x h
      → h ≡ g
      → Agrees dump tables (recover g) live n x
  exchanging-Agrees live n l x h g ok e p =
      inr (recover-IsExchanging n l x g ok (subst (IsExchanging n l x) p e))

  -- From the replacement on.
  replacing-Agrees :
      (names left : List String) (n : String) (l x : Option String) (v : Volume) (g : Host)
      → is_movable n ≡ true
      → Underway n l x v
      → g.volume ≢ stopped_finish (apply v)
      → Left dump tables left names
      → HostCut (replacing_events carried dump v) (waiting names left v) g
      → Agrees dump tables (recover g) v.live n x
  unfolding happen
  replacing-Agrees names left n l x v g ok u gap k (inl p) = waiting-Agrees names left n x v g k p
  replacing-Agrees names left n l x v g ok u gap k (inr (inl p)) =
      exchanging-Agrees v.live n l x _ g ok
        (record { new_database = refl; underway = u; goes = other }) p
  replacing-Agrees names left n l x v g ok u gap k (inr (inr (inl p))) =
      exchanging-Agrees v.live n l x _ g ok
        (record { new_database = refl; underway = u; goes = tt }) p
  replacing-Agrees names left n l x v g ok u gap k (inr (inr (inr c))) =
      swap-Agrees dump tables dump [] v.live n l x v g ok u gap c

  -- The leftover tables are dropped first, if there are any.
  dropping-Agrees :
      (ns : List String) (n : String) (l x : Option String) (v : Volume) (g : Host)
      → is_movable n ≡ true
      → Underway n l x v
      → g.volume ≢ stopped_finish (apply v)
      → ns ≡ leftovers dump tables
      → HostCut (drop_events m dump ns ++ replacing_events carried dump v) (waiting [] tables v) g
      → Agrees dump tables (recover g) v.live n x
  unfolding happen
  dropping-Agrees [] n l x v g ok u gap e c =
      replacing-Agrees [] tables n l x v g ok u gap (inl refl) c
  dropping-Agrees (a ∷ ns) n l x v g ok u gap e (inl p) =
      waiting-Agrees [] tables n x v g (inl refl) p
  dropping-Agrees (a ∷ ns) n l x v g ok u gap e (inr (inl p)) =
      waiting-Agrees (a ∷ ns) tables n x v g (inl refl) p
  dropping-Agrees (a ∷ ns) n l x v g ok u gap e (inr (inr c)) =
      replacing-Agrees (a ∷ ns) (shared dump tables) n l x v g ok u gap (inr (refl, e)) c

  -- From the database step on.
  pub late-Agrees :
      (n : String) (l x : Option String) (v : Volume) (g : Host)
      → is_movable n ≡ true
      → Underway n l x v
      → g.volume ≢ stopped_finish (apply v)
      → HostCut (late_events m carried dump tables v) (prepared v) g
      → Agrees dump tables (recover g) v.live n x
  unfolding late_events happen
  late-Agrees n l x v g ok u gap (inl p) =
      before-Agrees v.live n x _ g
        (record { kept_database = refl; kept_files = refl; waits = refl }) p
  late-Agrees n l x v g ok u gap (inr (inl p)) =
      before-Agrees v.live n x _ g
        (record { kept_database = refl; kept_files = refl; waits = refl }) p
  late-Agrees n l x v g ok u gap (inr (inr c)) =
      dropping-Agrees (leftovers dump tables) n l x v g ok u gap refl c
