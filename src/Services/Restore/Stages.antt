-- ===== src/Services/Restore/Stages.antt =====
-- The stages of a restore, and what a start makes of each (backend/app/services/restore.py).
use cabinet_numismatics.Prelude.{
  String, true, false, ◌≡◌, ◌⊎◌, inl, inr, refl, sym, ap, ◌∙◌, Option, none, some, List, [], ◌∷◌,
  ◌++◌, arith, eq_iff,
}
use cabinet_numismatics.Prelude.Dict.{Dict, get}
use cabinet_numismatics.Services.Swap.{Volume, Op, is_movable, roll_forward, Cut}
use cabinet_numismatics.Services.Swap.Cuts.{Underway}
use cabinet_numismatics.Services.Swap.Forward.{roll_forward-Underway, finish_drops}
use cabinet_numismatics.Services.Restore.{
  Journal, preparing, database, swapping, Host, Event, move, happen, happen_all, moves,
  drop_unpacked, is_marker, recover_from, recover, HostCut, leftovers, shared,
}

-- The tables that are left of the ones before: all of them, or those that the dump holds, with the
-- others named.
abbrev pub Left : List String → List String → List String → List String → Type 0
Left dump tables left names =
    (left ≡ tables) ⊎ ((left ≡ shared dump tables) × (names ≡ leftovers dump tables))

-- The journal goes with a database that was not replaced.
abbrev pub Waits : List String → List String → Option Journal → Option String → List String → Type 0
Waits dump tables none marker left = left ≡ tables
Waits dump tables (some preparing) marker left = left ≡ tables
Waits dump tables (some (database m names)) marker left =
    (marker ≡ some m) × Left dump tables left names
Waits dump tables (some swapping) marker left = ⊥

-- Nothing live has changed, but for the tables that the dump does not hold.
pub record IsBefore (dump tables : List String) (live : Dict String) (h : Host) : Type 0 where
  pub kept_database : h.replaced ≡ false
  pub kept_files : h.volume.live ≡ live
  pub waits : Waits dump tables h.journal h.marker h.tables

-- The host after the start, when the database was not replaced.
abbrev pub Unreplaced : List String → List String → Dict String → Host → Type 0
Unreplaced dump tables live h =
    (h.replaced ≡ false) × (h.volume.live ≡ live) × Left dump tables h.tables h.told

-- The journal goes with the archive's database.
abbrev pub Goes : Option Journal → Option String → Type 0
Goes none marker = ⊥
Goes (some preparing) marker = ⊥
Goes (some (database m names)) marker = is_marker m marker ≡ false
Goes (some swapping) marker = Unit

-- The database is the archive's, and the exchange of the name `n` is to be finished.
pub record IsExchanging (n : String) (l x : Option String) (h : Host) : Type 0 where
  pub new_database : h.replaced ≡ true
  pub underway : Underway n l x h.volume
  pub goes : Goes h.journal h.marker

-- The exchange is finished.
pub record IsExchanged (n : String) (x : Option String) (h : Host) : Type 0 where
  pub new_database : h.replaced ≡ true
  pub new_files : get n h.volume.live ≡ x
  pub no_new : h.volume.has_new ≡ false
  pub over : (h.journal ≡ none) ⊎ (h.journal ≡ some swapping)

recover_from-IsBefore :
    (dump tables : List String) (live : Dict String) (j : Option Journal) (h : Host)
    → h.replaced ≡ false
    → h.volume.live ≡ live
    → Waits dump tables j h.marker h.tables
    → Unreplaced dump tables live (recover_from j h)
unfolding drop_unpacked
recover_from-IsBefore dump tables live none h r v w = (r, v, inl w)
recover_from-IsBefore dump tables live (some preparing) h r v w = (r, v, inl w)
recover_from-IsBefore dump tables live (some (database m names)) h r v w =
    let found : is_marker m h.marker ≡ true = ground (arith, w.0, eq_iff m m) in
    rw found (r, v, w.1)
recover_from-IsBefore dump tables live (some swapping) h r v w = absurd w

pub recover-IsBefore :
    (dump tables : List String) (live : Dict String) (h : Host)
    → IsBefore dump tables live h
    → Unreplaced dump tables live (recover h)
unfolding recover
recover-IsBefore dump tables live h b =
    recover_from-IsBefore dump tables live h.journal h b.kept_database b.kept_files b.waits

recover_from-IsExchanging :
    (n : String) (x : Option String) (j : Option Journal) (h : Host)
    → h.replaced ≡ true
    → get n (roll_forward h.volume).live ≡ x
    → Goes j h.marker
    → ((recover_from j h).replaced ≡ true) × (get n (recover_from j h).volume.live ≡ x)
recover_from-IsExchanging n x none h r v g = absurd g
recover_from-IsExchanging n x (some preparing) h r v g = absurd g
recover_from-IsExchanging n x (some (database m names)) h r v g = rw g (r, v)
recover_from-IsExchanging n x (some swapping) h r v g = (r, v)

pub recover-IsExchanging :
    (n : String) (l x : Option String) (h : Host)
    → is_movable n ≡ true
    → IsExchanging n l x h
    → ((recover h).replaced ≡ true) × (get n (recover h).volume.live ≡ x)
unfolding recover
recover-IsExchanging n l x h m e =
    recover_from-IsExchanging n x h.journal h e.new_database
      (roll_forward-Underway n l x h.volume m e.underway).0 e.goes

roll_forward-finished : (f : Volume) → f.has_new ≡ false → (roll_forward f).live ≡ f.live
unfolding roll_forward
roll_forward-finished f h = ground (arith, finish_drops f)

pub recover-IsExchanged :
    (n : String) (x : Option String) (h : Host)
    → IsExchanged n x h
    → ((recover h).replaced ≡ true) × (get n (recover h).volume.live ≡ x)
unfolding recover
recover-IsExchanged n x h e = elim e.over [
  | inl over ↦ rw over (e.new_database, e.new_files)
  | inr over ↦
      rw over (e.new_database, ap (get n) (roll_forward-finished h.volume e.no_new) ∙ e.new_files)
]

-- A list of events that stops, stops in its first part or in its second.
pub HostCut-append :
    (es fs : List Event) (h g : Host)
    → HostCut (es ++ fs) h g
    → HostCut es h g ⊎ HostCut fs (happen_all es h) g
unfolding happen_all
HostCut-append [] fs h g c = inr c
HostCut-append (e ∷ es) fs h g (inl p) = inl (inl p)
HostCut-append (e ∷ es) fs h g (inr c) = elim (HostCut-append es fs (happen e h) g c) [
  | inl first ↦ inl (inr first)
  | inr second ↦ inr second
]

-- File operations that stop, on the host.
pub HostCut-moves :
    (os : List Op) (h g : Host)
    → HostCut (moves os) h g
    → (v : Volume) × (g ≡ record h { volume = v }) × Cut os h.volume v
unfolding moves happen
HostCut-moves [] h g c = (h.volume, sym c, refl)
HostCut-moves (o ∷ os) h g (inl p) = (h.volume, sym p, inl refl)
HostCut-moves (o ∷ os) h g (inr c) =
    let (v, same, cut) = HostCut-moves os (happen (move o) h) g c in (v, same, inr cut)
