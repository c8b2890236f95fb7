-- ===== src/Services/Restore/Exchange.antt =====
-- A restore that stops while the files are exchanged, and what the next start makes of it (backend/app/services/restore.py).
use mathlib.Core.Path.{subst}
use cabinet_numismatics.Prelude.{
  String, true, false, ◌≡◌, ◌⊎◌, inl, inr, refl, sym, ap, ◌≢◌, Option, none, some, List, [], ◌∷◌,
  ◌++◌, arith,
}
use cabinet_numismatics.Prelude.Dict.{Dict, get}
use cabinet_numismatics.Services.Swap.{
  Volume, Op, is_movable, old_to_trash, remove_new, remove_trash, exec, exec_all, apply_ops, apply,
  finish_ops,
}
use cabinet_numismatics.Services.Swap.Moves.{Entering}
use cabinet_numismatics.Services.Swap.Cuts.{Underway, Cut-apply}
use cabinet_numismatics.Services.Swap.Forward.{apply-Entering}
use cabinet_numismatics.Services.Swap.Gaps.{stopped_finish}
use cabinet_numismatics.Services.Restore.{
  swapping, Host, Event, write_journal, unpack, move, happen, happen_all, unpack_each, moves,
  unpacked, recover, HostCut,
}
use cabinet_numismatics.Services.Restore.Stages.{
  IsBefore, Unreplaced, IsExchanging, IsExchanged, recover-IsExchanging, recover-IsExchanged,
  HostCut-append, HostCut-moves,
}

-- After the start: the database and the files are both the ones before, but for the tables that the
-- dump does not hold, which may be gone and are then named; or both are the archive's.
abbrev pub Agrees : List String → List String → Host → Dict String → String → Option String → Type 0
Agrees dump tables h live n x =
    Unreplaced dump tables live h ⊎ ((h.replaced ≡ true) × (get n h.volume.live ≡ x))

pub unpack-HostCut :
    (dump tables : List String) (live : Dict String) (d : Dict String) (h g : Host)
    → IsBefore dump tables live h
    → HostCut (unpack_each d) h g
    → IsBefore dump tables live g
unfolding unpack_each happen
unpack-HostCut dump tables live [] h g b c = subst (IsBefore dump tables live) c b
unpack-HostCut dump tables live ((n, v) ∷ d) h g b (inl p) = subst (IsBefore dump tables live) p b
unpack-HostCut dump tables live ((n, v) ∷ d) h g b (inr c) =
    unpack-HostCut dump tables live d (happen (unpack n v) h) g
      (record { kept_database = b.kept_database; kept_files = b.kept_files; waits = b.waits }) c

pub happen_all-unpack :
    (d : Dict String) (h : Host)
    → happen_all (unpack_each d) h
      ≡ record h { volume = record h.volume { new = unpacked d h.volume.new } }
unfolding happen_all unpack_each unpacked happen
happen_all-unpack [] h = refl
happen_all-unpack ((n, v) ∷ d) h = happen_all-unpack d (happen (unpack n v) h)

happen_all-moves :
    (os : List Op) (h : Host) → happen_all (moves os) h ≡ record h { volume = exec_all os h.volume }
unfolding happen_all moves exec_all happen
happen_all-moves [] h = refl
happen_all-moves (o ∷ os) h = happen_all-moves os (happen (move o) h)

-- A host on which the exchange of the volume `v` is about to begin, and what it comes to.
module _ (dump tables now told : List String) (live : Dict String) where
  abbrev pub exchanging : Volume → Host
  exchanging v = record {
    journal = some swapping;
    replaced = true;
    tables = now;
    told = told;
    marker = none;
    volume = v;
  }

  under_way :
      (n : String) (l x : Option String) (v : Volume) (g : Host)
      → is_movable n ≡ true
      → Underway n l x v
      → exchanging v ≡ g
      → Agrees dump tables (recover g) live n x
  under_way n l x v g m u p =
      let e : IsExchanging n l x (exchanging v) = record {
        new_database = refl;
        underway = u;
        goes = tt;
      } in
      inr (recover-IsExchanging n l x g m (subst (IsExchanging n l x) p e))

  over :
      (n : String) (x : Option String) (v : Volume) (g : Host)
      → get n v.live ≡ x
      → v.has_new ≡ false
      → (exchanging v ≡ g) ⊎ ((record (exchanging v) { journal = none }) ≡ g)
      → Agrees dump tables (recover g) live n x
  over n x v g whole no_new (inl p) =
      let e : IsExchanged n x (exchanging v) = record {
        new_database = refl;
        new_files = whole;
        no_new = no_new;
        over = inr refl;
      } in
      inr (recover-IsExchanged n x g (subst (IsExchanged n x) p e))
  over n x v g whole no_new (inr p) =
      let e : IsExchanged n x (record (exchanging v) { journal = none }) = record {
        new_database = refl;
        new_files = whole;
        no_new = no_new;
        over = inl refl;
      } in
      inr (recover-IsExchanged n x g (subst (IsExchanged n x) p e))

  exchange-Agrees :
      (n : String) (l x : Option String) (v : Volume) (g : Host)
      → is_movable n ≡ true
      → Underway n l x v
      → HostCut (moves (apply_ops v)) (exchanging v) g
      → Agrees dump tables (recover g) live n x
  exchange-Agrees n l x v g m u c =
      let (v', same, cut) = HostCut-moves (apply_ops v) (exchanging v) g c in
      under_way n l x v' g m (Cut-apply n l x v v' m u cut) (sym same)

  abbrev Ending : Volume → Host → Type 0
  Ending w g = HostCut (moves (finish_ops w) ++ (write_journal none ∷ [])) (exchanging w) g

  finish-Agrees :
      (n : String) (l x : Option String) (w : Volume) (g : Host)
      → is_movable n ≡ true
      → Entering n l x w
      → get n w.new ≡ none
      → g.volume ≢ stopped_finish w
      → Ending w g
      → Agrees dump tables (recover g) live n x
  unfolding moves happen stopped_finish exec finish_ops
  finish-Agrees n l x w g m done gone gap c =
      let place : get n w.live ≡ x = ground (arith, done.place, gone) in
      let start : Entering n l x (exec remove_trash w) = record {
        marked = done.marked;
        kept = done.kept;
        unpacked = done.unpacked;
        behind = done.behind;
        place = done.place;
      } in
      let ops : finish_ops w ≡ remove_trash ∷ old_to_trash ∷ remove_new ∷ remove_trash ∷ [] =
        rw done.kept refl in
      let parts =
        subst (λ os. HostCut (moves os ++ (write_journal none ∷ [])) (exchanging w) g) ops c in
      elim parts [
        | inl p ↦ under_way n l x w g m (inr done) p
        | inr (inl p) ↦ under_way n l x (exec remove_trash w) g m (inr start) p
        | inr (inr (inl p)) ↦ absurd (gap (sym (ap (λ (h : Host). h.volume) p)))
        | inr (inr (inr (inl p))) ↦
            over n x (exec remove_new (stopped_finish w)) g place refl (inl p)
        | inr (inr (inr (inr (inl p)))) ↦
            over n x (exec remove_trash (exec remove_new (stopped_finish w))) g place refl (inl p)
        | inr (inr (inr (inr (inr p)))) ↦
            over n x (exec remove_trash (exec remove_new (stopped_finish w))) g place refl (inr p)
      ]

  pub swap-Agrees :
      (n : String) (l x : Option String) (v : Volume) (g : Host)
      → is_movable n ≡ true
      → Underway n l x v
      → g.volume ≢ stopped_finish (apply v)
      → HostCut
          (moves (apply_ops v) ++ (moves (finish_ops (apply v)) ++ (write_journal none ∷ [])))
          (exchanging v)
          g
      → Agrees dump tables (recover g) live n x
  unfolding apply
  swap-Agrees n l x v g m u gap c =
      let ends : List Event = moves (finish_ops (apply v)) ++ (write_journal none ∷ []) in
      let (done, gone) = apply-Entering n l x v m u in
      elim (HostCut-append (moves (apply_ops v)) ends (exchanging v) g c) [
        | inl first ↦ exchange-Agrees n l x v g m u first
        | inr second ↦ finish-Agrees n l x (apply v) g m done gone gap (
            subst (λ (h : Host). HostCut ends h g) (happen_all-moves (apply_ops v) (exchanging v))
              second)
      ]
