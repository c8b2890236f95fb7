-- ===== src/Services/Swap/Gaps.antt =====
-- Two places in which an exchange must not stop (backend/app/services/restore.py): the next start
-- rolls the volume forward once more.
use mathlib.Core.Path.{subst}
use cabinet_numismatics.Prelude.{
  String, true, false, ◌≡◌, inl, inr, refl, sym, ap, ◌∙◌, Option, none, List, [], ◌∷◌, ◌++◌, arith,
  eq_iff,
}
use cabinet_numismatics.Prelude.Dict.{Dict, get, get-pop}
use cabinet_numismatics.Services.Swap.{
  Volume, is_movable, Op, make_new, move_off, move_back, remove_old, delete_new, remove_new,
  old_to_trash, remove_trash, exec, exec_all, each, live_entries, apply, undo_ops, clear_new_ops,
  finish_ops, roll_forward, Cut, Attempts, begun,
}
use cabinet_numismatics.Services.Swap.Moves.{exec_all-append}
use cabinet_numismatics.Services.Swap.Undoing.{ops-unmarked, marked_parts, taken_off, undo_ops-live}
use cabinet_numismatics.Services.Swap.Cuts.{Underway, Attempts-Underway}
use cabinet_numismatics.Services.Swap.Forward.{apply-Entering, roll_forward-Attempts}

-- `finish` stopped after OLD_DIR was renamed and before NEW_DIR is removed.
unfoldable pub stopped_finish : Volume → Volume
stopped_finish f = exec old_to_trash (exec remove_trash f)

stopped_finish-Cut : (f : Volume) → f.has_old ≡ true → Cut (finish_ops f) f (stopped_finish f)
unfolding finish_ops stopped_finish exec
stopped_finish-Cut f o = rw o (inr (inr (inl refl)))

-- An exchange that was applied in whole may stop inside `finish` so that rolling it forward at the
-- next start leaves no entry that can move, neither the archive's nor the one before, in the volume
-- or in a working folder.
pub finish_gap :
    (n : String) {f g : Volume}
    → is_movable n ≡ true
    → f.has_new ≡ true
    → f.moved_out ≡ false
    → get n f.old ≡ none
    → Attempts f g
    → Cut (finish_ops (apply g)) (apply g) (stopped_finish (apply g))
      × (get n (roll_forward (stopped_finish (apply g))).live ≡ none)
      × ((roll_forward (stopped_finish (apply g))).has_new ≡ false)
      × ((roll_forward (stopped_finish (apply g))).has_old ≡ false)
      × ((roll_forward (stopped_finish (apply g))).trash ≡ [])
unfolding stopped_finish exec get
finish_gap n {f} {g} m h u o a =
    let start : Underway n (get n f.live) (get n f.new) f =
      inl (record {
        unmarked = u;
        unpacked = h;
        ahead = refl;
        place = inl (refl, o);
        home = inr o;
      }) in
    let going = Attempts-Underway n (get n f.live) (get n f.new) m start a in
    let (done, gone) = apply-Entering n (get n f.live) (get n f.new) g m going in
    let (live, no_new, no_old, empty, cleared) =
      roll_forward-Attempts n m done.unpacked refl refl (begun {f = stopped_finish (apply g)}) in
    (stopped_finish-Cut (apply g) done.kept, live ∙ gone, no_new, no_old, cleared)

-- Undoing, up to the removal of NEW_DIR, leaves NEW_DIR and no marker.
all_back-keeps :
    (d : Dict String) (f : Volume)
    → ((exec_all (each move_back d) f).has_new ≡ f.has_new)
      × ((exec_all (each move_back d) f).moved_out ≡ f.moved_out)
unfolding exec_all each exec
all_back-keeps [] f = (refl, refl)
all_back-keeps ((m, v) ∷ d) f = all_back-keeps d (exec (move_back m) f)

all_off-keeps : (d : Dict String) (f : Volume) → (exec_all (each move_off d) f).has_new ≡ f.has_new
unfolding exec_all each exec
all_off-keeps [] f = refl
all_off-keeps ((m, v) ∷ d) f = all_off-keeps d (exec (move_off m) f)

abbrev IsUndone : Volume → Type 0
IsUndone f = (f.has_new ≡ true) × (f.moved_out ≡ false) × (f.old ≡ [])

back-IsUndone :
    (d : Dict String) (f : Volume)
    → f.has_new ≡ true
    → f.moved_out ≡ false
    → IsUndone (exec_all (each move_back d ++ remove_old ∷ []) f)
unfolding exec_all exec
back-IsUndone d f h u =
    let (new, moved) = all_back-keeps d f in
    rw (exec_all-append (each move_back d) (remove_old ∷ []) f) (new ∙ h, moved ∙ u, refl)

taken_off-keeps : (f : Volume) → (taken_off f).has_new ≡ true
unfolding exec
taken_off-keeps f = all_off-keeps (live_entries f.live) (exec make_new f)

taken_off_unmarked : (f : Volume) → (taken_off f).moved_out ≡ false
unfolding exec
taken_off_unmarked f = refl

undo_ops-IsUndone :
    (n : String) (l x : Option String) (f : Volume)
    → f.has_old ≡ true
    → Underway n l x f
    → IsUndone (exec_all (undo_ops f) f)
undo_ops-IsUndone n l x f o (inl h) =
    rw (ops-unmarked f o h.unmarked) (back-IsUndone f.old f h.unpacked h.unmarked)
undo_ops-IsUndone n l x f o (inr h) =
    rw (marked_parts f o h.marked)
      (back-IsUndone f.old (taken_off f) (taken_off-keeps f) (taken_off_unmarked f))

Cut-here : (os : List Op) (f : Volume) → Cut os f f
Cut-here [] f = refl
Cut-here (o ∷ os) f = inl refl

deleted-Cut :
    (n v : String) (d : Dict String) (f : Volume)
    → f.new ≡ (n, v) ∷ d
    → Cut (clear_new_ops f) f (exec (delete_new n) f)
unfolding clear_new_ops each
deleted-Cut n v d f e =
    let next = exec (delete_new n) f in
    subst (λ (a : Dict String). Cut (each delete_new a ++ remove_new ∷ []) f next) (sym e)
      (inr (Cut-here (each delete_new d ++ remove_new ∷ []) next))

deleted_lem : (n : String) (f : Volume) → get n (exec (delete_new n) f).new ≡ none
unfolding exec
deleted_lem n f = ground (arith, get-pop n n f.new, eq_iff n n)

-- An exchange that is being undone may stop while NEW_DIR is removed, with the previous entries in
-- place already, so that rolling it forward at the next start loses them: under a name whose
-- unpacked entry was removed by then, neither the archive's entry nor the one before is left, in the
-- volume or in OLD_DIR.
pub undo_gap :
    (n v : String) (d : Dict String) {f g : Volume}
    → is_movable n ≡ true
    → f.has_new ≡ true
    → f.moved_out ≡ false
    → get n f.old ≡ none
    → Attempts f g
    → g.has_old ≡ true
    → (exec_all (undo_ops g) g).new ≡ (n, v) ∷ d
    → Cut
        (clear_new_ops (exec_all (undo_ops g) g))
        (exec_all (undo_ops g) g)
        (exec (delete_new n) (exec_all (undo_ops g) g))
      × (get n (exec (delete_new n) (exec_all (undo_ops g) g)).live ≡ get n f.live)
      × (get n (roll_forward (exec (delete_new n) (exec_all (undo_ops g) g))).live ≡ none)
      × ((roll_forward (exec (delete_new n) (exec_all (undo_ops g) g))).has_old ≡ false)
unfolding exec get
undo_gap n v d {f} {g} m h u o a k e =
    let start : Underway n (get n f.live) (get n f.new) f =
      inl (record {
        unmarked = u;
        unpacked = h;
        ahead = refl;
        place = inl (refl, o);
        home = inr o;
      }) in
    let going = Attempts-Underway n (get n f.live) (get n f.new) m start a in
    let (new, moved, gone) = undo_ops-IsUndone n (get n f.live) (get n f.new) g k going in
    let (live, no_new, no_old, empty, cleared) =
      roll_forward-Attempts n m new moved (ap (get n) gone)
        (begun {f = exec (delete_new n) (exec_all (undo_ops g) g)}) in
    (
      deleted-Cut n v d (exec_all (undo_ops g) g) e,
      (undo_ops-live n (get n f.live) (get n f.new) g m k going).0,
      live ∙ deleted_lem n (exec_all (undo_ops g) g),
      no_old,
    )
