-- ===== src/Services/Swap/Forward.antt =====
-- An exchange that stops anywhere, any number of times, and is then rolled forward
-- (backend/app/services/restore.py).
use cabinet_numismatics.Prelude.{
  String, true, false, ◌≡◌, inl, inr, refl, sym, ap, ◌∙◌, Option, none, [], ◌∷◌, ◌++◌, arith,
}
use cabinet_numismatics.Prelude.Dict.{get}
use cabinet_numismatics.Services.Swap.{
  Volume, is_movable, make_old, move_out, touch_marker, move_in, exec, exec_all, each, live_entries,
  apply, finish_ops, finish, roll_forward, Attempts,
}
use cabinet_numismatics.Services.Swap.Moves.{Leaving, Entering, exec_all-append, all_out, all_in}
use cabinet_numismatics.Services.Swap.Cuts.{
  make_old-Leaving, make_old-Entering, touch-Entering, Underway, ops-unmarked, ops-marked, listed,
  Attempts-Underway,
}

entered :
    (n : String) (l x : Option String) (f : Volume)
    → Entering n l x f
    → Entering n l x (exec_all (each move_in f.new) (exec make_old f))
      × (get n (exec_all (each move_in f.new) (exec make_old f)).new ≡ none)
unfolding exec
entered n l x f h = all_in n l x f.new (exec make_old f) (make_old-Entering n l x f h) (λ e. e)

-- The volume after everything live has been moved out.
abbrev emptied : Volume → Volume
emptied f = exec_all (each move_out (live_entries f.live)) (exec make_old f)

parts :
    (f : Volume)
    → exec_all
        ((each move_out (live_entries f.live) ++ touch_marker ∷ []) ++ each move_in f.new)
        (exec make_old f)
      ≡ exec_all (each move_in f.new) (exec touch_marker (emptied f))
unfolding exec_all
parts f =
    let outs = each move_out (live_entries f.live) in
    exec_all-append (outs ++ touch_marker ∷ []) (each move_in f.new) (exec make_old f)
    ∙ ap (exec_all (each move_in f.new))
        (exec_all-append outs (touch_marker ∷ []) (exec make_old f))

left_then_entered :
    (n : String) (l x : Option String) (f : Volume)
    → is_movable n ≡ true
    → Leaving n l x f
    → Entering n l x (exec_all (each move_in f.new) (exec touch_marker (emptied f)))
      × (get n (exec_all (each move_in f.new) (exec touch_marker (emptied f))).new ≡ none)
unfolding exec
left_then_entered n l x f m h =
    let (left, gone, kept) =
      all_out n l x (live_entries f.live) (exec make_old f) (make_old-Leaving n l x f h) refl
        (listed n f m) in
    all_in n l x f.new (exec touch_marker (emptied f))
      (touch-Entering n l x (emptied f) left gone kept) (λ e. left.ahead ∙ sym h.ahead ∙ e)

-- A whole `apply`, from wherever an earlier one stopped.
pub apply-Entering :
    (n : String) (l x : Option String) (f : Volume)
    → is_movable n ≡ true
    → Underway n l x f
    → Entering n l x (apply f) × (get n (apply f).new ≡ none)
unfolding apply exec_all
apply-Entering n l x f m (inr h) = rw (ops-marked f h.marked) (entered n l x f h)
apply-Entering n l x f m (inl h) =
    rw (ops-unmarked f h.unmarked) (rw (parts f) (left_then_entered n l x f m h))

-- `finish` drops the working folders and leaves the rest.
pub finish_drops :
    (f : Volume)
    → (finish f).live ≡ f.live
      × (finish f).has_new ≡ false
      × (finish f).has_old ≡ false
      × (finish f).new ≡ []
      × (finish f).trash ≡ []
unfolding finish finish_ops exec_all exec
finish_drops f = ground arith

Underway-has_new :
    (n : String) (l x : Option String) (f : Volume) → Underway n l x f → f.has_new ≡ true
Underway-has_new n l x f (inl h) = h.unpacked
Underway-has_new n l x f (inr h) = h.unpacked

roll_forward-apply : (f : Volume) → f.has_new ≡ true → roll_forward f ≡ finish (apply f)
unfolding roll_forward
roll_forward-apply f h = rw h refl

-- Rolling forward finishes an exchange that is under way.
pub roll_forward-Underway :
    (n : String) (l x : Option String) (f : Volume)
    → is_movable n ≡ true
    → Underway n l x f
    → (get n (roll_forward f).live ≡ x)
      × ((roll_forward f).has_new ≡ false)
      × ((roll_forward f).has_old ≡ false)
      × ((roll_forward f).new ≡ [])
      × ((roll_forward f).trash ≡ [])
roll_forward-Underway n l x f m h =
    let (done, gone) = apply-Entering n l x f m h in
    let (same, no_new, no_old, empty, cleared) = finish_drops (apply f) in
    rw (roll_forward-apply f (Underway-has_new n l x f h))
      (ap (get n) same ∙ ground (arith, done.place, gone), no_new, no_old, empty, cleared)

-- A volume with the archive unpacked and nothing moved yet, on which the exchange is started any
-- number of times and stops each time between any two of its file operations: rolling it forward
-- leaves under every name that can move exactly what the archive has under it, and no working folder
-- with any entry.
pub roll_forward-Attempts :
    (n : String) {f g : Volume}
    → is_movable n ≡ true
    → f.has_new ≡ true
    → f.moved_out ≡ false
    → get n f.old ≡ none
    → Attempts f g
    → (get n (roll_forward g).live ≡ get n f.new)
      × ((roll_forward g).has_new ≡ false)
      × ((roll_forward g).has_old ≡ false)
      × ((roll_forward g).new ≡ [])
      × ((roll_forward g).trash ≡ [])
roll_forward-Attempts n {f} {g} m h u o a =
    let l = get n f.live in
    let x = get n f.new in
    let start : Underway n l x f =
      inl (record {
        unmarked = u;
        unpacked = h;
        ahead = refl;
        place = inl (refl, o);
        home = inr o;
      }) in
    roll_forward-Underway n l x g m (Attempts-Underway n l x m start a)
