-- ===== src/Services/Swap/Cuts.antt =====
-- What an exchange that stops anywhere leaves of a name
-- (backend/app/services/restore.py).
use mathlib.Core.Path.{subst}
use cabinet_numismatics.Prelude.{
  String, true, false, ◌≡◌, ◌⊎◌, inl, inr, refl, sym, ◌∙◌, Option, none, [], ◌∷◌, ◌++◌, arith,
}
use cabinet_numismatics.Prelude.Dict.{Dict, get}
use cabinet_numismatics.Services.Swap.{
  Volume, is_movable, make_old, move_out, touch_marker, move_in, exec, each, live_entries,
  apply_ops, Cut, Attempts, begun, attempt,
}
use cabinet_numismatics.Services.Swap.Moves.{
  Leaving, Entering, move_out-Leaving, move_in-Entering, get-live_entries, still_listed,
  get-rename_from,
}

pub make_old-Leaving :
    (n : String) (l x : Option String) (f : Volume)
    → Leaving n l x f
    → Leaving n l x (exec make_old f)
unfolding exec
make_old-Leaving n l x f h = record {
  unmarked = h.unmarked;
  unpacked = h.unpacked;
  ahead = h.ahead;
  place = h.place;
  home = inl refl;
}

pub make_old-Entering :
    (n : String) (l x : Option String) (f : Volume)
    → Entering n l x f
    → Entering n l x (exec make_old f)
unfolding exec
make_old-Entering n l x f h = record {
  marked = h.marked;
  kept = refl;
  unpacked = h.unpacked;
  behind = h.behind;
  place = h.place;
}

-- The marker is set when nothing of the name is left.
pub touch-Entering :
    (n : String) (l x : Option String) (f : Volume)
    → Leaving n l x f
    → get n f.live ≡ none
    → f.has_old ≡ true
    → Entering n l x (exec touch_marker f)
unfolding exec
touch-Entering n l x f h e o = record {
  marked = refl;
  kept = o;
  unpacked = h.unpacked;
  behind = ground (arith, h.place, e);
  place = inl (e, h.ahead);
}

-- An exchange under way, of the name `n`.
abbrev pub Underway : String → Option String → Option String → Volume → Type 0
Underway n l x f = Leaving n l x f ⊎ Entering n l x f

pub Cut-in :
    (n : String) (l x : Option String) (d : Dict String) (f g : Volume)
    → Entering n l x f
    → Cut (each move_in d) f g
    → Entering n l x g
unfolding each
Cut-in n l x [] f g h c = subst (Entering n l x) c h
Cut-in n l x ((m, v) ∷ d) f g h (inl e) = subst (Entering n l x) e h
Cut-in n l x ((m, v) ∷ d) f g h (inr c) =
    Cut-in n l x d (exec (move_in m) f) g (move_in-Entering n m l x f h) c

pub Cut-out :
    (n : String) (l x : Option String) (d e : Dict String) (f g : Volume)
    → Leaving n l x f
    → f.has_old ≡ true
    → (get n d ≡ none → get n f.live ≡ none)
    → Cut ((each move_out d ++ touch_marker ∷ []) ++ each move_in e) f g
    → Underway n l x g
unfolding each get exec
Cut-out n l x [] e f g h o c (inl p) = inl (subst (Leaving n l x) p h)
Cut-out n l x [] e f g h o c (inr q) =
    inr (Cut-in n l x e (exec touch_marker f) g (touch-Entering n l x f h (c refl) o) q)
Cut-out n l x ((m, v) ∷ d) e f g h o c (inl p) = inl (subst (Leaving n l x) p h)
Cut-out n l x ((m, v) ∷ d) e f g h o c (inr q) =
    Cut-out n l x d e (exec (move_out m) f) g (move_out-Leaving n m l x f h o) o
      (still_listed n m v d f.live (get n (exec (move_out m) f).live) c
        (get-rename_from n m f.live f.old))
      q

-- The operations of `apply`, by the marker.
pub ops-unmarked :
    (f : Volume)
    → f.moved_out ≡ false
    → apply_ops f
      ≡ make_old
        ∷ ((each move_out (live_entries f.live) ++ touch_marker ∷ []) ++ each move_in f.new)
unfolding apply_ops
ops-unmarked f e = rw e refl

pub ops-marked : (f : Volume) → f.moved_out ≡ true → apply_ops f ≡ make_old ∷ each move_in f.new
unfolding apply_ops
ops-marked f e = rw e refl

pub listed :
    (n : String) (f : Volume)
    → is_movable n ≡ true
    → get n (live_entries f.live) ≡ none
    → get n f.live ≡ none
listed n f h e = sym (get-live_entries n f.live h) ∙ e

pub Cut-apply :
    (n : String) (l x : Option String) (f g : Volume)
    → is_movable n ≡ true
    → Underway n l x f
    → Cut (apply_ops f) f g
    → Underway n l x g
unfolding exec
Cut-apply n l x f g m (inl h) c = elim (subst (λ os. Cut os f g) (ops-unmarked f h.unmarked) c) [
  | inl p ↦ inl (subst (Leaving n l x) p h)
  | inr q ↦
      Cut-out n l x (live_entries f.live) f.new (exec make_old f) g (make_old-Leaving n l x f h)
        refl (listed n f m) q
]
Cut-apply n l x f g m (inr h) c = elim (subst (λ os. Cut os f g) (ops-marked f h.marked) c) [
  | inl p ↦ inr (subst (Entering n l x) p h)
  | inr q ↦ inr (Cut-in n l x f.new (exec make_old f) g (make_old-Entering n l x f h) q)
]

pub Attempts-Underway :
    (n : String) (l x : Option String) {f g : Volume}
    → is_movable n ≡ true
    → Underway n l x f
    → Attempts f g
    → Underway n l x g
Attempts-Underway n l x m h begun = h
Attempts-Underway n l x {f} m h (attempt {g = g} c rest) =
    Attempts-Underway n l x m (Cut-apply n l x f g m h c) rest
