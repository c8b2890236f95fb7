-- ===== src/Services/Swap/Undoing.antt =====
-- An exchange that is undone (backend/app/services/restore.py).
use cabinet_numismatics.Prelude.{
  String, true, false, ◌≡◌, ◌⊎◌, inl, inr, refl, ap, ◌∙◌, Option, none, [], ◌∷◌, ◌++◌, arith,
  Bool-cases,
}
use cabinet_numismatics.Prelude.Dict.{Dict, get}
use cabinet_numismatics.Services.Swap.{
  Volume, is_movable, make_new, move_off, unlink_marker, move_back, remove_old, delete_new,
  remove_new, exec, exec_all, each, live_entries, undo_ops, clear_new_ops, undo, Attempts,
}
use cabinet_numismatics.Services.Swap.Moves.{
  exec_all-append, still_listed, get-rename_from, get-rename_to,
}
use cabinet_numismatics.Services.Swap.Cuts.{Underway, Attempts-Underway, listed}

-- The previous entry of a name is in one of its two places.
abbrev pub IsPlaced : String → Option String → Volume → Type 0
IsPlaced n l f =
    ((get n f.live ≡ l) × (get n f.old ≡ none)) ⊎ ((get n f.live ≡ none) × (get n f.old ≡ l))

move_back-IsPlaced :
    (n m : String) (l : Option String) (f : Volume)
    → IsPlaced n l f
    → IsPlaced n l (exec (move_back m) f)
unfolding exec
move_back-IsPlaced n m l f h =
    ground (arith, h, get-rename_from n m f.old f.live, get-rename_to n m f.old f.live)

all_back :
    (n : String) (l : Option String) (d : Dict String) (f : Volume)
    → IsPlaced n l f
    → (get n d ≡ none → get n f.old ≡ none)
    → get n (exec_all (each move_back d) f).live ≡ l
unfolding exec_all each exec get
all_back n l [] f h c = ground (arith, h, c refl)
all_back n l ((m, v) ∷ d) f h c =
    all_back n l d (exec (move_back m) f) (move_back-IsPlaced n m l f h) (
      still_listed n m v d f.old (get n (exec (move_back m) f).old) c
        (get-rename_from n m f.old f.live))

all_off :
    (n : String) (d : Dict String) (f : Volume)
    → (get n d ≡ none → get n f.live ≡ none)
    → (get n (exec_all (each move_off d) f).live ≡ none)
      × ((exec_all (each move_off d) f).old ≡ f.old)
unfolding exec_all each exec get
all_off n [] f c = (c refl, refl)
all_off n ((m, v) ∷ d) f c = all_off n d (exec (move_off m) f) (
    still_listed n m v d f.live (get n (exec (move_off m) f).live) c
      (get-rename_from n m f.live f.new))

clear_new-keeps :
    (d : Dict String) (f : Volume)
    → ((exec_all (each delete_new d) f).live ≡ f.live)
      × ((exec_all (each delete_new d) f).has_old ≡ f.has_old)
unfolding exec_all each exec
clear_new-keeps [] f = (refl, refl)
clear_new-keeps ((m, v) ∷ d) f = clear_new-keeps d (exec (delete_new m) f)

-- What is left after the previous entries are back, and OLD_DIR is gone.
put_back :
    (n : String) (l : Option String) (d : Dict String) (f : Volume)
    → IsPlaced n l f
    → (get n d ≡ none → get n f.old ≡ none)
    → (get n (exec_all (each move_back d ++ remove_old ∷ []) f).live ≡ l)
      × ((exec_all (each move_back d ++ remove_old ∷ []) f).has_old ≡ false)
unfolding exec_all exec
put_back n l d f h c =
    rw (exec_all-append (each move_back d) (remove_old ∷ []) f) (all_back n l d f h c, refl)

pub ops-unmarked :
    (f : Volume)
    → f.has_old ≡ true
    → f.moved_out ≡ false
    → undo_ops f ≡ each move_back f.old ++ remove_old ∷ []
unfolding undo_ops
ops-unmarked f o e = rw o (rw e refl)

ops-marked :
    (f : Volume)
    → f.has_old ≡ true
    → f.moved_out ≡ true
    → undo_ops f
      ≡ (make_new ∷ (each move_off (live_entries f.live) ++ unlink_marker ∷ []))
        ++ (each move_back f.old ++ remove_old ∷ [])
unfolding undo_ops
ops-marked f o e = rw o (rw e refl)

-- The volume after what came from the archive has been moved out again.
abbrev pub taken_off : Volume → Volume
taken_off f = exec unlink_marker (exec_all (each move_off (live_entries f.live)) (exec make_new f))

pub marked_parts :
    (f : Volume)
    → f.has_old ≡ true
    → f.moved_out ≡ true
    → exec_all (undo_ops f) f ≡ exec_all (each move_back f.old ++ remove_old ∷ []) (taken_off f)
unfolding exec_all
marked_parts f o e =
    let off = each move_off (live_entries f.live) in
    let back = each move_back f.old ++ remove_old ∷ [] in
    rw (ops-marked f o e) (
      exec_all-append (off ++ unlink_marker ∷ []) back (exec make_new f)
      ∙ ap (exec_all back) (exec_all-append off (unlink_marker ∷ []) (exec make_new f)))

pub undo_ops-live :
    (n : String) (l x : Option String) (f : Volume)
    → is_movable n ≡ true
    → f.has_old ≡ true
    → Underway n l x f
    → (get n (exec_all (undo_ops f) f).live ≡ l) × ((exec_all (undo_ops f) f).has_old ≡ false)
unfolding exec
undo_ops-live n l x f m o (inl h) =
    rw (ops-unmarked f o h.unmarked) (put_back n l f.old f h.place (λ e. e))
undo_ops-live n l x f m o (inr h) =
    let (off, same) = all_off n (live_entries f.live) (exec make_new f) (listed n f m) in
    rw (marked_parts f o h.marked) (
      put_back n l f.old (taken_off f) (inr (off, ap (get n) same ∙ h.behind))
        (λ e. ap (get n) same ∙ e))

clear_new-live :
    (f : Volume)
    → ((exec_all (clear_new_ops f) f).live ≡ f.live)
      × ((exec_all (clear_new_ops f) f).has_old ≡ f.has_old)
unfolding clear_new_ops exec_all exec
clear_new-live f =
    rw (exec_all-append (each delete_new f.new) (remove_new ∷ []) f) (clear_new-keeps f.new f)

undo-with_old :
    (f : Volume)
    → f.has_old ≡ true
    → undo f ≡ exec_all (clear_new_ops (exec_all (undo_ops f) f)) (exec_all (undo_ops f) f)
unfolding undo
undo-with_old f o = rw o refl

undo-without_old : (f : Volume) → f.has_old ≡ false → undo f ≡ f
unfolding undo undo_ops exec_all
undo-without_old f o = ground (arith, o)

undo-Leaving :
    (n : String) (l x : Option String) (f : Volume)
    → f.has_old ≡ false
    → Underway n l x f
    → (get n (undo f).live ≡ l) × ((undo f).has_old ≡ false)
undo-Leaving n l x f o (inl h) = rw (undo-without_old f o) (ground (arith, h.place, h.home, o), o)
undo-Leaving n l x f o (inr h) = ground (arith, h.kept, o)

undo-live :
    (n : String) (l x : Option String) (f : Volume)
    → is_movable n ≡ true
    → Underway n l x f
    → (get n (undo f).live ≡ l) × ((undo f).has_old ≡ false)
undo-live n l x f m h = elim (Bool-cases f.has_old) [
  | inl o ↦
      let (back, gone) = undo_ops-live n l x f m o h in
      let (same, old) = clear_new-live (exec_all (undo_ops f) f) in
      rw (undo-with_old f o) (ap (get n) same ∙ back, old ∙ gone)
  | inr o ↦ undo-Leaving n l x f o h
]

-- After any number of exchanges that stop anywhere, undoing puts back under every name that can move
-- exactly what was there before the first, and OLD_DIR is gone.
pub undo-Attempts :
    (n : String) {f g : Volume}
    → is_movable n ≡ true
    → f.has_new ≡ true
    → f.moved_out ≡ false
    → get n f.old ≡ none
    → Attempts f g
    → (get n (undo g).live ≡ get n f.live) × ((undo g).has_old ≡ false)
undo-Attempts n {f} {g} m h u o a =
    let l = get n f.live in
    let x = get n f.new in
    let start : Underway n l x f =
      inl (record {
        unmarked = u;
        unpacked = h;
        ahead = refl;
        place = inl (refl, o);
        home = inr o;
      }) in
    undo-live n l x g m (Attempts-Underway n l x m start a)
