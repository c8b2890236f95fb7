-- ===== src/Services/Swap/Moves.antt =====
-- What each operation of an exchange does to one name (backend/app/services/restore.py).
use text.Mathlib.Text.{◌==◌ as str_eq}
use cabinet_numismatics.Prelude.{
  String, true, false, ◌≡◌, ◌⊎◌, inl, refl, Option, none, some, List, [], ◌∷◌, ◌++◌, arith,
  if◌then◌else◌, eq_iff,
}
use cabinet_numismatics.Prelude.Dict.{Dict, get, get-put, get-pop}
use cabinet_numismatics.Services.Swap.{
  Volume, is_movable, Op, move_out, move_in, carry, rename, exec, exec_all, each, live_entries,
}

-- The entries of a name before, `l`, and in the archive, `x`; while the entries are moved out.
pub record Leaving (n : String) (l x : Option String) (f : Volume) : Type 0 where
  pub unmarked : f.moved_out ≡ false
  pub unpacked : f.has_new ≡ true
  pub ahead : get n f.new ≡ x
  pub place :
      ((get n f.live ≡ l) × (get n f.old ≡ none)) ⊎ ((get n f.live ≡ none) × (get n f.old ≡ l))
  -- Nothing is in OLD_DIR before it is made.
  pub home : (f.has_old ≡ true) ⊎ (get n f.old ≡ none)

-- The same while the archive's entries are moved in.
pub record Entering (n : String) (l x : Option String) (f : Volume) : Type 0 where
  pub marked : f.moved_out ≡ true
  pub kept : f.has_old ≡ true
  pub unpacked : f.has_new ≡ true
  pub behind : get n f.old ≡ l
  pub place :
      ((get n f.live ≡ none) × (get n f.new ≡ x)) ⊎ ((get n f.live ≡ x) × (get n f.new ≡ none))

abbrev pub or_else : Option String → Option String → Option String
or_else none b = b
or_else (some v) b = some v

get-carry_from :
    (n m : String) (o : Option String) (a b : Dict String)
    → get m a ≡ o
    → get n (carry m o a b).0 ≡ (if str_eq m n then none else get n a)
get-carry_from n m none a b e = ground (arith, eq_iff m n)
get-carry_from n m (some v) a b e = ground (arith, get-pop n m a, eq_iff m n)

get-carry_to :
    (n m : String) (o : Option String) (a b : Dict String)
    → get m a ≡ o
    → get n (carry m o a b).1 ≡ (if str_eq m n then or_else (get n a) (get n b) else get n b)
get-carry_to n m none a b e = ground (arith, eq_iff m n)
get-carry_to n m (some v) a b e = ground (arith, get-put n m v b, eq_iff m n)

-- A rename empties the name where it was, and replaces it where it goes.
pub get-rename_from :
    (n m : String) (a b : Dict String)
    → get n (rename m a b).0 ≡ (if str_eq m n then none else get n a)
unfolding rename
get-rename_from n m a b = get-carry_from n m (get m a) a b refl

pub get-rename_to :
    (n m : String) (a b : Dict String)
    → get n (rename m a b).1 ≡ (if str_eq m n then or_else (get n a) (get n b) else get n b)
unfolding rename
get-rename_to n m a b = get-carry_to n m (get m a) a b refl

pub move_out-Leaving :
    (n m : String) (l x : Option String) (f : Volume)
    → Leaving n l x f
    → f.has_old ≡ true
    → Leaving n l x (exec (move_out m) f)
unfolding exec
move_out-Leaving n m l x f h o = record {
  unmarked = h.unmarked;
  unpacked = h.unpacked;
  ahead = h.ahead;
  place = ground (arith, h.place, get-rename_from n m f.live f.old, get-rename_to n m f.live f.old);
  home = inl o;
}

pub move_in-Entering :
    (n m : String) (l x : Option String) (f : Volume)
    → Entering n l x f
    → Entering n l x (exec (move_in m) f)
unfolding exec
move_in-Entering n m l x f h = record {
  marked = h.marked;
  kept = h.kept;
  unpacked = h.unpacked;
  behind = h.behind;
  place = ground (arith, h.place, get-rename_from n m f.new f.live, get-rename_to n m f.new f.live);
}

pub get-live_entries :
    (n : String) (d : Dict String) → is_movable n ≡ true → get n (live_entries d) ≡ get n d
unfolding live_entries get
get-live_entries n [] h = refl
get-live_entries n ((m, v) ∷ d) h = ground (arith, get-live_entries n d h, eq_iff m n)

pub exec_all-append :
    (os ps : List Op) (f : Volume) → exec_all (os ++ ps) f ≡ exec_all ps (exec_all os f)
unfolding exec_all
exec_all-append [] ps f = refl
exec_all-append (o ∷ os) ps f = exec_all-append os ps (exec o f)

-- A list whose first entry has been dealt with still names all that is left.
pub still_listed :
    (n m v : String) (d a : Dict String) (o : Option String)
    → (get n ((m, v) ∷ d) ≡ none → get n a ≡ none)
    → o ≡ (if str_eq m n then none else get n a)
    → get n d ≡ none
    → o ≡ none
unfolding get
still_listed n m v d a o c e h = ground (arith, c, e, h)

-- Moving out all entries of a list that names `n` if it is there takes `n` away.
pub all_out :
    (n : String) (l x : Option String) (d : Dict String) (f : Volume)
    → Leaving n l x f
    → f.has_old ≡ true
    → (get n d ≡ none → get n f.live ≡ none)
    → Leaving n l x (exec_all (each move_out d) f)
      × (get n (exec_all (each move_out d) f).live ≡ none)
      × ((exec_all (each move_out d) f).has_old ≡ true)
unfolding exec_all each exec get
all_out n l x [] f h o c = (h, c refl, o)
all_out n l x ((m, v) ∷ d) f h o c =
    all_out n l x d (exec (move_out m) f) (move_out-Leaving n m l x f h o) o (
      still_listed n m v d f.live (get n (exec (move_out m) f).live) c
        (get-rename_from n m f.live f.old))

pub all_in :
    (n : String) (l x : Option String) (d : Dict String) (f : Volume)
    → Entering n l x f
    → (get n d ≡ none → get n f.new ≡ none)
    → Entering n l x (exec_all (each move_in d) f)
      × (get n (exec_all (each move_in d) f).new ≡ none)
unfolding exec_all each exec get
all_in n l x [] f h c = (h, c refl)
all_in n l x ((m, v) ∷ d) f h c =
    all_in n l x d (exec (move_in m) f) (move_in-Entering n m l x f h) (
      still_listed n m v d f.new (get n (exec (move_in m) f).new) c
        (get-rename_from n m f.new f.live))
