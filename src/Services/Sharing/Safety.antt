-- ===== src/Services/Sharing/Safety.antt =====
-- When the switch stays off (backend/app/services/share.py).
use cabinet_numismatics.Prelude.{
  ℕ, suc, ◌≤◌, ◌<◌, ◌≡◌, refl, Bool, true, false, some, List, [], ◌∷◌, arith,
}
use cabinet_numismatics.Services.Sharing.{Memory, set_enabled, finish_load, reset_memory}
use cabinet_numismatics.Services.Sharing.Tasks.{
  Task, seen, holding, committed, reread, System, Picks, first, later, LoadStep, begin, read,
  finish, PutStep, commit, reread_db, store, Step, load_step, put_step, reset, Steps, here, next,
}

-- No load has seen a generation that is still to come.
abbrev pub SeenBy : ℕ → Task → Type 0
SeenBy g (seen n) = n ≤ g
SeenBy g (holding n v) = n ≤ g
SeenBy g committed = Unit
SeenBy g (reread v) = Unit

abbrev pub AllSeenBy : ℕ → List Task → Type 0
AllSeenBy g [] = Unit
AllSeenBy g (t ∷ ts) = SeenBy g t × AllSeenBy g ts

SeenBy-later : (g h : ℕ) (t : Task) → g ≤ h → SeenBy g t → SeenBy h t
SeenBy-later g h (seen n) le s = omega arith
SeenBy-later g h (holding n v) le s = omega arith
SeenBy-later g h committed le s = tt
SeenBy-later g h (reread v) le s = tt

AllSeenBy-later : (g h : ℕ) (ts : List Task) → g ≤ h → AllSeenBy g ts → AllSeenBy h ts
AllSeenBy-later g h [] le s = tt
AllSeenBy-later g h (t ∷ ts) le s = (SeenBy-later g h t le s.0, AllSeenBy-later g h ts le s.1)

Picks-AllSeenBy :
    (g : ℕ) {t : Task} {ts rest : List Task}
    → Picks t ts rest
    → AllSeenBy g ts
    → SeenBy g t × AllSeenBy g rest
Picks-AllSeenBy g (first ts) s = s
Picks-AllSeenBy g (later u p) s = let (a, b) = Picks-AllSeenBy g p s.1 in (a, (s.0, b))

generation-finish_load :
    (n : ℕ) (v : Bool) (m : Memory) → (finish_load n v m).0.generation ≡ m.generation
unfolding finish_load
generation-finish_load n v m = ground arith

LoadStep-AllSeenBy :
    {s t : System}
    → LoadStep s t
    → AllSeenBy s.memory.generation s.tasks
    → AllSeenBy t.memory.generation t.tasks
LoadStep-AllSeenBy (begin s) h = (omega arith, h)
LoadStep-AllSeenBy (read s g rest p) h = Picks-AllSeenBy s.memory.generation p h
LoadStep-AllSeenBy (finish s g v rest p) h =
    rw (generation-finish_load g v s.memory) (Picks-AllSeenBy s.memory.generation p h).1

PutStep-AllSeenBy :
    {s t : System}
    → PutStep s t
    → AllSeenBy s.memory.generation s.tasks
    → AllSeenBy t.memory.generation t.tasks
unfolding set_enabled
PutStep-AllSeenBy (commit s v) h = (tt, h)
PutStep-AllSeenBy (reread_db s rest p) h = (tt, (Picks-AllSeenBy s.memory.generation p h).1)
PutStep-AllSeenBy (store s v rest p) h =
    AllSeenBy-later s.memory.generation (suc s.memory.generation) rest (omega arith)
      (Picks-AllSeenBy s.memory.generation p h).1

-- Whatever loads, PUTs and resets do side by side, no load has seen a later generation than that of
-- the memory.
pub Steps-AllSeenBy :
    {s t : System}
    → Steps Step s t
    → AllSeenBy s.memory.generation s.tasks
    → AllSeenBy t.memory.generation t.tasks
unfolding reset_memory
Steps-AllSeenBy here h = h
Steps-AllSeenBy (next r (load_step l)) h = LoadStep-AllSeenBy l (Steps-AllSeenBy r h)
Steps-AllSeenBy (next r (put_step p)) h = PutStep-AllSeenBy p (Steps-AllSeenBy r h)
Steps-AllSeenBy (next r (reset s)) h =
    AllSeenBy-later s.memory.generation (suc s.memory.generation) s.tasks (omega arith)
      (Steps-AllSeenBy r h)

-- A load at work that read the switch as on has seen an older generation.
abbrev pub Stale : ℕ → Task → Type 0
Stale g (seen n) = n ≤ g
Stale g (holding n v) = (n ≤ g) × (v ≡ true → n < g)
Stale g committed = ⊥
Stale g (reread v) = ⊥

abbrev pub AllStale : ℕ → List Task → Type 0
AllStale g [] = Unit
AllStale g (t ∷ ts) = Stale g t × AllStale g ts

-- The switch is off, in the database and in memory, and no PUT is at work.
pub record IsOff (s : System) : Type 0 where
  pub stored_off : s.db ≡ false
  pub off : s.memory.enabled ≡ some false
  pub stale : AllStale s.memory.generation s.tasks

Picks-AllStale :
    (g : ℕ) {t : Task} {ts rest : List Task}
    → Picks t ts rest
    → AllStale g ts
    → Stale g t × AllStale g rest
Picks-AllStale g (first ts) s = s
Picks-AllStale g (later u p) s = let (a, b) = Picks-AllStale g p s.1 in (a, (s.0, b))

finish_load-off :
    (n : ℕ) (v : Bool) (m : Memory)
    → m.enabled ≡ some false
    → (v ≡ true → n < m.generation)
    → (finish_load n v m).0.enabled ≡ some false
unfolding finish_load
finish_load-off n true m off old = ground (arith, old refl)
finish_load-off n false m off old = ground arith

LoadStep-IsOff : {s t : System} → LoadStep s t → IsOff s → IsOff t
LoadStep-IsOff (begin s) h = record {
  stored_off = h.stored_off;
  off = h.off;
  stale = (omega arith, h.stale);
}
LoadStep-IsOff (read s g rest p) h =
    let (mine, others) = Picks-AllStale s.memory.generation p h.stale in
    record {
      stored_off = h.stored_off;
      off = h.off;
      stale = ((mine, λ on. absurd (ground (arith, h.stored_off))), others);
    }
LoadStep-IsOff (finish s g v rest p) h =
    let (mine, others) = Picks-AllStale s.memory.generation p h.stale in
    record {
      stored_off = h.stored_off;
      off = finish_load-off g v s.memory h.off mine.1;
      stale = rw (generation-finish_load g v s.memory) others;
    }

Steps-IsOff : {s t : System} → Steps LoadStep s t → IsOff s → IsOff t
Steps-IsOff here h = h
Steps-IsOff (next r l) h = LoadStep-IsOff l (Steps-IsOff r h)

-- No PUT is at work.
abbrev pub IsLoad : Task → Type 0
IsLoad (seen n) = Unit
IsLoad (holding n v) = Unit
IsLoad committed = ⊥
IsLoad (reread v) = ⊥

abbrev pub AllLoads : List Task → Type 0
AllLoads [] = Unit
AllLoads (t ∷ ts) = IsLoad t × AllLoads ts

Stale-next : (g : ℕ) (t : Task) → IsLoad t → SeenBy g t → Stale (suc g) t
Stale-next g (seen n) l s = omega arith
Stale-next g (holding n v) l s = (omega arith, λ _. omega arith)
Stale-next g committed l s = l
Stale-next g (reread v) l s = l

AllStale-next : (g : ℕ) (ts : List Task) → AllLoads ts → AllSeenBy g ts → AllStale (suc g) ts
AllStale-next g [] l s = tt
AllStale-next g (t ∷ ts) l s = (Stale-next g t l.0 s.0, AllStale-next g ts l.1 s.1)

-- Once the owner has switched sharing off (it is off in the database, and the one PUT at work sets
-- the memory), it stays off in memory, whatever loads were at work before and whatever loads follow,
-- in any order of their steps, until the next PUT or reset.
pub set_enabled-stays_off :
    (s t : System)
    → AllSeenBy s.memory.generation s.tasks
    → AllLoads s.tasks
    → s.db ≡ false
    → Steps LoadStep (record s { memory = set_enabled false s.memory }) t
    → t.memory.enabled ≡ some false
unfolding set_enabled
set_enabled-stays_off s t by loads db_off r =
    (Steps-IsOff r (record {
      stored_off = db_off;
      off = refl;
      stale = AllStale-next s.memory.generation s.tasks loads by;
    })).off
