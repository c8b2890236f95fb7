-- ===== src/Services/Sharing/Tasks.antt =====
-- Loads and PUTs of the settings at work side by side, step by step: what the lock of
-- backend/app/services/share.py leaves to chance.
use cabinet_numismatics.Prelude.{ℕ, Bool, List, ◌∷◌}
use cabinet_numismatics.Services.Sharing.{Memory, set_enabled, finish_load, reset_memory}

-- Where a task stands between two of its steps.
pub data Task : Type 0 where
  -- a load that has seen this generation
  seen : ℕ → Task
  -- a load that has also read this value
  holding : ℕ → Bool → Task
  -- a PUT that has committed
  committed : Task
  -- a PUT that has read this value back
  reread : Bool → Task

-- The database's switch (as a load reads it), the memory, and the tasks at work.
pub record System : Type 0 where
  pub db : Bool
  pub memory : Memory
  pub tasks : List Task

-- `Picks t ts rest`: the task is one of `ts`, and `rest` are the others.
pub data Picks (t : Task) : List Task → List Task → Type 0 where
  first : (ts : List Task) → Picks t (t ∷ ts) ts
  later : (u : Task) {ts rest : List Task} → Picks t ts rest → Picks t (u ∷ ts) (u ∷ rest)

-- A step of a load.
pub data LoadStep : System → System → Type 0 where
  begin : (s : System) → LoadStep s (record s { tasks = seen s.memory.generation ∷ s.tasks })
  read :
      (s : System) (g : ℕ) (rest : List Task)
      → Picks (seen g) s.tasks rest
      → LoadStep s (record s { tasks = holding g s.db ∷ rest })
  finish :
      (s : System) (g : ℕ) (v : Bool) (rest : List Task)
      → Picks (holding g v) s.tasks rest
      → LoadStep s (record s { memory = (finish_load g v s.memory).0; tasks = rest })

-- A step of a PUT, whatever it sets the switch to.
pub data PutStep : System → System → Type 0 where
  commit : (s : System) (v : Bool) → PutStep s (record s { db = v; tasks = committed ∷ s.tasks })
  reread_db :
      (s : System) (rest : List Task)
      → Picks committed s.tasks rest
      → PutStep s (record s { tasks = reread s.db ∷ rest })
  store :
      (s : System) (v : Bool) (rest : List Task)
      → Picks (reread v) s.tasks rest
      → PutStep s (record s { memory = set_enabled v s.memory; tasks = rest })

pub data Step : System → System → Type 0 where
  load_step : {s t : System} → LoadStep s t → Step s t
  put_step : {s t : System} → PutStep s t → Step s t
  reset : (s : System) → Step s (record s { memory = reset_memory s.memory })

-- Any number of steps of one kind.
pub data Steps (R : System → System → Type 0) (s : System) : System → Type 0 where
  here : Steps R s s
  next : {t u : System} → Steps R s t → R t u → Steps R s u
