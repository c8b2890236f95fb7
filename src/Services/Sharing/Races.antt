-- ===== src/Services/Sharing/Races.antt =====
-- Orders of steps after which the switch is on in memory and off in the database
-- (backend/app/services/share.py and backend/app/routers/settings.py).
use cabinet_numismatics.Prelude.{◌≡◌, refl, ap, true, false, some, ◌∷◌}
use cabinet_numismatics.Services.Sharing.{set_enabled, finish_load, reset_memory}
use cabinet_numismatics.Services.Sharing.Tasks.{
  seen, holding, committed, reread, System, first, begin, read, finish, commit, reread_db, store,
  PutStep, Step, load_step, put_step, reset, Steps, here, next,
}

-- Every task that was at work still is, and the switch is off but for the memory.
pub record IsLeftOn (s t : System) : Type 0 where
  pub stored_off : t.db ≡ false
  pub on : t.memory.enabled ≡ some true
  pub same_tasks : t.tasks ≡ s.tasks

-- From every state there are steps of PUTs alone, with no load and no reset of the memory among
-- them, that end with sharing off in the database and on in memory, with every task that was at
-- work before still at work and no other one.
pub puts-IsLeftOn : (s : System) → (t : System) × Steps PutStep s t × IsLeftOn s t
unfolding set_enabled
puts-IsLeftOn s =
    let a = record s { db = true; tasks = committed ∷ s.tasks } in
    let b = record a { tasks = reread true ∷ s.tasks } in
    let c = record b { db = false; tasks = committed ∷ reread true ∷ s.tasks } in
    let d = record c { tasks = reread false ∷ reread true ∷ s.tasks } in
    let e = record d { memory = set_enabled false s.memory; tasks = reread true ∷ s.tasks } in
    let f = record e { memory = set_enabled true e.memory; tasks = s.tasks } in
    (
      f,
      next
          (next
            (next
              (next (next (next here (commit s true)) (reread_db a s.tasks (first s.tasks)))
                (commit b false))
              (reread_db c (reread true ∷ s.tasks) (first (reread true ∷ s.tasks))))
            (store d false (reread true ∷ s.tasks) (first (reread true ∷ s.tasks))))
          (store e true s.tasks (first s.tasks)),
      record { stored_off = refl; on = refl; same_tasks = refl },
    )

-- While the switch is on in the database, a load can be overtaken: the owner switches sharing off,
-- the memory is reset, and then the load writes the value that it read before, although the
-- generation has moved.
pub load-IsLeftOn : (s : System) → s.db ≡ true → (t : System) × Steps Step s t × IsLeftOn s t
unfolding set_enabled finish_load reset_memory
load-IsLeftOn s on =
    let g = s.memory.generation in
    let a = record s { tasks = seen g ∷ s.tasks } in
    let b = record a { tasks = holding g s.db ∷ s.tasks } in
    let c = record b { db = false; tasks = committed ∷ holding g s.db ∷ s.tasks } in
    let d = record c { tasks = reread false ∷ holding g s.db ∷ s.tasks } in
    let e = record d { memory = set_enabled false s.memory; tasks = holding g s.db ∷ s.tasks } in
    let f = record e { memory = reset_memory e.memory } in
    let t = record f { memory = (finish_load g s.db f.memory).0; tasks = s.tasks } in
    (
      t,
      next
          (next
            (next
              (next
                (next
                  (next (next here (load_step (begin s)))
                    (load_step (read a g s.tasks (first s.tasks))))
                  (put_step (commit b false)))
                (put_step
                  (reread_db c (holding g s.db ∷ s.tasks) (first (holding g s.db ∷ s.tasks)))))
              (put_step
                (store d false (holding g s.db ∷ s.tasks) (first (holding g s.db ∷ s.tasks)))))
            (reset e))
          (load_step (finish f g s.db s.tasks (first s.tasks))),
      record { stored_off = refl; on = ap some on; same_tasks = refl },
    )
