-- ===== src/Services/Maintenance/Draining.antt =====
-- What a drain is good for (backend/app/services/maintenance.py).
use mathlib.Core.Path.{subst}
use cabinet_numismatics.Prelude.{
  ℕ, ◌+◌, ◌≡◌, Bool, true, false, some, List, [], ◌∷◌, arith, Option-cases, inl, inr,
}
use cabinet_numismatics.Services.Maintenance.{
  State, Phase, resting, accepted, entered, drained, ran_out, Action, test_request, count_request,
  gate_request, end_request, test_loop, acquire_loop, look_loop, end_loop, start_restore,
  enter_restore, drain_restore, give_up_drain, leave_restore, act, run, look, let_go,
}

-- The counter is right, maintenance is on from the restore's entry to its end, and after a drain no
-- request is behind the gate.
abbrev pub IsServedWhile : Phase → Bool → ℕ → Type 0
IsServedWhile resting on served = on ≡ false
IsServedWhile accepted on served = on ≡ false
IsServedWhile entered on served = on ≡ true
IsServedWhile drained on served = (on ≡ true) × (served ≡ 0)
IsServedWhile ran_out on served = on ≡ true

pub record IsSound (s : State) : Type 0 where
  pub right_count : s.in_flight ≡ s.counted + s.served
  pub quiet : IsServedWhile s.phase s.on s.served

act-in_flight :
    (a : Action) (s t : State)
    → act a s ≡ some t
    → s.in_flight ≡ s.counted + s.served
    → t.in_flight ≡ t.counted + t.served
unfolding act look let_go
act-in_flight test_request s t e h = ground (arith, e)
act-in_flight count_request s t e h = ground (arith, e)
act-in_flight gate_request s t e h = ground (arith, e)
act-in_flight end_request s t e h = ground (arith, e)
act-in_flight test_loop s t e h = ground (arith, e)
act-in_flight acquire_loop s t e h = ground (arith, e)
act-in_flight look_loop s t e h = ground (arith, e)
act-in_flight end_loop s t e h = ground (arith, e)
act-in_flight start_restore s t e h = ground (arith, e)
act-in_flight enter_restore s t e h = ground (arith, e)
act-in_flight drain_restore s t e h = ground (arith, e)
act-in_flight give_up_drain s t e h = ground (arith, e)
act-in_flight leave_restore s t e h = ground (arith, e)

act-quiet :
    (a : Action) (s t : State)
    → act a s ≡ some t
    → s.in_flight ≡ s.counted + s.served
    → IsServedWhile s.phase s.on s.served
    → IsServedWhile t.phase t.on t.served
unfolding act look let_go
act-quiet test_request s t e c h = ground (arith, e, c, h)
act-quiet count_request s t e c h = ground (arith, e, c, h)
act-quiet gate_request s t e c h = ground (arith, e, c, h)
act-quiet end_request s t e c h = ground (arith, e, c, h)
act-quiet test_loop s t e c h = ground (arith, e, c, h)
act-quiet acquire_loop s t e c h = ground (arith, e, c, h)
act-quiet look_loop s t e c h = ground (arith, e, c, h)
act-quiet end_loop s t e c h = ground (arith, e, c, h)
act-quiet start_restore s t e c h = ground (arith, e, c, h)
act-quiet enter_restore s t e c h = ground (arith, e, c, h)
act-quiet drain_restore s t e c h = ground (arith, e, c, h)
act-quiet give_up_drain s t e c h = ground (arith, e, c, h)
act-quiet leave_restore s t e c h = ground (arith, e, c, h)

act-IsSound : (a : Action) (s t : State) → act a s ≡ some t → IsSound s → IsSound t
act-IsSound a s t e h = record {
  right_count = act-in_flight a s t e h.right_count;
  quiet = act-quiet a s t e h.right_count h.quiet;
}

run-first :
    (a : Action) (rest : List Action) (s t : State)
    → run (a ∷ rest) s ≡ some t
    → (u : State) × (act a s ≡ some u) × (run rest u ≡ some t)
unfolding run
run-first a rest s t e = elim (Option-cases (act a s)) [
  | inl stuck ↦ absurd (ground (arith, e, stuck))
  | inr (u, went) ↦ (u, went, ground (arith, e, went))
]

run-IsSound : (acts : List Action) (s t : State) → run acts s ≡ some t → IsSound s → IsSound t
unfolding run
run-IsSound [] s t e h = subst IsSound (ground (arith, e)) h
run-IsSound (a ∷ rest) s t e h =
    let (u, went, on) = run-first a rest s t e in run-IsSound rest u t on (act-IsSound a s u went h)

-- Whatever requests, loops and restores do in whatever order: while a restore goes on whose drain
-- saw no request in flight, maintenance is on and none of the requests that are counted is behind
-- the gate, also none that had found maintenance off and was counted only after the drain.
pub drain-quiet :
    (acts : List Action) (s t : State)
    → IsSound s
    → run acts s ≡ some t
    → t.phase ≡ drained
    → (t.on ≡ true) × (t.served ≡ 0)
drain-quiet acts s t h e d =
    subst (λ (p : Phase). IsServedWhile p t.on t.served) d (run-IsSound acts s t e h).quiet
