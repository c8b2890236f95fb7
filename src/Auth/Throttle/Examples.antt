-- ===== src/Auth/Throttle/Examples.antt =====
-- The throttles on concrete calls (backend/app/auth/throttle.py).
use cabinet_numismatics.Prelude.{
  ℕ, zero, suc, ◌+◌, ◌-◌, ◌*◌, ◌≤◌, ◌<◌, ◌≡◌, refl, inl, String, Option, none, some, List, [], ◌∷◌,
  arith,
}
use cabinet_numismatics.Auth.Throttle.Buckets.{Key, Entry, share, get, key_eq}
use cabinet_numismatics.Auth.Throttle.State.{
  Throttle, Moment, Address, empty, second, minute, waiting, retry_after, live, apply_reset_flag,
  wait_of,
}
use cabinet_numismatics.Auth.Throttle.Ops.{attempt, check_global, longest_wait, pop_old}
use cabinet_numismatics.Auth.Throttle.Views.{view}
use cabinet_numismatics.Auth.Throttle.Curve.{retry_after_covers}
use cabinet_numismatics.Auth.Throttle.Bounds.{IsBounded, empty-IsBounded}
use cabinet_numismatics.Auth.Throttle.History.{Call, run, run-IsBounded}
use cabinet_numismatics.Auth.Throttle.State.{allowed}
use cabinet_numismatics.Auth.Throttle.Reopening.{attempt_reopens}
use cabinet_numismatics.Auth.Throttle.Counting.{user_key, sign_in_keys}
use cabinet_numismatics.Auth.Throttle.Burst.{AllRefused, attempt_burst}
use cabinet_numismatics.Auth.Throttle.Window.{admitted, admit, Sorted, AllFrom, admitted-minute}

abbrev failed_times : ℕ → Entry
failed_times n = record { failures = n; last = 0 }

-- `n` failures of the name "alice" at time 0.
abbrev alice_failed : ℕ → Throttle
alice_failed n = record empty {
  entries = (user_key "alice", failed_times n) ∷ [];
  flag_seen = some none;
}

abbrev moment : ℕ → Moment
moment t = record { flag = none; at = t }

abbrev home : String
home = "192.0.2.1"

-- An address parser that reads nothing.
abbrev unparsed : String → Option Address
unparsed s = none

-- Two attempts on the name from elsewhere, the later one just before the pause is over.
abbrev guesses : List (List Key × Moment)
guesses =
    (sign_in_keys "alice" "198.51.100.7", moment 10)
    ∷ (sign_in_keys "alice" "203.0.113.9", moment 1_000_000_004)
    ∷ []

-- The fifth failure is counted, so they wait for the rest of a second.
attempt_burst_example :
    AllRefused
      (5 + second)
      guesses
      (attempt (sign_in_keys "alice" home) (moment 5) (alice_failed 4)).0
unfolding attempt longest_wait view waiting live get apply_reset_flag key_eq wait_of
attempt_burst_example =
    attempt_burst "alice" home (moment 5) guesses (alice_failed 4) refl (omega arith)
      (inl refl, refl, omega arith, (inl refl, refl, omega arith, tt))

retry_after_covers_example :
    (1_500_000_000 ≤ 2 * second) × (2 * second < 1_500_000_000 + second) × (1 ≤ 2)
unfolding retry_after
retry_after_covers_example = retry_after_covers 1_500_000_000 (omega arith)

run-IsBounded_example : IsBounded (
    run unparsed
      (Call.on_fail share home 3 ∷ Call.on_attempt (sign_in_keys "alice" home) (moment 7) ∷ [])
      empty)
run-IsBounded_example =
    run-IsBounded unparsed
      (Call.on_fail share home 3 ∷ Call.on_attempt (sign_in_keys "alice" home) (moment 7) ∷ [])
      empty empty-IsBounded

-- Sixty checks at time 0, and one a minute later.
abbrev zeros : ℕ → List ℕ
zeros zero = minute ∷ []
zeros (suc n) = 0 ∷ zeros n

AllFrom-zero : (l : List ℕ) → AllFrom 0 l
AllFrom-zero [] = tt
AllFrom-zero (x ∷ l) = (omega arith, AllFrom-zero l)

Sorted-zeros : (n : ℕ) → Sorted (zeros n)
Sorted-zeros zero = (tt, tt)
Sorted-zeros (suc n) = (AllFrom-zero (zeros n), Sorted-zeros n)

admitted-minute_example : 0 + minute ≤ minute
unfolding admitted admit check_global apply_reset_flag pop_old
admitted-minute_example =
    admitted-minute none (zeros 60) (alice_failed 4) 0 0 minute refl refl (Sorted-zeros 60) refl
      refl

attempt_reopens_example :
    (attempt
      (sign_in_keys "alice" home)
      (moment second)
      (attempt (sign_in_keys "alice" home) (moment (second - 40)) (alice_failed 5)).0).1
    ≡ allowed
unfolding attempt longest_wait live view waiting get apply_reset_flag key_eq wait_of
attempt_reopens_example =
    attempt_reopens (sign_in_keys "alice" home) (moment (second - 40)) (moment second)
      (alice_failed 5) 40 refl refl (omega arith)
