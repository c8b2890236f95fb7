-- ===== src/Services/Alerts/Machine.antt =====
-- The conditions as machines of two states (backend/app/services/alerts.py).
use mathlib.Core.Path.{ap₂}
use text.Mathlib.Text.{◌==◌ as str_eq}
use cabinet_numismatics.Prelude.{
  ℕ, ◌≡◌, refl, ap, ◌∙◌, inl, inr, String, Bool, true, false, ◌&&◌, Option, none, some, List, [],
  ◌∷◌, ◌++◌, if◌then◌else◌, arith, eq_iff, Bool-cases,
}
use cabinet_numismatics.Prelude.Text.{is_empty, take_text}
use cabinet_numismatics.Prelude.Dict.{Dict, get, get-put, get-pop}
use cabinet_numismatics.Services.Alerts.{
  Condition, Status, starts_failing, recovered, Notice, Alerts, notify, is_failing, since_of,
  is_some, conditions, fail, recover, recover_from, recover_known, forget, source_key,
  source_failed, source_ok,
}

-- The calls that change `alert_state`, each with the time that it reads.
pub data Call : Type 0 where
  on_fail : ℕ → String → String → Call
  on_recover : ℕ → String → Call
  on_forget : String → Call
  on_source_failed : ℕ → String → String → String → Call
  on_source_ok : ℕ → String → Call

unfoldable pub step : Alerts → Call → Alerts × List Notice
step s (on_fail now key message) = fail now key message s
step s (on_recover now key) = recover now key s
step s (on_forget key) = (forget key s, [])
step s (on_source_failed now source kind message) = source_failed now source kind message s
step s (on_source_ok now source) = source_ok now source s

unfoldable pub run : Alerts → List Call → Alerts × List Notice
run s [] = (s, [])
run s (c ∷ cs) = let (s1, first) = step s c in let (s2, rest) = run s1 cs in (s2, first ++ rest)

-- What is said of one condition.
unfoldable pub said : String → List Notice → List Status
said k [] = []
said k (n ∷ ns) = let rest = said k ns in if str_eq n.key k then n.status ∷ rest else rest

-- The machine of one condition: it is failing or not, and speaks when that changes.
unfoldable pub turn_on : Bool → Bool × List Status
turn_on true = (true, [])
turn_on false = (true, starts_failing ∷ [])

unfoldable pub turn_off : Bool → Bool × List Status
turn_off true = (false, recovered ∷ [])
turn_off false = (false, [])

-- The new state where the call is about the condition, otherwise the old one and nothing said.
abbrev pub only : Bool → Bool × List Status → Bool → Bool × List Status
only here after b = if here then after else (b, [])

-- A source that answers turns its two conditions off, one after the other.
unfoldable pub both_off : String → String → Bool → Bool × List Status
unfolding turn_off
both_off k source b =
    let (b1, first) =
      only
        (is_some (get (source_key source "key") conditions) && str_eq (source_key source "key") k)
        (turn_off b) b in
    let (b2, second) =
      only
        (is_some (get (source_key source "quota") conditions)
          && str_eq (source_key source "quota") k)
        (turn_off b1) b1 in
    (b2, first ++ second)

unfoldable pub machine_step : String → Bool → Call → Bool × List Status
unfolding turn_on turn_off both_off
machine_step k b (on_fail now key message) = only (str_eq key k) (turn_on b) b
machine_step k b (on_recover now key) = only (str_eq key k) (turn_off b) b
machine_step k b (on_forget key) = (if str_eq key k then false else b, [])
machine_step k b (on_source_failed now source kind message) =
    only (is_some (get (source_key source kind) conditions) && str_eq (source_key source kind) k)
      (turn_on b) b
machine_step k b (on_source_ok now source) = both_off k source b

unfoldable pub machine_run : String → Bool → List Call → Bool × List Status
unfolding machine_step
machine_run k b [] = (b, [])
machine_run k b (c ∷ cs) =
    let (b1, first) = machine_step k b c in
    let (b2, rest) = machine_run k b1 cs in (b2, first ++ rest)

abbrev pub state_of : String → Alerts → Bool
state_of k s = is_failing (get k s.states)

said-append : (k : String) (a b : List Notice) → said k (a ++ b) ≡ said k a ++ said k b
unfolding said
said-append k [] b = refl
said-append k (n ∷ ns) b = ground (arith, said-append k ns b)

-- A step of the alerts shows as a step of the machine, and keeps the webhook.
abbrev Follows : String → Alerts → Alerts × List Notice → Bool × List Status → Type 0
Follows k s after machine =
    (state_of k after.0 ≡ machine.0) × (said k after.1 ≡ machine.1) × (after.0.webhook ≡ s.webhook)

same-get : (k key : String) (d : Dict Condition) → str_eq key k ≡ true → get key d ≡ get k d
same-get k key d h = ap (λ (x : String). get x d) ((eq_iff key k).0 h)

fail-Follows :
    (k : String) (now : ℕ) (key message : String) (s : Alerts)
    → is_empty s.webhook ≡ false
    → Follows k s
        (fail now key message s)
        (only (str_eq key k) (turn_on (state_of k s)) (state_of k s))
unfolding fail notify said turn_on
fail-Follows k now key message s url =
    let new : Condition = record {
      failing = true;
      since = since_of now (get key s.states);
      message = take_text 500 message;
    } in
    ground (arith, same-get k key s.states, get-put k key new s.states)

recover_from-Follows :
    (k : String) (now : ℕ) (key : String) (s : Alerts) (o : Option Condition)
    → get key s.states ≡ o
    → is_empty s.webhook ≡ false
    → Follows k s
        (recover_from now key s o)
        (only (str_eq key k) (turn_off (state_of k s)) (state_of k s))
unfolding notify said turn_off
recover_from-Follows k now key s none here url = ground (arith, same-get k key s.states)
recover_from-Follows k now key s (some c) here url =
    let new : Condition = record { failing = false; since = now; message = c.message } in
    ground (arith, same-get k key s.states, get-put k key new s.states)

recover-Follows :
    (k : String) (now : ℕ) (key : String) (s : Alerts)
    → is_empty s.webhook ≡ false
    → Follows k s (recover now key s) (only (str_eq key k) (turn_off (state_of k s)) (state_of k s))
unfolding recover
recover-Follows k now key s url = recover_from-Follows k now key s (get key s.states) refl url

forget-Follows :
    (k key : String) (s : Alerts)
    → (state_of k (forget key s) ≡ (if str_eq key k then false else state_of k s))
      × ((forget key s).webhook ≡ s.webhook)
unfolding forget
forget-Follows k key s = ground (arith, get-pop k key s.states, same-get k key s.states)

known-Follows :
    (k : String) (now : ℕ) (key : String) (s : Alerts)
    → is_empty s.webhook ≡ false
    → Follows k s (recover_known now key s) (
        only
          (is_some (get key conditions) && str_eq key k)
          (turn_off (state_of k s))
          (state_of k s))
unfolding said
known-Follows k now key s url = elim (Bool-cases (is_some (get key conditions))) [
  | inl known ↦ rw known (recover-Follows k now key s url)
  | inr unknown ↦ rw unknown (refl, refl, refl)
]

source_failed-Follows :
    (k : String) (now : ℕ) (source kind message : String) (s : Alerts)
    → is_empty s.webhook ≡ false
    → Follows k s (source_failed now source kind message s) (
        only
          (is_some (get (source_key source kind) conditions) && str_eq (source_key source kind) k)
          (turn_on (state_of k s))
          (state_of k s))
unfolding source_failed said
source_failed-Follows k now source kind message s url =
    elim (Bool-cases (is_some (get (source_key source kind) conditions))) [
      | inl known ↦ rw known (fail-Follows k now (source_key source kind) message s url)
      | inr unknown ↦ rw unknown (refl, refl, refl)
    ]

source_ok-Follows :
    (k : String) (now : ℕ) (source : String) (s : Alerts)
    → is_empty s.webhook ≡ false
    → Follows k s (source_ok now source s) (both_off k source (state_of k s))
unfolding source_ok both_off
source_ok-Follows k now source s url =
    let (first, said_first, url1) = known-Follows k now (source_key source "key") s url in
    let s1 = (recover_known now (source_key source "key") s).0 in
    let (second, said_second, url2) =
      known-Follows k now (source_key source "quota") s1 (ap is_empty url1 ∙ url) in
    let quota : Bool → Bool × List Status = λ b.
      only
        (is_some (get (source_key source "quota") conditions)
          && str_eq (source_key source "quota") k)
        (turn_off b) b in
    (
      second ∙ ap (λ (b : Bool). (quota b).0) first,
      said-append k (recover_known now (source_key source "key") s).1
            (recover_known now (source_key source "quota") s1).1
          ∙ ap₂ ◌++◌ said_first (said_second ∙ ap (λ (b : Bool). (quota b).1) first),
      url2 ∙ url1,
    )

step-Follows :
    (k : String) (c : Call) (s : Alerts)
    → is_empty s.webhook ≡ false
    → Follows k s (step s c) (machine_step k (state_of k s) c)
unfolding step machine_step
step-Follows k (on_fail now key message) s url = fail-Follows k now key message s url
step-Follows k (on_recover now key) s url = recover-Follows k now key s url
step-Follows k (on_forget key) s url =
    let (state, url1) = forget-Follows k key s in (state, unfold said in refl, url1)
step-Follows k (on_source_failed now source kind message) s url =
    source_failed-Follows k now source kind message s url
step-Follows k (on_source_ok now source) s url = source_ok-Follows k now source s url

-- With a webhook saved, every condition shows as its own machine of two states, whatever is called
-- in whatever order: it speaks exactly when it starts failing and when it recovers; a forgotten
-- condition is dropped without a word, and its next failure is a start again.
pub run-refines-machine :
    (k : String) (cs : List Call) (s : Alerts)
    → is_empty s.webhook ≡ false
    → (state_of k (run s cs).0 ≡ (machine_run k (state_of k s) cs).0)
      × (said k (run s cs).1 ≡ (machine_run k (state_of k s) cs).1)
unfolding run machine_run
run-refines-machine k [] s url = (refl, unfold said in refl)
run-refines-machine k (c ∷ cs) s url =
    let (state, words, url') = step-Follows k c s url in
    let (rest, rest_words) = run-refines-machine k cs (step s c).0 (ap is_empty url' ∙ url) in
    (
      rest ∙ ap (λ (b : Bool). (machine_run k b cs).0) state,
      said-append k (step s c).1 (run (step s c).0 cs).1
          ∙ ap₂ ◌++◌ words (rest_words ∙ ap (λ (b : Bool). (machine_run k b cs).1) state),
    )
