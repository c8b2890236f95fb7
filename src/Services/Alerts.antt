-- ===== src/Services/Alerts.antt =====
-- Alerts (backend/app/services/alerts.py): which conditions fail, and what is said when one starts
-- failing or recovers. What is said is a list of notices, in order; their delivery is not modelled.
pub mod Machine
pub mod Examples
use Prim.Native.Char.{code}
use text.Mathlib.Text.{◌==◌ as str_eq}
use cabinet_numismatics.Prelude.{
  ℕ, zero, suc, String, Bool, true, false, not, ◌&&◌, ◌||◌, Option, none, some, List, [], ◌∷◌, ◌++◌,
  leb, if◌then◌else◌,
}
use cabinet_numismatics.Prelude.Text.{
  text_length, take_text, is_empty, after_prefix, append_text, all_class,
}
use cabinet_numismatics.Prelude.Split.{join}
use cabinet_numismatics.Prelude.Dict.{Dict, get, put, pop}

-- `CONDITIONS`
abbrev pub conditions : Dict String
conditions =
    ("backup", "Backups")
    ∷ ("numista_key", "Numista API key")
    ∷ ("numista_quota", "Numista request quota")
    ∷ ("pcgs_key", "PCGS API token")
    ∷ ("pcgs_quota", "PCGS request quota")
    ∷ ("refresh_melt", "Scheduled melt refresh")
    ∷ ("refresh_numista", "Scheduled Numista refresh")
    ∷ ("refresh_pcgs", "Scheduled PCGS refresh")
    ∷ []

abbrev pub is_digit : ℕ → Bool
is_digit c = leb b'0' c && leb c b'9'

-- The number in `SSO_PROVIDER.fullmatch(key)`: one to nine digits after the prefix.
unfoldable pub sso_number : String → Option String
sso_number key = elim (after_prefix "sso_provider_" key) [
  | none ↦ none
  | some n ↦
      if leb 1 (text_length n) && leb (text_length n) 9 && all_class is_digit n
      then some n
      else none
]

abbrev pub is_some : {A : Type 0} → Option A → Bool
is_some none = false
is_some (some _) = true

unfoldable pub is_condition : String → Bool
is_condition key = is_some (get key conditions) || is_some (sso_number key)

unfoldable pub label : String → String
label key = elim (get key conditions) [
  | some name ↦ name
  | none ↦ elim (sso_number key) [
    | some n ↦ append_text "Sign-in provider " (append_text n " credentials")
    | none ↦ key
  ]
]

-- An entry of the `alert_state` setting.
pub record Condition : Type 0 where
  pub failing : Bool
  pub since : ℕ
  pub message : String

pub data Status : Type 0 where
  starts_failing recovered : Status

-- One call of `_notify` that finds a webhook.
pub record Notice : Type 0 where
  pub key : String
  pub status : Status
  pub message : String

-- The settings that alerts read and write: `alert_state`, and `alert_webhook_url`.
pub record Alerts : Type 0 where
  pub states : Dict Condition
  pub webhook : String

-- `_notify`
unfoldable pub notify : Alerts → Notice → List Notice
notify s n = if is_empty s.webhook then [] else n ∷ []

abbrev pub is_failing : Option Condition → Bool
is_failing none = false
is_failing (some c) = c.failing

abbrev pub since_of : ℕ → Option Condition → ℕ
since_of now none = now
since_of now (some c) = if c.failing then c.since else now

abbrev pub same_message : String → Option Condition → Bool
same_message message none = false
same_message message (some c) = str_eq c.message message

-- `fail`, with the time read
unfoldable pub fail : ℕ → String → String → Alerts → Alerts × List Notice
fail now key message s =
    let current = get key s.states in
    if is_failing current && same_message message current then (s, []) else (
      record s {
        states =
            put key
              (record {
                failing = true;
                since = since_of now current;
                message = take_text 500 message;
              })
              s.states;
      },
      if is_failing current
          then []
          else notify s (record { key = key; status = starts_failing; message = message }),
    )

abbrev pub recover_from : ℕ → String → Alerts → Option Condition → Alerts × List Notice
recover_from now key s none = (s, [])
recover_from now key s (some c) = if not c.failing then (s, []) else (
  record s {
    states = put key (record { failing = false; since = now; message = c.message }) s.states;
  },
  notify s (record {
    key = key;
    status = recovered;
    message = append_text "Working again (was: " (append_text c.message ")");
  }),
)

unfoldable pub recover : ℕ → String → Alerts → Alerts × List Notice
recover now key s = recover_from now key s (get key s.states)

unfoldable pub forget : String → Alerts → Alerts
forget key s = if is_some (get key s.states) then record s { states = pop key s.states } else s

abbrev pub source_key : String → String → String
source_key source kind = append_text source (append_text "_" kind)

unfoldable pub source_failed : ℕ → String → String → String → Alerts → Alerts × List Notice
source_failed now source kind message s =
    if is_some (get (source_key source kind) conditions)
    then fail now (source_key source kind) message s
    else (s, [])

abbrev pub recover_known : ℕ → String → Alerts → Alerts × List Notice
recover_known now key s = if is_some (get key conditions) then recover now key s else (s, [])

unfoldable pub source_ok : ℕ → String → Alerts → Alerts × List Notice
source_ok now source s =
    let (s1, first) = recover_known now (source_key source "key") s in
    let (s2, second) = recover_known now (source_key source "quota") s1 in (s2, first ++ second)

-- `failing`
unfoldable pub failing : Dict Condition → Dict Condition
failing [] = []
failing ((k, c) ∷ d) = let rest = failing d in if c.failing then (k, c) ∷ rest else rest

unfoldable pub problem_texts : Dict Condition → List String
problem_texts [] = []
problem_texts ((k, c) ∷ d) = append_text (label k) (append_text ": " c.message) ∷ problem_texts d

abbrev pub none_fails : Dict Condition → Bool
none_fails [] = true
none_fails (_ ∷ _) = false

-- What `ping_heartbeat` pushes: up or down, and the message.
unfoldable pub heartbeat : Bool → Alerts → Bool × String
heartbeat test s =
    let problems = failing s.states in
    let up = none_fails problems in
    let message = if up then "OK" else join "; " (problem_texts problems) in
    (up, if test then append_text "Test from Cabinet: " message else message)
