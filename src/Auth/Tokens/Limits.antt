-- ===== src/Auth/Tokens/Limits.antt =====
-- What a new token is allowed to be (backend/app/auth/tokens.py).
use cabinet_numismatics.Prelude.{
  ℕ, ◌+◌, ◌*◌, ◌≤◌, ◌<◌, ◌≡◌, refl, ◌⊎◌, String, true, false, Option, none, some, List, [], ◌∷◌,
  ◌++◌, arith, ◌==◌, Bool-cases, inl, inr, Option-cases, length,
}
use cabinet_numismatics.Prelude.Sort.{length-sort_by}
use cabinet_numismatics.Prelude.Text.{text_length, strip}
use cabinet_numismatics.Auth.Common.{day}
use cabinet_numismatics.Auth.Rows.{ApiToken, Scope, read, write, metrics}
use cabinet_numismatics.Auth.Tokens.{
  max_live, expired, live_rows, live, newer, lifetime_rule, is_metrics, scope_of, creation_rule,
  has_name, text_or_empty, Draw, new_row, first_free, create, created, plaintext,
}

-- What the rules ask of a new token, given the account's live ones.
pub record IsAllowed (name : String) (scope : Scope) (days : Option ℕ) (current : List ApiToken)
    : Type 0 where
  pub some_name : 1 ≤ text_length name
  pub short_name : text_length name ≤ 100
  pub new_name : has_name name current ≡ false
  pub room : length current < max_live
  pub lifetime : (days ≡ some 1) ⊎ (days ≡ some 7) ⊎ ((days ≡ none) × (scope ≡ metrics))

lifetime_rule-none :
    (scope : Scope) (days : Option ℕ)
    → lifetime_rule scope days ≡ none
    → (days ≡ some 1) ⊎ (days ≡ some 7) ⊎ ((days ≡ none) × (scope ≡ metrics))
unfolding lifetime_rule
lifetime_rule-none read none h = cc
lifetime_rule-none write none h = cc
lifetime_rule-none metrics none h = inr (inr (refl, refl))
lifetime_rule-none scope (some days) h = elim (Bool-cases (days == 1)) [
  | inl one ↦ inl (ground arith)
  | inr other ↦ inr (inl (ground arith))
]

creation_rule-none :
    (name : String) (scope : Option Scope) (days : Option ℕ) (current : List ApiToken)
    → creation_rule name scope days current ≡ none
    → (s : Scope) × (scope ≡ some s) × IsAllowed name s days current
unfolding creation_rule
creation_rule-none name none days current h = absurd (ground arith)
creation_rule-none name (some s) days current h = (
  s,
  refl,
  record {
    some_name = ground arith;
    short_name = ground arith;
    new_name = ground arith;
    room = ground arith;
    lifetime = lifetime_rule-none s days (ground arith);
  },
)

-- A token is created only with an allowed name, scope and lifetime, for an account with fewer than
-- 50 live tokens and none of that name; then its row is added to the table and nothing else changes.
pub create_sound :
    (digest : String → String) (d : Draw) (i : ℕ) (name : Option String) (scope : String)
    (days : Option ℕ) (rows : List ApiToken) (plain : String) (row : ApiToken)
    (after : List ApiToken)
    → create digest d i name scope days rows ≡ created (plain, row, after)
    → (s : Scope) × (p : String) × (scope_of scope ≡ some s)
      × IsAllowed (strip (text_or_empty name)) s days (live i d.at rows)
      × (first_free d.public_ids rows ≡ some p)
      × (row ≡ new_row digest d p i (strip (text_or_empty name)) s days)
      × (plain ≡ plaintext p d.secret)
      × (after ≡ rows ++ row ∷ [])
unfolding create
create_sound digest d i name scope days rows plain row after h =
    let name' = strip (text_or_empty name) in
    let rule : creation_rule name' (scope_of scope) days (live i d.at rows) ≡ none = ground arith in
    let (s, known, allowed) =
      creation_rule-none name' (scope_of scope) days (live i d.at rows) rule in
    elim (Option-cases (first_free d.public_ids rows)) [
      | inl loop ↦ absurd (ground arith)
      | inr (p, free) ↦ (s, p, known, allowed, free, ground arith, ground arith, ground arith)
    ]

live_rows-later :
    (i t now : ℕ) (rows : List ApiToken)
    → t ≤ now
    → length (live_rows i now rows) ≤ length (live_rows i t rows)
unfolding live_rows expired
live_rows-later i t now [] h = omega arith
live_rows-later i t now (row ∷ rows) h = ground (arith, live_rows-later i t now rows h)

length-live_rows-append :
    (i t : ℕ) (rows : List ApiToken) (row : ApiToken)
    → length (live_rows i t (rows ++ row ∷ [])) ≤ length (live_rows i t rows) + 1
unfolding live_rows
length-live_rows-append i t [] row = ground arith
length-live_rows-append i t (r ∷ rows) row = ground (arith, length-live_rows-append i t rows row)

-- However the tokens came, a creation never takes an account past 50 live tokens, at any time after.
pub create-live_le :
    (digest : String → String) (d : Draw) (i : ℕ) (name : Option String) (scope : String)
    (days : Option ℕ) (rows : List ApiToken) (plain : String) (row : ApiToken)
    (after : List ApiToken) (now : ℕ)
    → create digest d i name scope days rows ≡ created (plain, row, after)
    → d.at ≤ now
    → length (live i now after) ≤ max_live
unfolding live
create-live_le digest d i name scope days rows plain row after now h later =
    let (s, p, known, allowed, free, new, shown, added) =
      create_sound digest d i name scope days rows plain row after h in
    let room : length (live i d.at rows) < max_live = allowed.room in
    rw added (
      omega (
        arith,
        room,
        length-sort_by newer (live_rows i d.at rows),
        length-sort_by newer (live_rows i now (rows ++ row ∷ [])),
        length-live_rows-append i now rows row,
        live_rows-later i d.at now rows later,
      ))

scope-new_row :
    (digest : String → String) (d : Draw) (p : String) (i : ℕ) (name : String) (s : Scope)
    (days : Option ℕ)
    → (new_row digest d p i name s days).scope ≡ s
unfolding new_row
scope-new_row digest d p i name s days = refl

-- A read or write token works for at most 7 days: its row has expired 7 days after its creation.
pub create_expires :
    (digest : String → String) (d : Draw) (i : ℕ) (name : Option String) (scope : String)
    (days : Option ℕ) (rows : List ApiToken) (plain : String) (row : ApiToken)
    (after : List ApiToken) (now : ℕ)
    → create digest d i name scope days rows ≡ created (plain, row, after)
    → is_metrics row.scope ≡ false
    → d.at + 7 * day ≤ now
    → expired row now ≡ true
unfolding expired
create_expires digest d i name scope days rows plain row after now h kind late =
    let (s, p, known, allowed, free, new, shown, added) =
      create_sound digest d i name scope days rows plain row after h in
    elim allowed.lifetime [
      | inl one ↦ rw new (unfold new_row in rw one (ground arith))
      | inr (inl week) ↦ rw new (unfold new_row in rw week (ground arith))
      | inr (inr (never, m)) ↦
          absurd (ground (arith, scope-new_row digest d p i (strip (text_or_empty name)) s days))
    ]
