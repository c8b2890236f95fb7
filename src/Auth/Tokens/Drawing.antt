-- ===== src/Auth/Tokens/Drawing.antt =====
-- The draw of a public id that is free (backend/app/auth/tokens.py).
use text.Mathlib.Text.{◌==◌ as str_eq}
use cabinet_numismatics.Prelude.{
  ℕ, suc, ◌≤◌, ◌<◌, ◌≡◌, ◌≢◌, refl, String, true, false, Option, none, some, List, [], ◌∷◌, length,
  arith, if◌then◌else◌, eq_iff,
}
use cabinet_numismatics.Auth.Rows.{ApiToken, Scope}
use cabinet_numismatics.Prelude.Text.{strip}
use cabinet_numismatics.Auth.Tokens.{
  public_id_taken, first_free, Draw, Result, Created, Rejection, bad_scope, rejected, drawing,
  create, add_row, scope_of, creation_rule, live, text_or_empty,
}

-- No two of the ids are the same.
abbrev pub IsOther : String → List String → Type 0
IsOther p [] = Unit
IsOther p (q ∷ qs) = (str_eq p q ≡ false) × IsOther p qs

abbrev pub AllDifferent : List String → Type 0
AllDifferent [] = Unit
AllDifferent (p ∷ ps) = IsOther p ps × AllDifferent ps

-- The rows less the first with this id.
unfoldable without : String → List ApiToken → List ApiToken
without p [] = []
without p (row ∷ rows) =
    let rest = without p rows in if str_eq row.public_id p then rows else row ∷ rest

length-without :
    (p : String) (rows : List ApiToken)
    → public_id_taken p rows ≡ true
    → length rows ≡ suc (length (without p rows))
unfolding public_id_taken without
length-without p [] h = ground arith
length-without p (row ∷ rows) h = ground (arith, length-without p rows)

public_id_taken-without :
    (p q : String) (rows : List ApiToken)
    → str_eq p q ≡ false
    → public_id_taken q rows ≡ true
    → public_id_taken q (without p rows) ≡ true
unfolding public_id_taken without
public_id_taken-without p q [] h t = t
public_id_taken-without p q (row ∷ rows) h t = ground (
  arith,
  public_id_taken-without p q rows h,
  eq_iff row.public_id p,
  eq_iff row.public_id q,
  eq_iff p q,
)

taken_first :
    (p : String) (ps : List String) (rows : List ApiToken)
    → first_free (p ∷ ps) rows ≡ none
    → (public_id_taken p rows ≡ true) × (first_free ps rows ≡ none)
unfolding first_free
taken_first p ps rows h = ground arith

first_free-without :
    (p : String) (ps : List String) (rows : List ApiToken)
    → IsOther p ps
    → first_free ps rows ≡ none
    → first_free ps (without p rows) ≡ none
unfolding first_free
first_free-without p [] rows o h = refl
first_free-without p (q ∷ qs) rows o h =
    let (taken, rest) = taken_first q qs rows h in
    ground
      (arith, public_id_taken-without p q rows o.0 taken, first_free-without p qs rows o.1 rest)

-- Different ids that are all taken are no more than the rows.
first_free-length :
    (ps : List String) (rows : List ApiToken)
    → AllDifferent ps
    → first_free ps rows ≡ none
    → length ps ≤ length rows
first_free-length [] rows d h = omega arith
first_free-length (p ∷ ps) rows d h =
    let (taken, rest) = taken_first p ps rows h in
    omega (
      arith,
      length-without p rows taken,
      first_free-length ps (without p rows) d.1 (first_free-without p ps rows d.0 rest),
    )

-- How a creation ends, by the rules, the scope and the draw.
chosen-ends :
    (digest : String → String) (d : Draw) (user_id : ℕ) (name : String) (scope : Option Scope)
    (days : Option ℕ) (rows : List ApiToken) (rule : Option Rejection) (drawn : Option String)
    → drawn ≢ none
    → (elim rule as (λ r. Result Created) [
      | some r ↦ rejected r
      | none ↦ elim scope as (λ r. Result Created) [
        | none ↦ rejected bad_scope
        | some s ↦ add_row digest d user_id name s days rows drawn
      ]
    ])
      ≢ drawing
chosen-ends digest d user_id name scope days rows (some r) drawn h = λ e. ground (arith, e)
chosen-ends digest d user_id name none days rows none drawn h = λ e. ground (arith, e)
chosen-ends digest d user_id name (some s) days rows none none h = λ e. h refl
chosen-ends digest d user_id name (some s) days rows none (some p) h = λ e. ground (arith, e)

-- The draw ends: with more different ids at hand than the table has rows, a creation ends in a token
-- or a rejection and never goes on drawing.
pub create_ends :
    (digest : String → String) (d : Draw) (user_id : ℕ) (name : Option String) (scope : String)
    (days : Option ℕ) (rows : List ApiToken)
    → AllDifferent d.public_ids
    → length rows < length d.public_ids
    → create digest d user_id name scope days rows ≢ drawing
unfolding create
create_ends digest d user_id name scope days rows diff more =
    chosen-ends digest d user_id (strip (text_or_empty name)) (scope_of scope) days rows
      (creation_rule (strip (text_or_empty name)) (scope_of scope) days (live user_id d.at rows))
      (first_free d.public_ids rows)
      (λ e. omega (arith, more, first_free-length d.public_ids rows diff e))
