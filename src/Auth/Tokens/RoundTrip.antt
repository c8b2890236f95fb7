-- ===== src/Auth/Tokens/RoundTrip.antt =====
-- Authentication by a token, and the tokens that are made (backend/app/auth/tokens.py).
use text.Mathlib.Text.{◌==◌ as str_eq}
use cabinet_numismatics.Prelude.{
  ℕ, ◌≡◌, refl, sym, ap, ◌∙◌, ◌⊎◌, String, true, false, Option, none, some, List, [], ◌∷◌, ◌++◌,
  arith, Bool-cases, inl, inr, Option-cases, eq_iff,
}
use cabinet_numismatics.Prelude.Text.{
  append_text, matches_class, after_prefix-append_text, take_text-append_text, strip,
  drop_text-append_text, matches_class-length,
}
use cabinet_numismatics.Auth.Common.{is_secret_char}
use cabinet_numismatics.Auth.Rows.{User, ApiToken, Scope}
use cabinet_numismatics.Auth.Sessions.{user_by_id}
use cabinet_numismatics.Auth.Tokens.{
  prefix, is_live, public_id_taken, plaintext, revoke_rows, revoke_all, text_or_empty, Draw,
  new_row, first_free, create, created,
}
use cabinet_numismatics.Auth.Tokens.Limits.{create_sound}
use cabinet_numismatics.Auth.Tokens.Credentials.{
  is_public_id_char, token_match, token_by_public_id, with_user, authenticate,
}

-- The parts of a plaintext are read back from it.
pub token_match-plaintext :
    (public_id secret : String)
    → matches_class is_public_id_char 10 public_id ≡ true
    → matches_class is_secret_char 43 secret ≡ true
    → token_match (plaintext public_id secret) ≡ some (public_id, secret)
unfolding token_match plaintext
token_match-plaintext public_id secret hp hs =
    let len = matches_class-length is_public_id_char 10 public_id hp in
    let tail = append_text "_" secret in
    rw (after_prefix-append_text prefix (append_text public_id tail)) (
      rw (take_text-append_text 10 public_id tail len) (
        rw (drop_text-append_text 10 public_id tail len)
          (rw (after_prefix-append_text "_" secret) (rw (hp, hs)))))

token_by_public_id-append :
    (p : String) (rows : List ApiToken) (row : ApiToken)
    → public_id_taken p rows ≡ false
    → row.public_id ≡ p
    → token_by_public_id p (rows ++ row ∷ []) ≡ some row
unfolding token_by_public_id public_id_taken
token_by_public_id-append p [] row free e = ground (arith, eq_iff row.public_id p)
token_by_public_id-append p (r ∷ rows) row free e =
    ground (arith, token_by_public_id-append p rows row)

-- A row that is added with a public id that was free is the answer to its plaintext.
authenticate-append :
    (digest : String → String) (secret : String) (rows : List ApiToken) (row : ApiToken)
    (users : List User) (user : User) (now : ℕ)
    → matches_class is_public_id_char 10 row.public_id ≡ true
    → matches_class is_secret_char 43 secret ≡ true
    → public_id_taken row.public_id rows ≡ false
    → row.secret_hash ≡ digest secret
    → user_by_id row.user_id users ≡ some user
    → user.is_active ≡ true
    → is_live row now ≡ true
    → authenticate digest (plaintext row.public_id secret) (rows ++ row ∷ []) users now
      ≡ some (row, user)
unfolding authenticate
authenticate-append digest secret rows row users user now hp hs free hash known active alive =
    rw (token_match-plaintext row.public_id secret hp hs) (
      rw (token_by_public_id-append row.public_id rows row free refl)
        (rw known (ground (arith, eq_iff row.secret_hash (digest secret)))))

first_free-free :
    (ids : List String) (rows : List ApiToken) (p : String)
    → first_free ids rows ≡ some p
    → public_id_taken p rows ≡ false
unfolding first_free
first_free-free [] rows p h = cc
first_free-free (i ∷ ids) rows p h = elim (Bool-cases (public_id_taken i rows)) [
  | inl taken ↦ first_free-free ids rows p (ground arith)
  | inr free ↦ ground arith
]

new_row-parts :
    (digest : String → String) (d : Draw) (p : String) (i : ℕ) (name : String) (s : Scope)
    (days : Option ℕ)
    → ((new_row digest d p i name s days).public_id ≡ p)
      × ((new_row digest d p i name s days).secret_hash ≡ digest d.secret)
      × ((new_row digest d p i name s days).user_id ≡ i)
unfolding new_row
new_row-parts digest d p i name s days = (refl, refl, refl)

-- The plaintext that `create` returns authenticates, in the table that it leaves, with the row that
-- it made and the account that it was made for, at every time at which that row is live, while the
-- account is there and active. The random public id and secret have the shape that is drawn.
pub authenticate-create :
    (digest : String → String) (d : Draw) (i : ℕ) (name : Option String) (scope : String)
    (days : Option ℕ) (rows : List ApiToken) (plain : String) (row : ApiToken)
    (after : List ApiToken) (users : List User) (user : User) (now : ℕ)
    → create digest d i name scope days rows ≡ created (plain, row, after)
    → matches_class is_public_id_char 10 row.public_id ≡ true
    → matches_class is_secret_char 43 d.secret ≡ true
    → user_by_id i users ≡ some user
    → user.is_active ≡ true
    → is_live row now ≡ true
    → authenticate digest plain after users now ≡ some (row, user)
authenticate-create digest d i name scope days rows plain row after users user now h hp hs known
      active alive =
    let (s, p, kind, allowed, free, new, shown, added) =
      create_sound digest d i name scope days rows plain row after h in
    let (named, hash, owner) = new_row-parts digest d p i (strip (text_or_empty name)) s days in
    let same : row.public_id ≡ p = ap (λ (r : ApiToken). r.public_id) new ∙ named in
    let text : plain ≡ plaintext row.public_id d.secret =
      shown ∙ ap (λ (q : String). plaintext q d.secret) (sym same) in
    rw text (
      rw added (
        authenticate-append digest d.secret rows row users user now hp hs
          (ap (λ (q : String). public_id_taken q rows) same
            ∙ first_free-free d.public_ids rows p free)
          (ap (λ (r : ApiToken). r.secret_hash) new ∙ hash)
          (ap (λ (j : ℕ). user_by_id j users) (ap (λ (r : ApiToken). r.user_id) new ∙ owner)
            ∙ known)
          active alive))

abbrev pub InTable : ApiToken → List ApiToken → Type 0
InTable row [] = ⊥
InTable row (s ∷ ss) = (row ≡ s) ⊎ InTable row ss

token_by_public_id-found :
    (p : String) (rows : List ApiToken) (row : ApiToken)
    → token_by_public_id p rows ≡ some row
    → (row.public_id ≡ p) × InTable row rows
unfolding token_by_public_id
token_by_public_id-found p [] row e = cc
token_by_public_id-found p (s ∷ ss) row e = elim (Bool-cases (str_eq s.public_id p)) [
  | inl same ↦ (ground (arith, eq_iff s.public_id p), inl (ground arith))
  | inr other ↦
      let (named, there) = token_by_public_id-found p ss row (rw other at e) in (named, inr there)
]

with_user-found :
    (digest : String → String) (secret : String) (users : List User) (now : ℕ) (o : Option ApiToken)
    (row : ApiToken) (user : User)
    → with_user digest secret users now o ≡ some (row, user)
    → (o ≡ some row)
      × (row.secret_hash ≡ digest secret)
      × (is_live row now ≡ true)
      × (user_by_id row.user_id users ≡ some user)
      × (user.is_active ≡ true)
with_user-found digest secret users now none row user e = cc
with_user-found digest secret users now (some r) row user e =
    elim (Option-cases (user_by_id r.user_id users)) [
      | inl gone ↦ absurd (ground arith)
      | inr (u, there) ↦ ground (arith, there, eq_iff r.secret_hash (digest secret))
    ]

-- A request is taken for a token's only by the public id and the secret of a row of the table, which
-- is not revoked and not expired, and whose account is there and active.
pub authenticate_sound :
    (digest : String → String) (credential : String) (rows : List ApiToken) (users : List User)
    (now : ℕ) (row : ApiToken) (user : User)
    → authenticate digest credential rows users now ≡ some (row, user)
    → (secret : String) × (token_match credential ≡ some (row.public_id, secret))
      × (row.secret_hash ≡ digest secret)
      × InTable row rows
      × (is_live row now ≡ true)
      × (user_by_id row.user_id users ≡ some user)
      × (user.is_active ≡ true)
unfolding authenticate
authenticate_sound digest credential rows users now row user e =
    elim (Option-cases (token_match credential)) [
      | inl bad ↦ absurd (ground arith)
      | inr ((p, secret), m) ↦
          let (found, hash, alive, account, active) =
            with_user-found digest secret users now (token_by_public_id p rows) row user
              (rw m at e) in
          let (named, there) = token_by_public_id-found p rows row found in
          (
            secret,
            m ∙ ap (λ (q : String). some (q, secret)) (sym named),
            hash,
            there,
            alive,
            account,
            active,
          )
    ]

-- Among these rows no live one is the account's.
InTable-revoke_rows :
    (i at now : ℕ) (rows : List ApiToken) (row : ApiToken)
    → InTable row (revoke_rows i at rows)
    → is_live row now ≡ true
    → row.user_id ≡ i
    → ⊥
unfolding revoke_rows is_live
InTable-revoke_rows i at now [] row m h e = m
InTable-revoke_rows i at now (r ∷ rows) row (inl same) h e = ground arith
InTable-revoke_rows i at now (r ∷ rows) row (inr there) h e =
    InTable-revoke_rows i at now rows row there h e

-- Once an account's tokens have been revoked, no request authenticates as that account by a token.
pub revoke_all-authenticate :
    (digest : String → String) (credential : String) (rows : List ApiToken) (users : List User)
    (i at now : ℕ) (row : ApiToken) (user : User)
    → authenticate digest credential (revoke_all i at rows).0 users now ≡ some (row, user)
    → (row.user_id ≡ i → ⊥)
unfolding revoke_all
revoke_all-authenticate digest credential rows users i at now row user e =
    let (secret, m, hash, there, alive, account, active) =
      authenticate_sound digest credential (revoke_rows i at rows) users now row user e in
    InTable-revoke_rows i at now rows row there alive
