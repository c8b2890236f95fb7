-- ===== src/Auth/Sessions/Revocation.antt =====
-- What ends a session (backend/app/auth/sessions.py).
use cabinet_numismatics.Prelude.{
  ℕ, ◌+◌, ◌≡◌, refl, ap, Bool, true, false, ◌&&◌, Option, none, some, List, [], ◌∷◌, map, arith,
  ◌==◌, if◌then◌else◌,
}
use cabinet_numismatics.Prelude.Sort.{sort_by}
use cabinet_numismatics.Auth.Rows.{User, Session}
use cabinet_numismatics.Auth.Sessions.{
  is_none, valid, newer, live_rows, live, revoke_where, revoke_all, revoke_external, is_external,
  matches_user,
}

-- A row as a revocation leaves it, and whether it is one of those that it ends.
abbrev pub ends : (Session → Bool) → Session → Bool
ends p row = is_none row.revoked_at && p row

abbrev pub ended : (Session → Bool) → ℕ → Session → Session
ended p at row =
    if ends p row then record row { revoked_at = some at; confirmed_until = none } else row

abbrev pub count_rows : (Session → Bool) → List Session → ℕ
count_rows p [] = 0
count_rows p (row ∷ rows) = (if p row then 1 else 0) + count_rows p rows

-- A revocation touches exactly the unrevoked rows that it names, and reports their number.
pub revoke_where_lem :
    (p : Session → Bool) (at : ℕ) (rows : List Session)
    → revoke_where p at rows ≡ (map (ended p at) rows, count_rows (ends p) rows)
unfolding revoke_where
revoke_where_lem p at [] = refl
revoke_where_lem p at (row ∷ rows) = rw (revoke_where_lem p at rows) (ground arith)

-- A row that a revocation names is valid at no time after.
valid-ended :
    (p : Session → Bool) (at now : ℕ) (row : Session) (user : Option User)
    → p row ≡ true
    → valid (ended p at row) user now ≡ false
unfolding valid
valid-ended p at now row user h = ground arith

live_rows-revoked :
    (i : ℕ) (users : List User) (at now : ℕ) (rows : List Session)
    → live_rows i users now (map (ended (λ row. row.user_id == i) at) rows) ≡ []
unfolding live_rows
live_rows-revoked i users at now [] = refl
live_rows-revoked i users at now (row ∷ rows) =
    ground (arith, live_rows-revoked i users at now rows)

live_rows-others :
    (i j : ℕ) (users : List User) (at now : ℕ) (rows : List Session)
    → (i ≡ j → ⊥)
    → live_rows j users now (map (ended (λ row. row.user_id == i) at) rows)
      ≡ live_rows j users now rows
unfolding live_rows
live_rows-others i j users at now [] ne = refl
live_rows-others i j users at now (row ∷ rows) ne =
    ground (arith, live_rows-others i j users at now rows ne)

-- After `revoke_all` the account has no live session, at any time, and every other account has the
-- live sessions that it had.
pub revoke_all_ends :
    (i : ℕ) (users : List User) (at now : ℕ) (rows : List Session)
    → (live i users now (revoke_all i at rows).0 ≡ [])
      × ((j : ℕ) → (i ≡ j → ⊥) → live j users now (revoke_all i at rows).0 ≡ live j users now rows)
unfolding live revoke_all
revoke_all_ends i users at now rows =
    let e = revoke_where_lem (λ row. row.user_id == i) at rows in
    (
      rw e (unfold sort_by in ap (sort_by newer) (live_rows-revoked i users at now rows)),
      λ j ne. rw e (ap (sort_by newer) (live_rows-others i j users at now rows ne)),
    )

-- The sessions that a password opened.
abbrev pub by_password : List Session → List Session
by_password [] = []
by_password (row ∷ rows) =
    if is_external row.auth_method then by_password rows else row ∷ by_password rows

abbrev pub NoneLive : List Session → Type 0
NoneLive [] = Unit
NoneLive (row ∷ rows) =
    ((user : Option User) (now : ℕ)
      → is_external row.auth_method ≡ true
      → valid row user now ≡ false)
    × NoneLive rows

abbrev external : Session → Bool
external row = is_external row.auth_method && matches_user none row.user_id

valid-external :
    (at : ℕ) (row : Session) (user : Option User) (now : ℕ)
    → is_external (ended external at row).auth_method ≡ true
    → valid (ended external at row) user now ≡ false
unfolding valid
valid-external at row user now h = ground arith

NoneLive-external : (at : ℕ) (rows : List Session) → NoneLive (map (ended external at) rows)
NoneLive-external at [] = tt
NoneLive-external at (row ∷ rows) = (valid-external at row, NoneLive-external at rows)

by_password-external :
    (at : ℕ) (rows : List Session) → by_password (map (ended external at) rows) ≡ by_password rows
by_password-external at [] = refl
by_password-external at (row ∷ rows) = ground (arith, by_password-external at rows)

-- Switching single sign-on off ends every session that a provider or the trusted header opened, of
-- every account, and leaves the rows of all password sessions as they were.
pub revoke_external_ends :
    (at : ℕ) (rows : List Session)
    → let after = (revoke_external none is_external at rows).0 in
      NoneLive after × (by_password after ≡ by_password rows)
unfolding revoke_external
revoke_external_ends at rows =
    rw (revoke_where_lem external at rows) (NoneLive-external at rows, by_password-external at rows)
