-- ===== src/Auth/Accounts/Upkeep.antt =====
-- The claim, the tokens of the account, and the hourly clean-up (backend/app/auth/accounts.py).
use text.Mathlib.Text.{◌==◌ as str_eq}
use cabinet_numismatics.Prelude.{
  ℕ, ◌+◌, ◌*◌, ◌≤◌, ◌≡◌, refl, ap, String, Bool, true, false, not, ◌&&◌, ◌||◌, Option, none, some,
  List, [], ◌∷◌, ◌++◌, ltb, ◌==◌, if◌then◌else◌, arith,
}
use cabinet_numismatics.Prelude.Sort.{sort_by}
use cabinet_numismatics.Auth.Common.{day}
use cabinet_numismatics.Auth.Rows.{User, Session, ApiToken, KnownDevice, KnownBrowser, Db}
use cabinet_numismatics.Prelude.Keep.{keep}
use cabinet_numismatics.Auth.Devices
use cabinet_numismatics.Auth.Audit
use cabinet_numismatics.Auth.Sessions
use cabinet_numismatics.Auth.Sessions.{valid}
use cabinet_numismatics.Auth.Browsers
use cabinet_numismatics.Auth.Tokens
use cabinet_numismatics.Auth.Tokens.{Draw, Result, created, drawing, expired}
use cabinet_numismatics.Auth.Passwords.{check_password_rules, normalize_username}
use cabinet_numismatics.Auth.Accounts.World.{
  World, commit, Tools, Client, Secrets, actor_of, note, start, remember_browser,
}
use cabinet_numismatics.Auth.Accounts.Changes.{
  Changed, done, refused_rule, too_busy, not_found, already_claimed, not_claimed, admin,
}

abbrev pub claimed : Db → Bool
claimed db = elim db.claim [ none ↦ false | some _ ↦ true ]

-- The account and the claim, in one transaction; a name that is taken breaks the table's rule.
unfoldable pub claim_account : Tools → Secrets → ℕ → String → String → Client → Db → Db
claim_account t s now name password c db =
    let user : User = record {
      id = db.next_id;
      username = name;
      password_hash = some (t.hash_password password);
      role = "admin";
      is_active = true;
      created_at = now;
      last_login_at = some now;
      password_changed_at = some now;
    } in
    let db1 = record db {
      users = db.users ++ user ∷ [];
      claim = some user.id;
      next_id = db.next_id + 1;
    } in
    let (db2, row) = start t s now user c db1 in
    let (db3, browser) = remember_browser t s now user c db2 in
    note now "setup" (actor_of c "session" (some user) none) none [] db3

unfoldable pub name_used : String → List User → Bool
name_used name [] = false
name_used name (u ∷ us) = str_eq u.username name || name_used name us

abbrev pub create_named :
    Tools → Secrets → Bool → ℕ → String → Client → World → Option String → World × Changed
create_named t s hash_slot now password c w none = (w, refused_rule)
create_named t s hash_slot now password c w (some name) =
    if not (check_password_rules password)
    then (w, refused_rule)
    else if claimed w.db
    then (w, already_claimed)
    else if not hash_slot
    then (w, too_busy)
    else if name_used name w.db.users
    then (w, already_claimed)
    else (commit (record w { db = claim_account t s now name password c w.db }), done)

-- `create_admin`
unfoldable pub create_admin :
    Tools → Secrets → Bool → ℕ → String → String → Client → World → World × Changed
create_admin t s hash_slot now username password c w =
    create_named t s hash_slot now password c w (normalize_username username)

abbrev pub token_made :
    ℕ → Audit.Actor → World → Result Tokens.Created → World × Result Tokens.Created
token_made now actor w (created (plain, row, rows)) = (
  commit (record w {
    db =
        note now "token_created" actor (some row.name) ("scope" ∷ "days" ∷ [])
          (record w.db { tokens = rows });
  }),
  created (plain, row, rows),
)
token_made now actor w other = (w, other)

unfoldable pub create_token :
    Tools
    → Draw
    → User
    → Option String
    → String
    → Option ℕ
    → Audit.Actor
    → World
    → World × Result Tokens.Created
create_token t d user name scope days actor w =
    token_made d.at actor w (Tokens.create t.digest d user.id name scope days w.db.tokens)

unfoldable pub token_by_id : ℕ → List ApiToken → Option ApiToken
token_by_id i [] = none
token_by_id i (r ∷ rs) = if r.id == i then some r else token_by_id i rs

unfoldable pub revoke_token : ℕ → User → ℕ → Audit.Actor → World → World × Changed
revoke_token now user id actor w = elim (token_by_id id w.db.tokens) [
  | none ↦ (w, not_found)
  | some row ↦
      if not (row.user_id == user.id) || not (Tokens.is_live row now) then (w, not_found) else (
        commit (record w {
          db =
              note now "token_revoked" actor (some row.name) []
                (record w.db { tokens = Tokens.put (Tokens.revoke now row) w.db.tokens });
        }),
        done,
      )
]

-- The loop of `revoke_tokens` with a name, over the live tokens.
unfoldable pub revoke_named : ℕ → Audit.Actor → String → List ApiToken → Db → Db
revoke_named now actor name [] db = db
revoke_named now actor name (row ∷ rows) db =
    let db' =
      if str_eq row.name name
      then note now "token_revoked" actor (some row.name) []
          (record db { tokens = Tokens.put (Tokens.revoke now row) db.tokens })
      else db in
    revoke_named now actor name rows db'

abbrev pub revoke_tokens_of : ℕ → Audit.Actor → Option String → User → Db → Db
revoke_tokens_of now actor none user db =
    note now "tokens_revoked_all" actor none ("tokens" ∷ [])
      (record db { tokens = (Tokens.revoke_all user.id now db.tokens).0 })
revoke_tokens_of now actor (some name) user db =
    revoke_named now actor name (Tokens.live user.id now db.tokens) db

unfoldable pub revoke_tokens : ℕ → Audit.Actor → Option String → World → World × Changed
revoke_tokens now actor name w = elim (admin w.db) [
  | none ↦ (w, not_claimed)
  | some user ↦ (commit (record w { db = revoke_tokens_of now actor name user w.db }), done)
]

-- `DELETE FROM sessions WHERE …`
abbrev pub dead_session : ℕ → Session → Bool
dead_session at row =
    ltb row.expires_at at
    || ltb (row.last_seen_at + Sessions.idle) at
    || not (Sessions.is_none row.revoked_at)

unfoldable pub prune_sessions : ℕ → List Session → List Session
prune_sessions at [] = []
prune_sessions at (r ∷ rs) =
    let rest = prune_sessions at rs in if dead_session at r then rest else r ∷ rest

unfoldable pub prune_devices : ℕ → List KnownDevice → List KnownDevice
prune_devices at [] = []
prune_devices at (d ∷ ds) =
    let rest = prune_devices at ds in if ltb d.expires_at at then rest else d ∷ rest

abbrev pub long_past : ℕ → Option ℕ → Bool
long_past at none = false
long_past at (some t) = ltb (t + 30 * day) at

unfoldable pub prune_tokens : ℕ → List ApiToken → List ApiToken
prune_tokens at [] = []
prune_tokens at (r ∷ rs) =
    let rest = prune_tokens at rs in
    if long_past at r.revoked_at || long_past at r.expires_at then rest else r ∷ rest

unfoldable pub prune : ℕ → World → World
prune at w = commit (record w {
  db = record w.db {
    sessions = prune_sessions at w.db.sessions;
    devices = prune_devices at w.db.devices;
    browsers = Browsers.prune at w.db.browsers;
    tokens = prune_tokens at w.db.tokens;
    audit = Audit.prune at w.db.audit;
  };
})

live_rows-prune_sessions :
    (i : ℕ) (users : List User) (at now : ℕ) (rows : List Session)
    → at ≤ now
    → Sessions.live_rows i users now (prune_sessions at rows) ≡ Sessions.live_rows i users now rows
unfolding Sessions.live_rows prune_sessions valid
live_rows-prune_sessions i users at now [] le = refl
live_rows-prune_sessions i users at now (r ∷ rs) le =
    ground (arith, live_rows-prune_sessions i users at now rs le)

live_rows-prune_tokens :
    (i at now : ℕ) (rows : List ApiToken)
    → at ≤ now
    → Tokens.live_rows i now (prune_tokens at rows) ≡ Tokens.live_rows i now rows
unfolding Tokens.live_rows prune_tokens expired
live_rows-prune_tokens i at now [] le = refl
live_rows-prune_tokens i at now (r ∷ rs) le = ground (arith, live_rows-prune_tokens i at now rs le)

-- The test of `find` of browsers.py on a row.
abbrev pub usable_browser : ℕ → ℕ → KnownBrowser → Bool
usable_browser user_id at row = row.user_id == user_id && ltb at row.expires_at

keep-prune_devices :
    (i at now : ℕ) (rows : List KnownDevice)
    → at ≤ now
    → keep (Devices.usable i now) (prune_devices at rows) ≡ keep (Devices.usable i now) rows
unfolding keep prune_devices
keep-prune_devices i at now [] le = refl
keep-prune_devices i at now (d ∷ ds) le = ground (arith, keep-prune_devices i at now ds le)

keep-prune_browsers :
    (i at now : ℕ) (rows : List KnownBrowser)
    → at ≤ now
    → keep (usable_browser i now) (Browsers.prune at rows) ≡ keep (usable_browser i now) rows
unfolding keep Browsers.prune
keep-prune_browsers i at now [] le = refl
keep-prune_browsers i at now (b ∷ bs) le = ground (arith, keep-prune_browsers i at now bs le)

-- The hourly clean-up takes nothing of an account's that could still work, then or later: it leaves
-- the live sessions, the live tokens, the known devices that its sign-ins may use and the known
-- browsers that its alerts may find.
pub prune_harmless :
    (i : ℕ) (users : List User) (at now : ℕ) (w : World)
    → at ≤ now
    → (Sessions.live i users now (prune at w).db.sessions ≡ Sessions.live i users now w.db.sessions)
      × (Tokens.live i now (prune at w).db.tokens ≡ Tokens.live i now w.db.tokens)
      × (keep (Devices.usable i now) (prune at w).db.devices
          ≡ keep (Devices.usable i now) w.db.devices)
      × (keep (usable_browser i now) (prune at w).db.browsers
          ≡ keep (usable_browser i now) w.db.browsers)
unfolding prune Sessions.live Tokens.live
prune_harmless i users at now w le = (
  ap (sort_by Sessions.newer) (live_rows-prune_sessions i users at now w.db.sessions le),
  ap (sort_by Tokens.newer) (live_rows-prune_tokens i at now w.db.tokens le),
  keep-prune_devices i at now w.db.devices le,
  keep-prune_browsers i at now w.db.browsers le,
)
