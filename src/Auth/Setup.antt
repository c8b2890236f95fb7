-- ===== src/Auth/Setup.antt =====
-- The setup code and the claimed marker (backend/app/auth/setup.py), the code that the operator
-- supplies (supplied_setup_code of backend/app/config.py), the set-up route (auth_setup of
-- backend/app/routers/auth.py), and what the route of the sign-in state (auth_state there) does to
-- the code.
pub mod Lifecycle
pub mod Claiming
pub mod Examples
use text.Mathlib.Text.{◌==◌ as str_eq}
use Prim.Native.Char.{Char, code}
use cabinet_numismatics.Prelude.{
  ℕ, ◌+◌, ◌*◌, max, String, Bool, true, false, not, ◌&&◌, ◌||◌, Option, none, some, leb, ltb, ◌==◌,
  if◌then◌else◌, [], ◌∷◌,
}
use cabinet_numismatics.Prelude.Text.{text_length, is_space, strip}
use cabinet_numismatics.Auth.Throttle.Buckets.{Kind}
use cabinet_numismatics.Auth.Throttle.State.{Throttle, Moment}
use cabinet_numismatics.Auth.Throttle.Ops
use cabinet_numismatics.Auth.Accounts.World.{
  World, commit, Tools, Client, Secrets, actor_of, address_of, note,
}
use cabinet_numismatics.Auth.Accounts.Changes.{
  Changed, done, refused_rule, wrong, too_many, too_busy, not_found, not_claimed, already_claimed,
}
use cabinet_numismatics.Auth.Accounts.Upkeep.{claimed, create_admin}

abbrev pub setup_code_min : ℕ
setup_code_min = 32

-- `re.sub(r"[\s-]", "", code)`
unfoldable pub normalize_setup_code : String → String
normalize_setup_code String.[] = ""
normalize_setup_code (String.◌∷◌ c s) =
    let rest = normalize_setup_code s in
    if is_space (code c) || code c == b'-' then rest else String.◌∷◌ c rest

unfoldable pub count_char : ℕ → String → ℕ
count_char k String.[] = 0
count_char k (String.◌∷◌ c s) = (if code c == k then 1 else 0) + count_char k s

-- How often the most frequent character of the first text stands in the second.
unfoldable pub most_common : String → String → ℕ
most_common String.[] whole = 0
most_common (String.◌∷◌ c s) whole = max (count_char (code c) whole) (most_common s whole)

-- `_check_setup_code`, whether it returns
unfoldable pub check_setup_code : String → Bool
check_setup_code text =
    let compact = normalize_setup_code text in
    if ltb (text_length compact) setup_code_min
    then false
    else not (ltb (text_length compact) (most_common compact compact * 4))

-- The two settings; an empty one is none, and a file that cannot be read gives none.
pub record Config : Type 0 where
  pub setup_code_file : Option (Option String)
  pub setup_code : Option String

pub data Supplied : Type 0 where
  nothing : Supplied
  given : String → Supplied
  config_error : Supplied

abbrev pub checked : String → Supplied
checked text = if check_setup_code text then given text else config_error

unfoldable pub supplied_setup_code : Config → Supplied
supplied_setup_code config = elim config.setup_code_file [
  | some none ↦ config_error
  | some (some text) ↦ checked (strip text)
  | none ↦ elim config.setup_code [ none ↦ nothing | some text ↦ checked text ]
]

-- The variables of the module, and whether the marker file is there.
pub record Setup : Type 0 where
  pub code : Option String
  pub generated : Bool
  pub prepared : Bool
  pub marker : Bool

unfoldable pub reset_memory : Setup → Setup
reset_memory s = record s { code = none; generated = false; prepared = false }

-- What a call reads from outside: whether the marker can be written, the next random code, and the
-- settings.
pub record Outside : Type 0 where
  pub writable : Bool
  pub random : String
  pub config : Config

pub data Prepared : Type 0 where
  ready write_error bad_config : Prepared

abbrev pub decide : Outside → Setup → Supplied → Setup × Prepared
decide o s nothing = (record s { code = some o.random; generated = true; prepared = true }, ready)
decide o s (given text) = (
  record s { code = some (normalize_setup_code text); generated = false; prepared = true },
  ready,
)
decide o s config_error = (s, bad_config)

-- `prepare`; `is_claimed` is `accounts.claimed(db)`
unfoldable pub prepare : Bool → Bool → Outside → Setup → Setup × Prepared
prepare force is_claimed o s =
    if s.prepared && not force
    then (s, ready)
    else if is_claimed
    then if not s.marker && not o.writable
      then (s, write_error)
      else (record { code = none; generated = false; prepared = true; marker = true }, ready)
    else decide o s (if s.marker then nothing else supplied_setup_code o.config)

unfoldable pub ensure_prepared : Bool → Outside → Setup → Setup × Prepared
ensure_prepared is_claimed o s = if s.prepared then (s, ready) else prepare false is_claimed o s

-- `check`; `upper` is Python's `str.upper`
abbrev pub compared : (String → String) → Setup → String → String
compared upper s typed =
    if s.generated then upper (normalize_setup_code typed) else normalize_setup_code typed

unfoldable pub check : (String → String) → String → Setup → Bool
check upper typed s = elim s.code [
  | none ↦ false
  | some expected ↦ str_eq (compared upper s typed) expected
]

-- `claimed`, where `writable` is whether the marker can be written
unfoldable pub mark_claimed : Bool → Setup → Setup
mark_claimed writable s = record s { code = none; generated = false; marker = s.marker || writable }

-- `auth_state`, what it does to the memory, and whether it answers; the answer itself is left out.
unfoldable pub auth_state : Outside → World → Setup → Setup × Prepared
auth_state o w s = ensure_prepared (claimed w.db) o s

-- What a request for the set-up brings and reads.
pub record Request : Type 0 where
  pub typed : String
  pub username : String
  pub password : String
  pub client : Client
  pub secrets : Secrets
  pub outside : Outside
  pub wait_at : Moment
  pub fail_at : ℕ
  pub now : ℕ
  pub hash_slot : Bool
  pub mark_writable : Bool

pub data Response : Type 0 where
  created : Response
  taken : Response
  wrong_code : Response
  refused : Response
  slowed : ℕ → Response
  busy : Response
  server_error : Response

-- A code that is not the one in memory.
abbrev pub count_wrong : Tools → Request → Setup → World × ℕ → (World × Setup) × Response
count_wrong t r s (w, wait) = if ltb 0 wait then ((w, s), slowed wait) else (
  (
    commit (record w {
      throttle = Ops.fail t.ip_address Kind.setup (address_of r.client) r.fail_at w.throttle;
      db = note r.now "setup_failed" (actor_of r.client "anonymous" none none) none [] w.db;
    }),
    s,
  ),
  wrong_code,
)

abbrev pub wait_for : Tools → Request → World → World × ℕ
wait_for t r w =
    let (s, wait) = Ops.wait t.ip_address Kind.setup (address_of r.client) r.wait_at w.throttle in
    (record w { throttle = s }, wait)

-- What the route makes of the end of `create_admin`, which never ends in the last line's ways.
abbrev pub answer : Request → Setup → World × Changed → (World × Setup) × Response
answer r s (w, done) = ((w, mark_claimed r.mark_writable s), created)
answer r s (w, refused_rule) = ((w, s), refused)
answer r s (w, already_claimed) = ((w, s), taken)
answer r s (w, too_busy) = ((w, s), busy)
answer r s (w, _) = ((w, s), server_error)

abbrev pub with_code : Tools → Request → Bool → World → Setup → (World × Setup) × Response
with_code t r true w s =
    answer r s (create_admin t r.secrets r.hash_slot r.now r.username r.password r.client w)
with_code t r false w s = count_wrong t r s (wait_for t r w)

abbrev pub once_prepared :
    (String → String) → Tools → Request → World → Setup × Prepared → (World × Setup) × Response
once_prepared upper t r w (s, ready) = with_code t r (check upper r.typed s) w s
once_prepared upper t r w (s, _) = ((w, s), server_error)

-- `auth_setup`, the work of the request
unfoldable pub auth_setup :
    (String → String) → Tools → Request → World → Setup → (World × Setup) × Response
auth_setup upper t r w s =
    if claimed w.db
    then ((w, s), taken)
    else once_prepared upper t r w (ensure_prepared (claimed w.db) r.outside s)
