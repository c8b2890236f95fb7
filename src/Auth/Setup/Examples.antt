-- ===== src/Auth/Setup/Examples.antt =====
-- The set-up on a concrete start (backend/app/auth/setup.py).
use cabinet_numismatics.Auth.Setup.{check_setup_code, count_char, most_common, normalize_setup_code}
use cabinet_numismatics.Prelude.Text.{is_space, text_length}
use text.Mathlib.Text.{◌==◌ as str_eq}
use cabinet_numismatics.Prelude.{◌≡◌, refl, String, Bool, true, false, Option, none, some, []}
use cabinet_numismatics.Auth.Rows.{Db}
use cabinet_numismatics.Auth.Throttle.State.{Moment, Address, empty}
use cabinet_numismatics.Auth.Passwords.{check_password_rules, normalize_username, is_username_char}
use cabinet_numismatics.Prelude.Text.{text_length, is_space, all_class}
use cabinet_numismatics.Auth.Accounts.World.{World, Tools, Client}
use cabinet_numismatics.Auth.Accounts.Upkeep.{claimed, create_admin, name_used}
use cabinet_numismatics.Auth.Setup.{
  Outside, Setup, Request, check, ensure_prepared, reset_memory, prepare, auth_setup, auth_state,
  mark_claimed, supplied_setup_code, given, check_setup_code, normalize_setup_code, most_common,
  count_char,
}
use cabinet_numismatics.Auth.Setup.Lifecycle.{System, Run, Runs, Steps}
use cabinet_numismatics.Auth.Setup.Claiming.{is_created, auth_setup_once, auth_setup_sound}

abbrev same_text : String → String
same_text s = s

abbrev never : String → Bool
never s = false

abbrev unparsed : String → Option Address
unparsed s = none

abbrev tools : Tools
tools = record {
  digest = same_text;
  argon = str_eq;
  hash_password = same_text;
  needs_rehash = never;
  lower = same_text;
  ip_address = unparsed;
}

abbrev db : Db
db = record {
  users = [];
  claim = none;
  sessions = [];
  tokens = [];
  devices = [];
  browsers = [];
  identities = [];
  audit = [];
  next_id = 1;
}

abbrev world : World
world = record { db = db; committed = db; throttle = empty }

abbrev operator_code : String
operator_code = "abcd-efgh-ijkl-mnop-qrst-uvwx-yz01-2345"

abbrev outside : Outside
outside = record {
  writable = true;
  random = "AAAABBBB";
  config = record { setup_code_file = none; setup_code = some operator_code };
}

abbrev fresh : Setup
fresh = record { code = none; generated = false; prepared = false; marker = false }

abbrev here_client : Client
here_client = record { address = some "a"; user_agent = none; device = none; browser = none }

abbrev soon : Moment
soon = record { flag = none; at = 10 }

abbrev first_request : Request
first_request = record {
  typed = "abcdefgh ijklmnop qrstuvwx yz012345";
  username = "Alice";
  password = "correct horse";
  client = here_client;
  secrets = record { session = "s"; device = "d"; browser = "b" };
  outside = outside;
  wait_at = soon;
  fail_at = 10;
  now = 500;
  hash_slot = true;
  mark_writable = true;
}

abbrev start : System
start = record { world = world; memory = fresh }

supplied_code : supplied_setup_code outside.config ≡ given operator_code
unfolding supplied_setup_code check_setup_code text_length normalize_setup_code is_space most_common
    count_char
supplied_code = refl

-- The operator's code, typed with other spaces, sets Cabinet up.
set_up : is_created same_text tools (auth_setup same_text tools first_request world fresh).1 ≡ true
unfolding auth_setup ensure_prepared prepare supplied_setup_code check_setup_code text_length
    normalize_setup_code is_space most_common count_char check create_admin normalize_username
    all_class is_username_char check_password_rules name_used mark_claimed
set_up = refl

abbrev set_up_system : System
set_up_system = record {
  world = (auth_setup same_text tools first_request world fresh).0.0;
  memory = (auth_setup same_text tools first_request world fresh).0.1;
}

-- The database loses everything, the state of the sign-in is asked for, and the same request comes
-- again.
abbrev asked_memory : Setup
asked_memory = (auth_state outside world set_up_system.memory).0

abbrev replay : Runs same_text tools set_up_system (record {
  world = (auth_setup same_text tools first_request world asked_memory).0.0;
  memory = (auth_setup same_text tools first_request world asked_memory).0.1;
})
replay =
    Runs.next (Run.replaced world)
      (Runs.next (Run.state_read outside) (Runs.next (Run.request first_request) Runs.here))

auth_setup_once_example :
    check same_text operator_code (auth_setup same_text tools first_request world asked_memory).0.1
    ≡ false
auth_setup_once_example =
    auth_setup_once same_text tools first_request start operator_code set_up replay

auth_setup_sound_example :
    (claimed world.db ≡ false)
    × (check same_text first_request.typed (ensure_prepared false outside fresh).0 ≡ true)
    × (check_password_rules first_request.password ≡ true)
    × (claimed (auth_setup same_text tools first_request world fresh).0.0.db ≡ true)
    × ((auth_setup same_text tools first_request world fresh).0.1.code ≡ none)
auth_setup_sound_example = auth_setup_sound same_text tools first_request world fresh set_up

-- The marker is there, and the sign-in tables are lost.
abbrev lost : System
lost = record { world = world; memory = record fresh { marker = true } }

abbrev lost_restarted : System
lost_restarted = record {
  world = record world { throttle = empty };
  memory = (prepare true (claimed world.db) outside (reset_memory lost.memory)).0;
}

abbrev asked : Outside
asked = record outside { random = "CCCCDDDD" }

abbrev lost_asked : System
lost_asked = record lost_restarted {
  memory = (auth_state asked lost_restarted.world lost_restarted.memory).0;
}

-- The backend starts again, and the state of the sign-in is asked for.
abbrev start_again : Steps same_text tools lost lost_asked
start_again = Steps.restart outside (Steps.run (Run.state_read asked) Steps.still)
