-- ===== src/Lib.antt =====
-- Cabinet (the backend of a coin and banknote catalogue, in Python under backend/app): the sign-in
-- system with the first set-up, and, of the services behind the item pages, the patterns of serial
-- numbers, the alerts, the stored settings, the sharing switch, the trash, maintenance, and a
-- restore with the exchange of its files. A request passes the gate (backend/app/auth/gate.py),
-- which finds its credential: an API token (tokens.py) or the session (sessions.py) of its cookie.
-- The gate decides whether the request goes on and with which principal; layer 2 (permissions.py)
-- compares that with what the route declares. A sign-in is slowed down by the throttles
-- (throttle.py), which a known device (devices.py) may pass for a few attempts; browsers.py
-- remembers browsers for an alert. The account's operations (accounts.py) compose all of these, and
-- write to the audit log (audit.py).
--
-- Which file models what:
--   Prelude                 shared names, Boolean tests, lists, integers, sorting, text, splitting,
--                           dictionaries, filters
--   Auth.Throttle           backend/app/auth/throttle.py
--     Buckets               the OrderedDict of failure counts: get, push, erase, evict
--     State                 the constants, the module's variables, _live, _wait, _apply_reset_flag
--     Ops                   attempt, check_global, check, fail, succeed, share_failure, oidc_failure
--     Curve, Views, Bounds, History, Attempts, Reopening, Counting, Burst, Isolation, Window
--                           proofs
--   Auth.Common             backend/app/auth/common.py
--   Auth.Rows               the rows of backend/app/models/auth.py, and the database as their lists
--   Auth.Sessions           backend/app/auth/sessions.py; proofs in Validity and Revocation
--   Auth.Devices            backend/app/auth/devices.py; proofs in Slots
--   Auth.Browsers           backend/app/auth/browsers.py
--   Auth.Tokens             backend/app/auth/tokens.py; Credentials reads and authenticates a
--                           token; proofs in Limits, Drawing and RoundTrip
--   Auth.Permissions        backend/app/auth/permissions.py
--   Auth.Gate               backend/app/auth/gate.py: Requests (what is read of a request), Csrf
--                           (csrf_allows), Lookup (_lookup), Calls (__call__); proofs in Denial
--   Auth.Audit              backend/app/auth/audit.py; proofs in Caps and Evidence
--   Auth.Passwords          backend/app/auth/passwords.py
--   Auth.Accounts           backend/app/auth/accounts.py: World (the database with its last commit),
--                           Checking (_check_password), SignIn, Changes, Upkeep, External
--                           (start_external, unlink_identity); proofs in Access, Guesses,
--                           Endings, and at the end of Upkeep and External
--   Services.Serials        backend/app/services/serials.py, the patterns of serial numbers; the
--                           proof is in Stored
--   Auth.Setup              backend/app/auth/setup.py, supplied_setup_code of backend/app/config.py
--                           and auth_setup and auth_state of backend/app/routers/auth.py; proofs in
--                           Lifecycle and Claiming
--   Services.Alerts         backend/app/services/alerts.py; the proof is in Machine
--   Services.Sharing        the switch of backend/app/services/share.py: Tasks (loads and settings
--                           changes side by side); proofs in Safety and Races
--   Services.Trash          backend/app/services/trash.py; proofs in Documents, Retention, Recovery
--   Services.Swap           _Swap of backend/app/services/restore.py; proofs in Moves, Cuts,
--                           Forward, Undoing and Gaps
--   Services.Maintenance    backend/app/services/maintenance.py with start and _run of restore.py;
--                           proofs in Draining and Gaps
--   Services.Restore        the events of _run and recover of backend/app/services/restore.py; proofs
--                           in Stages, Exchange, Database and Recovery
--   Services.Settings       backend/app/services/app_settings.py, with the encryption of
--                           backend/app/services/crypto.py; the proof is in Secrets
-- The modules named Examples hold runs on concrete data.
--
-- How state is modelled: a function that changes state takes it and gives the new one, with what
-- the caller gets; an exception is a value of the result. A table is the list of its rows, and an
-- UPDATE or DELETE a function on that list; the audit log has its newest row first. An operation
-- that raises after a write leaves the database as it was last committed. Times are natural
-- numbers: nanoseconds of the monotonic clock in the throttles, microseconds elsewhere. A
-- transaction is one step; interleavings of throttle calls, which the code runs under one lock, are
-- the lists of calls in History.
--
-- Parameters: SHA-256, Python's ipaddress, the parser of origins with the configured ones, the
-- grant of a running restore, Argon2, Fernet, str.lower, the value of the sharing switch at the
-- gate, str.upper, the clock, and the random ids and secrets. Loops are recursion on lists, with no
-- fuel; the draw of a public id that is free is recursion on the ids drawn, and gives `drawing`
-- where all of them are taken.
--
-- A restore is a list of events, and the exchange of its files a list of file operations, each of
-- which happens or does not; steps of loads and settings changes on the sharing switch come in any
-- order. The first set-up asks for a code, which the set-up route compares before it calls
-- create_admin of the account operations.
--
-- An account operation reads the clock of the database's times once.
--
-- Not modelled: the delivery of alerts, the lines of the audit log on stdout, the table of
-- providers, cookies as response headers, the default Cache-Control header, the file of the reset
-- flag (only its modification time), SQL and network I/O, and the parts of the backend outside the
-- files above.
pub mod Prelude
pub mod Auth
pub mod Services
