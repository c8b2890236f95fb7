-- ===== src/Auth.antt =====
-- Sign-in, sessions and tokens (backend/app/auth): the throttles, the rows that the account's
-- credentials are, the operations on each, the account end to end, and the two layers of the gate.
pub mod Throttle
pub mod Common
pub mod Rows
pub mod Sessions
pub mod Devices
pub mod Browsers
pub mod Tokens
pub mod Permissions
pub mod Gate
pub mod Audit
pub mod Passwords
pub mod Accounts
pub mod Setup
