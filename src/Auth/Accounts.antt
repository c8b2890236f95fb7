-- ===== src/Auth/Accounts.antt =====
-- The account's operations (backend/app/auth/accounts.py).
pub mod World
pub mod Checking
pub mod SignIn
pub mod Access
pub mod Guesses
pub mod Changes
pub mod Endings
pub mod Upkeep
pub mod External
pub mod Examples
