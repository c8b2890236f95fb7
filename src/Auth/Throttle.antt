-- ===== src/Auth/Throttle.antt =====
-- The sign-in throttles (backend/app/auth/throttle.py), in memory. An operation runs under the
-- module's lock, so it is one step: a function of the state before it, the time read, and the
-- state of the reset flag's file. `Buckets` is the `OrderedDict` of failures, `State` the module's
-- variables, `Ops` its functions; the other modules hold the proofs.
pub mod Buckets
pub mod State
pub mod Ops
pub mod Queue
pub mod Curve
pub mod Views
pub mod Bounds
pub mod History
pub mod Attempts
pub mod Reopening
pub mod Counting
pub mod Burst
pub mod Isolation
pub mod Window
pub mod Examples
