-- ===== src/Auth/Gate.antt =====
-- Layer 1 of the gate (backend/app/auth/gate.py).
pub mod Requests
pub mod Csrf
pub mod Lookup
pub mod Calls
pub mod Denial
pub mod Examples
