-- ===== src/Recovery/Records.antt =====
-- The signed records of the recovery stores (app/security.py).
pub mod Claims
pub mod Actions
pub mod Calls
