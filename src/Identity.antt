-- ===== src/Identity.antt =====
-- identity/ and the tables behind it: who a caller is, and how long a session says so.
pub mod Clock
pub mod Sessions
pub mod Store
pub mod SessionService
