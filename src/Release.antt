-- ===== src/Release.antt =====
-- Release executions: eng_platform_api/services/release_executions.py.
pub mod Status
pub mod Validate
pub mod Admission
pub mod Reserve
pub mod Claims
pub mod Tokens
pub mod Planner
pub mod Bootstrap
pub mod Ops
pub mod Spares
pub mod Silent
pub mod Evolution
pub mod Identity
pub mod Settled
pub mod Dispatch
pub mod Exclusive
pub mod Binding
pub mod Events
