-- ===== src/LogBudget.antt =====
-- The budget of log reads: src/eng_platform_api/services/log_budget.py.
pub mod Record
pub mod Permits
pub mod Swap
pub mod Atomic
pub mod Valid
pub mod Queue
pub mod Invariant
pub mod Writes
pub mod Turn
pub mod History
pub mod Grants
pub mod Pending
