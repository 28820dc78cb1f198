-- ===== src/Tests.antt =====
-- The theorems at concrete documents, and runs of the operations on them.
pub mod Release
pub mod Deployment
pub mod Circuit
pub mod LogBudget
pub mod DatabaseSort
