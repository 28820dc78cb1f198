-- ===== src/Python.antt =====
-- Python's data as the services store it.
pub mod Value
pub mod Dict
pub mod Raise
pub mod Store
