-- ===== src/Circuit.antt =====
-- Executor circuits: eng_platform_api/services/executor_circuits.py.
pub mod State
pub mod Probe
pub mod Recovery
pub mod Ops
pub mod Unproven
pub mod Requests
pub mod Replay
pub mod Alerts
