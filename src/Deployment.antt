-- ===== src/Deployment.antt =====
-- Deployment executions: eng_platform_api/services/deployment_executions.py.
pub mod Executions
pub mod Ops
pub mod Locked
pub mod Once
pub mod Events
pub mod Reserved
