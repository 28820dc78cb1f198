-- ===== src/Release/Planner.antt =====
-- Recovery of a failed planner of eng_platform_api/services/release_executions.py.
pub mod Candidate
pub mod Staging
pub use gcp_engineering_platform.Release.Planner.Candidate.{RetryRequest}
unfoldable pub use gcp_engineering_platform.Release.Planner.Candidate.{
  is_pinned, image_digest, retry_count, attempt_available, planner_failed, planner_retry_candidate,
  replaced_builds, retry_changes, staged_changes,
}
unfoldable pub use gcp_engineering_platform.Release.Planner.Staging.{
  plan_retry, write_retry, staged, stage_from, stage_write, stage_planner_retry, absent_changes,
  absent_write, reconcile_submission_absent,
}
