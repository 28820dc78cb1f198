-- ===== src/Release/Bootstrap.antt =====
-- The one-time quality bootstrap of eng_platform_api/services/release_executions.py.
pub mod Reservation
pub mod Attempt
pub use gcp_engineering_platform.Release.Bootstrap.Reservation.{
  required_fields, ticket_fields, attempt_traces, fresh_fields,
}
unfoldable pub use gcp_engineering_platform.Release.Bootstrap.Reservation.{
  get_bootstrap_ticket, contains_all, is_dict, binding_matches, check_binding, any_truthy,
  bootstrap_changes, check_fresh, validate_reservation, ticket_document, ticket_execution,
  reserve_outcome, reserve_quality_bootstrap,
}
pub use gcp_engineering_platform.Release.Bootstrap.Attempt.{allowed_updates}
unfoldable pub use gcp_engineering_platform.Release.Bootstrap.Attempt.{
  keys_within, unset_or, is_true, build_verified, bootstrap_update_change, update_checked,
  update_quality_bootstrap, bound_token_hash, dispatch_change, dispatch_checked,
  claim_quality_bootstrap_dispatch,
}
