-- ===== src/Tests/Release.antt =====
-- Release executions on a small collection.
use gcp_engineering_platform.Base.{String, true, false, List, [], ◌∷◌, none, ◌≡◌, ◌≢◌, refl, arith}
use gcp_engineering_platform.Python.Value.{num, str, dict, Fields, empty, entry, find, value_eq}
use gcp_engineering_platform.Python.Dict.{
  get_or, contains, put, update, contains_any, any_key_starts_with,
}
use gcp_engineering_platform.Python.Raise.{Env, ok, to_str, to_int, require_new_builds}
use gcp_engineering_platform.Python.Store.{Store, lookup, insert, commit}
use gcp_engineering_platform.Python.Store.Lift.{Holds}
use gcp_engineering_platform.Release.Status.{
  transitions, in_texts, status_text, validate_status_change,
}
use gcp_engineering_platform.Release.Validate.{
  bootstrap_ticket, identity_fields, require_bootstrap_storage, is_locked, any_changed,
  validate_changes, require_storage_for,
}
use gcp_engineering_platform.Release.Admission.{save, accept_event}
use gcp_engineering_platform.Release.Reserve.{any_differs}
use gcp_engineering_platform.Release.Claims.{claim_submission, claim_publish, bind_build, build_of}
use gcp_engineering_platform.Release.Bootstrap.{
  check_binding, check_fresh, any_truthy, bootstrap_changes, reserve_quality_bootstrap,
  claim_quality_bootstrap_dispatch,
}
use gcp_engineering_platform.Release.Ops.{
  Op, op_save, op_accept_event, op_claim_publish, op_claim_submission, op_bind_build, all_ops,
  apply_all, apply_op,
}
use gcp_engineering_platform.Release.Spares.{SameOn}
use gcp_engineering_platform.Release.Identity.{identity_immutable}
use gcp_engineering_platform.Release.Settled.{settled}
use gcp_engineering_platform.Release.Settled.History.{settled_forever}
use gcp_engineering_platform.Release.Dispatch.Once.{dispatch_once}
use gcp_engineering_platform.Release.Dispatch.Ticket.{ticket_once}
use gcp_engineering_platform.Release.Exclusive.{claim_submission_exclusive, claim_publish_exclusive}
use gcp_engineering_platform.Release.Binding.Kept.{carries_no_build}
use gcp_engineering_platform.Release.Binding.{bind_build_single}
use gcp_engineering_platform.Release.Events.Sequence.{carries_no_sequence}
use gcp_engineering_platform.Release.Events.{accept_event_ordered}

-- A process in mock mode, with texts standing for their own digests.
abbrev pub process : Env
process = record {
  now = "2026-01-01T00:00:00+00:00";
  mock_mode = true;
  orchestrator_enabled = true;
  execution_collection = "releases";
  deployment_collection = "deployments";
  circuit_collection = "circuits";
  cloud_build_enabled = true;
  new_builds_enabled = true;
  repr = λ v. "";
  parse_int = λ s. none;
  is_digit = λ s. true;
  lower = λ s. s;
  digest = λ s. s;
  strip = λ s. s;
  dumps = λ v. "{}";
  dumps_compact = λ v. "[]";
}

abbrev planned : Fields
planned = entry "execution_id" (str "e1") (
    entry "repository" (str "acme/api") (
      entry "operation" (str "main_release") (
        entry "provider" (str "cloud_build")
          (entry "status" (str "release_planned") (entry "event_sequence" (num 2) empty)))))

abbrev released : Fields
released = entry "execution_id" (str "e2") (entry "status" (str "released") empty)

abbrev pending : Fields
pending =
    entry "execution_id" (str "e3")
      (entry "provider" (str "cloud_build") (entry "status" (str "submission_pending") empty))

abbrev executions : Store
executions = ("e1", planned) ∷ ("e2", released) ∷ ("e3", pending) ∷ []

abbrev history : List (Env × Op)
history =
    (process, op_claim_publish "e1")
    ∷ (process, op_save "e2" (entry "status" (str "failed") empty))
    ∷ (process, op_claim_submission "e3")
    ∷ []

identity_immutable_example :
    (d : Fields) × Holds "e1" (apply_all history executions) d × SameOn identity_fields planned d
unfolding lookup
identity_immutable_example = identity_immutable history executions "e1" planned (refl, refl)

settled_forever_example :
    (d : Fields) × Holds "e2" (apply_all history executions) d × (settled d ≡ true)
unfolding lookup settled contains get_or find in_texts value_eq
settled_forever_example = settled_forever history executions "e2" released (refl, refl) refl

claim_submission_exclusive_example :
    (claim_submission process "e3" (claim_submission process "e3" executions).1).0 ≡ ok false
unfolding claim_submission lookup get_or find in_texts value_eq
claim_submission_exclusive_example = claim_submission_exclusive process process "e3" executions refl

claim_publish_exclusive_example :
    (claim_publish process "e1" (claim_publish process "e1" executions).1).0 ≡ ok false
unfolding claim_publish lookup get_or find value_eq
claim_publish_exclusive_example = claim_publish_exclusive process process "e1" executions refl

-- The document after a binding.
abbrev bound_pending : Fields
bound_pending = entry "execution_id" (str "e3") (
    entry "provider" (str "cloud_build") (
      entry "status" (str "submission_pending") (
        entry "updated_at" (str "2026-01-01T00:00:00+00:00")
          (entry "provider_run_id" (str "b1") (entry "build_id" (str "b1") empty)))))

abbrev calls_of_build : List (Env × Op)
calls_of_build =
    (process, op_claim_submission "e3")
    ∷ (process, op_save "e3" (entry "logs_url" (str "l") empty))
    ∷ (process, op_bind_build "e3" "b2" empty)
    ∷ []

-- The same with the written `logs_url`.
abbrev logged_pending : Fields
logged_pending = entry "execution_id" (str "e3") (
    entry "provider" (str "cloud_build") (
      entry "status" (str "submission_pending") (
        entry "updated_at" (str "2026-01-01T00:00:00+00:00") (
          entry "provider_run_id" (str "b1")
            (entry "build_id" (str "b1") (entry "logs_url" (str "l") empty))))))

bind_build_single_example : ◌≡◌ {A = String} "b1" "b1"
unfolding bind_build lookup get_or find value_eq contains_any contains build_of to_str
    validate_status_change in_texts transitions status_text put update commit insert all_ops
    carries_no_build apply_all apply_op claim_submission save validate_changes is_locked any_changed
    any_key_starts_with require_storage_for
bind_build_single_example =
    bind_build_single process process "e3" "b1" "b1" empty empty calls_of_build executions
      bound_pending logged_pending refl refl refl refl

abbrev calls_between : List (Env × Op)
calls_between =
    (process, op_accept_event "e1" 7 "" "" "" empty)
    ∷ (process, op_save "e1" (entry "logs_url" (str "l") empty))
    ∷ (process, op_claim_submission "e1")
    ∷ []

accept_event_ordered_example :
    (accept_event process "e1" 5 "" "" "" empty
      (apply_all calls_between (accept_event process "e1" 5 "" "" "" empty executions).1)).0
    ≢ ok (planned, true)
unfolding accept_event lookup get_or find value_eq validate_changes validate_status_change
    contains_any contains any_key_starts_with is_locked any_changed put update commit insert to_int
    all_ops carries_no_sequence
accept_event_ordered_example =
    accept_event_ordered process process "e1" 5 5 "" "" "" "" "" "" empty empty calls_between
      executions
      (update planned
        (put "updated_at" (str "2026-01-01T00:00:00+00:00") (put "event_sequence" (num 5) empty)))
      planned refl refl (omega arith)

abbrev digest64 : String
digest64 = "0123456789abcdef0123456789abcdef0123456789abcdef0123456789abcdef"

abbrev base : String
base = "3c807a789ba78eea95068a3cc0a7a6e537b0bae9"

abbrev binding : Fields
binding = entry "requested_by" (str "operator") (
    entry "idempotency_key" (str digest64) (
      entry "repository" (str "diegomad14/cgm-artemis-api") (
        entry "repository_id" (num 1306114845) (
          entry "service_name" (str "cgm-artemis-api") (
            entry "pull_request_number" (num 172) (
              entry "head_sha" (str "h") (
                entry "base_sha" (str base) (
                  entry "fingerprint" (str "q1") (
                    entry "profile_hash" (str "p") (
                      entry "executor_digest" (str "x") (
                        entry "policy_hash" (str "y") (
                          entry "build_request" (dict empty) (
                            entry "build_request_hash" (str "{}") (
                              entry "nonce" (str "n") (
                                entry "authorization_policy" (str bootstrap_ticket) (
                                  entry "max_compute_usd" (str "0.36") (
                                    entry "timeout_seconds" (num 3600) (
                                      entry "dispatch_token_hash" (str digest64)
                                        empty))))))))))))))))))

abbrev fresh : Fields
fresh = entry "execution_id" (str "q1") (
    entry "status" (str "waiting_github") (
      entry "provider" (str "github_actions") (
        entry "operation" (str "pr_quality") (
          entry "pull_request_number" (num 172) (
            entry "repository" (str "diegomad14/cgm-artemis-api") (
              entry "service_name" (str "cgm-artemis-api") (
                entry "head_sha" (str "h") (
                  entry "base_sha" (str base) (
                    entry "fingerprint" (str "q1") (
                      entry "profile_hash" (str "p") (
                        entry "executor_digest" (str "x")
                          (entry "policy_hash" (str "y") empty))))))))))))

abbrev quality : Store
quality = ("q1", fresh) ∷ []

-- The reserved execution, as the call returns it.
reserved : Fields
reserved = update fresh (bootstrap_changes process binding)

reservation_runs : (reserve_quality_bootstrap process "q1" binding quality).0 ≡ ok (reserved, true)
unfolding reserved reserve_quality_bootstrap lookup check_binding get_or find value_eq to_str
    require_new_builds require_bootstrap_storage contains check_fresh is_locked any_differs
    any_truthy bootstrap_changes
reservation_runs = refl

ticket_once_example :
    (reserve_quality_bootstrap process "q2" binding
      (apply_all [] (reserve_quality_bootstrap process "q1" binding quality).1)).0
    ≢ ok (reserved, true)
ticket_once_example =
    ticket_once process process "q1" "q2" binding binding [] quality reserved reserved
      reservation_runs

dispatch_runs :
    (claim_quality_bootstrap_dispatch process "q1" "n" digest64 (("q1", reserved) ∷ [])).0 ≡ ok true
unfolding reserved claim_quality_bootstrap_dispatch require_bootstrap_storage require_storage_for
    lookup get_or find value_eq update put bootstrap_changes
dispatch_runs = refl

dispatch_once_example :
    (claim_quality_bootstrap_dispatch process "q1" "n" digest64 (
      apply_all
        ((process, op_save "q1" (entry "status" (str "unknown") empty)) ∷ [])
        (claim_quality_bootstrap_dispatch process "q1" "n" digest64 (("q1", reserved) ∷ [])).1)).0
    ≢ ok true
dispatch_once_example =
    dispatch_once process process "q1" "n" "n" digest64 digest64
      ((process, op_save "q1" (entry "status" (str "unknown") empty)) ∷ []) (("q1", reserved) ∷ [])
      dispatch_runs
