-- ===== src/Tests/Deployment.antt =====
-- Deployment executions on a small collection.
use gcp_engineering_platform.Base.{true, false, List, [], ◌∷◌, ◌≡◌, ◌≢◌, refl, arith}
use gcp_engineering_platform.Python.Value.{
  null, bool, num, str, dict, Fields, empty, entry, find, value_eq,
}
use gcp_engineering_platform.Python.Dict.{get, get_or, contains, put, update}
use gcp_engineering_platform.Python.Raise.{Env, ok, to_int}
use gcp_engineering_platform.Python.Store.{Store, lookup, insert, commit}
use gcp_engineering_platform.Python.Store.Lift.{Holds}
use gcp_engineering_platform.Release.Status.{in_texts}
use gcp_engineering_platform.Release.Validate.{is_locked}
use gcp_engineering_platform.Deployment.Executions.{
  Intent, reserve, accept_event, claim_submission, eligible, claim_github_dispatch,
}
use gcp_engineering_platform.Deployment.Ops.{
  Call, call_reserve, call_save, call_accept_event, call_transition_provider, call_claim_submission,
  call_claim_github_dispatch, run_all, all_calls,
}
use gcp_engineering_platform.Deployment.Locked.{event_spares_provider, provider_locked}
use gcp_engineering_platform.Deployment.Once.{records_no_outcome, dispatch_not_retried}
use gcp_engineering_platform.Deployment.Events.{
  saves_no_sequence, newer_events_only, submission_claimed_once,
}
use gcp_engineering_platform.Deployment.Reserved.{Preserved, reserve_never_overwrites}
use gcp_engineering_platform.Tests.Release.{process}

abbrev locked : Fields
locked = entry "provider" (str "github_actions") (
    entry "provider_selection" (dict (entry "locked" (bool true) empty)) (
      entry "fingerprint" (str "f1")
        (entry "status" (str "SUBMISSION_PENDING") (entry "event_sequence" (num 2) empty))))

abbrev deployments : Store
deployments = ("d1", locked) ∷ []

abbrev second_intent : Intent
second_intent = record {
  deployment_id = "d1";
  provider = "cloud_build";
  fingerprint = "f1";
  service_name = "api";
  repository = "acme/api";
  sha = "abc";
  tag = "v1";
  kind = "deploy";
  reason = "";
  authorization_jti = "";
  provider_selection = null;
  github_execution_config = "runner-a";
}

abbrev history : List (Env × Call)
history =
    (process, call_reserve second_intent)
    ∷ (process, call_transition_provider "d1" "github_actions" "cloud_build" "fallback")
    ∷ (process, call_save "d1" (entry "provider" (str "cloud_build") empty))
    ∷ (process, call_claim_submission "d1")
    ∷ (process, call_accept_event "d1" 3 (entry "tag" (str "v2") empty))
    ∷ (process, call_claim_github_dispatch "d1")
    ∷ []

provider_locked_example :
    (d : Fields) × Holds "d1" (run_all history deployments) d
    × (is_locked d ≡ true)
    × (get "provider" d ≡ str "github_actions")
unfolding lookup is_locked all_calls event_spares_provider contains get_or find
provider_locked_example =
    provider_locked history deployments "d1" "github_actions" locked refl (refl, refl) refl refl

dispatch_not_retried_example :
    (claim_github_dispatch "d1" (run_all history (claim_github_dispatch "d1" deployments).1)).0
    ≡ ok false
unfolding lookup is_locked all_calls records_no_outcome event_spares_provider contains get_or find
    claim_github_dispatch commit eligible value_eq in_texts
dispatch_not_retried_example =
    dispatch_not_retried "d1" history deployments locked refl refl refl refl

submission_claimed_once_example :
    (claim_submission process "d1" (claim_submission process "d1" deployments).1).0 ≡ ok false
unfolding claim_submission lookup get_or find in_texts value_eq commit
submission_claimed_once_example = submission_claimed_once process process "d1" deployments refl

abbrev calls_between : List (Env × Call)
calls_between =
    (process, call_accept_event "d1" 7 (entry "tag" (str "v2") empty))
    ∷ (process, call_save "d1" (entry "tag" (str "v3") empty))
    ∷ (process, call_claim_submission "d1")
    ∷ []

newer_events_only_example :
    (accept_event process "d1" 5 empty
      (run_all calls_between (accept_event process "d1" 5 empty deployments).1)).0
    ≢ ok (locked, true)
unfolding accept_event lookup get_or find put update commit insert to_int all_calls
    saves_no_sequence contains
newer_events_only_example =
    newer_events_only process process "d1" 5 5 empty empty calls_between deployments
      (update locked
        (put "updated_at" (str "2026-01-01T00:00:00+00:00") (put "event_sequence" (num 5) empty)))
      locked refl refl (omega arith)

reserve_never_overwrites_example :
    (d : Fields) × Holds "d1" (reserve process second_intent deployments).1 d × Preserved locked d
unfolding lookup
reserve_never_overwrites_example =
    reserve_never_overwrites process second_intent deployments "d1" locked (refl, refl)
