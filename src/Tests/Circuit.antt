-- ===== src/Tests/Circuit.antt =====
-- Executor circuits on a small collection.
use gcp_engineering_platform.Base.{
  ◌≤◌, String, true, false, List, [], ◌∷◌, ◌≡◌, ◌≢◌, refl, arith, none, some,
}
use gcp_engineering_platform.Python.Value.{num, str, Fields, empty, entry, find, value_eq}
use gcp_engineering_platform.Python.Dict.{get_or, contains, update}
use gcp_engineering_platform.Python.Raise.{Env, ok}
use gcp_engineering_platform.Python.Store.{Store, lookup, commit}
use gcp_engineering_platform.Python.Store.Lift.{Holds}
use gcp_engineering_platform.Circuit.State.{
  Opening, circuit_id, dict_of, requests_of, open_circuit, claim_usage_alert, alert_found,
  found_or_empty,
}
use gcp_engineering_platform.Circuit.Probe.{
  ProbeRequest, request_key, size, probe_request_limit, reserve_probe, check_request, on_circuit,
  reserve_probe_change, reservation,
}
use gcp_engineering_platform.Circuit.Recovery.{Report}
use gcp_engineering_platform.Circuit.Ops.{
  Call, call_usage_alert, call_reserve_probe, call_finish_probe, call_record_probe, call_close,
  all_calls, run_all,
}
use gcp_engineering_platform.Circuit.Unproven.{
  Unproven, proven, reports_no_success, open_until_proven,
}
use gcp_engineering_platform.Circuit.Requests.{requests_kept}
use gcp_engineering_platform.Circuit.Replay.{probe_reserved_once}
use gcp_engineering_platform.Circuit.Alerts.{
  opens_no_circuit, usage_alerted_once, circuit_opened_once,
}
use gcp_engineering_platform.Tests.Release.{process}

abbrev open_document : Fields
open_document =
    entry "owner" (str "acme")
      (entry "state" (str "open") (entry "reason" (str "github_actions_billing_rejection") empty))

abbrev circuits : Store
circuits = ("acme", open_document) ∷ []

abbrev request : ProbeRequest
request = record {
  owner = "acme";
  repository = "acme/api";
  workflow = "probe.yml";
  requested_by = "ana";
  reason = "billing repaired";
  idempotency_key = "k1";
  nonce = "n1";
}

abbrev failed_report : Report
failed_report = record {
  owner = "acme";
  repository = "acme/api";
  workflow = "probe.yml";
  run_id = "7";
  conclusion = "failure";
  jobs_started = 1;
  nonce = none;
}

abbrev opening : Opening
opening = record {
  owner = "acme";
  reason = "github_actions_billing_rejection";
  repository = "acme/api";
  run_id = "3";
  evidence = "rejected";
}

abbrev history : List (Env × Call)
history =
    (process, call_reserve_probe request)
    ∷ (process, call_finish_probe "acme" "n1" "dispatched")
    ∷ (process, call_record_probe failed_report circuits)
    ∷ (process, call_close "acme" "7")
    ∷ (process, call_usage_alert "acme" "2026-01:80" (num 80) (num 90))
    ∷ []

open_until_proven_example : (d : Fields) × Holds "acme" (run_all history circuits) d × Unproven d
unfolding lookup all_calls reports_no_success proven get_or find dict_of value_eq
open_until_proven_example =
    open_until_proven history circuits "acme" open_document refl (refl, refl) (refl, refl)

requests_kept_example :
    (d : Fields) × Holds "acme" (run_all history circuits) d
    × ((k : String)
        → contains k (requests_of open_document) ≡ true
        → contains k (requests_of d) ≡ true)
    × (size (requests_of d) ≤ probe_request_limit)
unfolding lookup size get_or find dict_of
requests_kept_example =
    requests_kept history circuits "acme" open_document (refl, refl) (omega arith)

-- What the first reservation answers.
abbrev reserved : Fields
reserved = update open_document (reservation process request open_document)

probe_reserved_once_example :
    (reserve_probe process request (run_all history (reserve_probe process request circuits).1)).0
    ≢ ok (open_document, true)
unfolding reserve_probe on_circuit check_request reserve_probe_change circuit_id request_key lookup
    found_or_empty commit get_or find dict_of contains value_eq size
probe_reserved_once_example =
    probe_reserved_once process process request request history circuits reserved open_document refl
      refl refl

usage_alerted_once_example :
    (claim_usage_alert process "acme" "2026-01:80" (num 80) (num 95) (
      run_all history
        (claim_usage_alert process "acme" "2026-01:80" (num 80) (num 81) circuits).1)).0
    ≡ ok false
unfolding all_calls opens_no_circuit circuit_id claim_usage_alert alert_found lookup get_or find
    dict_of contains
usage_alerted_once_example =
    usage_alerted_once process process "acme" "acme" "2026-01:80" (num 80) (num 80) (num 81)
      (num 95) history circuits refl refl refl

circuit_opened_once_example :
    (d : Fields) × (lookup "acme" (open_circuit process opening []).1 ≡ some d)
    × (open_circuit process opening (open_circuit process opening []).1
        ≡ (ok (d, false), (open_circuit process opening []).1))
unfolding circuit_id
circuit_opened_once_example = circuit_opened_once process process opening opening [] refl
