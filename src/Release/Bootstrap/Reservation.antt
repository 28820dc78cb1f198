-- ===== src/Release/Bootstrap/Reservation.antt =====
-- The reservation of the one-time quality bootstrap: `reserve_quality_bootstrap` of
-- eng_platform_api/services/release_executions.py.
use Prim.Native.String.{count}
use gcp_engineering_platform.Base.{
  String, Bool, true, false, ◌&&◌, ◌||◌, not, List, [], ◌∷◌, ◌==◌, nat_eq, if◌then◌else◌, Option,
  none, some,
}
use gcp_engineering_platform.Python.Value.{
  Value, num, str, dict, Fields, empty, entry, truthy, value_eq,
}
use gcp_engineering_platform.Python.Dict.{get, put, contains, update}
use gcp_engineering_platform.Python.Raise.{
  Env, Result, ok, raise, value_error, key_error, runtime_error, ◌>>◌, raise_if, to_str, persistent,
  require_new_builds,
}
use gcp_engineering_platform.Python.Store.{Store, Exec, lookup, insert}
use gcp_engineering_platform.Release.Validate.{
  bootstrap_ticket, bootstrap_document, require_bootstrap_storage, is_locked,
}
use gcp_engineering_platform.Release.Reserve.{any_differs}

-- `get_quality_bootstrap_ticket`
unfoldable pub get_bootstrap_ticket : Env → Store → Result (Option Fields)
get_bootstrap_ticket e s = require_bootstrap_storage e >> ok (lookup bootstrap_document s)

-- `required`
abbrev pub required_fields : List String
required_fields =
    "requested_by" ∷ "idempotency_key" ∷ "repository" ∷ "repository_id" ∷ "service_name"
    ∷ "pull_request_number" ∷ "head_sha" ∷ "base_sha" ∷ "fingerprint" ∷ "profile_hash"
    ∷ "executor_digest" ∷ "policy_hash" ∷ "build_request" ∷ "build_request_hash" ∷ "nonce"
    ∷ "authorization_policy" ∷ "max_compute_usd" ∷ "timeout_seconds" ∷ "dispatch_token_hash" ∷ []

-- `names.issubset(d)`
unfoldable pub contains_all : List String → Fields → Bool
contains_all [] d = true
contains_all (k ∷ ks) d = contains k d && contains_all ks d

unfoldable pub is_dict : Value → Bool
is_dict (dict d) = true
is_dict _ = false

-- The fixed authorisation that a binding must match.
unfoldable pub binding_matches : Env → Fields → Bool
unfolding is_dict
binding_matches e b =
    value_eq (get "repository" b) (str "diegomad14/cgm-artemis-api")
    && (to_str e (get "repository_id" b) == "1306114845"
        && (value_eq (get "service_name" b) (str "cgm-artemis-api")
            && (value_eq (get "pull_request_number" b) (num 172)
                && (value_eq (get "base_sha" b) (str "3c807a789ba78eea95068a3cc0a7a6e537b0bae9")
                    && (value_eq (get "authorization_policy" b) (str bootstrap_ticket)
                        && (to_str e (get "max_compute_usd" b) == "0.36"
                            && (value_eq (get "timeout_seconds" b) (num 3600)
                                && (truthy (get "requested_by" b)
                                    && (nat_eq (count (to_str e (get "idempotency_key" b))) 64
                                        && (truthy (get "nonce" b)
                                            && (nat_eq
                                                  (count (to_str e (get "dispatch_token_hash" b)))
                                                  64
                                                && is_dict (get "build_request" b))))))))))))

-- The checks on the binding alone, before the transaction.
unfoldable pub check_binding : Env → Fields → Result (Unit {0})
unfolding contains_all binding_matches
check_binding e b = do
  raise_if (not (contains_all required_fields b))
      (value_error "Quality bootstrap binding is incomplete")
  raise_if (not (binding_matches e b))
      (value_error "Quality bootstrap does not match the fixed authorization")
  raise_if
      (not
        (value_eq (str (e.digest (e.dumps (get "build_request" b)))) (get "build_request_hash" b)))
      (value_error "Quality bootstrap build request hash mismatch")
  require_new_builds e
  require_bootstrap_storage e

-- What a repeated request must agree on with the ticket.
abbrev pub ticket_fields : List String
ticket_fields =
    "idempotency_key" ∷ "requested_by" ∷ "repository" ∷ "repository_id" ∷ "service_name"
    ∷ "pull_request_number" ∷ "head_sha" ∷ "base_sha" ∷ "fingerprint" ∷ "profile_hash"
    ∷ "executor_digest" ∷ "policy_hash" ∷ "authorization_policy" ∷ []

-- The traces of an earlier attempt, none of which a fresh execution has.
abbrev pub attempt_traces : List String
attempt_traces =
    "bootstrap_ticket_id" ∷ "provider_run_id" ∷ "github_run_id" ∷ "build_id" ∷ "build_name"
    ∷ "source_token_issued_at" ∷ "source_token_build_id" ∷ "event_token_hash"
    ∷ "event_token_issued_at" ∷ "event_token_build_id" ∷ "event_token_provider_run_id"
    ∷ "event_admitted_at" ∷ "event_sequence" ∷ "engine_event_status" ∷ "pending_report_hash"
    ∷ "report_hash" ∷ "evidence_committed" ∷ "release_plan" ∷ "provider_terminal_success"
    ∷ "previous_build_ids" ∷ "planner_retry_count" ∷ []

-- What a fresh execution must agree on with the binding.
abbrev pub fresh_fields : List String
fresh_fields =
    "repository" ∷ "service_name" ∷ "head_sha" ∷ "base_sha" ∷ "fingerprint" ∷ "profile_hash"
    ∷ "executor_digest" ∷ "policy_hash" ∷ []

-- `any(current.get(field) for field in fields)`
unfoldable pub any_truthy : List String → Fields → Bool
any_truthy [] d = false
any_truthy (k ∷ ks) d = truthy (get k d) || any_truthy ks d

-- The changes of a reservation.
unfoldable pub bootstrap_changes : Env → Fields → Fields
bootstrap_changes e b = entry "provider" (str "cloud_build") (
    entry "status" (str "submitting") (
      entry "updated_at" (str e.now) (
        entry "bootstrap_ticket_id" (str bootstrap_ticket) (
          entry "bootstrap_attempts" (num 1) (
            entry "bootstrap_binding" (dict b) (
              entry "bootstrap_nonce" (get "nonce" b) (
                entry "bootstrap_build_request" (get "build_request" b) (
                  entry "bootstrap_build_request_hash"
                    (str (e.digest (e.dumps (get "build_request" b))))
                    (entry "bootstrap_requested_by" (get "requested_by" b) (
                      entry "bootstrap_idempotency_key" (get "idempotency_key" b)
                        (entry "bootstrap_reserved_at" (str e.now) empty)))))))))))

-- The part of `validate` on the execution, where there is no ticket yet.
unfoldable pub check_fresh : String → Fields → Fields → Result (Unit {0})
unfolding any_truthy
check_fresh id b current = do
  raise_if (is_locked current)
      (value_error "Reserved release provider is immutable; bootstrap cannot change it")
  raise_if
      (not (value_eq (get "status" current) (str "waiting_github"))
        || (not (value_eq (get "provider" current) (str "github_actions"))
            || (not (value_eq (get "operation" current) (str "pr_quality"))
                || (not (value_eq (get "pull_request_number" current) (num 172))
                    || (any_truthy attempt_traces current
                        || (any_differs fresh_fields current b
                            || not (value_eq (str id) (get "execution_id" current))))))))
      (value_error "Quality bootstrap requires a fresh matching GitHub execution")

-- `validate`: `none` for a repetition of the request that holds the ticket.
unfoldable pub validate_reservation :
    Env → String → Fields → Option Fields → Option Fields → Result (Option Fields)
validate_reservation e id b current (some ticket) =
    raise_if
      (any_differs ticket_fields ticket b || not (value_eq (get "execution_id" ticket) (str id)))
      (value_error "Quality bootstrap global ticket is already consumed")
    >> ok none
validate_reservation e id b none none = raise (key_error id)
validate_reservation e id b (some current) none =
    check_fresh id b current >> ok (some (bootstrap_changes e b))

-- `{**binding, "ticket_id": …, "execution_id": …, "consumed_at": …}`
unfoldable pub ticket_document : Env → String → Fields → Fields
ticket_document e id b =
    put "consumed_at" (str e.now)
      (put "execution_id" (str id) (put "ticket_id" (str bootstrap_ticket) b))

-- The execution that the ticket names. Where it is gone the memory path raises KeyError, and the
-- Firestore path RuntimeError.
unfoldable pub ticket_execution : Env → String → Option Fields → Result (Fields × Bool)
ticket_execution e id (some saved_document) = ok (saved_document, false)
ticket_execution e id none = raise (
    if persistent e
    then runtime_error "Quality bootstrap execution is unavailable"
    else key_error id)

unfoldable pub reserve_outcome :
    Env
    → String
    → Fields
    → Option Fields
    → Option Fields
    → Result (Option Fields)
    → Exec (Fields × Bool)
unfolding ticket_execution ticket_document
reserve_outcome e id b current ticket (raise error) s = (raise error, s)
reserve_outcome e id b (some current) ticket (ok (some changes)) s = (
  ok (update current changes, true),
  insert id (update current changes) (insert bootstrap_document (ticket_document e id b) s),
)
reserve_outcome e id b current (some ticket) (ok none) s =
    let owner = to_str e (get "execution_id" ticket) in
    (ticket_execution e owner (lookup owner s), s)
reserve_outcome e id b _ _ (ok _) s = (raise (key_error id), s)

-- `reserve_quality_bootstrap`: `true` beside the execution where the ticket was consumed now.
unfoldable pub reserve_quality_bootstrap : Env → String → Fields → Exec (Fields × Bool)
unfolding check_binding validate_reservation reserve_outcome
reserve_quality_bootstrap e id b s =
    let current = lookup id s in
    let ticket = lookup bootstrap_document s in
    reserve_outcome e id b current ticket
      (do check_binding e b; validate_reservation e id b current ticket) s
