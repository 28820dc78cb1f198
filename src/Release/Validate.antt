-- ===== src/Release/Validate.antt =====
-- The checks that guard every generic write to a release execution: `_validate_changes` and
-- `_mutate` of eng_platform_api/services/release_executions.py.
use Prim.Native.String.{compare}
use text.Mathlib.Text.{is_lt}
use gcp_engineering_platform.Base.{
  String, Bool, false, ◌&&◌, ◌||◌, not, List, [], ◌∷◌, ◌==◌, ltb, if◌then◌else◌,
}
use gcp_engineering_platform.Python.Value.{
  Value, bool, num, str, dict, bit, Fields, truthy, value_eq,
}
use gcp_engineering_platform.Python.Dict.{get, contains, contains_any, any_key_starts_with, update}
use gcp_engineering_platform.Python.Raise.{
  Env, Result, ok, raise, value_error, runtime_error, type_error, ◌>>=◌, ◌>>◌, raise_if, run_if,
  persistent,
}
use gcp_engineering_platform.Python.Store.{Change, Exec, with_document}
use gcp_engineering_platform.Release.Status.{in_texts, validate_status_change}

-- `QUALITY_BOOTSTRAP_TICKET_ID`
abbrev pub bootstrap_ticket : String
bootstrap_ticket = "artemis-pr172-quality-bootstrap-v1"

-- `_BOOTSTRAP_DOCUMENT_ID`
abbrev pub bootstrap_document : String
bootstrap_document = "__bootstrap_ticket_artemis-pr172-quality-bootstrap-v1"

-- `_IDENTITY_FIELDS`
abbrev pub identity_fields : List String
identity_fields =
    "execution_id" ∷ "fingerprint" ∷ "repository" ∷ "service_name" ∷ "operation" ∷ "head_sha"
    ∷ "base_sha" ∷ "profile_hash" ∷ "executor_digest" ∷ "policy_hash" ∷ "planner_hash" ∷ []

-- The attempt of a bootstrap execution: no later write rebinds these fields.
abbrev pub attempt_fields : List String
attempt_fields =
    "provider" ∷ "build_id" ∷ "provider_run_id" ∷ "github_run_id" ∷ "build_name" ∷ "logs_url"
    ∷ "pull_request_number" ∷ "repository_id" ∷ "source_token_issued_at" ∷ "source_token_build_id"
    ∷ "event_token_hash" ∷ "event_token_issued_at" ∷ "event_token_build_id"
    ∷ "event_token_provider_run_id" ∷ "previous_build_ids" ∷ []

-- The statuses from which an attempt would be submitted again.
abbrev pub retry_statuses : List String
retry_statuses = "received" ∷ "waiting_github" ∷ "submission_pending" ∷ "submission_failed" ∷ []

-- `_persistent_bootstrap_collection`
unfoldable pub require_bootstrap_storage : Env → Result (Unit {0})
require_bootstrap_storage e =
    raise_if (not (persistent e) && not e.mock_mode)
      (runtime_error "Persistent quality bootstrap storage is unavailable")

-- `(current.get("provider_selection") or {}).get("locked")`; the field holds None or a dict.
unfoldable pub is_locked : Fields → Bool
is_locked current = elim (get "provider_selection" current) [
  | dict selection ↦ truthy (get "locked" selection)
  | _ ↦ false
]

-- `any(key in changes and changes[key] != current.get(key) for key in keys)`
unfoldable pub any_changed : List String → Fields → Fields → Bool
any_changed [] current changes = false
any_changed (k ∷ ks) current changes =
    (contains k changes && not (value_eq (get k changes) (get k current)))
    || any_changed ks current changes

-- `a < b`, of numbers and of texts; of other types a TypeError.
unfoldable pub value_lt : Value → Value → Result Bool
value_lt (num n) (num m) = ok (ltb n m)
value_lt (num n) (bool b) = ok (ltb n (bit b))
value_lt (bool b) (num n) = ok (ltb (bit b) n)
value_lt (bool a) (bool b) = ok (ltb (bit a) (bit b))
value_lt (str s) (str t) = ok (is_lt (compare s t))
value_lt _ _ = raise type_error

-- The loop over the evidence fields, one round. `event_sequence` may only grow.
unfoldable pub validate_evidence : String → Fields → Fields → Result (Unit {0})
validate_evidence name current changes =
    if not (truthy (get name current) && contains name changes)
    then ok tt
    else (if name == "event_sequence"
        then (do
          smaller ← value_lt (get name changes) (get name current)
          raise_if smaller (value_error "Quality bootstrap evidence cannot be reset"))
        else raise_if (not (value_eq (get name current) (get name changes)))
            (value_error "Quality bootstrap evidence is immutable"))

-- The part of `_validate_changes` for an execution that holds the bootstrap ticket.
unfoldable pub validate_bootstrap : Env → Fields → Fields → Result (Unit {0})
validate_bootstrap e current changes = do
  run_if (not e.mock_mode) (require_bootstrap_storage e)
  raise_if (any_changed attempt_fields current changes)
      (value_error "Quality bootstrap attempt cannot be reset or rebound")
  raise_if (in_texts (get "status" changes) retry_statuses)
      (value_error "Quality bootstrap attempt cannot be retried")
  raise_if
      (any_key_starts_with "planner_retry" changes
        || any_key_starts_with "reconciliation_attempt" changes)
      (value_error "Quality bootstrap attempt cannot be retried")
  validate_evidence "event_sequence" current changes
  validate_evidence "pending_report_hash" current changes
  validate_evidence "report_hash" current changes
  validate_evidence "evidence_committed" current changes

-- `_validate_changes`
unfoldable pub validate_changes : Env → Fields → Fields → Result (Unit {0})
validate_changes e current changes = do
  raise_if (value_eq (get "ticket_id" current) (str bootstrap_ticket))
      (value_error "Quality bootstrap global ticket is immutable")
  raise_if
      (is_locked current
        && any_changed ("provider" ∷ "provider_selection" ∷ "trigger_event" ∷ []) current changes)
      (value_error "Reserved release provider selection is immutable")
  raise_if (contains_any identity_fields changes)
      (value_error "Release execution identity fields are immutable")
  raise_if (any_key_starts_with "bootstrap_" changes)
      (value_error "Quality bootstrap fields are immutable")
  run_if (truthy (get "bootstrap_ticket_id" current)) (validate_bootstrap e current changes)
  validate_status_change e current changes

-- What a callback of `_mutate` returns when its result is the updated document.
abbrev pub saved : Fields → Fields → Result (Fields × Fields)
saved current changes = ok (changes, update current changes)

-- The check that the memory path of `_mutate` makes on the document that it found.
unfoldable pub require_storage_for : Env → Fields → Result (Unit {0})
require_storage_for e current =
    raise_if (not (persistent e) && (truthy (get "bootstrap_ticket_id" current) && not e.mock_mode))
      (runtime_error "Persistent quality bootstrap storage is unavailable")

-- `_mutate`
module _ {A : Type 0} where
  unfoldable pub mutate : Env → String → Change A → Exec A
  unfolding with_document
  mutate e id callback s =
      if id == bootstrap_document
      then (raise (value_error "Quality bootstrap global ticket is immutable"), s)
      else with_document id (λ current. require_storage_for e current >> callback current) s
