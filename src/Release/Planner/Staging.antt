-- ===== src/Release/Planner/Staging.antt =====
-- The retry of a failed planner: `stage_planner_retry` and `reconcile_submission_absent` of
-- eng_platform_api/services/release_executions.py.
use gcp_engineering_platform.Base.{
  ℕ, ◌+◌, String, ◌&&◌, ◌||◌, not, [], ◌∷◌, ◌==◌, nat_eq, if◌then◌else◌, Option, none, some,
}
use gcp_engineering_platform.Python.Value.{num, str, Fields, empty, entry, truthy, value_eq}
use gcp_engineering_platform.Python.Dict.{get, get_or, update}
use gcp_engineering_platform.Python.Raise.{
  Env, Result, ok, raise, value_error, key_error, ◌>>=◌, ◌>>◌, raise_if, to_str, to_int,
  require_new_builds,
}
use gcp_engineering_platform.Python.Store.{Store, Change, Exec, with_document}
use gcp_engineering_platform.Release.Status.{in_texts}
use gcp_engineering_platform.Release.Admission.{save}
use gcp_engineering_platform.Release.Reserve.{get_execution}
use gcp_engineering_platform.Release.Planner.Candidate.{
  is_pinned, retry_count, planner_retry_candidate, RetryRequest, staged_changes,
}

-- The checks of `stage_planner_retry` on the document that it read, before the write: the retries
-- so far, and `previous_planner_image`.
unfoldable pub plan_retry : Env → RetryRequest → Fields → Result (ℕ × String)
unfolding retry_count is_pinned
plan_retry e r current = do
  candidate ← planner_retry_candidate e current r.remediation r.contract_retry
  raise_if (not candidate || not (value_eq (get "build_id" current) (str r.failed_build_id)))
      (value_error "Release execution is not eligible for planner recovery")
  count ← retry_count e current
  raise_if (r.planner_image == "" || not (is_pinned r.planner_image))
      (value_error "A digest-pinned planner image is required")
  let stored = to_str e (get_or "planner_retry_image" (str "") current)
  let previous_image = if stored == "" then r.previous_planner_image else stored
  raise_if
      (r.remediation
        && (not (nat_eq count 1) || (previous_image == "" || previous_image == r.planner_image)))
      (value_error "Planner remediation requires a different pinned image")
  raise_if
      (r.contract_retry
        && (not (nat_eq count 2)
            || (not (truthy (get "planner_remediation_retry_checked" current))
                || (truthy (get "planner_contract_retry_checked" current)
                    || (r.planner_hash_value == ""
                        || (not (truthy (get "planner_remediation_retry_image" current))
                            || (not (
                                  value_eq (get "planner_remediation_retry_image" current)
                                    (str r.planner_image))
                                || not (
                                    value_eq (get "planner_remediation_retry_hash" current)
                                      (str r.planner_hash_value)))))))))
      (value_error "Planner contract retry is not authorized")
  raise_if (not r.remediation && (not (nat_eq count 0) && not r.contract_retry))
      (value_error "Planner retry budget is already consumed")
  ok (count, previous_image)

-- The write: the checks are made again on the version that is updated. `previous_image` is the
-- image that the first part settled on.
unfoldable pub write_retry : Env → RetryRequest → String → Fields → Change Fields
unfolding retry_count is_pinned
write_retry e r previous_image changes current = do
  candidate ← planner_retry_candidate e current r.remediation r.contract_retry
  raise_if (not candidate || not (value_eq (get "build_id" current) (str r.failed_build_id)))
      (value_error "Release execution is not eligible for planner recovery")
  count ← retry_count e current
  let stored = to_str e (get_or "planner_retry_image" (str "") current)
  let previous_for_write = if stored == "" then previous_image else stored
  raise_if
      (r.planner_image == ""
        || (not (is_pinned r.planner_image)
            || ((r.remediation
                  && (not (nat_eq count 1)
                      || (previous_for_write == r.planner_image || r.planner_hash_value == "")))
                || ((r.contract_retry
                      && (not (nat_eq count 2)
                          || (r.planner_hash_value == ""
                              || (truthy (get "planner_contract_retry_checked" current)
                                  || (not (
                                        value_eq (get "planner_remediation_retry_image" current)
                                          (str r.planner_image))
                                      || not (
                                          value_eq (get "planner_remediation_retry_hash" current)
                                            (str r.planner_hash_value)))))))
                    || ((not r.remediation && not (nat_eq count 0)) && not r.contract_retry)))))
      (value_error "Planner remediation image is not authorized")
  ok (changes, update current changes)

unfoldable pub staged : Env → RetryRequest → Fields → Result (ℕ × String) → Result (Fields × String)
unfolding staged_changes
staged e r current (raise error) = raise error
staged e r current (ok (count, previous_image)) =
    ok (staged_changes e r current count previous_image, previous_image)

-- The first read of `stage_planner_retry`, which leaves the store alone.
unfoldable pub stage_from :
    Env → String → RetryRequest → Result (Option Fields) → Result (Fields × String)
unfolding staged plan_retry
stage_from e id r (raise error) = raise error
stage_from e id r (ok none) = raise (key_error id)
stage_from e id r (ok (some current)) = staged e r current (plan_retry e r current)

unfoldable pub stage_write : Env → String → RetryRequest → Result (Fields × String) → Exec Fields
unfolding with_document
stage_write e id r (raise error) s = (raise error, s)
stage_write e id r (ok (changes, previous_image)) s =
    with_document id (write_retry e r previous_image changes) s

-- `stage_planner_retry`. Another call may write between its read and its write, so the read is of a
-- store of its own.
unfoldable pub stage_planner_retry : Env → String → RetryRequest → Store → Exec Fields
unfolding stage_from stage_write
stage_planner_retry e id r read_store s =
    stage_write e id r
      (do
        require_new_builds e
        raise_if (r.failed_build_id == "") (value_error "Failed Cloud Build identity is required")
        stage_from e id r (get_execution e id read_store))
      s

-- `reconcile_submission_absent`: the read, and the changes that it hands to `save`.
unfoldable pub absent_changes : Env → String → Option Fields → Result Fields
absent_changes e id none = raise (key_error id)
absent_changes e id (some current) = do
  raise_if (truthy (get "bootstrap_ticket_id" current))
      (value_error "Quality bootstrap attempt cannot be retried")
  raise_if
      (truthy (get "build_id" current)
        || not (in_texts (get "status" current) ("submitting" ∷ "unknown" ∷ [])))
      (value_error "Release submission is not uncertain")
  attempts ← to_int e (get_or "reconciliation_attempts" (num 0) current)
  ok (
      entry "status" (str "submission_pending")
        (entry "reconciliation_attempts" (num (attempts + 1)) empty))

unfoldable pub absent_write : Env → String → Result Fields → Exec Fields
absent_write e id (raise error) s = (raise error, s)
absent_write e id (ok changes) s = save e id changes s

unfoldable pub reconcile_submission_absent : Env → String → Store → Exec Fields
unfolding absent_write absent_changes save
reconcile_submission_absent e id read_store s =
    absent_write e id (do found ← get_execution e id read_store; absent_changes e id found) s
