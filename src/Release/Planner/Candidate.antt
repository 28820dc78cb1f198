-- ===== src/Release/Planner/Candidate.antt =====
-- Which failed planner may be retried, and what a retry writes: `planner_retry_candidate` and the
-- changes of `stage_planner_retry` of eng_platform_api/services/release_executions.py.
use Prim.Native.String.{len, slice}
use text.Mathlib.Text.{find?}
use gcp_engineering_platform.Base.{
  ℕ, zero, suc, ◌+◌, String, Bool, true, false, ◌&&◌, ◌||◌, not, nat_eq, if◌then◌else◌, none, some,
}
use gcp_engineering_platform.Python.Value.{
  bool, num, str, list, Items, Fields, empty, entry, truthy, value_eq, in_items, append,
}
use gcp_engineering_platform.Python.Dict.{get, get_or, put, update}
use gcp_engineering_platform.Python.Raise.{Env, Result, ok, ◌>>=◌, to_str, to_int}
use gcp_engineering_platform.Release.Tokens.{is_hex_digest, previous_builds}

-- `text.rsplit("@sha256:", 1)[-1]`: what follows the last separator, by the texts that remain
-- behind each separator; the text has at most `fuel` of them.
after_last : ℕ → String → String
after_last zero text = text
after_last (suc fuel) text = elim (find? text "@sha256:") [
  | none ↦ text
  | some i ↦ after_last fuel (slice text (i + 8) (len text))
]

-- `"@sha256:" in text`
unfoldable pub is_pinned : String → Bool
is_pinned text = elim (find? text "@sha256:") [ none ↦ false | some _ ↦ true ]

-- The digest of a pinned image, the empty text for another.
unfoldable pub image_digest : String → String
unfolding after_last is_pinned
image_digest image = if is_pinned image then after_last (len image) image else ""

-- `int(value.get("planner_retry_count", 0) or 0)`
unfoldable pub retry_count : Env → Fields → Result ℕ
retry_count e value =
    let stored = get_or "planner_retry_count" (num 0) value in
    to_int e (if truthy stored then stored else num 0)

-- `attempt_available`: each of the three kinds of retry, once.
unfoldable pub attempt_available : Env → Fields → Bool → Bool → ℕ → Bool
unfolding image_digest
attempt_available e value allow_remediation allow_contract_retry count =
    let image = to_str e (get_or "planner_remediation_retry_image" (str "") value) in
    let hash = to_str e (get_or "planner_remediation_retry_hash" (str "") value) in
    (nat_eq count 0 && not (truthy (get "planner_retry_checked" value)))
    || ((allow_remediation
          && (nat_eq count 1
              && (truthy (get "planner_retry_checked" value)
                  && not (truthy (get "planner_remediation_retry_checked" value)))))
        || (allow_contract_retry
            && (nat_eq count 2
                && (truthy (get "planner_remediation_retry_checked" value)
                    && (not (truthy (get "planner_contract_retry_checked" value))
                        && (is_hex_digest (image_digest image) && is_hex_digest hash))))))

-- The state of the execution that `planner_retry_candidate` asks for, the attempt aside.
unfoldable pub planner_failed : Fields → Bool
planner_failed value =
    value_eq (get "status" value) (str "failed")
    && (value_eq (get "provider" value) (str "cloud_build")
        && (value_eq (get "operation" value) (str "main_release")
            && (truthy (get "release_engine_failed" value)
                && (value_eq (get "engine_event_status" value) (str "quality_passed")
                    && (truthy (get "evidence_committed" value)
                        && truthy (get "report_hash" value))))))

-- `planner_retry_candidate`
unfoldable pub planner_retry_candidate : Env → Fields → Bool → Bool → Result Bool
unfolding retry_count planner_failed attempt_available
planner_retry_candidate e value allow_remediation allow_contract_retry =
    if truthy (get "bootstrap_ticket_id" value) then ok false else (do
      count ← retry_count e value
      ok (
          planner_failed value
          && (attempt_available e value allow_remediation allow_contract_retry count
              && truthy (get "build_id" value))))

-- The keyword arguments of `stage_planner_retry`.
pub record RetryRequest : Type 0 where
  pub failed_build_id : String
  pub planner_image : String
  pub planner_hash_value : String
  pub remediation : Bool
  pub contract_retry : Bool
  pub previous_planner_image : String

-- `list(current.get("previous_build_ids") or [])`, with the failed build appended once.
unfoldable pub replaced_builds : Fields → String → Items
replaced_builds current failed =
    let previous = previous_builds current in
    if in_items (str failed) previous then previous else append previous (str failed)

-- `changes`, before the part that depends on the kind of retry.
unfoldable pub retry_changes : Env → RetryRequest → Fields → ℕ → Fields
unfolding replaced_builds
retry_changes e r current count = entry "status" (str "submission_pending") (
    entry "build_id" (str "") (
      entry "provider_run_id" (str "") (
        entry "provider_status" (str "RETRY_PENDING") (
          entry "logs_url" (str "") (
            entry "build_name" (str "") (
              entry "previous_build_ids" (list (replaced_builds current r.failed_build_id)) (
                entry "planner_retry_pending" (bool true) (
                  entry "planner_retry_count" (num (count + 1)) (
                    entry "planner_retry_checked" (bool true) (
                      entry "planner_retry_previous_build_id" (str r.failed_build_id) (
                        entry "planner_retry_requested_at" (str e.now) (
                          entry "release_engine_failed" (bool false) (
                            entry "release_error" (str "") (
                              entry "error" (str "")
                                (entry "updated_at" (str e.now) empty)))))))))))))))

-- `changes` as they are written.
unfoldable pub staged_changes : Env → RetryRequest → Fields → ℕ → String → Fields
unfolding retry_changes
staged_changes e r current count previous_image =
    let changes = retry_changes e r current count in
    if r.remediation
    then update changes (
        entry "planner_remediation_retry_checked" (bool true) (
          entry "planner_remediation_retry_pending" (bool true) (
            entry "planner_remediation_retry_previous_build_id" (str r.failed_build_id) (
              entry "planner_remediation_retry_image" (str r.planner_image) (
                entry "planner_remediation_retry_hash" (str r.planner_hash_value)
                  (entry "planner_retry_image" (str previous_image) empty))))))
    else (if r.contract_retry
        then update changes (
            entry "planner_contract_retry_checked" (bool true) (
              entry "planner_contract_retry_pending" (bool true) (
                entry "planner_contract_retry_previous_build_id" (str r.failed_build_id) (
                  entry "planner_contract_retry_image" (str r.planner_image)
                    (entry "planner_contract_retry_hash" (str r.planner_hash_value) empty)))))
        else put "planner_retry_image" (str r.planner_image) changes)
