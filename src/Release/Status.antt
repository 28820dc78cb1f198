-- ===== src/Release/Status.antt =====
-- The status machine of a release execution: `_TRANSITIONS` and `_validate_status_change` of
-- eng_platform_api/services/release_executions.py.
use Prim.Native.String.{◌++◌ as str_append}
use gcp_engineering_platform.Base.{
  String, Bool, false, ◌&&◌, ◌||◌, not, List, [], ◌∷◌, ◌==◌, if◌then◌else◌,
}
use gcp_engineering_platform.Python.Value.{Value, str, Fields, truthy, value_eq}
use gcp_engineering_platform.Python.Dict.{get, get_or}
use gcp_engineering_platform.Python.Raise.{Env, Result, ok, value_error, ◌>>◌, raise_if, to_str}

-- `_TRANSITIONS`
unfoldable pub transition_table : List (String × List String)
transition_table =
    ("received", "waiting_github" ∷ "submission_pending" ∷ "failed" ∷ "unknown" ∷ [])
    ∷ (
      "waiting_github",
      "running_quality" ∷ "quality_passed" ∷ "quality_failed" ∷ "submission_pending" ∷ "failed"
          ∷ "unknown" ∷ [],
    )
    ∷ (
      "submission_pending",
      "submitting" ∷ "running_quality" ∷ "quality_passed" ∷ "quality_failed" ∷ "failed" ∷ "unknown"
          ∷ [],
    )
    ∷ (
      "submitting",
      "submission_pending" ∷ "running_quality" ∷ "quality_passed" ∷ "quality_failed" ∷ "failed"
          ∷ "unknown" ∷ [],
    )
    ∷ ("running_quality", "quality_passed" ∷ "quality_failed" ∷ "failed" ∷ "unknown" ∷ [])
    ∷ (
      "quality_passed",
      "release_planned" ∷ "no_release" ∷ "released" ∷ "superseded" ∷ "failed" ∷ "unknown" ∷ [],
    )
    ∷ ("quality_failed", [])
    ∷ ("release_planned", "publish_pending" ∷ "superseded" ∷ "failed" ∷ "unknown" ∷ [])
    ∷ ("publish_pending", "released" ∷ "release_planned" ∷ "superseded" ∷ "failed" ∷ "unknown" ∷ [])
    ∷ ("no_release", [])
    ∷ ("released", [])
    ∷ ("superseded", [])
    ∷ ("failed", [])
    ∷ (
      "unknown",
      "submission_pending" ∷ "running_quality" ∷ "release_planned" ∷ "released" ∷ "superseded"
          ∷ "failed" ∷ [],
    )
    ∷ []

row : String → List (String × List String) → List String
row k [] = []
row k ((j, targets) ∷ t) = if j == k then targets else row k t

-- `_TRANSITIONS.get(status, set())`
unfoldable pub transitions : String → List String
unfolding transition_table row
transitions status = row status transition_table

-- `v in texts` for a set of texts
unfoldable pub in_texts : Value → List String → Bool
in_texts v [] = false
in_texts v (t ∷ ts) = value_eq v (str t) || in_texts v ts

-- `str(current.get("status", "received"))`
unfoldable pub status_text : Env → Fields → String
status_text e current = to_str e (get_or "status" (str "received") current)

-- `_validate_status_change`
unfoldable pub validate_status_change : Env → Fields → Fields → Result (Unit {0})
validate_status_change e current changes =
    let new_status = get "status" changes in
    let old_status = status_text e current in
    if not (truthy new_status) || value_eq new_status (get "status" current) then ok tt else (do
      raise_if (truthy (get "bootstrap_ticket_id" current) && old_status == "quality_passed")
          (value_error "Completed quality bootstrap cannot be reopened")
      raise_if (not (in_texts new_status (transitions old_status))) (
          value_error (
            str_append "Invalid release execution transition "
              (str_append old_status (str_append "->" (to_str e new_status))))))
