-- ===== src/Release/Claims.antt =====
-- Permits that one process wins: `transition_to_cloud_build`, `claim_submission`, `bind_build` and
-- `claim_publish` of eng_platform_api/services/release_executions.py.
use Prim.Native.String.{count}
use gcp_engineering_platform.Base.{
  String, Bool, true, false, ◌&&◌, ◌||◌, not, List, [], ◌∷◌, ◌==◌, ltb, if◌then◌else◌, elem,
}
use gcp_engineering_platform.Python.Value.{Value, str, Fields, empty, entry, truthy, value_eq}
use gcp_engineering_platform.Python.Dict.{get, get_or, put, contains_any, update}
use gcp_engineering_platform.Python.Raise.{
  Env, ok, raise, value_error, ◌>>◌, raise_if, to_str, require_new_builds,
}
use gcp_engineering_platform.Python.Store.{Change, Exec, with_document}
use gcp_engineering_platform.Release.Status.{in_texts, validate_status_change}
use gcp_engineering_platform.Release.Validate.{is_locked}

-- `github_actions_only` of eng_platform_api/services/quality_profiles.py
unfoldable pub github_actions_only : String → Bool
github_actions_only service = elem service ("cgm-reconnections-api" ∷ [])

-- `str(v or "")`
unfoldable pub text_or_empty : Env → Value → String
text_or_empty e v = if truthy v then to_str e v else ""

-- `transition_to_cloud_build`: `true` beside the document where the provider was handed over.
unfoldable pub handoff_change : Env → String → Change (Fields × Bool)
handoff_change e reason current =
    let changes = entry "provider" (str "cloud_build") (
      entry "status" (str "submission_pending")
        (entry "fallback_reason" (str reason) (entry "updated_at" (str e.now) empty))) in
    do
      raise_if (is_locked current) (value_error "Reserved release provider is immutable")
      raise_if (truthy (get "bootstrap_ticket_id" current))
          (value_error "Quality bootstrap provider cannot be reset")
      raise_if (github_actions_only (text_or_empty e (get "service_name" current)))
          (value_error "Service releases run on GitHub Actions only")
      if value_eq (get "provider" current) (str "cloud_build")
          then ok (empty, (current, false))
          else (do
            raise_if (not (value_eq (get "provider" current) (str "github_actions")))
                (value_error "Release execution provider transition is invalid")
            raise_if (not (in_texts (get "status" current) ("received" ∷ "waiting_github" ∷ [])))
                (value_error "Release execution is no longer fallback eligible")
            require_new_builds e
            ok (changes, (update current changes, true)))

unfoldable pub transition_to_cloud_build : Env → String → String → Exec (Fields × Bool)
unfolding handoff_change with_document
transition_to_cloud_build e id reason = with_document id (handoff_change e reason)

-- `claim_submission`
unfoldable pub claim_submission_change : Env → Change Bool
claim_submission_change e current =
    if truthy (get "bootstrap_ticket_id" current)
      || (not (value_eq (get "provider" current) (str "cloud_build"))
          || (truthy (get "build_id" current)
              || not (
                  in_texts (get "status" current)
                    ("submission_pending" ∷ "submission_failed" ∷ []))))
    then ok (empty, false)
    else ok (entry "status" (str "submitting") (entry "updated_at" (str e.now) empty), true)

unfoldable pub claim_submission : Env → String → Exec Bool
unfolding claim_submission_change with_document
claim_submission e id = with_document id (claim_submission_change e)

-- The fields that `bind_build` takes from no caller.
abbrev pub binding_fields : List String
binding_fields =
    "execution_id" ∷ "fingerprint" ∷ "repository" ∷ "service_name" ∷ "operation" ∷ "head_sha"
    ∷ "base_sha" ∷ "profile_hash" ∷ "executor_digest" ∷ "policy_hash" ∷ "planner_hash" ∷ "provider"
    ∷ "build_id" ∷ "provider_run_id" ∷ []

-- `{**metadata, "build_id": …, "provider_run_id": …, "status": …, "updated_at": …}`
unfoldable pub binding_changes : Env → String → Fields → Fields
binding_changes e build metadata = put "updated_at" (str e.now) (
    put "status" (str "submission_pending")
      (put "provider_run_id" (str build) (put "build_id" (str build) metadata)))

-- `str(current.get("build_id", ""))`
unfoldable pub build_of : Env → Fields → String
build_of e current = to_str e (get_or "build_id" (str "") current)

-- `bind_build`
unfoldable pub bind_build_change : Env → String → Fields → Change Fields
unfolding binding_changes
bind_build_change e build metadata current = do
  raise_if (truthy (get "bootstrap_ticket_id" current))
      (value_error "Quality bootstrap requires verified build binding")
  raise_if (not (value_eq (get "provider" current) (str "cloud_build")))
      (value_error "Release execution is not Cloud Build managed")
  raise_if (not (build_of e current == "") && not (build_of e current == build))
      (value_error "Release execution is already bound to another build")
  if build_of e current == build then ok (empty, current) else (do
    validate_status_change e current (binding_changes e build metadata)
    ok (binding_changes e build metadata, update current (binding_changes e build metadata)))

unfoldable pub bind_build : Env → String → String → Fields → Exec Fields
unfolding bind_build_change with_document
bind_build e id build metadata s =
    if build == "" || ltb 128 (count build)
    then (raise (value_error "Cloud Build ID is invalid"), s)
    else (if contains_any binding_fields metadata
        then (raise (value_error "Cloud Build binding metadata contains reserved fields"), s)
        else with_document id (bind_build_change e build metadata) s)

-- `claim_publish`
unfoldable pub claim_publish_change : Env → Change Bool
claim_publish_change e current =
    if not (value_eq (get "operation" current) (str "main_release"))
      || (not (value_eq (get "status" current) (str "release_planned"))
          || truthy (get "publish_claimed_at" current))
    then ok (empty, false)
    else ok (
      entry "status" (str "publish_pending")
          (entry "updated_at" (str e.now) (entry "publish_claimed_at" (str e.now) empty)),
      true,
    )

unfoldable pub claim_publish : Env → String → Exec Bool
unfolding claim_publish_change with_document
claim_publish e id = with_document id (claim_publish_change e)
