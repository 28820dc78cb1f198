-- ===== src/Deployment/Executions.antt =====
-- The operations of eng_platform_api/services/deployment_executions.py on the private metadata of a
-- deployment: `reserve`, `get`, `transition_provider`, `claim_submission`, `save`, `accept_event`
-- and `claim_github_dispatch`.
use gcp_engineering_platform.Base.{
  ℕ, String, Bool, true, false, ◌&&◌, ◌||◌, not, [], ◌∷◌, ◌==◌, leb, if◌then◌else◌, Option, none,
  some,
}
use gcp_engineering_platform.Python.Value.{
  Value, num, str, dict, Fields, empty, entry, truthy, value_eq,
}
use gcp_engineering_platform.Python.Dict.{get, get_or, contains, put, update}
use gcp_engineering_platform.Python.Raise.{
  Env, Result, ok, value_error, key_error, ◌>>=◌, ◌>>◌, raise_if, run_if, to_int,
  require_new_builds,
}
use gcp_engineering_platform.Python.Store.{
  Store, Change, Exec, lookup, insert, commit, with_document,
}
use gcp_engineering_platform.Release.Status.{in_texts}
use gcp_engineering_platform.Release.Validate.{is_locked, any_changed, saved}

-- `_collection()` is not None: documents are kept in Firestore.
abbrev pub stored : Env → Bool
stored e = not (e.deployment_collection == "" || e.mock_mode)

-- `get`: the memory path answers None for an empty document.
unfoldable pub get_execution : Env → String → Store → Option Fields
get_execution e id s = elim (lookup id s) [
  | none ↦ none
  | some d ↦ if stored e || truthy (dict d) then some d else none
]

-- The arguments of `reserve`.
pub record Intent : Type 0 where
  pub deployment_id : String
  pub provider : String
  pub fingerprint : String
  pub service_name : String
  pub repository : String
  pub sha : String
  pub tag : String
  pub kind : String
  pub reason : String
  pub authorization_jti : String
  pub provider_selection : Value
  pub github_execution_config : String

-- The new document of `reserve`.
unfoldable pub intent_document : Env → Intent → Fields
intent_document e r =
    let tail =
      if r.github_execution_config == ""
      then empty
      else entry "github_execution_config" (str r.github_execution_config) empty in
    entry "deployment_id" (str r.deployment_id) (
      entry "provider" (str r.provider) (
        entry "provider_selection" r.provider_selection (
          entry "fingerprint" (str r.fingerprint) (
            entry "service_name" (str r.service_name) (
              entry "repository" (str r.repository) (
                entry "sha" (str r.sha) (
                  entry "tag" (str r.tag) (
                    entry "kind" (str r.kind) (
                      entry "reason" (str r.reason) (
                        entry "authorization_jti" (str r.authorization_jti) (
                          entry "status" (str "SUBMISSION_PENDING") (
                            entry "event_sequence" (num 0)
                              (entry "updated_at" (str e.now) tail)))))))))))))

-- `bind_context`: `true` where the context is to be written.
unfoldable pub bind_context : String → Fields → Result Bool
bind_context context existing =
    let previous = get "github_execution_config" existing in
    if context == "" then ok false else (do
      raise_if (not (value_eq (get "provider" existing) (str "github_actions")))
          (value_error "GitHub engine context cannot bind another provider")
      raise_if (truthy previous && not (value_eq previous (str context)))
          (value_error "Deployment engine configuration cannot change")
      ok (not (truthy previous)))

-- `existing["fingerprint"] != fingerprint`, which the Firestore path asks with `get`.
unfoldable pub check_fingerprint : Env → String → Fields → Result (Unit {0})
check_fingerprint e fingerprint existing = do
  raise_if (not (stored e) && not (contains "fingerprint" existing)) (key_error "fingerprint")
  raise_if (not (value_eq (get "fingerprint" existing) (str fingerprint)))
      (value_error "Deployment execution identity cannot change")

-- `reserve` of a deployment that has a document.
unfoldable pub reserve_again : Env → Intent → Change Fields
reserve_again e r existing = do
  check_fingerprint e r.fingerprint existing
  bind ← bind_context r.github_execution_config existing
  let changes =
        if bind
        then entry "github_execution_config" (str r.github_execution_config) empty
        else empty in
      ok (changes, update existing changes)

unfoldable pub reserve_found : Env → Intent → Option Fields → Exec Fields
unfolding intent_document reserve_again
reserve_found e r none s =
    (ok (intent_document e r), insert r.deployment_id (intent_document e r) s)
reserve_found e r (some existing) s =
    if stored e || truthy (dict existing)
    then commit r.deployment_id existing (reserve_again e r existing) s
    else (ok (intent_document e r), insert r.deployment_id (intent_document e r) s)

-- `reserve`
unfoldable pub reserve : Env → Intent → Exec Fields
unfolding reserve_found
reserve e r s = reserve_found e r (lookup r.deployment_id s) s

-- `transition_provider`
unfoldable pub transition_provider_change : Env → String → String → String → Change Fields
transition_provider_change e from_provider to_provider reason current =
    let changes = entry "provider" (str to_provider) (
      entry "reason" (str reason)
        (entry "status" (str "SUBMISSION_PENDING") (entry "updated_at" (str e.now) empty))) in
    do
      raise_if (is_locked current) (value_error "Reserved deployment provider is immutable")
      if value_eq (get "provider" current) (str to_provider) then ok (empty, current) else (do
        raise_if (not (value_eq (get "provider" current) (str from_provider)))
            (value_error "Deployment execution provider transition is invalid")
        run_if (to_provider == "cloud_build") (require_new_builds e)
        ok (changes, update current changes))

unfoldable pub transition_provider : Env → String → String → String → String → Exec Fields
unfolding transition_provider_change with_document
transition_provider e id from_provider to_provider reason =
    with_document id (transition_provider_change e from_provider to_provider reason)

-- `claim_submission`
unfoldable pub claim_submission_change : Env → Change Bool
claim_submission_change e current =
    if truthy (get "build_id" current)
      || not (in_texts (get "status" current) ("SUBMISSION_PENDING" ∷ "SUBMISSION_FAILED" ∷ []))
    then ok (empty, false)
    else ok (entry "status" (str "SUBMITTING") (entry "updated_at" (str e.now) empty), true)

unfoldable pub claim_submission : Env → String → Exec Bool
unfolding claim_submission_change with_document
claim_submission e id = with_document id (claim_submission_change e)

-- `_validate_selection`
unfoldable pub validate_selection : Fields → Fields → Result (Unit {0})
validate_selection current changes =
    raise_if
      (is_locked current && any_changed ("provider" ∷ "provider_selection" ∷ []) current changes)
      (value_error "Reserved deployment provider is immutable")

-- `save`
unfoldable pub save_change : Fields → Change Fields
save_change changes current = validate_selection current changes >> saved current changes

unfoldable pub save : Env → String → Fields → Exec Fields
unfolding save_change with_document
save e id kwargs = with_document id (save_change (put "updated_at" (str e.now) kwargs))

-- `accept_event`: `true` beside the document where the event was newer.
unfoldable pub accept_event_change : Env → ℕ → Fields → Change (Fields × Bool)
accept_event_change e sequence changes current = do
  seen ← to_int e (get_or "event_sequence" (num 0) current)
  if leb sequence seen
      then ok (empty, (current, false))
      else ok (changes, (update current changes, true))

abbrev pub event_changes : Env → ℕ → Fields → Fields
event_changes e sequence kwargs =
    put "updated_at" (str e.now) (put "event_sequence" (num sequence) kwargs)

unfoldable pub accept_event : Env → String → ℕ → Fields → Exec (Fields × Bool)
unfolding accept_event_change with_document
accept_event e id sequence kwargs =
    with_document id (accept_event_change e sequence (event_changes e sequence kwargs))

-- `eligible` of `claim_github_dispatch`
unfoldable pub eligible : Fields → Bool
eligible record_fields =
    value_eq (get "provider" record_fields) (str "github_actions")
    && in_texts (get "status" record_fields) ("SUBMISSION_PENDING" ∷ "GITHUB_REJECTED" ∷ [])

unfoldable pub github_dispatch_change : Change Bool
unfolding eligible
github_dispatch_change current =
    if eligible current
    then ok (entry "status" (str "GITHUB_DISPATCHING") empty, true)
    else ok (empty, false)

-- `claim_github_dispatch`: a deployment that has no document is not eligible.
unfoldable pub claim_github_dispatch : String → Exec Bool
unfolding github_dispatch_change commit
claim_github_dispatch id s = elim (lookup id s) [
  | none ↦ (ok false, s)
  | some current ↦ commit id current (github_dispatch_change current) s
]
