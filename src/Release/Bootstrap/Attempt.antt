-- ===== src/Release/Bootstrap/Attempt.antt =====
-- The attempt of the one-time quality bootstrap: `update_quality_bootstrap` and
-- `claim_quality_bootstrap_dispatch` of eng_platform_api/services/release_executions.py.
use Prim.Native.String.{count}
use gcp_engineering_platform.Base.{
  String, Bool, true, false, ◌&&◌, ◌||◌, not, List, [], ◌∷◌, ◌==◌, ltb, if◌then◌else◌, elem,
}
use gcp_engineering_platform.Python.Value.{
  Value, null, bool, str, dict, Fields, empty, entry, truthy, value_eq,
}
use gcp_engineering_platform.Python.Dict.{get, put, contains, contains_any}
use gcp_engineering_platform.Python.Raise.{
  Env, Result, ok, raise, value_error, ◌>>◌, raise_if, to_str,
}
use gcp_engineering_platform.Python.Store.{Change, Exec}
use gcp_engineering_platform.Release.Status.{in_texts, validate_status_change}
use gcp_engineering_platform.Release.Validate.{
  bootstrap_ticket, retry_statuses, require_bootstrap_storage, saved, mutate,
}

-- The fields that `update_quality_bootstrap` writes.
abbrev pub allowed_updates : List String
allowed_updates =
    "status" ∷ "error" ∷ "build_id" ∷ "provider_run_id" ∷ "provider_status" ∷ "logs_url"
    ∷ "build_name" ∷ "submission_reconciled_at" ∷ "bootstrap_build_verified"
    ∷ "bootstrap_verified_request_hash" ∷ []

-- `set(d).issubset(names)`
unfoldable pub keys_within : List String → Fields → Bool
keys_within names empty = true
keys_within names (entry k v d) = elem k names && keys_within names d

-- `v in (None, "", text)`
unfoldable pub unset_or : String → Value → Bool
unset_or text v = value_eq v null || (value_eq v (str "") || value_eq v (str text))

unfoldable pub is_true : Value → Bool
is_true (bool b) = b
is_true _ = false

-- The check of a build binding in `update_quality_bootstrap`.
unfoldable pub build_verified : Env → Fields → Fields → Bool
unfolding unset_or is_true
build_verified e current changes =
    let build = to_str e (get "build_id" changes) in
    truthy (get "bootstrap_dispatch_started" current)
    && (not (build == "")
        && (not (ltb 128 (count build))
            && (value_eq (get "provider_run_id" changes) (str build)
                && (is_true (get "bootstrap_build_verified" changes)
                    && (value_eq (get "bootstrap_verified_request_hash" changes)
                          (get "bootstrap_build_request_hash" current)
                        && (unset_or build (get "build_id" current)
                            && unset_or build (get "provider_run_id" current)))))))

unfoldable pub bootstrap_update_change : Env → String → Fields → Change Fields
unfolding build_verified
bootstrap_update_change e nonce changes current = do
  raise_if
      (not (value_eq (get "bootstrap_ticket_id" current) (str bootstrap_ticket))
        || not (value_eq (get "bootstrap_nonce" current) (str nonce)))
      (value_error "Quality bootstrap attempt identity mismatch")
  if contains "build_id" changes
      then raise_if (not (build_verified e current changes))
          (value_error "Quality bootstrap build binding is not verified")
      else raise_if
          (contains_any
            ("provider_run_id" ∷ "bootstrap_build_verified" ∷ "bootstrap_verified_request_hash"
              ∷ [])
            changes)
          (value_error "Quality bootstrap verification requires a build binding")
  raise_if (in_texts (get "status" changes) retry_statuses)
      (value_error "Quality bootstrap attempt cannot be retried")
  validate_status_change e current changes
  saved current changes

unfoldable pub update_checked : Env → String → String → Fields → Result (Unit {0}) → Exec Fields
unfolding bootstrap_update_change mutate
update_checked e id nonce changes (raise error) s = (raise error, s)
update_checked e id nonce changes (ok _) s =
    mutate e id (bootstrap_update_change e nonce (put "updated_at" (str e.now) changes)) s

-- `update_quality_bootstrap`
unfoldable pub update_quality_bootstrap : Env → String → String → Fields → Exec Fields
unfolding update_checked keys_within
update_quality_bootstrap e id nonce changes = update_checked e id nonce changes (do
  require_bootstrap_storage e
  raise_if (not (keys_within allowed_updates changes))
      (value_error "Quality bootstrap update contains reserved fields"))

-- `current.get("bootstrap_binding", {}).get("dispatch_token_hash")`
unfoldable pub bound_token_hash : Fields → Value
bound_token_hash current = elim (get "bootstrap_binding" current) [
  | dict binding ↦ get "dispatch_token_hash" binding
  | _ ↦ null
]

unfoldable pub dispatch_change : Env → String → String → Change Bool
unfolding bound_token_hash
dispatch_change e nonce token current =
    if not (value_eq (get "bootstrap_ticket_id" current) (str bootstrap_ticket))
      || (not (value_eq (get "bootstrap_nonce" current) (str nonce))
          || (token == ""
              || (not (value_eq (bound_token_hash current) (str (e.digest token)))
                  || (truthy (get "bootstrap_dispatch_started" current)
                      || (not (value_eq (get "provider" current) (str "cloud_build"))
                          || (not (value_eq (get "status" current) (str "submitting"))
                              || truthy (get "build_id" current)))))))
    then ok (empty, false)
    else ok (
      entry "bootstrap_dispatch_started" (bool true) (
          entry "bootstrap_dispatch_started_at" (str e.now) (entry "updated_at" (str e.now) empty)),
      true,
    )

unfoldable pub dispatch_checked : Env → String → String → String → Result (Unit {0}) → Exec Bool
unfolding dispatch_change mutate
dispatch_checked e id nonce token (raise error) s = (raise error, s)
dispatch_checked e id nonce token (ok _) s = mutate e id (dispatch_change e nonce token) s

-- `claim_quality_bootstrap_dispatch`
unfoldable pub claim_quality_bootstrap_dispatch : Env → String → String → String → Exec Bool
unfolding dispatch_checked
claim_quality_bootstrap_dispatch e id nonce token =
    dispatch_checked e id nonce token (require_bootstrap_storage e)
