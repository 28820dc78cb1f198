-- ===== src/Release/Admission.antt =====
-- Writes by a provider to its own execution: `save`, `save_for_provider`, `admit_github_run`,
-- `_require_event_identity`, `admit_event_provider` and `accept_event` of
-- eng_platform_api/services/release_executions.py.
use gcp_engineering_platform.Base.{
  ℕ, String, Bool, true, false, ◌&&◌, ◌||◌, not, List, [], ◌∷◌, ◌==◌, leb, if◌then◌else◌, Option,
  none, some,
}
use gcp_engineering_platform.Python.Value.{num, str, Fields, empty, entry, truthy, value_eq}
use gcp_engineering_platform.Python.Dict.{get, get_or, put, contains_any, update}
use gcp_engineering_platform.Python.Raise.{
  Env, Result, ok, raise, value_error, ◌>>=◌, ◌>>◌, raise_if, to_str, to_int,
}
use gcp_engineering_platform.Python.Store.{Change, Exec, with_document}
use gcp_engineering_platform.Release.Status.{in_texts}
use gcp_engineering_platform.Release.Validate.{identity_fields, validate_changes, saved, mutate}

-- `str(current.get("provider_run_id", ""))`
unfoldable pub run_of : Env → Fields → String
run_of e current = to_str e (get_or "provider_run_id" (str "") current)

-- `_require_event_identity`
unfoldable pub require_event_identity : Env → Fields → String → String → String → Result (Unit {0})
require_event_identity e current provider run token_hash = do
  raise_if (not (value_eq (get "provider" current) (str provider)))
      (value_error "Release execution provider changed")
  raise_if (run == "" || not (run_of e current == run))
      (value_error "Release execution run changed")
  raise_if
      (not (token_hash == "") && not (value_eq (get "event_token_hash" current) (str token_hash)))
      (value_error "Release execution event token changed")
  raise_if
      (truthy (get "bootstrap_ticket_id" current)
        && not (truthy (get "bootstrap_build_verified" current)))
      (value_error "Quality bootstrap build has not been verified")

-- `changes["updated_at"] = _now()`
abbrev pub stamped : Env → Fields → Fields
stamped e changes = put "updated_at" (str e.now) changes

-- `save`
unfoldable pub save_change : Env → Fields → Change Fields
save_change e changes current = validate_changes e current changes >> saved current changes

unfoldable pub save : Env → String → Fields → Exec Fields
unfolding save_change mutate
save e id kwargs s =
    let changes = stamped e kwargs in
    if contains_any identity_fields changes
    then (raise (value_error "Release execution identity fields are immutable"), s)
    else mutate e id (save_change e changes) s

-- `save_for_provider`
unfoldable pub save_for_provider_change : Env → String → Option String → Fields → Change Fields
save_for_provider_change e provider run changes current = do
  raise_if (not (value_eq (get "provider" current) (str provider)))
      (value_error "Release execution provider changed")
  raise_if (elim run [ none ↦ false | some r ↦ not (run_of e current == r) ])
      (value_error "Release execution run changed")
  validate_changes e current changes
  saved current changes

unfoldable pub save_for_provider : Env → String → String → Option String → Fields → Exec Fields
unfolding save_for_provider_change mutate
save_for_provider e id provider run kwargs =
    mutate e id (save_for_provider_change e provider run (stamped e kwargs))

-- `admit_github_run`
unfoldable pub admit_github_run_change : Env → String → Fields → Change Fields
admit_github_run_change e run changes current = do
  raise_if
      (not (value_eq (get "provider" current) (str "github_actions"))
        || truthy (get "bootstrap_ticket_id" current))
      (value_error "Release execution provider changed")
  raise_if (not (in_texts (get "status" current) ("waiting_github" ∷ "running_quality" ∷ [])))
      (value_error "Release execution is not available for GitHub admission")
  raise_if
      (truthy (get "provider_run_id" current)
        && not (to_str e (get "provider_run_id" current) == run))
      (value_error "Release execution already has a run")
  validate_changes e current changes
  saved current changes

-- `{**metadata, "provider_run_id": …, "github_run_id": …, "updated_at": …}`
unfoldable pub github_run_changes : Env → String → ℕ → Fields → Fields
github_run_changes e run number metadata =
    stamped e (put "github_run_id" (num number) (put "provider_run_id" (str run) metadata))

unfoldable pub admit_numbered : Env → String → String → Fields → Result ℕ → Exec Fields
unfolding admit_github_run_change mutate github_run_changes
admit_numbered e id run metadata (raise error) s = (raise error, s)
admit_numbered e id run metadata (ok number) s =
    mutate e id (admit_github_run_change e run (github_run_changes e run number metadata)) s

unfoldable pub admit_github_run : Env → String → String → Fields → Exec Fields
unfolding admit_numbered
admit_github_run e id run metadata s =
    if run == "" || not (e.is_digit run)
    then (raise (value_error "GitHub workflow run is invalid"), s)
    else admit_numbered e id run metadata (to_int e (str run)) s

-- The statuses in which no event is admitted any more.
abbrev pub event_terminal : List String
event_terminal = "failed" ∷ "quality_failed" ∷ "no_release" ∷ "released" ∷ "superseded" ∷ []

-- `admit_event_provider`
unfoldable pub admit_event_change : Env → String → String → String → Change Fields
admit_event_change e provider run token_hash current = do
  require_event_identity e current provider run token_hash
  raise_if
      (in_texts (get "status" current) event_terminal
        || (truthy (get "bootstrap_ticket_id" current)
            && value_eq (get "status" current) (str "quality_passed")))
      (value_error "Release execution is terminal")
  saved current (entry "event_admitted_at" (str e.now) empty)

unfoldable pub admit_event_provider : Env → String → String → String → String → Exec Fields
unfolding admit_event_change mutate
admit_event_provider e id provider run token_hash =
    mutate e id (admit_event_change e provider run token_hash)

-- `accept_event`: `true` beside the document where the event was newer.
unfoldable pub accept_event_change :
    Env → ℕ → String → String → String → Fields → Change (Fields × Bool)
accept_event_change e sequence provider run token_hash changes current = do
  if not (provider == "")
      then require_event_identity e current provider run token_hash
      else raise_if (truthy (get "bootstrap_ticket_id" current))
          (value_error "Quality bootstrap event requires verified provider identity")
  seen ← to_int e (get_or "event_sequence" (num 0) current)
  if leb sequence seen
      then ok (empty, (current, false))
      else (do validate_changes e current changes; ok (changes, (update current changes, true)))

unfoldable pub accept_event :
    Env → String → ℕ → String → String → String → Fields → Exec (Fields × Bool)
unfolding accept_event_change with_document
accept_event e id sequence provider run token_hash kwargs = with_document id (
    accept_event_change e sequence provider run token_hash
      (stamped e (put "event_sequence" (num sequence) kwargs)))
