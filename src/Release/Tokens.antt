-- ===== src/Release/Tokens.antt =====
-- One token per verified provider attempt: `_claim_build_scoped_token`, `claim_source_token` and
-- `claim_event_token` of eng_platform_api/services/release_executions.py.
use Prim.Native.Char.{code}
use Prim.Native.String.{count}
use gcp_engineering_platform.Base.{
  ℕ, String, Bool, true, false, ◌&&◌, ◌||◌, not, List, [], ◌∷◌, ◌==◌, leb, nat_eq, if◌then◌else◌,
  none, some,
}
use gcp_engineering_platform.Python.Value.{
  str, list, Items, empty_list, Fields, empty, entry, truthy, value_eq, in_items,
}
use gcp_engineering_platform.Python.Dict.{get, get_or, put}
use gcp_engineering_platform.Python.Raise.{
  Env, Result, ok, raise, value_error, ◌>>=◌, ◌>>◌, run_if, to_str,
}
use gcp_engineering_platform.Python.Store.{Change, Exec, lookup, commit}
use gcp_engineering_platform.Release.Status.{in_texts}
use gcp_engineering_platform.Release.Validate.{require_bootstrap_storage}
use gcp_engineering_platform.Release.Admission.{run_of}

-- `set(current.get("previous_build_ids") or [])`; the field holds None or a list.
unfoldable pub previous_builds : Fields → Items
previous_builds current = elim (get "previous_build_ids" current) [
  | list ids ↦ ids
  | _ ↦ empty_list
]

abbrev pub bootstrap_closed : List String
bootstrap_closed =
    "failed" ∷ "quality_failed" ∷ "no_release" ∷ "released" ∷ "superseded" ∷ "quality_passed" ∷ []

-- The end of `_claim_build_scoped_token`, for the builds that were replaced before.
unfoldable pub token_available : Env → Fields → String → String → String → Items → Bool
token_available e current run token_field issued_field previous =
    let issued_for = to_str e (get_or token_field (str "") current) in
    if issued_for == run
    then false
    else (if not (issued_for == "") && not (in_items (str issued_for) previous)
        then false
        else (if (issued_for == "" && truthy (get issued_field current))
              && (not (truthy (list previous)) || in_items (str run) previous)
            then false
            else true))

-- The choice by provider in `_claim_build_scoped_token`.
unfoldable pub provider_claim : Env → Fields → String → String → String → Bool
unfolding token_available
provider_claim e current run token_field issued_field =
    if value_eq (get "provider" current) (str "cloud_build")
    then (if not (value_eq (get "build_id" current) (str run))
        then false
        else token_available e current run token_field issued_field (previous_builds current))
    else (if value_eq (get "provider" current) (str "github_actions")
          && (token_field == "event_token_provider_run_id"
              || token_field == "source_token_provider_run_id")
        then (if not (run_of e current == run)
            then false
            else (if token_field == "source_token_provider_run_id"
                  && not
                      (in_texts (get "status" current) ("waiting_github" ∷ "running_quality" ∷ []))
                then false
                else token_available e current run token_field issued_field empty_list))
        else false)

-- `_claim_build_scoped_token` behind the storage check of a bootstrap execution.
unfoldable pub scoped_claim : Env → Fields → String → String → String → Bool
unfolding provider_claim
scoped_claim e current run token_field issued_field =
    if truthy (get "bootstrap_ticket_id" current)
      && (not (truthy (get "bootstrap_build_verified" current))
          || in_texts (get "status" current) bootstrap_closed)
    then false
    else (if run == "" then false else provider_claim e current run token_field issued_field)

-- `_claim_build_scoped_token`
unfoldable pub claim_build_scoped_token : Env → Fields → String → String → String → Result Bool
unfolding scoped_claim
claim_build_scoped_token e current run token_field issued_field = do
  run_if (truthy (get "bootstrap_ticket_id" current) && not e.mock_mode)
      (require_bootstrap_storage e)
  ok (scoped_claim e current run token_field issued_field)

-- A missing document is no error here: the claim is refused.
module _ {A : Type 0} where
  unfoldable pub with_document_or : A → String → Change A → Exec A
  unfolding commit
  with_document_or default id f s = elim (lookup id s) [
    | none ↦ (ok default, s)
    | some current ↦ commit id current (f current) s
  ]

-- `"…_build_id" if current.get("provider") == "cloud_build" else "…_provider_run_id"`
unfoldable pub token_field_of : String → String → Fields → String
token_field_of for_build for_run current =
    if value_eq (get "provider" current) (str "cloud_build") then for_build else for_run

-- A property of both names holds of the chosen one.
pub token_field_of-either :
    (P : String → Type 0) (b r : String) (current : Fields)
    → P b
    → P r
    → P (token_field_of b r current)
unfolding token_field_of
token_field_of-either P b r current hb hr =
    either (value_eq (get "provider" current) (str "cloud_build"))
  where
    either : (t : Bool) → P (if t then b else r)
    either true = hb
    either false = hr

unfoldable pub source_token_change : Env → String → Change Bool
unfolding token_field_of
source_token_change e run current =
    let token_field =
      token_field_of "source_token_build_id" "source_token_provider_run_id" current in
    let changes =
      entry "source_token_issued_at" (str e.now) (entry "updated_at" (str e.now) empty) in
    do
      granted ← claim_build_scoped_token e current run token_field "source_token_issued_at"
      ok (if granted then (put token_field (str run) changes, true) else (empty, false))

-- `claim_source_token`
unfoldable pub claim_source_token : Env → String → String → Exec Bool
unfolding source_token_change with_document_or
claim_source_token e id run = with_document_or false id (source_token_change e run)

unfoldable pub event_token_change : Env → String → String → Change Bool
unfolding token_field_of
event_token_change e run token_hash current =
    let token_field = token_field_of "event_token_build_id" "event_token_provider_run_id" current in
    let changes =
      entry "event_token_hash" (str token_hash)
        (entry "event_token_issued_at" (str e.now) (entry "updated_at" (str e.now) empty)) in
    do
      granted ← claim_build_scoped_token e current run token_field "event_token_issued_at"
      ok (if granted then (put token_field (str run) changes, true) else (empty, false))

-- A character of `0123456789abcdef`, and a text of such characters.
unfoldable pub is_hex_code : ℕ → Bool
is_hex_code c = (leb b'0' c && leb c b'9') || (leb b'a' c && leb c b'f')

unfoldable pub all_hex : String → Bool
unfolding is_hex_code
all_hex String.[] = true
all_hex (String.◌∷◌ c s) = is_hex_code (code c) && all_hex s

-- `len(text) == 64 and all(character in "0123456789abcdef" for character in text)`
unfoldable pub is_hex_digest : String → Bool
unfolding all_hex
is_hex_digest text = nat_eq (count text) 64 && all_hex text

-- `claim_event_token`
unfoldable pub claim_event_token : Env → String → String → String → Exec Bool
unfolding event_token_change with_document_or is_hex_digest
claim_event_token e id run token_hash s =
    if not (is_hex_digest token_hash)
    then (raise (value_error "Event token hash must be a SHA-256 hex digest"), s)
    else with_document_or false id (event_token_change e run token_hash) s
