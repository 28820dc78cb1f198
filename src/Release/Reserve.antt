-- ===== src/Release/Reserve.antt =====
-- Reservation of an execution under its fingerprint: `fingerprint`, `reserve` and `get` of
-- eng_platform_api/services/release_executions.py.
use gcp_engineering_platform.Base.{
  String, Bool, true, false, ◌||◌, not, List, [], ◌∷◌, ◌==◌, if◌then◌else◌, Option, none, some,
}
use gcp_engineering_platform.Python.Value.{
  Value, num, str, dict, Fields, empty, entry, truthy, value_eq,
}
use gcp_engineering_platform.Python.Dict.{get}
use gcp_engineering_platform.Python.Raise.{Env, Result, ok, raise, value_error, ◌>>◌, persistent}
use gcp_engineering_platform.Python.Store.{Store, Exec, lookup, insert}
use gcp_engineering_platform.Release.Validate.{require_storage_for}

-- The keyword arguments of `reserve`.
pub record Reservation : Type 0 where
  pub fingerprint_value : String
  pub repository : String
  pub service_name : String
  pub operation : String
  pub head_sha : String
  pub base_sha : String
  pub branch : String
  pub profile_hash : String
  pub executor_digest : String
  pub policy_hash : String
  pub planner_hash : String
  pub provider : String
  pub delivery_id : String
  pub provider_selection : Value
  pub trigger_event : String

-- `fingerprint`: the digest of what identifies the execution. `json.dumps` sorts the keys.
unfoldable pub fingerprint : Env → Reservation → String
fingerprint e r = e.digest (
    e.dumps (
      dict (
        entry "repository" (str (e.lower r.repository)) (
          entry "service_name" (str r.service_name) (
            entry "operation" (str r.operation) (
              entry "head_sha" (str (e.lower r.head_sha)) (
                entry "base_sha" (str (e.lower r.base_sha)) (
                  entry "profile_hash" (str r.profile_hash) (
                    entry "executor_digest" (str r.executor_digest) (
                      entry "policy_hash" (str r.policy_hash) (
                        entry "planner_hash"
                          (str (if r.operation == "main_release" then r.planner_hash else ""))
                          empty)))))))))))

-- The new document of `reserve`.
unfoldable pub reserved_document : Env → Reservation → Fields
reserved_document e r = entry "execution_id" (str r.fingerprint_value) (
    entry "fingerprint" (str r.fingerprint_value) (
      entry "repository" (str r.repository) (
        entry "service_name" (str r.service_name) (
          entry "operation" (str r.operation) (
            entry "head_sha" (str (e.lower r.head_sha)) (
              entry "base_sha" (str (e.lower r.base_sha)) (
                entry "branch" (str r.branch) (
                  entry "profile_hash" (str r.profile_hash) (
                    entry "executor_digest" (str r.executor_digest) (
                      entry "policy_hash" (str r.policy_hash) (
                        entry "planner_hash" (str r.planner_hash) (
                          entry "provider" (str r.provider) (
                            entry "status"
                              (str (
                                if r.provider == "github_actions"
                                then "waiting_github"
                                else "submission_pending"))
                              (entry "delivery_id" (str r.delivery_id) (
                                entry "provider_selection" r.provider_selection (
                                  entry "trigger_event" (str r.trigger_event) (
                                    entry "event_sequence" (num 0) (
                                      entry "created_at" (str e.now)
                                        (entry "updated_at" (str e.now) empty)))))))))))))))))))

-- The fields that a repeated reservation must agree on.
abbrev pub reserved_identity : List String
reserved_identity =
    "fingerprint" ∷ "repository" ∷ "service_name" ∷ "operation" ∷ "head_sha" ∷ "base_sha"
    ∷ "profile_hash" ∷ "executor_digest" ∷ "policy_hash" ∷ "planner_hash" ∷ []

-- `any(current.get(field) != value[field] for field in fields)`
unfoldable pub any_differs : List String → Fields → Fields → Bool
any_differs [] current value = false
any_differs (k ∷ ks) current value =
    not (value_eq (get k current) (get k value)) || any_differs ks current value

-- An existing document is returned, not written. The memory path takes an empty one for absent.
unfoldable pub reserve_existing : Fields → Fields → Store → Result (Fields × Bool) × Store
reserve_existing value current s =
    if any_differs reserved_identity current value
    then (raise (value_error "Release execution identity cannot change"), s)
    else (ok (current, false), s)

unfoldable pub reserve_new : String → Fields → Store → Result (Fields × Bool) × Store
reserve_new id value s = (ok (value, true), insert id value s)

unfoldable pub reserve_value :
    Bool → String → Fields → Option Fields → Store → Result (Fields × Bool) × Store
unfolding reserve_existing reserve_new
reserve_value in_firestore id value none s = reserve_new id value s
reserve_value in_firestore id value (some current) s =
    if in_firestore || truthy (dict current)
    then reserve_existing value current s
    else reserve_new id value s

-- `reserve`: `true` beside the document where it is new.
unfoldable pub reserve : Env → Reservation → Exec (Fields × Bool)
unfolding reserve_value
reserve e r s =
    if not (r.fingerprint_value == fingerprint e r)
    then (raise (value_error "Release execution fingerprint does not match identity"), s)
    else reserve_value (persistent e) r.fingerprint_value (reserved_document e r)
        (lookup r.fingerprint_value s) s

-- `get`: the memory path refuses a bootstrap execution outside mock mode, and answers None for an
-- empty document.
get_value : Env → Option Fields → Result (Option Fields)
get_value e none = ok none
get_value e (some current) =
    require_storage_for e current
    >> ok (if persistent e || truthy (dict current) then some current else none)

unfoldable pub get_execution : Env → String → Store → Result (Option Fields)
unfolding get_value
get_execution e id s = get_value e (lookup id s)
