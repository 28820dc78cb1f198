-- ===== src/Circuit/State.antt =====
-- The circuit of an account and who opens it: `_id`, `get`, `is_open`, `require_billing_rejection`,
-- `open_circuit` and `claim_usage_alert` of eng_platform_api/services/executor_circuits.py.
use Prim.Native.String.{[] as no_text, ◌∷◌ as char_cons}
use gcp_engineering_platform.Base.{
  ℕ, zero, suc, String, Bool, true, false, ◌&&◌, ◌||◌, not, ◌==◌, if◌then◌else◌, Option, none, some,
}
use gcp_engineering_platform.Python.Value.{Value, str, dict, Fields, empty, entry, value_eq}
use gcp_engineering_platform.Python.Dict.{get, get_or, contains, put, update}
use gcp_engineering_platform.Python.Raise.{Env, Result, ok, value_error, raise_if}
use gcp_engineering_platform.Python.Store.{Store, Exec, lookup, insert}

-- `_id`
unfoldable pub circuit_id : Env → String → String
circuit_id e owner = e.digest (e.lower (e.strip owner))

-- `_collection()` is not None.
abbrev pub stored : Env → Bool
stored e = not (
    e.mock_mode
    || (not (e.orchestrator_enabled || e.cloud_build_enabled) || e.circuit_collection == ""))

-- A field that holds a dict, `{}` where it is absent.
unfoldable pub dict_of : Value → Fields
dict_of (dict d) = d
dict_of _ = empty

abbrev pub probe_of : Fields → Fields
probe_of current = dict_of (get "probe" current)

abbrev pub requests_of : Fields → Fields
requests_of current = dict_of (get "probe_requests" current)

-- `_memory.get(id, {})`, `snapshot.to_dict() if snapshot.exists else {}`
unfoldable pub found_or_empty : String → Store → Fields
found_or_empty id s = elim (lookup id s) [ none ↦ empty | some d ↦ d ]

-- `get`
unfoldable pub get_circuit : Env → String → Store → Fields
unfolding circuit_id
get_circuit e owner s = elim (lookup (circuit_id e owner) s) [
  | none ↦
      entry "owner" (str owner) (entry "state" (str "closed") (entry "updated_at" (str "") empty))
  | some d ↦ d
]

-- `is_open`
unfoldable pub is_open : Env → String → Store → Bool
unfolding get_circuit
is_open e owner s = value_eq (get "state" (get_circuit e owner s)) (str "open")

-- `require_billing_rejection`
unfoldable pub require_billing_rejection : Fields → Result (Unit {0})
require_billing_rejection circuit =
    raise_if
      (value_eq (get "state" circuit) (str "open")
        && not (value_eq (get "reason" circuit) (str "github_actions_billing_rejection")))
      (value_error "GitHub Actions circuit lacks a verified billing rejection")

-- The arguments of `open_circuit`.
pub record Opening : Type 0 where
  pub owner : String
  pub reason : String
  pub repository : String
  pub run_id : String
  pub evidence : String

-- `s[:n]`
unfoldable pub first : ℕ → String → String
first zero s = no_text
first (suc n) no_text = no_text
first (suc n) (char_cons c s) = char_cons c (first n s)

-- The probe requests that an opened circuit keeps. The Firestore path writes none for an account
-- that had no document.
unfoldable pub kept_requests : Env → Option Fields → Fields
kept_requests e none = if stored e then empty else entry "probe_requests" (dict empty) empty
kept_requests e (some current) =
    entry "probe_requests" (get_or "probe_requests" (dict empty) current) empty

-- The document of an opened circuit. It keeps the probe requests of the document before.
unfoldable pub opened_document : Env → Opening → Option Fields → Fields
unfolding first kept_requests
opened_document e o found = entry "owner" (str o.owner) (
    entry "state" (str "open") (
      entry "reason" (str (first 256 o.reason)) (
        entry "repository" (str o.repository) (
          entry "run_id" (str o.run_id) (
            entry "evidence" (str (first 1000 o.evidence)) (
              entry "opened_at" (str e.now)
                (entry "updated_at" (str e.now) (kept_requests e found))))))))

unfoldable pub open_found : Env → Opening → Option Fields → Exec (Fields × Bool)
unfolding opened_document
open_found e o none s = (
  ok (opened_document e o none, true),
  insert (circuit_id e o.owner) (opened_document e o none) s,
)
open_found e o (some current) s =
    if value_eq (get "state" current) (str "open") then (ok (current, false), s) else (
      ok (opened_document e o (some current), true),
      insert (circuit_id e o.owner) (opened_document e o (some current)) s,
    )

-- `open_circuit`: `true` beside the document where this call opened it.
unfoldable pub open_circuit : Env → Opening → Exec (Fields × Bool)
unfolding open_found circuit_id
open_circuit e o s = open_found e o (lookup (circuit_id e o.owner) s) s

-- The alerts that were emitted, with one more.
unfoldable pub alerted : Env → String → Value → Value → Fields → Fields
alerted e marker threshold observed_minutes alerts =
    put marker
      (dict (
        entry "threshold" threshold
          (entry "observed_minutes" observed_minutes (entry "emitted_at" (str e.now) empty))))
      alerts

-- The document that `claim_usage_alert` starts from where the account has none.
unfoldable pub closed_circuit : Env → String → Fields
closed_circuit e owner = entry "owner" (str owner) (
    entry "state" (str "closed") (if stored e then empty else entry "updated_at" (str e.now) empty))

-- The changes of `claim_usage_alert`. The Firestore path writes the owner and the state again.
unfoldable pub alert_changes : Env → String → Fields → Fields → Fields
alert_changes e owner alerts current =
    let written =
      entry "cloud_build_usage_alerts" (dict alerts) (entry "updated_at" (str e.now) empty) in
    if stored e
    then entry "owner" (str owner) (entry "state" (get_or "state" (str "closed") current) written)
    else written

-- `claim_usage_alert`, with `f"{month}:{threshold}"` as its marker.
unfoldable pub alert_found : Env → String → String → Value → Value → Fields → Exec Bool
unfolding alerted alert_changes circuit_id
alert_found e owner marker threshold observed_minutes current s =
    let alerts = dict_of (get "cloud_build_usage_alerts" current) in
    if contains marker alerts then (ok false, s) else (
      ok true,
      insert (circuit_id e owner)
          (update current
            (alert_changes e owner (alerted e marker threshold observed_minutes alerts) current))
          s,
    )

unfoldable pub claim_usage_alert : Env → String → String → Value → Value → Exec Bool
unfolding alert_found closed_circuit
claim_usage_alert e owner marker threshold observed_minutes s =
    elim (lookup (circuit_id e owner) s) [
      | none ↦ alert_found e owner marker threshold observed_minutes (closed_circuit e owner) s
      | some current ↦ alert_found e owner marker threshold observed_minutes current s
    ]
