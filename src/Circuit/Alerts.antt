-- ===== src/Circuit/Alerts.antt =====
-- Repeated calls of `claim_usage_alert` and `open_circuit` of
-- eng_platform_api/services/executor_circuits.py.
use gcp_engineering_platform.Base.{
  String, Bool, true, false, List, Option, none, some, ◌≡◌, refl, ap, arith, eq_refl, Option-cases,
  Bool-cases, inl, inr,
}
use gcp_engineering_platform.Python.Value.{
  Value, null, str, dict, Fields, empty, entry, truthy, value_eq, find,
}
use gcp_engineering_platform.Python.Dict.{
  get, get_or, contains, contains-put, put, update, get-update_set, get-update_other,
}
use gcp_engineering_platform.Python.Raise.{Env, ok}
use gcp_engineering_platform.Python.Store.{Store, lookup}
use gcp_engineering_platform.Python.Store.Lift.{Writes, Holds, lookup-insert_self, put-nonempty}
use gcp_engineering_platform.Circuit.State.{
  stored, circuit_id, dict_of, Opening, opened_document, open_found, open_circuit, alerted,
  alert_changes, alert_found, closed_circuit, claim_usage_alert,
}
use gcp_engineering_platform.Circuit.Probe.{ProbeRequest, reserve_probe_change, reservation}
use gcp_engineering_platform.Circuit.Recovery.{closing_changes}
use gcp_engineering_platform.Circuit.Ops.{
  Call, call_open, all_calls, run_all, Respected, Evolves-run_all,
}
use gcp_engineering_platform.Circuit.Unproven.{finished_changes, recorded_changes}
use gcp_engineering_platform.Circuit.Requests.{reserved_changes, closed_changes}

abbrev pub alerts_of : Fields → Fields
alerts_of d = dict_of (get "cloud_build_usage_alerts" d)

abbrev pub AlertsKept : Fields → Fields → Type 0
AlertsKept d d' = (k : String) → contains k (alerts_of d) ≡ true → contains k (alerts_of d') ≡ true

spared-AlertsKept :
    (d c : Fields) → contains "cloud_build_usage_alerts" c ≡ false → AlertsKept d (update d c)
spared-AlertsKept d c spared k there =
    rw (get-update_other "cloud_build_usage_alerts" null d c spared) there

-- What an alert leaves.
alerts_of-changes :
    (e : Env) (owner : String) (alerts d : Fields)
    → alerts_of (update d (alert_changes e owner alerts d)) ≡ alerts
unfolding alert_changes contains get_or find dict_of
alerts_of-changes e owner alerts d = elim (Bool-cases (stored e)) [
  | inl firestore ↦ rw firestore (
      ap dict_of (
        get-update_set "cloud_build_usage_alerts" null d
          (entry "owner" (str owner) (
            entry "state" (get_or "state" (str "closed") d) (
              entry "cloud_build_usage_alerts" (dict alerts)
                (entry "updated_at" (str e.now) empty))))
          refl))
  | inr memory ↦ rw memory (
      ap dict_of (
        get-update_set "cloud_build_usage_alerts" null d
          (entry "cloud_build_usage_alerts" (dict alerts) (entry "updated_at" (str e.now) empty))
          refl))
]

alert-AlertsKept :
    (e : Env) (owner marker : String) (t m : Value) (d : Fields)
    → AlertsKept d (update d (alert_changes e owner (alerted e marker t m (alerts_of d)) d))
unfolding alerted
alert-AlertsKept e owner marker t m d k there =
    rw (alerts_of-changes e owner (alerted e marker t m (alerts_of d)) d, contains-put, there)
      (ground arith)

-- A call that opens no circuit. Opening one writes a new document, without the alerts.
unfoldable pub opens_no_circuit : Call → Bool
opens_no_circuit (call_open o) = false
opens_no_circuit _ = true

reserve-AlertsKept : (e : Env) (r : ProbeRequest) → Writes AlertsKept (reserve_probe_change e r)
unfolding reservation contains
reserve-AlertsKept e r d c (x, new) h = elim (reserved_changes e r d c x new h) [
  | inl (nothing, _, _) ↦ rw nothing (spared-AlertsKept d empty refl)
  | inr (written, _, _) ↦ rw written (spared-AlertsKept d (reservation e r d) refl)
]

AlertsKept-Respected : Respected AlertsKept opens_no_circuit
unfolding opens_no_circuit closing_changes contains put
AlertsKept-Respected = record {
  reflexive = λ d k there. there;
  transitive = λ a b c f g k there. g k (f k there);
  opens = λ e o d within not_open. cc;
  alerts = λ e owner marker t m d. alert-AlertsKept e owner marker t m d;
  reserves = λ e r. reserve-AlertsKept e r;
  finishes = λ e nonce status d c x h.
      rw (finished_changes e nonce status d c x h) (spared-AlertsKept d _ refl);
  records = λ e r seen requested within d c x h.
      rw (recorded_changes e r requested d c x h) (spared-AlertsKept d _ refl);
  closes = λ e owner run_id within d c x h.
      rw (closed_changes e run_id d c x h) (spared-AlertsKept d _ refl);
}

alerted-nonempty :
    (e : Env) (owner : String) (alerts d : Fields)
    → truthy (dict (update d (alert_changes e owner alerts d))) ≡ true
unfolding alert_changes update
alerted-nonempty e owner alerts d = elim (Bool-cases (stored e)) [
  | inl firestore ↦ rw firestore (put-nonempty "owner" _ _)
  | inr memory ↦ rw memory (put-nonempty "cloud_build_usage_alerts" _ _)
]

-- What a granted alert wrote.
granted_alert :
    (e : Env) (owner marker : String) (t m : Value) (d : Fields) (s : Store)
    → (alert_found e owner marker t m d s).0 ≡ ok true
    → (d' : Fields) × Holds (circuit_id e owner) (alert_found e owner marker t m d s).1 d'
      × (contains marker (alerts_of d') ≡ true)
unfolding alert_found
granted_alert e owner marker t m d s h = elim (Bool-cases (contains marker (alerts_of d))) [
  | inl old ↦ absurd (cc (rw old at h))
  | inr fresh ↦ (
    update d (alert_changes e owner (alerted e marker t m (alerts_of d)) d),
    rw fresh (lookup-insert_self (circuit_id e owner) _ s, alerted-nonempty e owner _ d),
    rw (alerts_of-changes e owner (alerted e marker t m (alerts_of d)) d)
        (unfold alerted in rw (contains-put, eq_refl) refl),
  )
]

claimed_alert :
    (e : Env) (owner marker : String) (t m : Value) (s : Store)
    → (claim_usage_alert e owner marker t m s).0 ≡ ok true
    → (d' : Fields) × Holds (circuit_id e owner) (claim_usage_alert e owner marker t m s).1 d'
      × (contains marker (alerts_of d') ≡ true)
unfolding claim_usage_alert
claimed_alert e owner marker t m s h = elim (Option-cases (lookup (circuit_id e owner) s)) [
  | inl missing ↦
      rw (missing, claim_usage_alert)
        (granted_alert e owner marker t m (closed_circuit e owner) s
          (rw (missing, claim_usage_alert) at h))
  | inr (d, found) ↦
      rw (found, claim_usage_alert)
        (granted_alert e owner marker t m d s (rw (found, claim_usage_alert) at h))
]

alert_refused :
    (e : Env) (owner marker : String) (t m : Value) (d : Fields) (s : Store)
    → lookup (circuit_id e owner) s ≡ some d
    → contains marker (alerts_of d) ≡ true
    → (claim_usage_alert e owner marker t m s).0 ≡ ok false
unfolding claim_usage_alert alert_found
alert_refused e owner marker t m d s found old =
    rw (found, claim_usage_alert) (rw (old, alert_found) refl)

-- Once a usage threshold of a month was alerted for an account, it is alerted no more, whatever the
-- usage then is, after any history of calls of any processes that opens no circuit.
pub usage_alerted_once :
    (e e' : Env) (owner owner' marker : String) (t t' m m' : Value) (history : List (Env × Call))
    (s : Store)
    → all_calls opens_no_circuit history ≡ true
    → circuit_id e' owner' ≡ circuit_id e owner
    → (claim_usage_alert e owner marker t m s).0 ≡ ok true
    → (claim_usage_alert e' owner' marker t' m'
        (run_all history (claim_usage_alert e owner marker t m s).1)).0
      ≡ ok false
usage_alerted_once e e' owner owner' marker t t' m m' history s within account h =
    let u = (claim_usage_alert e owner marker t m s).1 in
    let (d, held, old) = claimed_alert e owner marker t m s h in
    let (d', held', keeps) =
      (Evolves-run_all AlertsKept-Respected history u within).becomes (circuit_id e owner) d held in
    alert_refused e' owner' marker t' m' d' (run_all history u) (rw account held'.0)
      (keeps marker old)

-- What an opening leaves: an open circuit.
opened :
    (e : Env) (o : Opening) (s : Store) (found : Option Fields)
    → lookup (circuit_id e o.owner) s ≡ found
    → (d : Fields) × (lookup (circuit_id e o.owner) (open_found e o found s).1 ≡ some d)
      × (value_eq (get "state" d) (str "open") ≡ true)
unfolding open_found opened_document value_eq get_or find
opened e o s none h = (opened_document e o none, lookup-insert_self _ _ s, refl)
opened e o s (some d) h = elim (Bool-cases (value_eq (get "state" d) (str "open"))) [
  | inl is_open ↦ (d, rw is_open h, is_open)
  | inr closed ↦ (
    opened_document e o (some d),
    rw closed (lookup-insert_self (circuit_id e o.owner) _ s),
    refl,
  )
]

open_again :
    (e : Env) (o : Opening) (s : Store) (d : Fields)
    → lookup (circuit_id e o.owner) s ≡ some d
    → value_eq (get "state" d) (str "open") ≡ true
    → open_circuit e o s ≡ (ok (d, false), s)
unfolding open_circuit open_found
open_again e o s d held is_open = rw (held, open_circuit) (rw (is_open, open_found) refl)

-- After a call that opens a circuit, whether it was open before or not, the next call that opens the
-- circuit of the same account is told that it did not open it, and replaces no evidence.
pub circuit_opened_once :
    (e e' : Env) (o o' : Opening) (s : Store)
    → circuit_id e' o'.owner ≡ circuit_id e o.owner
    → (d : Fields) × (lookup (circuit_id e o.owner) (open_circuit e o s).1 ≡ some d)
      × (open_circuit e' o' (open_circuit e o s).1 ≡ (ok (d, false), (open_circuit e o s).1))
unfolding open_circuit
circuit_opened_once e e' o o' s account =
    let (d, held, is_open) = opened e o s (lookup (circuit_id e o.owner) s) refl in
    (d, held, open_again e' o' (open_circuit e o s).1 d (rw account held) is_open)
