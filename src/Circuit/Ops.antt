-- ===== src/Circuit/Ops.antt =====
-- Histories of calls of eng_platform_api/services/executor_circuits.py, and the rule by which what
-- every operation respects, every history respects.
use gcp_engineering_platform.Base.{
  String, Bool, true, false, ◌&&◌, List, [], ◌∷◌, Option, none, some, ◌≡◌, refl, and_true,
  Option-cases, Bool-cases, inl, inr,
}
use gcp_engineering_platform.Python.Value.{Value, str, dict, Fields, empty, truthy, value_eq}
use gcp_engineering_platform.Python.Dict.{get, contains, update}
use gcp_engineering_platform.Python.Raise.{Env, Result, ok, raise}
use gcp_engineering_platform.Python.Store.{Store, Change, lookup, commit}
use gcp_engineering_platform.Python.Store.Lift.{
  Writes, Evolves, Evolves-refl, Evolves-insert, Evolves-insert_fresh, Evolves-commit,
  update-nonempty,
}
use gcp_engineering_platform.Circuit.State.{
  circuit_id, found_or_empty, Opening, opened_document, open_found, open_circuit, dict_of, alerted,
  alert_changes, alert_found, closed_circuit, claim_usage_alert,
}
use gcp_engineering_platform.Circuit.Probe.{
  ProbeRequest, on_circuit, reserve_probe, reserve_probe_change, finish_probe_dispatch,
  finish_probe_change,
}
use gcp_engineering_platform.Circuit.Recovery.{
  Report, record_probe, record_probe_change, close_after_successful_probe, close_change,
}

pub data Call : Type 0 where
  call_open : Opening → Call
  call_usage_alert : String → String → Value → Value → Call
  call_reserve_probe : ProbeRequest → Call
  call_finish_probe : String → String → String → Call
  call_record_probe : Report → Store → Call
  call_close : String → String → Call

-- The collection after a call, whether it returned or raised.
unfoldable pub run : Env → Call → Store → Store
run e (call_open o) s = (open_circuit e o s).1
run e (call_usage_alert owner marker threshold minutes) s =
    (claim_usage_alert e owner marker threshold minutes s).1
run e (call_reserve_probe r) s = (reserve_probe e r s).1
run e (call_finish_probe owner nonce status) s = (finish_probe_dispatch e owner nonce status s).1
run e (call_record_probe r seen) s = (record_probe e r seen s).1
run e (call_close owner run_id) s = (close_after_successful_probe e owner run_id s).1

unfoldable pub run_all : List (Env × Call) → Store → Store
run_all [] s = s
run_all ((e, call) ∷ rest) s = run_all rest (run e call s)

-- Every call of a history passes the test.
unfoldable pub all_calls : (Call → Bool) → List (Env × Call) → Bool
all_calls allowed [] = true
all_calls allowed ((_, call) ∷ rest) = allowed call && all_calls allowed rest

-- Each operation, called as the test allows, writes what is related to the document it found.
pub record Respected (R : Fields → Fields → Type 0) (allowed : Call → Bool) : Type 0 where
  pub reflexive : (d : Fields) → R d d
  pub transitive : (a b c : Fields) → R a b → R b c → R a c
  pub opens :
      (e : Env) (o : Opening) (d : Fields)
      → allowed (call_open o) ≡ true
      → value_eq (get "state" d) (str "open") ≡ false
      → R d (opened_document e o (some d))
  pub alerts :
      (e : Env) (owner marker : String) (t m : Value) (d : Fields)
      → R d (
          update d (
            alert_changes e owner
              (alerted e marker t m (dict_of (get "cloud_build_usage_alerts" d)))
              d))
  pub reserves : (e : Env) (r : ProbeRequest) → Writes R (reserve_probe_change e r)
  pub finishes : (e : Env) (nonce status : String) → Writes R (finish_probe_change e nonce status)
  pub records :
      (e : Env) (r : Report) (seen : Store) (requested : Fields)
      → allowed (call_record_probe r seen) ≡ true
      → Writes R (record_probe_change e r requested)
  pub closes :
      (e : Env) (owner run_id : String)
      → allowed (call_close owner run_id) ≡ true
      → Writes R (close_change e run_id)

module _ {R : Fields → Fields → Type 0} (reflexive : (d : Fields) → R d d) where
  fresh-Evolves :
      {A : Type 0} (id : String) (s : Store) (r : Result (Fields × A))
      → lookup id s ≡ none
      → Evolves R s (commit id empty r s).1
  unfolding commit
  fresh-Evolves id s (ok (c, a)) missing =
      Evolves-insert_fresh reflexive s id (update empty c) (λ d holds. cc (missing, holds.0))
  fresh-Evolves id s (raise error) missing = Evolves-refl reflexive s

  -- A commit to a document, or to `{}` where there was none.
  commit-Evolves :
      {A : Type 0} (id : String) (s : Store) (f : Change A)
      → Writes R f
      → Evolves R s (commit id (found_or_empty id s) (f (found_or_empty id s)) s).1
  unfolding found_or_empty
  commit-Evolves id s f w = elim (Option-cases (lookup id s)) [
    | inl missing ↦ rw (missing, found_or_empty) (fresh-Evolves id s (f empty) missing)
    | inr (d, found) ↦
        rw (found, found_or_empty) (Evolves-commit reflexive id d s (f d) found (w d))
  ]

  on_circuit-Evolves :
      {A : Type 0} (e : Env) (owner : String) (check : Result (Unit {0})) (f : Change A) (s : Store)
      → Writes R f
      → Evolves R s (on_circuit e owner check f s).1
  unfolding on_circuit
  on_circuit-Evolves e owner (raise error) f s w = Evolves-refl reflexive s
  on_circuit-Evolves e owner (ok _) f s w = commit-Evolves (circuit_id e owner) s f w

opened-nonempty :
    (e : Env) (o : Opening) (found : Option Fields)
    → truthy (dict (opened_document e o found)) ≡ true
unfolding opened_document
opened-nonempty e o found = refl

module _ {R : Fields → Fields → Type 0} {allowed : Call → Bool}
    (respected : Respected R allowed) where
  open-Evolves :
      (e : Env) (o : Opening) (s : Store) (found : Option Fields)
      → allowed (call_open o) ≡ true
      → lookup (circuit_id e o.owner) s ≡ found
      → Evolves R s (open_found e o found s).1
  unfolding open_found
  open-Evolves e o s none ok_call h =
      Evolves-insert_fresh respected.reflexive s (circuit_id e o.owner) (opened_document e o none)
        (λ d holds. cc (h, holds.0))
  open-Evolves e o s (some d) ok_call h =
      elim (Bool-cases (value_eq (get "state" d) (str "open"))) [
        | inl is_open ↦ rw is_open (Evolves-refl respected.reflexive s)
        | inr not_open ↦ rw not_open (
            Evolves-insert respected.reflexive s (circuit_id e o.owner) d
              (opened_document e o (some d)) h (λ full. opened-nonempty e o (some d))
              (respected.opens e o d ok_call not_open))
      ]

  alert-Evolves :
      (e : Env) (owner marker : String) (t m : Value) (s : Store) (d : Fields)
      → lookup (circuit_id e owner) s ≡ some d
      → Evolves R s (alert_found e owner marker t m d s).1
  unfolding alert_found
  alert-Evolves e owner marker t m s d h =
      elim (Bool-cases (contains marker (dict_of (get "cloud_build_usage_alerts" d)))) [
        | inl emitted ↦ rw emitted (Evolves-refl respected.reflexive s)
        | inr fresh ↦ rw fresh (
            Evolves-insert respected.reflexive s (circuit_id e owner) d _ h (update-nonempty d _)
              (respected.alerts e owner marker t m d))
      ]

  first_alert-Evolves :
      (e : Env) (owner marker : String) (t m : Value) (s : Store) (d : Fields)
      → lookup (circuit_id e owner) s ≡ none
      → Evolves R s (alert_found e owner marker t m d s).1
  unfolding alert_found
  first_alert-Evolves e owner marker t m s d h =
      elim (Bool-cases (contains marker (dict_of (get "cloud_build_usage_alerts" d)))) [
        | inl emitted ↦ rw emitted (Evolves-refl respected.reflexive s)
        | inr fresh ↦ rw fresh (
            Evolves-insert_fresh respected.reflexive s (circuit_id e owner) _
              (λ x holds. cc (h, holds.0)))
      ]

  usage-Evolves :
      (e : Env) (owner marker : String) (t m : Value) (s : Store)
      → Evolves R s (claim_usage_alert e owner marker t m s).1
  unfolding claim_usage_alert
  usage-Evolves e owner marker t m s = elim (Option-cases (lookup (circuit_id e owner) s)) [
    | inl missing ↦
        rw (missing, claim_usage_alert)
          (first_alert-Evolves e owner marker t m s (closed_circuit e owner) missing)
    | inr (d, found) ↦ rw (found, claim_usage_alert) (alert-Evolves e owner marker t m s d found)
  ]

  Evolves-run :
      (e : Env) (call : Call) (s : Store) → allowed call ≡ true → Evolves R s (run e call s)
  unfolding run open_circuit reserve_probe finish_probe_dispatch record_probe
      close_after_successful_probe
  Evolves-run e (call_open o) s within = open-Evolves e o s _ within refl
  Evolves-run e (call_usage_alert owner marker t m) s within = usage-Evolves e owner marker t m s
  Evolves-run e (call_reserve_probe r) s within =
      on_circuit-Evolves respected.reflexive e r.owner _ _ s (respected.reserves e r)
  Evolves-run e (call_finish_probe owner nonce status) s within =
      on_circuit-Evolves respected.reflexive e owner _ _ s (respected.finishes e nonce status)
  Evolves-run e (call_record_probe r seen) s within =
      on_circuit-Evolves respected.reflexive e r.owner _ _ s (respected.records e r seen _ within)
  Evolves-run e (call_close owner run_id) s within =
      on_circuit-Evolves respected.reflexive e owner (ok tt) _ s
        (respected.closes e owner run_id within)

  pub Evolves-run_all :
      (history : List (Env × Call)) (s : Store)
      → all_calls allowed history ≡ true
      → Evolves R s (run_all history s)
  unfolding run_all all_calls
  Evolves-run_all [] s within = Evolves-refl respected.reflexive s
  Evolves-run_all ((e, call) ∷ rest) s within =
      let (head, later) = and_true (allowed call) (all_calls allowed rest) within in
      record {
        becomes = λ j d h.
            let (d', h', r) = (Evolves-run e call s head).becomes j d h in
            let (d'', h'', r') = (Evolves-run_all rest (run e call s) later).becomes j d' h' in
            (d'', h'', respected.transitive d d' d'' r r');
      }
