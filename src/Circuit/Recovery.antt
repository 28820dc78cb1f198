-- ===== src/Circuit/Recovery.antt =====
-- The recovery of a circuit: `record_probe` and `close_after_successful_probe` of
-- eng_platform_api/services/executor_circuits.py.
use gcp_engineering_platform.Base.{ℕ, String, Bool, false, ◌||◌, not, ◌==◌, ltb, Option, none, some}
use gcp_engineering_platform.Python.Value.{num, str, dict, Fields, empty, entry, value_eq}
use gcp_engineering_platform.Python.Dict.{get, get_or, put, update}
use gcp_engineering_platform.Python.Raise.{
  Env, Result, ok, value_error, ◌>>=◌, ◌>>◌, raise_if, to_str, to_int,
}
use gcp_engineering_platform.Python.Store.{Store, Change, Exec}
use gcp_engineering_platform.Circuit.State.{probe_of, get_circuit}
use gcp_engineering_platform.Circuit.Probe.{on_circuit, probe_changes, probe_history}

-- The arguments of `record_probe`.
pub record Report : Type 0 where
  pub owner : String
  pub repository : String
  pub workflow : String
  pub run_id : String
  pub conclusion : String
  pub jobs_started : ℕ
  pub nonce : Option String

-- The probe does not stand requested for this report, or not with this nonce.
unfoldable pub mismatched : Report → Fields → Fields → Bool
mismatched r circuit probe =
    not (value_eq (get "state" circuit) (str "open"))
    || (not (value_eq (get "status" probe) (str "requested"))
        || (not (value_eq (get "repository" probe) (str r.repository))
            || not (value_eq (get "workflow" probe) (str r.workflow))))

-- `{**requested, "status": "verified", …}`
unfoldable pub verified_probe : Env → Report → Fields → Fields → Fields
verified_probe e r requested expected =
    put "dispatch_status" (get_or "dispatch_status" (str "reserved") expected) (
      put "completed_at" (str e.now) (
        put "jobs_started" (num r.jobs_started) (
          put "conclusion" (str r.conclusion) (
            put "run_id" (str r.run_id) (
              put "workflow" (str r.workflow)
                (put "repository" (str r.repository) (put "status" (str "verified") requested)))))))

-- The transaction of `record_probe`, on the probe that was read before it.
unfoldable pub record_probe_change : Env → Report → Fields → Change Fields
unfolding mismatched verified_probe
record_probe_change e r requested current = do
  raise_if
      (mismatched r current (probe_of current)
        || not (value_eq (get "nonce" (probe_of current)) (get "nonce" requested)))
      (value_error "Health probe does not match a requested open-circuit probe")
  let changes = probe_changes e (verified_probe e r requested (probe_of current)) current in
      ok (changes, update current changes)

-- The check on the circuit that was read before the transaction.
unfoldable pub check_report : Report → Fields → Result (Unit {0})
unfolding mismatched
check_report r circuit =
    raise_if
      (mismatched r circuit (probe_of circuit) || elim r.nonce [
        | none ↦ false
        | some nonce ↦ not (value_eq (get "nonce" (probe_of circuit)) (str nonce))
      ])
      (value_error "Health probe does not match a requested open-circuit probe")

-- `record_probe`, which reads the circuit first, in the collection `seen`.
unfoldable pub record_probe : Env → Report → Store → Exec Fields
unfolding check_report record_probe_change on_circuit
record_probe e r seen =
    let circuit = get_circuit e r.owner seen in
    on_circuit e r.owner (check_report r circuit) (record_probe_change e r (probe_of circuit))

-- The changes of a circuit that closes.
abbrev pub closing : Env → Fields
closing e = entry "state" (str "closed") (
    entry "closed_at" (str e.now)
      (entry "updated_at" (str e.now) (entry "close_reason" (str "successful_health_probe") empty)))

unfoldable pub closing_changes : Env → Fields → Fields
unfolding probe_history
closing_changes e current =
    put "probe_requests" (dict (probe_history (update current (closing e)))) (closing e)

-- A successful started probe with this run id.
unfoldable pub check_successful : Env → String → Fields → Result (Unit {0})
check_successful e run_id probe = do
  raise_if
      (not (value_eq (get "status" probe) (str "verified"))
        || (not (to_str e (get "run_id" probe) == run_id)
            || not (value_eq (get "conclusion" probe) (str "success"))))
      (value_error "A successful started health probe is required")
  jobs ← to_int e (get_or "jobs_started" (num 0) probe)
  raise_if (ltb jobs 1) (value_error "A successful started health probe is required")

-- `close_after_successful_probe`
unfoldable pub close_change : Env → String → Change Fields
unfolding check_successful closing_changes
close_change e run_id current = do
  raise_if (not (value_eq (get "state" current) (str "open")))
      (value_error "A successful started health probe is required")
  check_successful e run_id (probe_of current)
  ok (closing_changes e current, update current (closing_changes e current))

unfoldable pub close_after_successful_probe : Env → String → String → Exec Fields
unfolding on_circuit close_change
close_after_successful_probe e owner run_id = on_circuit e owner (ok tt) (close_change e run_id)
