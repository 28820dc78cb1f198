-- ===== src/Circuit/Replay.antt =====
-- Repeated calls of `reserve_probe` of eng_platform_api/services/executor_circuits.py.
use gcp_engineering_platform.Base.{
  String, Bool, true, List, ◌≡◌, ◌≢◌, refl, eq_refl, Option-cases, inl, inr,
}
use gcp_engineering_platform.Python.Value.{dict, Fields, empty, truthy, value_eq, find}
use gcp_engineering_platform.Python.Dict.{get_or, contains, contains-put, update}
use gcp_engineering_platform.Python.Raise.{Env, Result, ok, raise}
use gcp_engineering_platform.Python.Store.{Store, lookup, commit}
use gcp_engineering_platform.Python.Store.Lift.{
  Wrote, commit-Wrote, lookup-insert_self, put-nonempty,
}
use gcp_engineering_platform.Circuit.State.{circuit_id, requests_of, dict_of, found_or_empty}
use gcp_engineering_platform.Circuit.Probe.{
  ProbeRequest, request_key, with_request, reservation, reserve_probe, reserve_probe_change,
  on_circuit, check_request,
}
use gcp_engineering_platform.Circuit.Ops.{Call, run_all}
use gcp_engineering_platform.Circuit.Requests.{
  reserved_changes, with_request-requests, reservation-requests, Extends-probe_history,
  Evolves-Retains,
}

-- Nothing is reserved for an account without a document.
no_circuit :
    (e : Env) (r : ProbeRequest) (c x : Fields) → reserve_probe_change e r empty ≢ ok (c, (x, true))
unfolding reserve_probe_change contains get_or find dict_of value_eq
no_circuit e r c x h = cc

commit_refused :
    (id : String) (d : Fields) (s : Store) (plan : Result (Fields × (Fields × Bool))) (x : Fields)
    → ((c : Fields) → plan ≢ ok (c, (x, true)))
    → (commit id d plan s).0 ≢ ok (x, true)
unfolding commit
commit_refused id d s (raise error) x never h = cc
commit_refused id d s (ok (c, y)) x never h = never c (cc)

checked-Wrote :
    (e : Env) (r : ProbeRequest) (check : Result (Unit {0})) (s : Store) (x : Fields)
    → (on_circuit e r.owner check (reserve_probe_change e r) s).0 ≡ ok (x, true)
    → Wrote
        (circuit_id e r.owner)
        (reserve_probe_change e r)
        (x, true)
        s
        (on_circuit e r.owner check (reserve_probe_change e r) s).1
unfolding on_circuit found_or_empty
checked-Wrote e r (raise error) s x h = cc
checked-Wrote e r (ok _) s x h = elim (Option-cases (lookup (circuit_id e r.owner) s)) [
  | inl missing ↦ absurd (
      commit_refused (circuit_id e r.owner) empty s (reserve_probe_change e r empty) x
        (λ c. no_circuit e r c x) (rw (missing, found_or_empty) at h))
  | inr (d, held) ↦
      rw (held, found_or_empty)
        (commit-Wrote (circuit_id e r.owner) (reserve_probe_change e r) d (x, true) s
          (reserve_probe_change e r d) held refl (rw (held, found_or_empty) at h))
]

reserve-Wrote :
    (e : Env) (r : ProbeRequest) (s : Store) (x : Fields)
    → (reserve_probe e r s).0 ≡ ok (x, true)
    → Wrote (circuit_id e r.owner) (reserve_probe_change e r) (x, true) s (reserve_probe e r s).1
unfolding reserve_probe
reserve-Wrote e r s x h = checked-Wrote e r (check_request e r) s x h

-- What a reservation leaves: its key is one of the requests.
granted_key :
    (e : Env) (r : ProbeRequest) (d c x : Fields)
    → reserve_probe_change e r d ≡ ok (c, (x, true))
    → (contains (request_key e r) (requests_of (update d c)) ≡ true)
      × (truthy (dict (update d c)) ≡ true)
unfolding reservation update
granted_key e r d c x h = elim (reserved_changes e r d c x true h) [
  | inl (_, old, _) ↦ cc
  | inr (written, _, _) ↦ rw written (
    rw (reservation-requests e r d) (
        (Extends-probe_history (with_request e r d)).0 (request_key e r)
          (rw (with_request-requests e r d, contains-put, eq_refl) refl)),
    put-nonempty "probe" _ _,
  )
]

-- A key that is one of the requests reserves nothing.
held_key :
    (e : Env) (r : ProbeRequest) (d c x : Fields)
    → contains (request_key e r) (requests_of d) ≡ true
    → reserve_probe_change e r d ≢ ok (c, (x, true))
held_key e r d c x held h = elim (reserved_changes e r d c x true h) [
  | inl (_, old, _) ↦ cc
  | inr (_, fresh, _) ↦ cc
]

-- Once a health probe was reserved under an idempotency key, no later call with that key for the
-- same account reserves one, whatever else it asks for and after whatever history of calls.
pub probe_reserved_once :
    (e e' : Env) (r r' : ProbeRequest) (history : List (Env × Call)) (s : Store) (x y : Fields)
    → circuit_id e' r'.owner ≡ circuit_id e r.owner
    → request_key e' r' ≡ request_key e r
    → (reserve_probe e r s).0 ≡ ok (x, true)
    → (reserve_probe e' r' (run_all history (reserve_probe e r s).1)).0 ≢ ok (y, true)
probe_reserved_once e e' r r' history s x y account key h again =
    let w = reserve-Wrote e r s x h in
    let t = (reserve_probe e r s).1 in
    let (there, full) = granted_key e r w.found w.changes x w.agreed in
    let (d', held', keeps) =
      (Evolves-Retains history t).becomes (circuit_id e r.owner) (update w.found w.changes)
        (rw w.written (lookup-insert_self (circuit_id e r.owner) _ s), full) in
    let w' = reserve-Wrote e' r' (run_all history t) y again in
    let same : w'.found ≡ d' = cc (account, held'.0, w'.held) in
    held_key e' r' w'.found w'.changes y (rw (same, key) (keeps.0 (request_key e r) there))
      w'.agreed
