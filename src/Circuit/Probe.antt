-- ===== src/Circuit/Probe.antt =====
-- The health probe of a circuit: `public_probe_status`, `_probe_history`, `reserve_probe`,
-- `request_probe`, `finish_probe_dispatch`, `record_probe` and `close_after_successful_probe` of
-- eng_platform_api/services/executor_circuits.py.
use Prim.Native.String.{count}
use gcp_engineering_platform.Base.{
  ℕ, suc, String, Bool, true, false, ◌&&◌, ◌||◌, not, List, [], ◌∷◌, ◌==◌, ltb, leb, elem,
  if◌then◌else◌,
}
use gcp_engineering_platform.Python.Value.{
  Value, bool, str, dict, list, empty_list, element, Fields, empty, entry, value_eq,
}
use gcp_engineering_platform.Python.Dict.{get, contains, put, update}
use gcp_engineering_platform.Python.Raise.{
  Env, Result, ok, raise, value_error, key_error, runtime_error, ◌>>◌, raise_if,
}
use gcp_engineering_platform.Python.Store.{Change, Exec, commit}
use gcp_engineering_platform.Circuit.State.{
  circuit_id, stored, dict_of, probe_of, requests_of, found_or_empty,
}

-- `_PROBE_REQUEST_LIMIT`
abbrev pub probe_request_limit : ℕ
probe_request_limit = 128

-- The fields of a probe that are public.
abbrev pub public_fields : List String
public_fields =
    "repository" ∷ "workflow" ∷ "status" ∷ "dispatch_status" ∷ "requested_at" ∷ "completed_at"
    ∷ "run_id" ∷ "conclusion" ∷ "jobs_started" ∷ []

-- `{key: probe[key] for key in names if key in probe}`
unfoldable pub selected : List String → Fields → Fields
selected [] probe = empty
selected (k ∷ ks) probe =
    let rest = selected ks probe in if contains k probe then entry k (get k probe) rest else rest

-- `public_probe_status`
unfoldable pub public_probe_status : Fields → Fields
unfolding selected
public_probe_status circuit =
    entry "accepted" (bool true)
      (entry "state" (get "state" circuit) (selected public_fields (probe_of circuit)))

-- The public state of a circuit as its request keeps it.
unfoldable pub recorded_circuit : Fields → Value
unfolding selected
recorded_circuit current = dict (
    entry "state" (get "state" current)
      (entry "probe" (dict (selected public_fields (probe_of current))) empty))

-- `history[key]["circuit"] = …`, where the key is one of the history.
unfoldable pub record_under : Value → Value → Fields → Fields
record_under (str key) circuit history =
    if not (key == "") && contains key history
    then put key (dict (put "circuit" circuit (dict_of (get key history)))) history
    else history
record_under _ circuit history = history

-- `_probe_history`
unfoldable pub probe_history : Fields → Fields
unfolding recorded_circuit record_under
probe_history current =
    record_under (get "request_key" (probe_of current)) (recorded_circuit current)
      (requests_of current)

-- The arguments of `reserve_probe`, and the nonce that `secrets.token_urlsafe` answers in the call.
pub record ProbeRequest : Type 0 where
  pub owner : String
  pub repository : String
  pub workflow : String
  pub requested_by : String
  pub reason : String
  pub idempotency_key : String
  pub nonce : String

-- The digest of the idempotency key.
unfoldable pub request_key : Env → ProbeRequest → String
request_key e r = e.digest r.idempotency_key

unfoldable pub probe_fingerprint : Env → ProbeRequest → String
probe_fingerprint e r = e.digest (
    e.dumps_compact (
      list (
        element (str r.repository) (
          element (str r.workflow)
            (element (str (e.lower r.requested_by)) (element (str r.reason) empty_list))))))

unfoldable pub requested_probe : Env → ProbeRequest → Fields
unfolding request_key
requested_probe e r = entry "status" (str "requested") (
    entry "dispatch_status" (str "reserved") (
      entry "nonce" (str r.nonce) (
        entry "repository" (str r.repository) (
          entry "workflow" (str r.workflow) (
            entry "requested_by" (str r.requested_by) (
              entry "requested_at" (str e.now)
                (entry "request_key" (str (request_key e r)) empty)))))))

unfoldable pub size : Fields → ℕ
size empty = 0
size (entry _ _ d) = suc (size d)

-- What a repeated request is answered.
unfoldable pub repeated : Env → ProbeRequest → Fields → Result (Fields × (Fields × Bool))
unfolding probe_fingerprint
repeated e r previous = do
  raise_if (not (value_eq (get "fingerprint" previous) (str (probe_fingerprint e r))))
      (value_error "idempotency_key is already bound to another request")
  raise_if (not (contains "circuit" previous)) (key_error "circuit")
  ok (empty, (dict_of (get "circuit" previous), false))

-- The document with the new probe and its request, before the history is brought up to date.
unfoldable pub with_request : Env → ProbeRequest → Fields → Fields
unfolding requested_probe
with_request e r current =
    let fingerprint = dict (entry "fingerprint" (str (probe_fingerprint e r)) empty) in
    put "probe_requests" (dict (put (request_key e r) fingerprint (requests_of current)))
      (put "updated_at" (str e.now) (put "probe" (dict (requested_probe e r)) current))

-- What the call writes: the probe, the history and the time, as the document then holds them.
unfoldable pub reservation : Env → ProbeRequest → Fields → Fields
unfolding with_request probe_history
reservation e r current = entry "probe" (dict (requested_probe e r)) (
    entry "probe_requests" (dict (probe_history (with_request e r current)))
      (entry "updated_at" (str e.now) empty))

-- `reserve` inside `reserve_probe`: `true` beside the document where a probe was reserved.
unfoldable pub reserve_probe_change : Env → ProbeRequest → Change (Fields × Bool)
unfolding repeated reservation
reserve_probe_change e r current =
    if contains (request_key e r) (requests_of current)
    then repeated e r (dict_of (get (request_key e r) (requests_of current)))
    else (do
      raise_if (not (value_eq (get "state" current) (str "open")))
          (value_error "GitHub Actions circuit is not open")
      raise_if (value_eq (get "status" (probe_of current)) (str "requested"))
          (value_error "A health probe is already pending; verify its outcome first")
      raise_if (leb probe_request_limit (size (requests_of current)))
          (value_error "Health probe request history is full; operator review is required")
      ok (reservation e r current, (update current (reservation e r current), true)))

-- The checks of the arguments, and of the storage that the memory path needs.
unfoldable pub check_request : Env → ProbeRequest → Result (Unit {0})
check_request e r = do
  raise_if (e.strip r.reason == "" || ltb 500 (count r.reason))
      (value_error "reason must contain 1 to 500 characters")
  raise_if (e.strip r.idempotency_key == "" || ltb 128 (count r.idempotency_key))
      (value_error "idempotency_key must contain 1 to 128 characters")
  raise_if (not (stored e) && not e.mock_mode)
      (runtime_error "Persistent circuit storage is required for health probes")

-- An operation on the circuit of an owner, from `{}` where there is none.
module _ {A : Type 0} where
  unfoldable pub on_circuit : Env → String → Result (Unit {0}) → Change A → Exec A
  unfolding circuit_id found_or_empty commit
  on_circuit e owner (raise error) f s = (raise error, s)
  on_circuit e owner (ok _) f s =
      commit (circuit_id e owner) (found_or_empty (circuit_id e owner) s)
        (f (found_or_empty (circuit_id e owner) s)) s

-- `reserve_probe`
unfoldable pub reserve_probe : Env → ProbeRequest → Exec (Fields × Bool)
unfolding on_circuit reserve_probe_change check_request
reserve_probe e r = on_circuit e r.owner (check_request e r) (reserve_probe_change e r)

-- The document with the probe replaced, and the changes that carry its history too.
abbrev pub probed : Env → Fields → Fields → Fields
probed e probe current =
    update current (entry "probe" (dict probe) (entry "updated_at" (str e.now) empty))

abbrev pub probe_changes : Env → Fields → Fields → Fields
probe_changes e probe current = entry "probe" (dict probe) (
    entry "updated_at" (str e.now)
      (entry "probe_requests" (dict (probe_history (probed e probe current))) empty))

-- The probe after its dispatch.
unfoldable pub dispatched_probe : String → Fields → Fields
dispatched_probe dispatch_status probe =
    if dispatch_status == "not_dispatched" && value_eq (get "status" probe) (str "requested")
    then put "status" (str "cancelled") (put "dispatch_status" (str dispatch_status) probe)
    else put "dispatch_status" (str dispatch_status) probe

-- `changes` inside `finish_probe_dispatch`
unfoldable pub finish_probe_change : Env → String → String → Change Fields
unfolding dispatched_probe probe_history
finish_probe_change e nonce dispatch_status current = do
  raise_if (not (value_eq (get "nonce" (probe_of current)) (str nonce)))
      (value_error "Health probe reservation changed")
  let changes = probe_changes e (dispatched_probe dispatch_status (probe_of current)) current in
      ok (changes, update current changes)

-- `finish_probe_dispatch`
unfoldable pub finish_probe_dispatch : Env → String → String → String → Exec Fields
unfolding on_circuit finish_probe_change
finish_probe_dispatch e owner nonce dispatch_status =
    on_circuit e owner
      (raise_if (not (elem dispatch_status ("dispatched" ∷ "uncertain" ∷ "not_dispatched" ∷ [])))
        (value_error "Invalid health probe dispatch status"))
      (finish_probe_change e nonce dispatch_status)
