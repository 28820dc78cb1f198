-- ===== src/Circuit/Requests.antt =====
-- The history of probe requests of eng_platform_api/services/executor_circuits.py.
use gcp_engineering_platform.Base.{
  suc, ◌≤◌, String, Bool, true, false, List, [], ◌∷◌, some, ◌≡◌, ◌⊎◌, ◌∙◌, refl, ap, arith, leb,
  Bool-cases, Option-cases, inl, inr, if◌then◌else◌,
}
use gcp_engineering_platform.Python.Value.{
  Value, null, bool, num, str, dict, list, Fields, empty, entry, find,
}
use gcp_engineering_platform.Python.Dict.{
  get, get_or, contains, put, update, contains-put, get-update_set, get-update_other, get_or-put,
}
use gcp_engineering_platform.Python.Raise.{Env, ok}
use gcp_engineering_platform.Python.Store.{Store}
use gcp_engineering_platform.Python.Store.Lift.{Writes, Holds, Evolves}
use gcp_engineering_platform.Circuit.State.{
  stored, Opening, opened_document, kept_requests, dict_of, probe_of, requests_of, alert_changes,
}
use gcp_engineering_platform.Circuit.Probe.{
  ProbeRequest, probe_fingerprint, probe_request_limit, size, request_key, with_request,
  reservation, record_under, recorded_circuit, probe_history, reserve_probe_change, repeated,
  finish_probe_change, probe_changes, probed,
}
use gcp_engineering_platform.Circuit.Recovery.{
  Report, record_probe_change, close_change, closing, closing_changes,
}
use gcp_engineering_platform.Circuit.Ops.{Call, all_calls, run_all, Respected, Evolves-run_all}
use gcp_engineering_platform.Circuit.Unproven.{finished_changes, recorded_changes}

size-put :
    (k : String) (v : Value) (d : Fields)
    → size (put k v d) ≡ (if contains k d then size d else suc (size d))
unfolding size put contains
size-put k v empty = refl
size-put k v (entry j w d) = ground (arith, size-put k v d)

-- The second set of requests has every key of the first, and is within the limit if it is.
abbrev pub Extends : Fields → Fields → Type 0
Extends a b =
    ((k : String) → contains k a ≡ true → contains k b ≡ true)
    × (size a ≤ probe_request_limit → size b ≤ probe_request_limit)

Extends-record_under : (key circuit : Value) (h : Fields) → Extends h (record_under key circuit h)
unfolding record_under
Extends-record_under (str key) circuit h = (
  λ k there.
      ground
        (arith, there, contains-put key k (dict (put "circuit" circuit (dict_of (get key h)))) h),
  λ within.
      ground (arith, within, size-put key (dict (put "circuit" circuit (dict_of (get key h)))) h),
)
Extends-record_under null circuit h = (λ k there. there, λ within. within)
Extends-record_under (bool _) circuit h = (λ k there. there, λ within. within)
Extends-record_under (num _) circuit h = (λ k there. there, λ within. within)
Extends-record_under (dict _) circuit h = (λ k there. there, λ within. within)
Extends-record_under (list _) circuit h = (λ k there. there, λ within. within)

pub Extends-probe_history : (d : Fields) → Extends (requests_of d) (probe_history d)
unfolding probe_history
Extends-probe_history d =
    Extends-record_under (get "request_key" (probe_of d)) (recorded_circuit d) (requests_of d)

-- From a document to the next, its requests are kept.
abbrev pub Retains : Fields → Fields → Type 0
Retains d d' = Extends (requests_of d) (requests_of d')

-- An update that leaves the requests, or that writes a history with all of them.
spared-Retains : (d c : Fields) → contains "probe_requests" c ≡ false → Retains d (update d c)
spared-Retains d c spared =
    rw (get-update_other "probe_requests" null d c spared) (λ k there. there, λ within. within)

written-Retains :
    (d c h : Fields)
    → contains "probe_requests" c ≡ true
    → get "probe_requests" c ≡ dict h
    → Extends (requests_of d) h
    → Retains d (update d c)
unfolding dict_of
written-Retains d c h there new extends =
    rw (get-update_set "probe_requests" null d c there ∙ new) extends

probed-Retains : (e : Env) (probe d : Fields) → Retains d (update d (probe_changes e probe d))
unfolding contains get_or find
probed-Retains e probe d =
    written-Retains d (probe_changes e probe d) (probe_history (probed e probe d)) refl refl (
      rw
        (← get-update_other "probe_requests" null d
          (entry "probe" (dict probe) (entry "updated_at" (str e.now) empty)) refl)
        (Extends-probe_history (probed e probe d)))

closed-Retains : (e : Env) (d : Fields) → Retains d (update d (closing_changes e d))
unfolding closing_changes contains get_or find put
closed-Retains e d =
    written-Retains d (closing_changes e d) (probe_history (update d (closing e))) refl refl (
      rw (← get-update_other "probe_requests" null d (closing e) refl)
        (Extends-probe_history (update d (closing e))))

alerted-Retains :
    (e : Env) (owner : String) (alerts d : Fields)
    → Retains d (update d (alert_changes e owner alerts d))
unfolding alert_changes contains
alerted-Retains e owner alerts d = elim (Bool-cases (stored e)) [
  | inl firestore ↦ rw firestore (spared-Retains d _ refl)
  | inr memory ↦ rw memory (spared-Retains d _ refl)
]

requests_of-default :
    (d : Fields) → dict_of (get_or "probe_requests" (dict empty) d) ≡ requests_of d
unfolding dict_of get_or
requests_of-default d = elim (Option-cases (find "probe_requests" d)) [
  | inl missing ↦ rw (missing, get_or) refl
  | inr (v, kept) ↦ rw (kept, get_or) refl
]

requests_of-opened :
    (e : Env) (o : Opening) (d : Fields)
    → requests_of (opened_document e o (some d)) ≡ requests_of d
unfolding opened_document kept_requests find
requests_of-opened e o d = unfold get_or in requests_of-default d

opened-Retains : (e : Env) (o : Opening) (d : Fields) → Retains d (opened_document e o (some d))
opened-Retains e o d = rw (requests_of-opened e o d) (λ k there. there, λ within. within)

-- What a reservation adds to the requests.
abbrev pub new_request : Env → ProbeRequest → Value
new_request e r = dict (entry "fingerprint" (str (probe_fingerprint e r)) empty)

pub with_request-requests :
    (e : Env) (r : ProbeRequest) (d : Fields)
    → requests_of (with_request e r d) ≡ put (request_key e r) (new_request e r) (requests_of d)
unfolding with_request dict_of
with_request-requests e r d = rw (get_or-put) refl

pub reservation-requests :
    (e : Env) (r : ProbeRequest) (d : Fields)
    → requests_of (update d (reservation e r d)) ≡ probe_history (with_request e r d)
unfolding reservation dict_of contains get_or find
reservation-requests e r d =
    ap dict_of (get-update_set "probe_requests" null d (reservation e r d) refl)

-- Either answer of a reservation.
pub reserved_changes :
    (e : Env) (r : ProbeRequest) (d c x : Fields) (new : Bool)
    → reserve_probe_change e r d ≡ ok (c, (x, new))
    → ((c ≡ empty) × (new ≡ false) × (contains (request_key e r) (requests_of d) ≡ true))
      ⊎ ((c ≡ reservation e r d)
          × (contains (request_key e r) (requests_of d) ≡ false)
          × (leb probe_request_limit (size (requests_of d)) ≡ false))
unfolding reserve_probe_change repeated
reserved_changes e r d c x new h = ground arith

reservation-Retains :
    (e : Env) (r : ProbeRequest) (d : Fields)
    → contains (request_key e r) (requests_of d) ≡ false
    → leb probe_request_limit (size (requests_of d)) ≡ false
    → Retains d (update d (reservation e r d))
reservation-Retains e r d fresh room =
    let f = new_request e r in
    let added = with_request-requests e r d in
    let later = Extends-probe_history (with_request e r d) in
    rw (reservation-requests e r d) (
      (λ k there.
          later.0 k
            (rw added (ground (arith, there, contains-put (request_key e r) k f (requests_of d))))),
      (λ within.
          later.1
            (rw added (ground (arith, fresh, room, size-put (request_key e r) f (requests_of d))))),
    )

reserve-Retains : (e : Env) (r : ProbeRequest) → Writes Retains (reserve_probe_change e r)
unfolding update
reserve-Retains e r d c (x, new) h = elim (reserved_changes e r d c x new h) [
  | inl (nothing, _, _) ↦ rw nothing (λ k there. there, λ within. within)
  | inr (written, fresh, room) ↦ rw written (reservation-Retains e r d fresh room)
]

finish-Retains :
    (e : Env) (nonce status : String) → Writes Retains (finish_probe_change e nonce status)
finish-Retains e nonce status d c x h =
    rw (finished_changes e nonce status d c x h) (probed-Retains e _ d)

record-Retains :
    (e : Env) (r : Report) (requested : Fields) → Writes Retains (record_probe_change e r requested)
record-Retains e r requested d c x h =
    rw (recorded_changes e r requested d c x h) (probed-Retains e _ d)

pub closed_changes :
    (e : Env) (run_id : String) (d c x : Fields)
    → close_change e run_id d ≡ ok (c, x)
    → c ≡ closing_changes e d
unfolding close_change
closed_changes e run_id d c x h = ground arith

Retains-Respected : Respected Retains (λ call. true)
Retains-Respected = record {
  reflexive = λ d. (λ k there. there, λ within. within);
  transitive = λ a b c f g. (λ k there. g.0 k (f.0 k there), λ within. g.1 (f.1 within));
  opens = λ e o d within not_open. opened-Retains e o d;
  alerts = λ e owner marker t m d. alerted-Retains e owner _ d;
  reserves = λ e r. reserve-Retains e r;
  finishes = λ e nonce status. finish-Retains e nonce status;
  records = λ e r seen requested within. record-Retains e r requested;
  closes =
      λ e owner run_id within d c x h. rw (closed_changes e run_id d c x h) (closed-Retains e d);
}

any_call : (history : List (Env × Call)) → all_calls (λ call. true) history ≡ true
unfolding all_calls
any_call [] = refl
any_call (call ∷ rest) = any_call rest

pub Evolves-Retains :
    (history : List (Env × Call)) (s : Store) → Evolves Retains s (run_all history s)
Evolves-Retains history s = Evolves-run_all Retains-Respected history s (any_call history)

-- No history of calls evicts a probe request from an account's history, and no history of calls
-- makes one grow past the limit that keeps within it now.
pub requests_kept :
    (history : List (Env × Call)) (s : Store) (j : String) (d : Fields)
    → Holds j s d
    → size (requests_of d) ≤ probe_request_limit
    → (d' : Fields) × Holds j (run_all history s) d'
      × ((k : String) → contains k (requests_of d) ≡ true → contains k (requests_of d') ≡ true)
      × (size (requests_of d') ≤ probe_request_limit)
requests_kept history s j d held within =
    let (d', held', keeps) = (Evolves-Retains history s).becomes j d held in
    (d', held', keeps.0, keeps.1 within)
