-- ===== src/Circuit/Unproven.antt =====
-- Open circuits of eng_platform_api/services/executor_circuits.py along histories of calls.
use gcp_engineering_platform.Base.{
  String, Bool, true, false, ◌&&◌, not, List, ◌≡◌, ◌⊎◌, ◌∙◌, refl, arith, ◌==◌, ltb, Bool-cases,
  inl, inr,
}
use gcp_engineering_platform.Python.Value.{
  Value, null, bool, num, str, Fields, empty, value_eq, find,
}
use gcp_engineering_platform.Python.Dict.{
  get, get_or, contains, put, update, get-update, get-update_set, get-update_other, get_or-put,
}
use gcp_engineering_platform.Python.Raise.{Env, ok, to_int}
use gcp_engineering_platform.Python.Store.{Store}
use gcp_engineering_platform.Python.Store.Lift.{Writes, Holds}
use gcp_engineering_platform.Circuit.State.{stored, dict_of, probe_of, alert_changes}
use gcp_engineering_platform.Circuit.Probe.{
  ProbeRequest, requested_probe, reservation, reserve_probe_change, repeated, dispatched_probe,
  finish_probe_change, probe_changes,
}
use gcp_engineering_platform.Circuit.Recovery.{
  Report, verified_probe, record_probe_change, close_change, check_successful,
}
use gcp_engineering_platform.Circuit.Ops.{
  Call, call_record_probe, all_calls, run_all, Respected, Evolves-run_all,
}

-- A probe that was verified as successful, on a runner that started.
unfoldable pub proven : Fields → Bool
proven probe =
    value_eq (get "status" probe) (str "verified")
    && (value_eq (get "conclusion" probe) (str "success")
        && not (value_eq (get_or "jobs_started" (num 0) probe) (num 0)))

-- An open circuit whose probe proves nothing.
abbrev pub Unproven : Fields → Type 0
Unproven d = (get "state" d ≡ str "open") × (proven (probe_of d) ≡ false)

abbrev StaysUnproven : Fields → Fields → Type 0
StaysUnproven d d' = Unproven d → Unproven d'

-- An update that keeps the state, with the probe that it leaves.
updated-Unproven :
    (d c : Fields)
    → contains "state" c ≡ false
    → (contains "probe" c ≡ false) ⊎ (proven (probe_of c) ≡ false) × (contains "probe" c ≡ true)
    → StaysUnproven d (update d c)
updated-Unproven d c state (inl spared) (is_open, unproven) = (
  get-update_other "state" null d c state ∙ is_open,
  rw (get-update_other "probe" null d c spared) unproven,
)
updated-Unproven d c state (inr (new, there)) (is_open, unproven) = (
  get-update_other "state" null d c state ∙ is_open,
  rw (get-update_set "probe" null d c there) new,
)

requested-proven : (e : Env) (r : ProbeRequest) → proven (requested_probe e r) ≡ false
unfolding proven requested_probe get_or find value_eq
requested-proven e r = refl

reserved_changes :
    (e : Env) (r : ProbeRequest) (d c : Fields) (a : Fields × Bool)
    → reserve_probe_change e r d ≡ ok (c, a)
    → (c ≡ empty) ⊎ (c ≡ reservation e r d)
unfolding reserve_probe_change repeated
reserved_changes e r d c a h = ground arith

reserve-Unproven : (e : Env) (r : ProbeRequest) → Writes StaysUnproven (reserve_probe_change e r)
unfolding contains update get_or find dict_of reservation
reserve-Unproven e r d c a h = elim (reserved_changes e r d c a h) [
  | inl nothing ↦ rw nothing (λ u. u)
  | inr written ↦
      rw written (updated-Unproven d (reservation e r d) refl (inr (requested-proven e r, refl)))
]

dispatched-proven :
    (status : String) (probe : Fields)
    → proven probe ≡ false
    → proven (dispatched_probe status probe) ≡ false
unfolding proven dispatched_probe value_eq
dispatched-proven status probe h = ground (
  arith,
  h,
  get_or-put "dispatch_status" "status" null (str status) probe,
  get_or-put "dispatch_status" "conclusion" null (str status) probe,
  get_or-put "dispatch_status" "jobs_started" (num 0) (str status) probe,
  get_or-put "status" "status" null (str "cancelled") (put "dispatch_status" (str status) probe),
)

pub finished_changes :
    (e : Env) (nonce status : String) (d c x : Fields)
    → finish_probe_change e nonce status d ≡ ok (c, x)
    → c ≡ probe_changes e (dispatched_probe status (probe_of d)) d
unfolding finish_probe_change
finished_changes e nonce status d c x h = ground arith

probed-Unproven :
    (e : Env) (d probe : Fields)
    → (proven (probe_of d) ≡ false → proven probe ≡ false)
    → StaysUnproven d (update d (probe_changes e probe d))
unfolding contains get_or find dict_of
probed-Unproven e d probe keeps u =
    updated-Unproven d (probe_changes e probe d) refl (inr (keeps u.1, refl)) u

conclusion-verified :
    (e : Env) (r : Report) (requested expected : Fields)
    → get "conclusion" (verified_probe e r requested expected) ≡ str r.conclusion
unfolding verified_probe
conclusion-verified e r requested expected = simp (get_or-put)

jobs_started-verified :
    (e : Env) (r : Report) (requested expected : Fields)
    → get_or "jobs_started" (num 0) (verified_probe e r requested expected) ≡ num r.jobs_started
unfolding verified_probe
jobs_started-verified e r requested expected = simp (get_or-put)

verified-proven :
    (e : Env) (r : Report) (requested expected : Fields)
    → (r.conclusion == "success" && ltb 0 r.jobs_started) ≡ false
    → proven (verified_probe e r requested expected) ≡ false
unfolding proven value_eq
verified-proven e r requested expected h = ground (
  arith,
  h,
  conclusion-verified e r requested expected,
  jobs_started-verified e r requested expected,
)

pub recorded_changes :
    (e : Env) (r : Report) (requested d c x : Fields)
    → record_probe_change e r requested d ≡ ok (c, x)
    → c ≡ probe_changes e (verified_probe e r requested (probe_of d)) d
unfolding record_probe_change
recorded_changes e r requested d c x h = ground arith

no_jobs : (e : Env) (v : Value) → value_eq v (num 0) ≡ true → to_int e v ≡ ok 0
unfolding value_eq to_int
no_jobs e (num n) h = ground arith
no_jobs e (bool b) h = ground arith
no_jobs e _ h = cc

close_refused :
    (e : Env) (run_id : String) (d c x : Fields)
    → proven (probe_of d) ≡ false
    → close_change e run_id d ≡ ok (c, x)
    → ⊥
unfolding close_change check_successful proven
close_refused e run_id d c x u h =
    elim (Bool-cases (value_eq (get_or "jobs_started" (num 0) (probe_of d)) (num 0))) [
      | inl none_started ↦
          ground (arith, h, no_jobs e (get_or "jobs_started" (num 0) (probe_of d)) none_started)
      | inr started ↦ ground (arith, h, u, started)
    ]

-- A call that reports no successful started probe.
unfoldable pub reports_no_success : Call → Bool
reports_no_success (call_record_probe r seen) =
    not (r.conclusion == "success" && ltb 0 r.jobs_started)
reports_no_success _ = true

present : (k t : String) (x : Value) (d : Fields) → get k d ≡ str t → get_or k x d ≡ str t
unfolding get_or
present k t x d h = ground (arith, h)

alert_fields :
    (e : Env) (owner : String) (alerts d : Fields)
    → get "state" d ≡ str "open"
    → ((contains "state" (alert_changes e owner alerts d) ≡ false)
        ⊎ (get "state" (alert_changes e owner alerts d) ≡ str "open"))
      × (contains "probe" (alert_changes e owner alerts d) ≡ false)
unfolding alert_changes contains find get_or
alert_fields e owner alerts d h = elim (Bool-cases (stored e)) [
  | inl firestore ↦
      (rw firestore (inr (present "state" "open" (str "closed") d h)), rw firestore refl)
  | inr memory ↦ (rw memory (inl refl), rw memory refl)
]

alert-Unproven :
    (e : Env) (owner : String) (alerts d : Fields)
    → StaysUnproven d (update d (alert_changes e owner alerts d))
alert-Unproven e owner alerts d (is_open, unproven) =
    let c = alert_changes e owner alerts d in
    let (state, spared) = alert_fields e owner alerts d is_open in
    (
      ground (arith, get-update "state" null d c, state, is_open),
      rw (get-update_other "probe" null d c spared) unproven,
    )

open_open : value_eq (str "open") (str "open") ≡ true
unfolding value_eq
open_open = refl

Unproven-Respected : Respected StaysUnproven reports_no_success
unfolding reports_no_success
Unproven-Respected = record {
  reflexive = λ d u. u;
  transitive = λ a b c f g u. g (f u);
  opens = λ e o d within not_open (is_open, _). absurd (cc (rw is_open at not_open, open_open));
  alerts = λ e owner marker t m d. alert-Unproven e owner _ d;
  reserves = λ e r. reserve-Unproven e r;
  finishes = λ e nonce status d c x h u.
      rw (finished_changes e nonce status d c x h)
        (probed-Unproven e d _ (dispatched-proven status (probe_of d)) u);
  records = λ e r seen requested within d c x h u. rw (recorded_changes e r requested d c x h) (
      probed-Unproven e d _
        (λ _. verified-proven e r requested (probe_of d) (ground (arith, within))) u);
  closes = λ e owner run_id within d c x h (_, unproven).
      absurd (close_refused e run_id d c x unproven h);
}

-- An open circuit whose probe was not verified as successful and started stays open, through any
-- history of calls of any processes that reports no such probe: no time, no reservation, no
-- uncertain dispatch, no failed probe and no request to close it closes it.
pub open_until_proven :
    (history : List (Env × Call)) (s : Store) (j : String) (d : Fields)
    → all_calls reports_no_success history ≡ true
    → Holds j s d
    → Unproven d
    → (d' : Fields) × Holds j (run_all history s) d' × Unproven d'
open_until_proven history s j d within held unproven =
    let (d', held', stays) =
      (Evolves-run_all Unproven-Respected history s within).becomes j d held in
    (d', held', stays unproven)
