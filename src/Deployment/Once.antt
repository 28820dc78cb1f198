-- ===== src/Deployment/Once.antt =====
-- `claim_github_dispatch` of eng_platform_api/services/deployment_executions.py along histories of
-- calls.
use gcp_engineering_platform.Base.{
  ℕ, String, Bool, true, false, ◌&&◌, not, List, some, ◌≡◌, ◌∙◌, refl, arith, eq_refl, Option-cases,
  inl, inr,
}
use gcp_engineering_platform.Python.Value.{
  Value, null, num, str, dict, Fields, empty, entry, truthy, value_eq, value_eq_str, find,
}
use gcp_engineering_platform.Python.Dict.{
  get, get_or, contains, put, update, contains-put, get-update_other, get-update_set,
}
use gcp_engineering_platform.Python.Raise.{Env, ok}
use gcp_engineering_platform.Python.Store.{Store, lookup, commit}
use gcp_engineering_platform.Python.Store.Lift.{
  Wrote, commit-Wrote, lookup-insert_self, put-nonempty,
}
use gcp_engineering_platform.Release.Status.{in_texts}
use gcp_engineering_platform.Release.Validate.{is_locked}
use gcp_engineering_platform.Deployment.Executions.{
  Intent, reserve_again, claim_submission_change, save_change, accept_event_change, event_changes,
  eligible, github_dispatch_change, claim_github_dispatch,
}
use gcp_engineering_platform.Deployment.Ops.{
  Call, call_save, call_accept_event, all_calls, run_all, Respected, Evolves-run_all,
}
use gcp_engineering_platform.Deployment.Locked.{
  Fixed, locked-Respected, event_spares_provider, transition_changes,
}

-- The permit to dispatch was consumed, and the outcome is not known yet.
abbrev pub Waiting : Fields → Type 0
Waiting d =
    (is_locked d ≡ true)
    × (get "provider" d ≡ str "github_actions")
    × (get "status" d ≡ str "GITHUB_DISPATCHING")

abbrev Waits : Fields → Fields → Type 0
Waits d d' = Waiting d → Waiting d'

Fixed-Waits :
    (d c : Fields)
    → Fixed d (update d c)
    → (get "status" d ≡ str "GITHUB_DISPATCHING" → contains "status" c ≡ false)
    → Waits d (update d c)
Fixed-Waits d c fixed spares (locked, named, status) =
    let (locked', same) = fixed locked in
    (
      locked',
      same "github_actions" named,
      get-update_other "status" null d c (spares status) ∙ status,
    )

-- A call that records no outcome: it carries no status, and an event names no provider.
unfoldable pub records_no_outcome : Call → Bool
unfolding event_spares_provider
records_no_outcome (call_save id k) = not (contains "status" k)
records_no_outcome (call_accept_event id n k) =
    not (contains "status" k) && event_spares_provider (call_accept_event id n k)
records_no_outcome _ = true

reserve_spares :
    (e : Env) (r : Intent) (d c x : Fields)
    → reserve_again e r d ≡ ok (c, x)
    → contains "status" c ≡ false
unfolding reserve_again contains
reserve_spares e r d c x h = ground arith

claim_spares :
    (e : Env) (d c : Fields) (a : Bool)
    → claim_submission_change e d ≡ ok (c, a)
    → get "status" d ≡ str "GITHUB_DISPATCHING"
    → contains "status" c ≡ false
unfolding claim_submission_change contains in_texts value_eq
claim_spares e d c a h status = ground (arith, rw status at h)

save_writes : (k d c x : Fields) → save_change k d ≡ ok (c, x) → c ≡ k
unfolding save_change
save_writes k d c x h = ground arith

save_spares :
    (e : Env) (k d c x : Fields)
    → save_change (put "updated_at" (str e.now) k) d ≡ ok (c, x)
    → contains "status" k ≡ false
    → contains "status" c ≡ false
save_spares e k d c x h spares = ground (
  arith,
  spares,
  save_writes (put "updated_at" (str e.now) k) d c x h,
  contains-put "updated_at" "status" (str e.now) k,
)

event_spares :
    (e : Env) (n : ℕ) (k d c : Fields) (a : Fields × Bool)
    → accept_event_change e n (event_changes e n k) d ≡ ok (c, a)
    → contains "status" k ≡ false
    → contains "status" c ≡ false
unfolding accept_event_change contains
event_spares e n k d c a h spares = ground (
  arith,
  spares,
  contains-put "event_sequence" "status" (num n) k,
  contains-put "updated_at" "status" (str e.now) (put "event_sequence" (num n) k),
)

not_eligible : (d : Fields) → get "status" d ≡ str "GITHUB_DISPATCHING" → eligible d ≡ false
unfolding eligible in_texts value_eq
not_eligible d status = rw status (ground arith)

dispatch_refused :
    (d : Fields)
    → get "status" d ≡ str "GITHUB_DISPATCHING"
    → github_dispatch_change d ≡ ok (empty, false)
unfolding github_dispatch_change
dispatch_refused d status = rw (not_eligible d status) refl

granted_nothing :
    (d c : Fields) (a : Bool)
    → github_dispatch_change d ≡ ok (c, a)
    → get "status" d ≡ str "GITHUB_DISPATCHING"
    → contains "status" c ≡ false
unfolding contains
granted_nothing d c a h status = ground (arith, h, dispatch_refused d status)

Waits-Respected : Respected Waits records_no_outcome
unfolding records_no_outcome
Waits-Respected = record {
  reflexive = λ d h. h;
  transitive = λ a b c f g h. g (f h);
  reserves = λ e r d c x h.
      Fixed-Waits d c (locked-Respected.reserves e r d c x h) (λ _. reserve_spares e r d c x h);
  transitions = λ e a b reason d c x h (locked, _, _).
      absurd (cc (locked, transition_changes e a b reason d c x h));
  claims =
      λ e d c a h. Fixed-Waits d c (locked-Respected.claims e d c a h) (claim_spares e d c a h);
  saves = λ e id k within d c x h.
      Fixed-Waits d c (locked-Respected.saves e id k refl d c x h)
        (λ _. save_spares e k d c x h (ground (arith, within)));
  accepts = λ e id n k within d c a h.
      Fixed-Waits d c (locked-Respected.accepts e id n k (ground (arith, within)) d c a h)
        (λ _. event_spares e n k d c a h (ground (arith, within)));
  dispatches = λ d c a h.
      Fixed-Waits d c (locked-Respected.dispatches d c a h)
        (λ status. granted_nothing d c a h status);
}

-- What a granted dispatch found and wrote.
claim-Wrote :
    (id : String) (s : Store)
    → (claim_github_dispatch id s).0 ≡ ok true
    → Wrote id github_dispatch_change true s (claim_github_dispatch id s).1
unfolding claim_github_dispatch
claim-Wrote id s h = elim (Option-cases (lookup id s)) [
  | inl missing ↦ absurd (cc (rw (missing, claim_github_dispatch) at h))
  | inr (d, held) ↦
      rw (held, claim_github_dispatch)
        (commit-Wrote id github_dispatch_change d true s (github_dispatch_change d) held refl
          (rw (held, claim_github_dispatch) at h))
]

granted_changes :
    (d c : Fields)
    → github_dispatch_change d ≡ ok (c, true)
    → (c ≡ entry "status" (str "GITHUB_DISPATCHING") empty)
      × (value_eq (get "provider" d) (str "github_actions") ≡ true)
unfolding github_dispatch_change eligible
granted_changes d c h = (ground arith, ground arith)

contains_entry : (k : String) (v : Value) (d : Fields) → contains k (entry k v d) ≡ true
unfolding contains
contains_entry k v d = ground (arith, eq_refl k)

written-nonempty :
    (d c : Fields) → github_dispatch_change d ≡ ok (c, true) → truthy (dict (update d c)) ≡ true
unfolding update
written-nonempty d c h =
    rw (granted_changes d c h).0 (put-nonempty "status" (str "GITHUB_DISPATCHING") d)

granted-Waiting :
    (d c : Fields)
    → github_dispatch_change d ≡ ok (c, true)
    → is_locked d ≡ true
    → Waiting (update d c)
unfolding get_or find
granted-Waiting d c h locked =
    let (written, named) = granted_changes d c h in
    let (locked', same) = locked-Respected.dispatches d c true h locked in
    (
      locked',
      same "github_actions" (value_eq_str (get "provider" d) "github_actions" named),
      rw written (
          get-update_set "status" null d (entry "status" (str "GITHUB_DISPATCHING") empty)
            (contains_entry "status" (str "GITHUB_DISPATCHING") empty)),
    )

refused_at :
    (id : String) (s : Store) (d : Fields)
    → lookup id s ≡ some d
    → get "status" d ≡ str "GITHUB_DISPATCHING"
    → (claim_github_dispatch id s).0 ≡ ok false
unfolding claim_github_dispatch commit
refused_at id s d held status =
    rw (held, claim_github_dispatch) (rw (dispatch_refused d status, commit))

-- On a deployment whose provider is locked, once a dispatch to GitHub was granted it is refused
-- ever after: after any history of calls of any processes that records no outcome (no save and no
-- event with a status, no event with a provider or a selection).
pub dispatch_not_retried :
    (id : String) (history : List (Env × Call)) (s : Store) (d : Fields)
    → all_calls records_no_outcome history ≡ true
    → lookup id s ≡ some d
    → is_locked d ≡ true
    → (claim_github_dispatch id s).0 ≡ ok true
    → (claim_github_dispatch id (run_all history (claim_github_dispatch id s).1)).0 ≡ ok false
dispatch_not_retried id history s d within held locked granted =
    let t = (claim_github_dispatch id s).1 in
    let w = claim-Wrote id s granted in
    let same : d ≡ w.found = cc (held, w.held) in
    let waiting = granted-Waiting w.found w.changes w.agreed (rw same at locked) in
    let (d', held', waits) =
      (Evolves-run_all Waits-Respected history t within).becomes id (update w.found w.changes)
        (rw w.written (lookup-insert_self id _ s), written-nonempty w.found w.changes w.agreed) in
    refused_at id (run_all history t) d' held'.0 (waits waiting).2
