-- ===== src/Release/Dispatch.antt =====
-- The documents of the quality bootstrap of eng_platform_api/services/release_executions.py
-- along histories of calls.
pub mod Once
pub mod Ticket
use gcp_engineering_platform.Base.{
  ℕ, String, Bool, Option, true, false, ◌&&◌, ◌||◌, not, List, [], ◌∷◌, ◌≡◌, refl, arith, elem,
  ◌==◌, none, some, and_true, ◌≢◌, Bool-cases, inl, inr, Option-cases, eq_iff,
}
use gcp_engineering_platform.Python.Value.{
  Value, null, bool, str, dict, Fields, empty, entry, truthy, value_eq,
}
use gcp_engineering_platform.Python.Dict.{
  get, put, contains, contains-put, update, get-update, get-update_other, any_key_starts_with,
  no_key_starts_with,
}
use gcp_engineering_platform.Python.Raise.{Env, Result, ok, raise, ◌>>=◌, ◌>>◌}
use gcp_engineering_platform.Python.Store.{
  Store, Change, lookup, insert, lookup-insert, with_document,
}
use gcp_engineering_platform.Python.Store.Lift.{Writes, Holds, put-nonempty}
use gcp_engineering_platform.Release.Status.{validate_status_change}
use gcp_engineering_platform.Release.Validate.{validate_changes, bootstrap_document, mutate}
use gcp_engineering_platform.Release.Admission.{
  save_change, save_for_provider_change, admit_github_run_change, admit_event_change,
  accept_event_change,
}
use gcp_engineering_platform.Release.Claims.{
  handoff_change, claim_submission_change, binding_changes, bind_build_change, claim_publish_change,
}
use gcp_engineering_platform.Release.Tokens.{
  source_token_change, event_token_change, token_field_of, token_field_of-either,
}
use gcp_engineering_platform.Release.Planner.{RetryRequest, planner_retry_candidate, write_retry}
use gcp_engineering_platform.Release.Bootstrap.{
  allowed_updates, keys_within, bootstrap_update_change, dispatch_change, check_fresh, any_truthy,
  validate_reservation, ticket_document, claim_quality_bootstrap_dispatch,
}
use gcp_engineering_platform.Release.Spares.{keys_within-spares}
use gcp_engineering_platform.Release.Evolution.{Respected}
use gcp_engineering_platform.Release.Evolution.Recovery.{Evolves-apply_op}
use gcp_engineering_platform.Release.Ops.{Op, any_op, apply_all, Evolves-apply_all}

-- The execution holds the ticket, and its one permit to dispatch was consumed.
unfoldable pub dispatched : Fields → Bool
dispatched d = truthy (get "bootstrap_ticket_id" d) && truthy (get "bootstrap_dispatch_started" d)

abbrev pub Stays : Fields → Fields → Type 0
Stays d d' = dispatched d ≡ true → dispatched d' ≡ true

-- The changes carry neither of the two fields.
abbrev SparesBoth : Fields → Type 0
SparesBoth c =
    (contains "bootstrap_ticket_id" c ≡ false) × (contains "bootstrap_dispatch_started" c ≡ false)

spared-Stays : (d c : Fields) → SparesBoth c → Stays d (update d c)
unfolding dispatched
spared-Stays d c spared h =
    rw
      (
        get-update_other "bootstrap_ticket_id" null d c spared.0,
        get-update_other "bootstrap_dispatch_started" null d c spared.1,
      )
      h

holds_ticket : (d : Fields) → dispatched d ≡ true → truthy (get "bootstrap_ticket_id" d) ≡ true
unfolding dispatched
holds_ticket d h = ground arith

validated-SparesBoth : (e : Env) (d c : Fields) → validate_changes e d c ≡ ok tt → SparesBoth c
unfolding validate_changes
validated-SparesBoth e d c h =
    let spared : any_key_starts_with "bootstrap_" c ≡ false = ground arith in
    (
      no_key_starts_with "bootstrap_ticket_id" "bootstrap_" c spared refl,
      no_key_starts_with "bootstrap_dispatch_started" "bootstrap_" c spared refl,
    )

validated-Stays : (e : Env) (d c : Fields) → validate_changes e d c ≡ ok tt → Stays d (update d c)
validated-Stays e d c h = spared-Stays d c (validated-SparesBoth e d c h)

saves-Stays : (e : Env) (k : Fields) → Writes Stays (save_change e k)
unfolding save_change
saves-Stays e k d c a p h = ground (arith, validated-Stays e d k)

saves_for-Stays :
    (e : Env) (p : String) (r : Option String) (k : Fields)
    → Writes Stays (save_for_provider_change e p r k)
unfolding save_for_provider_change
saves_for-Stays e p r k d c a q h = ground (arith, validated-Stays e d k)

admits-Stays : (e : Env) (r : String) (k : Fields) → Writes Stays (admit_github_run_change e r k)
unfolding admit_github_run_change
admits-Stays e r k d c a q h = ground (arith, validated-Stays e d k)

admits_event-Stays : (e : Env) (p r t : String) → Writes Stays (admit_event_change e p r t)
unfolding admit_event_change contains
admits_event-Stays e p r t d c a q h =
    ground (arith, spared-Stays d (entry "event_admitted_at" (str e.now) empty))

accepts-Stays :
    (e : Env) (n : ℕ) (p r t : String) (k : Fields) → Writes Stays (accept_event_change e n p r t k)
unfolding accept_event_change contains
accepts-Stays e n p r t k d c a q h = ground (arith, validated-Stays e d k, spared-Stays d empty)

hands_off-Stays : (e : Env) (reason : String) → Writes Stays (handoff_change e reason)
unfolding handoff_change contains
hands_off-Stays e reason d c a q h = ground (arith, holds_ticket d h)

claims-Stays : (e : Env) → Writes Stays (claim_submission_change e)
unfolding claim_submission_change contains
claims-Stays e d c a q h = ground (arith, spared-Stays d empty, holds_ticket d h)

binds-Stays :
    (e : Env) (build : String) (metadata : Fields)
    → Writes Stays (bind_build_change e build metadata)
unfolding bind_build_change
binds-Stays e build metadata d c a q h = ground (arith, holds_ticket d h)

publishes-Stays : (e : Env) → Writes Stays (claim_publish_change e)
unfolding claim_publish_change contains
publishes-Stays e d c a q h = ground (
  arith,
  spared-Stays d empty,
  spared-Stays d (
      entry "status" (str "publish_pending")
        (entry "updated_at" (str e.now) (entry "publish_claimed_at" (str e.now) empty))),
)

token-SparesBoth :
    (b r run : String) (d c : Fields)
    → SparesBoth (entry b Value.null empty)
    → SparesBoth (entry r Value.null empty)
    → SparesBoth c
    → SparesBoth (put (token_field_of b r d) (str run) c)
unfolding contains
token-SparesBoth b r run d c hb hr h =
    token_field_of-either (λ t. SparesBoth (put t (str run) c)) b r d
      (
        ground (arith, contains-put b "bootstrap_ticket_id" (str run) c),
        ground (arith, contains-put b "bootstrap_dispatch_started" (str run) c),
      )
      (
        ground (arith, contains-put r "bootstrap_ticket_id" (str run) c),
        ground (arith, contains-put r "bootstrap_dispatch_started" (str run) c),
      )

issues_source-Stays : (e : Env) (run : String) → Writes Stays (source_token_change e run)
unfolding source_token_change contains
issues_source-Stays e run d c a q h =
    let stamps =
      entry "source_token_issued_at" (str e.now) (entry "updated_at" (str e.now) empty) in
    let name = token_field_of "source_token_build_id" "source_token_provider_run_id" d in
    ground (
      arith,
      spared-Stays d empty,
      spared-Stays d (put name (str run) stamps),
      token-SparesBoth "source_token_build_id" "source_token_provider_run_id" run d stamps
          (refl, refl) (refl, refl) (refl, refl),
    )

issues_event-Stays : (e : Env) (run hash : String) → Writes Stays (event_token_change e run hash)
unfolding event_token_change contains
issues_event-Stays e run hash d c a q h =
    let stamps =
      entry "event_token_hash" (str hash)
        (entry "event_token_issued_at" (str e.now) (entry "updated_at" (str e.now) empty)) in
    let name = token_field_of "event_token_build_id" "event_token_provider_run_id" d in
    ground (
      arith,
      spared-Stays d empty,
      spared-Stays d (put name (str run) stamps),
      token-SparesBoth "event_token_build_id" "event_token_provider_run_id" run d stamps
          (refl, refl) (refl, refl) (refl, refl),
    )

no_candidate :
    (e : Env) (d : Fields) (remediation contract : Bool)
    → truthy (get "bootstrap_ticket_id" d) ≡ true
    → planner_retry_candidate e d remediation contract ≡ ok false
unfolding planner_retry_candidate
no_candidate e d remediation contract h = rw h

retries-Stays :
    (e : Env) (r : RetryRequest) (previous : String) (changes : Fields)
    → Writes Stays (write_retry e r previous changes)
unfolding write_retry
retries-Stays e r previous changes d c a q h =
    ground (arith, no_candidate e d r.remediation r.contract_retry (holds_ticket d h))

fresh_no_ticket :
    (id : String) (b d : Fields)
    → check_fresh id b d ≡ ok tt
    → truthy (get "bootstrap_ticket_id" d) ≡ false
unfolding check_fresh
fresh_no_ticket id b d h = ground arith

bootstraps-Stays :
    (e : Env) (id : String) (b d : Fields) (ticket : Option Fields) (c : Fields)
    → validate_reservation e id b (some d) ticket ≡ ok (some c)
    → Stays d (update d c)
unfolding validate_reservation
bootstraps-Stays e id b d none c q h = ground (arith, fresh_no_ticket id b d, holds_ticket d h)
bootstraps-Stays e id b d (some t) c q h = ground arith

updates-Stays :
    (e : Env) (nonce : String) (k : Fields)
    → keys_within allowed_updates k ≡ true
    → Writes Stays (bootstrap_update_change e nonce (put "updated_at" (str e.now) k))
unfolding bootstrap_update_change
updates-Stays e nonce k within d c a q h =
    let k' = put "updated_at" (str e.now) k in
    ground (
      arith,
      spared-Stays d k',
      contains-put "updated_at" "bootstrap_ticket_id" (str e.now) k,
      contains-put "updated_at" "bootstrap_dispatch_started" (str e.now) k,
      keys_within-spares allowed_updates "bootstrap_ticket_id" k within refl,
      keys_within-spares allowed_updates "bootstrap_dispatch_started" k within refl,
    )

started : (d : Fields) → dispatched d ≡ true → truthy (get "bootstrap_dispatch_started" d) ≡ true
unfolding dispatched
started d h = ground arith

-- A started attempt is granted no second permit.
pub dispatch_refused :
    (e : Env) (nonce token : String) (d : Fields)
    → dispatched d ≡ true
    → dispatch_change e nonce token d ≡ ok (empty, false)
unfolding dispatch_change
dispatch_refused e nonce token d h = ground (arith, started d h)

dispatches-Stays : (e : Env) (nonce token : String) → Writes Stays (dispatch_change e nonce token)
dispatches-Stays e nonce token d c a q h =
    let unchanged : c ≡ empty = cc (q, dispatch_refused e nonce token d h) in
    rw unchanged (spared-Stays d empty (unfold contains in (refl, refl)) h)

pub Stays-Respected : Respected any_op Stays
Stays-Respected = record {
  reflexive = λ d h. h;
  saves = λ e id k _. saves-Stays e _;
  reconciles = λ e n. saves-Stays e _;
  saves_for = λ e id p r k _. saves_for-Stays e p r _;
  admits = λ e id r n k _. admits-Stays e r _;
  admits_event = admits_event-Stays;
  accepts = λ e id n p r t k _. accepts-Stays e n p r t _;
  hands_off = hands_off-Stays;
  claims = claims-Stays;
  binds = λ e id build metadata _ free. binds-Stays e build metadata;
  publishes = publishes-Stays;
  issues_source = issues_source-Stays;
  issues_event = issues_event-Stays;
  retries = λ e id r _ previous image seen n _. retries-Stays e r previous _;
  bootstraps = bootstraps-Stays;
  updates = λ e id nonce k _ within. updates-Stays e nonce k within;
  dispatches = dispatches-Stays;
}
