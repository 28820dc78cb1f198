-- ===== src/Release/Settled/History.antt =====
-- Settled executions of eng_platform_api/services/release_executions.py along histories of
-- calls.
use gcp_engineering_platform.Base.{
  ℕ, String, Bool, Option, true, false, List, [], ◌∷◌, ◌≡◌, refl, arith, and_true, elem, no_elem,
  ◌==◌, none, some,
}
use gcp_engineering_platform.Python.Value.{str, Fields, empty, entry, value_eq}
use gcp_engineering_platform.Python.Dict.{get, put, contains, contains-put, update}
use gcp_engineering_platform.Python.Raise.{Env, ok}
use gcp_engineering_platform.Python.Store.{Store}
use gcp_engineering_platform.Python.Store.Lift.{Writes, Holds}
use gcp_engineering_platform.Release.Status.{in_texts, validate_status_change}
use gcp_engineering_platform.Release.Validate.{validate_changes}
use gcp_engineering_platform.Release.Admission.{
  save_change, save_for_provider_change, admit_github_run_change, admit_event_change,
  accept_event_change,
}
use gcp_engineering_platform.Release.Claims.{
  handoff_change, claim_submission_change, binding_changes, bind_build_change, claim_publish_change,
}
use gcp_engineering_platform.Release.Tokens.{
  source_token_change, event_token_change, token_field_of, token_field_of-either,
}
use gcp_engineering_platform.Release.Planner.{RetryRequest, planner_retry_candidate, write_retry}
use gcp_engineering_platform.Release.Bootstrap.{
  bootstrap_update_change, dispatch_change, check_fresh, validate_reservation,
}
use gcp_engineering_platform.Release.Evolution.{Respected}
use gcp_engineering_platform.Release.Evolution.Recovery.{Evolves-apply_op}
use gcp_engineering_platform.Release.Ops.{Op, any_op, all_ops-any_op, apply_all, Evolves-apply_all}
use gcp_engineering_platform.Release.Settled.{
  settled, Settles, final_statuses, quiet_excludes, quiet_excludes_one, settled-spared,
  settled-validated,
}

validate_changes-status :
    (e : Env) (d c : Fields) → validate_changes e d c ≡ ok tt → validate_status_change e d c ≡ ok tt
unfolding validate_changes
validate_changes-status e d c h = ground arith

settled-changes : (e : Env) (d c : Fields) → validate_changes e d c ≡ ok tt → Settles d (update d c)
settled-changes e d c h = settled-validated e d c (validate_changes-status e d c h)

-- The document is settled, so its status is none of the listed ones.
settled_excludes :
    (d : Fields) (ts : List String)
    → no_elem ts ("" ∷ final_statuses) ≡ true
    → settled d ≡ true
    → in_texts (get "status" d) ts ≡ false
unfolding settled
settled_excludes d ts apart h =
    quiet_excludes (get "status" d) ts apart (and_true (contains "status" d) _ h).1

settled_excludes_one :
    (d : Fields) (t : String)
    → elem t ("" ∷ final_statuses) ≡ false
    → settled d ≡ true
    → value_eq (get "status" d) (str t) ≡ false
unfolding settled
settled_excludes_one d t apart h =
    quiet_excludes_one (get "status" d) t apart (and_true (contains "status" d) _ h).1

saves-Settles : (e : Env) (k : Fields) → Writes Settles (save_change e k)
unfolding save_change
saves-Settles e k d c a p h = ground (arith, settled-changes e d k)

saves_for-Settles :
    (e : Env) (p : String) (r : Option String) (k : Fields)
    → Writes Settles (save_for_provider_change e p r k)
unfolding save_for_provider_change
saves_for-Settles e p r k d c a q h = ground (arith, settled-changes e d k)

admits-Settles :
    (e : Env) (r : String) (k : Fields) → Writes Settles (admit_github_run_change e r k)
unfolding admit_github_run_change
admits-Settles e r k d c a q h = ground (arith, settled-changes e d k)

admits_event-Settles : (e : Env) (p r t : String) → Writes Settles (admit_event_change e p r t)
unfolding admit_event_change contains
admits_event-Settles e p r t d c a q h =
    ground (arith, settled-spared d (entry "event_admitted_at" (str e.now) empty))

accepts-Settles :
    (e : Env) (n : ℕ) (p r t : String) (k : Fields)
    → Writes Settles (accept_event_change e n p r t k)
unfolding accept_event_change contains
accepts-Settles e n p r t k d c a q h =
    ground (arith, settled-changes e d k, settled-spared d empty)

hands_off-Settles : (e : Env) (reason : String) → Writes Settles (handoff_change e reason)
unfolding handoff_change contains
hands_off-Settles e reason d c a q h =
    ground (
      arith,
      settled-spared d empty,
      settled_excludes d ("received" ∷ "waiting_github" ∷ []) refl h,
    )

claims-Settles : (e : Env) → Writes Settles (claim_submission_change e)
unfolding claim_submission_change contains
claims-Settles e d c a q h = ground (
  arith,
  settled-spared d empty,
  settled_excludes d ("submission_pending" ∷ "submission_failed" ∷ []) refl h,
)

binds-Settles :
    (e : Env) (build : String) (metadata : Fields)
    → Writes Settles (bind_build_change e build metadata)
unfolding bind_build_change contains
binds-Settles e build metadata d c a q h =
    ground (arith, settled-spared d empty, settled-validated e d (binding_changes e build metadata))

publishes-Settles : (e : Env) → Writes Settles (claim_publish_change e)
unfolding claim_publish_change contains
publishes-Settles e d c a q h =
    ground (arith, settled-spared d empty, settled_excludes_one d "release_planned" refl h)

token-keeps_status :
    (b r run : String) (d c : Fields)
    → (b == "status") ≡ false
    → (r == "status") ≡ false
    → contains "status" c ≡ false
    → contains "status" (put (token_field_of b r d) (str run) c) ≡ false
token-keeps_status b r run d c hb hr h =
    token_field_of-either (λ t. contains "status" (put t (str run) c) ≡ false) b r d
      (ground (arith, contains-put b "status" (str run) c))
      (ground (arith, contains-put r "status" (str run) c))

issues_source-Settles : (e : Env) (run : String) → Writes Settles (source_token_change e run)
unfolding source_token_change contains
issues_source-Settles e run d c a q h =
    let stamps =
      entry "source_token_issued_at" (str e.now) (entry "updated_at" (str e.now) empty) in
    let name = token_field_of "source_token_build_id" "source_token_provider_run_id" d in
    ground (
      arith,
      settled-spared d empty,
      settled-spared d (put name (str run) stamps),
      token-keeps_status "source_token_build_id" "source_token_provider_run_id" run d stamps refl
          refl refl,
    )

issues_event-Settles :
    (e : Env) (run hash : String) → Writes Settles (event_token_change e run hash)
unfolding event_token_change contains
issues_event-Settles e run hash d c a q h =
    let stamps =
      entry "event_token_hash" (str hash)
        (entry "event_token_issued_at" (str e.now) (entry "updated_at" (str e.now) empty)) in
    let name = token_field_of "event_token_build_id" "event_token_provider_run_id" d in
    ground (
      arith,
      settled-spared d empty,
      settled-spared d (put name (str run) stamps),
      token-keeps_status "event_token_build_id" "event_token_provider_run_id" run d stamps refl refl
          refl,
    )

-- A retry is staged for a failed execution alone.
candidate_failed :
    (e : Env) (d : Fields) (remediation contract : Bool)
    → planner_retry_candidate e d remediation contract ≡ ok true
    → value_eq (get "status" d) (str "failed") ≡ true
unfolding planner_retry_candidate
candidate_failed e d remediation contract h = ground arith

retries-Settles :
    (e : Env) (r : RetryRequest) (previous : String) (changes : Fields)
    → Writes Settles (write_retry e r previous changes)
unfolding write_retry
retries-Settles e r previous changes d c a q h = ground (
  arith,
  candidate_failed e d r.remediation r.contract_retry,
  settled_excludes_one d "failed" refl h,
)

fresh_waiting :
    (id : String) (b d : Fields)
    → check_fresh id b d ≡ ok tt
    → value_eq (get "status" d) (str "waiting_github") ≡ true
unfolding check_fresh
fresh_waiting id b d h = ground arith

bootstraps-Settles :
    (e : Env) (id : String) (b d : Fields) (ticket : Option Fields) (c : Fields)
    → validate_reservation e id b (some d) ticket ≡ ok (some c)
    → Settles d (update d c)
unfolding validate_reservation
bootstraps-Settles e id b d none c q h =
    ground (arith, fresh_waiting id b d, settled_excludes_one d "waiting_github" refl h)
bootstraps-Settles e id b d (some t) c q h = ground arith

updates-Settles :
    (e : Env) (nonce : String) (k : Fields) → Writes Settles (bootstrap_update_change e nonce k)
unfolding bootstrap_update_change
updates-Settles e nonce k d c a q h = ground (arith, settled-validated e d k)

dispatches-Settles :
    (e : Env) (nonce token : String) → Writes Settles (dispatch_change e nonce token)
unfolding dispatch_change contains
dispatches-Settles e nonce token d c a q h =
    ground (arith, settled-spared d empty, settled_excludes_one d "submitting" refl h)

Settles-Respected : Respected any_op Settles
Settles-Respected = record {
  reflexive = λ d h. h;
  saves = λ e id k _. saves-Settles e _;
  reconciles = λ e n. saves-Settles e _;
  saves_for = λ e id p r k _. saves_for-Settles e p r _;
  admits = λ e id r n k _. admits-Settles e r _;
  admits_event = admits_event-Settles;
  accepts = λ e id n p r t k _. accepts-Settles e n p r t _;
  hands_off = hands_off-Settles;
  claims = claims-Settles;
  binds = λ e id build metadata _ free. binds-Settles e build metadata;
  publishes = publishes-Settles;
  issues_source = issues_source-Settles;
  issues_event = issues_event-Settles;
  retries = λ e id r _ previous image seen n _. retries-Settles e r previous _;
  bootstraps = bootstraps-Settles;
  updates = λ e id nonce k _ within. updates-Settles e nonce _;
  dispatches = dispatches-Settles;
}

-- A document whose status is quality_failed, no_release, released or superseded (or blank) keeps
-- such a status whatever calls of whatever operations follow: no execution is reopened from there.
pub settled_forever :
    (history : List (Env × Op)) (s : Store) (j : String) (d : Fields)
    → Holds j s d
    → settled d ≡ true
    → (d' : Fields) × Holds j (apply_all history s) d' × (settled d' ≡ true)
settled_forever history s j d held h =
    let (d', held', keeps) =
      (Evolves-apply_all Settles Settles-Respected.reflexive (λ a b c p q x. q (p x))
          (Evolves-apply_op Settles-Respected) history s (all_ops-any_op history)).becomes
        j d held in
    (d', held', keeps h)
