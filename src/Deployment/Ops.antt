-- ===== src/Deployment/Ops.antt =====
-- Histories of calls of eng_platform_api/services/deployment_executions.py, and the rule by which
-- what every operation respects, every history respects.
use gcp_engineering_platform.Base.{
  ℕ, String, Bool, true, ◌&&◌, ◌||◌, List, [], ◌∷◌, Option, none, some, ◌≡◌, refl, arith, and_true,
  Option-cases, Bool-cases, inl, inr,
}
use gcp_engineering_platform.Python.Value.{str, dict, Fields, truthy}
use gcp_engineering_platform.Python.Dict.{put}
use gcp_engineering_platform.Python.Raise.{Env}
use gcp_engineering_platform.Python.Store.{Store, lookup}
use gcp_engineering_platform.Python.Store.Lift.{
  Writes, Evolves, Evolves-refl, Evolves-insert_fresh, Evolves-commit, Evolves-with_document,
}
use gcp_engineering_platform.Deployment.Executions.{
  Intent, stored, intent_document, reserve_again, reserve_found, reserve, transition_provider,
  transition_provider_change, claim_submission, claim_submission_change, save, save_change,
  accept_event, accept_event_change, event_changes, github_dispatch_change, claim_github_dispatch,
}

pub data Call : Type 0 where
  call_reserve : Intent → Call
  call_transition_provider : String → String → String → String → Call
  call_claim_submission : String → Call
  call_save : String → Fields → Call
  call_accept_event : String → ℕ → Fields → Call
  call_claim_github_dispatch : String → Call

-- The collection after a call, whether it returned or raised.
unfoldable pub run : Env → Call → Store → Store
run e (call_reserve r) s = (reserve e r s).1
run e (call_transition_provider id from_provider to_provider reason) s =
    (transition_provider e id from_provider to_provider reason s).1
run e (call_claim_submission id) s = (claim_submission e id s).1
run e (call_save id changes) s = (save e id changes s).1
run e (call_accept_event id sequence changes) s = (accept_event e id sequence changes s).1
run e (call_claim_github_dispatch id) s = (claim_github_dispatch id s).1

unfoldable pub run_all : List (Env × Call) → Store → Store
run_all [] s = s
run_all ((e, call) ∷ rest) s = run_all rest (run e call s)

-- Every call of a history passes the test.
unfoldable pub all_calls : (Call → Bool) → List (Env × Call) → Bool
all_calls allowed [] = true
all_calls allowed ((_, call) ∷ rest) = allowed call && all_calls allowed rest

-- Each operation, called as the test allows, writes what is related to the document it found.
pub record Respected (R : Fields → Fields → Type 0) (allowed : Call → Bool) : Type 0 where
  pub reflexive : (d : Fields) → R d d
  pub transitive : (a b c : Fields) → R a b → R b c → R a c
  pub reserves : (e : Env) (r : Intent) → Writes R (reserve_again e r)
  pub transitions :
      (e : Env) (a b reason : String) → Writes R (transition_provider_change e a b reason)
  pub claims : (e : Env) → Writes R (claim_submission_change e)
  pub saves :
      (e : Env) (id : String) (k : Fields)
      → allowed (call_save id k) ≡ true
      → Writes R (save_change (put "updated_at" (str e.now) k))
  pub accepts :
      (e : Env) (id : String) (n : ℕ) (k : Fields)
      → allowed (call_accept_event id n k) ≡ true
      → Writes R (accept_event_change e n (event_changes e n k))
  pub dispatches : Writes R github_dispatch_change

module _ {R : Fields → Fields → Type 0} (reflexive : (d : Fields) → R d d)
    (reserves : (e : Env) (r : Intent) → Writes R (reserve_again e r)) where
  found-Evolves :
      (e : Env) (r : Intent) (s : Store) (found : Option Fields)
      → lookup r.deployment_id s ≡ found
      → Evolves R s (reserve_found e r found s).1
  unfolding reserve_found
  found-Evolves e r s none h =
      Evolves-insert_fresh reflexive s r.deployment_id (intent_document e r)
        (λ d holds. cc (h, holds.0))
  found-Evolves e r s (some d) h = elim (Bool-cases (stored e || truthy (dict d))) [
    | inl full ↦
        rw full
          (Evolves-commit reflexive r.deployment_id d s (reserve_again e r d) h (reserves e r d))
    | inr blank ↦ rw blank (
        Evolves-insert_fresh reflexive s r.deployment_id (intent_document e r)
          (λ x holds. ground (arith, h, holds.0, holds.1)))
  ]

  pub Evolves-reserve : (e : Env) (r : Intent) (s : Store) → Evolves R s (reserve e r s).1
  unfolding reserve
  Evolves-reserve e r s = found-Evolves e r s (lookup r.deployment_id s) refl

module _ {R : Fields → Fields → Type 0} {allowed : Call → Bool}
    (respected : Respected R allowed) where
  dispatch-Evolves : (id : String) (s : Store) → Evolves R s (claim_github_dispatch id s).1
  unfolding claim_github_dispatch
  dispatch-Evolves id s = elim (Option-cases (lookup id s)) [
    | inl missing ↦ rw (missing, claim_github_dispatch) (Evolves-refl respected.reflexive s)
    | inr (d, found) ↦
        rw (found, claim_github_dispatch)
          (Evolves-commit respected.reflexive id d s (github_dispatch_change d) found
            (respected.dispatches d))
  ]

  Evolves-run :
      (e : Env) (call : Call) (s : Store) → allowed call ≡ true → Evolves R s (run e call s)
  unfolding run transition_provider claim_submission save accept_event
  Evolves-run e (call_reserve r) s ok_call =
      Evolves-reserve respected.reflexive respected.reserves e r s
  Evolves-run e (call_transition_provider id a b reason) s ok_call =
      Evolves-with_document respected.reflexive id _ s (respected.transitions e a b reason)
  Evolves-run e (call_claim_submission id) s ok_call =
      Evolves-with_document respected.reflexive id _ s (respected.claims e)
  Evolves-run e (call_save id k) s ok_call =
      Evolves-with_document respected.reflexive id _ s (respected.saves e id k ok_call)
  Evolves-run e (call_accept_event id n k) s ok_call =
      Evolves-with_document respected.reflexive id _ s (respected.accepts e id n k ok_call)
  Evolves-run e (call_claim_github_dispatch id) s ok_call = dispatch-Evolves id s

  pub Evolves-run_all :
      (history : List (Env × Call)) (s : Store)
      → all_calls allowed history ≡ true
      → Evolves R s (run_all history s)
  unfolding run_all all_calls
  Evolves-run_all [] s within = Evolves-refl respected.reflexive s
  Evolves-run_all ((e, call) ∷ rest) s within =
      let (first, later) = and_true (allowed call) (all_calls allowed rest) within in
      record {
        becomes = λ j d h.
            let (d', h', r) = (Evolves-run e call s first).becomes j d h in
            let (d'', h'', r') = (Evolves-run_all rest (run e call s) later).becomes j d' h' in
            (d'', h'', respected.transitive d d' d'' r r');
      }
