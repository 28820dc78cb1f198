-- ===== src/Release/Ops.antt =====
-- Every operation of eng_platform_api/services/release_executions.py that writes, as data: what the
-- API, the event handlers and the reconciler may call, in any order.
use gcp_engineering_platform.Base.{
  ℕ, String, Bool, true, List, [], ◌∷◌, Option, ◌&&◌, ◌≡◌, refl, arith,
}
use gcp_engineering_platform.Python.Value.{Fields}
use gcp_engineering_platform.Python.Raise.{Env}
use gcp_engineering_platform.Python.Store.{Store}
use gcp_engineering_platform.Python.Store.Lift.{Evolves}
use gcp_engineering_platform.Release.Admission.{
  save, save_for_provider, admit_github_run, admit_event_provider, accept_event,
}
use gcp_engineering_platform.Release.Reserve.{Reservation, reserve}
use gcp_engineering_platform.Release.Claims.{
  transition_to_cloud_build, claim_submission, bind_build, claim_publish,
}
use gcp_engineering_platform.Release.Tokens.{claim_source_token, claim_event_token}
use gcp_engineering_platform.Release.Planner.{
  RetryRequest, stage_planner_retry, reconcile_submission_absent,
}
use gcp_engineering_platform.Release.Bootstrap.{
  reserve_quality_bootstrap, update_quality_bootstrap, claim_quality_bootstrap_dispatch,
}

pub data Op : Type 0 where
  op_reserve : Reservation → Op
  op_save : String → Fields → Op
  op_save_for_provider : String → String → Option String → Fields → Op
  op_admit_github_run : String → String → Fields → Op
  op_admit_event : String → String → String → String → Op
  op_accept_event : String → ℕ → String → String → String → Fields → Op
  op_transition : String → String → Op
  op_claim_submission : String → Op
  op_bind_build : String → String → Fields → Op
  op_claim_publish : String → Op
  op_source_token : String → String → Op
  op_event_token : String → String → String → Op
  op_reconcile_absent : String → Store → Op
  op_stage_retry : String → RetryRequest → Store → Op
  op_reserve_bootstrap : String → Fields → Op
  op_update_bootstrap : String → String → Fields → Op
  op_dispatch : String → String → String → Op

-- The collection after a call, whether it returned or raised.
unfoldable pub apply_op : Env → Op → Store → Store
apply_op e (op_reserve r) s = (reserve e r s).1
apply_op e (op_save id changes) s = (save e id changes s).1
apply_op e (op_save_for_provider id provider run changes) s =
    (save_for_provider e id provider run changes s).1
apply_op e (op_admit_github_run id run metadata) s = (admit_github_run e id run metadata s).1
apply_op e (op_admit_event id provider run hash) s =
    (admit_event_provider e id provider run hash s).1
apply_op e (op_accept_event id sequence provider run hash changes) s =
    (accept_event e id sequence provider run hash changes s).1
apply_op e (op_transition id reason) s = (transition_to_cloud_build e id reason s).1
apply_op e (op_claim_submission id) s = (claim_submission e id s).1
apply_op e (op_bind_build id build metadata) s = (bind_build e id build metadata s).1
apply_op e (op_claim_publish id) s = (claim_publish e id s).1
apply_op e (op_source_token id run) s = (claim_source_token e id run s).1
apply_op e (op_event_token id run hash) s = (claim_event_token e id run hash s).1
apply_op e (op_reconcile_absent id seen) s = (reconcile_submission_absent e id seen s).1
apply_op e (op_stage_retry id r seen) s = (stage_planner_retry e id r seen s).1
apply_op e (op_reserve_bootstrap id binding) s = (reserve_quality_bootstrap e id binding s).1
apply_op e (op_update_bootstrap id nonce changes) s =
    (update_quality_bootstrap e id nonce changes s).1
apply_op e (op_dispatch id nonce token) s = (claim_quality_bootstrap_dispatch e id nonce token s).1

-- A history: calls of several processes in the order of their transactions, each with the clock and
-- settings that it saw.
unfoldable pub apply_all : List (Env × Op) → Store → Store
apply_all [] s = s
apply_all ((e, op) ∷ rest) s = apply_all rest (apply_op e op s)

-- Every call of a history is one of the allowed ones.
unfoldable pub all_ops : (Op → Bool) → List (Env × Op) → Bool
all_ops allowed [] = true
all_ops allowed ((_, op) ∷ rest) = allowed op && all_ops allowed rest

unfoldable pub any_op : Op → Bool
any_op _ = true

pub all_ops-any_op : (history : List (Env × Op)) → all_ops any_op history ≡ true
unfolding all_ops any_op
all_ops-any_op [] = refl
all_ops-any_op ((e, op) ∷ rest) = all_ops-any_op rest

module _ {allowed : Op → Bool} (R : Fields → Fields → Type 0) (reflexive : (d : Fields) → R d d)
    (transitive : (a b c : Fields) → R a b → R b c → R a c)
    (step : (e : Env) (op : Op) (s : Store)
      → allowed op ≡ true
      → Evolves R s (apply_op e op s)) where
  pub Evolves-apply_all :
      (history : List (Env × Op)) (s : Store)
      → all_ops allowed history ≡ true
      → Evolves R s (apply_all history s)
  unfolding apply_all all_ops
  Evolves-apply_all [] s within = record { becomes = λ j d h. (d, h, reflexive d) }
  Evolves-apply_all ((e, op) ∷ rest) s within = record {
    becomes = λ j d h.
        let (d', h', r) = (step e op s (ground (arith, within))).becomes j d h in
        let (d'', h'', r') =
          (Evolves-apply_all rest (apply_op e op s) (ground (arith, within))).becomes j d' h' in
        (d'', h'', transitive d d' d'' r r');
  }
