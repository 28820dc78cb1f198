-- ===== src/Release/Identity.antt =====
-- The identity fields of eng_platform_api/services/release_executions.py along histories of calls.
use gcp_engineering_platform.Base.{String, List, refl, ◌∙◌}
use gcp_engineering_platform.Python.Value.{Fields}
use gcp_engineering_platform.Python.Raise.{Env}
use gcp_engineering_platform.Python.Store.{Store}
use gcp_engineering_platform.Python.Store.Lift.{Holds}
use gcp_engineering_platform.Release.Validate.{identity_fields}
use gcp_engineering_platform.Release.Spares.{
  SameOn, Spares-Writes, save-Spares, save_for_provider-Spares, admit_github_run-Spares,
  admit_event-Spares, accept_event-Spares, handoff-Spares, claim_submission-Spares,
  bind_build-Spares, claim_publish-Spares, source_token-Spares, event_token-Spares,
  write_retry-Spares, staged_changes-spares, dispatch-Spares, bootstrap_update-Spares,
  bootstrap_changes-spares, changes-SameOn,
}
use gcp_engineering_platform.Release.Evolution.{Respected}
use gcp_engineering_platform.Release.Evolution.Recovery.{Evolves-apply_op, reservation_changes}
use gcp_engineering_platform.Release.Ops.{Op, any_op, all_ops-any_op, apply_all, Evolves-apply_all}

identity-Respected : Respected any_op (SameOn identity_fields)
identity-Respected = record {
  reflexive = λ d k named. refl;
  saves = λ e id k _. Spares-Writes identity_fields _ (save-Spares e _);
  reconciles = λ e n. Spares-Writes identity_fields _ (save-Spares e _);
  saves_for = λ e id p r k _. Spares-Writes identity_fields _ (save_for_provider-Spares e p r _);
  admits = λ e id r n k _. Spares-Writes identity_fields _ (admit_github_run-Spares e r _);
  admits_event = λ e p r t. Spares-Writes identity_fields _ (admit_event-Spares e p r t);
  accepts = λ e id n p r t k _. Spares-Writes identity_fields _ (accept_event-Spares e n p r t _);
  hands_off = λ e reason. Spares-Writes identity_fields _ (handoff-Spares e reason);
  claims = λ e. Spares-Writes identity_fields _ (claim_submission-Spares e);
  binds = λ e id b m _ free. Spares-Writes identity_fields _ (bind_build-Spares e b m free);
  publishes = λ e. Spares-Writes identity_fields _ (claim_publish-Spares e);
  issues_source = λ e r. Spares-Writes identity_fields _ (source_token-Spares e r);
  issues_event = λ e r h. Spares-Writes identity_fields _ (event_token-Spares e r h);
  retries = λ e id r _ previous image seen n _.
      Spares-Writes identity_fields _
        (write_retry-Spares e r previous _ (staged_changes-spares e r seen n image));
  bootstraps = λ e id b d ticket c h.
      changes-SameOn identity_fields d c
        (rw (reservation_changes e id b d ticket c h) (bootstrap_changes-spares e b));
  updates = λ e id nonce k _ within.
      Spares-Writes identity_fields _ (bootstrap_update-Spares e nonce k within);
  dispatches = λ e nonce token. Spares-Writes identity_fields _ (dispatch-Spares e nonce token);
}

-- After any calls of any operations, in any order and from any processes, a document that was not
-- empty is still there under its id, and agrees with the old one on every identity field.
pub identity_immutable :
    (history : List (Env × Op)) (s : Store) (j : String) (d : Fields)
    → Holds j s d
    → (d' : Fields) × Holds j (apply_all history s) d' × SameOn identity_fields d d'
identity_immutable history s j d h =
    (Evolves-apply_all (SameOn identity_fields) identity-Respected.reflexive
        (λ a b c p q k named. q k named ∙ p k named) (Evolves-apply_op identity-Respected) history s
        (all_ops-any_op history)).becomes
      j d h
