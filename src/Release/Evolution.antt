-- ===== src/Release/Evolution.antt =====
-- From the operations on one release execution to the calls on the collection: a relation between
-- a document and its next version that every operation respects holds along every call.
pub mod Calls
pub mod Recovery
use Prim.Native.String.{count}
use gcp_engineering_platform.Base.{
  ℕ, String, Bool, Option, true, false, none, some, ◌≡◌, refl, arith, ◌==◌, not, ◌&&◌, ◌||◌,
  Bool-cases, Option-cases, inl, inr, if◌then◌else◌, ltb,
}
use gcp_engineering_platform.Python.Value.{Value, num, str, dict, truthy, Fields, empty, entry}
use gcp_engineering_platform.Python.Dict.{put, contains_any, update}
use gcp_engineering_platform.Python.Raise.{
  Env, Error, Result, ok, raise, value_error, ◌>>=◌, ◌>>◌, persistent, to_int,
}
use gcp_engineering_platform.Python.Store.{
  Store, Change, Exec, lookup, insert, lookup-insert, with_document,
}
use gcp_engineering_platform.Python.Store.Lift.{
  Writes, Holds, Evolves, Evolves-refl, Evolves-insert, Evolves-insert_fresh, Evolves-commit,
  Evolves-with_document, update-nonempty,
}
use gcp_engineering_platform.Release.Validate.{
  identity_fields, bootstrap_document, require_storage_for, mutate,
}
use gcp_engineering_platform.Release.Admission.{
  save, save_change, save_for_provider, save_for_provider_change, admit_github_run, admit_numbered,
  github_run_changes, admit_github_run_change, admit_event_provider, admit_event_change,
  accept_event, accept_event_change, stamped,
}
use gcp_engineering_platform.Release.Reserve.{
  Reservation, reserve, reserve_value, reserve_existing, reserve_new, reserved_document,
  any_differs, reserved_identity, fingerprint, get_execution,
}
use gcp_engineering_platform.Release.Claims.{
  handoff_change, transition_to_cloud_build, claim_submission_change, claim_submission,
  binding_fields, bind_build_change, bind_build, claim_publish_change, claim_publish,
}
use gcp_engineering_platform.Release.Tokens.{
  with_document_or, source_token_change, claim_source_token, event_token_change, claim_event_token,
  is_hex_digest,
}
use gcp_engineering_platform.Release.Planner.{
  RetryRequest, staged_changes, plan_retry, write_retry, stage_planner_retry, stage_from,
  stage_write, staged, reconcile_submission_absent, absent_write, absent_changes,
}
use gcp_engineering_platform.Release.Bootstrap.{
  allowed_updates, keys_within, bootstrap_update_change, dispatch_change, validate_reservation,
  reserve_quality_bootstrap, reserve_outcome, ticket_document, check_binding, update_checked,
  dispatch_checked, update_quality_bootstrap, claim_quality_bootstrap_dispatch,
}
use gcp_engineering_platform.Release.Ops.{
  Op, op_save, op_bind_build, op_save_for_provider, op_admit_github_run, op_accept_event,
  op_stage_retry, op_update_bootstrap,
}

-- What `reconcile_submission_absent` hands to `save`.
abbrev pub retried : ℕ → Fields
retried n =
    entry "status" (str "submission_pending") (entry "reconciliation_attempts" (num n) empty)

-- `R` holds between a document and what each allowed operation makes of it.
pub record Respected (allowed : Op → Bool) (R : Fields → Fields → Type 0) : Type 0 where
  pub reflexive : (d : Fields) → R d d
  pub saves :
      (e : Env) (id : String) (k : Fields)
      → allowed (op_save id k) ≡ true
      → Writes R (save_change e (stamped e k))
  pub reconciles : (e : Env) (n : ℕ) → Writes R (save_change e (stamped e (retried n)))
  pub saves_for :
      (e : Env) (id p : String) (r : Option String) (k : Fields)
      → allowed (op_save_for_provider id p r k) ≡ true
      → Writes R (save_for_provider_change e p r (stamped e k))
  pub admits :
      (e : Env) (id r : String) (n : ℕ) (k : Fields)
      → allowed (op_admit_github_run id r k) ≡ true
      → Writes R (admit_github_run_change e r (github_run_changes e r n k))
  pub admits_event : (e : Env) (p r t : String) → Writes R (admit_event_change e p r t)
  pub accepts :
      (e : Env) (id : String) (n : ℕ) (p r t : String) (k : Fields)
      → allowed (op_accept_event id n p r t k) ≡ true
      → Writes R (accept_event_change e n p r t (stamped e (put "event_sequence" (num n) k)))
  pub hands_off : (e : Env) (reason : String) → Writes R (handoff_change e reason)
  pub claims : (e : Env) → Writes R (claim_submission_change e)
  pub binds :
      (e : Env) (id build : String) (metadata : Fields)
      → allowed (op_bind_build id build metadata) ≡ true
      → contains_any binding_fields metadata ≡ false
      → Writes R (bind_build_change e build metadata)
  pub publishes : (e : Env) → Writes R (claim_publish_change e)
  pub issues_source : (e : Env) (run : String) → Writes R (source_token_change e run)
  pub issues_event : (e : Env) (run hash : String) → Writes R (event_token_change e run hash)
  pub retries :
      (e : Env) (id : String) (r : RetryRequest) (read_store : Store) (previous image : String)
      (seen : Fields) (n : ℕ)
      → allowed (op_stage_retry id r read_store) ≡ true
      → Writes R (write_retry e r previous (staged_changes e r seen n image))
  pub bootstraps :
      (e : Env) (id : String) (b d : Fields) (ticket : Option Fields) (c : Fields)
      → validate_reservation e id b (some d) ticket ≡ ok (some c)
      → R d (update d c)
  pub updates :
      (e : Env) (id nonce : String) (k : Fields)
      → allowed (op_update_bootstrap id nonce k) ≡ true
      → keys_within allowed_updates k ≡ true
      → Writes R (bootstrap_update_change e nonce (put "updated_at" (str e.now) k))
  pub dispatches : (e : Env) (nonce token : String) → Writes R (dispatch_change e nonce token)

module _ {allowed : Op → Bool} {R : Fields → Fields → Type 0}
    (respected : Respected allowed R) where
  -- The storage check in front of a callback writes nothing.
  guarded-Writes :
      {A : Type 0} (e : Env) (f : Change A)
      → Writes R f
      → Writes R (λ d. require_storage_for e d >> f d)
  guarded-Writes e f w d c a h = ground (arith, w d c a)

  pub Evolves-mutate :
      {A : Type 0} (e : Env) (id : String) (f : Change A) (s : Store)
      → Writes R f
      → Evolves R s (mutate e id f s).1
  unfolding mutate
  Evolves-mutate e id f s w = elim (Bool-cases (id == bootstrap_document)) [
    | inl fence ↦ rw fence (Evolves-refl respected.reflexive s)
    | inr other ↦ rw other (
        Evolves-with_document respected.reflexive id (λ d. require_storage_for e d >> f d) s
          (guarded-Writes e f w))
  ]
