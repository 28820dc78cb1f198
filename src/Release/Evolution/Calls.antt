-- ===== src/Release/Evolution/Calls.antt =====
-- The calls on one execution, each from its operation.
use Prim.Native.String.{count}
use gcp_engineering_platform.Base.{
  ℕ, String, Bool, Option, true, false, ◌≡◌, ◌==◌, not, ◌||◌, Bool-cases, Option-cases, inl, inr,
  ltb,
}
use gcp_engineering_platform.Python.Value.{str, Fields}
use gcp_engineering_platform.Python.Dict.{put, contains_any}
use gcp_engineering_platform.Python.Raise.{Env, Result, ok, raise, to_int}
use gcp_engineering_platform.Python.Store.{Store, Change, lookup}
use gcp_engineering_platform.Python.Store.Lift.{
  Writes, Evolves, Evolves-refl, Evolves-commit, Evolves-with_document,
}
use gcp_engineering_platform.Release.Validate.{identity_fields}
use gcp_engineering_platform.Release.Admission.{
  save, save_for_provider, admit_github_run, admit_numbered, admit_event_provider, accept_event,
  save_change, stamped,
}
use gcp_engineering_platform.Release.Claims.{
  transition_to_cloud_build, claim_submission, binding_fields, bind_build, claim_publish,
}
use gcp_engineering_platform.Release.Tokens.{
  with_document_or, claim_source_token, claim_event_token, is_hex_digest,
}
use gcp_engineering_platform.Release.Ops.{
  Op, op_save, op_save_for_provider, op_admit_github_run, op_accept_event, op_bind_build,
}
use gcp_engineering_platform.Release.Evolution.{Respected, Evolves-mutate, retried}

module _ {allowed : Op → Bool} {R : Fields → Fields → Type 0}
    (respected : Respected allowed R) where
  saved-Evolves :
      (e : Env) (id : String) (k : Fields) (s : Store)
      → Writes R (save_change e (stamped e k))
      → Evolves R s (save e id k s).1
  unfolding save
  saved-Evolves e id k s w =
      let changes = put "updated_at" (str e.now) k in
      elim (Bool-cases (contains_any identity_fields changes)) [
        | inl bad ↦ rw bad (Evolves-refl respected.reflexive s)
        | inr good ↦ rw good (Evolves-mutate respected e id _ s w)
      ]

  pub Evolves-save :
      (e : Env) (id : String) (k : Fields) (s : Store)
      → allowed (op_save id k) ≡ true
      → Evolves R s (save e id k s).1
  Evolves-save e id k s within = saved-Evolves e id k s (respected.saves e id k within)

  pub Evolves-reconciled :
      (e : Env) (id : String) (n : ℕ) (s : Store) → Evolves R s (save e id (retried n) s).1
  Evolves-reconciled e id n s = saved-Evolves e id (retried n) s (respected.reconciles e n)

  pub Evolves-save_for_provider :
      (e : Env) (id p : String) (r : Option String) (k : Fields) (s : Store)
      → allowed (op_save_for_provider id p r k) ≡ true
      → Evolves R s (save_for_provider e id p r k s).1
  unfolding save_for_provider
  Evolves-save_for_provider e id p r k s within =
      Evolves-mutate respected e id _ s (respected.saves_for e id p r k within)

  numbered :
      (e : Env) (id run : String) (k : Fields) (n : Result ℕ) (s : Store)
      → allowed (op_admit_github_run id run k) ≡ true
      → Evolves R s (admit_numbered e id run k n s).1
  unfolding admit_numbered
  numbered e id run k (raise error) s within = Evolves-refl respected.reflexive s
  numbered e id run k (ok n) s within =
      Evolves-mutate respected e id _ s (respected.admits e id run n k within)

  pub Evolves-admit_github_run :
      (e : Env) (id run : String) (k : Fields) (s : Store)
      → allowed (op_admit_github_run id run k) ≡ true
      → Evolves R s (admit_github_run e id run k s).1
  unfolding admit_github_run
  Evolves-admit_github_run e id run k s within =
      elim (Bool-cases (run == "" || not (e.is_digit run))) [
        | inl bad ↦ rw bad (Evolves-refl respected.reflexive s)
        | inr good ↦ rw good (numbered e id run k (to_int e (str run)) s within)
      ]

  pub Evolves-admit_event :
      (e : Env) (id p r t : String) (s : Store) → Evolves R s (admit_event_provider e id p r t s).1
  unfolding admit_event_provider
  Evolves-admit_event e id p r t s =
      Evolves-mutate respected e id _ s (respected.admits_event e p r t)

  pub Evolves-accept_event :
      (e : Env) (id : String) (n : ℕ) (p r t : String) (k : Fields) (s : Store)
      → allowed (op_accept_event id n p r t k) ≡ true
      → Evolves R s (accept_event e id n p r t k s).1
  unfolding accept_event
  Evolves-accept_event e id n p r t k s within =
      Evolves-with_document respected.reflexive id _ s (respected.accepts e id n p r t k within)

  pub Evolves-transition :
      (e : Env) (id reason : String) (s : Store)
      → Evolves R s (transition_to_cloud_build e id reason s).1
  unfolding transition_to_cloud_build
  Evolves-transition e id reason s =
      Evolves-with_document respected.reflexive id _ s (respected.hands_off e reason)

  pub Evolves-claim_submission :
      (e : Env) (id : String) (s : Store) → Evolves R s (claim_submission e id s).1
  unfolding claim_submission
  Evolves-claim_submission e id s =
      Evolves-with_document respected.reflexive id _ s (respected.claims e)

  pub Evolves-bind_build :
      (e : Env) (id build : String) (k : Fields) (s : Store)
      → allowed (op_bind_build id build k) ≡ true
      → Evolves R s (bind_build e id build k s).1
  unfolding bind_build
  Evolves-bind_build e id build k s within =
      elim (Bool-cases (build == "" || ltb 128 (count build))) [
        | inl bad ↦ rw bad (Evolves-refl respected.reflexive s)
        | inr good ↦ elim (Bool-cases (contains_any binding_fields k)) [
          | inl taken ↦ rw (good, taken) (Evolves-refl respected.reflexive s)
          | inr free ↦
              rw (good, free)
                (Evolves-with_document respected.reflexive id _ s
                  (respected.binds e id build k within free))
        ]
      ]

  pub Evolves-claim_publish :
      (e : Env) (id : String) (s : Store) → Evolves R s (claim_publish e id s).1
  unfolding claim_publish
  Evolves-claim_publish e id s =
      Evolves-with_document respected.reflexive id _ s (respected.publishes e)

  with_document_or-Evolves :
      {A : Type 0} (default : A) (id : String) (f : Change A) (s : Store)
      → Writes R f
      → Evolves R s (with_document_or default id f s).1
  unfolding with_document_or
  with_document_or-Evolves default id f s w = elim (Option-cases (lookup id s)) [
    | inl missing ↦ rw (missing, with_document_or) (Evolves-refl respected.reflexive s)
    | inr (d, found) ↦
        rw (found, with_document_or) (Evolves-commit respected.reflexive id d s (f d) found (w d))
  ]

  pub Evolves-source_token :
      (e : Env) (id run : String) (s : Store) → Evolves R s (claim_source_token e id run s).1
  unfolding claim_source_token
  Evolves-source_token e id run s =
      with_document_or-Evolves false id _ s (respected.issues_source e run)

  pub Evolves-event_token :
      (e : Env) (id run hash : String) (s : Store)
      → Evolves R s (claim_event_token e id run hash s).1
  unfolding claim_event_token
  Evolves-event_token e id run hash s = elim (Bool-cases (not (is_hex_digest hash))) [
    | inl bad ↦ rw bad (Evolves-refl respected.reflexive s)
    | inr good ↦ rw good (with_document_or-Evolves false id _ s (respected.issues_event e run hash))
  ]
