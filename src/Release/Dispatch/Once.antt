-- ===== src/Release/Dispatch/Once.antt =====
-- Calls of `claim_quality_bootstrap_dispatch` of eng_platform_api/services/release_executions.py
-- with other calls between them.
use gcp_engineering_platform.Base.{
  String, Bool, true, List, ◌≡◌, ◌≢◌, refl, arith, ◌==◌, Bool-cases, inl, inr,
}
use gcp_engineering_platform.Python.Value.{
  null, value_eq_str, bool, str, dict, Fields, empty, entry, truthy, value_eq,
}
use gcp_engineering_platform.Python.Dict.{
  get, contains, update, get-update_other, get-update_set, get_or,
}
use gcp_engineering_platform.Python.Raise.{Env, Result, ok, raise, ◌>>◌}
use gcp_engineering_platform.Python.Store.{Store, Change}
use gcp_engineering_platform.Python.Store.Lift.{
  Holds, Wrote, with_document-Wrote, lookup-insert_self, put-nonempty,
}
use gcp_engineering_platform.Release.Validate.{
  bootstrap_document, bootstrap_ticket, require_bootstrap_storage, require_storage_for, mutate,
}
use gcp_engineering_platform.Release.Bootstrap.{
  dispatch_change, dispatch_checked, claim_quality_bootstrap_dispatch,
}
use gcp_engineering_platform.Release.Evolution.Recovery.{Evolves-apply_op}
use gcp_engineering_platform.Release.Ops.{Op, all_ops-any_op, apply_all, Evolves-apply_all}
use gcp_engineering_platform.Release.Dispatch.{dispatched, Stays, Stays-Respected, dispatch_refused}

-- What a granted permit writes.
permit : Env → Fields
permit e =
    entry "bootstrap_dispatch_started" (bool true)
      (entry "bootstrap_dispatch_started_at" (str e.now) (entry "updated_at" (str e.now) empty))

granted_changes :
    (e : Env) (nonce token : String) (d c : Fields)
    → dispatch_change e nonce token d ≡ ok (c, true)
    → (c ≡ permit e) × (value_eq (get "bootstrap_ticket_id" d) (str bootstrap_ticket) ≡ true)
unfolding dispatch_change permit
granted_changes e nonce token d c h = ground arith

permit-dispatched :
    (e : Env) (d : Fields)
    → value_eq (get "bootstrap_ticket_id" d) (str bootstrap_ticket) ≡ true
    → dispatched (update d (permit e)) ≡ true
unfolding dispatched permit contains get_or
permit-dispatched e d h = ground (
  arith,
  value_eq_str (get "bootstrap_ticket_id" d) bootstrap_ticket h,
  get-update_other "bootstrap_ticket_id" null d (permit e) refl,
  get-update_set "bootstrap_dispatch_started" null d (permit e) refl,
)

permit-nonempty : (e : Env) (d : Fields) → truthy (dict (update d (permit e))) ≡ true
unfolding permit update
permit-nonempty e d = put-nonempty "bootstrap_dispatch_started" (bool true) _

mutate-Wrote :
    (e : Env) (id : String) (f : Change Bool) (a : Bool) (s : Store)
    → (mutate e id f s).0 ≡ ok a
    → Wrote id f a s (mutate e id f s).1
unfolding mutate
mutate-Wrote e id f a s h = elim (Bool-cases (id == bootstrap_document)) [
  | inl fence ↦ cc (rw fence at h)
  | inr other ↦
      rw other (
        unguarded
          (with_document-Wrote id (λ d. require_storage_for e d >> f d) a s (rw other at h)))
]
  where
    past :
        (d : Fields) (r : Result (Fields × Bool))
        → (require_storage_for e d >> f d) ≡ r
        → (c : Fields) → r ≡ ok (c, a)
        → f d ≡ ok (c, a)
    past d r p c q = ground arith

    unguarded :
        {t : Store} → Wrote id (λ d. require_storage_for e d >> f d) a s t → Wrote id f a s t
    unguarded w = record {
      found = w.found;
      changes = w.changes;
      held = w.held;
      agreed = past w.found _ refl w.changes w.agreed;
      written = w.written;
    }

checked-Wrote :
    (e : Env) (id nonce token : String) (check : Result (Unit {0})) (s : Store)
    → (dispatch_checked e id nonce token check s).0 ≡ ok true
    → Wrote id (dispatch_change e nonce token) true s (dispatch_checked e id nonce token check s).1
unfolding dispatch_checked
checked-Wrote e id nonce token (raise error) s h = cc
checked-Wrote e id nonce token (ok _) s h =
    mutate-Wrote e id (dispatch_change e nonce token) true s h

claim-Wrote :
    (e : Env) (id nonce token : String) (s : Store)
    → (claim_quality_bootstrap_dispatch e id nonce token s).0 ≡ ok true
    → Wrote id
        (dispatch_change e nonce token)
        true
        s
        (claim_quality_bootstrap_dispatch e id nonce token s).1
unfolding claim_quality_bootstrap_dispatch
claim-Wrote e id nonce token s h = checked-Wrote e id nonce token (require_bootstrap_storage e) s h

-- After a granted permit the execution holds the mark.
granted-Holds :
    (e : Env) (id nonce token : String) (s : Store)
    → (claim_quality_bootstrap_dispatch e id nonce token s).0 ≡ ok true
    → (d : Fields) × Holds id (claim_quality_bootstrap_dispatch e id nonce token s).1 d
      × (dispatched d ≡ true)
granted-Holds e id nonce token s h =
    let w = claim-Wrote e id nonce token s h in
    let (same, ticket) = granted_changes e nonce token w.found w.changes w.agreed in
    (
      update w.found (permit e),
      (rw (w.written, same) (lookup-insert_self id _ s), permit-nonempty e w.found),
      permit-dispatched e w.found ticket,
    )

-- Once the permit of an execution was granted, no later call is granted one: not with another
-- nonce or token, not from another process, and not after any history of other calls.
pub dispatch_once :
    (e e' : Env) (id nonce nonce' token token' : String) (history : List (Env × Op)) (s : Store)
    → (claim_quality_bootstrap_dispatch e id nonce token s).0 ≡ ok true
    → (claim_quality_bootstrap_dispatch e' id nonce' token'
        (apply_all history (claim_quality_bootstrap_dispatch e id nonce token s).1)).0
      ≢ ok true
dispatch_once e e' id nonce nonce' token token' history s h again =
    let t = (claim_quality_bootstrap_dispatch e id nonce token s).1 in
    let (d, held, marked) = granted-Holds e id nonce token s h in
    let (d', held', stays) =
      (Evolves-apply_all Stays Stays-Respected.reflexive (λ a b c p q x. q (p x))
          (Evolves-apply_op Stays-Respected) history t (all_ops-any_op history)).becomes
        id d held in
    let w = claim-Wrote e' id nonce' token' (apply_all history t) again in
    refused d' w.found w.changes (stays marked) (cc (held'.0, w.held)) w.agreed
  where
    refused :
        (d' found c : Fields)
        → dispatched d' ≡ true
        → found ≡ d'
        → dispatch_change e' nonce' token' found ≡ ok (c, true)
        → ⊥
    refused d' found c marked p q = cc (dispatch_refused e' nonce' token' d' marked, rw p at q)
