-- ===== src/Release/Evolution/Recovery.antt =====
-- The calls that read before they write, and the reservations.
use gcp_engineering_platform.Base.{
  ℕ, String, Bool, Option, true, none, some, ◌≡◌, refl, arith, eq_iff, ◌==◌, not, ◌||◌, Bool-cases,
  inl, inr,
}
use gcp_engineering_platform.Python.Value.{dict, truthy, Fields}
use gcp_engineering_platform.Python.Dict.{update}
use gcp_engineering_platform.Python.Raise.{
  Env, Result, ok, raise, value_error, ◌>>=◌, ◌>>◌, persistent, raise_if, require_new_builds,
}
use gcp_engineering_platform.Python.Store.{Store, lookup, insert, lookup-insert}
use gcp_engineering_platform.Python.Store.Lift.{
  Holds, Evolves, Evolves-refl, Evolves-insert, Evolves-insert_fresh, Evolves-with_document,
  update-nonempty,
}
use gcp_engineering_platform.Release.Validate.{bootstrap_document}
use gcp_engineering_platform.Release.Reserve.{
  Reservation, reserve, reserve_value, reserve_existing, reserved_document, any_differs,
  reserved_identity, fingerprint, get_execution,
}
use gcp_engineering_platform.Release.Planner.{
  RetryRequest, staged_changes, plan_retry, write_retry, stage_planner_retry, stage_from,
  stage_write, staged, reconcile_submission_absent, absent_write, absent_changes,
}
use gcp_engineering_platform.Release.Bootstrap.{
  allowed_updates, keys_within, validate_reservation, bootstrap_changes, reserve_quality_bootstrap,
  reserve_outcome, ticket_document, check_binding, update_checked, dispatch_checked,
  update_quality_bootstrap, claim_quality_bootstrap_dispatch,
}
use gcp_engineering_platform.Release.Ops.{
  Op, op_reserve, op_save, op_save_for_provider, op_admit_github_run, op_admit_event,
  op_accept_event, op_transition, op_claim_submission, op_bind_build, op_claim_publish,
  op_source_token, op_event_token, op_reconcile_absent, op_stage_retry, op_reserve_bootstrap,
  op_update_bootstrap, op_dispatch, apply_op,
}
use gcp_engineering_platform.Release.Evolution.{Respected, Evolves-mutate, retried}
use gcp_engineering_platform.Release.Evolution.Calls.{
  Evolves-save, Evolves-reconciled, Evolves-save_for_provider, Evolves-admit_github_run,
  Evolves-admit_event, Evolves-accept_event, Evolves-transition, Evolves-claim_submission,
  Evolves-bind_build, Evolves-claim_publish, Evolves-source_token, Evolves-event_token,
}

-- The write of a staged retry carries the changes that its first part staged.
abbrev IsStaged : Env → RetryRequest → Result (Fields × String) → Type 0
IsStaged e r (raise _) = Unit
IsStaged e r (ok (changes, previous)) =
    (seen : Fields) × (n : ℕ) × (image : String) × (changes ≡ staged_changes e r seen n image)

staged-IsStaged :
    (e : Env) (r : RetryRequest) (seen : Fields) (plan : Result (ℕ × String))
    → IsStaged e r (staged e r seen plan)
unfolding staged
staged-IsStaged e r seen (raise error) = tt
staged-IsStaged e r seen (ok (n, image)) = (seen, n, image, refl)

stage_from-IsStaged :
    (e : Env) (id : String) (r : RetryRequest) (found : Result (Option Fields))
    → IsStaged e r (stage_from e id r found)
unfolding stage_from
stage_from-IsStaged e id r (raise error) = tt
stage_from-IsStaged e id r (ok none) = tt
stage_from-IsStaged e id r (ok (some seen)) = staged-IsStaged e r seen (plan_retry e r seen)

-- A check in front of a staged retry.
checked-IsStaged :
    (e : Env) (r : RetryRequest) (check : Result (Unit {0})) (plan : Result (Fields × String))
    → IsStaged e r plan
    → IsStaged e r (check >> plan)
checked-IsStaged e r (raise error) plan h = tt
checked-IsStaged e r (ok _) plan h = h

-- Once the ticket exists a reservation writes nothing.
pub held_ticket_refuses :
    (e : Env) (id : String) (b : Fields) (current : Option Fields) (t c : Fields)
    → ¬ (validate_reservation e id b current (some t) ≡ ok (some c))
unfolding validate_reservation
held_ticket_refuses e id b none t c h = ground arith
held_ticket_refuses e id b (some d) t c h = ground arith

-- The changes of a fresh reservation.
pub reservation_changes :
    (e : Env) (id : String) (b d : Fields) (ticket : Option Fields) (c : Fields)
    → validate_reservation e id b (some d) ticket ≡ ok (some c)
    → c ≡ bootstrap_changes e b
unfolding validate_reservation
reservation_changes e id b d none c h = ground arith
reservation_changes e id b d (some t) c h = absurd (held_ticket_refuses e id b (some d) t c h)

pub checked_plan :
    (check : Result (Unit {0})) (plan : Result (Option Fields)) (c : Fields)
    → (check >> plan) ≡ ok (some c)
    → plan ≡ ok (some c)
checked_plan (raise error) plan c h = cc
checked_plan (ok _) plan c h = h

-- The changes of a reconciled submission.
abbrev IsReconciled : Result Fields → Type 0
IsReconciled k = (c : Fields) → k ≡ ok c → (n : ℕ) × (c ≡ retried n)

absent_changes-IsReconciled :
    (e : Env) (id : String) (found : Option Fields) → IsReconciled (absent_changes e id found)
unfolding absent_changes
absent_changes-IsReconciled e id none c h = ground arith
absent_changes-IsReconciled e id (some d) c h = ground arith

read-IsReconciled :
    (e : Env) (id : String) (found : Result (Option Fields))
    → IsReconciled (do d ← found; absent_changes e id d)
read-IsReconciled e id (raise error) c h = cc h
read-IsReconciled e id (ok d) c h = absent_changes-IsReconciled e id d c h

module _ {allowed : Op → Bool} {R : Fields → Fields → Type 0}
    (respected : Respected allowed R) where
  absent-Evolves :
      (e : Env) (id : String) (k : Result Fields) (s : Store)
      → IsReconciled k
      → Evolves R s (absent_write e id k s).1
  unfolding absent_write
  absent-Evolves e id (raise error) s _ = Evolves-refl respected.reflexive s
  absent-Evolves e id (ok changes) s h =
      let (n, p) = h changes refl in rw p (Evolves-reconciled respected e id n s)

  pub Evolves-reconcile_absent :
      (e : Env) (id : String) (seen s : Store)
      → Evolves R s (reconcile_submission_absent e id seen s).1
  unfolding reconcile_submission_absent
  Evolves-reconcile_absent e id seen s =
      absent-Evolves e id _ s (read-IsReconciled e id (get_execution e id seen))

  fresh_if_missing :
      (s : Store) (id : String) → lookup id s ≡ none → (d : Fields) → ¬ (Holds id s d)
  fresh_if_missing s id missing d h = cc (missing, h.0)

  existing-Evolves :
      (value current : Fields) (s : Store) → Evolves R s (reserve_existing value current s).1
  unfolding reserve_existing
  existing-Evolves value current s =
      elim (Bool-cases (any_differs reserved_identity current value)) [
        | inl bad ↦ rw bad (Evolves-refl respected.reflexive s)
        | inr good ↦ rw good (Evolves-refl respected.reflexive s)
      ]

  reserve_value-Evolves :
      (f : Bool) (id : String) (value : Fields) (s : Store) (found : Option Fields)
      → lookup id s ≡ found
      → Evolves R s (reserve_value f id value found s).1
  unfolding reserve_value
  reserve_value-Evolves f id value s none h =
      Evolves-insert_fresh respected.reflexive s id value (fresh_if_missing s id h)
  reserve_value-Evolves f id value s (some current) h =
      elim (Bool-cases (f || truthy (dict current))) [
        | inl full ↦ rw full (existing-Evolves value current s)
        | inr no_status ↦ rw no_status (
            Evolves-insert_fresh respected.reflexive s id value
              (λ d holds. ground (arith, h, holds.0, holds.1)))
      ]

  pub Evolves-reserve : (e : Env) (r : Reservation) (s : Store) → Evolves R s (reserve e r s).1
  unfolding reserve
  Evolves-reserve e r s = elim (Bool-cases (not (r.fingerprint_value == fingerprint e r))) [
    | inl bad ↦ rw bad (Evolves-refl respected.reflexive s)
    | inr good ↦
        rw good (
          reserve_value-Evolves (persistent e) r.fingerprint_value (reserved_document e r) s _ refl)
  ]

  stage_write-Evolves :
      (e : Env) (id : String) (r : RetryRequest) (read_store : Store)
      (plan : Result (Fields × String)) (s : Store)
      → allowed (op_stage_retry id r read_store) ≡ true
      → IsStaged e r plan
      → Evolves R s (stage_write e id r plan s).1
  unfolding stage_write
  stage_write-Evolves e id r read_store (raise error) s _ h = Evolves-refl respected.reflexive s
  stage_write-Evolves e id r read_store (ok (changes, previous)) s within (seen, n, image, p) =
      Evolves-with_document respected.reflexive id (write_retry e r previous changes) s
        (rw p (respected.retries e id r read_store previous image seen n within))

  pub Evolves-stage_retry :
      (e : Env) (id : String) (r : RetryRequest) (seen s : Store)
      → allowed (op_stage_retry id r seen) ≡ true
      → Evolves R s (stage_planner_retry e id r seen s).1
  unfolding stage_planner_retry
  Evolves-stage_retry e id r seen s within = stage_write-Evolves e id r seen _ s within (
      checked-IsStaged e r (require_new_builds e) (identified >> found) (
        checked-IsStaged e r identified found
          (stage_from-IsStaged e id r (get_execution e id seen))))
    where
      identified : Result (Unit {0})
      identified =
          raise_if (r.failed_build_id == "") (value_error "Failed Cloud Build identity is required")

      found : Result (Fields × String)
      found = stage_from e id r (get_execution e id seen)

  update_checked-Evolves :
      (e : Env) (id nonce : String) (k : Fields) (check : Result (Unit {0})) (s : Store)
      → allowed (op_update_bootstrap id nonce k) ≡ true
      → (check ≡ ok tt → keys_within allowed_updates k ≡ true)
      → Evolves R s (update_checked e id nonce k check s).1
  unfolding update_checked
  update_checked-Evolves e id nonce k (raise error) s _ h = Evolves-refl respected.reflexive s
  update_checked-Evolves e id nonce k (ok _) s within h =
      Evolves-mutate respected e id _ s (respected.updates e id nonce k within (h refl))

  pub Evolves-update_bootstrap :
      (e : Env) (id nonce : String) (k : Fields) (s : Store)
      → allowed (op_update_bootstrap id nonce k) ≡ true
      → Evolves R s (update_quality_bootstrap e id nonce k s).1
  unfolding update_quality_bootstrap
  Evolves-update_bootstrap e id nonce k s within =
      update_checked-Evolves e id nonce k _ s within (λ h. ground arith)

  dispatch_checked-Evolves :
      (e : Env) (id nonce token : String) (check : Result (Unit {0})) (s : Store)
      → Evolves R s (dispatch_checked e id nonce token check s).1
  unfolding dispatch_checked
  dispatch_checked-Evolves e id nonce token (raise error) s = Evolves-refl respected.reflexive s
  dispatch_checked-Evolves e id nonce token (ok _) s =
      Evolves-mutate respected e id _ s (respected.dispatches e nonce token)

  pub Evolves-dispatch :
      (e : Env) (id nonce token : String) (s : Store)
      → Evolves R s (claim_quality_bootstrap_dispatch e id nonce token s).1
  unfolding claim_quality_bootstrap_dispatch
  Evolves-dispatch e id nonce token s = dispatch_checked-Evolves e id nonce token _ s

  -- The ticket of a fresh reservation goes under an id that was free.
  fresh_ticket-Evolves :
      (id : String) (d d' ticket : Fields) (s : Store)
      → lookup id s ≡ some d
      → lookup bootstrap_document s ≡ none
      → (truthy (dict d) ≡ true → truthy (dict d') ≡ true)
      → R d d'
      → Evolves R s (insert id d' (insert bootstrap_document ticket s))
  fresh_ticket-Evolves id d d' ticket s found free keeps related = record {
    becomes = λ j x h.
        let (y, hy, ry) =
          (Evolves-insert {R = R} respected.reflexive s id d d' found keeps related).becomes j x
            h in
        (y, (moved j x h.0 y hy.0, hy.1), ry);
  }
    where
      moved :
          (j : String) (x : Fields)
          → lookup j s ≡ some x
          → (y : Fields) → lookup j (insert id d' s) ≡ some y
          → lookup j (insert id d' (insert bootstrap_document ticket s)) ≡ some y
      moved j x held y now = ground (
        arith,
        lookup-insert id j d' s,
        lookup-insert id j d' (insert bootstrap_document ticket s),
        lookup-insert bootstrap_document j ticket s,
        eq_iff bootstrap_document j,
        eq_iff id j,
      )

  outcome-Evolves :
      (e : Env) (id : String) (b : Fields) (current ticket : Option Fields)
      (plan : Result (Option Fields)) (s : Store)
      → lookup id s ≡ current
      → lookup bootstrap_document s ≡ ticket
      → ((c : Fields)
          → plan ≡ ok (some c)
          → validate_reservation e id b current ticket ≡ ok (some c))
      → Evolves R s (reserve_outcome e id b current ticket plan s).1
  unfolding reserve_outcome
  outcome-Evolves e id b current ticket (raise error) s p q h = Evolves-refl respected.reflexive s
  outcome-Evolves e id b (some d) (some t) (ok (some c)) s p q h =
      absurd (held_ticket_refuses e id b (some d) t c (h c refl))
  outcome-Evolves e id b (some d) none (ok (some c)) s p q h =
      fresh_ticket-Evolves id d (update d c) (ticket_document e id b) s p q (update-nonempty d c)
        (respected.bootstraps e id b d none c (h c refl))
  outcome-Evolves e id b (some d) (some t) (ok none) s p q h = Evolves-refl respected.reflexive s
  outcome-Evolves e id b (some d) none (ok none) s p q h = Evolves-refl respected.reflexive s
  outcome-Evolves e id b none (some t) (ok none) s p q h = Evolves-refl respected.reflexive s
  outcome-Evolves e id b none (some t) (ok (some c)) s p q h = Evolves-refl respected.reflexive s
  outcome-Evolves e id b none none (ok x) s p q h = Evolves-refl respected.reflexive s

  pub Evolves-reserve_bootstrap :
      (e : Env) (id : String) (b : Fields) (s : Store)
      → Evolves R s (reserve_quality_bootstrap e id b s).1
  unfolding reserve_quality_bootstrap
  Evolves-reserve_bootstrap e id b s =
      outcome-Evolves e id b (lookup id s) (lookup bootstrap_document s)
        (check_binding e b
          >> validate_reservation e id b (lookup id s) (lookup bootstrap_document s))
        s refl refl
        (λ c.
          checked_plan (check_binding e b)
            (validate_reservation e id b (lookup id s) (lookup bootstrap_document s)) c)

  -- One call of any operation.
  pub Evolves-apply_op :
      (e : Env) (op : Op) (s : Store) → allowed op ≡ true → Evolves R s (apply_op e op s)
  unfolding apply_op
  Evolves-apply_op e (op_reserve r) s _ = Evolves-reserve e r s
  Evolves-apply_op e (op_save id k) s within = Evolves-save respected e id k s within
  Evolves-apply_op e (op_save_for_provider id p r k) s within =
      Evolves-save_for_provider respected e id p r k s within
  Evolves-apply_op e (op_admit_github_run id r k) s within =
      Evolves-admit_github_run respected e id r k s within
  Evolves-apply_op e (op_admit_event id p r t) s _ = Evolves-admit_event respected e id p r t s
  Evolves-apply_op e (op_accept_event id n p r t k) s within =
      Evolves-accept_event respected e id n p r t k s within
  Evolves-apply_op e (op_transition id reason) s _ = Evolves-transition respected e id reason s
  Evolves-apply_op e (op_claim_submission id) s _ = Evolves-claim_submission respected e id s
  Evolves-apply_op e (op_bind_build id build k) s within =
      Evolves-bind_build respected e id build k s within
  Evolves-apply_op e (op_claim_publish id) s _ = Evolves-claim_publish respected e id s
  Evolves-apply_op e (op_source_token id r) s _ = Evolves-source_token respected e id r s
  Evolves-apply_op e (op_event_token id r h) s _ = Evolves-event_token respected e id r h s
  Evolves-apply_op e (op_reconcile_absent id seen) s _ = Evolves-reconcile_absent e id seen s
  Evolves-apply_op e (op_stage_retry id r seen) s within = Evolves-stage_retry e id r seen s within
  Evolves-apply_op e (op_reserve_bootstrap id b) s _ = Evolves-reserve_bootstrap e id b s
  Evolves-apply_op e (op_update_bootstrap id nonce k) s within =
      Evolves-update_bootstrap e id nonce k s within
  Evolves-apply_op e (op_dispatch id nonce token) s _ = Evolves-dispatch e id nonce token s
