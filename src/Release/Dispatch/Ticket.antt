-- ===== src/Release/Dispatch/Ticket.antt =====
-- The ticket of `reserve_quality_bootstrap` of eng_platform_api/services/release_executions.py.
use gcp_engineering_platform.Base.{
  String, Option, true, List, ◌≡◌, ◌≢◌, refl, arith, ◌==◌, none, some, Bool-cases, inl, inr,
}
use gcp_engineering_platform.Python.Value.{str, dict, Fields, truthy}
use gcp_engineering_platform.Python.Dict.{update}
use gcp_engineering_platform.Python.Raise.{Env, Result, ok, raise, ◌>>◌}
use gcp_engineering_platform.Python.Store.{Store, lookup, insert, lookup-insert}
use gcp_engineering_platform.Python.Store.Lift.{Holds, put-nonempty, lookup-insert_self}
use gcp_engineering_platform.Release.Validate.{bootstrap_document}
use gcp_engineering_platform.Release.Bootstrap.{
  reserve_quality_bootstrap, reserve_outcome, ticket_execution, check_binding, bootstrap_changes,
  validate_reservation, ticket_document,
}
use gcp_engineering_platform.Release.Evolution.Recovery.{
  Evolves-apply_op, held_ticket_refuses, reservation_changes, checked_plan,
}
use gcp_engineering_platform.Release.Ops.{Op, all_ops-any_op, apply_all, Evolves-apply_all}
use gcp_engineering_platform.Release.Dispatch.{Stays, Stays-Respected}

-- What a reservation that consumed the ticket found and wrote.
record Consumed (e : Env) (id : String) (b : Fields) (current : Option Fields)
    (plan : Result (Option Fields)) (s t : Store) : Type 0 where
  found : Fields
  changes : Fields
  held : current ≡ some found
  planned : plan ≡ ok (some changes)
  written :
      t ≡ insert id (update found changes) (insert bootstrap_document (ticket_document e id b) s)

outcome-Consumed :
    (e : Env) (id : String) (b : Fields) (current ticket : Option Fields)
    (plan : Result (Option Fields)) (s : Store) (x : Fields)
    → (reserve_outcome e id b current ticket plan s).0 ≡ ok (x, true)
    → Consumed e id b current plan s (reserve_outcome e id b current ticket plan s).1
unfolding reserve_outcome ticket_execution
outcome-Consumed e id b current ticket (raise error) s x h = cc
outcome-Consumed e id b (some d) ticket (ok (some c)) s x h = record {
  found = d;
  changes = c;
  held = refl;
  planned = refl;
  written = refl;
}
outcome-Consumed e id b (some d) (some t) (ok none) s x h = ground arith
outcome-Consumed e id b none (some t) (ok none) s x h = ground arith
outcome-Consumed e id b (some d) none (ok none) s x h = cc
outcome-Consumed e id b none none (ok p) s x h = cc
outcome-Consumed e id b none (some t) (ok (some c)) s x h = cc

reservation-Consumed :
    (e : Env) (id : String) (b : Fields) (s : Store) (x : Fields)
    → (reserve_quality_bootstrap e id b s).0 ≡ ok (x, true)
    → Consumed e id b
        (lookup id s)
        (check_binding e b
          >> validate_reservation e id b (lookup id s) (lookup bootstrap_document s))
        s
        (reserve_quality_bootstrap e id b s).1
unfolding reserve_quality_bootstrap
reservation-Consumed e id b s x h =
    outcome-Consumed e id b (lookup id s) (lookup bootstrap_document s)
      (check_binding e b >> validate_reservation e id b (lookup id s) (lookup bootstrap_document s))
      s x h

ticket-nonempty :
    (e : Env) (id : String) (b : Fields) → truthy (dict (ticket_document e id b)) ≡ true
unfolding ticket_document
ticket-nonempty e id b = put-nonempty "consumed_at" (str e.now) _

reserved-nonempty :
    (e : Env) (b d : Fields) → truthy (dict (update d (bootstrap_changes e b))) ≡ true
unfolding bootstrap_changes update
reserved-nonempty e b d = put-nonempty "provider" (str "cloud_build") _

-- The ticket that stands after a reservation.
consumed-Holds :
    (e : Env) (id : String) (b d : Fields) (s : Store)
    → (t : Fields) × Holds bootstrap_document
        (insert id
          (update d (bootstrap_changes e b))
          (insert bootstrap_document (ticket_document e id b) s))
        t
consumed-Holds e id b d s = elim (Bool-cases (id == bootstrap_document)) [
  | inl same ↦
      (update d (bootstrap_changes e b), (rw (lookup-insert, same) refl, reserved-nonempty e b d))
  | inr other ↦ (
    ticket_document e id b,
    (rw (lookup-insert, other) (lookup-insert_self bootstrap_document _ s), ticket-nonempty e id b),
  )
]

-- A reservation that finds a ticket consumes none.
held_ticket :
    (e : Env) (id : String) (b t : Fields) (s : Store) (x : Fields)
    → lookup bootstrap_document s ≡ some t
    → (reserve_quality_bootstrap e id b s).0 ≢ ok (x, true)
held_ticket e id b t s x found h =
    let w = reservation-Consumed e id b s x h in
    let planned =
      checked_plan (check_binding e b)
        (validate_reservation e id b (lookup id s) (lookup bootstrap_document s)) w.changes
        w.planned in
    held_ticket_refuses e id b (lookup id s) t w.changes (rw found at planned)

-- Once a call consumed the bootstrap ticket, no later call consumes one, for whatever execution and
-- binding and after whatever history of calls.
pub ticket_once :
    (e e' : Env) (id id' : String) (b b' : Fields) (history : List (Env × Op)) (s : Store)
    (x y : Fields)
    → (reserve_quality_bootstrap e id b s).0 ≡ ok (x, true)
    → (reserve_quality_bootstrap e' id' b'
        (apply_all history (reserve_quality_bootstrap e id b s).1)).0
      ≢ ok (y, true)
ticket_once e e' id id' b b' history s x y h =
    let u = (reserve_quality_bootstrap e id b s).1 in
    let w = reservation-Consumed e id b s x h in
    let planned =
      checked_plan (check_binding e b)
        (validate_reservation e id b (lookup id s) (lookup bootstrap_document s)) w.changes
        w.planned in
    let same =
      reservation_changes e id b w.found (lookup bootstrap_document s) w.changes
        (rw w.held at planned) in
    let (t, held) = consumed-Holds e id b w.found s in
    let (t', held', _) =
      (Evolves-apply_all Stays Stays-Respected.reflexive (λ a b c p q x. q (p x))
          (Evolves-apply_op Stays-Respected) history u (all_ops-any_op history)).becomes
        bootstrap_document t (rw (w.written, same) held) in
    held_ticket e' id' b' t' (apply_all history u) y held'.0
