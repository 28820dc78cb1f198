-- ===== src/Release/Events.antt =====
-- `accept_event` of eng_platform_api/services/release_executions.py, after a call of it that was
-- accepted and calls of any operations.
pub mod Sequence
use gcp_engineering_platform.Base.{ℕ, String, List, true, ◌≡◌, ◌≢◌, refl, ap, arith, some, ◌≤◌}
use gcp_engineering_platform.Python.Value.{num, Fields, dict, truthy, empty, entry, str}
use gcp_engineering_platform.Python.Dict.{get_or, put, update}
use gcp_engineering_platform.Python.Raise.{Env, ok, to_int}
use gcp_engineering_platform.Python.Store.{Store, lookup, with_document}
use gcp_engineering_platform.Python.Store.Lift.{
  with_document-Wrote, lookup-insert_self, put-nonempty, written-nonempty,
}
use gcp_engineering_platform.Release.Admission.{accept_event, accept_event_change, stamped}
use gcp_engineering_platform.Release.Ops.{Op, apply_all, all_ops, Evolves-apply_all}
use gcp_engineering_platform.Release.Evolution.Recovery.{Evolves-apply_op}
use gcp_engineering_platform.Release.Events.Sequence.{
  carries_no_sequence, StaysReached, Reaches-Respected, sequence-stamped,
}

-- What an accepted event writes.
accepted_changes :
    (e : Env) (n : ℕ) (p r t : String) (k d c x : Fields)
    → accept_event_change e n p r t k d ≡ ok (c, (x, true))
    → c ≡ k
unfolding accept_event_change
accepted_changes e n p r t k d c x h = ground arith

-- An event that is not newer than the recorded one is not accepted.
stale_refused :
    (e : Env) (m n : ℕ) (p r t : String) (k d c y : Fields)
    → get_or "event_sequence" (num 0) d ≡ num n
    → m ≤ n
    → accept_event_change e m p r t k d ≢ ok (c, (y, true))
unfolding accept_event_change to_int
stale_refused e m n p r t k d c y now older h = ground arith

accepted-nonempty :
    (e : Env) (n : ℕ) (k d : Fields)
    → truthy (dict (update d (stamped e (put "event_sequence" (num n) k)))) ≡ true
accepted-nonempty e n k d =
    written-nonempty d (stamped e (put "event_sequence" (num n) k))
      (put-nonempty "updated_at" (str e.now) (put "event_sequence" (num n) k))

-- After an event of an execution was accepted, no event of it with the same or a smaller number is
-- accepted, whoever sends it and whatever it carries, after any history of calls of any operations
-- in which no call of save, save_for_provider, admit_github_run or bind_build carries an
-- event_sequence.
pub accept_event_ordered :
    (e e' : Env) (id : String) (n m : ℕ) (p r t p' r' t' : String) (k k' : Fields)
    (history : List (Env × Op)) (s : Store) (x y : Fields)
    → (accept_event e id n p r t k s).0 ≡ ok (x, true)
    → all_ops carries_no_sequence history ≡ true
    → m ≤ n
    → (accept_event e' id m p' r' t' k' (apply_all history (accept_event e id n p r t k s).1)).0
      ≢ ok (y, true)
unfolding accept_event
accept_event_ordered e e' id n m p r t p' r' t' k k' history s x y h within older again =
    let f = accept_event_change e n p r t (stamped e (put "event_sequence" (num n) k)) in
    let f' = accept_event_change e' m p' r' t' (stamped e' (put "event_sequence" (num m) k')) in
    let w = with_document-Wrote id f (x, true) s h in
    let u = (with_document id f s).1 in
    let w' = with_document-Wrote id f' (y, true) (apply_all history u) again in
    let d = update w.found (stamped e (put "event_sequence" (num n) k)) in
    let wrote : update w.found w.changes ≡ d =
      ap (update w.found) (accepted_changes e n p r t _ w.found w.changes x w.agreed) in
    let held : lookup id u ≡ some d = rw (w.written, wrote) (lookup-insert_self id d s) in
    let (d', held', stays) =
      (Evolves-apply_all (StaysReached n) (Reaches-Respected n).reflexive (λ a b c g g' q. g' (g q))
          (Evolves-apply_op (Reaches-Respected n)) history u within).becomes
        id d (held, accepted-nonempty e n k w.found) in
    let (last, now, reached) = stays (n, sequence-stamped e n k w.found, omega arith) in
    let same : w'.found ≡ d' = cc (held'.0, w'.held) in
    stale_refused e' m last p' r' t' _ w'.found w'.changes y (rw same now)
      (omega (arith, older, reached)) w'.agreed
