-- ===== src/Deployment/Events.antt =====
-- `accept_event` and `claim_submission` of eng_platform_api/services/deployment_executions.py
-- after a call of theirs that was accepted.
use gcp_engineering_platform.Base.{
  ℕ, String, Bool, true, false, not, List, ◌≡◌, ◌≢◌, ◌⊎◌, ◌∙◌, inl, inr, refl, ap, arith, some, ◌≤◌,
  ◌<◌,
}
use gcp_engineering_platform.Python.Value.{
  null, num, str, Fields, empty, entry, value_eq, dict, truthy,
}
use gcp_engineering_platform.Python.Dict.{
  get, get_or, put, contains, contains-put, update, get-update, get-update_set, get-update_other,
  get_or-put,
}
use gcp_engineering_platform.Python.Raise.{Env, ok, to_int}
use gcp_engineering_platform.Python.Store.{Store, lookup, with_document}
use gcp_engineering_platform.Python.Store.Lift.{
  with_document-Wrote, with_document-result, lookup-insert_self, put-nonempty, written-nonempty,
}
use gcp_engineering_platform.Release.Status.{in_texts}
use gcp_engineering_platform.Deployment.Executions.{
  Intent, reserve_again, transition_provider_change, save_change, github_dispatch_change,
  accept_event, accept_event_change, event_changes, claim_submission, claim_submission_change,
}
use gcp_engineering_platform.Deployment.Ops.{
  Call, call_save, all_calls, run_all, Respected, Evolves-run_all,
}

-- What an accepted event writes.
accepted_changes :
    (e : Env) (n : ℕ) (k d c x : Fields) → accept_event_change e n k d ≡ ok (c, (x, true)) → c ≡ k
unfolding accept_event_change
accepted_changes e n k d c x h = ground arith

-- An event that is not newer than the recorded one is not accepted.
stale_refused :
    (e : Env) (m n : ℕ) (k d c y : Fields)
    → get_or "event_sequence" (num 0) d ≡ num n
    → m ≤ n
    → accept_event_change e m k d ≢ ok (c, (y, true))
unfolding accept_event_change to_int
stale_refused e m n k d c y now older h = ground arith

event_sequence-accepted :
    (e : Env) (n : ℕ) (k d : Fields)
    → get_or "event_sequence" (num 0) (update d (event_changes e n k)) ≡ num n
event_sequence-accepted e n k d = simp (get-update, contains-put, get_or-put)

-- The number of the last accepted event is at least the given one.
abbrev Reaches : ℕ → Fields → Type 0
Reaches n d = (m : ℕ) × (get_or "event_sequence" (num 0) d ≡ num m) × (n ≤ m)

abbrev StaysReached : ℕ → Fields → Fields → Type 0
StaysReached n d d' = Reaches n d → Reaches n d'

spared-Reaches :
    (n : ℕ) (d c : Fields) → contains "event_sequence" c ≡ false → StaysReached n d (update d c)
spared-Reaches n d c spared (m, now, reached) =
    (m, get-update_other "event_sequence" (num 0) d c spared ∙ now, reached)

-- A call of `save` that does not write the number of the last event.
unfoldable pub saves_no_sequence : Call → Bool
saves_no_sequence (call_save id k) = not (contains "event_sequence" k)
saves_no_sequence _ = true

reserve_spares :
    (e : Env) (r : Intent) (d c x : Fields)
    → reserve_again e r d ≡ ok (c, x)
    → contains "event_sequence" c ≡ false
unfolding reserve_again contains
reserve_spares e r d c x h = ground arith

transition_spares :
    (e : Env) (a b reason : String) (d c x : Fields)
    → transition_provider_change e a b reason d ≡ ok (c, x)
    → contains "event_sequence" c ≡ false
unfolding transition_provider_change contains
transition_spares e a b reason d c x h = ground arith

claim_spares :
    (e : Env) (d c : Fields) (a : Bool)
    → claim_submission_change e d ≡ ok (c, a)
    → contains "event_sequence" c ≡ false
unfolding claim_submission_change contains
claim_spares e d c a h = ground arith

dispatch_spares :
    (d c : Fields) (a : Bool)
    → github_dispatch_change d ≡ ok (c, a)
    → contains "event_sequence" c ≡ false
unfolding github_dispatch_change contains
dispatch_spares d c a h = ground arith

save_spares :
    (e : Env) (k d c x : Fields)
    → save_change (put "updated_at" (str e.now) k) d ≡ ok (c, x)
    → contains "event_sequence" k ≡ false
    → contains "event_sequence" c ≡ false
unfolding save_change
save_spares e k d c x h spares =
    ground (arith, spares, contains-put "updated_at" "event_sequence" (str e.now) k)

-- What an event leaves: nothing is written, or it is newer than a number that is reached.
accept_cases :
    (e : Env) (n m : ℕ) (k d c : Fields) (a : Fields × Bool)
    → get_or "event_sequence" (num 0) d ≡ num m
    → accept_event_change e n k d ≡ ok (c, a)
    → (c ≡ empty) ⊎ (c ≡ k) × (m < n)
unfolding accept_event_change to_int
accept_cases e n m k d c a now h = ground (arith, rw now at h)

accept-Reaches :
    (e : Env) (n limit : ℕ) (k d c : Fields) (a : Fields × Bool)
    → accept_event_change e n (event_changes e n k) d ≡ ok (c, a)
    → StaysReached limit d (update d c)
unfolding update
accept-Reaches e n limit k d c a h (m, now, reached) =
    elim (accept_cases e n m (event_changes e n k) d c a now h) [
      | inl nothing ↦ rw nothing (m, now, reached)
      | inr (written, newer) ↦
          rw written (n, event_sequence-accepted e n k d, omega (arith, newer, reached))
    ]

Reaches-Respected : (n : ℕ) → Respected (StaysReached n) saves_no_sequence
unfolding saves_no_sequence
Reaches-Respected n = record {
  reflexive = λ d h. h;
  transitive = λ a b c f g h. g (f h);
  reserves = λ e r d c x h. spared-Reaches n d c (reserve_spares e r d c x h);
  transitions =
      λ e a b reason d c x h. spared-Reaches n d c (transition_spares e a b reason d c x h);
  claims = λ e d c a h. spared-Reaches n d c (claim_spares e d c a h);
  saves = λ e id k within d c x h.
      spared-Reaches n d c (save_spares e k d c x h (ground (arith, within)));
  accepts = λ e id m k within d c a h. accept-Reaches e m n k d c a h;
  dispatches = λ d c a h. spared-Reaches n d c (dispatch_spares d c a h);
}

accepted-nonempty :
    (e : Env) (n : ℕ) (k d : Fields) → truthy (dict (update d (event_changes e n k))) ≡ true
accepted-nonempty e n k d =
    written-nonempty d (event_changes e n k)
      (put-nonempty "updated_at" (str e.now) (put "event_sequence" (num n) k))

-- After a deployment accepted an event, it accepts none with the same or a smaller number, from
-- whatever process and with whatever content, after any history of calls of any processes in which
-- no call of save carries an event_sequence.
pub newer_events_only :
    (e e' : Env) (id : String) (n m : ℕ) (k k' : Fields) (history : List (Env × Call)) (s : Store)
    (x y : Fields)
    → (accept_event e id n k s).0 ≡ ok (x, true)
    → all_calls saves_no_sequence history ≡ true
    → m ≤ n
    → (accept_event e' id m k' (run_all history (accept_event e id n k s).1)).0 ≢ ok (y, true)
unfolding accept_event
newer_events_only e e' id n m k k' history s x y h within older h' =
    let f = accept_event_change e n (event_changes e n k) in
    let g = accept_event_change e' m (event_changes e' m k') in
    let t = (with_document id f s).1 in
    let w = with_document-Wrote id f (x, true) s h in
    let w' = with_document-Wrote id g (y, true) (run_all history t) h' in
    let d = update w.found (event_changes e n k) in
    let wrote : update w.found w.changes ≡ d =
      ap (update w.found) (accepted_changes e n _ w.found w.changes x w.agreed) in
    let held : lookup id t ≡ some d = rw (w.written, wrote) (lookup-insert_self id d s) in
    let (d', held', stays) =
      (Evolves-run_all (Reaches-Respected n) history t within).becomes id d
        (held, accepted-nonempty e n k w.found) in
    let (last, now, reached) = stays (n, event_sequence-accepted e n k w.found, omega arith) in
    let same : w'.found ≡ d' = cc (held'.0, w'.held) in
    stale_refused e' m last _ w'.found w'.changes y (rw same now) (omega (arith, older, reached))
      w'.agreed

-- What a granted claim writes.
claimed_changes :
    (e : Env) (d c : Fields)
    → claim_submission_change e d ≡ ok (c, true)
    → c ≡ entry "status" (str "SUBMITTING") (entry "updated_at" (str e.now) empty)
unfolding claim_submission_change
claimed_changes e d c h = ground arith

claim_refused :
    (e : Env) (d : Fields)
    → get "status" d ≡ str "SUBMITTING"
    → claim_submission_change e d ≡ ok (empty, false)
unfolding claim_submission_change in_texts value_eq
claim_refused e d h = rw (h, in_texts) (ground arith)

-- After one caller was granted the submission of a deployment's build, the next call that claims
-- it is refused, whichever process makes it.
pub submission_claimed_once :
    (e e' : Env) (id : String) (s : Store)
    → (claim_submission e id s).0 ≡ ok true
    → (claim_submission e' id (claim_submission e id s).1).0 ≡ ok false
unfolding claim_submission
submission_claimed_once e e' id s h =
    let w = with_document-Wrote id (claim_submission_change e) true s h in
    let t = (with_document id (claim_submission_change e) s).1 in
    let d = update w.found w.changes in
    let held : lookup id t ≡ some d = rw w.written (lookup-insert_self id d s) in
    let submitting : get "status" d ≡ str "SUBMITTING" =
      rw (claimed_changes e w.found w.changes w.agreed) (
        unfold contains get_or in
        get-update_set "status" null w.found
          (entry "status" (str "SUBMITTING") (entry "updated_at" (str e.now) empty)) refl) in
    ap (λ r. r.0)
      (with_document-result id (claim_submission_change e') t d empty false held
        (claim_refused e' d submitting))
