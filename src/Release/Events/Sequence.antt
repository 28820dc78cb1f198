-- ===== src/Release/Events/Sequence.antt =====
-- The number of the last accepted event, along the calls of
-- eng_platform_api/services/release_executions.py.
use gcp_engineering_platform.Base.{
  ℕ, String, Bool, true, false, not, ◌≡◌, ◌⊎◌, ◌∙◌, inl, inr, refl, arith, ◌≤◌, ◌<◌,
}
use gcp_engineering_platform.Python.Value.{num, Fields, empty}
use gcp_engineering_platform.Python.Dict.{
  get_or, put, contains, contains-put, update, get-update, get-update_other, get_or-put,
}
use gcp_engineering_platform.Python.Raise.{Env, ok, to_int}
use gcp_engineering_platform.Python.Store.{Change}
use gcp_engineering_platform.Python.Store.Lift.{Writes}
use gcp_engineering_platform.Release.Admission.{github_run_changes, accept_event_change, stamped}
use gcp_engineering_platform.Release.Claims.{binding_changes, bind_build_change}
use gcp_engineering_platform.Release.Planner.{RetryRequest, staged_changes}
use gcp_engineering_platform.Release.Bootstrap.{allowed_updates}
use gcp_engineering_platform.Release.Ops.{
  Op, op_save, op_save_for_provider, op_admit_github_run, op_bind_build,
}
use gcp_engineering_platform.Release.Spares.{keys_within-spares}
use gcp_engineering_platform.Release.Silent.{
  own_fields, WritesOwn, Silent, WritesOwn-Silent, admit_event-WritesOwn, handoff-WritesOwn,
  claim-WritesOwn, publish-WritesOwn, dispatch-WritesOwn, source_token-WritesOwn,
  event_token-WritesOwn, bootstrap_changes-own, stamped-spares, save-Silent, save_for-Silent,
  admit-Silent, retry-Silent, update-Silent,
}
use gcp_engineering_platform.Release.Evolution.{Respected, retried}
use gcp_engineering_platform.Release.Evolution.Recovery.{reservation_changes}

-- A call that carries no `event_sequence` among its fields.
unfoldable pub carries_no_sequence : Op → Bool
carries_no_sequence (op_save id k) = not (contains "event_sequence" k)
carries_no_sequence (op_save_for_provider id p r k) = not (contains "event_sequence" k)
carries_no_sequence (op_admit_github_run id r k) = not (contains "event_sequence" k)
carries_no_sequence (op_bind_build id build k) = not (contains "event_sequence" k)
carries_no_sequence _ = true

-- The number of the last accepted event is at least the given one.
abbrev pub Reaches : ℕ → Fields → Type 0
Reaches n d = (m : ℕ) × (get_or "event_sequence" (num 0) d ≡ num m) × (n ≤ m)

abbrev pub StaysReached : ℕ → Fields → Fields → Type 0
StaysReached n d d' = Reaches n d → Reaches n d'

spared-Reaches :
    (n : ℕ) (d c : Fields) → contains "event_sequence" c ≡ false → StaysReached n d (update d c)
spared-Reaches n d c spared (m, now, reached) =
    (m, get-update_other "event_sequence" (num 0) d c spared ∙ now, reached)

Silent-Writes :
    {A : Type 0} (n : ℕ) (f : Change A) → Silent "event_sequence" f → Writes (StaysReached n) f
Silent-Writes n f silent d c a h = spared-Reaches n d c (silent d c a h)

WritesOwn-Reaches : {A : Type 0} (n : ℕ) (f : Change A) → WritesOwn f → Writes (StaysReached n) f
WritesOwn-Reaches n f own = Silent-Writes n f (WritesOwn-Silent "event_sequence" f refl own)

github_run-spares :
    (e : Env) (r : String) (n : ℕ) (k : Fields)
    → contains "event_sequence" k ≡ false
    → contains "event_sequence" (github_run_changes e r n k) ≡ false
unfolding github_run_changes
github_run-spares e r n k spared = simp (contains-put, spared)

binding-spares :
    (e : Env) (build : String) (k : Fields)
    → contains "event_sequence" k ≡ false
    → contains "event_sequence" (binding_changes e build k) ≡ false
unfolding binding_changes
binding-spares e build k spared = simp (contains-put, spared)

bind-Silent :
    (e : Env) (build : String) (k : Fields)
    → contains "event_sequence" k ≡ false
    → Silent "event_sequence" (bind_build_change e build k)
unfolding bind_build_change contains
bind-Silent e build k spared d c a h = ground (arith, binding-spares e build k spared)

staged-spares :
    (e : Env) (r : RetryRequest) (d : Fields) (n : ℕ) (previous : String)
    → contains "event_sequence" (staged_changes e r d n previous) ≡ false
unfolding staged_changes contains update put
staged-spares e r d n previous = ground arith

-- What an event leaves: nothing is written, or it is newer than a number that is reached.
accept_cases :
    (e : Env) (n m : ℕ) (p r t : String) (k d c : Fields) (a : Fields × Bool)
    → get_or "event_sequence" (num 0) d ≡ num m
    → accept_event_change e n p r t k d ≡ ok (c, a)
    → (c ≡ empty) ⊎ (c ≡ k) × (m < n)
unfolding accept_event_change to_int
accept_cases e n m p r t k d c a now h = ground (arith, rw now at h)

pub sequence-stamped :
    (e : Env) (n : ℕ) (k d : Fields)
    → get_or "event_sequence" (num 0) (update d (stamped e (put "event_sequence" (num n) k)))
      ≡ num n
sequence-stamped e n k d = simp (get-update, contains-put, get_or-put)

accept-Reaches :
    (e : Env) (n limit : ℕ) (p r t : String) (k : Fields)
    → Writes
        (StaysReached limit)
        (accept_event_change e n p r t (stamped e (put "event_sequence" (num n) k)))
unfolding update
accept-Reaches e n limit p r t k d c a h (m, now, reached) =
    elim (accept_cases e n m p r t (stamped e (put "event_sequence" (num n) k)) d c a now h) [
      | inl nothing ↦ rw nothing (m, now, reached)
      | inr (written, newer) ↦
          rw written (n, sequence-stamped e n k d, omega (arith, newer, reached))
    ]

pub Reaches-Respected : (n : ℕ) → Respected carries_no_sequence (StaysReached n)
unfolding carries_no_sequence contains
Reaches-Respected n = record {
  reflexive = λ d h. h;
  saves = λ e id k within. Silent-Writes n _ (
      save-Silent "event_sequence" _
        (stamped-spares "event_sequence" k (ground (arith, within)) e refl) e);
  reconciles = λ e m.
      Silent-Writes n _ (
        save-Silent "event_sequence" _ (stamped-spares "event_sequence" (retried m) refl e refl) e);
  saves_for = λ e id p r k within. Silent-Writes n _ (
      save_for-Silent "event_sequence" _
        (stamped-spares "event_sequence" k (ground (arith, within)) e refl) e p r);
  admits = λ e id r m k within.
      Silent-Writes n _
        (admit-Silent "event_sequence" _ (github_run-spares e r m k (ground (arith, within))) e r);
  admits_event = λ e p r t. WritesOwn-Reaches n _ (admit_event-WritesOwn e p r t);
  accepts = λ e id m p r t k _. accept-Reaches e m n p r t k;
  hands_off = λ e reason. WritesOwn-Reaches n _ (handoff-WritesOwn e reason);
  claims = λ e. WritesOwn-Reaches n _ (claim-WritesOwn e);
  binds = λ e id build k within free.
      Silent-Writes n _ (bind-Silent e build k (ground (arith, within)));
  publishes = λ e. WritesOwn-Reaches n _ (publish-WritesOwn e);
  issues_source = λ e r. WritesOwn-Reaches n _ (source_token-WritesOwn e r);
  issues_event = λ e r h. WritesOwn-Reaches n _ (event_token-WritesOwn e r h);
  retries = λ e id r _ previous image seen m _.
      Silent-Writes n _
        (retry-Silent "event_sequence" _ (staged-spares e r seen m image) e r previous);
  bootstraps = λ e id b d ticket c h. spared-Reaches n d c (
      rw (reservation_changes e id b d ticket c h)
        (keys_within-spares own_fields "event_sequence" _ (bootstrap_changes-own e b) refl));
  updates = λ e id nonce k _ within. Silent-Writes n _ (
      update-Silent "event_sequence" _
        (stamped-spares "event_sequence" k
          (keys_within-spares allowed_updates "event_sequence" k within refl) e refl)
        e nonce);
  dispatches = λ e nonce token. WritesOwn-Reaches n _ (dispatch-WritesOwn e nonce token);
}
