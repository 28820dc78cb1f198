-- ===== src/Release/Binding/Kept.antt =====
-- The build of an execution along the calls of eng_platform_api/services/release_executions.py.
use gcp_engineering_platform.Base.{ℕ, String, Bool, true, false, not, ◌≡◌, ◌==◌, refl, ◌∙◌, arith}
use gcp_engineering_platform.Python.Value.{str, num, Fields, empty}
use gcp_engineering_platform.Python.Dict.{
  get_or, put, contains, contains-put, update, get-update_other,
}
use gcp_engineering_platform.Python.Raise.{Env, ok, to_str}
use gcp_engineering_platform.Python.Store.{Change}
use gcp_engineering_platform.Python.Store.Lift.{Writes}
use gcp_engineering_platform.Release.Admission.{github_run_changes, accept_event_change, stamped}
use gcp_engineering_platform.Release.Claims.{build_of, bind_build_change}
use gcp_engineering_platform.Release.Ops.{
  Op, op_save, op_save_for_provider, op_admit_github_run, op_accept_event, op_stage_retry,
  op_update_bootstrap,
}
use gcp_engineering_platform.Release.Spares.{keys_within-spares}
use gcp_engineering_platform.Release.Silent.{
  own_fields, WritesOwn, Silent, WritesOwn-Silent, admit_event-WritesOwn, handoff-WritesOwn,
  claim-WritesOwn, publish-WritesOwn, dispatch-WritesOwn, source_token-WritesOwn,
  event_token-WritesOwn, bootstrap_changes-own, stamped-spares, save-Silent, save_for-Silent,
  admit-Silent, update-Silent,
}
use gcp_engineering_platform.Release.Evolution.{Respected, retried}
use gcp_engineering_platform.Release.Evolution.Recovery.{reservation_changes}

-- A call that carries no `build_id` among its fields and is not the planner's retry, which gives up
-- the failed build. `bind_build` refuses such fields itself.
unfoldable pub carries_no_build : Op → Bool
carries_no_build (op_save id k) = not (contains "build_id" k)
carries_no_build (op_save_for_provider id p r k) = not (contains "build_id" k)
carries_no_build (op_admit_github_run id r k) = not (contains "build_id" k)
carries_no_build (op_accept_event id n p r t k) = not (contains "build_id" k)
carries_no_build (op_update_bootstrap id nonce k) = not (contains "build_id" k)
carries_no_build (op_stage_retry id r seen) = false
carries_no_build _ = true

-- The stored build is this text.
abbrev pub BoundTo : String → Fields → Type 0
BoundTo a d = get_or "build_id" (str "") d ≡ str a

abbrev pub StaysBound : String → Fields → Fields → Type 0
StaysBound a d d' = BoundTo a d → BoundTo a d'

pub build_of-BoundTo : (e : Env) (a : String) (d : Fields) → BoundTo a d → build_of e d ≡ a
unfolding build_of to_str
build_of-BoundTo e a d h = rw h refl

spared-BoundTo :
    (a : String) (d c : Fields) → contains "build_id" c ≡ false → StaysBound a d (update d c)
spared-BoundTo a d c spared now = get-update_other "build_id" (str "") d c spared ∙ now

Silent-Writes :
    {A : Type 0} (a : String) (f : Change A) → Silent "build_id" f → Writes (StaysBound a) f
Silent-Writes a f silent d c x h = spared-BoundTo a d c (silent d c x h)

WritesOwn-Writes : {A : Type 0} (a : String) (f : Change A) → WritesOwn f → Writes (StaysBound a) f
WritesOwn-Writes a f own = Silent-Writes a f (WritesOwn-Silent "build_id" f refl own)

github_run-spares :
    (e : Env) (r : String) (n : ℕ) (k : Fields)
    → contains "build_id" k ≡ false
    → contains "build_id" (github_run_changes e r n k) ≡ false
unfolding github_run_changes
github_run-spares e r n k spared = simp (contains-put, spared)

event-spares :
    (e : Env) (n : ℕ) (k : Fields)
    → contains "build_id" k ≡ false
    → contains "build_id" (stamped e (put "event_sequence" (num n) k)) ≡ false
event-spares e n k spared = simp (contains-put, spared)

accept-Silent :
    (e : Env) (n : ℕ) (p r t : String) (k : Fields)
    → contains "build_id" k ≡ false
    → Silent "build_id" (accept_event_change e n p r t k)
unfolding accept_event_change contains
accept-Silent e n p r t k spared d c a h = ground (arith, spared)

-- An execution that is bound to a build is bound to no other, and to the same without a write.
bound_unchanged :
    (e : Env) (a build : String) (k d c x : Fields)
    → a == "" ≡ false
    → build_of e d ≡ a
    → bind_build_change e build k d ≡ ok (c, x)
    → c ≡ empty
unfolding bind_build_change
bound_unchanged e a build k d c x named is_a h = ground arith

bind-StaysBound :
    (e : Env) (a build : String) (k : Fields)
    → a == "" ≡ false
    → Writes (StaysBound a) (bind_build_change e build k)
unfolding update
bind-StaysBound e a build k named d c x h now =
    rw (bound_unchanged e a build k d c x named (build_of-BoundTo e a d now) h) now

pub Bound-Respected : (a : String) → a == "" ≡ false → Respected carries_no_build (StaysBound a)
unfolding carries_no_build contains
Bound-Respected a named = record {
  reflexive = λ d h. h;
  saves = λ e id k within.
      Silent-Writes a _
        (save-Silent "build_id" _ (stamped-spares "build_id" k (ground (arith, within)) e refl) e);
  reconciles = λ e n.
      Silent-Writes a _
        (save-Silent "build_id" _ (stamped-spares "build_id" (retried n) refl e refl) e);
  saves_for = λ e id p r k within. Silent-Writes a _ (
      save_for-Silent "build_id" _ (stamped-spares "build_id" k (ground (arith, within)) e refl) e p
        r);
  admits = λ e id r n k within.
      Silent-Writes a _
        (admit-Silent "build_id" _ (github_run-spares e r n k (ground (arith, within))) e r);
  admits_event = λ e p r t. WritesOwn-Writes a _ (admit_event-WritesOwn e p r t);
  accepts = λ e id n p r t k within.
      Silent-Writes a _ (accept-Silent e n p r t _ (event-spares e n k (ground (arith, within))));
  hands_off = λ e reason. WritesOwn-Writes a _ (handoff-WritesOwn e reason);
  claims = λ e. WritesOwn-Writes a _ (claim-WritesOwn e);
  binds = λ e id build k _ free. bind-StaysBound e a build k named;
  publishes = λ e. WritesOwn-Writes a _ (publish-WritesOwn e);
  issues_source = λ e r. WritesOwn-Writes a _ (source_token-WritesOwn e r);
  issues_event = λ e r h. WritesOwn-Writes a _ (event_token-WritesOwn e r h);
  retries = λ e id r _ previous image seen n within. ground (arith, within);
  bootstraps = λ e id b d ticket c h. spared-BoundTo a d c (
      rw (reservation_changes e id b d ticket c h)
        (keys_within-spares own_fields "build_id" _ (bootstrap_changes-own e b) refl));
  updates = λ e id nonce k within _. Silent-Writes a _ (
      update-Silent "build_id" _ (stamped-spares "build_id" k (ground (arith, within)) e refl) e
        nonce);
  dispatches = λ e nonce token. WritesOwn-Writes a _ (dispatch-WritesOwn e nonce token);
}
