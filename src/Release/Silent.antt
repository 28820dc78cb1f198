-- ===== src/Release/Silent.antt =====
-- Which fields the operations of eng_platform_api/services/release_executions.py leave alone unless
-- a caller passes them.
use gcp_engineering_platform.Base.{
  String, true, false, List, [], ◌∷◌, Option, ◌≡◌, refl, arith, elem, ◌==◌,
}
use gcp_engineering_platform.Python.Value.{str, Fields, empty, entry}
use gcp_engineering_platform.Python.Dict.{put, contains, contains-put}
use gcp_engineering_platform.Python.Raise.{Env, ok}
use gcp_engineering_platform.Python.Store.{Change}
use gcp_engineering_platform.Release.Admission.{
  save_change, save_for_provider_change, admit_github_run_change, admit_event_change, stamped,
}
use gcp_engineering_platform.Release.Claims.{
  handoff_change, claim_submission_change, claim_publish_change,
}
use gcp_engineering_platform.Release.Tokens.{
  source_token_change, event_token_change, token_field_of, token_field_of-either,
}
use gcp_engineering_platform.Release.Planner.{RetryRequest, write_retry}
use gcp_engineering_platform.Release.Bootstrap.{
  keys_within, bootstrap_update_change, dispatch_change, bootstrap_changes,
}
use gcp_engineering_platform.Release.Spares.{keys_within-spares}

-- The fields that operations other than the planner's retry write by themselves.
abbrev pub own_fields : List String
own_fields =
    "provider" ∷ "status" ∷ "fallback_reason" ∷ "updated_at" ∷ "event_admitted_at"
    ∷ "publish_claimed_at" ∷ "source_token_build_id" ∷ "source_token_provider_run_id"
    ∷ "source_token_issued_at" ∷ "event_token_build_id" ∷ "event_token_provider_run_id"
    ∷ "event_token_hash" ∷ "event_token_issued_at" ∷ "bootstrap_ticket_id" ∷ "bootstrap_attempts"
    ∷ "bootstrap_binding" ∷ "bootstrap_nonce" ∷ "bootstrap_build_request"
    ∷ "bootstrap_build_request_hash" ∷ "bootstrap_requested_by" ∷ "bootstrap_idempotency_key"
    ∷ "bootstrap_reserved_at" ∷ "bootstrap_dispatch_started" ∷ "bootstrap_dispatch_started_at" ∷ []

-- The operation writes its own fields only.
abbrev pub WritesOwn : {A : Type 0} → Change A → Type 0
WritesOwn {A} f = (d c : Fields) (a : A) → f d ≡ ok (c, a) → keys_within own_fields c ≡ true

-- The operation does not write the field.
abbrev pub Silent : {A : Type 0} → String → Change A → Type 0
Silent {A} key f = (d c : Fields) (a : A) → f d ≡ ok (c, a) → contains key c ≡ false

pub WritesOwn-Silent :
    {A : Type 0} (key : String) (f : Change A)
    → elem key own_fields ≡ false
    → WritesOwn f
    → Silent key f
WritesOwn-Silent key f foreign own d c a h =
    keys_within-spares own_fields key c (own d c a h) foreign

pub admit_event-WritesOwn : (e : Env) (p r t : String) → WritesOwn (admit_event_change e p r t)
unfolding admit_event_change keys_within
admit_event-WritesOwn e p r t d c a h = ground arith

pub handoff-WritesOwn : (e : Env) (reason : String) → WritesOwn (handoff_change e reason)
unfolding handoff_change keys_within
handoff-WritesOwn e reason d c a h = ground arith

pub claim-WritesOwn : (e : Env) → WritesOwn (claim_submission_change e)
unfolding claim_submission_change keys_within
claim-WritesOwn e d c a h = ground arith

pub publish-WritesOwn : (e : Env) → WritesOwn (claim_publish_change e)
unfolding claim_publish_change keys_within
publish-WritesOwn e d c a h = ground arith

pub dispatch-WritesOwn :
    (e : Env) (nonce token : String) → WritesOwn (dispatch_change e nonce token)
unfolding dispatch_change keys_within
dispatch-WritesOwn e nonce token d c a h = ground arith

token-own :
    (b r run : String) (d c : Fields)
    → keys_within own_fields (put b (str run) c) ≡ true
    → keys_within own_fields (put r (str run) c) ≡ true
    → keys_within own_fields (put (token_field_of b r d) (str run) c) ≡ true
token-own b r run d c hb hr =
    token_field_of-either (λ t. keys_within own_fields (put t (str run) c) ≡ true) b r d hb hr

pub source_token-WritesOwn : (e : Env) (run : String) → WritesOwn (source_token_change e run)
unfolding source_token_change keys_within put
source_token-WritesOwn e run d c a h = ground (
  arith,
  token-own "source_token_build_id" "source_token_provider_run_id" run d
      (entry "source_token_issued_at" (str e.now) (entry "updated_at" (str e.now) empty)) refl refl,
)

pub event_token-WritesOwn :
    (e : Env) (run hash : String) → WritesOwn (event_token_change e run hash)
unfolding event_token_change keys_within put
event_token-WritesOwn e run hash d c a h = ground (
  arith,
  token-own "event_token_build_id" "event_token_provider_run_id" run d
      (entry "event_token_hash" (str hash)
        (entry "event_token_issued_at" (str e.now) (entry "updated_at" (str e.now) empty)))
      refl refl,
)

pub bootstrap_changes-own :
    (e : Env) (b : Fields) → keys_within own_fields (bootstrap_changes e b) ≡ true
unfolding bootstrap_changes keys_within
bootstrap_changes-own e b = refl

-- The fields that a caller passes.
module _ (key : String) (k : Fields) (spared : contains key k ≡ false) where
  pub stamped-spares : (e : Env) → "updated_at" == key ≡ false → contains key (stamped e k) ≡ false
  stamped-spares e other =
      ground (arith, spared, other, contains-put "updated_at" key (str e.now) k)

  pub save-Silent : (e : Env) → Silent key (save_change e k)
  unfolding save_change
  save-Silent e d c a h = ground (arith, spared)

  pub save_for-Silent :
      (e : Env) (p : String) (r : Option String) → Silent key (save_for_provider_change e p r k)
  unfolding save_for_provider_change
  save_for-Silent e p r d c a h = ground (arith, spared)

  pub admit-Silent : (e : Env) (r : String) → Silent key (admit_github_run_change e r k)
  unfolding admit_github_run_change
  admit-Silent e r d c a h = ground (arith, spared)

  pub retry-Silent :
      (e : Env) (r : RetryRequest) (previous : String) → Silent key (write_retry e r previous k)
  unfolding write_retry
  retry-Silent e r previous d c a h = ground (arith, spared)

  pub update-Silent : (e : Env) (nonce : String) → Silent key (bootstrap_update_change e nonce k)
  unfolding bootstrap_update_change
  update-Silent e nonce d c a h = ground (arith, spared)
