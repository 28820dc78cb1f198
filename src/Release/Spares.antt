-- ===== src/Release/Spares.antt =====
-- Which fields an operation on one release execution leaves alone.
use gcp_engineering_platform.Base.{
  ℕ, String, Option, true, false, List, [], ◌∷◌, ◌≡◌, refl, arith, elem, no_elem, eq_iff,
}
use gcp_engineering_platform.Python.Value.{str, Fields, empty, entry, find}
use gcp_engineering_platform.Python.Dict.{
  put, update, contains, contains_any, contains_any-elem, find-update, contains_any-put,
  contains_any_subset,
}
use gcp_engineering_platform.Python.Raise.{Env, ok}
use gcp_engineering_platform.Python.Store.{Change}
use gcp_engineering_platform.Python.Store.Lift.{Writes}
use gcp_engineering_platform.Release.Validate.{identity_fields, validate_changes}
use gcp_engineering_platform.Release.Admission.{
  save_change, save_for_provider_change, admit_github_run_change, admit_event_change,
  accept_event_change,
}
use gcp_engineering_platform.Release.Claims.{
  handoff_change, claim_submission_change, binding_fields, binding_changes, bind_build_change,
  claim_publish_change,
}
use gcp_engineering_platform.Release.Tokens.{
  source_token_change, event_token_change, token_field_of, token_field_of-either,
}
use gcp_engineering_platform.Release.Planner.{RetryRequest, staged_changes, write_retry}
use gcp_engineering_platform.Release.Bootstrap.{
  allowed_updates, keys_within, bootstrap_update_change, dispatch_change, bootstrap_changes,
}

-- The operation writes none of the named fields.
abbrev pub Spares : {A : Type 0} → List String → Change A → Type 0
Spares {A} ks f = (d c : Fields) (a : A) → f d ≡ ok (c, a) → contains_any ks c ≡ false

-- Two documents agree on the named fields, the absent ones included.
abbrev pub SameOn : List String → Fields → Fields → Type 0
SameOn ks d d' = (k : String) → elem k ks ≡ true → find k d' ≡ find k d

pub changes-SameOn :
    (ks : List String) (d c : Fields) → contains_any ks c ≡ false → SameOn ks d (update d c)
changes-SameOn ks d c spared k named =
    rw (find-update k d c, contains_any-elem k ks c spared named) refl

pub Spares-Writes :
    {A : Type 0} (ks : List String) (f : Change A) → Spares ks f → Writes (SameOn ks) f
Spares-Writes ks f spares d c a h = changes-SameOn ks d c (spares d c a h)

pub validate_changes-spares :
    (e : Env) (d c : Fields)
    → validate_changes e d c ≡ ok tt
    → contains_any identity_fields c ≡ false
unfolding validate_changes
validate_changes-spares e d c h = ground arith

pub save-Spares : (e : Env) (k : Fields) → Spares identity_fields (save_change e k)
unfolding save_change
save-Spares e k d c a h = ground (arith, validate_changes-spares e d k)

pub save_for_provider-Spares :
    (e : Env) (p : String) (r : Option String) (k : Fields)
    → Spares identity_fields (save_for_provider_change e p r k)
unfolding save_for_provider_change
save_for_provider-Spares e p r k d c a h = ground (arith, validate_changes-spares e d k)

pub admit_github_run-Spares :
    (e : Env) (r : String) (k : Fields) → Spares identity_fields (admit_github_run_change e r k)
unfolding admit_github_run_change
admit_github_run-Spares e r k d c a h = ground (arith, validate_changes-spares e d k)

pub admit_event-Spares :
    (e : Env) (p r t : String) → Spares identity_fields (admit_event_change e p r t)
unfolding admit_event_change contains_any contains
admit_event-Spares e p r t d c a h = ground arith

pub accept_event-Spares :
    (e : Env) (n : ℕ) (p r t : String) (k : Fields)
    → Spares identity_fields (accept_event_change e n p r t k)
unfolding accept_event_change contains_any contains
accept_event-Spares e n p r t k d c a h = ground (arith, validate_changes-spares e d k)

pub handoff-Spares : (e : Env) (reason : String) → Spares identity_fields (handoff_change e reason)
unfolding handoff_change contains_any contains
handoff-Spares e reason d c a h = ground arith

pub claim_submission-Spares : (e : Env) → Spares identity_fields (claim_submission_change e)
unfolding claim_submission_change contains_any contains
claim_submission-Spares e d c a h = ground arith

pub claim_publish-Spares : (e : Env) → Spares identity_fields (claim_publish_change e)
unfolding claim_publish_change contains_any contains
claim_publish-Spares e d c a h = ground arith

binding_changes-spares :
    (e : Env) (build : String) (metadata : Fields)
    → contains_any binding_fields metadata ≡ false
    → contains_any identity_fields (binding_changes e build metadata) ≡ false
unfolding binding_changes
binding_changes-spares e build metadata h =
    let spared = contains_any_subset identity_fields binding_fields metadata h refl in
    let built = contains_any-put identity_fields "build_id" (str build) metadata refl spared in
    let ran = contains_any-put identity_fields "provider_run_id" (str build) _ refl built in
    let moved = contains_any-put identity_fields "status" (str "submission_pending") _ refl ran in
    contains_any-put identity_fields "updated_at" (str e.now) _ refl moved

pub bind_build-Spares :
    (e : Env) (build : String) (metadata : Fields)
    → contains_any binding_fields metadata ≡ false
    → Spares identity_fields (bind_build_change e build metadata)
unfolding bind_build_change contains_any contains
bind_build-Spares e build metadata free d c a h =
    ground (arith, binding_changes-spares e build metadata free)

token-spares :
    (b r run : String) (d c : Fields)
    → elem b identity_fields ≡ false
    → elem r identity_fields ≡ false
    → contains_any identity_fields c ≡ false
    → contains_any identity_fields (put (token_field_of b r d) (str run) c) ≡ false
token-spares b r run d c hb hr h =
    token_field_of-either (λ t. contains_any identity_fields (put t (str run) c) ≡ false) b r d
      (contains_any-put identity_fields b (str run) c hb h)
      (contains_any-put identity_fields r (str run) c hr h)

pub source_token-Spares :
    (e : Env) (run : String) → Spares identity_fields (source_token_change e run)
unfolding source_token_change contains_any contains
source_token-Spares e run d c a h = ground (
  arith,
  token-spares "source_token_build_id" "source_token_provider_run_id" run d
      (entry "source_token_issued_at" (str e.now) (entry "updated_at" (str e.now) empty)) refl refl
      refl,
)

pub event_token-Spares :
    (e : Env) (run hash : String) → Spares identity_fields (event_token_change e run hash)
unfolding event_token_change contains_any contains
event_token-Spares e run hash d c a h = ground (
  arith,
  token-spares "event_token_build_id" "event_token_provider_run_id" run d
      (entry "event_token_hash" (str hash)
        (entry "event_token_issued_at" (str e.now) (entry "updated_at" (str e.now) empty)))
      refl refl refl,
)

pub write_retry-Spares :
    (e : Env) (r : RetryRequest) (previous : String) (changes : Fields)
    → contains_any identity_fields changes ≡ false
    → Spares identity_fields (write_retry e r previous changes)
unfolding write_retry
write_retry-Spares e r previous changes free d c a h = ground arith

pub staged_changes-spares :
    (e : Env) (r : RetryRequest) (d : Fields) (n : ℕ) (previous : String)
    → contains_any identity_fields (staged_changes e r d n previous) ≡ false
unfolding staged_changes contains_any contains update put
staged_changes-spares e r d n previous = ground arith

pub dispatch-Spares :
    (e : Env) (nonce token : String) → Spares identity_fields (dispatch_change e nonce token)
unfolding dispatch_change contains_any contains
dispatch-Spares e nonce token d c a h = ground arith

-- An update of a bootstrap execution writes the allowed fields and the timestamp.
pub keys_within-spares :
    (names : List String) (k : String) (c : Fields)
    → keys_within names c ≡ true
    → elem k names ≡ false
    → contains k c ≡ false
unfolding keys_within contains
keys_within-spares names k empty h out = refl
keys_within-spares names k (entry j v c) h out =
    ground (arith, eq_iff j k, keys_within-spares names k c)

keys_within-spares_all :
    (names ks : List String) (c : Fields)
    → keys_within names c ≡ true
    → no_elem ks names ≡ true
    → contains_any ks c ≡ false
unfolding contains_any
keys_within-spares_all names [] c h out = refl
keys_within-spares_all names (k ∷ ks) c h out =
    ground (arith, keys_within-spares names k c, keys_within-spares_all names ks c)

pub bootstrap_update-Spares :
    (e : Env) (nonce : String) (changes : Fields)
    → keys_within allowed_updates changes ≡ true
    → Spares identity_fields
        (bootstrap_update_change e nonce (put "updated_at" (str e.now) changes))
unfolding bootstrap_update_change
bootstrap_update-Spares e nonce changes within d c a h =
    let spared = keys_within-spares_all allowed_updates identity_fields changes within refl in
    ground (arith, contains_any-put identity_fields "updated_at" (str e.now) changes refl spared)

-- A reservation of the bootstrap.
pub bootstrap_changes-spares :
    (e : Env) (b : Fields) → contains_any identity_fields (bootstrap_changes e b) ≡ false
unfolding bootstrap_changes contains_any contains
bootstrap_changes-spares e b = refl
