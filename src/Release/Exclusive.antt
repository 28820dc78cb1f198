-- ===== src/Release/Exclusive.antt =====
-- What a granted `claim_submission` or `claim_publish` of
-- eng_platform_api/services/release_executions.py leaves for the next call of it.
use gcp_engineering_platform.Base.{String, true, false, ◌≡◌, refl, ap, arith, some}
use gcp_engineering_platform.Python.Value.{null, str, Fields, empty, entry, value_eq}
use gcp_engineering_platform.Python.Dict.{get, get_or, contains, update, get-update_set}
use gcp_engineering_platform.Python.Raise.{Env, Result, ok}
use gcp_engineering_platform.Python.Store.{Store, lookup, with_document}
use gcp_engineering_platform.Python.Store.Lift.{
  with_document-Wrote, with_document-result, lookup-insert_self,
}
use gcp_engineering_platform.Release.Status.{in_texts}
use gcp_engineering_platform.Release.Claims.{
  claim_submission, claim_submission_change, claim_publish, claim_publish_change,
}

-- The answer of a call from its answer and its store.
answered : {A : Type 0} {r : Result A × Store} {a : A} {t : Store} → r ≡ (ok a, t) → r.0 ≡ ok a
answered p = ap (λ r. r.0) p

-- The changes of a granted submission.
submission_granted :
    (e : Env) (d c : Fields)
    → claim_submission_change e d ≡ ok (c, true)
    → c ≡ entry "status" (str "submitting") (entry "updated_at" (str e.now) empty)
unfolding claim_submission_change
submission_granted e d c h = ground arith

submission_refused :
    (e : Env) (d : Fields)
    → get "status" d ≡ str "submitting"
    → claim_submission_change e d ≡ ok (empty, false)
unfolding claim_submission_change in_texts value_eq
submission_refused e d h = rw (h, in_texts) (ground arith)

-- After a granted permit to submit, the next call that claims the same execution is refused,
-- whichever process makes it.
pub claim_submission_exclusive :
    (e e' : Env) (id : String) (s : Store)
    → (claim_submission e id s).0 ≡ ok true
    → (claim_submission e' id (claim_submission e id s).1).0 ≡ ok false
unfolding claim_submission
claim_submission_exclusive e e' id s h =
    let w = with_document-Wrote id (claim_submission_change e) true s h in
    let t = (with_document id (claim_submission_change e) s).1 in
    let d = update w.found w.changes in
    let held : lookup id t ≡ some d = rw w.written (lookup-insert_self id d s) in
    let c = submission_granted e w.found w.changes w.agreed in
    let now : get "status" d ≡ str "submitting" = rw c (
      unfold contains get_or in
      get-update_set "status" null w.found
        (entry "status" (str "submitting") (entry "updated_at" (str e.now) empty)) refl) in
    answered (
      with_document-result id (claim_submission_change e') t d empty false held
        (submission_refused e' d now))

-- The changes of a granted publication.
publish_granted :
    (e : Env) (d c : Fields)
    → claim_publish_change e d ≡ ok (c, true)
    → c
      ≡ entry "status"
          (str "publish_pending")
          (entry "updated_at" (str e.now) (entry "publish_claimed_at" (str e.now) empty))
unfolding claim_publish_change
publish_granted e d c h = ground arith

publish_refused :
    (e : Env) (d : Fields)
    → get "status" d ≡ str "publish_pending"
    → claim_publish_change e d ≡ ok (empty, false)
unfolding claim_publish_change value_eq
publish_refused e d h = rw h (ground arith)

-- After a granted permit to publish, the next call that claims the same execution is refused,
-- whichever process makes it.
pub claim_publish_exclusive :
    (e e' : Env) (id : String) (s : Store)
    → (claim_publish e id s).0 ≡ ok true
    → (claim_publish e' id (claim_publish e id s).1).0 ≡ ok false
unfolding claim_publish
claim_publish_exclusive e e' id s h =
    let w = with_document-Wrote id (claim_publish_change e) true s h in
    let t = (with_document id (claim_publish_change e) s).1 in
    let d = update w.found w.changes in
    let held : lookup id t ≡ some d = rw w.written (lookup-insert_self id d s) in
    let c = publish_granted e w.found w.changes w.agreed in
    let now : get "status" d ≡ str "publish_pending" = rw c (
      unfold contains get_or in
      get-update_set "status" null w.found
        (entry "status" (str "publish_pending")
          (entry "updated_at" (str e.now) (entry "publish_claimed_at" (str e.now) empty)))
        refl) in
    answered (
      with_document-result id (claim_publish_change e') t d empty false held
        (publish_refused e' d now))
