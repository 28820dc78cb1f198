-- ===== src/Deployment/Reserved.antt =====
-- Repeated calls of `reserve` of eng_platform_api/services/deployment_executions.py.
use gcp_engineering_platform.Base.{
  String, true, false, ◌==◌, eq_iff, ◌≡◌, ◌⊎◌, refl, arith, inl, inr,
}
use gcp_engineering_platform.Python.Value.{null, str, Fields, empty, entry, truthy}
use gcp_engineering_platform.Python.Dict.{get, contains, update, get-update_other}
use gcp_engineering_platform.Python.Raise.{Env, ok}
use gcp_engineering_platform.Python.Store.{Store}
use gcp_engineering_platform.Python.Store.Lift.{Writes, Holds}
use gcp_engineering_platform.Deployment.Executions.{Intent, reserve, reserve_again, bind_context}
use gcp_engineering_platform.Deployment.Ops.{Evolves-reserve}

-- Every field is as it was, but for an engine configuration that was not bound yet.
abbrev pub Preserved : Fields → Fields → Type 0
Preserved d d' =
    (k : String)
    → (k == "github_execution_config") ≡ false ⊎ truthy (get "github_execution_config" d) ≡ true
    → get k d' ≡ get k d

again_changes :
    (e : Env) (r : Intent) (d c x : Fields)
    → reserve_again e r d ≡ ok (c, x)
    → (c ≡ empty)
      ⊎ ((c ≡ entry "github_execution_config" (str r.github_execution_config) empty)
          × (truthy (get "github_execution_config" d) ≡ false))
unfolding reserve_again bind_context
again_changes e r d c x h = ground arith

again-Preserved : (e : Env) (r : Intent) → Writes Preserved (reserve_again e r)
unfolding contains update
again-Preserved e r d c x h k kept = elim (again_changes e r d c x h) [
  | inl none_written ↦ rw none_written refl
  | inr (bound, unbound) ↦ elim kept [
    | inl other ↦ rw bound (
        get-update_other k null d
          (entry "github_execution_config" (str r.github_execution_config) empty)
          (ground
            (arith, other, eq_iff k "github_execution_config", eq_iff "github_execution_config" k)))
    | inr was_bound ↦ absurd (cc (unbound, was_bound))
  ]
]

-- No reservation, of any deployment and with any arguments, removes a deployment that has a
-- document or changes a field of it, but for binding a GitHub configuration where none was bound.
pub reserve_never_overwrites :
    (e : Env) (r : Intent) (s : Store) (j : String) (d : Fields)
    → Holds j s d
    → (d' : Fields) × Holds j (reserve e r s).1 d' × Preserved d d'
reserve_never_overwrites e r s j d held =
    (Evolves-reserve {R = Preserved} (λ d k kept. refl) again-Preserved e r s).becomes j d held
