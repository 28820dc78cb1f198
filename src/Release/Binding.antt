-- ===== src/Release/Binding.antt =====
-- `bind_build` of eng_platform_api/services/release_executions.py, after a call of it that
-- succeeded and calls of any operations.
pub mod Kept
use Prim.Native.String.{count}
use gcp_engineering_platform.Base.{
  String, List, true, false, ◌||◌, ◌≡◌, refl, ap, arith, ◌==◌, ltb, eq_iff, some, Bool-cases, inl,
  inr, or_false,
}
use gcp_engineering_platform.Python.Value.{str, Fields, dict, truthy, empty, entry, find}
use gcp_engineering_platform.Python.Dict.{get_or, contains_any, update}
use gcp_engineering_platform.Python.Raise.{Env, ok}
use gcp_engineering_platform.Python.Store.{Store, lookup}
use gcp_engineering_platform.Python.Store.Lift.{Wrote, with_document-Wrote, lookup-insert_self}
use gcp_engineering_platform.Release.Claims.{
  bind_build, bind_build_change, binding_fields, build_of,
}
use gcp_engineering_platform.Release.Ops.{Op, apply_all, all_ops, Evolves-apply_all}
use gcp_engineering_platform.Release.Evolution.Recovery.{Evolves-apply_op}
use gcp_engineering_platform.Release.Binding.Kept.{
  carries_no_build, BoundTo, StaysBound, build_of-BoundTo, Bound-Respected,
}

-- `bind_build` answers the document as it is stored afterwards.
answered :
    (e : Env) (build : String) (metadata d c x : Fields)
    → bind_build_change e build metadata d ≡ ok (c, x)
    → x ≡ update d c
unfolding bind_build_change update
answered e build metadata d c x h = ground arith

-- A bound document is bound to no other build.
rebound :
    (e : Env) (a b : String) (metadata d c x : Fields)
    → a == "" ≡ false
    → build_of e d ≡ a
    → bind_build_change e b metadata d ≡ ok (c, x)
    → a ≡ b
unfolding bind_build_change
rebound e a b metadata d c x named is_a h = ground (arith, eq_iff a b)

bind-Wrote :
    (e : Env) (id build : String) (metadata : Fields) (s : Store) (x : Fields)
    → (bind_build e id build metadata s).0 ≡ ok x
    → (build == "" ≡ false)
      × Wrote id (bind_build_change e build metadata) x s (bind_build e id build metadata s).1
unfolding bind_build
bind-Wrote e id build metadata s x h = elim (Bool-cases (build == "" || ltb 128 (count build))) [
  | inl bad ↦ cc (rw bad at h)
  | inr good ↦ elim (Bool-cases (contains_any binding_fields metadata)) [
    | inl taken ↦ cc (rw (good, taken) at h)
    | inr free ↦ (
      (or_false (build == "") (ltb 128 (count build)) good).0,
      rw (good, free)
          (with_document-Wrote id (bind_build_change e build metadata) x s (rw (good, free) at h)),
    )
  ]
]

BoundTo-nonempty :
    (a : String) (d : Fields) → a == "" ≡ false → BoundTo a d → truthy (dict d) ≡ true
unfolding get_or find
BoundTo-nonempty a empty named h = ground (arith, eq_iff a "")
BoundTo-nonempty a (entry k v d) named h = refl

-- After a call of bind_build for a build succeeded and left that build as the text of build_id, a
-- call for another build does not succeed, from whatever process and with whatever metadata, after
-- any history of calls of any operations in which none is stage_planner_retry and no call of save,
-- save_for_provider, admit_github_run, accept_event or update_quality_bootstrap carries a build_id.
pub bind_build_single :
    (e e' : Env) (id a b : String) (m m' : Fields) (history : List (Env × Op)) (s : Store)
    (x y : Fields)
    → (bind_build e id a m s).0 ≡ ok x
    → BoundTo a x
    → all_ops carries_no_build history ≡ true
    → (bind_build e' id b m' (apply_all history (bind_build e id a m s).1)).0 ≡ ok y
    → a ≡ b
bind_build_single e e' id a b m m' history s x y h is_text within h' =
    let (named, w) = bind-Wrote e id a m s x h in
    let t = (bind_build e id a m s).1 in
    let (_, w') = bind-Wrote e' id b m' (apply_all history t) y h' in
    let stored : update w.found w.changes ≡ x = cc (answered e a m w.found w.changes x w.agreed) in
    let held : lookup id t ≡ some x = rw (w.written, stored) (lookup-insert_self id x s) in
    let respected = Bound-Respected a named in
    let (d', held', stays) =
      (Evolves-apply_all (StaysBound a) respected.reflexive (λ _ _ _ f g q. g (f q))
          (Evolves-apply_op respected) history t within).becomes
        id x (held, BoundTo-nonempty a x named is_text) in
    let same : w'.found ≡ d' = cc (held'.0, w'.held) in
    rebound e' a b m' w'.found w'.changes y named
      (build_of-BoundTo e' a w'.found (rw same (stays is_text))) w'.agreed
