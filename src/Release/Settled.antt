-- ===== src/Release/Settled.antt =====
-- Settled executions: those whose status no check of the status machine lets move on. They are in
-- one of the four final statuses, or a caller has blanked the status.
pub mod History
use gcp_engineering_platform.Base.{
  ℕ, zero, suc, String, Bool, true, false, ◌&&◌, ◌||◌, not, List, [], ◌∷◌, ◌≡◌, refl, ap, arith,
  ◌==◌, eq_iff, elem, no_elem, elem_all, and_true, Bool-cases, inl, inr, ◌∙◌,
}
use gcp_engineering_platform.Python.Value.{
  Value, null, bool, num, str, list, dict, empty_list, element, Fields, empty, entry, truthy,
  value_eq, value_eq_str, truthy-value_eq, find,
}
use gcp_engineering_platform.Python.Dict.{
  get, get_or, contains, update, contains-update, get-update, get_or-contains,
}
use gcp_engineering_platform.Python.Raise.{Env, Result, ok, to_str}
use gcp_engineering_platform.Release.Status.{
  transitions, in_texts, status_text, validate_status_change,
}

abbrev pub final_statuses : List String
final_statuses = "quality_failed" ∷ "no_release" ∷ "released" ∷ "superseded" ∷ []

-- A status that leads nowhere: final, or none at all.
abbrev pub quiet : Value → Bool
quiet v = not (truthy v) || in_texts v final_statuses

unfoldable pub settled : Fields → Bool
settled d = contains "status" d && quiet (get "status" d)

abbrev pub Settles : Fields → Fields → Type 0
Settles d d' = settled d ≡ true → settled d' ≡ true

pub in_texts-elem :
    (v : Value) (ts : List String)
    → in_texts v ts ≡ true
    → (t : String) × (v ≡ str t) × (elem t ts ≡ true)
unfolding in_texts
in_texts-elem v [] h = absurd (cc)
in_texts-elem v (t ∷ ts) h = elim (Bool-cases (value_eq v (str t))) [
  | inl here ↦ (t, value_eq_str v t here, ground (arith, eq_iff t t))
  | inr later ↦ let (u, p, q) = in_texts-elem v ts (ground arith) in (u, p, ground arith)
]

pub elem-in_texts : (t : String) (ts : List String) → elem t ts ≡ true → in_texts (str t) ts ≡ true
unfolding in_texts value_eq
elem-in_texts t [] h = cc
elem-in_texts t (u ∷ ts) h = ground (arith, eq_iff u t, eq_iff t u, elem-in_texts t ts)

pub no_elem-elem :
    (t : String) (ts us : List String) → no_elem ts us ≡ true → elem t ts ≡ true → elem t us ≡ false
no_elem-elem t [] us h e = cc
no_elem-elem t (u ∷ ts) us h e = ground (arith, eq_iff u t, no_elem-elem t ts us)

str-injective : (s t : String) → str s ≡ str t → s ≡ t
str-injective s t h = cc

quiet_str : (t : String) → quiet (str t) ≡ true → elem t ("" ∷ final_statuses) ≡ true
quiet_str t h = elim (Bool-cases (in_texts (str t) final_statuses)) [
  | inl within ↦
      let (u, p, named) = in_texts-elem (str t) final_statuses within in
      let e = str-injective t u p in rw e (ground arith)
  | inr out ↦ ground (arith, eq_iff t "", eq_iff "" t)
]

-- A status that a guard of the code names is not quiet.
pub quiet_excludes :
    (v : Value) (ts : List String)
    → no_elem ts ("" ∷ final_statuses) ≡ true
    → quiet v ≡ true
    → in_texts v ts ≡ false
quiet_excludes v ts apart q = elim (Bool-cases (in_texts v ts)) [
  | inr out ↦ out
  | inl within ↦
      let (t, p, named) = in_texts-elem v ts within in
      let free = no_elem-elem t ts ("" ∷ final_statuses) apart named in
      cc (free, quiet_str t (rw p at q))
]

pub quiet_excludes_one :
    (v : Value) (t : String)
    → elem t ("" ∷ final_statuses) ≡ false
    → quiet v ≡ true
    → value_eq v (str t) ≡ false
unfolding in_texts
quiet_excludes_one v t apart q = ground (arith, quiet_excludes v (t ∷ []))

-- No transition leads on from a quiet status.
transitions-final : (t : String) → elem t ("" ∷ final_statuses) ≡ true → transitions t ≡ []
unfolding transitions
transitions-final t h =
    elem_all (λ u. transitions u ≡ []) t ("" ∷ final_statuses)
      (refl, (refl, (refl, (refl, (refl, tt))))) h

transitions-quiet : (e : Env) (v : Value) → quiet v ≡ true → transitions (to_str e v) ≡ []
unfolding transitions to_str in_texts value_eq
transitions-quiet e (str s) h = transitions-final s (quiet_str s h)
transitions-quiet e null h = refl
transitions-quiet e (bool false) h = refl
transitions-quiet e (bool true) h = cc
transitions-quiet e (num zero) h = refl
transitions-quiet e (num (suc n)) h = ground arith
transitions-quiet e (list empty_list) h = refl
transitions-quiet e (list (element v xs)) h = cc
transitions-quiet e (dict empty) h = refl
transitions-quiet e (dict (entry k v d)) h = cc

-- An update that leaves the status alone keeps an execution settled.
pub settled-spared : (d c : Fields) → contains "status" c ≡ false → Settles d (update d c)
unfolding settled
settled-spared d c spared h =
    rw (contains-update "status" d c, get-update "status" null d c, spared) (ground arith)

-- The status that a validated change carries, if it carries one, is quiet again.
status_text-settled : (e : Env) (d : Fields) → settled d ≡ true → transitions (status_text e d) ≡ []
unfolding settled status_text
status_text-settled e d h =
    let (there, q) = and_true (contains "status" d) (quiet (get "status" d)) h in
    rw (get_or-contains "status" (str "received") null d there) (transitions-quiet e _ q)

quiet-value_eq : (v w : Value) → value_eq v w ≡ true → quiet w ≡ true → quiet v ≡ true
quiet-value_eq v w same q = elim (Bool-cases (in_texts w final_statuses)) [
  | inl within ↦
      let (t, p, named) = in_texts-elem w final_statuses within in
      let p' = value_eq_str v t (rw p at same) in
      rw p' (ground (arith, elem-in_texts t final_statuses))
  | inr out ↦ ground (arith, truthy-value_eq v w)
]

valid_quiet :
    (e : Env) (d c : Fields)
    → validate_status_change e d c ≡ ok tt
    → settled d ≡ true
    → quiet (get "status" c) ≡ true
unfolding validate_status_change settled in_texts
valid_quiet e d c valid h =
    ground (arith, status_text-settled e d, quiet-value_eq (get "status" c) (get "status" d))

-- So does one that passed the check of the status change.
pub settled-validated :
    (e : Env) (d c : Fields) → validate_status_change e d c ≡ ok tt → Settles d (update d c)
unfolding settled
settled-validated e d c valid h = ground (
  arith,
  settled-spared d c,
  contains-update "status" d c,
  get-update "status" null d c,
  valid_quiet e d c,
)
