-- ===== src/Deployment/Locked.antt =====
-- The provider of a deployment whose selection is locked.
use gcp_engineering_platform.Base.{
  ℕ, String, Bool, true, false, ◌&&◌, ◌||◌, not, List, [], ◌∷◌, some, ◌≡◌, ◌⊎◌, ap, arith, eq_iff,
  and_true, Bool-cases, Option-cases, inl, inr, ◌∙◌,
}
use gcp_engineering_platform.Python.Value.{
  Value, null, num, str, dict, Fields, empty, entry, truthy, value_eq, value_eq_str,
  truthy-value_eq, find, fields_in, keys_in,
}
use gcp_engineering_platform.Python.Dict.{
  get, get_or, contains, put, update, contains-put, get-update, get-update_other,
}
use gcp_engineering_platform.Python.Raise.{Env, ok}
use gcp_engineering_platform.Python.Store.{Store}
use gcp_engineering_platform.Python.Store.Lift.{Writes, Holds}
use gcp_engineering_platform.Release.Validate.{is_locked, any_changed}
use gcp_engineering_platform.Deployment.Executions.{
  Intent, reserve_again, transition_provider_change, claim_submission_change, save_change,
  validate_selection, accept_event_change, event_changes, github_dispatch_change,
}
use gcp_engineering_platform.Deployment.Ops.{
  Call, call_accept_event, all_calls, run_all, Respected, Evolves-run_all,
}

-- Under a key of both dicts, equal dicts hold values with the same truth value.
truthy-fields_in :
    (k : String) (d b : Fields)
    → fields_in d b ≡ true
    → contains k d ≡ true
    → truthy (get k d) ≡ truthy (get k b)
unfolding fields_in contains get_or find
truthy-fields_in k empty b h there = cc
truthy-fields_in k (entry j v d) b h there = elim (Option-cases (find j b)) [
  | inl p ↦ absurd (ground (arith, p, h))
  | inr (w, p) ↦
      let (same, rest) : (value_eq v w ≡ true) × (fields_in d b ≡ true) = ground (arith, p, h) in
      ground (arith, eq_iff j k, p, there, truthy-value_eq v w same, truthy-fields_in k d b rest)
]

find-contains : (j : String) (b : Fields) (w : Value) → find j b ≡ some w → contains j b ≡ true
unfolding find contains
find-contains j empty w p = cc
find-contains j (entry i v b) w p = ground (arith, find-contains j b w)

keys_in-contains :
    (k : String) (d b : Fields) → keys_in d b ≡ true → contains k d ≡ true → contains k b ≡ true
unfolding keys_in contains
keys_in-contains k empty b h there = cc
keys_in-contains k (entry j v d) b h there = elim (Option-cases (find j b)) [
  | inl p ↦ absurd (ground (arith, p, h))
  | inr (w, p) ↦
      let rest : keys_in d b ≡ true = ground (arith, p, h) in
      ground (arith, eq_iff j k, p, there, find-contains j b w p, keys_in-contains k d b rest)
]

truthy-contains : (k : String) (d : Fields) → truthy (get k d) ≡ true → contains k d ≡ true
unfolding get_or find contains
truthy-contains k empty h = cc
truthy-contains k (entry j v d) h = ground (arith, truthy-contains k d)

-- A lock that a dict holds, an equal dict holds.
same_lock :
    (a b : Fields)
    → value_eq (dict a) (dict b) ≡ true
    → truthy (get "locked" b) ≡ true
    → truthy (get "locked" a) ≡ true
unfolding value_eq
same_lock a b same h =
    let (values, keys) = and_true (fields_in a b) (keys_in b a) same in
    truthy-fields_in "locked" a b values
      (keys_in-contains "locked" b a keys (truthy-contains "locked" b h))
    ∙ h

-- A field that an update leaves as it is, up to Python's `==`.
abbrev Kept : String → Fields → Fields → Type 0
Kept k d d' = (get k d' ≡ get k d) ⊎ (value_eq (get k d') (get k d) ≡ true)

Kept-update :
    (k : String) (d c : Fields)
    → (contains k c && not (value_eq (get k c) (get k d))) ≡ false
    → Kept k d (update d c)
Kept-update k d c h = elim (Bool-cases (contains k c)) [
  | inl there ↦ inr (rw (get-update, there) (ground (arith, there, h)))
  | inr spared ↦ inl (get-update_other k null d c spared)
]

lock_of : Value → Bool
lock_of v = elim v [ dict selection ↦ truthy (get "locked" selection) | _ ↦ false ]

lock_of-value_eq : (v w : Value) → value_eq v w ≡ true → lock_of w ≡ true → lock_of v ≡ true
unfolding value_eq lock_of
lock_of-value_eq (dict a) (dict b) same h = same_lock a b same h
lock_of-value_eq _ (dict b) same h = cc
lock_of-value_eq _ _ same h = cc

Kept-lock :
    (d d' : Fields) → Kept "provider_selection" d d' → is_locked d ≡ true → is_locked d' ≡ true
unfolding is_locked lock_of
Kept-lock d d' (inl same) h = ap lock_of same ∙ h
Kept-lock d d' (inr equal) h =
    lock_of-value_eq (get "provider_selection" d') (get "provider_selection" d) equal h

Kept-provider :
    (d d' : Fields) (p : String)
    → Kept "provider" d d'
    → get "provider" d ≡ str p
    → get "provider" d' ≡ str p
Kept-provider d d' p (inl same) h = same ∙ h
Kept-provider d d' p (inr equal) h = value_eq_str (get "provider" d') p (rw h at equal)

-- A locked document stays locked and keeps its provider.
abbrev pub Fixed : Fields → Fields → Type 0
Fixed d d' =
    is_locked d ≡ true
    → (is_locked d' ≡ true) × ((p : String) → get "provider" d ≡ str p → get "provider" d' ≡ str p)

Kept-Fixed :
    (d d' : Fields)
    → (is_locked d ≡ true → Kept "provider_selection" d d' × Kept "provider" d d')
    → Fixed d d'
Kept-Fixed d d' kept locked =
    let (selection, provider) = kept locked in
    (Kept-lock d d' selection locked, λ p. Kept-provider d d' p provider)

spared-Fixed :
    (d c : Fields)
    → contains "provider" c ≡ false
    → contains "provider_selection" c ≡ false
    → Fixed d (update d c)
spared-Fixed d c provider selection = Kept-Fixed d (update d c) (λ locked. (
  inl (get-update_other "provider_selection" null d c selection),
  inl (get-update_other "provider" null d c provider),
))

saved_changes :
    (k d c x : Fields)
    → save_change k d ≡ ok (c, x)
    → (c ≡ k)
      × (is_locked d ≡ true → any_changed ("provider" ∷ "provider_selection" ∷ []) d k ≡ false)
unfolding save_change validate_selection
saved_changes k d c x h = (ground arith, λ locked. ground arith)

save-Fixed : (k : Fields) → Writes Fixed (save_change k)
unfolding any_changed
save-Fixed k d c x h =
    let (same, unchanged) = saved_changes k d c x h in
    Kept-Fixed d (update d c) (λ locked.
      let none_changed = unchanged locked in
      rw same (
        Kept-update "provider_selection" d k (ground (arith, none_changed)),
        Kept-update "provider" d k (ground (arith, none_changed)),
      ))

-- What the other operations write.
reserved_changes :
    (e : Env) (r : Intent) (d c x : Fields)
    → reserve_again e r d ≡ ok (c, x)
    → (contains "provider" c ≡ false) × (contains "provider_selection" c ≡ false)
unfolding reserve_again contains
reserved_changes e r d c x h = (ground arith, ground arith)

pub transition_changes :
    (e : Env) (a b reason : String) (d c x : Fields)
    → transition_provider_change e a b reason d ≡ ok (c, x)
    → is_locked d ≡ false
unfolding transition_provider_change
transition_changes e a b reason d c x h = ground arith

claimed_changes :
    (e : Env) (d c : Fields) (a : Bool)
    → claim_submission_change e d ≡ ok (c, a)
    → (contains "provider" c ≡ false) × (contains "provider_selection" c ≡ false)
unfolding claim_submission_change contains
claimed_changes e d c a h = (ground arith, ground arith)

dispatched_changes :
    (d c : Fields) (a : Bool)
    → github_dispatch_change d ≡ ok (c, a)
    → (contains "provider" c ≡ false) × (contains "provider_selection" c ≡ false)
unfolding github_dispatch_change contains
dispatched_changes d c a h = (ground arith, ground arith)

-- An engine event that leaves the provider alone. `accept_event` itself checks no selection.
unfoldable pub event_spares_provider : Call → Bool
event_spares_provider (call_accept_event id n k) =
    not (contains "provider" k || contains "provider_selection" k)
event_spares_provider _ = true

accepted_changes :
    (e : Env) (id : String) (n : ℕ) (k d c : Fields) (a : Fields × Bool)
    → event_spares_provider (call_accept_event id n k) ≡ true
    → accept_event_change e n (event_changes e n k) d ≡ ok (c, a)
    → (contains "provider" c ≡ false) × (contains "provider_selection" c ≡ false)
unfolding accept_event_change event_spares_provider contains
accepted_changes e id n k d c a spares h = ground (
  arith,
  spares,
  contains-put "event_sequence" "provider" (num n) k,
  contains-put "event_sequence" "provider_selection" (num n) k,
  contains-put "updated_at" "provider" (str e.now) (put "event_sequence" (num n) k),
  contains-put "updated_at" "provider_selection" (str e.now) (put "event_sequence" (num n) k),
)

pub locked-Respected : Respected Fixed event_spares_provider
locked-Respected = record {
  reflexive = λ d locked. (locked, λ p h. h);
  transitive = λ a b c f g locked.
      let (kept, same) = f locked in
      let (kept', same') = g kept in (kept', λ p h. same' p (same p h));
  reserves = λ e r d c x h. let q = reserved_changes e r d c x h in spared-Fixed d c q.0 q.1;
  transitions = λ e a b reason d c x h locked.
      absurd (ground (arith, locked, transition_changes e a b reason d c x h));
  claims = λ e d c a h. let q = claimed_changes e d c a h in spared-Fixed d c q.0 q.1;
  saves = λ e id k within. save-Fixed (put "updated_at" (str e.now) k);
  accepts = λ e id n k within d c a h.
      let q = accepted_changes e id n k d c a within h in spared-Fixed d c q.0 q.1;
  dispatches = λ d c a h. let q = dispatched_changes d c a h in spared-Fixed d c q.0 q.1;
}

-- A deployment whose provider selection is locked keeps its provider and its lock through any
-- history of calls, in any order and from any processes, whose engine events carry neither the
-- provider nor the selection.
pub provider_locked :
    (history : List (Env × Call)) (s : Store) (j p : String) (d : Fields)
    → all_calls event_spares_provider history ≡ true
    → Holds j s d
    → is_locked d ≡ true
    → get "provider" d ≡ str p
    → (d' : Fields) × Holds j (run_all history s) d'
      × (is_locked d' ≡ true)
      × (get "provider" d' ≡ str p)
provider_locked history s j p d within held locked named =
    let (d', held', fixed) = (Evolves-run_all locked-Respected history s within).becomes j d held in
    let (locked', same) = fixed locked in (d', held', locked', same p named)
