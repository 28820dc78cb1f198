-- ===== src/Python/Dict.antt =====
-- The operations of a Python dict on `Fields`: `d.get(k)`, `k in d`, `d[k] = v`, `d.update(c)` and
-- their laws. The order of the keys is never read by the program and is not modelled.
use gcp_engineering_platform.Base.{
  String, Bool, true, false, ◌||◌, none, some, List, [], ◌∷◌, ◌≡◌, refl, arith, ◌==◌, eq_iff,
  if◌then◌else◌, elem, all_elem, Bool-cases, inl, inr, starts_with,
}
use gcp_engineering_platform.Python.Value.{Value, null, Fields, empty, entry, find}

-- `d.get(k, default)`
unfoldable pub get_or : String → Value → Fields → Value
unfolding find
get_or k default d = elim (find k d) [ none ↦ default | some v ↦ v ]

-- `d.get(k)`
abbrev pub get : String → Fields → Value
get k d = get_or k null d

-- `k in d`
unfoldable pub contains : String → Fields → Bool
contains k empty = false
contains k (entry j v d) = (j == k) || contains k d

-- `d[k] = v`
unfoldable pub put : String → Value → Fields → Fields
put k v empty = entry k v empty
put k v (entry j w d) = if j == k then entry k v d else entry j w (put k v d)

-- `d.update(c)`
unfoldable pub update : Fields → Fields → Fields
update d empty = d
update d (entry k v c) = put k v (update d c)

-- `names.intersection(d)` is not empty, where `names` is a set of texts.
unfoldable pub contains_any : List String → Fields → Bool
contains_any [] d = false
contains_any (k ∷ ks) d = contains k d || contains_any ks d

-- `any(key.startswith(prefix) for key in d)`
unfoldable pub any_key_starts_with : String → Fields → Bool
any_key_starts_with p empty = false
any_key_starts_with p (entry k v d) = starts_with k p || any_key_starts_with p d

pub find-put :
    (k j : String) (v : Value) (d : Fields)
    → find j (put k v d) ≡ (if k == j then some v else find j d)
unfolding find put
find-put k j v empty = refl
find-put k j v (entry i w d) = ground (arith, eq_iff k j, eq_iff i k, eq_iff i j, find-put k j v d)

pub find-update :
    (j : String) (d c : Fields)
    → find j (update d c) ≡ (if contains j c then find j c else find j d)
unfolding update contains find
find-update j d empty = refl
find-update j d (entry k v c) = ground (arith, find-put k j v (update d c), find-update j d c)

-- An update leaves a key alone that it does not carry.
pub get-update_other :
    (j : String) (x : Value) (d c : Fields)
    → contains j c ≡ false
    → get_or j x (update d c) ≡ get_or j x d
unfolding get_or
get-update_other j x d c h = ground (arith, find-update j d c)

-- An update sets each key that it carries.
pub get-update_set :
    (j : String) (x : Value) (d c : Fields)
    → contains j c ≡ true
    → get_or j x (update d c) ≡ get_or j x c
unfolding get_or
get-update_set j x d c h = ground (arith, find-update j d c)

pub get-update :
    (j : String) (x : Value) (d c : Fields)
    → get_or j x (update d c) ≡ (if contains j c then get_or j x c else get_or j x d)
get-update j x d c = elim (Bool-cases (contains j c)) [
  | inl h ↦ rw (h, get-update_set j x d c h)
  | inr h ↦ rw (h, get-update_other j x d c h)
]

pub contains_any-elem :
    (k : String) (ks : List String) (d : Fields)
    → contains_any ks d ≡ false
    → elem k ks ≡ true
    → contains k d ≡ false
unfolding contains_any
contains_any-elem k [] d h e = cc
contains_any-elem k (j ∷ ks) d h e = ground (arith, eq_iff j k, contains_any-elem k ks d)

pub no_key_starts_with :
    (k p : String) (d : Fields)
    → any_key_starts_with p d ≡ false
    → starts_with k p ≡ true
    → contains k d ≡ false
unfolding any_key_starts_with contains
no_key_starts_with k p empty h e = refl
no_key_starts_with k p (entry j v d) h e = ground (arith, eq_iff j k, no_key_starts_with k p d)

pub contains-put :
    (k j : String) (v : Value) (d : Fields) → contains j (put k v d) ≡ ((k == j) || contains j d)
unfolding contains put
contains-put k j v empty = refl
contains-put k j v (entry i w d) =
    ground (arith, eq_iff k j, eq_iff i k, eq_iff i j, contains-put k j v d)

pub contains-update :
    (j : String) (d c : Fields) → contains j (update d c) ≡ (contains j d || contains j c)
unfolding update contains
contains-update j d empty = ground arith
contains-update j d (entry k v c) =
    ground (arith, contains-put k j v (update d c), contains-update j d c)

-- A write of a key outside the names leaves the names absent.
pub contains_any-put :
    (ks : List String) (k : String) (v : Value) (d : Fields)
    → elem k ks ≡ false
    → contains_any ks d ≡ false
    → contains_any ks (put k v d) ≡ false
unfolding contains_any
contains_any-put [] k v d h e = refl
contains_any-put (j ∷ ks) k v d h e =
    ground (arith, eq_iff j k, eq_iff k j, contains-put k j v d, contains_any-put ks k v d)

pub contains_any-update :
    (ks : List String) (d c : Fields)
    → contains_any ks d ≡ false
    → contains_any ks c ≡ false
    → contains_any ks (update d c) ≡ false
unfolding contains_any
contains_any-update [] d c h e = refl
contains_any-update (j ∷ ks) d c h e =
    ground (arith, contains-update j d c, contains_any-update ks d c)

-- What a set of names spares, a smaller one spares.
pub contains_any_subset :
    (ks ls : List String) (d : Fields)
    → contains_any ls d ≡ false
    → all_elem ks ls ≡ true
    → contains_any ks d ≡ false
unfolding contains_any
contains_any_subset [] ls d h e = refl
contains_any_subset (k ∷ ks) ls d h e =
    ground (arith, contains_any-elem k ls d, contains_any_subset ks ls d)

-- The default is not read where the key is there.
pub get_or-contains :
    (k : String) (x y : Value) (d : Fields) → contains k d ≡ true → get_or k x d ≡ get_or k y d
unfolding get_or contains find
get_or-contains k x y empty h = cc
get_or-contains k x y (entry j v d) h = ground (arith, get_or-contains k x y d)

pub get_or-put :
    (k j : String) (x v : Value) (d : Fields)
    → get_or j x (put k v d) ≡ (if k == j then v else get_or j x d)
unfolding get_or
get_or-put k j x v d = ground (arith, find-put k j v d)
