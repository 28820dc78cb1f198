-- ===== src/Python/Value.antt =====
-- The values that a stored document holds: what Python's `Any` is in the documents of
-- eng_platform_api/services (JSON data), with Python's `==`, truth value, `str` and `int`.
use gcp_engineering_platform.Base.{
  ℕ, String, Bool, true, false, ◌&&◌, ◌||◌, not, Option, none, some, ◌≡◌, refl, ap, arith, ◌==◌,
  eq_iff, nat_eq, if◌then◌else◌,
}

mutual
  pub data Fields : Type 0 where
    empty : Fields
    entry : String → Value → Fields → Fields

  pub data Items : Type 0 where
    empty_list : Items
    element : Value → Items → Items

  pub data Value : Type 0 where
    null : Value
    bool : Bool → Value
    str : String → Value
    num : ℕ → Value
    dict : Fields → Value
    list : Items → Value

-- `bool(v)`
abbrev pub truthy : Value → Bool
truthy null = false
truthy (bool b) = b
truthy (str s) = not (s == "")
truthy (num n) = not (nat_eq n 0)
truthy (list empty_list) = false
truthy (list (element _ _)) = true
truthy (dict empty) = false
truthy (dict (entry _ _ _)) = true

-- The value under the first binding of a key; `none` where the key is absent.
unfoldable pub find : String → Fields → Option Value
find k empty = none
find k (entry j v d) = if j == k then some v else find k d

-- Every key of the first is one of the second.
unfoldable pub keys_in : Fields → Fields → Bool
unfolding find
keys_in empty e = true
keys_in (entry k _ d) e = elim (find k e) [ none ↦ false | some _ ↦ true ] && keys_in d e

abbrev pub bit : Bool → ℕ
bit true = 1
bit false = 0

-- `a == b`. A `bool` is a number in Python, and the order of the keys of a dict is ignored.
unfoldable mutual
  pub value_eq : Value → Value → Bool
  value_eq null null = true
  value_eq (bool a) (bool b) = nat_eq (bit a) (bit b)
  value_eq (bool a) (num n) = nat_eq (bit a) n
  value_eq (num n) (bool b) = nat_eq n (bit b)
  value_eq (num n) (num m) = nat_eq n m
  value_eq (str s) (str t) = s == t
  value_eq (list xs) (list ys) = items_eq xs ys
  value_eq (dict d) (dict e) = fields_in d e && keys_in e d
  value_eq _ _ = false

  pub items_eq : Items → Items → Bool
  items_eq empty_list empty_list = true
  items_eq (element x xs) (element y ys) = value_eq x y && items_eq xs ys
  items_eq _ _ = false

  pub fields_in : Fields → Fields → Bool
  fields_in empty e = true
  fields_in (entry k v d) e =
      elim (find k e) [ none ↦ false | some w ↦ value_eq v w ] && fields_in d e

-- `v in xs` for a list `xs`
unfoldable pub in_items : Value → Items → Bool
in_items v empty_list = false
in_items v (element x xs) = value_eq v x || in_items v xs

-- `xs.append(v)`
unfoldable pub append : Items → Value → Items
append empty_list v = element v empty_list
append (element x xs) v = element x (append xs v)

-- A text is equal to itself alone.
pub value_eq_str : (v : Value) (t : String) → value_eq v (str t) ≡ true → v ≡ str t
unfolding value_eq
value_eq_str (str s) t h = ap str ((eq_iff s t).0 h)
value_eq_str null t h = cc
value_eq_str _ t h = cc

-- Equal values are both true or both false.
pub truthy-value_eq : (v w : Value) → value_eq v w ≡ true → truthy v ≡ truthy w
unfolding value_eq keys_in find
truthy-value_eq null null h = refl
truthy-value_eq (bool a) (bool b) h = ground arith
truthy-value_eq (bool a) (num n) h = ground arith
truthy-value_eq (num n) (bool b) h = ground arith
truthy-value_eq (num n) (num m) h = ground arith
truthy-value_eq (str s) (str t) h = rw ((eq_iff s t).0 h)
truthy-value_eq (list empty_list) (list empty_list) h = refl
truthy-value_eq (list (element _ _)) (list (element _ _)) h = refl
truthy-value_eq (dict empty) (dict empty) h = refl
truthy-value_eq (dict empty) (dict (entry k v d)) h = ground arith
truthy-value_eq (dict (entry k v d)) (dict empty) h = cc
truthy-value_eq (dict (entry _ _ _)) (dict (entry _ _ _)) h = refl
truthy-value_eq (list empty_list) (list (element _ _)) h = cc
truthy-value_eq (list (element _ _)) (list empty_list) h = cc
truthy-value_eq _ _ h = cc
