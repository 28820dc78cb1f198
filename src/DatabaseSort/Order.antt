-- ===== src/DatabaseSort/Order.antt =====
-- The order of records and the sort of a run: `_Order.less`, `_Record` and `pending.sort()` of
-- src/eng_platform_api/services/database_sort.py.
use gcp_engineering_platform.Base.{
  ℕ, Bool, true, false, ◌&&◌, not, List, [], ◌∷◌, ltb, if◌then◌else◌, Option, none, some, ◌≡◌, ◌≢◌,
  refl, arith,
}
use gcp_engineering_platform.Python.Value.{Value}

-- Keys as Python compares them, with `==` and `<`: a weak order, in which keys that differ in their
-- text may be equal, as `Decimal("1")` and `Decimal("1.0")`.
pub record KeyOrder (K : Type 0) : Type 0 where
  pub same : K → K → Bool
  pub before : K → K → Bool
  pub same_is : (a b : K) → same a b ≡ (not (before a b) && not (before b a))
  pub asymmetric : (a b : K) → before a b ≡ true → before b a ≡ false
  pub weak : (a b c : K) → before a b ≡ false → before b c ≡ false → before a c ≡ false

-- `_Record`: `raw` is the length of its line.
pub record Record (K : Type 0) : Type 0 where
  pub ordinal : ℕ
  pub row : List Value
  pub raw : ℕ
  pub key : Option K
  pub cost : ℕ

module _ {K : Type 0} (order : KeyOrder K) (descending : Bool) where
  -- `_Order.less`, on two keys and two ordinals: null is last in both directions.
  unfoldable pub less_keys : Option K → Option K → ℕ → ℕ → Bool
  less_keys none none i j = ltb i j
  less_keys none (some b) i j = false
  less_keys (some a) none i j = true
  less_keys (some a) (some b) i j =
      if order.same a b then ltb i j else if descending then order.before b a else order.before a b

  -- `_Order.less`
  unfoldable pub less : Record K → Record K → Bool
  unfolding less_keys
  less left right = less_keys left.key right.key left.ordinal right.ordinal

  unfoldable pub insert_record : Record K → List (Record K) → List (Record K)
  insert_record r [] = r ∷ []
  insert_record r (q ∷ qs) =
      let rest = insert_record r qs in if less q r then q ∷ rest else r ∷ q ∷ qs

  -- `list.sort`, which compares by `<`.
  unfoldable pub sort : List (Record K) → List (Record K)
  unfolding insert_record
  sort [] = []
  sort (r ∷ rs) = insert_record r (sort rs)

  less_keys-asymmetric :
      (k l : Option K) (i j : ℕ) → less_keys k l i j ≡ true → less_keys l k j i ≡ false
  unfolding less_keys
  less_keys-asymmetric none none i j h = ground (arith, h)
  less_keys-asymmetric none (some b) i j h = cc
  less_keys-asymmetric (some a) none i j h = refl
  less_keys-asymmetric (some a) (some b) i j h =
      ground
        (arith, h, order.same_is a b, order.same_is b a, order.asymmetric a b, order.asymmetric b a)

  less_keys-weak :
      (k l m : Option K) (i j n : ℕ)
      → less_keys k l i j ≡ false
      → less_keys l m j n ≡ false
      → less_keys k m i n ≡ false
  unfolding less_keys
  less_keys-weak none none none i j n h h' = ground (arith, h, h')
  less_keys-weak none none (some c) i j n h h' = refl
  less_keys-weak none (some b) none i j n h h' = cc
  less_keys-weak none (some b) (some c) i j n h h' = refl
  less_keys-weak (some a) none m i j n h h' = cc
  less_keys-weak (some a) (some b) none i j n h h' = cc
  less_keys-weak (some a) (some b) (some c) i j n h h' = ground (
    arith,
    h,
    h',
    order.same_is a b,
    order.same_is b c,
    order.same_is a c,
    order.asymmetric a b,
    order.asymmetric b a,
    order.asymmetric b c,
    order.asymmetric c b,
    order.asymmetric a c,
    order.asymmetric c a,
    order.weak a b c,
    order.weak c b a,
    order.weak b a c,
    order.weak a c b,
    order.weak c a b,
    order.weak b c a,
  )

  pub less-asymmetric : (r q : Record K) → less r q ≡ true → less q r ≡ false
  unfolding less
  less-asymmetric r q = less_keys-asymmetric r.key q.key r.ordinal q.ordinal

  pub less-weak : (r q p : Record K) → less r q ≡ false → less q p ≡ false → less r p ≡ false
  unfolding less
  less-weak r q p = less_keys-weak r.key q.key p.key r.ordinal q.ordinal p.ordinal

  less_keys-distinct :
      (k l : Option K) (i j : ℕ) → i ≢ j → less_keys k l i j ≡ not (less_keys l k j i)
  unfolding less_keys
  less_keys-distinct none none i j apart = ground (arith, apart)
  less_keys-distinct none (some b) i j apart = refl
  less_keys-distinct (some a) none i j apart = refl
  less_keys-distinct (some a) (some b) i j apart = ground (
    arith,
    apart,
    order.same_is a b,
    order.same_is b a,
    order.asymmetric a b,
    order.asymmetric b a,
  )

  -- Of two records with different ordinals, exactly one is less than the other, whatever their keys
  -- are and in both directions.
  pub less-distinct : (r q : Record K) → r.ordinal ≢ q.ordinal → less r q ≡ not (less q r)
  unfolding less
  less-distinct r q apart = less_keys-distinct r.key q.key r.ordinal q.ordinal apart

  -- No record of the list is less than the given one.
  abbrev pub IsLeast : Record K → List (Record K) → Type 0
  IsLeast r [] = Unit
  IsLeast r (q ∷ qs) = (less q r ≡ false) × IsLeast r qs

  abbrev pub IsSorted : List (Record K) → Type 0
  IsSorted [] = Unit
  IsSorted (r ∷ rs) = IsLeast r rs × IsSorted rs
