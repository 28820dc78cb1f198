-- ===== src/DatabaseSort/Sorted.antt =====
-- The sort of the pending records in src/eng_platform_api/services/database_sort.py.
use gcp_engineering_platform.Base.{
  ℕ, ◌+◌, Bool, false, List, [], ◌∷◌, ◌++◌, if◌then◌else◌, ◌≡◌, refl, arith, Bool-cases, inl, inr,
}
use gcp_engineering_platform.DatabaseSort.Order.{
  KeyOrder, Record, less, insert_record, sort, less-asymmetric, less-weak, IsLeast, IsSorted,
}

-- How many elements pass a test.
unfoldable pub tally : {A : Type 0} → (A → Bool) → List A → ℕ
tally test [] = 0
tally test (x ∷ xs) = (if test x then 1 else 0) + tally test xs

pub tally-append :
    {A : Type 0} (test : A → Bool) (xs ys : List A)
    → tally test (xs ++ ys) ≡ tally test xs + tally test ys
unfolding tally
tally-append test [] ys = omega arith
tally-append test (x ∷ xs) ys = omega (arith, tally-append test xs ys)

-- The same elements, as often, in another order.
abbrev pub IsReordering : {A : Type 0} → List A → List A → Type 0
IsReordering xs ys = (test : _ → Bool) → tally test xs ≡ tally test ys

-- Every element has a property.
abbrev pub All : {A : Type 0} → (A → Type 0) → List A → Type 0
All P [] = Unit
All P (x ∷ xs) = P x × All P xs

module _ {K : Type 0} (order : KeyOrder K) (descending : Bool) where
  tally-insert_record :
      (test : Record K → Bool) (r : Record K) (rs : List (Record K))
      → tally test (insert_record order descending r rs) ≡ tally test (r ∷ rs)
  unfolding insert_record tally
  tally-insert_record test r [] = refl
  tally-insert_record test r (q ∷ qs) = ground (arith, tally-insert_record test r qs)

  pub tally-sort :
      (test : Record K → Bool) (rs : List (Record K))
      → tally test (sort order descending rs) ≡ tally test rs
  unfolding sort tally
  tally-sort test [] = refl
  tally-sort test (r ∷ rs) =
      omega (arith, tally-insert_record test r (sort order descending rs), tally-sort test rs)

  -- What is at least a record is at least one that is no greater.
  pub IsLeast-weak :
      (r q : Record K) (rs : List (Record K))
      → less order descending q r ≡ false
      → IsLeast order descending q rs
      → IsLeast order descending r rs
  IsLeast-weak r q [] h least = tt
  IsLeast-weak r q (p ∷ ps) h least =
      (less-weak order descending p q r least.0 h, IsLeast-weak r q ps h least.1)

  IsLeast-insert_record :
      (r q : Record K) (rs : List (Record K))
      → less order descending q r ≡ false
      → IsLeast order descending r rs
      → IsLeast order descending r (insert_record order descending q rs)
  unfolding insert_record
  IsLeast-insert_record r q [] h least = (h, tt)
  IsLeast-insert_record r q (p ∷ ps) h least = elim (Bool-cases (less order descending p q)) [
    | inl under ↦ rw under (least.0, IsLeast-insert_record r q ps h least.1)
    | inr over ↦ rw over (h, (least.0, least.1))
  ]

  IsSorted-insert_record :
      (r : Record K) (rs : List (Record K))
      → IsSorted order descending rs
      → IsSorted order descending (insert_record order descending r rs)
  unfolding insert_record
  IsSorted-insert_record r [] sorted = (tt, tt)
  IsSorted-insert_record r (q ∷ qs) sorted = elim (Bool-cases (less order descending q r)) [
    | inl under ↦ rw under (
      IsLeast-insert_record q r qs (less-asymmetric order descending q r under) sorted.0,
      IsSorted-insert_record r qs sorted.1,
    )
    | inr over ↦ rw over ((over, IsLeast-weak r q qs over sorted.0), sorted)
  ]

  pub IsSorted-sort : (rs : List (Record K)) → IsSorted order descending (sort order descending rs)
  unfolding sort
  IsSorted-sort [] = tt
  IsSorted-sort (r ∷ rs) = IsSorted-insert_record r (sort order descending rs) (IsSorted-sort rs)
