-- ===== src/DatabaseSort/Merged.antt =====
-- The output of `merge` of src/eng_platform_api/services/database_sort.py.
use gcp_engineering_platform.Base.{
  ℕ, zero, suc, ◌+◌, ◌≤◌, Bool, true, false, List, [], ◌∷◌, ◌++◌, ◌≡◌, refl, arith, Bool-cases, inl,
  inr,
}
use gcp_engineering_platform.DatabaseSort.Order.{
  KeyOrder, Record, less, less-asymmetric, less-weak, IsLeast, IsSorted,
}
use gcp_engineering_platform.DatabaseSort.Merge.{
  Item, flat, remaining, push, push_next, open_all, drain,
}
use gcp_engineering_platform.DatabaseSort.Sorted.{tally, tally-append, IsLeast-weak}

module _ {K : Type 0} (order : KeyOrder K) (descending : Bool) where
  tally-push :
      (test : Record K → Bool) (item : Item K) (heap : List (Item K))
      → tally test (remaining (push order descending item heap))
        ≡ tally test (item.0 ∷ item.1) + tally test (remaining heap)
  unfolding push remaining tally
  tally-push test (r, rest) [] = omega (arith, tally-append test rest [])
  tally-push test (r, rest) ((q, more) ∷ heap) = ground (
    arith,
    tally-push test (r, rest) heap,
    tally-append test more (remaining (push order descending (r, rest) heap)),
    tally-append test more (remaining heap),
    tally-append test rest (q ∷ more ++ remaining heap),
  )

  tally-push_next :
      (test : Record K → Bool) (rs : List (Record K)) (heap : List (Item K))
      → tally test (remaining (push_next order descending rs heap))
        ≡ tally test rs + tally test (remaining heap)
  unfolding push_next tally
  tally-push_next test [] heap = omega arith
  tally-push_next test (r ∷ rest) heap = tally-push test (r, rest) heap

  tally-open_all :
      (test : Record K → Bool) (runs : List (List (Record K))) (heap : List (Item K))
      → tally test (remaining (open_all order descending runs heap))
        ≡ tally test (flat runs) + tally test (remaining heap)
  unfolding open_all flat tally
  tally-open_all test [] heap = omega arith
  tally-open_all test (run ∷ runs) heap = omega (
    arith,
    tally-open_all test runs (push_next order descending run heap),
    tally-push_next test run heap,
    tally-append test run (flat runs),
  )

  -- Fuel for each record of the heap is enough.
  tally-drain :
      (test : Record K → Bool) (n : ℕ) (heap : List (Item K))
      → tally (λ r. true) (remaining heap) ≤ n
      → tally test (drain order descending n heap) ≡ tally test (remaining heap)
  unfolding drain remaining tally
  tally-drain test zero [] h = refl
  tally-drain test zero ((r, rest) ∷ heap) h = absurd (omega (arith, h))
  tally-drain test (suc n) [] h = refl
  tally-drain test (suc n) ((r, rest) ∷ heap) h = omega (
    arith,
    h,
    tally-drain test n (push_next order descending rest heap) (
        omega (
          arith,
          h,
          tally-push_next (λ r. true) rest heap,
          tally-append (λ r. true) rest (remaining heap),
        )),
    tally-push_next test rest heap,
    tally-append test rest (remaining heap),
  )

  -- The items of a heap are sorted runs, in the order of their first records.
  abbrev Below : Record K → List (Item K) → Type 0
  Below r [] = Unit
  Below r ((q, rest) ∷ heap) = (less order descending q r ≡ false) × Below r heap

  abbrev IsHeap : List (Item K) → Type 0
  IsHeap [] = Unit
  IsHeap ((r, rest) ∷ heap) =
      IsLeast order descending r rest × IsSorted order descending rest × Below r heap × IsHeap heap

  Below-weak :
      (r q : Record K) (heap : List (Item K))
      → less order descending q r ≡ false
      → Below q heap
      → Below r heap
  Below-weak r q [] h below = tt
  Below-weak r q ((p, rest) ∷ heap) h below =
      (less-weak order descending p q r below.0 h, Below-weak r q heap h below.1)

  Below-push :
      (r : Record K) (item : Item K) (heap : List (Item K))
      → less order descending item.0 r ≡ false
      → Below r heap
      → Below r (push order descending item heap)
  unfolding push
  Below-push r (q, rest) [] h below = (h, tt)
  Below-push r (q, rest) ((p, more) ∷ heap) h below =
      elim (Bool-cases (less order descending p q)) [
        | inl under ↦ rw under (below.0, Below-push r (q, rest) heap h below.1)
        | inr over ↦ rw over (h, below)
      ]

  IsHeap-push :
      (r : Record K) (rest : List (Record K)) (heap : List (Item K))
      → IsLeast order descending r rest
      → IsSorted order descending rest
      → IsHeap heap
      → IsHeap (push order descending (r, rest) heap)
  unfolding push
  IsHeap-push r rest [] least sorted h = (least, sorted, tt, tt)
  IsHeap-push r rest ((q, more) ∷ heap) least sorted (least', sorted', below, h) =
      elim (Bool-cases (less order descending q r)) [
        | inl under ↦ rw under (
          least',
          sorted',
          Below-push q (r, rest) heap (less-asymmetric order descending q r under) below,
          IsHeap-push r rest heap least sorted h,
        )
        | inr over ↦
            rw over
              (least, sorted, (over, Below-weak r q heap over below), (least', sorted', below, h))
      ]

  IsHeap-push_next :
      (rs : List (Record K)) (heap : List (Item K))
      → IsSorted order descending rs
      → IsHeap heap
      → IsHeap (push_next order descending rs heap)
  unfolding push_next
  IsHeap-push_next [] heap sorted h = h
  IsHeap-push_next (r ∷ rest) heap sorted h = IsHeap-push r rest heap sorted.0 sorted.1 h

  -- Runs that are sorted, each of them.
  abbrev pub AllSorted : List (List (Record K)) → Type 0
  AllSorted [] = Unit
  AllSorted (run ∷ runs) = IsSorted order descending run × AllSorted runs

  IsHeap-open_all :
      (runs : List (List (Record K))) (heap : List (Item K))
      → AllSorted runs
      → IsHeap heap
      → IsHeap (open_all order descending runs heap)
  unfolding open_all
  IsHeap-open_all [] heap sorted h = h
  IsHeap-open_all (run ∷ runs) heap sorted h =
      IsHeap-open_all runs (push_next order descending run heap) sorted.1
        (IsHeap-push_next run heap sorted.0 h)

  -- No more than the records still to come.
  Below-push_next :
      (r : Record K) (rs : List (Record K)) (heap : List (Item K))
      → IsLeast order descending r rs
      → Below r heap
      → Below r (push_next order descending rs heap)
  unfolding push_next
  Below-push_next r [] heap least below = below
  Below-push_next r (q ∷ rest) heap least below = Below-push r (q, rest) heap least.0 below

  IsLeast-drain :
      (r : Record K) (n : ℕ) (heap : List (Item K))
      → Below r heap
      → IsHeap heap
      → IsLeast order descending r (drain order descending n heap)
  unfolding drain
  IsLeast-drain r zero heap below h = tt
  IsLeast-drain r (suc n) [] below h = tt
  IsLeast-drain r (suc n) ((q, rest) ∷ heap) below (least, sorted, below', h) = (
    below.0,
    IsLeast-drain r n (push_next order descending rest heap)
        (Below-push_next r rest heap (IsLeast-weak order descending r q rest below.0 least) below.1)
        (IsHeap-push_next rest heap sorted h),
  )

  IsSorted-drain :
      (n : ℕ) (heap : List (Item K))
      → IsHeap heap
      → IsSorted order descending (drain order descending n heap)
  unfolding drain
  IsSorted-drain zero heap h = tt
  IsSorted-drain (suc n) [] h = tt
  IsSorted-drain (suc n) ((r, rest) ∷ heap) (least, sorted, below, h) = (
    IsLeast-drain r n (push_next order descending rest heap)
        (Below-push_next r rest heap least below) (IsHeap-push_next rest heap sorted h),
    IsSorted-drain n (push_next order descending rest heap) (IsHeap-push_next rest heap sorted h),
  )

  pub IsSorted-merged :
      (n : ℕ) (runs : List (List (Record K)))
      → AllSorted runs
      → IsSorted order descending (drain order descending n (open_all order descending runs []))
  IsSorted-merged n runs sorted =
      IsSorted-drain n (open_all order descending runs []) (IsHeap-open_all runs [] sorted tt)

  pub tally-merged :
      (test : Record K → Bool) (n : ℕ) (runs : List (List (Record K)))
      → tally (λ r. true) (flat runs) ≤ n
      → tally test (drain order descending n (open_all order descending runs []))
        ≡ tally test (flat runs)
  unfolding remaining tally
  tally-merged test n runs h = omega (
    arith,
    tally-drain test n (open_all order descending runs [])
        (omega (arith, h, tally-open_all (λ r. true) runs [])),
    tally-open_all test runs [],
  )
