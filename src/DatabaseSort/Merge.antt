-- ===== src/DatabaseSort/Merge.antt =====
-- The merge of sorted runs with a heap: `merge` of `_sort_rows` in
-- src/eng_platform_api/services/database_sort.py.
use gcp_engineering_platform.Base.{ℕ, zero, suc, Bool, List, [], ◌∷◌, ◌++◌, if◌then◌else◌}
use gcp_engineering_platform.DatabaseSort.Order.{KeyOrder, Record, less}

-- An item of the heap: the record of an iterator, and what that iterator still yields.
abbrev pub Item : Type 0 → Type 0
Item K = Record K × List (Record K)

-- The records of a heap, those not read yet included.
unfoldable pub remaining : {K : Type 0} → List (Item K) → List (Record K)
remaining [] = []
remaining ((r, rest) ∷ heap) = r ∷ rest ++ remaining heap

-- The elements of lists, one list after the other.
unfoldable pub flat : {A : Type 0} → List (List A) → List A
flat [] = []
flat (xs ∷ xss) = xs ++ flat xss

module _ {K : Type 0} (order : KeyOrder K) (descending : Bool) where
  -- `heapq.heappush`, on a heap whose items stand in order: no use of it sees more than its least.
  unfoldable pub push : Item K → List (Item K) → List (Item K)
  push item [] = item ∷ []
  push item (other ∷ heap) =
      let rest = push item heap in
      if less order descending other.0 item.0 then other ∷ rest else item ∷ other ∷ heap

  -- `next(iterator, None)`, pushed where it is a record.
  unfoldable pub push_next : List (Record K) → List (Item K) → List (Item K)
  unfolding push
  push_next [] heap = heap
  push_next (r ∷ rest) heap = push (r, rest) heap

  -- The heap with the first record of each iterator.
  unfoldable pub open_all : List (List (Record K)) → List (Item K) → List (Item K)
  unfolding push_next
  open_all [] heap = heap
  open_all (run ∷ runs) heap = open_all runs (push_next run heap)

  -- The loop over the heap, with a unit of fuel for each record.
  unfoldable pub drain : ℕ → List (Item K) → List (Record K)
  unfolding push_next
  drain zero heap = []
  drain (suc n) [] = []
  drain (suc n) ((r, rest) ∷ heap) = r ∷ drain n (push_next rest heap)
