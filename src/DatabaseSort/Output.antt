-- ===== src/DatabaseSort/Output.antt =====
-- The whole sort: the loop over the captured rows, the last merge and its batches in `_sort_rows` of
-- src/eng_platform_api/services/database_sort.py.
use gcp_engineering_platform.Base.{
  ℕ, zero, suc, ◌+◌, ◌*◌, Bool, true, false, ◌&&◌, not, List, [], ◌∷◌, ◌++◌, ltb, nat_eq,
  if◌then◌else◌,
}
use gcp_engineering_platform.Python.Value.{Value}
use gcp_engineering_platform.Python.Raise.{Result, ok, ◌>>=◌, ◌>>◌, raise_if, unavailable}
use gcp_engineering_platform.DatabaseSort.Order.{KeyOrder, Record, sort}
use gcp_engineering_platform.DatabaseSort.Merge.{flat}
use gcp_engineering_platform.DatabaseSort.Rows.{Table, row_record, size}
use gcp_engineering_platform.DatabaseSort.Runs.{
  Storage, Run, Sorter, batch_rows, merge_fan_in, reserve, references, write, merge, compact, add,
}

-- `RUN_MEMORY_BYTES`
abbrev pub run_memory_bytes : ℕ
run_memory_bytes = 8 * 1048576

-- `pending` and `pending_cost`, beside the rest of the state.
pub record Pending (K R : Type 0) : Type 0 where
  pub pending : List (Record K)
  pub pending_cost : ℕ
  pub sorter : Sorter R

-- The batches given to `on_rows`, and the state at the end.
pub record Sorted (R : Type 0) : Type 0 where
  pub batches : List (List (List Value))
  pub final : Sorter R

abbrev pub is_empty : {A : Type 0} → List A → Bool
is_empty [] = true
is_empty (x ∷ xs) = false

-- `group[:n]` and `group[n:]`
module _ {A : Type 0} where
  unfoldable pub first : ℕ → List A → List A
  first zero xs = []
  first (suc n) [] = []
  first (suc n) (x ∷ xs) = x ∷ first n xs

  unfoldable pub after : ℕ → List A → List A
  after zero xs = xs
  after (suc n) [] = []
  after (suc n) (x ∷ xs) = after n xs

-- The rows of records, in batches: the current batch is given first.
unfoldable pub batches_of :
    {K : Type 0} → List (List Value) → List (Record K) → List (List (List Value))
batches_of batch [] = if is_empty batch then [] else batch ∷ []
batches_of batch (r ∷ rs) =
    let full = batches_of [] rs in
    let more = batches_of (batch ++ r.row ∷ []) rs in
    if nat_eq (suc (size batch)) batch_rows then (batch ++ r.row ∷ []) ∷ full else more

-- The state before the first row.
unfoldable pub start : {R : Type 0} → Sorter R
start = record {
  levels = [];
  run_count = 0;
  merge_passes = 0;
  memory_peak = 0;
  row_count = 0;
  byte_count = 0;
  erased = [];
}

module _ {K R : Type 0} (st : Storage R) (t : Table K) (order : KeyOrder K)
    (descending : Bool) where
  -- `pending` is sorted, written as a run of level 0 and added. Fuel for each run is enough.
  unfoldable pub flush : List (Record K) → Sorter R → Result (Sorter R)
  unfolding write add sort
  flush pending s = do
    (run, s') ← write st t (sort order descending pending) (size pending) 0 s
    add st t order descending (suc (size (flat s'.levels))) run s'

  unfoldable pub flush_if : Bool → Pending K R → Result (Pending K R)
  unfolding flush
  flush_if false p = ok p
  flush_if true p = do
    s ← flush p.pending p.sorter
    ok (record { pending = []; pending_cost = 0; sorter = s })

  -- One round of the loop over the rows.
  unfoldable pub absorb : List Value → Pending K R → Result (Pending K R)
  unfolding flush_if reserve row_record
  absorb row p = do
    r ← row_record t row p.sorter.row_count
    let counted = record p.sorter {
      row_count = suc p.sorter.row_count;
      byte_count = p.sorter.byte_count + (t.row_size row + 1);
    }
    q ←
        flush_if (not (is_empty p.pending) && ltb run_memory_bytes (p.pending_cost + r.cost))
          (record p { sorter = counted })
    s ← reserve st (q.pending_cost + r.cost) q.sorter
    ok (record {
      pending = q.pending ++ r ∷ [];
      pending_cost = q.pending_cost + r.cost;
      sorter = s;
    })

  unfoldable pub absorb_all : List (List Value) → Pending K R → Result (Pending K R)
  unfolding absorb
  absorb_all [] p = ok p
  absorb_all (row ∷ rows) p = absorb row p >>= λ q. absorb_all rows q

  -- `while len(group) > MERGE_FAN_IN`, with a unit of fuel for each run.
  unfoldable pub shrink : ℕ → List (Run R) → Sorter R → Result (List (Run R) × Sorter R)
  unfolding compact first after
  shrink zero group s = ok (group, s)
  shrink (suc n) group s = elim (ltb merge_fan_in (size group)) [
    | true ↦ compact st t order descending (first merge_fan_in group) s >>= λ v.
        shrink n (v.0 ∷ after merge_fan_in group)
          (record v.1 { levels = (v.0 ∷ after merge_fan_in group) ∷ [] })
    | false ↦ ok (group, s)
  ]

  unfoldable pub last_merge : List (Run R) → Sorter R → Result (List (Record K) × Sorter R)
  unfolding merge
  last_merge [] s = ok ([], s)
  last_merge (run ∷ runs) s = merge st t order descending (run ∷ runs) s

  -- What follows the loop over the rows.
  unfoldable pub finish : Pending K R → Result (Sorted R)
  unfolding flush_if shrink last_merge batches_of references
  finish p = do
    q ← flush_if (not (is_empty p.pending)) p
    (group, s) ← shrink (size (flat q.sorter.levels)) (flat q.sorter.levels) q.sorter
    (merged, s') ← last_merge group s
    raise_if (not (nat_eq (size merged) s'.row_count))
        (unavailable "Invalid database sort output count")
    ok (record {
      batches = batches_of [] merged;
      final = record s' { erased = s'.erased ++ references group };
    })

  -- `_sort_rows`, after its specification was checked.
  unfoldable pub sort_rows : List (List Value) → Result (Sorted R)
  unfolding absorb_all finish start
  sort_rows rows =
      absorb_all rows (record { pending = []; pending_cost = 0; sorter = start }) >>= λ p. finish p
