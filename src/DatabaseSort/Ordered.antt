-- ===== src/DatabaseSort/Ordered.antt =====
-- The output of `_sort_rows` of src/eng_platform_api/services/database_sort.py.
use gcp_engineering_platform.Base.{
  ℕ, zero, suc, ◌+◌, ◌≤◌, Bool, true, false, not, List, [], ◌∷◌, ◌++◌, ◌≡◌, refl, sym, ap, ◌∙◌,
  arith, Bool-cases, inl, inr, ltb,
}
use gcp_engineering_platform.Python.Value.{Value}
use gcp_engineering_platform.Python.Raise.{Result, ok, bind-ok}
use gcp_engineering_platform.DatabaseSort.Order.{KeyOrder, Record, IsSorted}
use gcp_engineering_platform.DatabaseSort.Merge.{flat}
use gcp_engineering_platform.DatabaseSort.Sorted.{tally, All, IsReordering}
use gcp_engineering_platform.DatabaseSort.Rows.{Table, row_record, size}
use gcp_engineering_platform.DatabaseSort.Runs.{
  Line, Storage, Run, Sorter, lines, compact, merge_fan_in,
}
use gcp_engineering_platform.DatabaseSort.Output.{
  Pending, Sorted, is_empty, first, after, flush, flush_if, shrink, last_merge,
}
use gcp_engineering_platform.DatabaseSort.Kept.{All-split, IsKept, IsKept-at, stock, stock-append}
use gcp_engineering_platform.DatabaseSort.Steps.{ok_injective, IsDurable, Merges, merge-Merges}
use gcp_engineering_platform.DatabaseSort.Grown.{compact-Replaces}
use gcp_engineering_platform.DatabaseSort.Delivered.{numbered}

-- The rows of records.
unfoldable pub rows : {K : Type 0} → List (Record K) → List (List Value)
rows [] = []
rows (r ∷ rs) = r.row ∷ rows rs

module _ {A : Type 0} where
  pub first-after : (n : ℕ) (xs : List A) → first n xs ++ after n xs ≡ xs
  unfolding first after
  first-after zero xs = refl
  first-after (suc n) [] = refl
  first-after (suc n) (x ∷ xs) = ap (λ l. x ∷ l) (first-after n xs)

  pub size-after : (n : ℕ) (xs : List A) → n ≤ size xs → size (after n xs) + n ≡ size xs
  unfolding after size
  size-after zero xs h = omega arith
  size-after (suc n) [] h = absurd (omega (arith, h))
  size-after (suc n) (x ∷ xs) h = omega (arith, size-after n xs (omega (arith, h)))

module _ {K R : Type 0} (t : Table K) (order : KeyOrder K) (descending : Bool) where
  -- What is delivered: the rows of sorted records, which are the captured rows with their ordinals.
  pub record Delivers (captured : List (List Value)) (out : Sorted R) : Type 0 where
    pub records : List (Record K)
    pub delivered : flat out.batches ≡ rows records
    pub in_order : IsSorted order descending records
    pub reordered : IsReordering (lines records) (numbered 0 captured)
    pub keys : All (λ r. row_record t r.row r.ordinal ≡ ok r) records

module _ {K R : Type 0} (st : Storage R) (t : Table K) (order : KeyOrder K) (descending : Bool)
    (durable : IsDurable st) where
  -- The runs of the last merge.
  pub record Shrunk (group group' : List (Run R)) (s s' : Sorter R) : Type 0 where
    pub kept : All (IsKept st t order descending s'.row_count) group'
    pub all_lines :
        (test : Line → Bool)
        → stock st t order descending test group' ≡ stock st t order descending test group
    pub rows_same : s'.row_count ≡ s.row_count
    pub few : size group' ≤ merge_fan_in

  -- A unit of fuel for each run is enough.
  pub shrink-Shrunk :
      (n : ℕ) (group group' : List (Run R)) (s s' : Sorter R)
      → shrink st t order descending n group s ≡ ok (group', s')
      → size group ≤ n
      → All (IsKept st t order descending s.row_count) group
      → Shrunk group group' s s'
  unfolding shrink stock size
  shrink-Shrunk zero group group' s s' h fuel kept =
      let same = ok_injective h in
      rw (← ap (λ x. x.0) same, ← ap (λ x. x.1) same)
        (record {
          kept = kept;
          all_lines = λ test. refl;
          rows_same = refl;
          few = omega (arith, fuel);
        })
  shrink-Shrunk (suc n) group group' s s' h fuel kept =
      elim (Bool-cases (ltb merge_fan_in (size group))) [
        | inl many ↦
            let head = first merge_fan_in group in
            let tail = after merge_fan_in group in
            let whole = first-after merge_fan_in group in
            let again : Run R × Sorter R → Result (List (Run R) × Sorter R) = λ v.
              shrink st t order descending n (v.0 ∷ tail)
                (record v.1 { levels = (v.0 ∷ tail) ∷ [] }) in
            let (v, compacted, h1) =
              bind-ok (compact st t order descending head s) again (rw (many, shrink) at h) in
            let (kept_head, kept_tail) =
              All-split (IsKept st t order descending s.row_count) head tail (rw whole kept) in
            let (new, same) =
              compact-Replaces st t order descending durable head s v.1 v.0 compacted kept_head in
            let sizes = size-after merge_fan_in group (ground (arith, many)) in
            let rest =
              shrink-Shrunk n (v.0 ∷ tail) group' (record v.1 { levels = (v.0 ∷ tail) ∷ [] }) s' h1
                (omega (arith, sizes, fuel))
                (IsKept-at st t order descending s.row_count v.1.row_count (v.0 ∷ tail) same.rows
                  (new.kept, kept_tail)) in
            record {
              kept = rest.kept;
              all_lines = λ test. omega (
                arith,
                rest.all_lines test,
                new.all_lines test,
                stock-append st t order descending test head tail,
                ap (stock st t order descending test) whole,
              );
              rows_same = rest.rows_same ∙ same.rows;
              few = rest.few;
            }
        | inr done ↦
            let same = ok_injective (rw (done, shrink) at h) in
            rw (← ap (λ x. x.0) same, ← ap (λ x. x.1) same)
              (record {
                kept = kept;
                all_lines = λ test. refl;
                rows_same = refl;
                few = ground (arith, done);
              })
      ]

  -- The records of the last merge.
  pub last_merge-Merges :
      (group : List (Run R)) (s s' : Sorter R) (merged : List (Record K))
      → last_merge st t order descending group s ≡ ok (merged, s')
      → All (IsKept st t order descending s.row_count) group
      → Merges st t order descending s.row_count group merged
  unfolding last_merge stock tally
  last_merge-Merges [] s s' merged h kept =
      rw (← ap (λ x. x.0) (ok_injective h))
        (record { in_order = tt; all_made = tt; all_lines = λ test. refl })
  last_merge-Merges (run ∷ runs) s s' merged h kept =
      (merge-Merges st t order descending (run ∷ runs) s s' merged h kept).0

  pub is_empty-none : (pending : List (Record K)) → not (is_empty pending) ≡ false → pending ≡ []
  is_empty-none [] h = refl
  is_empty-none (r ∷ rs) h = cc

  pub flushed-empty :
      (flushes : Bool) (p q : Pending K R)
      → (flushes ≡ false → p.pending ≡ [])
      → flush_if st t order descending flushes p ≡ ok q
      → q.pending ≡ []
  unfolding flush_if
  flushed-empty false p q none_left h = ap (λ x. x.pending) (sym (ok_injective h)) ∙ none_left refl
  flushed-empty true p q none_left h =
      let ended : Sorter R → Result (Pending K R) =
        λ s. ok (record { pending = []; pending_cost = 0; sorter = s }) in
      let (s, _, h1) = bind-ok (flush st t order descending p.pending p.sorter) ended h in
      ap (λ x. x.pending) (sym (ok_injective h1))
