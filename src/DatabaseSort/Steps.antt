-- ===== src/DatabaseSort/Steps.antt =====
-- `reserve`, `write`, `merge` and the levels of src/eng_platform_api/services/database_sort.py.
use gcp_engineering_platform.Base.{
  ℕ, zero, suc, ◌+◌, Bool, not, ◌||◌, List, [], ◌∷◌, ◌++◌, ◌≡◌, refl, sym, ap, ◌∙◌, arith, ltb,
  nat_eq,
}
use gcp_engineering_platform.Python.Raise.{
  Result, ok, ◌>>=◌, bind-ok, passes, resource_exceeded, unavailable,
}
use gcp_engineering_platform.DatabaseSort.Order.{KeyOrder, Record, IsSorted}
use gcp_engineering_platform.DatabaseSort.Merge.{flat, open_all, drain}
use gcp_engineering_platform.DatabaseSort.Sorted.{tally, All}
use gcp_engineering_platform.DatabaseSort.Merged.{IsSorted-merged, tally-merged}
use gcp_engineering_platform.DatabaseSort.Rows.{Table, size}
use gcp_engineering_platform.DatabaseSort.Runs.{
  Line, Storage, Run, Sorter, lines, reserve, write, merge, put_run, level_at, clear_level,
  all_records, merge_fan_in, merge_memory,
}
use gcp_engineering_platform.DatabaseSort.Kept.{
  All-append, All-split, All-merged, size-tally, size-append, on_line, tally-lines, IsMade, IsKept,
  stock, stock-append, runs-Found,
}

pub ok_injective : {A : Type 0} {a b : A} → ok a ≡ ok b → a ≡ b
ok_injective h = cc

-- What is written to the storage is read back, whatever is written or deleted later.
abbrev pub IsDurable : {R : Type 0} → Storage R → Type 0
IsDurable st = (n : ℕ) (ls : List Line) → st.read_run (st.write_run n ls) ≡ ls

-- A step that leaves the levels and the number of rows.
pub record Same {R : Type 0} (s s' : Sorter R) : Type 0 where
  pub levels : s'.levels ≡ s.levels
  pub rows : s'.row_count ≡ s.row_count

pub reserve-Same :
    {R : Type 0} (st : Storage R) (n : ℕ) (s s' : Sorter R) → reserve st n s ≡ ok s' → Same s s'
unfolding reserve
reserve-Same st n s s' h =
    let (_, done) = passes _ _ _ h in
    let same = ok_injective done in
    record { levels = sym (ap (λ x. x.levels) same); rows = sym (ap (λ x. x.row_count) same) }

module _ {R : Type 0} where
  pub size-put_run :
      (n : ℕ) (run : Run R) (levels : List (List (Run R)))
      → size (flat (put_run n run levels)) ≡ suc (size (flat levels))
  unfolding put_run flat size
  size-put_run zero run [] = refl
  size-put_run zero run (level ∷ levels) = omega (
    arith,
    size-append (level ++ run ∷ []) (flat levels),
    size-append level (run ∷ []),
    size-append level (flat levels),
  )
  size-put_run (suc n) run [] = size-put_run n run []
  size-put_run (suc n) run (level ∷ levels) = omega (
    arith,
    size-append level (flat (put_run n run levels)),
    size-append level (flat levels),
    size-put_run n run levels,
  )

  pub size-clear_level :
      (n : ℕ) (levels : List (List (Run R)))
      → size (flat (clear_level n levels)) + size (level_at n levels) ≡ size (flat levels)
  unfolding clear_level level_at flat size
  size-clear_level zero [] = refl
  size-clear_level (suc n) [] = refl
  size-clear_level zero (level ∷ levels) = omega (arith, size-append level (flat levels))
  size-clear_level (suc n) (level ∷ levels) = omega (
    arith,
    size-append level (flat (clear_level n levels)),
    size-append level (flat levels),
    size-clear_level n levels,
  )

  module _ (P : Run R → Type 0) where
    pub All-put_run :
        (n : ℕ) (run : Run R) (levels : List (List (Run R)))
        → P run
        → All P (flat levels)
        → All P (flat (put_run n run levels))
    unfolding put_run flat
    All-put_run zero run [] p h = (p, tt)
    All-put_run zero run (level ∷ levels) p h =
        let (here, there) = All-split P level (flat levels) h in
        All-append P (level ++ run ∷ []) (flat levels) (All-append P level (run ∷ []) here (p, tt))
          there
    All-put_run (suc n) run [] p h = All-put_run n run [] p h
    All-put_run (suc n) run (level ∷ levels) p h =
        let (here, there) = All-split P level (flat levels) h in
        All-append P level (flat (put_run n run levels)) here (All-put_run n run levels p there)

    pub All-level_at :
        (n : ℕ) (levels : List (List (Run R))) → All P (flat levels) → All P (level_at n levels)
    unfolding level_at flat
    All-level_at zero [] h = tt
    All-level_at (suc n) [] h = tt
    All-level_at zero (level ∷ levels) h = (All-split P level (flat levels) h).0
    All-level_at (suc n) (level ∷ levels) h =
        All-level_at n levels (All-split P level (flat levels) h).1

    pub All-clear_level :
        (n : ℕ) (levels : List (List (Run R)))
        → All P (flat levels)
        → All P (flat (clear_level n levels))
    unfolding clear_level flat
    All-clear_level zero [] h = tt
    All-clear_level (suc n) [] h = tt
    All-clear_level zero (level ∷ levels) h = (All-split P level (flat levels) h).1
    All-clear_level (suc n) (level ∷ levels) h =
        let (here, there) = All-split P level (flat levels) h in
        All-append P level (flat (clear_level n levels)) here (All-clear_level n levels there)

module _ {K R : Type 0} (st : Storage R) (t : Table K) (order : KeyOrder K)
    (descending : Bool) where
  pub stock-put_run :
      (test : Line → Bool) (n : ℕ) (run : Run R) (levels : List (List (Run R)))
      → stock st t order descending test (flat (put_run n run levels))
        ≡ tally test (st.read_run run.reference) + stock st t order descending test (flat levels)
  unfolding put_run flat stock
  stock-put_run test zero run [] = refl
  stock-put_run test zero run (level ∷ levels) = omega (
    arith,
    stock-append st t order descending test (level ++ run ∷ []) (flat levels),
    stock-append st t order descending test level (run ∷ []),
    stock-append st t order descending test level (flat levels),
  )
  stock-put_run test (suc n) run [] = stock-put_run test n run []
  stock-put_run test (suc n) run (level ∷ levels) = omega (
    arith,
    stock-append st t order descending test level (flat (put_run n run levels)),
    stock-append st t order descending test level (flat levels),
    stock-put_run test n run levels,
  )

  pub stock-clear_level :
      (test : Line → Bool) (n : ℕ) (levels : List (List (Run R)))
      → stock st t order descending test (flat (clear_level n levels))
          + stock st t order descending test (level_at n levels)
        ≡ stock st t order descending test (flat levels)
  unfolding clear_level level_at flat stock
  stock-clear_level test zero [] = refl
  stock-clear_level test (suc n) [] = refl
  stock-clear_level test zero (level ∷ levels) =
      omega (arith, stock-append st t order descending test level (flat levels))
  stock-clear_level test (suc n) (level ∷ levels) = omega (
    arith,
    stock-append st t order descending test level (flat (clear_level n levels)),
    stock-append st t order descending test level (flat levels),
    stock-clear_level test n levels,
  )

  -- A list of records that holds the lines of runs, in order.
  pub record Merges (n : ℕ) (group : List (Run R)) (merged : List (Record K)) : Type 0 where
    pub in_order : IsSorted order descending merged
    pub all_made : All (IsMade st t order descending n) merged
    pub all_lines :
        (test : Line → Bool) → tally (on_line test) merged ≡ stock st t order descending test group

  pub merge-Merges :
      (group : List (Run R)) (s s' : Sorter R) (merged : List (Record K))
      → merge st t order descending group s ≡ ok (merged, s')
      → All (IsKept st t order descending s.row_count) group
      → Merges s.row_count group merged × Same s s'
  unfolding merge
  merge-Merges group s s' merged h kept =
      let after : Sorter R → Result (List (Record K) × Sorter R) = λ x.
        all_records st t group x.row_count >>= λ found.
        ok (drain order descending (size (flat found)) (open_all order descending found []), x) in
      let (_, h1) =
        passes (ltb (size group) 1 || ltb merge_fan_in (size group))
          (resource_exceeded "Database sort merge budget exceeded")
          (reserve st (merge_memory (size group)) s >>= after) h in
      let (s1, reserved, h2) = bind-ok (reserve st (merge_memory (size group)) s) after h1 in
      let same = reserve-Same st (merge_memory (size group)) s s1 reserved in
      let found = runs-Found st t order descending s.row_count group kept in
      let h3 = rw (same.rows, found.read) at h2 in
      let out = ap (λ v. v.0) (ok_injective h3) in
      let state = ap (λ v. v.1) (ok_injective h3) in
      (
        rw (← out) (record {
          in_order =
              IsSorted-merged order descending (size (flat found.founds)) found.founds
                found.all_sorted;
          all_made =
              All-merged order descending (IsMade st t order descending s.row_count)
                (size (flat found.founds)) found.founds found.all_made;
          all_lines = λ test.
              tally-merged order descending (on_line test) (size (flat found.founds)) found.founds
                (omega (arith, size-tally (flat found.founds)))
              ∙ found.all_lines test;
        }),
        rw (← state) same,
      )

  pub write-IsKept :
      (rs : List (Record K)) (count level : ℕ) (s s' : Sorter R) (run : Run R)
      → IsDurable st
      → write st t rs count level s ≡ ok (run, s')
      → All (IsMade st t order descending s.row_count) rs
      → IsSorted order descending rs
      → IsKept st t order descending s.row_count run
        × ((test : Line → Bool) → tally test (st.read_run run.reference) ≡ tally (on_line test) rs)
        × Same s s'
  unfolding write
  write-IsKept rs count level s s' run durable h made sorted =
      let made_run : Run R = record {
        reference = st.write_run s.run_count (lines rs);
        row_count = count;
        level = level;
      } in
      let (counted, h1) =
        passes (not (nat_eq (size rs) count)) (unavailable "Invalid database sort run")
          (ok (made_run, record s { run_count = suc s.run_count })) h in
      let out : made_run ≡ run = ap (λ v. v.0) (ok_injective h1) in
      let state : record s { run_count = suc s.run_count } ≡ s' = ap (λ v. v.1) (ok_injective h1) in
      let content = durable s.run_count (lines rs) in
      (
        rw (← out) (record {
          found = rs;
          content = content;
          count = ground (arith, counted);
          made = made;
          sorted = sorted;
        }),
        rw (← out) (λ test. ap (tally test) content ∙ tally-lines test rs),
        rw (← state) (record { levels = refl; rows = refl }),
      )
