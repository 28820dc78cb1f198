-- ===== src/DatabaseSort/Grown.antt =====
-- The runs after `compact` and `add` of src/eng_platform_api/services/database_sort.py.
use gcp_engineering_platform.Base.{
  ℕ, zero, suc, ◌+◌, ◌<◌, Bool, true, false, List, ◌++◌, if◌then◌else◌, ◌≡◌, ap, ◌∙◌, arith,
  Bool-cases, inl, inr, leb, nat_eq,
}
use gcp_engineering_platform.Python.Raise.{Result, ok, ◌>>=◌, bind-ok}
use gcp_engineering_platform.DatabaseSort.Order.{KeyOrder, Record, sort}
use gcp_engineering_platform.DatabaseSort.Merge.{flat}
use gcp_engineering_platform.DatabaseSort.Sorted.{tally, All, tally-sort, IsSorted-sort}
use gcp_engineering_platform.DatabaseSort.Rows.{Table, size}
use gcp_engineering_platform.DatabaseSort.Runs.{
  Line, Storage, Run, Sorter, reserve, write, merge, compact, add, put_run, level_at, clear_level,
  rows_of, references, max_level, merge_fan_in,
}
use gcp_engineering_platform.DatabaseSort.Output.{flush}
use gcp_engineering_platform.DatabaseSort.Kept.{All-sort, on_line, IsMade, IsKept, stock}
use gcp_engineering_platform.DatabaseSort.Steps.{
  ok_injective, IsDurable, Same, reserve-Same, size-put_run, size-clear_level, All-put_run,
  All-level_at, All-clear_level, stock-put_run, stock-clear_level, merge-Merges, write-IsKept,
}

module _ {K R : Type 0} (st : Storage R) (t : Table K) (order : KeyOrder K) (descending : Bool)
    (durable : IsDurable st) where
  -- A run that holds as many lines of each kind as counted.
  pub record Replaces (n : ℕ) (run : Run R) (count : (Line → Bool) → ℕ) : Type 0 where
    pub kept : IsKept st t order descending n run
    pub all_lines : (test : Line → Bool) → tally test (st.read_run run.reference) ≡ count test

  pub compact-Replaces :
      (group : List (Run R)) (s s' : Sorter R) (run : Run R)
      → compact st t order descending group s ≡ ok (run, s')
      → All (IsKept st t order descending s.row_count) group
      → Replaces s.row_count run (λ test. stock st t order descending test group) × Same s s'
  unfolding compact
  compact-Replaces group s s' run h kept =
      let level = suc (max_level group) in
      let ended : Run R × Sorter R → Result (Run R × Sorter R) = λ v. ok (
        v.0,
        record v.1 {
          merge_passes = if leb v.1.merge_passes level then level else v.1.merge_passes;
          erased = v.1.erased ++ references group;
        },
      ) in
      let (v, merging, h1) =
        bind-ok (merge st t order descending group s)
          (λ v. write st t v.0 (rows_of group) level v.1 >>= ended) h in
      let (m, same) = merge-Merges st t order descending group s v.1 v.0 merging kept in
      let (w, writing, h2) = bind-ok (write st t v.0 (rows_of group) level v.1) ended h1 in
      let (held, held_lines, same') =
        write-IsKept st t order descending v.0 (rows_of group) level v.1 w.1 w.0 durable writing
          (rw same.rows m.all_made) m.in_order in
      let out : w.0 ≡ run = ap (λ x. x.0) (ok_injective h2) in
      let state = ap (λ x. x.1) (ok_injective h2) in
      (
        rw (← out) (record {
          kept = rw (← same.rows) held;
          all_lines = λ test. held_lines test ∙ m.all_lines test;
        }),
        rw (← state)
            (record { levels = same'.levels ∙ same.levels; rows = same'.rows ∙ same.rows }),
      )

  -- The runs of the later state hold the lines of the former, and more.
  pub record Grown (s s' : Sorter R) (more : (Line → Bool) → ℕ) : Type 0 where
    pub kept : All (IsKept st t order descending s'.row_count) (flat s'.levels)
    pub all_lines :
        (test : Line → Bool)
        → stock st t order descending test (flat s'.levels)
          ≡ more test + stock st t order descending test (flat s.levels)
    pub rows : s'.row_count ≡ s.row_count

  -- A unit of fuel for each run, and one more, is enough to add a run.
  add-Grown :
      (n : ℕ) (run : Run R) (s s' : Sorter R)
      → add st t order descending n run s ≡ ok s'
      → size (flat s.levels) < n
      → IsKept st t order descending s.row_count run
      → All (IsKept st t order descending s.row_count) (flat s.levels)
      → Grown s s' (λ test. tally test (st.read_run run.reference))
  unfolding add
  add-Grown zero run s s' h fuel held kept = absurd (omega (arith, fuel))
  add-Grown (suc n) run s s' h fuel held kept =
      let put = record s { levels = put_run run.level run s.levels } in
      let rest : Sorter R → Result (Sorter R) = λ x.
        elim (nat_eq (size (level_at run.level x.levels)) merge_fan_in) [
          | true ↦ compact st t order descending (level_at run.level x.levels) x >>= λ v.
              add st t order descending n v.0
                (record v.1 { levels = clear_level run.level v.1.levels })
          | false ↦ ok x
        ] in
      let (x, reserved, h1) = bind-ok (reserve st 0 put) rest h in
      let same = reserve-Same st 0 put x reserved in
      let kept1 : All (IsKept st t order descending x.row_count) (flat x.levels) =
        rw (same.levels, same.rows)
          (All-put_run (IsKept st t order descending s.row_count) run.level run s.levels held
            kept) in
      let stock1 = λ (test : Line → Bool).
        ap (λ l. stock st t order descending test (flat l)) same.levels
        ∙ stock-put_run st t order descending test run.level run s.levels in
      let size1 : size (flat x.levels) ≡ suc (size (flat s.levels)) =
        ap (λ l. size (flat l)) same.levels ∙ size-put_run run.level run s.levels in
      elim (Bool-cases (nat_eq (size (level_at run.level x.levels)) merge_fan_in)) [
        | inl full ↦
            let group = level_at run.level x.levels in
            let again : Run R × Sorter R → Result (Sorter R) = λ v.
              add st t order descending n v.0
                (record v.1 { levels = clear_level run.level v.1.levels }) in
            let (v, compacted, h2) =
              bind-ok (compact st t order descending group x) again (rw full at h1) in
            let (new, same') =
              compact-Replaces group x v.1 v.0 compacted (
                All-level_at (IsKept st t order descending x.row_count) run.level x.levels kept1) in
            let y = record v.1 { levels = clear_level run.level v.1.levels } in
            let sizes = size-clear_level run.level x.levels in
            let fewer : size (flat y.levels) < n =
              rw same'.levels (ground (arith, full, sizes, size1, fuel)) in
            let g = add-Grown n v.0 y s' h2 fewer (rw same'.rows new.kept) (
              rw (same'.levels, same'.rows)
                (All-clear_level (IsKept st t order descending x.row_count) run.level x.levels
                  kept1)) in
            record {
              kept = g.kept;
              all_lines = λ test. omega (
                arith,
                g.all_lines test,
                new.all_lines test,
                stock1 test,
                stock-clear_level st t order descending test run.level x.levels,
                ap (λ l. stock st t order descending test (flat (clear_level run.level l)))
                    same'.levels,
              );
              rows = g.rows ∙ same'.rows ∙ same.rows;
            }
        | inr room ↦
            let state = ok_injective (rw room at h1) in
            rw (← state) (record { kept = kept1; all_lines = stock1; rows = same.rows })
      ]

  pub flush-Grown :
      (pending : List (Record K)) (s s' : Sorter R)
      → flush st t order descending pending s ≡ ok s'
      → All (IsMade st t order descending s.row_count) pending
      → All (IsKept st t order descending s.row_count) (flat s.levels)
      → Grown s s' (λ test. tally (on_line test) pending)
  unfolding flush
  flush-Grown pending s s' h made kept =
      let sorted = sort order descending pending in
      let rest : Run R × Sorter R → Result (Sorter R) =
        λ v. add st t order descending (suc (size (flat v.1.levels))) v.0 v.1 in
      let (v, writing, h1) = bind-ok (write st t sorted (size pending) 0 s) rest h in
      let (held, held_lines, same) =
        write-IsKept st t order descending sorted (size pending) 0 s v.1 v.0 durable writing
          (All-sort order descending (IsMade st t order descending s.row_count) pending made)
          (IsSorted-sort order descending pending) in
      let g =
        add-Grown (suc (size (flat v.1.levels))) v.0 v.1 s' h1 (omega arith) (rw same.rows held)
          (rw (same.levels, same.rows) kept) in
      record {
        kept = g.kept;
        all_lines = λ test. omega (
          arith,
          g.all_lines test,
          held_lines test,
          tally-sort order descending (on_line test) pending,
          ap (λ l. stock st t order descending test (flat l)) same.levels,
        );
        rows = g.rows ∙ same.rows;
      }
