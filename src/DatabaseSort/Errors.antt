-- ===== src/DatabaseSort/Errors.antt =====
-- How the parts of `_sort_rows` in src/eng_platform_api/services/database_sort.py may fail.
use gcp_engineering_platform.Base.{
  ℕ, zero, suc, ◌+◌, ◌≤◌, Bool, true, false, not, ◌||◌, List, [], ◌∷◌, ◌++◌, if◌then◌else◌, ◌≡◌,
  ◌⊎◌, refl, sym, ap, ◌∙◌, arith, Bool-cases, inl, inr, leb, ltb, nat_eq,
}
use gcp_engineering_platform.Python.Raise.{Error, Result, ok, raise, ◌>>=◌, resource_exceeded}
use gcp_engineering_platform.DatabaseSort.Order.{KeyOrder, Record, sort}
use gcp_engineering_platform.DatabaseSort.Merge.{flat, open_all, drain}
use gcp_engineering_platform.DatabaseSort.Sorted.{tally, All, tally-sort, IsSorted-sort}
use gcp_engineering_platform.DatabaseSort.Rows.{Table, size}
use gcp_engineering_platform.DatabaseSort.Runs.{
  Storage, Run, Sorter, lines, reserve, metadata, memory_bytes, merge, merge_memory, write, compact,
  add, merge_fan_in, references, rows_of, max_level, put_run, level_at, clear_level, all_records,
}
use gcp_engineering_platform.DatabaseSort.Output.{
  Pending, first, after, flush, flush_if, shrink, last_merge,
}
use gcp_engineering_platform.DatabaseSort.Kept.{
  All-split, All-sort, IsMade, IsKept, IsKept-at, stock, tally-lines, size-tally, runs-Found,
}
use gcp_engineering_platform.DatabaseSort.Steps.{
  IsDurable, reserve-Same, merge-Merges, write-IsKept, All-put_run, All-level_at, All-clear_level,
}
use gcp_engineering_platform.DatabaseSort.Grown.{compact-Replaces}
use gcp_engineering_platform.DatabaseSort.Ordered.{first-after}

-- The error of `reserve`.
abbrev pub memory_error : Error
memory_error = resource_exceeded "Database sort memory budget exceeded"

-- A call ends with a result, or raises an error of a kind.
abbrev pub Ends : {A : Type 0} → (Error → Type 0) → Result A → Type 0
Ends {A = A} allowed m = ((a : A) × (m ≡ ok a)) ⊎ ((e : Error) × allowed e × (m ≡ raise e))

pub result_cases :
    {A : Type 0} {allowed : Error → Type 0} (m : Result A)
    → ((e : Error) → m ≡ raise e → allowed e)
    → Ends allowed m
result_cases (ok a) fine = inl (a, refl)
result_cases (raise e) fine = inr (e, fine e refl, refl)

pub Ends-bind :
    {A B : Type 0} (allowed : Error → Type 0) (m : Result A) (k : A → Result B)
    → Ends allowed m
    → ((a : A) → m ≡ ok a → Ends allowed (k a))
    → Ends allowed (m >>= k)
Ends-bind allowed m k (inl (a, h)) f = rw h (f a h)
Ends-bind allowed m k (inr (e, fine, h)) f = inr (e, fine, rw h refl)

size-first : {A : Type 0} (n : ℕ) (xs : List A) → n ≤ size xs → size (first n xs) ≡ n
unfolding first size
size-first zero xs h = refl
size-first (suc n) [] h = absurd (omega (arith, h))
size-first (suc n) (x ∷ xs) h = omega (arith, size-first n xs (omega (arith, h)))

module _ {R : Type 0} (st : Storage R) where
  pub reserve-Ends :
      (allowed : Error → Type 0) (n : ℕ) (s : Sorter R)
      → allowed memory_error
      → Ends allowed (reserve st n s)
  unfolding reserve
  reserve-Ends allowed n s memory =
      elim (Bool-cases (ltb memory_bytes (n + metadata st (flat s.levels)))) [
        | inl over ↦ rw over (inr (memory_error, memory, refl))
        | inr within ↦ rw within (
            inl (
              record s {
                memory_peak =
                    if leb s.memory_peak (n + metadata st (flat s.levels))
                    then n + metadata st (flat s.levels)
                    else s.memory_peak;
              },
              refl,
            ))
      ]

module _ {K R : Type 0} (st : Storage R) (t : Table K) (order : KeyOrder K) (descending : Bool)
    (durable : IsDurable st) (allowed : Error → Type 0) (memory : allowed memory_error) where
  stock-rows_of :
      (n : ℕ) (runs : List (Run R))
      → All (IsKept st t order descending n) runs
      → stock st t order descending (λ line. true) runs ≡ rows_of runs
  unfolding stock rows_of
  stock-rows_of n [] kept = refl
  stock-rows_of n (run ∷ runs) (kept, more) = omega (
    arith,
    stock-rows_of n runs more,
    ap (tally (λ line. true)) kept.content,
    tally-lines (λ line. true) kept.found,
    size-tally kept.found,
    kept.count,
  )

  merge-Ends :
      (group : List (Run R)) (s : Sorter R)
      → 1 ≤ size group
      → size group ≤ merge_fan_in
      → All (IsKept st t order descending s.row_count) group
      → Ends allowed (merge st t order descending group s)
  unfolding merge
  merge-Ends group s some_runs few kept =
      let rest : Sorter R → Result (List (Record K) × Sorter R) = λ x.
        all_records st t group x.row_count >>= λ found.
        ok (drain order descending (size (flat found)) (open_all order descending found []), x) in
      let within : (ltb (size group) 1 || ltb merge_fan_in (size group)) ≡ false =
        ground (arith, some_runs, few) in
      rw within (
        Ends-bind allowed (reserve st (merge_memory (size group)) s) rest
          (reserve-Ends st allowed (merge_memory (size group)) s memory)
          (λ x reserved.
            let same = reserve-Same st (merge_memory (size group)) s x reserved in
            let found =
              runs-Found st t order descending x.row_count group
                (IsKept-at st t order descending s.row_count x.row_count group same.rows kept) in
            rw found.read (
              inl (
                (
                  drain order descending (size (flat found.founds))
                      (open_all order descending found.founds []),
                  x,
                ),
                refl,
              ))))

  write-ok :
      (rs : List (Record K)) (count level : ℕ) (s : Sorter R)
      → size rs ≡ count
      → Ends allowed (write st t rs count level s)
  unfolding write
  write-ok rs count level s same =
      let exact : not (nat_eq (size rs) count) ≡ false = ground (arith, same) in
      rw exact (
        inl (
          (
            record {
              reference = st.write_run s.run_count (lines rs);
              row_count = count;
              level = level;
            },
            record s { run_count = suc s.run_count },
          ),
          refl,
        ))

  compact-Ends :
      (group : List (Run R)) (s : Sorter R)
      → 1 ≤ size group
      → size group ≤ merge_fan_in
      → All (IsKept st t order descending s.row_count) group
      → Ends allowed (compact st t order descending group s)
  unfolding compact
  compact-Ends group s some_runs few kept =
      let level = suc (max_level group) in
      let ended : Run R × Sorter R → Result (Run R × Sorter R) = λ v. ok (
        v.0,
        record v.1 {
          merge_passes = if leb v.1.merge_passes level then level else v.1.merge_passes;
          erased = v.1.erased ++ references group;
        },
      ) in
      Ends-bind allowed (merge st t order descending group s)
        (λ v. write st t v.0 (rows_of group) level v.1 >>= ended)
        (merge-Ends group s some_runs few kept)
        (λ v merging.
          let (m, _) = merge-Merges st t order descending group s v.1 v.0 merging kept in
          let counted : size v.0 ≡ rows_of group =
            size-tally v.0 ∙ m.all_lines (λ line. true) ∙ stock-rows_of s.row_count group kept in
          Ends-bind allowed (write st t v.0 (rows_of group) level v.1) ended
            (write-ok v.0 (rows_of group) level v.1 counted) (λ w writing. inl (_, refl)))

  add-Ends :
      (n : ℕ) (run : Run R) (s : Sorter R)
      → IsKept st t order descending s.row_count run
      → All (IsKept st t order descending s.row_count) (flat s.levels)
      → Ends allowed (add st t order descending n run s)
  unfolding add
  add-Ends zero run s held kept = inl (s, refl)
  add-Ends (suc n) run s held kept =
      let put = record s { levels = put_run run.level run s.levels } in
      let again : Run R × Sorter R → Result (Sorter R) = λ v.
        add st t order descending n v.0
          (record v.1 { levels = clear_level run.level v.1.levels }) in
      let rest : Sorter R → Result (Sorter R) = λ x.
        elim (nat_eq (size (level_at run.level x.levels)) merge_fan_in) [
          | true ↦ compact st t order descending (level_at run.level x.levels) x >>= again
          | false ↦ ok x
        ] in
      Ends-bind allowed (reserve st 0 put) rest (reserve-Ends st allowed 0 put memory)
        (λ x reserved.
          let same = reserve-Same st 0 put x reserved in
          let kept1 : All (IsKept st t order descending x.row_count) (flat x.levels) =
            rw (same.levels, same.rows)
              (All-put_run (IsKept st t order descending s.row_count) run.level run s.levels held
                kept) in
          let group = level_at run.level x.levels in
          let kept2 =
            All-level_at (IsKept st t order descending x.row_count) run.level x.levels kept1 in
          elim (Bool-cases (nat_eq (size (level_at run.level x.levels)) merge_fan_in)) [
            | inl full ↦ rw full (
                Ends-bind allowed (compact st t order descending group x) again
                  (compact-Ends group x (ground (arith, full)) (ground (arith, full)) kept2)
                  (λ v compacted.
                    let (new, same') =
                      compact-Replaces st t order descending durable group x v.1 v.0 compacted
                        kept2 in
                    add-Ends n v.0 (record v.1 { levels = clear_level run.level v.1.levels })
                      (rw same'.rows new.kept)
                      (rw (same'.levels, same'.rows)
                        (All-clear_level (IsKept st t order descending x.row_count) run.level
                          x.levels kept1))))
            | inr room ↦ rw room (inl (x, refl))
          ])

  size-sort : (rs : List (Record K)) → size (sort order descending rs) ≡ size rs
  size-sort rs =
      size-tally (sort order descending rs)
      ∙ tally-sort order descending (λ r. true) rs
      ∙ sym (size-tally rs)

  flush-Ends :
      (pending : List (Record K)) (s : Sorter R)
      → All (IsMade st t order descending s.row_count) pending
      → All (IsKept st t order descending s.row_count) (flat s.levels)
      → Ends allowed (flush st t order descending pending s)
  unfolding flush
  flush-Ends pending s made kept =
      let sorted = sort order descending pending in
      let rest : Run R × Sorter R → Result (Sorter R) =
        λ v. add st t order descending (suc (size (flat v.1.levels))) v.0 v.1 in
      Ends-bind allowed (write st t sorted (size pending) 0 s) rest
        (write-ok sorted (size pending) 0 s (size-sort pending))
        (λ v writing.
          let (held, _, same) =
            write-IsKept st t order descending sorted (size pending) 0 s v.1 v.0 durable writing
              (All-sort order descending (IsMade st t order descending s.row_count) pending made)
              (IsSorted-sort order descending pending) in
          add-Ends (suc (size (flat v.1.levels))) v.0 v.1 (rw same.rows held)
            (rw (same.levels, same.rows) kept))

  pub flush_if-Ends :
      (flushes : Bool) (p : Pending K R)
      → All (IsMade st t order descending p.sorter.row_count) p.pending
      → All (IsKept st t order descending p.sorter.row_count) (flat p.sorter.levels)
      → Ends allowed (flush_if st t order descending flushes p)
  unfolding flush_if
  flush_if-Ends false p made kept = inl (p, refl)
  flush_if-Ends true p made kept =
      Ends-bind allowed (flush st t order descending p.pending p.sorter)
        (λ s. ok (record { pending = []; pending_cost = 0; sorter = s }))
        (flush-Ends p.pending p.sorter made kept) (λ s flushed. inl (_, refl))

  pub shrink-Ends :
      (n : ℕ) (group : List (Run R)) (s : Sorter R)
      → All (IsKept st t order descending s.row_count) group
      → Ends allowed (shrink st t order descending n group s)
  unfolding shrink
  shrink-Ends zero group s kept = inl ((group, s), refl)
  shrink-Ends (suc n) group s kept = elim (Bool-cases (ltb merge_fan_in (size group))) [
    | inl many ↦
        let head = first merge_fan_in group in
        let tail = after merge_fan_in group in
        let again : Run R × Sorter R → Result (List (Run R) × Sorter R) = λ v.
          shrink st t order descending n (v.0 ∷ tail) (record v.1 { levels = (v.0 ∷ tail) ∷ [] }) in
        let eight : size head ≡ merge_fan_in =
          size-first merge_fan_in group (ground (arith, many)) in
        let (kept_head, kept_tail) =
          All-split (IsKept st t order descending s.row_count) head tail
            (rw (first-after merge_fan_in group) kept) in
        rw (many, shrink)
          (Ends-bind allowed (compact st t order descending head s) again
            (compact-Ends head s (omega (arith, eight)) (omega (arith, eight)) kept_head)
            (λ v compacted.
              let (new, same) =
                compact-Replaces st t order descending durable head s v.1 v.0 compacted kept_head in
              shrink-Ends n (v.0 ∷ tail) (record v.1 { levels = (v.0 ∷ tail) ∷ [] })
                (IsKept-at st t order descending s.row_count v.1.row_count (v.0 ∷ tail) same.rows
                  (new.kept, kept_tail))))
    | inr done ↦ rw (done, shrink) (inl ((group, s), refl))
  ]

  pub last_merge-Ends :
      (group : List (Run R)) (s : Sorter R)
      → size group ≤ merge_fan_in
      → All (IsKept st t order descending s.row_count) group
      → Ends allowed (last_merge st t order descending group s)
  unfolding last_merge size
  last_merge-Ends [] s few kept = inl (([], s), refl)
  last_merge-Ends (run ∷ runs) s few kept = merge-Ends (run ∷ runs) s (omega arith) few kept
