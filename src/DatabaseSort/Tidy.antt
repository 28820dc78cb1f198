-- ===== src/DatabaseSort/Tidy.antt =====
-- Runs written and not deleted, and the memory, along the steps of
-- src/eng_platform_api/services/database_sort.py.
use gcp_engineering_platform.Base.{
  ℕ, zero, suc, ◌+◌, ◌≤◌, ◌<◌, Bool, true, false, not, ◌||◌, List, [], ◌∷◌, ◌++◌, if◌then◌else◌,
  ◌≡◌, refl, sym, ap, ◌∙◌, arith, Bool-cases, inl, inr, leb, ltb, nat_eq,
}
use gcp_engineering_platform.Python.Raise.{
  Result, ok, ◌>>=◌, bind-ok, passes, unavailable, resource_exceeded,
}
use gcp_engineering_platform.DatabaseSort.Order.{KeyOrder, Record}
use gcp_engineering_platform.DatabaseSort.Merge.{flat, open_all, drain}
use gcp_engineering_platform.DatabaseSort.Rows.{Table, size}
use gcp_engineering_platform.DatabaseSort.Runs.{
  Storage, Run, Sorter, lines, reserve, metadata, memory_bytes, merge, merge_memory, write, compact,
  add, merge_fan_in, references, rows_of, max_level, put_run, level_at, clear_level, all_records,
}
use gcp_engineering_platform.DatabaseSort.Kept.{size-append}
use gcp_engineering_platform.DatabaseSort.Steps.{ok_injective, size-put_run, size-clear_level}

pub size-references : {R : Type 0} (runs : List (Run R)) → size (references runs) ≡ size runs
unfolding references size
size-references [] = refl
size-references (run ∷ runs) = omega (arith, size-references runs)

-- A state with so many runs that are written and not deleted, within the memory budget.
pub record IsTidy {R : Type 0} (live : ℕ) (s : Sorter R) : Type 0 where
  pub within : s.memory_peak ≤ memory_bytes
  pub balance : s.run_count ≡ size s.erased + live

pub reserve-IsTidy :
    {R : Type 0} (st : Storage R) (n live : ℕ) (s s' : Sorter R)
    → reserve st n s ≡ ok s'
    → IsTidy live s
    → IsTidy live s' × (s'.levels ≡ s.levels)
unfolding reserve
reserve-IsTidy st n live s s' h tidy =
    let total = n + metadata st (flat s.levels) in
    let (under, done) =
      passes (ltb memory_bytes total) (resource_exceeded "Database sort memory budget exceeded")
        (ok (record s { memory_peak = if leb s.memory_peak total then total else s.memory_peak }))
        h in
    let same = ok_injective done in
    (
      rw (← same) (record { within = ground (arith, under, tidy.within); balance = tidy.balance }),
      sym (ap (λ x. x.levels) same),
    )

module _ {K R : Type 0} (st : Storage R) (t : Table K) (order : KeyOrder K)
    (descending : Bool) where
  pub merge-IsTidy :
      (live : ℕ) (group : List (Run R)) (s s' : Sorter R) (merged : List (Record K))
      → merge st t order descending group s ≡ ok (merged, s')
      → IsTidy live s
      → IsTidy live s' × (s'.levels ≡ s.levels)
  unfolding merge
  merge-IsTidy live group s s' merged h tidy =
      let ended : Sorter R → List (List (Record K)) → Result (List (Record K) × Sorter R) =
        λ x found.
          ok (drain order descending (size (flat found)) (open_all order descending found []), x) in
      let rest : Sorter R → Result (List (Record K) × Sorter R) =
        λ x. all_records st t group x.row_count >>= ended x in
      let (_, h1) =
        passes (ltb (size group) 1 || ltb merge_fan_in (size group))
          (resource_exceeded "Database sort merge budget exceeded")
          (reserve st (merge_memory (size group)) s >>= rest) h in
      let (x, reserved, h2) = bind-ok (reserve st (merge_memory (size group)) s) rest h1 in
      let (found, _, h3) = bind-ok (all_records st t group x.row_count) (ended x) h2 in
      let same : x ≡ s' = ap (λ v. v.1) (ok_injective h3) in
      rw (← same) (reserve-IsTidy st (merge_memory (size group)) live s x reserved tidy)

  pub write-IsTidy :
      (live count level : ℕ) (rs : List (Record K)) (s s' : Sorter R) (run : Run R)
      → write st t rs count level s ≡ ok (run, s')
      → IsTidy live s
      → IsTidy (suc live) s' × (s'.levels ≡ s.levels)
  unfolding write
  write-IsTidy live count level rs s s' run h tidy =
      let (_, h1) =
        passes (not (nat_eq (size rs) count)) (unavailable "Invalid database sort run")
          (ok (
            record {
              reference = st.write_run s.run_count (lines rs);
              row_count = count;
              level = level;
            },
            record s { run_count = suc s.run_count },
          ))
          h in
      let same : record s { run_count = suc s.run_count } ≡ s' = ap (λ v. v.1) (ok_injective h1) in
      rw (← same) (record { within = tidy.within; balance = omega (arith, tidy.balance) }, refl)

  -- A compaction leaves one run for those of its group.
  pub compact-IsTidy :
      (live : ℕ) (group : List (Run R)) (s s' : Sorter R) (run : Run R)
      → compact st t order descending group s ≡ ok (run, s')
      → IsTidy (live + size group) s
      → IsTidy (suc live) s' × (s'.levels ≡ s.levels)
  unfolding compact
  compact-IsTidy live group s s' run h tidy =
      let level = suc (max_level group) in
      let ended : Run R × Sorter R → Result (Run R × Sorter R) = λ v. ok (
        v.0,
        record v.1 {
          merge_passes = if leb v.1.merge_passes level then level else v.1.merge_passes;
          erased = v.1.erased ++ references group;
        },
      ) in
      let (v, merging, h1) =
        bind-ok (merge st t order descending group s)
          (λ v. write st t v.0 (rows_of group) level v.1 >>= ended) h in
      let (w, writing, h2) = bind-ok (write st t v.0 (rows_of group) level v.1) ended h1 in
      let (tidy1, same1) = merge-IsTidy (live + size group) group s v.1 v.0 merging tidy in
      let (tidy2, same2) =
        write-IsTidy (live + size group) (rows_of group) level v.0 v.1 w.1 w.0 writing tidy1 in
      let state = ap (λ x. x.1) (ok_injective h2) in
      rw (← state) (
        record {
          within = tidy2.within;
          balance = omega (
            arith,
            tidy2.balance,
            size-append w.1.erased (references group),
            size-references group,
          );
        },
        same2 ∙ same1,
      )

  pub add-IsTidy :
      (n : ℕ) (run : Run R) (s s' : Sorter R)
      → add st t order descending n run s ≡ ok s'
      → size (flat s.levels) < n
      → IsTidy (suc (size (flat s.levels))) s
      → IsTidy (size (flat s'.levels)) s'
  unfolding add
  add-IsTidy zero run s s' h fuel tidy = absurd (omega (arith, fuel))
  add-IsTidy (suc n) run s s' h fuel tidy =
      let put = record s { levels = put_run run.level run s.levels } in
      let again : Run R × Sorter R → Result (Sorter R) = λ v.
        add st t order descending n v.0
          (record v.1 { levels = clear_level run.level v.1.levels }) in
      let rest : Sorter R → Result (Sorter R) = λ x.
        elim (nat_eq (size (level_at run.level x.levels)) merge_fan_in) [
          | true ↦ compact st t order descending (level_at run.level x.levels) x >>= again
          | false ↦ ok x
        ] in
      let (x, reserved, h1) = bind-ok (reserve st 0 put) rest h in
      let (tidy1, same) =
        reserve-IsTidy st 0 (suc (size (flat s.levels))) put x reserved
          (record { within = tidy.within; balance = tidy.balance }) in
      let size1 : size (flat x.levels) ≡ suc (size (flat s.levels)) =
        ap (λ l. size (flat l)) same ∙ size-put_run run.level run s.levels in
      elim (Bool-cases (nat_eq (size (level_at run.level x.levels)) merge_fan_in)) [
        | inl full ↦
            let group = level_at run.level x.levels in
            let (v, compacted, h2) =
              bind-ok (compact st t order descending group x) again (rw full at h1) in
            let sizes = size-clear_level run.level x.levels in
            let left = size (flat (clear_level run.level x.levels)) in
            let (tidy2, same') = compact-IsTidy left group x v.1 v.0 compacted (record {
              within = tidy1.within;
              balance = omega (arith, tidy1.balance, sizes, size1);
            }) in
            let y = record v.1 { levels = clear_level run.level v.1.levels } in
            let size2 : size (flat y.levels) ≡ left =
              ap (λ l. size (flat (clear_level run.level l))) same' in
            add-IsTidy n v.0 y s' h2 (ground (arith, full, sizes, size1, size2, fuel))
              (record { within = tidy2.within; balance = omega (arith, tidy2.balance, size2) })
        | inr room ↦
            let state = ok_injective (rw room at h1) in
            rw (← state)
              (record { within = tidy1.within; balance = omega (arith, tidy1.balance, size1) })
      ]
