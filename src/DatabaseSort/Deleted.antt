-- ===== src/DatabaseSort/Deleted.antt =====
-- The deletion of runs and the memory of `_sort_rows` in
-- src/eng_platform_api/services/database_sort.py.
use gcp_engineering_platform.Base.{
  ℕ, zero, suc, ◌+◌, ◌≤◌, Bool, true, false, not, ◌&&◌, List, [], ◌∷◌, ◌++◌, ◌≡◌, refl, sym, ap,
  ◌∙◌, arith, Bool-cases, inl, inr, ltb, nat_eq,
}
use gcp_engineering_platform.Python.Value.{Value}
use gcp_engineering_platform.Python.Raise.{
  Result, ok, ◌>>=◌, ◌>>◌, raise_if, bind-ok, passes, unavailable,
}
use gcp_engineering_platform.DatabaseSort.Order.{KeyOrder, Record, sort}
use gcp_engineering_platform.DatabaseSort.Merge.{flat}
use gcp_engineering_platform.DatabaseSort.Rows.{Table, row_record, size}
use gcp_engineering_platform.DatabaseSort.Runs.{
  Storage, Run, Sorter, reserve, memory_bytes, write, compact, add, merge_fan_in, references,
}
use gcp_engineering_platform.DatabaseSort.Output.{
  Pending, Sorted, is_empty, first, after, batches_of, start, flush, flush_if, absorb, absorb_all,
  shrink, last_merge, finish, sort_rows, run_memory_bytes,
}
use gcp_engineering_platform.DatabaseSort.Kept.{size-append}
use gcp_engineering_platform.DatabaseSort.Steps.{ok_injective}
use gcp_engineering_platform.DatabaseSort.Ordered.{first-after}
use gcp_engineering_platform.DatabaseSort.Tidy.{
  size-references, IsTidy, reserve-IsTidy, merge-IsTidy, write-IsTidy, compact-IsTidy, add-IsTidy,
}

-- The runs of the levels are those that are written and not deleted.
abbrev IsBalanced : {R : Type 0} → Sorter R → Type 0
IsBalanced s = IsTidy (size (flat s.levels)) s

module _ {K R : Type 0} (st : Storage R) (t : Table K) (order : KeyOrder K)
    (descending : Bool) where
  reserve-IsBalanced :
      (n : ℕ) (s s' : Sorter R) → reserve st n s ≡ ok s' → IsBalanced s → IsBalanced s'
  reserve-IsBalanced n s s' h tidy =
      let (tidy', same) = reserve-IsTidy st n (size (flat s.levels)) s s' h tidy in
      record {
        within = tidy'.within;
        balance = omega (arith, tidy'.balance, ap (λ l. size (flat l)) same);
      }

  flush-IsBalanced :
      (pending : List (Record K)) (s s' : Sorter R)
      → flush st t order descending pending s ≡ ok s'
      → IsBalanced s
      → IsBalanced s'
  unfolding flush
  flush-IsBalanced pending s s' h tidy =
      let sorted = sort order descending pending in
      let rest : Run R × Sorter R → Result (Sorter R) =
        λ v. add st t order descending (suc (size (flat v.1.levels))) v.0 v.1 in
      let (v, writing, h1) = bind-ok (write st t sorted (size pending) 0 s) rest h in
      let (tidy', same) =
        write-IsTidy st t order descending (size (flat s.levels)) (size pending) 0 sorted s v.1 v.0
          writing tidy in
      add-IsTidy st t order descending (suc (size (flat v.1.levels))) v.0 v.1 s' h1 (omega arith)
        (rw same tidy')

  flush_if-IsBalanced :
      (flushes : Bool) (p q : Pending K R)
      → flush_if st t order descending flushes p ≡ ok q
      → IsBalanced p.sorter
      → IsBalanced q.sorter
  unfolding flush_if
  flush_if-IsBalanced false p q h tidy = rw (← ok_injective h) tidy
  flush_if-IsBalanced true p q h tidy =
      let ended : Sorter R → Result (Pending K R) =
        λ s. ok (record { pending = []; pending_cost = 0; sorter = s }) in
      let (s, flushed, h1) = bind-ok (flush st t order descending p.pending p.sorter) ended h in
      rw (← ok_injective h1) (flush-IsBalanced p.pending p.sorter s flushed tidy)

  absorb-IsBalanced :
      (row : List Value) (p q : Pending K R)
      → absorb st t order descending row p ≡ ok q
      → IsBalanced p.sorter
      → IsBalanced q.sorter
  unfolding absorb
  absorb-IsBalanced row p q h tidy =
      let n = p.sorter.row_count in
      let started = record p {
        sorter = record p.sorter {
          row_count = suc n;
          byte_count = p.sorter.byte_count + (t.row_size row + 1);
        };
      } in
      let flushes = λ (r : Record K).
        not (is_empty p.pending) && ltb run_memory_bytes (p.pending_cost + r.cost) in
      let ended : Record K → Pending K R → Sorter R → Result (Pending K R) = λ r u s. ok (record {
        pending = u.pending ++ r ∷ [];
        pending_cost = u.pending_cost + r.cost;
        sorter = s;
      }) in
      let reserving : Record K → Pending K R → Result (Pending K R) =
        λ r u. reserve st (u.pending_cost + r.cost) u.sorter >>= ended r u in
      let (r, _, h1) =
        bind-ok (row_record t row n)
          (λ r. flush_if st t order descending (flushes r) started >>= reserving r) h in
      let (u, flushing, h2) =
        bind-ok (flush_if st t order descending (flushes r) started) (reserving r) h1 in
      let (s, reserved, h3) =
        bind-ok (reserve st (u.pending_cost + r.cost) u.sorter) (ended r u) h2 in
      rw (← ok_injective h3) (
        reserve-IsBalanced (u.pending_cost + r.cost) u.sorter s reserved (
          flush_if-IsBalanced (flushes r) started u flushing
            (record { within = tidy.within; balance = tidy.balance })))

  absorb_all-IsBalanced :
      (rows : List (List Value)) (p q : Pending K R)
      → absorb_all st t order descending rows p ≡ ok q
      → IsBalanced p.sorter
      → IsBalanced q.sorter
  unfolding absorb_all
  absorb_all-IsBalanced [] p q h tidy = rw (← ok_injective h) tidy
  absorb_all-IsBalanced (row ∷ rows) p q h tidy =
      let (u, absorbed, h1) =
        bind-ok (absorb st t order descending row p) (λ u. absorb_all st t order descending rows u)
          h in
      absorb_all-IsBalanced rows u q h1 (absorb-IsBalanced row p u absorbed tidy)

  shrink-IsTidy :
      (n : ℕ) (group group' : List (Run R)) (s s' : Sorter R)
      → shrink st t order descending n group s ≡ ok (group', s')
      → IsTidy (size group) s
      → IsTidy (size group') s'
  unfolding shrink size
  shrink-IsTidy zero group group' s s' h tidy =
      let same = ok_injective h in rw (← ap (λ x. x.0) same, ← ap (λ x. x.1) same) tidy
  shrink-IsTidy (suc n) group group' s s' h tidy =
      elim (Bool-cases (ltb merge_fan_in (size group))) [
        | inl many ↦
            let head = first merge_fan_in group in
            let tail = after merge_fan_in group in
            let again : Run R × Sorter R → Result (List (Run R) × Sorter R) = λ v.
              shrink st t order descending n (v.0 ∷ tail)
                (record v.1 { levels = (v.0 ∷ tail) ∷ [] }) in
            let (v, compacted, h1) =
              bind-ok (compact st t order descending head s) again (rw (many, shrink) at h) in
            let parts : size head + size tail ≡ size group =
              sym (size-append head tail) ∙ ap (λ l. size l) (first-after merge_fan_in group) in
            let (tidy', _) =
              compact-IsTidy st t order descending (size tail) head s v.1 v.0 compacted
                (record { within = tidy.within; balance = omega (arith, tidy.balance, parts) }) in
            shrink-IsTidy n (v.0 ∷ tail) group' (record v.1 { levels = (v.0 ∷ tail) ∷ [] }) s' h1
              (record { within = tidy'.within; balance = tidy'.balance })
        | inr done ↦
            let same = ok_injective (rw (done, shrink) at h) in
            rw (← ap (λ x. x.0) same, ← ap (λ x. x.1) same) tidy
      ]

  last_merge-IsTidy :
      (group : List (Run R)) (s s' : Sorter R) (merged : List (Record K))
      → last_merge st t order descending group s ≡ ok (merged, s')
      → IsTidy (size group) s
      → IsTidy (size group) s'
  unfolding last_merge
  last_merge-IsTidy [] s s' merged h tidy = rw (← ap (λ x. x.1) (ok_injective h)) tidy
  last_merge-IsTidy (run ∷ runs) s s' merged h tidy =
      (merge-IsTidy st t order descending (size (run ∷ runs)) (run ∷ runs) s s' merged h tidy).0

  finish-IsTidy :
      (p : Pending K R) (out : Sorted R)
      → finish st t order descending p ≡ ok out
      → IsBalanced p.sorter
      → IsTidy 0 out.final
  unfolding finish
  finish-IsTidy p out h tidy =
      let done : List (Run R) → List (Record K) × Sorter R → Sorted R = λ group m. record {
        batches = batches_of [] m.0;
        final = record m.1 { erased = m.1.erased ++ references group };
      } in
      let ended : List (Run R) → List (Record K) × Sorter R → Result (Sorted R) = λ group m.
        raise_if (not (nat_eq (size m.0) m.1.row_count))
          (unavailable "Invalid database sort output count")
        >> ok (done group m) in
      let merging : List (Run R) × Sorter R → Result (Sorted R) =
        λ g. last_merge st t order descending g.0 g.1 >>= ended g.0 in
      let shrinking : Pending K R → Result (Sorted R) = λ q.
        shrink st t order descending (size (flat q.sorter.levels)) (flat q.sorter.levels) q.sorter
        >>= merging in
      let (q, flushed, h1) =
        bind-ok (flush_if st t order descending (not (is_empty p.pending)) p) shrinking h in
      let tidy1 = flush_if-IsBalanced (not (is_empty p.pending)) p q flushed tidy in
      let group = flat q.sorter.levels in
      let (v, shrunk, h2) =
        bind-ok (shrink st t order descending (size group) group q.sorter) merging h1 in
      let tidy2 = shrink-IsTidy (size group) group v.0 q.sorter v.1 shrunk tidy1 in
      let (m, merged, h3) = bind-ok (last_merge st t order descending v.0 v.1) (ended v.0) h2 in
      let tidy3 = last_merge-IsTidy v.0 v.1 m.1 m.0 merged tidy2 in
      let (_, h4) =
        passes (not (nat_eq (size m.0) m.1.row_count))
          (unavailable "Invalid database sort output count") (ok (done v.0 m)) h3 in
      rw (← ok_injective h4) (record {
        within = tidy3.within;
        balance =
            omega
              (arith, tidy3.balance, size-append m.1.erased (references v.0), size-references v.0);
      })

  -- A sort that ends has deleted as many runs as it wrote, and its estimate of the memory that it used
  -- never exceeded 32 MiB.
  pub sort_tidies_up :
      (captured : List (List Value)) (out : Sorted R)
      → sort_rows st t order descending captured ≡ ok out
      → (size out.final.erased ≡ out.final.run_count) × (out.final.memory_peak ≤ memory_bytes)
  unfolding sort_rows start flat size
  sort_tidies_up captured out h =
      let begun : Pending K R = record { pending = []; pending_cost = 0; sorter = start } in
      let (p, absorbed, h1) =
        bind-ok (absorb_all st t order descending captured begun)
          (λ p. finish st t order descending p) h in
      let tidy = finish-IsTidy p out h1 (
        absorb_all-IsBalanced captured begun p absorbed
          (record { within = omega arith; balance = refl })) in
      (omega (arith, tidy.balance), tidy.within)
