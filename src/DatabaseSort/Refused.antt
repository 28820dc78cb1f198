-- ===== src/DatabaseSort/Refused.antt =====
-- The errors of `_sort_rows` of src/eng_platform_api/services/database_sort.py.
use mathlib.Core.List.{append_assoc}
use gcp_engineering_platform.Base.{
  ℕ, suc, ◌+◌, Bool, true, false, not, ◌&&◌, List, [], ◌∷◌, ◌++◌, ◌≡◌, ◌⊎◌, refl, sym, ap, ◌∙◌,
  arith, inl, inr, ltb, nat_eq,
}
use gcp_engineering_platform.Python.Value.{Value}
use gcp_engineering_platform.Python.Raise.{
  Error, Result, ok, raise, ◌>>=◌, ◌>>◌, raise_if, bind-ok, unavailable,
}
use gcp_engineering_platform.DatabaseSort.Order.{KeyOrder, Record}
use gcp_engineering_platform.DatabaseSort.Merge.{flat}
use gcp_engineering_platform.DatabaseSort.Sorted.{tally, All}
use gcp_engineering_platform.DatabaseSort.Rows.{Table, row_record, size}
use gcp_engineering_platform.DatabaseSort.Runs.{Line, Storage, Run, Sorter, reserve, references}
use gcp_engineering_platform.DatabaseSort.Output.{
  Pending, Sorted, is_empty, batches_of, start, flush_if, absorb, absorb_all, shrink, last_merge,
  finish, sort_rows, run_memory_bytes,
}
use gcp_engineering_platform.DatabaseSort.Kept.{
  All-map, on_line, IsMade, IsMade-later, IsKept, IsKept-later, stock, size-append, size-tally,
}
use gcp_engineering_platform.DatabaseSort.Steps.{ok_injective, IsDurable, merge-Merges}
use gcp_engineering_platform.DatabaseSort.Ordered.{
  shrink-Shrunk, is_empty-none, flushed-empty, last_merge-Merges,
}
use gcp_engineering_platform.DatabaseSort.Delivered.{
  IsFilled, flush_if-IsFilled, absorb-IsFilled, absorb_all-IsFilled, numbered,
}
use gcp_engineering_platform.DatabaseSort.Errors.{
  memory_error, Ends, Ends-bind, result_cases, reserve-Ends, flush_if-Ends, shrink-Ends,
  last_merge-Ends,
}

size-numbered :
    (n : ℕ) (rows : List (List Value)) → tally (λ line. true) (numbered n rows) ≡ size rows
unfolding tally numbered size
size-numbered n [] = refl
size-numbered n (row ∷ rows) = omega (arith, size-numbered (suc n) rows)

-- The memory budget was exceeded, or `_row_record` refused a captured row at its own ordinal.
abbrev pub IsRefusal : {K : Type 0} → Table K → List (List Value) → Error → Type 0
IsRefusal t captured e =
    (e ≡ memory_error)
    ⊎ ((before : List (List Value)) × (row : List Value) × (later : List (List Value)) × (captured
          ≡ before ++ row ∷ later)
        × (row_record t row (size before) ≡ raise e))

module _ {K R : Type 0} (st : Storage R) (t : Table K) (order : KeyOrder K) (descending : Bool)
    (durable : IsDurable st) (captured : List (List Value)) where
  row_record-Ends :
      (before : List (List Value)) (row : List Value) (later : List (List Value)) (n : ℕ)
      → captured ≡ before ++ row ∷ later
      → n ≡ size before
      → Ends (IsRefusal t captured) (row_record t row n)
  row_record-Ends before row later n place ordinal =
      result_cases (row_record t row n) (λ e h. inr (before, row, later, place, rw (← ordinal) h))

  absorb-Ends :
      (before : List (List Value)) (row : List Value) (later : List (List Value)) (p : Pending K R)
      (count : (Line → Bool) → ℕ)
      → captured ≡ before ++ row ∷ later
      → p.sorter.row_count ≡ size before
      → IsFilled st t order descending p count
      → Ends (IsRefusal t captured) (absorb st t order descending row p)
  unfolding absorb
  absorb-Ends before row later p count place ordinal f =
      let n = p.sorter.row_count in
      let counted = record p.sorter {
        row_count = suc n;
        byte_count = p.sorter.byte_count + (t.row_size row + 1);
      } in
      let started = record p { sorter = counted } in
      let flushes = λ (r : Record K).
        not (is_empty p.pending) && ltb run_memory_bytes (p.pending_cost + r.cost) in
      let ended : Record K → Pending K R → Sorter R → Result (Pending K R) = λ r u s. ok (record {
        pending = u.pending ++ r ∷ [];
        pending_cost = u.pending_cost + r.cost;
        sorter = s;
      }) in
      let reserving : Record K → Pending K R → Result (Pending K R) =
        λ r u. reserve st (u.pending_cost + r.cost) u.sorter >>= ended r u in
      Ends-bind (IsRefusal t captured) (row_record t row n)
        (λ r. flush_if st t order descending (flushes r) started >>= reserving r)
        (row_record-Ends before row later n place ordinal)
        (λ r reading.
          Ends-bind (IsRefusal t captured) (flush_if st t order descending (flushes r) started)
            (reserving r)
            (flush_if-Ends st t order descending durable (IsRefusal t captured) (inl refl)
              (flushes r) started
              (All-map (IsMade st t order descending n) (IsMade st t order descending (suc n))
                p.pending (IsMade-later st t order descending n (suc n) (omega arith)) f.made)
              (All-map (IsKept st t order descending n) (IsKept st t order descending (suc n))
                (flat p.sorter.levels) (IsKept-later st t order descending n (suc n) (omega arith))
                f.kept))
            (λ u flushing.
              Ends-bind (IsRefusal t captured) (reserve st (u.pending_cost + r.cost) u.sorter)
                (ended r u)
                (reserve-Ends st (IsRefusal t captured) (u.pending_cost + r.cost) u.sorter
                  (inl refl))
                (λ s reserved. inl (_, refl))))

  absorb_all-Ends :
      (before rows : List (List Value)) (p : Pending K R) (count : (Line → Bool) → ℕ)
      → captured ≡ before ++ rows
      → p.sorter.row_count ≡ size before
      → IsFilled st t order descending p count
      → Ends (IsRefusal t captured) (absorb_all st t order descending rows p)
  unfolding absorb_all size
  absorb_all-Ends before [] p count place ordinal f = inl (p, refl)
  absorb_all-Ends before (row ∷ rows) p count place ordinal f =
      Ends-bind (IsRefusal t captured) (absorb st t order descending row p)
        (λ u. absorb_all st t order descending rows u)
        (absorb-Ends before row rows p count place ordinal f)
        (λ u absorbed.
          let (g, next) = absorb-IsFilled st t order descending durable row p u count absorbed f in
          absorb_all-Ends (before ++ row ∷ []) rows u
            (λ test. count test + tally test ((p.sorter.row_count, row) ∷ []))
            (place ∙ sym (append_assoc before (row ∷ []) rows))
            (omega (arith, next, ordinal, size-append before (row ∷ []))) g)

  rows-absorb_all :
      (rows : List (List Value)) (p q : Pending K R) (count : (Line → Bool) → ℕ)
      → absorb_all st t order descending rows p ≡ ok q
      → IsFilled st t order descending p count
      → q.sorter.row_count ≡ p.sorter.row_count + size rows
  unfolding absorb_all size
  rows-absorb_all [] p q count h f = omega (arith, ap (λ x. x.sorter.row_count) (ok_injective h))
  rows-absorb_all (row ∷ rows) p q count h f =
      let (u, absorbed, h1) =
        bind-ok (absorb st t order descending row p) (λ u. absorb_all st t order descending rows u)
          h in
      let (g, next) = absorb-IsFilled st t order descending durable row p u count absorbed f in
      omega (
        arith,
        next,
        rows-absorb_all rows u q (λ test. count test + tally test ((p.sorter.row_count, row) ∷ []))
            h1 g,
      )

  rows-last_merge :
      (group : List (Run R)) (s s' : Sorter R) (merged : List (Record K))
      → last_merge st t order descending group s ≡ ok (merged, s')
      → All (IsKept st t order descending s.row_count) group
      → s'.row_count ≡ s.row_count
  unfolding last_merge
  rows-last_merge [] s s' merged h kept = ap (λ x. x.1.row_count) (sym (ok_injective h))
  rows-last_merge (run ∷ runs) s s' merged h kept =
      (merge-Merges st t order descending (run ∷ runs) s s' merged h kept).1.rows

  finish-Ends :
      (p : Pending K R)
      → IsFilled st t order descending p (λ test. tally test (numbered 0 captured))
      → p.sorter.row_count ≡ size captured
      → Ends (IsRefusal t captured) (finish st t order descending p)
  unfolding finish tally
  finish-Ends p f rows =
      let ended : List (Run R) → List (Record K) × Sorter R → Result (Sorted R) = λ group m.
        raise_if (not (nat_eq (size m.0) m.1.row_count))
          (unavailable "Invalid database sort output count")
        >> ok (record {
          batches = batches_of [] m.0;
          final = record m.1 { erased = m.1.erased ++ references group };
        }) in
      let merging : List (Run R) × Sorter R → Result (Sorted R) =
        λ g. last_merge st t order descending g.0 g.1 >>= ended g.0 in
      let shrinking : Pending K R → Result (Sorted R) = λ q.
        shrink st t order descending (size (flat q.sorter.levels)) (flat q.sorter.levels) q.sorter
        >>= merging in
      let flushes = not (is_empty p.pending) in
      Ends-bind (IsRefusal t captured) (flush_if st t order descending flushes p) shrinking
        (flush_if-Ends st t order descending durable (IsRefusal t captured) (inl refl) flushes p
          f.made f.kept)
        (λ q flushed.
          let (g, same) =
            flush_if-IsFilled st t order descending durable flushes p q
              (λ test. tally test (numbered 0 captured)) flushed f in
          let nothing =
            flushed-empty st t order descending durable flushes p q
              (is_empty-none st t order descending durable p.pending) flushed in
          let group = flat q.sorter.levels in
          Ends-bind (IsRefusal t captured)
            (shrink st t order descending (size group) group q.sorter) merging
            (shrink-Ends st t order descending durable (IsRefusal t captured) (inl refl)
              (size group) group q.sorter g.kept)
            (λ v shrunk.
              let few =
                shrink-Shrunk st t order descending durable (size group) group v.0 q.sorter v.1
                  shrunk (omega arith) g.kept in
              Ends-bind (IsRefusal t captured) (last_merge st t order descending v.0 v.1)
                (ended v.0)
                (last_merge-Ends st t order descending durable (IsRefusal t captured) (inl refl) v.0
                  v.1 few.few few.kept)
                (λ m merged.
                  let last =
                    last_merge-Merges st t order descending durable v.0 v.1 m.1 m.0 merged
                      few.kept in
                  let all : size m.0 ≡ m.1.row_count = omega (
                    arith,
                    size-tally m.0,
                    last.all_lines (λ line. true),
                    few.all_lines (λ line. true),
                    g.all_lines (λ line. true),
                    ap (tally (on_line (λ line. true))) nothing,
                    size-numbered 0 captured,
                    rows,
                    same,
                    few.rows_same,
                    rows-last_merge v.0 v.1 m.1 m.0 merged few.kept,
                  ) in
                  let exact : not (nat_eq (size m.0) m.1.row_count) ≡ false = ground (arith, all) in
                  rw exact (inl (_, refl)))))

  -- A sort with a storage that gives back what was written to it ends with a result, or is refused
  -- because the memory budget was exceeded, or with the error that `_row_record` raises for a
  -- captured row at its own ordinal. So a capture whose rows are all accepted is never refused when
  -- its runs are read back, nor for a count, a merge or the output.
  pub sort_rows-Ends : Ends (IsRefusal t captured) (sort_rows st t order descending captured)
  unfolding sort_rows start tally stock flat
  sort_rows-Ends =
      let begun : Pending K R = record { pending = []; pending_cost = 0; sorter = start } in
      let empty : IsFilled st t order descending begun (λ test. 0) = record {
        made = tt;
        kept = tt;
        all_lines = λ test. refl;
      } in
      Ends-bind (IsRefusal t captured) (absorb_all st t order descending captured begun)
        (λ p. finish st t order descending p)
        (absorb_all-Ends [] captured begun (λ test. 0) refl refl empty)
        (λ p absorbed.
          let filled =
            absorb_all-IsFilled st t order descending durable captured begun p (λ test. 0) absorbed
              empty in
          finish-Ends p
            (record {
              made = filled.made;
              kept = filled.kept;
              all_lines = λ test. omega (arith, filled.all_lines test);
            })
            (omega (arith, rows-absorb_all captured begun p (λ test. 0) absorbed empty)))
