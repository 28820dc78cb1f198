-- ===== src/DatabaseSort/Delivered.antt =====
-- The state of `_sort_rows` along its rows, in src/eng_platform_api/services/database_sort.py.
use gcp_engineering_platform.Base.{
  ℕ, suc, ◌+◌, ◌*◌, Bool, true, false, not, ◌&&◌, List, [], ◌∷◌, ◌++◌, ◌≡◌, refl, sym, ap, ◌∙◌,
  arith, ltb, nat_eq, Option,
}
use gcp_engineering_platform.Python.Value.{Value}
use gcp_engineering_platform.Python.Raise.{
  Result, ok, ◌>>=◌, ◌>>◌, raise_if, bind-ok, passes, unavailable, resource_exceeded,
}
use gcp_engineering_platform.DatabaseSort.Order.{KeyOrder, Record}
use gcp_engineering_platform.DatabaseSort.Merge.{flat}
use gcp_engineering_platform.DatabaseSort.Sorted.{tally, tally-append, All}
use gcp_engineering_platform.DatabaseSort.Rows.{
  Table, row_record, size, all_scalar, any_over, max_row_bytes, max_record_bytes, value_key, nth,
}
use gcp_engineering_platform.DatabaseSort.Runs.{Line, Storage, Sorter, reserve}
use gcp_engineering_platform.DatabaseSort.Output.{
  Pending, is_empty, flush, flush_if, absorb, absorb_all, run_memory_bytes,
}
use gcp_engineering_platform.DatabaseSort.Kept.{
  All-append, All-map, on_line, IsMade, IsMade-later, IsKept, IsKept-later, stock,
}
use gcp_engineering_platform.DatabaseSort.Steps.{ok_injective, IsDurable, reserve-Same}
use gcp_engineering_platform.DatabaseSort.Grown.{flush-Grown}

-- Rows with the ordinals from a number on.
unfoldable pub numbered : ℕ → List (List Value) → List Line
numbered n [] = []
numbered n (row ∷ rows) = (n, row) ∷ numbered (suc n) rows

pub row_record-fields :
    {K : Type 0} (t : Table K) (row : List Value) (n : ℕ) (r : Record K)
    → row_record t row n ≡ ok r
    → (r.ordinal ≡ n) × (r.row ≡ row)
unfolding row_record
row_record-fields {K = K} t row n r h =
    let made : Option K → Record K = λ key. record {
      ordinal = n;
      row = row;
      raw = t.line_size n row;
      key = key;
      cost = t.line_size n row * 8 + t.width * 128 + 1024;
    } in
    let e5 = resource_exceeded "Database sort record size budget exceeded" in
    let k5 : Option K → Result (Record K) =
      λ key. raise_if (ltb max_record_bytes (t.line_size n row)) e5 >> ok (made key) in
    let k4 = value_key t (nth t.selected row) >>= k5 in
    let e4 = resource_exceeded "Database sort row size budget exceeded" in
    let k3 = raise_if (ltb max_row_bytes (t.row_size row + 1)) e4 >> k4 in
    let e3 = resource_exceeded "Database sort cell size budget exceeded" in
    let k2 = raise_if (any_over t.cell_size row) e3 >> k3 in
    let e2 = resource_exceeded "Unsupported database sort value" in
    let k1 = raise_if (not (all_scalar row)) e2 >> k2 in
    let (_, h1) =
      passes (not (nat_eq (size row) t.width)) (unavailable "Invalid database sort row") k1 h in
    let (_, h2) = passes (not (all_scalar row)) e2 k2 h1 in
    let (_, h3) = passes (any_over t.cell_size row) e3 k3 h2 in
    let (_, h4) = passes (ltb max_row_bytes (t.row_size row + 1)) e4 k4 h3 in
    let (key, _, h5) = bind-ok (value_key t (nth t.selected row)) k5 h4 in
    let (_, h6) = passes (ltb max_record_bytes (t.line_size n row)) e5 (ok (made key)) h5 in
    let same = ok_injective h6 in (sym (ap (λ x. x.ordinal) same), sym (ap (λ x. x.row) same))

tally-line :
    {K : Type 0} (test : Line → Bool) (r : Record K) (n : ℕ) (row : List Value)
    → r.ordinal ≡ n
    → r.row ≡ row
    → tally (on_line test) (r ∷ []) ≡ tally test ((n, row) ∷ [])
unfolding tally
tally-line test r n row ordinal same_row = rw (ordinal, same_row) refl

module _ {K R : Type 0} (st : Storage R) (t : Table K) (order : KeyOrder K)
    (descending : Bool) where
  -- The pending records and the runs hold as many lines of each kind as counted.
  pub record IsFilled (p : Pending K R) (count : (Line → Bool) → ℕ) : Type 0 where
    pub made : All (IsMade st t order descending p.sorter.row_count) p.pending
    pub kept : All (IsKept st t order descending p.sorter.row_count) (flat p.sorter.levels)
    pub all_lines :
        (test : Line → Bool)
        → tally (on_line test) p.pending + stock st t order descending test (flat p.sorter.levels)
          ≡ count test

  module _ (durable : IsDurable st) where
    pub flush_if-IsFilled :
        (flushes : Bool) (p q : Pending K R) (count : (Line → Bool) → ℕ)
        → flush_if st t order descending flushes p ≡ ok q
        → IsFilled p count
        → IsFilled q count × (q.sorter.row_count ≡ p.sorter.row_count)
    unfolding flush_if tally
    flush_if-IsFilled false p q count h f =
        let same = ok_injective h in (rw (← same) f, rw (← same) refl)
    flush_if-IsFilled true p q count h f =
        let ended : Sorter R → Result (Pending K R) =
          λ s. ok (record { pending = []; pending_cost = 0; sorter = s }) in
        let (s, flushed, h1) = bind-ok (flush st t order descending p.pending p.sorter) ended h in
        let g =
          flush-Grown st t order descending durable p.pending p.sorter s flushed f.made f.kept in
        let same = ok_injective h1 in
        (
          rw (← same) (record {
            made = tt;
            kept = g.kept;
            all_lines = λ test. omega (arith, g.all_lines test, f.all_lines test);
          }),
          rw (← same) g.rows,
        )

    reserve-IsFilled :
        (n : ℕ) (pending : List (Record K)) (cost cost' : ℕ) (s s' : Sorter R)
        (count : (Line → Bool) → ℕ)
        → reserve st n s ≡ ok s'
        → IsFilled (record { pending = pending; pending_cost = cost; sorter = s }) count
        → IsFilled (record { pending = pending; pending_cost = cost'; sorter = s' }) count
    reserve-IsFilled n pending cost cost' s s' count h f =
        let same = reserve-Same st n s s' h in
        record {
          made = rw same.rows f.made;
          kept = rw (same.levels, same.rows) f.kept;
          all_lines = λ test. rw same.levels (f.all_lines test);
        }

    pub absorb-IsFilled :
        (row : List Value) (p q : Pending K R) (count : (Line → Bool) → ℕ)
        → absorb st t order descending row p ≡ ok q
        → IsFilled p count
        → IsFilled q (λ test. count test + tally test ((p.sorter.row_count, row) ∷ []))
          × (q.sorter.row_count ≡ suc p.sorter.row_count)
    unfolding absorb tally
    absorb-IsFilled row p q count h f =
        let n = p.sorter.row_count in
        let counted = record p.sorter {
          row_count = suc n;
          byte_count = p.sorter.byte_count + (t.row_size row + 1);
        } in
        let started = record p { sorter = counted } in
        let flushes = λ (r : Record K).
          not (is_empty p.pending) && ltb run_memory_bytes (p.pending_cost + r.cost) in
        let ended : Record K → Pending K R → Sorter R → Result (Pending K R) = λ r u s. ok (record {
          pending = u.pending ++ r ∷ [];
          pending_cost = u.pending_cost + r.cost;
          sorter = s;
        }) in
        let reserving : Record K → Pending K R → Result (Pending K R) =
          λ r u. reserve st (u.pending_cost + r.cost) u.sorter >>= ended r u in
        let (r, reading, h1) =
          bind-ok (row_record t row n)
            (λ r. flush_if st t order descending (flushes r) started >>= reserving r) h in
        let (u, flushing, h2) =
          bind-ok (flush_if st t order descending (flushes r) started) (reserving r) h1 in
        let (s, reserved, h3) =
          bind-ok (reserve st (u.pending_cost + r.cost) u.sorter) (ended r u) h2 in
        let (ordinal, same_row) = row_record-fields t row n r reading in
        let begun : IsFilled started count = record {
          made =
              All-map (IsMade st t order descending n) (IsMade st t order descending (suc n))
                p.pending (IsMade-later st t order descending n (suc n) (omega arith)) f.made;
          kept =
              All-map (IsKept st t order descending n) (IsKept st t order descending (suc n))
                (flat p.sorter.levels) (IsKept-later st t order descending n (suc n) (omega arith))
                f.kept;
          all_lines = f.all_lines;
        } in
        let (g, rows) = flush_if-IsFilled (flushes r) started u count flushing begun in
        let same = reserve-Same st (u.pending_cost + r.cost) u.sorter s reserved in
        let count_rows : s.row_count ≡ suc n = same.rows ∙ rows in
        let out = ok_injective h3 in
        let remade : row_record t r.row r.ordinal ≡ ok r = rw (same_row, ordinal) reading in
        (
          rw (← out) (record {
            made =
                All-append (IsMade st t order descending s.row_count) u.pending (r ∷ [])
                  (rw same.rows g.made) ((omega (arith, ordinal, count_rows), remade), tt);
            kept = rw (same.levels, same.rows) g.kept;
            all_lines = λ test. omega (
              arith,
              g.all_lines test,
              tally-append (on_line test) u.pending (r ∷ []),
              ap (λ l. stock st t order descending test (flat l)) same.levels,
              tally-line test r n row ordinal same_row,
            );
          }),
          rw (← out) count_rows,
        )

    pub absorb_all-IsFilled :
        (rows : List (List Value)) (p q : Pending K R) (count : (Line → Bool) → ℕ)
        → absorb_all st t order descending rows p ≡ ok q
        → IsFilled p count
        → IsFilled q (λ test. count test + tally test (numbered p.sorter.row_count rows))
    unfolding absorb_all numbered tally
    absorb_all-IsFilled [] p q count h f = rw (← ok_injective h) (record {
      made = f.made;
      kept = f.kept;
      all_lines = λ test. omega (arith, f.all_lines test);
    })
    absorb_all-IsFilled (row ∷ rows) p q count h f =
        let (u, absorbed, h1) =
          bind-ok (absorb st t order descending row p)
            (λ u. absorb_all st t order descending rows u) h in
        let (g, next) = absorb-IsFilled row p u count absorbed f in
        let rest =
          absorb_all-IsFilled rows u q
            (λ test. count test + tally test ((p.sorter.row_count, row) ∷ [])) h1 g in
        record {
          made = rest.made;
          kept = rest.kept;
          all_lines = λ test.
              omega (arith, rest.all_lines test, ap (λ n. tally test (numbered n rows)) next);
        }
