-- ===== src/DatabaseSort/Kept.antt =====
-- What the storage holds under runs, read back by `records` of
-- src/eng_platform_api/services/database_sort.py.
use gcp_engineering_platform.Base.{
  ℕ, zero, suc, ◌+◌, ◌≤◌, ◌<◌, Bool, true, false, List, [], ◌∷◌, ◌++◌, ◌≡◌, refl, ap, arith,
  Bool-cases, inl, inr, leb,
}
use gcp_engineering_platform.Python.Raise.{ok}
use gcp_engineering_platform.DatabaseSort.Order.{
  KeyOrder, Record, less, insert_record, sort, IsSorted,
}
use gcp_engineering_platform.DatabaseSort.Merge.{
  Item, flat, remaining, push, push_next, open_all, drain,
}
use gcp_engineering_platform.DatabaseSort.Sorted.{tally, tally-append, All}
use gcp_engineering_platform.DatabaseSort.Merged.{AllSorted}
use gcp_engineering_platform.DatabaseSort.Rows.{Table, row_record, size}
use gcp_engineering_platform.DatabaseSort.Runs.{
  Line, Storage, Run, lines, read_line, read_lines, records, all_records, rows_of,
}

pub All-append :
    {A : Type 0} (P : A → Type 0) (xs ys : List A) → All P xs → All P ys → All P (xs ++ ys)
All-append P [] ys h h' = h'
All-append P (x ∷ xs) ys h h' = (h.0, All-append P xs ys h.1 h')

pub All-split :
    {A : Type 0} (P : A → Type 0) (xs ys : List A) → All P (xs ++ ys) → All P xs × All P ys
All-split P [] ys h = (tt, h)
All-split P (x ∷ xs) ys h = let (here, there) = All-split P xs ys h.1 in ((h.0, here), there)

pub All-map :
    {A : Type 0} (P Q : A → Type 0) (xs : List A) → ((x : A) → P x → Q x) → All P xs → All Q xs
All-map P Q [] f h = tt
All-map P Q (x ∷ xs) f h = (f x h.0, All-map P Q xs f h.1)

pub size-tally : {A : Type 0} (xs : List A) → size xs ≡ tally (λ x. true) xs
unfolding size tally
size-tally [] = refl
size-tally (x ∷ xs) = omega (arith, size-tally xs)

pub size-append : {A : Type 0} (xs ys : List A) → size (xs ++ ys) ≡ size xs + size ys
unfolding size
size-append [] ys = omega arith
size-append (x ∷ xs) ys = omega (arith, size-append xs ys)

-- The test of a record's line.
abbrev pub on_line : {K : Type 0} → (Line → Bool) → Record K → Bool
on_line test r = test (r.ordinal, r.row)

pub tally-lines :
    {K : Type 0} (test : Line → Bool) (rs : List (Record K))
    → tally test (lines rs) ≡ tally (on_line test) rs
unfolding tally lines
tally-lines test [] = refl
tally-lines test (r ∷ rs) = omega (arith, tally-lines test rs)

module _ {K : Type 0} (order : KeyOrder K) (descending : Bool) (P : Record K → Type 0) where
  All-insert_record :
      (r : Record K) (rs : List (Record K))
      → P r
      → All P rs
      → All P (insert_record order descending r rs)
  unfolding insert_record
  All-insert_record r [] p h = (p, tt)
  All-insert_record r (q ∷ qs) p h = elim (Bool-cases (less order descending q r)) [
    | inl under ↦ rw under (h.0, All-insert_record r qs p h.1)
    | inr over ↦ rw over (p, h)
  ]

  pub All-sort : (rs : List (Record K)) → All P rs → All P (sort order descending rs)
  unfolding sort
  All-sort [] h = tt
  All-sort (r ∷ rs) h = All-insert_record r (sort order descending rs) h.0 (All-sort rs h.1)

  All-push :
      (r : Record K) (rest : List (Record K)) (heap : List (Item K))
      → All P (r ∷ rest)
      → All P (remaining heap)
      → All P (remaining (push order descending (r, rest) heap))
  unfolding push remaining
  All-push r rest [] p h = All-append P (r ∷ rest) [] p tt
  All-push r rest ((q, more) ∷ heap) p h = elim (Bool-cases (less order descending q r)) [
    | inl under ↦
        let (here, there) = All-split P more (remaining heap) h.1 in
        rw under (
          h.0,
          All-append P more (remaining (push order descending (r, rest) heap)) here
              (All-push r rest heap p there),
        )
    | inr over ↦ rw over (All-append P (r ∷ rest) (q ∷ more ++ remaining heap) p h)
  ]

  All-push_next :
      (rs : List (Record K)) (heap : List (Item K))
      → All P rs
      → All P (remaining heap)
      → All P (remaining (push_next order descending rs heap))
  unfolding push_next
  All-push_next [] heap p h = h
  All-push_next (r ∷ rest) heap p h = All-push r rest heap p h

  All-open_all :
      (runs : List (List (Record K))) (heap : List (Item K))
      → All P (flat runs)
      → All P (remaining heap)
      → All P (remaining (open_all order descending runs heap))
  unfolding open_all flat
  All-open_all [] heap p h = h
  All-open_all (run ∷ runs) heap p h =
      let (here, there) = All-split P run (flat runs) p in
      All-open_all runs (push_next order descending run heap) there (All-push_next run heap here h)

  All-drain :
      (n : ℕ) (heap : List (Item K))
      → All P (remaining heap)
      → All P (drain order descending n heap)
  unfolding drain remaining
  All-drain zero heap h = tt
  All-drain (suc n) [] h = tt
  All-drain (suc n) ((r, rest) ∷ heap) h =
      let (here, there) = All-split P rest (remaining heap) h.1 in
      (h.0, All-drain n (push_next order descending rest heap) (All-push_next rest heap here there))

  pub All-merged :
      (n : ℕ) (runs : List (List (Record K)))
      → All P (flat runs)
      → All P (drain order descending n (open_all order descending runs []))
  unfolding remaining
  All-merged n runs h = All-drain n (open_all order descending runs []) (All-open_all runs [] h tt)

module _ {K R : Type 0} (st : Storage R) (t : Table K) (order : KeyOrder K)
    (descending : Bool) where
  -- A record of a row that was captured before the given number of rows.
  abbrev pub IsMade : ℕ → Record K → Type 0
  IsMade n r = (r.ordinal < n) × (row_record t r.row r.ordinal ≡ ok r)

  -- The storage holds sorted records under a run.
  pub record IsKept (n : ℕ) (run : Run R) : Type 0 where
    pub found : List (Record K)
    pub content : st.read_run run.reference ≡ lines found
    pub count : run.row_count ≡ size found
    pub made : All (IsMade n) found
    pub sorted : IsSorted order descending found

  -- How many lines of runs pass a test.
  unfoldable pub stock : (Line → Bool) → List (Run R) → ℕ
  stock test [] = 0
  stock test (run ∷ runs) = tally test (st.read_run run.reference) + stock test runs

  pub stock-append :
      (test : Line → Bool) (runs more : List (Run R))
      → stock test (runs ++ more) ≡ stock test runs + stock test more
  unfolding stock
  stock-append test [] more = omega arith
  stock-append test (run ∷ runs) more = omega (arith, stock-append test runs more)

  pub IsMade-later : (n m : ℕ) → n ≤ m → (r : Record K) → IsMade n r → IsMade m r
  IsMade-later n m later r made = (omega (arith, later, made.0), made.1)

  pub IsKept-later : (n m : ℕ) → n ≤ m → (run : Run R) → IsKept n run → IsKept m run
  IsKept-later n m later run kept = record {
    found = kept.found;
    content = kept.content;
    count = kept.count;
    made = All-map (IsMade n) (IsMade m) kept.found (IsMade-later n m later) kept.made;
    sorted = kept.sorted;
  }

  pub IsKept-at :
      (n m : ℕ) (runs : List (Run R)) → m ≡ n → All (IsKept n) runs → All (IsKept m) runs
  IsKept-at n m runs same kept = rw same kept

  read_lines-made :
      (n : ℕ) (rs : List (Record K)) → All (IsMade n) rs → read_lines t n (lines rs) ≡ ok rs
  unfolding read_lines read_line lines
  read_lines-made n [] made = refl
  read_lines-made n (r ∷ rs) ((early, same), made) =
      let bound : leb n r.ordinal ≡ false = ground (arith, early) in
      rw (bound, same, read_lines-made n rs made) refl

  records-kept : (n : ℕ) (run : Run R) (kept : IsKept n run) → records st t run n ≡ ok kept.found
  unfolding records
  records-kept n run kept =
      rw (kept.content, read_lines-made n kept.found kept.made) (ground (arith, kept.count))

  -- The records of runs.
  pub record Found (n : ℕ) (runs : List (Run R)) : Type 0 where
    pub founds : List (List (Record K))
    pub read : all_records st t runs n ≡ ok founds
    pub all_sorted : AllSorted order descending founds
    pub all_made : All (IsMade n) (flat founds)
    pub all_lines : (test : Line → Bool) → tally (on_line test) (flat founds) ≡ stock test runs
    pub all_rows : size (flat founds) ≡ rows_of runs

  pub runs-Found : (n : ℕ) (runs : List (Run R)) → All (IsKept n) runs → Found n runs
  unfolding all_records flat stock rows_of tally size
  runs-Found n [] kept = record {
    founds = [];
    read = refl;
    all_sorted = tt;
    all_made = tt;
    all_lines = λ test. refl;
    all_rows = refl;
  }
  runs-Found n (run ∷ runs) (kept, more) =
      let rest = runs-Found n runs more in
      record {
        founds = kept.found ∷ rest.founds;
        read = rw (records-kept n run kept, rest.read) refl;
        all_sorted = (kept.sorted, rest.all_sorted);
        all_made = All-append (IsMade n) kept.found (flat rest.founds) kept.made rest.all_made;
        all_lines = λ test. omega (
          arith,
          tally-append (on_line test) kept.found (flat rest.founds),
          rest.all_lines test,
          tally-lines test kept.found,
          ap (tally test) kept.content,
        );
        all_rows =
            omega (arith, size-append kept.found (flat rest.founds), kept.count, rest.all_rows);
      }
