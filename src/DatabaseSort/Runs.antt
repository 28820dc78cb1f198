-- ===== src/DatabaseSort/Runs.antt =====
-- Runs and their compaction: the state of `_sort_rows` and its `reserve`, `write`, `records`, `merge`,
-- `compact` and `add` in src/eng_platform_api/services/database_sort.py.
use gcp_engineering_platform.Base.{
  ℕ, zero, suc, ◌+◌, ◌*◌, Bool, true, false, ◌||◌, not, List, [], ◌∷◌, ◌++◌, ltb, leb, nat_eq,
  if◌then◌else◌,
}
use gcp_engineering_platform.Python.Value.{Value}
use gcp_engineering_platform.Python.Raise.{
  Result, ok, ◌>>=◌, ◌>>◌, raise_if, resource_exceeded, unavailable,
}
use gcp_engineering_platform.DatabaseSort.Order.{KeyOrder, Record}
use gcp_engineering_platform.DatabaseSort.Merge.{flat, open_all, drain}
use gcp_engineering_platform.DatabaseSort.Rows.{Table, row_record, max_record_bytes, size}

-- `MEMORY_BYTES`
abbrev pub memory_bytes : ℕ
memory_bytes = 32 * 1048576

-- `READ_CHUNK_BYTES`
abbrev pub read_chunk_bytes : ℕ
read_chunk_bytes = 1048576

-- `MERGE_FAN_IN`
abbrev pub merge_fan_in : ℕ
merge_fan_in = 8

-- `BATCH_ROWS`
abbrev pub batch_rows : ℕ
batch_rows = 16

-- A line of a run: an ordinal and a row.
abbrev pub Line : Type 0
Line = ℕ × List Value

-- The callbacks `write_run` and `read_run`, and the length of a reference's JSON text.
pub record Storage (R : Type 0) : Type 0 where
  pub write_run : ℕ → List Line → R
  pub read_run : R → List Line
  pub reference_size : R → ℕ

-- `_Run`
pub record Run (R : Type 0) : Type 0 where
  pub reference : R
  pub row_count : ℕ
  pub level : ℕ

-- The variables of `_sort_rows`, and the references given to `delete_run`.
pub record Sorter (R : Type 0) : Type 0 where
  pub levels : List (List (Run R))
  pub run_count : ℕ
  pub merge_passes : ℕ
  pub memory_peak : ℕ
  pub row_count : ℕ
  pub byte_count : ℕ
  pub erased : List R

module _ {R : Type 0} where
  unfoldable pub metadata : Storage R → List (Run R) → ℕ
  metadata st [] = 0
  metadata st (run ∷ runs) = st.reference_size run.reference * 8 + 1024 + metadata st runs

  -- `reserve`
  unfoldable pub reserve : Storage R → ℕ → Sorter R → Result (Sorter R)
  unfolding metadata flat
  reserve st needed s = do
    let total = needed + metadata st (flat s.levels)
    raise_if (ltb memory_bytes total) (resource_exceeded "Database sort memory budget exceeded")
    ok (record s { memory_peak = if leb s.memory_peak total then total else s.memory_peak })

  unfoldable pub rows_of : List (Run R) → ℕ
  rows_of [] = 0
  rows_of (run ∷ runs) = run.row_count + rows_of runs

  unfoldable pub max_level : List (Run R) → ℕ
  max_level [] = 0
  max_level (run ∷ runs) = if leb run.level (max_level runs) then max_level runs else run.level

  unfoldable pub references : List (Run R) → List R
  references [] = []
  references (run ∷ runs) = run.reference ∷ references runs

  -- `levels[run.level].append(run)`, with the levels up to it.
  unfoldable pub put_run : ℕ → Run R → List (List (Run R)) → List (List (Run R))
  put_run zero run [] = (run ∷ []) ∷ []
  put_run zero run (level ∷ levels) = (level ++ run ∷ []) ∷ levels
  put_run (suc n) run [] = [] ∷ put_run n run []
  put_run (suc n) run (level ∷ levels) = level ∷ put_run n run levels

  -- `levels[n]`
  unfoldable pub level_at : ℕ → List (List (Run R)) → List (Run R)
  level_at n [] = []
  level_at zero (level ∷ levels) = level
  level_at (suc n) (level ∷ levels) = level_at n levels

  -- `levels[n] = []`
  unfoldable pub clear_level : ℕ → List (List (Run R)) → List (List (Run R))
  clear_level n [] = []
  clear_level zero (level ∷ levels) = [] ∷ levels
  clear_level (suc n) (level ∷ levels) = level ∷ clear_level n levels

module _ {K : Type 0} where
  -- The lines of records.
  unfoldable pub lines : List (Record K) → List Line
  lines [] = []
  lines (r ∷ rs) = (r.ordinal, r.row) ∷ lines rs

  -- A line that was read, as a record.
  unfoldable pub read_line : Table K → ℕ → Line → Result (Record K)
  read_line t rows (ordinal, row) =
      raise_if (leb rows ordinal) (unavailable "Invalid database sort record")
      >> row_record t row ordinal

  unfoldable pub read_lines : Table K → ℕ → List Line → Result (List (Record K))
  unfolding read_line
  read_lines t rows [] = ok []
  read_lines t rows (line ∷ rest) =
      read_line t rows line >>= λ r. read_lines t rows rest >>= λ rs. ok (r ∷ rs)

module _ {K R : Type 0} (st : Storage R) (t : Table K) where
  -- `write`
  unfoldable pub write : List (Record K) → ℕ → ℕ → Sorter R → Result (Run R × Sorter R)
  unfolding lines
  write records count level s = do
    raise_if (not (nat_eq (size records) count)) (unavailable "Invalid database sort run")
    ok (
      record {
        reference = st.write_run s.run_count (lines records);
        row_count = count;
        level = level;
      },
      record s { run_count = suc s.run_count },
    )

  -- `records`
  unfoldable pub records : Run R → ℕ → Result (List (Record K))
  unfolding read_lines
  records run rows = do
    found ← read_lines t rows (st.read_run run.reference)
    raise_if (not (nat_eq (size found) run.row_count))
        (unavailable "Invalid database sort run count")
    ok found

  unfoldable pub all_records : List (Run R) → ℕ → Result (List (List (Record K)))
  unfolding records
  all_records [] rows = ok []
  all_records (run ∷ runs) rows =
      records run rows >>= λ rs. all_records runs rows >>= λ rss. ok (rs ∷ rss)

-- What a merge of so many runs reserves.
unfoldable pub merge_memory : ℕ → ℕ
merge_memory n =
    n * (read_chunk_bytes * 2 + max_record_bytes * 10)
    + (batch_rows + 1) * (max_record_bytes * 8 + 100 * 128 + 1024)

module _ {K R : Type 0} (st : Storage R) (t : Table K) (order : KeyOrder K)
    (descending : Bool) where
  -- `merge`
  unfoldable pub merge : List (Run R) → Sorter R → Result (List (Record K) × Sorter R)
  unfolding reserve all_records merge_memory
  merge group s = do
    raise_if (ltb (size group) 1 || ltb merge_fan_in (size group))
        (resource_exceeded "Database sort merge budget exceeded")
    s' ← reserve st (merge_memory (size group)) s
    found ← all_records st t group s'.row_count
    ok (drain order descending (size (flat found)) (open_all order descending found []), s')

  -- `compact`
  unfoldable pub compact : List (Run R) → Sorter R → Result (Run R × Sorter R)
  unfolding merge write rows_of max_level references
  compact group s = do
    let level = suc (max_level group)
    (merged, s1) ← merge group s
    (run, s2) ← write st t merged (rows_of group) level s1
    ok (
      run,
      record s2 {
        merge_passes = if leb s2.merge_passes level then level else s2.merge_passes;
        erased = s2.erased ++ references group;
      },
    )

  -- `add`, with a unit of fuel for each call of itself.
  unfoldable pub add : ℕ → Run R → Sorter R → Result (Sorter R)
  unfolding put_run level_at clear_level compact
  add zero run s = ok s
  add (suc n) run s = do
    s' ← reserve st 0 (record s { levels = put_run run.level run s.levels })
    elim (nat_eq (size (level_at run.level s'.levels)) merge_fan_in) [
      | true ↦ compact (level_at run.level s'.levels) s' >>= λ v.
          add n v.0 (record v.1 { levels = clear_level run.level v.1.levels })
      | false ↦ ok s'
    ]
