-- ===== src/Tests/DatabaseSort.antt =====
-- The external sort on a small capture.
use gcp_engineering_platform.Base.{
  ◌≤◌, ℕ, zero, suc, ◌%◌, String, true, not, List, [], ◌∷◌, ltb, nat_eq, Option, none, some, ◌≡◌,
  refl, arith,
}
use gcp_engineering_platform.Python.Value.{Value, null, num, str}
use gcp_engineering_platform.Python.Raise.{Result, ok, raise, type_error}
use gcp_engineering_platform.DatabaseSort.Order.{
  KeyOrder, Record, less_keys, less, insert_record, sort, less-distinct,
}
use gcp_engineering_platform.DatabaseSort.Merge.{flat, push, push_next, open_all, drain}
use gcp_engineering_platform.DatabaseSort.Rows.{
  Table, row_record, size, all_scalar, any_over, nth, value_key, typed_key, numeric_key,
}
use gcp_engineering_platform.DatabaseSort.Runs.{
  memory_bytes, Line, Storage, lines, reserve, metadata, rows_of, max_level, references, put_run,
  level_at, clear_level, read_line, read_lines, records, all_records, write, merge, merge_memory,
  compact, add,
}
use gcp_engineering_platform.DatabaseSort.Output.{
  Sorted, first, after, batches_of, start, flush, flush_if, absorb, absorb_all, shrink, last_merge,
  finish, sort_rows,
}
use gcp_engineering_platform.DatabaseSort.Steps.{IsDurable}
use gcp_engineering_platform.DatabaseSort.Errors.{Ends}
use gcp_engineering_platform.DatabaseSort.Deleted.{sort_tidies_up}
use gcp_engineering_platform.DatabaseSort.Refused.{IsRefusal, sort_rows-Ends}

numbers : KeyOrder ℕ
numbers = record {
  same = nat_eq;
  before = ltb;
  same_is = λ a b. ground arith;
  asymmetric = λ a b h. ground (arith, h);
  weak = λ a b c h h'. ground (arith, h, h');
}

number_of : Value → Option ℕ
number_of (num n) = some n
number_of _ = none

abbrev table : Table ℕ
table = record {
  width = 2;
  selected = 0;
  data_type = "int4";
  cell_size = λ v. 10;
  row_size = λ row. 30;
  line_size = λ n row. 65000;
  encoded = λ v. "";
  text_key = λ s. 0;
  bool_key = λ b. 0;
  decimal_key = number_of;
  temporal_key = λ s kind. raise type_error;
}

-- A storage whose references hold the lines themselves.
abbrev storage : Storage (List Line)
storage = record { write_run = λ n ls. ls; read_run = λ ls. ls; reference_size = λ ls. 100 }

storage-IsDurable : IsDurable storage
storage-IsDurable n ls = refl

abbrev row : Value → String → List Value
row v name = v ∷ str name ∷ []

-- Rows whose lines are so long that sixteen of them make a run.
many : ℕ → List (List Value)
many zero = row null "last" ∷ []
many (suc n) = row (num (n % 5)) "x" ∷ many n

abbrev captured : List (List Value)
captured = many 19

sort_capture : Result (Sorted (List Line))
unfolding many numbers number_of sort_rows absorb_all absorb finish start flush flush_if shrink
    last_merge first after batches_of add compact merge merge_memory write all_records records
    read_lines read_line clear_level level_at put_run references max_level rows_of metadata reserve
    lines numeric_key typed_key value_key nth any_over all_scalar size row_record drain open_all
    push_next push flat sort insert_record less less_keys
sort_capture = sort_rows storage table numbers true captured

abbrev out_of : Result (Sorted (List Line)) → Sorted (List Line)
out_of (ok out) = out
out_of (raise e) = record { batches = []; final = start }

runs_written : (out_of sort_capture).final.run_count ≡ 2
unfolding sort_capture
runs_written = refl

abbrev record_of : Option ℕ → ℕ → Record ℕ
record_of key n = record { ordinal = n; row = []; raw = 0; key = key; cost = 0 }

less-distinct_example :
    less numbers true (record_of (some 3) 0) (record_of (some 3) 3)
    ≡ not (less numbers true (record_of (some 3) 3) (record_of (some 3) 0))
less-distinct_example =
    less-distinct numbers true (record_of (some 3) 0) (record_of (some 3) 3) (λ h. omega (arith, h))

sort_rows-Ends_example :
    Ends (IsRefusal table captured) (sort_rows storage table numbers true captured)
sort_rows-Ends_example = sort_rows-Ends storage table numbers true storage-IsDurable captured

sort_tidies_up_example :
    (size (out_of sort_capture).final.erased ≡ (out_of sort_capture).final.run_count)
    × ((out_of sort_capture).final.memory_peak ≤ memory_bytes)
unfolding sort_capture
sort_tidies_up_example =
    sort_tidies_up storage table numbers true captured (out_of sort_capture) refl
