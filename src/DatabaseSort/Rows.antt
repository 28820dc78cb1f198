-- ===== src/DatabaseSort/Rows.antt =====
-- A captured row and its record: `_value_key` and `_row_record` of
-- src/eng_platform_api/services/database_sort.py.
use gcp_engineering_platform.Base.{
  ℕ, zero, suc, ◌+◌, ◌*◌, String, Bool, true, false, ◌||◌, not, List, [], ◌∷◌, ltb, nat_eq, elem,
  ◌==◌, Option, none, some, if◌then◌else◌,
}
use gcp_engineering_platform.Python.Value.{Value, null, bool, num, str, list, dict}
use gcp_engineering_platform.Python.Raise.{
  Result, ok, raise, ◌>>=◌, ◌>>◌, raise_if, resource_exceeded, unavailable,
}
use gcp_engineering_platform.DatabaseSort.Order.{Record}

-- `MAX_CELL_BYTES`
abbrev pub max_cell_bytes : ℕ
max_cell_bytes = 16384

-- `MAX_ROW_BYTES`
abbrev pub max_row_bytes : ℕ
max_row_bytes = 65536

-- `MAX_RECORD_BYTES`
abbrev pub max_record_bytes : ℕ
max_record_bytes = 65664

-- `_NUMERIC`
abbrev pub numeric : List String
numeric = "int2" ∷ "int4" ∷ "int8" ∷ "numeric" ∷ "float4" ∷ "float8" ∷ []

-- `_TEMPORAL`
abbrev pub temporal : List String
temporal = "date" ∷ "time" ∷ "timetz" ∷ "timestamp" ∷ "timestamptz" ∷ []

-- The captured table: the number of its columns, the selected one and its type; the lengths of JSON
-- texts; and how keys are made: of a text that is compared as it is, of a Boolean, of the decimal
-- number that a numeric cell reads as (`none` where `Decimal` raises InvalidOperation) and of a
-- temporal text.
pub record Table (K : Type 0) : Type 0 where
  pub width : ℕ
  pub selected : ℕ
  pub data_type : String
  pub cell_size : Value → ℕ
  pub row_size : List Value → ℕ
  pub line_size : ℕ → List Value → ℕ
  pub encoded : Value → String
  pub text_key : String → K
  pub bool_key : Bool → K
  pub decimal_key : Value → Option K
  pub temporal_key : String → String → Result K

-- `len` of a list
module _ {A : Type 0} where
  unfoldable pub size : List A → ℕ
  size [] = 0
  size (x ∷ xs) = suc (size xs)

-- A cell is a text, an int, a bool or None.
abbrev pub is_scalar : Value → Bool
is_scalar (list _) = false
is_scalar (dict _) = false
is_scalar _ = true

unfoldable pub all_scalar : List Value → Bool
all_scalar [] = true
all_scalar (v ∷ vs) = if is_scalar v then all_scalar vs else false

unfoldable pub any_over : (Value → ℕ) → List Value → Bool
any_over cell_size [] = false
any_over cell_size (v ∷ vs) = ltb max_cell_bytes (cell_size v) || any_over cell_size vs

unfoldable pub nth : ℕ → List Value → Value
nth n [] = null
nth zero (v ∷ vs) = v
nth (suc n) (v ∷ vs) = nth n vs

module _ {K : Type 0} where
  unfoldable pub numeric_key : Table K → Value → Result (Option K)
  numeric_key t (str s) = elim (t.decimal_key (str s)) [
    | none ↦ raise (resource_exceeded "Unsupported database sort numeric value")
    | some k ↦ ok (some k)
  ]
  numeric_key t (num n) = elim (t.decimal_key (num n)) [
    | none ↦ raise (resource_exceeded "Unsupported database sort numeric value")
    | some k ↦ ok (some k)
  ]
  numeric_key t _ = raise (resource_exceeded "Unsupported database sort numeric value")

  unfoldable pub boolean_key : Table K → Value → Result (Option K)
  boolean_key t (bool b) = ok (some (t.bool_key b))
  boolean_key t (str s) =
      if s == "false" || s == "true"
      then ok (some (t.bool_key (s == "true")))
      else raise (resource_exceeded "Unsupported database sort boolean value")
  boolean_key t _ = raise (resource_exceeded "Unsupported database sort boolean value")

  unfoldable pub moment_key : Table K → Value → Result (Option K)
  moment_key t (str s) = t.temporal_key s t.data_type >>= λ k. ok (some k)
  moment_key t _ = raise (resource_exceeded "Unsupported database sort temporal value")

  unfoldable pub lexical_key : Table K → Value → Result (Option K)
  lexical_key t (str s) = ok (some (t.text_key s))
  lexical_key t v = ok (some (t.text_key (t.encoded v)))

  -- A key of a value that is not None
  unfoldable pub typed_key : Table K → Value → Result (Option K)
  unfolding numeric_key boolean_key moment_key lexical_key
  typed_key t v =
      if elem t.data_type numeric
      then numeric_key t v
      else if t.data_type == "bool"
      then boolean_key t v
      else if elem t.data_type temporal
      then moment_key t v
      else lexical_key t v

  -- `_value_key`
  unfoldable pub value_key : Table K → Value → Result (Option K)
  unfolding typed_key
  value_key t null = ok none
  value_key t v = typed_key t v

  -- `_row_record`
  unfoldable pub row_record : Table K → List Value → ℕ → Result (Record K)
  unfolding all_scalar any_over nth value_key size
  row_record t row ordinal = do
    raise_if (not (nat_eq (size row) t.width)) (unavailable "Invalid database sort row")
    raise_if (not (all_scalar row)) (resource_exceeded "Unsupported database sort value")
    raise_if (any_over t.cell_size row)
        (resource_exceeded "Database sort cell size budget exceeded")
    raise_if (ltb max_row_bytes (t.row_size row + 1))
        (resource_exceeded "Database sort row size budget exceeded")
    key ← value_key t (nth t.selected row)
    raise_if (ltb max_record_bytes (t.line_size ordinal row))
        (resource_exceeded "Database sort record size budget exceeded")
    ok (record {
      ordinal = ordinal;
      row = row;
      raw = t.line_size ordinal row;
      key = key;
      cost = t.line_size ordinal row * 8 + t.width * 128 + 1024;
    })
