-- ===== src/Python/Raise.antt =====
-- Exceptions of the services as values, and the process around them: clock, configuration and the
-- builtins `str` and `int` on what they do not convert structurally.
use gcp_engineering_platform.Base.{
  ℕ, zero, suc, ◌+◌, ◌/◌, ◌%◌, String, Bool, true, false, not, ◌||◌, Option, none, some, ◌==◌, ltb,
  if◌then◌else◌, ◌≡◌, refl,
}
use Prim.Native.String.{slice, ◌++◌ as str_append}
use gcp_engineering_platform.Python.Value.{
  Value, null, bool, num, str, list, dict, empty_list, element, empty, entry, bit,
}

-- The exceptions that the modelled code raises, with their messages.
pub data Error : Type 0 where
  value_error : String → Error
  key_error : String → Error
  runtime_error : String → Error
  type_error : Error
  http_error : ℕ → Error
  timeout_error : Error
  resource_exceeded : String → Error
  unavailable : String → Error

pub data Result (A : Type 0) : Type 0 where
  ok : A → Result A
  raise : Error → Result A

infixl 5 ◌>>=◌ ◌>>◌
abbrev pub ◌>>=◌ : {A B : Type 0} → Result A → (A → Result B) → Result B
raise e >>= _ = raise e
ok a >>= next = next a

abbrev pub ◌>>◌ : {B : Type 0} → Result (Unit {0}) → Result B → Result B
ok _ >> k = k
raise e >> k = raise e

-- `if condition: raise error`
abbrev pub raise_if : Bool → Error → Result (Unit {0})
raise_if true e = raise e
raise_if false e = ok tt

-- `if condition: m` for a block `m` that only checks
abbrev pub run_if : Bool → Result (Unit {0}) → Result (Unit {0})
run_if true m = m
run_if false m = ok tt

-- What a chain that ends well went through.
pub >>-ok :
    {A : Type 0} (m : Result (Unit {0})) (k : Result A) {a : A}
    → (m >> k) ≡ ok a
    → (m ≡ ok tt) × (k ≡ ok a)
>>-ok (ok tt) k h = (refl, h)
>>-ok (raise error) k h = cc

pub bind-ok :
    {A B : Type 0} (m : Result A) (k : A → Result B) {b : B}
    → (m >>= k) ≡ ok b
    → (a : A) × (m ≡ ok a) × (k a ≡ ok b)
bind-ok (ok a) k h = (a, refl, h)
bind-ok (raise error) k h = cc

pub passes :
    {A : Type 0} (test : Bool) (error : Error) (k : Result A) {a : A}
    → (raise_if test error >> k) ≡ ok a
    → (test ≡ false) × (k ≡ ok a)
passes true error k h = cc
passes false error k h = (refl, h)

-- What a call reads from its process: the UTC clock at the call, the settings of `config` that the
-- modelled code tests, and Python's own conversions: `repr` is `str` of a non-empty container,
-- `parse_int` is `int` of a text (`none` where it raises ValueError), `is_digit`, `lower` and
-- `strip` are the methods of `str`, `digest` is the SHA-256 hex digest of a text, and `dumps` and
-- `dumps_compact` are `json.dumps` with the keys sorted and with the shortest separators.
pub record Env : Type 0 where
  pub now : String
  pub mock_mode : Bool
  pub orchestrator_enabled : Bool
  pub execution_collection : String
  pub deployment_collection : String
  pub circuit_collection : String
  pub cloud_build_enabled : Bool
  pub new_builds_enabled : Bool
  pub repr : Value → String
  pub parse_int : String → Option ℕ
  pub is_digit : String → Bool
  pub lower : String → String
  pub digest : String → String
  pub strip : String → String
  pub dumps : Value → String
  pub dumps_compact : Value → String

digit : ℕ → String
digit d = slice "0123456789" d (d + 1)

-- The digits of `n`, at most `fuel` of them.
digits : ℕ → ℕ → String
unfolding digit
digits zero n = ""
digits (suc fuel) n =
    let rest = digits fuel (n / 10) in
    if ltb n 10 then digit n else str_append rest (digit (n % 10))

-- `str(n)` of an int. A number has at most `n + 1` digits.
unfoldable pub show_num : ℕ → String
unfolding digits
show_num n = digits (suc n) n

-- `str(v)`
unfoldable pub to_str : Env → Value → String
unfolding show_num
to_str e null = "None"
to_str e (bool true) = "True"
to_str e (bool false) = "False"
to_str e (num n) = show_num n
to_str e (str s) = s
to_str e (list empty_list) = "[]"
to_str e (list (element v xs)) = e.repr (list (element v xs))
to_str e (dict empty) = "{}"
to_str e (dict (entry k v d)) = e.repr (dict (entry k v d))

int_of : Option ℕ → Result ℕ
int_of none = raise (value_error "invalid literal for int()")
int_of (some n) = ok n

-- `int(v)`
unfoldable pub to_int : Env → Value → Result ℕ
unfolding int_of
to_int e null = raise type_error
to_int e (bool b) = ok (bit b)
to_int e (num n) = ok n
to_int e (str s) = int_of (e.parse_int s)
to_int e (list _) = raise type_error
to_int e (dict _) = raise type_error

-- `_collection()` of release_executions.py is not None: documents are kept in Firestore.
abbrev pub persistent : Env → Bool
persistent e = not (e.mock_mode || not e.orchestrator_enabled || e.execution_collection == "")

-- `require_new_builds` of cloud_build_policy.py
unfoldable pub require_new_builds : Env → Result (Unit {0})
require_new_builds e =
    raise_if (not e.cloud_build_enabled || not e.new_builds_enabled) (http_error 409)

show_num_example : show_num 1306 ≡ "1306"
unfolding show_num
show_num_example = refl
