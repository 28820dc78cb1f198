-- ===== src/LogBudget/Record.antt =====
-- The document of the log budget and its validation: the constants, `_timestamp` and `_record` of
-- src/eng_platform_api/services/log_budget.py. A time is a number of microseconds.
use Prim.Native.String.{count}
use gcp_engineering_platform.Base.{
  ℕ, suc, ◌+◌, String, Bool, true, false, ◌&&◌, ◌||◌, not, List, [], ◌∷◌, ◌==◌, ltb, leb, nat_eq,
  elem, if◌then◌else◌, Option, none, some,
}
use gcp_engineering_platform.Python.Raise.{Result, ok, raise, runtime_error, ◌>>=◌, ◌>>◌, raise_if}
use gcp_engineering_platform.Release.Tokens.{is_hex_digest, all_hex}

abbrev pub second : ℕ
second = 1000000

-- `MAX_ATTEMPTS`
abbrev pub max_attempts : ℕ
max_attempts = 12

-- `MAX_WAITERS`
abbrev pub max_waiters : ℕ
max_waiters = 4096

-- `CADENCE_SECONDS`
abbrev pub cadence_seconds : ℕ
cadence_seconds = 5

-- `SCHEMA_VERSION`
abbrev pub schema_version : ℕ
schema_version = 3

-- How long a completed permit stays charged: `timedelta(seconds=60)`.
abbrev pub charge : ℕ
charge = 60000000

-- How long a waiter is kept that does not poll: `timedelta(seconds=WAITER_TTL_SECONDS)`.
abbrev pub patience : ℕ
patience = 35000000

-- A permit of `attempts`.
pub record Permit : Type 0 where
  pub token : String
  pub participant : String
  pub reserved_at : ℕ
  pub completed_at : Option ℕ

-- A waiter of `waiters`.
pub record Waiter : Type 0 where
  pub participant : String
  pub enqueued_at : ℕ
  pub last_seen_at : ℕ

-- The document.
pub record Budget : Type 0 where
  pub version : ℕ
  pub quota_project_id : String
  pub attempts : List Permit
  pub waiters : List Waiter
  pub next_due : ℕ
  pub updated_at : ℕ

-- What a snapshot holds: no document, one whose keys or types are not those of a budget (which the
-- `isinstance` tests and the tests of key sets of `_record` refuse), or a budget.
pub data Stored : Type 0 where
  missing : Stored
  malformed : Stored
  stored : Budget → Stored

module _ {ℓ} {A : Type ℓ} where
  abbrev pub length : List A → ℕ
  length [] = 0
  length (x ∷ xs) = suc (length xs)

-- `_TOKEN`
unfoldable pub is_token : String → Bool
is_token text = nat_eq (count text) 32 && all_hex text

-- `_PARTICIPANT`
unfoldable pub is_participant : String → Bool
is_participant text = is_hex_digest text

-- The completion of a permit, whose participant may have one pending permit only.
unfoldable pub check_completion : ℕ → List String → String → ℕ → Option ℕ → Result (Unit {0})
check_completion now pending who reserved none =
    raise_if (elem who pending) (runtime_error "Duplicate pending log budget participant")
check_completion now pending who reserved (some completed) = do
  raise_if (ltb now completed) (runtime_error "Invalid log budget timestamp")
  raise_if (ltb completed reserved) (runtime_error "Invalid log budget completion")

-- One round of the loop over the permits.
unfoldable pub check_permit : ℕ → List String → List String → Permit → Result (Unit {0})
unfolding check_completion
check_permit now seen pending p = do
  raise_if (not (is_token p.token) || (elem p.token seen || not (is_participant p.participant)))
      (runtime_error "Invalid log budget identity")
  raise_if (ltb now p.reserved_at) (runtime_error "Invalid log budget timestamp")
  check_completion now pending p.participant p.reserved_at p.completed_at

-- The permit is not completed.
abbrev pub is_pending : Permit → Bool
is_pending p = elim p.completed_at [ none ↦ true | some _ ↦ false ]

-- `seen_tokens` and `pending` after the loop over the permits: the latter is the result.
unfoldable pub check_permits : ℕ → List String → List String → List Permit → Result (List String)
unfolding check_permit
check_permits now seen pending [] = ok pending
check_permits now seen pending (p ∷ ps) =
    check_permit now seen pending p
    >> check_permits now (p.token ∷ seen)
        (if is_pending p then p.participant ∷ pending else pending) ps

-- A permit that is still charged: pending, or completed less than 60 seconds ago.
unfoldable pub is_charged : ℕ → Permit → Bool
is_charged now p = elim p.completed_at [ none ↦ true | some t ↦ ltb now (t + charge) ]

unfoldable pub charged : ℕ → List Permit → List Permit
charged now [] = []
charged now (p ∷ ps) = let rest = charged now ps in if is_charged now p then p ∷ rest else rest

-- One round of the loop over the waiters. No waiter before the first is a previous time of 0.
unfoldable pub check_waiter : ℕ → List String → List String → ℕ → Waiter → Result (Unit {0})
check_waiter now pending seen previous w = do
  raise_if
      (not (is_participant w.participant)
        || (elem w.participant seen || elem w.participant pending))
      (runtime_error "Invalid log budget waiter identity")
  raise_if (ltb now w.enqueued_at || ltb now w.last_seen_at)
      (runtime_error "Invalid log budget timestamp")
  raise_if (ltb w.last_seen_at w.enqueued_at || ltb w.enqueued_at previous)
      (runtime_error "Invalid log budget waiter order")

unfoldable pub check_waiters : ℕ → List String → List String → ℕ → List Waiter → Result (Unit {0})
unfolding check_waiter
check_waiters now pending seen previous [] = ok tt
check_waiters now pending seen previous (w ∷ ws) =
    check_waiter now pending seen previous w
    >> check_waiters now pending (w.participant ∷ seen) w.enqueued_at ws

-- A waiter that polled within its time to live.
unfoldable pub is_alive : ℕ → Waiter → Bool
is_alive now w = leb now (w.last_seen_at + patience)

unfoldable pub alive : ℕ → List Waiter → List Waiter
alive now [] = []
alive now (w ∷ ws) = let rest = alive now ws in if is_alive now w then w ∷ rest else rest

-- The record of a missing document.
unfoldable pub initial : ℕ → String → Budget
initial now project = record {
  version = schema_version;
  quota_project_id = project;
  attempts = [];
  waiters = [];
  next_due = now;
  updated_at = now;
}

-- The checks of `_record` on a budget.
unfoldable pub check_budget : ℕ → String → Budget → Result (Unit {0})
check_budget now project b = do
  raise_if (not (nat_eq b.version schema_version) || not (b.quota_project_id == project))
      (runtime_error "Incompatible log budget record")
  raise_if (ltb now b.updated_at) (runtime_error "Invalid log budget timestamp")
  raise_if (ltb max_attempts (length b.attempts) || ltb max_waiters (length b.waiters))
      (runtime_error "Invalid log budget record")
  pending ← check_permits now [] [] b.attempts
  check_waiters now pending [] 0 b.waiters

-- `_record`: the record, its charged permits and its waiters that are alive.
unfoldable pub read_record : ℕ → String → Stored → Result (Budget × List Permit × List Waiter)
unfolding check_budget initial
read_record now project missing = ok (initial now project, [], [])
read_record now project malformed = raise (runtime_error "Incompatible log budget record")
read_record now project (stored b) =
    check_budget now project b >> ok (b, charged now b.attempts, alive now b.waiters)
