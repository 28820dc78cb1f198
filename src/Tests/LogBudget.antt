-- ===== src/Tests/LogBudget.antt =====
-- The log budget at concrete documents.
use gcp_engineering_platform.Base.{
  ℕ, ◌+◌, ◌*◌, ◌≤◌, String, true, false, List, [], ◌∷◌, none, some, ◌≡◌, ◌↔◌, refl, arith,
}
use gcp_engineering_platform.Release.Tokens.{is_hex_digest, all_hex}
use gcp_engineering_platform.Python.Raise.{ok}
use gcp_engineering_platform.LogBudget.Record.{
  Waiter, Budget, stored, second, cadence_seconds, is_token, is_participant, check_completion,
  check_permit, check_permits, is_charged, charged, check_waiter, check_waiters, is_alive, alive,
  check_budget, read_record,
}
use gcp_engineering_platform.LogBudget.Permits.{
  ceil_seconds, has_pending, index_of, touch, new_permit, granted, deferred, queued, with_grant,
  tail, settle, acquire, find_permit, complete_at, complete, same_budget, same_permits,
  same_waiters,
}
use gcp_engineering_platform.LogBudget.Swap.{
  Cell, Round, replied, written, decide, acquiring, compare_and_swap,
}
use gcp_engineering_platform.LogBudget.Atomic.{Linear, Rely, atomic, swap_is_atomic}
use gcp_engineering_platform.LogBudget.Valid.{has_token}
use gcp_engineering_platform.LogBudget.Writes.{reserve_writes_valid, finish_writes_valid}
use gcp_engineering_platform.LogBudget.Turn.{IsTurn, Told, grants_in_order, queue_answer}
use gcp_engineering_platform.LogBudget.History.{Op, op_reserve, op_finish, run, step, all_ops}
use gcp_engineering_platform.LogBudget.Grants.{grants_spaced}
use gcp_engineering_platform.LogBudget.Pending.{spares, pending_kept}

abbrev alice : String
alice = "aaaaaaaaaaaaaaaaaaaaaaaaaaaaaaaaaaaaaaaaaaaaaaaaaaaaaaaaaaaaaaaa"

abbrev bob : String
bob = "bbbbbbbbbbbbbbbbbbbbbbbbbbbbbbbbbbbbbbbbbbbbbbbbbbbbbbbbbbbbbbbb"

abbrev token_a : String
token_a = "0123456789abcdef0123456789abcdef"

abbrev token_b : String
token_b = "fedcba9876543210fedcba9876543210"

abbrev project : String
project = "quota-project"

-- Alice waits, and no permit is charged.
abbrev waiting : Budget
waiting = record {
  version = 3;
  quota_project_id = project;
  attempts = [];
  waiters = record { participant = alice; enqueued_at = 10; last_seen_at = 20 } ∷ [];
  next_due = 30;
  updated_at = 20;
}

abbrev cell : Cell
cell = record { document = stored waiting; revision = 4 }

abbrev touched : List Waiter
touched = record { participant = alice; enqueued_at = 10; last_seen_at = 40 } ∷ []

abbrev quiet : Round
quiet = record { now = 40; before = λ c. c; between = λ c. c; late = none; reply = replied }

-- Another client writes between the read and the write.
abbrev rival : Round
rival = record {
  now = 35;
  before = λ c. c;
  between = λ c. written waiting c;
  late = none;
  reply = replied;
}

abbrev Later : Cell → Type 0
Later c = 4 ≤ c.revision

abbrev Timely : ℕ → Type 0
Timely now = 30 ≤ now

quiet-Rely : Rely Later Timely quiet
quiet-Rely = record {
  before_keeps = λ c h. h;
  between_keeps = λ c h. h;
  between_honest = λ c h. refl;
  timely = omega arith;
}

rival-Rely : Rely Later Timely rival
rival-Rely = record {
  before_keeps = λ c h. h;
  between_keeps = λ c h. omega (arith, h);
  between_honest = λ c h. absurd (omega (arith, h));
  timely = omega arith;
}

swap_is_atomic_example :
    Linear Later Timely
      (acquiring alice token_a)
      project
      (compare_and_swap (acquiring alice token_a) project rival quiet quiet cell)
swap_is_atomic_example =
    swap_is_atomic Later Timely (acquiring alice token_a) project rival quiet quiet cell rival-Rely
      quiet-Rely quiet-Rely (omega arith)

-- The budget after Alice's permit.
abbrev holding : Budget
holding = record {
  version = 3;
  quota_project_id = project;
  attempts = new_permit 40 alice token_a ∷ [];
  waiters = [];
  next_due = 40 + cadence_seconds * second;
  updated_at = 40;
}

read_waiting : read_record 40 project (stored waiting) ≡ ok (waiting, [], waiting.waiters)
unfolding read_record check_budget check_permits check_waiters check_waiter charged alive is_alive
    is_participant is_hex_digest all_hex
read_waiting = refl

acquired : acquire 40 alice token_a waiting [] waiting.waiters ≡ (granted 40 token_a, some holding)
unfolding acquire has_pending index_of touch settle with_grant tail
acquired = refl

reserve_writes_valid_example :
    read_record 50 project (stored holding) ≡ ok (holding, charged 50 holding.attempts, alive 50 [])
unfolding is_token is_participant is_hex_digest all_hex has_token
reserve_writes_valid_example =
    reserve_writes_valid 40 50 project alice token_a (stored waiting) waiting holding []
      waiting.waiters (granted 40 token_a) read_waiting acquired refl refl refl (omega arith)

abbrev finished : Budget
finished = record {
  version = 3;
  quota_project_id = project;
  attempts =
      record { token = token_a; participant = alice; reserved_at = 40; completed_at = some 60 }
      ∷ [];
  waiters = [];
  next_due = 40 + cadence_seconds * second;
  updated_at = 60;
}

read_holding : read_record 60 project (stored holding) ≡ ok (holding, holding.attempts, [])
unfolding read_record check_budget check_permits check_permit check_completion check_waiters charged
    is_charged alive is_token is_participant is_hex_digest all_hex
read_holding = refl

completed : complete 60 alice token_a holding holding.attempts [] ≡ ok (tt, some finished)
unfolding complete find_permit complete_at
completed = refl

finish_writes_valid_example :
    read_record 70 project (stored finished)
    ≡ ok (finished, charged 70 finished.attempts, alive 70 [])
finish_writes_valid_example =
    finish_writes_valid 60 70 project alice token_a (stored holding) holding finished
      holding.attempts [] read_holding completed (omega arith)

grants_in_order_example :
    ((acquire 40 alice token_a waiting [] waiting.waiters).0.allowed ≡ true)
    ↔ IsTurn 40 alice waiting [] waiting.waiters
grants_in_order_example = grants_in_order 40 alice token_a waiting [] waiting.waiters

-- A wait of 2.49996 seconds, and the float of one that is longer than 544 years.
wait_example : (ceil_seconds 40 2500000 ≡ 3) × (ceil_seconds 0 18000000000000001 ≡ 18000000000)
unfolding ceil_seconds
wait_example = (refl, refl)

queue_answer_example : Told 40 waiting [] (acquire 40 bob token_b waiting [] waiting.waiters).0 2
unfolding acquire has_pending index_of settle queued
queue_answer_example = queue_answer 40 bob token_b waiting [] waiting.waiters 2 (omega arith) refl

-- Bob is granted the next permit six seconds later.
abbrev history : List (ℕ × Op)
history = (50, op_reserve bob token_b) ∷ []

first_answer : (atomic (acquiring alice token_a) project 40 cell).0 ≡ ok (granted 40 token_a)
unfolding atomic decide read_record check_budget check_permits check_waiters check_waiter charged
    alive is_alive is_participant is_hex_digest all_hex acquire has_pending index_of touch settle
first_answer = refl

second_answer :
    (atomic
      (acquiring bob token_b)
      project
      6000040
      (run project history (atomic (acquiring alice token_a) project 40 cell).1)).0
    ≡ ok (granted 6000040 token_b)
unfolding run step atomic decide read_record check_budget check_permits check_permit
    check_completion check_waiters check_waiter charged is_charged alive is_alive is_token
    is_participant is_hex_digest all_hex acquire has_pending index_of touch settle queued with_grant
    tail same_budget same_permits same_waiters
second_answer = refl

grants_spaced_example : 40 + cadence_seconds * second ≤ 6000040
grants_spaced_example =
    grants_spaced 40 6000040 project alice bob token_a token_b history cell (granted 40 token_a)
      (granted 6000040 token_b) first_answer refl second_answer refl

-- Bob's calls do not touch Alice's permit.
abbrev other_calls : List (ℕ × Op)
other_calls = (50, op_reserve bob token_b) ∷ (60, op_finish bob token_b) ∷ []

third_answer :
    (atomic
      (acquiring alice token_b)
      project
      6000040
      (run project other_calls (atomic (acquiring alice token_a) project 40 cell).1)).0
    ≡ ok (deferred 6000040 false "pending")
unfolding run step atomic decide read_record check_budget check_permits check_permit
    check_completion check_waiters check_waiter charged is_charged alive is_alive is_token
    is_participant is_hex_digest all_hex acquire has_pending index_of touch settle queued complete
    find_permit with_grant tail same_budget same_permits same_waiters
third_answer = refl

pending_kept_example : deferred 6000040 false "pending" ≡ deferred 6000040 false "pending"
unfolding all_ops spares
pending_kept_example =
    pending_kept 40 6000040 project alice token_a token_b other_calls cell (granted 40 token_a)
      (deferred 6000040 false "pending") first_answer refl refl third_answer
