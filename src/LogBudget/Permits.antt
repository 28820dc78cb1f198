-- ===== src/LogBudget/Permits.antt =====
-- What a call does to the record that it read: `_wait_seconds`, `acquire` of `reserve` and
-- `complete` of `finish` in src/eng_platform_api/services/log_budget.py.
use gcp_engineering_platform.Base.{
  ℕ, zero, suc, ◌+◌, ◌-◌, ◌*◌, ◌/◌, ◌%◌, ◌^◌, String, Bool, true, false, ◌&&◌, ◌||◌, not, List, [],
  ◌∷◌, ◌++◌, ◌==◌, ltb, leb, nat_eq, if◌then◌else◌, Option, none, some,
}
use gcp_engineering_platform.Python.Raise.{Result, ok, raise, runtime_error}
use gcp_engineering_platform.LogBudget.Record.{
  Permit, Waiter, Budget, second, charge, max_attempts, max_waiters, cadence_seconds, is_pending,
  length,
}

-- `Reservation`
pub record Reservation : Type 0 where
  pub allowed : Bool
  pub server_time : ℕ
  pub next_poll_seconds : ℕ
  pub token : String
  pub queue_position : Option ℕ
  pub queue_wait_seconds : Option ℕ
  pub overloaded : Bool
  pub deferral_reason : Option String

abbrev pub min : ℕ → ℕ → ℕ
min a b = if leb a b then a else b

abbrev pub max : ℕ → ℕ → ℕ
max a b = if leb a b then b else a

-- `(item["completed_at"] or now) + timedelta(seconds=60)`
unfoldable pub free_at : ℕ → Permit → ℕ
free_at now p = elim p.completed_at [ none ↦ now + charge | some t ↦ t + charge ]

-- The least of them.
unfoldable pub available : ℕ → Permit → List Permit → ℕ
unfolding free_at
available now p [] = free_at now p
available now p (q ∷ ps) = min (free_at now p) (available now q ps)

-- `due` of `_wait_seconds`
unfoldable pub due : ℕ → ℕ → List Permit → ℕ
unfolding available
due now next_due [] = next_due
due now next_due (p ∷ ps) =
    if leb max_attempts (length (p ∷ ps)) then max next_due (available now p ps) else next_due

-- `a / b` to the nearest integer, and to the even one of two that are as near.
unfoldable pub round_half_even : ℕ → ℕ → ℕ
round_half_even a b =
    let twice = a % b * 2 in
    if ltb b twice || (nat_eq twice b && nat_eq (a / b % 2) 1) then suc (a / b) else a / b

-- The bits after the binary point of the float that is next to a number with this integral part: its
-- 53 bits start at the highest bit of the number, or at 1 where the number is less than 1.
unfoldable pub fraction_bits : ℕ → ℕ → ℕ
fraction_bits zero n = 0
fraction_bits (suc bits) n = elim (ltb n 2) [ true ↦ suc bits | false ↦ fraction_bits bits (n / 2) ]

-- `math.ceil(delta.total_seconds())` of a positive number of microseconds: `total_seconds` divides by
-- 10 ** 6 to the nearest float, which `math.ceil` rounds up. Below one second the float has more bits
-- than here, and is rounded up to 1 all the same; beyond 2 ^ 53 seconds, which no two times differ by,
-- it has none after the point.
unfoldable pub ceil_float : ℕ → ℕ
unfolding round_half_even fraction_bits
ceil_float micros =
    let unit = 2 ^ fraction_bits 52 (micros / second) in
    (round_half_even (micros * unit) second + (unit - 1)) / unit

-- `max(0, math.ceil((due - now).total_seconds()))`
unfoldable pub ceil_seconds : ℕ → ℕ → ℕ
unfolding ceil_float
ceil_seconds now later = if leb later now then 0 else ceil_float (later - now)

-- `_wait_seconds`, at a position from 1.
unfoldable pub wait_seconds : ℕ → ℕ → List Permit → ℕ → ℕ
unfolding due ceil_seconds
wait_seconds now next_due attempts position =
    ceil_seconds now (due now next_due attempts) + (position - 1) * cadence_seconds

-- `any(item["participant"] == participant and item["completed_at"] is None for item in attempts)`
unfoldable pub has_pending : String → List Permit → Bool
has_pending who [] = false
has_pending who (p ∷ ps) = (p.participant == who && is_pending p) || has_pending who ps

-- The index of the participant's waiter.
unfoldable pub index_of : String → List Waiter → Option ℕ
index_of who [] = none
index_of who (w ∷ ws) =
    let rest = index_of who ws in
    if w.participant == who then some 0 else elim rest [ none ↦ none | some i ↦ some (suc i) ]

-- `waiters[index]["last_seen_at"] = now`
unfoldable pub touch : ℕ → ℕ → List Waiter → List Waiter
touch now i [] = []
touch now zero (w ∷ ws) = record w { last_seen_at = now } ∷ ws
touch now (suc i) (w ∷ ws) = w ∷ touch now i ws

abbrev pub new_waiter : ℕ → String → Waiter
new_waiter now who = record { participant = who; enqueued_at = now; last_seen_at = now }

abbrev pub new_permit : ℕ → String → String → Permit
new_permit now who token = record {
  token = token;
  participant = who;
  reserved_at = now;
  completed_at = none;
}

-- `waiters[1:]`
unfoldable pub tail : List Waiter → List Waiter
tail [] = []
tail (w ∷ ws) = ws

-- `a != b` of records, field by field
unfoldable pub same_time : Option ℕ → Option ℕ → Bool
same_time none none = true
same_time (some a) (some b) = nat_eq a b
same_time _ _ = false

unfoldable pub same_permits : List Permit → List Permit → Bool
unfolding same_time
same_permits [] [] = true
same_permits (p ∷ ps) (q ∷ qs) =
    (p.token == q.token
      && (p.participant == q.participant
          && (nat_eq p.reserved_at q.reserved_at && same_time p.completed_at q.completed_at)))
    && same_permits ps qs
same_permits _ _ = false

unfoldable pub same_waiters : List Waiter → List Waiter → Bool
same_waiters [] [] = true
same_waiters (v ∷ vs) (w ∷ ws) =
    (v.participant == w.participant
      && (nat_eq v.enqueued_at w.enqueued_at && nat_eq v.last_seen_at w.last_seen_at))
    && same_waiters vs ws
same_waiters _ _ = false

unfoldable pub same_budget : Budget → Budget → Bool
unfolding same_permits same_waiters
same_budget a b =
    nat_eq a.version b.version
    && (a.quota_project_id == b.quota_project_id
        && (same_permits a.attempts b.attempts
            && (same_waiters a.waiters b.waiters
                && (nat_eq a.next_due b.next_due && nat_eq a.updated_at b.updated_at))))

-- The answers of `reserve`.
abbrev pub deferred : ℕ → Bool → String → Reservation
deferred now overloaded reason = record {
  allowed = false;
  server_time = now;
  next_poll_seconds = 60;
  token = "";
  queue_position = none;
  queue_wait_seconds = none;
  overloaded = overloaded;
  deferral_reason = some reason;
}

abbrev pub granted : ℕ → String → Reservation
granted now token = record {
  allowed = true;
  server_time = now;
  next_poll_seconds = cadence_seconds;
  token = token;
  queue_position = none;
  queue_wait_seconds = none;
  overloaded = false;
  deferral_reason = none;
}

unfoldable pub queued : ℕ → ℕ → ℕ → ℕ → Reservation
queued now wait index attempts = record {
  allowed = false;
  server_time = now;
  next_poll_seconds = max cadence_seconds (min 10 wait);
  token = "";
  queue_position = some (index + 1);
  queue_wait_seconds = some wait;
  overloaded = false;
  deferral_reason =
      some (
        if leb max_attempts attempts then "budget" else if ltb 0 index then "queue" else "cadence");
}

-- `replacement`, and the same where a permit is granted.
abbrev pub refreshed : ℕ → Budget → List Permit → List Waiter → Budget
refreshed now r attempts waiters = record r {
  attempts = attempts;
  waiters = waiters;
  updated_at = now;
}

unfoldable pub with_grant : ℕ → String → String → Budget → List Permit → List Waiter → Budget
unfolding tail
with_grant now who token r attempts waiters = record r {
  attempts = attempts ++ new_permit now who token ∷ [];
  waiters = tail waiters;
  next_due = now + cadence_seconds * second;
  updated_at = now;
}

-- The rest of `acquire`, where the participant waits at an index.
unfoldable pub settle :
    ℕ → String → String → Budget → List Permit → List Waiter → ℕ → Reservation × Option Budget
unfolding with_grant wait_seconds queued same_budget
settle now who token r attempts waiters index =
    if nat_eq index 0 && (leb r.next_due now && ltb (length attempts) max_attempts)
    then (granted now token, some (with_grant now who token r attempts waiters))
    else (
      queued now (wait_seconds now r.next_due attempts (index + 1)) index (length attempts),
      if same_budget (refreshed now r attempts waiters) r
          then none
          else some (refreshed now r attempts waiters),
    )

-- `acquire`
unfoldable pub acquire :
    ℕ → String → String → Budget → List Permit → List Waiter → Reservation × Option Budget
unfolding has_pending index_of touch settle
acquire now who token r attempts waiters =
    if has_pending who attempts
    then (deferred now false "pending", none)
    else elim (index_of who waiters) [
      | none ↦
          if leb max_waiters (length waiters)
          then (deferred now true "overload", none)
          else settle now who token r attempts (waiters ++ new_waiter now who ∷ []) (length waiters)
      | some i ↦ settle now who token r attempts (touch now i waiters) i
    ]

-- `next((item for item in attempts if item["token"] == token), None)`
unfoldable pub find_permit : String → List Permit → Option Permit
find_permit token [] = none
find_permit token (p ∷ ps) = if p.token == token then some p else find_permit token ps

-- `permit["completed_at"] = now` of that permit
unfoldable pub complete_at : ℕ → String → List Permit → List Permit
complete_at now token [] = []
complete_at now token (p ∷ ps) =
    let rest = complete_at now token ps in
    if p.token == token then record p { completed_at = some now } ∷ ps else p ∷ rest

-- `complete`: the permit that was found belongs to the participant, and is pending or completed.
unfoldable pub complete :
    ℕ → String → String → Budget → List Permit → List Waiter → Result (Unit {0} × Option Budget)
unfolding find_permit complete_at
complete now who token r attempts waiters = elim (find_permit token attempts) [
  | none ↦ raise (runtime_error "Log reservation is missing")
  | some p ↦
      if not (p.participant == who)
      then raise (runtime_error "Log reservation is missing")
      else if is_pending p
      then ok (tt, some (refreshed now r (complete_at now token attempts) waiters))
      else ok (tt, none)
]
