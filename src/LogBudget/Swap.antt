-- ===== src/LogBudget/Swap.antt =====
-- Compare-and-swap on the document of the log budget: `_compare_and_swap`, `reserve` and `finish` of
-- src/eng_platform_api/services/log_budget.py.
use gcp_engineering_platform.Base.{
  ℕ, suc, String, Bool, true, false, ◌&&◌, ◌||◌, not, List, [], ◌∷◌, nat_eq, if◌then◌else◌, Option,
  none, some,
}
use gcp_engineering_platform.Python.Raise.{
  Result, ok, raise, value_error, runtime_error, timeout_error, ◌>>=◌,
}
use gcp_engineering_platform.LogBudget.Record.{
  Permit, Waiter, Budget, Stored, missing, stored, is_participant, is_token, read_record,
}
use gcp_engineering_platform.LogBudget.Permits.{Reservation, acquire, complete}

-- The document and the number of writes that made it, which its update time stands for.
pub record Cell : Type 0 where
  pub document : Stored
  pub revision : ℕ

-- What a call does with the record that it read: its result, and what replaces the record.
abbrev pub Transform : Type 0 → Type 0
Transform A = ℕ → Budget → List Permit → List Waiter → Result (A × Option Budget)

-- The places of a round where `deadline.remaining()` is called.
pub data Stage : Type 0 where
  reading recording deciding writing replying : Stage

-- How the write RPC ends, a definite conflict aside: an unknown outcome was persisted or not.
pub data Reply : Type 0 where
  replied lost lost_after_write : Reply

-- What a round meets: the server's read time, what other clients write before the read and between
-- the read and the write, the place where the deadline is found expired, and the reply.
pub record Round : Type 0 where
  pub now : ℕ
  pub before : Cell → Cell
  pub between : Cell → Cell
  pub late : Option Stage
  pub reply : Reply

abbrev pub same_stage : Stage → Stage → Bool
same_stage reading reading = true
same_stage recording recording = true
same_stage deciding deciding = true
same_stage writing writing = true
same_stage replying replying = true
same_stage _ _ = false

unfoldable pub is_late : Stage → Option Stage → Bool
is_late stage none = false
is_late stage (some s) = same_stage stage s

abbrev pub is_missing : Stored → Bool
is_missing missing = true
is_missing _ = false

-- `AlreadyExists`, `FailedPrecondition` and `NotFound` aside, the write is accepted: a create where
-- there is no document, an update where there is the version that was read.
unfoldable pub accepts : Cell → Cell → Bool
accepts seen current =
    if is_missing seen.document
    then is_missing current.document
    else not (is_missing current.document) && nat_eq seen.revision current.revision

abbrev pub written : Budget → Cell → Cell
written b c = record { document = stored b; revision = suc c.revision }

-- A round ends the call, or meets a conflict.
pub data Outcome (A : Type 0) : Type 0 where
  done : Result A → Outcome A
  conflict : Outcome A

module _ {A : Type 0} where
  -- What the call decides on a snapshot.
  unfoldable pub decide : Transform A → ℕ → String → Stored → Result (A × Option Budget)
  decide f now project document = read_record now project document >>= λ v. f now v.0 v.1 v.2

  -- The end of a round that writes: whether the write is accepted, and whether the deadline is found
  -- expired after it.
  unfoldable pub finish_write : Reply → Bool → Bool → Cell → A → Budget → Outcome A × Cell
  finish_write replied true false c a b = (done (ok a), written b c)
  finish_write replied true true c a b = (done (raise timeout_error), written b c)
  finish_write replied false _ c a b = (conflict, c)
  finish_write lost _ _ c a b = (done (raise (runtime_error "Log budget write is unknown")), c)
  finish_write lost_after_write true _ c a b =
      (done (raise (runtime_error "Log budget write is unknown")), written b c)
  finish_write lost_after_write false _ c a b =
      (done (raise (runtime_error "Log budget write is unknown")), c)

  unfoldable pub decided_round : Round → Cell → Result (A × Option Budget) → Outcome A × Cell
  unfolding finish_write accepts is_late
  decided_round r seen (raise error) = (done (raise error), seen)
  decided_round r seen (ok (a, none)) =
      if is_late deciding r.late then (done (raise timeout_error), seen) else (done (ok a), seen)
  decided_round r seen (ok (a, some b)) =
      if is_late deciding r.late || is_late writing r.late
      then (done (raise timeout_error), seen)
      else finish_write r.reply (accepts seen (r.between seen)) (is_late replying r.late)
          (r.between seen) a b

  -- One round of the loop of `_compare_and_swap`.
  unfoldable pub round : Transform A → String → Round → Cell → Outcome A × Cell
  unfolding decide decided_round
  round f project r c =
      if is_late reading r.late || is_late recording r.late
      then (done (raise timeout_error), r.before c)
      else decided_round r (r.before c) (decide f r.now project (r.before c).document)

  -- A round that ends the call, or else the rounds after it.
  unfoldable pub resume : (Cell → Result A × Cell) → Outcome A × Cell → Result A × Cell
  resume rest (done a, c) = (a, c)
  resume rest (conflict, c) = rest c

  unfoldable pub swap_rounds : Transform A → String → List Round → Cell → Result A × Cell
  unfolding round resume
  swap_rounds f project [] c = (raise (runtime_error "Log budget is contended"), c)
  swap_rounds f project (r ∷ rs) c = resume (swap_rounds f project rs) (round f project r c)

  -- `_compare_and_swap`, with the `MAX_CAS_ATTEMPTS` rounds that it meets.
  unfoldable pub compare_and_swap :
      Transform A → String → Round → Round → Round → Cell → Result A × Cell
  unfolding swap_rounds
  compare_and_swap f project r r' r'' c = swap_rounds f project (r ∷ r' ∷ r'' ∷ []) c

-- `acquire`, as a transform
abbrev pub acquiring : String → String → Transform Reservation
acquiring who token now r attempts waiters = ok (acquire now who token r attempts waiters)

-- `complete`, as a transform
abbrev pub completing : String → String → Transform (Unit {0})
completing who token now r attempts waiters = complete now who token r attempts waiters

-- `reserve`, with the token that `uuid4` answers.
unfoldable pub reserve :
    String → String → String → Round → Round → Round → Cell → Result Reservation × Cell
unfolding compare_and_swap
reserve project who token r r' r'' c =
    if is_participant who
    then compare_and_swap (acquiring who token) project r r' r'' c
    else (raise (value_error "Invalid log budget participant"), c)

-- `finish`
unfoldable pub finish :
    String → String → String → Round → Round → Round → Cell → Result (Unit {0}) × Cell
unfolding compare_and_swap
finish project who token r r' r'' c =
    if not (is_participant who)
    then (raise (value_error "Invalid log budget participant"), c)
    else if not (is_token token)
    then (raise (value_error "Invalid log budget token"), c)
    else compare_and_swap (completing who token) project r r' r'' c
